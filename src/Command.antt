-- ===== src/Command.antt =====
-- keyczart/dkeyczart.go: key sets in directories. The disk, strconv.Itoa and time.Parse are
-- parameters; go-flags, which parses the command line, is left out, and so are the texts printed.
-- The command calls this package by its old path, github.com/dgryski/dkeyczar. One source of random
-- bytes serves all keys of a key set that are encrypted in one go.
pub mod Using
pub mod Main
pub mod Quiet
pub mod Reads
pub mod Stops
pub mod Clear
pub mod Directory
pub mod Lifecycle
pub mod Loads
use dkeyczar.Prelude.{
  ℕ, suc, Bytes, Bool, true, false, Result, ok, err, panic, Error, Option, none, some, List, [],
  ◌∷◌, ◌++◌, ℤ, pos, codes,
}
use dkeyczar.Crypto.{Crypto}
use dkeyczar.Json.{Json}
use dkeyczar.KeySet.{KeyReader, KeyCzar, new_key_czar}
use dkeyczar.Crypter.{KeyCrypter, new_crypter, encrypt, decrypt}
use dkeyczar.Readers.{encrypted_reader}
use dkeyczar.Readers.Files.{Files, new_file_reader}
use dkeyczar.KeyManager.{KeyManager, to_jsons}

-- The disk in a state of type `D`.
pub record Disk (D : Type 0) : Type 0 where
  -- ioutil.ReadFile
  pub read_file : D → Bytes → Result Bytes
  -- ioutil.WriteFile, whose error nothing reads
  pub write_file : Bytes → Bytes → D → D
  -- os.MkdirAll
  pub mkdir_all : Bytes → D → D × Option Error

-- Why the command stops: what it prints before it returns.
pub data Message : Type 0 where
  no_directory missing_purpose unknown_purpose unknown_asymmetric invalid_combination : Message
  missing_location load_failed missing_version unknown_status add_failed missing_input : Message
  missing_format missing_destination missing_destination2 : Message

-- `crashed` is a run-time panic.
pub data Outcome {ℓ} (A : Type ℓ) : Type ℓ where
  done : A → Outcome A
  stopped : Message → Outcome A
  crashed : Outcome A

-- A part of the command: it changes the disk, whatever its outcome.
abbrev pub Run : Type 0 → Type 0 → Type 0
Run D A = D → D × Outcome A

abbrev pub after : {D A B : Type 0} → D × Outcome A → (A → Run D B) → D × Outcome B
after (d, done a) next = next a d
after (d, stopped m) next = (d, stopped m)
after (d, crashed) next = (d, crashed)

infixl 5 ◌>>=◌ ◌>>◌
abbrev pub ◌>>=◌ : {D A B : Type 0} → Run D A → (A → Run D B) → Run D B
◌>>=◌ m next d = after (m d) next

abbrev pub ◌>>◌ : {D B : Type 0} → Run D (Unit {0}) → Run D B → Run D B
m >> next = m >>= λ _. next

abbrev pub return : {D A : Type 0} → A → Run D A
return a d = (d, done a)

abbrev pub stop : {D A : Type 0} → Message → Run D A
stop m d = (d, stopped m)

abbrev pub crash : {D A : Type 0} → Run D A
crash d = (d, crashed)

-- A call whose error makes the command stop.
abbrev pub or_stop : {D A : Type 0} → Message → Result A → Run D A
or_stop m (ok a) = return a
or_stop m (err e) = stop m
or_stop m panic = crash

-- A call whose error leaves a nil that the next call follows.
abbrev pub or_crash : {D A : Type 0} → Result A → Run D A
or_crash (ok a) = return a
or_crash (err e) = crash
or_crash panic = crash

-- The crypter of a directory; an error, which is printed, leaves none.
abbrev pub or_nil : {D A : Type 0} → Result A → Run D (Option A)
or_nil (ok a) = return (some a)
or_nil (err e) = return none
or_nil panic = crash

abbrev pub made : {D : Type 0} → D × Option Error → Run D (Unit {0}) → D × Outcome (Unit {0})
made (d, none) next = next d
made (d, some e) next = (d, stopped no_directory)

module _ (f : Files) {D : Type 0} (disk : Disk D) where
  -- The files as they are now.
  abbrev pub files_at : D → Files
  files_at d = record f { read_file = disk.read_file d }

  -- The loop over the texts from number `i` on.
  unfoldable pub write_keys : Bytes → ℕ → List Bytes → D → D
  write_keys location i [] d = d
  write_keys location i (s ∷ texts) d =
      write_keys location (suc i) texts
        (disk.write_file (location ++ (codes "/" ++ f.itoa (pos i))) s d)

  -- s[0] is always there.
  unfoldable pub write_texts : Bytes → List Bytes → Run D (Unit {0})
  unfolding write_keys
  write_texts location [] d = (d, crashed)
  write_texts location (meta ∷ texts) d =
      (write_keys location 1 texts (disk.write_file (location ++ codes "/meta") meta d), done tt)

module _ (c : Crypto) where
  abbrev pub decrypting : Option KeyCrypter → KeyReader → KeyReader
  decrypting none r = r
  decrypting (some kc) r = encrypted_reader r (decrypt c kc)

  -- The Encrypt method of an encrypter that may be nil.
  abbrev pub encrypting : Bytes → Option KeyCrypter → Option (Bytes → Result Bytes)
  encrypting rand none = none
  encrypting rand (some kc) = some (encrypt c rand kc)

module _ (c : Crypto) (j : Json) (f : Files) {D : Type 0} (disk : Disk D) where
  unfoldable pub load_crypter : Bytes → Run D (Option KeyCrypter)
  unfolding new_file_reader
  load_crypter [] d = (d, done none)
  load_crypter (x ∷ location) d =
      let opened : Run D KeyReader =
        or_crash (new_file_reader (files_at f disk d) (x ∷ location)) in
      (do r ← opened; or_nil (new_crypter c j r)) d

  unfoldable pub load_reader : Bytes → Option KeyCrypter → Run D KeyReader
  unfolding new_file_reader
  load_reader [] crypter d = (d, stopped missing_location)
  load_reader (x ∷ location) crypter d =
      let opened : Run D KeyReader =
        or_crash (new_file_reader (files_at f disk d) (x ∷ location)) in
      (do r ← opened; return (decrypting c crypter r)) d

  -- The key set that the manager holds then.
  unfoldable pub load_location_reader : Bytes → Option KeyCrypter → Run D KeyCzar
  unfolding load_reader
  load_location_reader location crypter = do
    r ← load_reader location crypter
    or_stop load_failed (new_key_czar c j r)

  -- Update; `none` is a nil manager. ToKeyJSON returns no error.
  unfoldable pub update : Bytes → Bytes → Option KeyManager → Option KeyCrypter → Run D (Unit {0})
  unfolding write_texts
  update rand location none encrypter = crash
  update rand location (some km) encrypter = do
    (_, texts) ← or_crash (to_jsons j (encrypting c rand encrypter) km)
    write_texts f disk location texts

  unfoldable pub save : Bytes → Bytes → Option KeyManager → Option KeyCrypter → Run D (Unit {0})
  unfolding update
  save rand location km encrypter d =
      made (disk.mkdir_all location d) (update rand location km encrypter)
