-- ===== src/Command/Using.antt =====
-- keyczart/dkeyczart.go, the case usekey of main: one encryption or signature with the key set of a
-- directory. `var se dkeyczar.Crypter` is read as what NewSessionEncrypter returns.
use dkeyczar.Prelude.{
  ◌*◌, ◌%◌, ◌^◌, Bytes, Result, ok, err, panic, some, List, [], ◌∷◌, ℤ, codes, bytes_eq,
  if◌then◌else◌, to_int64, to_uint64,
}
use dkeyczar.Crypto.{Crypto}
use dkeyczar.Json.{Json}
use dkeyczar.Keys.{Random}
use dkeyczar.KeySet.{KeyReader}
use dkeyczar.Crypter.{new_encrypter, encrypt, signed_encrypt}
use dkeyczar.Signer.{KeySigner, new_signer, sign, timeout_sign, unversioned_sign, attached_sign}
use dkeyczar.Session.{new_session_encrypter, new_signed_session_encrypter}
use dkeyczar.Readers.Files.{Files}
use dkeyczar.Command.{
  Disk, missing_input, missing_format, missing_destination, missing_destination2, done, Run, ◌>>=◌,
  ◌>>◌, return, stop, crash, or_crash, load_crypter, load_reader,
}

pub record UseKeyOpts : Type 0 where
  pub format : Bytes
  pub location : Bytes
  pub location2 : Bytes
  pub destination : Bytes
  pub destination2 : Bytes
  pub crypter : Bytes
  pub crypter2 : Bytes

-- What is drawn from rand.Reader.
pub record Draws : Type 0 where
  pub random : Random
  pub encrypting : Bytes
  pub signing : Bytes
  pub session_key : Bytes
  pub session_hmac_key : Bytes
  pub nonce : Bytes
  pub session_encrypting : Bytes

-- t.Unix() * 1000
unfoldable pub ticks_of : ℤ → ℤ
ticks_of seconds = to_int64 ((to_uint64 seconds * 1000) % 2 ^ 64)

abbrev pub nonce_of : List Bytes → Bytes
nonce_of [] = []
nonce_of (nonce ∷ _) = nonce

module _ {D : Type 0} where
  -- A call whose error, printed or dropped, leaves the empty text.
  abbrev pub or_empty_text : Result Bytes → Run D Bytes
  or_empty_text (ok s) = return s
  or_empty_text (err e) = return []
  or_empty_text panic = crash

module _ (c : Crypto) (j : Json) (f : Files) (unix_of : Bytes → ℤ) {D : Type 0} (disk : Disk D)
    (draws : Draws) where
  -- The first output with a key set that signs; a signer that could not be made is nil.
  unfoldable pub signed_output : (KeySigner → Result Bytes) → KeyReader → Run D (Bytes × Bytes)
  signed_output make r = do
    signer ← or_crash (new_signer c j r)
    output ← or_empty_text (make signer)
    return (output, [])

  unfoldable pub crypt_output : KeyReader → Bytes → Run D (Bytes × Bytes)
  crypt_output r input = do
    encrypter ← or_crash (new_encrypter c j r)
    output ← or_empty_text (encrypt c draws.encrypting encrypter input)
    return (output, [])

  -- args[1] panics where it is missing, after the message.
  unfoldable pub timeout_output : KeyReader → Bytes → List Bytes → Run D (Bytes × Bytes)
  unfolding signed_output ticks_of
  timeout_output r input [] = crash
  timeout_output r input (date ∷ _) =
      signed_output (λ signer. timeout_sign c draws.signing signer input (ticks_of (unix_of date)))
        r

  unfoldable pub session_output : KeyReader → Bytes → Run D (Bytes × Bytes)
  session_output r input = do
    e ← or_crash (new_encrypter c j r)
    (se, output) ← or_crash (
        new_session_encrypter c j draws.session_key draws.session_hmac_key
          (encrypt c draws.encrypting e))
    output2 ← or_empty_text (encrypt c draws.session_encrypting se input)
    return (output, output2)

  -- A missing location of the second key set leaves a nil reader, which NewSigner follows.
  unfoldable pub signed_session_output : KeyReader → UseKeyOpts → Bytes → Run D (Bytes × Bytes)
  unfolding load_crypter load_reader
  signed_session_output r o input = do
    c2 ← load_crypter c j f disk o.crypter2
    r2 ← if bytes_eq o.location2 [] then crash else load_reader c j f disk o.location2 c2
    e ← or_crash (new_encrypter c j r)
    s ← or_crash (new_signer c j r2)
    (se, output) ← or_crash (
        new_signed_session_encrypter c j draws.session_key draws.session_hmac_key draws.nonce
          (encrypt c draws.encrypting e) s)
    output2 ← or_empty_text (signed_encrypt c draws.session_encrypting draws.signing se input)
    return (output, output2)

  -- The switch over the format: what is written to the two destinations.
  unfoldable pub outputs : KeyReader → UseKeyOpts → Bytes → List Bytes → Run D (Bytes × Bytes)
  unfolding crypt_output signed_output timeout_output session_output signed_session_output
  outputs r o input more =
      if bytes_eq o.format (codes "crypt")
      then crypt_output r input
      else if bytes_eq o.format (codes "sign")
      then signed_output (λ signer. sign c draws.signing signer input) r
      else if bytes_eq o.format (codes "sign-timeout")
      then timeout_output r input more
      else if bytes_eq o.format (codes "sign-unversioned")
      then signed_output (λ signer. unversioned_sign c draws.signing signer input) r
      else if bytes_eq o.format (codes "sign-attached")
      then signed_output
          (λ signer. attached_sign c draws.signing signer input (some (nonce_of more))) r
      else if bytes_eq o.format (codes "crypt-session")
      then session_output r input
      else if bytes_eq o.format (codes "crypt-signedsession")
      then signed_session_output r o input
      else stop missing_format

  abbrev pub write : Bytes → Bytes → Run D (Unit {0})
  write path s d = (disk.write_file path s d, done tt)

  -- The second output is looked at after the first is written.
  unfoldable pub write_outputs : UseKeyOpts → Bytes × Bytes → Run D (Unit {0})
  write_outputs o (output, output2) =
      if bytes_eq o.destination [] then stop missing_destination else (do
        write o.destination output
        if bytes_eq output2 []
            then return tt
            else if bytes_eq o.destination2 []
            then stop missing_destination2
            else write o.destination2 output2)

  unfoldable pub with_input : KeyReader → UseKeyOpts → List Bytes → Run D (Unit {0})
  unfolding outputs write_outputs
  with_input r o [] = stop missing_input
  with_input r o (input ∷ more) = do made ← outputs r o input more; write_outputs o made

  unfoldable pub use_key : UseKeyOpts → List Bytes → Run D (Unit {0})
  unfolding load_crypter load_reader with_input
  use_key o args = do
    crypter ← load_crypter c j f disk o.crypter
    r ← load_reader c j f disk o.location crypter
    with_input r o args
