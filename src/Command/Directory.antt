-- ===== src/Command/Directory.antt =====
-- keyczart/dkeyczart.go, Update, and loadLocationReader: what is written to a directory is loaded
-- from it.
use dkeyczar.Prelude.{
  ℕ, suc, ◌≤◌, ◌≡◌, ◌≢◌, refl, ap, ◌∙◌, Bytes, false, Result, ok, Option, none, some, List, [], ◌∷◌,
  ◌++◌, append_assoc, pos, codes, map, length, ◌==◌, arith, minus_one, All, IsAscii,
}
use dkeyczar.Crypto.{Crypto, CryptoLaws}
use dkeyczar.Json.{Json, JsonLaws}
use dkeyczar.Util.Padding.{last?}
use dkeyczar.KeyInfo.{KeyMeta}
use dkeyczar.Keys.{KeyData}
use dkeyczar.Keys.Kinds.{type_of}
use dkeyczar.KeySet.{KeyReader, KeyCzar, new_key_czar}
use dkeyczar.Readers.Files.{Files, path_separator, with_separator, new_file_reader}
use dkeyczar.KeyManager.Storable.{forgetting, IsStorable}
use dkeyczar.KeyManager.Counting.{Holds}
use dkeyczar.KeyManager.Served.{
  IsStorableSet, IsNumbered, IsFree, Serves, Texts, latest, new_key_czar-Serves,
}
use dkeyczar.KeyManager.Stored.{to_jsons-Texts}
use dkeyczar.Command.{
  Disk, done, load_reader, load_location_reader, write_keys, write_texts, update, files_at,
}
use dkeyczar.Command.Main.{manager}

-- strconv.Itoa
pub record ItoaLaws (f : Files) : Type 0 where
  pub itoa_injective : (a b : ℕ) → f.itoa (pos a) ≡ f.itoa (pos b) → a ≡ b
  pub itoa_not_meta : (a : ℕ) → f.itoa (pos a) ≢ codes "meta"

-- The file of a version, or that of the metadata.
abbrev pub file_name : Files → Option ℕ → Bytes
file_name f none = codes "meta"
file_name f (some i) = f.itoa (pos i)

abbrev pub path_of : Bytes → Bytes → Bytes
path_of location name = location ++ path_separator ∷ name

-- A directory, named without a separator at its end, whose files can be written: a file holds what
-- was written to it last.
pub record IsDirectory (f : Files) {D : Type 0} (disk : Disk D) (location : Bytes) : Type 0 where
  pub ending : ℕ
  pub ends : last? location ≡ some ending
  pub no_separator : (ending == path_separator) ≡ false
  pub read_written :
      (a : Option ℕ) (s : Bytes) (d : D)
      → disk.read_file
          (disk.write_file (path_of location (file_name f a)) s d)
          (path_of location (file_name f a))
        ≡ ok s
  pub read_other :
      (a b : Option ℕ) (s : Bytes) (d : D)
      → file_name f a ≢ file_name f b
      → disk.read_file
          (disk.write_file (path_of location (file_name f a)) s d)
          (path_of location (file_name f b))
        ≡ disk.read_file d (path_of location (file_name f b))

module _ (f : Files) {D : Type 0} (disk : Disk D) (location : Bytes) where
  abbrev pub content : D → Option ℕ → Result Bytes
  content d a = disk.read_file d (path_of location (file_name f a))

  -- The files of the versions from `i` on hold these texts.
  abbrev pub HoldTexts : D → ℕ → List Bytes → Type 0
  HoldTexts d i [] = Unit
  HoldTexts d i (s ∷ texts) = (content d (some i) ≡ ok s) × HoldTexts d (suc i) texts

  pub directory_reader : D → KeyReader
  directory_reader d = record {
    get_metadata = disk.read_file d ((location ++ path_separator ∷ []) ++ codes "meta");
    get_key = λ version. disk.read_file d ((location ++ path_separator ∷ []) ++ f.itoa version);
  }

  path_lem : (name : Bytes) → (location ++ path_separator ∷ []) ++ name ≡ path_of location name
  path_lem name = append_assoc location (path_separator ∷ []) name

  pub directory_reader-meta :
      (d : D) (s : Bytes) → content d none ≡ ok s → (directory_reader d).get_metadata ≡ ok s
  unfolding directory_reader
  directory_reader-meta d s e = ap (disk.read_file d) (path_lem (codes "meta")) ∙ e

  pub directory_reader-Serves :
      (d : D) (i : ℕ) (texts : List Bytes)
      → HoldTexts d i texts
      → Serves (directory_reader d) i texts
  unfolding directory_reader
  directory_reader-Serves d i [] h = tt
  directory_reader-Serves d i (s ∷ texts) (e, h) = (
    ap (disk.read_file d) (path_lem (f.itoa (pos i))) ∙ e,
    directory_reader-Serves d (suc i) texts h,
  )

  module _ (names : ItoaLaws f) (dir : IsDirectory f disk location) where
    -- Writing the texts from `i` on leaves the other files alone.
    write_keys-other :
        (a : Option ℕ) (i : ℕ) (texts : List Bytes) (d : D)
        → ((x : ℕ) → i ≤ x → file_name f (some x) ≢ file_name f a)
        → content (write_keys f disk location i texts d) a ≡ content d a
    unfolding write_keys
    write_keys-other a i [] d ne = refl
    write_keys-other a i (s ∷ texts) d ne =
        write_keys-other a (suc i) texts
          (disk.write_file (path_of location (file_name f (some i))) s d)
          (λ x le. ne x (omega arith))
        ∙ dir.read_other (some i) a s d (ne i (omega arith))

    write_keys-HoldTexts :
        (i : ℕ) (texts : List Bytes) (d : D)
        → HoldTexts (write_keys f disk location i texts d) i texts
    unfolding write_keys
    write_keys-HoldTexts i [] d = tt
    write_keys-HoldTexts i (s ∷ texts) d =
        let d' = disk.write_file (path_of location (file_name f (some i))) s d in
        (
          write_keys-other (some i) (suc i) texts d'
                (λ x le same. absurd (omega (arith, names.itoa_injective x i same)))
              ∙ dir.read_written (some i) s d,
          write_keys-HoldTexts (suc i) texts d',
        )

    -- The files of a directory after Update has written these texts to it.
    pub write_texts_lem :
        (meta : Bytes) (texts : List Bytes) (d : D)
        → (d' : D) × (write_texts f disk location (meta ∷ texts) d ≡ (d', done tt))
          × (content d' none ≡ ok meta)
          × HoldTexts d' 1 texts
    unfolding write_texts
    write_texts_lem meta texts d =
        let d' = disk.write_file (path_of location (codes "meta")) meta d in
        (
          write_keys f disk location 1 texts d',
          refl,
          write_keys-other none 1 texts d' (λ x le. names.itoa_not_meta x)
              ∙ dir.read_written none meta d,
          write_keys-HoldTexts 1 texts d',
        )

    new_file_reader-directory :
        (d : D) → new_file_reader (files_at f disk d) location ≡ ok (directory_reader d)
    unfolding new_file_reader with_separator directory_reader
    new_file_reader-directory d = rw (with_separator_lem) refl
      where
        with_separator_lem : with_separator location ≡ ok (location ++ path_separator ∷ [])
        with_separator_lem = rw (with_separator, dir.ends) (rw dir.no_separator refl)

-- The directory holds the texts of a key set with these metadata and, under the numbers from 1 on,
-- these keys, which can be stored.
pub record HoldsSet (j : Json) (f : Files) {D : Type 0} (disk : Disk D) (location : Bytes) (d : D)
    (meta : KeyMeta) (ks : List KeyData) : Type 0 where
  pub texts : List Bytes
  pub are : Texts j meta.type ks texts
  pub meta_text : content f disk location d none ≡ ok (j.meta.marshal meta)
  pub files : HoldTexts f disk location d 1 texts
  pub numbered : IsNumbered 1 meta.versions
  pub complete : length meta.versions ≡ length ks
  pub storable : All (λ k. (type_of k ≡ meta.type) × IsStorable k) ks
  pub ascii : All IsAscii meta.name

module _ (c : Crypto) (j : Json) (f : Files) {D : Type 0} (disk : Disk D) where
  load_reader-opened :
      (location : Bytes) (d : D) (r : KeyReader)
      → new_file_reader (files_at f disk d) location ≡ ok r
      → load_reader c j f disk location none d ≡ (d, done r)
  unfolding load_reader new_file_reader with_separator
  load_reader-opened [] d r e = cc
  load_reader-opened (x ∷ location) d r e = rw e refl

  module _ (location : Bytes) (names : ItoaLaws f) (dir : IsDirectory f disk location) where
    -- What loads from the reader of a directory loads from the directory.
    load_location_reader-directory :
        (d : D) (kz : KeyCzar)
        → new_key_czar c j (directory_reader f disk location d) ≡ ok kz
        → load_location_reader c j f disk location none d ≡ (d, done kz)
    unfolding load_location_reader
    load_location_reader-directory d kz e =
        rw
          (
            load_reader-opened location d (directory_reader f disk location d)
                (new_file_reader-directory f disk location names dir d),
            e,
          )
          refl

    -- The directory of a complete key set is loaded, with the last PRIMARY version as the primary
    -- one.
    pub load_location_reader-HoldsSet :
        (d : D) (meta : KeyMeta) (ks : List KeyData)
        → CryptoLaws c
        → JsonLaws j
        → HoldsSet j f disk location d meta ks
        → (kz : KeyCzar) × (load_location_reader c j f disk location none d ≡ (d, done kz))
          × (kz.keymeta ≡ meta)
          × (kz.primary ≡ latest minus_one meta.versions)
          × IsFree (suc (length ks)) kz.keys
          × Holds 1 (map forgetting ks) kz.keys
    load_location_reader-HoldsSet d meta ks laws jlaws h =
        let r = directory_reader f disk location d in
        let (kz, loads, same, primary, free, holds) =
          new_key_czar-Serves c j r meta ks h.texts laws jlaws h.ascii h.numbered h.complete h.are
            (directory_reader-meta f disk location d (j.meta.marshal meta) h.meta_text)
            (directory_reader-Serves f disk location d 1 h.texts h.files) in
        (kz, load_location_reader-directory d kz loads, same, primary, free, holds)

    -- Update without an encrypter leaves the directory of the key set.
    pub update-HoldsSet :
        (rand : Bytes) (d : D) (kz : KeyCzar) (ks : List KeyData)
        → JsonLaws j
        → IsStorableSet kz ks
        → (d' : D) × (update c j f disk rand location (manager kz) none d ≡ (d', done tt))
          × HoldsSet j f disk location d' kz.keymeta ks
    unfolding update
    update-HoldsSet rand d kz ks jlaws set =
        let (texts, written, are) = to_jsons-Texts j kz ks jlaws set in
        let (d', wrote, meta, files) =
          write_texts_lem f disk location names dir (j.meta.marshal kz.keymeta) texts d in
        (
          d',
          rw (written, wrote) refl,
          record {
            texts = texts;
            are = are;
            meta_text = meta;
            files = files;
            numbered = set.numbered;
            complete = set.complete;
            storable = set.storable;
            ascii = set.ascii;
          },
        )

    -- In a directory whose files can be written, Update without an encrypter and then loading the
    -- directory give the key set back, if its versions are numbered from 1, it holds a key of its
    -- type for each of them and none behind them, the keys are of sizes and with numbers that their
    -- JSON can hold, and its name is ASCII: the same metadata, the same keys without what KeyID had
    -- remembered, and as `primary` the last version with status PRIMARY.
    pub load_location_reader-update :
        (rand : Bytes) (d : D) (kz : KeyCzar) (ks : List KeyData)
        → CryptoLaws c
        → JsonLaws j
        → IsStorableSet kz ks
        → (d' : D) × (loaded : KeyCzar) × (update c j f disk rand location (manager kz) none d
            ≡ (d', done tt))
          × (load_location_reader c j f disk location none d' ≡ (d', done loaded))
          × (loaded.keymeta ≡ kz.keymeta)
          × (loaded.primary ≡ latest minus_one kz.keymeta.versions)
          × Holds 1 (map forgetting ks) loaded.keys
    load_location_reader-update rand d kz ks laws jlaws set =
        let (d', wrote, held) = update-HoldsSet rand d kz ks jlaws set in
        let (loaded, loads, same, primary, _, holds) =
          load_location_reader-HoldsSet d' kz.keymeta ks laws jlaws held in
        (d', loaded, wrote, loads, same, primary, holds)
