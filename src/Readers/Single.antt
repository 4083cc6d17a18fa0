-- ===== src/Readers/Single.antt =====
-- readers.go and keyczar.go: a key set loaded from a reader of one key holds that key.
use dkeyczar.Prelude.{
  ℕ, length, ◌≡◌, refl, Bytes, true, ok, ◌>>=◌, [], ◌∷◌, pos, ==_refl, false, All, IsAscii,
  lookup_key, set_key, int_eq, nat_eq, some, arith, codes,
}
use dkeyczar.Crypto.{Crypto, CryptoLaws}
use dkeyczar.Json.{Json, JsonLaws, AesKeyJson, AesAscii}
use dkeyczar.KeyInfo.{KeyMeta, KeyPurpose, t_aes, p_decrypt_and_encrypt, is_acceptable_purpose}
use dkeyczar.Util.BigEndian.{uint32}
use dkeyczar.Keys.{KeyData, aes, key_id, key_from_json}
use dkeyczar.Keys.Kinds.{key_id-IsId, id_of}
use dkeyczar.Keys.Aes.{AesKey, new_aes_key_from_json, aes_key_from_json}
use dkeyczar.Keys.Aes.Storage.{bare, IsAesKey, aes_key_from_json-from_key}
use dkeyczar.KeySet.{
  KeyReader, KeyCzar, bucket, find_primary, load_primary_key, get_primary_key, get_key_for_id,
  new_key_czar, new_keys_from_reader, add_version, read_version, load_for, load_with_primary,
}
use dkeyczar.Readers.{version_zero, imported_meta, imported_reader, imported_aes_key_reader}

-- The set of one key, whose identifier has the hash `h`.
abbrev pub single_set : KeyMeta → KeyData → ℕ → KeyCzar
single_set km k h = record {
  keymeta = km;
  keys = (pos 0, k) ∷ [];
  idkeys = (h, k ∷ []) ∷ [];
  primary = pos 0;
}

-- The first four bytes of an identifier as a number.
pub uint32-total : (b : Bytes) → length b ≡ 4 → (h : ℕ) × (uint32 b ≡ ok h)
unfolding uint32
uint32-total [] e = absurd (omega arith)
uint32-total (x ∷ []) e = absurd (omega arith)
uint32-total (x ∷ y ∷ []) e = absurd (omega arith)
uint32-total (x ∷ y ∷ z ∷ []) e = absurd (omega arith)
uint32-total (x ∷ y ∷ z ∷ w ∷ rest) e = (_, refl)

pub load_with_primary-imported_reader :
    (c : Crypto) (j : Json) (jlaws : JsonLaws j) (km : KeyMeta) (key : Bytes) (k : KeyData)
    (p : KeyPurpose) (h : ℕ)
    → km.versions ≡ version_zero ∷ []
    → All IsAscii km.name
    → key_from_json j km.type key ≡ ok k
    → uint32 (key_id c k) ≡ ok h
    → is_acceptable_purpose km.purpose p ≡ ok true
    → load_with_primary c j p (imported_reader j km key) ≡ ok (single_set km k h)
unfolding load_with_primary load_for new_key_czar imported_reader load_primary_key find_primary
    set_key bucket lookup_key new_keys_from_reader add_version read_version
load_with_primary-imported_reader c j jlaws km key k p h one ascii parsed hashed acceptable =
    rw (jlaws.meta_lem km ascii, one, parsed, hashed, acceptable) refl

abbrev pub imported_aes_meta : KeyMeta
imported_aes_meta = record {
  name = codes "Imported AES Key";
  type = t_aes;
  purpose = p_decrypt_and_encrypt;
  encrypted = false;
  versions = version_zero ∷ [];
}

pub single_set-primary :
    (km : KeyMeta) (k : KeyData) (h : ℕ) → get_primary_key (single_set km k h) ≡ some k
unfolding get_primary_key lookup_key
single_set-primary km k h = refl

pub single_set-found :
    (km : KeyMeta) (k : KeyData) (h : ℕ) (id : Bytes)
    → uint32 id ≡ ok h
    → get_key_for_id (single_set km k h) id ≡ ok (k ∷ [])
unfolding get_key_for_id bucket lookup_key
single_set-found km k h id e = rw (e, ==_refl h) refl

bare_id : (k : AesKey) → id_of (aes (bare k)) ≡ []
unfolding id_of
bare_id k = refl

aes_read :
    (j : Json) (parsed : AesKeyJson) (k : AesKey)
    → JsonLaws j
    → AesAscii parsed
    → aes_key_from_json parsed ≡ ok k
    → key_from_json j t_aes (j.aes.marshal parsed) ≡ ok (aes k)
unfolding key_from_json new_aes_key_from_json
aes_read j parsed k jlaws ascii read = rw (jlaws.aes_lem parsed ascii, read) refl

-- The imported reader of a key, its hash, and the set that each constructor loads from it.
pub imported_aes :
    (c : Crypto) (j : Json) (k : AesKey)
    → CryptoLaws c
    → JsonLaws j
    → IsAesKey k
    → (r : KeyReader) × (h : ℕ) × (imported_aes_key_reader j k ≡ ok r)
      × (uint32 (key_id c (aes (bare k))) ≡ ok h)
      × ((p : KeyPurpose)
          → is_acceptable_purpose p_decrypt_and_encrypt p ≡ ok true
          → load_with_primary c j p r ≡ ok (single_set imported_aes_meta (aes (bare k)) h))
unfolding imported_aes_key_reader imported_meta
imported_aes c j k laws jlaws v =
    let (parsed, written, read, ascii) = aes_key_from_json-from_key k v in
    let stored = aes_read j parsed (bare k) jlaws ascii read in
    let (h, hashed) =
      uint32-total (key_id c (aes (bare k))) (key_id-IsId c laws (aes (bare k)) (bare_id k)).0 in
    (
      imported_reader j imported_aes_meta (j.aes.marshal parsed),
      h,
      rw (written, imported_aes_key_reader) refl,
      hashed,
      λ p acceptable.
          load_with_primary-imported_reader c j jlaws imported_aes_meta (j.aes.marshal parsed)
            (aes (bare k)) p h refl (ground arith) stored hashed acceptable,
    )

-- An AES key of a cipher size, with an HMAC key of 32 bytes, is imported; a constructor whose purpose
-- the imported set admits loads a set of that key alone, under the hash of its identifier.
pub load_with_primary-imported_aes_key_reader :
    (c : Crypto) (j : Json) (k : AesKey) (p : KeyPurpose)
    → CryptoLaws c
    → JsonLaws j
    → IsAesKey k
    → is_acceptable_purpose p_decrypt_and_encrypt p ≡ ok true
    → (h : ℕ) × (uint32 (key_id c (aes (bare k))) ≡ ok h)
      × ((imported_aes_key_reader j k >>= load_with_primary c j p)
          ≡ ok (single_set imported_aes_meta (aes (bare k)) h))
load_with_primary-imported_aes_key_reader c j k p laws jlaws v acceptable =
    let (r, h, made, hashed, loaded) = imported_aes c j k laws jlaws v in
    (h, hashed, rw made (loaded p acceptable))
