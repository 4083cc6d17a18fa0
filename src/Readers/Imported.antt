-- ===== src/Readers/Imported.antt =====
-- readers.go: RSA keys imported from files, loaded.
use dkeyczar.Prelude.{ℕ, ◌≡◌, refl, Bytes, true, false, ok, ◌>>=◌, [], ◌∷◌, codes, arith}
use dkeyczar.Crypto.{Crypto, CryptoLaws, RsaPrivate}
use dkeyczar.Json.{Json, JsonLaws, RsaKeyJson, RsaAscii}
use dkeyczar.KeyInfo.{
  KeyMeta, KeyPurpose, t_rsa_priv, p_sign_and_verify, p_decrypt_and_encrypt, is_acceptable_purpose,
}
use dkeyczar.Util.BigEndian.{uint32}
use dkeyczar.Keys.{KeyData, rsa_priv, key_id, key_from_json}
use dkeyczar.Keys.Kinds.{id_of, key_id-IsId}
use dkeyczar.Keys.Rsa.{rsa_key_from_json, new_rsa_key_from_json}
use dkeyczar.Keys.Rsa.Storage.{IsPrivate, rsa_key_from_json-from_key}
use dkeyczar.KeySet.{load_with_primary}
use dkeyczar.Readers.{version_zero, imported_meta, imported_rsa_private_key_reader}
use dkeyczar.Readers.Single.{single_set, uint32-total, load_with_primary-imported_reader}
use dkeyczar.Readers.Files.{
  Files, get_rsa_key_from_pem, import_rsa_key_from_pem_for_signing,
  import_rsa_key_from_pem_for_crypt,
}

-- An imported private key, with its public half.
abbrev pub private_key : RsaPrivate → KeyData
private_key k = rsa_priv (record { key = k; public_key = record { key = k.public; id = [] } })

private_id : (k : RsaPrivate) → id_of (private_key k) ≡ []
unfolding id_of
private_id k = refl

abbrev pub private_meta : KeyPurpose → KeyMeta
private_meta purpose = record {
  name = codes "Imported RSA Private Key";
  type = t_rsa_priv;
  purpose = purpose;
  encrypted = false;
  versions = version_zero ∷ [];
}

private_read :
    (j : Json) (parsed : RsaKeyJson) (k : RsaPrivate)
    → JsonLaws j
    → RsaAscii parsed
    → rsa_key_from_json parsed
      ≡ ok (record { key = k; public_key = record { key = k.public; id = [] } })
    → key_from_json j t_rsa_priv (j.rsa.marshal parsed) ≡ ok (private_key k)
unfolding key_from_json new_rsa_key_from_json
private_read j parsed k jlaws ascii read = rw (jlaws.rsa_lem parsed ascii, read) refl

imported_private :
    (c : Crypto) (j : Json) (k : RsaPrivate) (purpose p : KeyPurpose) (h : ℕ)
    → JsonLaws j
    → IsPrivate k
    → uint32 (key_id c (private_key k)) ≡ ok h
    → is_acceptable_purpose purpose p ≡ ok true
    → (imported_rsa_private_key_reader j k purpose >>= load_with_primary c j p)
      ≡ ok (single_set (private_meta purpose) (private_key k) h)
unfolding imported_rsa_private_key_reader imported_meta
imported_private c j k purpose p h jlaws v hashed acceptable =
    let (parsed, written, read, ascii) = rsa_key_from_json-from_key k v in
    rw (written, imported_rsa_private_key_reader)
      (load_with_primary-imported_reader c j jlaws (private_meta purpose) (j.rsa.marshal parsed)
        (private_key k) p h refl (ground arith) (private_read j parsed k jlaws ascii read) hashed
        acceptable)

-- A private RSA key of an acceptable size, with positive numbers and an exponent that fits an int64,
-- that x509 finds in a PEM file: the reader for signing loads, as NewSigner loads it, as a set of that key alone with the
-- purpose of signing, and the reader for encryption, as NewCrypter loads it, as one with the purpose of
-- decrypting, both under the hash of the identifier of the key.
pub load_with_primary-import_rsa_key :
    (c : Crypto) (j : Json) (f : Files) (location : Bytes) (k : RsaPrivate)
    → CryptoLaws c
    → JsonLaws j
    → get_rsa_key_from_pem f location ≡ ok k
    → IsPrivate k
    → (h : ℕ) × (uint32 (key_id c (private_key k)) ≡ ok h)
      × ((import_rsa_key_from_pem_for_signing f j location
            >>= load_with_primary c j p_sign_and_verify)
          ≡ ok (single_set (private_meta p_sign_and_verify) (private_key k) h))
      × ((import_rsa_key_from_pem_for_crypt f j location
            >>= load_with_primary c j p_decrypt_and_encrypt)
          ≡ ok (single_set (private_meta p_decrypt_and_encrypt) (private_key k) h))
unfolding import_rsa_key_from_pem_for_signing import_rsa_key_from_pem_for_crypt
    is_acceptable_purpose
load_with_primary-import_rsa_key c j f location k laws jlaws found v =
    let (h, hashed) =
      uint32-total (key_id c (private_key k))
        (key_id-IsId c laws (private_key k) (private_id k)).0 in
    (
      h,
      hashed,
      rw found (imported_private c j k p_sign_and_verify p_sign_and_verify h jlaws v hashed refl),
      rw found (
          imported_private c j k p_decrypt_and_encrypt p_decrypt_and_encrypt h jlaws v hashed refl),
    )
