-- ===== src/Readers.antt =====
-- readers.go: readers of a key at hand, and of keys that a crypter decrypts. The readers of files are in a
-- child.
pub mod Single
pub mod Pbe
pub mod Files
pub mod Imported
use dkeyczar.Prelude.{
  Bytes, Result, ok, err, ◌>>=◌, false, codes, ℤ, pos, eq_ℤ, if◌then◌else◌, [], ◌∷◌,
  no_such_key_version,
}
use dkeyczar.Crypto.{RsaPublic, RsaPrivate, DsaPrivate}
use dkeyczar.Json.{Json}
use dkeyczar.KeyInfo.{
  KeyMeta, KeyVersion, KeyType, KeyPurpose, t_aes, t_rsa_priv, t_rsa_pub, t_dsa_priv, s_primary,
  p_decrypt_and_encrypt, p_sign_and_verify,
}
use dkeyczar.Keys.Aes.{AesKey, aes_json_from_key}
use dkeyczar.Keys.Rsa.{rsa_json_from_key, rsa_public_json_from_key}
use dkeyczar.Keys.Dsa.{dsa_json_from_key}
use dkeyczar.KeySet.{KeyReader}

abbrev pub version_zero : KeyVersion
version_zero = record { version_number = pos 0; status = s_primary; exportable = false }

-- The made-up metadata of one key.
unfoldable pub imported_meta : Bytes → KeyType → KeyPurpose → KeyMeta
imported_meta name ktype purpose = record {
  name = name;
  type = ktype;
  purpose = purpose;
  encrypted = false;
  versions = version_zero ∷ [];
}

-- GetMetadata and GetKey of the four imported readers, which differ in the types alone.
unfoldable pub imported_reader : Json → KeyMeta → Bytes → KeyReader
imported_reader j km key = record {
  get_metadata = ok (j.meta.marshal km);
  get_key = λ version. if eq_ℤ version (pos 0) then ok key else err no_such_key_version;
}

module _ (j : Json) where
  unfoldable pub imported_aes_key_reader : AesKey → Result KeyReader
  unfolding imported_meta imported_reader
  imported_aes_key_reader key = do
    parsed ← aes_json_from_key key
    ok (
        imported_reader j (imported_meta (codes "Imported AES Key") t_aes p_decrypt_and_encrypt)
          (j.aes.marshal parsed))

  unfoldable pub imported_rsa_private_key_reader : RsaPrivate → KeyPurpose → Result KeyReader
  unfolding imported_meta imported_reader
  imported_rsa_private_key_reader key purpose = do
    parsed ← rsa_json_from_key key
    ok (
        imported_reader j (imported_meta (codes "Imported RSA Private Key") t_rsa_priv purpose)
          (j.rsa.marshal parsed))

  unfoldable pub imported_rsa_public_key_reader : RsaPublic → KeyPurpose → Result KeyReader
  unfolding imported_meta imported_reader
  imported_rsa_public_key_reader key purpose = do
    parsed ← rsa_public_json_from_key key
    ok (
        imported_reader j (imported_meta (codes "Imported RSA Public Key") t_rsa_pub purpose)
          (j.rsa_public.marshal parsed))

  unfoldable pub imported_dsa_private_key_reader : DsaPrivate → Result KeyReader
  unfolding imported_meta imported_reader
  imported_dsa_private_key_reader key = do
    parsed ← dsa_json_from_key key
    ok (
        imported_reader j
          (imported_meta (codes "Imported DSA Private Key") t_dsa_priv p_sign_and_verify)
          (j.dsa.marshal parsed))

-- NewEncryptedReader, with the Decrypt method of its crypter.
unfoldable pub encrypted_reader : KeyReader → (Bytes → Result Bytes) → KeyReader
encrypted_reader reader decrypt = record {
  get_metadata = reader.get_metadata;
  get_key = λ version. reader.get_key version >>= decrypt;
}
