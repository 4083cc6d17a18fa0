-- ===== src/Readers/Files.antt =====
-- readers.go: key sets in a directory, and RSA keys imported from PEM files and certificates. Files,
-- encoding/pem and crypto/x509 are a parameter.
use dkeyczar.Prelude.{
  ℕ, Bytes, Result, ok, err, panic, ◌>>=◌, unsupported_type, Option, none, some, [], ◌∷◌, ◌++◌, ℤ,
  codes, ◌==◌, if◌then◌else◌,
}
use dkeyczar.Crypto.{RsaPublic, RsaPrivate}
use dkeyczar.Json.{Json}
use dkeyczar.KeyInfo.{p_sign_and_verify, p_verify, p_encrypt, p_decrypt_and_encrypt}
use dkeyczar.Util.Padding.{last?}
use dkeyczar.KeySet.{KeyReader}
use dkeyczar.Readers.{imported_rsa_private_key_reader, imported_rsa_public_key_reader}

-- The interface{} that x509 gives for a public key.
pub data PublicKey : Type 0 where
  rsa_key : RsaPublic → PublicKey
  other_key : PublicKey

pub record Files : Type 0 where
  -- ioutil.ReadFile
  pub read_file : Bytes → Result Bytes
  -- the bytes of the first block, if there is one
  pub pem_decode : Bytes → Option Bytes
  pub parse_pkcs1_private_key : Bytes → Result RsaPrivate
  pub parse_pkix_public_key : Bytes → Result PublicKey
  -- the public key of the certificate
  pub parse_certificate : Bytes → Result PublicKey
  -- strconv.Itoa
  pub itoa : ℤ → Bytes

-- os.PathSeparator
abbrev pub path_separator : ℕ
path_separator = 47

-- `location[len(location)-1]` panics on an empty location.
unfoldable pub with_separator : Bytes → Result Bytes
with_separator location = elim (last? location) [
  | none ↦ panic
  | some x ↦ if x == path_separator then ok location else ok (location ++ path_separator ∷ [])
]

-- block.Bytes of a block that may be nil.
unfoldable pub block_bytes : Option Bytes → Result Bytes
block_bytes none = panic
block_bytes (some b) = ok b

-- key.(*rsa.PublicKey)
unfoldable pub as_rsa : PublicKey → Result RsaPublic
as_rsa (rsa_key k) = ok k
as_rsa other_key = err unsupported_type

module _ (f : Files) where
  unfoldable pub new_file_reader : Bytes → Result KeyReader
  unfolding with_separator
  new_file_reader location = do
    directory ← with_separator location
    ok (record {
      get_metadata = f.read_file (directory ++ codes "meta");
      get_key = λ version. f.read_file (directory ++ f.itoa version);
    })

  unfoldable pub get_rsa_key_from_pem : Bytes → Result RsaPrivate
  unfolding block_bytes
  get_rsa_key_from_pem location = do
    buf ← f.read_file location
    block ← block_bytes (f.pem_decode buf)
    f.parse_pkcs1_private_key block

  unfoldable pub get_rsa_public_key_from_pem : Bytes → Result RsaPublic
  unfolding block_bytes as_rsa
  get_rsa_public_key_from_pem location = do
    buf ← f.read_file location
    block ← block_bytes (f.pem_decode buf)
    key ← f.parse_pkix_public_key block
    as_rsa key

  unfoldable pub get_rsa_public_key_from_certificate : Bytes → Result RsaPublic
  unfolding block_bytes as_rsa
  get_rsa_public_key_from_certificate location = do
    buf ← f.read_file location
    block ← block_bytes (f.pem_decode buf)
    key ← f.parse_certificate block
    as_rsa key

  module _ (j : Json) (location : Bytes) where
    unfoldable pub import_rsa_key_from_pem_for_signing : Result KeyReader
    unfolding get_rsa_key_from_pem imported_rsa_private_key_reader
    import_rsa_key_from_pem_for_signing = do
      key ← get_rsa_key_from_pem location
      imported_rsa_private_key_reader j key p_sign_and_verify

    unfoldable pub import_rsa_key_from_pem_for_crypt : Result KeyReader
    unfolding get_rsa_key_from_pem imported_rsa_private_key_reader
    import_rsa_key_from_pem_for_crypt = do
      key ← get_rsa_key_from_pem location
      imported_rsa_private_key_reader j key p_decrypt_and_encrypt

    unfoldable pub import_rsa_public_key_from_pem_for_encryption : Result KeyReader
    unfolding get_rsa_public_key_from_pem imported_rsa_public_key_reader
    import_rsa_public_key_from_pem_for_encryption = do
      key ← get_rsa_public_key_from_pem location
      imported_rsa_public_key_reader j key p_encrypt

    unfoldable pub import_rsa_public_key_from_pem_for_verify : Result KeyReader
    unfolding get_rsa_public_key_from_pem imported_rsa_public_key_reader
    import_rsa_public_key_from_pem_for_verify = do
      key ← get_rsa_public_key_from_pem location
      imported_rsa_public_key_reader j key p_verify

    unfoldable pub import_rsa_public_key_from_certificate_for_verify : Result KeyReader
    unfolding get_rsa_public_key_from_certificate imported_rsa_public_key_reader
    import_rsa_public_key_from_certificate_for_verify = do
      key ← get_rsa_public_key_from_certificate location
      imported_rsa_public_key_reader j key p_verify

    unfoldable pub import_rsa_public_key_from_certificate_for_crypt : Result KeyReader
    unfolding get_rsa_public_key_from_certificate imported_rsa_public_key_reader
    import_rsa_public_key_from_certificate_for_crypt = do
      key ← get_rsa_public_key_from_certificate location
      imported_rsa_public_key_reader j key p_encrypt
