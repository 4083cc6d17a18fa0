-- ===== src/Keys.antt =====
-- keydata.go: the key interfaces. A keydata value is one of six kinds of key; a type assertion to
-- an interface is a test of the kind.
pub mod Texts
pub mod Hmac
pub mod Aes
pub mod Rsa
pub mod Dsa
pub mod Kinds
use dkeyczar.Prelude.{ℕ, Bytes, Bool, true, false, Result, ok, err, panic, ◌>>=◌}
use dkeyczar.Crypto.{Crypto, RsaPrivate, DsaPrivate}
use dkeyczar.Json.{Json}
use dkeyczar.KeyInfo.{
  KeyType, t_aes, t_hmac_sha1, t_dsa_priv, t_dsa_pub, t_rsa_priv, t_rsa_pub, default_size,
}
use Hmac.{
  HmacKey, hmac_key_id, hmac_sign, hmac_verify, hmac_to_key_json, new_hmac_key_from_json,
  generate_hmac_key,
}
use Aes.{
  AesKey, aes_key_id, aes_encrypt, aes_decrypt, aes_to_key_json, new_aes_key_from_json,
  generate_aes_key,
}
use Rsa.{
  RsaKey, RsaPublicKey, rsa_key_id, rsa_public_key_id, rsa_key_sign, rsa_key_verify,
  rsa_public_verify, rsa_key_encrypt, rsa_public_encrypt, rsa_key_decrypt, rsa_to_key_json,
  rsa_public_to_key_json, new_rsa_key_from_json, new_rsa_public_key_from_json, generate_rsa_key,
}
use Dsa.{
  DsaKey, DsaPublicKey, dsa_key_id, dsa_public_key_id, dsa_key_sign, dsa_key_verify,
  dsa_public_verify, dsa_to_key_json, dsa_public_to_key_json, new_dsa_key_from_json,
  new_dsa_public_key_from_json, generate_dsa_key,
}

pub data KeyData : Type 0 where
  aes : AesKey → KeyData
  hmac : HmacKey → KeyData
  dsa_priv : DsaKey → KeyData
  dsa_pub : DsaPublicKey → KeyData
  rsa_priv : RsaKey → KeyData
  rsa_pub : RsaPublicKey → KeyData

-- k.(encryptKey)
unfoldable pub is_encrypt_key : KeyData → Bool
is_encrypt_key (aes k) = true
is_encrypt_key (rsa_priv k) = true
is_encrypt_key (rsa_pub k) = true
is_encrypt_key _ = false

-- k.(decryptEncryptKey)
unfoldable pub is_decrypt_key : KeyData → Bool
is_decrypt_key (aes k) = true
is_decrypt_key (rsa_priv k) = true
is_decrypt_key _ = false

-- k.(verifyKey)
unfoldable pub is_verify_key : KeyData → Bool
is_verify_key (aes k) = false
is_verify_key _ = true

-- k.(signVerifyKey)
unfoldable pub is_sign_key : KeyData → Bool
is_sign_key (hmac k) = true
is_sign_key (dsa_priv k) = true
is_sign_key (rsa_priv k) = true
is_sign_key _ = false

-- k.(streamEncryptKey) and k.(streamDecryptKey): only AES keys have both methods, or either.
unfoldable pub is_stream_key : KeyData → Bool
is_stream_key (aes k) = true
is_stream_key _ = false

module _ (j : Json) where
  unfoldable pub to_key_json : KeyData → Result Bytes
  to_key_json (aes k) = aes_to_key_json j k
  to_key_json (hmac k) = hmac_to_key_json j k
  to_key_json (dsa_priv k) = dsa_to_key_json j k
  to_key_json (dsa_pub k) = dsa_public_to_key_json j k
  to_key_json (rsa_priv k) = rsa_to_key_json j k
  to_key_json (rsa_pub k) = rsa_public_to_key_json j k

  -- The function `f` that newKeyCzar chooses by the key type.
  unfoldable pub key_from_json : KeyType → Bytes → Result KeyData
  key_from_json t_aes s = do k ← new_aes_key_from_json j s; ok (aes k)
  key_from_json t_hmac_sha1 s = do k ← new_hmac_key_from_json j s; ok (hmac k)
  key_from_json t_dsa_priv s = do k ← new_dsa_key_from_json j s; ok (dsa_priv k)
  key_from_json t_dsa_pub s = do k ← new_dsa_public_key_from_json j s; ok (dsa_pub k)
  key_from_json t_rsa_priv s = do k ← new_rsa_key_from_json j s; ok (rsa_priv k)
  key_from_json t_rsa_pub s = do k ← new_rsa_public_key_from_json j s; ok (rsa_pub k)

-- What the random generator gives: bytes for the symmetric keys, and the generated private keys.
pub record Random : Type 0 where
  pub key_bytes : Bytes
  pub hmac_bytes : Bytes
  pub rsa : ℕ → Result RsaPrivate
  pub dsa : Result DsaPrivate

-- It panics for the types of public keys.
unfoldable pub generate_key : Random → KeyType → ℕ → Result KeyData
generate_key r t_aes size = do k ← generate_aes_key r.key_bytes r.hmac_bytes size; ok (aes k)
generate_key r t_hmac_sha1 size = ok (hmac (generate_hmac_key r.hmac_bytes))
generate_key r t_dsa_priv size = do k ← generate_dsa_key r.dsa size; ok (dsa_priv k)
generate_key r t_dsa_pub size = panic
generate_key r t_rsa_priv size = do k ← generate_rsa_key r.rsa size; ok (rsa_priv k)
generate_key r t_rsa_pub size = panic

module _ (c : Crypto) where
  unfoldable pub key_id : KeyData → Bytes
  key_id (aes k) = aes_key_id c k
  key_id (hmac k) = hmac_key_id c k
  key_id (dsa_priv k) = dsa_key_id c k
  key_id (dsa_pub k) = dsa_public_key_id c k
  key_id (rsa_priv k) = rsa_key_id c k
  key_id (rsa_pub k) = rsa_public_key_id c k

  -- k.(encryptKey).Encrypt: a key of another kind fails the assertion.
  unfoldable pub key_encrypt : Bytes → KeyData → Bytes → Result Bytes
  key_encrypt rand (aes k) msg = aes_encrypt c rand k msg
  key_encrypt rand (rsa_priv k) msg = rsa_key_encrypt c rand k msg
  key_encrypt rand (rsa_pub k) msg = rsa_public_encrypt c rand k msg
  key_encrypt rand _ msg = panic

  unfoldable pub key_decrypt : KeyData → Bytes → Result Bytes
  key_decrypt (aes k) msg = aes_decrypt c k msg
  key_decrypt (rsa_priv k) msg = rsa_key_decrypt c k msg
  key_decrypt _ msg = panic

  unfoldable pub key_sign : Bytes → KeyData → Bytes → Result Bytes
  key_sign rand (hmac k) msg = ok (hmac_sign c k msg)
  key_sign rand (dsa_priv k) msg = dsa_key_sign c rand k msg
  key_sign rand (rsa_priv k) msg = rsa_key_sign c rand k msg
  key_sign rand _ msg = panic

  unfoldable pub key_verify : KeyData → Bytes → Bytes → Result Bool
  key_verify (aes k) msg sig = panic
  key_verify (hmac k) msg sig = ok (hmac_verify c k msg sig)
  key_verify (dsa_priv k) msg sig = dsa_key_verify c k msg sig
  key_verify (dsa_pub k) msg sig = dsa_public_verify c k msg sig
  key_verify (rsa_priv k) msg sig = rsa_key_verify c k msg sig
  key_verify (rsa_pub k) msg sig = rsa_public_verify c k msg sig
