-- ===== src/Session.antt =====
-- session.go and the session material of keydata.go: a fresh AES key that an outer crypter encrypts
-- for the receiver. Its framed streams are not here.
pub mod RoundTrip
pub mod Signed
use dkeyczar.Prelude.{Bytes, Result, ok, err, panic, ◌>>=◌, take, some}
use dkeyczar.Crypto.{Crypto}
use dkeyczar.Json.{Json, SessionMaterialJson}
use dkeyczar.Keys.Texts.{decode_text}
use dkeyczar.Util.Web64.{encode_web64_string}
use dkeyczar.Keys.Aes.{
  AesKey, generate_aes_key, packed_keys, new_aes_from_packed_keys, aes_json_from_key,
  aes_key_from_json,
}
use dkeyczar.Readers.{imported_aes_key_reader}
use dkeyczar.Signer.{KeySigner}
use dkeyczar.Crypter.{
  KeyCrypter, SignedCrypter, new_crypt_streamer, new_encrypt_streamer, new_signed_crypter,
}

pub record SessionMaterial : Type 0 where
  pub key : AesKey
  pub nonce : Bytes

unfoldable pub new_session_material_json : SessionMaterial → Result SessionMaterialJson
new_session_material_json sm = do
  key ← aes_json_from_key sm.key
  text ← encode_web64_string sm.nonce
  ok (record { key = key; nonce = text })

-- The nil key that follows an error of generateAESKey.
abbrev pub or_panic : Result AesKey → Result AesKey
or_panic (ok k) = ok k
or_panic (err e) = panic
or_panic panic = panic

module _ (j : Json) where
  unfoldable pub to_session_material_json : SessionMaterial → Result Bytes
  unfolding new_session_material_json
  to_session_material_json sm = do
    parsed ← new_session_material_json sm
    ok (j.session.marshal parsed)

  -- Its checks of the key are those of newAESKeyFromJSON.
  unfoldable pub new_session_material_from_json : Bytes → Result SessionMaterial
  unfolding aes_key_from_json
  new_session_material_from_json s = do
    parsed ← j.session.unmarshal s
    key ← aes_key_from_json parsed.key
    nonce ← decode_text parsed.nonce
    ok (record { key = key; nonce = nonce })

-- `key`, `hmac_key` and `nonce` are what rand.Reader gives.
module _ (c : Crypto) (j : Json) (key hmac_key : Bytes) where
  -- NewSessionEncrypter, with the Encrypt method of its encrypter.
  unfoldable pub new_session_encrypter : (Bytes → Result Bytes) → Result (KeyCrypter × Bytes)
  unfolding generate_aes_key imported_aes_key_reader new_encrypt_streamer
  new_session_encrypter encrypt = do
    k ← or_panic (generate_aes_key key hmac_key 0)
    r ← imported_aes_key_reader j k
    keys ← encrypt (packed_keys k)
    kc ← new_encrypt_streamer c j r
    ok (kc, keys)

  -- NewSignedSessionEncrypter
  unfoldable pub new_signed_session_encrypter :
      Bytes → (Bytes → Result Bytes) → KeySigner → Result (SignedCrypter × Bytes)
  unfolding generate_aes_key imported_aes_key_reader new_signed_crypter
  new_signed_session_encrypter nonce encrypt signer = do
    k ← or_panic (generate_aes_key key hmac_key 0)
    r ← imported_aes_key_reader j k
    packed ← to_session_material_json j (record { key = k; nonce = take 16 nonce })
    keys ← encrypt packed
    kc ← new_signed_crypter c j r signer (some (take 16 nonce))
    ok (kc, keys)

-- The Decrypt method of the outer crypter comes first.
module _ (c : Crypto) (j : Json) (decrypt : Bytes → Result Bytes) where
  unfoldable pub new_session_decrypter : Bytes → Result KeyCrypter
  unfolding imported_aes_key_reader new_crypt_streamer
  new_session_decrypter session_keys = do
    packed ← decrypt session_keys
    k ← new_aes_from_packed_keys packed
    r ← imported_aes_key_reader j k
    new_crypt_streamer c j r

  -- NewSignedSessionDecrypter, whose Verifier is a keySigner.
  unfoldable pub new_signed_session_decrypter : KeySigner → Bytes → Result SignedCrypter
  unfolding imported_aes_key_reader new_signed_crypter
  new_signed_session_decrypter verifier session_keys = do
    s ← decrypt session_keys
    sm ← new_session_material_from_json j s
    r ← imported_aes_key_reader j sm.key
    new_signed_crypter c j r verifier (some sm.nonce)
