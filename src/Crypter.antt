-- ===== src/Crypter.antt =====
-- keyczar.go, the types keyCrypter, keySignedEncypter and keySignedDecrypter; the writer of
-- keyCryptStreamer is in Streaming.
pub mod Ready
pub mod RoundTrip
pub mod Piped
pub mod Soundness
pub mod Streaming
use dkeyczar.Prelude.{
  ℕ, Bytes, Bool, true, false, Result, ok, err, panic, ◌>>=◌, ◌>>◌, guard, Option, none, some, List,
  [], ◌∷◌, if◌then◌else◌, short_ciphertext, invalid_signature, cannot_stream,
}
use dkeyczar.Crypto.{Crypto}
use dkeyczar.Json.{Json}
use dkeyczar.KeyInfo.{p_decrypt_and_encrypt, p_encrypt}
use dkeyczar.Header.{split_header, split_header_bytes}
use dkeyczar.Keys.{KeyData, key_encrypt, key_decrypt, is_encrypt_key, is_decrypt_key, is_stream_key}
use dkeyczar.KeySet.{KeyReader, KeyCzar, get_primary_key, get_key_for_id, load_with_primary}
use dkeyczar.Controllers.{
  Encoding, base64w, Compression, no_compression, encode, decode, compress, decompress,
}
use dkeyczar.Signer.{KeySigner, attached_sign, attached_verify}

pub record KeyCrypter : Type 0 where
  pub kz : KeyCzar
  pub encoding : Encoding
  pub compression : Compression

-- keySignedEncypter and keySignedDecrypter, whose Signer or Verifier is a keySigner. Their own
-- encoding is never used.
pub record SignedCrypter : Type 0 where
  pub kz : KeyCzar
  pub compression : Compression
  pub nonce : Option Bytes
  pub signer : KeySigner

-- key.(encryptKey) of the primary key; a nil key fails the assertion.
unfoldable pub encrypting_key : KeyCzar → Result KeyData
encrypting_key kz = elim (get_primary_key kz) [
  | none ↦ panic
  | some k ↦ if is_encrypt_key k then ok k else panic
]

module _ (c : Crypto) where
  -- The loops over the keys: the first that decrypts decides. `refused` is what the loop returns at
  -- a key with no Decrypt method.
  unfoldable pub decrypt_any : Result Bytes → Compression → List KeyData → Bytes → Result Bytes
  decrypt_any refused m [] b = err invalid_signature
  decrypt_any refused m (k ∷ ks) b = elim (is_decrypt_key k) [
    | false ↦ refused
    | true ↦ elim (key_decrypt c k b) [
      | ok compressed ↦ decompress c m compressed
      | err e ↦ decrypt_any refused m ks b
      | panic ↦ panic
    ]
  ]

  -- keyCrypter.Encrypt
  unfoldable pub encrypt : Bytes → KeyCrypter → Bytes → Result Bytes
  unfolding encrypting_key
  encrypt rand kc plaintext = do
    key ← encrypting_key kc.kz
    ciphertext ← key_encrypt c rand key (compress c kc.compression plaintext)
    encode kc.encoding ciphertext

  -- keyCrypter.Decrypt
  unfoldable pub decrypt : KeyCrypter → Bytes → Result Bytes
  unfolding decrypt_any
  decrypt kc ciphertext = do
    (b, kl) ← split_header (get_key_for_id kc.kz) (decode kc.encoding) ciphertext short_ciphertext
    decrypt_any (err cannot_stream) kc.compression kl b

  -- keySignedEncypter.Encrypt; the signature draws from `rand_sign`.
  unfoldable pub signed_encrypt : Bytes → Bytes → SignedCrypter → Bytes → Result Bytes
  unfolding encrypting_key
  signed_encrypt rand rand_sign kc plaintext = do
    key ← encrypting_key kc.kz
    ciphertext ← key_encrypt c rand key (compress c kc.compression plaintext)
    attached_sign c rand_sign kc.signer ciphertext kc.nonce

  -- keySignedDecrypter.Decrypt
  unfoldable pub signed_decrypt : SignedCrypter → Bytes → Result Bytes
  unfolding decrypt_any
  signed_decrypt kc signed_ciphertext = do
    ciphertext ← attached_verify c kc.signer signed_ciphertext kc.nonce
    (b, kl) ← split_header_bytes (get_key_for_id kc.kz) ciphertext short_ciphertext
    decrypt_any panic kc.compression kl b

module _ (c : Crypto) (j : Json) where
  unfoldable pub new_crypter : KeyReader → Result KeyCrypter
  new_crypter r = do
    kz ← load_with_primary c j p_decrypt_and_encrypt r
    ok (record { kz = kz; encoding = base64w; compression = no_compression })

  unfoldable pub new_encrypter : KeyReader → Result KeyCrypter
  new_encrypter r = do
    kz ← load_with_primary c j p_encrypt r
    ok (record { kz = kz; encoding = base64w; compression = no_compression })

  -- NewSignedEncrypter and NewSignedDecrypter make the same checks.
  unfoldable pub new_signed_crypter : KeyReader → KeySigner → Option Bytes → Result SignedCrypter
  new_signed_crypter r signer nonce = do
    kz ← load_with_primary c j p_decrypt_and_encrypt r
    ok (record { kz = kz; compression = no_compression; nonce = nonce; signer = signer })

  -- The test of NewCryptStreamer and NewEncryptStreamer.
  abbrev pub can_stream : Option KeyData → Bool
  can_stream none = false
  can_stream (some k) = is_stream_key k

  unfoldable pub streamer : KeyCrypter → Result KeyCrypter
  streamer kc = do guard (can_stream (get_primary_key kc.kz)) cannot_stream; ok kc

  unfoldable pub new_crypt_streamer : KeyReader → Result KeyCrypter
  unfolding new_crypter streamer
  new_crypt_streamer r = new_crypter r >>= streamer

  unfoldable pub new_encrypt_streamer : KeyReader → Result KeyCrypter
  unfolding new_encrypter streamer
  new_encrypt_streamer r = new_encrypter r >>= streamer
