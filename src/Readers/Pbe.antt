-- ===== src/Readers/Pbe.antt =====
-- readers.go and streams.go: keys encrypted under a password, pbeCrypter and pbeCryptoWriter.
pub mod RoundTrip
pub mod Writer
use dkeyczar.Prelude.{
  ℕ, ◌+◌, ◌-◌, ◌%◌, Bytes, Error, Result, ok, err, panic, ◌>>=◌, ◌>>◌, guard, unsupported_type, [],
  ◌∷◌, ◌++◌, length, take, replicate, ◌&&◌, ◌==◌, bytes_eq, codes, if◌then◌else◌, ℤ, pos,
}
use dkeyczar.Crypto.{Crypto}
use dkeyczar.Json.{Json, PbeKeyJson}
use dkeyczar.Util.Web64.{encode_web64_string, decode_web64_string}
use dkeyczar.Keys.Aes.{block_size, new_cipher, whole_blocks}
use dkeyczar.KeySet.{KeyReader}
use dkeyczar.Readers.{encrypted_reader}

-- cipher.NewCBCEncrypter and NewCBCDecrypter panic on a vector of another length.
abbrev pub cbc_vector : Bytes → Result Bytes
cbc_vector iv = if length iv == block_size then ok iv else panic

-- A call whose error leaves a nil cipher, on which the next call panics.
abbrev pub nil_cipher : Result (Unit {0}) → Result (Unit {0})
nil_cipher (ok u) = ok u
nil_cipher (err e) = panic
nil_cipher panic = panic

-- The key bytes, the vector and the struct without its key.
pub record PbeCipher : Type 0 where
  pub key : Bytes
  pub iv : Bytes
  pub pbe : PbeKeyJson

-- Encrypt pads with spaces.
unfoldable pub pad_spaces : Bytes → Bytes
pad_spaces b = b ++ replicate (block_size - length b % block_size) 32

-- The second argument is the password; `salt` and `iv` are what rand.Reader gives.
unfoldable pub create_aes_cipher : Crypto → Bytes → Bytes → Bytes → Result PbeCipher
create_aes_cipher c password salt iv = do
  salt_text ← encode_web64_string (take 16 salt)
  iv_text ← encode_web64_string (take 16 iv)
  let key = c.pbkdf2 password (take 16 salt) (pos 4096) 16
  nil_cipher (new_cipher key)
  vector ← cbc_vector (take 16 iv)
  ok (record {
    key = key;
    iv = vector;
    pbe = record {
      cipher = codes "AES128";
      hmac = codes "HMAC_SHA1";
      iteration_count = pos 4096;
      iv = iv_text;
      key = [];
      salt = salt_text;
    };
  })

-- The struct with the encrypted key, which Encrypt makes.
unfoldable pub seal : Crypto → Json → PbeCipher → Bytes → Result Bytes
unfolding pad_spaces
seal c j pc plaintext = do
  blocks ← whole_blocks (pad_spaces plaintext)
  text ← encode_web64_string (c.cbc_encrypt pc.key pc.iv blocks)
  ok (j.pbe.marshal (record pc.pbe { key = text }))

module _ (c : Crypto) (j : Json) (password : Bytes) where
  -- The unexported decrypt.
  unfoldable pub pbe_decrypt_json : PbeKeyJson → Result Bytes
  pbe_decrypt_json pbe = do
    guard (bytes_eq pbe.cipher (codes "AES128") && bytes_eq pbe.hmac (codes "HMAC_SHA1"))
        unsupported_type
    salt ← decode_web64_string pbe.salt
    iv ← decode_web64_string pbe.iv
    ciphertext ← decode_web64_string pbe.key
    let key = c.pbkdf2 password salt pbe.iteration_count 16
    new_cipher key
    vector ← cbc_vector iv
    blocks ← whole_blocks ciphertext
    ok (c.cbc_decrypt key vector blocks)

  unfoldable pub pbe_decrypt : Bytes → Result Bytes
  unfolding pbe_decrypt_json
  pbe_decrypt message = do pbe ← j.pbe.unmarshal message; pbe_decrypt_json pbe

  unfoldable pub pbe_encrypt : Bytes → Bytes → Bytes → Result Bytes
  unfolding create_aes_cipher seal
  pbe_encrypt salt iv plaintext = do
    pc ← create_aes_cipher c password salt iv
    seal c j pc plaintext

  -- NewPBEReader
  unfoldable pub new_pbe_reader : KeyReader → KeyReader
  unfolding pbe_decrypt encrypted_reader
  new_pbe_reader reader = encrypted_reader reader pbe_decrypt
