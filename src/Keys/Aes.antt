-- ===== src/Keys/Aes.antt =====
-- aes_key.go: AES in CBC mode with an HMAC over header, vector and ciphertext.
pub mod Storage
pub mod Crypt
use dkeyczar.Prelude.{
  ℕ, ◌+◌, ◌-◌, ◌*◌, ◌/◌, ◌%◌, ◌^◌, ◌<◌, ◌≡◌, [], ◌∷◌, ◌++◌, Bytes, Bool, Result, ok, err, panic,
  invalid_key_size, invalid_signature, short_ciphertext, foreign, Error, ◌>>=◌, ◌>>◌, guard, length,
  take, drop, if◌then◌else◌, ◌==◌, ◌||◌, not, ltb, List, ◌&&◌,
}
use dkeyczar.Crypto.{Crypto}
use dkeyczar.Json.{Json, AesKeyJson}
use dkeyczar.KeyInfo.{t_aes, t_hmac_sha1, cm_cbc, is_acceptable_size, default_size}
use dkeyczar.Header.{make_header, kz_header_length}
use dkeyczar.Util.BigEndian.{put_uint32, to_uint32}
use dkeyczar.Util.Packing.{len_prefix_pack, len_prefix_unpack}
use dkeyczar.Util.Padding.{pkcs5pad, pkcs5unpad}
use dkeyczar.Util.Web64.{encode_web64_string}
use dkeyczar.Keys.Texts.{bit_size, decode_text}
use dkeyczar.Keys.Hmac.{HmacKey, fresh, generate_hmac_key, hmac_sig_length, hmac_sign, hmac_verify}

-- aes.BlockSize
abbrev pub block_size : ℕ
block_size = 16

pub record AesKey : Type 0 where
  pub key : Bytes
  pub hmac : HmacKey
  pub id : Bytes

-- generateAESKey; `key` and `hmac_key` are what rand.Reader gives for the two keys, of which the
-- code takes as many bytes as it needs.
unfoldable pub generate_aes_key : Bytes → Bytes → ℕ → Result AesKey
generate_aes_key key hmac_key size = do
  let size' = if size == 0 then default_size t_aes else size
  guard (is_acceptable_size t_aes size') invalid_key_size
  ok (record { key = take (size' / 8) key; hmac = generate_hmac_key hmac_key; id = [] })

unfoldable pub packed_keys : AesKey → Bytes
packed_keys k = len_prefix_pack (k.key ∷ k.hmac.key ∷ [])

-- `len(keys) != 2 || …` on the unpacked slices.
unfoldable pub two_keys : List Bytes → Result AesKey
two_keys (key ∷ hmac_key ∷ []) = do
  guard
      (is_acceptable_size t_aes (bit_size key)
        && is_acceptable_size t_hmac_sha1 (bit_size hmac_key))
      invalid_key_size
  ok (record { key = key; hmac = fresh hmac_key; id = [] })
two_keys _ = err invalid_key_size

unfoldable pub new_aes_from_packed_keys : Bytes → Result AesKey
unfolding two_keys
new_aes_from_packed_keys b = two_keys (len_prefix_unpack b)

unfoldable pub aes_json_from_key : AesKey → Result AesKeyJson
aes_json_from_key k = do
  key_text ← encode_web64_string k.key
  hmac_text ← encode_web64_string k.hmac.key
  ok (record {
    aes_key_string = key_text;
    size = bit_size k.key;
    hmac_key = record { hmac_key_string = hmac_text; size = bit_size k.hmac.key };
    mode = cm_cbc;
  })

-- What newAESKeyFromJSON does after unmarshalling.
unfoldable pub aes_key_from_json : AesKeyJson → Result AesKey
aes_key_from_json parsed = do
  guard (is_acceptable_size t_aes parsed.size) invalid_key_size
  key ← decode_text parsed.aes_key_string
  guard (is_acceptable_size t_hmac_sha1 parsed.hmac_key.size) invalid_key_size
  hmac_key ← decode_text parsed.hmac_key.hmac_key_string
  ok (record { key = key; hmac = fresh hmac_key; id = [] })

module _ (j : Json) where
  unfoldable pub new_aes_key_from_json : Bytes → Result AesKey
  unfolding aes_key_from_json
  new_aes_key_from_json s = do parsed ← j.aes.unmarshal s; aes_key_from_json parsed

  unfoldable pub aes_to_key_json : AesKey → Result Bytes
  unfolding aes_json_from_key
  aes_to_key_json k = do parsed ← aes_json_from_key k; ok (j.aes.marshal parsed)

-- aes.NewCipher's error for any other key length, aes.KeySizeError.
abbrev pub key_size_error : Error
key_size_error = foreign 16

abbrev pub new_cipher : Bytes → Result (Unit {0})
new_cipher key = guard (length key == 16 || (length key == 24 || length key == 32)) key_size_error

-- CryptBlocks panics on input that is not whole blocks.
abbrev pub whole_blocks : Bytes → Result Bytes
whole_blocks b = if length b % block_size == 0 then ok b else panic

module _ (c : Crypto) where
  unfoldable pub aes_key_id : AesKey → Bytes
  aes_key_id k =
      if length k.id == 0
      then take 4 (c.sha1 (put_uint32 (to_uint32 (length k.key)) ++ (k.key ++ k.hmac.key)))
      else k.id

  -- Encrypt; `iv` is what rand.Reader gives for the block of the initialisation vector.
  unfoldable pub aes_encrypt : Bytes → AesKey → Bytes → Result Bytes
  aes_encrypt iv k plaintext = do
    let padded = pkcs5pad plaintext block_size
    new_cipher k.key
    blocks ← whole_blocks padded
    let cipher_bytes = c.cbc_encrypt k.key iv blocks
    let msg = make_header (aes_key_id k) ++ (iv ++ cipher_bytes)
    ok (msg ++ hmac_sign c k.hmac msg)

  unfoldable pub aes_decrypt : AesKey → Bytes → Result Bytes
  aes_decrypt k ciphertext = do
    guard (not (ltb (length ciphertext) (kz_header_length + block_size + hmac_sig_length)))
        short_ciphertext
    let msg = take (length ciphertext - hmac_sig_length) ciphertext
    let sig = drop (length ciphertext - hmac_sig_length) ciphertext
    guard (hmac_verify c k.hmac msg sig) invalid_signature
    let iv = take block_size (drop kz_header_length ciphertext)
    new_cipher k.key
    blocks ← whole_blocks (drop (kz_header_length + block_size) msg)
    pkcs5unpad (c.cbc_decrypt k.key iv blocks)
