-- ===== src/Keys/Aes/Storage.antt =====
-- aes_key.go: stored and packed keys come back as they were.
use dkeyczar.Prelude.{
  ◌^◌, ◌<◌, ◌≡◌, ◌≢◌, refl, [], ◌∷◌, Bytes, true, ok, ◌>>=◌, length, All, IsByte, arith, inl, inr,
}
use dkeyczar.Crypto.{IsCipherKey}
use dkeyczar.Json.{Json, JsonLaws, AesKeyJson, AesAscii}
use dkeyczar.KeyInfo.{t_aes, t_hmac_sha1, cm_cbc, is_acceptable_size}
use dkeyczar.Util.Packing.{len_prefix_unpack-len_prefix_pack}
use dkeyczar.Keys.Texts.{bit_size, decode_text-encode}
use dkeyczar.Keys.Hmac.{fresh}
use dkeyczar.Keys.Aes.{
  AesKey, packed_keys, new_aes_from_packed_keys, aes_json_from_key, aes_key_from_json,
  new_aes_key_from_json, aes_to_key_json,
}

-- The key material without the remembered identifiers.
abbrev pub bare : AesKey → AesKey
bare k = record { key = k.key; hmac = fresh k.hmac.key; id = [] }

pub record IsAesKey (k : AesKey) : Type 0 where
  pub cipher : IsCipherKey k.key
  pub hmac_length : length k.hmac.key ≡ 32
  pub key_bytes : All IsByte k.key
  pub hmac_bytes : All IsByte k.hmac.key

pub cipher_size : (key : Bytes) → IsCipherKey key → is_acceptable_size t_aes (bit_size key) ≡ true
unfolding is_acceptable_size
cipher_size key (inl e) = rw e refl
cipher_size key (inr (inl e)) = rw e refl
cipher_size key (inr (inr e)) = rw e refl

pub hmac_size :
    (key : Bytes) → length key ≡ 32 → is_acceptable_size t_hmac_sha1 (bit_size key) ≡ true
unfolding is_acceptable_size
hmac_size key e = rw e refl

pub cipher-ne-nil : (key : Bytes) → IsCipherKey key → key ≢ []
cipher-ne-nil key h = ground arith

-- For a key of a cipher size, with an HMAC key of 32 bytes, the packed keys are read back as the
-- same key material.
pub new_aes_from_packed_keys-packed_keys :
    (k : AesKey) → IsAesKey k → new_aes_from_packed_keys (packed_keys k) ≡ ok (bare k)
unfolding new_aes_from_packed_keys packed_keys
new_aes_from_packed_keys-packed_keys k v =
    rw
      (
        len_prefix_unpack-len_prefix_pack (k.key ∷ k.hmac.key ∷ []) (omega arith) short,
        new_aes_from_packed_keys,
        cipher_size k.key v.cipher,
        hmac_size k.hmac.key v.hmac_length,
      )
      refl
  where
    short : All (λ a. length a < 2 ^ 32) (k.key ∷ k.hmac.key ∷ [])
    short = ground arith

-- The JSON struct of a key gives the key material back.
pub aes_key_from_json-from_key :
    (k : AesKey)
    → IsAesKey k
    → (parsed : AesKeyJson) × (aes_json_from_key k ≡ ok parsed)
      × (aes_key_from_json parsed ≡ ok (bare k))
      × AesAscii parsed
unfolding aes_json_from_key aes_key_from_json
aes_key_from_json-from_key k v =
    let (key_text, key_written, key_read, key_ascii) =
      decode_text-encode k.key (cipher-ne-nil k.key v.cipher) v.key_bytes in
    let (hmac_text, hmac_written, hmac_read, hmac_ascii) =
      decode_text-encode k.hmac.key (ground (arith, v.hmac_length)) v.hmac_bytes in
    (
      record {
        aes_key_string = key_text;
        size = bit_size k.key;
        hmac_key = record { hmac_key_string = hmac_text; size = bit_size k.hmac.key };
        mode = cm_cbc;
      },
      rw (key_written, hmac_written) refl,
      rw (cipher_size k.key v.cipher, hmac_size k.hmac.key v.hmac_length)
          (rw (key_read, hmac_read) refl),
      (key_ascii, hmac_ascii),
    )

-- A key of a cipher size, with an HMAC key of 32 bytes, is stored as JSON, and what is stored is
-- read back as the same key material.
pub new_aes_key_from_json-to_key_json :
    (j : Json) (k : AesKey)
    → JsonLaws j
    → IsAesKey k
    → (aes_to_key_json j k >>= new_aes_key_from_json j) ≡ ok (bare k)
unfolding aes_to_key_json new_aes_key_from_json
new_aes_key_from_json-to_key_json j k laws v =
    let (parsed, written, read, ascii) = aes_key_from_json-from_key k v in
    rw (written, aes_to_key_json) (rw (laws.aes_lem parsed ascii) read)
