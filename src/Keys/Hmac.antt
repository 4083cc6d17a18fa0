-- ===== src/Keys/Hmac.antt =====
-- hmac_key.go, the key itself; its streams are not here.
use dkeyczar.Prelude.{
  ℕ, ◌/◌, ◌≡◌, refl, [], Bytes, Bool, Result, ok, invalid_key_size, ◌>>=◌, ◌>>◌, guard, length,
  take, All, IsByte, bytes_eq, if◌then◌else◌, ◌==◌, arith,
}
use dkeyczar.Crypto.{Crypto}
use dkeyczar.Json.{Json, JsonLaws, HmacKeyJson}
use dkeyczar.KeyInfo.{t_hmac_sha1, is_acceptable_size, default_size}
use dkeyczar.Util.Web64.{encode_web64_string}
use dkeyczar.Keys.Texts.{bit_size, decode_text, decode_text-encode}

abbrev pub hmac_sig_length : ℕ
hmac_sig_length = 20

-- `id` is empty until KeyID has been called.
pub record HmacKey : Type 0 where
  pub key : Bytes
  pub id : Bytes

abbrev pub fresh : Bytes → HmacKey
fresh key = record { key = key; id = [] }

-- generateHMACKey; `key` is what rand.Reader gives, of which the code takes 32 bytes.
unfoldable pub generate_hmac_key : Bytes → HmacKey
generate_hmac_key key = fresh (take (default_size t_hmac_sha1 / 8) key)

unfoldable pub hmac_json_from_key : HmacKey → Result HmacKeyJson
hmac_json_from_key k = do
  text ← encode_web64_string k.key
  ok (record { hmac_key_string = text; size = bit_size k.key })

module _ (j : Json) where
  unfoldable pub new_hmac_key_from_json : Bytes → Result HmacKey
  new_hmac_key_from_json s = do
    parsed ← j.hmac.unmarshal s
    guard (is_acceptable_size t_hmac_sha1 parsed.size) invalid_key_size
    key ← decode_text parsed.hmac_key_string
    ok (fresh key)

  unfoldable pub hmac_to_key_json : HmacKey → Result Bytes
  unfolding hmac_json_from_key
  hmac_to_key_json k = do parsed ← hmac_json_from_key k; ok (j.hmac.marshal parsed)

module _ (c : Crypto) where
  -- The result of KeyID.
  unfoldable pub hmac_key_id : HmacKey → Bytes
  hmac_key_id k = if length k.id == 0 then take 4 (c.sha1 k.key) else k.id

  -- KeyID leaves its result in the key.
  unfoldable pub hmac_remember_id : HmacKey → HmacKey
  unfolding hmac_key_id
  hmac_remember_id k = record k { id = hmac_key_id k }

  unfoldable pub hmac_sign : HmacKey → Bytes → Bytes
  hmac_sign k msg = c.hmac_sha1 k.key msg

  unfoldable pub hmac_verify : HmacKey → Bytes → Bytes → Bool
  hmac_verify k msg signature = bytes_eq (c.hmac_sha1 k.key msg) signature

-- A key of 32 bytes is stored, and what is stored is read back as the key.
pub new_hmac_key_from_json-to_key_json :
    (j : Json) (k : HmacKey)
    → JsonLaws j
    → length k.key ≡ 32
    → All IsByte k.key
    → (hmac_to_key_json j k >>= new_hmac_key_from_json j) ≡ ok (fresh k.key)
unfolding hmac_to_key_json new_hmac_key_from_json is_acceptable_size
new_hmac_key_from_json-to_key_json j k laws len bytes =
    let (text, written, read, ascii) = decode_text-encode k.key (ground arith) bytes in
    rw
      (written, laws.hmac_lem (record { hmac_key_string = text; size = bit_size k.key }) ascii, len)
      (rw read refl)

-- Remembering the identifier changes neither it nor what the key signs and accepts.
pub hmac_remember_id_lem :
    (c : Crypto) (k : HmacKey) (msg signature : Bytes)
    → (hmac_key_id c (hmac_remember_id c k) ≡ hmac_key_id c k)
      × (hmac_sign c (hmac_remember_id c k) msg ≡ hmac_sign c k msg)
      × (hmac_verify c (hmac_remember_id c k) msg signature ≡ hmac_verify c k msg signature)
unfolding hmac_key_id hmac_remember_id hmac_sign hmac_verify
hmac_remember_id_lem c k msg signature = (ground arith, refl, refl)
