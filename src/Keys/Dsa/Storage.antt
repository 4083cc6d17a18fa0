-- ===== src/Keys/Dsa/Storage.antt =====
-- dsa_key.go: a stored DSA key is read back as it was.
use dkeyczar.Prelude.{◌<◌, ◌≡◌, refl, [], true, ok, ◌>>=◌}
use dkeyczar.Crypto.{DsaPublic, DsaPrivate}
use dkeyczar.Json.{Json, JsonLaws, DsaKeyJson, DsaPublicKeyJson, DsaAscii, DsaPublicAscii}
use dkeyczar.KeyInfo.{t_dsa_priv, t_dsa_pub, is_acceptable_size}
use dkeyczar.Util.BigInt.{int_bytes}
use dkeyczar.Keys.Texts.{bit_size, decode_int-encode_int}
use dkeyczar.Keys.Dsa.{
  DsaPublicKey, DsaKey, dsa_public_json_from_key, dsa_json_from_key, dsa_public_key_from_json,
  dsa_key_from_json, new_dsa_public_key_from_json, new_dsa_key_from_json, dsa_public_to_key_json,
  dsa_to_key_json,
}

-- Positive numbers, with a prime of an acceptable size.
pub record IsPublic (k : DsaPublic) : Type 0 where
  pub p : 0 < k.p
  pub q : 0 < k.q
  pub g : 0 < k.g
  pub y : 0 < k.y
  pub size : is_acceptable_size t_dsa_pub (bit_size (int_bytes k.p)) ≡ true

pub record IsPrivate (k : DsaPrivate) : Type 0 where
  pub public : IsPublic k.public
  pub x : 0 < k.x

-- Of the JSON struct of a public key.
dsa_public_key_from_json-from_key :
    (k : DsaPublic)
    → IsPublic k
    → (parsed : DsaPublicKeyJson) × (dsa_public_json_from_key k ≡ ok parsed)
      × (dsa_public_key_from_json parsed ≡ ok (record { key = k; id = [] }))
      × DsaPublicAscii parsed
unfolding dsa_public_json_from_key dsa_public_key_from_json
dsa_public_key_from_json-from_key k v =
    let (p, p_written, p_read, p_ascii) = decode_int-encode_int k.p v.p in
    let (q, q_written, q_read, q_ascii) = decode_int-encode_int k.q v.q in
    let (g, g_written, g_read, g_ascii) = decode_int-encode_int k.g v.g in
    let (y, y_written, y_read, y_ascii) = decode_int-encode_int k.y v.y in
    (
      record { q = q; p = p; y = y; g = g; size = bit_size (int_bytes k.p) },
      rw (p_written, q_written, y_written, g_written) refl,
      rw (v.size) (rw (y_read, g_read, p_read, q_read) refl),
      (p_ascii, q_ascii, g_ascii, y_ascii),
    )

-- A public key is stored as JSON, and what is stored is read back as the key.
pub new_dsa_public_key_from_json-to_key_json :
    (j : Json) (k : DsaPublicKey)
    → JsonLaws j
    → IsPublic k.key
    → (dsa_public_to_key_json j k >>= new_dsa_public_key_from_json j)
      ≡ ok (record { key = k.key; id = [] })
unfolding dsa_public_to_key_json new_dsa_public_key_from_json
new_dsa_public_key_from_json-to_key_json j k laws v =
    let (parsed, written, read, ascii) = dsa_public_key_from_json-from_key k.key v in
    rw (written, dsa_public_to_key_json) (rw (laws.dsa_public_lem parsed ascii) read)

size_private :
    (k : DsaPublic) → IsPublic k → is_acceptable_size t_dsa_priv (bit_size (int_bytes k.p)) ≡ true
unfolding is_acceptable_size
size_private k v = v.size

-- Of the JSON struct of a private key.
dsa_key_from_json-from_key :
    (k : DsaPrivate)
    → IsPrivate k
    → (parsed : DsaKeyJson) × (dsa_json_from_key k ≡ ok parsed)
      × (dsa_key_from_json parsed
          ≡ ok (record { key = k; public_key = record { key = k.public; id = [] } }))
      × DsaAscii parsed
unfolding dsa_json_from_key dsa_key_from_json
dsa_key_from_json-from_key k v =
    let (p, p_written, p_read, p_ascii) = decode_int-encode_int k.public.p v.public.p in
    let (q, q_written, q_read, q_ascii) = decode_int-encode_int k.public.q v.public.q in
    let (g, g_written, g_read, g_ascii) = decode_int-encode_int k.public.g v.public.g in
    let (y, y_written, y_read, y_ascii) = decode_int-encode_int k.public.y v.public.y in
    let (x, x_written, x_read, x_ascii) = decode_int-encode_int k.x v.x in
    (
      record {
        public_key = record { q = q; p = p; y = y; g = g; size = bit_size (int_bytes k.public.p) };
        size = bit_size (int_bytes k.public.p);
        x = x;
      },
      rw (p_written, q_written, y_written, g_written, x_written) refl,
      rw (size_private k.public v.public, v.public.size)
          (rw (x_read, y_read, g_read, p_read, q_read) refl),
      ((p_ascii, q_ascii, g_ascii, y_ascii), x_ascii),
    )

-- A private key of an acceptable size, with positive numbers, is stored as JSON, and what is stored
-- is read back as the key, its public half included.
pub new_dsa_key_from_json-to_key_json :
    (j : Json) (k : DsaKey)
    → JsonLaws j
    → IsPrivate k.key
    → (dsa_to_key_json j k >>= new_dsa_key_from_json j)
      ≡ ok (record { key = k.key; public_key = record { key = k.key.public; id = [] } })
unfolding dsa_to_key_json new_dsa_key_from_json
new_dsa_key_from_json-to_key_json j k laws v =
    let (parsed, written, read, ascii) = dsa_key_from_json-from_key k.key v in
    rw (written, dsa_to_key_json) (rw (laws.dsa_lem parsed ascii) read)
