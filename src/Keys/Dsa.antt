-- ===== src/Keys/Dsa.antt =====
-- dsa_key.go: DSA keys as stored, their identifiers and signatures.
pub mod Storage
use dkeyczar.Prelude.{
  ℕ, ◌≡◌, [], ◌∷◌, ◌++◌, Bytes, Bool, Result, ok, invalid_key_size, ◌>>=◌, ◌>>◌, guard, length,
  take, if◌then◌else◌, ◌==◌, ◌&&◌,
}
use dkeyczar.Crypto.{Crypto, DsaPublic, DsaPrivate}
use dkeyczar.Json.{Json, DsaKeyJson, DsaPublicKeyJson}
use dkeyczar.KeyInfo.{t_dsa_priv, t_dsa_pub, is_acceptable_size, default_size}
use dkeyczar.Util.BigEndian.{put_uint32, to_uint32}
use dkeyczar.Util.BigInt.{int_bytes}
use dkeyczar.Keys.Texts.{bit_size, decode_int, encode_int, prefixed}

pub record DsaPublicKey : Type 0 where
  pub key : DsaPublic
  pub id : Bytes

-- `publicKey` holds the same parameters as `key`.
pub record DsaKey : Type 0 where
  pub key : DsaPrivate
  pub public_key : DsaPublicKey

unfoldable pub dsa_public_json_from_key : DsaPublic → Result DsaPublicKeyJson
dsa_public_json_from_key k = do
  p ← encode_int k.p
  q ← encode_int k.q
  y ← encode_int k.y
  g ← encode_int k.g
  ok (record { q = q; p = p; y = y; g = g; size = bit_size (int_bytes k.p) })

unfoldable pub dsa_json_from_key : DsaPrivate → Result DsaKeyJson
dsa_json_from_key k = do
  p ← encode_int k.public.p
  q ← encode_int k.public.q
  y ← encode_int k.public.y
  g ← encode_int k.public.g
  x ← encode_int k.x
  ok (record {
    public_key = record { q = q; p = p; y = y; g = g; size = bit_size (int_bytes k.public.p) };
    size = bit_size (int_bytes k.public.p);
    x = x;
  })

-- newDSAPublicKeyFromJSON behind the unmarshalling.
unfoldable pub dsa_public_key_from_json : DsaPublicKeyJson → Result DsaPublicKey
dsa_public_key_from_json parsed = do
  guard (is_acceptable_size t_dsa_pub parsed.size) invalid_key_size
  y ← decode_int parsed.y
  g ← decode_int parsed.g
  p ← decode_int parsed.p
  q ← decode_int parsed.q
  ok (record { key = record { p = p; q = q; g = g; y = y }; id = [] })

-- newDSAKeyFromJSON behind the unmarshalling.
unfoldable pub dsa_key_from_json : DsaKeyJson → Result DsaKey
dsa_key_from_json parsed = do
  guard
      (is_acceptable_size t_dsa_priv parsed.size
        && is_acceptable_size t_dsa_pub parsed.public_key.size)
      invalid_key_size
  x ← decode_int parsed.x
  y ← decode_int parsed.public_key.y
  g ← decode_int parsed.public_key.g
  p ← decode_int parsed.public_key.p
  q ← decode_int parsed.public_key.q
  let public : DsaPublic = record { p = p; q = q; g = g; y = y }
  ok (record {
    key = record { public = public; x = x };
    public_key = record { key = public; id = [] };
  })

module _ (j : Json) where
  unfoldable pub new_dsa_public_key_from_json : Bytes → Result DsaPublicKey
  unfolding dsa_public_key_from_json
  new_dsa_public_key_from_json s = do
    parsed ← j.dsa_public.unmarshal s
    dsa_public_key_from_json parsed

  unfoldable pub new_dsa_key_from_json : Bytes → Result DsaKey
  unfolding dsa_key_from_json
  new_dsa_key_from_json s = do parsed ← j.dsa.unmarshal s; dsa_key_from_json parsed

  unfoldable pub dsa_public_to_key_json : DsaPublicKey → Result Bytes
  unfolding dsa_public_json_from_key
  dsa_public_to_key_json k = do
    parsed ← dsa_public_json_from_key k.key
    ok (j.dsa_public.marshal parsed)

  unfoldable pub dsa_to_key_json : DsaKey → Result Bytes
  unfolding dsa_json_from_key
  dsa_to_key_json k = do parsed ← dsa_json_from_key k.key; ok (j.dsa.marshal parsed)

-- generateDSAKey; `generate` is dsa.GenerateParameters for 1024 and 160 bits and dsa.GenerateKey,
-- with their randomness. 1024 is the only size that is let through.
unfoldable pub generate_dsa_key : Result DsaPrivate → ℕ → Result DsaKey
generate_dsa_key generate size = do
  let size' = if size == 0 then default_size t_dsa_priv else size
  guard (is_acceptable_size t_dsa_priv size') invalid_key_size
  priv ← generate
  ok (record { key = priv; public_key = record { key = priv.public; id = [] } })

module _ (c : Crypto) where
  unfoldable pub dsa_public_key_id : DsaPublicKey → Bytes
  dsa_public_key_id k =
      if length k.id == 0
      then take 4 (
          c.sha1 (prefixed k.key.p ++ (prefixed k.key.q ++ (prefixed k.key.g ++ prefixed k.key.y))))
      else k.id

  unfoldable pub dsa_key_id : DsaKey → Bytes
  unfolding dsa_public_key_id
  dsa_key_id k = dsa_public_key_id k.public_key

  unfoldable pub dsa_key_sign : Bytes → DsaKey → Bytes → Result Bytes
  dsa_key_sign rand k msg = do rs ← c.dsa_sign rand k.key (c.sha1 msg); c.asn1_marshal rs

  unfoldable pub dsa_public_verify : DsaPublicKey → Bytes → Bytes → Result Bool
  dsa_public_verify k msg signature = do
    (r, s) ← c.asn1_unmarshal signature
    ok (c.dsa_verify k.key (c.sha1 msg) r s)

  unfoldable pub dsa_key_verify : DsaKey → Bytes → Bytes → Result Bool
  unfolding dsa_public_verify
  dsa_key_verify k = dsa_public_verify k.public_key
