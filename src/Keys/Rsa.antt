-- ===== src/Keys/Rsa.antt =====
-- rsa_key.go: RSA keys as stored, their identifiers, signatures and OAEP encryption.
pub mod Storage
use dkeyczar.Prelude.{
  ℕ, ◌+◌, ◌*◌, ◌%◌, ◌^◌, ◌<◌, ◌≡◌, [], ◌∷◌, ◌++◌, Bytes, Bool, Result, ok, err, panic,
  invalid_key_size, Error, ◌>>=◌, ◌>>◌, guard, length, take, drop, if◌then◌else◌, ◌==◌, ◌&&◌, leb,
}
use dkeyczar.Crypto.{Crypto, RsaPublic, RsaPrivate}
use dkeyczar.Json.{Json, RsaKeyJson, RsaPublicKeyJson}
use dkeyczar.KeyInfo.{t_rsa_priv, t_rsa_pub, is_acceptable_size, default_size}
use dkeyczar.Header.{make_header, kz_header_length}
use dkeyczar.Util.BigEndian.{put_uint32, to_uint32}
use dkeyczar.Util.BigInt.{int_bytes}
use dkeyczar.Keys.Texts.{bit_size, decode_int, encode_int, int_of_big, abs_ℤ, prefixed}

pub record RsaPublicKey : Type 0 where
  pub key : RsaPublic
  pub id : Bytes

-- `publicKey` holds the same modulus and exponent as `key`.
pub record RsaKey : Type 0 where
  pub key : RsaPrivate
  pub public_key : RsaPublicKey

unfoldable pub rsa_public_json_from_key : RsaPublic → Result RsaPublicKeyJson
rsa_public_json_from_key k = do
  modulus ← encode_int k.n
  exponent ← encode_int (abs_ℤ k.e)
  ok (record { modulus = modulus; public_exponent = exponent; size = bit_size (int_bytes k.n) })

unfoldable pub rsa_json_from_key : RsaPrivate → Result RsaKeyJson
rsa_json_from_key k = do
  modulus ← encode_int k.public.n
  exponent ← encode_int (abs_ℤ k.public.e)
  p ← encode_int k.prime_p
  q ← encode_int k.prime_q
  d ← encode_int k.d
  dp ← encode_int k.dp
  dq ← encode_int k.dq
  qinv ← encode_int k.qinv
  ok (record {
    crt_coefficient = qinv;
    prime_exponent_p = dp;
    prime_exponent_q = dq;
    prime_p = p;
    prime_q = q;
    private_exponent = d;
    public_key = record {
      modulus = modulus;
      public_exponent = exponent;
      size = bit_size (int_bytes k.public.n);
    };
    size = bit_size (int_bytes k.public.n);
  })

-- newRSAPublicKeyFromJSON behind the unmarshalling.
unfoldable pub rsa_public_key_from_json : RsaPublicKeyJson → Result RsaPublicKey
rsa_public_key_from_json parsed = do
  guard (is_acceptable_size t_rsa_pub parsed.size) invalid_key_size
  n ← decode_int parsed.modulus
  e ← decode_int parsed.public_exponent
  ok (record { key = record { n = n; e = int_of_big e }; id = [] })

-- newRSAKeyFromJSON behind the unmarshalling.
unfoldable pub rsa_key_from_json : RsaKeyJson → Result RsaKey
rsa_key_from_json parsed = do
  guard
      (is_acceptable_size t_rsa_priv parsed.size
        && is_acceptable_size t_rsa_pub parsed.public_key.size)
      invalid_key_size
  qinv ← decode_int parsed.crt_coefficient
  dp ← decode_int parsed.prime_exponent_p
  dq ← decode_int parsed.prime_exponent_q
  p ← decode_int parsed.prime_p
  q ← decode_int parsed.prime_q
  d ← decode_int parsed.private_exponent
  n ← decode_int parsed.public_key.modulus
  e ← decode_int parsed.public_key.public_exponent
  let public : RsaPublic = record { n = n; e = int_of_big e }
  ok (record {
    key = record {
      public = public;
      d = d;
      prime_p = p;
      prime_q = q;
      dp = dp;
      dq = dq;
      qinv = qinv;
    };
    public_key = record { key = public; id = [] };
  })

module _ (j : Json) where
  unfoldable pub new_rsa_public_key_from_json : Bytes → Result RsaPublicKey
  unfolding rsa_public_key_from_json
  new_rsa_public_key_from_json s = do
    parsed ← j.rsa_public.unmarshal s
    rsa_public_key_from_json parsed

  unfoldable pub new_rsa_key_from_json : Bytes → Result RsaKey
  unfolding rsa_key_from_json
  new_rsa_key_from_json s = do parsed ← j.rsa.unmarshal s; rsa_key_from_json parsed

  unfoldable pub rsa_public_to_key_json : RsaPublicKey → Result Bytes
  unfolding rsa_public_json_from_key
  rsa_public_to_key_json k = do
    parsed ← rsa_public_json_from_key k.key
    ok (j.rsa_public.marshal parsed)

  unfoldable pub rsa_to_key_json : RsaKey → Result Bytes
  unfolding rsa_json_from_key
  rsa_to_key_json k = do parsed ← rsa_json_from_key k.key; ok (j.rsa.marshal parsed)

-- generateRSAKey; `generate` is rsa.GenerateKey with its randomness.
unfoldable pub generate_rsa_key : (ℕ → Result RsaPrivate) → ℕ → Result RsaKey
generate_rsa_key generate size = do
  let size' = if size == 0 then default_size t_rsa_priv else size
  guard (is_acceptable_size t_rsa_priv size') invalid_key_size
  priv ← generate size'
  ok (record { key = priv; public_key = record { key = priv.public; id = [] } })

module _ (c : Crypto) where
  unfoldable pub rsa_public_key_id : RsaPublicKey → Bytes
  rsa_public_key_id k =
      if length k.id == 0
      then take 4 (c.sha1 (prefixed k.key.n ++ prefixed (abs_ℤ k.key.e)))
      else k.id

  unfoldable pub rsa_key_id : RsaKey → Bytes
  unfolding rsa_public_key_id
  rsa_key_id k = rsa_public_key_id k.public_key

  unfoldable pub rsa_key_sign : Bytes → RsaKey → Bytes → Result Bytes
  rsa_key_sign rand k msg = c.rsa_sign rand k.key (c.sha1 msg)

  unfoldable pub rsa_public_verify : RsaPublicKey → Bytes → Bytes → Result Bool
  rsa_public_verify k msg signature = ok (c.rsa_verify k.key (c.sha1 msg) signature)

  unfoldable pub rsa_key_verify : RsaKey → Bytes → Bytes → Result Bool
  unfolding rsa_public_verify
  rsa_key_verify k = rsa_public_verify k.public_key

  unfoldable pub rsa_public_encrypt : Bytes → RsaPublicKey → Bytes → Result Bytes
  unfolding rsa_public_key_id
  rsa_public_encrypt rand k msg = do
    s ← c.rsa_encrypt rand k.key msg
    ok (make_header (rsa_public_key_id k) ++ s)

  unfoldable pub rsa_key_encrypt : Bytes → RsaKey → Bytes → Result Bytes
  unfolding rsa_public_encrypt
  rsa_key_encrypt rand k = rsa_public_encrypt rand k.public_key

  -- `msg[kzHeaderLength:]` panics on a shorter message.
  unfoldable pub rsa_key_decrypt : RsaKey → Bytes → Result Bytes
  rsa_key_decrypt k msg =
      if leb kz_header_length (length msg)
      then c.rsa_decrypt k.key (drop kz_header_length msg)
      else panic
