-- ===== src/Keys/Rsa/Storage.antt =====
-- rsa_key.go: a stored RSA key is read back as it was.
use dkeyczar.Prelude.{ℕ, ◌^◌, ◌<◌, ◌≡◌, refl, [], true, ok, ◌>>=◌, arith, pos, to_int64}
use dkeyczar.Crypto.{RsaPublic, RsaPrivate}
use dkeyczar.Json.{Json, JsonLaws, RsaKeyJson, RsaPublicKeyJson, RsaAscii, RsaPublicAscii}
use dkeyczar.KeyInfo.{t_rsa_priv, t_rsa_pub, is_acceptable_size}
use dkeyczar.Util.BigInt.{int_bytes}
use dkeyczar.Keys.Texts.{bit_size, int_of_big, decode_int-encode_int}
use dkeyczar.Keys.Rsa.{
  RsaPublicKey, RsaKey, rsa_public_json_from_key, rsa_json_from_key, rsa_public_key_from_json,
  rsa_key_from_json, new_rsa_public_key_from_json, new_rsa_key_from_json, rsa_public_to_key_json,
  rsa_to_key_json,
}

-- A positive modulus of an acceptable size, with a positive exponent that fits an int64.
pub record IsPublic (k : RsaPublic) : Type 0 where
  pub modulus : 0 < k.n
  pub exponent : (e : ℕ) × (k.e ≡ pos e) × (0 < e) × (e < 2 ^ 63)
  pub size : is_acceptable_size t_rsa_pub (bit_size (int_bytes k.n)) ≡ true

pub record IsPrivate (k : RsaPrivate) : Type 0 where
  pub public : IsPublic k.public
  pub d : 0 < k.d
  pub p : 0 < k.prime_p
  pub q : 0 < k.prime_q
  pub dp : 0 < k.dp
  pub dq : 0 < k.dq
  pub qinv : 0 < k.qinv

int_of_big-small : (e : ℕ) → e < 2 ^ 63 → int_of_big e ≡ pos e
unfolding to_int64
int_of_big-small e h = ground arith

-- Of the JSON struct of a public key.
pub rsa_public_key_from_json-from_key :
    (k : RsaPublic)
    → IsPublic k
    → (parsed : RsaPublicKeyJson) × (rsa_public_json_from_key k ≡ ok parsed)
      × (rsa_public_key_from_json parsed ≡ ok (record { key = k; id = [] }))
      × RsaPublicAscii parsed
unfolding rsa_public_json_from_key rsa_public_key_from_json
rsa_public_key_from_json-from_key k v =
    let (n, n_written, n_read, n_ascii) = decode_int-encode_int k.n v.modulus in
    let (exponent, is_pos, positive, small) = v.exponent in
    let (e, e_written, e_read, e_ascii) = decode_int-encode_int exponent positive in
    (
      record { modulus = n; public_exponent = e; size = bit_size (int_bytes k.n) },
      rw (n_written, is_pos, e_written) refl,
      rw (v.size) (rw (n_read, e_read, int_of_big-small exponent small, is_pos) refl),
      (n_ascii, e_ascii),
    )

-- A public key is stored as JSON, and what is stored is read back as the key.
pub new_rsa_public_key_from_json-to_key_json :
    (j : Json) (k : RsaPublicKey)
    → JsonLaws j
    → IsPublic k.key
    → (rsa_public_to_key_json j k >>= new_rsa_public_key_from_json j)
      ≡ ok (record { key = k.key; id = [] })
unfolding rsa_public_to_key_json new_rsa_public_key_from_json
new_rsa_public_key_from_json-to_key_json j k laws v =
    let (parsed, written, read, ascii) = rsa_public_key_from_json-from_key k.key v in
    rw (written, rsa_public_to_key_json) (rw (laws.rsa_public_lem parsed ascii) read)

size_private :
    (k : RsaPublic) → IsPublic k → is_acceptable_size t_rsa_priv (bit_size (int_bytes k.n)) ≡ true
unfolding is_acceptable_size
size_private k v = v.size

-- Of the JSON struct of a private key.
pub rsa_key_from_json-from_key :
    (k : RsaPrivate)
    → IsPrivate k
    → (parsed : RsaKeyJson) × (rsa_json_from_key k ≡ ok parsed)
      × (rsa_key_from_json parsed
          ≡ ok (record { key = k; public_key = record { key = k.public; id = [] } }))
      × RsaAscii parsed
unfolding rsa_json_from_key rsa_key_from_json
rsa_key_from_json-from_key k v =
    let (n, n_written, n_read, n_ascii) = decode_int-encode_int k.public.n v.public.modulus in
    let (exponent, is_pos, positive, small) = v.public.exponent in
    let (e, e_written, e_read, e_ascii) = decode_int-encode_int exponent positive in
    let (p, p_written, p_read, p_ascii) = decode_int-encode_int k.prime_p v.p in
    let (q, q_written, q_read, q_ascii) = decode_int-encode_int k.prime_q v.q in
    let (d, d_written, d_read, d_ascii) = decode_int-encode_int k.d v.d in
    let (dp, dp_written, dp_read, dp_ascii) = decode_int-encode_int k.dp v.dp in
    let (dq, dq_written, dq_read, dq_ascii) = decode_int-encode_int k.dq v.dq in
    let (qinv, qinv_written, qinv_read, qinv_ascii) = decode_int-encode_int k.qinv v.qinv in
    (
      record {
        crt_coefficient = qinv;
        prime_exponent_p = dp;
        prime_exponent_q = dq;
        prime_p = p;
        prime_q = q;
        private_exponent = d;
        public_key = record {
          modulus = n;
          public_exponent = e;
          size = bit_size (int_bytes k.public.n);
        };
        size = bit_size (int_bytes k.public.n);
      },
      rw
          (
            n_written, is_pos, e_written, p_written, q_written, d_written, dp_written, dq_written,
            qinv_written,
          )
          refl,
      rw (size_private k.public v.public, v.public.size)
          (rw
            (
              qinv_read,
              dp_read,
              dq_read,
              p_read,
              q_read,
              d_read,
              n_read,
              e_read,
              int_of_big-small exponent small,
              is_pos,
            )
            refl),
      ((qinv_ascii, dp_ascii, dq_ascii), (p_ascii, q_ascii, d_ascii), (n_ascii, e_ascii)),
    )

-- A private key of an acceptable size, with positive numbers and an exponent that fits an int64, is
-- stored as JSON, and what is stored is read back as the key, its public half included.
pub new_rsa_key_from_json-to_key_json :
    (j : Json) (k : RsaKey)
    → JsonLaws j
    → IsPrivate k.key
    → (rsa_to_key_json j k >>= new_rsa_key_from_json j)
      ≡ ok (record { key = k.key; public_key = record { key = k.key.public; id = [] } })
unfolding rsa_to_key_json new_rsa_key_from_json
new_rsa_key_from_json-to_key_json j k laws v =
    let (parsed, written, read, ascii) = rsa_key_from_json-from_key k.key v in
    rw (written, rsa_to_key_json) (rw (laws.rsa_lem parsed ascii) read)
