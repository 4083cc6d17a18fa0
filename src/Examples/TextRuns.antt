-- ===== src/Examples/TextRuns.antt =====
-- The theorems about texts, padding, names and sizes, applied to concrete ones.
use dkeyczar.Prelude.{◌≡◌, refl, true, Bytes, ok, codes, arith, All, IsAscii}
use dkeyczar.KeyInfo.{
  t_rsa_priv, p_verify, p_sign_and_verify, is_acceptable_size, is_acceptable_purpose,
}
use dkeyczar.KeyInfo.Sizes.{covers, is_acceptable_purpose-covers}
use dkeyczar.Util.Web64.{encode_web64_string, decode_web64_string}
use dkeyczar.Util.Web64.RoundTrip.{decode-encode_web64_string}
use dkeyczar.Util.BigInt.{big_int_bytes, Encodes, big_int_bytes-Encodes}

decode-encode_web64_string_example :
    (s : Bytes) × (encode_web64_string (codes "hello") ≡ ok s)
    × (decode_web64_string s ≡ ok (codes "hello"))
    × All IsAscii s
decode-encode_web64_string_example =
    decode-encode_web64_string (codes "hello") (λ e. cc) (ground arith)

big_int_bytes-Encodes_example : (out : Bytes) × (big_int_bytes 40000 ≡ ok out) × Encodes 40000 out
big_int_bytes-Encodes_example = big_int_bytes-Encodes 40000 (omega arith)

is_acceptable_purpose-covers_example :
    is_acceptable_purpose p_sign_and_verify p_verify ≡ ok (covers p_sign_and_verify p_verify)
is_acceptable_purpose-covers_example =
    is_acceptable_purpose-covers p_sign_and_verify p_verify (λ e. cc)

size_2048 : is_acceptable_size t_rsa_priv 2048 ≡ true
unfolding is_acceptable_size
size_2048 = refl
