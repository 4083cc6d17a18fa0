-- ===== src/Keys/Texts.antt =====
-- The fields of the on-disk keys: byte strings and big numbers as web-safe base64 texts. These are
-- the steps that newFooKeyFromJSON and newFooJSONFromKey repeat for each field.
use dkeyczar.Prelude.{
  ℕ, ◌*◌, ◌%◌, ◌^◌, ◌<◌, ◌≡◌, ◌≢◌, refl, [], ◌∷◌, ◌++◌, Bytes, Result, ok, base64_decoding,
  or_error, ◌>>=◌, length, All, IsByte, IsAscii, ℤ, pos, negsuc, to_int64, suc, ap,
}
use dkeyczar.Util.BigEndian.{put_uint32, to_uint32}
use dkeyczar.Util.BigInt.{int_bytes, set_bytes, big_int_bytes, big_int_bytes-Encodes, Encodes}
use dkeyczar.Util.Web64.{decode_web64_string, encode_web64_string}
use dkeyczar.Util.Web64.RoundTrip.{decode-encode_web64_string}

-- uint(len(key)) * 8
abbrev pub bit_size : Bytes → ℕ
bit_size key = length key * 8 % 2 ^ 64

-- decodeWeb64String, its error replaced by ErrBase64Decoding.
unfoldable pub decode_text : Bytes → Result Bytes
decode_text s = or_error (decode_web64_string s) base64_decoding

unfoldable pub decode_int : Bytes → Result ℕ
unfolding decode_text
decode_int s = do b ← decode_text s; ok (set_bytes b)

unfoldable pub encode_int : ℕ → Result Bytes
encode_int n = do b ← big_int_bytes n; encode_web64_string b

-- A number behind the length of its bytes, as the identifiers hash it.
abbrev pub prefixed : ℕ → Bytes
prefixed n = put_uint32 (to_uint32 (length (int_bytes n))) ++ int_bytes n

-- int(big.NewInt(0).SetBytes(b).Int64()), the low 64 bits of the number.
abbrev pub int_of_big : ℕ → ℤ
int_of_big n = to_int64 (n % 2 ^ 64)

-- The absolute value, which is what (*big.Int).Bytes of big.NewInt(int64(e)) writes.
abbrev pub abs_ℤ : ℤ → ℕ
abs_ℤ (pos n) = n
abs_ℤ (negsuc n) = suc n

pub decode_text-encode :
    (b : Bytes)
    → b ≢ []
    → All IsByte b
    → (s : Bytes) × (encode_web64_string b ≡ ok s) × (decode_text s ≡ ok b) × All IsAscii s
unfolding decode_text
decode_text-encode b ne bytes =
    let (s, written, read, ascii) = decode-encode_web64_string b ne bytes in
    (s, written, rw read refl, ascii)

Encodes-text :
    (n : ℕ) (b : Bytes)
    → big_int_bytes n ≡ ok b
    → Encodes n b
    → (s : Bytes) × (encode_int n ≡ ok s) × (decode_int s ≡ ok n) × All IsAscii s
unfolding encode_int decode_int
Encodes-text n [] e h = absurd h
Encodes-text n (x ∷ xs) e (low, bytes, value) =
    let (s, written, read, ascii) = decode_text-encode (x ∷ xs) (λ p. cc) bytes in
    (s, rw e written, rw read (ap ok value), ascii)

-- Every positive number has a text, from which it is read back.
pub decode_int-encode_int :
    (n : ℕ) → 0 < n → (s : Bytes) × (encode_int n ≡ ok s) × (decode_int s ≡ ok n) × All IsAscii s
decode_int-encode_int n h =
    let (b, e, encodes) = big_int_bytes-Encodes n h in Encodes-text n b e encodes
