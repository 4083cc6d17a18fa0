-- ===== src/Util/Web64/RoundTrip.antt =====
-- Web-safe base64 of util.go: what is encoded decodes to itself.
use dkeyczar.Prelude.{
  ℕ, ◌+◌, ◌*◌, ◌/◌, ◌%◌, ◌<◌, ◌≡◌, ◌≢◌, refl, ap, [], ◌∷◌, ◌++◌, arith, Bytes, some, ok, panic, All,
  IsByte, IsAscii, ◌==◌, ◌||◌, false, length,
}
use dkeyczar.Util.Web64.{
  equals, encode_char, decode_char, encode_to_string, drop_breaks, group_of_two, group_of_three,
  group_of_four, decode_groups, padding_for, decode_web64_string, strip_equals, nonempty,
  encode_web64_string,
}

decode_char-encode_char : (v : ℕ) → v < 64 → decode_char (encode_char v) ≡ some v
unfolding decode_char encode_char
decode_char-encode_char v h = ground arith

encode_char-ne-equals : (v : ℕ) → v < 64 → (encode_char v == equals) ≡ false
unfolding encode_char
encode_char-ne-equals v h = ground arith

encode_char-no_break : (v : ℕ) → v < 64 → (encode_char v == 10 || encode_char v == 13) ≡ false
unfolding encode_char
encode_char-no_break v h = ground arith

-- The encoding without its padding.
chars : Bytes → Bytes
chars [] = []
chars (a ∷ []) = encode_char (a / 4) ∷ encode_char (a % 4 * 16) ∷ []
chars (a ∷ b ∷ []) =
    encode_char (a / 4) ∷ encode_char (a % 4 * 16 + b / 16) ∷ encode_char (b % 16 * 4) ∷ []
chars (a ∷ b ∷ c ∷ rest) =
    encode_char (a / 4)
    ∷ encode_char (a % 4 * 16 + b / 16)
    ∷ encode_char (b % 16 * 4 + c / 64)
    ∷ encode_char (c % 64)
    ∷ chars rest

strip_equals-encode : (b : Bytes) → All IsByte b → strip_equals (encode_to_string b) ≡ chars b
unfolding strip_equals encode_to_string chars
strip_equals-encode [] h = refl
strip_equals-encode (a ∷ []) h = ground (arith, encode_char-ne-equals (a % 4 * 16))
strip_equals-encode (a ∷ b ∷ []) h = ground (arith, encode_char-ne-equals (b % 16 * 4))
strip_equals-encode (a ∷ b ∷ c ∷ rest) h =
    ground (arith, strip_equals-encode rest, encode_char-ne-equals (c % 64))

encode-chars : (b : Bytes) → encode_to_string b ≡ chars b ++ padding_for (length (chars b))
unfolding encode_to_string chars padding_for
encode-chars [] = refl
encode-chars (a ∷ []) = refl
encode-chars (a ∷ b ∷ []) = refl
encode-chars (a ∷ b ∷ c ∷ rest) = ground (arith, encode-chars rest)

drop_breaks-encode :
    (b : Bytes) → All IsByte b → drop_breaks (encode_to_string b) ≡ encode_to_string b
unfolding encode_to_string
drop_breaks-encode [] h = refl
drop_breaks-encode (a ∷ []) h =
    ground (arith, encode_char-no_break (a / 4), encode_char-no_break (a % 4 * 16))
drop_breaks-encode (a ∷ b ∷ []) h = ground (
  arith,
  encode_char-no_break (a / 4),
  encode_char-no_break (a % 4 * 16 + b / 16),
  encode_char-no_break (b % 16 * 4),
)
drop_breaks-encode (a ∷ b ∷ c ∷ rest) (ha, (hb, (hc, hrest))) =
    rw
      (
        encode_char-no_break (a / 4) (omega arith),
        encode_char-no_break (a % 4 * 16 + b / 16) (omega arith),
        encode_char-no_break (b % 16 * 4 + c / 64) (omega arith),
        encode_char-no_break (c % 64) (omega arith),
        drop_breaks-encode rest hrest,
      )
      refl

two :
    (a : ℕ)
    → a < 256
    → group_of_two (encode_char (a / 4)) (encode_char (a % 4 * 16)) ≡ some (a ∷ [])
unfolding group_of_two
two a h =
    rw
      (
        decode_char-encode_char (a / 4) (omega arith),
        decode_char-encode_char (a % 4 * 16) (omega arith),
        group_of_two,
      )
      (ap (λ x. some (x ∷ [])) (omega arith))

three :
    (a b z : ℕ)
    → a < 256
    → b < 256
    → z < 4
    → group_of_three
        (encode_char (a / 4))
        (encode_char (a % 4 * 16 + b / 16))
        (encode_char (b % 16 * 4 + z))
      ≡ some (a ∷ b ∷ [])
unfolding group_of_three
three a b z ha hb hz = ground (
  arith,
  decode_char-encode_char (a / 4),
  decode_char-encode_char (a % 4 * 16 + b / 16),
  decode_char-encode_char (b % 16 * 4 + z),
)

four :
    (a b c : ℕ)
    → a < 256
    → b < 256
    → c < 256
    → group_of_four
        (encode_char (a / 4))
        (encode_char (a % 4 * 16 + b / 16))
        (encode_char (b % 16 * 4 + c / 64))
        (encode_char (c % 64))
      ≡ some (a ∷ b ∷ c ∷ [])
unfolding group_of_four
four a b c ha hb hc = ground (
  arith,
  three a b (c / 64),
  decode_char-encode_char (b % 16 * 4 + c / 64),
  decode_char-encode_char (c % 64),
)

decode_groups-encode : (b : Bytes) → All IsByte b → decode_groups (encode_to_string b) ≡ some b
unfolding decode_groups encode_to_string
decode_groups-encode [] h = refl
decode_groups-encode (a ∷ []) (ha, _) = two a ha
decode_groups-encode (a ∷ b ∷ []) (ha, (hb, _)) =
    ground (arith, three a b 0, encode_char-ne-equals (b % 16 * 4))
decode_groups-encode (a ∷ b ∷ c ∷ rest) (ha, (hb, (hc, hrest))) = ground (
  arith,
  four a b c,
  encode_char-ne-equals (b % 16 * 4 + c / 64),
  encode_char-ne-equals (c % 64),
  decode_groups-encode rest,
)

-- The text that encoding a byte string gives.
nonempty-chars : (b : Bytes) → b ≢ [] → nonempty (chars b) ≡ ok (chars b)
unfolding chars
nonempty-chars [] h = absurd (h refl)
nonempty-chars (a ∷ []) h = refl
nonempty-chars (a ∷ b ∷ []) h = refl
nonempty-chars (a ∷ b ∷ c ∷ rest) h = refl

encode_char-IsAscii : (v : ℕ) → v < 64 → encode_char v < 128
unfolding encode_char
encode_char-IsAscii v h = ground arith

chars-IsAscii : (b : Bytes) → All IsByte b → All IsAscii (chars b)
unfolding chars
chars-IsAscii [] h = tt
chars-IsAscii (a ∷ []) h =
    ground (arith, encode_char-IsAscii (a / 4), encode_char-IsAscii (a % 4 * 16))
chars-IsAscii (a ∷ b ∷ []) h = ground (
  arith,
  encode_char-IsAscii (a / 4),
  encode_char-IsAscii (a % 4 * 16 + b / 16),
  encode_char-IsAscii (b % 16 * 4),
)
chars-IsAscii (a ∷ b ∷ c ∷ rest) h = ground (
  arith,
  encode_char-IsAscii (a / 4),
  encode_char-IsAscii (a % 4 * 16 + b / 16),
  encode_char-IsAscii (b % 16 * 4 + c / 64),
  encode_char-IsAscii (c % 64),
  chars-IsAscii rest,
)

-- Every nonempty byte string is encoded, to an ASCII text that decodes to the byte string.
pub decode-encode_web64_string :
    (b : Bytes)
    → b ≢ []
    → All IsByte b
    → (s : Bytes) × (encode_web64_string b ≡ ok s) × (decode_web64_string s ≡ ok b) × All IsAscii s
unfolding encode_web64_string decode_web64_string
decode-encode_web64_string b ne bytes = (
  chars b,
  rw (strip_equals-encode b bytes) (nonempty-chars b ne),
  rw (← encode-chars b, drop_breaks-encode b bytes, decode_groups-encode b bytes) refl,
  chars-IsAscii b bytes,
)

-- The empty byte string has no encoding: the search for the last character runs off the front.
pub encode_web64_string-nil : encode_web64_string [] ≡ panic
unfolding encode_web64_string
encode_web64_string-nil = refl
