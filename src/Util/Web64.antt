-- ===== src/Util/Web64.antt =====
-- util.go, decodeWeb64String and encodeWeb64String, over base64.URLEncoding.
use dkeyczar.Prelude.{
  ℕ, zero, suc, ◌+◌, ◌-◌, ◌*◌, ◌/◌, ◌%◌, ◌<◌, ◌≤◌, ◌≡◌, ◌≢◌, refl, ap, List, [], ◌∷◌, ◌++◌, arith,
  Bytes, Option, none, some, Result, ok, err, panic, All, IsByte, ltb, leb, ◌==◌, ◌&&◌, ◌||◌, Bool,
  true, false, if◌then◌else◌, length, Error, foreign,
}
pub mod RoundTrip

abbrev pub equals : ℕ
equals = b'='

-- The URL alphabet: A-Z, a-z, 0-9, `-`, `_`.
unfoldable pub encode_char : ℕ → ℕ
encode_char v =
    if ltb v 26
    then v + b'A'
    else if ltb v 52
    then v - 26 + b'a'
    else if ltb v 62
    then v - 52 + b'0'
    else if v == 62
    then b'-'
    else b'_'

unfoldable pub decode_char : ℕ → Option ℕ
decode_char c =
    if leb b'A' c && leb c b'Z'
    then some (c - b'A')
    else if leb b'a' c && leb c b'z'
    then some (c - b'a' + 26)
    else if leb b'0' c && leb c b'9'
    then some (c - b'0' + 52)
    else if c == b'-'
    then some 62
    else if c == b'_'
    then some 63
    else none

-- base64.URLEncoding.EncodeToString: three bytes to four characters, the end padded with `=`.
unfoldable pub encode_to_string : Bytes → Bytes
encode_to_string [] = []
encode_to_string (a ∷ []) = encode_char (a / 4) ∷ encode_char (a % 4 * 16) ∷ equals ∷ equals ∷ []
encode_to_string (a ∷ b ∷ []) =
    encode_char (a / 4) ∷ encode_char (a % 4 * 16 + b / 16) ∷ encode_char (b % 16 * 4) ∷ equals ∷ []
encode_to_string (a ∷ b ∷ c ∷ rest) =
    encode_char (a / 4)
    ∷ encode_char (a % 4 * 16 + b / 16)
    ∷ encode_char (b % 16 * 4 + c / 64)
    ∷ encode_char (c % 64)
    ∷ encode_to_string rest

-- The decoder skips line breaks wherever they stand.
abbrev pub drop_breaks : Bytes → Bytes
drop_breaks [] = []
drop_breaks (c ∷ cs) = if c == 10 || c == 13 then drop_breaks cs else c ∷ drop_breaks cs

-- Two, three and four characters of one group. The bits below the last byte are not checked.
unfoldable pub group_of_two : ℕ → ℕ → Option Bytes
group_of_two a b = elim (decode_char a) [
  | none ↦ none
  | some x ↦ elim (decode_char b) [ none ↦ none | some y ↦ some ((x * 4 + y / 16) ∷ []) ]
]

unfoldable pub group_of_three : ℕ → ℕ → ℕ → Option Bytes
group_of_three a b c = elim (decode_char a) [
  | none ↦ none
  | some x ↦ elim (decode_char b) [
    | none ↦ none
    | some y ↦ elim (decode_char c) [
      | none ↦ none
      | some z ↦ some ((x * 4 + y / 16) ∷ (y % 16 * 16 + z / 4) ∷ [])
    ]
  ]
]

unfoldable pub group_of_four : ℕ → ℕ → ℕ → ℕ → Option Bytes
group_of_four a b c d = elim (group_of_three a b c) [
  | none ↦ none
  | some front ↦ elim (decode_char c) [
    | none ↦ none
    | some z ↦ elim (decode_char d) [ none ↦ none | some w ↦ some (front ++ (z % 4 * 64 + w) ∷ []) ]
  ]
]

abbrev pub and_then : Option Bytes → Option Bytes → Option Bytes
and_then none more = none
and_then (some front) none = none
and_then (some front) (some more) = some (front ++ more)

abbrev pub only_if_end : Bytes → Option Bytes → Option Bytes
only_if_end [] r = r
only_if_end (c ∷ cs) r = none

-- base64.URLEncoding.DecodeString without its line breaks: whole groups of four, with `=` only in
-- the last two places of the last group. `none` is a CorruptInputError.
unfoldable pub decode_groups : Bytes → Option Bytes
decode_groups [] = some []
decode_groups (a ∷ b ∷ c ∷ d ∷ rest) =
    let more = and_then (group_of_four a b c d) (decode_groups rest) in
    if c == equals
    then (if d == equals then only_if_end rest (group_of_two a b) else none)
    else if d == equals
    then only_if_end rest (group_of_three a b c)
    else more
decode_groups (a ∷ []) = none
decode_groups (a ∷ b ∷ []) = none
decode_groups (a ∷ b ∷ c ∷ []) = none

-- base64.CorruptInputError.
abbrev pub corrupt_input : Error
corrupt_input = foreign 64

abbrev pub or_corrupt : Option Bytes → Result Bytes
or_corrupt none = err corrupt_input
or_corrupt (some bs) = ok bs

-- `switch len(key) % 4`
unfoldable pub padding_for : ℕ → Bytes
padding_for n =
    if n % 4 == 0
    then []
    else if n % 4 == 1
    then equals ∷ equals ∷ equals ∷ []
    else if n % 4 == 2
    then equals ∷ equals ∷ []
    else equals ∷ []

unfoldable pub decode_web64_string : Bytes → Result Bytes
decode_web64_string key = or_corrupt (decode_groups (drop_breaks (key ++ padding_for (length key))))

-- `for s[i] == '=' { i-- }` from the last character, and `s[0 : i+1]`: the text without the `=` at
-- its end.
unfoldable pub strip_equals : Bytes → Bytes
strip_equals [] = []
strip_equals (c ∷ cs) = elim (strip_equals cs) [
  | [] ↦ if c == equals then [] else c ∷ []
  | d ∷ ds ↦ c ∷ d ∷ ds
]

-- The index falls below 0, and the loop panics, when no other character is left.
abbrev nonempty : Bytes → Result Bytes
nonempty [] = panic
nonempty (c ∷ cs) = ok (c ∷ cs)

unfoldable pub encode_web64_string : Bytes → Result Bytes
unfolding encode_to_string strip_equals
encode_web64_string b = nonempty (strip_equals (encode_to_string b))
