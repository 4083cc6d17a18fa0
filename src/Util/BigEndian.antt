-- ===== src/Util/BigEndian.antt =====
-- encoding/binary's big-endian words as the source uses them.
use dkeyczar.Prelude.{
  ℕ, ◌+◌, ◌*◌, ◌/◌, ◌%◌, ◌^◌, ◌<◌, ◌≡◌, [], ◌∷◌, ◌++◌, arith, length, refl, Bytes, Result, ok,
  panic, All, IsByte,
}

-- binary.BigEndian.PutUint32; the argument is a uint32.
unfoldable pub put_uint32 : ℕ → Bytes
put_uint32 n = (n / 2 ^ 24 % 256) ∷ (n / 2 ^ 16 % 256) ∷ (n / 2 ^ 8 % 256) ∷ (n % 256) ∷ []

-- binary.BigEndian.Uint32 reads four bytes and panics on a shorter slice.
unfoldable pub uint32 : Bytes → Result ℕ
uint32 (a ∷ b ∷ c ∷ d ∷ rest) = ok (a * 2 ^ 24 + b * 2 ^ 16 + c * 2 ^ 8 + d)
uint32 _ = panic

-- binary.BigEndian.PutUint64 and Uint64, as two words.
unfoldable pub put_uint64 : ℕ → Bytes
unfolding put_uint32
put_uint64 n = put_uint32 (n / 2 ^ 32) ++ put_uint32 (n % 2 ^ 32)

unfoldable pub uint64 : Bytes → Result ℕ
uint64 (a ∷ b ∷ c ∷ d ∷ e ∷ f ∷ g ∷ h ∷ rest) =
    ok (
      (a * 2 ^ 24 + b * 2 ^ 16 + c * 2 ^ 8 + d) * 2 ^ 32
      + (e * 2 ^ 24 + f * 2 ^ 16 + g * 2 ^ 8 + h))
uint64 _ = panic

-- Go's conversion uint32(n) of a length.
abbrev pub to_uint32 : ℕ → ℕ
to_uint32 n = n % 2 ^ 32

pub uint32-put_uint32 : (n : ℕ) (rest : Bytes) → n < 2 ^ 32 → uint32 (put_uint32 n ++ rest) ≡ ok n
unfolding uint32 put_uint32
uint32-put_uint32 n rest h = ground arith

pub put_uint32-IsByte : (n : ℕ) → All IsByte (put_uint32 n)
unfolding put_uint32
put_uint32-IsByte n = omega arith

pub length-put_uint32 : (n : ℕ) → length (put_uint32 n) ≡ 4
unfolding put_uint32
length-put_uint32 n = refl

pub uint64-put_uint64 : (n : ℕ) (rest : Bytes) → n < 2 ^ 64 → uint64 (put_uint64 n ++ rest) ≡ ok n
unfolding uint64 put_uint64
uint64-put_uint64 n rest h = ground arith

pub put_uint64-IsByte : (n : ℕ) → All IsByte (put_uint64 n)
unfolding put_uint64
put_uint64-IsByte n = omega arith

pub length-put_uint64 : (n : ℕ) → length (put_uint64 n) ≡ 8
unfolding put_uint64
length-put_uint64 n = refl
