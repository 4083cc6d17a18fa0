-- ===== src/Util/BigInt.antt =====
-- util.go, bigIntBytes, and what the source uses of math/big: a number that is never negative.
use dkeyczar.Prelude.{
  ℕ, zero, suc, ◌+◌, ◌*◌, ◌/◌, ◌%◌, ◌<◌, ◌≤◌, ◌≡◌, ◌≢◌, refl, [], ◌∷◌, ◌++◌, arith, Bytes, Result,
  ok, panic, All, IsByte, leb, ◌==◌, if◌then◌else◌, All-append, Bool-cases, inl, inr,
}

-- (*big.Int).SetBytes: a big-endian unsigned number.
abbrev set_bytes_from : ℕ → Bytes → ℕ
set_bytes_from acc [] = acc
set_bytes_from acc (b ∷ bs) = set_bytes_from (acc * 256 + b) bs

unfoldable pub set_bytes : Bytes → ℕ
set_bytes bs = set_bytes_from 0 bs

-- (*big.Int).Bytes: the bytes of the number with no leading zero byte, none for 0. A number has
-- fewer bytes than its value, so that value is enough fuel.
int_bytes_fuel : ℕ → ℕ → Bytes
int_bytes_fuel zero n = []
int_bytes_fuel (suc fuel) n =
    let rest = int_bytes_fuel fuel (n / 256) ++ n % 256 ∷ [] in if n == 0 then [] else rest

unfoldable pub int_bytes : ℕ → Bytes
unfolding int_bytes_fuel
int_bytes n = int_bytes_fuel n n

-- `absbytes[0]` panics on the empty slice of the number 0. The test of its top bit is a test of
-- its size, since it is a byte.
unfoldable pub add_sign_byte : Bytes → Result Bytes
add_sign_byte [] = panic
add_sign_byte (b ∷ bs) = if leb 0x80 b then ok (0 ∷ b ∷ bs) else ok (b ∷ bs)

unfoldable pub big_int_bytes : ℕ → Result Bytes
unfolding add_sign_byte
big_int_bytes value = add_sign_byte (int_bytes value)

set_bytes_from-append :
    (acc : ℕ) (xs : Bytes) (b : ℕ)
    → set_bytes_from acc (xs ++ b ∷ []) ≡ set_bytes_from acc xs * 256 + b
set_bytes_from-append acc [] b = refl
set_bytes_from-append acc (x ∷ xs) b = set_bytes_from-append (acc * 256 + x) xs b

set_bytes-int_bytes_fuel : (fuel n : ℕ) → n ≤ fuel → set_bytes_from 0 (int_bytes_fuel fuel n) ≡ n
unfolding int_bytes_fuel
set_bytes-int_bytes_fuel zero n h = omega arith
set_bytes-int_bytes_fuel (suc fuel) n h = ground (
  arith,
  set_bytes_from-append 0 (int_bytes_fuel fuel (n / 256)) (n % 256),
  set_bytes-int_bytes_fuel fuel (n / 256),
)

pub set_bytes-int_bytes : (n : ℕ) → set_bytes (int_bytes n) ≡ n
unfolding set_bytes int_bytes
set_bytes-int_bytes n = set_bytes-int_bytes_fuel n n (omega arith)

int_bytes_fuel-IsByte : (fuel n : ℕ) → All IsByte (int_bytes_fuel fuel n)
unfolding int_bytes_fuel
int_bytes_fuel-IsByte zero n = tt
int_bytes_fuel-IsByte (suc fuel) n = elim (Bool-cases (n == 0)) [
  | inl e ↦ rw e tt
  | inr e ↦ rw e (
      All-append IsByte (int_bytes_fuel fuel (n / 256)) _ (int_bytes_fuel-IsByte fuel (n / 256))
        (omega arith))
]

pub int_bytes-IsByte : (n : ℕ) → All IsByte (int_bytes n)
unfolding int_bytes
int_bytes-IsByte n = int_bytes_fuel-IsByte n n

ne_nil-append : (xs : Bytes) (b : ℕ) → (xs ++ b ∷ []) ≢ []
ne_nil-append [] b e = cc
ne_nil-append (x ∷ xs) b e = cc

pub int_bytes-ne-nil : (n : ℕ) → 0 < n → int_bytes n ≢ []
unfolding int_bytes int_bytes_fuel
int_bytes-ne-nil zero h = λ e. absurd (omega arith)
int_bytes-ne-nil (suc n) h =
    ground (arith, ne_nil-append (int_bytes_fuel n (suc n / 256)) (suc n % 256))

-- What a successful `big_int_bytes` writes: bytes with the top bit clear in front that read back
-- as the number, whether or not a sign byte was put in front.
abbrev pub Encodes : ℕ → Bytes → Type 0
Encodes value [] = ⊥
Encodes value (b ∷ bs) = (b < 0x80) × All IsByte (b ∷ bs) × (set_bytes (b ∷ bs) ≡ value)

add_sign_byte-Encodes :
    (value : ℕ) (bs : Bytes)
    → bs ≢ []
    → All IsByte bs
    → set_bytes bs ≡ value
    → (out : Bytes) × (add_sign_byte bs ≡ ok out) × Encodes value out
unfolding add_sign_byte set_bytes
add_sign_byte-Encodes value [] ne bytes e = absurd (ne refl)
add_sign_byte-Encodes value (b ∷ bs) ne bytes e = elim (Bool-cases (leb 0x80 b)) [
  | inl high ↦ (0 ∷ b ∷ bs, rw high, (omega arith, (omega arith, bytes), e))
  | inr low ↦ (b ∷ bs, rw low, (ground arith, bytes, e))
]

-- For every positive number `big_int_bytes` returns bytes, the first with its top bit clear, as Java's signed
-- reading needs, from which SetBytes gives the number back.
pub big_int_bytes-Encodes :
    (value : ℕ) → 0 < value → (out : Bytes) × (big_int_bytes value ≡ ok out) × Encodes value out
unfolding big_int_bytes
big_int_bytes-Encodes value h =
    add_sign_byte-Encodes value (int_bytes value) (int_bytes-ne-nil value h)
      (int_bytes-IsByte value) (set_bytes-int_bytes value)
