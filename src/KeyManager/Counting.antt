-- ===== src/KeyManager/Counting.antt =====
-- keyman.go, ToJSONs: a map that holds the numbers of a range has at least as many entries.
use dkeyczar.Prelude.{
  ℕ, zero, suc, ◌+◌, ◌<◌, ◌≤◌, ◌≡◌, refl, false, some, none, List, [], ◌∷◌, length, ℤ, pos, negsuc,
  eq_ℤ, if◌then◌else◌, lookup_key, int_eq, Bool-cases, inl, inr, arith, ◌==◌,
}
use dkeyczar.Keys.{KeyData}

-- The map holds these keys under the numbers from `i` on, and no key under the number behind them.
abbrev pub Holds : ℕ → List KeyData → List (ℤ × KeyData) → Type 0
Holds i [] m = lookup_key (pos i) m ≡ none
Holds i (k ∷ ks) m = (lookup_key (pos i) m ≡ some k) × Holds (suc i) ks m

-- The entries of a number, and those of `n` numbers from `i` on.
unfoldable entries : ℕ → List (ℤ × KeyData) → ℕ
entries i [] = 0
entries i ((z, k) ∷ m) = if eq_ℤ z (pos i) then suc (entries i m) else entries i m

unfoldable entries_from : ℕ → ℕ → List (ℤ × KeyData) → ℕ
unfolding entries
entries_from i zero m = 0
entries_from i (suc n) m = entries i m + entries_from (suc i) n m

entries_from-nil : (i n : ℕ) → entries_from i n [] ≡ 0
unfolding entries_from entries
entries_from-nil i zero = refl
entries_from-nil i (suc n) = omega (arith, entries_from-nil (suc i) n)

entries_from-below :
    (i n x : ℕ) (k : KeyData) (m : List (ℤ × KeyData))
    → x < i
    → entries_from i n ((pos x, k) ∷ m) ≡ entries_from i n m
unfolding entries_from entries
entries_from-below i zero x k m h = refl
entries_from-below i (suc n) x k m h =
    let other : (x == i) ≡ false = ground arith in
    rw (other, entries_from-below (suc i) n x k m (omega arith)) refl

entries_from-cons :
    (i n : ℕ) (z : ℤ) (k : KeyData) (m : List (ℤ × KeyData))
    → entries_from i n ((z, k) ∷ m) ≤ suc (entries_from i n m)
unfolding entries_from entries
entries_from-cons i zero z k m = omega arith
entries_from-cons i (suc n) (negsuc x) k m =
    omega (arith, entries_from-cons (suc i) n (negsuc x) k m)
entries_from-cons i (suc n) (pos x) k m = elim (Bool-cases (x == i)) [
  | inl same ↦
      let below : x < suc i = ground arith in
      rw (same, entries_from-below (suc i) n x k m below) (omega arith)
  | inr other ↦ rw other (omega (arith, entries_from-cons (suc i) n (pos x) k m))
]

entries_from-le : (i n : ℕ) (m : List (ℤ × KeyData)) → entries_from i n m ≤ length m
entries_from-le i n [] = omega (arith, entries_from-nil i n)
entries_from-le i n ((z, k) ∷ m) = omega (arith, entries_from-cons i n z k m, entries_from-le i n m)

entries-some :
    (i : ℕ) (k : KeyData) (m : List (ℤ × KeyData)) → lookup_key (pos i) m ≡ some k → 0 < entries i m
unfolding entries lookup_key
entries-some i k [] e = cc
entries-some i k ((z, w) ∷ m) e = elim (Bool-cases (eq_ℤ z (pos i))) [
  | inl same ↦ rw same (omega arith)
  | inr other ↦ rw other (entries-some i k m (rw other at e))
]

Holds-entries :
    (i : ℕ) (ks : List KeyData) (m : List (ℤ × KeyData))
    → Holds i ks m
    → length ks ≤ entries_from i (length ks) m
unfolding entries_from
Holds-entries i [] m h = omega arith
Holds-entries i (k ∷ ks) m (here, more) =
    omega (arith, entries-some i k m here, Holds-entries (suc i) ks m more)

-- A map has no fewer entries than the keys that it holds under a range of numbers.
pub Holds-le :
    (i : ℕ) (ks : List KeyData) (m : List (ℤ × KeyData)) → Holds i ks m → length ks ≤ length m
Holds-le i ks m h = omega (arith, Holds-entries i ks m h, entries_from-le i (length ks) m)
