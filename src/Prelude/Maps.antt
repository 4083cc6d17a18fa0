-- ===== src/Prelude/Maps.antt =====
-- Go maps as association lists, over keys with a Boolean equality.
use mathlib.Core.Path.{◌≡◌, refl}
use mathlib.Core.Bool.{Bool, true}
use mathlib.Core.Logic.{◌↔◌}
use mathlib.Core.List.{List, [], ◌∷◌}
use mathlib.Core.Option.{Option, none, some}
use native.Mathlib.Omega.{arith}
use dkeyczar.Prelude.Tests.{if◌then◌else◌, ◌==◌, ==_iff}
use dkeyczar.Prelude.Int.{ℤ, eq_ℤ, eq_ℤ-refl, eq_ℤ→eq}
use Prim.Native.Nat.{ℕ}

pub record Eq {ℓ} (K : Type ℓ) : Type ℓ where
  pub beq : K → K → Bool
  pub beq_iff : (a b : K) → (beq a b ≡ true) ↔ (a ≡ b)

pub eq_ℤ_iff : (a b : ℤ) → (eq_ℤ a b ≡ true) ↔ (a ≡ b)
eq_ℤ_iff a b = (eq_ℤ→eq a b, λ e. rw e (eq_ℤ-refl b))

instance abbrev pub nat_eq : Eq ℕ
nat_eq = record { beq = ◌==◌; beq_iff = ==_iff }

instance abbrev pub int_eq : Eq ℤ
int_eq = record { beq = eq_ℤ; beq_iff = eq_ℤ_iff }

module _ {K V : Type 0} ⦃e : Eq K⦄ where
  unfoldable pub lookup_key : K → List (K × V) → Option V
  lookup_key k [] = none
  lookup_key k ((j, v) ∷ m) = if e.beq j k then some v else lookup_key k m

  unfoldable pub set_key : K → V → List (K × V) → List (K × V)
  set_key k v [] = (k, v) ∷ []
  set_key k v ((j, w) ∷ m) = if e.beq j k then (k, v) ∷ m else (j, w) ∷ set_key k v m

  pub lookup_key-set_key :
      (k j : K) (v : V) (m : List (K × V))
      → lookup_key j (set_key k v m) ≡ (if e.beq k j then some v else lookup_key j m)
  unfolding lookup_key set_key
  lookup_key-set_key k j v [] = refl
  lookup_key-set_key k j v ((i, w) ∷ m) =
      ground (arith, e.beq_iff i k, e.beq_iff i j, e.beq_iff k j, lookup_key-set_key k j v m)
