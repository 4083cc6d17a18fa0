-- ===== src/KeyManager/Reachable.antt =====
-- keyman.go and keyczar.go: every key set that a manager makes step by step, without adding a
-- version as PRIMARY, is loaded with the primary key that the manager has.
use dkeyczar.Prelude.{
  get_elem?, some, ℕ, suc, ◌+◌, ◌^◌, ◌<◌, ◌≤◌, ◌≡◌, refl, ap, ◌∙◌, Bytes, Bool, true, false, ok,
  err, Error, ◌>>=◌, Option, List, [], ◌∷◌, ℤ, pos, minus_one, eq_ℤ, if◌then◌else◌, length, arith,
  inl, inr, Bool-cases, no_primary_key, All,
}
use dkeyczar.KeyInfo.{KeyVersion, KeyType, KeyStatus, KeyPurpose}
use dkeyczar.Keys.{Random}
use dkeyczar.KeySet.{KeyCzar, is_primary, load_primary_key}
use dkeyczar.KeySet.Primary.{primaries, only, load_primary_key-only, IsNumbered}
use dkeyczar.KeyManager.{create, add_key, promote, demote}
use dkeyczar.KeyManager.Managed.{Agrees, IsManaged, create-IsManaged, demote-IsManaged}
use dkeyczar.KeyManager.Promoting.{promote-IsManaged}
use dkeyczar.KeyManager.Adding.{NumberedFrom, Agrees-NumberedFrom, add_key-IsManaged}

-- One call of a manager's method that changes the versions.
pub data Step : KeyCzar → KeyCzar → Type 0 where
  adding :
      (rand : Random) (size : ℕ) (status : KeyStatus) (kz kz' : KeyCzar) (failed : Option Error)
      → is_primary status ≡ false
      → suc (length kz.keymeta.versions) < 2 ^ 63
      → add_key rand size status kz ≡ ok (kz', failed)
      → Step kz kz'
  promoting : (version : ℤ) (kz kz' : KeyCzar) → promote version kz ≡ ok kz' → Step kz kz'
  demoting : (version : ℤ) (kz kz' : KeyCzar) → demote version kz ≡ ok kz' → Step kz kz'

pub data Reaches : KeyCzar → KeyCzar → Type 0 where
  here : (kz : KeyCzar) → Reaches kz kz
  next : (a b c : KeyCzar) → Step a b → Reaches b c → Reaches a c

Step-IsManaged : (a b : KeyCzar) → Step a b → IsManaged a → IsManaged b
Step-IsManaged _ _ (adding rand size status kz kz' failed other small e) m =
    add_key-IsManaged rand size status kz kz' failed m other small e
Step-IsManaged _ _ (promoting version kz kz' e) m = promote-IsManaged version kz kz' m e
Step-IsManaged _ _ (demoting version kz kz' e) m = demote-IsManaged version kz kz' m e

pub Reaches-IsManaged : (a b : KeyCzar) → Reaches a b → IsManaged a → IsManaged b
Reaches-IsManaged _ _ (here kz) m = m
Reaches-IsManaged _ _ (next a b c step rest) m =
    Reaches-IsManaged b c rest (Step-IsManaged a b step m)

-- The marks of versions numbered from `n` + 1.
abbrev MarkedFrom : ℕ → ℤ → List KeyVersion → Type 0
MarkedFrom n q [] = Unit {0}
MarkedFrom n q (v ∷ vs) = (is_primary v.status ≡ eq_ℤ (pos (suc n)) q) × MarkedFrom (suc n) q vs

marked_from :
    (n : ℕ) (q : ℤ) (vs : List KeyVersion)
    → ((i : ℕ) (v : KeyVersion)
        → get_elem? vs i ≡ some v
        → is_primary v.status ≡ eq_ℤ (pos (suc (n + i))) q)
    → MarkedFrom n q vs
marked_from n q [] h = tt
marked_from n q (v ∷ vs) h = (
  h 0 v refl ∙ ap (λ m. eq_ℤ (pos (suc m)) q) (omega arith),
  marked_from (suc n) q vs (λ i w e. h (suc i) w e ∙ ap (λ m. eq_ℤ (pos (suc m)) q) (omega arith)),
)

-- No primary version from `n` on, if none of their numbers is the primary one.
primaries-none :
    (n : ℕ) (q : ℤ) (vs : List KeyVersion)
    → MarkedFrom n q vs
    → ((m : ℕ) → n ≤ m → eq_ℤ (pos (suc m)) q ≡ false)
    → primaries vs ≡ []
unfolding primaries
primaries-none n q [] h ne = refl
primaries-none n q (v ∷ vs) (mark, h) ne =
    rw (mark ∙ ne n (omega arith), primaries)
      (primaries-none (suc n) q vs h (λ m le. ne m (omega arith)))

primaries-one :
    (n p : ℕ) (vs : List KeyVersion)
    → NumberedFrom n vs
    → MarkedFrom n (pos (suc p)) vs
    → n ≤ p
    → p < n + length vs
    → primaries vs ≡ pos (suc p) ∷ []
unfolding primaries
primaries-one n p [] numbers marks le lt = absurd (omega arith)
primaries-one n p (v ∷ vs) (number, numbers) (mark, marks) le lt =
    elim (Bool-cases (eq_ℤ (pos (suc n)) (pos (suc p)))) [
      | inl same ↦
          rw
            (
              mark ∙ same,
              primaries,
              primaries-none (suc n) (pos (suc p)) vs marks (λ m h. ground arith),
            )
            (ap (λ k. k ∷ []) (number ∙ ap pos (ground arith)))
      | inr other ↦
          rw (mark ∙ other, primaries)
            (primaries-one (suc n) p vs numbers marks (ground arith) (omega arith))
    ]

-- The versions with status PRIMARY of a managed set are the one that `primary` names.
pub primaries-Agrees :
    (vs : List KeyVersion) (primary : ℤ)
    → Agrees vs primary
    → primaries vs ≡ (if eq_ℤ primary minus_one then [] else primary ∷ [])
primaries-Agrees vs primary a = elim a.in_range [
  | inl none_yet ↦ rw none_yet (primaries-none 0 minus_one vs (rw none_yet at marks) (λ m h. refl))
  | inr (p, is_p, lt) ↦ rw is_p (
      primaries-one 0 p vs (Agrees-NumberedFrom vs primary a) (rw is_p at marks) (omega arith)
        (omega arith))
]
  where
    marks : MarkedFrom 0 primary vs
    marks =
        marked_from 0 primary vs
          (λ i v h. a.marked i v h ∙ ap (λ m. eq_ℤ (pos (suc m)) primary) (omega arith))

pub NumberedFrom-IsNumbered : (n : ℕ) (vs : List KeyVersion) → NumberedFrom n vs → All IsNumbered vs
NumberedFrom-IsNumbered n [] h = tt
NumberedFrom-IsNumbered n (v ∷ vs) (e, h) = ((λ x. cc), NumberedFrom-IsNumbered (suc n) vs h)

-- loadPrimaryKey and a key set in agreement.
pub load_primary_key-IsManaged :
    (kz : KeyCzar)
    → IsManaged kz
    → load_primary_key kz ≡ (if eq_ℤ kz.primary minus_one then err no_primary_key else ok kz)
load_primary_key-IsManaged kz m =
    let vs = kz.keymeta.versions in
    rw
      (
        load_primary_key-only kz
            (NumberedFrom-IsNumbered 0 vs (Agrees-NumberedFrom vs kz.primary m)),
        primaries-Agrees vs kz.primary m,
      )
      (settle (eq_ℤ kz.primary minus_one))
  where
    settle :
        (b : Bool)
        → (only (if b then [] else kz.primary ∷ []) >>= λ n. ok (record kz { primary = n }))
          ≡ (if b then err no_primary_key else ok kz)
    settle true = refl
    settle false = refl

-- Whatever sequence of AddKey with a status other than PRIMARY, Promote and Demote a manager has
-- gone through since Create, in any order and with any failures of key generation, loadPrimaryKey
-- accepts its key set with the very primary key that the manager has, or says that there is none
-- when the manager has none.
pub load_primary_key-reachable :
    (name : Bytes) (purpose : KeyPurpose) (ktype : KeyType) (kz : KeyCzar)
    → Reaches (create name purpose ktype) kz
    → load_primary_key kz ≡ (if eq_ℤ kz.primary minus_one then err no_primary_key else ok kz)
load_primary_key-reachable name purpose ktype kz reached =
    load_primary_key-IsManaged kz (
      Reaches-IsManaged (create name purpose ktype) kz reached
        (create-IsManaged name purpose ktype))
