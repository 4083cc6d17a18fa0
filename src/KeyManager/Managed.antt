-- ===== src/KeyManager/Managed.antt =====
-- keyman.go: the versions of a managed key set are numbered from 1, and `primary` names the only
-- version with status PRIMARY.
use dkeyczar.Prelude.{
  ℕ, zero, suc, ◌<◌, ◌≡◌, ◌≢◌, refl, sym, ap, ◌∙◌, Bytes, false, ok, >>=-eq-ok, ok-injective,
  Option, none, some, List, ℤ, pos, negsuc, minus_one, eq_ℤ, eq_ℤ→eq, get_elem?, get_elem?-set, set,
  length, length-set, arith, ◌⊎◌, inl, inr, ◌==◌, Bool-cases,
}
use mathlib.Core.Path.{subst}
use dkeyczar.KeyInfo.{KeyVersion, KeyType, KeyStatus, s_primary, s_active, s_inactive, KeyPurpose}
use dkeyczar.KeySet.{KeyCzar, is_primary}
use dkeyczar.KeyManager.{create, found, version_at, set_at, set_status, demote}

-- The versions bear the numbers 1, 2, …, those with status PRIMARY are the one that `primary`
-- names, and `primary` names none or one of them.
pub record Agrees (vs : List KeyVersion) (primary : ℤ) : Type 0 where
  pub numbered : (i : ℕ) (v : KeyVersion) → get_elem? vs i ≡ some v → v.version_number ≡ pos (suc i)
  pub marked :
      (i : ℕ) (v : KeyVersion)
      → get_elem? vs i ≡ some v
      → is_primary v.status ≡ eq_ℤ (pos (suc i)) primary
  pub in_range : (primary ≡ minus_one) ⊎ ((p : ℕ) × (primary ≡ pos (suc p)) × (p < length vs))

abbrev pub IsManaged : KeyCzar → Type 0
IsManaged kz = Agrees kz.keymeta.versions kz.primary

pub create-IsManaged :
    (name : Bytes) (purpose : KeyPurpose) (ktype : KeyType) → IsManaged (create name purpose ktype)
unfolding create
create-IsManaged name purpose ktype = record {
  numbered = λ i v h. cc;
  marked = λ i v h. cc;
  in_range = inl refl;
}

-- A version whose index is in range.
pub version_at-ok :
    (version : ℤ) (vs : List KeyVersion) (v : KeyVersion)
    → version_at version vs ≡ ok v
    → (i : ℕ) × (version ≡ pos (suc i)) × (get_elem? vs i ≡ some v)
unfolding version_at
version_at-ok (pos zero) vs v e = cc
version_at-ok (pos (suc i)) vs v e = (i, refl, held (get_elem? vs i) e)
  where
    held : (o : Option KeyVersion) → found o ≡ ok v → o ≡ some v
    held none e = cc
    held (some w) e = ap some (ok-injective e)
version_at-ok (negsuc n) vs v e = cc

pub set_status-ok :
    (version : ℤ) (status : KeyStatus) (vs vs' : List KeyVersion)
    → set_status version status vs ≡ ok vs'
    → (i : ℕ) × (v : KeyVersion) × (version ≡ pos (suc i))
      × (get_elem? vs i ≡ some v)
      × (vs' ≡ set vs i (record v { status = status }))
unfolding set_status
set_status-ok version status vs vs' e =
    let (v, at, e₁) = >>=-eq-ok (version_at version vs) _ e in
    let (i, is_i, held) = version_at-ok version vs v at in
    (i, v, is_i, held, sym (rw is_i at (ok-injective e₁)))

-- The primary version agrees before and after a change of one status, when the new `primary` says
-- what the statuses say.
pub Agrees-set :
    (vs : List KeyVersion) (primary primary' : ℤ) (i : ℕ) (v : KeyVersion) (status : KeyStatus)
    → Agrees vs primary
    → get_elem? vs i ≡ some v
    → is_primary status ≡ eq_ℤ (pos (suc i)) primary'
    → ((j : ℕ) → j ≢ i → eq_ℤ (pos (suc j)) primary ≡ eq_ℤ (pos (suc j)) primary')
    → (primary' ≡ minus_one) ⊎ ((p : ℕ) × (primary' ≡ pos (suc p)) × (p < length vs))
    → Agrees (set vs i (record v { status = status })) primary'
Agrees-set vs primary primary' i v status a held here others range = record {
  numbered = numbered';
  marked = marked';
  in_range = rw (length-set vs i (record v { status = status })) range;
}
  where
    at :
        (j : ℕ) (w : KeyVersion)
        → get_elem? (set vs i (record v { status = status })) j ≡ some w
        → ((j ≡ i) × (w ≡ record v { status = status })) ⊎ ((j ≢ i) × (get_elem? vs j ≡ some w))
    at j w h = elim (Bool-cases (i == j)) [
      | inl same ↦
          inl (ground arith, ground (arith, get_elem?-set vs i j (record v { status = status }) v))
      | inr other ↦
          inr (ground arith, ground (arith, get_elem?-set vs i j (record v { status = status }) v))
    ]

    numbered' :
        (j : ℕ) (w : KeyVersion)
        → get_elem? (set vs i (record v { status = status })) j ≡ some w
        → w.version_number ≡ pos (suc j)
    numbered' j w h = elim (at j w h) [
      | inl (e, is_w) ↦ rw (is_w, e) (a.numbered i v held)
      | inr (ne, old) ↦ a.numbered j w old
    ]

    marked' :
        (j : ℕ) (w : KeyVersion)
        → get_elem? (set vs i (record v { status = status })) j ≡ some w
        → is_primary w.status ≡ eq_ℤ (pos (suc j)) primary'
    marked' j w h = elim (at j w h) [
      | inl (e, is_w) ↦ rw (is_w, e) here
      | inr (ne, old) ↦ a.marked j w old ∙ others j ne
    ]

pub set_status-same :
    (vs : List KeyVersion) (primary : ℤ) (i : ℕ) (v : KeyVersion) (status : KeyStatus)
    → Agrees vs primary
    → get_elem? vs i ≡ some v
    → is_primary status ≡ is_primary v.status
    → Agrees (set vs i (record v { status = status })) primary
set_status-same vs primary i v status a held same =
    Agrees-set vs primary primary i v status a held (same ∙ a.marked i v held) (λ j ne. refl)
      a.in_range

pub status-cases : (s : KeyStatus) → (s ≡ s_active) ⊎ ((s ≡ s_primary) ⊎ (s ≡ s_inactive))
status-cases s_active = inl refl
status-cases s_primary = inr (inl refl)
status-cases s_inactive = inr (inr refl)

-- What `set_status` returns at a version that was found.
pub set_status-at :
    (version : ℤ) (status : KeyStatus) (vs : List KeyVersion) (v : KeyVersion)
    → version_at version vs ≡ ok v
    → set_status version status vs ≡ ok (set_at version (record v { status = status }) vs)
unfolding set_status
set_status-at version status vs v e = rw e refl

-- The status at the index that `primary` names, and at no other, is PRIMARY.
pub primary_is :
    (vs : List KeyVersion) (primary : ℤ) (i : ℕ) (v : KeyVersion)
    → Agrees vs primary
    → get_elem? vs i ≡ some v
    → v.status ≡ s_primary
    → primary ≡ pos (suc i)
primary_is vs primary i v a held e =
    sym (eq_ℤ→eq (pos (suc i)) primary (sym (a.marked i v held) ∙ ap is_primary e))

-- After the primary version at `i` has lost its status no version is primary.
pub unmarked :
    (vs : List KeyVersion) (i : ℕ) (v : KeyVersion) (status : KeyStatus)
    → Agrees vs (pos (suc i))
    → get_elem? vs i ≡ some v
    → is_primary status ≡ false
    → Agrees (set vs i (record v { status = status })) minus_one
unmarked vs i v status a held e =
    Agrees-set vs (pos (suc i)) minus_one i v status a held e (λ j ne. ground arith) (inl refl)

-- Demote keeps the versions and `primary` in agreement.
pub demote-IsManaged :
    (version : ℤ) (kz kz' : KeyCzar) → IsManaged kz → demote version kz ≡ ok kz' → IsManaged kz'
unfolding demote
demote-IsManaged version kz kz' a e =
    let vs = kz.keymeta.versions in
    let (v, at, e₁) = >>=-eq-ok (version_at version vs) _ e in
    let (i, is_i, held) = version_at-ok version vs v at in
    elim (status-cases v.status) [
      | inl active ↦
          subst IsManaged
            (ok-injective (rw (active, set_status-at version s_inactive vs v at, is_i) at e₁))
            (set_status-same vs kz.primary i v s_inactive a held (rw active refl))
      | inr (inl primary) ↦
          subst IsManaged
            (ok-injective (rw (primary, set_status-at version s_active vs v at, is_i) at e₁))
            (unmarked vs i v s_active
              (subst (Agrees vs) (primary_is vs kz.primary i v a held primary) a) held refl)
      | inr (inr inactive) ↦ subst IsManaged (ok-injective (rw inactive at e₁)) a
    ]
