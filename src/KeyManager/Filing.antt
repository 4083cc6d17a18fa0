-- ===== src/KeyManager/Filing.antt =====
-- keyman.go, AddKey, Promote and Demote: the keys behind the versions, and the key that is added.
use dkeyczar.Prelude.{
  ℕ, suc, ◌+◌, ◌≡◌, refl, sym, ap, ◌∙◌, true, false, ok, >>=-eq-ok, ok-injective, none, List, [],
  ◌∷◌, ◌++◌, ℤ, pos, Bool-cases, minus_one, eq_ℤ, ◌==◌, length, length-set, lookup_key, set_key,
  lookup_key-set_key, int_eq, arith, inl, inr, nat_eq,
}
use mathlib.Core.Path.{subst}
use dkeyczar.KeyInfo.{KeyVersion, KeyStatus, s_primary, s_active, s_inactive}
use dkeyczar.Keys.{KeyData}
use dkeyczar.KeySet.{KeyCzar}
use dkeyczar.KeyManager.{with_versions, version_at, set_status, demote_current, promote, demote}
use dkeyczar.KeyManager.Managed.{status-cases, set_status-ok}
use dkeyczar.KeyManager.Counting.{Holds}

-- Only the versions' statuses differ, and `primary`.
pub record HasSameKeys (kz kz' : KeyCzar) : Type 0 where
  pub keys : kz'.keys ≡ kz.keys
  pub type : kz'.keymeta.type ≡ kz.keymeta.type
  pub name : kz'.keymeta.name ≡ kz.keymeta.name
  pub size : length kz'.keymeta.versions ≡ length kz.keymeta.versions

set_status-length :
    (version : ℤ) (status : KeyStatus) (vs vs' : List KeyVersion)
    → set_status version status vs ≡ ok vs'
    → length vs' ≡ length vs
set_status-length version status vs vs' e =
    let (i, v, _, _, is_vs') = set_status-ok version status vs vs' e in
    ap length is_vs' ∙ length-set vs i (record v { status = status })

changed :
    (kz kz' : KeyCzar) (vs : List KeyVersion) (primary : ℤ)
    → length vs ≡ length kz.keymeta.versions
    → record (with_versions kz vs) { primary = primary } ≡ kz'
    → HasSameKeys kz kz'
changed kz kz' vs primary size e =
    subst (HasSameKeys kz) e (record { keys = refl; type = refl; name = refl; size = size })

pub demote-HasSameKeys :
    (version : ℤ) (kz kz' : KeyCzar) → demote version kz ≡ ok kz' → HasSameKeys kz kz'
unfolding demote
demote-HasSameKeys version kz kz' e =
    let vs = kz.keymeta.versions in
    let (v, at, e₁) = >>=-eq-ok (version_at version vs) _ e in
    elim (status-cases v.status) [
      | inl active ↦
          let (vs', moved, e₂) = >>=-eq-ok (set_status version s_inactive vs) _ (rw active at e₁) in
          changed kz kz' vs' kz.primary (set_status-length version s_inactive vs vs' moved)
            (ok-injective e₂)
      | inr (inl primary) ↦
          let (vs', moved, e₂) = >>=-eq-ok (set_status version s_active vs) _ (rw primary at e₁) in
          changed kz kz' vs' minus_one (set_status-length version s_active vs vs' moved)
            (ok-injective e₂)
      | inr (inr inactive) ↦ changed kz kz' vs kz.primary refl (ok-injective (rw inactive at e₁))
    ]

demote_current-length :
    (kz : KeyCzar) (vs vs' : List KeyVersion)
    → demote_current kz vs ≡ ok vs'
    → length vs' ≡ length vs
unfolding demote_current
demote_current-length kz vs vs' e = elim (Bool-cases (eq_ℤ kz.primary minus_one)) [
  | inl none_yet ↦ ap length (sym (ok-injective (rw none_yet at e)))
  | inr held ↦ set_status-length kz.primary s_active vs vs' (rw held at e)
]

pub promote-HasSameKeys :
    (version : ℤ) (kz kz' : KeyCzar) → promote version kz ≡ ok kz' → HasSameKeys kz kz'
unfolding promote
promote-HasSameKeys version kz kz' e =
    let vs = kz.keymeta.versions in
    let (v, at, e₁) = >>=-eq-ok (version_at version vs) _ e in
    elim (status-cases v.status) [
      | inl active ↦
          let (raised, lifted, e₂) =
            >>=-eq-ok (set_status version s_primary vs) _ (rw active at e₁) in
          let (vs', moved, e₃) = >>=-eq-ok (demote_current kz raised) _ e₂ in
          changed kz kz' vs' version
            (demote_current-length kz raised vs' moved
              ∙ set_status-length version s_primary vs raised lifted)
            (ok-injective e₃)
      | inr (inl primary) ↦ changed kz kz' vs kz.primary refl (ok-injective (rw primary at e₁))
      | inr (inr inactive) ↦
          let (vs', moved, e₂) = >>=-eq-ok (set_status version s_active vs) _ (rw inactive at e₁) in
          changed kz kz' vs' kz.primary (set_status-length version s_active vs vs' moved)
            (ok-injective e₂)
    ]

-- Filing a key under the next number.
pub Holds-append :
    (i : ℕ) (ks : List KeyData) (k : KeyData) (m : List (ℤ × KeyData))
    → Holds i ks m
    → lookup_key (pos (suc (i + length ks))) m ≡ none
    → Holds i (ks ++ k ∷ []) (set_key (pos (i + length ks)) k m)
Holds-append i [] k m h free =
    let same : ((i + 0) == i) ≡ true = ground arith in
    let other : ((i + 0) == suc i) ≡ false = ground arith in
    (
      rw (lookup_key-set_key, same) refl,
      rw (lookup_key-set_key, other) (ap (λ n. lookup_key (pos n) m) (omega arith) ∙ free),
    )
Holds-append i (k' ∷ ks) k m (here, h) free =
    let other : ((i + suc (length ks)) == i) ≡ false = ground arith in
    let shifted : suc i + length ks ≡ i + suc (length ks) = omega arith in
    (
      rw (lookup_key-set_key, other) here,
      subst (λ n. Holds (suc i) (ks ++ k ∷ []) (set_key (pos n) k m)) shifted
          (Holds-append (suc i) ks k m h (ap (λ n. lookup_key (pos (suc n)) m) shifted ∙ free)),
    )
