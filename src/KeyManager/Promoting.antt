-- ===== src/KeyManager/Promoting.antt =====
-- keyman.go, Promote: one primary version takes the place of another.
use dkeyczar.Prelude.{
  ℕ, suc, ◌≡◌, ◌≢◌, refl, sym, ap, ◌∙◌, true, false, ok, >>=-eq-ok, ok-injective, some, List, ℤ,
  pos, minus_one, eq_ℤ, eq_ℤ-refl, get_elem?, get_elem?-set, get_elem?-lt, set, set-set, arith, inl,
  inr,
}
use mathlib.Core.Path.{subst}
use dkeyczar.KeyInfo.{KeyVersion, s_primary, s_active}
use dkeyczar.KeySet.{KeyCzar, is_primary}
use dkeyczar.KeyManager.{version_at, demote_current, promote}
use dkeyczar.KeyManager.Managed.{
  Agrees, IsManaged, Agrees-set, status-cases, set_status-at, unmarked, version_at-ok,
  set_status-ok, set_status-same,
}

pos_suc-injective : (a b : ℕ) → pos (suc a) ≡ pos (suc b) → a ≡ b
pos_suc-injective a b e = cc

-- The version at `i` becomes primary where none was.
pub marked_at :
    (vs : List KeyVersion) (i : ℕ) (v : KeyVersion)
    → Agrees vs minus_one
    → get_elem? vs i ≡ some v
    → Agrees (set vs i (record v { status = s_primary })) (pos (suc i))
marked_at vs i v a held =
    Agrees-set vs minus_one (pos (suc i)) i v s_primary a held (sym (eq_ℤ-refl (pos (suc i))))
      (λ j ne. ground arith) (inr (i, refl, get_elem?-lt vs i v held))

-- Raising `i` and then making the primary version `p` active is the other order.
replaced :
    (vs : List KeyVersion) (p i : ℕ) (v w : KeyVersion)
    → Agrees vs (pos (suc p))
    → i ≢ p
    → get_elem? vs i ≡ some v
    → get_elem? (set vs i (record v { status = s_primary })) p ≡ some w
    → Agrees
        (set (set vs i (record v { status = s_primary })) p (record w { status = s_active }))
        (pos (suc i))
replaced vs p i v w a ne held raised =
    rw (set-set vs i p (record v { status = s_primary }) (record w { status = s_active }) ne) (
      marked_at (set vs p (record w { status = s_active })) i v
        (unmarked vs p w s_active a old refl)
        (ground (arith, get_elem?-set vs p i (record w { status = s_active }) w old)))
  where
    old : get_elem? vs p ≡ some w
    old = ground (arith, get_elem?-set vs i p (record v { status = s_primary }) v)

-- An active version is raised and the current primary version, if any, made active.
promoted :
    (kz : KeyCzar) (i : ℕ) (v : KeyVersion) (vs' : List KeyVersion)
    → IsManaged kz
    → get_elem? kz.keymeta.versions i ≡ some v
    → v.status ≡ s_active
    → demote_current kz (set kz.keymeta.versions i (record v { status = s_primary })) ≡ ok vs'
    → Agrees vs' (pos (suc i))
unfolding demote_current
promoted kz i v vs' a held active e = elim a.in_range [
  | inl none_yet ↦
      rw (← ok-injective (rw none_yet at e))
        (marked_at kz.keymeta.versions i v (subst (Agrees kz.keymeta.versions) none_yet a) held)
  | inr (p, is_p, lt) ↦
      let (q, w, is_q, got, is_vs') =
        set_status-ok (pos (suc p)) s_active
          (set kz.keymeta.versions i (record v { status = s_primary })) vs' (rw is_p at e) in
      let q_is_p : q ≡ p = pos_suc-injective q p (sym is_q) in
      rw (is_vs', q_is_p)
        (replaced kz.keymeta.versions p i v w (subst (Agrees kz.keymeta.versions) is_p a)
          (not_primary p is_p) held (rw q_is_p at got))
]
  where
    not_primary : (p : ℕ) → kz.primary ≡ pos (suc p) → i ≢ p
    not_primary p is_p same =
        let no : eq_ℤ (pos (suc i)) (pos (suc p)) ≡ false =
          rw is_p at (sym (a.marked i v held) ∙ ap is_primary active) in
        let yes : eq_ℤ (pos (suc i)) (pos (suc p)) ≡ true = rw same (eq_ℤ-refl (pos (suc p))) in cc

-- Promote keeps the versions and `primary` in agreement.
pub promote-IsManaged :
    (version : ℤ) (kz kz' : KeyCzar) → IsManaged kz → promote version kz ≡ ok kz' → IsManaged kz'
unfolding promote
promote-IsManaged version kz kz' a e =
    let vs = kz.keymeta.versions in
    let (v, at, e₁) = >>=-eq-ok (version_at version vs) _ e in
    let (i, is_i, held) = version_at-ok version vs v at in
    elim (status-cases v.status) [
      | inl active ↦
          let (vs', moved, e₂) =
            >>=-eq-ok (demote_current kz (set vs i (record v { status = s_primary }))) _
              (rw (active, set_status-at version s_primary vs v at, is_i) at e₁) in
          subst IsManaged (ok-injective e₂) (promoted kz i v vs' a held active moved)
      | inr (inl primary) ↦ subst IsManaged (ok-injective (rw primary at e₁)) a
      | inr (inr inactive) ↦
          subst IsManaged
            (ok-injective (rw (inactive, set_status-at version s_active vs v at, is_i) at e₁))
            (set_status-same vs kz.primary i v s_active a held (rw inactive refl))
    ]
