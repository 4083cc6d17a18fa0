-- ===== src/KeyManager/Making.antt =====
-- keyman.go, AddKey on a manager whose versions and `primary` agree, with any status: the versions
-- that it leaves, and the key.
use dkeyczar.Prelude.{
  ℕ, suc, ◌<◌, ◌^◌, ◌≡◌, refl, sym, ap, ◌∙◌, Result, ok, err, panic, Error, >>=-eq-ok, ok-injective,
  Option, none, List, [], ◌∷◌, ◌++◌, ℤ, pos, minus_one, if◌then◌else◌, get_elem?-append, length,
  length-set, set, set_key, int_eq, arith, inl, inr,
}
use mathlib.Core.Path.{subst}
use dkeyczar.KeyInfo.{KeyVersion, KeyStatus, s_primary, s_active, s_inactive}
use dkeyczar.Keys.{KeyData, Random, generate_key}
use dkeyczar.KeySet.{KeyCzar, is_primary}
use dkeyczar.KeyManager.{with_versions, next_int, max_version, make_room, keep_key, add_key}
use dkeyczar.KeyManager.Managed.{Agrees, IsManaged, set_status-ok, unmarked}
use dkeyczar.KeyManager.Promoting.{marked_at}
use dkeyczar.KeyManager.Adding.{
  Agrees-NumberedFrom, Agrees-append, past_end, new_version, next_number,
}

-- A key set after a call that made a key.
pub record HasNewKey (rand : Random) (size : ℕ) (number : ℤ) (kz kz' : KeyCzar) : Type 0 where
  pub key : KeyData
  pub generated : generate_key rand kz.keymeta.type size ≡ ok key
  pub keys : kz'.keys ≡ set_key number key kz.keys
  pub type : kz'.keymeta.type ≡ kz.keymeta.type
  pub name : kz'.keymeta.name ≡ kz.keymeta.name

keep_key-ok :
    (number : ℤ) (kz kz' : KeyCzar) (made : Result KeyData)
    → keep_key number kz made ≡ ok (kz', none)
    → (k : KeyData) × (made ≡ ok k) × (record kz { keys = set_key number k kz.keys } ≡ kz')
keep_key-ok number kz kz' (ok k) e =
    (k, refl, ap (λ (p : KeyCzar × Option Error). p.0) (ok-injective e))
keep_key-ok number kz kz' (err x) e = cc
keep_key-ok number kz kz' panic e = cc

-- AddKey without an error has made a key and filed it under the number of the new version.
pub add_key-HasNewKey :
    (rand : Random) (size : ℕ) (status : KeyStatus) (kz kz' : KeyCzar)
    → add_key rand size status kz ≡ ok (kz', none)
    → (vs : List KeyVersion) × (make_room status kz ≡ ok vs)
      × (kz'.keymeta.versions ≡ vs ++ new_version status vs ∷ [])
      × HasNewKey rand size (next_int (max_version (pos 0) vs)) kz kz'
unfolding add_key
add_key-HasNewKey rand size status kz kz' e =
    let (vs, room, e₁) = >>=-eq-ok (make_room status kz) _ e in
    let number = next_int (max_version (pos 0) vs) in
    let grown : KeyCzar = with_versions kz (vs ++ new_version status vs ∷ []) in
    let (k, gives, is_kz') =
      keep_key-ok number grown kz' (generate_key rand kz.keymeta.type size) e₁ in
    (
      vs,
      room,
      sym (ap (λ (z : KeyCzar). z.keymeta.versions) is_kz'),
      subst (HasNewKey rand size number kz) is_kz'
          (record { key = k; generated = gives; keys = refl; type = refl; name = refl }),
    )

-- Making room for a primary version leaves none, and no call changes the number of versions.
pub make_room-Agrees :
    (status : KeyStatus) (kz : KeyCzar) (vs : List KeyVersion)
    → IsManaged kz
    → make_room status kz ≡ ok vs
    → Agrees vs (if is_primary status then minus_one else kz.primary)
      × (length vs ≡ length kz.keymeta.versions)
unfolding make_room
make_room-Agrees s_active kz vs a e =
    let same = ok-injective e in (subst (λ vs. Agrees vs kz.primary) same a, ap length (sym same))
make_room-Agrees s_inactive kz vs a e =
    let same = ok-injective e in (subst (λ vs. Agrees vs kz.primary) same a, ap length (sym same))
make_room-Agrees s_primary kz vs a e = elim a.in_range [
  | inl none_yet ↦
      let same : kz.keymeta.versions ≡ vs = ok-injective (rw none_yet at e) in
      (
        subst (λ vs. Agrees vs minus_one) same (subst (Agrees kz.keymeta.versions) none_yet a),
        ap length (sym same),
      )
  | inr (p, is_p, lt) ↦
      let (i, v, is_i, held, is_vs) =
        set_status-ok (pos (suc p)) s_active kz.keymeta.versions vs (rw is_p at e) in
      (
        subst (λ vs. Agrees vs minus_one) (sym is_vs)
            (unmarked kz.keymeta.versions i v s_active
              (subst (Agrees kz.keymeta.versions) (is_p ∙ is_i) a) held refl),
        ap length is_vs ∙ length-set kz.keymeta.versions i (record v { status = s_active }),
      )
]

set-append {ℓ} :
    {A : Type ℓ} (xs : List A) (x y : A) → set (xs ++ x ∷ []) (length xs) y ≡ xs ++ y ∷ []
set-append [] x y = refl
set-append (z ∷ xs) x y = ap (λ ys. z ∷ ys) (set-append xs x y)

-- A primary version at the end, where none was primary.
Agrees-append_primary :
    (vs : List KeyVersion) (kv : KeyVersion)
    → Agrees vs minus_one
    → kv.version_number ≡ pos (suc (length vs))
    → Agrees (vs ++ record kv { status = s_primary } ∷ []) (pos (suc (length vs)))
Agrees-append_primary vs kv a number =
    let active : KeyVersion = record kv { status = s_active } in
    subst (λ ws. Agrees ws (pos (suc (length vs))))
      (set-append vs active (record kv { status = s_primary }))
      (marked_at (vs ++ active ∷ []) (length vs) active
        (Agrees-append vs minus_one active a number refl)
        (ground (arith, get_elem?-append vs (length vs) active)))

-- After AddKey with any status the versions agree with a primary one: the new version, if it is
-- primary, and else the one before. `primary` itself is left as it was.
pub add_key-Agrees :
    (status : KeyStatus) (kz : KeyCzar) (vs : List KeyVersion)
    → IsManaged kz
    → suc (length kz.keymeta.versions) < 2 ^ 63
    → make_room status kz ≡ ok vs
    → Agrees
        (vs ++ new_version status vs ∷ [])
        (if is_primary status then pos (suc (length kz.keymeta.versions)) else kz.primary)
add_key-Agrees status kz vs a small room =
    let (agrees, size) = make_room-Agrees status kz vs a room in
    let number = next_number vs (Agrees-NumberedFrom vs _ agrees) (omega (arith, size)) in
    by_status status agrees size number
  where
    by_status :
        (status : KeyStatus)
        → Agrees vs (if is_primary status then minus_one else kz.primary)
        → length vs ≡ length kz.keymeta.versions
        → next_int (max_version (pos 0) vs) ≡ pos (suc (length vs))
        → Agrees
            (vs ++ new_version status vs ∷ [])
            (if is_primary status then pos (suc (length kz.keymeta.versions)) else kz.primary)
    by_status s_primary agrees size number =
        subst (λ n. Agrees (vs ++ new_version s_primary vs ∷ []) (pos (suc n))) size
          (Agrees-append_primary vs (new_version s_primary vs) agrees number)
    by_status s_active agrees size number =
        Agrees-append vs kz.primary (new_version s_active vs) agrees number
          (sym (past_end vs kz.primary agrees))
    by_status s_inactive agrees size number =
        Agrees-append vs kz.primary (new_version s_inactive vs) agrees number
          (sym (past_end vs kz.primary agrees))
