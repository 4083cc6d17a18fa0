-- ===== src/KeyManager/Adding.antt =====
-- keyman.go, AddKey: the number of the new version, and what a key that is not primary leaves.
use dkeyczar.Prelude.{
  ℕ, suc, ◌+◌, ◌^◌, ◌<◌, ◌≡◌, refl, sym, ap, ◌∙◌, false, Result, ok, err, panic, Error, >>=-eq-ok,
  ok-injective, Option, some, List, [], ◌∷◌, ◌++◌, ℤ, pos, minus_one, eq_ℤ, to_int64, to_uint64,
  if◌then◌else◌, get_elem?, get_elem?-append, length, length-append, arith, ◌⊎◌, inl, inr, ltb,
}
use dkeyczar.KeyInfo.{KeyMeta, KeyVersion, KeyStatus}
use dkeyczar.Keys.{KeyData, Random, generate_key}
use dkeyczar.KeySet.{KeyCzar, is_primary}
use dkeyczar.KeyManager.{with_versions, max_version, next_int, make_room, keep_key, add_key}
use dkeyczar.KeyManager.Managed.{Agrees, IsManaged}

-- Versions numbered from `n` + 1.
abbrev pub NumberedFrom : ℕ → List KeyVersion → Type 0
NumberedFrom n [] = Unit {0}
NumberedFrom n (v ∷ vs) = (v.version_number ≡ pos (suc n)) × NumberedFrom (suc n) vs

numbered_from :
    (n : ℕ) (vs : List KeyVersion)
    → ((i : ℕ) (v : KeyVersion) → get_elem? vs i ≡ some v → v.version_number ≡ pos (suc (n + i)))
    → NumberedFrom n vs
numbered_from n [] h = tt
numbered_from n (v ∷ vs) h = (
  h 0 v refl ∙ ap pos (omega arith),
  numbered_from (suc n) vs (λ i w e. h (suc i) w e ∙ ap pos (omega arith)),
)

max_version-NumberedFrom :
    (n : ℕ) (vs : List KeyVersion)
    → NumberedFrom n vs
    → max_version (pos n) vs ≡ pos (n + length vs)
unfolding max_version
max_version-NumberedFrom n [] h = ap pos (omega arith)
max_version-NumberedFrom n (v ∷ vs) (here, h) =
    rw (here, max_version) (larger (max_version-NumberedFrom (suc n) vs h))
  where
    larger :
        max_version (pos (suc n)) vs ≡ pos (suc n + length vs)
        → max_version (if ltb n (suc n) then pos (suc n) else pos n) vs ≡ pos (n + suc (length vs))
    larger e = ground arith

next_int-pos : (n : ℕ) → suc n < 2 ^ 63 → next_int (pos n) ≡ pos (suc n)
unfolding to_int64 to_uint64
next_int-pos n h = ground arith

-- The new version behind versions numbered from 1 bears the next number.
pub next_number :
    (vs : List KeyVersion)
    → NumberedFrom 0 vs
    → suc (length vs) < 2 ^ 63
    → next_int (max_version (pos 0) vs) ≡ pos (suc (length vs))
next_number vs a small =
    rw (max_version-NumberedFrom 0 vs a)
      (ap next_int (ap pos zero_add) ∙ next_int-pos (length vs) small)
  where
    zero_add : 0 + length vs ≡ length vs
    zero_add = omega arith

pub Agrees-NumberedFrom :
    (vs : List KeyVersion) (primary : ℤ) → Agrees vs primary → NumberedFrom 0 vs
Agrees-NumberedFrom vs primary a =
    numbered_from 0 vs (λ i v h. a.numbered i v h ∙ ap (λ n. pos (suc n)) (omega arith))

-- A version at the end that says of itself what `primary` says.
pub Agrees-append :
    (vs : List KeyVersion) (primary : ℤ) (kv : KeyVersion)
    → Agrees vs primary
    → kv.version_number ≡ pos (suc (length vs))
    → is_primary kv.status ≡ eq_ℤ (pos (suc (length vs))) primary
    → Agrees (vs ++ kv ∷ []) primary
Agrees-append vs primary kv a number mark = record {
  numbered = numbered';
  marked = marked';
  in_range = range a.in_range;
}
  where
    at :
        (j : ℕ) (w : KeyVersion)
        → get_elem? (vs ++ kv ∷ []) j ≡ some w
        → ((length vs ≡ j) × (kv ≡ w)) ⊎ (get_elem? vs j ≡ some w)
    at j w h = ground (arith, get_elem?-append vs j kv)

    numbered' :
        (j : ℕ) (w : KeyVersion)
        → get_elem? (vs ++ kv ∷ []) j ≡ some w
        → w.version_number ≡ pos (suc j)
    numbered' j w h = elim (at j w h) [
      | inl (e, is_w) ↦ rw (← is_w, ← e) number
      | inr old ↦ a.numbered j w old
    ]

    marked' :
        (j : ℕ) (w : KeyVersion)
        → get_elem? (vs ++ kv ∷ []) j ≡ some w
        → is_primary w.status ≡ eq_ℤ (pos (suc j)) primary
    marked' j w h = elim (at j w h) [
      | inl (e, is_w) ↦ rw (← is_w, ← e) mark
      | inr old ↦ a.marked j w old
    ]

    range :
        (primary ≡ minus_one) ⊎ ((p : ℕ) × (primary ≡ pos (suc p)) × (p < length vs))
        → (primary ≡ minus_one) ⊎ ((p : ℕ) × (primary ≡ pos (suc p)) × (p < length (vs ++ kv ∷ [])))
    range (inl none_yet) = inl none_yet
    range (inr (p, is_p, lt)) = inr (p, is_p, omega (arith, length-append vs (kv ∷ [])))

-- `primary` never names a number past the end.
pub past_end :
    (vs : List KeyVersion) (primary : ℤ)
    → Agrees vs primary
    → eq_ℤ (pos (suc (length vs))) primary ≡ false
past_end vs primary a = elim a.in_range [
  | inl none_yet ↦ rw none_yet refl
  | inr (p, is_p, lt) ↦ rw is_p (ground arith)
]

-- Keeping a key changes neither the metadata nor `primary`.
pub keep_key-same :
    (number : ℤ) (kz kz' : KeyCzar) (made : Result KeyData) (failed : Option Error)
    → keep_key number kz made ≡ ok (kz', failed)
    → (kz'.keymeta ≡ kz.keymeta) × (kz'.primary ≡ kz.primary)
keep_key-same number kz kz' (ok k) failed e =
    let same = ok-injective e in
    (
      sym (ap (λ (p : KeyCzar × Option Error). p.0.keymeta) same),
      sym (ap (λ (p : KeyCzar × Option Error). p.0.primary) same),
    )
keep_key-same number kz kz' (err x) failed e =
    let same = ok-injective e in
    (
      sym (ap (λ (p : KeyCzar × Option Error). p.0.keymeta) same),
      sym (ap (λ (p : KeyCzar × Option Error). p.0.primary) same),
    )
keep_key-same number kz kz' panic failed e = cc

-- The version that AddKey appends to the versions that it has made room in.
abbrev pub new_version : KeyStatus → List KeyVersion → KeyVersion
new_version status vs = record {
  version_number = next_int (max_version (pos 0) vs);
  status = status;
  exportable = false;
}

-- The metadata after AddKey, with or without a key.
pub add_key-ok :
    (rand : Random) (size : ℕ) (status : KeyStatus) (kz kz' : KeyCzar) (failed : Option Error)
    → add_key rand size status kz ≡ ok (kz', failed)
    → (vs : List KeyVersion) × (make_room status kz ≡ ok vs)
      × (kz'.keymeta.versions ≡ vs ++ new_version status vs ∷ [])
      × (kz'.primary ≡ kz.primary)
unfolding add_key
add_key-ok rand size status kz kz' failed e =
    let (vs, room, e₁) = >>=-eq-ok (make_room status kz) _ e in
    let (meta, primary) =
      keep_key-same (next_int (max_version (pos 0) vs))
        (with_versions kz (vs ++ new_version status vs ∷ [])) kz'
        (generate_key rand kz.keymeta.type size) failed e₁ in
    (vs, room, ap (λ (m : KeyMeta). m.versions) meta, primary)

-- AddKey with a status other than PRIMARY keeps the versions and `primary` in agreement, whether
-- or not a key could be made, as long as the number of versions fits an int.
pub add_key-IsManaged :
    (rand : Random) (size : ℕ) (status : KeyStatus) (kz kz' : KeyCzar) (failed : Option Error)
    → IsManaged kz
    → is_primary status ≡ false
    → suc (length kz.keymeta.versions) < 2 ^ 63
    → add_key rand size status kz ≡ ok (kz', failed)
    → IsManaged kz'
unfolding make_room
add_key-IsManaged rand size status kz kz' failed a other small e =
    let (vs, room, grown, primary) = add_key-ok rand size status kz kz' failed e in
    let same : kz.keymeta.versions ≡ vs = ok-injective (rw other at room) in
    rw (grown, primary, ← same)
      (Agrees-append kz.keymeta.versions kz.primary (new_version status kz.keymeta.versions) a
        (next_number kz.keymeta.versions (Agrees-NumberedFrom kz.keymeta.versions kz.primary a)
          small)
        (other ∙ sym (past_end kz.keymeta.versions kz.primary a)))
