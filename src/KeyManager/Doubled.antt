-- ===== src/KeyManager/Doubled.antt =====
-- keyman.go, AddKey with status PRIMARY: `primary` is not set, so that a second such version does
-- not take the place of the first.
use dkeyczar.Prelude.{
  ℕ, suc, ◌+◌, ◌^◌, ◌<◌, ◌≡◌, refl, ap, ◌∙◌, ok, err, Error, ok-injective, Option, List, [], ◌∷◌,
  ◌++◌, pos, minus_one, length, length-append, arith, no_primary_key,
}
use dkeyczar.KeyInfo.{KeyVersion, s_primary}
use dkeyczar.Keys.{Random}
use dkeyczar.KeySet.{KeyCzar, load_primary_key}
use dkeyczar.KeySet.Primary.{primaries, load_primary_key-only}
use dkeyczar.KeyManager.{make_room, add_key}
use dkeyczar.KeyManager.Managed.{IsManaged}
use dkeyczar.KeyManager.Adding.{
  NumberedFrom, Agrees-NumberedFrom, new_version, next_number, add_key-ok,
}
use dkeyczar.KeyManager.Reachable.{primaries-Agrees, NumberedFrom-IsNumbered}

primaries-append : (vs ws : List KeyVersion) → primaries (vs ++ ws) ≡ primaries vs ++ primaries ws
unfolding primaries
primaries-append [] ws = refl
primaries-append (v ∷ vs) ws = ground (arith, primaries-append vs ws)

NumberedFrom-append :
    (n : ℕ) (vs : List KeyVersion) (v : KeyVersion)
    → NumberedFrom n vs
    → v.version_number ≡ pos (suc (n + length vs))
    → NumberedFrom n (vs ++ v ∷ [])
NumberedFrom-append n [] v h e = (e ∙ ap pos (omega arith), tt)
NumberedFrom-append n (w ∷ vs) v (here, h) e =
    (here, NumberedFrom-append (suc n) vs v h (e ∙ ap pos (omega arith)))

-- AddKey as PRIMARY where `primary` is -1: one more primary version, and `primary` stays.
module _ (rand : Random) (size : ℕ) (kz kz' : KeyCzar) (failed : Option Error) where
  add_key-primary :
      kz.primary ≡ minus_one
      → NumberedFrom 0 kz.keymeta.versions
      → suc (length kz.keymeta.versions) < 2 ^ 63
      → add_key rand size s_primary kz ≡ ok (kz', failed)
      → (kz'.primary ≡ minus_one)
        × NumberedFrom 0 kz'.keymeta.versions
        × (length kz'.keymeta.versions ≡ suc (length kz.keymeta.versions))
        × (primaries kz'.keymeta.versions
            ≡ primaries kz.keymeta.versions ++ pos (suc (length kz.keymeta.versions)) ∷ [])
  unfolding make_room primaries
  add_key-primary none_yet numbers small e =
      let (vs, room, grown, primary) = add_key-ok rand size s_primary kz kz' failed e in
      let same : kz.keymeta.versions ≡ vs = ok-injective (rw none_yet at room) in
      let number = next_number kz.keymeta.versions numbers small in
      let v : KeyVersion = new_version s_primary kz.keymeta.versions in
      let grown' : kz'.keymeta.versions ≡ kz.keymeta.versions ++ v ∷ [] = rw same grown in
      (
        primary ∙ none_yet,
        rw grown' (
            NumberedFrom-append 0 kz.keymeta.versions v numbers
              (number ∙ ap (λ n. pos (suc n)) (omega arith))),
        rw grown' (length-append kz.keymeta.versions (v ∷ []) ∙ omega arith),
        rw grown' (
            primaries-append kz.keymeta.versions (v ∷ [])
            ∙ ap (λ n. primaries kz.keymeta.versions ++ n ∷ []) number),
      )

-- After two calls of AddKey with status PRIMARY on a key set in agreement that has no primary
-- version, such as a new one, loadPrimaryKey refuses the key set with ErrNoPrimaryKey.
pub load_primary_key-add_key_twice :
    (rand rand' : Random) (size size' : ℕ) (kz kz₁ kz₂ : KeyCzar) (failed failed' : Option Error)
    → IsManaged kz
    → kz.primary ≡ minus_one
    → suc (suc (length kz.keymeta.versions)) < 2 ^ 63
    → add_key rand size s_primary kz ≡ ok (kz₁, failed)
    → add_key rand' size' s_primary kz₁ ≡ ok (kz₂, failed')
    → load_primary_key kz₂ ≡ err no_primary_key
load_primary_key-add_key_twice rand rand' size size' kz kz₁ kz₂ failed failed' m none_yet small e
      e' =
    let vs = kz.keymeta.versions in
    let (none₁, numbers₁, longer, one) =
      add_key-primary rand size kz kz₁ failed none_yet (Agrees-NumberedFrom vs kz.primary m)
        (omega arith) e in
    let (none₂, numbers₂, _, two) =
      add_key-primary rand' size' kz₁ kz₂ failed' none₁ numbers₁ (rw longer small) e' in
    rw
      (
        load_primary_key-only kz₂ (NumberedFrom-IsNumbered 0 kz₂.keymeta.versions numbers₂),
        two,
        one,
        primaries-Agrees vs kz.primary m,
        none_yet,
      )
      refl
