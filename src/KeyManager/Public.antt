-- ===== src/KeyManager/Public.antt =====
-- keyman.go, PubKeys: which key sets have one, and what is in it.
use dkeyczar.Prelude.{
  ◌≡◌, ◌≢◌, refl, false, Option, none, some, List, [], ◌∷◌, ℤ, eq_ℤ, eq_ℤ→eq, Option-cases,
  lookup_key, int_eq, arith, Bool-cases, inl, inr, All,
}
use mathlib.Core.Path.{subst}
use dkeyczar.KeyInfo.{KeyType, KeyPurpose}
use dkeyczar.KeyInfo.Sizes.{decrypting, signing, allows}
use dkeyczar.Keys.{
  KeyData, aes, hmac, dsa_priv, dsa_pub, rsa_priv, rsa_pub, is_decrypt_key, is_sign_key,
}
use dkeyczar.KeySet.{KeyCzar}
use dkeyczar.KeyManager.{public_kind, public_half, public_keys, pub_keys}

some-injective : {A : Type 0} {a b : A} → some a ≡ some b → a ≡ b
some-injective e = cc

none-ne-some : {A : Type 0} {a : A} → none ≢ some a
none-ne-some e = cc

abbrev pub half_of : Option KeyData → Option KeyData
half_of none = none
half_of (some k) = public_half k

-- The map of a Go value has one entry for a key.
abbrev pub HasUniqueKeys : List (ℤ × KeyData) → Type 0
HasUniqueKeys [] = Unit {0}
HasUniqueKeys ((n, k) ∷ m) = (lookup_key n m ≡ none) × HasUniqueKeys m

public_keys-none :
    (n : ℤ) (m : List (ℤ × KeyData)) → lookup_key n m ≡ none → lookup_key n (public_keys m) ≡ none
unfolding lookup_key public_keys
public_keys-none n [] h = refl
public_keys-none n ((i, k) ∷ m) h = ground (arith, public_keys-none n m)

lookup_key-public_keys :
    (n : ℤ) (m : List (ℤ × KeyData))
    → HasUniqueKeys m
    → lookup_key n (public_keys m) ≡ half_of (lookup_key n m)
unfolding lookup_key public_keys
lookup_key-public_keys n [] u = refl
lookup_key-public_keys n ((i, k) ∷ m) (first, u) = elim (Bool-cases (eq_ℤ i n)) [
  | inl hit ↦
      let none_later : lookup_key n (public_keys m) ≡ none =
        rw (eq_ℤ→eq i n hit) at (public_keys-none i m first) in
      rw (hit, lookup_key)
        (elim (Option-cases (public_half k)) [
          | inl e ↦ rw (e, lookup_key) none_later
          | inr (h, e) ↦ rw (e, lookup_key) (rw (hit, lookup_key) refl)
        ])
  | inr miss ↦
      rw (miss, lookup_key)
        (elim (Option-cases (public_half k)) [
          | inl e ↦ rw (e, lookup_key) (lookup_key-public_keys n m u)
          | inr (h, e) ↦ rw (e, lookup_key) (rw (miss, lookup_key) (lookup_key-public_keys n m u))
        ])
]

public_keys-weak :
    (m : List (ℤ × KeyData))
    → All
        (λ (e : ℤ × KeyData). (is_decrypt_key e.1 ≡ false) × (is_sign_key e.1 ≡ false))
        (public_keys m)
unfolding public_keys is_decrypt_key is_sign_key
public_keys-weak [] = tt
public_keys-weak ((n, aes k) ∷ m) = public_keys-weak m
public_keys-weak ((n, hmac k) ∷ m) = public_keys-weak m
public_keys-weak ((n, dsa_priv k) ∷ m) = ((refl, refl), public_keys-weak m)
public_keys-weak ((n, dsa_pub k) ∷ m) = public_keys-weak m
public_keys-weak ((n, rsa_priv k) ∷ m) = ((refl, refl), public_keys-weak m)
public_keys-weak ((n, rsa_pub k) ∷ m) = public_keys-weak m

public_kind-weak :
    (t t' : KeyType) (p p' : KeyPurpose)
    → public_kind t p ≡ some (t', p')
    → (allows p' decrypting ≡ false) × (allows p' signing ≡ false)
unfolding public_kind
public_kind-weak t t' p p' e = ground arith

-- Over a map with one entry for a version: where PubKeys gives a key set, it has the versions of the manager's, under each number the
-- public half of the key that was there, a purpose that allows neither decrypting nor signing, and
-- no key that can do either.
pub pub_keys-public :
    (kz kz' : KeyCzar)
    → HasUniqueKeys kz.keys
    → pub_keys kz ≡ some kz'
    → (kz'.keymeta.versions ≡ kz.keymeta.versions)
      × ((n : ℤ) → lookup_key n kz'.keys ≡ half_of (lookup_key n kz.keys))
      × (allows kz'.keymeta.purpose decrypting ≡ false)
      × (allows kz'.keymeta.purpose signing ≡ false)
      × All (λ (e : ℤ × KeyData). (is_decrypt_key e.1 ≡ false) × (is_sign_key e.1 ≡ false)) kz'.keys
unfolding pub_keys
pub_keys-public kz kz' u e = elim (Option-cases (public_kind kz.keymeta.type kz.keymeta.purpose)) [
  | inl absent ↦ absurd (none-ne-some (rw (absent, pub_keys) at e))
  | inr ((t, p), known) ↦
      let weak = public_kind-weak kz.keymeta.type t kz.keymeta.purpose p known in
      subst
        (λ (z : KeyCzar).
          (z.keymeta.versions ≡ kz.keymeta.versions)
          × ((n : ℤ) → lookup_key n z.keys ≡ half_of (lookup_key n kz.keys))
          × (allows z.keymeta.purpose decrypting ≡ false)
          × (allows z.keymeta.purpose signing ≡ false)
          × All (λ (e : ℤ × KeyData). (is_decrypt_key e.1 ≡ false) × (is_sign_key e.1 ≡ false))
              z.keys)
        (some-injective (rw (known, pub_keys) at e))
        (refl, (λ n. lookup_key-public_keys n kz.keys u), weak.0, weak.1, public_keys-weak kz.keys)
]
