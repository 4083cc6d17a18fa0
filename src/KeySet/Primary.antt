-- ===== src/KeySet/Primary.antt =====
-- keyczar.go, loadPrimaryKey: the primary key is unique.
use dkeyczar.Prelude.{
  ◌≡◌, ◌≢◌, refl, false, Result, ok, err, ◌>>=◌, List, [], ◌∷◌, ℤ, minus_one, eq_ℤ, eq_ℤ→eq,
  if◌then◌else◌, no_primary_key, All, arith, Bool-cases, inl, inr,
}
use dkeyczar.KeyInfo.{KeyVersion}
use dkeyczar.KeySet.{KeyCzar, is_primary, find_primary, load_primary_key}

-- The numbers of the versions with status PRIMARY.
unfoldable pub primaries : List KeyVersion → List ℤ
primaries [] = []
primaries (v ∷ vs) = if is_primary v.status then v.version_number ∷ primaries vs else primaries vs

-- The number if there is exactly one.
abbrev pub only : List ℤ → Result ℤ
only (n ∷ []) = ok n
only [] = err no_primary_key
only (n ∷ m ∷ ms) = err no_primary_key

abbrev pub IsNumbered : KeyVersion → Type 0
IsNumbered v = v.version_number ≢ minus_one

abbrev none_or : ℤ → List ℤ → Result ℤ
none_or primary [] = ok primary
none_or primary (n ∷ ns) = err no_primary_key

find_primary-again :
    (primary : ℤ) (vs : List KeyVersion)
    → eq_ℤ primary minus_one ≡ false
    → find_primary primary vs ≡ none_or primary (primaries vs)
unfolding find_primary primaries
find_primary-again primary [] h = refl
find_primary-again primary (v ∷ vs) h = ground (arith, find_primary-again primary vs h)

eq_ℤ_ne : (a b : ℤ) → a ≢ b → eq_ℤ a b ≡ false
eq_ℤ_ne a b ne = elim (Bool-cases (eq_ℤ a b)) [ inl e ↦ absurd (ne (eq_ℤ→eq a b e)) | inr e ↦ e ]

-- What the loop returns from its start: -1 stands for none.
abbrev first_or : List ℤ → Result ℤ
first_or [] = ok minus_one
first_or (n ∷ ns) = none_or n ns

find_primary-first :
    (vs : List KeyVersion) → All IsNumbered vs → find_primary minus_one vs ≡ first_or (primaries vs)
unfolding find_primary primaries
find_primary-first [] h = refl
find_primary-first (v ∷ vs) (ne, h) = elim (Bool-cases (is_primary v.status)) [
  | inl e ↦
      rw (e, find_primary)
        (find_primary-again v.version_number vs (eq_ℤ_ne v.version_number minus_one ne))
  | inr e ↦ rw (e, find_primary) (find_primary-first vs h)
]

primaries-Numbered :
    (vs : List KeyVersion) → All IsNumbered vs → All (λ n. n ≢ minus_one) (primaries vs)
unfolding primaries
primaries-Numbered [] h = tt
primaries-Numbered (v ∷ vs) (ne, h) = elim (Bool-cases (is_primary v.status)) [
  | inl e ↦ rw e (ne, primaries-Numbered vs h)
  | inr e ↦ rw e (primaries-Numbered vs h)
]

-- loadPrimaryKey succeeds exactly when one version, and no more, has status PRIMARY, and then it
-- sets `primary` to the number of that version and changes nothing else. No version may bear the
-- number -1, by which the code marks that none was found.
pub load_primary_key-only :
    (kz : KeyCzar)
    → All IsNumbered kz.keymeta.versions
    → load_primary_key kz
      ≡ (only (primaries kz.keymeta.versions) >>= λ n. ok (record kz { primary = n }))
unfolding load_primary_key
load_primary_key-only kz h =
    rw (find_primary-first kz.keymeta.versions h, load_primary_key)
      (settle (primaries kz.keymeta.versions) (primaries-Numbered kz.keymeta.versions h))
  where
    settle :
        (ns : List ℤ)
        → All (λ n. n ≢ minus_one) ns
        → (first_or ns >>= λ primary.
            if eq_ℤ primary minus_one
            then err no_primary_key
            else ok (record kz { primary = primary }))
          ≡ (only ns >>= λ n. ok (record kz { primary = n }))
    settle [] _ = refl
    settle (n ∷ []) (ne, _) = rw (eq_ℤ_ne n minus_one ne) refl
    settle (n ∷ m ∷ ms) _ = refl
