-- ===== src/KeySet/Loaded.antt =====
-- keyczar.go: what holds of the keys of a loaded key set.
use mathlib.Core.Path.{subst}
use dkeyczar.Prelude.{
  ℕ, ◌≡◌, sym, ◌∙◌, Bytes, true, false, Result, ok, >>=-eq-ok, ok-injective, List, [], ◌∷◌, ℤ,
  minus_one, eq_ℤ, eq_ℤ-refl, ◌⊎◌, some, lookup_key, int_eq, nat_eq, arith, Bool-cases, inl, inr,
  All,
}
use dkeyczar.Crypto.{Crypto}
use dkeyczar.Json.{Json}
use dkeyczar.KeyInfo.{KeyVersion, KeyPurpose, is_acceptable_purpose}
use dkeyczar.Util.BigEndian.{uint32}
use dkeyczar.Keys.{KeyData, key_id, key_from_json}
use dkeyczar.Keys.Kinds.{IsFresh, key_from_json-IsFresh}
use dkeyczar.KeySet.{
  KeyReader, KeyCzar, find_primary, load_primary_key, get_primary_key, get_key_for_id, some_keys,
  read_version, new_key_czar, Loading, no_keys, add_version, new_keys_from_reader, load_for,
  load_with_primary,
}
use dkeyczar.KeySet.Index.{
  with_hash, keys-add_version, new_key_czar_loaded, is_hash, read_keys, Occurs,
  get_key_for_id-new_key_czar, get_key_for_id-own,
}

module _ (P : KeyData → Type 0) where
  with_hash-All : (c : Crypto) (h : ℕ) (ks : List KeyData) → All P ks → All P (with_hash c h ks)
  unfolding with_hash
  with_hash-All c h [] all = tt
  with_hash-All c h (k ∷ ks) (here, all) = elim (Bool-cases (is_hash c h (uint32 (key_id c k)))) [
    | inl e ↦ rw e (here, with_hash-All c h ks all)
    | inr e ↦ rw e (with_hash-All c h ks all)
  ]

  some_keys-All : (ks kl : List KeyData) → some_keys ks ≡ ok kl → All P ks → All P kl
  some_keys-All [] kl e all = cc
  some_keys-All (k ∷ ks) kl e all = subst (All P) (ok-injective e) all

module _ (j : Json) (r : KeyReader) where
  read_keys-IsFresh :
      (t : _) (vs : List KeyVersion) (ks : List KeyData)
      → read_keys r (key_from_json j t) vs ≡ ok ks
      → All (IsFresh t) ks
  unfolding read_keys read_version
  read_keys-IsFresh t [] ks e = subst (All (IsFresh t)) (ok-injective e) tt
  read_keys-IsFresh t (v ∷ vs) ks e =
      let (k, read, e₁) = >>=-eq-ok (read_version r (key_from_json j t) v) _ e in
      let (rest, reads, e₂) = >>=-eq-ok (read_keys r (key_from_json j t) vs) _ e₁ in
      let (s, got, parsed) = >>=-eq-ok (r.get_key v.version_number) _ read in
      subst (All (IsFresh t)) (ok-injective e₂)
        (rw parsed at (key_from_json-IsFresh j t s), read_keys-IsFresh t vs rest reads)

-- Every key that a loaded key set finds for an identifier is of the type of the key set.
pub get_key_for_id-IsFresh :
    (c : Crypto) (j : Json) (r : KeyReader) (kz : KeyCzar) (id : Bytes) (kl : List KeyData)
    → new_key_czar c j r ≡ ok kz
    → get_key_for_id kz id ≡ ok kl
    → All (IsFresh kz.keymeta.type) kl
get_key_for_id-IsFresh c j r kz id kl loaded found =
    let t = kz.keymeta.type in
    let (ks, reads, e₁) =
      >>=-eq-ok (read_keys r (key_from_json j t) kz.keymeta.versions) _
        (sym (get_key_for_id-new_key_czar c j r kz id loaded) ∙ found) in
    let (h, hashed, e₂) = >>=-eq-ok (uint32 id) _ e₁ in
    some_keys-All (IsFresh t) (with_hash c h ks) kl e₂
      (with_hash-All (IsFresh t) c h ks (read_keys-IsFresh j r t kz.keymeta.versions ks reads))

-- A version of the list bears the number.
abbrev Numbers : ℤ → List KeyVersion → Type 0
Numbers n [] = ⊥
Numbers n (v ∷ vs) = (v.version_number ≡ n) ⊎ Numbers n vs

find_primary-Numbers :
    (primary n : ℤ) (vs : List KeyVersion)
    → find_primary primary vs ≡ ok n
    → (n ≡ primary) ⊎ Numbers n vs
unfolding find_primary
find_primary-Numbers primary n [] e = inl (sym (ok-injective e))
find_primary-Numbers primary n (v ∷ vs) e =
    ground (arith, find_primary-Numbers primary n vs, find_primary-Numbers v.version_number n vs)

module _ (c : Crypto) (r : KeyReader) (from_json : Bytes → Result KeyData) where
  abbrev Holds : ℤ → Loading → Type 0
  Holds n st = (k : KeyData) × (lookup_key n st.keys ≡ some k)

  add_version-Holds :
      (v : KeyVersion) (k : KeyData) (st st' : Loading) (n : ℤ)
      → add_version c v k st ≡ ok st'
      → (v.version_number ≡ n) ⊎ Holds n st
      → Holds n st'
  add_version-Holds v k st st' n e (inl same) =
      (k, ground (arith, keys-add_version c v k st st' n e, eq_ℤ-refl n))
  add_version-Holds v k st st' n e (inr (x, there)) = elim (Bool-cases (eq_ℤ v.version_number n)) [
    | inl hit ↦ (k, ground (arith, keys-add_version c v k st st' n e))
    | inr miss ↦ (x, ground (arith, keys-add_version c v k st st' n e))
  ]

  -- Every version that was read, and every number held before, has a key.
  new_keys_from_reader-Holds :
      (vs : List KeyVersion) (st st' : Loading) (n : ℤ)
      → new_keys_from_reader c r from_json vs st ≡ ok st'
      → Numbers n vs ⊎ Holds n st
      → Holds n st'
  unfolding new_keys_from_reader
  new_keys_from_reader-Holds [] st st' n e (inl h) = absurd h
  new_keys_from_reader-Holds [] st st' n e (inr h) = subst (Holds n) (ok-injective e) h
  new_keys_from_reader-Holds (v ∷ vs) st st' n e h =
      let (k, read, e₁) = >>=-eq-ok (read_version r from_json v) _ e in
      let (mid, added, e₂) = >>=-eq-ok (add_version c v k st) _ e₁ in
      new_keys_from_reader-Holds vs mid st' n e₂ (elim h [
        | inl (inl same) ↦ inr (add_version-Holds v k st mid n added (inl same))
        | inl (inr later) ↦ inl later
        | inr held ↦ inr (add_version-Holds v k st mid n added (inr held))
      ])

-- What a key set with a primary key offers to a signer or a crypter: the primary key, the keys
-- that the lookup of its identifier returns, the primary key among them, all of one type.
pub record HasPrimary (c : Crypto) (kz : KeyCzar) : Type 0 where
  pub key : KeyData
  pub kl : List KeyData
  pub is_key : get_primary_key kz ≡ some key
  pub found : get_key_for_id kz (key_id c key) ≡ ok kl
  pub occurs : Occurs key kl
  pub kinds : All (IsFresh kz.keymeta.type) kl

-- The two steps of loading with a primary key.
load_with_primary_steps :
    (c : Crypto) (j : Json) (p : KeyPurpose) (r : KeyReader) (kz : KeyCzar)
    → load_with_primary c j p r ≡ ok kz
    → (whole : KeyCzar) × (n : ℤ) × (new_key_czar c j r ≡ ok whole)
      × (is_acceptable_purpose whole.keymeta.purpose p ≡ ok true)
      × (find_primary minus_one whole.keymeta.versions ≡ ok n)
      × (eq_ℤ n minus_one ≡ false)
      × (record whole { primary = n } ≡ kz)
unfolding load_with_primary load_for load_primary_key
load_with_primary_steps c j p r kz e =
    let (whole, loaded_for, e₁) = >>=-eq-ok (load_for c j p r) _ e in
    let (same, loaded, e₂) = >>=-eq-ok (new_key_czar c j r) _ loaded_for in
    let (yes', acceptable, e₃) = >>=-eq-ok (is_acceptable_purpose same.keymeta.purpose p) _ e₂ in
    let (n, primary, e₄) = >>=-eq-ok (find_primary minus_one whole.keymeta.versions) _ e₁ in
    let is_same : same ≡ whole = ground arith in
    (
      whole,
      n,
      rw (← is_same) loaded,
      rw (← is_same) (ground arith),
      primary,
      ground arith,
      ground arith,
    )

-- The number that the search returns, other than -1, has a key in the loaded set.
primary_held :
    (c : Crypto) (j : Json) (r : KeyReader) (whole : KeyCzar) (n : ℤ)
    → new_key_czar c j r ≡ ok whole
    → find_primary minus_one whole.keymeta.versions ≡ ok n
    → eq_ℤ n minus_one ≡ false
    → (k : KeyData) × (lookup_key n whole.keys ≡ some k)
primary_held c j r whole n loaded primary ne =
    let (st, built, keys, _) = new_key_czar_loaded c j r whole loaded in
    let from_json = key_from_json j whole.keymeta.type in
    let (k, held) =
      new_keys_from_reader-Holds c r from_json whole.keymeta.versions no_keys st n built
        (inl (numbered (find_primary-Numbers minus_one n whole.keymeta.versions primary))) in
    (k, rw keys held)
  where
    numbered : (n ≡ minus_one) ⊎ Numbers n whole.keymeta.versions → Numbers n whole.keymeta.versions
    numbered (inl e) = cc (rw e at ne)
    numbered (inr h) = h

-- Whenever a key set is loaded for a purpose that needs a primary key, it has one: the primary key
-- is not nil, it was read with the type of the key set, and the lookup of its own identifier
-- returns it among keys of that type.
pub load_with_primary-HasPrimary :
    (c : Crypto) (j : Json) (p : KeyPurpose) (r : KeyReader) (kz : KeyCzar)
    → load_with_primary c j p r ≡ ok kz
    → HasPrimary c kz
unfolding get_primary_key get_key_for_id
load_with_primary-HasPrimary c j p r kz e =
    let (whole, n, loaded, _, primary, ne, is_kz) = load_with_primary_steps c j p r kz e in
    let (k, held) = primary_held c j r whole n loaded primary ne in
    let (kl, found, occurs) = get_key_for_id-own c j r whole n k loaded held in
    subst (HasPrimary c) is_kz (record {
      key = k;
      kl = kl;
      is_key = rw ne held;
      found = found;
      occurs = occurs;
      kinds = get_key_for_id-IsFresh c j r whole (key_id c k) kl loaded found;
    })
