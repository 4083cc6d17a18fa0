-- ===== src/KeySet/Index.antt =====
-- keyczar.go, newKeysFromReader and getKeyForID: the lookup by hash.
use mathlib.Core.List.{append-nil}
use dkeyczar.Prelude.{
  ℕ, ◌≡◌, refl, sym, ap, ◌∙◌, Bytes, Bool, false, Result, ok, err, panic, ◌>>=◌, >>=-eq-ok,
  ok-injective, List, [], ◌∷◌, ◌++◌, append_assoc, ℤ, eq_ℤ, if◌then◌else◌, ◌==◌, some, lookup_key,
  set_key, lookup_key-set_key, nat_eq, int_eq, arith, Bool-cases, inl, inr, All,
}
use mathlib.Core.Path.{subst}
use dkeyczar.Crypto.{Crypto}
use dkeyczar.Json.{Json}
use dkeyczar.KeyInfo.{KeyVersion}
use dkeyczar.Util.BigEndian.{uint32}
use dkeyczar.Keys.{KeyData, key_id, key_from_json}
use dkeyczar.KeySet.{
  KeyReader, KeyCzar, Loading, no_keys, bucket, some_keys, add_version, read_version,
  new_keys_from_reader, get_key_for_id, new_key_czar,
}

module _ (c : Crypto) where
  abbrev pub hash_of : KeyData → Result ℕ
  hash_of k = uint32 (key_id c k)

  abbrev pub is_hash : ℕ → Result ℕ → Bool
  is_hash h (ok n) = n == h
  is_hash h (err e) = false
  is_hash h panic = false

  -- The keys of a list whose hash is `h`, in the order of the list.
  unfoldable pub with_hash : ℕ → List KeyData → List KeyData
  with_hash h [] = []
  with_hash h (k ∷ ks) = if is_hash h (hash_of k) then k ∷ with_hash h ks else with_hash h ks

  bucket-set_key :
      (h n : ℕ) (kl : List KeyData) (m : List (ℕ × List KeyData))
      → bucket h (set_key n kl m) ≡ (if n == h then kl else bucket h m)
  unfolding bucket
  bucket-set_key h n kl m = ground (arith, lookup_key-set_key n h kl m)

  -- Filing a key adds it at the end of its own bucket, and to no other.
  bucket-add_version :
      (v : KeyVersion) (k : KeyData) (st st' : Loading) (h : ℕ)
      → add_version c v k st ≡ ok st'
      → bucket h st'.idkeys ≡ bucket h st.idkeys ++ with_hash h (k ∷ [])
  unfolding add_version with_hash
  bucket-add_version v k st st' h e =
      let (n, hashed, filed) = >>=-eq-ok (uint32 (key_id c k)) _ e in
      ground (
        arith,
        bucket-set_key h n (bucket n st.idkeys ++ k ∷ []) st.idkeys,
        append-nil (bucket h st.idkeys),
      )

  with_hash-cons :
      (h : ℕ) (k : KeyData) (ks : List KeyData)
      → with_hash h (k ∷ ks) ≡ with_hash h (k ∷ []) ++ with_hash h ks
  unfolding with_hash
  with_hash-cons h k ks = ground arith

-- The keys of the versions in their order, or the first error: the loop without its maps.
unfoldable pub read_keys :
    KeyReader → (Bytes → Result KeyData) → List KeyVersion → Result (List KeyData)
read_keys r from_json [] = ok []
read_keys r from_json (v ∷ vs) = do
  k ← read_version r from_json v
  ks ← read_keys r from_json vs
  ok (k ∷ ks)

module _ (c : Crypto) (r : KeyReader) (from_json : Bytes → Result KeyData) where
  bucket-new_keys_from_reader :
      (vs : List KeyVersion) (st st' : Loading)
      → new_keys_from_reader c r from_json vs st ≡ ok st'
      → (ks : List KeyData) × (read_keys r from_json vs ≡ ok ks)
        × ((h : ℕ) → bucket h st'.idkeys ≡ bucket h st.idkeys ++ with_hash c h ks)
  unfolding new_keys_from_reader read_keys with_hash
  bucket-new_keys_from_reader [] st st' e =
      ([], refl, λ h. ground (arith, append-nil (bucket h st.idkeys)))
  bucket-new_keys_from_reader (v ∷ vs) st st' e =
      let (k, read, e₁) = >>=-eq-ok (read_version r from_json v) _ e in
      let (mid, added, e₂) = >>=-eq-ok (add_version c v k st) _ e₁ in
      let (ks, reads, filed) = bucket-new_keys_from_reader vs mid st' e₂ in
      (
        k ∷ ks,
        rw (read, reads) refl,
        λ h.
            filed h
            ∙ ap (λ b. b ++ with_hash c h ks) (bucket-add_version c v k st mid h added)
            ∙ append_assoc (bucket h st.idkeys) (with_hash c h (k ∷ [])) (with_hash c h ks)
            ∙ ap (◌++◌ (bucket h st.idkeys)) (sym (with_hash-cons c h k ks)),
      )

-- The key stands somewhere in the list.
abbrev pub Occurs : KeyData → List KeyData → Type 0
Occurs k l = (before : List KeyData) × (after : List KeyData) × (l ≡ before ++ k ∷ after)

pub All-Occurs :
    (P : KeyData → Type 0) (k : KeyData) (l : List KeyData) → Occurs k l → All P l → P k
All-Occurs P k l (before, after, e) all = go before (rw e at all)
  where
    go : (before : List KeyData) → All P (before ++ k ∷ after) → P k
    go [] all = all.0
    go (x ∷ before) all = go before all.1

Occurs-append : (k : KeyData) (l more : List KeyData) → Occurs k l → Occurs k (l ++ more)
Occurs-append k l more (before, after, e) = (before, after ++ more, rw (e, append_assoc) refl)

module _ (c : Crypto) where
  -- Every key that the set holds under a version number is in the bucket of its hash.
  abbrev pub IsIndexed : Loading → Type 0
  IsIndexed st =
      (n : ℤ) (k : KeyData)
      → lookup_key n st.keys ≡ some k
      → (h : ℕ) × (hash_of c k ≡ ok h) × Occurs k (bucket h st.idkeys)

  pub keys-add_version :
      (v : KeyVersion) (k : KeyData) (st st' : Loading) (n : ℤ)
      → add_version c v k st ≡ ok st'
      → lookup_key n st'.keys ≡ (if eq_ℤ v.version_number n then some k else lookup_key n st.keys)
  unfolding add_version
  keys-add_version v k st st' n e =
      let (hash, hashed, filed) = >>=-eq-ok (uint32 (key_id c k)) _ e in
      ground (arith, lookup_key-set_key v.version_number n k st.keys)

  own_bucket :
      (v : KeyVersion) (k : KeyData) (st st' : Loading)
      → add_version c v k st ≡ ok st'
      → (h : ℕ) × (hash_of c k ≡ ok h) × (bucket h st'.idkeys ≡ bucket h st.idkeys ++ k ∷ [])
  unfolding add_version
  own_bucket v k st st' e =
      let (hash, hashed, filed) = >>=-eq-ok (uint32 (key_id c k)) _ e in
      (
        hash,
        hashed,
        ground (arith, bucket-set_key c hash hash (bucket hash st.idkeys ++ k ∷ []) st.idkeys),
      )

  add_version-IsIndexed :
      (v : KeyVersion) (k : KeyData) (st st' : Loading)
      → add_version c v k st ≡ ok st'
      → IsIndexed st
      → IsIndexed st'
  add_version-IsIndexed v k st st' e old n x found = elim (Bool-cases (eq_ℤ v.version_number n)) [
    | inl same ↦
        let (h, hashed, filed) = own_bucket v k st st' e in
        let k_is_x : k ≡ x = ground (arith, keys-add_version v k st st' n e) in
        subst (λ y. (h : ℕ) × (hash_of c y ≡ ok h) × Occurs y (bucket h st'.idkeys)) k_is_x
          (h, hashed, (bucket h st.idkeys, [], filed))
    | inr other ↦
        let (h, hashed, there) = old n x (ground (arith, keys-add_version v k st st' n e)) in
        (h, hashed, rw (bucket-add_version c v k st st' h e) (Occurs-append x _ _ there))
  ]

module _ (c : Crypto) (r : KeyReader) (from_json : Bytes → Result KeyData) where
  new_keys_from_reader-IsIndexed :
      (vs : List KeyVersion) (st st' : Loading)
      → new_keys_from_reader c r from_json vs st ≡ ok st'
      → IsIndexed c st
      → IsIndexed c st'
  unfolding new_keys_from_reader
  new_keys_from_reader-IsIndexed [] st st' e old = subst (IsIndexed c) (ok-injective e) old
  new_keys_from_reader-IsIndexed (v ∷ vs) st st' e old =
      let (k, read, e₁) = >>=-eq-ok (read_version r from_json v) _ e in
      let (mid, added, e₂) = >>=-eq-ok (add_version c v k st) _ e₁ in
      new_keys_from_reader-IsIndexed vs mid st' e₂ (add_version-IsIndexed c v k st mid added old)

no_keys-IsIndexed : (c : Crypto) → IsIndexed c no_keys
unfolding lookup_key
no_keys-IsIndexed c n k found = cc

-- A loaded key set is what the loop over its versions has built.
pub new_key_czar_loaded :
    (c : Crypto) (j : Json) (r : KeyReader) (kz : KeyCzar)
    → new_key_czar c j r ≡ ok kz
    → (st : Loading) × (new_keys_from_reader c r
          (key_from_json j kz.keymeta.type)
          kz.keymeta.versions
          no_keys
        ≡ ok st)
      × (kz.keys ≡ st.keys)
      × (kz.idkeys ≡ st.idkeys)
unfolding new_key_czar
new_key_czar_loaded c j r kz e =
    let (s, got, e₁) = >>=-eq-ok r.get_metadata _ e in
    let (meta, parsed, e₂) = >>=-eq-ok (j.meta.unmarshal s) _ e₁ in
    let (st, loaded, e₃) =
      >>=-eq-ok (new_keys_from_reader c r (key_from_json j meta.type) meta.versions no_keys) _ e₂ in
    subst
      (λ (z : KeyCzar).
        (st : Loading) × (new_keys_from_reader c r (key_from_json j z.keymeta.type)
            z.keymeta.versions no_keys
          ≡ ok st)
        × (z.keys ≡ st.keys)
        × (z.idkeys ≡ st.idkeys))
      (ok-injective e₃) (st, loaded, refl, refl)

same_lookup :
    (c : Crypto) (idkeys : List (ℕ × List KeyData)) (ks : List KeyData) (m : Result ℕ)
    → ((h : ℕ) → bucket h idkeys ≡ bucket h no_keys.idkeys ++ with_hash c h ks)
    → (m >>= λ h. some_keys (bucket h idkeys)) ≡ (m >>= λ h. some_keys (with_hash c h ks))
unfolding bucket lookup_key
same_lookup c idkeys ks (ok h) filed = ap some_keys (filed h)
same_lookup c idkeys ks (err x) filed = refl
same_lookup c idkeys ks panic filed = refl

some_keys-Occurs :
    (before : List KeyData) (k : KeyData) (after : List KeyData)
    → some_keys (before ++ k ∷ after) ≡ ok (before ++ k ∷ after)
some_keys-Occurs [] k after = refl
some_keys-Occurs (x ∷ before) k after = refl

-- In a loaded key set the lookup of an identifier returns exactly the keys that were read whose
-- own identifier has the same hash, in the order of the versions, and fails if there is none.
pub get_key_for_id-new_key_czar :
    (c : Crypto) (j : Json) (r : KeyReader) (kz : KeyCzar) (id : Bytes)
    → new_key_czar c j r ≡ ok kz
    → get_key_for_id kz id ≡ (do
      ks ← read_keys r (key_from_json j kz.keymeta.type) kz.keymeta.versions
      h ← uint32 id
      some_keys (with_hash c h ks))
unfolding get_key_for_id
get_key_for_id-new_key_czar c j r kz id e =
    let (st, loaded, _, idkeys) = new_key_czar_loaded c j r kz e in
    let (ks, reads, filed) =
      bucket-new_keys_from_reader c r (key_from_json j kz.keymeta.type) kz.keymeta.versions no_keys
        st loaded in
    rw (reads, idkeys) (same_lookup c st.idkeys ks (uint32 id) filed)

-- In a loaded key set every key that is held under a version number is among the keys that the
-- lookup of its own identifier returns.
pub get_key_for_id-own :
    (c : Crypto) (j : Json) (r : KeyReader) (kz : KeyCzar) (n : ℤ) (k : KeyData)
    → new_key_czar c j r ≡ ok kz
    → lookup_key n kz.keys ≡ some k
    → (kl : List KeyData) × (get_key_for_id kz (key_id c k) ≡ ok kl) × Occurs k kl
unfolding get_key_for_id
get_key_for_id-own c j r kz n k e found =
    let (st, loaded, keys, idkeys) = new_key_czar_loaded c j r kz e in
    let (h, hashed, there) =
      new_keys_from_reader-IsIndexed c r (key_from_json j kz.keymeta.type) kz.keymeta.versions
        no_keys st loaded (no_keys-IsIndexed c) n k (rw keys at found) in
    let (before, after, split) = there in
    (
      before ++ k ∷ after,
      rw (hashed, idkeys, split) (some_keys-Occurs before k after),
      (before, after, refl),
    )
