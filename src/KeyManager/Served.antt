-- ===== src/KeyManager/Served.antt =====
-- keyman.go, ToJSONs and Load: a reader that serves the texts of a key set is loaded as that set.
use dkeyczar.Prelude.{
  ◌≤◌, minus_one, ℕ, zero, suc, ◌+◌, ◌<◌, ◌≡◌, refl, ap, ◌∙◌, Bytes, false, Result, ok, ◌>>=◌,
  >>=-eq-ok, some, none, List, [], ◌∷◌, ◌++◌, nat_eq, map, length, All, IsAscii, ℤ, pos,
  if◌then◌else◌, lookup_key, set_key, lookup_key-set_key, int_eq, arith, ◌==◌, ==_refl,
}
use mathlib.Core.Path.{subst}
use dkeyczar.Crypto.{Crypto, CryptoLaws}
use dkeyczar.Json.{Json, JsonLaws}
use dkeyczar.KeyInfo.{KeyVersion, KeyType, KeyMeta}
use dkeyczar.Util.BigEndian.{uint32}
use dkeyczar.Keys.{
  KeyData, aes, hmac, dsa_priv, dsa_pub, rsa_priv, rsa_pub, to_key_json, key_from_json, key_id,
}
use dkeyczar.Keys.Kinds.{type_of, id_of, key_id-IsId}
use dkeyczar.KeySet.{
  KeyReader, KeyCzar, Loading, no_keys, add_version, read_version, new_keys_from_reader,
  new_key_czar, bucket, is_primary,
}
use dkeyczar.Readers.Single.{uint32-total}
use dkeyczar.KeyManager.{key_texts}
use dkeyczar.KeyManager.Storable.{IsStorable, forgetting, key_from_json-to_key_json}
use dkeyczar.KeyManager.Counting.{Holds}

forgetting-fresh : (k : KeyData) → id_of (forgetting k) ≡ []
unfolding id_of
forgetting-fresh (aes k) = refl
forgetting-fresh (hmac k) = refl
forgetting-fresh (dsa_priv k) = refl
forgetting-fresh (dsa_pub k) = refl
forgetting-fresh (rsa_priv k) = refl
forgetting-fresh (rsa_pub k) = refl

abbrev pub IsNumbered : ℕ → List KeyVersion → Type 0
IsNumbered i [] = Unit
IsNumbered i (v ∷ vs) = (v.version_number ≡ pos i) × IsNumbered (suc i) vs

-- The reader gives these texts under the numbers from `i` on.
abbrev pub Serves : KeyReader → ℕ → List Bytes → Type 0
Serves r i [] = Unit
Serves r i (s ∷ more) = (r.get_key (pos i) ≡ ok s) × Serves r (suc i) more

module _ (j : Json) (t : KeyType) where
  -- The texts are those of the keys.
  abbrev pub Texts : List KeyData → List Bytes → Type 0
  Texts [] [] = Unit
  Texts (k ∷ ks) (s ∷ more) = (key_from_json j t s ≡ ok (forgetting k)) × Texts ks more
  Texts _ _ = ⊥

  -- With more fuel than keys, every key from `i` on is written.
  pub key_texts-Texts :
      JsonLaws j
      → (fuel i : ℕ) (ks : List KeyData) (m : List (ℤ × KeyData)) → Holds i ks m
      → All (λ k. (type_of k ≡ t) × IsStorable k) ks
      → length ks < fuel
      → (texts : List Bytes) × (key_texts j fuel none i m ≡ ok texts) × Texts ks texts
  unfolding key_texts
  key_texts-Texts laws zero i ks m held all h = absurd (omega arith)
  key_texts-Texts laws (suc fuel) i [] m held all h = ([], rw (key_texts, held) refl, tt)
  key_texts-Texts laws (suc fuel) i (k ∷ ks) m (here, held) ((kind, v), all) h =
      let (s, stored, read) =
        >>=-eq-ok (to_key_json j k) (key_from_json j (type_of k))
          (key_from_json-to_key_json j k laws v) in
      let (texts, written, are) = key_texts-Texts laws fuel (suc i) ks m held all (omega arith) in
      (
        s ∷ texts,
        rw (key_texts, here, stored, written) refl,
        (subst (λ t. key_from_json j t s ≡ ok (forgetting k)) kind read, are),
      )

>>=-ok-ok :
    {A B : Type 0} (call : Result A) (next : A → Result B) {x : A} {y : B}
    → call ≡ ok x
    → next x ≡ ok y
    → (call >>= next) ≡ ok y
>>=-ok-ok call next e e' = rw e e'

read_version-ok :
    (r : KeyReader) (from_json : Bytes → Result KeyData) (v : KeyVersion) (i : ℕ) (s : Bytes)
    (k : KeyData)
    → v.version_number ≡ pos i
    → r.get_key (pos i) ≡ ok s
    → from_json s ≡ ok k
    → read_version r from_json v ≡ ok k
unfolding read_version
read_version-ok r from_json v i s k number gives read = rw (number, gives) read

-- The `primary` that the loop leaves: the last version with status PRIMARY.
unfoldable pub latest : ℤ → List KeyVersion → ℤ
latest primary [] = primary
latest primary (v ∷ vs) = latest (if is_primary v.status then v.version_number else primary) vs

module _ (c : Crypto) where
  -- A round of loading files the key under the number of its version.
  filed :
      (v : KeyVersion) (k : KeyData) (i h : ℕ) (st : Loading)
      → v.version_number ≡ pos i
      → uint32 (key_id c k) ≡ ok h
      → (st' : Loading) × (add_version c v k st ≡ ok st')
        × (lookup_key (pos i) st'.keys ≡ some k)
        × ((x : ℕ) → (i == x) ≡ false → lookup_key (pos x) st'.keys ≡ lookup_key (pos x) st.keys)
        × (st'.primary ≡ (if is_primary v.status then v.version_number else st.primary))
  unfolding add_version
  filed v k i h st number hashed = (
    record {
      keys = set_key v.version_number k st.keys;
      idkeys = set_key h (bucket h st.idkeys ++ k ∷ []) st.idkeys;
      primary = if is_primary v.status then v.version_number else st.primary;
    },
    rw hashed refl,
    rw (lookup_key-set_key, number) (rw (==_refl i) refl),
    (λ x other. rw (lookup_key-set_key, number) (rw other refl)),
    refl,
  )

  -- Reading the texts files every key under its number and none behind, and leaves the numbers below
  -- alone.
  pub new_keys_from_reader-Holds :
      (j : Json) (t : KeyType) (r : KeyReader) (i : ℕ) (vs : List KeyVersion) (ks : List KeyData)
      (texts : List Bytes) (st : Loading)
      → CryptoLaws c
      → IsNumbered i vs
      → length vs ≡ length ks
      → Texts j t ks texts
      → Serves r i texts
      → ((x : ℕ) → i ≤ x → lookup_key (pos x) st.keys ≡ none)
      → (st' : Loading) × (new_keys_from_reader c r (key_from_json j t) vs st ≡ ok st')
        × ((x : ℕ) → x < i → lookup_key (pos x) st'.keys ≡ lookup_key (pos x) st.keys)
        × (st'.primary ≡ latest st.primary vs)
        × ((x : ℕ) → i + length ks ≤ x → lookup_key (pos x) st'.keys ≡ none)
        × Holds i (map forgetting ks) st'.keys
  unfolding new_keys_from_reader read_version latest
  new_keys_from_reader-Holds j t r i [] [] texts st laws numbered same are served free =
      (st, refl, (λ x h. refl), refl, (λ x h. free x (omega arith)), free i (omega arith))
  new_keys_from_reader-Holds j t r i [] (k ∷ ks) texts st laws numbered same are served free =
      absurd (omega arith)
  new_keys_from_reader-Holds j t r i (v ∷ vs) [] texts st laws numbered same are served free =
      absurd (omega arith)
  new_keys_from_reader-Holds j t r i (v ∷ vs) (k ∷ ks) [] st laws numbered same are served free =
      absurd are
  new_keys_from_reader-Holds j t r i (v ∷ vs) (k ∷ ks) (s ∷ texts) st laws (number, numbered) same
        (is_k, are) (gives, served) free =
      let (h, hashed) =
        uint32-total (key_id c (forgetting k))
          (key_id-IsId c laws (forgetting k) (forgetting-fresh k)).0 in
      let read = read_version-ok r (key_from_json j t) v i s (forgetting k) number gives is_k in
      let (mid, added, held, kept, primary) = filed v (forgetting k) i h st number hashed in
      let (st', ran, below, last, beyond, holds) =
        new_keys_from_reader-Holds j t r (suc i) vs ks texts mid laws numbered (omega arith) are
          served (λ x le. kept x (ground arith) ∙ free x (omega arith)) in
      (
        st',
        >>=-ok-ok (read_version r (key_from_json j t) v) _ read
            (>>=-ok-ok (add_version c v (forgetting k) st) _ added ran),
        (λ x h. below x (omega arith) ∙ kept x (ground arith)),
        last ∙ ap (λ p. latest p vs) primary,
        (λ x h. beyond x (omega arith)),
        (below i (omega arith) ∙ held, holds),
      )

-- The map holds no key under the numbers from `n` on.
abbrev pub IsFree : ℕ → List (ℤ × KeyData) → Type 0
IsFree n m = (x : ℕ) → n ≤ x → lookup_key (pos x) m ≡ none

-- A key set whose versions are numbered from 1, which holds a key of its type for each of them and
-- none behind them, whose keys are of sizes and with numbers that their JSON can hold, and whose
-- name is ASCII.
pub record IsStorableSet (kz : KeyCzar) (ks : List KeyData) : Type 0 where
  pub numbered : IsNumbered 1 kz.keymeta.versions
  pub complete : length kz.keymeta.versions ≡ length ks
  pub holds : Holds 1 ks kz.keys
  pub storable : All (λ k. (type_of k ≡ kz.keymeta.type) × IsStorable k) ks
  pub ascii : All IsAscii kz.keymeta.name

assembled :
    (c : Crypto) (j : Json) (r : KeyReader) (s : Bytes) (meta : KeyMeta) (st : Loading)
    → r.get_metadata ≡ ok s
    → j.meta.unmarshal s ≡ ok meta
    → new_keys_from_reader c r (key_from_json j meta.type) meta.versions no_keys ≡ ok st
    → new_key_czar c j r
      ≡ ok (record { keymeta = meta; keys = st.keys; idkeys = st.idkeys; primary = st.primary })
unfolding new_key_czar
assembled c j r s meta st gives reads ran =
    >>=-ok-ok (r.get_metadata) _ gives (>>=-ok-ok (j.meta.unmarshal s) _ reads (rw ran refl))

-- A reader that gives these metadata and the texts of these keys is loaded.
pub new_key_czar-Serves :
    (c : Crypto) (j : Json) (r : KeyReader) (meta : KeyMeta) (ks : List KeyData)
    (texts : List Bytes)
    → CryptoLaws c
    → JsonLaws j
    → All IsAscii meta.name
    → IsNumbered 1 meta.versions
    → length meta.versions ≡ length ks
    → Texts j meta.type ks texts
    → r.get_metadata ≡ ok (j.meta.marshal meta)
    → Serves r 1 texts
    → (loaded : KeyCzar) × (new_key_czar c j r ≡ ok loaded)
      × (loaded.keymeta ≡ meta)
      × (loaded.primary ≡ latest minus_one meta.versions)
      × IsFree (suc (length ks)) loaded.keys
      × Holds 1 (map forgetting ks) loaded.keys
unfolding lookup_key
new_key_czar-Serves c j r meta ks texts laws jlaws ascii numbered same are gives served =
    let (st, ran, _, last, beyond, holds) =
      new_keys_from_reader-Holds c j meta.type r 1 meta.versions ks texts no_keys laws numbered same
        are served (λ x h. refl) in
    (
      record { keymeta = meta; keys = st.keys; idkeys = st.idkeys; primary = st.primary },
      assembled c j r (j.meta.marshal meta) meta st gives (jlaws.meta_lem meta ascii) ran,
      refl,
      last,
      (λ x h. beyond x (omega arith)),
      holds,
    )
