-- ===== src/KeyManager/Kept.antt =====
-- keyman.go: a key set that was loaded, changed by a method of the manager, and can be
-- stored again.
use dkeyczar.Prelude.{
  ℕ, suc, ◌+◌, ◌<◌, ◌^◌, ◌≡◌, refl, sym, ap, ◌∙◌, ok, none, List, [], ◌∷◌, ◌++◌, map, length,
  length-append, All, All-append, IsAscii, ℤ, pos, minus_one, eq_ℤ, eq_ℤ→eq, if◌then◌else◌, arith,
  inl, inr, Bool-cases, int_eq,
}
use dkeyczar.KeyInfo.{KeyMeta, KeyVersion, KeyType, KeyStatus}
use dkeyczar.Keys.{KeyData, Random, aes, hmac, dsa_priv, dsa_pub, rsa_priv, rsa_pub}
use dkeyczar.Keys.Kinds.{type_of}
use dkeyczar.KeySet.{KeyCzar, is_primary}
use dkeyczar.KeySet.Primary.{primaries}
use dkeyczar.KeyManager.Storable.{forgetting, IsStorable}
use dkeyczar.KeyManager.Counting.{Holds}
use dkeyczar.KeyManager.Served.{IsNumbered, IsStorableSet, IsFree, latest}
use dkeyczar.KeyManager.{next_int, max_version, add_key}
use dkeyczar.KeyManager.Generated.{SuppliesKeys, generate_key-IsStorable}
use dkeyczar.KeyManager.Filing.{HasSameKeys, Holds-append}
use dkeyczar.KeyManager.Making.{add_key-HasNewKey, make_room-Agrees, add_key-Agrees}
use dkeyczar.KeyManager.Managed.{Agrees, IsManaged}
use dkeyczar.KeyManager.Adding.{NumberedFrom, Agrees-NumberedFrom, new_version, next_number}
use dkeyczar.KeyManager.Reachable.{primaries-Agrees}

-- The last of the numbers, or the number before them.
abbrev last_of : ℤ → List ℤ → ℤ
last_of primary [] = primary
last_of primary (n ∷ ns) = last_of n ns

latest-primaries :
    (primary : ℤ) (vs : List KeyVersion) → latest primary vs ≡ last_of primary (primaries vs)
unfolding latest primaries
latest-primaries primary [] = refl
latest-primaries primary (v ∷ vs) = elim (Bool-cases (is_primary v.status)) [
  | inl e ↦ rw e (latest-primaries v.version_number vs)
  | inr e ↦ rw e (latest-primaries primary vs)
]

-- Loading finds the primary version that the versions agree with.
pub latest-Agrees :
    (vs : List KeyVersion) (primary : ℤ) → Agrees vs primary → latest minus_one vs ≡ primary
latest-Agrees vs primary a =
    rw (latest-primaries minus_one vs, primaries-Agrees vs primary a)
      (elim (Bool-cases (eq_ℤ primary minus_one)) [
        | inl e ↦ rw e (sym (eq_ℤ→eq primary minus_one e))
        | inr e ↦ rw e refl
      ])

pub NumberedFrom-IsNumbered :
    (n : ℕ) (vs : List KeyVersion) → NumberedFrom n vs → IsNumbered (suc n) vs
NumberedFrom-IsNumbered n [] h = tt
NumberedFrom-IsNumbered n (v ∷ vs) (e, h) = (e, NumberedFrom-IsNumbered (suc n) vs h)

-- What is loaded can be stored again.
forgetting-IsStorable :
    (k : KeyData) → IsStorable k → (type_of (forgetting k) ≡ type_of k) × IsStorable (forgetting k)
unfolding type_of
forgetting-IsStorable (aes k) v = (
  refl,
  record {
    cipher = v.cipher;
    hmac_length = v.hmac_length;
    key_bytes = v.key_bytes;
    hmac_bytes = v.hmac_bytes;
  },
)
forgetting-IsStorable (hmac k) v = (refl, v)
forgetting-IsStorable (dsa_priv k) v = (refl, v)
forgetting-IsStorable (dsa_pub k) v = (refl, v)
forgetting-IsStorable (rsa_priv k) v = (refl, v)
forgetting-IsStorable (rsa_pub k) v = (refl, v)

pub All-forgetting :
    (t : KeyType) (ks : List KeyData)
    → All (λ k. (type_of k ≡ t) × IsStorable k) ks
    → All (λ k. (type_of k ≡ t) × IsStorable k) (map forgetting ks)
All-forgetting t [] h = tt
All-forgetting t (k ∷ ks) ((kind, v), h) =
    let (same, v') = forgetting-IsStorable k v in ((same ∙ kind, v'), All-forgetting t ks h)

length-forgetting : (ks : List KeyData) → length (map forgetting ks) ≡ length ks
length-forgetting [] = refl
length-forgetting (k ∷ ks) = ap suc (length-forgetting ks)

-- A key set in the hands of a manager: its versions and `primary` agree, there is a key for each of
-- them and none behind, and all can be stored.
pub record IsKept (kz : KeyCzar) (ks : List KeyData) : Type 0 where
  pub managed : IsManaged kz
  pub storable : IsStorableSet kz ks
  pub free : IsFree (suc (length ks)) kz.keys

-- What loading gives is such a key set, for the keys as they are read.
pub loaded-IsKept :
    (kz : KeyCzar) (meta : KeyMeta) (ks : List KeyData) (primary : ℤ)
    → Agrees meta.versions primary
    → length meta.versions ≡ length ks
    → All (λ k. (type_of k ≡ meta.type) × IsStorable k) ks
    → All IsAscii meta.name
    → kz.keymeta ≡ meta
    → kz.primary ≡ latest minus_one meta.versions
    → IsFree (suc (length ks)) kz.keys
    → Holds 1 (map forgetting ks) kz.keys
    → IsKept kz (map forgetting ks)
loaded-IsKept kz meta ks primary agrees complete storable ascii same is_latest free holds = record {
  managed = rw (same, is_latest ∙ latest-Agrees meta.versions primary agrees) agrees;
  storable = record {
    numbered = rw same (
        NumberedFrom-IsNumbered 0 meta.versions (Agrees-NumberedFrom meta.versions primary agrees));
    complete = rw (same, length-forgetting ks) complete;
    holds = holds;
    storable = rw same (All-forgetting meta.type ks storable);
    ascii = rw same ascii;
  };
  free = rw (length-forgetting ks) free;
}

-- Promote and Demote keep it so.
pub changed-IsStorableSet :
    (kz kz' : KeyCzar) (ks : List KeyData)
    → IsKept kz ks
    → HasSameKeys kz kz'
    → IsManaged kz'
    → IsStorableSet kz' ks
changed-IsStorableSet kz kz' ks kept same managed = record {
  numbered =
      NumberedFrom-IsNumbered 0 kz'.keymeta.versions
        (Agrees-NumberedFrom kz'.keymeta.versions kz'.primary managed);
  complete = same.size ∙ kept.storable.complete;
  holds = rw (same.keys) kept.storable.holds;
  storable = rw (same.type) kept.storable.storable;
  ascii = rw (same.name) kept.storable.ascii;
}

-- AddKey does, with one key more.
pub added-IsStorableSet :
    (rand : Random) (size : ℕ) (status : KeyStatus) (kz kz' : KeyCzar) (ks : List KeyData)
    → SuppliesKeys rand
    → IsKept kz ks
    → suc (length kz.keymeta.versions) < 2 ^ 63
    → add_key rand size status kz ≡ ok (kz', none)
    → (k : KeyData) × IsStorableSet kz' (ks ++ k ∷ [])
      × Agrees kz'.keymeta.versions
          (if is_primary status then pos (suc (length kz.keymeta.versions)) else kz.primary)
added-IsStorableSet rand size status kz kz' ks supplies kept small e =
    let (vs, room, grown, new) = add_key-HasNewKey rand size status kz kz' e in
    let agrees = add_key-Agrees status kz vs kept.managed small room in
    let (before, same_size) = make_room-Agrees status kz vs kept.managed room in
    let number : next_int (max_version (pos 0) vs) ≡ pos (1 + length ks) =
      next_number vs (Agrees-NumberedFrom vs _ before) (omega (arith, same_size))
      ∙ ap pos (omega (arith, same_size, kept.storable.complete)) in
    (
      new.key,
      record {
        numbered = rw grown (
            NumberedFrom-IsNumbered 0 (vs ++ new_version status vs ∷ [])
              (Agrees-NumberedFrom (vs ++ new_version status vs ∷ []) _ agrees));
        complete =
            rw (grown, length-append, length-append)
              (omega (arith, same_size, kept.storable.complete));
        holds =
            rw (new.keys, number)
              (Holds-append 1 ks new.key kz.keys kept.storable.holds
                (kept.free (suc (1 + length ks)) (omega arith)));
        storable = rw (new.type) (
            All-append _ ks (new.key ∷ []) kept.storable.storable (
              generate_key-IsStorable rand kz.keymeta.type size new.key supplies new.generated,
              tt,
            ));
        ascii = rw (new.name) kept.storable.ascii;
      },
      rw grown agrees,
    )
