-- ===== src/KeyManager.antt =====
-- keyman.go, the keyManager type: creating a key set, adding, promoting and demoting its versions,
-- the set of public keys, and the texts that are stored. Load is `new_key_czar` of KeySet; what it
-- leaves in the manager after an error is not modelled. The functions take and return the key set
-- that a manager points to. That PubKeys shares the slice of versions with its manager is not
-- modelled.
pub mod Managed
pub mod Promoting
pub mod Adding
pub mod Reachable
pub mod Doubled
pub mod Public
pub mod Storable
pub mod Counting
pub mod Generated
pub mod Filing
pub mod Making
pub mod Served
pub mod Stored
pub mod Kept
use dkeyczar.Prelude.{
  ℕ, zero, suc, ◌+◌, ◌%◌, ◌^◌, Bytes, Bool, true, false, Result, ok, err, panic, Error, ◌>>=◌, ◌>>◌,
  Option, none, some, List, [], ◌∷◌, ◌++◌, ℤ, pos, negsuc, minus_one, eq_ℤ, ltb_ℤ, to_int64,
  to_uint64, if◌then◌else◌, get_elem?, set, length, lookup_key, set_key, int_eq,
}
use dkeyczar.Crypto.{Crypto}
use dkeyczar.Json.{Json}
use dkeyczar.KeyInfo.{
  KeyMeta, KeyVersion, KeyType, t_aes, t_hmac_sha1, t_dsa_priv, t_dsa_pub, t_rsa_priv, t_rsa_pub,
  KeyStatus, s_primary, s_active, s_inactive, KeyPurpose, p_decrypt_and_encrypt, p_encrypt,
  p_sign_and_verify, p_verify, p_test,
}
use dkeyczar.Keys.{
  KeyData, aes, hmac, dsa_priv, dsa_pub, rsa_priv, rsa_pub, Random, generate_key, to_key_json,
}
use dkeyczar.KeySet.{KeyCzar, KeyReader, is_primary, new_key_czar}

-- The key set that a manager points to; `none` is nil.
pub record KeyManager : Type 0 where
  pub kz : Option KeyCzar

abbrev pub new_key_manager : KeyManager
new_key_manager = record { kz = none }

unfoldable pub create : Bytes → KeyPurpose → KeyType → KeyCzar
create name purpose ktype = record {
  keymeta = record {
    name = name;
    type = ktype;
    purpose = purpose;
    encrypted = false;
    versions = [];
  };
  keys = [];
  idkeys = [];
  primary = minus_one;
}

abbrev pub found {ℓ} : {A : Type ℓ} → Option A → Result A
found none = panic
found (some a) = ok a

-- Versions[version-1], which panics out of range.
unfoldable pub version_at : ℤ → List KeyVersion → Result KeyVersion
version_at (pos zero) vs = panic
version_at (pos (suc i)) vs = found (get_elem? vs i)
version_at (negsuc n) vs = panic

abbrev pub set_at : ℤ → KeyVersion → List KeyVersion → List KeyVersion
set_at (pos (suc i)) v vs = set vs i v
set_at _ v vs = vs

-- Versions[version-1].Status = status
unfoldable pub set_status : ℤ → KeyStatus → List KeyVersion → Result (List KeyVersion)
unfolding version_at
set_status version status vs = do
  v ← version_at version vs
  ok (set_at version (record v { status = status }) vs)

abbrev pub with_versions : KeyCzar → List KeyVersion → KeyCzar
with_versions kz vs = record kz { keymeta = record kz.keymeta { versions = vs } }

-- The loop for the largest version number, from the one found so far.
unfoldable pub max_version : ℤ → List KeyVersion → ℤ
max_version most [] = most
max_version most (v ∷ vs) =
    max_version (if ltb_ℤ most v.version_number then v.version_number else most) vs

-- maxVersion++ of a 64-bit int.
abbrev pub next_int : ℤ → ℤ
next_int n = to_int64 ((to_uint64 n + 1) % 2 ^ 64)

-- If the added key is primary and there is a primary key, that one becomes active.
unfoldable pub make_room : KeyStatus → KeyCzar → Result (List KeyVersion)
unfolding set_status
make_room status kz =
    if is_primary status
    then (if eq_ℤ kz.primary minus_one
        then ok kz.keymeta.versions
        else set_status kz.primary s_active kz.keymeta.versions)
    else ok kz.keymeta.versions

-- The end of AddKey: the key, if there is one, is kept under the number, else the error returned.
abbrev pub keep_key : ℤ → KeyCzar → Result KeyData → Result (KeyCzar × Option Error)
keep_key number kz (ok k) = ok (record kz { keys = set_key number k kz.keys }, none)
keep_key number kz (err e) = ok (kz, some e)
keep_key number kz panic = panic

-- The key set after AddKey and the error that it returns: the version is there even when no key
-- could be made.
unfoldable pub add_key : Random → ℕ → KeyStatus → KeyCzar → Result (KeyCzar × Option Error)
unfolding make_room max_version
add_key rand size status kz = do
  vs ← make_room status kz
  let number = next_int (max_version (pos 0) vs)
  let kv : KeyVersion = record { version_number = number; status = status; exportable = false }
  keep_key number (with_versions kz (vs ++ kv ∷ [])) (generate_key rand kz.keymeta.type size)

unfoldable pub demote_current : KeyCzar → List KeyVersion → Result (List KeyVersion)
unfolding set_status
demote_current kz vs =
    if eq_ℤ kz.primary minus_one then ok vs else set_status kz.primary s_active vs

unfoldable pub promote : ℤ → KeyCzar → Result KeyCzar
unfolding version_at set_status demote_current
promote version kz = do
  v ← version_at version kz.keymeta.versions
  elim v.status [
    | s_active ↦ do
      raised ← set_status version s_primary kz.keymeta.versions
      vs ← demote_current kz raised
      ok (record (with_versions kz vs) { primary = version })
    | s_primary ↦ ok kz
    | s_inactive ↦ do vs ← set_status version s_active kz.keymeta.versions; ok (with_versions kz vs)
  ]

unfoldable pub demote : ℤ → KeyCzar → Result KeyCzar
unfolding version_at set_status
demote version kz = do
  v ← version_at version kz.keymeta.versions
  elim v.status [
    | s_active ↦ do vs ← set_status version s_inactive kz.keymeta.versions; ok (with_versions kz vs)
    | s_primary ↦ do
      vs ← set_status version s_active kz.keymeta.versions
      ok (record (with_versions kz vs) { primary = minus_one })
    | s_inactive ↦ ok kz
  ]

-- The key type and purpose of the public half; `none` is nil.
unfoldable pub public_kind : KeyType → KeyPurpose → Option (KeyType × KeyPurpose)
public_kind t_dsa_priv p_sign_and_verify = some (t_dsa_pub, p_verify)
public_kind t_rsa_priv p_sign_and_verify = some (t_rsa_pub, p_verify)
public_kind t_rsa_priv p_decrypt_and_encrypt = some (t_rsa_pub, p_encrypt)
public_kind _ _ = none

abbrev pub public_half : KeyData → Option KeyData
public_half (dsa_priv k) = some (dsa_pub k.public_key)
public_half (rsa_priv k) = some (rsa_pub k.public_key)
public_half _ = none

abbrev pub cons_key : ℤ → Option KeyData → List (ℤ × KeyData) → List (ℤ × KeyData)
cons_key n none m = m
cons_key n (some k) m = (n, k) ∷ m

unfoldable pub public_keys : List (ℤ × KeyData) → List (ℤ × KeyData)
public_keys [] = []
public_keys ((n, k) ∷ m) = cons_key n (public_half k) (public_keys m)

unfoldable pub pub_keys : KeyCzar → Option KeyCzar
unfolding public_kind public_keys
pub_keys kz = elim (public_kind kz.keymeta.type kz.keymeta.purpose) [
  | none ↦ none
  | some kind ↦ some (record {
    keymeta = record {
      name = kz.keymeta.name;
      type = kind.0;
      purpose = kind.1;
      encrypted = false;
      versions = kz.keymeta.versions;
    };
    keys = public_keys kz.keys;
    idkeys = [];
    primary = minus_one;
  })
]

module _ (j : Json) where
  -- `ks, _ := encrypter.Encrypt(…)`: an error leaves the empty text.
  abbrev pub text_or_empty : Result Bytes → Result Bytes
  text_or_empty (ok s) = ok s
  text_or_empty (err e) = ok []
  text_or_empty panic = panic

  abbrev pub stored_text : Option (Bytes → Result Bytes) → Bytes → Result Bytes
  stored_text none s = ok s
  stored_text (some encrypt) s = text_or_empty (encrypt s)

  -- The loop over the versions 1, 2, … until one has no key; it stops before `fuel` keys, one more
  -- than the map holds.
  unfoldable pub key_texts :
      ℕ → Option (Bytes → Result Bytes) → ℕ → List (ℤ × KeyData) → Result (List Bytes)
  key_texts zero encrypter i keys = ok []
  key_texts (suc fuel) encrypter i keys = elim (lookup_key (pos i) keys) [
    | none ↦ ok []
    | some k ↦ do
      s ← to_key_json j k
      t ← stored_text encrypter s
      rest ← key_texts fuel encrypter (suc i) keys
      ok (t ∷ rest)
  ]

  -- ToJSONs, with the Encrypt method of its encrypter, if there is one.
  unfoldable pub to_jsons :
      Option (Bytes → Result Bytes) → KeyManager → Result (KeyManager × List Bytes)
  unfolding key_texts
  to_jsons encrypter m = elim (m.kz) [
    | none ↦ ok (m, [] ∷ [])
    | some kz ↦
        let marked = mark_encrypted encrypter kz in
        do
          texts ← key_texts (suc (length kz.keys)) encrypter 1 kz.keys
          ok (record { kz = some marked }, j.meta.marshal marked.keymeta ∷ texts)
  ]
    where
      mark_encrypted : Option (Bytes → Result Bytes) → KeyCzar → KeyCzar
      mark_encrypted none kz = kz
      mark_encrypted (some encrypt) kz = record kz {
        keymeta = record kz.keymeta { encrypted = true };
      }
