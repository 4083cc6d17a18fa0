-- ===== src/KeySet.antt =====
-- keyczar.go, the keyCzar type: a key set loaded from a reader, its primary key and its lookup by
-- key hash.
pub mod Primary
pub mod Index
pub mod Loaded
use dkeyczar.Prelude.{
  ℕ, ◌≡◌, refl, Bytes, Bool, true, false, Result, ok, err, panic, ◌>>=◌, ◌>>◌, guard, Option, none,
  some, List, [], ◌∷◌, ◌++◌, ℤ, minus_one, eq_ℤ, if◌then◌else◌, key_not_found, no_primary_key,
  lookup_key, set_key, nat_eq, int_eq, unacceptable_purpose,
}
use dkeyczar.Crypto.{Crypto}
use dkeyczar.Json.{Json}
use dkeyczar.KeyInfo.{
  KeyMeta, KeyVersion, KeyType, KeyStatus, s_primary, s_active, s_inactive, KeyPurpose,
  is_acceptable_purpose,
}
use dkeyczar.Util.BigEndian.{uint32}
use dkeyczar.Keys.{KeyData, key_id, key_from_json}

-- The KeyReader interface.
pub record KeyReader : Type 0 where
  pub get_metadata : Result Bytes
  pub get_key : ℤ → Result Bytes

pub record KeyCzar : Type 0 where
  pub keymeta : KeyMeta
  pub keys : List (ℤ × KeyData)
  pub idkeys : List (ℕ × List KeyData)
  pub primary : ℤ

abbrev pub is_primary : KeyStatus → Bool
is_primary s_primary = true
is_primary s_active = false
is_primary s_inactive = false

-- The loop of loadPrimaryKey over the versions, from the primary version found so far.
unfoldable pub find_primary : ℤ → List KeyVersion → Result ℤ
find_primary primary [] = ok primary
find_primary primary (v ∷ vs) = elim (is_primary v.status) [
  | false ↦ find_primary primary vs
  | true ↦ elim (eq_ℤ primary minus_one) [
    | true ↦ find_primary v.version_number vs
    | false ↦ err no_primary_key
  ]
]

-- On an error the code has also set `primary`; every caller then drops the key set.
unfoldable pub load_primary_key : KeyCzar → Result KeyCzar
unfolding find_primary
load_primary_key kz = do
  primary ← find_primary minus_one kz.keymeta.versions
  if eq_ℤ primary minus_one then err no_primary_key else ok (record kz { primary = primary })

-- `none` is a nil keydata.
unfoldable pub get_primary_key : KeyCzar → Option KeyData
get_primary_key kz = if eq_ℤ kz.primary minus_one then none else lookup_key kz.primary kz.keys

-- The slice under a hash, which is nil where the map has none.
abbrev pub or_empty : Option (List KeyData) → List KeyData
or_empty none = []
or_empty (some kl) = kl

unfoldable pub bucket : ℕ → List (ℕ × List KeyData) → List KeyData
bucket hash idkeys = or_empty (lookup_key hash idkeys)

abbrev pub some_keys : List KeyData → Result (List KeyData)
some_keys [] = err key_not_found
some_keys (k ∷ ks) = ok (k ∷ ks)

unfoldable pub get_key_for_id : KeyCzar → Bytes → Result (List KeyData)
unfolding bucket
get_key_for_id kz id = do hash ← uint32 id; some_keys (bucket hash kz.idkeys)

-- What newKeysFromReader builds, with the `primary` that it sets on the way.
pub record Loading : Type 0 where
  pub keys : List (ℤ × KeyData)
  pub idkeys : List (ℕ × List KeyData)
  pub primary : ℤ

abbrev pub no_keys : Loading
no_keys = record { keys = []; idkeys = []; primary = minus_one }

-- A round of the loop: read a version, file it under its number and under its hash.
unfoldable pub add_version : Crypto → KeyVersion → KeyData → Loading → Result Loading
unfolding bucket
add_version c v k st = do
  hash ← uint32 (key_id c k)
  ok (record {
    keys = set_key v.version_number k st.keys;
    idkeys = set_key hash (bucket hash st.idkeys ++ k ∷ []) st.idkeys;
    primary = if is_primary v.status then v.version_number else st.primary;
  })

unfoldable pub read_version : KeyReader → (Bytes → Result KeyData) → KeyVersion → Result KeyData
read_version r from_json v = do s ← r.get_key v.version_number; from_json s

unfoldable pub new_keys_from_reader :
    Crypto → KeyReader → (Bytes → Result KeyData) → List KeyVersion → Loading → Result Loading
unfolding add_version read_version
new_keys_from_reader c r from_json [] st = ok st
new_keys_from_reader c r from_json (v ∷ vs) st = do
  k ← read_version r from_json v
  st' ← add_version c v k st
  new_keys_from_reader c r from_json vs st'

-- The type switch has a case for every key type, so its default is never taken.
unfoldable pub new_key_czar : Crypto → Json → KeyReader → Result KeyCzar
unfolding new_keys_from_reader
new_key_czar c j r = do
  s ← r.get_metadata
  meta ← j.meta.unmarshal s
  st ← new_keys_from_reader c r (key_from_json j meta.type) meta.versions no_keys
  ok (record { keymeta = meta; keys = st.keys; idkeys = st.idkeys; primary = st.primary })

-- The steps that the constructors share: the key set of a reader, if its purpose is acceptable.
unfoldable pub load_for : Crypto → Json → KeyPurpose → KeyReader → Result KeyCzar
unfolding new_key_czar
load_for c j purpose r = do
  kz ← new_key_czar c j r
  acceptable ← is_acceptable_purpose kz.keymeta.purpose purpose
  guard acceptable unacceptable_purpose
  ok kz

-- … and if it has one primary key.
unfoldable pub load_with_primary : Crypto → Json → KeyPurpose → KeyReader → Result KeyCzar
unfolding load_for load_primary_key
load_with_primary c j purpose r = do kz ← load_for c j purpose r; load_primary_key kz
