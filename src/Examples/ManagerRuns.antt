-- ===== src/Examples/ManagerRuns.antt =====
-- The theorems about key managers, applied to concrete key sets.
use dkeyczar.Prelude.{
  All, arith, some, lookup_key, ◌≡◌, refl, false, [], ◌∷◌, ok, err, none, some, ℤ, pos, replicate,
  codes, arith, if◌then◌else◌, eq_ℤ, minus_one, no_primary_key, lookup_key, set_key, int_eq,
  to_int64, to_uint64, All,
}
use dkeyczar.KeyInfo.{
  t_hmac_sha1, t_rsa_priv, t_rsa_pub, p_verify, p_sign_and_verify, s_primary, s_active,
  default_size,
}
use dkeyczar.KeyInfo.Sizes.{decrypting, signing, allows}
use dkeyczar.Keys.{
  KeyData, hmac, rsa_priv, rsa_pub, Random, generate_key, is_decrypt_key, is_sign_key,
}
use dkeyczar.Keys.Hmac.{generate_hmac_key, fresh}
use dkeyczar.Keys.Rsa.{RsaKey}
use dkeyczar.KeySet.{KeyCzar, load_primary_key}
use dkeyczar.KeyManager.{create, add_key, promote, demote, pub_keys, public_keys, public_kind}
use dkeyczar.KeyManager.Managed.{IsManaged, create-IsManaged}
use dkeyczar.KeyManager.Promoting.{promote-IsManaged}
use dkeyczar.KeyManager.Adding.{add_key-IsManaged}
use dkeyczar.KeyManager.Reachable.{
  adding, promoting, Reaches, here, next, load_primary_key-reachable,
}
use dkeyczar.KeyManager.Doubled.{load_primary_key-add_key_twice}
use dkeyczar.KeyManager.Storable.{IsStorable}
use dkeyczar.KeyManager.Counting.{Holds}
use dkeyczar.KeyManager.Served.{IsStorableSet}
use dkeyczar.Keys.Kinds.{type_of}
use dkeyczar.Keys.Hmac.{HmacKey}
use dkeyczar.KeyManager.Public.{HasUniqueKeys, half_of, pub_keys-public}

abbrev pub random : Random
random = record {
  key_bytes = replicate 32 1;
  hmac_bytes = replicate 32 2;
  rsa = λ n. err no_primary_key;
  dsa = err no_primary_key;
}

abbrev pub made : KeyData
made = hmac (fresh (replicate 32 2))

abbrev pub empty : KeyCzar
empty = record {
  keymeta = record {
    name = codes "test";
    type = t_hmac_sha1;
    purpose = p_sign_and_verify;
    encrypted = false;
    versions = [];
  };
  keys = [];
  idkeys = [];
  primary = minus_one;
}

empty_lem : create (codes "test") p_sign_and_verify t_hmac_sha1 ≡ empty
unfolding create
empty_lem = refl

empty-IsManaged : IsManaged empty
empty-IsManaged = rw empty_lem at (create-IsManaged (codes "test") p_sign_and_verify t_hmac_sha1)

abbrev pub one_active : KeyCzar
one_active = record {
  keymeta = record empty.keymeta {
    versions = record { version_number = pos 1; status = s_active; exportable = false } ∷ [];
  };
  keys = (pos 1, made) ∷ [];
  idkeys = [];
  primary = minus_one;
}

one_active_lem : add_key random 0 s_active empty ≡ ok (one_active, none)
unfolding add_key generate_key to_int64 set_key to_uint64 generate_hmac_key default_size
one_active_lem = refl

one_active-IsManaged : IsManaged one_active
one_active-IsManaged =
    add_key-IsManaged random 0 s_active empty one_active none empty-IsManaged refl (omega arith)
      one_active_lem

abbrev pub one_promoted : KeyCzar
one_promoted = record one_active {
  keymeta = record empty.keymeta {
    versions = record { version_number = pos 1; status = s_primary; exportable = false } ∷ [];
  };
  primary = pos 1;
}

one_promoted_lem : promote (pos 1) one_active ≡ ok one_promoted
unfolding promote
one_promoted_lem = refl

demoted_lem : demote (pos 1) one_promoted ≡ ok one_active
unfolding demote
demoted_lem = refl

one_promoted-IsManaged : IsManaged one_promoted
one_promoted-IsManaged =
    promote-IsManaged (pos 1) one_active one_promoted one_active-IsManaged one_promoted_lem

reached : Reaches (create (codes "test") p_sign_and_verify t_hmac_sha1) one_promoted
reached = rw empty_lem (
    next empty one_active one_promoted
      (adding random 0 s_active empty one_active none refl (omega arith) one_active_lem)
      (next one_active one_promoted one_promoted
        (promoting (pos 1) one_active one_promoted one_promoted_lem) (here one_promoted)))

load_primary_key-reachable_example :
    load_primary_key one_promoted
    ≡ (if eq_ℤ one_promoted.primary minus_one then err no_primary_key else ok one_promoted)
load_primary_key-reachable_example =
    load_primary_key-reachable (codes "test") p_sign_and_verify t_hmac_sha1 one_promoted reached

abbrev first_primary : KeyCzar
first_primary = record one_promoted { primary = minus_one }

first_primary_lem : add_key random 0 s_primary empty ≡ ok (first_primary, none)
unfolding add_key generate_key to_int64 set_key to_uint64 generate_hmac_key default_size
first_primary_lem = refl

abbrev both_primary : KeyCzar
both_primary = record first_primary {
  keymeta = record empty.keymeta {
    versions =
        record { version_number = pos 1; status = s_primary; exportable = false }
        ∷ record { version_number = pos 2; status = s_primary; exportable = false }
        ∷ [];
  };
  keys = (pos 1, made) ∷ (pos 2, made) ∷ [];
}

both_primary_lem : add_key random 0 s_primary first_primary ≡ ok (both_primary, none)
unfolding add_key generate_key to_int64 set_key to_uint64 generate_hmac_key default_size
both_primary_lem = refl

load_primary_key-add_key_twice_example : load_primary_key both_primary ≡ err no_primary_key
load_primary_key-add_key_twice_example =
    load_primary_key-add_key_twice random random 0 0 empty first_primary both_primary none none
      empty-IsManaged refl (omega arith) first_primary_lem both_primary_lem

abbrev rsa_key : RsaKey
rsa_key = record {
  key = record {
    public = record { n = 15; e = pos 3 };
    d = 3;
    prime_p = 3;
    prime_q = 5;
    dp = 1;
    dq = 3;
    qinv = 2;
  };
  public_key = record { key = record { n = 15; e = pos 3 }; id = [] };
}

abbrev rsa_set : KeyCzar
rsa_set = record one_promoted {
  keymeta = record one_promoted.keymeta { type = t_rsa_priv };
  keys = (pos 1, rsa_priv rsa_key) ∷ [];
}

abbrev rsa_pub_set : KeyCzar
rsa_pub_set = record {
  keymeta = record {
    name = codes "test";
    type = t_rsa_pub;
    purpose = p_verify;
    encrypted = false;
    versions = rsa_set.keymeta.versions;
  };
  keys = (pos 1, rsa_pub rsa_key.public_key) ∷ [];
  idkeys = [];
  primary = minus_one;
}

rsa_pub_set_lem : pub_keys rsa_set ≡ some rsa_pub_set
unfolding pub_keys public_keys public_kind
rsa_pub_set_lem = refl

rsa_set_unique : HasUniqueKeys rsa_set.keys
unfolding lookup_key
rsa_set_unique = (refl, tt)

pub_keys-public_example :
    (rsa_pub_set.keymeta.versions ≡ rsa_set.keymeta.versions)
    × ((n : ℤ) → lookup_key n rsa_pub_set.keys ≡ half_of (lookup_key n rsa_set.keys))
    × (allows rsa_pub_set.keymeta.purpose decrypting ≡ false)
    × (allows rsa_pub_set.keymeta.purpose signing ≡ false)
    × All
        (λ (e : ℤ × KeyData). (is_decrypt_key e.1 ≡ false) × (is_sign_key e.1 ≡ false))
        rsa_pub_set.keys
pub_keys-public_example = pub_keys-public rsa_set rsa_pub_set rsa_set_unique rsa_pub_set_lem

one_promoted-kinds : All (λ k. (type_of k ≡ one_promoted.keymeta.type) × IsStorable k) (made ∷ [])
unfolding type_of
one_promoted-kinds = ((refl, (refl, ground arith)), tt)

held : Holds 1 (made ∷ []) one_promoted.keys
unfolding lookup_key
held = (refl, refl)

pub one_promoted-IsStorableSet : IsStorableSet one_promoted (made ∷ [])
one_promoted-IsStorableSet = record {
  numbered = (refl, tt);
  complete = refl;
  holds = held;
  storable = one_promoted-kinds;
  ascii = ground arith;
}

abbrev mac_key : HmacKey
mac_key = record { key = replicate 32 3; id = 1 ∷ 2 ∷ 3 ∷ 4 ∷ [] }
