-- ===== src/Examples/KeyRuns.antt =====
-- The theorems about keys and key sets, applied to concrete ones.
use dkeyczar.Prelude.{
  ℕ, ◌+◌, ◌-◌, ◌*◌, ◌%◌, ◌≤◌, ◌≡◌, refl, true, false, [], ◌∷◌, ◌++◌, Bytes, ok, ◌>>=◌, ◌^◌, pos,
  replicate, length, codes, arith, lookup_key, int_eq, some, inl, bytes_eq,
}
use dkeyczar.Crypto.{RsaPrivate}
use dkeyczar.KeyInfo.{s_primary, t_rsa_pub, is_acceptable_size, p_sign_and_verify}
use dkeyczar.Util.BigEndian.{uint32}
use dkeyczar.Util.BigInt.{int_bytes}
use dkeyczar.Util.Padding.{pkcs5unpad}
use dkeyczar.Keys.{key_from_json}
use dkeyczar.Keys.Hmac.{HmacKey, fresh, hmac_verify}
use dkeyczar.Keys.Aes.{AesKey, aes_encrypt, aes_decrypt}
use dkeyczar.Keys.Aes.Storage.{IsAesKey}
use dkeyczar.Keys.Aes.Crypt.{aes_decrypt_authentic, aes_encrypt-bounds}
use dkeyczar.Keys.Rsa.{RsaKey}
use dkeyczar.Keys.Rsa.Storage as RsaStorage
use dkeyczar.KeySet.{KeyCzar, load_primary_key, get_key_for_id, some_keys}
use dkeyczar.KeySet.Primary.{primaries, only, load_primary_key-only}
use dkeyczar.KeySet.Index.{read_keys, with_hash, get_key_for_id-new_key_czar}
use dkeyczar.KeySet.Loaded.{HasPrimary, load_with_primary-HasPrimary}
use dkeyczar.Examples.Json.{texts}
use dkeyczar.Examples.Crypto.{tools, tools_laws}
use dkeyczar.Examples.KeySets.{first_key, stored, loaded_set, loaded_set_lem, built_set_lem}

abbrev aes_key : AesKey
aes_key = record { key = replicate 16 1; hmac = fresh (replicate 32 2); id = [] }

aes_key-IsAesKey : IsAesKey aes_key
aes_key-IsAesKey = record {
  cipher = inl refl;
  hmac_length = refl;
  key_bytes = ground arith;
  hmac_bytes = ground arith;
}

-- The ciphertext of the message.
abbrev sealed : Bytes
sealed =
    0 ∷ 52 ∷ 52 ∷ 52 ∷ 52 ∷ replicate 16 9
    ++ (105 ∷ 102 ∷ 109 ∷ 109 ∷ 112 ∷ replicate 11 12 ++ replicate 20 69)

sealed_accepted : aes_decrypt tools aes_key sealed ≡ ok (codes "hello")
unfolding aes_decrypt hmac_verify bytes_eq pkcs5unpad
sealed_accepted = refl

aes_decrypt_authentic_example :
    (msg : Bytes) × (sealed ≡ msg ++ tools.hmac_sha1 (replicate 32 2) msg) × (21 ≤ length msg)
aes_decrypt_authentic_example =
    aes_decrypt_authentic tools aes_key sealed (codes "hello") sealed_accepted

aes_encrypt-bounds_example :
    (b : Bytes) × (aes_encrypt tools (replicate 16 9) aes_key (codes "hello") ≡ ok b)
    × (5 + 42 ≤ length b)
    × (length b ≤ 5 + 57)
    × ((length b - 41) % 16 ≡ 0)
aes_encrypt-bounds_example =
    aes_encrypt-bounds tools aes_key (replicate 16 9) (codes "hello") tools_laws (inl refl) refl

abbrev hmac_key : HmacKey
hmac_key = record { key = replicate 32 3; id = 1 ∷ 2 ∷ 3 ∷ 4 ∷ [] }

-- Numbers of 1024 bits.
abbrev big : ℕ
big = 2 ^ 1023

big_size_rsa : is_acceptable_size t_rsa_pub (length (int_bytes big) * 8 % 2 ^ 64) ≡ true
unfolding int_bytes is_acceptable_size
big_size_rsa = refl

abbrev pub rsa_private : RsaPrivate
rsa_private = record {
  public = record { n = big; e = pos 65537 };
  d = 5;
  prime_p = 3;
  prime_q = 7;
  dp = 1;
  dq = 2;
  qinv = 4;
}

abbrev rsa_key : RsaKey
rsa_key = record { key = rsa_private; public_key = record { key = rsa_private.public; id = [] } }

pub rsa_key-IsPrivate : RsaStorage.IsPrivate rsa_private
rsa_key-IsPrivate = record {
  public = record {
    modulus = omega arith;
    exponent = (65537, refl, omega arith, omega arith);
    size = big_size_rsa;
  };
  d = omega arith;
  p = omega arith;
  q = omega arith;
  dp = omega arith;
  dq = omega arith;
  qinv = omega arith;
}

load_with_primary-HasPrimary_example : HasPrimary tools loaded_set
load_with_primary-HasPrimary_example =
    load_with_primary-HasPrimary tools texts p_sign_and_verify stored loaded_set loaded_set_lem

get_key_for_id-new_key_czar_example : get_key_for_id loaded_set (32 ∷ 32 ∷ 32 ∷ 32 ∷ []) ≡ (do
  ks ← read_keys stored (key_from_json texts loaded_set.keymeta.type) loaded_set.keymeta.versions
  h ← uint32 (32 ∷ 32 ∷ 32 ∷ 32 ∷ [])
  some_keys (with_hash tools h ks))
get_key_for_id-new_key_czar_example =
    get_key_for_id-new_key_czar tools texts stored loaded_set (32 ∷ 32 ∷ 32 ∷ 32 ∷ []) built_set_lem

first_key_held : lookup_key (pos 1) loaded_set.keys ≡ some first_key
unfolding lookup_key
first_key_held = refl

-- A set with two primary versions.
abbrev two_primaries : KeyCzar
two_primaries = record loaded_set {
  keymeta = record loaded_set.keymeta {
    versions =
        record { version_number = pos 1; status = s_primary; exportable = false }
        ∷ record { version_number = pos 2; status = s_primary; exportable = false }
        ∷ [];
  };
}

load_primary_key-only_example : load_primary_key two_primaries ≡ (
    only (primaries two_primaries.keymeta.versions) >>= λ n.
    ok (record two_primaries { primary = n }))
load_primary_key-only_example = load_primary_key-only two_primaries ((λ e. cc), ((λ e. cc), tt))
