-- ===== src/KeyInfo.antt =====
-- keyinfo.go: key types, statuses, purposes and cipher modes, their texts, sizes, and metadata.
pub mod Names
pub mod NamesLaws
pub mod Sizes
use dkeyczar.Prelude.{
  ℕ, ◌*◌, ◌≡◌, Bool, true, false, ◌||◌, List, [], ◌∷◌, ◌++◌, Option, none, some, Bytes, Result, ok,
  panic, codes, bytes_eq, ◌==◌, if◌then◌else◌, ℤ, String,
}

pub data KeyType : Type 0 where
  t_aes t_hmac_sha1 t_dsa_priv t_dsa_pub t_rsa_priv t_rsa_pub : KeyType

pub data KeyStatus : Type 0 where
  s_primary s_active s_inactive : KeyStatus

pub data KeyPurpose : Type 0 where
  p_decrypt_and_encrypt p_encrypt p_sign_and_verify p_verify p_test : KeyPurpose

pub data CipherMode : Type 0 where
  cm_cbc cm_ctr cm_ecb cm_det_cbc : CipherMode

-- An entry of keyTypeInfo; `qstr` is `str` between quotes.
pub record KeyTypeInfo : Type 0 where
  pub str : Bytes
  pub sizes : List ℕ
  pub output : ℕ
  pub outputs : List ℕ

unfoldable pub key_type_info : KeyType → KeyTypeInfo
key_type_info t_aes = record {
  str = codes "AES";
  sizes = 128 ∷ 192 ∷ 256 ∷ [];
  output = 128;
  outputs = [];
}
key_type_info t_hmac_sha1 = record {
  str = codes "HMAC_SHA1";
  sizes = 256 ∷ [];
  output = 160;
  outputs = [];
}
key_type_info t_dsa_priv = record {
  str = codes "DSA_PRIV";
  sizes = 1024 ∷ [];
  output = 384;
  outputs = [];
}
key_type_info t_dsa_pub = record {
  str = codes "DSA_PUB";
  sizes = 1024 ∷ [];
  output = 384;
  outputs = [];
}
key_type_info t_rsa_priv = record {
  str = codes "RSA_PRIV";
  sizes = 4096 ∷ 2048 ∷ 1024 ∷ [];
  output = 0;
  outputs = 512 ∷ 256 ∷ 128 ∷ [];
}
key_type_info t_rsa_pub = record {
  str = codes "RSA_PUB";
  sizes = 4096 ∷ 2048 ∷ 1024 ∷ [];
  output = 0;
  outputs = 512 ∷ 256 ∷ 128 ∷ [];
}

-- `sizes[0]`; every entry has one.
abbrev first_size : List ℕ → ℕ
first_size [] = 0
first_size (n ∷ ns) = n

unfoldable pub default_size : KeyType → ℕ
unfolding key_type_info
default_size k = first_size (key_type_info k).sizes

-- `outputs[i]` for the index of the size in `sizes`, 0 where it is not there.
unfoldable pub output_for : ℕ → List ℕ → List ℕ → ℕ
output_for size [] outputs = 0
output_for size (n ∷ ns) [] = 0
output_for size (n ∷ ns) (o ∷ os) = if n == size then o else output_for size ns os

unfoldable pub output_size : KeyType → ℕ → ℕ
unfolding key_type_info output_for
output_size k size =
    if (key_type_info k).output == 0
    then output_for size (key_type_info k).sizes (key_type_info k).outputs
    else (key_type_info k).output

unfoldable pub mem_size : ℕ → List ℕ → Bool
mem_size size [] = false
mem_size size (n ∷ ns) = n == size || mem_size size ns

unfoldable pub is_acceptable_size : KeyType → ℕ → Bool
unfolding key_type_info mem_size
is_acceptable_size k size = mem_size size (key_type_info k).sizes

-- A purpose that no caller asks for panics.
unfoldable pub is_acceptable_purpose : KeyPurpose → KeyPurpose → Result Bool
is_acceptable_purpose p_decrypt_and_encrypt p_encrypt = ok true
is_acceptable_purpose p_encrypt p_encrypt = ok true
is_acceptable_purpose k p_encrypt = ok false
is_acceptable_purpose p_decrypt_and_encrypt p_decrypt_and_encrypt = ok true
is_acceptable_purpose k p_decrypt_and_encrypt = ok false
is_acceptable_purpose p_sign_and_verify p_verify = ok true
is_acceptable_purpose p_verify p_verify = ok true
is_acceptable_purpose k p_verify = ok false
is_acceptable_purpose p_sign_and_verify p_sign_and_verify = ok true
is_acceptable_purpose k p_sign_and_verify = ok false
is_acceptable_purpose k p_test = panic

pub record KeyVersion : Type 0 where
  pub version_number : ℤ
  pub status : KeyStatus
  pub exportable : Bool

pub record KeyMeta : Type 0 where
  pub name : Bytes
  pub type : KeyType
  pub purpose : KeyPurpose
  pub encrypted : Bool
  pub versions : List KeyVersion
