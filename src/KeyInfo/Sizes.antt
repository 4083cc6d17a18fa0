-- ===== src/KeyInfo/Sizes.antt =====
-- keyinfo.go: key sizes and purposes.
use dkeyczar.Prelude.{ℕ, ◌*◌, ◌≡◌, ◌≢◌, refl, Bool, true, false, not, ◌&&◌, ◌||◌, ok, arith, ◌⊎◌}
use dkeyczar.KeyInfo.{
  KeyType, t_aes, t_hmac_sha1, t_dsa_priv, t_dsa_pub, t_rsa_priv, t_rsa_pub, KeyPurpose,
  p_decrypt_and_encrypt, p_encrypt, p_sign_and_verify, p_verify, p_test, is_acceptable_size,
  default_size, output_size, is_acceptable_purpose,
}

-- The AES sizes are 128, 192 and 256 bits and nothing else.
pub aes_sizes : (n : ℕ) → is_acceptable_size t_aes n ≡ true → (n ≡ 128) ⊎ ((n ≡ 192) ⊎ (n ≡ 256))
unfolding is_acceptable_size
aes_sizes n h = ground arith

pub hmac_sizes : (n : ℕ) → is_acceptable_size t_hmac_sha1 n ≡ true → n ≡ 256
unfolding is_acceptable_size
hmac_sizes n h = ground arith

pub default_size-acceptable : (k : KeyType) → is_acceptable_size k (default_size k) ≡ true
unfolding is_acceptable_size default_size
default_size-acceptable t_aes = refl
default_size-acceptable t_hmac_sha1 = refl
default_size-acceptable t_dsa_priv = refl
default_size-acceptable t_dsa_pub = refl
default_size-acceptable t_rsa_priv = refl
default_size-acceptable t_rsa_pub = refl

-- At every acceptable RSA key size the output size, in bytes, is as many bits as the key has.
pub output_size-rsa :
    (n : ℕ)
    → is_acceptable_size t_rsa_priv n ≡ true
    → (output_size t_rsa_priv n * 8 ≡ n) × (output_size t_rsa_pub n * 8 ≡ n)
unfolding is_acceptable_size output_size
output_size-rsa n h = ground arith

-- What a key set of a purpose may be used for.
pub data Use : Type 0 where
  encrypting decrypting signing verifying : Use

abbrev pub allows : KeyPurpose → Use → Bool
allows p_decrypt_and_encrypt encrypting = true
allows p_decrypt_and_encrypt decrypting = true
allows p_encrypt encrypting = true
allows p_sign_and_verify signing = true
allows p_sign_and_verify verifying = true
allows p_verify verifying = true
allows _ _ = false

abbrev implies : Bool → Bool → Bool
implies a b = not a || b

-- Every use that the wanted purpose allows is allowed by the key's purpose.
abbrev pub covers : KeyPurpose → KeyPurpose → Bool
covers have want =
    implies (allows want encrypting) (allows have encrypting)
    && (implies (allows want decrypting) (allows have decrypting)
        && (implies (allows want signing) (allows have signing)
            && implies (allows want verifying) (allows have verifying)))

-- A purpose is acceptable for a wanted one other than P_TEST exactly when it allows every use that
-- the wanted one allows.
pub is_acceptable_purpose-covers :
    (have want : KeyPurpose)
    → want ≢ p_test
    → is_acceptable_purpose have want ≡ ok (covers have want)
unfolding is_acceptable_purpose
is_acceptable_purpose-covers have want h = ground arith
