-- ===== src/Crypto.antt =====
-- The parts of Go's library that do cryptography and compression. They are a parameter of the
-- model: a record of operations, and the documented behaviour that the theorems rely on.
use dkeyczar.Prelude.{
  ℕ, ◌%◌, ◌≡◌, Bool, Bytes, Result, ok, panic, ◌≢◌, All, IsByte, length, ℤ, ◌⊎◌, take, ◌++◌,
}

-- rsa.PublicKey and rsa.PrivateKey, with the two primes and the precomputed values that the source
-- stores; a key of more primes, which Go could import, has no place in that form.
pub record RsaPublic : Type 0 where
  pub n : ℕ
  pub e : ℤ

pub record RsaPrivate : Type 0 where
  pub public : RsaPublic
  pub d : ℕ
  pub prime_p : ℕ
  pub prime_q : ℕ
  pub dp : ℕ
  pub dq : ℕ
  pub qinv : ℕ

-- dsa.PublicKey and dsa.PrivateKey.
pub record DsaPublic : Type 0 where
  pub p : ℕ
  pub q : ℕ
  pub g : ℕ
  pub y : ℕ

pub record DsaPrivate : Type 0 where
  pub public : DsaPublic
  pub x : ℕ

-- Where an operation draws from rand.Reader, its first argument is what it draws.
pub record Crypto : Type 0 where
  pub sha1 : Bytes → Bytes
  -- key, message
  pub hmac_sha1 : Bytes → Bytes → Bytes
  -- key, initialisation vector, whole blocks
  pub cbc_encrypt : Bytes → Bytes → Bytes → Bytes
  pub cbc_decrypt : Bytes → Bytes → Bytes → Bytes
  -- key, digest
  pub rsa_sign : Bytes → RsaPrivate → Bytes → Result Bytes
  pub rsa_verify : RsaPublic → Bytes → Bytes → Bool
  pub rsa_encrypt : Bytes → RsaPublic → Bytes → Result Bytes
  pub rsa_decrypt : RsaPrivate → Bytes → Result Bytes
  -- the two numbers of a signature, and their ASN.1 form
  pub dsa_sign : Bytes → DsaPrivate → Bytes → Result (ℕ × ℕ)
  pub dsa_verify : DsaPublic → Bytes → ℕ → ℕ → Bool
  pub asn1_marshal : ℕ × ℕ → Result Bytes
  pub asn1_unmarshal : Bytes → Result (ℕ × ℕ)
  -- password, salt, iterations, length of the key; with SHA-1
  pub pbkdf2 : Bytes → Bytes → ℤ → ℕ → Bytes
  pub gzip : Bytes → Bytes
  pub gunzip : Bytes → Result Bytes
  pub zlib : Bytes → Bytes
  pub unzlib : Bytes → Result Bytes

abbrev pub IsCipherKey : Bytes → Type 0
IsCipherKey key = (length key ≡ 16) ⊎ ((length key ≡ 24) ⊎ (length key ≡ 32))

pub record CryptoLaws (c : Crypto) : Type 0 where
  pub length-sha1 : (m : Bytes) → length (c.sha1 m) ≡ 20
  pub sha1-IsByte : (m : Bytes) → All IsByte (c.sha1 m)
  pub length-hmac : (k m : Bytes) → length (c.hmac_sha1 k m) ≡ 20
  pub hmac-IsByte : (k m : Bytes) → All IsByte (c.hmac_sha1 k m)
  pub length-cbc_encrypt :
      (k iv b : Bytes) → length b % 16 ≡ 0 → length (c.cbc_encrypt k iv b) ≡ length b
  -- The cipher text of the front does not depend on the blocks behind it.
  pub take-cbc_encrypt :
      (k iv a b : Bytes)
      → length a % 16 ≡ 0
      → length b % 16 ≡ 0
      → take (length a) (c.cbc_encrypt k iv (a ++ b)) ≡ c.cbc_encrypt k iv a
  pub cbc_encrypt-IsByte : (k iv b : Bytes) → All IsByte (c.cbc_encrypt k iv b)
  -- CBC decryption undoes encryption under the same key and vector.
  pub cbc_decrypt-encrypt :
      (k iv b : Bytes)
      → IsCipherKey k
      → length iv ≡ 16
      → length b % 16 ≡ 0
      → All IsByte b
      → c.cbc_decrypt k iv (c.cbc_encrypt k iv b) ≡ b
  pub length-pbkdf2 :
      (password salt : Bytes) (iterations : ℤ) (n : ℕ)
      → length (c.pbkdf2 password salt iterations n) ≡ n
  pub gunzip-gzip : (b : Bytes) → All IsByte b → c.gunzip (c.gzip b) ≡ ok b
  pub gzip-IsByte : (b : Bytes) → All IsByte b → All IsByte (c.gzip b)
  pub unzlib-zlib : (b : Bytes) → All IsByte b → c.unzlib (c.zlib b) ≡ ok b
  pub zlib-IsByte : (b : Bytes) → All IsByte b → All IsByte (c.zlib b)
  pub rsa_sign-IsByte :
      (rand : Bytes) (k : RsaPrivate) (digest s : Bytes)
      → c.rsa_sign rand k digest ≡ ok s
      → All IsByte s
  pub rsa_encrypt-IsByte :
      (rand : Bytes) (k : RsaPublic) (m s : Bytes) → c.rsa_encrypt rand k m ≡ ok s → All IsByte s
  pub asn1_marshal-IsByte : (rs : ℕ × ℕ) (s : Bytes) → c.asn1_marshal rs ≡ ok s → All IsByte s
  -- asn1.Unmarshal returns an error for any bytes that are no signature.
  pub asn1_unmarshal-ne-panic : (s : Bytes) → c.asn1_unmarshal s ≢ panic
