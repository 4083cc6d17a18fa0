-- ===== src/KeyManager/Generated.antt =====
-- keydata.go, generateKey: every key that is generated can be stored.
use dkeyczar.Prelude.{
  ℕ, ◌≤◌, ◌/◌, ◌≡◌, refl, Bytes, true, Result, ok, >>=-eq-ok, ok-injective, length, length-take,
  take, All, IsByte, arith, if◌then◌else◌, ◌==◌, Bool, false, guard, ◌>>◌, Error, invalid_key_size,
  ◌⊎◌, inl, inr,
}
use dkeyczar.Crypto.{IsCipherKey, RsaPrivate, DsaPrivate}
use dkeyczar.KeyInfo.{
  KeyType, t_aes, t_hmac_sha1, t_dsa_priv, t_dsa_pub, t_rsa_priv, t_rsa_pub, default_size,
  is_acceptable_size,
}
use dkeyczar.Keys.{KeyData, Random, generate_key}
use dkeyczar.Keys.Kinds.{type_of, All-take}
use dkeyczar.Keys.Hmac.{generate_hmac_key}
use dkeyczar.Keys.Aes.{AesKey, generate_aes_key}
use dkeyczar.Keys.Aes.Storage.{IsAesKey}
use dkeyczar.Keys.Rsa.{RsaKey, generate_rsa_key}
use dkeyczar.Keys.Rsa.Storage as Rsa
use dkeyczar.Keys.Dsa.{DsaKey, generate_dsa_key}
use dkeyczar.Keys.Dsa.Storage as Dsa
use dkeyczar.KeyManager.Storable.{IsStorable}

-- rand.Reader gives bytes, and as many as are asked for; rsa.GenerateKey and dsa.GenerateKey give
-- proper keys.
pub record SuppliesKeys (rand : Random) : Type 0 where
  pub key_bytes : All IsByte rand.key_bytes
  pub key_length : 32 ≤ length rand.key_bytes
  pub hmac_bytes : All IsByte rand.hmac_bytes
  pub hmac_length : 32 ≤ length rand.hmac_bytes
  pub rsa_keys : (n : ℕ) (k : RsaPrivate) → rand.rsa n ≡ ok k → Rsa.IsPrivate k
  pub dsa_keys : (k : DsaPrivate) → rand.dsa ≡ ok k → Dsa.IsPrivate k

guarded :
    {A : Type 0} (b : Bool) (e : Error) (next : Result A) {y : A}
    → (guard b e >> next) ≡ ok y
    → (b ≡ true) × (next ≡ ok y)
guarded true e next h = (refl, h)
guarded false e next h = cc

aes_size-cases : (n : ℕ) → is_acceptable_size t_aes n ≡ true → (n ≡ 128) ⊎ ((n ≡ 192) ⊎ (n ≡ 256))
unfolding is_acceptable_size
aes_size-cases n h = ground arith

chosen_size : ℕ → ℕ
chosen_size size = if size == 0 then default_size t_aes else size

cut_key :
    (size : ℕ) (b : Bytes)
    → 32 ≤ length b
    → (size ≡ 128) ⊎ ((size ≡ 192) ⊎ (size ≡ 256))
    → IsCipherKey (take (size / 8) b)
cut_key size b h (inl e) = inl (rw (length-take, e) (omega arith))
cut_key size b h (inr (inl e)) = inr (inl (rw (length-take, e) (omega arith)))
cut_key size b h (inr (inr e)) = inr (inr (rw (length-take, e) (omega arith)))

generate_aes_key-IsAesKey :
    (rand : Random) (size : ℕ) (k : AesKey)
    → SuppliesKeys rand
    → generate_aes_key rand.key_bytes rand.hmac_bytes size ≡ ok k
    → IsAesKey k
unfolding generate_aes_key generate_hmac_key chosen_size default_size
generate_aes_key-IsAesKey rand size k s e =
    let size' = chosen_size size in
    let (acceptable, made) = guarded (is_acceptable_size t_aes size') invalid_key_size _ e in
    rw (← ok-injective made) (record {
      cipher = cut_key size' rand.key_bytes s.key_length (aes_size-cases size' acceptable);
      hmac_length = rw length-take (omega (arith, s.hmac_length));
      key_bytes = All-take (size' / 8) rand.key_bytes s.key_bytes;
      hmac_bytes = All-take 32 rand.hmac_bytes s.hmac_bytes;
    })

generate_rsa_key-IsPrivate :
    (rand : Random) (size : ℕ) (k : RsaKey)
    → SuppliesKeys rand
    → generate_rsa_key rand.rsa size ≡ ok k
    → Rsa.IsPrivate k.key
unfolding generate_rsa_key
generate_rsa_key-IsPrivate rand size k s e =
    let (_, made) = guarded (is_acceptable_size t_rsa_priv _) invalid_key_size _ e in
    let (priv, gives, is_k) = >>=-eq-ok (rand.rsa _) _ made in
    rw (← ok-injective is_k) (s.rsa_keys _ priv gives)

generate_dsa_key-IsPrivate :
    (rand : Random) (size : ℕ) (k : DsaKey)
    → SuppliesKeys rand
    → generate_dsa_key rand.dsa size ≡ ok k
    → Dsa.IsPrivate k.key
unfolding generate_dsa_key
generate_dsa_key-IsPrivate rand size k s e =
    let (_, made) = guarded (is_acceptable_size t_dsa_priv _) invalid_key_size _ e in
    let (priv, gives, is_k) = >>=-eq-ok (rand.dsa) _ made in
    rw (← ok-injective is_k) (s.dsa_keys priv gives)

-- Every key that is generated is of the type asked for and can be stored.
pub generate_key-IsStorable :
    (rand : Random) (t : KeyType) (size : ℕ) (k : KeyData)
    → SuppliesKeys rand
    → generate_key rand t size ≡ ok k
    → (type_of k ≡ t) × IsStorable k
unfolding generate_key type_of generate_hmac_key default_size
generate_key-IsStorable rand t_aes size k s e =
    let (made, gives, is_k) =
      >>=-eq-ok (generate_aes_key rand.key_bytes rand.hmac_bytes size) _ e in
    rw (← ok-injective is_k) (refl, generate_aes_key-IsAesKey rand size made s gives)
generate_key-IsStorable rand t_hmac_sha1 size k s e = rw (← ok-injective e) (
  refl,
  (rw length-take (omega (arith, s.hmac_length)), All-take 32 rand.hmac_bytes s.hmac_bytes),
)
generate_key-IsStorable rand t_dsa_priv size k s e =
    let (made, gives, is_k) = >>=-eq-ok (generate_dsa_key rand.dsa size) _ e in
    rw (← ok-injective is_k) (refl, generate_dsa_key-IsPrivate rand size made s gives)
generate_key-IsStorable rand t_dsa_pub size k s e = cc
generate_key-IsStorable rand t_rsa_priv size k s e =
    let (made, gives, is_k) = >>=-eq-ok (generate_rsa_key rand.rsa size) _ e in
    rw (← ok-injective is_k) (refl, generate_rsa_key-IsPrivate rand size made s gives)
generate_key-IsStorable rand t_rsa_pub size k s e = cc
