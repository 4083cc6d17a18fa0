-- ===== src/Signer/Verifying.antt =====
-- keyczar.go, the loops over the candidate keys of a signature.
use dkeyczar.Prelude.{
  ℕ, ◌≡◌, ◌≢◌, refl, sym, ◌∙◌, Bytes, Bool, true, false, Result, ok, err, panic, ◌>>=◌, List, [],
  ◌∷◌, ◌++◌, arith, Bool-cases, inl, inr, All, ◌||◌,
}
use dkeyczar.Crypto.{Crypto, CryptoLaws}
use dkeyczar.KeyInfo.{KeyType, t_aes}
use dkeyczar.Keys.{
  KeyData, aes, hmac, dsa_priv, dsa_pub, rsa_priv, rsa_pub, key_verify, is_verify_key, is_sign_key,
}
use dkeyczar.Keys.Dsa.{dsa_key_verify}
use dkeyczar.Keys.Rsa.{rsa_key_verify}
use dkeyczar.Keys.Kinds.{IsFresh, type_of}
use dkeyczar.KeySet.Index.{Occurs}
use dkeyczar.Signer.{valid, verify_any}

abbrev pub AllVerify : List KeyData → Type 0
AllVerify = All (λ k. is_verify_key k ≡ true)

abbrev pub accepts_result : Result Bool → Bool
accepts_result (ok b) = b
accepts_result (err e) = false
accepts_result panic = false

valid-accepts : (r : Result Bool) → r ≢ panic → valid r ≡ ok (accepts_result r)
valid-accepts (ok b) h = refl
valid-accepts (err e) h = refl
valid-accepts panic h = absurd (h refl)

map-ne-panic {ℓ} :
    {A : Type ℓ} (m : Result A) (f : A → Bool) → m ≢ panic → (m >>= λ a. ok (f a)) ≢ panic
map-ne-panic (ok a) f h = λ e. cc
map-ne-panic (err x) f h = λ e. cc
map-ne-panic panic f h = absurd (h refl)

module _ (c : Crypto) where
  -- The key accepts the signature.
  abbrev pub accepts : KeyData → Bytes → Bytes → Bool
  accepts k msg sig = accepts_result (key_verify c k msg sig)

  abbrev pub any_accepts : List KeyData → Bytes → Bytes → Bool
  any_accepts [] msg sig = false
  any_accepts (k ∷ ks) msg sig = accepts k msg sig || any_accepts ks msg sig

  pub any_accepts-Occurs :
      (k : KeyData) (ks : List KeyData) (msg sig : Bytes)
      → Occurs k ks
      → accepts k msg sig ≡ true
      → any_accepts ks msg sig ≡ true
  any_accepts-Occurs k ks msg sig (before, after, e) h = rw e (go before)
    where
      go : (before : List KeyData) → any_accepts (before ++ k ∷ after) msg sig ≡ true
      go [] = rw h refl
      go (x ∷ before) = ground (arith, go before)

  -- Some key of the list accepts.
  pub any_accepts-some :
      (ks : List KeyData) (msg sig : Bytes)
      → any_accepts ks msg sig ≡ true
      → (k : KeyData) × Occurs k ks × (accepts k msg sig ≡ true)
  any_accepts-some [] msg sig e = cc
  any_accepts-some (k ∷ ks) msg sig e = elim (Bool-cases (accepts k msg sig)) [
    | inl here ↦ (k, ([], ks, refl), here)
    | inr next ↦
        let (x, (before, after, split), accepted) = any_accepts-some ks msg sig (ground arith) in
        (x, (k ∷ before, after, rw split refl), accepted)
  ]

module _ (c : Crypto) (laws : CryptoLaws c) where
  -- A key with a Verify method does not panic.
  verify-ne-panic :
      (k : KeyData) (msg sig : Bytes) → is_verify_key k ≡ true → key_verify c k msg sig ≢ panic
  unfolding key_verify is_verify_key rsa_key_verify dsa_key_verify
  verify-ne-panic (aes k) msg sig h = cc
  verify-ne-panic (hmac k) msg sig h = λ e. cc
  verify-ne-panic (dsa_priv k) msg sig h =
      map-ne-panic (c.asn1_unmarshal sig)
        (λ (rs : ℕ × ℕ). c.dsa_verify k.public_key.key (c.sha1 msg) rs.0 rs.1)
        (laws.asn1_unmarshal-ne-panic sig)
  verify-ne-panic (dsa_pub k) msg sig h =
      map-ne-panic (c.asn1_unmarshal sig)
        (λ (rs : ℕ × ℕ). c.dsa_verify k.key (c.sha1 msg) rs.0 rs.1)
        (laws.asn1_unmarshal-ne-panic sig)
  verify-ne-panic (rsa_priv k) msg sig h = λ e. cc
  verify-ne-panic (rsa_pub k) msg sig h = λ e. cc

  -- Over keys that can verify the loop finds whether any of them accepts, and never fails.
  pub verify_any-any_accepts :
      (ks : List KeyData) (msg sig : Bytes)
      → AllVerify ks
      → verify_any c ks msg sig ≡ ok (any_accepts c ks msg sig)
  unfolding verify_any
  verify_any-any_accepts [] msg sig all = refl
  verify_any-any_accepts (k ∷ ks) msg sig (here, all) = ground (
    arith,
    valid-accepts (key_verify c k msg sig) (verify-ne-panic k msg sig here),
    verify_any-any_accepts ks msg sig all,
  )

type_verify : (k : KeyData) → type_of k ≢ t_aes → is_verify_key k ≡ true
unfolding type_of is_verify_key
type_verify (aes k) ne = absurd (ne refl)
type_verify (hmac k) ne = refl
type_verify (dsa_priv k) ne = refl
type_verify (dsa_pub k) ne = refl
type_verify (rsa_priv k) ne = refl
type_verify (rsa_pub k) ne = refl

pub sign-ne-aes : (k : KeyData) → is_sign_key k ≡ true → type_of k ≢ t_aes
unfolding type_of is_sign_key
sign-ne-aes (aes k) h = cc
sign-ne-aes (hmac k) h = λ e. cc
sign-ne-aes (dsa_priv k) h = λ e. cc
sign-ne-aes (dsa_pub k) h = cc
sign-ne-aes (rsa_priv k) h = λ e. cc
sign-ne-aes (rsa_pub k) h = cc

-- Keys of a type other than AES can verify.
pub kinds-AllVerify :
    (t : KeyType) (ks : List KeyData) → t ≢ t_aes → All (IsFresh t) ks → AllVerify ks
kinds-AllVerify t [] ne all = tt
kinds-AllVerify t (k ∷ ks) ne (here, all) =
    (type_verify k (λ e. ne (sym here.0 ∙ e)), kinds-AllVerify t ks ne all)
