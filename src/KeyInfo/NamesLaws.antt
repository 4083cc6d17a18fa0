-- ===== src/KeyInfo/NamesLaws.antt =====
-- keyinfo.go: what is written for a type, status, purpose or mode is read back; unknown texts are
-- not refused.
use dkeyczar.Prelude.{
  ℕ, ◌≡◌, ◌≢◌, refl, List, [], ◌∷◌, ◌++◌, none, Bytes, ok, bytes_eq, bytes_eq→eq, Bool-cases, inl,
  inr, ap,
}
use dkeyczar.KeyInfo.{
  KeyType, t_aes, t_hmac_sha1, t_dsa_priv, t_dsa_pub, t_rsa_priv, t_rsa_pub, KeyStatus, s_primary,
  s_active, s_inactive, KeyPurpose, p_decrypt_and_encrypt, p_encrypt, p_sign_and_verify, p_verify,
  p_test, CipherMode, cm_cbc, cm_ctr, cm_ecb, cm_det_cbc,
}
use dkeyczar.KeyInfo.Names.{
  quote, but_last, unquote, lookup_name, unmarshal_name, marshal_key_type, unmarshal_key_type,
  marshal_key_status, unmarshal_key_status, marshal_key_purpose, unmarshal_key_purpose,
  marshal_cipher_mode, unmarshal_cipher_mode, key_type_lookup, key_status_lookup,
  key_purpose_lookup, cipher_mode_lookup,
}

unmarshal-marshal_key_type : (k old : KeyType) → unmarshal_key_type old (marshal_key_type k) ≡ ok k
unfolding unmarshal_key_type marshal_key_type
unmarshal-marshal_key_type t_aes old = refl
unmarshal-marshal_key_type t_hmac_sha1 old = refl
unmarshal-marshal_key_type t_dsa_priv old = refl
unmarshal-marshal_key_type t_dsa_pub old = refl
unmarshal-marshal_key_type t_rsa_priv old = refl
unmarshal-marshal_key_type t_rsa_pub old = refl

unmarshal-marshal_key_status :
    (k old : KeyStatus) → unmarshal_key_status old (marshal_key_status k) ≡ ok k
unfolding unmarshal_key_status marshal_key_status
unmarshal-marshal_key_status s_primary old = refl
unmarshal-marshal_key_status s_active old = refl
unmarshal-marshal_key_status s_inactive old = refl

unmarshal-marshal_key_purpose :
    (k old : KeyPurpose) → unmarshal_key_purpose old (marshal_key_purpose k) ≡ ok k
unfolding unmarshal_key_purpose marshal_key_purpose
unmarshal-marshal_key_purpose p_decrypt_and_encrypt old = refl
unmarshal-marshal_key_purpose p_encrypt old = refl
unmarshal-marshal_key_purpose p_sign_and_verify old = refl
unmarshal-marshal_key_purpose p_verify old = refl
unmarshal-marshal_key_purpose p_test old = refl

unmarshal-marshal_cipher_mode :
    (k old : CipherMode) → unmarshal_cipher_mode old (marshal_cipher_mode k) ≡ ok k
unfolding unmarshal_cipher_mode marshal_cipher_mode
unmarshal-marshal_cipher_mode cm_cbc old = refl
unmarshal-marshal_cipher_mode cm_ctr old = refl
unmarshal-marshal_cipher_mode cm_ecb old = refl
unmarshal-marshal_cipher_mode cm_det_cbc old = refl

-- Reading what MarshalJSON wrote gives back every key type, status, purpose and cipher mode,
-- whatever the variables held before.
pub unmarshal-marshal_names :
    (t t' : KeyType) (s s' : KeyStatus) (p p' : KeyPurpose) (m m' : CipherMode)
    → (unmarshal_key_type t' (marshal_key_type t) ≡ ok t)
      × (unmarshal_key_status s' (marshal_key_status s) ≡ ok s)
      × (unmarshal_key_purpose p' (marshal_key_purpose p) ≡ ok p)
      × (unmarshal_cipher_mode m' (marshal_cipher_mode m) ≡ ok m)
unmarshal-marshal_names t t' s s' p p' m m' = (
  unmarshal-marshal_key_type t t',
  unmarshal-marshal_key_status s s',
  unmarshal-marshal_key_purpose p p',
  unmarshal-marshal_cipher_mode m m',
)

but_last-append : (s : Bytes) (x : ℕ) → but_last (s ++ x ∷ []) ≡ s
but_last-append [] x = refl
but_last-append (a ∷ []) x = refl
but_last-append (a ∷ b ∷ r) x = ap (◌∷◌ a) (but_last-append (b ∷ r) x)

unquote-quote : (s : Bytes) → unquote (quote s) ≡ ok s
unfolding unquote
unquote-quote [] = refl
unquote-quote (a ∷ r) = ap ok (but_last-append (a ∷ r) b'"')

-- No name of the table is the text.
abbrev pub IsUnknown {ℓ} : {A : Type ℓ} → List (Bytes × A) → Bytes → Type 0
IsUnknown [] s = Unit {0}
IsUnknown ((k, v) ∷ m) s = (k ≢ s) × IsUnknown m s

lookup_name-IsUnknown {ℓ} :
    {A : Type ℓ} (s : Bytes) (m : List (Bytes × A)) → IsUnknown m s → lookup_name s m ≡ none
unfolding lookup_name
lookup_name-IsUnknown s [] h = refl
lookup_name-IsUnknown s ((k, v) ∷ m) (ne, h) = elim (Bool-cases (bytes_eq k s)) [
  | inl e ↦ absurd (ne (bytes_eq→eq k s e))
  | inr e ↦ rw e (lookup_name-IsUnknown s m h)
]

unmarshal_name-IsUnknown {ℓ} :
    {A : Type ℓ} (m : List (Bytes × A)) (old : A) (s : Bytes)
    → IsUnknown m s
    → unmarshal_name m old (quote s) ≡ ok old
unfolding unmarshal_name
unmarshal_name-IsUnknown m old s h = rw (unquote-quote s, lookup_name-IsUnknown s m h) refl

-- A quoted text that names no key type, status, purpose or mode is no error: each variable keeps
-- the value that it held.
pub unmarshal_unknown :
    (s : Bytes) (t : KeyType) (st : KeyStatus) (p : KeyPurpose) (m : CipherMode)
    → IsUnknown key_type_lookup s
    → IsUnknown key_status_lookup s
    → IsUnknown key_purpose_lookup s
    → IsUnknown cipher_mode_lookup s
    → (unmarshal_key_type t (quote s) ≡ ok t)
      × (unmarshal_key_status st (quote s) ≡ ok st)
      × (unmarshal_key_purpose p (quote s) ≡ ok p)
      × (unmarshal_cipher_mode m (quote s) ≡ ok m)
unfolding unmarshal_key_type unmarshal_key_status unmarshal_key_purpose unmarshal_cipher_mode
unmarshal_unknown s t st p m ht hs hp hm = (
  unmarshal_name-IsUnknown key_type_lookup t s ht,
  unmarshal_name-IsUnknown key_status_lookup st s hs,
  unmarshal_name-IsUnknown key_purpose_lookup p s hp,
  unmarshal_name-IsUnknown cipher_mode_lookup m s hm,
)
