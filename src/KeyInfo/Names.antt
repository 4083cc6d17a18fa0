-- ===== src/KeyInfo/Names.antt =====
-- keyinfo.go: the texts of the enumerations in JSON, written and read.
use dkeyczar.Prelude.{
  List, [], ◌∷◌, ◌++◌, Option, none, some, Bytes, Result, ok, panic, codes, bytes_eq, if◌then◌else◌,
  ◌>>=◌,
}
use dkeyczar.KeyInfo.{
  KeyType, t_aes, t_hmac_sha1, t_dsa_priv, t_dsa_pub, t_rsa_priv, t_rsa_pub, KeyStatus, s_primary,
  s_active, s_inactive, KeyPurpose, p_decrypt_and_encrypt, p_encrypt, p_sign_and_verify, p_verify,
  p_test, CipherMode, cm_cbc, cm_ctr, cm_ecb, cm_det_cbc, key_type_info,
}

abbrev pub quote : Bytes → Bytes
quote s = b'"' ∷ (s ++ b'"' ∷ [])

-- `b[1:len(b)-1]`: it panics on fewer than two bytes.
abbrev pub but_last : Bytes → Bytes
but_last [] = []
but_last (x ∷ []) = []
but_last (x ∷ y ∷ r) = x ∷ but_last (y ∷ r)

unfoldable pub unquote : Bytes → Result Bytes
unquote [] = panic
unquote (x ∷ []) = panic
unquote (x ∷ y ∷ r) = ok (but_last (y ∷ r))

-- A Go map with text keys, as the list of its entries.
unfoldable pub lookup_name {ℓ} : {A : Type ℓ} → Bytes → List (Bytes × A) → Option A
unfolding bytes_eq
lookup_name s [] = none
lookup_name s ((k, v) ∷ m) = if bytes_eq k s then some v else lookup_name s m

-- `if ok { *k = v }; return nil`: an unknown text leaves the variable as it was.
abbrev pub get_or {ℓ} : {A : Type ℓ} → A → Option A → A
get_or old none = old
get_or old (some v) = v

unfoldable pub unmarshal_name {ℓ} : {A : Type ℓ} → List (Bytes × A) → A → Bytes → Result A
unfolding unquote lookup_name
unmarshal_name table old b = do s ← unquote b; ok (get_or old (lookup_name s table))

unfoldable pub key_type_string : KeyType → Bytes
unfolding key_type_info
key_type_string k = (key_type_info k).str

abbrev pub key_type_lookup : List (Bytes × KeyType)
key_type_lookup =
    (codes "AES", t_aes)
    ∷ (codes "HMAC_SHA1", t_hmac_sha1)
    ∷ (codes "DSA_PRIV", t_dsa_priv)
    ∷ (codes "DSA_PUB", t_dsa_pub)
    ∷ (codes "RSA_PRIV", t_rsa_priv)
    ∷ (codes "RSA_PUB", t_rsa_pub)
    ∷ []

unfoldable pub marshal_key_type : KeyType → Bytes
unfolding key_type_string
marshal_key_type k = quote (key_type_string k)

unfoldable pub unmarshal_key_type : KeyType → Bytes → Result KeyType
unfolding unmarshal_name
unmarshal_key_type = unmarshal_name key_type_lookup

unfoldable pub key_status_string : KeyStatus → Bytes
key_status_string s_primary = codes "PRIMARY"
key_status_string s_active = codes "ACTIVE"
key_status_string s_inactive = codes "INACTIVE"

abbrev pub key_status_lookup : List (Bytes × KeyStatus)
key_status_lookup =
    (codes "PRIMARY", s_primary) ∷ (codes "ACTIVE", s_active) ∷ (codes "INACTIVE", s_inactive) ∷ []

unfoldable pub marshal_key_status : KeyStatus → Bytes
marshal_key_status s_primary = quote (codes "PRIMARY")
marshal_key_status s_active = quote (codes "ACTIVE")
marshal_key_status s_inactive = quote (codes "INACTIVE")

unfoldable pub unmarshal_key_status : KeyStatus → Bytes → Result KeyStatus
unfolding unmarshal_name
unmarshal_key_status = unmarshal_name key_status_lookup

unfoldable pub key_purpose_string : KeyPurpose → Bytes
key_purpose_string p_decrypt_and_encrypt = codes "DECRYPT_AND_ENCRYPT"
key_purpose_string p_encrypt = codes "ENCRYPT"
key_purpose_string p_sign_and_verify = codes "SIGN_AND_VERIFY"
key_purpose_string p_verify = codes "VERIFY"
key_purpose_string p_test = codes "TEST"

abbrev pub key_purpose_lookup : List (Bytes × KeyPurpose)
key_purpose_lookup =
    (codes "DECRYPT_AND_ENCRYPT", p_decrypt_and_encrypt)
    ∷ (codes "ENCRYPT", p_encrypt)
    ∷ (codes "SIGN_AND_VERIFY", p_sign_and_verify)
    ∷ (codes "VERIFY", p_verify)
    ∷ (codes "TEST", p_test)
    ∷ []

unfoldable pub marshal_key_purpose : KeyPurpose → Bytes
marshal_key_purpose p_decrypt_and_encrypt = quote (codes "DECRYPT_AND_ENCRYPT")
marshal_key_purpose p_encrypt = quote (codes "ENCRYPT")
marshal_key_purpose p_sign_and_verify = quote (codes "SIGN_AND_VERIFY")
marshal_key_purpose p_verify = quote (codes "VERIFY")
marshal_key_purpose p_test = quote (codes "TEST")

unfoldable pub unmarshal_key_purpose : KeyPurpose → Bytes → Result KeyPurpose
unfolding unmarshal_name
unmarshal_key_purpose = unmarshal_name key_purpose_lookup

unfoldable pub cipher_mode_string : CipherMode → Bytes
cipher_mode_string cm_cbc = codes "CBC"
cipher_mode_string cm_ctr = codes "CTR"
cipher_mode_string cm_ecb = codes "ECB"
cipher_mode_string cm_det_cbc = codes "DET_CBC"

abbrev pub cipher_mode_lookup : List (Bytes × CipherMode)
cipher_mode_lookup =
    (codes "CBC", cm_cbc)
    ∷ (codes "CTR", cm_ctr)
    ∷ (codes "ECB", cm_ecb)
    ∷ (codes "DET_CBC", cm_det_cbc)
    ∷ []

unfoldable pub marshal_cipher_mode : CipherMode → Bytes
marshal_cipher_mode cm_cbc = quote (codes "CBC")
marshal_cipher_mode cm_ctr = quote (codes "CTR")
marshal_cipher_mode cm_ecb = quote (codes "ECB")
marshal_cipher_mode cm_det_cbc = quote (codes "DET_CBC")

unfoldable pub unmarshal_cipher_mode : CipherMode → Bytes → Result CipherMode
unfolding unmarshal_name
unmarshal_cipher_mode = unmarshal_name cipher_mode_lookup
