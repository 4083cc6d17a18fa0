-- ===== src/Examples/Json.antt =====
-- A text form of the stored structs that satisfies the laws of Json.
use dkeyczar.Prelude.{ℕ, zero, suc, ◌≡◌, refl, Bool, true, false, ℤ, pos, negsuc, Bytes, List}
use dkeyczar.Json.{
  HmacKeyJson, AesKeyJson, RsaPublicKeyJson, RsaKeyJson, DsaPublicKeyJson, DsaKeyJson,
  SessionMaterialJson, PbeKeyJson, Json, JsonLaws,
}
use dkeyczar.KeyInfo.{
  KeyType, t_aes, t_hmac_sha1, t_dsa_priv, t_dsa_pub, t_rsa_priv, t_rsa_pub, KeyStatus, s_primary,
  s_active, s_inactive, KeyPurpose, p_decrypt_and_encrypt, p_encrypt, p_sign_and_verify, p_verify,
  p_test, CipherMode, cm_cbc, cm_ctr, cm_ecb, cm_det_cbc, KeyVersion, KeyMeta,
}
use dkeyczar.Examples.Texts.{Text, number, bytes, both, convert, list, codec, codec_lem}

abbrev pub type_number : KeyType → ℕ
type_number t_aes = 0
type_number t_hmac_sha1 = 1
type_number t_dsa_priv = 2
type_number t_dsa_pub = 3
type_number t_rsa_priv = 4
type_number t_rsa_pub = 5

abbrev pub number_type : ℕ → KeyType
number_type zero = t_aes
number_type (suc zero) = t_hmac_sha1
number_type (suc (suc zero)) = t_dsa_priv
number_type (suc (suc (suc zero))) = t_dsa_pub
number_type (suc (suc (suc (suc zero)))) = t_rsa_priv
number_type _ = t_rsa_pub

pub number_type-type_number : (t : KeyType) → number_type (type_number t) ≡ t
number_type-type_number t_aes = refl
number_type-type_number t_hmac_sha1 = refl
number_type-type_number t_dsa_priv = refl
number_type-type_number t_dsa_pub = refl
number_type-type_number t_rsa_priv = refl
number_type-type_number t_rsa_pub = refl

abbrev pub status_number : KeyStatus → ℕ
status_number s_primary = 0
status_number s_active = 1
status_number s_inactive = 2

abbrev pub number_status : ℕ → KeyStatus
number_status zero = s_primary
number_status (suc zero) = s_active
number_status _ = s_inactive

pub number_status-status_number : (s : KeyStatus) → number_status (status_number s) ≡ s
number_status-status_number s_primary = refl
number_status-status_number s_active = refl
number_status-status_number s_inactive = refl

abbrev pub purpose_number : KeyPurpose → ℕ
purpose_number p_decrypt_and_encrypt = 0
purpose_number p_encrypt = 1
purpose_number p_sign_and_verify = 2
purpose_number p_verify = 3
purpose_number p_test = 4

abbrev pub number_purpose : ℕ → KeyPurpose
number_purpose zero = p_decrypt_and_encrypt
number_purpose (suc zero) = p_encrypt
number_purpose (suc (suc zero)) = p_sign_and_verify
number_purpose (suc (suc (suc zero))) = p_verify
number_purpose _ = p_test

pub number_purpose-purpose_number : (p : KeyPurpose) → number_purpose (purpose_number p) ≡ p
number_purpose-purpose_number p_decrypt_and_encrypt = refl
number_purpose-purpose_number p_encrypt = refl
number_purpose-purpose_number p_sign_and_verify = refl
number_purpose-purpose_number p_verify = refl
number_purpose-purpose_number p_test = refl

abbrev pub mode_number : CipherMode → ℕ
mode_number cm_cbc = 0
mode_number cm_ctr = 1
mode_number cm_ecb = 2
mode_number cm_det_cbc = 3

abbrev pub number_mode : ℕ → CipherMode
number_mode zero = cm_cbc
number_mode (suc zero) = cm_ctr
number_mode (suc (suc zero)) = cm_ecb
number_mode _ = cm_det_cbc

pub number_mode-mode_number : (m : CipherMode) → number_mode (mode_number m) ≡ m
number_mode-mode_number cm_cbc = refl
number_mode-mode_number cm_ctr = refl
number_mode-mode_number cm_ecb = refl
number_mode-mode_number cm_det_cbc = refl

abbrev pub bool_number : Bool → ℕ
bool_number false = 0
bool_number true = 1

abbrev pub number_bool : ℕ → Bool
number_bool zero = false
number_bool _ = true

pub number_bool-bool_number : (b : Bool) → number_bool (bool_number b) ≡ b
number_bool-bool_number false = refl
number_bool-bool_number true = refl

abbrev pub sign_of : ℤ → ℕ × ℕ
sign_of (pos n) = (0, n)
sign_of (negsuc n) = (1, n)

abbrev pub signed : ℕ × ℕ → ℤ
signed (zero, n) = pos n
signed (_, n) = negsuc n

pub signed-sign_of : (z : ℤ) → signed (sign_of z) ≡ z
signed-sign_of (pos n) = refl
signed-sign_of (negsuc n) = refl

abbrev pub bool_text : Text Bool
bool_text = convert number_bool bool_number number_bool-bool_number number

abbrev pub version_text : Text KeyVersion
version_text =
    convert
      (λ (p : ℤ × (KeyStatus × Bool)). record {
        version_number = p.0;
        status = p.1.0;
        exportable = p.1.1;
      })
      (λ (v : KeyVersion). (v.version_number, (v.status, v.exportable))) (λ v. refl)
      (both (convert signed sign_of signed-sign_of (both number number))
        (both (convert number_status status_number number_status-status_number number) bool_text))

abbrev pub meta_text : Text KeyMeta
meta_text =
    convert
      (λ (p : Bytes × (KeyType × (KeyPurpose × (Bool × List KeyVersion)))). record {
        name = p.0;
        type = p.1.0;
        purpose = p.1.1.0;
        encrypted = p.1.1.1.0;
        versions = p.1.1.1.1;
      })
      (λ (m : KeyMeta). (m.name, (m.type, (m.purpose, (m.encrypted, m.versions))))) (λ m. refl)
      (both bytes (
        both (convert number_type type_number number_type-type_number number) (
          both (convert number_purpose purpose_number number_purpose-purpose_number number)
            (both bool_text (list version_text)))))

abbrev pub hmac_text : Text HmacKeyJson
hmac_text =
    convert (λ (p : Bytes × ℕ). record { hmac_key_string = p.0; size = p.1 })
      (λ (k : HmacKeyJson). (k.hmac_key_string, k.size)) (λ k. refl) (both bytes number)

abbrev pub aes_text : Text AesKeyJson
aes_text =
    convert
      (λ (p : Bytes × (ℕ × (HmacKeyJson × CipherMode))). record {
        aes_key_string = p.0;
        size = p.1.0;
        hmac_key = p.1.1.0;
        mode = p.1.1.1;
      })
      (λ (k : AesKeyJson). (k.aes_key_string, (k.size, (k.hmac_key, k.mode)))) (λ k. refl)
      (both bytes (
        both number
          (both hmac_text (convert number_mode mode_number number_mode-mode_number number))))

abbrev pub rsa_public_text : Text RsaPublicKeyJson
rsa_public_text =
    convert
      (λ (p : Bytes × (Bytes × ℕ)). record { modulus = p.0; public_exponent = p.1.0; size = p.1.1 })
      (λ (k : RsaPublicKeyJson). (k.modulus, (k.public_exponent, k.size))) (λ k. refl)
      (both bytes (both bytes number))

abbrev pub rsa_text : Text RsaKeyJson
rsa_text =
    convert
      (λ (p : Bytes × (Bytes × (Bytes × (Bytes × (Bytes × (Bytes × (RsaPublicKeyJson × ℕ))))))).
        record {
          crt_coefficient = p.0;
          prime_exponent_p = p.1.0;
          prime_exponent_q = p.1.1.0;
          prime_p = p.1.1.1.0;
          prime_q = p.1.1.1.1.0;
          private_exponent = p.1.1.1.1.1.0;
          public_key = p.1.1.1.1.1.1.0;
          size = p.1.1.1.1.1.1.1;
        })
      (λ (k : RsaKeyJson). (
        k.crt_coefficient,
        (
          k.prime_exponent_p,
          (
            k.prime_exponent_q,
            (k.prime_p, (k.prime_q, (k.private_exponent, (k.public_key, k.size)))),
          ),
        ),
      ))
      (λ k. refl)
      (both bytes (
        both bytes
          (both bytes (both bytes (both bytes (both bytes (both rsa_public_text number)))))))

abbrev pub dsa_public_text : Text DsaPublicKeyJson
dsa_public_text =
    convert
      (λ (p : Bytes × (Bytes × (Bytes × (Bytes × ℕ)))). record {
        q = p.0;
        p = p.1.0;
        y = p.1.1.0;
        g = p.1.1.1.0;
        size = p.1.1.1.1;
      })
      (λ (k : DsaPublicKeyJson). (k.q, (k.p, (k.y, (k.g, k.size))))) (λ k. refl)
      (both bytes (both bytes (both bytes (both bytes number))))

abbrev pub dsa_text : Text DsaKeyJson
dsa_text =
    convert
      (λ (p : DsaPublicKeyJson × (ℕ × Bytes)). record { public_key = p.0; size = p.1.0; x = p.1.1 })
      (λ (k : DsaKeyJson). (k.public_key, (k.size, k.x))) (λ k. refl)
      (both dsa_public_text (both number bytes))

abbrev pub session_text : Text SessionMaterialJson
session_text =
    convert (λ (p : AesKeyJson × Bytes). record { key = p.0; nonce = p.1 })
      (λ (m : SessionMaterialJson). (m.key, m.nonce)) (λ m. refl) (both aes_text bytes)

abbrev pub pbe_text : Text PbeKeyJson
pbe_text =
    convert
      (λ (p : Bytes × (Bytes × (ℤ × (Bytes × (Bytes × Bytes))))). record {
        cipher = p.0;
        hmac = p.1.0;
        iteration_count = p.1.1.0;
        iv = p.1.1.1.0;
        key = p.1.1.1.1.0;
        salt = p.1.1.1.1.1;
      })
      (λ (k : PbeKeyJson). (k.cipher, (k.hmac, (k.iteration_count, (k.iv, (k.key, k.salt))))))
      (λ k. refl)
      (both bytes (
        both bytes (
          both (convert signed sign_of signed-sign_of (both number number))
            (both bytes (both bytes bytes)))))

abbrev pub texts : Json
texts = record {
  meta = codec meta_text;
  hmac = codec hmac_text;
  aes = codec aes_text;
  rsa_public = codec rsa_public_text;
  rsa = codec rsa_text;
  dsa_public = codec dsa_public_text;
  dsa = codec dsa_text;
  session = codec session_text;
  pbe = codec pbe_text;
}

pub texts_laws : JsonLaws texts
texts_laws = record {
  meta_lem = λ m h. codec_lem meta_text m;
  hmac_lem = λ k h. codec_lem hmac_text k;
  aes_lem = λ k h. codec_lem aes_text k;
  rsa_public_lem = λ k h. codec_lem rsa_public_text k;
  rsa_lem = λ k h. codec_lem rsa_text k;
  dsa_public_lem = λ k h. codec_lem dsa_public_text k;
  dsa_lem = λ k h. codec_lem dsa_text k;
  session_lem = λ m h. codec_lem session_text m;
  pbe_lem = λ k h. codec_lem pbe_text k;
}
