-- ===== src/Examples/Runs.antt =====
-- The theorems about keys and signatures, applied to concrete keys and messages.
use dkeyczar.Prelude.{
  panic, ℕ, to_int64, to_uint64, bytes_eq, ◌≡◌, refl, true, false, List, [], ◌∷◌, ◌++◌, Bytes, ok,
  ◌>>=◌, ℤ, pos, negsuc, replicate, take, drop, length, codes, none, some, arith, ltb, ltb_ℤ,
  lookup_key, int_eq,
}
use dkeyczar.Header.{kz_version, split_header}
use dkeyczar.Keys.{KeyData, key_sign, key_verify, is_sign_key, is_verify_key}
use dkeyczar.Keys.Hmac.{fresh, hmac_verify}
use dkeyczar.Signer.{
  new_signer, KeySigner, sign, verify, attached_sign, attached_verify, timeout_sign, timeout_verify,
  build_attached_signed_bytes, build_timeout_signed_bytes,
}
use dkeyczar.Signer.Ready.{hmac-Matches}
use dkeyczar.Signer.RoundTrip.{
  verify-sign, attached_verify-attached_sign, timeout_verify-timeout_sign,
}
use dkeyczar.Signer.Verifying.{accepts}
use dkeyczar.KeySet.{get_key_for_id, bucket}
use dkeyczar.KeySet.Index.{Occurs}
use dkeyczar.Util.BigEndian.{put_uint32, uint32, put_uint64, uint64}
use dkeyczar.Controllers.{base64w, decode, no_encoding}
use dkeyczar.Signer.Clock.{timeout_verify-new_signer}
use dkeyczar.Signer.Soundness.{Arrives, verify_sound, attached_verify_sound, timeout_verify_sound}
use dkeyczar.Examples.Json.{texts}
use dkeyczar.Examples.Crypto.{tools, tools_laws}
use dkeyczar.Examples.KeySets.{
  loaded_set, key_bytes, first_key, stored, signer, signer_primary, loaded_set_lem,
}

abbrev hello : Bytes
hello = codes "hello"

first_key_signs : is_sign_key first_key ≡ true
unfolding is_sign_key
first_key_signs = refl

verify-sign_example :
    (sign tools [] signer hello >>= verify tools signer hello)
    ≡ (key_sign tools [] first_key (hello ++ kz_version ∷ []) >>= λ _. ok true)
verify-sign_example =
    verify-sign tools texts stored signer first_key [] hello tools_laws loaded_set_lem
      signer_primary first_key_signs (hmac-Matches tools (fresh key_bytes))

attached_verify-attached_sign_example :
    (attached_sign tools [] signer hello (some (7 ∷ [])) >>= λ text.
    attached_verify tools signer text (some (7 ∷ [])))
    ≡ (key_sign tools [] first_key (build_attached_signed_bytes hello (some (7 ∷ []))) >>= λ _.
        ok hello)
attached_verify-attached_sign_example =
    attached_verify-attached_sign tools texts stored signer first_key [] hello (some (7 ∷ []))
      tools_laws loaded_set_lem signer_primary first_key_signs
      (hmac-Matches tools (fresh key_bytes)) (ground arith) (omega arith)

timeout_verify-timeout_sign_example :
    (timeout_sign tools [] signer hello (negsuc 4)
      >>= timeout_verify tools (record signer { current_time = some (pos 3) }) hello)
    ≡ (key_sign tools [] first_key (build_timeout_signed_bytes hello (negsuc 4)) >>= λ _.
        ok (ltb_ℤ (pos 3) (negsuc 4)))
timeout_verify-timeout_sign_example =
    timeout_verify-timeout_sign tools texts stored signer first_key [] hello (negsuc 4) (pos 3)
      tools_laws loaded_set_lem signer_primary first_key_signs
      (hmac-Matches tools (fresh key_bytes)) (omega arith)

-- Signed texts as bytes: the header with the identifier of the key, and a signature of twenty
-- bytes.
abbrev raw_signer : KeySigner
raw_signer = record signer { encoding = no_encoding }

abbrev signed_hello : Bytes
signed_hello = 0 ∷ 32 ∷ 32 ∷ 32 ∷ 32 ∷ replicate 20 38

signed_hello_accepted : verify tools raw_signer hello signed_hello ≡ ok true
unfolding verify split_header decode get_key_for_id bucket lookup_key uint32 key_verify hmac_verify
    is_verify_key bytes_eq
signed_hello_accepted = refl

abbrev attached_hello : Bytes
attached_hello = 0 ∷ 32 ∷ 32 ∷ 32 ∷ 32 ∷ 0 ∷ 0 ∷ 0 ∷ 5 ∷ hello ++ replicate 20 42

attached_hello_accepted : attached_verify tools raw_signer attached_hello none ≡ ok hello
unfolding attached_verify split_header decode get_key_for_id bucket lookup_key uint32 put_uint32
    key_verify hmac_verify is_verify_key bytes_eq
attached_hello_accepted = refl

abbrev timed_hello : Bytes
timed_hello = 0 ∷ 32 ∷ 32 ∷ 32 ∷ 32 ∷ 0 ∷ 0 ∷ 0 ∷ 0 ∷ 0 ∷ 0 ∷ 7 ∷ 208 ∷ replicate 20 46

timed_hello_accepted : timeout_verify tools raw_signer hello timed_hello ≡ ok true
unfolding timeout_verify split_header decode get_key_for_id bucket lookup_key uint32 put_uint64
    uint64 to_int64 to_uint64 key_verify hmac_verify is_verify_key bytes_eq
timed_hello_accepted = refl

verify_sound_example :
    (kl : List KeyData) × (sig : Bytes) × (k : KeyData) × Arrives raw_signer signed_hello kl sig
    × Occurs k kl
    × (accepts tools k (hello ++ kz_version ∷ []) sig ≡ true)
verify_sound_example = verify_sound tools raw_signer hello signed_hello signed_hello_accepted

attached_verify_sound_example :
    (kl : List KeyData) × (body : Bytes) × (n : ℕ) × (k : KeyData) × Arrives raw_signer
      attached_hello kl body
    × (uint32 body ≡ ok n)
    × (hello ≡ take n (drop 4 body))
    × (ltb (length (drop 4 body)) n ≡ false)
    × Occurs k kl
    × (accepts tools k (build_attached_signed_bytes hello none) (drop n (drop 4 body)) ≡ true)
attached_verify_sound_example =
    attached_verify_sound tools raw_signer attached_hello hello none attached_hello_accepted

timeout_verify_sound_example :
    (kl : List KeyData) × (body : Bytes) × (stamp : ℕ) × (now : ℤ) × (k : KeyData) × Arrives
      raw_signer timed_hello kl body
    × (uint64 body ≡ ok stamp)
    × (raw_signer.current_time ≡ some now)
    × (ltb_ℤ now (to_int64 stamp) ≡ true)
    × Occurs k kl
    × (accepts tools k (build_timeout_signed_bytes hello (to_int64 stamp)) (drop 8 body) ≡ true)
timeout_verify_sound_example =
    timeout_verify_sound tools raw_signer hello timed_hello timed_hello_accepted

-- The signer that NewSigner makes has no clock.
abbrev clockless : KeySigner
clockless = record { kz = loaded_set; current_time = none; encoding = base64w }

clockless_lem : new_signer tools texts stored ≡ ok clockless
unfolding new_signer
clockless_lem = rw loaded_set_lem refl

timeout_verify-new_signer_example :
    (timeout_sign tools [] clockless hello (pos 9) >>= timeout_verify tools clockless hello)
    ≡ (key_sign tools [] first_key (build_timeout_signed_bytes hello (pos 9)) >>= λ _. panic)
timeout_verify-new_signer_example =
    timeout_verify-new_signer tools texts stored clockless first_key [] hello (pos 9) tools_laws
      clockless_lem signer_primary first_key_signs (hmac-Matches tools (fresh key_bytes))
