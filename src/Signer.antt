-- ===== src/Signer.antt =====
-- keyczar.go, the keySigner type: plain, attached, timeout and unversioned signatures.
pub mod Clock
pub mod Soundness
pub mod Ready
pub mod RoundTrip
pub mod Verifying
use dkeyczar.Prelude.{
  ℕ, ◌-◌, Bytes, Bool, true, false, Result, ok, err, panic, ◌>>=◌, ◌>>◌, guard, Option, none, some,
  List, [], ◌∷◌, ◌++◌, ℤ, ltb_ℤ, to_int64, to_uint64, if◌then◌else◌, not, ltb, length, take, drop,
  short_signature, invalid_signature, map, ◌&&◌,
}
use dkeyczar.Crypto.{Crypto}
use dkeyczar.Json.{Json}
use dkeyczar.KeyInfo.{p_sign_and_verify, p_verify}
use dkeyczar.Header.{make_header, split_header, kz_version, kz_header_length}
use dkeyczar.Util.BigEndian.{put_uint32, uint32, to_uint32, put_uint64, uint64}
use dkeyczar.Keys.{KeyData, key_id, key_sign, key_verify, is_sign_key, is_verify_key}
use dkeyczar.KeySet.{
  KeyReader, KeyCzar, get_primary_key, get_key_for_id, load_for, load_with_primary,
}
use dkeyczar.Controllers.{Encoding, base64w, encode, decode}

-- `current_time` is what the function of that name returns; `none` is a nil function.
pub record KeySigner : Type 0 where
  pub kz : KeyCzar
  pub current_time : Option ℤ
  pub encoding : Encoding

-- key.(signVerifyKey) of the primary key; a nil key fails the assertion.
unfoldable pub signing_key : KeySigner → Result KeyData
signing_key ks = elim (get_primary_key ks.kz) [
  | none ↦ panic
  | some k ↦ if is_sign_key k then ok k else panic
]

-- The loops over the keys: `valid, _ := verifyKey.Verify(…)`, until one is valid.
abbrev pub valid : Result Bool → Result Bool
valid (ok b) = ok b
valid (err e) = ok false
valid panic = panic

-- nonce nil and nonce empty give the same bytes.
unfoldable pub build_attached_signed_bytes : Bytes → Option Bytes → Bytes
build_attached_signed_bytes msg none = msg ++ (put_uint32 0 ++ kz_version ∷ [])
build_attached_signed_bytes msg (some nonce) =
    msg ++ (put_uint32 (to_uint32 (length nonce)) ++ (nonce ++ kz_version ∷ []))

abbrev pub timestamp_size : ℕ
timestamp_size = 8

unfoldable pub build_timeout_signed_bytes : Bytes → ℤ → Bytes
build_timeout_signed_bytes msg expiration =
    put_uint64 (to_uint64 expiration) ++ (msg ++ kz_version ∷ [])

-- ks.currentTime() panics on a nil function.
abbrev pub now_of : Option ℤ → Result ℤ
now_of none = panic
now_of (some t) = ok t

module _ (c : Crypto) where
  unfoldable pub verify_any : List KeyData → Bytes → Bytes → Result Bool
  verify_any [] msg sig = ok false
  verify_any (k ∷ ks) msg sig = elim (is_verify_key k) [
    | false ↦ panic
    | true ↦ elim (valid (key_verify c k msg sig)) [
      | ok true ↦ ok true
      | ok false ↦ verify_any ks msg sig
      | err e ↦ err e
      | panic ↦ panic
    ]
  ]

  unfoldable pub unversioned_sign : Bytes → KeySigner → Bytes → Result Bytes
  unfolding signing_key
  unversioned_sign rand ks msg = do
    key ← signing_key ks
    signature ← key_sign c rand key msg
    encode ks.encoding signature

  -- The code ranges over a map, in any order; here in the order of the association list.
  unfoldable pub unversioned_verify : KeySigner → Bytes → Bytes → Result Bool
  unfolding verify_any
  unversioned_verify ks msg signature = do
    b ← decode ks.encoding signature
    verify_any (map (λ (e : ℤ × KeyData). e.1) ks.kz.keys) msg b

  unfoldable pub sign : Bytes → KeySigner → Bytes → Result Bytes
  unfolding signing_key
  sign rand ks msg = do
    key ← signing_key ks
    signature ← key_sign c rand key (msg ++ kz_version ∷ [])
    encode ks.encoding (make_header (key_id c key) ++ signature)

  unfoldable pub verify : KeySigner → Bytes → Bytes → Result Bool
  unfolding verify_any
  verify ks msg signature = do
    (b, kl) ← split_header (get_key_for_id ks.kz) (decode ks.encoding) signature short_signature
    verify_any kl (msg ++ kz_version ∷ []) (drop kz_header_length b)

  unfoldable pub attached_sign : Bytes → KeySigner → Bytes → Option Bytes → Result Bytes
  unfolding signing_key build_attached_signed_bytes
  attached_sign rand ks msg nonce = do
    key ← signing_key ks
    signature ← key_sign c rand key (build_attached_signed_bytes msg nonce)
    encode ks.encoding
        (make_header (key_id c key) ++ (put_uint32 (to_uint32 (length msg)) ++ (msg ++ signature)))

  unfoldable pub attached_verify : KeySigner → Bytes → Option Bytes → Result Bytes
  unfolding verify_any build_attached_signed_bytes
  attached_verify ks signed_msg nonce = do
    (b, kl) ← split_header (get_key_for_id ks.kz) (decode ks.encoding) signed_msg short_signature
    let body = drop kz_header_length b
    guard (not (ltb (length body) 4)) short_signature
    msglen ← uint32 body
    let rest = drop 4 body
    guard (not (ltb (length rest) msglen)) short_signature
    let msg = take msglen rest
    accepted ← verify_any kl (build_attached_signed_bytes msg nonce) (drop msglen rest)
    guard accepted invalid_signature
    ok msg

  unfoldable pub timeout_sign : Bytes → KeySigner → Bytes → ℤ → Result Bytes
  unfolding signing_key build_timeout_signed_bytes
  timeout_sign rand ks msg expiration = do
    key ← signing_key ks
    signature ← key_sign c rand key (build_timeout_signed_bytes msg expiration)
    encode ks.encoding
        (make_header (key_id c key) ++ (put_uint64 (to_uint64 expiration) ++ signature))

  unfoldable pub timeout_verify : KeySigner → Bytes → Bytes → Result Bool
  unfolding verify_any build_timeout_signed_bytes
  timeout_verify ks message signature = do
    (b, kl) ← split_header (get_key_for_id ks.kz) (decode ks.encoding) signature short_signature
    let body = drop kz_header_length b
    guard (not (ltb (length body) timestamp_size)) short_signature
    stamp ← uint64 body
    let expiration = to_int64 stamp
    current_millis ← now_of ks.current_time
    accepted ←
        verify_any kl (build_timeout_signed_bytes message expiration) (drop timestamp_size body)
    ok (accepted && ltb_ℤ current_millis expiration)

-- NewVerifier, with the time of the call that it is used for.
module _ (c : Crypto) (j : Json) where
  unfoldable pub new_verifier : ℤ → KeyReader → Result KeySigner
  new_verifier now r = do
    kz ← load_for c j p_verify r
    ok (record { kz = kz; current_time = some now; encoding = base64w })

  -- NewVerifierTimeProvider, with what its clock returns; it may be nil.
  unfoldable pub new_verifier_time_provider : Option ℤ → KeyReader → Result KeySigner
  new_verifier_time_provider time r = do
    kz ← load_for c j p_verify r
    ok (record { kz = kz; current_time = time; encoding = base64w })

  -- NewSigner sets no clock.
  unfoldable pub new_signer : KeyReader → Result KeySigner
  new_signer r = do
    kz ← load_with_primary c j p_sign_and_verify r
    ok (record { kz = kz; current_time = none; encoding = base64w })
