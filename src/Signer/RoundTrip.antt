-- ===== src/Signer/RoundTrip.antt =====
-- keyczar.go: what a signer signs, a verifier over the same keys accepts.
use dkeyczar.Prelude.{
  ◌<◌, ◌^◌, ◌≡◌, refl, sym, ap, ◌∙◌, Bytes, true, false, ok, ◌>>=◌, >>=-cong, >>=_assoc, [], ◌∷◌,
  ◌++◌, Option, some, ℤ, ltb_ℤ, to_uint64, to_int64-to_uint64, to_uint64-lt, IsInt64, arith, All,
  IsByte, All-append, length, length-append, take-append, drop-append, ltb,
}
use dkeyczar.Crypto.{Crypto, CryptoLaws}
use dkeyczar.Json.{Json}
use dkeyczar.KeyInfo.{p_sign_and_verify}
use dkeyczar.Header.{make_header, kz_version}
use dkeyczar.Header.Split.{drop-make_header}
use dkeyczar.Util.BigEndian.{
  put_uint32, uint32, to_uint32, put_uint64, uint32-put_uint32, put_uint32-IsByte,
  length-put_uint32, uint64-put_uint64, put_uint64-IsByte, length-put_uint64,
}
use dkeyczar.Controllers.{encode}
use dkeyczar.Keys.{KeyData, key_id, key_sign, is_sign_key}
use dkeyczar.KeySet.{KeyReader, get_primary_key, load_with_primary}
use dkeyczar.Signer.{
  KeySigner, build_attached_signed_bytes, build_timeout_signed_bytes, sign, verify, attached_sign,
  attached_verify, timeout_sign, timeout_verify,
}
use dkeyczar.Signer.Ready.{Matches, key_sign-IsByte, IsReady, loaded-IsReady, opened, accepted}

module _ (c : Crypto) (laws : CryptoLaws c) (ks : KeySigner) (k : KeyData) (ready : IsReady c ks k)
    (matches : Matches c k) where
  verify-sign_ready :
      (rand msg : Bytes)
      → (sign c rand ks msg >>= verify c ks msg)
        ≡ (key_sign c rand k (msg ++ kz_version ∷ []) >>= λ _. ok true)
  unfolding sign verify
  verify-sign_ready rand msg = rw ready.is_key (
      >>=_assoc (key_sign c rand k (msg ++ kz_version ∷ [])) _ (verify c ks msg)
      ∙ >>=-cong (key_sign c rand k (msg ++ kz_version ∷ [])) _ _ checked)
    where
      checked :
          (sig : Bytes)
          → key_sign c rand k (msg ++ kz_version ∷ []) ≡ ok sig
          → (encode ks.encoding (make_header (key_id c k) ++ sig) >>= verify c ks msg) ≡ ok true
      checked sig signed =
          let (text, written, split) =
            opened c laws ks k ready matches sig (key_sign-IsByte c laws k rand _ sig signed) in
          rw (written, verify, split, drop-make_header (key_id c k) sig ready.id.0)
            (accepted c laws ks k ready matches rand _ sig signed)

  attached_verify-attached_sign_ready :
      (rand msg : Bytes) (nonce : Option Bytes)
      → All IsByte msg
      → length msg < 2 ^ 32
      → (attached_sign c rand ks msg nonce >>= λ text. attached_verify c ks text nonce)
        ≡ (key_sign c rand k (build_attached_signed_bytes msg nonce) >>= λ _. ok msg)
  unfolding attached_sign attached_verify
  attached_verify-attached_sign_ready rand msg nonce bytes short = rw ready.is_key (
      >>=_assoc (key_sign c rand k signed) _ (λ text. attached_verify c ks text nonce)
      ∙ >>=-cong (key_sign c rand k signed) _ _ checked)
    where
      signed : Bytes
      signed = build_attached_signed_bytes msg nonce

      size : Bytes
      size = put_uint32 (to_uint32 (length msg))

      body_bytes : (sig : Bytes) → All IsByte sig → All IsByte (size ++ (msg ++ sig))
      body_bytes sig h =
          All-append IsByte size (msg ++ sig) (put_uint32-IsByte _)
            (All-append IsByte msg sig bytes h)

      long_enough : (sig : Bytes) → ltb (length (size ++ (msg ++ sig))) 4 ≡ false
      long_enough sig =
          ground
            (arith, length-append size (msg ++ sig), length-put_uint32 (to_uint32 (length msg)))

      fits : (sig : Bytes) → ltb (length (msg ++ sig)) (length msg) ≡ false
      fits sig = ground (arith, length-append msg sig)

      read : (sig : Bytes) → uint32 (size ++ (msg ++ sig)) ≡ ok (length msg)
      read sig =
          rw (uint32-put_uint32 (to_uint32 (length msg)) (msg ++ sig) (omega arith))
            (ap ok (omega arith))

      checked :
          (sig : Bytes)
          → key_sign c rand k signed ≡ ok sig
          → (encode ks.encoding (make_header (key_id c k) ++ (size ++ (msg ++ sig))) >>= λ text.
              attached_verify c ks text nonce)
            ≡ ok msg
      checked sig made =
          let (text, written, split) =
            opened c laws ks k ready matches (size ++ (msg ++ sig))
              (body_bytes sig (key_sign-IsByte c laws k rand _ sig made)) in
          rw
            (
              written,
              attached_verify,
              split,
              drop-make_header (key_id c k) (size ++ (msg ++ sig)) ready.id.0,
              long_enough sig,
              read sig,
              drop-append 4 size (msg ++ sig) (sym (length-put_uint32 (to_uint32 (length msg)))),
              fits sig,
              take-append (length msg) msg sig refl,
              drop-append (length msg) msg sig refl,
              accepted c laws ks k ready matches rand signed sig made,
            )
            refl

  timeout_verify-timeout_sign_ready :
      (rand msg : Bytes) (expiration now : ℤ)
      → IsInt64 expiration
      → (timeout_sign c rand ks msg expiration
          >>= timeout_verify c (record ks { current_time = some now }) msg)
        ≡ (key_sign c rand k (build_timeout_signed_bytes msg expiration) >>= λ _.
            ok (ltb_ℤ now expiration))
  unfolding timeout_sign timeout_verify
  timeout_verify-timeout_sign_ready rand msg expiration now fits = rw ready.is_key (
      >>=_assoc (key_sign c rand k signed) _ (timeout_verify c verifier msg)
      ∙ >>=-cong (key_sign c rand k signed) _ _ checked)
    where
      verifier : KeySigner
      verifier = record ks { current_time = some now }

      signed : Bytes
      signed = build_timeout_signed_bytes msg expiration

      stamp : Bytes
      stamp = put_uint64 (to_uint64 expiration)

      long_enough : (sig : Bytes) → ltb (length (stamp ++ sig)) 8 ≡ false
      long_enough sig =
          ground (arith, length-append stamp sig, length-put_uint64 (to_uint64 expiration))

      checked :
          (sig : Bytes)
          → key_sign c rand k signed ≡ ok sig
          → (encode ks.encoding (make_header (key_id c k) ++ (stamp ++ sig))
              >>= timeout_verify c verifier msg)
            ≡ ok (ltb_ℤ now expiration)
      checked sig made =
          let (text, written, split) = opened c laws ks k ready matches (stamp ++ sig) (
            All-append IsByte stamp sig (put_uint64-IsByte _)
              (key_sign-IsByte c laws k rand _ sig made)) in
          rw
            (
              written,
              timeout_verify,
              split,
              drop-make_header (key_id c k) (stamp ++ sig) ready.id.0,
              long_enough sig,
              uint64-put_uint64 (to_uint64 expiration) sig (to_uint64-lt expiration),
              to_int64-to_uint64 expiration fits,
              drop-append 8 stamp sig (sym (length-put_uint64 (to_uint64 expiration))),
              accepted c laws ks k ready matches rand signed sig made,
            )
            refl

-- Over a key set loaded for signing, whose primary key can sign and accepts its own signatures,
-- Sign and then Verify of the same message say true whenever the key makes the signature; else
-- they return the key's own error. The encoding is any.
pub verify-sign :
    (c : Crypto) (j : Json) (r : KeyReader) (ks : KeySigner) (k : KeyData) (rand msg : Bytes)
    → CryptoLaws c
    → load_with_primary c j p_sign_and_verify r ≡ ok ks.kz
    → get_primary_key ks.kz ≡ some k
    → is_sign_key k ≡ true
    → Matches c k
    → (sign c rand ks msg >>= verify c ks msg)
      ≡ (key_sign c rand k (msg ++ kz_version ∷ []) >>= λ _. ok true)
verify-sign c j r ks k rand msg laws loaded primary signs matches =
    verify-sign_ready c laws ks k (loaded-IsReady c laws j r ks k loaded primary signs) matches rand
      msg

-- Over a key set loaded for signing, whose primary key can sign and accepts its own signatures,
-- AttachedSign and then AttachedVerify under the same nonce return the message, for every message
-- whose length fits a uint32, whenever the primary key makes the signature.
pub attached_verify-attached_sign :
    (c : Crypto) (j : Json) (r : KeyReader) (ks : KeySigner) (k : KeyData) (rand msg : Bytes)
    (nonce : Option Bytes)
    → CryptoLaws c
    → load_with_primary c j p_sign_and_verify r ≡ ok ks.kz
    → get_primary_key ks.kz ≡ some k
    → is_sign_key k ≡ true
    → Matches c k
    → All IsByte msg
    → length msg < 2 ^ 32
    → (attached_sign c rand ks msg nonce >>= λ text. attached_verify c ks text nonce)
      ≡ (key_sign c rand k (build_attached_signed_bytes msg nonce) >>= λ _. ok msg)
attached_verify-attached_sign c j r ks k rand msg nonce laws loaded primary signs matches bytes
      short =
    attached_verify-attached_sign_ready c laws ks k
      (loaded-IsReady c laws j r ks k loaded primary signs) matches rand msg nonce bytes short

-- Over a key set loaded for signing, whose primary key can sign and accepts its own signatures,
-- TimeoutSign and then TimeoutVerify by a verifier whose clock shows `now` say whether `now` is
-- before the expiration, for every int64 expiration, negative ones included, whenever the primary
-- key makes the signature.
pub timeout_verify-timeout_sign :
    (c : Crypto) (j : Json) (r : KeyReader) (ks : KeySigner) (k : KeyData) (rand msg : Bytes)
    (expiration now : ℤ)
    → CryptoLaws c
    → load_with_primary c j p_sign_and_verify r ≡ ok ks.kz
    → get_primary_key ks.kz ≡ some k
    → is_sign_key k ≡ true
    → Matches c k
    → IsInt64 expiration
    → (timeout_sign c rand ks msg expiration
        >>= timeout_verify c (record ks { current_time = some now }) msg)
      ≡ (key_sign c rand k (build_timeout_signed_bytes msg expiration) >>= λ _.
          ok (ltb_ℤ now expiration))
timeout_verify-timeout_sign c j r ks k rand msg expiration now laws loaded primary signs matches
      fits =
    timeout_verify-timeout_sign_ready c laws ks k
      (loaded-IsReady c laws j r ks k loaded primary signs) matches rand msg expiration now fits
