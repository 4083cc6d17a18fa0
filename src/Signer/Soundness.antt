-- ===== src/Signer/Soundness.antt =====
-- keyczar.go: a signature is accepted only if some key of its identifier accepts it.
use dkeyczar.Prelude.{
  ℕ, ◌≡◌, refl, sym, ap, Bytes, Bool, true, false, Result, ok, err, panic, guard, >>=-eq-ok,
  ok-injective, List, [], ◌∷◌, ◌++◌, Option, none, some, ℤ, ltb_ℤ, to_int64, arith, take, drop,
  short_signature, Bool-cases, inl, inr, ltb, not, length,
}
use dkeyczar.Crypto.{Crypto}
use dkeyczar.Header.{split_header, kz_version}
use dkeyczar.Util.BigEndian.{uint32, uint64}
use dkeyczar.Controllers.{decode}
use dkeyczar.Keys.{KeyData, key_verify}
use dkeyczar.KeySet.{get_key_for_id}
use dkeyczar.KeySet.Index.{Occurs}
use dkeyczar.Signer.{
  KeySigner, valid, now_of, verify_any, build_attached_signed_bytes, build_timeout_signed_bytes,
  verify, attached_verify, timeout_verify,
}
use dkeyczar.Signer.Verifying.{accepts, accepts_result}

valid-true : (r : Result Bool) → valid r ≡ ok true → accepts_result r ≡ true
valid-true (ok b) e = ok-injective e
valid-true (err x) e = cc
valid-true panic e = cc

now_of-ok : (t : Option ℤ) (now : ℤ) → now_of t ≡ ok now → t ≡ some now
now_of-ok none now e = cc
now_of-ok (some t) now e = ap some (ok-injective e)

module _ (c : Crypto) where
  -- The loop says true only for a key of the list that accepts.
  pub verify_any_sound :
      (kl : List KeyData) (msg sig : Bytes)
      → verify_any c kl msg sig ≡ ok true
      → (k : KeyData) × Occurs k kl × (accepts c k msg sig ≡ true)
  unfolding verify_any
  verify_any_sound [] msg sig e = cc
  verify_any_sound (k ∷ ks) msg sig e = elim (Bool-cases (accepts c k msg sig)) [
    | inl here ↦ (k, ([], ks, refl), here)
    | inr next ↦
        let (x, (before, after, split), accepted) =
          verify_any_sound ks msg sig (ground (arith, valid-true (key_verify c k msg sig))) in
        (x, (k ∷ before, after, ap (◌∷◌ k) split), accepted)
  ]

-- A signed text as it arrives: it decodes to a header, whose identifier has the keys `kl`, with
-- `body` behind it.
pub record Arrives (ks : KeySigner) (text : Bytes) (kl : List KeyData) (body : Bytes) : Type 0 where
  pub bytes : Bytes
  pub split :
      split_header (get_key_for_id ks.kz) (decode ks.encoding) text short_signature ≡ ok (bytes, kl)
  pub behind : drop 5 bytes ≡ body

-- Verify says true only if a key under the identifier in the header accepts what follows the
-- header as a signature of the message and the version byte.
pub verify_sound :
    (c : Crypto) (ks : KeySigner) (msg text : Bytes)
    → verify c ks msg text ≡ ok true
    → (kl : List KeyData) × (sig : Bytes) × (k : KeyData) × Arrives ks text kl sig
      × Occurs k kl
      × (accepts c k (msg ++ kz_version ∷ []) sig ≡ true)
unfolding verify
verify_sound c ks msg text e =
    let ((b, kl), split, e₁) =
      >>=-eq-ok (split_header (get_key_for_id ks.kz) (decode ks.encoding) text short_signature) _
        e in
    let (k, occurs, accepted) = verify_any_sound c kl (msg ++ kz_version ∷ []) (drop 5 b) e₁ in
    (kl, drop 5 b, k, record { bytes = b; split = split; behind = refl }, occurs, accepted)

-- AttachedVerify returns a message only if the text carries that message behind its length, and a
-- key under the identifier accepts what follows as a signature of the message with the nonce.
pub attached_verify_sound :
    (c : Crypto) (ks : KeySigner) (text msg : Bytes) (nonce : Option Bytes)
    → attached_verify c ks text nonce ≡ ok msg
    → (kl : List KeyData) × (body : Bytes) × (n : ℕ) × (k : KeyData) × Arrives ks text kl body
      × (uint32 body ≡ ok n)
      × (msg ≡ take n (drop 4 body))
      × (ltb (length (drop 4 body)) n ≡ false)
      × Occurs k kl
      × (accepts c k (build_attached_signed_bytes msg nonce) (drop n (drop 4 body)) ≡ true)
unfolding attached_verify
attached_verify_sound c ks text msg nonce e =
    let ((b, kl), split, e₁) =
      >>=-eq-ok (split_header (get_key_for_id ks.kz) (decode ks.encoding) text short_signature) _
        e in
    let (_, long, e₂) = >>=-eq-ok (guard (not (ltb (length (drop 5 b)) 4)) short_signature) _ e₁ in
    let (n, read, e₃) = >>=-eq-ok (uint32 (drop 5 b)) _ e₂ in
    let (_, fits, e₄) =
      >>=-eq-ok (guard (not (ltb (length (drop 4 (drop 5 b))) n)) short_signature) _ e₃ in
    let (verdict, tried, e₅) =
      >>=-eq-ok
        (verify_any c kl (build_attached_signed_bytes (take n (drop 4 (drop 5 b))) nonce)
          (drop n (drop 4 (drop 5 b))))
        _ e₄ in
    let is_msg : take n (drop 4 (drop 5 b)) ≡ msg = ground arith in
    let (k, occurs, accepted) =
      verify_any_sound c kl (build_attached_signed_bytes msg nonce) (drop n (drop 4 (drop 5 b)))
        (rw (← is_msg) (ground arith)) in
    (
      kl,
      drop 5 b,
      n,
      k,
      record { bytes = b; split = split; behind = refl },
      read,
      sym is_msg,
      ground arith,
      occurs,
      accepted,
    )

-- TimeoutVerify says true only if a key under the identifier accepts the signature of the message
-- with the expiration that the text carries, and the clock is before that expiration.
pub timeout_verify_sound :
    (c : Crypto) (ks : KeySigner) (msg text : Bytes)
    → timeout_verify c ks msg text ≡ ok true
    → (kl : List KeyData) × (body : Bytes) × (stamp : ℕ) × (now : ℤ) × (k : KeyData) × Arrives ks
        text kl body
      × (uint64 body ≡ ok stamp)
      × (ks.current_time ≡ some now)
      × (ltb_ℤ now (to_int64 stamp) ≡ true)
      × Occurs k kl
      × (accepts c k (build_timeout_signed_bytes msg (to_int64 stamp)) (drop 8 body) ≡ true)
unfolding timeout_verify
timeout_verify_sound c ks msg text e =
    let ((b, kl), split, e₁) =
      >>=-eq-ok (split_header (get_key_for_id ks.kz) (decode ks.encoding) text short_signature) _
        e in
    let (_, long, e₂) = >>=-eq-ok (guard (not (ltb (length (drop 5 b)) 8)) short_signature) _ e₁ in
    let (stamp, read, e₃) = >>=-eq-ok (uint64 (drop 5 b)) _ e₂ in
    let (now, clock, e₄) = >>=-eq-ok (now_of ks.current_time) _ e₃ in
    let (verdict, tried, e₅) =
      >>=-eq-ok
        (verify_any c kl (build_timeout_signed_bytes msg (to_int64 stamp)) (drop 8 (drop 5 b))) _
        e₄ in
    let (k, occurs, accepted) =
      verify_any_sound c kl (build_timeout_signed_bytes msg (to_int64 stamp)) (drop 8 (drop 5 b))
        (ground arith) in
    (
      kl,
      drop 5 b,
      stamp,
      now,
      k,
      record { bytes = b; split = split; behind = refl },
      read,
      now_of-ok ks.current_time now clock,
      ground arith,
      occurs,
      accepted,
    )
