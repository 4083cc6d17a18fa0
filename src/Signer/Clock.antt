-- ===== src/Signer/Clock.antt =====
-- keyczar.go, NewSigner: the signer has no clock.
use dkeyczar.Prelude.{
  ◌≡◌, refl, sym, Bytes, true, false, ok, panic, ◌>>=◌, >>=-eq-ok, >>=-cong, >>=_assoc,
  ok-injective, ap, ◌∙◌, none, some, ◌++◌, ℤ, to_uint64, to_uint64-lt, arith, IsByte, All-append,
  length, length-append, ltb,
}
use dkeyczar.Crypto.{Crypto, CryptoLaws}
use dkeyczar.Json.{Json}
use dkeyczar.KeyInfo.{p_sign_and_verify}
use dkeyczar.Header.{make_header}
use dkeyczar.Header.Split.{drop-make_header}
use dkeyczar.Util.BigEndian.{put_uint64, uint64-put_uint64, put_uint64-IsByte, length-put_uint64}
use dkeyczar.Controllers.{encode}
use dkeyczar.Keys.{KeyData, key_id, key_sign, is_sign_key}
use dkeyczar.KeySet.{KeyReader, get_primary_key, load_with_primary}
use dkeyczar.Signer.{
  KeySigner, build_timeout_signed_bytes, timeout_sign, timeout_verify, new_signer,
}
use dkeyczar.Signer.Ready.{Matches, key_sign-IsByte, IsReady, loaded-IsReady, opened}

-- Without a clock nothing follows the reading of the expiration.
module _ (c : Crypto) (laws : CryptoLaws c) (ks : KeySigner) (k : KeyData) (ready : IsReady c ks k)
    (matches : Matches c k) (clockless : ks.current_time ≡ none) where
  timeout_verify-clockless :
      (rand msg : Bytes) (expiration : ℤ)
      → (timeout_sign c rand ks msg expiration >>= timeout_verify c ks msg)
        ≡ (key_sign c rand k (build_timeout_signed_bytes msg expiration) >>= λ _. panic)
  unfolding timeout_sign timeout_verify
  timeout_verify-clockless rand msg expiration = rw ready.is_key (
      >>=_assoc (key_sign c rand k signed) _ (timeout_verify c ks msg)
      ∙ >>=-cong (key_sign c rand k signed) _ _ checked)
    where
      signed : Bytes
      signed = build_timeout_signed_bytes msg expiration

      stamp : Bytes
      stamp = put_uint64 (to_uint64 expiration)

      long_enough : (sig : Bytes) → ltb (length (stamp ++ sig)) 8 ≡ false
      long_enough sig =
          ground (arith, length-append stamp sig, length-put_uint64 (to_uint64 expiration))

      checked :
          (sig : Bytes)
          → key_sign c rand k signed ≡ ok sig
          → (encode ks.encoding (make_header (key_id c k) ++ (stamp ++ sig))
              >>= timeout_verify c ks msg)
            ≡ panic
      checked sig made =
          let (text, written, split) = opened c laws ks k ready matches (stamp ++ sig) (
            All-append IsByte stamp sig (put_uint64-IsByte _)
              (key_sign-IsByte c laws k rand _ sig made)) in
          rw
            (
              written,
              timeout_verify,
              split,
              drop-make_header (key_id c k) (stamp ++ sig) ready.id.0,
              long_enough sig,
              uint64-put_uint64 (to_uint64 expiration) sig (to_uint64-lt expiration),
              clockless,
            )
            refl

-- A signer that NewSigner returns, whose primary key can sign and accepts its own signatures,
-- panics in TimeoutVerify on whatever its own TimeoutSign has made.
pub timeout_verify-new_signer :
    (c : Crypto) (j : Json) (r : KeyReader) (ks : KeySigner) (k : KeyData) (rand msg : Bytes)
    (expiration : ℤ)
    → CryptoLaws c
    → new_signer c j r ≡ ok ks
    → get_primary_key ks.kz ≡ some k
    → is_sign_key k ≡ true
    → Matches c k
    → (timeout_sign c rand ks msg expiration >>= timeout_verify c ks msg)
      ≡ (key_sign c rand k (build_timeout_signed_bytes msg expiration) >>= λ _. panic)
unfolding new_signer
timeout_verify-new_signer c j r ks k rand msg expiration laws made primary signs matches =
    let (kz, loaded, is_ks) = >>=-eq-ok (load_with_primary c j p_sign_and_verify r) _ made in
    let same = ok-injective is_ks in
    timeout_verify-clockless c laws ks k
      (loaded-IsReady c laws j r ks k (loaded ∙ ap (λ (s : KeySigner). ok s.kz) same) primary signs)
      matches (ap (λ (s : KeySigner). s.current_time) (sym same)) rand msg expiration
