-- ===== src/Signer/Ready.antt =====
-- keyczar.go: what a signer over a loaded key set has at hand.
use dkeyczar.Prelude.{
  bytes_eq_refl, ◌≡◌, refl, sym, ap, ◌∙◌, Bytes, true, ok, >>=-eq-ok, ok-injective, List, ◌++◌,
  some, All, IsByte, All-append, short_signature,
}
use mathlib.Core.Path.{subst}
use dkeyczar.Crypto.{Crypto, CryptoLaws}
use dkeyczar.Json.{Json}
use dkeyczar.KeyInfo.{p_sign_and_verify}
use dkeyczar.Header.{make_header, split_header}
use dkeyczar.Header.Split.{split_header-make_header, make_header-IsByte, make_header_lem}
use dkeyczar.Controllers.{encode, decode}
use dkeyczar.Controllers.RoundTrip.{decode-encode}
use dkeyczar.Keys.{
  KeyData, aes, hmac, dsa_priv, dsa_pub, rsa_priv, rsa_pub, key_id, key_sign, key_verify,
  is_sign_key,
}
use dkeyczar.Keys.Hmac.{HmacKey, hmac_sign, hmac_verify}
use dkeyczar.Keys.Rsa.{rsa_key_sign}
use dkeyczar.Keys.Dsa.{dsa_key_sign}
use dkeyczar.Keys.Kinds.{IsFresh, IsId, key_id-IsId}
use dkeyczar.KeySet.{KeyReader, get_primary_key, get_key_for_id, load_with_primary}
use dkeyczar.KeySet.Loaded.{HasPrimary, load_with_primary-HasPrimary}
use dkeyczar.KeySet.Index.{Occurs, All-Occurs}
use dkeyczar.Signer.{KeySigner, signing_key, verify_any}
use dkeyczar.Signer.Verifying.{
  accepts, AllVerify, verify_any-any_accepts, any_accepts-Occurs, kinds-AllVerify, sign-ne-aes,
}

-- The key accepts every signature that it makes: what crypto/rsa and crypto/dsa promise of a key
-- pair whose halves belong together.
abbrev pub Matches : Crypto → KeyData → Type 0
Matches c k = (rand msg sig : Bytes) → key_sign c rand k msg ≡ ok sig → accepts c k msg sig ≡ true

-- An HMAC key accepts its own signatures, whatever the hash.
pub hmac-Matches : (c : Crypto) (k : HmacKey) → Matches c (hmac k)
unfolding key_sign key_verify hmac_sign hmac_verify
hmac-Matches c k rand msg sig e = rw (← ok-injective e, bytes_eq_refl (c.hmac_sha1 k.key msg)) refl

pub key_sign-IsByte :
    (c : Crypto) (laws : CryptoLaws c) (k : KeyData) (rand msg sig : Bytes)
    → key_sign c rand k msg ≡ ok sig
    → All IsByte sig
unfolding key_sign hmac_sign rsa_key_sign dsa_key_sign
key_sign-IsByte c laws (aes k) rand msg sig e = cc
key_sign-IsByte c laws (hmac k) rand msg sig e = rw (← ok-injective e) (laws.hmac-IsByte k.key msg)
key_sign-IsByte c laws (dsa_priv k) rand msg sig e =
    let (rs, signed, e₁) = >>=-eq-ok (c.dsa_sign rand k.key (c.sha1 msg)) _ e in
    laws.asn1_marshal-IsByte rs sig e₁
key_sign-IsByte c laws (dsa_pub k) rand msg sig e = cc
key_sign-IsByte c laws (rsa_priv k) rand msg sig e = laws.rsa_sign-IsByte rand k.key _ sig e
key_sign-IsByte c laws (rsa_pub k) rand msg sig e = cc

-- What a signer has for its primary key: the keys under its identifier, which can all verify, the
-- key itself among them.
pub record IsReady (c : Crypto) (ks : KeySigner) (k : KeyData) : Type 0 where
  pub is_key : signing_key ks ≡ ok k
  pub id : IsId (key_id c k)
  pub kl : List KeyData
  pub found : get_key_for_id ks.kz (key_id c k) ≡ ok kl
  pub occurs : Occurs k kl
  pub all_verify : AllVerify kl

-- A key set that was loaded for signing makes a signer ready, if its primary key can sign.
pub loaded-IsReady :
    (c : Crypto) (laws : CryptoLaws c) (j : Json) (r : KeyReader) (ks : KeySigner) (k : KeyData)
    → load_with_primary c j p_sign_and_verify r ≡ ok ks.kz
    → get_primary_key ks.kz ≡ some k
    → is_sign_key k ≡ true
    → IsReady c ks k
unfolding signing_key
loaded-IsReady c laws j r ks k loaded primary signs = subst (IsReady c ks) same (record {
  is_key = rw (has.is_key, signing_key, signs') refl;
  id = key_id-IsId c laws has.key fresh.1;
  kl = has.kl;
  found = has.found;
  occurs = has.occurs;
  all_verify =
      kinds-AllVerify ks.kz.keymeta.type has.kl (λ e. sign-ne-aes has.key signs' (fresh.0 ∙ e))
        has.kinds;
})
  where
    has : HasPrimary c ks.kz
    has = load_with_primary-HasPrimary c j p_sign_and_verify r ks.kz loaded

    same : has.key ≡ k
    same = cc (sym has.is_key ∙ primary)

    signs' : is_sign_key has.key ≡ true
    signs' = rw same signs

    fresh : IsFresh ks.kz.keymeta.type has.key
    fresh = All-Occurs (IsFresh ks.kz.keymeta.type) has.key has.kl has.occurs has.kinds

module _ (c : Crypto) (laws : CryptoLaws c) (ks : KeySigner) (k : KeyData) (ready : IsReady c ks k)
    (matches : Matches c k) where
  -- What is encoded behind the header is found again, with the keys of the identifier.
  pub opened :
      (rest : Bytes)
      → All IsByte rest
      → (text : Bytes) × (encode ks.encoding (make_header (key_id c k) ++ rest) ≡ ok text)
        × (split_header (get_key_for_id ks.kz) (decode ks.encoding) text short_signature
            ≡ ok (make_header (key_id c k) ++ rest, ready.kl))
  opened rest bytes =
      let (text, written, read) =
        decode-encode ks.encoding (make_header (key_id c k) ++ rest)
          (rw (make_header_lem (key_id c k) ready.id.0) (λ e. cc))
          (All-append IsByte _ rest (make_header-IsByte (key_id c k) ready.id.0 ready.id.1)
            bytes) in
      (
        text,
        written,
        split_header-make_header (get_key_for_id ks.kz) (decode ks.encoding) text (key_id c k) rest
            ready.kl short_signature ready.id.0 read ready.found,
      )

  -- Among those keys is one that accepts what the primary key signed.
  pub accepted :
      (rand msg sig : Bytes)
      → key_sign c rand k msg ≡ ok sig
      → verify_any c ready.kl msg sig ≡ ok true
  accepted rand msg sig signed =
      verify_any-any_accepts c laws ready.kl msg sig ready.all_verify
      ∙ ap ok (any_accepts-Occurs c k ready.kl msg sig ready.occurs (matches rand msg sig signed))
