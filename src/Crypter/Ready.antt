-- ===== src/Crypter/Ready.antt =====
-- keyczar.go: what a crypter over a loaded AES key set has at hand.
use dkeyczar.Prelude.{
  ◌≡◌, refl, sym, ap, ◌∙◌, Bytes, true, Result, ok, err, Error, ok-injective, some, List, [], ◌∷◌,
  ◌++◌, append_assoc, ◌⊎◌, inl, inr, All, IsByte, All-append, length,
}
use mathlib.Core.Path.{subst}
use dkeyczar.Crypto.{Crypto, CryptoLaws, IsCipherKey}
use dkeyczar.Json.{Json}
use dkeyczar.KeyInfo.{KeyType, t_aes, p_decrypt_and_encrypt}
use dkeyczar.Header.{make_header}
use dkeyczar.Util.Padding.{pkcs5pad}
use dkeyczar.Keys.{
  KeyData, aes, hmac, dsa_priv, dsa_pub, rsa_priv, rsa_pub, key_id, key_decrypt, is_encrypt_key,
  is_decrypt_key,
}
use dkeyczar.Keys.Aes.{AesKey, block_size, aes_key_id, aes_encrypt}
use dkeyczar.Keys.Aes.Crypt.{signed, aes_encrypt_lem, aes_decrypt-encrypt}
use dkeyczar.Keys.Kinds.{IsFresh, IsId, type_of, key_id-IsId}
use dkeyczar.KeySet.{KeyReader, KeyCzar, get_primary_key, get_key_for_id, load_with_primary}
use dkeyczar.KeySet.Index.{All-Occurs}
use dkeyczar.KeySet.Loaded.{HasPrimary, load_with_primary-HasPrimary}
use dkeyczar.Controllers.{Compression, compress, decompress}
use dkeyczar.Controllers.RoundTrip.{compress-IsByte, decompress-compress}
use dkeyczar.Crypter.{encrypting_key, decrypt_any}

-- Every key of the list either decrypts the ciphertext to the plaintext or refuses it with an
-- error: no key of the same identifier takes the tag of another key for its own.
abbrev pub Separates : Crypto → List KeyData → Bytes → Bytes → Type 0
Separates c kl b plaintext =
    All (λ k. (key_decrypt c k b ≡ ok plaintext) ⊎ ((e : Error) × (key_decrypt c k b ≡ err e))) kl

abbrev pub AllDecrypt : List KeyData → Type 0
AllDecrypt = All (λ k. is_decrypt_key k ≡ true)

aes-decrypts : (k : KeyData) → type_of k ≡ t_aes → is_decrypt_key k ≡ true
unfolding type_of is_decrypt_key
aes-decrypts (aes k) e = refl
aes-decrypts (hmac k) e = cc
aes-decrypts (dsa_priv k) e = cc
aes-decrypts (dsa_pub k) e = cc
aes-decrypts (rsa_priv k) e = refl
aes-decrypts (rsa_pub k) e = cc

kinds-AllDecrypt :
    (t : KeyType) (ks : List KeyData) → t ≡ t_aes → All (IsFresh t) ks → AllDecrypt ks
kinds-AllDecrypt t [] e all = tt
kinds-AllDecrypt t (k ∷ ks) e (here, all) =
    (aes-decrypts k (here.0 ∙ e), kinds-AllDecrypt t ks e all)

-- The loop finds the plaintext if some key decrypts and the keys are separated.
decrypt_any-found :
    (c : Crypto) (refused : Result Bytes) (m : Compression) (k : KeyData)
    (before after : List KeyData) (b plaintext : Bytes)
    → AllDecrypt (before ++ k ∷ after)
    → Separates c (before ++ k ∷ after) b plaintext
    → key_decrypt c k b ≡ ok plaintext
    → decrypt_any c refused m (before ++ k ∷ after) b ≡ decompress c m plaintext
unfolding decrypt_any
decrypt_any-found c refused m k [] after b plaintext (can, all) sep e =
    rw (decrypt_any, can, e) refl
decrypt_any-found c refused m k (x ∷ before) after b plaintext (can, all) (inl e', sep) e =
    rw (decrypt_any, can, e') refl
decrypt_any-found c refused m k (x ∷ before) after b plaintext (can, all) (inr (f, e'), sep) e =
    rw (decrypt_any, can, e') (decrypt_any-found c refused m k before after b plaintext all sep e)

-- A loaded key set whose primary key is the AES key `k`.
module _ (c : Crypto) (laws : CryptoLaws c) (j : Json) (r : KeyReader) (kz : KeyCzar) (k : AesKey)
    (loaded : load_with_primary c j p_decrypt_and_encrypt r ≡ ok kz)
    (primary : get_primary_key kz ≡ some (aes k)) (cipher : IsCipherKey k.key) where
  has : HasPrimary c kz
  has = load_with_primary-HasPrimary c j p_decrypt_and_encrypt r kz loaded

  is_k : has.key ≡ aes k
  is_k = cc (sym has.is_key ∙ primary)

  fresh : IsFresh kz.keymeta.type (aes k)
  fresh =
      subst (IsFresh kz.keymeta.type) is_k
        (All-Occurs (IsFresh kz.keymeta.type) has.key has.kl has.occurs has.kinds)

  pub k-IsId : IsId (aes_key_id c k)
  unfolding key_id
  k-IsId = key_id-IsId c laws (aes k) fresh.1

  found_k : get_key_for_id kz (aes_key_id c k) ≡ ok has.kl
  unfolding key_id
  found_k = rw is_k at has.found

  all_decrypt : AllDecrypt has.kl
  unfolding type_of
  all_decrypt = kinds-AllDecrypt kz.keymeta.type has.kl (sym fresh.0) has.kinds

  pub encrypting : encrypting_key kz ≡ ok (aes k)
  unfolding encrypting_key is_encrypt_key
  encrypting = rw (encrypting_key, primary) refl

  -- The loop over the keys of the identifier decompresses what was encrypted.
  pub decrypted_as :
      (refused : Result Bytes) (m : Compression) (iv packed b : Bytes) (kl : List KeyData)
      → length iv ≡ 16
      → All IsByte packed
      → get_key_for_id kz (aes_key_id c k) ≡ ok kl
      → aes_encrypt c iv k packed ≡ ok b
      → Separates c kl b packed
      → decrypt_any c refused m kl b ≡ decompress c m packed
  unfolding key_decrypt
  decrypted_as refused m iv packed b kl h16 bytes found made sep =
      let (before, after, split) = has.occurs in
      let same : kl ≡ before ++ aes k ∷ after =
        ok-injective (sym found ∙ found_k) ∙ split ∙ ap (λ x. before ++ x ∷ after) is_k in
      rw same (
        decrypt_any-found c refused m (aes k) before after b packed
          (subst AllDecrypt (ok-injective (sym found_k ∙ found) ∙ same) all_decrypt)
          (subst (λ l. Separates c l b packed) same sep)
          (rw made at (aes_decrypt-encrypt c k iv packed laws cipher h16 bytes)))

  pub decrypted :
      (refused : Result Bytes) (m : Compression) (iv plaintext b : Bytes) (kl : List KeyData)
      → length iv ≡ 16
      → All IsByte plaintext
      → get_key_for_id kz (aes_key_id c k) ≡ ok kl
      → aes_encrypt c iv k (compress c m plaintext) ≡ ok b
      → Separates c kl b (compress c m plaintext)
      → decrypt_any c refused m kl b ≡ ok plaintext
  decrypted refused m iv plaintext b kl h16 bytes found made sep =
      decrypted_as refused m iv (compress c m plaintext) b kl h16
        (compress-IsByte c laws m plaintext bytes) found made sep
      ∙ decompress-compress c m plaintext laws bytes

  -- A ciphertext is the header and what stands behind it.
  abbrev pub body : Bytes → Bytes → Bytes
  body iv padded =
      (iv ++ c.cbc_encrypt k.key iv padded)
      ++ c.hmac_sha1 k.hmac.key (signed c laws k cipher iv padded)

  pub layout :
      (iv plaintext b : Bytes)
      → aes_encrypt c iv k plaintext ≡ ok b
      → b ≡ make_header (aes_key_id c k) ++ body iv (pkcs5pad plaintext block_size)
  layout iv plaintext b made =
      sym (ok-injective (sym (aes_encrypt_lem c laws k cipher iv plaintext) ∙ made))
      ∙ append_assoc (make_header (aes_key_id c k)) _ _

  pub body-IsByte : (iv padded : Bytes) → All IsByte iv → All IsByte (body iv padded)
  body-IsByte iv padded h =
      All-append IsByte (iv ++ c.cbc_encrypt k.key iv padded) _
        (All-append IsByte iv _ h (laws.cbc_encrypt-IsByte k.key iv padded))
        (laws.hmac-IsByte k.hmac.key _)
