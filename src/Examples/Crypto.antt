-- ===== src/Examples/Crypto.antt =====
-- A small crypto library that satisfies the laws of Crypto: digests that depend on lengths alone,
-- and a cipher that adds one to every byte.
use dkeyczar.Prelude.{
  ℕ, suc, ◌+◌, ◌%◌, ◌≡◌, refl, sym, ap, true, [], ◌∷◌, Bytes, Result, ok, err, foreign, All,
  All-replicate, length-replicate, IsByte, length, replicate, take, ◌++◌, arith,
}
use dkeyczar.Crypto.{Crypto, CryptoLaws}

abbrev digest : ℕ → Bytes
digest n = replicate 20 (n % 256)

digest-IsByte : (n : ℕ) → All IsByte (digest n)
digest-IsByte n = All-replicate IsByte 20 (n % 256) (omega arith)

abbrev shift : ℕ → Bytes → Bytes
shift n [] = []
shift n (b ∷ bs) = (b + n) % 256 ∷ shift n bs

length-shift : (n : ℕ) (b : Bytes) → length (shift n b) ≡ length b
length-shift n [] = refl
length-shift n (x ∷ b) = ap suc (length-shift n b)

take-shift : (a b : Bytes) → take (length a) (shift 1 (a ++ b)) ≡ shift 1 a
take-shift [] b = refl
take-shift (x ∷ a) b = ap (◌∷◌ ((x + 1) % 256)) (take-shift a b)

shift-IsByte : (n : ℕ) (b : Bytes) → All IsByte (shift n b)
shift-IsByte n [] = tt
shift-IsByte n (x ∷ b) = (omega arith, shift-IsByte n b)

shift_back : (b : Bytes) → All IsByte b → shift 255 (shift 1 b) ≡ b
shift_back [] h = refl
shift_back (x ∷ b) (hx, h) = rw (shift_back b h) (ap (λ y. y ∷ b) (omega arith))

abbrev unmark : Bytes → Result Bytes
unmark [] = err (foreign 0)
unmark (x ∷ b) = ok b

abbrev pub tools : Crypto
tools = record {
  sha1 = λ m. digest (length m);
  hmac_sha1 = λ k m. digest (length k + length m);
  cbc_encrypt = λ k iv b. shift 1 b;
  cbc_decrypt = λ k iv b. shift 255 b;
  rsa_sign = λ rand k d. ok (shift 0 d);
  rsa_verify = λ k d s. true;
  rsa_encrypt = λ rand k m. ok (shift 1 m);
  rsa_decrypt = λ k s. ok (shift 255 s);
  dsa_sign = λ rand k d. ok (1, 2);
  dsa_verify = λ k d r s. true;
  asn1_marshal = λ rs. ok (1 ∷ 2 ∷ []);
  asn1_unmarshal = λ s. ok (1, 2);
  pbkdf2 = λ password salt iterations n. replicate n (length password % 256);
  gzip = λ b. 31 ∷ b;
  gunzip = unmark;
  zlib = λ b. 120 ∷ b;
  unzlib = unmark;
}

pub tools_laws : CryptoLaws tools
tools_laws = record {
  length-sha1 = λ m. refl;
  sha1-IsByte = λ m. digest-IsByte (length m);
  length-hmac = λ k m. refl;
  hmac-IsByte = λ k m. digest-IsByte (length k + length m);
  length-cbc_encrypt = λ k iv b h. length-shift 1 b;
  take-cbc_encrypt = λ k iv a b h h'. take-shift a b;
  cbc_encrypt-IsByte = λ k iv b. shift-IsByte 1 b;
  cbc_decrypt-encrypt = λ k iv b hk hiv hb bytes. shift_back b bytes;
  length-pbkdf2 = λ password salt iterations n. length-replicate n (length password % 256);
  gunzip-gzip = λ b h. refl;
  gzip-IsByte = λ b h. (omega arith, h);
  unzlib-zlib = λ b h. refl;
  zlib-IsByte = λ b h. (omega arith, h);
  rsa_sign-IsByte = λ rand k d s e. rw (sym (made d s e)) (shift-IsByte 0 d);
  rsa_encrypt-IsByte = λ rand k m s e. rw (sym (encrypted m s e)) (shift-IsByte 1 m);
  asn1_marshal-IsByte = λ rs s e. rw (sym (written s e)) (omega arith, (omega arith, tt));
  asn1_unmarshal-ne-panic = λ s. λ e. cc;
}
  where
    made : (d s : Bytes) → ok (shift 0 d) ≡ ok s → shift 0 d ≡ s
    made d s e = cc

    encrypted : (m s : Bytes) → ok (shift 1 m) ≡ ok s → shift 1 m ≡ s
    encrypted m s e = cc

    written : (s : Bytes) → ok (1 ∷ 2 ∷ []) ≡ ok s → (1 ∷ 2 ∷ []) ≡ s
    written s e = cc
