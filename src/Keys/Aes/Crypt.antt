-- ===== src/Keys/Aes/Crypt.antt =====
-- aes_key.go: what Encrypt writes Decrypt reads, and Decrypt accepts nothing without its HMAC.
use dkeyczar.Prelude.{
  ℕ, ◌+◌, ◌-◌, ◌%◌, ◌<◌, ◌≤◌, ◌≡◌, ◌≢◌, refl, sym, ap, ◌∙◌, ◌++◌, append_assoc, Bytes, true, false,
  ok, err, ◌>>=◌, length, All, IsByte, arith, inl, inr, ltb, take, drop, length-append, length-take,
  length-replicate, take-append, drop-append, take-append-drop, bytes_eq, bytes_eq_refl,
  bytes_eq→eq, Bool-cases, invalid_signature, All-append, All-replicate,
}
use dkeyczar.Crypto.{Crypto, CryptoLaws, IsCipherKey}
use dkeyczar.Header.{make_header}
use dkeyczar.Util.Padding.{pkcs5pad, pkcs5unpad, pkcs5pad_shape, pkcs5unpad-pkcs5pad}
use dkeyczar.Keys.Hmac.{hmac_sign, hmac_verify}
use dkeyczar.Keys.Aes.{AesKey, block_size, new_cipher, aes_key_id, aes_encrypt, aes_decrypt}

pub length-make_header : (id : Bytes) → length (make_header id) ≡ 5
unfolding make_header
length-make_header id = rw (length-append, length-take, length-replicate) (omega arith)

pub pkcs5pad-IsByte : (b : Bytes) (blocksize : ℕ) → All IsByte b → All IsByte (pkcs5pad b blocksize)
unfolding pkcs5pad
pkcs5pad-IsByte b blocksize h = All-append IsByte b _ h (All-replicate IsByte _ _ (omega arith))

pub new_cipher_ok : (key : Bytes) → IsCipherKey key → new_cipher key ≡ ok tt
new_cipher_ok key (inl e) = rw e refl
new_cipher_ok key (inr (inl e)) = rw e refl
new_cipher_ok key (inr (inr e)) = rw e refl

-- The layout of a ciphertext: header, vector, blocks and tag.
module _ (c : Crypto) (laws : CryptoLaws c) (k : AesKey) (cipher : IsCipherKey k.key) where
  -- The message under the tag.
  abbrev pub signed : Bytes → Bytes → Bytes
  signed iv padded = make_header (aes_key_id c k) ++ (iv ++ c.cbc_encrypt k.key iv padded)

  pub aes_encrypt_lem :
      (iv plaintext : Bytes)
      → aes_encrypt c iv k plaintext
        ≡ ok (
            signed iv (pkcs5pad plaintext block_size)
            ++ c.hmac_sha1 k.hmac.key (signed iv (pkcs5pad plaintext block_size)))
  unfolding aes_encrypt hmac_sign
  aes_encrypt_lem iv plaintext =
      rw (new_cipher_ok k.key cipher) (rw ((pkcs5pad_shape plaintext 16 (omega arith)).0) refl)

  -- Decrypt on any input of that layout whose tag is right.
  aes_decrypt_lem :
      (head iv blocks : Bytes)
      → length head ≡ 5
      → length iv ≡ 16
      → length blocks % 16 ≡ 0
      → aes_decrypt c k
          ((head ++ (iv ++ blocks)) ++ c.hmac_sha1 k.hmac.key (head ++ (iv ++ blocks)))
        ≡ pkcs5unpad (c.cbc_decrypt k.key iv blocks)
  unfolding aes_decrypt hmac_verify
  aes_decrypt_lem head iv blocks h5 h16 whole =
      rw
        (
          long_enough,
          at_tag,
          take-append _ msg tag refl,
          drop-append _ msg tag refl,
          bytes_eq_refl tag,
          vector,
          new_cipher_ok k.key cipher,
          body,
        )
        (rw whole refl)
    where
      msg : Bytes
      msg = head ++ (iv ++ blocks)

      tag : Bytes
      tag = c.hmac_sha1 k.hmac.key msg

      at_tag : length (msg ++ tag) - 20 ≡ length msg
      at_tag = rw length-append (omega (arith, laws.length-hmac k.hmac.key msg))

      long_enough : ltb (length (msg ++ tag)) 41 ≡ false
      long_enough = ground (
        arith,
        length-append msg tag,
        length-append head (iv ++ blocks),
        length-append iv blocks,
        laws.length-hmac k.hmac.key msg,
      )

      vector : take 16 (drop 5 (msg ++ tag)) ≡ iv
      vector =
          rw (append_assoc, append_assoc, drop-append 5 head (iv ++ (blocks ++ tag)) (sym h5))
            (take-append 16 iv (blocks ++ tag) (sym h16))

      body : drop 21 msg ≡ blocks
      body =
          rw (← append_assoc) (drop-append 21 (head ++ iv) blocks (rw length-append (omega arith)))

-- For every key of a cipher size, vector of 16 bytes and plaintext of bytes, Decrypt gives back what Encrypt was given.
pub aes_decrypt-encrypt :
    (c : Crypto) (k : AesKey) (iv plaintext : Bytes)
    → CryptoLaws c
    → IsCipherKey k.key
    → length iv ≡ 16
    → All IsByte plaintext
    → (aes_encrypt c iv k plaintext >>= aes_decrypt c k) ≡ ok plaintext
aes_decrypt-encrypt c k iv plaintext laws cipher h16 bytes =
    rw
      (
        aes_encrypt_lem c laws k cipher iv plaintext,
        aes_decrypt_lem c laws k cipher (make_header (aes_key_id c k)) iv _
            (length-make_header (aes_key_id c k)) h16 whole,
        laws.cbc_decrypt-encrypt k.key iv _ cipher h16 shape.0 (pkcs5pad-IsByte plaintext 16 bytes),
      )
      (pkcs5unpad-pkcs5pad plaintext 16 (omega arith) (omega arith))
  where
    shape :
        (length (pkcs5pad plaintext 16) % 16 ≡ 0)
        × (length plaintext < length (pkcs5pad plaintext 16))
        × (length (pkcs5pad plaintext 16) ≤ length plaintext + 16)
    shape = pkcs5pad_shape plaintext 16 (omega arith)

    whole : length (c.cbc_encrypt k.key iv (pkcs5pad plaintext 16)) % 16 ≡ 0
    whole = rw (laws.length-cbc_encrypt k.key iv (pkcs5pad plaintext 16) shape.0) shape.0

-- Decrypt succeeds only on a message of at least 21 bytes followed by its HMAC under the key's own
-- HMAC key.
pub aes_decrypt_authentic :
    (c : Crypto) (k : AesKey) (ciphertext plaintext : Bytes)
    → aes_decrypt c k ciphertext ≡ ok plaintext
    → (msg : Bytes) × (ciphertext ≡ msg ++ c.hmac_sha1 k.hmac.key msg) × (21 ≤ length msg)
unfolding aes_decrypt hmac_verify
aes_decrypt_authentic c k ciphertext plaintext e = (
  msg,
  sym (take-append-drop cut ciphertext) ∙ ap (◌++◌ msg) (sym (bytes_eq→eq _ _ accepted)),
  rw length-take (ground (arith, long_enough)),
)
  where
    cut : ℕ
    cut = length ciphertext - 20

    msg : Bytes
    msg = take cut ciphertext

    accepted : bytes_eq (c.hmac_sha1 k.hmac.key msg) (drop cut ciphertext) ≡ true
    accepted = ground arith

    long_enough : ltb (length ciphertext) 41 ≡ false
    long_enough = ground arith

-- A message of at least 21 bytes with a tag of 20 bytes that is not its HMAC is refused with
-- ErrInvalidSignature.
pub aes_decrypt_forged :
    (c : Crypto) (k : AesKey) (msg tag : Bytes)
    → 21 ≤ length msg
    → length tag ≡ 20
    → tag ≢ c.hmac_sha1 k.hmac.key msg
    → aes_decrypt c k (msg ++ tag) ≡ err invalid_signature
unfolding aes_decrypt hmac_verify
aes_decrypt_forged c k msg tag long h20 ne =
    rw (long_enough, at_tag, take-append _ msg tag refl, drop-append _ msg tag refl, refused) refl
  where
    at_tag : length (msg ++ tag) - 20 ≡ length msg
    at_tag = rw length-append (omega arith)

    long_enough : ltb (length (msg ++ tag)) 41 ≡ false
    long_enough = ground (arith, length-append msg tag)

    refused : bytes_eq (c.hmac_sha1 k.hmac.key msg) tag ≡ false
    refused = elim (Bool-cases (bytes_eq (c.hmac_sha1 k.hmac.key msg) tag)) [
      | inl e ↦ absurd (ne (sym (bytes_eq→eq _ _ e)))
      | inr e ↦ e
    ]

-- For a key of a cipher size and a vector of 16 bytes, Encrypt returns at least 42 and at most 57 bytes
-- more than it is given, and whole blocks behind the 41 bytes of header, vector and tag.
pub aes_encrypt-bounds :
    (c : Crypto) (k : AesKey) (iv plaintext : Bytes)
    → CryptoLaws c
    → IsCipherKey k.key
    → length iv ≡ 16
    → (b : Bytes) × (aes_encrypt c iv k plaintext ≡ ok b)
      × (length plaintext + 42 ≤ length b)
      × (length b ≤ length plaintext + 57)
      × ((length b - 41) % block_size ≡ 0)
aes_encrypt-bounds c k iv plaintext laws cipher h16 =
    let padded = pkcs5pad plaintext block_size in
    let (whole, longer, within) = pkcs5pad_shape plaintext 16 (omega arith) in
    let total : length (
          signed c laws k cipher iv padded
          ++ c.hmac_sha1 k.hmac.key (signed c laws k cipher iv padded))
        ≡ length padded + 41 =
      rw
        (
          length-append,
          laws.length-hmac,
          length-append,
          length-make_header,
          length-append,
          h16,
          laws.length-cbc_encrypt k.key iv padded whole,
        )
        (omega arith) in
    (
      _,
      aes_encrypt_lem c laws k cipher iv plaintext,
      omega (arith, total, longer),
      omega (arith, total, within),
      rw total (omega (arith, whole)),
    )
