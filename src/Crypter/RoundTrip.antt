-- ===== src/Crypter/RoundTrip.antt =====
-- keyczar.go: what a crypter over an AES key set encrypts, it decrypts.
use dkeyczar.Prelude.{
  ◌≡◌, ◌≢◌, sym, ap, ◌∙◌, Bytes, true, Result, ok, err, panic, ◌>>=◌, >>=_assoc, >>=-cong, some,
  List, [], ◌++◌, All, IsByte, All-append, length, short_ciphertext, cannot_stream, ◌<◌, ◌^◌,
}
use dkeyczar.Crypto.{Crypto, CryptoLaws, IsCipherKey}
use dkeyczar.Json.{Json}
use dkeyczar.KeyInfo.{p_decrypt_and_encrypt, p_sign_and_verify}
use dkeyczar.Header.{make_header, split_header_bytes}
use dkeyczar.Header.Split.{
  split_header-make_header, split_header_bytes-make_header, make_header-IsByte, make_header_lem,
}
use dkeyczar.Util.Padding.{pkcs5pad}
use dkeyczar.Keys.{KeyData, aes, key_encrypt, key_sign, is_sign_key}
use dkeyczar.Keys.Aes.{AesKey, block_size, aes_key_id, aes_encrypt}
use dkeyczar.KeySet.{KeyReader, KeyCzar, get_primary_key, get_key_for_id, load_with_primary}
use dkeyczar.Controllers.{compress, decompress, encode, decode}
use dkeyczar.Controllers.RoundTrip.{
  decode-encode, decode_encoded, compress-IsByte, decompress-compress,
}
use dkeyczar.Signer.{attached_sign, attached_verify, build_attached_signed_bytes}
use dkeyczar.Signer.Ready.{Matches}
use dkeyczar.Signer.RoundTrip.{attached_verify-attached_sign}
use dkeyczar.Crypter.{
  KeyCrypter, SignedCrypter, decrypt_any, encrypt, decrypt, signed_encrypt, signed_decrypt,
}
use dkeyczar.Crypter.Ready.{
  Separates, encrypting, k-IsId, decrypted, decrypted_as, layout, body, body-IsByte,
}

make_header-ne-nil : (id rest : Bytes) → length id ≡ 4 → (make_header id ++ rest) ≢ []
make_header-ne-nil id rest four = rw (make_header_lem id four) (λ e. cc)

-- A ciphertext of the key is not empty and consists of bytes.
pub b_ready :
    (c : Crypto) (j : Json) (r : KeyReader) (kz : KeyCzar) (k : AesKey)
    → CryptoLaws c
    → load_with_primary c j p_decrypt_and_encrypt r ≡ ok kz
    → get_primary_key kz ≡ some (aes k)
    → IsCipherKey k.key
    → (iv packed b : Bytes) → All IsByte iv
    → aes_encrypt c iv k packed ≡ ok b
    → (b ≢ []) × All IsByte b
b_ready c j r kz k laws loaded primary cipher iv packed b iv_bytes made =
    let id = k-IsId c laws j r kz k loaded primary cipher in
    let rest = body c laws j r kz k loaded primary cipher iv (pkcs5pad packed block_size) in
    rw (layout c laws j r kz k loaded primary cipher iv packed b made) (
      make_header-ne-nil (aes_key_id c k) rest id.0,
      All-append IsByte _ rest (make_header-IsByte (aes_key_id c k) id.0 id.1)
          (body-IsByte c laws j r kz k loaded primary cipher iv _ iv_bytes),
    )

-- Decrypt of the text of a ciphertext that the primary key has made of `packed` decompresses it.
pub decrypt_sealed :
    (c : Crypto) (j : Json) (r : KeyReader) (kc : KeyCrypter) (k : AesKey)
    (iv packed b text : Bytes) (kl : List KeyData)
    → CryptoLaws c
    → load_with_primary c j p_decrypt_and_encrypt r ≡ ok kc.kz
    → get_primary_key kc.kz ≡ some (aes k)
    → IsCipherKey k.key
    → length iv ≡ 16
    → All IsByte iv
    → All IsByte packed
    → get_key_for_id kc.kz (aes_key_id c k) ≡ ok kl
    → aes_encrypt c iv k packed ≡ ok b
    → Separates c kl b packed
    → encode kc.encoding b ≡ ok text
    → decrypt c kc text ≡ decompress c kc.compression packed
unfolding decrypt
decrypt_sealed c j r kc k iv packed b text kl laws loaded primary cipher h16 iv_bytes bytes found
      made sep written =
    let id = k-IsId c laws j r kc.kz k loaded primary cipher in
    let ready = b_ready c j r kc.kz k laws loaded primary cipher iv packed b iv_bytes made in
    let is_b = layout c laws j r kc.kz k loaded primary cipher iv packed b made in
    let split =
      split_header-make_header (get_key_for_id kc.kz) (decode kc.encoding) text (aes_key_id c k)
        (body c laws j r kc.kz k loaded primary cipher iv (pkcs5pad packed block_size)) kl
        short_ciphertext id.0
        (decode_encoded kc.encoding b text ready.0 ready.1 written ∙ ap ok is_b) found in
    rw (decrypt, split, ← is_b)
      (decrypted_as c laws j r kc.kz k loaded primary cipher (err cannot_stream) kc.compression iv
        packed b kl h16 bytes found made sep)

-- Over a key set loaded for decrypting, whose primary key is an AES key, Encrypt and then Decrypt
-- return the plaintext, for a key of a cipher size and a vector of 16 bytes, under every encoding
-- and compression. The other keys that the key set
-- finds for the identifier of the primary key must refuse its ciphertext or decrypt it alike.
pub decrypt-encrypt :
    (c : Crypto) (j : Json) (r : KeyReader) (kc : KeyCrypter) (k : AesKey) (iv plaintext b : Bytes)
    (kl : List KeyData)
    → CryptoLaws c
    → load_with_primary c j p_decrypt_and_encrypt r ≡ ok kc.kz
    → get_primary_key kc.kz ≡ some (aes k)
    → IsCipherKey k.key
    → length iv ≡ 16
    → All IsByte iv
    → All IsByte plaintext
    → get_key_for_id kc.kz (aes_key_id c k) ≡ ok kl
    → aes_encrypt c iv k (compress c kc.compression plaintext) ≡ ok b
    → Separates c kl b (compress c kc.compression plaintext)
    → (encrypt c iv kc plaintext >>= decrypt c kc) ≡ ok plaintext
unfolding encrypt key_encrypt
decrypt-encrypt c j r kc k iv plaintext b kl laws loaded primary cipher h16 iv_bytes bytes found
      made sep =
    let ready = b_ready c j r kc.kz k laws loaded primary cipher iv _ b iv_bytes made in
    let (text, written, _) = decode-encode kc.encoding b ready.0 ready.1 in
    rw (encrypting c laws j r kc.kz k loaded primary cipher, encrypt, made, written)
      (decrypt_sealed c j r kc k iv _ b text kl laws loaded primary cipher h16 iv_bytes
          (compress-IsByte c laws kc.compression plaintext bytes) found made sep written
        ∙ decompress-compress c kc.compression plaintext laws bytes)

-- What a signed crypter encrypts and signs, a signed decrypter verifies and decrypts, under the same
-- nonce: over a key set loaded for decrypting, whose primary key is an AES key of a cipher size, and
-- a signer over a key set loaded for signing, whose primary key can sign, accepts its own signatures
-- and makes this one, for a ciphertext whose length fits a uint32. The other keys with the
-- identifier of the AES key must refuse the ciphertext or decrypt it alike.
pub signed_decrypt-signed_encrypt :
    (c : Crypto) (j : Json) (r r' : KeyReader) (kc : SignedCrypter) (k : AesKey) (s : KeyData)
    (iv rand plaintext b : Bytes) (kl : List KeyData)
    → CryptoLaws c
    → load_with_primary c j p_decrypt_and_encrypt r ≡ ok kc.kz
    → get_primary_key kc.kz ≡ some (aes k)
    → IsCipherKey k.key
    → length iv ≡ 16
    → All IsByte iv
    → All IsByte plaintext
    → get_key_for_id kc.kz (aes_key_id c k) ≡ ok kl
    → aes_encrypt c iv k (compress c kc.compression plaintext) ≡ ok b
    → Separates c kl b (compress c kc.compression plaintext)
    → load_with_primary c j p_sign_and_verify r' ≡ ok kc.signer.kz
    → get_primary_key kc.signer.kz ≡ some s
    → is_sign_key s ≡ true
    → Matches c s
    → length b < 2 ^ 32
    → (signed_encrypt c iv rand kc plaintext >>= signed_decrypt c kc)
      ≡ (key_sign c rand s (build_attached_signed_bytes b kc.nonce) >>= λ _. ok plaintext)
unfolding signed_encrypt signed_decrypt key_encrypt
signed_decrypt-signed_encrypt c j r r' kc k s iv rand plaintext b kl laws loaded primary cipher h16
      iv_bytes bytes found made sep loaded' primary' signs matches short =
    let id = k-IsId c laws j r kc.kz k loaded primary cipher in
    let rest =
      body c laws j r kc.kz k loaded primary cipher iv
        (pkcs5pad (compress c kc.compression plaintext) block_size) in
    let is_b =
      layout c laws j r kc.kz k loaded primary cipher iv (compress c kc.compression plaintext) b
        made in
    let b_bytes : All IsByte b = rw is_b (
      All-append IsByte _ rest (make_header-IsByte (aes_key_id c k) id.0 id.1)
        (body-IsByte c laws j r kc.kz k loaded primary cipher iv _ iv_bytes)) in
    let split : split_header_bytes (get_key_for_id kc.kz) b short_ciphertext ≡ ok (b, kl) =
      rw is_b (
        split_header_bytes-make_header (get_key_for_id kc.kz) (aes_key_id c k) rest kl
          short_ciphertext id.0 found) in
    let opened =
      attached_verify-attached_sign c j r' kc.signer s rand b kc.nonce laws loaded' primary' signs
        matches b_bytes short in
    rw (encrypting c laws j r kc.kz k loaded primary cipher, signed_encrypt, made)
      (sym (
          >>=_assoc (attached_sign c rand kc.signer b kc.nonce)
            (λ text. attached_verify c kc.signer text kc.nonce) rest_of)
        ∙ ap (λ (m : Result Bytes). m >>= rest_of) opened
        ∙ >>=_assoc (key_sign c rand s (build_attached_signed_bytes b kc.nonce)) (λ _. ok b) rest_of
        ∙ >>=-cong (key_sign c rand s (build_attached_signed_bytes b kc.nonce)) (λ _. rest_of b)
            (λ _. ok plaintext)
            (λ sig e. rw split (
              decrypted c laws j r kc.kz k loaded primary cipher panic kc.compression iv plaintext b
                kl h16 bytes found made sep)))
  where
    rest_of : Bytes → Result Bytes
    rest_of ciphertext = do
      (b, kl) ← split_header_bytes (get_key_for_id kc.kz) ciphertext short_ciphertext
      decrypt_any c panic kc.compression kl b
