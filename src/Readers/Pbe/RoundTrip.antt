-- ===== src/Readers/Pbe/RoundTrip.antt =====
-- readers.go: what is encrypted under a password decrypts, with spaces behind it.
use dkeyczar.Prelude.{
  ◌-◌, ◌%◌, ◌<◌, ◌≡◌, ◌≢◌, refl, Bytes, ok, ◌>>=◌, [], ◌++◌, length, take, replicate, length-take,
  length-append, length-replicate, All, All-append, All-replicate, IsByte, inl, arith, bytes_eq,
  codes, pos, ℤ, ap,
}
use dkeyczar.Crypto.{Crypto, CryptoLaws, IsCipherKey}
use dkeyczar.Json.{Json, JsonLaws, PbeKeyJson}
use dkeyczar.Util.Web64.{encode_web64_string, decode_web64_string}
use dkeyczar.Util.Web64.RoundTrip.{decode-encode_web64_string}
use dkeyczar.Keys.Aes.Crypt.{new_cipher_ok}
use dkeyczar.Keys.Kinds.{All-take}
use dkeyczar.Session.RoundTrip.{IsRandom}
use dkeyczar.Readers.Pbe.{
  PbeCipher, pad_spaces, pbe_decrypt_json, pbe_decrypt, create_aes_cipher, seal, pbe_encrypt,
}

pub length-pad_spaces : (b : Bytes) → length (pad_spaces b) % 16 ≡ 0
unfolding pad_spaces
length-pad_spaces b = rw (length-append, length-replicate) (omega arith)

pad_spaces-IsByte : (b : Bytes) → All IsByte b → All IsByte (pad_spaces b)
unfolding pad_spaces
pad_spaces-IsByte b h = All-append IsByte b _ h (All-replicate IsByte _ 32 (omega arith))

pad_spaces_filled : (b : Bytes) → 0 < length (pad_spaces b)
unfolding pad_spaces
pad_spaces_filled b = rw (length-append, length-replicate) (omega arith)

filled-ne-nil : (b : Bytes) → 0 < length b → b ≢ []
filled-ne-nil b h = ground arith

module _ (c : Crypto) (laws : CryptoLaws c) (j : Json) (jlaws : JsonLaws j) (password : Bytes) where
  key_cipher : (salt : Bytes) (n : ℤ) → IsCipherKey (c.pbkdf2 password salt n 16)
  key_cipher salt n = inl (laws.length-pbkdf2 password salt n 16)

  seal_made :
      (pc : PbeCipher) (plaintext text : Bytes)
      → encode_web64_string (c.cbc_encrypt pc.key pc.iv (pad_spaces plaintext)) ≡ ok text
      → seal c j pc plaintext ≡ ok (j.pbe.marshal (record pc.pbe { key = text }))
  unfolding seal
  seal_made pc plaintext text written = rw (seal, length-pad_spaces plaintext) (rw written refl)

  -- The struct opens to what its parts decode to.
  opened :
      (pbe : PbeKeyJson) (salt iv plaintext : Bytes)
      → pbe.cipher ≡ codes "AES128"
      → pbe.hmac ≡ codes "HMAC_SHA1"
      → decode_web64_string pbe.salt ≡ ok salt
      → decode_web64_string pbe.iv ≡ ok iv
      → decode_web64_string pbe.key
        ≡ ok (
            c.cbc_encrypt (c.pbkdf2 password salt pbe.iteration_count 16) iv (pad_spaces plaintext))
      → length iv ≡ 16
      → All IsByte plaintext
      → pbe_decrypt_json c j password pbe ≡ ok (pad_spaces plaintext)
  unfolding pbe_decrypt_json bytes_eq
  opened pbe salt iv plaintext cipher hmac salt_read iv_read key_read h16 bytes =
      let key = c.pbkdf2 password salt pbe.iteration_count 16 in
      let size = key_cipher salt pbe.iteration_count in
      let whole : length (c.cbc_encrypt key iv (pad_spaces plaintext)) % 16 ≡ 0 =
        rw (laws.length-cbc_encrypt key iv (pad_spaces plaintext) (length-pad_spaces plaintext))
          (length-pad_spaces plaintext) in
      rw
        (
          pbe_decrypt_json,
          cipher,
          hmac,
          salt_read,
          iv_read,
          key_read,
          new_cipher_ok key size,
          h16,
          whole,
        )
        (ap ok (
          laws.cbc_decrypt-encrypt key iv (pad_spaces plaintext) size h16
            (length-pad_spaces plaintext) (pad_spaces-IsByte plaintext bytes)))

-- The parts of a run of Encrypt: the cipher, the text of the encrypted key, and that Decrypt opens the
-- struct.
pub pbe_encrypt_parts :
    (c : Crypto) (j : Json) (password salt iv plaintext : Bytes)
    → CryptoLaws c
    → JsonLaws j
    → IsRandom 16 salt
    → IsRandom 16 iv
    → All IsByte plaintext
    → (pc : PbeCipher) × (text : Bytes) × (create_aes_cipher c password salt iv ≡ ok pc)
      × (encode_web64_string (c.cbc_encrypt pc.key pc.iv (pad_spaces plaintext)) ≡ ok text)
      × (pbe_encrypt c j password salt iv plaintext
          ≡ ok (j.pbe.marshal (record pc.pbe { key = text })))
      × (pbe_decrypt c j password (j.pbe.marshal (record pc.pbe { key = text }))
          ≡ ok (pad_spaces plaintext))
unfolding pbe_encrypt create_aes_cipher pbe_decrypt
pbe_encrypt_parts c j password salt iv plaintext laws jlaws salt_long iv_long bytes =
    let key = c.pbkdf2 password (take 16 salt) (pos 4096) 16 in
    let h16 : length (take 16 iv) ≡ 16 = rw length-take (omega (arith, iv_long.0)) in
    let (salt_text, salt_written, salt_read, salt_ascii) =
      decode-encode_web64_string (take 16 salt) (ground (arith, length-take 16 salt))
        (All-take 16 salt salt_long.1) in
    let (iv_text, iv_written, iv_read, iv_ascii) =
      decode-encode_web64_string (take 16 iv) (ground (arith, length-take 16 iv))
        (All-take 16 iv iv_long.1) in
    let p = pad_spaces plaintext in
    let ct = c.cbc_encrypt key (take 16 iv) p in
    let long = laws.length-cbc_encrypt key (take 16 iv) p (length-pad_spaces plaintext) in
    let (text, written, read, ascii) =
      decode-encode_web64_string ct (filled-ne-nil ct (rw long (pad_spaces_filled plaintext)))
        (laws.cbc_encrypt-IsByte key (take 16 iv) p) in
    let pbe : PbeKeyJson = record {
      cipher = codes "AES128";
      hmac = codes "HMAC_SHA1";
      iteration_count = pos 4096;
      iv = iv_text;
      key = text;
      salt = salt_text;
    } in
    let pc : PbeCipher = record { key = key; iv = take 16 iv; pbe = record pbe { key = [] } } in
    let created : create_aes_cipher c password salt iv ≡ ok pc =
      rw
        (
          salt_written,
          iv_written,
          new_cipher_ok key (key_cipher c laws j jlaws password (take 16 salt) (pos 4096)),
          h16,
        )
        refl in
    (
      pc,
      text,
      created,
      written,
      rw (pbe_encrypt, created) (seal_made c laws j jlaws password pc plaintext text written),
      rw (jlaws.pbe_lem pbe ((ground arith, ground arith), (iv_ascii, ascii, salt_ascii))) (
          opened c laws j jlaws password pbe (take 16 salt) (take 16 iv) plaintext refl refl
            salt_read iv_read read h16 bytes),
    )

-- For 16 random bytes as salt and as vector, what Encrypt of a PBE crypter makes of a plaintext of bytes,
-- Decrypt under the same password returns with the 1 to 16 spaces that fill its last block.
pub pbe_decrypt-encrypt :
    (c : Crypto) (j : Json) (password salt iv plaintext : Bytes)
    → CryptoLaws c
    → JsonLaws j
    → IsRandom 16 salt
    → IsRandom 16 iv
    → All IsByte plaintext
    → (pbe_encrypt c j password salt iv plaintext >>= pbe_decrypt c j password)
      ≡ ok (plaintext ++ replicate (16 - length plaintext % 16) 32)
unfolding pad_spaces
pbe_decrypt-encrypt c j password salt iv plaintext laws jlaws salt_long iv_long bytes =
    let (pc, text, created, written, made, read) =
      pbe_encrypt_parts c j password salt iv plaintext laws jlaws salt_long iv_long bytes in
    rw made read
