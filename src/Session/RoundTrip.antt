-- ===== src/Session/RoundTrip.antt =====
-- session.go: the receiver of a session's keys gets the crypter of the sender, and reads what it writes.
use dkeyczar.Prelude.{
  ℕ, ◌≡◌, refl, ◌≤◌, Bytes, true, Result, ok, ◌>>=◌, >>=-eq-ok, [], ◌∷◌, All, IsByte, length,
  length-take, take, inl, arith,
}
use dkeyczar.Crypto.{Crypto, CryptoLaws}
use dkeyczar.Json.{Json, JsonLaws}
use dkeyczar.KeyInfo.{
  KeyPurpose, is_acceptable_size, default_size, p_encrypt, p_decrypt_and_encrypt,
  is_acceptable_purpose,
}
use dkeyczar.Keys.{aes, key_id, is_stream_key, key_decrypt}
use dkeyczar.Keys.Kinds.{All-take}
use dkeyczar.Keys.Hmac.{fresh, generate_hmac_key}
use dkeyczar.Keys.Aes.{AesKey, aes_key_id, generate_aes_key, packed_keys}
use dkeyczar.Keys.Aes.Storage.{IsAesKey, new_aes_from_packed_keys-packed_keys}
use dkeyczar.Keys.Aes.Crypt.{aes_encrypt_lem, aes_decrypt-encrypt}
use dkeyczar.Util.BigEndian.{uint32}
use dkeyczar.KeySet.{KeyReader, load_with_primary}
use dkeyczar.Readers.Single.{
  single_set, imported_aes_meta, single_set-primary, single_set-found, imported_aes,
}
use dkeyczar.Controllers.{Encoding, base64w, Compression, no_compression, compress}
use dkeyczar.Controllers.RoundTrip.{compress-IsByte}
use dkeyczar.Crypter.{
  KeyCrypter, encrypt, decrypt, new_crypter, new_encrypter, streamer, new_crypt_streamer,
  new_encrypt_streamer,
}
use dkeyczar.Crypter.RoundTrip.{decrypt-encrypt}
use dkeyczar.Session.{new_session_encrypter, new_session_decrypter}

-- The key that generateAESKey(0) makes of random bytes.
abbrev pub session_key : Bytes → Bytes → AesKey
session_key key hmac_key = record { key = take 16 key; hmac = fresh (take 32 hmac_key); id = [] }

pub generate_aes_key-zero :
    (key hmac_key : Bytes) → generate_aes_key key hmac_key 0 ≡ ok (session_key key hmac_key)
unfolding generate_aes_key generate_hmac_key default_size is_acceptable_size
generate_aes_key-zero key hmac_key = refl

-- What rand.Reader gives is bytes, and enough of them.
abbrev pub IsRandom : ℕ → Bytes → Type 0
IsRandom n b = (n ≤ length b) × All IsByte b

pub session_key-IsAesKey :
    (key hmac_key : Bytes)
    → IsRandom 16 key
    → IsRandom 32 hmac_key
    → IsAesKey (session_key key hmac_key)
session_key-IsAesKey key hmac_key h h' = record {
  cipher = inl (rw length-take (omega arith));
  hmac_length = rw length-take (omega arith);
  key_bytes = All-take 16 key h.1;
  hmac_bytes = All-take 32 hmac_key h'.1;
}

abbrev pub session_crypter : AesKey → ℕ → KeyCrypter
session_crypter k h = record {
  kz = single_set imported_aes_meta (aes k) h;
  encoding = base64w;
  compression = no_compression;
}

-- A crypter over the set of one AES key, however it is loaded, reads what it writes.
pub decrypt-encrypt_single :
    (c : Crypto) (j : Json) (r : KeyReader) (kc : KeyCrypter) (k : AesKey) (h : ℕ)
    (iv plaintext : Bytes)
    → CryptoLaws c
    → load_with_primary c j p_decrypt_and_encrypt r ≡ ok kc.kz
    → kc.kz ≡ single_set imported_aes_meta (aes k) h
    → uint32 (aes_key_id c k) ≡ ok h
    → IsAesKey k
    → length iv ≡ 16
    → All IsByte iv
    → All IsByte plaintext
    → (encrypt c iv kc plaintext >>= decrypt c kc) ≡ ok plaintext
unfolding key_decrypt
decrypt-encrypt_single c j r kc k h iv plaintext laws loaded single hashed v h16 iv_bytes bytes =
    let m = compress c kc.compression plaintext in
    let made = aes_encrypt_lem c laws k v.cipher iv m in
    decrypt-encrypt c j r kc k iv plaintext _ (aes k ∷ []) laws loaded
      (rw single (single_set-primary imported_aes_meta (aes k) h)) v.cipher h16 iv_bytes bytes
      (rw single (single_set-found imported_aes_meta (aes k) h (aes_key_id c k) hashed)) made
      (
        inl (
            rw made at (
              aes_decrypt-encrypt c k iv m laws v.cipher h16
                (compress-IsByte c laws kc.compression plaintext bytes))),
        tt,
      )

streamer_single :
    (c : Crypto) (j : Json) (kc : KeyCrypter) (k : AesKey) (h : ℕ)
    → kc.kz ≡ single_set imported_aes_meta (aes k) h
    → streamer c j kc ≡ ok kc
unfolding streamer is_stream_key
streamer_single c j kc k h e = rw (streamer, e, single_set-primary imported_aes_meta (aes k) h) refl

-- The crypter that each end of a session has.
session_ends :
    (c : Crypto) (j : Json) (r : KeyReader) (k : AesKey) (h : ℕ)
    → ((p : KeyPurpose)
        → is_acceptable_purpose p_decrypt_and_encrypt p ≡ ok true
        → load_with_primary c j p r ≡ ok (single_set imported_aes_meta (aes k) h))
    → (new_encrypt_streamer c j r ≡ ok (session_crypter k h))
      × (new_crypt_streamer c j r ≡ ok (session_crypter k h))
unfolding new_encrypt_streamer new_crypt_streamer new_encrypter new_crypter is_acceptable_purpose
session_ends c j r k h loaded = (
  rw (loaded p_encrypt refl) (streamer_single c j (session_crypter k h) k h refl),
  rw (loaded p_decrypt_and_encrypt refl) (streamer_single c j (session_crypter k h) k h refl),
)

-- For 16 and 32 random bytes, and an outer crypter that decrypts what it encrypts of the packed
-- session keys: NewSessionEncrypter returns a crypter and keys, NewSessionDecrypter returns the same
-- crypter for those keys, and under every encoding and compression set afterwards, that crypter decrypts what it
-- encrypts of a plaintext of bytes under a vector of 16 bytes.
pub new_session_decrypter-encrypter :
    (c : Crypto) (j : Json) (key hmac_key : Bytes)
    (outer_encrypt outer_decrypt : Bytes → Result Bytes) (encoding : Encoding)
    (compression : Compression) (iv plaintext : Bytes)
    → CryptoLaws c
    → JsonLaws j
    → IsRandom 16 key
    → IsRandom 32 hmac_key
    → (outer_encrypt (packed_keys (session_key key hmac_key)) >>= outer_decrypt)
      ≡ ok (packed_keys (session_key key hmac_key))
    → length iv ≡ 16
    → All IsByte iv
    → All IsByte plaintext
    → (kc : KeyCrypter) × (keys : Bytes) × (new_session_encrypter c j key hmac_key outer_encrypt
        ≡ ok (kc, keys))
      × (new_session_decrypter c j outer_decrypt keys ≡ ok kc)
      × ((encrypt c iv (record kc { encoding = encoding; compression = compression }) plaintext
            >>= decrypt c (record kc { encoding = encoding; compression = compression }))
          ≡ ok plaintext)
unfolding new_session_encrypter new_session_decrypter is_acceptable_purpose key_id
new_session_decrypter-encrypter c j key hmac_key outer_encrypt outer_decrypt encoding compression iv
      plaintext laws jlaws long hmac_long outer h16 iv_bytes bytes =
    let k = session_key key hmac_key in
    let v = session_key-IsAesKey key hmac_key long hmac_long in
    let (keys, sealed, opened) = >>=-eq-ok (outer_encrypt (packed_keys k)) outer_decrypt outer in
    let (r, h, made, hashed, loaded) = imported_aes c j k laws jlaws v in
    let (sender, receiver) = session_ends c j r k h loaded in
    let kc : KeyCrypter = record {
      kz = single_set imported_aes_meta (aes k) h;
      encoding = encoding;
      compression = compression;
    } in
    (
      session_crypter k h,
      keys,
      rw (generate_aes_key-zero key hmac_key, made, sealed, sender) refl,
      rw (opened, new_aes_from_packed_keys-packed_keys k v, made, receiver) refl,
      decrypt-encrypt_single c j r kc k h iv plaintext laws (loaded p_decrypt_and_encrypt refl) refl
          hashed v h16 iv_bytes bytes,
    )
