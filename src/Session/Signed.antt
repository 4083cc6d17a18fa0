-- ===== src/Session/Signed.antt =====
-- session.go and keydata.go: the material of a signed session, and the two ends of one.
use dkeyczar.Prelude.{
  ◌≡◌, ◌≢◌, refl, Bytes, true, Result, ok, ◌>>=◌, >>=-eq-ok, some, [], ◌∷◌, All, IsByte, length,
  length-take, take, inl, arith, ◌<◌, ◌^◌,
}
use dkeyczar.Crypto.{Crypto, CryptoLaws}
use dkeyczar.Json.{Json, JsonLaws}
use dkeyczar.KeyInfo.{p_decrypt_and_encrypt, p_sign_and_verify, is_acceptable_purpose}
use dkeyczar.Keys.{KeyData, aes, key_id, key_decrypt, key_sign, is_sign_key}
use dkeyczar.Keys.Kinds.{All-take}
use dkeyczar.Keys.Texts.{decode_text-encode}
use dkeyczar.Keys.Aes.{aes_key_id, aes_encrypt}
use dkeyczar.Keys.Aes.Storage.{bare, IsAesKey, aes_key_from_json-from_key}
use dkeyczar.Keys.Aes.Crypt.{aes_decrypt-encrypt}
use dkeyczar.KeySet.{KeyReader, load_with_primary, get_primary_key}
use dkeyczar.Readers.Single.{
  single_set, imported_aes_meta, imported_aes, single_set-primary, single_set-found,
}
use dkeyczar.Controllers.{Compression, no_compression, compress}
use dkeyczar.Controllers.RoundTrip.{compress-IsByte}
use dkeyczar.Signer.{KeySigner, build_attached_signed_bytes}
use dkeyczar.Signer.Ready.{Matches}
use dkeyczar.Crypter.{SignedCrypter, signed_encrypt, signed_decrypt, new_signed_crypter}
use dkeyczar.Crypter.RoundTrip.{signed_decrypt-signed_encrypt}
use dkeyczar.Session.{
  SessionMaterial, new_signed_session_encrypter, new_signed_session_decrypter,
  new_session_material_json, to_session_material_json, new_session_material_from_json,
}
use dkeyczar.Session.RoundTrip.{session_key, session_key-IsAesKey, generate_aes_key-zero, IsRandom}

-- The material of a signed session, an AES key of a cipher size with an HMAC key of 32 bytes and a
-- nonce that is not empty, is read back from its JSON without the remembered identifiers.
pub new_session_material_from_json-to_json :
    (j : Json) (sm : SessionMaterial)
    → JsonLaws j
    → IsAesKey sm.key
    → sm.nonce ≢ []
    → All IsByte sm.nonce
    → (to_session_material_json j sm >>= new_session_material_from_json j)
      ≡ ok (record { key = bare sm.key; nonce = sm.nonce })
unfolding to_session_material_json new_session_material_from_json new_session_material_json
new_session_material_from_json-to_json j sm laws v filled bytes =
    let (parsed, key_written, key_read, key_ascii) = aes_key_from_json-from_key sm.key v in
    let (text, written, read, ascii) = decode_text-encode sm.nonce filled bytes in
    rw (key_written, to_session_material_json, new_session_material_json, written)
      (rw (laws.session_lem (record { key = parsed; nonce = text }) (key_ascii, ascii), key_read)
        (rw read refl))

abbrev pub session_material : Bytes → Bytes → Bytes → SessionMaterial
session_material key hmac_key nonce = record {
  key = session_key key hmac_key;
  nonce = take 16 nonce;
}

-- For 16, 32 and 16 random bytes, an outer crypter that decrypts what it encrypts of the session
-- material, and a signer over a key set loaded for signing, whose primary key can sign and accepts
-- its own signatures: the two constructors of a signed session return the same crypter, and under every
-- compression set afterwards, that crypter verifies and decrypts what it encrypts and signs of
-- a plaintext of bytes under a vector of 16 bytes, if the primary key makes the signature and the
-- length of the ciphertext fits a uint32.
pub new_signed_session_decrypter-encrypter :
    (c : Crypto) (j : Json) (key hmac_key nonce : Bytes)
    (outer_encrypt outer_decrypt : Bytes → Result Bytes) (r' : KeyReader) (signer : KeySigner)
    (s : KeyData) (compression : Compression) (iv rand plaintext b : Bytes)
    → CryptoLaws c
    → JsonLaws j
    → IsRandom 16 key
    → IsRandom 32 hmac_key
    → IsRandom 16 nonce
    → (to_session_material_json j (session_material key hmac_key nonce) >>= λ text.
        outer_encrypt text >>= outer_decrypt)
      ≡ to_session_material_json j (session_material key hmac_key nonce)
    → load_with_primary c j p_sign_and_verify r' ≡ ok signer.kz
    → get_primary_key signer.kz ≡ some s
    → is_sign_key s ≡ true
    → Matches c s
    → length iv ≡ 16
    → All IsByte iv
    → All IsByte plaintext
    → aes_encrypt c iv (session_key key hmac_key) (compress c compression plaintext) ≡ ok b
    → length b < 2 ^ 32
    → (kc : SignedCrypter) × (keys : Bytes) × (new_signed_session_encrypter c j key hmac_key nonce
          outer_encrypt signer
        ≡ ok (kc, keys))
      × (new_signed_session_decrypter c j outer_decrypt signer keys ≡ ok kc)
      × ((signed_encrypt c iv rand (record kc { compression = compression }) plaintext
            >>= signed_decrypt c (record kc { compression = compression }))
          ≡ (key_sign c rand s (build_attached_signed_bytes b (some (take 16 nonce))) >>= λ _.
              ok plaintext))
unfolding new_signed_session_encrypter new_signed_session_decrypter new_signed_crypter
    is_acceptable_purpose key_id key_decrypt
new_signed_session_decrypter-encrypter c j key hmac_key nonce outer_encrypt outer_decrypt r' signer
      s compression iv rand plaintext b laws jlaws long hmac_long nonce_long outer loaded' primary'
      signs matches h16 iv_bytes bytes made short =
    let k = session_key key hmac_key in
    let sm = session_material key hmac_key nonce in
    let v = session_key-IsAesKey key hmac_key long hmac_long in
    let (text, written, read) =
      >>=-eq-ok (to_session_material_json j sm) (new_session_material_from_json j) (
        new_session_material_from_json-to_json j sm jlaws v (ground (arith, length-take 16 nonce))
          (All-take 16 nonce nonce_long.1)) in
    let (keys, sealed, opened) =
      >>=-eq-ok (outer_encrypt text) outer_decrypt (rw written at outer) in
    let (r, h, imported, hashed, loaded) = imported_aes c j k laws jlaws v in
    let kz = single_set imported_aes_meta (aes k) h in
    let kc : SignedCrypter = record {
      kz = kz;
      compression = no_compression;
      nonce = some (take 16 nonce);
      signer = signer;
    } in
    (
      kc,
      keys,
      rw
          (
            generate_aes_key-zero key hmac_key,
            imported,
            written,
            sealed,
            loaded p_decrypt_and_encrypt refl,
          )
          refl,
      rw (opened, read, imported, loaded p_decrypt_and_encrypt refl) refl,
      signed_decrypt-signed_encrypt c j r r' (record kc { compression = compression }) k s iv rand
          plaintext b (aes k ∷ []) laws (loaded p_decrypt_and_encrypt refl)
          (single_set-primary imported_aes_meta (aes k) h) v.cipher h16 iv_bytes bytes
          (single_set-found imported_aes_meta (aes k) h (aes_key_id c k) hashed) made
          (
            inl (
                rw made at (
                  aes_decrypt-encrypt c k iv (compress c compression plaintext) laws v.cipher h16
                    (compress-IsByte c laws compression plaintext bytes))),
            tt,
          )
          loaded' primary' signs matches short,
    )
