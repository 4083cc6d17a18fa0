-- ===== src/Examples/SessionRuns.antt =====
-- The theorems about imported keys and sessions, applied to keys of repeated bytes and an outer crypter that puts a byte in
-- front.
use dkeyczar.Prelude.{
  ℕ, ◌≡◌, refl, [], ◌∷◌, ◌++◌, Bytes, Result, ok, ◌>>=◌, some, none, codes, replicate, inl, arith,
  true, err, foreign,
}
use dkeyczar.KeyInfo.{p_encrypt, p_decrypt_and_encrypt, is_acceptable_purpose}
use dkeyczar.Util.BigEndian.{uint32, put_uint32}
use dkeyczar.Util.Padding.{pkcs5pad}
use dkeyczar.Header.{make_header}
use dkeyczar.Keys.{aes, key_id, key_sign}
use dkeyczar.Keys.Hmac.{fresh, hmac_sign}
use dkeyczar.Keys.Aes.{aes_encrypt, aes_key_id}
use dkeyczar.Keys.Aes.Storage.{bare, IsAesKey}
use dkeyczar.KeySet.{load_with_primary}
use dkeyczar.Readers.{imported_aes_key_reader}
use dkeyczar.Readers.Single.{
  single_set, imported_aes_meta, load_with_primary-imported_aes_key_reader,
}
use dkeyczar.Controllers.{gzip, no_encoding, compress}
use dkeyczar.Signer.{build_attached_signed_bytes}
use dkeyczar.Signer.Ready.{hmac-Matches}
use dkeyczar.Crypter.{KeyCrypter, SignedCrypter, encrypt, decrypt, signed_encrypt, signed_decrypt}
use dkeyczar.Session.{
  new_session_encrypter, new_session_decrypter, new_signed_session_encrypter,
  new_signed_session_decrypter, to_session_material_json,
}
use dkeyczar.Session.RoundTrip.{session_key, new_session_decrypter-encrypter}
use dkeyczar.Session.Signed.{session_material, new_signed_session_decrypter-encrypter}
use dkeyczar.Readers.Pbe.{pbe_encrypt, pbe_decrypt}
use dkeyczar.Readers.Pbe.RoundTrip.{pbe_decrypt-encrypt}
use dkeyczar.Readers.Pbe.Writer.{
  PbeCryptoWriter, pbe_encrypt_writer, pbe_writer, pbe_write_then_close-refines,
}
use dkeyczar.Readers.Files.{Files, rsa_key, other_key, get_rsa_key_from_pem}
use dkeyczar.Streams.{Closed, returns}
use dkeyczar.Streams.Ciphering.{write_then_close}
use dkeyczar.Examples.KeyRuns.{rsa_private}
use dkeyczar.Examples.Streams.{write_buffer, write_buffer-IsSink}
use dkeyczar.Examples.Json.{texts, texts_laws}
use dkeyczar.Examples.Crypto.{tools, tools_laws}
use dkeyczar.Examples.KeySets.{key_bytes, first_key, stored, signer, signer_primary, loaded_set_lem}
use dkeyczar.Examples.CrypterRuns.{aes_key, signs}

aes_key-IsAesKey : IsAesKey aes_key
aes_key-IsAesKey = record {
  cipher = inl refl;
  hmac_length = refl;
  key_bytes = ground arith;
  hmac_bytes = ground arith;
}

acceptable : is_acceptable_purpose p_decrypt_and_encrypt p_encrypt ≡ ok true
unfolding is_acceptable_purpose
acceptable = refl

load_with_primary-imported_aes_key_reader_example :
    (h : ℕ) × (uint32 (key_id tools (aes (bare aes_key))) ≡ ok h)
    × ((imported_aes_key_reader texts aes_key >>= load_with_primary tools texts p_encrypt)
        ≡ ok (single_set imported_aes_meta (aes (bare aes_key)) h))
load_with_primary-imported_aes_key_reader_example =
    load_with_primary-imported_aes_key_reader tools texts aes_key p_encrypt tools_laws texts_laws
      aes_key-IsAesKey acceptable

abbrev vector : Bytes
vector = replicate 16 9

abbrev key : Bytes
key = replicate 16 1

abbrev hmac_key : Bytes
hmac_key = replicate 32 2

abbrev outer_encrypt : Bytes → Result Bytes
outer_encrypt b = ok (7 ∷ b)

abbrev outer_decrypt : Bytes → Result Bytes
outer_decrypt [] = err (foreign 0)
outer_decrypt (x ∷ b) = ok b

new_session_decrypter-encrypter_example :
    (kc : KeyCrypter) × (keys : Bytes) × (new_session_encrypter tools texts key hmac_key
        outer_encrypt
      ≡ ok (kc, keys))
    × (new_session_decrypter tools texts outer_decrypt keys ≡ ok kc)
    × ((encrypt tools
            (vector)
            (record kc { encoding = no_encoding; compression = gzip })
            (codes "hi")
          >>= decrypt tools (record kc { encoding = no_encoding; compression = gzip }))
        ≡ ok (codes "hi"))
new_session_decrypter-encrypter_example =
    new_session_decrypter-encrypter tools texts key hmac_key outer_encrypt outer_decrypt no_encoding
      gzip (vector) (codes "hi") tools_laws texts_laws (ground arith) (ground arith) refl refl
      (ground arith) (ground arith)

abbrev nonce : Bytes
nonce = replicate 16 5

outer_lem : (r : Result Bytes) → (r >>= λ text. outer_encrypt text >>= outer_decrypt) ≡ r
outer_lem (ok b) = refl
outer_lem (err e) = refl
outer_lem Result.panic = refl

abbrev sealed : Bytes
sealed =
    ((0 ∷ 52 ∷ 52 ∷ 52 ∷ 52 ∷ replicate 16 9) ++ (32 ∷ 105 ∷ 106 ∷ replicate 13 14))
    ++ replicate 20 69

made :
    aes_encrypt tools (vector) (session_key key hmac_key) (compress tools gzip (codes "hi"))
    ≡ ok sealed
unfolding aes_encrypt compress pkcs5pad make_header aes_key_id put_uint32 hmac_sign
made = refl

new_signed_session_decrypter-encrypter_example :
    (kc : SignedCrypter) × (keys : Bytes) × (new_signed_session_encrypter tools texts key hmac_key
        nonce outer_encrypt signer
      ≡ ok (kc, keys))
    × (new_signed_session_decrypter tools texts outer_decrypt signer keys ≡ ok kc)
    × ((signed_encrypt tools (vector) [] (record kc { compression = gzip }) (codes "hi")
          >>= signed_decrypt tools (record kc { compression = gzip }))
        ≡ (key_sign tools [] first_key (build_attached_signed_bytes sealed (some nonce)) >>= λ _.
            ok (codes "hi")))
new_signed_session_decrypter-encrypter_example =
    new_signed_session_decrypter-encrypter tools texts key hmac_key nonce outer_encrypt
      outer_decrypt stored signer first_key gzip (vector) [] (codes "hi") sealed tools_laws
      texts_laws (ground arith) (ground arith) (ground arith)
      (outer_lem (to_session_material_json texts (session_material key hmac_key nonce)))
      loaded_set_lem signer_primary signs (hmac-Matches tools (fresh key_bytes)) refl (ground arith)
      (ground arith) made (omega arith)

abbrev password : Bytes
password = codes "secret"

pbe_decrypt-encrypt_example :
    (pbe_encrypt tools texts password nonce vector (codes "hi")
      >>= pbe_decrypt tools texts password)
    ≡ ok (codes "hi" ++ replicate 14 32)
pbe_decrypt-encrypt_example =
    pbe_decrypt-encrypt tools texts password nonce vector (codes "hi") tools_laws texts_laws
      (ground arith) (ground arith) (ground arith)

pbe_write_then_close-refines_example :
    (w : PbeCryptoWriter Bytes) × (closed : Closed (PbeCryptoWriter Bytes)) × (text : Bytes)
    × (pbe_encrypt_writer tools password nonce vector (codes "to: ") ≡ ok w)
    × (write_then_close (pbe_writer tools texts write_buffer) w (codes "h" ∷ codes "i" ∷ [])
        ≡ returns closed)
    × (closed.failed ≡ none)
    × (closed.state.sink ≡ codes "to: " ++ (text ++ 10 ∷ []))
    × (pbe_encrypt tools texts password nonce vector (codes "hi") ≡ ok text)
    × (pbe_decrypt tools texts password text ≡ ok (codes "hi" ++ replicate 14 32))
pbe_write_then_close-refines_example =
    pbe_write_then_close-refines tools texts write_buffer (λ s. s) password nonce vector
      (codes "to: ") (codes "h" ∷ codes "i" ∷ []) tools_laws texts_laws write_buffer-IsSink
      (ground arith) (ground arith) (ground arith)

-- A directory in which every file is the text of one key.
abbrev files : Files
files = record {
  read_file = λ path. ok path;
  pem_decode = λ text. some text;
  parse_pkcs1_private_key = λ block. ok rsa_private;
  parse_pkix_public_key = λ block. ok other_key;
  parse_certificate = λ block. ok (rsa_key rsa_private.public);
  itoa = λ n. codes "1";
}

pem_found : get_rsa_key_from_pem files (codes "key.pem") ≡ ok rsa_private
unfolding get_rsa_key_from_pem
pem_found = refl
