-- ===== src/Examples/CrypterRuns.antt =====
-- The theorems about crypters, applied to a stored set with one AES key.
use dkeyczar.Prelude.{
  ◌≡◌, refl, none, true, false, List, [], ◌∷◌, ◌++◌, Bytes, ok, ◌>>=◌, pos, replicate, codes, some,
  arith, inl, lookup_key, set_key, int_eq, nat_eq, bytes_eq, short_ciphertext,
}
use dkeyczar.KeyInfo.{
  KeyMeta, t_aes, p_decrypt_and_encrypt, cm_cbc, is_acceptable_size, is_acceptable_purpose,
}
use dkeyczar.Header.{make_header, split_header}
use dkeyczar.Util.Web64.{
  decode_char, decode_groups, group_of_four, group_of_three, group_of_two, padding_for,
  decode_web64_string,
}
use dkeyczar.Util.BigEndian.{uint32, put_uint32}
use dkeyczar.Util.Padding.{pkcs5pad, pkcs5unpad}
use dkeyczar.Keys.{
  KeyData, aes, key_id, key_from_json, key_decrypt, key_sign, is_decrypt_key, is_sign_key,
}
use dkeyczar.Keys.Texts.{decode_text}
use dkeyczar.Keys.Hmac.{fresh, hmac_sign, hmac_verify}
use dkeyczar.Keys.Aes.{
  AesKey, aes_key_id, aes_encrypt, aes_decrypt, aes_key_from_json, new_aes_key_from_json,
}
use dkeyczar.KeySet.{KeyReader, KeyCzar, bucket, get_primary_key, get_key_for_id, load_with_primary}
use dkeyczar.KeySet.Index.{Occurs}
use dkeyczar.Controllers.{base64w, no_encoding, gzip, compress, decompress, decode}
use dkeyczar.Signer.{build_attached_signed_bytes}
use dkeyczar.Signer.Ready.{hmac-Matches}
use dkeyczar.Crypter.{KeyCrypter, SignedCrypter, encrypt, decrypt, signed_encrypt, signed_decrypt}
use dkeyczar.Crypter.Ready.{Separates}
use dkeyczar.Crypter.RoundTrip.{decrypt-encrypt, signed_decrypt-signed_encrypt}
use dkeyczar.Crypter.Soundness.{decrypt_sound}
use dkeyczar.Crypter.Streaming.{crypter_stream}
use dkeyczar.Crypter.Piped.{decrypt-crypter_stream}
use dkeyczar.Streams.{returns}
use dkeyczar.Examples.Streams.{write_buffer, write_buffer-IsSink}
use dkeyczar.Examples.Encoders.{encoders, encoders_laws}
use dkeyczar.Examples.Json.{texts}
use dkeyczar.Examples.Crypto.{tools, tools_laws}
use dkeyczar.Examples.KeySets.{
  key_bytes, first_key, first_version, stored, signer, signer_primary, loaded_set_lem,
}

abbrev pub aes_key : AesKey
aes_key = record { key = replicate 16 1; hmac = fresh (replicate 32 2); id = [] }

abbrev aes_meta : KeyMeta
aes_meta = record {
  name = codes "test";
  type = t_aes;
  purpose = p_decrypt_and_encrypt;
  encrypted = false;
  versions = first_version ∷ [];
}

abbrev stored_aes : KeyReader
stored_aes = record {
  get_metadata = ok (texts.meta.marshal aes_meta);
  get_key = λ n. ok (
      texts.aes.marshal (record {
        aes_key_string = codes "AQEBAQEBAQEBAQEBAQEBAQ";
        size = 128;
        hmac_key = record {
          hmac_key_string = codes "AgICAgICAgICAgICAgICAgICAgICAgICAgICAgICAgI";
          size = 256;
        };
        mode = cm_cbc;
      }));
}

abbrev aes_set : KeyCzar
aes_set = record {
  keymeta = aes_meta;
  keys = (pos 1, aes aes_key) ∷ [];
  idkeys = (875836468, aes aes_key ∷ []) ∷ [];
  primary = pos 1;
}

aes_set_lem : load_with_primary tools texts p_decrypt_and_encrypt stored_aes ≡ ok aes_set
unfolding load_with_primary key_from_json new_aes_key_from_json aes_key_from_json is_acceptable_size
    decode_text decode_web64_string decode_groups group_of_four group_of_three group_of_two
    decode_char padding_for uint32 put_uint32 key_id aes_key_id is_acceptable_purpose set_key
    lookup_key
aes_set_lem = refl

aes_set_primary : get_primary_key aes_set ≡ some (aes aes_key)
unfolding get_primary_key lookup_key
aes_set_primary = refl

aes_set_found : get_key_for_id aes_set (aes_key_id tools aes_key) ≡ ok (aes aes_key ∷ [])
unfolding get_key_for_id bucket lookup_key uint32 aes_key_id put_uint32
aes_set_found = refl

abbrev crypter : KeyCrypter
crypter = record { kz = aes_set; encoding = no_encoding; compression = gzip }

-- The ciphertext of the compressed message.
abbrev head : Bytes
head = 0 ∷ 52 ∷ 52 ∷ 52 ∷ 52 ∷ replicate 16 9

abbrev sealed : Bytes
sealed = (head ++ (32 ∷ 105 ∷ 106 ∷ replicate 13 14)) ++ replicate 20 69

made : aes_encrypt tools (replicate 16 9) aes_key (compress tools gzip (codes "hi")) ≡ ok sealed
unfolding aes_encrypt compress pkcs5pad make_header aes_key_id put_uint32 hmac_sign
made = refl

opened : key_decrypt tools (aes aes_key) sealed ≡ ok (31 ∷ codes "hi")
unfolding key_decrypt aes_decrypt hmac_verify bytes_eq pkcs5unpad
opened = refl

separated : Separates tools (aes aes_key ∷ []) sealed (compress tools gzip (codes "hi"))
unfolding compress
separated = (inl opened, tt)

decrypt-encrypt_example :
    (encrypt tools (replicate 16 9) crypter (codes "hi") >>= decrypt tools crypter)
    ≡ ok (codes "hi")
decrypt-encrypt_example =
    decrypt-encrypt tools texts stored_aes crypter aes_key (replicate 16 9) (codes "hi") sealed
      (aes aes_key ∷ []) tools_laws aes_set_lem aes_set_primary (inl refl) refl (ground arith)
      (ground arith) aes_set_found made separated

abbrev web_crypter : KeyCrypter
web_crypter = record { kz = aes_set; encoding = base64w; compression = gzip }

decrypt-crypter_stream_example :
    (s text : Bytes) × (crypter_stream tools encoders write_buffer web_crypter
        (replicate 16 9)
        (codes "to: ")
        (codes "h" ∷ codes "i" ∷ [])
      ≡ returns (record { state = s; failed = none }))
    × (s ≡ codes "to: " ++ text)
    × (decrypt tools web_crypter text ≡ ok (codes "hi"))
decrypt-crypter_stream_example =
    decrypt-crypter_stream tools texts encoders write_buffer (λ s. s) stored_aes web_crypter aes_key
      (replicate 16 9) (codes "to: ") (codes "h" ∷ codes "i" ∷ []) tools_laws encoders_laws
      write_buffer-IsSink aes_set_lem aes_set_primary (inl refl) refl (ground arith) (ground arith)
      aes_set_found

abbrev signed_crypter : SignedCrypter
signed_crypter = record { kz = aes_set; compression = gzip; nonce = some (5 ∷ []); signer = signer }

pub signs : is_sign_key first_key ≡ true
unfolding is_sign_key
signs = refl

signed_decrypt-signed_encrypt_example :
    (signed_encrypt tools (replicate 16 9) [] signed_crypter (codes "hi")
      >>= signed_decrypt tools signed_crypter)
    ≡ (key_sign tools [] first_key (build_attached_signed_bytes sealed (some (5 ∷ []))) >>= λ _.
        ok (codes "hi"))
signed_decrypt-signed_encrypt_example =
    signed_decrypt-signed_encrypt tools texts stored_aes stored signed_crypter aes_key first_key
      (replicate 16 9) [] (codes "hi") sealed (aes aes_key ∷ []) tools_laws aes_set_lem
      aes_set_primary (inl refl) refl (ground arith) (ground arith) aes_set_found made separated
      loaded_set_lem signer_primary signs (hmac-Matches tools (fresh key_bytes)) (omega arith)

accepted : decrypt tools crypter sealed ≡ ok (codes "hi")
unfolding decrypt split_header decode get_key_for_id uint32 lookup_key is_decrypt_key key_decrypt
    aes_decrypt hmac_verify bytes_eq pkcs5unpad decompress
accepted = refl

decrypt_sound_example :
    (b : Bytes) × (kl : List KeyData) × (k : KeyData) × (compressed : Bytes) × (split_header
        (get_key_for_id aes_set)
        (decode no_encoding)
        sealed
        short_ciphertext
      ≡ ok (b, kl))
    × Occurs k kl
    × (key_decrypt tools k b ≡ ok compressed)
    × (decompress tools gzip compressed ≡ ok (codes "hi"))
decrypt_sound_example = decrypt_sound tools crypter sealed (codes "hi") accepted
