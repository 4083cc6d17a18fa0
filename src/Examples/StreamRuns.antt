-- ===== src/Examples/StreamRuns.antt =====
-- The theorems about streams, applied to buffers and to a sink that takes a byte at a time.
use dkeyczar.Prelude.{
  ◌-◌, ◌≡◌, refl, List, [], ◌∷◌, ◌++◌, Bytes, none, some, codes, replicate, length, inl, arith, ok,
  true, bytes_eq, ◌<◌,
}
use dkeyczar.Keys.Hmac.{HmacKey, fresh}
use dkeyczar.Keys.Aes.{aes_encrypt}
use dkeyczar.Util.Padding.{pkcs5pad}
use dkeyczar.Streams.{returns, panics, looping, Closed, Got, at_eof}
use dkeyczar.Streams.Ciphering.{encrypt_stream, new_block_mode}
use dkeyczar.Streams.Refine.{encrypt_stream-refines}
use dkeyczar.Streams.Ends.{encrypt_stream_ends}
use dkeyczar.Streams.Verifying.{
  Verified, verify_reader, hmac_verify_read, hmac_verify_close, read_sizes, fill, release,
  Delivered,
}
use dkeyczar.Streams.Verifying.Filling.{hmac_verify_read_ends, fill_zero}
use dkeyczar.Streams.Verifying.Close.{hmac_verify_close_authentic}
use dkeyczar.Streams.Verifying.Whole.{hmac_verify_close_signed}
use dkeyczar.Streams.Deciphering.{CryptoReader, new_crypto_reader, to_read, crypto_read}
use dkeyczar.Streams.Deciphering.Whole.{crypto_read-plaintext, crypto_read-padding}
use dkeyczar.Examples.Crypto.{tools, tools_laws}
use dkeyczar.Examples.CrypterRuns.{aes_key}
use dkeyczar.Examples.Streams.{
  write_buffer, write_buffer-IsSink, write_byte, write_byte-Advances, read_buffer,
  read_buffer-IsSource, read_buffer-Supplies, read_buffer-GivesAll, copy_buffer,
  copy_buffer-IsCopied,
}

abbrev vector : Bytes
vector = replicate 16 9

abbrev chunks : List Bytes
chunks = codes "hello, " ∷ [] ∷ codes "streams of writes" ∷ []

encrypt_stream-refines_example :
    (s' : Bytes) × (ciphertext : Bytes) × (encrypt_stream tools write_buffer vector aes_key
        (5 ∷ [])
        chunks
      ≡ returns (record { state = s'; failed = none }))
    × (aes_encrypt tools vector aes_key (codes "hello, streams of writes") ≡ ok ciphertext)
    × (s' ≡ 5 ∷ ciphertext)
encrypt_stream-refines_example =
    encrypt_stream-refines tools write_buffer (λ s. s) aes_key vector (5 ∷ []) chunks tools_laws
      write_buffer-IsSink (inl refl) refl

encrypt_stream_ends_example :
    (r : Closed Bytes) × (encrypt_stream tools write_byte vector aes_key [] chunks ≡ returns r)
encrypt_stream_ends_example =
    encrypt_stream_ends tools write_byte vector aes_key [] chunks write_byte-Advances

abbrev mac_key : HmacKey
mac_key = fresh (replicate 4 1)

-- A message of two bytes and its tag.
abbrev tagged : Bytes
tagged = codes "hi" ++ replicate 20 6

abbrev delivered : Delivered Bytes
delivered = record {
  state = record {
    source = [];
    key = replicate 4 1;
    hashed = codes "hi";
    buf = replicate 20 6;
    eof = true;
    count = 22;
  };
  bytes = codes "hi";
  stop = some at_eof;
}

delivering : read_sizes read_buffer (verify_reader mac_key tagged) (1 ∷ 5 ∷ []) ≡ returns delivered
unfolding read_sizes hmac_verify_read fill release
delivering = refl

accepted : hmac_verify_close tools delivered.state ≡ none
unfolding hmac_verify_close bytes_eq
accepted = refl

hmac_verify_close_authentic_example :
    tagged ≡ codes "hi" ++ (tools.hmac_sha1 (replicate 4 1) (codes "hi") ++ [])
hmac_verify_close_authentic_example =
    hmac_verify_close_authentic tools read_buffer (λ s. s) mac_key tagged (1 ∷ 5 ∷ []) delivered
      read_buffer-IsSource delivering accepted

hmac_verify_close_signed_example :
    (d : Delivered Bytes) × (read_sizes read_buffer (verify_reader mac_key tagged) (1 ∷ 5 ∷ 2 ∷ [])
      ≡ returns d)
    × (d.stop ≡ some at_eof)
    × (d.bytes ≡ codes "hi")
    × (hmac_verify_close tools d.state ≡ none)
hmac_verify_close_signed_example =
    hmac_verify_close_signed tools read_buffer (λ s. s) mac_key tagged (1 ∷ 5 ∷ 2 ∷ []) (codes "hi")
      tools_laws read_buffer-IsSource read_buffer-GivesAll refl
      (omega arith, (omega arith, (omega arith, tt))) (omega arith)

hmac_verify_read_ends_example :
    (r : Verified Bytes) × (hmac_verify_read read_buffer (verify_reader mac_key tagged) 5
      ≡ returns r)
hmac_verify_read_ends_example =
    hmac_verify_read_ends read_buffer read_buffer-Supplies (verify_reader mac_key tagged) 4

fill_zero_example : fill read_buffer 1000 0 (verify_reader mac_key tagged) ≡ looping
fill_zero_example =
    fill_zero read_buffer 1000 (verify_reader mac_key tagged) (λ s. refl) refl (omega arith)

-- The encrypted text of "hi".
abbrev text : Bytes
text = 105 ∷ 106 ∷ replicate 14 15

encrypted : text ≡ tools.cbc_encrypt aes_key.key vector (pkcs5pad (codes "hi") 16)
unfolding pkcs5pad
encrypted = refl

shorter : length (pkcs5pad (codes "hi") 16) < to_read 1
unfolding pkcs5pad to_read
shorter = omega arith

crypto_read-plaintext_example :
    (first second : Got (CryptoReader Bytes)) × (crypto_read tools copy_buffer
        (new_crypto_reader (new_block_mode aes_key.key vector) text)
        1
      ≡ returns first)
    × (crypto_read tools copy_buffer first.state 7 ≡ returns second)
    × (first.bytes ≡ codes "h")
    × (second.bytes ≡ codes "i")
crypto_read-plaintext_example =
    crypto_read-plaintext tools copy_buffer (λ s. s) aes_key.key vector (codes "hi") text 0 7
      tools_laws copy_buffer-IsCopied (inl refl) refl (ground arith) encrypted shorter

-- A plaintext of 16 bytes, which takes two blocks.
abbrev long_text : Bytes
long_text = replicate 16 2

long_encrypted :
    replicate 16 3 ++ replicate 16 17 ≡ tools.cbc_encrypt aes_key.key vector (pkcs5pad long_text 16)
unfolding pkcs5pad
long_encrypted = refl

exactly : to_read 15 ≡ length (pkcs5pad long_text 16)
unfolding pkcs5pad to_read
exactly = refl

crypto_read-padding_example :
    (first second : Got (CryptoReader Bytes)) × (crypto_read tools copy_buffer
        (new_crypto_reader (new_block_mode aes_key.key vector) (replicate 16 3 ++ replicate 16 17))
        15
      ≡ returns first)
    × (crypto_read tools copy_buffer first.state (length (pkcs5pad long_text 16) - 15)
        ≡ returns second)
    × (first.bytes ++ second.bytes ≡ pkcs5pad long_text 16)
    × (crypto_read tools copy_buffer second.state 1 ≡ panics)
crypto_read-padding_example =
    crypto_read-padding tools copy_buffer (λ s. s) aes_key.key vector long_text
      (replicate 16 3 ++ replicate 16 17) 14 0 tools_laws copy_buffer-IsCopied (inl refl) refl
      (ground arith) long_encrypted exactly
