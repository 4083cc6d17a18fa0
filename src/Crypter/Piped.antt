-- ===== src/Crypter/Piped.antt =====
-- keyczar.go: what is written to the writer of a crypter, Decrypt finds in the sink.
use mathlib.Core.Path.{subst}
use dkeyczar.Prelude.{
  ◌≡◌, refl, sym, ap, ◌∙◌, Bytes, List, [], ◌∷◌, ◌++◌, none, some, ok, inl, All, IsByte, length,
}
use dkeyczar.Crypto.{Crypto, CryptoLaws, IsCipherKey}
use dkeyczar.Json.{Json}
use dkeyczar.KeyInfo.{p_decrypt_and_encrypt}
use dkeyczar.Keys.{aes, key_decrypt}
use dkeyczar.Keys.Aes.{AesKey, aes_key_id, aes_encrypt}
use dkeyczar.Keys.Aes.Crypt.{aes_encrypt_lem, aes_decrypt-encrypt}
use dkeyczar.KeySet.{KeyReader, get_primary_key, get_key_for_id, load_with_primary}
use dkeyczar.Crypter.{KeyCrypter, decrypt}
use dkeyczar.Crypter.Ready.{Separates}
use dkeyczar.Crypter.RoundTrip.{b_ready, decrypt_sealed}
use dkeyczar.Crypter.Streaming.{
  Enciphering, Streaming, stream_key, close_encoder, stream_writer, crypter_encrypt_writer,
  feed_stream, crypter_stream,
}
use dkeyczar.Streams.{returns, Write, WriteCloser, IsSink, IsSink-In, nest_writer_closer}
use dkeyczar.Streams.Ciphering.{
  crypto_writer, crypto_close, write_chunks, write_then_close, encrypt_writer, opened,
}
use dkeyczar.Streams.Signing.{hmac_signer}
use dkeyczar.Streams.Refine.{
  concat, write_chunks-IsSinkIn, IsAfter-KeepsAfter, KeepsAfter, fed_all, crypto_write-IsSinkIn,
  crypto_close-IsAfter, encrypt_writer-IsAfter, sealed,
}
use dkeyczar.Streams.Stages.{
  Coded, Encoders, EncodersLaws, IsCoder, Spells, Packs, encode_writer, compress_writer, new_packer,
  on_sink, encode_writer-IsCoder, compress_writer-IsCoder,
}

module _ (c : Crypto) (laws : CryptoLaws c) (lib : Encoders) (lib_laws : EncodersLaws c lib)
    {S : Type 0} (write : Write S) (contents : S → Bytes) (sink : IsSink write contents)
    (kc : KeyCrypter) (k : AesKey) (primary : get_primary_key kc.kz ≡ some (aes k))
    (cipher : IsCipherKey k.key) (iv : Bytes) (h16 : length iv ≡ 16) where
  abbrev encoder : WriteCloser (Coded lib.Coder S)
  encoder = encode_writer lib kc.encoding write

  abbrev compressor : WriteCloser (Streaming c lib S)
  compressor = compress_writer lib kc.compression (crypto_writer c encoder.write).write

  coding : IsCoder encoder lib.new_coder contents (λ _. Unit {0}) (Spells kc.encoding)
  coding =
      encode_writer-IsCoder write contents (λ _. Unit {0}) (IsSink-In write contents sink) c lib
        lib_laws kc.encoding

  -- The encrypting writer over an encoder whose sink held `base`.
  module _ (base : Bytes) where
    abbrev Keeps : Enciphering c lib S → Type 0
    Keeps =
        KeepsAfter c laws encoder.write (coding.given base) (coding.Runs base) (coding.writes base)
          k cipher iv []

    abbrev fed : Enciphering c lib S → Bytes
    fed =
        fed_all c laws encoder.write (coding.given base) (coding.Runs base) (coding.writes base) k
          cipher iv []

    packing : IsCoder compressor (new_packer lib kc.compression) fed Keeps (Packs c kc.compression)
    packing =
        compress_writer-IsCoder (crypto_writer c encoder.write).write fed Keeps
          (crypto_write-IsSinkIn c laws encoder.write (coding.given base) (coding.Runs base)
            (coding.writes base) k cipher iv [])
          c lib lib_laws kc.compression

  -- The steps of a run that succeeds, from opening to the Close of the encoder.
  crypter_stream_steps :
      (s : S) (chunks : List Bytes) (w z : Enciphering c lib S) (x y : Streaming c lib S)
      (e : Coded lib.Coder S)
      → encrypt_writer c encoder.write iv k (record { coder = lib.new_coder; sink = s })
        ≡ returns (opened w)
      → write_chunks compressor (record { coder = new_packer lib kc.compression; sink = w }) chunks
        ≡ returns (record { state = x; failed = none })
      → compressor.close x ≡ returns (record { state = y; failed = none })
      → crypto_close c (hmac_signer c encoder.write) y.sink
        ≡ returns (record { state = z; failed = none })
      → encoder.close z.sink.sink ≡ returns (record { state = e; failed = none })
      → crypter_stream c lib write kc iv s chunks
        ≡ returns (record { state = e.sink; failed = none })
  unfolding crypter_stream crypter_encrypt_writer stream_key feed_stream write_then_close
      stream_writer close_encoder on_sink nest_writer_closer
  crypter_stream_steps s chunks w z x y e began ran packed sealed closed =
      rw
        (
          crypter_stream, crypter_encrypt_writer, primary, began, feed_stream, write_then_close,
          stream_writer, nest_writer_closer, ran, packed, sealed, closed,
        )
        refl

  -- The writes compress, encrypt and encode: what they leave in the sink spells a ciphertext of the
  -- compressed bytes.
  crypter_stream_lem :
      (s : S) (chunks : List Bytes)
      → (s' : S) × (packed ciphertext text : Bytes) × (crypter_stream c lib write kc iv s chunks
          ≡ returns (record { state = s'; failed = none }))
        × (contents s' ≡ contents s ++ text)
        × Packs c kc.compression (concat chunks) packed
        × (aes_encrypt c iv k packed ≡ ok ciphertext)
        × Spells kc.encoding ciphertext text
  crypter_stream_lem s chunks =
      let base = contents s in
      let (fresh, nothing) = coding.begins s tt in
      let (w, began, after) =
        encrypt_writer-IsAfter c laws encoder.write (coding.given base) (coding.Runs base)
          (coding.writes base) k cipher iv [] _ nothing fresh h16 in
      let (started, zero_fed) = (packing base).begins w (
        IsAfter-KeepsAfter c laws encoder.write (coding.given base) (coding.Runs base)
          (coding.writes base) k cipher iv [] [] w after) in
      let (x, ran, given, runs) =
        write_chunks-IsSinkIn compressor ((packing base).Runs (fed base w))
          ((packing base).given (fed base w)) ((packing base).writes (fed base w)) _ chunks
          started in
      let (y, packed, packs_closed, packs, flowed, kept) =
        (packing base).closes (fed base w) x runs in
      let (z, sealed_closed, in_coder, kept') =
        crypto_close-IsAfter c laws encoder.write (coding.given base) (coding.Runs base)
          (coding.writes base) k cipher iv [] y.sink (fed base y.sink) kept in
      let (e, text, coder_closed, spells, in_sink, _) = coding.closes base z.sink.sink kept' in
      let is_packed = flowed ∙ ap (λ q. q ++ packed) after.all_of_p in
      let is_given = given ∙ ap (λ q. q ++ concat chunks) zero_fed in
      (
        e.sink,
        fed base y.sink,
        _,
        text,
        crypter_stream_steps s chunks w z x y e began ran packs_closed sealed_closed coder_closed,
        in_sink,
        subst (λ q. Packs c kc.compression q (fed base y.sink)) is_given
            (subst (Packs c kc.compression ((packing base).given (fed base w) x)) (sym is_packed)
              packs),
        aes_encrypt_lem c laws k cipher iv (fed base y.sink),
        subst (λ q. Spells kc.encoding q text) in_coder spells,
      )

-- Over a key set loaded for decrypting, whose primary key is an AES key of a cipher size and the only
-- one with its identifier, with a vector of 16 bytes and a sink that accepts everything:
-- EncryptWriter, any sequence of writes and Close all succeed, under every encoding and compression,
-- and what they have appended to the sink, Decrypt turns into all that was written. Go's stream
-- encoders and compressors do what they document.
pub decrypt-crypter_stream :
    (c : Crypto) (j : Json) (lib : Encoders) {S : Type 0} (write : Write S) (contents : S → Bytes)
    (r : KeyReader) (kc : KeyCrypter) (k : AesKey) (iv : Bytes) (s : S) (chunks : List Bytes)
    → CryptoLaws c
    → EncodersLaws c lib
    → IsSink write contents
    → load_with_primary c j p_decrypt_and_encrypt r ≡ ok kc.kz
    → get_primary_key kc.kz ≡ some (aes k)
    → IsCipherKey k.key
    → length iv ≡ 16
    → All IsByte iv
    → All IsByte (concat chunks)
    → get_key_for_id kc.kz (aes_key_id c k) ≡ ok (aes k ∷ [])
    → (s' : S) × (text : Bytes) × (crypter_stream c lib write kc iv s chunks
        ≡ returns (record { state = s'; failed = none }))
      × (contents s' ≡ contents s ++ text)
      × (decrypt c kc text ≡ ok (concat chunks))
unfolding key_decrypt
decrypt-crypter_stream c j lib write contents r kc k iv s chunks laws lib_laws sink loaded primary
      cipher h16 iv_bytes bytes found =
    let (s', packed, b, text, ran, now, packs, made, spells) =
      crypter_stream_lem c laws lib lib_laws write contents sink kc k primary cipher iv h16 s
        chunks in
    let (packed_bytes, unpacked) = packs bytes in
    let ready = b_ready c j r kc.kz k laws loaded primary cipher iv packed b iv_bytes made in
    let alone : Separates c (aes k ∷ []) b packed =
      (inl (rw made at (aes_decrypt-encrypt c k iv packed laws cipher h16 packed_bytes)), tt) in
    (
      s',
      text,
      ran,
      now,
      decrypt_sealed c j r kc k iv packed b text (aes k ∷ []) laws loaded primary cipher h16
            iv_bytes packed_bytes found made alone (spells ready.0 ready.1)
          ∙ unpacked,
    )
