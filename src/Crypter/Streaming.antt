-- ===== src/Crypter/Streaming.antt =====
-- keyczar.go, keyCryptStreamer.EncryptWriter: compression, encryption and encoding of a stream of
-- writes.
use dkeyczar.Prelude.{Bytes, List, Error, Option, none, some, cannot_stream}
use dkeyczar.Crypto.{Crypto}
use dkeyczar.Keys.{KeyData, aes}
use dkeyczar.Keys.Aes.{AesKey}
use dkeyczar.KeySet.{get_primary_key}
use dkeyczar.Crypter.{KeyCrypter}
use dkeyczar.Streams.{Run, returns, ◌>>=◌, Write, Close, Closed, WriteCloser, nest_writer_closer}
use dkeyczar.Streams.Signing.{HmacSignWriter}
use dkeyczar.Streams.Ciphering.{
  CryptoWriter, Opened, opened, refused, encrypt_writer, crypto_writer, write_then_close,
}
use dkeyczar.Streams.Stages.{Coded, Encoders, encode_writer, compress_writer, new_packer, on_sink}

-- key.(streamEncryptKey) of the primary key: an AES key.
unfoldable pub stream_key : Option KeyData → Option AesKey
stream_key (some (aes k)) = some k
stream_key _ = none

module _ (c : Crypto) (lib : Encoders) where
  -- The writer that encrypts over an encoder over a sink, and the one that compresses for it.
  abbrev pub Enciphering : Type 0 → Type 0
  Enciphering S = CryptoWriter (HmacSignWriter (Coded lib.Coder S))

  abbrev pub Streaming : Type 0 → Type 0
  Streaming S = Coded lib.Packer (Enciphering S)

  -- What EncryptWriter returns: a writer or an error.
  pub data StreamOpened (S : Type 0) : Type 0 where
    streaming : Streaming S → StreamOpened S
    failed : S → Error → StreamOpened S

  module _ {S : Type 0} (write : Write S) where
    -- The Close of the encoder below the encrypting writer.
    unfoldable pub close_encoder : KeyCrypter → Close (Enciphering S)
    unfolding encode_writer
    close_encoder kc w = do
      r ← (encode_writer lib kc.encoding write).close w.sink.sink
      returns (record {
        state = record w { sink = record w.sink { sink = r.state } };
        failed = r.failed;
      })

    -- nestWriterCloser(compressedWriter, nestWriterCloser(cipherWriter, encodeWriterCloser))
    unfoldable pub stream_writer : KeyCrypter → WriteCloser (Streaming S)
    unfolding close_encoder compress_writer encode_writer on_sink nest_writer_closer
    stream_writer kc =
        let cipher : WriteCloser (Enciphering S) =
          crypto_writer c (encode_writer lib kc.encoding write).write in
        nest_writer_closer (compress_writer lib kc.compression cipher.write)
          (on_sink (nest_writer_closer cipher (close_encoder kc)).close)

    abbrev pub opening : KeyCrypter → Opened (Coded lib.Coder S) → StreamOpened S
    opening kc (refused s e) = failed s.sink e
    opening kc (opened w) = streaming (record { coder = new_packer lib kc.compression; sink = w })

    -- keyCryptStreamer.EncryptWriter, whose vector is `iv`.
    unfoldable pub crypter_encrypt_writer : KeyCrypter → Bytes → S → Run (StreamOpened S)
    unfolding stream_key encode_writer encrypt_writer
    crypter_encrypt_writer kc iv s = elim (stream_key (get_primary_key kc.kz)) [
      | none ↦ returns (failed s cannot_stream)
      | some k ↦ do
        w ←
            encrypt_writer c (encode_writer lib kc.encoding write).write iv k
              (record { coder = lib.new_coder; sink = s })
        returns (opening kc w)
    ]

    unfoldable pub feed_stream : KeyCrypter → List Bytes → StreamOpened S → Run (Closed S)
    unfolding write_then_close stream_writer
    feed_stream kc chunks (failed s e) = returns (record { state = s; failed = some e })
    feed_stream kc chunks (streaming w) = do
      r ← write_then_close (stream_writer kc) w chunks
      returns (record { state = r.state.sink.sink.sink.sink; failed = r.failed })

    -- EncryptWriter, the writes, and Close.
    unfoldable pub crypter_stream : KeyCrypter → Bytes → S → List Bytes → Run (Closed S)
    unfolding crypter_encrypt_writer feed_stream
    crypter_stream kc iv s chunks = crypter_encrypt_writer kc iv s >>= feed_stream kc chunks
