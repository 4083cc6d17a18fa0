-- ===== src/Streams/Ciphering.antt =====
-- streams.go, cryptoWriter, and aes_key.go, EncryptWriter: encryption of a stream of writes.
use dkeyczar.Prelude.{
  ℕ, ◌+◌, ◌-◌, ◌%◌, List, Bytes, Error, ok, err, panic, none, some, [], ◌∷◌, ◌++◌, length, take,
  drop, ◌==◌, if◌then◌else◌,
}
use dkeyczar.Crypto.{Crypto}
use dkeyczar.Header.{make_header}
use dkeyczar.Util.Padding.{pkcs5pad}
use dkeyczar.Keys.Aes.{AesKey, block_size, aes_key_id, new_cipher}
use dkeyczar.Streams.{Run, returns, panics, ◌>>=◌, Write, Written, Closed, WriteCloser, write_all}
use dkeyczar.Streams.Signing.{HmacSignWriter, sign_writer, hmac_signer}

-- A cipher.BlockMode and the bytes it has been fed.
pub record BlockMode : Type 0 where
  pub key : Bytes
  pub iv : Bytes
  pub fed : Bytes

abbrev pub new_block_mode : Bytes → Bytes → BlockMode
new_block_mode key iv = record { key = key; iv = iv; fed = [] }

-- CryptBlocks of a mode, `crypt`: several calls behave as one on all of the bytes, and input that is not whole
-- blocks panics.
unfoldable pub crypt_blocks :
    (Bytes → Bytes → Bytes → Bytes) → BlockMode → Bytes → Run (BlockMode × Bytes)
crypt_blocks crypt bm b =
    if length b % block_size == 0
    then returns
        (record bm { fed = bm.fed ++ b }, drop (length bm.fed) (crypt bm.key bm.iv (bm.fed ++ b)))
    else panics

pub record CryptoWriter (S : Type 0) : Type 0 where
  pub bm : BlockMode
  pub buffer : Bytes
  pub sink : S
  pub count : ℕ

abbrev pub new_crypto_writer : {S : Type 0} → BlockMode → S → CryptoWriter S
new_crypto_writer bm sink = record { bm = bm; buffer = []; sink = sink; count = 0 }

module _ (c : Crypto) {S : Type 0} (sink : WriteCloser S) where
  -- The blocks go through the cipher and then to the sink.
  unfoldable pub encrypt_to_sink : CryptoWriter S → Bytes → Bytes → Run (Written (CryptoWriter S))
  unfolding crypt_blocks
  encrypt_to_sink w tmp left = do
    (bm, out) ← crypt_blocks c.cbc_encrypt w.bm tmp
    r ← write_all sink.write w.sink out
    returns (elim r.failed [
      | some e ↦ record {
        state = record w { bm = bm; buffer = left; sink = r.state };
        count = 0;
        failed = some e;
      }
      | none ↦ record {
        state = record { bm = bm; buffer = left; sink = r.state; count = w.count + r.count };
        count = r.count;
        failed = none;
      }
    ])

  -- Write takes whole blocks out of its buffer.
  unfoldable pub crypto_write : Write (CryptoWriter S)
  unfolding encrypt_to_sink
  crypto_write w b = do
    let buffer = w.buffer ++ b
    let whole = length buffer - length buffer % block_size
    r ← encrypt_to_sink w (take whole buffer) (drop whole buffer)
    returns (elim r.failed [ some e ↦ r | none ↦ record r { count = length b } ])

  unfoldable pub crypto_close : CryptoWriter S → Run (Closed (CryptoWriter S))
  unfolding encrypt_to_sink
  crypto_close w = do
    r ← encrypt_to_sink w (pkcs5pad w.buffer block_size) []
    elim r.failed [
      | some e ↦ returns (record { state = r.state; failed = some e })
      | none ↦ do
        closed ← sink.close r.state.sink
        returns (record { state = record r.state { sink = closed.state }; failed = closed.failed })
    ]

-- What EncryptWriter returns, and the sink where it returns an error.
pub data Opened (S : Type 0) : Type 0 where
  opened : CryptoWriter (HmacSignWriter S) → Opened S
  refused : S → Error → Opened S

-- aesKey.EncryptWriter: header and vector go to the sink at once.
unfoldable pub encrypt_writer :
    Crypto → {S : Type 0} → Write S → Bytes → AesKey → S → Run (Opened S)
unfolding write_all
encrypt_writer c write iv k sink = elim (new_cipher k.key) [
  | err e ↦ returns (refused sink e)
  | panic ↦ panics
  | ok _ ↦ do
    r ←
        write_all (hmac_signer c write).write (sign_writer k.hmac sink)
          (make_header (aes_key_id c k) ++ iv)
    returns (elim r.failed [
      | some e ↦ refused r.state.sink e
      | none ↦ opened (new_crypto_writer (new_block_mode k.key iv) r.state)
    ])
]

-- A run of writes, as long as there is no error, and the Close at its end.
module _ {S : Type 0} (w : WriteCloser S) where
  unfoldable pub write_chunks : S → List Bytes → Run (Closed S)
  write_chunks s [] = returns (record { state = s; failed = none })
  write_chunks s (b ∷ more) = do
    r ← w.write s b
    elim r.failed [
      | some e ↦ returns (record { state = r.state; failed = some e })
      | none ↦ write_chunks r.state more
    ]

  unfoldable pub write_then_close : S → List Bytes → Run (Closed S)
  unfolding write_chunks
  write_then_close s chunks = do
    r ← write_chunks s chunks
    elim r.failed [ some e ↦ returns r | none ↦ w.close r.state ]

-- The cryptoWriter over the hmacSignWriter that EncryptWriter returns.
abbrev pub crypto_writer :
    Crypto → {S : Type 0} → Write S → WriteCloser (CryptoWriter (HmacSignWriter S))
crypto_writer c write = record {
  write = crypto_write c (hmac_signer c write);
  close = crypto_close c (hmac_signer c write);
}

-- The writes and Close on what EncryptWriter returned.
unfoldable pub feed : Crypto → {S : Type 0} → Write S → List Bytes → Opened S → Run (Closed S)
unfolding write_then_close crypto_write crypto_close
feed c write chunks (refused s e) = returns (record { state = s; failed = some e })
feed c write chunks (opened w) = do
  r ← write_then_close (crypto_writer c write) w chunks
  returns (record { state = r.state.sink.sink; failed = r.failed })

-- EncryptWriter, the writes, and Close.
unfoldable pub encrypt_stream :
    Crypto → {S : Type 0} → Write S → Bytes → AesKey → S → List Bytes → Run (Closed S)
unfolding encrypt_writer feed
encrypt_stream c write iv k sink chunks = encrypt_writer c write iv k sink >>= feed c write chunks
