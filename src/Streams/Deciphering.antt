-- ===== src/Streams/Deciphering.antt =====
-- streams.go, cryptoReader: decryption of a stream of reads.
pub mod Rounds
pub mod Whole
use dkeyczar.Prelude.{
  ℕ, zero, suc, ◌+◌, ◌-◌, ◌%◌, Bytes, Bool, true, false, Error, short_ciphertext, Option, none,
  some, [], ◌∷◌, ◌++◌, length, take, drop, ltb, leb, ◌==◌, ◌&&◌, not, if◌then◌else◌,
}
use dkeyczar.Crypto.{Crypto}
use dkeyczar.Util.Padding.{last?}
use dkeyczar.Keys.Aes.{block_size}
use dkeyczar.Streams.{Run, returns, panics, looping, ◌>>=◌, Got, Stop, at_eof, failing}
use dkeyczar.Streams.Ciphering.{BlockMode, crypt_blocks}

pub record CryptoReader (S : Type 0) : Type 0 where
  pub bm : BlockMode
  pub out_buf : Bytes
  pub in_buf : Bytes
  pub source : S
  pub eof : Bool

abbrev pub new_crypto_reader : {S : Type 0} → BlockMode → S → CryptoReader S
new_crypto_reader bm source = record {
  bm = bm;
  out_buf = [];
  in_buf = [];
  source = source;
  eof = false;
}

-- `toRead`: beyond what is missing, and whole blocks.
unfoldable pub to_read : ℕ → ℕ
to_read missing =
    let n = missing + block_size + 1 in
    let off = n % block_size in if ltb 0 off then n + (block_size - off) else n

-- The last byte says how many to cut off; an empty buffer and a cut below its start panic.
unfoldable pub truncate_pad : Bytes → Run Bytes
truncate_pad out = elim (last? out) [
  | none ↦ panics
  | some pad ↦ if leb pad (length out) then returns (take (length out - pad) out) else panics
]

-- outBuf.Read into a buffer of `size` bytes: a bytes.Buffer that is empty returns io.EOF, but not to an
-- empty buffer.
unfoldable pub read_out : {S : Type 0} → CryptoReader S → ℕ → Got (CryptoReader S)
read_out cr size = elim cr.out_buf [
  | [] ↦ record { state = cr; bytes = []; stop = if size == 0 then none else some at_eof }
  | b ∷ more ↦ record {
    state = record cr { out_buf = drop size cr.out_buf };
    bytes = take size cr.out_buf;
    stop = none;
  }
]

-- What a round of the loop ends with: the error of Read, or none.
pub record Round (S : Type 0) : Type 0 where
  pub state : CryptoReader S
  pub failed : Option Error

-- `copy_n` is io.CopyN from the source into a bytes.Buffer: the bytes copied, and why they are fewer.
module _ (c : Crypto) {S : Type 0} (copy_n : S → ℕ → Run (Got S)) where
  -- The bytes `got` are in `in_buf`; `ended` is whether CopyN returned io.EOF.
  unfoldable pub decrypt_round : CryptoReader S → ℕ → Bool → Run (Round S)
  unfolding truncate_pad crypt_blocks
  decrypt_round cr got ended = elim (ltb 0 (got % block_size) && ended) [
    | true ↦ returns (record { state = cr; failed = some short_ciphertext })
    | false ↦ do
      let whole = got - got % block_size
      (bm, plain) ← crypt_blocks c.cbc_decrypt cr.bm (take whole cr.in_buf)
      let out = cr.out_buf ++ plain
      out' ← if ended then truncate_pad out else returns out
      returns (record {
        state = record cr { bm = bm; in_buf = drop whole cr.in_buf; out_buf = out' };
        failed = none;
      })
  ]

  unfoldable pub read_round : CryptoReader S → ℕ → Run (Round S)
  unfolding decrypt_round
  read_round cr missing = do
    r ← copy_n cr.source (to_read missing)
    let cr' : CryptoReader S = record cr { source = r.state; in_buf = cr.in_buf ++ r.bytes }
    elim r.stop [
      | some (failing e) ↦ returns (record { state = cr'; failed = some e })
      | some at_eof ↦ decrypt_round (record cr' { eof = true }) (length r.bytes) true
      | none ↦ decrypt_round cr' (length r.bytes) false
    ]

  unfoldable pub read_rounds : ℕ → CryptoReader S → ℕ → Run (Round S)
  unfolding read_round
  read_rounds zero cr size =
      if not cr.eof && ltb (length cr.out_buf) size
      then looping
      else returns (record { state = cr; failed = none })
  read_rounds (suc fuel) cr size = elim (not cr.eof && ltb (length cr.out_buf) size) [
    | false ↦ returns (record { state = cr; failed = none })
    | true ↦ do
      r ← read_round cr (size - length cr.out_buf)
      elim r.failed [ some e ↦ returns r | none ↦ read_rounds fuel r.state size ]
  ]

  -- Read; a round that does not end the stream fills the buffer, so that one is enough.
  unfoldable pub crypto_read : CryptoReader S → ℕ → Run (Got (CryptoReader S))
  unfolding read_rounds read_out
  crypto_read cr size = do
    r ← read_rounds 1 cr size
    returns (elim r.failed [
      | some e ↦ record { state = r.state; bytes = []; stop = some (failing e) }
      | none ↦ read_out r.state size
    ])
