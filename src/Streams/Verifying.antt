-- ===== src/Streams/Verifying.antt =====
-- hmac_key.go, VerifyReader: what is read is hashed, the last bytes are kept back, and Close compares
-- them with the hash.
pub mod Close
pub mod Filling
pub mod Whole
use dkeyczar.Prelude.{
  ℕ, zero, suc, ◌+◌, ◌-◌, ◌≡◌, refl, sym, ap, ◌∙◌, Bytes, Bool, true, false, Error,
  invalid_signature, Option, none, some, List, [], ◌∷◌, ◌++◌, append_assoc, append-nil, length,
  take, drop, take-append-drop, ltb, bytes_eq, bytes_eq→eq, Bool-cases, inl, inr, if◌then◌else◌, ℤ,
  pos, negsuc,
}
use dkeyczar.Crypto.{Crypto}
use dkeyczar.Keys.Hmac.{HmacKey, hmac_sig_length}
use dkeyczar.Streams.{Run, returns, looping, ◌>>=◌, Read, Got, Stop, at_eof, failing}

-- `eof` is whether `err` is io.EOF, the only error that the reader keeps.
pub record HmacVerifyReader (S : Type 0) : Type 0 where
  pub source : S
  pub key : Bytes
  pub hashed : Bytes
  pub buf : Bytes
  pub eof : Bool
  pub count : ℕ

-- VerifyReader
abbrev pub verify_reader : {S : Type 0} → HmacKey → S → HmacVerifyReader S
verify_reader k source = record {
  source = source;
  key = k.key;
  hashed = [];
  buf = [];
  eof = false;
  count = 0;
}

-- (n, err) of its Read, in which n can be negative, and the bytes in the buffer.
pub record Verified (S : Type 0) : Type 0 where
  pub state : HmacVerifyReader S
  pub count : ℤ
  pub bytes : Bytes
  pub stop : Option Stop

abbrev pub eof_stop : Bool → Option Stop
eof_stop true = some at_eof
eof_stop false = none

-- The result of len(buf) - 20 below 0.
abbrev pub short_by : ℕ → ℤ
short_by zero = pos 0
short_by (suc n) = negsuc n

-- What Read hands out of its buffer.
unfoldable pub release : {S : Type 0} → ℕ → HmacVerifyReader S → Verified S
release size h =
    if ltb (length h.buf) hmac_sig_length
    then record {
      state = h;
      count = short_by (hmac_sig_length - length h.buf);
      bytes = [];
      stop = eof_stop h.eof;
    }
    else (let ready = length h.buf - hmac_sig_length in
        let n = if ltb size ready then size else ready in
        record {
          state = record h { buf = drop n h.buf; hashed = h.hashed ++ take n h.buf };
          count = pos n;
          bytes = take n h.buf;
          stop = eof_stop h.eof;
        })

-- The rounds of the loop in Read: enough for a source that gives a byte or stops in every round.
abbrev pub fill_fuel : ℕ → ℕ
fill_fuel size = size + hmac_sig_length + 1

module _ {S : Type 0} (read : Read S) where
  -- The loop of Read for a buffer of `size` bytes, with the error that it stops with.
  unfoldable pub fill : ℕ → ℕ → HmacVerifyReader S → Run (HmacVerifyReader S × Option Error)
  fill zero size h =
      if h.eof
      then returns (h, none)
      else (if ltb (length h.buf) (size + hmac_sig_length) then looping else returns (h, none))
  fill (suc fuel) size h = elim h.eof [
    | true ↦ returns (h, none)
    | false ↦ elim (ltb (length h.buf) (size + hmac_sig_length)) [
      | false ↦ returns (h, none)
      | true ↦ do
        r ← read h.source size
        let h' : HmacVerifyReader S = record h {
          source = r.state;
          buf = h.buf ++ r.bytes;
          count = h.count + length r.bytes;
        }
        elim r.stop [
          | none ↦ fill fuel size h'
          | some at_eof ↦ fill fuel size (record h' { eof = true })
          | some (failing e) ↦ returns (h', some e)
        ]
    ]
  ]

  unfoldable pub hmac_verify_read : HmacVerifyReader S → ℕ → Run (Verified S)
  unfolding fill release
  hmac_verify_read h size = do
    (h', failed) ← fill (fill_fuel size) size h
    returns (elim failed [
      | some e ↦ record { state = h'; count = pos 0; bytes = []; stop = some (failing e) }
      | none ↦ release size h'
    ])

unfoldable pub hmac_verify_close : Crypto → {S : Type 0} → HmacVerifyReader S → Option Error
hmac_verify_close c h =
    if bytes_eq (c.hmac_sha1 h.key h.hashed) h.buf then none else some invalid_signature

-- What a run of Reads has handed out, up to the first error or the end of the stream.
pub record Delivered (S : Type 0) : Type 0 where
  pub state : HmacVerifyReader S
  pub bytes : Bytes
  pub stop : Option Stop

unfoldable pub read_sizes : {S : Type 0} → Read S → HmacVerifyReader S → List ℕ → Run (Delivered S)
unfolding hmac_verify_read
read_sizes read h [] = returns (record { state = h; bytes = []; stop = none })
read_sizes read h (n ∷ more) = do
  r ← hmac_verify_read read h n
  elim r.stop [
    | some t ↦ returns (record { state = r.state; bytes = r.bytes; stop = some t })
    | none ↦ do d ← read_sizes read r.state more; returns (record d { bytes = r.bytes ++ d.bytes })
  ]
