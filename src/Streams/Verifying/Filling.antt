-- ===== src/Streams/Verifying/Filling.antt =====
-- hmac_key.go, the loop of hmacVerifyReader.Read: when it ends, and when it does not.
use dkeyczar.Prelude.{
  ℕ, zero, suc, ◌+◌, ◌<◌, ◌≡◌, refl, true, false, Error, Option, none, some, [], ◌++◌, append-nil,
  length, length-append, ltb, Bool-cases, inl, inr, ◌⊎◌, arith,
}
use dkeyczar.Streams.{returns, looping, Read, Got, Stop, at_eof, failing}
use dkeyczar.Streams.Verifying.{HmacVerifyReader, Verified, fill, fill_fuel, hmac_verify_read}

-- A Read into a buffer that is not empty gives at least one byte or stops.
abbrev pub Supplies : {S : Type 0} → Read S → Type 0
Supplies {S} read =
    (s : S) (n : ℕ)
    → (r : Got S) × (read s (suc n) ≡ returns r)
      × (((r.stop ≡ none) × (0 < length r.bytes)) ⊎ ((t : Stop) × (r.stop ≡ some t)))

module _ {S : Type 0} (read : Read S) where
  pub fill_eof :
      (fuel n : ℕ) (h : HmacVerifyReader S)
      → fill read fuel n (record h { eof = true }) ≡ returns (record h { eof = true }, none)
  unfolding fill
  fill_eof zero n h = refl
  fill_eof (suc fuel) n h = refl

  fill_ends :
      Supplies read
      → (fuel n : ℕ) (h : HmacVerifyReader S) → suc n + 20 < length h.buf + fuel
      → (out : HmacVerifyReader S × Option Error) × (fill read fuel (suc n) h ≡ returns out)
  unfolding fill
  fill_ends supplies zero n h long = elim (Bool-cases h.eof) [
    | inl ended ↦ rw (fill, ended) (_, refl)
    | inr going ↦
        let full : ltb (length h.buf) (suc n + 20) ≡ false = ground arith in
        rw (fill, going, full) (_, refl)
  ]
  fill_ends supplies (suc fuel) n h long = elim (Bool-cases h.eof) [
    | inl ended ↦ rw (fill, ended) (_, refl)
    | inr going ↦ elim (Bool-cases (ltb (length h.buf) (suc n + 20))) [
      | inr full ↦ rw (fill, going, full) (_, refl)
      | inl missing ↦
          let (r, got, outcome) = supplies h.source n in
          elim outcome [
            | inl (more, some_bytes) ↦
                rw (fill, going, missing, got, more)
                  (fill_ends supplies fuel n _ (rw length-append (omega arith)))
            | inr (at_eof, e) ↦
                rw (fill, going, missing, got, e)
                  (
                    _,
                    fill_eof fuel (suc n) (record h {
                      source = r.state;
                      buf = h.buf ++ r.bytes;
                      count = h.count + length r.bytes;
                    }),
                  )
            | inr (failing f, e) ↦ rw (fill, going, missing, got, e) (_, refl)
          ]
    ]
  ]

  -- Read returns, with a buffer that is not empty, over every source that gives at least one byte or stops
  -- whenever it is read into such a buffer: its loop needs no more rounds than it is given.
  pub hmac_verify_read_ends :
      Supplies read
      → (h : HmacVerifyReader S) (n : ℕ)
      → (r : Verified S) × (hmac_verify_read read h (suc n) ≡ returns r)
  unfolding hmac_verify_read
  hmac_verify_read_ends supplies h n =
      let (out, ended) = fill_ends supplies (fill_fuel (suc n)) n h (omega arith) in
      rw ended (_, refl)

  -- Read with an empty buffer never returns, however many rounds its loop runs, where fewer than 20
  -- bytes are buffered, the end of the stream has not been seen, and the source answers a Read with an
  -- empty buffer as io.Reader allows, with no bytes and no error.
  pub fill_zero :
      (fuel : ℕ) (h : HmacVerifyReader S)
      → ((s : S) → read s 0 ≡ returns (record { state = s; bytes = []; stop = none }))
      → h.eof ≡ false
      → length h.buf < 20
      → fill read fuel 0 h ≡ looping
  unfolding fill
  fill_zero zero h idle going short =
      let missing : ltb (length h.buf) 20 ≡ true = ground arith in rw (fill, going, missing) refl
  fill_zero (suc fuel) h idle going short =
      let missing : ltb (length h.buf) 20 ≡ true = ground arith in
      rw (fill, going, missing, idle h.source) (fill_zero fuel _ idle going (rw append-nil short))
