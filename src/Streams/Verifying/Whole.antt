-- ===== src/Streams/Verifying/Whole.antt =====
-- hmac_key.go, hmacVerifyReader: the run of Reads over a signed message, from its first byte to Close.
use dkeyczar.Prelude.{
  ℕ, zero, suc, ◌+◌, ◌-◌, ◌<◌, ◌≤◌, ◌≡◌, refl, sym, ap, ◌∙◌, true, false, Bytes, none, some, List,
  [], ◌∷◌, ◌++◌, append-nil, length, length-append, length-take, length-drop, ltb, All, Bool-cases,
  inl, inr, ◌⊎◌, arith,
}
use dkeyczar.Crypto.{Crypto, CryptoLaws}
use dkeyczar.Keys.Hmac.{HmacKey}
use dkeyczar.Streams.{returns, Read, Got, at_eof}
use dkeyczar.Streams.Verifying.{
  HmacVerifyReader, verify_reader, Verified, fill, fill_fuel, eof_stop, release, hmac_verify_read,
  hmac_verify_close, read_sizes, Delivered,
}
use dkeyczar.Streams.Verifying.Close.{
  IsSource, fill-Same, hmac_verify_read-Moves, read_sizes-Moves, hmac_verify_close_split,
}
use dkeyczar.Streams.Verifying.Filling.{fill_eof}

-- A Read into a buffer that is not empty gives at least one byte, or io.EOF alone at the end of the
-- contents.
abbrev pub GivesAll : {S : Type 0} → Read S → (S → Bytes) → Type 0
GivesAll {S} read contents =
    (s : S) (n : ℕ)
    → (r : Got S) × (read s (suc n) ≡ returns r)
      × (((r.stop ≡ none) × (0 < length r.bytes))
          ⊎ ((r.stop ≡ some at_eof) × (r.bytes ≡ []) × (contents r.state ≡ [])))

module _ {S : Type 0} (read : Read S) (contents : S → Bytes) (gives : GivesAll read contents) where
  -- The buffer is full, or the source is at its end.
  abbrev Filled : ℕ → HmacVerifyReader S → Type 0
  Filled n h =
      ((h.eof ≡ false) × (n + 20 ≤ length h.buf))
      ⊎ ((h.eof ≡ true) × (length h.buf < n + 20) × (contents h.source ≡ []))

  fill-Filled :
      (fuel n : ℕ) (h : HmacVerifyReader S)
      → h.eof ≡ false
      → suc n + 20 < length h.buf + fuel
      → (h' : HmacVerifyReader S) × (fill read fuel (suc n) h ≡ returns (h', none))
        × Filled (suc n) h'
  unfolding fill
  fill-Filled zero n h going long =
      let full : ltb (length h.buf) (suc n + 20) ≡ false = ground arith in
      let full_already : fill read zero (suc n) h ≡ returns (h, none) =
        rw (fill, going, full) refl in
      (h, full_already, inl (going, omega arith))
  fill-Filled (suc fuel) n h going long = elim (Bool-cases (ltb (length h.buf) (suc n + 20))) [
    | inr full ↦
        let full_already : fill read (suc fuel) (suc n) h ≡ returns (h, none) =
          rw (fill, going, full) (ap (λ e. returns (record h { eof = e }, none)) going) in
        (h, full_already, inl (going, ground arith))
    | inl missing ↦
        let (r, got, outcome) = gives h.source n in
        elim outcome [
          | inl (more, some_bytes) ↦
              let (h', filled, done) =
                fill-Filled fuel n
                  (record h {
                    source = r.state;
                    buf = h.buf ++ r.bytes;
                    count = h.count + length r.bytes;
                  })
                  going (rw length-append (omega arith)) in
              (h', rw (fill, going, missing, got, more) filled, done)
          | inr (ended, empty, at_end) ↦ (
            record h {
              source = r.state;
              buf = h.buf ++ r.bytes;
              eof = true;
              count = h.count + length r.bytes;
            },
            rw (fill, going, missing, got, ended)
                (fill_eof read fuel (suc n) (record h {
                  source = r.state;
                  buf = h.buf ++ r.bytes;
                  count = h.count + length r.bytes;
                })),
            inr (refl, rw (empty, append-nil) (ground arith), at_end),
          )
        ]
  ]

  -- What Read does: it fills its caller's buffer, or hands out all but the last 20 bytes.
  abbrev Outcome : ℕ → Verified S → Type 0
  Outcome n r =
      ((r.stop ≡ none) × (r.state.eof ≡ false) × (length r.bytes ≡ n) × (20 ≤ length r.state.buf))
      ⊎ ((r.stop ≡ some at_eof) × (length r.state.buf ≡ 20) × (contents r.state.source ≡ []))

  release-Outcome :
      (n : ℕ) (h : HmacVerifyReader S)
      → Filled n h
      → 20 ≤ length (h.buf ++ contents h.source)
      → Outcome n (release n h)
  unfolding release
  release-Outcome n h (inl (going, full)) long =
      let enough : ltb (length h.buf) 20 ≡ false = ground arith in
      elim (Bool-cases (ltb n (length h.buf - 20))) [
        | inl less ↦
            rw (release, enough, less)
              (inl (
                ap eof_stop going,
                going,
                rw length-take (omega arith),
                rw length-drop (omega arith),
              ))
        | inr exact ↦
            let same : length h.buf - 20 ≡ n = ground arith in
            rw (release, enough, exact)
              (inl (
                ap eof_stop going,
                going,
                rw length-take (omega arith),
                rw length-drop (omega arith),
              ))
      ]
  release-Outcome n h (inr (ended, short, at_end)) long =
      let whole : 20 ≤ length h.buf = rw (at_end, append-nil) at long in
      let enough : ltb (length h.buf) 20 ≡ false = ground arith in
      let all : ltb n (length h.buf - 20) ≡ false = ground arith in
      rw (release, enough, all) (inr (ap eof_stop ended, rw length-drop (omega arith), at_end))

  hmac_verify_read-Outcome :
      IsSource read contents
      → (n : ℕ) (h : HmacVerifyReader S) → h.eof ≡ false
      → 20 ≤ length (h.buf ++ contents h.source)
      → (r : Verified S) × (hmac_verify_read read h (suc n) ≡ returns r) × Outcome (suc n) r
  unfolding hmac_verify_read
  hmac_verify_read-Outcome source n h going long =
      let (h', filled, done) = fill-Filled (fill_fuel (suc n)) n h going (omega arith) in
      let kept = fill-Same read contents source (suc n) (fill_fuel (suc n)) h h' none filled in
      (release (suc n) h', rw filled refl, release-Outcome (suc n) h' done (rw (kept.rest) long))

  read_sizes_step :
      (n : ℕ) (more : List ℕ) (h : HmacVerifyReader S) (r : Verified S) (d : Delivered S)
      → hmac_verify_read read h n ≡ returns r
      → r.stop ≡ none
      → read_sizes read r.state more ≡ returns d
      → read_sizes read h (n ∷ more) ≡ returns (record d { bytes = r.bytes ++ d.bytes })
  unfolding read_sizes
  read_sizes_step n more h r d got going ran = rw (got, read_sizes, going, ran) refl

  read_sizes_last :
      (n : ℕ) (more : List ℕ) (h : HmacVerifyReader S) (r : Verified S)
      → hmac_verify_read read h n ≡ returns r
      → r.stop ≡ some at_eof
      → read_sizes read h (n ∷ more)
        ≡ returns (record { state = r.state; bytes = r.bytes; stop = some at_eof })
  unfolding read_sizes
  read_sizes_last n more h r got ended = rw (got, read_sizes, ended) refl

  -- Enough Reads into buffers that are not empty come to the end and leave 20 bytes in the buffer.
  read_sizes_ends :
      IsSource read contents
      → (sizes : List ℕ) (h : HmacVerifyReader S) → h.eof ≡ false
      → All (λ n. 0 < n) sizes
      → 20 ≤ length (h.buf ++ contents h.source)
      → length (h.buf ++ contents h.source) < 20 + length sizes
      → (d : Delivered S) × (read_sizes read h sizes ≡ returns d)
        × (d.stop ≡ some at_eof)
        × (length d.state.buf ≡ 20)
        × (contents d.state.source ≡ [])
  unfolding read_sizes
  read_sizes_ends source [] h going some_room long few = absurd (omega arith)
  read_sizes_ends source (zero ∷ more) h going (no_room, _) long few = absurd (omega arith)
  read_sizes_ends source (suc n ∷ more) h going (_, rooms) long few =
      let (r, got, outcome) = hmac_verify_read-Outcome source n h going long in
      let moved = hmac_verify_read-Moves read contents source h (suc n) r got in
      elim outcome [
        | inr (ended, kept_back, at_end) ↦ (
          record { state = r.state; bytes = r.bytes; stop = some at_eof },
          read_sizes_last (suc n) more h r got ended,
          refl,
          kept_back,
          at_end,
        )
        | inl (more_left, going', handed, left) ↦
            let total = ap length moved.rest ∙ length-append r.bytes _ in
            let (d, ran, ended, kept_back, at_end) =
              read_sizes_ends source more r.state going' rooms (rw length-append (omega arith))
                (omega (arith, total)) in
            (
              record d { bytes = r.bytes ++ d.bytes },
              read_sizes_step (suc n) more h r d got more_left ran,
              ended,
              kept_back,
              at_end,
            )
      ]

-- What a signer wrote is handed out and accepted: over a source that gives its contents in order, at
-- least a byte at a time, and io.EOF alone at their end, where the contents are a message and its HMAC,
-- a run of more Reads than the message has bytes, into buffers of any sizes but 0, returns io.EOF in
-- the end; it has handed out exactly the message, and Close returns no error.
pub hmac_verify_close_signed :
    (c : Crypto) {S : Type 0} (read : Read S) (contents : S → Bytes) (k : HmacKey) (s : S)
    (sizes : List ℕ) (msg : Bytes)
    → CryptoLaws c
    → IsSource read contents
    → GivesAll read contents
    → contents s ≡ msg ++ c.hmac_sha1 k.key msg
    → All (λ n. 0 < n) sizes
    → length msg < length sizes
    → (d : Delivered S) × (read_sizes read (verify_reader k s) sizes ≡ returns d)
      × (d.stop ≡ some at_eof)
      × (d.bytes ≡ msg)
      × (hmac_verify_close c d.state ≡ none)
hmac_verify_close_signed c read contents k s sizes msg laws source gives signed rooms many =
    let total : length (contents s) ≡ length msg + 20 =
      rw (signed, length-append, laws.length-hmac) refl in
    let (d, ran, ended, kept_back, at_end) =
      read_sizes_ends read contents gives source sizes (verify_reader k s) refl rooms
        (omega (arith, total)) (omega (arith, total)) in
    let moved = read_sizes-Moves read contents source sizes (verify_reader k s) d ran in
    let handed : length d.bytes + 20 ≡ length (contents s) =
      sym (ap length moved.rest ∙ rw (length-append, at_end, append-nil, kept_back) refl) in
    let (is_msg, accepted) =
      hmac_verify_close_split c read contents k s sizes d msg source signed ran at_end
        (omega (arith, handed, total)) in
    (d, ran, ended, is_msg, accepted)
