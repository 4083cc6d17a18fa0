-- ===== src/Streams/Signing.antt =====
-- hmac_key.go, SignWriter: what passes through to the sink is hashed, and Close appends the tag.
use dkeyczar.Prelude.{
  ℕ, ◌+◌, ◌≡◌, refl, sym, ap, ◌∙◌, Bytes, none, some, [], ◌∷◌, ◌++◌, length, take, leb,
  if◌then◌else◌, arith, true, take-append, append-nil,
}
use dkeyczar.Crypto.{Crypto}
use dkeyczar.Keys.Hmac.{HmacKey}
use dkeyczar.Streams.{
  Run, returns, panics, ◌>>=◌, Write, Closed, WriteCloser, IsSinkIn, write_all, write_rest,
}
use dkeyczar.Streams.Loops.{write_all-IsSinkIn, write_all_once}

-- `hashed` is what the hash has been given; the field `err` is never used.
pub record HmacSignWriter (S : Type 0) : Type 0 where
  pub sink : S
  pub key : Bytes
  pub hashed : Bytes
  pub written : ℕ

-- SignWriter
abbrev pub sign_writer : {S : Type 0} → HmacKey → S → HmacSignWriter S
sign_writer k sink = record { sink = sink; key = k.key; hashed = []; written = 0 }

module _ (c : Crypto) {S : Type 0} (write : Write S) where
  -- `data[:n]` panics where a sink claims more than it was given.
  unfoldable pub hmac_sign_write : Write (HmacSignWriter S)
  hmac_sign_write h b = do
    r ← write h.sink b
    if leb r.count (length b)
        then returns (record {
          state = record h {
            sink = r.state;
            hashed = h.hashed ++ take r.count b;
            written = h.written + r.count;
          };
          count = r.count;
          failed = r.failed;
        })
        else panics

  unfoldable pub hmac_sign_close : HmacSignWriter S → Run (Closed (HmacSignWriter S))
  hmac_sign_close h = do
    r ← write_all write h.sink (c.hmac_sha1 h.key h.hashed)
    returns (elim r.failed [
      | some e ↦ record { state = record h { sink = r.state }; failed = some e }
      | none ↦ record {
        state = record h { sink = r.state; written = h.written + r.count };
        failed = none;
      }
    ])

abbrev pub hmac_signer : Crypto → {S : Type 0} → Write S → WriteCloser (HmacSignWriter S)
hmac_signer c write = record { write = hmac_sign_write c write; close = hmac_sign_close c write }

take_all : (b : Bytes) → take (length b) b ≡ b
take_all b = ap (take (length b)) (sym (append-nil b)) ∙ take-append (length b) b [] refl

module _ (c : Crypto) {S : Type 0} (write : Write S) (contents : S → Bytes) (Keeps : S → Type 0)
    (sink : IsSinkIn Keeps write contents) where
  -- What is written passes through and is hashed.
  pub hmac_sign_write_lem :
      (h : HmacSignWriter S) (b : Bytes)
      → Keeps h.sink
      → (s : S) × (hmac_sign_write c write h b
          ≡ returns (record {
            state = record {
              sink = s;
              key = h.key;
              hashed = h.hashed ++ b;
              written = h.written + length b;
            };
            count = length b;
            failed = none;
          }))
        × (contents s ≡ contents h.sink ++ b)
        × Keeps s
  unfolding hmac_sign_write
  hmac_sign_write_lem h b kept =
      let (s, wrote, now, kept') = sink h.sink b kept in
      let fits : leb (length b) (length b) ≡ true = ground arith in
      (s, rw (wrote, hmac_sign_write, fits, take_all b) refl, now, kept')

  pub hmac_sign_close_lem :
      (h : HmacSignWriter S)
      → Keeps h.sink
      → (h' : HmacSignWriter S) × (hmac_sign_close c write h
          ≡ returns (record { state = h'; failed = none }))
        × (contents h'.sink ≡ contents h.sink ++ c.hmac_sha1 h.key h.hashed)
        × Keeps h'.sink
  unfolding hmac_sign_close
  hmac_sign_close_lem h kept =
      let (s, wrote, now, kept') =
        write_all-IsSinkIn write Keeps contents sink h.sink (c.hmac_sha1 h.key h.hashed) kept in
      (
        record h { sink = s; written = h.written + length (c.hmac_sha1 h.key h.hashed) },
        rw wrote refl,
        now,
        kept',
      )

  -- A loop of writes passes its bytes through and hashes them.
  pub hmac_sign_write_all :
      (h : HmacSignWriter S) (b : Bytes)
      → Keeps h.sink
      → (h' : HmacSignWriter S) × (write_all (hmac_sign_write c write) h b
          ≡ returns (record { state = h'; count = length b; failed = none }))
        × (contents h'.sink ≡ contents h.sink ++ b)
        × (h'.key ≡ h.key)
        × (h'.hashed ≡ h.hashed ++ b)
        × Keeps h'.sink
  unfolding write_all write_rest
  hmac_sign_write_all h [] kept = (h, refl, sym (append-nil _), refl, sym (append-nil _), kept)
  hmac_sign_write_all h (x ∷ b) kept =
      let (s, wrote, now, kept') = hmac_sign_write_lem h (x ∷ b) kept in
      (_, write_all_once (hmac_sign_write c write) h _ x b wrote, now, refl, refl, kept')
