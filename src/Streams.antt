-- ===== src/Streams.antt =====
-- Go's io.Writer and io.WriteCloser, the loops over them, and the wrappers of util.go. The
-- writers of hmac_key.go, streams.go and aes_key.go are in the children.
pub mod Loops
pub mod Signing
pub mod Ciphering
pub mod Refine
pub mod Ends
pub mod Stages
pub mod Verifying
pub mod Deciphering
use dkeyczar.Prelude.{
  ℕ, zero, suc, ◌+◌, ◌≡◌, ◌≤◌, ◌<◌, Bytes, Error, Option, none, some, List, [], ◌∷◌, ◌++◌, length,
  drop, ◌⊎◌,
}

-- How a call ends: it returns, panics, or is still looping when its fuel is used up.
pub data Run {ℓ} (A : Type ℓ) : Type ℓ where
  returns : A → Run A
  panics : Run A
  looping : Run A

abbrev pub ◌>>=◌ {ℓ κ} : {A : Type ℓ} {B : Type κ} → Run A → (A → Run B) → Run B
returns x >>= next = next x
panics >>= next = panics
looping >>= next = looping

infixl 5 ◌>>=◌
-- (n, err) of a Write, with what the writer is afterwards.
pub record Written (S : Type 0) : Type 0 where
  pub state : S
  pub count : ℕ
  pub failed : Option Error

-- The error of a Close, with what the writer is afterwards.
pub record Closed (S : Type 0) : Type 0 where
  pub state : S
  pub failed : Option Error

abbrev pub Write : Type 0 → Type 0
Write S = S → Bytes → Run (Written S)

abbrev pub Close : Type 0 → Type 0
Close S = S → Run (Closed S)

pub record WriteCloser (S : Type 0) : Type 0 where
  pub write : Write S
  pub close : Close S

-- A write of some bytes returns, with at most all of them written, and with an error or with at least
-- one of them written.
abbrev pub Advances : {S : Type 0} → Write S → Type 0
Advances {S} write =
    (s : S) (x : ℕ) (b : Bytes)
    → (w : Written S) × (write s (x ∷ b) ≡ returns w)
      × (w.count ≤ length (x ∷ b))
      × (((w.failed ≡ none) × (0 < w.count)) ⊎ ((e : Error) × (w.failed ≡ some e)))

-- A sink that accepts everything, such as a bytes.Buffer.
abbrev pub IsSink : {S : Type 0} → Write S → (S → Bytes) → Type 0
IsSink {S} write contents =
    (s : S) (b : Bytes)
    → (s' : S) × (write s b ≡ returns (record { state = s'; count = length b; failed = none }))
      × (contents s' ≡ contents s ++ b)

-- A sink that does so in the states where `Keeps` holds, and stays in such.
abbrev pub IsSinkIn : {S : Type 0} → (S → Type 0) → Write S → (S → Bytes) → Type 0
IsSinkIn {S} Keeps write contents =
    (s : S) (b : Bytes)
    → Keeps s
    → (s' : S) × (write s b ≡ returns (record { state = s'; count = length b; failed = none }))
      × (contents s' ≡ contents s ++ b)
      × Keeps s'

pub IsSink-In :
    {S : Type 0} (write : Write S) (contents : S → Bytes)
    → IsSink write contents
    → IsSinkIn (λ s. Unit {0}) write contents
IsSink-In write contents sink s b _ = let (s', wrote, now) = sink s b in (s', wrote, now, tt)

module _ {S : Type 0} (write : Write S) where
  -- `for w < len(b) { n, err := sink.Write(b[w:]); …; w += n }`, the loop of the source's writers,
  -- from what is left of the bytes and the `w` so far.
  unfoldable pub write_rest : ℕ → S → ℕ → Bytes → Run (Written S)
  write_rest fuel s w [] = returns (record { state = s; count = w; failed = none })
  write_rest zero s w (x ∷ b) = looping
  write_rest (suc fuel) s w (x ∷ b) = do
    r ← write s (x ∷ b)
    elim r.failed [
      | some e ↦ returns (record { state = r.state; count = w + r.count; failed = some e })
      | none ↦ write_rest fuel r.state (w + r.count) (drop r.count (x ∷ b))
    ]

  unfoldable pub write_all : S → Bytes → Run (Written S)
  unfolding write_rest
  write_all s b = write_rest (length b) s 0 b

-- What ends a stream: io.EOF or another error.
pub data Stop : Type 0 where
  at_eof : Stop
  failing : Error → Stop

-- (n, err) of a Read, with the bytes that it put into its buffer and what the reader is afterwards.
pub record Got (S : Type 0) : Type 0 where
  pub state : S
  pub bytes : Bytes
  pub stop : Option Stop

-- Read with a buffer of that length.
abbrev pub Read : Type 0 → Type 0
Read S = S → ℕ → Run (Got S)

-- nopWriteCloser
unfoldable pub new_nop_write_closer : {S : Type 0} → Write S → WriteCloser S
new_nop_write_closer write = record {
  write = write;
  close = λ s. returns (record { state = s; failed = none });
}

-- nestedWriterCloser; `inner` closes the other closer, on the state of both.
unfoldable pub nest_writer_closer : {S : Type 0} → WriteCloser S → Close S → WriteCloser S
nest_writer_closer w inner = record {
  write = w.write;
  close = λ s. do
    r ← w.close s
    elim r.failed [ some e ↦ returns r | none ↦ inner r.state ];
}
