-- ===== src/Examples/Streams.antt =====
-- A buffer as a sink, a sink that takes a byte at a time, and a buffer as a source.
use mathlib.Core.Path.{subst}
use dkeyczar.Prelude.{
  ℕ, zero, suc, ◌≡◌, refl, sym, ap, Bytes, none, some, [], ◌∷◌, ◌++◌, length, take, drop,
  take-append-drop, ltb, if◌then◌else◌, inl, inr, arith,
}
use dkeyczar.Streams.{Run, returns, Write, Read, Got, at_eof, IsSink, Advances}
use dkeyczar.Streams.Verifying.Close.{IsSource, returns-injective}
use dkeyczar.Streams.Verifying.Filling.{Supplies}
use dkeyczar.Streams.Verifying.Whole.{GivesAll}
use dkeyczar.Streams.Deciphering.Rounds.{IsCopied}

abbrev pub write_buffer : Write Bytes
write_buffer s b = returns (record { state = s ++ b; count = length b; failed = none })

pub write_buffer-IsSink : IsSink write_buffer (λ s. s)
write_buffer-IsSink s b = (s ++ b, refl, refl)

abbrev pub write_byte : Write Bytes
write_byte s [] = returns (record { state = s; count = 0; failed = none })
write_byte s (x ∷ b) = returns (record { state = s ++ x ∷ []; count = 1; failed = none })

pub write_byte-Advances : Advances write_byte
write_byte-Advances s x b = (_, refl, omega arith, inl (refl, omega arith))

abbrev pub read_buffer : Read Bytes
read_buffer s zero = returns (record { state = s; bytes = []; stop = none })
read_buffer [] (suc n) = returns (record { state = []; bytes = []; stop = some at_eof })
read_buffer (x ∷ s) (suc n) =
    returns (record { state = drop n s; bytes = x ∷ take n s; stop = none })

pub read_buffer-IsSource : IsSource read_buffer (λ s. s)
read_buffer-IsSource s zero r e =
    subst (λ (r : Got Bytes). s ≡ r.bytes ++ r.state) (returns-injective e) refl
read_buffer-IsSource [] (suc n) r e =
    subst (λ (r : Got Bytes). [] ≡ r.bytes ++ r.state) (returns-injective e) refl
read_buffer-IsSource (x ∷ s) (suc n) r e =
    subst (λ (r : Got Bytes). x ∷ s ≡ r.bytes ++ r.state) (returns-injective e)
      (ap (◌∷◌ x) (sym (take-append-drop n s)))

pub read_buffer-Supplies : Supplies read_buffer
read_buffer-Supplies [] n = (_, refl, inr (at_eof, refl))
read_buffer-Supplies (x ∷ s) n = (_, refl, inl (refl, omega arith))

pub read_buffer-GivesAll : GivesAll read_buffer (λ s. s)
read_buffer-GivesAll [] n = (_, refl, inr (refl, refl, refl))
read_buffer-GivesAll (x ∷ s) n = (_, refl, inl (refl, omega arith))

abbrev pub copy_buffer : Bytes → ℕ → Run (Got Bytes)
copy_buffer s n = returns (record {
  state = drop n s;
  bytes = take n s;
  stop = if ltb (length s) n then some at_eof else none;
})

pub copy_buffer-IsCopied : IsCopied copy_buffer (λ s. s)
copy_buffer-IsCopied s n = (drop n s, refl, refl)
