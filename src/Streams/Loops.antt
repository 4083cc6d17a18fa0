-- ===== src/Streams/Loops.antt =====
-- The loops of hmac_key.go, aes_key.go and streams.go around a Write.
use dkeyczar.Prelude.{
  ℕ, zero, suc, ◌+◌, ◌≡◌, ◌≤◌, refl, sym, Bytes, Error, none, some, [], ◌∷◌, append-nil, length,
  drop, length-drop, ◌⊎◌, inl, inr, arith,
}
use dkeyczar.Streams.{returns, Write, Written, Advances, IsSinkIn, write_rest, write_all}

drop_all : (b : Bytes) → drop (length b) b ≡ []
drop_all [] = refl
drop_all (x ∷ b) = drop_all b

zero_add : (n : ℕ) → 0 + n ≡ n
zero_add n = omega arith

module _ {S : Type 0} (write : Write S) where
  write_rest_ends :
      Advances write
      → (fuel : ℕ) (s : S) (w : ℕ) (b : Bytes) → length b ≤ fuel
      → (r : Written S) × (write_rest write fuel s w b ≡ returns r)
        × (((r.failed ≡ none) × (r.count ≡ w + length b)) ⊎ ((e : Error) × (r.failed ≡ some e)))
  unfolding write_rest
  write_rest_ends adv fuel s w [] h = (_, refl, inl (refl, omega arith))
  write_rest_ends adv zero s w (x ∷ b) h = absurd (omega arith)
  write_rest_ends adv (suc fuel) s w (x ∷ b) h =
      let (r, wrote, in_range, outcome) = adv s x b in
      elim outcome [
        | inr (e, failed) ↦ (
          record { state = r.state; count = w + r.count; failed = some e },
          rw (wrote, write_rest, failed) refl,
          inr (e, refl),
        )
        | inl (fine, some_more) ↦
            let (r', ended, outcome') =
              write_rest_ends adv fuel r.state (w + r.count) (drop r.count (x ∷ b))
                (rw length-drop (omega arith)) in
            (r', rw (wrote, write_rest, fine) ended, counted r.count r' in_range outcome')
      ]
    where
      counted :
          (n : ℕ) (r' : Written S)
          → n ≤ length (x ∷ b)
          → (((r'.failed ≡ none) × (r'.count ≡ w + n + length (drop n (x ∷ b))))
              ⊎ ((e : Error) × (r'.failed ≡ some e)))
          → (((r'.failed ≡ none) × (r'.count ≡ w + length (x ∷ b)))
              ⊎ ((e : Error) × (r'.failed ≡ some e)))
      counted n r' in_range (inr e) = inr e
      counted n r' in_range (inl (fine, total)) =
          inl (fine, omega (arith, total, length-drop n (x ∷ b)))

  write_rest_done :
      (fuel : ℕ) (s : S) (w n : ℕ) (b : Bytes)
      → b ≡ []
      → w ≡ n
      → write_rest write fuel s w b ≡ returns (record { state = s; count = n; failed = none })
  unfolding write_rest
  write_rest_done fuel s w n b none_left e = rw (none_left, e) refl

  -- The write loop ends, without running out of fuel, over every writer whose calls return with an
  -- error or with at least one and at most all of the bytes written: it stops with the first error
  -- or has written everything.
  pub write_all_ends :
      Advances write
      → (s : S) (b : Bytes)
      → (r : Written S) × (write_all write s b ≡ returns r)
        × (((r.failed ≡ none) × (r.count ≡ length b)) ⊎ ((e : Error) × (r.failed ≡ some e)))
  unfolding write_all
  write_all_ends adv s b = rw zero_add at (write_rest_ends adv (length b) s 0 b (omega arith))

  -- A write that takes all of its bytes at once is the only round of the loop.
  pub write_all_once :
      (s s' : S) (x : ℕ) (b : Bytes)
      → write s (x ∷ b) ≡ returns (record { state = s'; count = length (x ∷ b); failed = none })
      → write_all write s (x ∷ b)
        ≡ returns (record { state = s'; count = length (x ∷ b); failed = none })
  unfolding write_all write_rest
  write_all_once s s' x b wrote =
      rw (write_all, wrote, write_rest)
        (write_rest_done (length b) s' _ (length (x ∷ b)) _ (drop_all b) (zero_add _))

  -- Over a sink that accepts everything, the loop appends its bytes.
  pub write_all-IsSinkIn :
      (Keeps : S → Type 0) (contents : S → Bytes)
      → IsSinkIn Keeps write contents
      → IsSinkIn Keeps (write_all write) contents
  unfolding write_all write_rest
  write_all-IsSinkIn Keeps contents sink s [] kept = (s, refl, sym (append-nil (contents s)), kept)
  write_all-IsSinkIn Keeps contents sink s (x ∷ b) kept =
      let (s', wrote, now, kept') = sink s (x ∷ b) kept in
      (s', write_all_once s s' x b wrote, now, kept')
