-- ===== src/Streams/Deciphering/Rounds.antt =====
-- streams.go, cryptoReader: the rounds of its loop over an encrypted text.
use dkeyczar.Prelude.{
  ℕ, zero, suc, ◌+◌, ◌-◌, ◌%◌, ◌<◌, ◌≤◌, ◌≡◌, refl, ap, ◌∙◌, Bytes, Bool, true, false, Option-cases,
  ok-injective, none, some, [], ◌∷◌, append-nil, length, take, drop, ltb, leb, if◌then◌else◌,
  Bool-cases, inl, inr, All, IsByte, arith, ok,
}
use dkeyczar.Crypto.{Crypto, CryptoLaws, IsCipherKey}
use dkeyczar.Util.Padding.{last?, pkcs5pad, pkcs5unpad, pkcs5pad_shape, pkcs5unpad-pkcs5pad}
use dkeyczar.Keys.Aes.Crypt.{pkcs5pad-IsByte}
use dkeyczar.Streams.{Run, returns, panics, Got, at_eof}
use dkeyczar.Streams.Ciphering.{new_block_mode, crypt_blocks}
use dkeyczar.Streams.Deciphering.{
  CryptoReader, new_crypto_reader, to_read, truncate_pad, read_out, decrypt_round, read_round,
  read_rounds, crypto_read,
}

-- io.CopyN over a reader that has those contents.
abbrev pub IsCopied : {S : Type 0} → (S → ℕ → Run (Got S)) → (S → Bytes) → Type 0
IsCopied {S} copy_n contents =
    (s : S) (n : ℕ)
    → (s' : S) × (copy_n s n
        ≡ returns (record {
          state = s';
          bytes = take n (contents s);
          stop = if ltb (length (contents s)) n then some at_eof else none;
        }))
      × (contents s' ≡ drop n (contents s))

-- At least 17 bytes more than are missing.
to_read_lem : (missing : ℕ) → missing + 17 ≤ to_read missing
unfolding to_read
to_read_lem missing = ground arith

pub take_long : (n : ℕ) (b : Bytes) → length b ≤ n → take n b ≡ b
take_long zero [] h = refl
take_long zero (x ∷ b) h = absurd (omega arith)
take_long (suc n) [] h = refl
take_long (suc n) (x ∷ b) h = ap (◌∷◌ x) (take_long n b (omega arith))

pub drop_long : (n : ℕ) (b : Bytes) → length b ≤ n → drop n b ≡ []
drop_long zero [] h = refl
drop_long zero (x ∷ b) h = absurd (omega arith)
drop_long (suc n) [] h = refl
drop_long (suc n) (x ∷ b) h = drop_long n b (omega arith)

-- Truncating is unpadding.
truncate_pad_lem : (b p : Bytes) → pkcs5unpad b ≡ ok p → truncate_pad b ≡ returns p
unfolding truncate_pad pkcs5unpad
truncate_pad_lem b p e = elim (Option-cases (last? b)) [
  | inl empty ↦ cc (rw (empty, pkcs5unpad) at e)
  | inr (pad, last) ↦ elim (Bool-cases (leb pad (length b))) [
    | inl fits ↦
        rw (truncate_pad, last, fits) (ap returns (ok-injective (rw (last, pkcs5unpad, fits) at e)))
    | inr long ↦ cc (rw (last, pkcs5unpad, long) at e)
  ]
]

module _ (c : Crypto) (laws : CryptoLaws c) {S : Type 0} (copy_n : S → ℕ → Run (Got S))
    (contents : S → Bytes) (copied : IsCopied copy_n contents) (key iv p : Bytes)
    (cipher : IsCipherKey key) (h16 : length iv ≡ 16) (bytes : All IsByte p) (s : S)
    (encrypted : contents s ≡ c.cbc_encrypt key iv (pkcs5pad p 16)) where
  unfoldable pub padded : Bytes
  padded = pkcs5pad p 16

  decrypted : c.cbc_decrypt key iv (contents s) ≡ padded
  unfolding padded
  decrypted =
      ap (c.cbc_decrypt key iv) encrypted
      ∙ laws.cbc_decrypt-encrypt key iv (pkcs5pad p 16) cipher h16
          (pkcs5pad_shape p 16 (omega arith)).0 (pkcs5pad-IsByte p 16 bytes)

  long : length (contents s) ≡ length padded
  unfolding padded
  long =
      rw encrypted
        (laws.length-cbc_encrypt key iv (pkcs5pad p 16) (pkcs5pad_shape p 16 (omega arith)).0)

  whole : length (contents s) % 16 ≡ 0
  unfolding padded
  whole = rw long ((pkcs5pad_shape p 16 (omega arith)).0)

  -- The reader once it has seen the end of the text.
  abbrev drained : S → Bytes → CryptoReader S
  drained s' out = record {
    bm = record { key = key; iv = iv; fed = contents s };
    out_buf = out;
    in_buf = [];
    source = s';
    eof = true;
  }

  -- … and while it has not.
  abbrev filled : S → Bytes → CryptoReader S
  filled s' out = record (drained s' out) { eof = false }

  whole_front : length (contents s) - length (contents s) % 16 ≡ length (contents s)
  whole_front = omega (arith, whole)

  abbrev received : S → Bool → CryptoReader S
  received s' ended = record {
    bm = new_block_mode key iv;
    out_buf = [];
    in_buf = contents s;
    source = s';
    eof = ended;
  }

  decrypt_round-ended :
      (s' : S)
      → decrypt_round c copy_n (received s' true) (length (contents s)) true
        ≡ returns (record { state = drained s' p; failed = none })
  unfolding decrypt_round crypt_blocks padded
  decrypt_round-ended s' =
      rw
        (
          decrypt_round,
          whole,
          whole_front,
          take_long (length (contents s)) (contents s) (omega arith),
          drop_long (length (contents s)) (contents s) (omega arith),
          decrypted,
        )
        (rw
          (
            whole,
            truncate_pad_lem (pkcs5pad p 16) p
                (pkcs5unpad-pkcs5pad p 16 (omega arith) (omega arith)),
          )
          refl)

  decrypt_round-going :
      (s' : S)
      → decrypt_round c copy_n (received s' false) (length (contents s)) false
        ≡ returns (record { state = filled s' padded; failed = none })
  unfolding decrypt_round crypt_blocks padded
  decrypt_round-going s' =
      rw
        (
          decrypt_round,
          whole,
          whole_front,
          take_long (length (contents s)) (contents s) (omega arith),
          drop_long (length (contents s)) (contents s) (omega arith),
          decrypted,
        )
        (rw whole refl)

  -- The first round, when the source ends in it …
  first_round-ended :
      (n : ℕ)
      → length padded < to_read n
      → (s' : S) × (read_round c copy_n (new_crypto_reader (new_block_mode key iv) s) n
          ≡ returns (record { state = drained s' p; failed = none }))
  unfolding read_round
  first_round-ended n fits =
      let (s', got, now) = copied s (to_read n) in
      let ended : ltb (length (contents s)) (to_read n) ≡ true = ground (arith, long) in
      (
        s',
        rw (read_round, got, ended, take_long (to_read n) (contents s) (omega (arith, long)))
            (decrypt_round-ended s'),
      )

  -- … and when it holds exactly what the round asks for.
  first_round-going :
      (n : ℕ)
      → to_read n ≡ length padded
      → (s' : S) × (read_round c copy_n (new_crypto_reader (new_block_mode key iv) s) n
          ≡ returns (record { state = filled s' padded; failed = none }))
        × (contents s' ≡ [])
  unfolding read_round
  first_round-going n fits =
      let (s', got, now) = copied s (to_read n) in
      let more : ltb (length (contents s)) (to_read n) ≡ false = ground (arith, long) in
      (
        s',
        rw (read_round, got, more, take_long (to_read n) (contents s) (omega (arith, long)))
            (decrypt_round-going s'),
        now ∙ drop_long (to_read n) (contents s) (omega (arith, long)),
      )

  positive : (m : ℕ) → ltb 0 (suc m) ≡ true
  positive m = ground arith

  less_none : (n : ℕ) → n - 0 ≡ n
  less_none n = omega arith

  pub crypto_read-ended :
      (m : ℕ)
      → length padded < to_read (suc m)
      → (s' : S) × (crypto_read c copy_n (new_crypto_reader (new_block_mode key iv) s) (suc m)
          ≡ returns (read_out (drained s' p) (suc m)))
  unfolding crypto_read read_rounds
  crypto_read-ended m fits =
      let (s', ran) = first_round-ended (suc m) fits in
      (s', rw (crypto_read, positive m, read_rounds, less_none (suc m), ran) refl)

  pub crypto_read-going :
      (m : ℕ)
      → to_read (suc m) ≡ length padded
      → (s' : S) × (crypto_read c copy_n (new_crypto_reader (new_block_mode key iv) s) (suc m)
          ≡ returns (read_out (filled s' padded) (suc m)))
        × (contents s' ≡ [])
  unfolding crypto_read read_rounds
  crypto_read-going m fits =
      let (s', ran, now) = first_round-going (suc m) fits in
      let enough : ltb (length padded) (suc m) ≡ false = ground (arith, to_read_lem (suc m)) in
      (s', rw (crypto_read, positive m, read_rounds, less_none (suc m), ran, enough) refl, now)

  -- Later Reads.
  pub crypto_read-drained :
      (s' : S) (out : Bytes) (n : ℕ)
      → crypto_read c copy_n (drained s' out) n ≡ returns (read_out (drained s' out) n)
  unfolding crypto_read read_rounds
  crypto_read-drained s' out n = refl

  pub crypto_read-filled :
      (s' : S) (out : Bytes) (n : ℕ)
      → n ≤ length out
      → crypto_read c copy_n (filled s' out) n ≡ returns (read_out (filled s' out) n)
  unfolding crypto_read read_rounds
  crypto_read-filled s' out n h =
      let enough : ltb (length out) n ≡ false = ground arith in
      rw (crypto_read, read_rounds, enough) refl

  -- A Read of a reader whose buffer and source are used up, before it has seen the end.
  last_round :
      (s' : S) (n : ℕ) → contents s' ≡ [] → read_round c copy_n (filled s' []) (suc n) ≡ panics
  unfolding read_round decrypt_round crypt_blocks truncate_pad
  last_round s' n none_left =
      let (s'', got, now) = copied s' (to_read (suc n)) in
      let ended : ltb 0 (to_read (suc n)) ≡ true = ground (arith, to_read_lem (suc n)) in
      let nothing : drop (length (contents s)) (c.cbc_decrypt key iv (contents s)) ≡ [] =
        rw decrypted (drop_long (length (contents s)) padded (omega (arith, long))) in
      rw
        (
          read_round,
          got,
          none_left,
          ended,
          take_long (to_read (suc n)) [] (omega arith),
          append-nil (contents s),
          nothing,
        )
        refl

  pub crypto_read-filled_nil :
      (s' : S) (n : ℕ) → contents s' ≡ [] → crypto_read c copy_n (filled s' []) (suc n) ≡ panics
  unfolding crypto_read read_rounds
  crypto_read-filled_nil s' n none_left =
      rw (crypto_read, positive n, read_rounds, less_none (suc n), last_round s' n none_left) refl
