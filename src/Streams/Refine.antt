-- ===== src/Streams/Refine.antt =====
-- streams.go and aes_key.go: a stream of writes leaves in the sink what Encrypt returns for all of it.
use mathlib.Core.Path.{subst}
use dkeyczar.Prelude.{
  ℕ, ◌+◌, ◌-◌, ◌%◌, ◌≡◌, refl, sym, ap, ◌∙◌, List, Bytes, none, [], ◌∷◌, ◌++◌, append_assoc,
  append-nil, length, take, drop, arith, length-append, length-take, take-append-drop, ok,
}
use dkeyczar.Crypto.{Crypto, CryptoLaws, IsCipherKey}
use dkeyczar.Header.{make_header}
use dkeyczar.Util.Padding.{pkcs5pad, pkcs5pad_shape}
use dkeyczar.Keys.Aes.{AesKey, aes_key_id, aes_encrypt}
use dkeyczar.Keys.Aes.Crypt.{aes_encrypt_lem, new_cipher_ok}
use dkeyczar.Streams.{returns, Write, WriteCloser, IsSink, IsSinkIn, IsSink-In}
use dkeyczar.Streams.Signing.{
  HmacSignWriter, sign_writer, hmac_signer, hmac_sign_write_all, hmac_sign_close_lem,
}
use dkeyczar.Streams.Ciphering.{
  crypt_blocks, CryptoWriter, encrypt_to_sink, crypto_write, crypto_close, crypto_writer,
  write_chunks, write_then_close, encrypt_writer, encrypt_stream, feed, opened, new_crypto_writer,
  new_block_mode,
}

-- The concatenation of the writes.
abbrev pub concat : List Bytes → Bytes
concat [] = []
concat (b ∷ more) = b ++ concat more

-- A run of writes to a sink that accepts everything.
pub write_chunks-IsSinkIn :
    {T : Type 0} (w : WriteCloser T) (Runs : T → Type 0) (given : T → Bytes)
    → IsSinkIn Runs w.write given
    → (x : T) (chunks : List Bytes) → Runs x
    → (x' : T) × (write_chunks w x chunks ≡ returns (record { state = x'; failed = none }))
      × (given x' ≡ given x ++ concat chunks)
      × Runs x'
unfolding write_chunks
write_chunks-IsSinkIn w Runs given sink x [] runs = (x, refl, sym (append-nil (given x)), runs)
write_chunks-IsSinkIn w Runs given sink x (b ∷ more) runs =
    let (x₁, wrote, now, runs₁) = sink x b runs in
    let (x₂, ran, now₂, runs₂) = write_chunks-IsSinkIn w Runs given sink x₁ more runs₁ in
    (
      x₂,
      rw wrote ran,
      now₂ ∙ ap (λ y. y ++ concat more) now ∙ append_assoc (given x) b (concat more),
      runs₂,
    )

whole_mod : (a b : ℕ) → a % 16 ≡ 0 → b % 16 ≡ 0 → (a + b) % 16 ≡ 0
whole_mod a b h h' = omega arith

pub whole_front : (b : Bytes) → length (take (length b - length b % 16) b) % 16 ≡ 0
whole_front b = rw length-take (omega arith)

length-zero : (b : Bytes) → length b ≡ 0 → b ≡ []
length-zero [] h = refl
length-zero (x ∷ b) h = absurd (omega arith)

-- Padding looks at the last block alone.
pkcs5pad-append :
    (front back : Bytes)
    → length front % 16 ≡ 0
    → pkcs5pad (front ++ back) 16 ≡ front ++ pkcs5pad back 16
unfolding pkcs5pad
pkcs5pad-append front back h = rw (same, append_assoc) refl
  where
    same : length (front ++ back) % 16 ≡ length back % 16
    same = rw length-append (omega arith)

module _ (c : Crypto) (laws : CryptoLaws c) {S : Type 0} (write : Write S) (contents : S → Bytes)
    (Keeps : S → Type 0) (sink : IsSinkIn Keeps write contents) (k : AesKey)
    (cipher : IsCipherKey k.key) (iv start : Bytes) where
  -- What has been hashed once the blocks `fed` are encrypted.
  abbrev pub written : Bytes → Bytes
  written fed = make_header (aes_key_id c k) ++ (iv ++ c.cbc_encrypt k.key iv fed)

  -- The writer after the writes of `p`.
  pub record IsAfter (p : Bytes) (w : CryptoWriter (HmacSignWriter S)) : Type 0 where
    pub mode_key : w.bm.key ≡ k.key
    pub mode_iv : w.bm.iv ≡ iv
    pub whole : length w.bm.fed % 16 ≡ 0
    pub all_of_p : w.bm.fed ++ w.buffer ≡ p
    pub hmac_key : w.sink.key ≡ k.hmac.key
    pub hashed : w.sink.hashed ≡ written w.bm.fed
    pub sunk : contents w.sink.sink ≡ start ++ w.sink.hashed
    pub kept : Keeps w.sink.sink

  -- The tail of the cipher text continues what has been written.
  written-append :
      (fed tmp : Bytes)
      → length fed % 16 ≡ 0
      → length tmp % 16 ≡ 0
      → written fed ++ drop (length fed) (c.cbc_encrypt k.key iv (fed ++ tmp))
        ≡ written (fed ++ tmp)
  written-append fed tmp h h' =
      append_assoc (make_header (aes_key_id c k)) _ _
      ∙ ap (λ x. make_header (aes_key_id c k) ++ x)
          (append_assoc iv _ _
            ∙ ap (λ x. iv ++ x)
                (ap (λ x. x ++ drop (length fed) (c.cbc_encrypt k.key iv (fed ++ tmp)))
                    (sym (laws.take-cbc_encrypt k.key iv fed tmp h h'))
                  ∙ take-append-drop (length fed) (c.cbc_encrypt k.key iv (fed ++ tmp))))

  encrypt_to_sink-IsAfter :
      (w : CryptoWriter (HmacSignWriter S)) (p tmp left : Bytes)
      → IsAfter p w
      → length tmp % 16 ≡ 0
      → (w' : CryptoWriter (HmacSignWriter S)) × (n : ℕ) × (encrypt_to_sink c
            (hmac_signer c write)
            w
            tmp
            left
          ≡ returns (record { state = w'; count = n; failed = none }))
        × (w'.bm.fed ≡ w.bm.fed ++ tmp)
        × (w'.buffer ≡ left)
        × IsAfter ((w.bm.fed ++ tmp) ++ left) w'
  unfolding encrypt_to_sink crypt_blocks
  encrypt_to_sink-IsAfter w p tmp left after whole_tmp =
      let out = drop (length w.bm.fed) (c.cbc_encrypt w.bm.key w.bm.iv (w.bm.fed ++ tmp)) in
      let (h, wrote, now, same_key, now_hashed, kept) =
        hmac_sign_write_all c write contents Keeps sink w.sink out after.kept in
      let w' : CryptoWriter (HmacSignWriter S) = record {
        bm = record { key = w.bm.key; iv = w.bm.iv; fed = w.bm.fed ++ tmp };
        buffer = left;
        sink = h;
        count = w.count + length out;
      } in
      (
        w',
        length out,
        rw (whole_tmp, wrote) refl,
        refl,
        refl,
        record {
          mode_key = after.mode_key;
          mode_iv = after.mode_iv;
          whole = rw length-append (whole_mod (length w.bm.fed) (length tmp) after.whole whole_tmp);
          all_of_p = refl;
          hmac_key = same_key ∙ after.hmac_key;
          hashed =
              now_hashed
              ∙ rw (after.mode_key, after.mode_iv, after.hashed)
                  (written-append w.bm.fed tmp after.whole whole_tmp);
          sunk =
              now
              ∙ ap (λ x. x ++ out) after.sunk
              ∙ append_assoc start w.sink.hashed out
              ∙ ap (λ x. start ++ x) (sym now_hashed);
          kept = kept;
        },
      )

  crypto_write-IsAfter :
      (w : CryptoWriter (HmacSignWriter S)) (p b : Bytes)
      → IsAfter p w
      → (w' : CryptoWriter (HmacSignWriter S)) × (crypto_write c (hmac_signer c write) w b
          ≡ returns (record { state = w'; count = length b; failed = none }))
        × IsAfter (p ++ b) w'
  unfolding crypto_write
  crypto_write-IsAfter w p b after =
      let buffer = w.buffer ++ b in
      let n = length buffer - length buffer % 16 in
      let (w', count, wrote, fed, left, now) =
        encrypt_to_sink-IsAfter w p (take n buffer) (drop n buffer) after (whole_front buffer) in
      (
        w',
        rw wrote refl,
        subst (λ q. IsAfter q w')
            (append_assoc w.bm.fed _ _
              ∙ ap (λ x. w.bm.fed ++ x) (take-append-drop n buffer)
              ∙ sym (append_assoc w.bm.fed w.buffer b)
              ∙ ap (λ x. x ++ b) after.all_of_p)
            now,
      )

  -- The writer as a sink of all the bytes that it has been given.
  abbrev pub fed_all : CryptoWriter (HmacSignWriter S) → Bytes
  fed_all w = w.bm.fed ++ w.buffer

  abbrev pub KeepsAfter : CryptoWriter (HmacSignWriter S) → Type 0
  KeepsAfter w = IsAfter (fed_all w) w

  pub IsAfter-KeepsAfter :
      (p : Bytes) (w : CryptoWriter (HmacSignWriter S)) → IsAfter p w → KeepsAfter w
  IsAfter-KeepsAfter p w after = subst (λ q. IsAfter q w) (sym after.all_of_p) after

  pub crypto_write-IsSinkIn : IsSinkIn KeepsAfter (crypto_write c (hmac_signer c write)) fed_all
  crypto_write-IsSinkIn w b after =
      let (w', wrote, after') = crypto_write-IsAfter w (fed_all w) b after in
      (w', wrote, after'.all_of_p, IsAfter-KeepsAfter (fed_all w ++ b) w' after')

  -- What Encrypt returns for the padded bytes.
  abbrev pub sealed : Bytes → Bytes
  sealed padded = written padded ++ c.hmac_sha1 k.hmac.key (written padded)

  pub crypto_close-IsAfter :
      (w : CryptoWriter (HmacSignWriter S)) (p : Bytes)
      → IsAfter p w
      → (w' : CryptoWriter (HmacSignWriter S)) × (crypto_close c (hmac_signer c write) w
          ≡ returns (record { state = w'; failed = none }))
        × (contents w'.sink.sink ≡ start ++ sealed (pkcs5pad p 16))
        × Keeps w'.sink.sink
  unfolding crypto_close
  crypto_close-IsAfter w p after =
      let (w', count, wrote, fed, left, now) =
        encrypt_to_sink-IsAfter w p (pkcs5pad w.buffer 16) [] after
          (pkcs5pad_shape w.buffer 16 (omega arith)).0 in
      let (h, closed, tagged, kept) =
        hmac_sign_close_lem c write contents Keeps sink w'.sink now.kept in
      let all : w'.bm.fed ≡ pkcs5pad p 16 =
        fed
        ∙ sym (pkcs5pad-append w.bm.fed w.buffer after.whole)
        ∙ ap (λ x. pkcs5pad x 16) after.all_of_p in
      (
        record w' { sink = h },
        rw (wrote, closed) refl,
        tagged ∙ rw (now.sunk, now.hmac_key, now.hashed, all) (append_assoc start _ _),
        kept,
      )

  written-nil : written [] ≡ make_header (aes_key_id c k) ++ iv
  written-nil =
      ap (λ x. make_header (aes_key_id c k) ++ (iv ++ x))
        (length-zero (c.cbc_encrypt k.key iv []) (laws.length-cbc_encrypt k.key iv [] refl))
      ∙ ap (λ x. make_header (aes_key_id c k) ++ x) (append-nil iv)

  pub encrypt_writer-IsAfter :
      (s : S)
      → contents s ≡ start
      → Keeps s
      → length iv ≡ 16
      → (w : CryptoWriter (HmacSignWriter S)) × (encrypt_writer c write iv k s ≡ returns (opened w))
        × IsAfter [] w
  unfolding encrypt_writer
  encrypt_writer-IsAfter s e kept h16 =
      let head = make_header (aes_key_id c k) ++ iv in
      let (h, wrote, now, same_key, now_hashed, kept') =
        hmac_sign_write_all c write contents Keeps sink (sign_writer k.hmac s) head kept in
      (
        new_crypto_writer (new_block_mode k.key iv) h,
        rw (encrypt_writer, new_cipher_ok k.key cipher, wrote) refl,
        record {
          mode_key = refl;
          mode_iv = refl;
          whole = refl;
          all_of_p = refl;
          hmac_key = same_key;
          hashed = now_hashed ∙ sym written-nil;
          sunk = now ∙ rw (e, now_hashed) refl;
          kept = kept';
        },
      )

  -- EncryptWriter, the writes and Close, over a sink that accepts everything in its states.
  pub encrypt_stream-Keeps :
      (s : S) (chunks : List Bytes)
      → contents s ≡ start
      → Keeps s
      → length iv ≡ 16
      → (w w' : CryptoWriter (HmacSignWriter S)) × (encrypt_writer c write iv k s
          ≡ returns (opened w))
        × (write_then_close (crypto_writer c write) w chunks
            ≡ returns (record { state = w'; failed = none }))
        × (contents w'.sink.sink ≡ start ++ sealed (pkcs5pad (concat chunks) 16))
        × Keeps w'.sink.sink
  unfolding write_then_close
  encrypt_stream-Keeps s chunks e kept h16 =
      let (w, began, after) = encrypt_writer-IsAfter s e kept h16 in
      let (w₁, ran, fed, after₁) =
        write_chunks-IsSinkIn (crypto_writer c write) KeepsAfter fed_all crypto_write-IsSinkIn w
          chunks (IsAfter-KeepsAfter [] w after) in
      let all = fed ∙ ap (λ x. x ++ concat chunks) after.all_of_p in
      let (w₂, closed, now, kept') =
        crypto_close-IsAfter w₁ (concat chunks) (subst (λ q. IsAfter q w₁) all after₁) in
      (w, w₂, began, rw (ran, write_then_close, closed) refl, now, kept')

-- For a key of a cipher size, a vector of 16 bytes and a sink that accepts everything: EncryptWriter,
-- any sequence of writes and then Close all succeed, and what they have appended to the sink is what
-- Encrypt returns for all that was written, whatever the sizes of the writes.
pub encrypt_stream-refines :
    (c : Crypto) {S : Type 0} (write : Write S) (contents : S → Bytes) (k : AesKey) (iv : Bytes)
    (s : S) (chunks : List Bytes)
    → CryptoLaws c
    → IsSink write contents
    → IsCipherKey k.key
    → length iv ≡ 16
    → (s' : S) × (ciphertext : Bytes) × (encrypt_stream c write iv k s chunks
        ≡ returns (record { state = s'; failed = none }))
      × (aes_encrypt c iv k (concat chunks) ≡ ok ciphertext)
      × (contents s' ≡ contents s ++ ciphertext)
unfolding encrypt_stream write_then_close feed
encrypt_stream-refines c write contents k iv s chunks laws sink cipher h16 =
    let (w, w', began, ran, now, _) =
      encrypt_stream-Keeps c laws write contents (λ s. Unit {0}) (IsSink-In write contents sink) k
        cipher iv (contents s) s chunks refl tt h16 in
    (
      w'.sink.sink,
      _,
      rw (began, encrypt_stream, feed, ran) refl,
      aes_encrypt_lem c laws k cipher iv (concat chunks),
      now,
    )
