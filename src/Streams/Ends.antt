-- ===== src/Streams/Ends.antt =====
-- hmac_key.go, aes_key.go and streams.go: no writer loops for ever or panics over a sink that advances.
use dkeyczar.Prelude.{
  ◌%◌, ◌≡◌, refl, List, Bytes, Option-cases, [], ◌∷◌, ◌++◌, length, drop, leb, arith, true, inl,
  inr, Bool-cases, ◌==◌, ◌||◌,
}
use dkeyczar.Crypto.{Crypto}
use dkeyczar.Header.{make_header}
use dkeyczar.Util.Padding.{pkcs5pad, pkcs5pad_shape}
use dkeyczar.Keys.Aes.{AesKey, aes_key_id}
use dkeyczar.Streams.{Run, returns, ◌>>=◌, Write, Closed, Advances}
use dkeyczar.Streams.Loops.{write_all_ends}
use dkeyczar.Streams.Signing.{
  HmacSignWriter, sign_writer, hmac_signer, hmac_sign_write, hmac_sign_close,
}
use dkeyczar.Streams.Ciphering.{
  crypt_blocks, CryptoWriter, encrypt_to_sink, crypto_write, crypto_close, crypto_writer,
  write_chunks, write_then_close, encrypt_writer, encrypt_stream, feed, Opened, opened, refused,
}
use dkeyczar.Streams.Refine.{whole_front}

-- The call returns.
abbrev Ends : {A : Type 0} → Run A → Type 0
Ends {A} m = (a : A) × (m ≡ returns a)

Ends-bind :
    {A B : Type 0} (m : Run A) (f : A → Run B) → Ends m → ((a : A) → Ends (f a)) → Ends (m >>= f)
Ends-bind m f (a, e) h = rw e (h a)

module _ (c : Crypto) {S : Type 0} (write : Write S) (adv : Advances write) where
  hmac_sign_write-Advances : Advances (hmac_sign_write c write)
  unfolding hmac_sign_write
  hmac_sign_write-Advances h x b =
      let (r, wrote, in_range, outcome) = adv h.sink x b in
      let fits : leb r.count (length (x ∷ b)) ≡ true = ground arith in
      rw (wrote, hmac_sign_write, fits) (_, refl, in_range, outcome)

  hmac_sign_close_ends : (h : HmacSignWriter S) → Ends (hmac_sign_close c write h)
  unfolding hmac_sign_close
  hmac_sign_close_ends h =
      let (r, ended, outcome) = write_all_ends write adv h.sink (c.hmac_sha1 h.key h.hashed) in
      rw ended (_, refl)

  encrypt_to_sink_ends :
      (w : CryptoWriter (HmacSignWriter S)) (tmp left : Bytes)
      → length tmp % 16 ≡ 0
      → Ends (encrypt_to_sink c (hmac_signer c write) w tmp left)
  unfolding encrypt_to_sink crypt_blocks
  encrypt_to_sink_ends w tmp left whole =
      let (r, ended, outcome) =
        write_all_ends (hmac_sign_write c write) hmac_sign_write-Advances w.sink
          (drop (length w.bm.fed) (c.cbc_encrypt w.bm.key w.bm.iv (w.bm.fed ++ tmp))) in
      rw (whole, ended) (_, refl)

  crypto_write_ends :
      (w : CryptoWriter (HmacSignWriter S)) (b : Bytes)
      → Ends (crypto_write c (hmac_signer c write) w b)
  unfolding crypto_write
  crypto_write_ends w b =
      Ends-bind (encrypt_to_sink c (hmac_signer c write) w _ _) _
        (encrypt_to_sink_ends w _ _ (whole_front (w.buffer ++ b))) (λ r. (_, refl))

  crypto_close_ends :
      (w : CryptoWriter (HmacSignWriter S)) → Ends (crypto_close c (hmac_signer c write) w)
  unfolding crypto_close encrypt_to_sink_ends
  crypto_close_ends w =
      let (r, ended) =
        encrypt_to_sink_ends w (pkcs5pad w.buffer 16) []
          (pkcs5pad_shape w.buffer 16 (omega arith)).0 in
      elim (Option-cases r.failed) [
        | inr (e, failed) ↦ rw (ended, crypto_close, failed) (_, refl)
        | inl fine ↦
            let (closed, finished) = hmac_sign_close_ends r.state.sink in
            rw (ended, crypto_close, fine, finished) (_, refl)
      ]

  write_then_close_ends :
      (w : CryptoWriter (HmacSignWriter S)) (chunks : List Bytes)
      → Ends (write_then_close (crypto_writer c write) w chunks)
  unfolding write_then_close write_chunks crypto_write_ends encrypt_to_sink_ends Ends-bind
  write_then_close_ends w [] = crypto_close_ends w
  write_then_close_ends w (b ∷ more) =
      let (r, wrote) = crypto_write_ends w b in
      elim (Option-cases r.failed) [
        | inr (e, failed) ↦ rw (wrote, write_then_close, write_chunks, failed) (_, refl)
        | inl fine ↦
            rw (wrote, write_then_close, write_chunks, fine) (write_then_close_ends r.state more)
      ]

  encrypt_writer_ends : (iv : Bytes) (k : AesKey) (s : S) → Ends (encrypt_writer c write iv k s)
  unfolding encrypt_writer
  encrypt_writer_ends iv k s =
      let (r, ended, outcome) =
        write_all_ends (hmac_sign_write c write) hmac_sign_write-Advances (sign_writer k.hmac s)
          (make_header (aes_key_id c k) ++ iv) in
      elim (Bool-cases (length k.key == 16 || (length k.key == 24 || length k.key == 32))) [
        | inl size ↦ rw (encrypt_writer, size, ended) (_, refl)
        | inr size ↦ rw (encrypt_writer, size) (_, refl)
      ]

feed_ends :
    (c : Crypto) {S : Type 0} (write : Write S) (adv : Advances write) (chunks : List Bytes)
    (o : Opened S)
    → Ends (feed c write chunks o)
unfolding feed
feed_ends c write adv chunks (refused s e) = (_, refl)
feed_ends c write adv chunks (opened w) =
    let (r, e) = write_then_close_ends c write adv w chunks in rw e (_, refl)

-- Over every sink whose calls return with an error or with progress, EncryptWriter, any sequence of
-- writes and the Close at its end return: none of their loops runs for ever and nothing panics,
-- whatever the key and the vector.
pub encrypt_stream_ends :
    (c : Crypto) {S : Type 0} (write : Write S) (iv : Bytes) (k : AesKey) (s : S)
    (chunks : List Bytes)
    → Advances write
    → (r : Closed S) × (encrypt_stream c write iv k s chunks ≡ returns r)
unfolding encrypt_stream
encrypt_stream_ends c write iv k s chunks adv =
    Ends-bind (encrypt_writer c write iv k s) (feed c write chunks)
      (encrypt_writer_ends c write adv iv k s) (feed_ends c write adv chunks)
