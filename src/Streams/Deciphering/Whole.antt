-- ===== src/Streams/Deciphering/Whole.antt =====
-- streams.go, cryptoReader over an encrypted text: what its Reads hand out.
use dkeyczar.Prelude.{
  ℕ, zero, suc, ◌-◌, ◌<◌, ◌≤◌, ◌≡◌, refl, sym, Bytes, Bool, true, false, [], ◌∷◌, ◌++◌, length,
  take, drop, length-drop, take-append-drop, All, IsByte, arith,
}
use dkeyczar.Crypto.{Crypto, CryptoLaws, IsCipherKey}
use dkeyczar.Util.Padding.{pkcs5pad}
use dkeyczar.Streams.{Run, returns, panics, Got}
use dkeyczar.Streams.Ciphering.{BlockMode, new_block_mode}
use dkeyczar.Streams.Deciphering.{CryptoReader, new_crypto_reader, to_read, read_out, crypto_read}
use dkeyczar.Streams.Deciphering.Rounds.{
  IsCopied, take_long, drop_long, padded, crypto_read-ended, crypto_read-going, crypto_read-drained,
  crypto_read-filled, crypto_read-filled_nil,
}

take_nil : (n : ℕ) → take {A = ℕ} n [] ≡ []
take_nil zero = refl
take_nil (suc n) = refl

drop_nil : (n : ℕ) → drop {A = ℕ} n [] ≡ []
drop_nil zero = refl
drop_nil (suc n) = refl

-- What a Read hands out, and what is left for the next.
read_out_lem :
    {S : Type 0} (bm : BlockMode) (out in_buf : Bytes) (s : S) (eof : Bool) (n : ℕ)
    → ((read_out
          (record { bm = bm; out_buf = out; in_buf = in_buf; source = s; eof = eof })
          n).bytes
        ≡ take n out)
      × ((read_out
            (record { bm = bm; out_buf = out; in_buf = in_buf; source = s; eof = eof })
            n).state
          ≡ record { bm = bm; out_buf = drop n out; in_buf = in_buf; source = s; eof = eof })
unfolding read_out
read_out_lem bm [] in_buf s eof n = (sym (take_nil n), rw (drop_nil n) refl)
read_out_lem bm (x ∷ out) in_buf s eof n = (refl, refl)

-- For an encrypted text that is shorter than what the first Read asks its source for, and a source from which
-- io.CopyN copies the text and then reports io.EOF: the first Read, with a buffer that is not empty, hands
-- out the plaintext up to the size of the buffer, and the second, of any size, goes on where it ended.
pub crypto_read-plaintext :
    (c : Crypto) {S : Type 0} (copy_n : S → ℕ → Run (Got S)) (contents : S → Bytes)
    (key iv p : Bytes) (s : S) (m n : ℕ)
    → CryptoLaws c
    → IsCopied copy_n contents
    → IsCipherKey key
    → length iv ≡ 16
    → All IsByte p
    → contents s ≡ c.cbc_encrypt key iv (pkcs5pad p 16)
    → length (pkcs5pad p 16) < to_read (suc m)
    → (first second : Got (CryptoReader S)) × (crypto_read c copy_n
          (new_crypto_reader (new_block_mode key iv) s)
          (suc m)
        ≡ returns first)
      × (crypto_read c copy_n first.state n ≡ returns second)
      × (first.bytes ≡ take (suc m) p)
      × (second.bytes ≡ take n (drop (suc m) p))
unfolding padded
crypto_read-plaintext c {S = S} copy_n contents key iv p s m n laws copied cipher h16 bytes
      encrypted fits =
    let (s', ran) =
      crypto_read-ended c laws copy_n contents copied key iv p cipher h16 bytes s encrypted m
        fits in
    let bm : BlockMode = record { key = key; iv = iv; fed = contents s } in
    let (got, left) = read_out_lem bm p [] s' true (suc m) in
    let (got', left') = read_out_lem bm (drop (suc m) p) [] s' true n in
    let state : CryptoReader S = record {
      bm = bm;
      out_buf = p;
      in_buf = [];
      source = s';
      eof = true;
    } in
    (
      read_out state (suc m),
      read_out (record state { out_buf = drop (suc m) p }) n,
      ran,
      rw left (
          crypto_read-drained c laws copy_n contents copied key iv p cipher h16 bytes s encrypted s'
            (drop (suc m) p) n),
      got,
      got',
    )

-- For an encrypted text that is exactly as long as what the first Read asks its source for, under the same
-- conditions, the padding is handed out as plaintext: the first Read and a second for what is left of the buffer hand out the
-- whole padded text, and a third, with a buffer that is not empty, panics.
pub crypto_read-padding :
    (c : Crypto) {S : Type 0} (copy_n : S → ℕ → Run (Got S)) (contents : S → Bytes)
    (key iv p : Bytes) (s : S) (m l : ℕ)
    → CryptoLaws c
    → IsCopied copy_n contents
    → IsCipherKey key
    → length iv ≡ 16
    → All IsByte p
    → contents s ≡ c.cbc_encrypt key iv (pkcs5pad p 16)
    → to_read (suc m) ≡ length (pkcs5pad p 16)
    → (first second : Got (CryptoReader S)) × (crypto_read c copy_n
          (new_crypto_reader (new_block_mode key iv) s)
          (suc m)
        ≡ returns first)
      × (crypto_read c copy_n first.state (length (pkcs5pad p 16) - suc m) ≡ returns second)
      × (first.bytes ++ second.bytes ≡ pkcs5pad p 16)
      × (crypto_read c copy_n second.state (suc l) ≡ panics)
unfolding padded
crypto_read-padding c {S = S} copy_n contents key iv p s m l laws copied cipher h16 bytes encrypted
      fits =
    let (s', ran, none_left) =
      crypto_read-going c laws copy_n contents copied key iv p cipher h16 bytes s encrypted m
        fits in
    let bm : BlockMode = record { key = key; iv = iv; fed = contents s } in
    let b = pkcs5pad p 16 in
    let n = length b - suc m in
    let all : length (drop (suc m) b) ≤ n = rw length-drop (omega arith) in
    let exact : n ≤ length (drop (suc m) b) = rw length-drop (omega arith) in
    let (got, left) = read_out_lem bm b [] s' false (suc m) in
    let (got', left') = read_out_lem bm (drop (suc m) b) [] s' false n in
    let state : CryptoReader S = record {
      bm = bm;
      out_buf = b;
      in_buf = [];
      source = s';
      eof = false;
    } in
    (
      read_out state (suc m),
      read_out (record state { out_buf = drop (suc m) b }) n,
      ran,
      rw left (
          crypto_read-filled c laws copy_n contents copied key iv p cipher h16 bytes s encrypted s'
            (drop (suc m) b) n exact),
      rw (got, got', take_long n (drop (suc m) b) all) (take-append-drop (suc m) b),
      rw (left', drop_long n (drop (suc m) b) all)
          (crypto_read-filled_nil c laws copy_n contents copied key iv p cipher h16 bytes s
            encrypted s' l none_left),
    )
