-- ===== src/Readers/Pbe/Writer.antt =====
-- streams.go, pbeCryptoWriter, and its constructor in readers.go: a writer that keeps all of its bytes
-- until it is closed. Its Close pads, encrypts and marshals with code of its own.
use dkeyczar.Prelude.{
  ℕ, zero, suc, ◌-◌, ◌%◌, ◌≡◌, refl, ap, ◌∙◌, Bytes, Result, ok, err, panic, none, some, List, [],
  ◌∷◌, ◌++◌, append_assoc, append-nil, length, replicate, All, IsByte, length-replicate,
}
use dkeyczar.Crypto.{Crypto, CryptoLaws}
use dkeyczar.Json.{Json, JsonLaws, PbeKeyJson}
use dkeyczar.Util.Web64.{encode_web64_string}
use dkeyczar.Keys.Aes.{block_size}
use dkeyczar.Session.RoundTrip.{IsRandom}
use dkeyczar.Readers.Pbe.{PbeCipher, pad_spaces, create_aes_cipher, pbe_encrypt, pbe_decrypt}
use dkeyczar.Readers.Pbe.RoundTrip.{length-pad_spaces, pbe_encrypt_parts}
use dkeyczar.Streams.{Run, returns, panics, ◌>>=◌, Write, Closed, WriteCloser, IsSink}
use dkeyczar.Streams.Ciphering.{
  BlockMode, new_block_mode, crypt_blocks, write_chunks, write_then_close,
}
use dkeyczar.Streams.Refine.{concat}

pub record PbeCryptoWriter (S : Type 0) : Type 0 where
  pub pbe : PbeKeyJson
  pub aes_cipher : BlockMode
  pub buffered : Bytes
  pub sink : S

-- EncryptWriter of a PBE crypter.
unfoldable pub pbe_encrypt_writer :
    Crypto → Bytes → Bytes → Bytes → {S : Type 0} → S → Result (PbeCryptoWriter S)
pbe_encrypt_writer c password salt iv sink = elim (create_aes_cipher c password salt iv) [
  | ok pc ↦ ok (record {
    pbe = pc.pbe;
    aes_cipher = new_block_mode pc.key pc.iv;
    buffered = [];
    sink = sink;
  })
  | err e ↦ err e
  | panic ↦ panic
]

-- `for i := n; i < len(p); i++ { p[i] = ' ' }`
unfoldable pub set_spaces : ℕ → Bytes → Bytes
set_spaces n [] = []
set_spaces zero (x ∷ p) = 32 ∷ set_spaces zero p
set_spaces (suc n) (x ∷ p) = x ∷ set_spaces n p

-- The slice `p` of Close: zeros, the plaintext copied over them, and spaces behind it.
unfoldable pub fill_block : Bytes → Bytes
unfolding set_spaces
fill_block plaintext =
    let needed = block_size - length plaintext % block_size in
    set_spaces (length plaintext) (plaintext ++ replicate needed 0)

module _ (c : Crypto) (j : Json) {S : Type 0} (write : Write S) where
  unfoldable pub pbe_write : Write (PbeCryptoWriter S)
  pbe_write w b =
      returns (record {
        state = record w { buffered = w.buffered ++ b };
        count = length b;
        failed = none;
      })

  -- Close once the bytes are encrypted; json.Encoder writes the text and a newline at once.
  unfoldable pub write_pbe : PbeCryptoWriter S → Bytes → Run (Closed (PbeCryptoWriter S))
  write_pbe w ciphertext = elim (encode_web64_string ciphertext) [
    | panic ↦ panics
    | err e ↦ returns (record { state = w; failed = some e })
    | ok text ↦ do
      let pbe = record w.pbe { key = text }
      r ← write w.sink (j.pbe.marshal pbe ++ 10 ∷ [])
      returns (record { state = record w { pbe = pbe; sink = r.state }; failed = r.failed })
  ]

  unfoldable pub pbe_close : PbeCryptoWriter S → Run (Closed (PbeCryptoWriter S))
  unfolding fill_block crypt_blocks write_pbe
  pbe_close w = do
    (mode, ciphertext) ← crypt_blocks c.cbc_encrypt w.aes_cipher (fill_block w.buffered)
    write_pbe (record w { aes_cipher = mode }) ciphertext

abbrev pub pbe_writer : Crypto → Json → {S : Type 0} → Write S → WriteCloser (PbeCryptoWriter S)
pbe_writer c j write = record { write = pbe_write c j write; close = pbe_close c j write }

set_spaces-append : (b p : Bytes) → set_spaces (length b) (b ++ p) ≡ b ++ replicate (length p) 32
unfolding set_spaces
set_spaces-append [] [] = refl
set_spaces-append [] (x ∷ p) = ap (◌∷◌ 32) (set_spaces-append [] p)
set_spaces-append (x ∷ b) p = ap (◌∷◌ x) (set_spaces-append b p)

-- The loop of Close pads as that of Encrypt does.
fill_block-pad_spaces : (b : Bytes) → fill_block b ≡ pad_spaces b
unfolding fill_block pad_spaces
fill_block-pad_spaces b =
    set_spaces-append b (replicate (block_size - length b % block_size) 0)
    ∙ rw length-replicate refl

write_chunks-buffered :
    (c : Crypto) (j : Json) {S : Type 0} (write : Write S) (w : PbeCryptoWriter S)
    (chunks : List Bytes)
    → write_chunks (pbe_writer c j write) w chunks
      ≡ returns
          (record { state = record w { buffered = w.buffered ++ concat chunks }; failed = none })
unfolding write_chunks pbe_write
write_chunks-buffered c j write w [] = rw (append-nil w.buffered) refl
write_chunks-buffered c j write w (b ∷ more) =
    rw (← append_assoc w.buffered b (concat more))
      (write_chunks-buffered c j write (record w { buffered = w.buffered ++ b }) more)

pbe_encrypt_writer_lem :
    (c : Crypto) {S : Type 0} (password salt iv : Bytes) (pc : PbeCipher) (s : S)
    → create_aes_cipher c password salt iv ≡ ok pc
    → pbe_encrypt_writer c password salt iv s
      ≡ ok (record {
        pbe = pc.pbe;
        aes_cipher = new_block_mode pc.key pc.iv;
        buffered = [];
        sink = s;
      })
unfolding pbe_encrypt_writer
pbe_encrypt_writer_lem c password salt iv pc s created = rw (pbe_encrypt_writer, created) refl

-- A writer that has only buffered.
abbrev filled : {S : Type 0} → PbeCipher → Bytes → S → PbeCryptoWriter S
filled pc b s = record {
  pbe = pc.pbe;
  aes_cipher = new_block_mode pc.key pc.iv;
  buffered = b;
  sink = s;
}

pbe_close_lem :
    (c : Crypto) (j : Json) {S : Type 0} (write : Write S) (pc : PbeCipher) (b : Bytes) (s s' : S)
    (text : Bytes)
    → encode_web64_string (c.cbc_encrypt pc.key pc.iv (pad_spaces b)) ≡ ok text
    → write s (j.pbe.marshal (record pc.pbe { key = text }) ++ 10 ∷ [])
      ≡ returns (record {
        state = s';
        count = length (j.pbe.marshal (record pc.pbe { key = text }) ++ 10 ∷ []);
        failed = none;
      })
    → (closed : Closed (PbeCryptoWriter S)) × (pbe_close c j write (filled pc b s) ≡ returns closed)
      × (closed.failed ≡ none)
      × (closed.state.sink ≡ s')
unfolding pbe_close crypt_blocks write_pbe
pbe_close_lem c j write pc b s s' text written wrote = (
  record {
    state = record {
      pbe = record pc.pbe { key = text };
      aes_cipher = record { key = pc.key; iv = pc.iv; fed = pad_spaces b };
      buffered = b;
      sink = s';
    };
    failed = none;
  },
  rw
      (
        pbe_close,
        fill_block-pad_spaces b,
        crypt_blocks,
        length-pad_spaces b,
        write_pbe,
        written,
        wrote,
      )
      refl,
  refl,
  refl,
)

-- For 16 random bytes as salt and as vector, and a sink that accepts everything: EncryptWriter of a PBE
-- crypter, any sequence of writes of bytes and then Close succeed, and leave a text and a newline
-- in the sink. The text is what Encrypt returns for all that was written, whatever the sizes of the
-- writes, and Decrypt under the same password returns from it all that was written, with the 1 to 16
-- spaces that fill its last block.
pub pbe_write_then_close-refines :
    (c : Crypto) (j : Json) {S : Type 0} (write : Write S) (contents : S → Bytes)
    (password salt iv : Bytes) (s : S) (chunks : List Bytes)
    → CryptoLaws c
    → JsonLaws j
    → IsSink write contents
    → IsRandom 16 salt
    → IsRandom 16 iv
    → All IsByte (concat chunks)
    → (w : PbeCryptoWriter S) × (closed : Closed (PbeCryptoWriter S)) × (text : Bytes)
      × (pbe_encrypt_writer c password salt iv s ≡ ok w)
      × (write_then_close (pbe_writer c j write) w chunks ≡ returns closed)
      × (closed.failed ≡ none)
      × (contents closed.state.sink ≡ contents s ++ (text ++ 10 ∷ []))
      × (pbe_encrypt c j password salt iv (concat chunks) ≡ ok text)
      × (pbe_decrypt c j password text
          ≡ ok (concat chunks ++ replicate (16 - length (concat chunks) % 16) 32))
unfolding write_then_close pad_spaces
pbe_write_then_close-refines c j {S = S} write contents password salt iv s chunks laws jlaws sink
      salt_long iv_long bytes =
    let (pc, key, created, written, made, read) =
      pbe_encrypt_parts c j password salt iv (concat chunks) laws jlaws salt_long iv_long bytes in
    let text = j.pbe.marshal (record pc.pbe { key = key }) in
    let (s', wrote, now) = sink s (text ++ 10 ∷ []) in
    let (closed, ends, fine, left) =
      pbe_close_lem c j write pc (concat chunks) s s' key written wrote in
    (
      filled pc [] s,
      closed,
      text,
      pbe_encrypt_writer_lem c password salt iv pc s created,
      rw (write_chunks-buffered c j write (filled pc [] s) chunks) ends,
      fine,
      ap contents left ∙ now,
      made,
      read,
    )
