-- ===== src/Streams/Stages.antt =====
-- controllers.go, encodeWriter and compressWriter. Go's stream encoders and compressors are a
-- parameter.
use dkeyczar.Prelude.{
  Bytes, none, ok, [], ◌++◌, ◌≡◌, ◌≢◌, refl, ap, sym, ◌∙◌, All, IsByte, length, drop, drop-append,
  append_assoc, append-nil,
}
use dkeyczar.Crypto.{Crypto}
use dkeyczar.Controllers.{
  Encoding, base64w, no_encoding, Compression, no_compression, gzip, zlib, encode, decompress,
}
use dkeyczar.Streams.{returns, ◌>>=◌, Write, Close, WriteCloser, new_nop_write_closer, IsSinkIn}

-- A writer on top of another: its own state and the sink.
pub record Coded (E S : Type 0) : Type 0 where
  pub coder : E
  pub sink : S

-- base64.NewEncoder with RawURLEncoding, gzip.NewWriterLevel and zlib.NewWriterLevel with
-- BestCompression, over a sink of any type, and their states when they are new.
pub record Encoders : Type 1 where
  pub Coder : Type 0
  pub new_coder : Coder
  pub base64_encoder : (S : Type 0) → Write S → WriteCloser (Coded Coder S)
  pub Packer : Type 0
  pub new_gzip : Packer
  pub gzip_writer : (S : Type 0) → Write S → WriteCloser (Coded Packer S)
  pub new_zlib : Packer
  pub zlib_writer : (S : Type 0) → Write S → WriteCloser (Coded Packer S)

-- The Write of the sink, as the embedded writer of a nopWriteCloser.
unfoldable pub through : {E S : Type 0} → Write S → Write (Coded E S)
through write x b = do
  r ← write x.sink b
  returns (record { state = record x { sink = r.state }; count = r.count; failed = r.failed })

-- The Close of the sink, on the state of the writer on top.
unfoldable pub on_sink : {E S : Type 0} → Close S → Close (Coded E S)
on_sink close x = do
  r ← close x.sink
  returns (record { state = record x { sink = r.state }; failed = r.failed })

module _ (lib : Encoders) where
  unfoldable pub encode_writer : Encoding → {S : Type 0} → Write S → WriteCloser (Coded lib.Coder S)
  unfolding through new_nop_write_closer
  encode_writer no_encoding write = new_nop_write_closer (through write)
  encode_writer base64w {S} write = lib.base64_encoder S write

  unfoldable pub compress_writer :
      Compression → {S : Type 0} → Write S → WriteCloser (Coded lib.Packer S)
  unfolding through new_nop_write_closer
  compress_writer gzip {S} write = lib.gzip_writer S write
  compress_writer zlib {S} write = lib.zlib_writer S write
  compress_writer no_compression write = new_nop_write_closer (through write)

  -- A new compressor; none is used without compression.
  unfoldable pub new_packer : Compression → lib.Packer
  new_packer gzip = lib.new_gzip
  new_packer zlib = lib.new_zlib
  new_packer no_compression = lib.new_zlib

-- A writer over a sink that accepts everything: it accepts everything too, and its Close leaves in the
-- sink, behind what was there (`base`), an `Image` of all that it was given.
pub record IsCoder {E S : Type 0} (w : WriteCloser (Coded E S)) (new : E) (contents : S → Bytes)
    (Keeps : S → Type 0) (Image : Bytes → Bytes → Type 0) : Type 1 where
  pub Runs : Bytes → Coded E S → Type 0
  pub given : Bytes → Coded E S → Bytes
  pub begins :
      (s : S)
      → Keeps s
      → Runs (contents s) (record { coder = new; sink = s })
        × (given (contents s) (record { coder = new; sink = s }) ≡ [])
  pub writes : (base : Bytes) → IsSinkIn (Runs base) w.write (given base)
  pub closes :
      (base : Bytes) (x : Coded E S)
      → Runs base x
      → (x' : Coded E S) × (t : Bytes) × (w.close x
          ≡ returns (record { state = x'; failed = none }))
        × Image (given base x) t
        × (contents x'.sink ≡ base ++ t)
        × Keeps x'.sink

-- What an encoder and a compressor make of `p`.
abbrev pub Spells : Encoding → Bytes → Bytes → Type 0
Spells e p t = p ≢ [] → All IsByte p → encode e p ≡ ok t

abbrev pub Packs : Crypto → Compression → Bytes → Bytes → Type 0
Packs c m p t = All IsByte p → All IsByte t × (decompress c m t ≡ ok p)

-- The documented behaviour of Go's encoders: RawURLEncoding is URLEncoding without the padding, and the
-- readers of gzip and zlib return what the writers were given.
pub record EncodersLaws (c : Crypto) (lib : Encoders) : Type 1 where
  pub base64_encoder-IsCoder :
      {S : Type 0} (write : Write S) (contents : S → Bytes) (Keeps : S → Type 0)
      → IsSinkIn Keeps write contents
      → IsCoder (lib.base64_encoder S write) lib.new_coder contents Keeps (Spells base64w)
  pub gzip_writer-IsCoder :
      {S : Type 0} (write : Write S) (contents : S → Bytes) (Keeps : S → Type 0)
      → IsSinkIn Keeps write contents
      → IsCoder (lib.gzip_writer S write) lib.new_gzip contents Keeps (Packs c gzip)
  pub zlib_writer-IsCoder :
      {S : Type 0} (write : Write S) (contents : S → Bytes) (Keeps : S → Type 0)
      → IsSinkIn Keeps write contents
      → IsCoder (lib.zlib_writer S write) lib.new_zlib contents Keeps (Packs c zlib)

module _ {S : Type 0} (write : Write S) (contents : S → Bytes) (Keeps : S → Type 0)
    (sink : IsSinkIn Keeps write contents) where
  -- The nopWriteCloser, for an image that every byte string has in itself.
  nop-IsCoder :
      {E : Type 0} (new : E) (Image : Bytes → Bytes → Type 0)
      → ((p : Bytes) → Image p p)
      → IsCoder (new_nop_write_closer (through {E = E} write)) new contents Keeps Image
  unfolding through new_nop_write_closer
  nop-IsCoder new Image same = record {
    Runs = λ base x. Keeps x.sink × ((p : Bytes) × (contents x.sink ≡ base ++ p));
    given = λ base x. drop (length base) (contents x.sink);
    begins = λ s kept. (
      (kept, ([], sym (append-nil (contents s)))),
      ap (drop (length (contents s))) (sym (append-nil (contents s)))
          ∙ drop-append (length (contents s)) (contents s) [] refl,
    );
    writes = λ base x b (kept, (p, e)).
        let (s', wrote, now, kept') = sink x.sink b kept in
        let all = now ∙ ap (λ y. y ++ b) e ∙ append_assoc base p b in
        (
          record x { sink = s' },
          rw wrote refl,
          ap (drop (length base)) all
              ∙ drop-append (length base) base (p ++ b) refl
              ∙ ap (λ y. y ++ b)
                  (sym (ap (drop (length base)) e ∙ drop-append (length base) base p refl)),
          (kept', (p ++ b, all)),
        );
    closes = λ base x (kept, (p, e)).
        (x, p, refl, rw (e, drop-append (length base) base p refl) (same p), e, kept);
  }

  module _ (c : Crypto) (lib : Encoders) (laws : EncodersLaws c lib) where
    pub encode_writer-IsCoder :
        (e : Encoding) → IsCoder (encode_writer lib e write) lib.new_coder contents Keeps (Spells e)
    unfolding encode_writer encode
    encode_writer-IsCoder no_encoding = nop-IsCoder lib.new_coder _ (λ p _ _. refl)
    encode_writer-IsCoder base64w = laws.base64_encoder-IsCoder write contents Keeps sink

    pub compress_writer-IsCoder :
        (m : Compression)
        → IsCoder (compress_writer lib m write) (new_packer lib m) contents Keeps (Packs c m)
    unfolding compress_writer new_packer decompress
    compress_writer-IsCoder no_compression = nop-IsCoder lib.new_zlib _ (λ p bytes. (bytes, refl))
    compress_writer-IsCoder gzip = laws.gzip_writer-IsCoder write contents Keeps sink
    compress_writer-IsCoder zlib = laws.zlib_writer-IsCoder write contents Keeps sink
