-- ===== src/Examples/Encoders.antt =====
-- Stream encoders that hold everything back until Close, and satisfy the laws of Encoders.
use dkeyczar.Prelude.{
  ◌≡◌, refl, ap, ◌∙◌, Bytes, Result, ok, err, panic, none, [], ◌∷◌, ◌++◌, length, arith,
}
use dkeyczar.Controllers.{base64w, gzip, zlib, encode, decompress}
use dkeyczar.Util.Web64.{encode_web64_string}
use dkeyczar.Util.Web64.RoundTrip.{decode-encode_web64_string}
use dkeyczar.Streams.{returns, ◌>>=◌, Write, WriteCloser, IsSinkIn}
use dkeyczar.Streams.Stages.{Coded, Encoders, EncodersLaws, IsCoder, Spells, Packs}
use dkeyczar.Examples.Crypto.{tools}

abbrev holding : (Bytes → Bytes) → (S : Type 0) → Write S → WriteCloser (Coded Bytes S)
holding f S write = record {
  write = λ x b.
      returns
        (record { state = record x { coder = x.coder ++ b }; count = length b; failed = none });
  close = λ x. do
    r ← write x.sink (f x.coder)
    returns (record { state = record x { sink = r.state }; failed = r.failed });
}

holding-IsCoder :
    (f : Bytes → Bytes) (Image : Bytes → Bytes → Type 0)
    → ((p : Bytes) → Image p (f p))
    → {S : Type 0} (write : Write S) (contents : S → Bytes) (Keeps : S → Type 0)
    → IsSinkIn Keeps write contents
    → IsCoder (holding f S write) [] contents Keeps Image
holding-IsCoder f Image image write contents Keeps sink = record {
  Runs = λ base x. Keeps x.sink × (contents x.sink ≡ base);
  given = λ base x. x.coder;
  begins = λ s kept. ((kept, refl), refl);
  writes = λ base x b runs. (record x { coder = x.coder ++ b }, refl, refl, runs);
  closes = λ base x (kept, e).
      let (s', wrote, now, kept') = sink x.sink (f x.coder) kept in
      (
        record x { sink = s' },
        f x.coder,
        rw wrote refl,
        image x.coder,
        now ∙ ap (λ y. y ++ f x.coder) e,
        kept',
      );
}

abbrev or_empty : Result Bytes → Bytes
or_empty (ok t) = t
or_empty (err e) = []
or_empty panic = []

abbrev spell : Bytes → Bytes
spell p = or_empty (encode_web64_string p)

spell-Spells : (p : Bytes) → Spells base64w p (spell p)
unfolding encode
spell-Spells p ne bytes =
    let (t, written, _, _) = decode-encode_web64_string p ne bytes in rw written refl

abbrev pub encoders : Encoders
encoders = record {
  Coder = Bytes;
  new_coder = [];
  base64_encoder = holding spell;
  Packer = Bytes;
  new_gzip = [];
  gzip_writer = holding (◌∷◌ 31);
  new_zlib = [];
  zlib_writer = holding (◌∷◌ 120);
}

pub encoders_laws : EncodersLaws tools encoders
unfolding decompress
encoders_laws = record {
  base64_encoder-IsCoder = holding-IsCoder spell (Spells base64w) spell-Spells;
  gzip_writer-IsCoder =
      holding-IsCoder (◌∷◌ 31) (Packs tools gzip) (λ p bytes. ((omega arith, bytes), refl));
  zlib_writer-IsCoder =
      holding-IsCoder (◌∷◌ 120) (Packs tools zlib) (λ p bytes. ((omega arith, bytes), refl));
}
