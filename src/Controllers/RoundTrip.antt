-- ===== src/Controllers/RoundTrip.antt =====
-- controllers.go: decoding undoes encoding, and decompressing undoes compressing.
use dkeyczar.Prelude.{◌≡◌, ◌≢◌, refl, sym, ◌∙◌, ok-injective, [], Bytes, ok, All, IsByte}
use dkeyczar.Crypto.{Crypto, CryptoLaws}
use dkeyczar.Util.Web64.RoundTrip.{decode-encode_web64_string}
use dkeyczar.Controllers.{
  Encoding, base64w, no_encoding, Compression, no_compression, gzip, zlib, encode, decode, compress,
  decompress,
}

-- Every nonempty byte string is encoded, in both encodings, to a text that decodes to it.
pub decode-encode :
    (e : Encoding) (b : Bytes)
    → b ≢ []
    → All IsByte b
    → (s : Bytes) × (encode e b ≡ ok s) × (decode e s ≡ ok b)
unfolding encode decode
decode-encode base64w b ne bytes =
    let (s, written, read, _) = decode-encode_web64_string b ne bytes in (s, written, read)
decode-encode no_encoding b ne bytes = (b, refl, refl)

-- A text that encoding has returned decodes to what was encoded.
pub decode_encoded :
    (e : Encoding) (b text : Bytes)
    → b ≢ []
    → All IsByte b
    → encode e b ≡ ok text
    → decode e text ≡ ok b
decode_encoded e b text ne bytes written =
    let (s, written', read) = decode-encode e b ne bytes in
    rw (ok-injective (sym written ∙ written')) read

pub compress-IsByte :
    (c : Crypto) (laws : CryptoLaws c) (m : Compression) (b : Bytes)
    → All IsByte b
    → All IsByte (compress c m b)
unfolding compress
compress-IsByte c laws no_compression b h = h
compress-IsByte c laws gzip b h = laws.gzip-IsByte b h
compress-IsByte c laws zlib b h = laws.zlib-IsByte b h

-- Decompressing gives back the bytes that were compressed, in all three modes.
pub decompress-compress :
    (c : Crypto) (m : Compression) (b : Bytes)
    → CryptoLaws c
    → All IsByte b
    → decompress c m (compress c m b) ≡ ok b
unfolding compress decompress
decompress-compress c no_compression b laws h = refl
decompress-compress c gzip b laws h = laws.gunzip-gzip b h
decompress-compress c zlib b laws h = laws.unzlib-zlib b h
