-- ===== src/Controllers.antt =====
-- controllers.go: the encoding of the output and the compression of the plaintext; the writers are
-- in Streams.Stages. The setters and getters are the fields of the objects that have the controllers.
pub mod RoundTrip
use dkeyczar.Prelude.{ℕ, Bytes, Result, ok}
use dkeyczar.Crypto.{Crypto}
use dkeyczar.Util.Web64.{encode_web64_string, decode_web64_string}

pub data Encoding : Type 0 where
  base64w no_encoding : Encoding

pub data Compression : Type 0 where
  no_compression gzip zlib : Compression

unfoldable pub encode : Encoding → Bytes → Result Bytes
encode no_encoding b = ok b
encode base64w b = encode_web64_string b

unfoldable pub decode : Encoding → Bytes → Result Bytes
decode no_encoding s = ok s
decode base64w s = decode_web64_string s

module _ (c : Crypto) where
  unfoldable pub compress : Compression → Bytes → Bytes
  compress no_compression b = b
  compress gzip b = c.gzip b
  compress zlib b = c.zlib b

  -- `gunzip` and `unzlib` are NewReader with its error and io.Copy without.
  unfoldable pub decompress : Compression → Bytes → Result Bytes
  decompress no_compression b = ok b
  decompress gzip b = c.gunzip b
  decompress zlib b = c.unzlib b
