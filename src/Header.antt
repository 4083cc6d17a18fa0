-- ===== src/Header.antt =====
-- header.go: the version byte and the key hash in front of every ciphertext and signature.
pub mod Split
use dkeyczar.Prelude.{
  ℕ, ◌-◌, ◌<◌, ◌≡◌, refl, Bool, List, [], ◌∷◌, ◌++◌, Bytes, Result, ok, err, panic, Error,
  bad_version, ◌>>=◌, ◌>>◌, guard, not, ltb, ◌==◌, length, take, drop, replicate, short_ciphertext,
  base64_decoding, or_error,
}

abbrev pub kz_version : ℕ
kz_version = 0

abbrev pub kz_header_length : ℕ
kz_header_length = 5

-- makeHeader; the argument is key.KeyID(), of which `copy` takes four bytes at most.
unfoldable pub make_header : Bytes → Bytes
make_header key_id = kz_version ∷ (take 4 key_id ++ replicate (4 - length key_id) 0)

-- `b[0] != kzVersion` on a slice that is not empty.
abbrev pub version_is : Bytes → Bool
version_is [] = Bool.false
version_is (v ∷ _) = v == kz_version

-- The lookups take getKeyForID of the key set, `find`; K is the type of keys.
module _ {K : Type 0} (find : Bytes → Result (List K)) where
  unfoldable pub split_header_bytes : Bytes → Error → Result (Bytes × List K)
  split_header_bytes b too_short = do
    guard (not (ltb (length b) kz_header_length)) too_short
    guard (version_is b) bad_version
    k ← find (take 4 (drop 1 b))
    ok (b, k)

  -- `decode` is that of the encoding controller.
  unfoldable pub split_header : (Bytes → Result Bytes) → Bytes → Error → Result (Bytes × List K)
  split_header decode text too_short = do
    b ← or_error (decode text) base64_decoding
    guard (not (ltb (length b) kz_header_length)) too_short
    guard (version_is b) bad_version
    k ← find (take 4 (drop 1 b))
    ok (b, k)

  unfoldable pub decode_header : Bytes → Result (List K)
  decode_header header = do
    guard (length header == kz_header_length) short_ciphertext
    guard (version_is header) bad_version
    find (take 4 (drop 1 header))
