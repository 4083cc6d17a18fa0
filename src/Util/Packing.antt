-- ===== src/Util/Packing.antt =====
-- util.go, lenPrefixPack and lenPrefixUnpack: a list of byte slices as one byte stream.
use dkeyczar.Prelude.{
  ℕ, zero, suc, ◌+◌, ◌-◌, ◌*◌, ◌<◌, ◌^◌, ◌≡◌, refl, ap, List, [], ◌∷◌, ◌++◌, append-nil,
  append_assoc, arith, Bytes, All, length, length-append, take, drop, replicate, take-append,
  drop-append,
}
use dkeyczar.Util.BigEndian.{put_uint32, to_uint32}

-- The loop that writes each slice behind its length.
unfoldable pub pack_arrays : List Bytes → Bytes
pack_arrays [] = []
pack_arrays (a ∷ rest) = put_uint32 (to_uint32 (length a)) ++ (a ++ pack_arrays rest)

unfoldable pub len_prefix_pack : List Bytes → Bytes
unfolding pack_arrays
len_prefix_pack arrays = put_uint32 (to_uint32 (length arrays)) ++ pack_arrays arrays

-- binary.Read of a uint32, its error ignored as the source does: on a short buffer the variable
-- keeps its 0, and what was left of the buffer is used up. The second part is the buffer after it.
unfoldable pub read_uint32 : Bytes → ℕ × Bytes
read_uint32 (a ∷ b ∷ c ∷ d ∷ rest) = (a * 2 ^ 24 + b * 2 ^ 16 + c * 2 ^ 8 + d, rest)
read_uint32 _ = (0, [])

-- buf.Read into a fresh slice of `size` zero bytes, its count ignored.
abbrev pub read_into : ℕ → Bytes → Bytes
read_into size buf = take size buf ++ replicate (size - length buf) 0

-- The loop over the announced number of slices.
unfoldable pub unpack_arrays : ℕ → Bytes → List Bytes
unpack_arrays zero buf = []
unpack_arrays (suc n) buf =
    let (size, rest) = read_uint32 buf in read_into size rest ∷ unpack_arrays n (drop size rest)

unfoldable pub len_prefix_unpack : Bytes → List Bytes
unfolding unpack_arrays
len_prefix_unpack packed = let (count, rest) = read_uint32 packed in unpack_arrays count rest

abbrev pub IsShort : Bytes → Type 0
IsShort a = length a < 2 ^ 32

read_uint32-put_uint32 :
    (n : ℕ) (rest : Bytes) → n < 2 ^ 32 → read_uint32 (put_uint32 (to_uint32 n) ++ rest) ≡ (n, rest)
unfolding read_uint32 put_uint32
read_uint32-put_uint32 n rest h = ground arith

read_into-append : (a rest : Bytes) → read_into (length a) (a ++ rest) ≡ a
read_into-append a rest =
    rw (take-append (length a) a rest refl, length-append a rest)
      (let none_missing : length a - (length a + length rest) ≡ 0 = omega arith in
        rw none_missing (append-nil a))

unpack_arrays-pack_arrays :
    (arrays : List Bytes) (rest : Bytes)
    → All IsShort arrays
    → unpack_arrays (length arrays) (pack_arrays arrays ++ rest) ≡ arrays
unfolding unpack_arrays pack_arrays
unpack_arrays-pack_arrays [] rest h = refl
unpack_arrays-pack_arrays (a ∷ more) rest (short, shorts) =
    rw
      (
        append_assoc,
        append_assoc,
        read_uint32-put_uint32 (length a) (a ++ (pack_arrays more ++ rest)) short,
        read_into-append a (pack_arrays more ++ rest),
        drop-append (length a) a (pack_arrays more ++ rest) refl,
      )
      (ap (◌∷◌ a) (unpack_arrays-pack_arrays more rest shorts))

-- Unpacking what was packed gives the same slices back, when their number and each length fit a
-- uint32.
pub len_prefix_unpack-len_prefix_pack :
    (arrays : List Bytes)
    → length arrays < 2 ^ 32
    → All IsShort arrays
    → len_prefix_unpack (len_prefix_pack arrays) ≡ arrays
unfolding len_prefix_unpack len_prefix_pack
len_prefix_unpack-len_prefix_pack arrays n h =
    rw
      (
        read_uint32-put_uint32 (length arrays) (pack_arrays arrays) n,
        ← append-nil (pack_arrays arrays),
      )
      (unpack_arrays-pack_arrays arrays [] h)
