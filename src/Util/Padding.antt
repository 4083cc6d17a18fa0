-- ===== src/Util/Padding.antt =====
-- util.go, pkcs5pad and pkcs5unpad.
use native.Mathlib.Nat.{mod-lt, mul-mod_right, div-add-mod}
use dkeyczar.Prelude.{
  ℕ, zero, suc, ◌+◌, ◌-◌, ◌*◌, ◌/◌, ◌%◌, ◌<◌, ◌≤◌, ◌≡◌, refl, [], ◌∷◌, ◌++◌, arith, Bytes, Option,
  none, some, Result, ok, panic, length, take, replicate, leb, if◌then◌else◌, take-append,
  length-append, length-replicate,
}

-- `pad := blocksize - len(data)%blocksize`, then `pad` bytes of value uint8(pad).
unfoldable pub pkcs5pad : Bytes → ℕ → Bytes
pkcs5pad bytes blocksize =
    let pad : ℕ = blocksize - length bytes % blocksize in bytes ++ replicate pad (pad % 256)

abbrev pub last? : Bytes → Option ℕ
last? [] = none
last? (x ∷ []) = some x
last? (x ∷ y ∷ r) = last? (y ∷ r)

-- `data[len(data)-1]` panics on an empty slice, and `data[:len(data)-pad]` where `pad` is longer.
unfoldable pub pkcs5unpad : Bytes → Result Bytes
pkcs5unpad bytes = elim (last? bytes) [
  | none ↦ panic
  | some pad ↦ if leb pad (length bytes) then ok (take (length bytes - pad) bytes) else panic
]

last?-append_replicate : (bytes : Bytes) (n a : ℕ) → last? (bytes ++ replicate (suc n) a) ≡ some a
last?-append_replicate [] zero a = refl
last?-append_replicate [] (suc n) a = last?-append_replicate [] n a
last?-append_replicate (x ∷ []) n a = last?-append_replicate [] n a
last?-append_replicate (x ∷ y ∷ r) n a = last?-append_replicate (y ∷ r) n a

-- A length and the padding for it fill whole blocks.
pad_fills : (n blocksize : ℕ) → 0 < blocksize → (n + (blocksize - n % blocksize)) % blocksize ≡ 0
pad_fills n blocksize h = rw (next_block) (mul-mod_right blocksize (n / blocksize + 1))
  where
    next_block : n + (blocksize - n % blocksize) ≡ blocksize * (n / blocksize + 1)
    next_block = omega (arith, div-add-mod n blocksize, mod-lt n h)

-- Padding always adds between one byte and a whole block, up to a whole number of blocks.
pub pkcs5pad_shape :
    (bytes : Bytes) (blocksize : ℕ)
    → 0 < blocksize
    → (length (pkcs5pad bytes blocksize) % blocksize ≡ 0)
      × (length bytes < length (pkcs5pad bytes blocksize))
      × (length (pkcs5pad bytes blocksize) ≤ length bytes + blocksize)
unfolding pkcs5pad
pkcs5pad_shape bytes blocksize h =
    rw (length-append, length-replicate)
      (pad_fills (length bytes) blocksize h, omega (arith, mod-lt (length bytes) h), omega arith)

-- The reader's side: a block of `suc k` bytes of that value comes off.
pkcs5unpad_block :
    (bytes : Bytes) (k : ℕ) → pkcs5unpad (bytes ++ replicate (suc k) (suc k)) ≡ ok bytes
unfolding pkcs5unpad
pkcs5unpad_block bytes k =
    rw
      (
        last?-append_replicate bytes k (suc k),
        length-append bytes (replicate (suc k) (suc k)),
        length-replicate (suc k) (suc k),
        pkcs5unpad,
      )
      (ground (arith, take-append (length bytes + suc k - suc k) bytes (replicate (suc k) (suc k))))

-- Unpadding undoes padding for every block size that a padding byte can hold.
pub pkcs5unpad-pkcs5pad :
    (bytes : Bytes) (blocksize : ℕ)
    → 0 < blocksize
    → blocksize < 256
    → pkcs5unpad (pkcs5pad bytes blocksize) ≡ ok bytes
unfolding pkcs5pad
pkcs5unpad-pkcs5pad bytes blocksize h k = rw (as_byte, one_more) (pkcs5unpad_block bytes _)
  where
    one_more : blocksize - length bytes % blocksize ≡ suc (blocksize - length bytes % blocksize - 1)
    one_more = omega (arith, mod-lt (length bytes) h)

    as_byte : (blocksize - length bytes % blocksize) % 256 ≡ blocksize - length bytes % blocksize
    as_byte = omega arith

-- A nonempty slice whose last byte is at most its length is cut by that many bytes, whatever the
-- other padding bytes hold; every other nonempty slice panics.
pub pkcs5unpad_cases :
    (front : Bytes) (pad : ℕ)
    → pkcs5unpad (front ++ pad ∷ []) ≡ (
        if leb pad (length front + 1)
        then ok (take (length front + 1 - pad) (front ++ pad ∷ []))
        else panic)
unfolding pkcs5unpad
pkcs5unpad_cases front pad =
    rw (last?-append_replicate front 0 pad, length-append front (pad ∷ []), pkcs5unpad) refl
