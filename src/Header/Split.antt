-- ===== src/Header/Split.antt =====
-- header.go: splitting what makeHeader has put in front.
use dkeyczar.Prelude.{
  false, ◌≡◌, refl, sym, ap, ◌∙◌, [], ◌∷◌, ◌++◌, append-nil, Bytes, Result, ok, List, length, take,
  drop, length-append, take-append, drop-append, arith, Error, ltb, All, IsByte,
}
use dkeyczar.Header.{make_header, split_header, split_header_bytes, kz_version}

-- For an identifier of four bytes the header is the version byte and the identifier.
pub make_header_lem : (id : Bytes) → length id ≡ 4 → make_header id ≡ kz_version ∷ id
unfolding make_header
make_header_lem id h = ap (◌∷◌ kz_version) (rw (h) (take-all ∙ refl))
  where
    take-all : take 4 id ++ [] ≡ id
    take-all = append-nil (take 4 id) ∙ (rw append-nil at (take-append 4 id [] (sym h)))

long_enough : (id rest : Bytes) → length id ≡ 4 → ltb (length (kz_version ∷ (id ++ rest))) 5 ≡ false
long_enough id rest four = ground (arith, length-append id rest)

module _ {K : Type 0} (find : Bytes → Result (List K)) where
  -- A text that decodes to a header with its identifier's keys and anything behind it is split
  -- into the bytes and the keys.
  pub split_header-make_header :
      (decode : Bytes → Result Bytes) (text id rest : Bytes) (kl : List K) (e : Error)
      → length id ≡ 4
      → decode text ≡ ok (make_header id ++ rest)
      → find id ≡ ok kl
      → split_header find decode text e ≡ ok (make_header id ++ rest, kl)
  unfolding split_header
  split_header-make_header decode text id rest kl e four decoded found =
      rw (decoded, make_header_lem id four)
        (rw (long_enough id rest four, take-append 4 id rest (sym four), found) refl)

  pub split_header_bytes-make_header :
      (id rest : Bytes) (kl : List K) (e : Error)
      → length id ≡ 4
      → find id ≡ ok kl
      → split_header_bytes find (make_header id ++ rest) e ≡ ok (make_header id ++ rest, kl)
  unfolding split_header_bytes
  split_header_bytes-make_header id rest kl e four found =
      rw (make_header_lem id four)
        (rw (long_enough id rest four, take-append 4 id rest (sym four), found) refl)

pub drop-make_header : (id rest : Bytes) → length id ≡ 4 → drop 5 (make_header id ++ rest) ≡ rest
drop-make_header id rest four = rw (make_header_lem id four) (drop-append 4 id rest (sym four))

pub make_header-IsByte : (id : Bytes) → length id ≡ 4 → All IsByte id → All IsByte (make_header id)
make_header-IsByte id four bytes = rw (make_header_lem id four) (omega arith, bytes)
