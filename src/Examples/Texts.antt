-- ===== src/Examples/Texts.antt =====
-- Text forms that are read back, put together from those of numbers and byte strings.
use dkeyczar.Prelude.{
  ℕ, zero, suc, ◌≡◌, refl, ap, List, [], ◌∷◌, ◌++◌, append_assoc, Bytes, length, take, drop,
  take-append, drop-append, ok,
}
use mathlib.Core.List.{append-nil}
use dkeyczar.Json.{Codec}

pub record Text (A : Type 0) : Type 0 where
  pub put : A → Bytes
  pub get : Bytes → A × Bytes
  pub get-put : (a : A) (rest : Bytes) → get (put a ++ rest) ≡ (a, rest)

abbrev pub get_number : Bytes → ℕ × Bytes
get_number [] = (0, [])
get_number (n ∷ rest) = (n, rest)

abbrev pub number : Text ℕ
number = record { put = λ n. n ∷ []; get = get_number; get-put = λ n rest. refl }

abbrev pub get_bytes : Bytes → Bytes × Bytes
get_bytes [] = ([], [])
get_bytes (n ∷ rest) = (take n rest, drop n rest)

pub get_bytes-put : (s rest : Bytes) → get_bytes ((length s ∷ s) ++ rest) ≡ (s, rest)
get_bytes-put s rest =
    rw (take-append (length s) s rest refl, drop-append (length s) s rest refl) refl

abbrev pub bytes : Text Bytes
bytes = record { put = λ s. length s ∷ s; get = get_bytes; get-put = get_bytes-put }

module _ {A B : Type 0} where
  abbrev pub both : Text A → Text B → Text (A × B)
  both a b = record {
    put = λ p. a.put p.0 ++ b.put p.1;
    get = λ s. (((a.get s).0, (b.get (a.get s).1).0), (b.get (a.get s).1).1);
    get-put = λ p rest.
        rw
          (
            append_assoc (a.put p.0) (b.put p.1) rest,
            a.get-put p.0 (b.put p.1 ++ rest),
            b.get-put p.1 rest,
          )
          refl;
  }

  abbrev pub convert : (to : A → B) (from : B → A) → ((b : B) → to (from b) ≡ b) → Text A → Text B
  convert to from to-from a = record {
    put = λ b. a.put (from b);
    get = λ s. (to (a.get s).0, (a.get s).1);
    get-put = λ b rest. rw (a.get-put (from b) rest, to-from b) refl;
  }

module _ {A : Type 0} (a : Text A) where
  abbrev pub put_all : List A → Bytes
  put_all [] = []
  put_all (x ∷ xs) = a.put x ++ put_all xs

  abbrev pub get_all : ℕ → Bytes → List A × Bytes
  get_all zero s = ([], s)
  get_all (suc n) s = let more = get_all n (a.get s).1 in ((a.get s).0 ∷ more.0, more.1)

  pub get_all-put :
      (xs : List A) (rest : Bytes) → get_all (length xs) (put_all xs ++ rest) ≡ (xs, rest)
  get_all-put [] rest = refl
  get_all-put (x ∷ xs) rest =
      rw
        (
          append_assoc (a.put x) (put_all xs) rest,
          a.get-put x (put_all xs ++ rest),
          get_all-put xs rest,
        )
        refl

  abbrev pub get_list : Bytes → List A × Bytes
  get_list [] = ([], [])
  get_list (n ∷ s) = get_all n s

  abbrev pub list : Text (List A)
  list = record { put = λ xs. length xs ∷ put_all xs; get = get_list; get-put = get_all-put }

  abbrev pub codec : Codec A
  codec = record { marshal = a.put; unmarshal = λ s. ok (a.get s).0 }

  pub codec_lem : (x : A) → codec.unmarshal (codec.marshal x) ≡ ok x
  codec_lem x = rw (append-nil (a.put x)) at (ap (λ (p : A × Bytes). ok p.0) (a.get-put x []))
