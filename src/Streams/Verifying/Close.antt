-- ===== src/Streams/Verifying/Close.antt =====
-- hmac_key.go, hmacVerifyReader: what Close accepts.
use dkeyczar.Prelude.{
  ℕ, zero, suc, ◌+◌, ◌-◌, ◌≡◌, refl, sym, ap, ◌∙◌, Bytes, Bool, true, false, Error, Option,
  Option-cases, none, some, List, [], ◌∷◌, ◌++◌, append_assoc, append-nil, length, take, drop,
  take-append-drop, take-append, drop-append, ltb, bytes_eq, bytes_eq→eq, bytes_eq_refl, Bool-cases,
  inl, inr, if◌then◌else◌,
}
use mathlib.Core.Path.{subst}
use dkeyczar.Crypto.{Crypto}
use dkeyczar.Keys.Hmac.{HmacKey}
use dkeyczar.Streams.{Run, returns, looping, ◌>>=◌, Read, Got, at_eof, failing}
use dkeyczar.Streams.Verifying.{
  HmacVerifyReader, verify_reader, Verified, fill, fill_fuel, release, hmac_verify_read,
  hmac_verify_close, read_sizes, Delivered,
}

-- A source that gives its contents in order.
abbrev pub IsSource : {S : Type 0} → Read S → (S → Bytes) → Type 0
IsSource {S} read contents =
    (s : S) (n : ℕ) (r : Got S) → read s n ≡ returns r → contents s ≡ r.bytes ++ contents r.state

>>=-eq-returns :
    {A B : Type 0} (call : Run A) (next : A → Run B) {y : B}
    → (call >>= next) ≡ returns y
    → (x : A) × (call ≡ returns x) × (next x ≡ returns y)
>>=-eq-returns (returns x) next e = (x, refl, e)
>>=-eq-returns Run.panics next e = cc
>>=-eq-returns looping next e = cc

pub returns-injective : {A : Type 0} {a b : A} → returns a ≡ returns b → a ≡ b
returns-injective e = cc

module _ {S : Type 0} (read : Read S) (contents : S → Bytes) (source : IsSource read contents)
    (n : ℕ) where
  -- What is buffered and what the source still has.
  abbrev pub rest : HmacVerifyReader S → Bytes
  rest h = h.buf ++ contents h.source

  pub record Same (h h' : HmacVerifyReader S) : Type 0 where
    key : h'.key ≡ h.key
    hashed : h'.hashed ≡ h.hashed
    pub rest : rest h' ≡ rest h

  abbrev stopped : HmacVerifyReader S → Option Error → Run (HmacVerifyReader S × Option Error)
  stopped h e = returns (h, e)

  same : (h h' : HmacVerifyReader S) (e e' : Option Error) → stopped h e ≡ stopped h' e' → Same h h'
  same h h' e e' eq =
      subst (Same h) (ap (λ p. p.0) (returns-injective eq))
        (record { key = refl; hashed = refl; rest = refl })

  forget : (h h' : HmacVerifyReader S) (eof : Bool) → Same (record h { eof = eof }) h' → Same h h'
  forget h h' eof s = record { key = s.key; hashed = s.hashed; rest = s.rest }

  -- A read from the source moves bytes into the buffer.
  taken :
      (h h' : HmacVerifyReader S) (r : Got S) (eof : Bool)
      → read h.source n ≡ returns r
      → Same
          (record h {
            source = r.state;
            buf = h.buf ++ r.bytes;
            eof = eof;
            count = h.count + length r.bytes;
          })
          h'
      → Same h h'
  taken h h' r eof got s = record {
    key = s.key;
    hashed = s.hashed;
    rest =
        s.rest
        ∙ append_assoc h.buf r.bytes (contents r.state)
        ∙ ap (λ x. h.buf ++ x) (sym (source h.source n r got));
  }

  pub fill-Same :
      (fuel : ℕ) (h h' : HmacVerifyReader S) (e : Option Error)
      → fill read fuel n h ≡ returns (h', e)
      → Same h h'
  unfolding fill
  fill-Same zero h h' e ran = elim (Bool-cases h.eof) [
    | inl ended ↦
        forget h h' true (same (record h { eof = true }) h' none e (rw (fill, ended) at ran))
    | inr going ↦ elim (Bool-cases (ltb (length h.buf) (n + 20))) [
      | inl missing ↦ cc (rw (fill, going, missing) at ran)
      | inr full ↦
          forget h h' false
            (same (record h { eof = false }) h' none e (rw (fill, going, full) at ran))
    ]
  ]
  fill-Same (suc fuel) h h' e ran = elim (Bool-cases h.eof) [
    | inl ended ↦ same h h' none e (rw (fill, ended) at ran)
    | inr going ↦ elim (Bool-cases (ltb (length h.buf) (n + 20))) [
      | inr full ↦ same h h' none e (rw (fill, going, full) at ran)
      | inl missing ↦
          let (r, got, next) =
            >>=-eq-returns (read h.source n) _ (rw (fill, going, missing) at ran) in
          elim (Option-cases r.stop) [
            | inl more ↦ taken h h' r h.eof got (fill-Same fuel _ h' e (rw more at next))
            | inr (at_eof, stop) ↦ taken h h' r true got (fill-Same fuel _ h' e (rw stop at next))
            | inr (failing f, stop) ↦
                taken h h' r h.eof got (same _ h' (some f) e (rw stop at next))
          ]
    ]
  ]

-- What goes from the state `h` to `h'` has been hashed, and nothing is lost.
pub record Moves {S : Type 0} (contents : S → Bytes) (h : HmacVerifyReader S) (moved : Bytes)
    (h' : HmacVerifyReader S) : Type 0 where
  key : h'.key ≡ h.key
  hashed : h'.hashed ≡ h.hashed ++ moved
  pub rest : h.buf ++ contents h.source ≡ moved ++ (h'.buf ++ contents h'.source)

stays : {S : Type 0} (contents : S → Bytes) (h : HmacVerifyReader S) → Moves contents h [] h
stays contents h = record { key = refl; hashed = sym (append-nil h.hashed); rest = refl }

Moves-trans :
    {S : Type 0} (contents : S → Bytes) (h₀ h₁ h₂ : HmacVerifyReader S) (a b : Bytes)
    → Moves contents h₀ a h₁
    → Moves contents h₁ b h₂
    → Moves contents h₀ (a ++ b) h₂
Moves-trans contents h₀ h₁ h₂ a b m m' = record {
  key = m'.key ∙ m.key;
  hashed = m'.hashed ∙ ap (λ x. x ++ b) m.hashed ∙ append_assoc h₀.hashed a b;
  rest = m.rest ∙ ap (λ x. a ++ x) m'.rest ∙ sym (append_assoc a b _);
}

cut-Moves :
    {S : Type 0} (contents : S → Bytes) (n : ℕ) (h : HmacVerifyReader S)
    → Moves contents h
        (take n h.buf)
        (record h { buf = drop n h.buf; hashed = h.hashed ++ take n h.buf })
cut-Moves contents n h = record {
  key = refl;
  hashed = refl;
  rest =
      ap (λ x. x ++ contents h.source) (sym (take-append-drop n h.buf))
      ∙ append_assoc (take n h.buf) (drop n h.buf) (contents h.source);
}

release-Moves :
    {S : Type 0} (contents : S → Bytes) (size : ℕ) (h : HmacVerifyReader S)
    → Moves contents h (release size h).bytes (release size h).state
unfolding release
release-Moves contents size h = elim (Bool-cases (ltb (length h.buf) 20)) [
  | inl short ↦ rw (release, short) (stays contents h)
  | inr long ↦
      rw (release, long)
        (cut-Moves contents (if ltb size (length h.buf - 20) then size else length h.buf - 20) h)
]

module _ {S : Type 0} (read : Read S) (contents : S → Bytes) (source : IsSource read contents) where
  pub hmac_verify_read-Moves :
      (h : HmacVerifyReader S) (n : ℕ) (r : Verified S)
      → hmac_verify_read read h n ≡ returns r
      → Moves contents h r.bytes r.state
  unfolding hmac_verify_read
  hmac_verify_read-Moves h n r ran =
      let (out, filled, next) = >>=-eq-returns (fill read (fill_fuel n) n h) _ ran in
      let s = fill-Same read contents source n (fill_fuel n) h out.0 out.1 filled in
      let m : Moves contents h [] out.0 = record {
        key = s.key;
        hashed = s.hashed ∙ sym (append-nil h.hashed);
        rest = sym s.rest;
      } in
      elim (Option-cases out.1) [
        | inl fine ↦
            subst (λ (v : Verified S). Moves contents h v.bytes v.state)
              (returns-injective (rw fine at next))
              (Moves-trans contents h out.0 _ [] _ m (release-Moves contents n out.0))
        | inr (e, failed) ↦
            subst (λ (v : Verified S). Moves contents h v.bytes v.state)
              (returns-injective (rw failed at next)) m
      ]

  pub read_sizes-Moves :
      (sizes : List ℕ) (h : HmacVerifyReader S) (d : Delivered S)
      → read_sizes read h sizes ≡ returns d
      → Moves contents h d.bytes d.state
  unfolding read_sizes
  read_sizes-Moves [] h d ran =
      subst (λ (d : Delivered S). Moves contents h d.bytes d.state) (returns-injective ran)
        (stays contents h)
  read_sizes-Moves (n ∷ more) h d ran =
      let (r, got, next) = >>=-eq-returns (hmac_verify_read read h n) _ ran in
      let m = hmac_verify_read-Moves h n r got in
      elim (Option-cases r.stop) [
        | inr (t, stop) ↦
            subst (λ (d : Delivered S). Moves contents h d.bytes d.state)
              (returns-injective (rw stop at next)) m
        | inl going ↦
            let (d', ran', same) =
              >>=-eq-returns (read_sizes read r.state more) _ (rw going at next) in
            subst (λ (d : Delivered S). Moves contents h d.bytes d.state) (returns-injective same)
              (Moves-trans contents h r.state d'.state r.bytes d'.bytes m
                (read_sizes-Moves more r.state d' ran'))
      ]

-- Over a source that gives its contents in order, Close accepts after a run of Reads, of any sizes,
-- only if the contents start with what the Reads have handed out, followed by its HMAC; what is behind is not read.
pub hmac_verify_close_authentic :
    (c : Crypto) {S : Type 0} (read : Read S) (contents : S → Bytes) (k : HmacKey) (s : S)
    (sizes : List ℕ) (d : Delivered S)
    → IsSource read contents
    → read_sizes read (verify_reader k s) sizes ≡ returns d
    → hmac_verify_close c d.state ≡ none
    → contents s ≡ d.bytes ++ (c.hmac_sha1 k.key d.bytes ++ contents d.state.source)
unfolding hmac_verify_close
hmac_verify_close_authentic c read contents k s sizes d source ran closed =
    let m = read_sizes-Moves read contents source sizes (verify_reader k s) d ran in
    elim (Bool-cases (bytes_eq (c.hmac_sha1 d.state.key d.state.hashed) d.state.buf)) [
      | inr refused ↦ cc (rw (hmac_verify_close, refused) at closed)
      | inl accepted ↦
          m.rest
          ∙ ap (λ x. d.bytes ++ (x ++ contents d.state.source))
              (sym (bytes_eq→eq _ _ accepted) ∙ rw (m.key, m.hashed) refl)
    ]

-- Once a run of Reads has read the source to its end, where its contents are a message and its HMAC,
-- and has handed out as many bytes as the message has.
pub hmac_verify_close_split :
    (c : Crypto) {S : Type 0} (read : Read S) (contents : S → Bytes) (k : HmacKey) (s : S)
    (sizes : List ℕ) (d : Delivered S) (msg : Bytes)
    → IsSource read contents
    → contents s ≡ msg ++ c.hmac_sha1 k.key msg
    → read_sizes read (verify_reader k s) sizes ≡ returns d
    → contents d.state.source ≡ []
    → length d.bytes ≡ length msg
    → (d.bytes ≡ msg) × (hmac_verify_close c d.state ≡ none)
unfolding hmac_verify_close
hmac_verify_close_split c read contents k s sizes d msg source signed ran ended long =
    let m = read_sizes-Moves read contents source sizes (verify_reader k s) d ran in
    let split : d.bytes ++ d.state.buf ≡ msg ++ c.hmac_sha1 k.key msg =
      sym (m.rest ∙ ap (λ x. d.bytes ++ x) (rw ended (append-nil d.state.buf))) ∙ signed in
    let is_msg : d.bytes ≡ msg =
      sym (take-append (length msg) d.bytes d.state.buf (sym long))
      ∙ ap (take (length msg)) split
      ∙ take-append (length msg) msg _ refl in
    let is_tag : d.state.buf ≡ c.hmac_sha1 k.key msg =
      sym (drop-append (length msg) d.bytes d.state.buf (sym long))
      ∙ ap (drop (length msg)) split
      ∙ drop-append (length msg) msg _ refl in
    (is_msg, rw (m.key, m.hashed, is_msg, is_tag) (rw (bytes_eq_refl (c.hmac_sha1 k.key msg)) refl))
