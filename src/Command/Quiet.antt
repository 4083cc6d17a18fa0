-- ===== src/Command/Quiet.antt =====
-- keyczart/dkeyczart.go: the parts of the command that only read, and those that stop before they
-- write.
use dkeyczar.Prelude.{
  Bytes, Bool, true, false, Result, ok, err, panic, ◌≡◌, refl, sym, ap, ◌∙◌, Option, none, some, [],
  Error, if◌then◌else◌,
}
use dkeyczar.Command.{
  Message, no_directory, missing_destination2, Outcome, done, stopped, crashed, Run, after, ◌>>=◌,
  return, stop, crash, or_stop, or_crash, or_nil, made,
}
use dkeyczar.Command.Using.{or_empty_text}

-- The messages that can follow a change of the disk: creating a directory has failed, or the second
-- destination is missing after the first output is written.
abbrev pub follows_change : Message → Bool
follows_change no_directory = true
follows_change missing_destination2 = true
follows_change _ = false

module _ {D : Type 0} where
  pub record ReadsOnly {A : Type 0} (m : Run D A) : Type 0 where
    pub same : (d : D) → (m d).0 ≡ d

  -- Where it stops with another message, the disk is as it was.
  pub record StopsEarly {A : Type 0} (m : Run D A) : Type 0 where
    pub early :
        (d d' : D) (message : Message)
        → m d ≡ (d', stopped message)
        → follows_change message ≡ false
        → d' ≡ d

  pub record NeverStops {A : Type 0} (m : Run D A) : Type 0 where
    pub never : (d d' : D) (message : Message) → m d ≡ (d', stopped message) → ⊥

  pub return-ReadsOnly : {A : Type 0} (a : A) → ReadsOnly (return {D = D} a)
  return-ReadsOnly a = record { same = λ d. refl }

  pub stop-ReadsOnly : {A : Type 0} (m : Message) → ReadsOnly (stop {D = D} {A = A} m)
  stop-ReadsOnly m = record { same = λ d. refl }

  pub crash-ReadsOnly : {A : Type 0} → ReadsOnly (crash {D = D} {A = A})
  crash-ReadsOnly = record { same = λ d. refl }

  after-ReadsOnly :
      {A B : Type 0} (r : D × Outcome A) (next : A → Run D B)
      → ((a : A) → ReadsOnly (next a))
      → (after r next).0 ≡ r.0
  after-ReadsOnly (d, done a) next h = (h a).same d
  after-ReadsOnly (d, stopped m) next h = refl
  after-ReadsOnly (d, crashed) next h = refl

  pub bind-ReadsOnly :
      {A B : Type 0} {m : Run D A} {next : A → Run D B}
      → ReadsOnly m
      → ((a : A) → ReadsOnly (next a))
      → ReadsOnly (m >>= next)
  bind-ReadsOnly {m} {next} h h' = record { same = λ d. after-ReadsOnly (m d) next h' ∙ h.same d }

  after-StopsEarly :
      {A B : Type 0} (d d' : D) (r : D × Outcome A) (next : A → Run D B) (message : Message)
      → r.0 ≡ d
      → ((a : A) → StopsEarly (next a))
      → after r next ≡ (d', stopped message)
      → follows_change message ≡ false
      → d' ≡ d
  after-StopsEarly d d' (d₁, done a) next message same h e clean =
      (h a).early d₁ d' message e clean ∙ same
  after-StopsEarly d d' (d₁, stopped m) next message same h e clean = cc
  after-StopsEarly d d' (d₁, crashed) next message same h e clean = cc

  pub bind-StopsEarly :
      {A B : Type 0} {m : Run D A} {next : A → Run D B}
      → ReadsOnly m
      → ((a : A) → StopsEarly (next a))
      → StopsEarly (m >>= next)
  bind-StopsEarly {m} {next} h h' = record {
    early = λ d d' message e clean. after-StopsEarly d d' (m d) next message (h.same d) h' e clean;
  }

  pub ReadsOnly-StopsEarly : {A : Type 0} {m : Run D A} → ReadsOnly m → StopsEarly m
  ReadsOnly-StopsEarly {A} {m} h = record {
    early = λ d d' message e clean. ap (λ (r : D × Outcome A). r.0) (sym e) ∙ h.same d;
  }

  after-NeverStops :
      {A B : Type 0} (r : D × Outcome A) (next : A → Run D B)
      → ((d : D) (message : Message) → r ≡ (d, stopped message) → ⊥)
      → ((a : A) → NeverStops (next a))
      → (d : D) (message : Message) → after r next ≡ (d, stopped message)
      → ⊥
  after-NeverStops (d₁, done a) next h h' d message e = (h' a).never d₁ d message e
  after-NeverStops (d₁, stopped m) next h h' d message e = h d₁ m refl
  after-NeverStops (d₁, crashed) next h h' d message e = cc

  pub bind-NeverStops :
      {A B : Type 0} {m : Run D A} {next : A → Run D B}
      → NeverStops m
      → ((a : A) → NeverStops (next a))
      → NeverStops (m >>= next)
  bind-NeverStops {m} {next} h h' = record {
    never = λ d d' message e. after-NeverStops (m d) next (h.never d) h' d' message e;
  }

  pub if-ReadsOnly :
      {A : Type 0} (b : Bool) {m n : Run D A}
      → ReadsOnly m
      → ReadsOnly n
      → ReadsOnly (if b then m else n)
  if-ReadsOnly true h h' = h
  if-ReadsOnly false h h' = h'

  pub or_crash-ReadsOnly : {A : Type 0} (r : Result A) → ReadsOnly (or_crash {D = D} r)
  or_crash-ReadsOnly (ok a) = return-ReadsOnly a
  or_crash-ReadsOnly (err e) = crash-ReadsOnly
  or_crash-ReadsOnly panic = crash-ReadsOnly

  pub or_crash-NeverStops : {A : Type 0} (r : Result A) → NeverStops (or_crash {D = D} r)
  or_crash-NeverStops (ok a) = record { never = λ d d' message e. cc }
  or_crash-NeverStops (err x) = record { never = λ d d' message e. cc }
  or_crash-NeverStops panic = record { never = λ d d' message e. cc }

  pub or_stop-ReadsOnly :
      {A : Type 0} (message : Message) (r : Result A) → ReadsOnly (or_stop {D = D} message r)
  or_stop-ReadsOnly message (ok a) = return-ReadsOnly a
  or_stop-ReadsOnly message (err e) = stop-ReadsOnly message
  or_stop-ReadsOnly message panic = crash-ReadsOnly

  pub or_nil-ReadsOnly : {A : Type 0} (r : Result A) → ReadsOnly (or_nil {D = D} r)
  or_nil-ReadsOnly (ok a) = return-ReadsOnly (some a)
  or_nil-ReadsOnly (err e) = return-ReadsOnly none
  or_nil-ReadsOnly panic = crash-ReadsOnly

  pub or_empty_text-ReadsOnly : (r : Result Bytes) → ReadsOnly (or_empty_text {D = D} r)
  or_empty_text-ReadsOnly (ok s) = return-ReadsOnly s
  or_empty_text-ReadsOnly (err e) = return-ReadsOnly []
  or_empty_text-ReadsOnly panic = crash-ReadsOnly

  -- A message after the directory was made is the one of the failure, or comes from what follows.
  pub made-StopsEarly :
      (r : D × Option Error) (next : Run D (Unit {0})) (d d' : D) (message : Message)
      → NeverStops next
      → made r next ≡ (d', stopped message)
      → follows_change message ≡ false
      → d' ≡ d
  made-StopsEarly (d₁, none) next d d' message h e clean = absurd (h.never d₁ d' message e)
  made-StopsEarly (d₁, some x) next d d' message h e clean = cc
