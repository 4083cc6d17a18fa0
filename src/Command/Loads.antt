-- ===== src/Command/Loads.antt =====
-- keyczart/dkeyczart.go: a directory from its creation on.
use dkeyczar.Prelude.{
  ℕ, suc, ◌+◌, ◌<◌, ◌^◌, ◌≡◌, refl, sym, ap, ◌∙◌, Bytes, ok, err, Option, none, some, List, [], ◌∷◌,
  length, All, IsAscii, ℤ, minus_one, eq_ℤ, if◌then◌else◌, arith, no_primary_key, lookup_key,
  int_eq, Error,
}
use mathlib.Core.Path.{subst}
use dkeyczar.Crypto.{Crypto, CryptoLaws}
use dkeyczar.Json.{Json, JsonLaws}
use dkeyczar.KeyInfo.{KeyType, KeyPurpose}
use dkeyczar.Keys.{KeyData}
use dkeyczar.KeySet.{KeyCzar, load_primary_key}
use dkeyczar.Readers.Files.{Files}
use dkeyczar.KeyManager.{create}
use dkeyczar.KeyManager.Counting.{Holds}
use dkeyczar.KeyManager.Served.{IsStorableSet}
use dkeyczar.KeyManager.Managed.{create-IsManaged}
use dkeyczar.KeyManager.Reachable.{load_primary_key-IsManaged}
use dkeyczar.Command.{
  Disk, Outcome, done, stopped, crashed, Run, after, made, load_location_reader, update, save,
}
use dkeyczar.Command.Using.{Draws}
use dkeyczar.Command.Main.{
  CreateOpts, Command, manager, purpose_of, key_type_of, run_create, run_command, run_all,
}
use dkeyczar.Command.Directory.{ItoaLaws, IsDirectory}
use dkeyczar.Command.Lifecycle.{Manages, Changes, load-Manages, stored-Manages, run-Manages}

after-done :
    {D A B : Type 0} (r : D × Outcome A) (next : A → Run D B) {d' : D} {b : B}
    → after r next ≡ (d', done b)
    → (d : D) × (a : A) × (next a d ≡ (d', done b))
after-done (d, done a) next e = (d, a, e)
after-done (d, stopped m) next e = cc
after-done (d, crashed) next e = cc

made-done :
    {D : Type 0} (r : D × Option Error) (next : Run D (Unit {0})) {d' : D}
    → made r next ≡ (d', done tt)
    → (d : D) × (next d ≡ (d', done tt))
made-done (d, none) next e = (d, e)
made-done (d, some x) next e = cc

module _ (c : Crypto) (j : Json) (f : Files) (unix_of : Bytes → ℤ) {D : Type 0} (disk : Disk D)
    (location : Bytes) (names : ItoaLaws f) (dir : IsDirectory f disk location)
    (laws : CryptoLaws c) (jlaws : JsonLaws j) where
  create-IsStorableSet :
      (name : Bytes) (purpose : KeyPurpose) (ktype : KeyType)
      → All IsAscii name
      → IsStorableSet (create name purpose ktype) []
  unfolding create lookup_key
  create-IsStorableSet name purpose ktype ascii = record {
    numbered = tt;
    complete = refl;
    holds = refl;
    storable = tt;
    ascii = ascii;
  }

  no_versions :
      (name : Bytes) (purpose : KeyPurpose) (ktype : KeyType)
      → (create name purpose ktype).keymeta.versions ≡ []
  unfolding create
  no_versions name purpose ktype = refl

  updated-Manages :
      (l name : Bytes) (purpose : KeyPurpose) (ktype : KeyType) (rand : Bytes) (d d' : D)
      → l ≡ location
      → All IsAscii name
      → update c j f disk rand l (manager (create name purpose ktype)) none d ≡ (d', done tt)
      → Manages c j f unix_of disk location 0 d'
  updated-Manages l name purpose ktype rand d d' at ascii e =
      let kz = create name purpose ktype in
      let (d₁, wrote, m) =
        stored-Manages c j f unix_of disk location names dir laws jlaws 0 rand d kz [] kz.primary
          (create-IsStorableSet name purpose ktype ascii) (create-IsManaged name purpose ktype)
          (rw (no_versions name purpose ktype) (omega arith)) in
      subst (Manages c j f unix_of disk location 0)
        (ap (λ (r : D × Outcome (Unit {0})). r.0) (sym wrote ∙ rw at at e)) m

  pub create-Manages :
      (o : CreateOpts) (draws : Draws) (d d' : D)
      → o.location ≡ location
      → All IsAscii o.name
      → run_create c j f unix_of disk draws o d ≡ (d', done tt)
      → Manages c j f unix_of disk location 0 d'
  unfolding run_create save
  create-Manages o draws d d' at ascii e =
      let (d₁, purpose, e₁) = after-done (purpose_of o.purpose d) _ e in
      let (d₂, ktype, e₂) = after-done (key_type_of purpose o.asymmetric d₁) _ e₁ in
      let (d₃, e₃) = made-done (disk.mkdir_all o.location d₂) _ e₂ in
      updated-Manages o.location o.name purpose ktype draws.encrypting d₃ d' at ascii e₃

  runs-Manages :
      (n : ℕ) (runs : List (Command × Draws)) (d : D)
      → All (λ (r : Command × Draws). Changes c j f unix_of disk location r.0 r.1) runs
      → n + length runs < 2 ^ 63
      → Manages c j f unix_of disk location n d
      → Manages c j f unix_of disk location (n + length runs) (run_all c j f unix_of disk runs d)
  unfolding run_all
  runs-Manages n [] d all fits m =
      subst (λ n. Manages c j f unix_of disk location n d) (omega arith) m
  runs-Manages n ((cmd, draws) ∷ runs) d (changes, all) fits m =
      subst
        (λ n.
          Manages c j f unix_of disk location n
            (run_all c j f unix_of disk runs (run_command c j f unix_of disk draws cmd d).0))
        (omega arith)
        (runs-Manages (suc n) runs (run_command c j f unix_of disk draws cmd d).0 all (omega arith)
          (run-Manages c j f unix_of disk location names dir laws jlaws n cmd draws d changes
            (omega arith) m))

  -- In a directory whose files can be written, after create has succeeded with an ASCII name, and
  -- after any fewer than 2^63 runs of addkey without a crypter and with any status, promote, demote and revoke on that
  -- directory, in any order, whatever their options and outcomes: the directory can be loaded. The
  -- key set holds a key for each of its versions and none behind them, and loadPrimaryKey accepts it
  -- with the primary key that it was loaded with, or says that there is none when it has none.
  pub run_all_loads :
      (o : CreateOpts) (draws : Draws) (runs : List (Command × Draws)) (d d' : D)
      → o.location ≡ location
      → All IsAscii o.name
      → run_create c j f unix_of disk draws o d ≡ (d', done tt)
      → All (λ (r : Command × Draws). Changes c j f unix_of disk location r.0 r.1) runs
      → length runs < 2 ^ 63
      → (kz : KeyCzar) × (ks : List KeyData) × (load_location_reader c j f disk location none
            (run_all c j f unix_of disk runs d')
          ≡ (run_all c j f unix_of disk runs d', done kz))
        × Holds 1 ks kz.keys
        × (length kz.keymeta.versions ≡ length ks)
        × (load_primary_key kz ≡ (if eq_ℤ kz.primary minus_one then err no_primary_key else ok kz))
  run_all_loads o draws runs d d' at ascii created changes fits =
      let m = create-Manages o draws d d' at ascii created in
      let m' = runs-Manages 0 runs d' changes (omega arith) m in
      let (kz, ks, loads, kept, _) =
        load-Manages c j f unix_of disk location names dir laws jlaws (0 + length runs)
          (run_all c j f unix_of disk runs d') m' in
      (
        kz,
        ks,
        loads,
        kept.storable.holds,
        kept.storable.complete,
        load_primary_key-IsManaged kz kept.managed,
      )
