-- ===== src/Command/Lifecycle.antt =====
-- keyczart/dkeyczart.go: what create, addkey, promote and demote leave in a directory can always be
-- loaded, and its primary key is found.
use dkeyczar.Prelude.{
  ℕ, suc, ◌≤◌, ◌<◌, ◌^◌, ◌≡◌, refl, sym, Bytes, Result, ok, none, some, List, [], ◌∷◌, ◌++◌, map,
  length, length-append, ℤ, pos, eq_ℤ, arith, inl, inr, Bool-cases, Result-cases, to_uint64, ◌⊎◌,
  bytes_eq, codes,
}
use mathlib.Core.Path.{subst}
use dkeyczar.Crypto.{Crypto, CryptoLaws}
use dkeyczar.Json.{Json, JsonLaws}
use dkeyczar.KeyInfo.{KeyMeta, KeyStatus, s_primary, s_active, s_inactive}
use dkeyczar.Keys.{KeyData}
use dkeyczar.KeySet.{KeyCzar}
use dkeyczar.Readers.Files.{Files}
use dkeyczar.KeyManager.{add_key, promote, demote}
use dkeyczar.KeyManager.Storable.{forgetting}
use dkeyczar.KeyManager.Generated.{SuppliesKeys}
use dkeyczar.KeyManager.Filing.{HasSameKeys, promote-HasSameKeys, demote-HasSameKeys}
use dkeyczar.KeyManager.Served.{IsStorableSet}
use dkeyczar.KeyManager.Managed.{Agrees, IsManaged, demote-IsManaged}
use dkeyczar.KeyManager.Promoting.{promote-IsManaged}
use dkeyczar.KeyManager.Kept.{IsKept, loaded-IsKept, changed-IsStorableSet, added-IsStorableSet}
use dkeyczar.Command.{
  Disk, done, stopped, load_location_reader, load_crypter, update, unknown_status,
}
use dkeyczar.Command.Using.{Draws}
use dkeyczar.Command.Main.{
  AddKeyOpts, Command, promoting, demoting, revoking, adding, manager, run_change, run_add_key,
  run_command, status_of,
}
use dkeyczar.Command.Directory.{
  ItoaLaws, IsDirectory, HoldsSet, load_location_reader-HoldsSet, update-HoldsSet,
}

-- The calls of the manager that change a loaded key set without making a key.
abbrev KeepsKeys : (KeyCzar → Result KeyCzar) → Type 0
KeepsKeys change =
    (kz kz' : KeyCzar) → IsManaged kz → change kz ≡ ok kz' → IsManaged kz' × HasSameKeys kz kz'

promote-KeepsKeys : (version : ℤ) → KeepsKeys (promote version)
promote-KeepsKeys version kz kz' m e =
    (promote-IsManaged version kz kz' m e, promote-HasSameKeys version kz kz' e)

demote-KeepsKeys : (version : ℤ) → KeepsKeys (demote version)
demote-KeepsKeys version kz kz' m e =
    (demote-IsManaged version kz kz' m e, demote-HasSameKeys version kz kz' e)

status_of-cases :
    {D : Type 0} (status : Bytes) (d : D)
    → ((s : KeyStatus) × (status_of status d ≡ (d, done s)))
      ⊎ (status_of status d ≡ (d, stopped unknown_status))
unfolding status_of
status_of-cases status d = elim (Bool-cases (bytes_eq status [])) [
  | inl e ↦ inl (s_active, rw e refl)
  | inr e₁ ↦ elim (Bool-cases (bytes_eq status (codes "primary"))) [
    | inl e ↦ inl (s_primary, rw (e₁, e) refl)
    | inr e₂ ↦ elim (Bool-cases (bytes_eq status (codes "active"))) [
      | inl e ↦ inl (s_active, rw (e₁, e₂, e) refl)
      | inr e₃ ↦ elim (Bool-cases (bytes_eq status (codes "inactive"))) [
        | inl e ↦ inl (s_inactive, rw (e₁, e₂, e₃, e) refl)
        | inr e ↦ inr (rw (e₁, e₂, e₃, e) refl)
      ]
    ]
  ]
]

module _ (c : Crypto) (j : Json) (f : Files) (unix_of : Bytes → ℤ) {D : Type 0} (disk : Disk D)
    (location : Bytes) where
  -- The directory holds a key set of at most `n` versions, which agree with a primary one.
  pub record Manages (n : ℕ) (d : D) : Type 0 where
    pub meta : KeyMeta
    pub ks : List KeyData
    pub primary : ℤ
    pub holds : HoldsSet j f disk location d meta ks
    pub agrees : Agrees meta.versions primary
    pub small : length meta.versions ≤ n

  -- addkey, promote and demote on the directory, with keys in the clear, and revoke.
  abbrev pub Changes : Command → Draws → Type 0
  Changes (promoting l version) draws = l ≡ location
  Changes (demoting l version) draws = l ≡ location
  Changes (revoking l version) draws = Unit
  Changes (adding o) draws = (o.location ≡ location) × (o.crypter ≡ []) × SuppliesKeys draws.random
  Changes _ draws = ⊥

  module _ (names : ItoaLaws f) (dir : IsDirectory f disk location) (laws : CryptoLaws c)
      (jlaws : JsonLaws j) where
    -- Loading a directory gives a key set in the manager's hands.
    pub load-Manages :
        (n : ℕ) (d : D)
        → Manages n d
        → (kz : KeyCzar) × (ks : List KeyData) × (load_location_reader c j f disk location none d
            ≡ (d, done kz))
          × IsKept kz ks
          × (length kz.keymeta.versions ≤ n)
    load-Manages n d m =
        let (kz, loads, same, latest, free, holds) =
          load_location_reader-HoldsSet c j f disk location names dir d m.meta m.ks laws jlaws
            m.holds in
        (
          kz,
          map forgetting m.ks,
          loads,
          loaded-IsKept kz m.meta m.ks m.primary m.agrees m.holds.complete m.holds.storable
              m.holds.ascii same latest free holds,
          rw same m.small,
        )

    pub stored-Manages :
        (n : ℕ) (rand : Bytes) (d : D) (kz : KeyCzar) (ks : List KeyData) (primary : ℤ)
        → IsStorableSet kz ks
        → Agrees kz.keymeta.versions primary
        → length kz.keymeta.versions ≤ n
        → (d' : D) × (update c j f disk rand location (manager kz) none d ≡ (d', done tt))
          × Manages n d'
    stored-Manages n rand d kz ks primary storable agrees small =
        let (d', wrote, holds) =
          update-HoldsSet c j f disk location names dir rand d kz ks jlaws storable in
        (
          d',
          wrote,
          record {
            meta = kz.keymeta;
            ks = ks;
            primary = primary;
            holds = holds;
            agrees = agrees;
            small = small;
          },
        )

    change-Manages :
        (n : ℕ) (draws : Draws) (change : KeyCzar → Result KeyCzar) (version : ℤ) (d : D)
        → KeepsKeys change
        → Manages n d
        → Manages n (run_change c j f unix_of disk draws change location version d).0
    unfolding run_change
    change-Manages n draws change version d keeps m =
        let (kz, ks, loads, kept, small) = load-Manages n d m in
        elim (Bool-cases (eq_ℤ version (pos 0))) [
          | inl missing ↦ rw (loads, missing) m
          | inr given ↦ elim (Result-cases (change kz)) [
            | inl (kz', e) ↦
                let (managed, same) = keeps kz kz' kept.managed e in
                let (d', wrote, m') =
                  stored-Manages n draws.encrypting d kz' ks kz'.primary
                    (changed-IsStorableSet kz kz' ks kept same managed) managed
                    (rw (same.size) small) in
                rw (loads, given, e, wrote) m'
            | inr (inl (x, e)) ↦ rw (loads, given, e) m
            | inr (inr e) ↦ rw (loads, given, e) m
          ]
        ]

    wider : (n : ℕ) (d : D) → Manages n d → Manages (suc n) d
    wider n d m = record {
      meta = m.meta;
      ks = m.ks;
      primary = m.primary;
      holds = m.holds;
      agrees = m.agrees;
      small = omega (arith, m.small);
    }

    load_crypter-none : (d : D) → load_crypter c j f disk [] d ≡ (d, done none)
    unfolding load_crypter
    load_crypter-none d = refl

    add-Manages :
        (n : ℕ) (draws : Draws) (o : AddKeyOpts) (d : D)
        → o.location ≡ location
        → o.crypter ≡ []
        → SuppliesKeys draws.random
        → suc n < 2 ^ 63
        → Manages n d
        → Manages (suc n) (run_add_key c j f unix_of disk draws o d).0
    unfolding run_add_key
    add-Manages n draws o d at plain supplies fits m =
        let (kz, ks, loads, kept, small) = load-Manages n d m in
        let loads' : load_location_reader c j f disk o.location none d ≡ (d, done kz) =
          rw at loads in
        let opens : load_crypter c j f disk o.crypter d ≡ (d, done none) =
          rw plain (load_crypter-none d) in
        elim (status_of-cases o.status d) [
          | inr unknown ↦ rw (opens, loads', unknown) (wider n d m)
          | inl (status, known) ↦
              elim (Result-cases (add_key draws.random (to_uint64 o.size) status kz)) [
                | inl ((kz', none), e) ↦
                    let (k, storable, agrees) =
                      added-IsStorableSet draws.random (to_uint64 o.size) status kz kz' ks supplies
                        kept (omega (arith, small)) e in
                    let (d', wrote, m') =
                      stored-Manages (suc n) draws.encrypting d kz' (ks ++ k ∷ []) _ storable agrees
                        (longer kz kz' ks k kept.storable storable small) in
                    let wrote' : update c j f disk draws.encrypting o.location (manager kz') none d
                        ≡ (d', done tt) =
                      rw at wrote in
                    rw (opens, loads', known, e, wrote') m'
                | inl ((kz', some x), e) ↦ rw (opens, loads', known, e) (wider n d m)
                | inr (inl (x, e)) ↦ rw (opens, loads', known, e) (wider n d m)
                | inr (inr e) ↦ rw (opens, loads', known, e) (wider n d m)
              ]
        ]
      where
        longer :
            (kz kz' : KeyCzar) (ks : List KeyData) (k : KeyData)
            → IsStorableSet kz ks
            → IsStorableSet kz' (ks ++ k ∷ [])
            → length kz.keymeta.versions ≤ n
            → length kz'.keymeta.versions ≤ suc n
        longer kz kz' ks k before after small =
            omega (arith, before.complete, after.complete, length-append ks (k ∷ []))

    -- A run of the command keeps the directory so, with one version more at most, whatever its outcome.
    pub run-Manages :
        (n : ℕ) (cmd : Command) (draws : Draws) (d : D)
        → Changes cmd draws
        → suc n < 2 ^ 63
        → Manages n d
        → Manages (suc n) (run_command c j f unix_of disk draws cmd d).0
    unfolding run_command
    run-Manages n (promoting l version) draws d at fits m = wider n _ (
        subst (λ l. Manages n (run_change c j f unix_of disk draws (promote version) l version d).0)
          (sym at)
          (change-Manages n draws (promote version) version d (promote-KeepsKeys version) m))
    run-Manages n (demoting l version) draws d at fits m = wider n _ (
        subst (λ l. Manages n (run_change c j f unix_of disk draws (demote version) l version d).0)
          (sym at) (change-Manages n draws (demote version) version d (demote-KeepsKeys version) m))
    run-Manages n (revoking l version) draws d at fits m = wider n d m
    run-Manages n (adding o) draws d (at, plain, supplies) fits m =
        add-Manages n draws o d at plain supplies fits m
    run-Manages n cmd draws d at fits m = absurd at
