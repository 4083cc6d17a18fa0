-- ===== src/Command/Stops.antt =====
-- keyczart/dkeyczart.go: a command that stops with a message has left the disk alone.
use dkeyczar.Prelude.{
  Bytes, false, Result, ◌≡◌, Option, none, some, List, [], ◌∷◌, ℤ, to_uint64, arith,
}
use dkeyczar.Crypto.{Crypto}
use dkeyczar.Json.{Json}
use dkeyczar.KeySet.{KeyReader, KeyCzar}
use dkeyczar.Crypter.{KeyCrypter}
use dkeyczar.Readers.Files.{Files}
use dkeyczar.KeyManager.{KeyManager, add_key, promote, demote, pub_keys, create, to_jsons}
use dkeyczar.Command.{Disk, Message, stopped, missing_input, write_texts, update, save, encrypting}
use dkeyczar.Command.Using.{UseKeyOpts, Draws, write_outputs, with_input, use_key}
use dkeyczar.Command.Main.{
  CreateOpts, AddKeyOpts, PubKeyOpts, Command, creating, promoting, demoting, revoking, adding,
  publishing, using, manager, manager_of, run_create, run_change, run_add_key, run_pub_key,
  run_command,
}
use dkeyczar.Command.Quiet.{
  follows_change, StopsEarly, NeverStops, bind-StopsEarly, return-ReadsOnly, stop-ReadsOnly,
  ReadsOnly-StopsEarly, bind-NeverStops, or_crash-ReadsOnly, or_crash-NeverStops, made-StopsEarly,
}
use dkeyczar.Command.Reads.{
  purpose_of-ReadsOnly, key_type_of-ReadsOnly, status_of-ReadsOnly, added-ReadsOnly,
  require_version-ReadsOnly, load_crypter-ReadsOnly, load_reader-ReadsOnly,
  load_location_reader-ReadsOnly, outputs-ReadsOnly,
}

module _ (c : Crypto) (j : Json) (f : Files) {D : Type 0} (disk : Disk D) where
  write_texts-NeverStops :
      (location : Bytes) (texts : List Bytes) → NeverStops (write_texts f disk location texts)
  unfolding write_texts
  write_texts-NeverStops location [] = record { never = λ d d' message e. cc }
  write_texts-NeverStops location (meta ∷ texts) = record { never = λ d d' message e. cc }

  update-NeverStops :
      (rand location : Bytes) (km : Option KeyManager) (crypter : Option KeyCrypter)
      → NeverStops (update c j f disk rand location km crypter)
  unfolding update
  update-NeverStops rand location none crypter = record { never = λ d d' message e. cc }
  update-NeverStops rand location (some km) crypter =
      bind-NeverStops (or_crash-NeverStops (to_jsons j (encrypting c rand crypter) km))
        (λ (r : KeyManager × List Bytes). write_texts-NeverStops location r.1)

  save-StopsEarly :
      (rand location : Bytes) (km : Option KeyManager) (crypter : Option KeyCrypter)
      → StopsEarly (save c j f disk rand location km crypter)
  unfolding save
  save-StopsEarly rand location km crypter = record {
    early = λ d d' message e clean.
        made-StopsEarly (disk.mkdir_all location d) _ d d' message
          (update-NeverStops rand location km crypter) e clean;
  }

  update-StopsEarly :
      (rand location : Bytes) (km : Option KeyManager) (crypter : Option KeyCrypter)
      → StopsEarly (update c j f disk rand location km crypter)
  update-StopsEarly rand location km crypter = record {
    early = λ d d' message e clean.
        absurd ((update-NeverStops rand location km crypter).never d d' message e);
  }

module _ (c : Crypto) (j : Json) (f : Files) (unix_of : Bytes → ℤ) {D : Type 0} (disk : Disk D)
    (draws : Draws) where
  write_outputs-StopsEarly :
      (o : UseKeyOpts) (made : Bytes × Bytes)
      → StopsEarly (write_outputs c j f unix_of disk draws o made)
  unfolding write_outputs
  write_outputs-StopsEarly o (output, output2) = record {
    early = λ d d' message e clean. ground arith;
  }

  with_input-StopsEarly :
      (r : KeyReader) (o : UseKeyOpts) (args : List Bytes)
      → StopsEarly (with_input c j f unix_of disk draws r o args)
  unfolding with_input
  with_input-StopsEarly r o [] = ReadsOnly-StopsEarly (stop-ReadsOnly missing_input)
  with_input-StopsEarly r o (input ∷ more) =
      bind-StopsEarly (outputs-ReadsOnly c j f unix_of disk draws r o input more)
        (λ made. write_outputs-StopsEarly o made)

  use_key-StopsEarly :
      (o : UseKeyOpts) (args : List Bytes) → StopsEarly (use_key c j f unix_of disk draws o args)
  unfolding use_key
  use_key-StopsEarly o args =
      bind-StopsEarly (load_crypter-ReadsOnly c j f disk o.crypter) (λ crypter.
        bind-StopsEarly (load_reader-ReadsOnly c j f disk o.location crypter)
          (λ r. with_input-StopsEarly r o args))

  run_create-StopsEarly : (o : CreateOpts) → StopsEarly (run_create c j f unix_of disk draws o)
  unfolding run_create
  run_create-StopsEarly o = bind-StopsEarly (purpose_of-ReadsOnly o.purpose) (λ purpose.
      bind-StopsEarly (key_type_of-ReadsOnly purpose o.asymmetric) (λ ktype.
        save-StopsEarly c j f disk draws.encrypting o.location
          (manager (create o.name purpose ktype)) none))

  run_change-StopsEarly :
      (change : KeyCzar → Result KeyCzar) (location : Bytes) (version : ℤ)
      → StopsEarly (run_change c j f unix_of disk draws change location version)
  unfolding run_change
  run_change-StopsEarly change location version =
      bind-StopsEarly (load_location_reader-ReadsOnly c j f disk location none) (λ kz.
        bind-StopsEarly (require_version-ReadsOnly version) (λ _.
          bind-StopsEarly (or_crash-ReadsOnly (change kz))
            (λ kz'. update-StopsEarly c j f disk draws.encrypting location (manager kz') none)))

  run_add_key-StopsEarly : (o : AddKeyOpts) → StopsEarly (run_add_key c j f unix_of disk draws o)
  unfolding run_add_key
  run_add_key-StopsEarly o =
      bind-StopsEarly (load_crypter-ReadsOnly c j f disk o.crypter) (λ crypter.
        bind-StopsEarly (load_location_reader-ReadsOnly c j f disk o.location crypter) (λ kz.
          bind-StopsEarly (status_of-ReadsOnly o.status) (λ status.
            bind-StopsEarly (or_crash-ReadsOnly (add_key draws.random (to_uint64 o.size) status kz))
              (λ result. bind-StopsEarly (added-ReadsOnly result) (λ kz'.
                update-StopsEarly c j f disk draws.encrypting o.location (manager kz') crypter)))))

  run_pub_key-StopsEarly : (o : PubKeyOpts) → StopsEarly (run_pub_key c j f unix_of disk draws o)
  unfolding run_pub_key
  run_pub_key-StopsEarly o =
      bind-StopsEarly (load_location_reader-ReadsOnly c j f disk o.location none) (λ kz.
        save-StopsEarly c j f disk draws.encrypting o.destination (manager_of (pub_keys kz)) none)

  run_command-StopsEarly : (cmd : Command) → StopsEarly (run_command c j f unix_of disk draws cmd)
  unfolding run_command
  run_command-StopsEarly (creating o) = run_create-StopsEarly o
  run_command-StopsEarly (promoting location version) =
      run_change-StopsEarly (promote version) location version
  run_command-StopsEarly (demoting location version) =
      run_change-StopsEarly (demote version) location version
  run_command-StopsEarly (revoking location version) = ReadsOnly-StopsEarly (return-ReadsOnly tt)
  run_command-StopsEarly (adding o) = run_add_key-StopsEarly o
  run_command-StopsEarly (publishing o) = run_pub_key-StopsEarly o
  run_command-StopsEarly (using o args) = use_key-StopsEarly o args

  -- Whatever command stops with a message, on any disk, has left the disk as it was, unless the
  -- message is that a directory could not be created or that the second destination of usekey is
  -- missing.
  pub run_command-stopped :
      (cmd : Command) (d d' : D) (message : Message)
      → run_command c j f unix_of disk draws cmd d ≡ (d', stopped message)
      → follows_change message ≡ false
      → d' ≡ d
  run_command-stopped cmd d d' message e clean =
      (run_command-StopsEarly cmd).early d d' message e clean
