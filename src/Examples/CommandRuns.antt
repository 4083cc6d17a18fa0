-- ===== src/Examples/CommandRuns.antt =====
-- The theorems about the command, applied to a disk in memory, and runs of it.
use dkeyczar.Prelude.{
  ◌≡◌, refl, Bytes, false, ok, err, none, List, [], ◌∷◌, ◌++◌, ℤ, pos, codes, replicate, arith, All,
  length, if◌then◌else◌, eq_ℤ, minus_one, no_primary_key, lookup_key, int_eq, foreign, bytes_eq,
  map, to_uint64, to_int64, set_key,
}
use dkeyczar.KeyInfo.{t_hmac_sha1, s_primary, default_size, p_sign_and_verify}
use dkeyczar.Keys.{KeyData, generate_key}
use dkeyczar.Keys.Hmac.{generate_hmac_key}
use dkeyczar.KeySet.{
  KeyReader, KeyCzar, load_primary_key, new_key_czar, load_for, load_with_primary,
}
use dkeyczar.KeyManager.Counting.{Holds}
use dkeyczar.KeyManager.Generated.{SuppliesKeys}
use dkeyczar.KeyManager.{create, add_key, to_jsons}
use dkeyczar.Command.{done, stopped, crashed, unknown_asymmetric, load_location_reader, update}
use dkeyczar.Command.Using.{Draws}
use dkeyczar.Command.Main.{
  CreateOpts, AddKeyOpts, PubKeyOpts, Command, creating, promoting, adding, run_create, run_command,
  status_of, run_add_key, run_pub_key, run_all,
}
use dkeyczar.Command.Lifecycle.{Manages, Changes}
use dkeyczar.Command.Loads.{create-Manages, run_all_loads}
use dkeyczar.Examples.Crypto.{tools, tools_laws}
use dkeyczar.Examples.Json.{texts, texts_laws}
use dkeyczar.Examples.ManagerRuns.{random, made, one_promoted, one_promoted-IsStorableSet}
use dkeyczar.KeyManager.Storable.{forgetting}
use dkeyczar.KeyManager.Served.{latest}
use dkeyczar.Readers.Files.{new_file_reader}
use dkeyczar.Crypter.{new_crypter}
use dkeyczar.Command.{files_at}
use dkeyczar.Command.Main.{manager}
use dkeyczar.Command.Directory.{load_location_reader-update}
use dkeyczar.Command.Stops.{run_command-stopped}
use dkeyczar.Command.Clear.{run_add_key-failed_crypter, run_pub_key-not_private}
use dkeyczar.Examples.Disks.{
  Memory, read_memory, digits, memory_disk, base_files, base_files-ItoaLaws, keys_directory,
  keys_directory-IsDirectory,
}

abbrev draws : Draws
draws = record {
  random = random;
  encrypting = replicate 16 1;
  signing = [];
  session_key = replicate 16 2;
  session_hmac_key = replicate 32 3;
  nonce = replicate 16 4;
  session_encrypting = replicate 16 5;
}

abbrev unix : Bytes → ℤ
unix date = pos 0

random-SuppliesKeys : SuppliesKeys random
random-SuppliesKeys = record {
  key_bytes = ground arith;
  key_length = omega arith;
  hmac_bytes = ground arith;
  hmac_length = omega arith;
  rsa_keys = λ n k e. cc;
  dsa_keys = λ k e. cc;
}

abbrev sign_opts : CreateOpts
sign_opts = record {
  location = keys_directory;
  purpose = codes "sign";
  name = codes "test";
  asymmetric = [];
}

abbrev created : Memory
created =
    (
      codes "keys/meta",
      texts.meta.marshal (record {
        name = codes "test";
        type = t_hmac_sha1;
        purpose = p_sign_and_verify;
        encrypted = false;
        versions = [];
      }),
    )
    ∷ []

created_lem :
    run_create tools texts base_files unix memory_disk draws sign_opts [] ≡ (created, done tt)
unfolding run_create create bytes_eq to_jsons lookup_key
created_lem = refl

abbrev primary_opts : AddKeyOpts
primary_opts = record {
  location = keys_directory;
  status = codes "primary";
  size = pos 0;
  crypter = [];
}

abbrev runs : List (Command × Draws)
runs =
    (adding primary_opts, draws)
    ∷ (adding primary_opts, draws)
    ∷ (promoting keys_directory (pos 1), draws)
    ∷ []

runs-Changes :
    All
      (λ (r : Command × Draws).
        Changes tools texts base_files unix memory_disk keys_directory r.0 r.1)
      runs
runs-Changes = ((refl, refl, random-SuppliesKeys), ((refl, refl, random-SuppliesKeys), (refl, tt)))

run_all_loads_example :
    (kz : KeyCzar) × (ks : List KeyData) × (load_location_reader tools texts base_files memory_disk
        keys_directory none
        (run_all tools texts base_files unix memory_disk runs created)
      ≡ (run_all tools texts base_files unix memory_disk runs created, done kz))
    × Holds 1 ks kz.keys
    × (length kz.keymeta.versions ≡ length ks)
    × (load_primary_key kz ≡ (if eq_ℤ kz.primary minus_one then err no_primary_key else ok kz))
run_all_loads_example =
    run_all_loads tools texts base_files unix memory_disk keys_directory base_files-ItoaLaws
      keys_directory-IsDirectory tools_laws texts_laws sign_opts draws runs [] created refl
      (ground arith) created_lem runs-Changes (omega arith)

load_location_reader-update_example :
    (d' : Memory) × (loaded : KeyCzar) × (update tools texts base_files memory_disk []
        keys_directory
        (manager one_promoted)
        none
        []
      ≡ (d', done tt))
    × (load_location_reader tools texts base_files memory_disk keys_directory none d'
        ≡ (d', done loaded))
    × (loaded.keymeta ≡ one_promoted.keymeta)
    × (loaded.primary ≡ latest minus_one one_promoted.keymeta.versions)
    × Holds 1 (map forgetting (made ∷ [])) loaded.keys
load_location_reader-update_example =
    load_location_reader-update tools texts base_files memory_disk keys_directory
      base_files-ItoaLaws keys_directory-IsDirectory [] [] one_promoted (made ∷ []) tools_laws
      texts_laws one_promoted-IsStorableSet

abbrev odd_opts : CreateOpts
odd_opts = record sign_opts { asymmetric = codes "elg" }

odd_stops :
    run_command tools texts base_files unix memory_disk draws (creating odd_opts) created
    ≡ (created, stopped unknown_asymmetric)
unfolding run_command bytes_eq
odd_stops = refl

run_command-stopped_example : created ≡ created
run_command-stopped_example =
    run_command-stopped tools texts base_files unix memory_disk draws (creating odd_opts) created
      created unknown_asymmetric odd_stops refl

abbrev locked_opts : AddKeyOpts
locked_opts = record primary_opts { crypter = codes "lost" }

abbrev lost_reader : KeyReader
lost_reader = record {
  get_metadata = read_memory created (codes "lost/meta");
  get_key = λ version. read_memory created (codes "lost/" ++ digits version);
}

lost_opens :
    new_file_reader (files_at base_files memory_disk created) locked_opts.crypter ≡ ok lost_reader
unfolding new_file_reader
lost_opens = refl

lost_fails : new_crypter tools texts lost_reader ≡ err (foreign 2)
unfolding new_crypter read_memory load_with_primary load_for new_key_czar
lost_fails = refl

abbrev pub_opts : PubKeyOpts
pub_opts = record { location = keys_directory; destination = codes "pub" }

abbrev empty_set : KeyCzar
empty_set = create (codes "test") p_sign_and_verify t_hmac_sha1

created_loads :
    load_location_reader tools texts base_files memory_disk keys_directory none created
    ≡ (created, done empty_set)
unfolding load_location_reader create new_key_czar read_memory
created_loads = refl

created-Manages : Manages tools texts base_files unix memory_disk keys_directory 0 created
created-Manages =
    create-Manages tools texts base_files unix memory_disk keys_directory base_files-ItoaLaws
      keys_directory-IsDirectory tools_laws texts_laws sign_opts draws [] created refl
      (ground arith) created_lem

abbrev added_set : KeyCzar
added_set = record one_promoted { primary = minus_one }

adds : add_key random (to_uint64 (pos 0)) s_primary empty_set ≡ ok (added_set, none)
unfolding add_key create generate_key to_int64 set_key to_uint64 generate_hmac_key default_size
adds = refl

primary_known : {D : Type 0} (d : D) → status_of (codes "primary") d ≡ (d, done s_primary)
unfolding status_of bytes_eq
primary_known d = refl

run_add_key-failed_crypter_example :
    (ks : List KeyData) × (k : KeyData) × (d' : Memory) × (loaded : KeyCzar) × (run_add_key tools
        texts base_files unix memory_disk draws locked_opts created
      ≡ (d', done tt))
    × (load_location_reader tools texts base_files memory_disk keys_directory none d'
        ≡ (d', done loaded))
    × (loaded.keymeta ≡ added_set.keymeta)
    × Holds 1 ks empty_set.keys
    × Holds 1 (ks ++ k ∷ []) added_set.keys
    × Holds 1 (map forgetting (ks ++ k ∷ [])) loaded.keys
run_add_key-failed_crypter_example =
    run_add_key-failed_crypter tools texts base_files unix memory_disk draws locked_opts 0 created
      lost_reader (foreign 2) s_primary empty_set added_set tools_laws texts_laws
      base_files-ItoaLaws keys_directory-IsDirectory created-Manages (omega arith)
      random-SuppliesKeys lost_opens lost_fails created_loads (primary_known created) adds

run_pub_key-not_private_example :
    run_pub_key tools texts base_files unix memory_disk draws pub_opts created ≡ (created, crashed)
unfolding create
run_pub_key-not_private_example =
    run_pub_key-not_private tools texts base_files unix memory_disk draws pub_opts created created
      empty_set created_loads (λ e. cc) (λ e. cc) refl
