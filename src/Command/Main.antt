-- ===== src/Command/Main.antt =====
-- keyczart/dkeyczart.go, main: the commands, after the command line is parsed.
use dkeyczar.Prelude.{
  Bytes, Bool, true, false, Result, Error, Option, none, some, List, [], ◌∷◌, ℤ, pos, codes,
  bytes_eq, eq_ℤ, if◌then◌else◌, to_uint64,
}
use dkeyczar.Crypto.{Crypto}
use dkeyczar.Json.{Json}
use dkeyczar.KeyInfo.{
  KeyType, t_aes, t_hmac_sha1, t_dsa_priv, t_rsa_priv, KeyStatus, s_primary, s_active, s_inactive,
  KeyPurpose, p_decrypt_and_encrypt, p_sign_and_verify,
}
use dkeyczar.KeySet.{KeyCzar}
use dkeyczar.Readers.Files.{Files}
use dkeyczar.KeyManager.{KeyManager, create, add_key, promote, demote, pub_keys}
use dkeyczar.Command.{
  Disk, missing_purpose, unknown_purpose, unknown_asymmetric, invalid_combination, missing_version,
  unknown_status, add_failed, Run, ◌>>=◌, ◌>>◌, return, stop, or_crash, load_crypter,
  load_location_reader, update, save,
}
use dkeyczar.Command.Using.{UseKeyOpts, Draws, use_key}

pub record CreateOpts : Type 0 where
  pub location : Bytes
  pub purpose : Bytes
  pub name : Bytes
  pub asymmetric : Bytes

pub record AddKeyOpts : Type 0 where
  pub location : Bytes
  pub status : Bytes
  pub size : ℤ
  pub crypter : Bytes

pub record PubKeyOpts : Type 0 where
  pub location : Bytes
  pub destination : Bytes

-- The command and its options, where promote, demote and revoke have a location and a version; the
-- arguments of usekey are those that are no options.
pub data Command : Type 0 where
  creating : CreateOpts → Command
  promoting demoting revoking : Bytes → ℤ → Command
  adding : AddKeyOpts → Command
  publishing : PubKeyOpts → Command
  using : UseKeyOpts → List Bytes → Command

abbrev pub manager : KeyCzar → Option KeyManager
manager kz = some (record { kz = some kz })

-- A nil manager for a nil key set.
abbrev pub manager_of : Option KeyCzar → Option KeyManager
manager_of none = none
manager_of (some kz) = manager kz

module _ {D : Type 0} where
  unfoldable pub purpose_of : Bytes → Run D KeyPurpose
  purpose_of purpose =
      if bytes_eq purpose (codes "crypt")
      then return p_decrypt_and_encrypt
      else if bytes_eq purpose (codes "sign")
      then return p_sign_and_verify
      else if bytes_eq purpose []
      then stop missing_purpose
      else stop unknown_purpose

  -- The switch over the purpose and the asymmetric kind, whose text is checked first.
  abbrev pub kind_of : KeyPurpose → Bool → Bool → Bool → Run D KeyType
  kind_of p_decrypt_and_encrypt true rsa dsa = return t_aes
  kind_of p_decrypt_and_encrypt false true dsa = return t_rsa_priv
  kind_of p_sign_and_verify true rsa dsa = return t_hmac_sha1
  kind_of p_sign_and_verify false true dsa = return t_rsa_priv
  kind_of p_sign_and_verify false false true = return t_dsa_priv
  kind_of _ false false false = stop unknown_asymmetric
  kind_of _ _ _ _ = stop invalid_combination

  unfoldable pub key_type_of : KeyPurpose → Bytes → Run D KeyType
  key_type_of purpose asymmetric =
      kind_of purpose (bytes_eq asymmetric []) (bytes_eq asymmetric (codes "rsa"))
        (bytes_eq asymmetric (codes "dsa"))

  unfoldable pub status_of : Bytes → Run D KeyStatus
  status_of status =
      if bytes_eq status []
      then return s_active
      else if bytes_eq status (codes "primary")
      then return s_primary
      else if bytes_eq status (codes "active")
      then return s_active
      else if bytes_eq status (codes "inactive")
      then return s_inactive
      else stop unknown_status

  -- The key set and the error of AddKey.
  abbrev pub added : KeyCzar × Option Error → Run D KeyCzar
  added (kz, none) = return kz
  added (kz, some e) = stop add_failed

  abbrev pub require_version : ℤ → Run D (Unit {0})
  require_version version = if eq_ℤ version (pos 0) then stop missing_version else return tt

-- `unix_of` is time.Parse and then Unix; `draws` is what comes from rand.Reader.
module _ (c : Crypto) (j : Json) (f : Files) (unix_of : Bytes → ℤ) {D : Type 0} (disk : Disk D)
    (draws : Draws) where
  unfoldable pub run_create : CreateOpts → Run D (Unit {0})
  unfolding purpose_of key_type_of save
  run_create o = do
    purpose ← purpose_of o.purpose
    ktype ← key_type_of purpose o.asymmetric
    save c j f disk draws.encrypting o.location (manager (create o.name purpose ktype)) none

  -- promote and demote, which differ in the method of the manager.
  unfoldable pub run_change : (KeyCzar → Result KeyCzar) → Bytes → ℤ → Run D (Unit {0})
  unfolding load_location_reader update
  run_change change location version = do
    kz ← load_location_reader c j f disk location none
    require_version version
    kz' ← or_crash (change kz)
    update c j f disk draws.encrypting location (manager kz') none

  unfoldable pub run_add_key : AddKeyOpts → Run D (Unit {0})
  unfolding load_crypter load_location_reader status_of update
  run_add_key o = do
    crypter ← load_crypter c j f disk o.crypter
    kz ← load_location_reader c j f disk o.location crypter
    status ← status_of o.status
    result ← or_crash (add_key draws.random (to_uint64 o.size) status kz)
    kz' ← added result
    update c j f disk draws.encrypting o.location (manager kz') crypter

  unfoldable pub run_pub_key : PubKeyOpts → Run D (Unit {0})
  unfolding load_location_reader save
  run_pub_key o = do
    kz ← load_location_reader c j f disk o.location none
    save c j f disk draws.encrypting o.destination (manager_of (pub_keys kz)) none

  -- The switch of main has no case for revoke, which does nothing.
  unfoldable pub run_command : Command → Run D (Unit {0})
  unfolding run_create run_change run_add_key run_pub_key use_key
  run_command (creating o) = run_create o
  run_command (promoting location version) = run_change (promote version) location version
  run_command (demoting location version) = run_change (demote version) location version
  run_command (revoking location version) = return tt
  run_command (adding o) = run_add_key o
  run_command (publishing o) = run_pub_key o
  run_command (using o args) = use_key c j f unix_of disk draws o args

-- The disk after runs of the command, one after the other, whatever their outcomes.
module _ (c : Crypto) (j : Json) (f : Files) (unix_of : Bytes → ℤ) {D : Type 0}
    (disk : Disk D) where
  unfoldable pub run_all : List (Command × Draws) → D → D
  run_all [] d = d
  run_all ((cmd, draws) ∷ runs) d = run_all runs (run_command c j f unix_of disk draws cmd d).0
