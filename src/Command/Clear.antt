-- ===== src/Command/Clear.antt =====
-- keyczart/dkeyczart.go, addkey with a crypter that cannot be loaded, and pubkey on a key set with no
-- public half.
use mathlib.Core.Path.{subst}
use dkeyczar.Prelude.{
  ℕ, suc, ◌≤◌, ◌<◌, ◌^◌, Bytes, err, ok, ◌≡◌, refl, sym, ap, ◌∙◌, none, List, [], ◌∷◌, ◌++◌, map,
  length, arith, ℤ, to_uint64, Error, ◌≢◌,
}
use dkeyczar.Crypto.{Crypto, CryptoLaws}
use dkeyczar.Json.{Json, JsonLaws}
use dkeyczar.KeyInfo.{
  KeyType, KeyPurpose, KeyStatus, t_aes, t_hmac_sha1, t_dsa_priv, t_dsa_pub, t_rsa_priv, t_rsa_pub,
}
use dkeyczar.Keys.{KeyData}
use dkeyczar.KeySet.{KeyCzar, KeyReader}
use dkeyczar.Crypter.{new_crypter}
use dkeyczar.Readers.Files.{Files, new_file_reader}
use dkeyczar.KeyManager.{add_key, pub_keys, public_kind}
use dkeyczar.KeyManager.Storable.{forgetting}
use dkeyczar.KeyManager.Counting.{Holds}
use dkeyczar.KeyManager.Generated.{SuppliesKeys}
use dkeyczar.KeyManager.Kept.{IsKept, added-IsStorableSet}
use dkeyczar.Command.{
  Disk, Outcome, done, stopped, crashed, files_at, load_crypter, load_location_reader, update, save,
}
use dkeyczar.Command.Using.{Draws}
use dkeyczar.Command.Main.{AddKeyOpts, PubKeyOpts, manager, status_of, run_add_key, run_pub_key}
use dkeyczar.Command.Directory.{ItoaLaws, IsDirectory, load_location_reader-update}
use dkeyczar.Command.Lifecycle.{Manages, load-Manages}

public_kind-none :
    (t : KeyType) (p : KeyPurpose) → t ≢ t_dsa_priv → t ≢ t_rsa_priv → public_kind t p ≡ none
unfolding public_kind
public_kind-none t_dsa_priv p not_dsa not_rsa = absurd (not_dsa refl)
public_kind-none t_rsa_priv p not_dsa not_rsa = absurd (not_rsa refl)
public_kind-none t_aes p not_dsa not_rsa = refl
public_kind-none t_hmac_sha1 p not_dsa not_rsa = refl
public_kind-none t_dsa_pub p not_dsa not_rsa = refl
public_kind-none t_rsa_pub p not_dsa not_rsa = refl

pub_keys-none :
    (kz : KeyCzar)
    → kz.keymeta.type ≢ t_dsa_priv
    → kz.keymeta.type ≢ t_rsa_priv
    → pub_keys kz ≡ none
unfolding pub_keys
pub_keys-none kz not_dsa not_rsa =
    rw (public_kind-none kz.keymeta.type kz.keymeta.purpose not_dsa not_rsa, pub_keys) refl

loaded-same :
    {D : Type 0} {d : D} {a b : KeyCzar}
    → Path (D × Outcome KeyCzar) (d, done a) (d, done b)
    → a ≡ b
loaded-same {D = D} {a = a} e = ap (λ (r : D × Outcome KeyCzar). value r.1) e
  where
    value : Outcome KeyCzar → KeyCzar
    value (done x) = x
    value (stopped x) = a
    value crashed = a

module _ (c : Crypto) (j : Json) (f : Files) (unix_of : Bytes → ℤ) {D : Type 0} (disk : Disk D)
    (draws : Draws) where
  load_crypter-failed :
      (location : Bytes) (d : D) (r : KeyReader) (e : Error)
      → new_file_reader (files_at f disk d) location ≡ ok r
      → new_crypter c j r ≡ err e
      → load_crypter c j f disk location d ≡ (d, done none)
  unfolding load_crypter
  load_crypter-failed [] d r e opens fails = refl
  load_crypter-failed (x ∷ location) d r e opens fails = rw (opens, fails) refl

  run_add_key-steps :
      (o : AddKeyOpts) (d d' : D) (status : KeyStatus) (kz kz' : KeyCzar)
      → load_crypter c j f disk o.crypter d ≡ (d, done none)
      → load_location_reader c j f disk o.location none d ≡ (d, done kz)
      → status_of o.status d ≡ (d, done status)
      → add_key draws.random (to_uint64 o.size) status kz ≡ ok (kz', none)
      → update c j f disk draws.encrypting o.location (manager kz') none d ≡ (d', done tt)
      → run_add_key c j f unix_of disk draws o d ≡ (d', done tt)
  unfolding run_add_key
  run_add_key-steps o d d' status kz kz' opens loads known adds wrote =
      rw (opens, loads, known, adds, wrote) refl

  -- Where the directory of the crypter opens but its key set cannot be loaded, the status is known, and
  -- AddKey makes a key for the key set that the directory holds, addkey succeeds all the same, and the
  -- directory then loads without any crypter: it has the metadata that AddKey left, and the new key
  -- behind those that were there, as they are without what KeyID had remembered. The directory, whose
  -- files can be written, holds a key set such as create and addkey without a crypter leave, with
  -- fewer than 2^63 - 1 versions, and the keys that are generated can be stored.
  pub run_add_key-failed_crypter :
      (o : AddKeyOpts) (n : ℕ) (d : D) (r : KeyReader) (e : Error) (status : KeyStatus)
      (kz kz' : KeyCzar)
      → CryptoLaws c
      → JsonLaws j
      → ItoaLaws f
      → IsDirectory f disk o.location
      → Manages c j f unix_of disk o.location n d
      → suc n < 2 ^ 63
      → SuppliesKeys draws.random
      → new_file_reader (files_at f disk d) o.crypter ≡ ok r
      → new_crypter c j r ≡ err e
      → load_location_reader c j f disk o.location none d ≡ (d, done kz)
      → status_of o.status d ≡ (d, done status)
      → add_key draws.random (to_uint64 o.size) status kz ≡ ok (kz', none)
      → (ks : List KeyData) × (k : KeyData) × (d' : D) × (loaded : KeyCzar) × (run_add_key c j f
            unix_of disk draws o d
          ≡ (d', done tt))
        × (load_location_reader c j f disk o.location none d' ≡ (d', done loaded))
        × (loaded.keymeta ≡ kz'.keymeta)
        × Holds 1 ks kz.keys
        × Holds 1 (ks ++ k ∷ []) kz'.keys
        × Holds 1 (map forgetting (ks ++ k ∷ [])) loaded.keys
  run_add_key-failed_crypter o n d r e status kz kz' laws jlaws names dir m fits supplies opens
        fails loads known adds =
      let (kz₁, ks, loads₁, kept₁, small₁) =
        load-Manages c j f unix_of disk o.location names dir laws jlaws n d m in
      let same : kz₁ ≡ kz = loaded-same (sym loads₁ ∙ loads) in
      let kept : IsKept kz ks = subst (λ x. IsKept x ks) same kept₁ in
      let small = subst (λ (x : KeyCzar). length x.keymeta.versions ≤ n) same small₁ in
      let (k, storable, _) =
        added-IsStorableSet draws.random (to_uint64 o.size) status kz kz' ks supplies kept
          (omega (arith, small)) adds in
      let (d', loaded, wrote, reads, meta, _, holds) =
        load_location_reader-update c j f disk o.location names dir draws.encrypting d kz'
          (ks ++ k ∷ []) laws jlaws storable in
      (
        ks,
        k,
        d',
        loaded,
        run_add_key-steps o d d' status kz kz' (load_crypter-failed o.crypter d r e opens fails)
            loads known adds wrote,
        reads,
        meta,
        kept.storable.holds,
        storable.holds,
        holds,
      )

  -- On a key set that can be loaded and whose type is neither of the two private ones, so one of
  -- symmetric or of public keys, pubkey makes the directory of the destination and then panics.
  pub run_pub_key-not_private :
      (o : PubKeyOpts) (d d' : D) (kz : KeyCzar)
      → load_location_reader c j f disk o.location none d ≡ (d, done kz)
      → kz.keymeta.type ≢ t_dsa_priv
      → kz.keymeta.type ≢ t_rsa_priv
      → disk.mkdir_all o.destination d ≡ (d', none)
      → run_pub_key c j f unix_of disk draws o d ≡ (d', crashed)
  unfolding run_pub_key save update
  run_pub_key-not_private o d d' kz loads not_dsa not_rsa makes =
      rw (loads, pub_keys-none kz not_dsa not_rsa, makes) refl
