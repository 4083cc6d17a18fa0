-- ===== src/Command/Reads.antt =====
-- keyczart/dkeyczart.go: the parts of the command that read, and compute what is written.
use dkeyczar.Prelude.{
  Bytes, Result, Option, none, some, List, [], ◌∷◌, ℤ, bytes_eq, codes, pos, eq_ℤ, Error, arith,
}
use dkeyczar.Crypto.{Crypto}
use dkeyczar.Json.{Json}
use dkeyczar.KeyInfo.{KeyPurpose}
use dkeyczar.KeySet.{KeyReader, KeyCzar, new_key_czar}
use dkeyczar.Crypter.{
  KeyCrypter, SignedCrypter, new_crypter, new_encrypter, encrypt, signed_encrypt,
}
use dkeyczar.Signer.{KeySigner, new_signer}
use dkeyczar.Session.{new_session_encrypter, new_signed_session_encrypter}
use dkeyczar.Readers.Files.{Files, new_file_reader}
use dkeyczar.Command.{
  Disk, load_failed, missing_location, load_crypter, load_reader, load_location_reader, files_at,
  decrypting,
}
use dkeyczar.Command.Using.{
  UseKeyOpts, Draws, crypt_output, signed_output, timeout_output, session_output,
  signed_session_output, outputs,
}
use dkeyczar.Command.Main.{purpose_of, key_type_of, status_of, added, require_version}
use dkeyczar.Command.Quiet.{
  ReadsOnly, bind-ReadsOnly, return-ReadsOnly, stop-ReadsOnly, crash-ReadsOnly, if-ReadsOnly,
  or_crash-ReadsOnly, or_stop-ReadsOnly, or_nil-ReadsOnly, or_empty_text-ReadsOnly,
}

module _ {D : Type 0} where
  pub purpose_of-ReadsOnly : (purpose : Bytes) → ReadsOnly (purpose_of {D = D} purpose)
  unfolding purpose_of
  purpose_of-ReadsOnly purpose =
      if-ReadsOnly (bytes_eq purpose (codes "crypt")) (return-ReadsOnly _) (
        if-ReadsOnly (bytes_eq purpose (codes "sign")) (return-ReadsOnly _)
          (if-ReadsOnly (bytes_eq purpose []) (stop-ReadsOnly _) (stop-ReadsOnly _)))

  pub key_type_of-ReadsOnly :
      (purpose : KeyPurpose) (asymmetric : Bytes)
      → ReadsOnly (key_type_of {D = D} purpose asymmetric)
  unfolding key_type_of
  key_type_of-ReadsOnly purpose asymmetric = record { same = λ d. ground arith }

  pub status_of-ReadsOnly : (status : Bytes) → ReadsOnly (status_of {D = D} status)
  unfolding status_of
  status_of-ReadsOnly status = if-ReadsOnly (bytes_eq status []) (return-ReadsOnly _) (
      if-ReadsOnly (bytes_eq status (codes "primary")) (return-ReadsOnly _) (
        if-ReadsOnly (bytes_eq status (codes "active")) (return-ReadsOnly _) (
          if-ReadsOnly (bytes_eq status (codes "inactive")) (return-ReadsOnly _)
            (stop-ReadsOnly _))))

  pub added-ReadsOnly : (r : KeyCzar × Option Error) → ReadsOnly (added {D = D} r)
  added-ReadsOnly (kz, none) = return-ReadsOnly kz
  added-ReadsOnly (kz, some e) = stop-ReadsOnly _

  pub require_version-ReadsOnly : (version : ℤ) → ReadsOnly (require_version {D = D} version)
  require_version-ReadsOnly version =
      if-ReadsOnly (eq_ℤ version (pos 0)) (stop-ReadsOnly _) (return-ReadsOnly tt)

module _ (c : Crypto) (j : Json) (f : Files) {D : Type 0} (disk : Disk D) where
  pub load_crypter-ReadsOnly : (location : Bytes) → ReadsOnly (load_crypter c j f disk location)
  unfolding load_crypter
  load_crypter-ReadsOnly [] = return-ReadsOnly none
  load_crypter-ReadsOnly (x ∷ location) = record {
    same = λ d.
        (bind-ReadsOnly (or_crash-ReadsOnly (new_file_reader (files_at f disk d) (x ∷ location)))
            (λ r. or_nil-ReadsOnly (new_crypter c j r))).same
          d;
  }

  pub load_reader-ReadsOnly :
      (location : Bytes) (crypter : Option KeyCrypter)
      → ReadsOnly (load_reader c j f disk location crypter)
  unfolding load_reader
  load_reader-ReadsOnly [] crypter = stop-ReadsOnly missing_location
  load_reader-ReadsOnly (x ∷ location) crypter = record {
    same = λ d.
        (bind-ReadsOnly (or_crash-ReadsOnly (new_file_reader (files_at f disk d) (x ∷ location)))
            (λ r. return-ReadsOnly (decrypting c crypter r))).same
          d;
  }

  pub load_location_reader-ReadsOnly :
      (location : Bytes) (crypter : Option KeyCrypter)
      → ReadsOnly (load_location_reader c j f disk location crypter)
  unfolding load_location_reader
  load_location_reader-ReadsOnly location crypter =
      bind-ReadsOnly (load_reader-ReadsOnly location crypter)
        (λ r. or_stop-ReadsOnly load_failed (new_key_czar c j r))

-- What usekey computes before it writes.
module _ (c : Crypto) (j : Json) (f : Files) (unix_of : Bytes → ℤ) {D : Type 0} (disk : Disk D)
    (draws : Draws) where
  pub signed_output-ReadsOnly :
      (make : KeySigner → Result Bytes) (r : KeyReader)
      → ReadsOnly (signed_output c j f unix_of disk draws make r)
  unfolding signed_output
  signed_output-ReadsOnly make r = bind-ReadsOnly (or_crash-ReadsOnly (new_signer c j r)) (λ signer.
      bind-ReadsOnly (or_empty_text-ReadsOnly (make signer))
        (λ output. return-ReadsOnly (output, [])))

  pub crypt_output-ReadsOnly :
      (r : KeyReader) (input : Bytes) → ReadsOnly (crypt_output c j f unix_of disk draws r input)
  unfolding crypt_output
  crypt_output-ReadsOnly r input =
      bind-ReadsOnly (or_crash-ReadsOnly (new_encrypter c j r)) (λ encrypter.
        bind-ReadsOnly (or_empty_text-ReadsOnly (encrypt c draws.encrypting encrypter input))
          (λ output. return-ReadsOnly (output, [])))

  pub timeout_output-ReadsOnly :
      (r : KeyReader) (input : Bytes) (more : List Bytes)
      → ReadsOnly (timeout_output c j f unix_of disk draws r input more)
  unfolding timeout_output
  timeout_output-ReadsOnly r input [] = crash-ReadsOnly
  timeout_output-ReadsOnly r input (date ∷ more) = signed_output-ReadsOnly _ r

  pub session_output-ReadsOnly :
      (r : KeyReader) (input : Bytes) → ReadsOnly (session_output c j f unix_of disk draws r input)
  unfolding session_output
  session_output-ReadsOnly r input = bind-ReadsOnly (or_crash-ReadsOnly (new_encrypter c j r)) (λ e.
      bind-ReadsOnly
        (or_crash-ReadsOnly (
          new_session_encrypter c j draws.session_key draws.session_hmac_key
            (encrypt c draws.encrypting e)))
        (λ (made : KeyCrypter × Bytes).
          bind-ReadsOnly (or_empty_text-ReadsOnly (encrypt c draws.session_encrypting made.0 input))
            (λ output. return-ReadsOnly (made.1, output))))

  pub signed_session_output-ReadsOnly :
      (r : KeyReader) (o : UseKeyOpts) (input : Bytes)
      → ReadsOnly (signed_session_output c j f unix_of disk draws r o input)
  unfolding signed_session_output
  signed_session_output-ReadsOnly r o input =
      bind-ReadsOnly (load_crypter-ReadsOnly c j f disk o.crypter2) (λ c2.
        bind-ReadsOnly
          (if-ReadsOnly (bytes_eq o.location2 []) crash-ReadsOnly
            (load_reader-ReadsOnly c j f disk o.location2 c2))
          (λ r2. bind-ReadsOnly (or_crash-ReadsOnly (new_encrypter c j r)) (λ e.
            bind-ReadsOnly (or_crash-ReadsOnly (new_signer c j r2)) (λ s.
              bind-ReadsOnly
                (or_crash-ReadsOnly (
                  new_signed_session_encrypter c j draws.session_key draws.session_hmac_key
                    draws.nonce (encrypt c draws.encrypting e) s))
                (λ (made : SignedCrypter × Bytes).
                  bind-ReadsOnly
                    (or_empty_text-ReadsOnly
                      (signed_encrypt c draws.session_encrypting draws.signing made.0 input))
                    (λ output. return-ReadsOnly (made.1, output)))))))

  pub outputs-ReadsOnly :
      (r : KeyReader) (o : UseKeyOpts) (input : Bytes) (more : List Bytes)
      → ReadsOnly (outputs c j f unix_of disk draws r o input more)
  unfolding outputs
  outputs-ReadsOnly r o input more =
      if-ReadsOnly (bytes_eq o.format (codes "crypt")) (crypt_output-ReadsOnly r input) (
        if-ReadsOnly (bytes_eq o.format (codes "sign")) (signed_output-ReadsOnly _ r) (
          if-ReadsOnly (bytes_eq o.format (codes "sign-timeout"))
            (timeout_output-ReadsOnly r input more)
            (if-ReadsOnly (bytes_eq o.format (codes "sign-unversioned"))
              (signed_output-ReadsOnly _ r)
              (if-ReadsOnly (bytes_eq o.format (codes "sign-attached"))
                (signed_output-ReadsOnly _ r)
                (if-ReadsOnly (bytes_eq o.format (codes "crypt-session"))
                  (session_output-ReadsOnly r input)
                  (if-ReadsOnly (bytes_eq o.format (codes "crypt-signedsession"))
                    (signed_session_output-ReadsOnly r o input) (stop-ReadsOnly _)))))))
