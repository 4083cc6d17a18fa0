-- ===== src/Crypter/Soundness.antt =====
-- keyczar.go: Decrypt returns only what a key of the ciphertext's identifier decrypts.
use dkeyczar.Prelude.{
  ◌≡◌, refl, ap, Bytes, Result, ok, err, panic, Error, >>=-eq-ok, List, [], ◌∷◌, Bool-cases, inl,
  inr, ◌⊎◌, short_ciphertext, cannot_stream,
}
use dkeyczar.Crypto.{Crypto}
use dkeyczar.Header.{split_header}
use dkeyczar.Keys.{KeyData, key_decrypt, is_decrypt_key}
use dkeyczar.KeySet.{get_key_for_id}
use dkeyczar.KeySet.Index.{Occurs}
use dkeyczar.Controllers.{Compression, decode, decompress}
use dkeyczar.Crypter.{KeyCrypter, decrypt_any, decrypt}

Result-cases :
    (r : Result Bytes) → ((b : Bytes) × (r ≡ ok b)) ⊎ (((e : Error) × (r ≡ err e)) ⊎ (r ≡ panic))
Result-cases (ok b) = inl (b, refl)
Result-cases (err e) = inr (inl (e, refl))
Result-cases panic = inr (inr refl)

-- The loop returns a plaintext only from a key of the list.
pub decrypt_any_sound :
    (c : Crypto) (e : Error) (m : Compression) (kl : List KeyData) (b plaintext : Bytes)
    → decrypt_any c (err e) m kl b ≡ ok plaintext
    → (k : KeyData) × (compressed : Bytes) × Occurs k kl
      × (key_decrypt c k b ≡ ok compressed)
      × (decompress c m compressed ≡ ok plaintext)
unfolding decrypt_any
decrypt_any_sound c e m [] b plaintext h = cc
decrypt_any_sound c e m (k ∷ ks) b plaintext h = elim (Bool-cases (is_decrypt_key k)) [
  | inr cannot ↦ cc (rw (cannot, decrypt_any) at h)
  | inl can ↦ elim (Result-cases (key_decrypt c k b)) [
    | inl (p, opened) ↦ (k, p, ([], ks, refl), opened, rw (can, decrypt_any, opened) at h)
    | inr (inl (f, refused)) ↦
        let (x, p, (before, after, split), opened, same) =
          decrypt_any_sound c e m ks b plaintext (rw (can, decrypt_any, refused) at h) in
        (x, p, (k ∷ before, after, ap (◌∷◌ k) split), opened, same)
    | inr (inr stopped) ↦ cc (rw (can, decrypt_any, stopped) at h)
  ]
]

-- Decrypt returns a plaintext only if a key that the key set has under the identifier in the
-- header decrypts the decoded ciphertext, header included, to a text that decompresses to it.
pub decrypt_sound :
    (c : Crypto) (kc : KeyCrypter) (text plaintext : Bytes)
    → decrypt c kc text ≡ ok plaintext
    → (b : Bytes) × (kl : List KeyData) × (k : KeyData) × (compressed : Bytes) × (split_header
          (get_key_for_id kc.kz)
          (decode kc.encoding)
          text
          short_ciphertext
        ≡ ok (b, kl))
      × Occurs k kl
      × (key_decrypt c k b ≡ ok compressed)
      × (decompress c kc.compression compressed ≡ ok plaintext)
unfolding decrypt
decrypt_sound c kc text plaintext e =
    let ((b, kl), split, e₁) =
      >>=-eq-ok (split_header (get_key_for_id kc.kz) (decode kc.encoding) text short_ciphertext) _
        e in
    let (k, p, occurs, opened, same) =
      decrypt_any_sound c cannot_stream kc.compression kl b plaintext e₁ in
    (b, kl, k, p, split, occurs, opened, same)
