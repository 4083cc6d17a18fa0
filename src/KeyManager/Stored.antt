-- ===== src/KeyManager/Stored.antt =====
-- keyman.go, ToJSONs and Load: a key set that is written is loaded again.
use dkeyczar.Prelude.{
  ℕ, suc, ◌+◌, ◌≡◌, refl, ap, ◌∙◌, Bytes, Result, ok, err, some, none, Option, List, [], ◌∷◌,
  nat_eq, map, length, get_elem?, ℤ, pos, int_eq, arith, no_such_key_version,
}
use dkeyczar.Crypto.{Crypto, CryptoLaws}
use dkeyczar.Json.{Json, JsonLaws}
use dkeyczar.Keys.{KeyData}
use dkeyczar.KeySet.{KeyReader, KeyCzar, new_key_czar}
use dkeyczar.KeyManager.{to_jsons}
use dkeyczar.KeyManager.Storable.{forgetting}
use dkeyczar.KeyManager.Counting.{Holds, Holds-le}
use dkeyczar.KeyManager.Served.{IsStorableSet, Serves, Texts, key_texts-Texts, new_key_czar-Serves}

-- The reader that gives back the texts of ToJSONs: the metadata and the versions 1, 2, ….
abbrev pub text_at : Option Bytes → Result Bytes
text_at none = err no_such_key_version
text_at (some s) = ok s

abbrev pub key_text : List Bytes → ℤ → Result Bytes
key_text texts (pos i) = text_at (get_elem? texts i)
key_text texts (ℤ.negsuc n) = err no_such_key_version

abbrev pub stored_reader : List Bytes → KeyReader
stored_reader texts = record {
  get_metadata = text_at (get_elem? texts 0);
  get_key = key_text texts;
}

stored_reader-Serves :
    (texts rest : List Bytes) (i : ℕ)
    → ((n : ℕ) → get_elem? texts (n + i) ≡ get_elem? rest n)
    → Serves (stored_reader texts) i rest
stored_reader-Serves texts [] i h = tt
stored_reader-Serves texts (s ∷ more) i h = (
  ap text_at (ap (get_elem? texts) (omega arith) ∙ h 0),
  stored_reader-Serves texts more (suc i) (λ n. ap (get_elem? texts) (omega arith) ∙ h (suc n)),
)

-- The texts that ToJSONs returns without an encrypter are those of the keys.
pub to_jsons-Texts :
    (j : Json) (kz : KeyCzar) (ks : List KeyData)
    → JsonLaws j
    → IsStorableSet kz ks
    → (texts : List Bytes) × (to_jsons j none (record { kz = some kz })
        ≡ ok (record { kz = some kz }, j.meta.marshal kz.keymeta ∷ texts))
      × Texts j kz.keymeta.type ks texts
unfolding to_jsons
to_jsons-Texts j kz ks laws set =
    let (texts, written, are) =
      key_texts-Texts j kz.keymeta.type laws (suc (length kz.keys)) 1 ks kz.keys set.holds
        set.storable (omega (arith, Holds-le 1 ks kz.keys set.holds)) in
    (texts, rw written refl, are)

-- A key set whose versions are numbered from 1, which holds a key of its type for each of them and
-- none behind them, whose keys are of sizes and with numbers that their JSON can hold, and whose
-- name is ASCII: ToJSONs without an encrypter returns its texts, and loading these gives a key set
-- with the same metadata that holds each key under its number and none behind, without what KeyID
-- had remembered.
pub new_key_czar-to_jsons :
    (c : Crypto) (j : Json) (kz : KeyCzar) (ks : List KeyData)
    → CryptoLaws c
    → JsonLaws j
    → IsStorableSet kz ks
    → (texts : List Bytes) × (loaded : KeyCzar) × (to_jsons j none (record { kz = some kz })
        ≡ ok (record { kz = some kz }, texts))
      × (new_key_czar c j (stored_reader texts) ≡ ok loaded)
      × (loaded.keymeta ≡ kz.keymeta)
      × Holds 1 (map forgetting ks) loaded.keys
new_key_czar-to_jsons c j kz ks laws jlaws set =
    let (texts, written, are) = to_jsons-Texts j kz ks jlaws set in
    let meta = j.meta.marshal kz.keymeta in
    let shifted : (n : ℕ) → n + 1 ≡ suc n = λ n. omega arith in
    let (loaded, ran, same, _, _, holds) =
      new_key_czar-Serves c j (stored_reader (meta ∷ texts)) kz.keymeta ks texts laws jlaws
        set.ascii set.numbered set.complete are refl
        (stored_reader-Serves (meta ∷ texts) texts 1
          (λ n. ap (get_elem? (meta ∷ texts)) (shifted n))) in
    (meta ∷ texts, loaded, written, ran, same, holds)
