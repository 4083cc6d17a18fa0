-- ===== src/KeyManager/Storable.antt =====
-- keydata.go: a key of any kind is stored and read back.
use dkeyczar.Prelude.{
  ◌≡◌, ap, Bytes, Result, ok, ◌>>=◌, >>=_assoc, [], length, All, IsByte, ◌∙◌, sym,
}
use dkeyczar.Json.{Json, JsonLaws}
use dkeyczar.Keys.{
  KeyData, aes, hmac, dsa_priv, dsa_pub, rsa_priv, rsa_pub, to_key_json, key_from_json,
}
use dkeyczar.Keys.Kinds.{type_of}
use dkeyczar.Keys.Hmac.{
  fresh, hmac_to_key_json, new_hmac_key_from_json, new_hmac_key_from_json-to_key_json,
}
use dkeyczar.Keys.Aes.{aes_to_key_json, new_aes_key_from_json}
use dkeyczar.Keys.Aes.Storage.{bare, IsAesKey, new_aes_key_from_json-to_key_json}
use dkeyczar.Keys.Rsa.{
  rsa_to_key_json, new_rsa_key_from_json, rsa_public_to_key_json, new_rsa_public_key_from_json,
}
use dkeyczar.Keys.Rsa.Storage as Rsa
use dkeyczar.Keys.Dsa.{
  dsa_to_key_json, new_dsa_key_from_json, dsa_public_to_key_json, new_dsa_public_key_from_json,
}
use dkeyczar.Keys.Dsa.Storage as Dsa

-- The sizes and signs that the JSON of the kind of key can hold.
abbrev pub IsStorable : KeyData → Type 0
IsStorable (aes k) = IsAesKey k
IsStorable (hmac k) = (length k.key ≡ 32) × All IsByte k.key
IsStorable (dsa_priv k) = Dsa.IsPrivate k.key
IsStorable (dsa_pub k) = Dsa.IsPublic k.key
IsStorable (rsa_priv k) = Rsa.IsPrivate k.key
IsStorable (rsa_pub k) = Rsa.IsPublic k.key

-- The key without what KeyID remembers.
abbrev pub forgetting : KeyData → KeyData
forgetting (aes k) = aes (bare k)
forgetting (hmac k) = hmac (fresh k.key)
forgetting (dsa_priv k) =
    dsa_priv (record { key = k.key; public_key = record { key = k.key.public; id = [] } })
forgetting (dsa_pub k) = dsa_pub (record { key = k.key; id = [] })
forgetting (rsa_priv k) =
    rsa_priv (record { key = k.key; public_key = record { key = k.key.public; id = [] } })
forgetting (rsa_pub k) = rsa_pub (record { key = k.key; id = [] })

wrapped :
    {K : Type 0} (stored : Result Bytes) (read : Bytes → Result K) (wrap : K → KeyData) {k : K}
    → (stored >>= read) ≡ ok k
    → (stored >>= λ s. read s >>= λ k. ok (wrap k)) ≡ ok (wrap k)
wrapped stored read wrap e =
    sym (>>=_assoc stored read (λ k. ok (wrap k))) ∙ ap (λ r. r >>= λ k. ok (wrap k)) e

-- A key of any kind, of a size and with numbers that its JSON can hold, is stored, and what is stored
-- is read back, under the type of the key, as the key without its remembered identifier.
pub key_from_json-to_key_json :
    (j : Json) (k : KeyData)
    → JsonLaws j
    → IsStorable k
    → (to_key_json j k >>= key_from_json j (type_of k)) ≡ ok (forgetting k)
unfolding to_key_json key_from_json type_of
key_from_json-to_key_json j (aes k) laws v =
    wrapped (aes_to_key_json j k) (new_aes_key_from_json j) aes
      (new_aes_key_from_json-to_key_json j k laws v)
key_from_json-to_key_json j (hmac k) laws v =
    wrapped (hmac_to_key_json j k) (new_hmac_key_from_json j) hmac
      (new_hmac_key_from_json-to_key_json j k laws v.0 v.1)
key_from_json-to_key_json j (dsa_priv k) laws v =
    wrapped (dsa_to_key_json j k) (new_dsa_key_from_json j) dsa_priv
      (Dsa.new_dsa_key_from_json-to_key_json j k laws v)
key_from_json-to_key_json j (dsa_pub k) laws v =
    wrapped (dsa_public_to_key_json j k) (new_dsa_public_key_from_json j) dsa_pub
      (Dsa.new_dsa_public_key_from_json-to_key_json j k laws v)
key_from_json-to_key_json j (rsa_priv k) laws v =
    wrapped (rsa_to_key_json j k) (new_rsa_key_from_json j) rsa_priv
      (Rsa.new_rsa_key_from_json-to_key_json j k laws v)
key_from_json-to_key_json j (rsa_pub k) laws v =
    wrapped (rsa_public_to_key_json j k) (new_rsa_public_key_from_json j) rsa_pub
      (Rsa.new_rsa_public_key_from_json-to_key_json j k laws v)
