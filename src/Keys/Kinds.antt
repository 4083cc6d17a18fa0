-- ===== src/Keys/Kinds.antt =====
-- The keys that are read from JSON: of the type asked for, and with no identifier remembered.
use dkeyczar.Prelude.{
  ℕ, zero, suc, ◌∷◌, ◌≡◌, [], Bytes, Ensures, length, IsByte, All, take, length-take, arith,
}
use dkeyczar.Crypto.{Crypto, CryptoLaws}
use dkeyczar.Json.{Json}
use dkeyczar.KeyInfo.{KeyType, t_aes, t_hmac_sha1, t_dsa_priv, t_dsa_pub, t_rsa_priv, t_rsa_pub}
use dkeyczar.Keys.{KeyData, aes, hmac, dsa_priv, dsa_pub, rsa_priv, rsa_pub, key_from_json, key_id}
use dkeyczar.Keys.Hmac.{new_hmac_key_from_json, hmac_key_id}
use dkeyczar.Keys.Aes.{new_aes_key_from_json, aes_key_id}
use dkeyczar.Keys.Rsa.{
  new_rsa_key_from_json, new_rsa_public_key_from_json, rsa_key_id, rsa_public_key_id,
}
use dkeyczar.Keys.Dsa.{
  new_dsa_key_from_json, new_dsa_public_key_from_json, dsa_key_id, dsa_public_key_id,
}

unfoldable pub type_of : KeyData → KeyType
type_of (aes k) = t_aes
type_of (hmac k) = t_hmac_sha1
type_of (dsa_priv k) = t_dsa_priv
type_of (dsa_pub k) = t_dsa_pub
type_of (rsa_priv k) = t_rsa_priv
type_of (rsa_pub k) = t_rsa_pub

-- The remembered identifier, empty if KeyID has not been called.
unfoldable pub id_of : KeyData → Bytes
id_of (aes k) = k.id
id_of (hmac k) = k.id
id_of (dsa_priv k) = k.public_key.id
id_of (dsa_pub k) = k.id
id_of (rsa_priv k) = k.public_key.id
id_of (rsa_pub k) = k.id

abbrev pub IsFresh : KeyType → KeyData → Type 0
IsFresh t k = (type_of k ≡ t) × (id_of k ≡ [])

module _ (j : Json) where
  -- Every key that is read has the type asked for and no remembered identifier.
  pub key_from_json-IsFresh : (t : KeyType) (s : Bytes) → Ensures (IsFresh t) (key_from_json j t s)
  unfolding key_from_json new_aes_key_from_json new_hmac_key_from_json new_dsa_key_from_json
      new_dsa_public_key_from_json new_rsa_key_from_json new_rsa_public_key_from_json type_of id_of
  key_from_json-IsFresh t_aes s = ground arith
  key_from_json-IsFresh t_hmac_sha1 s = ground arith
  key_from_json-IsFresh t_dsa_priv s = ground arith
  key_from_json-IsFresh t_dsa_pub s = ground arith
  key_from_json-IsFresh t_rsa_priv s = ground arith
  key_from_json-IsFresh t_rsa_pub s = ground arith

pub All-take : (n : ℕ) (b : Bytes) → All IsByte b → All IsByte (take n b)
All-take zero b h = tt
All-take (suc n) [] h = tt
All-take (suc n) (x ∷ b) h = (h.0, All-take n b h.1)

-- An identifier on the wire: four bytes.
abbrev pub IsId : Bytes → Type 0
IsId id = (length id ≡ 4) × All IsByte id

module _ (c : Crypto) (laws : CryptoLaws c) where
  digest_start : (m : Bytes) → IsId (take 4 (c.sha1 m))
  digest_start m = (
    rw length-take (omega (arith, laws.length-sha1 m)),
    All-take 4 (c.sha1 m) (laws.sha1-IsByte m),
  )

  pub key_id-IsId : (k : KeyData) → id_of k ≡ [] → IsId (key_id c k)
  unfolding key_id id_of aes_key_id hmac_key_id rsa_public_key_id dsa_public_key_id rsa_key_id
      dsa_key_id
  key_id-IsId (aes k) e = rw e (digest_start _)
  key_id-IsId (hmac k) e = rw e (digest_start _)
  key_id-IsId (dsa_priv k) e = rw e (digest_start _)
  key_id-IsId (dsa_pub k) e = rw e (digest_start _)
  key_id-IsId (rsa_priv k) e = rw e (digest_start _)
  key_id-IsId (rsa_pub k) e = rw e (digest_start _)
