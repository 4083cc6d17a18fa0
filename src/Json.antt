-- ===== src/Json.antt =====
-- The on-disk structs, and encoding/json between them and text. How that package reads and writes
-- struct fields is a parameter; the enumerations' own methods are modelled in KeyInfo.Names.
use dkeyczar.Prelude.{ℕ, ℤ, ◌≡◌, Bytes, Result, ok, All, IsAscii}
use dkeyczar.KeyInfo.{KeyMeta, CipherMode}

pub record HmacKeyJson : Type 0 where
  pub hmac_key_string : Bytes
  pub size : ℕ

pub record AesKeyJson : Type 0 where
  pub aes_key_string : Bytes
  pub size : ℕ
  pub hmac_key : HmacKeyJson
  pub mode : CipherMode

pub record RsaPublicKeyJson : Type 0 where
  pub modulus : Bytes
  pub public_exponent : Bytes
  pub size : ℕ

pub record RsaKeyJson : Type 0 where
  pub crt_coefficient : Bytes
  pub prime_exponent_p : Bytes
  pub prime_exponent_q : Bytes
  pub prime_p : Bytes
  pub prime_q : Bytes
  pub private_exponent : Bytes
  pub public_key : RsaPublicKeyJson
  pub size : ℕ

pub record DsaPublicKeyJson : Type 0 where
  pub q : Bytes
  pub p : Bytes
  pub y : Bytes
  pub g : Bytes
  pub size : ℕ

pub record DsaKeyJson : Type 0 where
  pub public_key : DsaPublicKeyJson
  pub size : ℕ
  pub x : Bytes

pub record SessionMaterialJson : Type 0 where
  pub key : AesKeyJson
  pub nonce : Bytes

-- pbeKeyJSON
pub record PbeKeyJson : Type 0 where
  pub cipher : Bytes
  pub hmac : Bytes
  pub iteration_count : ℤ
  pub iv : Bytes
  pub key : Bytes
  pub salt : Bytes

-- json.Marshal and json.Unmarshal of one type. Unmarshal's result is `panic` for the text `null`,
-- which leaves a nil pointer for the caller to follow.
pub record Codec (A : Type 0) : Type 0 where
  pub marshal : A → Bytes
  pub unmarshal : Bytes → Result A

pub record Json : Type 0 where
  pub meta : Codec KeyMeta
  pub hmac : Codec HmacKeyJson
  pub aes : Codec AesKeyJson
  pub rsa_public : Codec RsaPublicKeyJson
  pub rsa : Codec RsaKeyJson
  pub dsa_public : Codec DsaPublicKeyJson
  pub dsa : Codec DsaKeyJson
  pub session : Codec SessionMaterialJson
  pub pbe : Codec PbeKeyJson

-- The text fields of each struct are ASCII: encoding/json replaces bytes that are no UTF-8.
abbrev pub HmacAscii : HmacKeyJson → Type 0
HmacAscii j = All IsAscii j.hmac_key_string

abbrev pub AesAscii : AesKeyJson → Type 0
AesAscii j = All IsAscii j.aes_key_string × HmacAscii j.hmac_key

abbrev pub RsaPublicAscii : RsaPublicKeyJson → Type 0
RsaPublicAscii j = All IsAscii j.modulus × All IsAscii j.public_exponent

abbrev pub RsaAscii : RsaKeyJson → Type 0
RsaAscii j =
    (All IsAscii j.crt_coefficient
      × All IsAscii j.prime_exponent_p
      × All IsAscii j.prime_exponent_q)
    × (All IsAscii j.prime_p × All IsAscii j.prime_q × All IsAscii j.private_exponent)
    × RsaPublicAscii j.public_key

abbrev pub DsaPublicAscii : DsaPublicKeyJson → Type 0
DsaPublicAscii j = All IsAscii j.p × All IsAscii j.q × All IsAscii j.g × All IsAscii j.y

abbrev pub DsaAscii : DsaKeyJson → Type 0
DsaAscii j = DsaPublicAscii j.public_key × All IsAscii j.x

abbrev pub SessionAscii : SessionMaterialJson → Type 0
SessionAscii j = AesAscii j.key × All IsAscii j.nonce

abbrev pub PbeAscii : PbeKeyJson → Type 0
PbeAscii j =
    (All IsAscii j.cipher × All IsAscii j.hmac)
    × (All IsAscii j.iv × All IsAscii j.key × All IsAscii j.salt)

-- What is marshalled unmarshals to itself.
pub record JsonLaws (j : Json) : Type 0 where
  pub meta_lem : (m : KeyMeta) → All IsAscii m.name → j.meta.unmarshal (j.meta.marshal m) ≡ ok m
  pub hmac_lem : (k : HmacKeyJson) → HmacAscii k → j.hmac.unmarshal (j.hmac.marshal k) ≡ ok k
  pub aes_lem : (k : AesKeyJson) → AesAscii k → j.aes.unmarshal (j.aes.marshal k) ≡ ok k
  pub rsa_public_lem :
      (k : RsaPublicKeyJson)
      → RsaPublicAscii k
      → j.rsa_public.unmarshal (j.rsa_public.marshal k) ≡ ok k
  pub rsa_lem : (k : RsaKeyJson) → RsaAscii k → j.rsa.unmarshal (j.rsa.marshal k) ≡ ok k
  pub dsa_public_lem :
      (k : DsaPublicKeyJson)
      → DsaPublicAscii k
      → j.dsa_public.unmarshal (j.dsa_public.marshal k) ≡ ok k
  pub dsa_lem : (k : DsaKeyJson) → DsaAscii k → j.dsa.unmarshal (j.dsa.marshal k) ≡ ok k
  pub session_lem :
      (m : SessionMaterialJson) → SessionAscii m → j.session.unmarshal (j.session.marshal m) ≡ ok m
  pub pbe_lem : (k : PbeKeyJson) → PbeAscii k → j.pbe.unmarshal (j.pbe.marshal k) ≡ ok k
