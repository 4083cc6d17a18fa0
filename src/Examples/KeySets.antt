-- ===== src/Examples/KeySets.antt =====
-- A stored set with one HMAC key, and what is loaded from it.
use dkeyczar.Prelude.{
  ◌≡◌, refl, false, [], ◌∷◌, Bytes, ok, pos, replicate, codes, some, lookup_key, set_key, int_eq,
  nat_eq,
}
use dkeyczar.KeyInfo.{
  KeyMeta, KeyVersion, t_hmac_sha1, p_sign_and_verify, s_primary, is_acceptable_size,
  is_acceptable_purpose,
}
use dkeyczar.Util.Web64.{
  encode_char, decode_char, decode_groups, group_of_four, group_of_three, padding_for,
  encode_web64_string, decode_web64_string,
}
use dkeyczar.Keys.Texts.{decode_text}
use dkeyczar.Util.BigEndian.{uint32}
use dkeyczar.Keys.{KeyData, hmac, key_id, key_from_json, to_key_json}
use dkeyczar.Keys.Hmac.{
  fresh, hmac_key_id, new_hmac_key_from_json, hmac_to_key_json, hmac_json_from_key,
}
use dkeyczar.KeySet.{KeyReader, KeyCzar, get_primary_key, new_key_czar, load_with_primary}
use dkeyczar.Controllers.{base64w}
use dkeyczar.Signer.{KeySigner}
use dkeyczar.Examples.Json.{texts}
use dkeyczar.Examples.Crypto.{tools}

abbrev pub key_bytes : Bytes
key_bytes = replicate 32 7

abbrev pub first_key : KeyData
first_key = hmac (fresh key_bytes)

abbrev pub first_version : KeyVersion
first_version = record { version_number = pos 1; status = s_primary; exportable = false }

abbrev pub stored_meta : KeyMeta
stored_meta = record {
  name = codes "test";
  type = t_hmac_sha1;
  purpose = p_sign_and_verify;
  encrypted = false;
  versions = first_version ∷ [];
}

abbrev pub stored_key : Bytes
stored_key =
    texts.hmac.marshal
      (record { hmac_key_string = codes "BwcHBwcHBwcHBwcHBwcHBwcHBwcHBwcHBwcHBwcHBwc"; size = 256 })

abbrev pub stored : KeyReader
stored = record { get_metadata = ok (texts.meta.marshal stored_meta); get_key = λ n. ok stored_key }

abbrev pub loaded_set : KeyCzar
loaded_set = record {
  keymeta = stored_meta;
  keys = (pos 1, first_key) ∷ [];
  idkeys = (538976288, first_key ∷ []) ∷ [];
  primary = pos 1;
}

pub stored-first_key : to_key_json texts first_key ≡ ok stored_key
unfolding to_key_json hmac_to_key_json hmac_json_from_key encode_web64_string encode_char
stored-first_key = refl

pub loaded_set_lem : load_with_primary tools texts p_sign_and_verify stored ≡ ok loaded_set
unfolding load_with_primary key_from_json new_hmac_key_from_json is_acceptable_size decode_text
    decode_web64_string decode_groups group_of_four group_of_three decode_char padding_for uint32
    key_id hmac_key_id is_acceptable_purpose set_key lookup_key
loaded_set_lem = refl

-- A signer over the loaded set, with a clock that shows 1000.
abbrev pub signer : KeySigner
signer = record { kz = loaded_set; current_time = some (pos 1000); encoding = base64w }

pub signer_primary : get_primary_key signer.kz ≡ some first_key
unfolding get_primary_key lookup_key
signer_primary = refl

pub built_set_lem : new_key_czar tools texts stored ≡ ok loaded_set
unfolding new_key_czar key_from_json new_hmac_key_from_json is_acceptable_size decode_text
    decode_web64_string decode_groups group_of_four group_of_three decode_char padding_for uint32
    key_id hmac_key_id is_acceptable_purpose set_key lookup_key
built_set_lem = refl
