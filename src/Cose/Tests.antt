-- ===== src/Cose/Tests.antt =====
-- A P-256 key, and lists of pairs in place of cppbor.
use device_xiaomi_dash_twrp.Prelude.{
  ℕ, ◌≡◌, ◌↔◌, refl, Option, none, some, List, [], ◌∷◌, replicate, if◌then◌else◌,
}
use device_xiaomi_dash_twrp.Cose.{
  ℤ, pos, negsuc, int_eq, key_type, of_value, Cbor, of_map, check_int_value, get_int_value, es256,
  ec2, p256,
}
use device_xiaomi_dash_twrp.Cose.Parse.{parse, parse_expected, parse_p256}
use device_xiaomi_dash_twrp.Cose.Keys.{p256_key}
use device_xiaomi_dash_twrp.Cose.Encoded.{
  IsInt32, HasPublicKey, get_int_value_lem, get_ec_public_key_lem,
}

data Stored : Type 0 where
  number : ℤ → Stored
  bytes : List ℕ → Stored

abbrev Pairs : Type 0
Pairs = List (ℤ × Stored)

data Read : Type 0 where
  stored : Stored → Read
  pairs : Pairs → Read

abbrev find : Pairs → ℤ → Option Read
find [] l = none
find ((k, v) ∷ rest) l = let later = find rest l in if int_eq k l then some (stored v) else later

abbrev read_int : Read → Option ℤ
read_int (stored (number v)) = some v
read_int (stored (bytes bs)) = none
read_int (pairs m) = none

abbrev read_bstr : Read → Option (List ℕ)
read_bstr (stored (number v)) = none
read_bstr (stored (bytes bs)) = some bs
read_bstr (pairs m) = none

abbrev read_map : Read → Option Pairs
read_map (stored v) = none
read_map (pairs m) = some m

abbrev lists : Cbor Pairs Pairs Read
lists = record {
  parse_item = λ m. some (pairs m);
  as_map = read_map;
  get = find;
  as_int = read_int;
  as_bstr = read_bstr;
  add_int = λ l v m. (l, number v) ∷ m;
  add_bstr = λ l bs m. (l, bytes bs) ∷ m;
  canonicalize = λ m. m;
  encode_map = λ m. m;
  ed25519_public_key_len = 32;
  x25519_public_value_len = 32;
}

abbrev key_map : Pairs
key_map =
    (pos 1, number ec2)
    ∷ (pos 3, number es256)
    ∷ (negsuc 0, number p256)
    ∷ (negsuc 1, bytes (replicate 32 7))
    ∷ (negsuc 2, bytes (replicate 32 9))
    ∷ []

key_parsed : parse_p256 lists key_map ≡ some (of_value (of_map key_map))
unfolding parse_p256 parse_expected parse check_int_value
key_parsed = refl

get_ec_public_key_lem_example : HasPublicKey lists (of_map key_map) 32
get_ec_public_key_lem_example =
    get_ec_public_key_lem lists p256_key 32 key_map (of_map key_map) refl key_parsed

-- The number is 2^32 + 1.
get_int_value_lem_example :
    (get_int_value lists key_type (of_map ((pos 1, number (pos 4294967297)) ∷ []))
      ≡ some (some (pos 4294967297)))
    ↔ IsInt32 (pos 4294967297)
get_int_value_lem_example =
    get_int_value_lem lists ((pos 1, number (pos 4294967297)) ∷ []) key_type (pos 4294967297)
      (stored (number (pos 4294967297)), refl, refl)
