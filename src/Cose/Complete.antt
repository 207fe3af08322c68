-- ===== src/Cose/Complete.antt =====
-- The parse functions of CoseKey in cppcose.h, from what a key holds to what they give.
use device_xiaomi_dash_twrp.Prelude.{◌≡◌, refl, true, beq_refl}
use device_xiaomi_dash_twrp.Cose.{ℤ, pos, negsuc, int_eq, of_value, Cbor, of_map}
use device_xiaomi_dash_twrp.Cose.Parse.{parse}
use device_xiaomi_dash_twrp.Cose.Keys.{Reads}

pub int_eq_refl : (a : ℤ) → int_eq a a ≡ true
int_eq_refl (pos a) = beq_refl a
int_eq_refl (negsuc a) = beq_refl a

module _ {Encoded Map Item : Type 0} (c : Cbor Encoded Map Item) where
  pub parse_complete : (e : Encoded) (m : Map) → Reads c e m → parse c e ≡ of_value (of_map m)
  unfolding parse
  parse_complete e m (item, read, map_read) = rw (parse, read, map_read) refl
