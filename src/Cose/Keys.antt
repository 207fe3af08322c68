-- ===== src/Cose/Keys.antt =====
-- What the parse functions of CoseKey in cppcose.h give, and what a key of each kind holds.
use device_xiaomi_dash_twrp.Prelude.{ℕ, ◌≡◌, ◌⊎◌, Bool, true, Option, some, List, length}
use device_xiaomi_dash_twrp.Cose.{
  ℤ, Label, key_type, key_id, algorithm, curve, pubkey_x, pubkey_y, label_number, es256, eddsa,
  ecdh_es_hkdf_256, es384, p256, p384, x25519, ed25519, octet_key_pair, ec2, Message, ErrMsgOr,
  of_message, of_value, Cbor, CoseKey,
}
use device_xiaomi_dash_twrp.Cose.Parse.{parse_ed25519, parse_x25519, parse_p256, parse_p384}

-- The four functions.
pub data Kind : Type 0 where
  ed25519_key : Kind
  x25519_key : (require_kid : Bool) → Kind
  p256_key p384_key : Kind

-- A result that is an error, or the value for which a property holds.
abbrev pub Given : {A : Type 0} → Option (ErrMsgOr A) → (A → Type 0) → Type 0
Given {A} r P =
    ((text : Message) × (r ≡ some (of_message text))) ⊎ ((v : A) × (r ≡ some (of_value v)) × P v)

module _ {Encoded Map Item : Type 0} (c : Cbor Encoded Map Item) where
  -- The map has this number, or bytes of this length, under a label.
  abbrev pub HasInt : Map → Label → ℤ → Type 0
  HasInt m label v =
      (item : Item) × (c.get m (label_number label) ≡ some item) × (c.as_int item ≡ some v)

  abbrev pub HasBstr : Map → Label → List ℕ → Type 0
  HasBstr m label bs =
      (item : Item) × (c.get m (label_number label) ≡ some item) × (c.as_bstr item ≡ some bs)

  abbrev pub HasSized : Map → Label → ℕ → Type 0
  HasSized m label n = (bs : List ℕ) × HasBstr m label bs × (length bs ≡ n)

  -- What each kind of key must hold.
  abbrev pub HasParameters : Map → (type' algorithm' curve' : ℤ) → Type 0
  HasParameters m type' algorithm' curve' =
      HasInt m key_type type' × HasInt m algorithm algorithm' × HasInt m curve curve'

  abbrev pub IsKey : Kind → Map → Type 0
  IsKey ed25519_key m =
      HasParameters m octet_key_pair eddsa ed25519 × HasSized m pubkey_x c.ed25519_public_key_len
  IsKey (x25519_key require_kid) m =
      HasParameters m octet_key_pair ecdh_es_hkdf_256 x25519
      × HasSized m pubkey_x c.x25519_public_value_len
      × (require_kid ≡ true → (kid : List ℕ) × HasBstr m key_id kid)
  IsKey p256_key m =
      HasParameters m ec2 es256 p256 × HasSized m pubkey_x 32 × HasSized m pubkey_y 32
  IsKey p384_key m =
      HasParameters m ec2 es384 p384 × HasSized m pubkey_x 48 × HasSized m pubkey_y 48

  -- cppbor reads a map.
  abbrev pub Reads : Encoded → Map → Type 0
  Reads e m = (item : Item) × (c.parse_item e ≡ some item) × (c.as_map item ≡ some m)

  abbrev pub parse_kind : Kind → Encoded → Option (ErrMsgOr (CoseKey Map))
  parse_kind ed25519_key e = parse_ed25519 c e
  parse_kind (x25519_key require_kid) e = parse_x25519 c e require_kid
  parse_kind p256_key e = parse_p256 c e
  parse_kind p384_key e = parse_p384 c e
