-- ===== src/Cose.antt =====
-- CoseKey and ErrMsgOr of
-- prebuilt/a15-aidl/include/keymaster/keymaster/cppcose/cppcose.h. cppbor is the record Cbor. Taking what
-- is behind a null pointer, and an assertion that fails, are `none`.
pub mod Parse
pub mod Keys
pub mod Given
pub mod Accepts
pub mod Complete
pub mod Encoded
mod Tests
use device_xiaomi_dash_twrp.Prelude.{
  ℕ, ◌+◌, ◌-◌, ◌*◌, ◌%◌, ◌^◌, Bool, true, false, not, ◌&&◌, ◌||◌, Option, none, some, List, [], ◌∷◌,
  ◌++◌, length, ltb, ◌==◌, if◌then◌else◌,
}

-- An int, or the int64_t of a CBOR number.
pub data ℤ : Type 0 where
  pos : ℕ → ℤ
  negsuc : ℕ → ℤ

abbrev pub int_eq : ℤ → ℤ → Bool
int_eq (pos a) (pos b) = a == b
int_eq (pos a) (negsuc b) = false
int_eq (negsuc a) (pos b) = false
int_eq (negsuc a) (negsuc b) = a == b

-- The conversion to a 32-bit int, which keeps the low bits.
pub narrow : ℤ → ℤ
narrow (pos a) =
    let low = a % 2 ^ 32 in if ltb low (2 ^ 31) then pos low else negsuc (2 ^ 32 - 1 - low)
narrow (negsuc a) =
    let low = a % 2 ^ 32 in if ltb low (2 ^ 31) then negsuc low else pos (2 ^ 32 - 1 - low)

-- CoseKey::Label
pub data Label : Type 0 where
  key_type key_id algorithm key_ops curve pubkey_x pubkey_y private_key test_key : Label

abbrev pub label_number : Label → ℤ
label_number key_type = pos 1
label_number key_id = pos 2
label_number algorithm = pos 3
label_number key_ops = pos 4
label_number curve = negsuc 0
label_number pubkey_x = negsuc 1
label_number pubkey_y = negsuc 2
label_number private_key = negsuc 3
label_number test_key = negsuc 69999

-- CoseKeyAlgorithm, CoseKeyCurve and CoseKeyType
abbrev pub es256 : ℤ
es256 = negsuc 6

abbrev pub eddsa : ℤ
eddsa = negsuc 7

abbrev pub ecdh_es_hkdf_256 : ℤ
ecdh_es_hkdf_256 = negsuc 24

abbrev pub es384 : ℤ
es384 = negsuc 34

abbrev pub p256 : ℤ
p256 = pos 1

abbrev pub p384 : ℤ
p384 = pos 2

abbrev pub x25519 : ℤ
x25519 = pos 4

abbrev pub ed25519 : ℤ
ed25519 = pos 6

abbrev pub octet_key_pair : ℤ
octet_key_pair = pos 1

abbrev pub ec2 : ℤ
ec2 = pos 2

-- The texts of the errors.
pub data Message : Type 0 where
  no_text when_parsing_key not_a_map unexpected_key_type invalid_ed25519 invalid_x25519
        missing_kid :
      Message
  invalid_p256 invalid_p384 missing_input no_ec_public_key : Message

-- ErrMsgOr: errMsg_ and value_
pub record ErrMsgOr (A : Type 0) : Type 0 where
  pub err_msg : Message
  pub held : Option A

abbrev pub of_message : {A : Type 0} → Message → ErrMsgOr A
of_message text = record { err_msg = text; held = none }

abbrev pub of_value : {A : Type 0} → A → ErrMsgOr A
of_value v = record { err_msg = no_text; held = some v }

-- if (!r) return ...; and then what is done with the value
infixl 5 ◌>>=◌
abbrev pub ◌>>=◌ : {A B : Type 0} → Option A → (A → Option B) → Option B
none >>= f = none
some a >>= f = f a

abbrev pub with_value :
    {A B : Type 0} → ErrMsgOr A → (A → Option (ErrMsgOr B)) → Option (ErrMsgOr B)
with_value r f = elim r.held [ none ↦ some (of_message r.err_msg) | some v ↦ f v ]

-- What of cppbor the class uses. An encoded map is only handed on; a null pointer to an item is none.
-- ED25519_PUBLIC_KEY_LEN and X25519_PUBLIC_VALUE_LEN are those of OpenSSL.
pub record Cbor (Encoded Map Item : Type 0) : Type 0 where
  pub parse_item : Encoded → Option Item
  pub as_map : Item → Option Map
  pub get : Map → ℤ → Option Item
  pub as_int : Item → Option ℤ
  pub as_bstr : Item → Option (List ℕ)
  pub add_int : ℤ → ℤ → Map → Map
  pub add_bstr : ℤ → List ℕ → Map → Map
  pub canonicalize : Map → Map
  pub encode_map : Map → Encoded
  pub ed25519_public_key_len : ℕ
  pub x25519_public_value_len : ℕ

-- CoseKey: key_, which may be null
pub record CoseKey (Map : Type 0) : Type 0 where
  pub key : Option Map

-- CoseKey(cppbor::Map* parsedKey)
abbrev pub of_map : {Map : Type 0} → Map → CoseKey Map
of_map m = record { key = some m }

abbrev pub is_null : {A : Type 0} → Option A → Bool
is_null none = true
is_null (some a) = false

module _ {Encoded Map Item : Type 0} (c : Cbor Encoded Map Item) where
  -- value && value->asInt() && value->asInt()->value() == expectedValue
  abbrev pub is_int : Option Item → ℤ → Bool
  is_int none expected = false
  is_int (some item) expected = elim (c.as_int item) [ none ↦ false | some v ↦ int_eq v expected ]

  -- !value->asBstr(), and value->asBstr()->value().size() != n behind it
  abbrev pub is_no_bstr : Option Item → Bool
  is_no_bstr none = true
  is_no_bstr (some item) = is_null (c.as_bstr item)

  abbrev pub has_other_size : Option Item → ℕ → Bool
  has_other_size none n = false
  has_other_size (some item) n = elim (c.as_bstr item) [
    | none ↦ false
    | some bs ↦ not (length bs == n)
  ]

  -- bool checkIntValue(Label label, int expectedValue)
  pub check_int_value : Label → ℤ → CoseKey Map → Option Bool
  check_int_value label expected k =
      k.key >>= λ m. some (is_int (c.get m (label_number label)) expected)

  -- std::optional<int> getIntValue(Label label)
  pub get_int_value : Label → CoseKey Map → Option (Option ℤ)
  unfolding narrow
  get_int_value label k = k.key >>= λ m. some (elim (c.get m (label_number label)) [
    | none ↦ none
    | some item ↦ elim (c.as_int item) [ none ↦ none | some v ↦ some (narrow v) ]
  ])

  -- std::optional<bytevec> getBstrValue(Label label)
  pub get_bstr_value : Label → CoseKey Map → Option (Option (List ℕ))
  get_bstr_value label k = k.key >>= λ m.
      some (elim (c.get m (label_number label)) [ none ↦ none | some item ↦ c.as_bstr item ])

  -- void add(Label label, int value), and with a bytevec
  pub add_int_value : Label → ℤ → CoseKey Map → Option (CoseKey Map)
  add_int_value label v k = k.key >>= λ m. some (of_map (c.add_int (label_number label) v m))

  pub add_bstr_value : Label → List ℕ → CoseKey Map → Option (CoseKey Map)
  add_bstr_value label bs k = k.key >>= λ m. some (of_map (c.add_bstr (label_number label) bs m))

  -- bytevec encode(): what it returns, and the object, whose map is canonical then
  pub encode : CoseKey Map → Option (Encoded × CoseKey Map)
  encode k = k.key >>= λ m. some (c.encode_map (c.canonicalize m), of_map (c.canonicalize m))
