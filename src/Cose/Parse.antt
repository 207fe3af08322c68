-- ===== src/Cose/Parse.antt =====
-- The parse functions of CoseKey in cppcose.h, and getEcPublicKey.
use device_xiaomi_dash_twrp.Prelude.{
  ℕ, Bool, not, ◌&&◌, ◌||◌, Option, none, some, List, [], ◌∷◌, ◌++◌, if◌then◌else◌,
}
use device_xiaomi_dash_twrp.Cose.{
  label_number, es256, eddsa, ecdh_es_hkdf_256, es384, p256, p384, x25519, ed25519, octet_key_pair,
  ec2, of_message, of_value, ◌>>=◌, with_value, of_map, is_no_bstr, has_other_size, check_int_value,
  get_bstr_value, key_type, key_id, algorithm, curve, pubkey_x, pubkey_y, when_parsing_key,
  not_a_map, unexpected_key_type, invalid_ed25519, invalid_x25519, missing_kid, invalid_p256,
  invalid_p384, missing_input, no_ec_public_key, ℤ, ErrMsgOr, Cbor, CoseKey, is_null,
}

module _ {Encoded Map Item : Type 0} (c : Cbor Encoded Map Item) where
  -- parse(const bytevec& coseKey)
  unfoldable pub parse : Encoded → ErrMsgOr (CoseKey Map)
  parse e = elim (c.parse_item e) [
    | none ↦ of_message when_parsing_key
    | some item ↦ elim (c.as_map item) [
      | none ↦ of_message not_a_map
      | some m ↦ of_value (of_map m)
    ]
  ]

  -- parse(coseKey, expectedKeyType, expectedAlgorithm, expectedCurve)
  unfoldable pub parse_expected : Encoded → ℤ → ℤ → ℤ → Option (ErrMsgOr (CoseKey Map))
  unfolding parse check_int_value
  parse_expected e expected_key_type expected_algorithm expected_curve = with_value (parse e) (λ k.
      do
        right_type ← check_int_value c key_type expected_key_type k
        right_algorithm ← check_int_value c algorithm expected_algorithm k
        right_curve ← check_int_value c curve expected_curve k
        some (
            if not right_type || not right_algorithm || not right_curve
            then of_message unexpected_key_type
            else of_value k))

  unfoldable pub parse_ed25519 : Encoded → Option (ErrMsgOr (CoseKey Map))
  unfolding parse_expected
  parse_ed25519 e = do
    r ← parse_expected e octet_key_pair eddsa ed25519
    with_value r (λ k. do
      m ← k.key
      let pubkey = c.get m (label_number pubkey_x)
      some (
          if is_null pubkey
            || is_no_bstr c pubkey
            || has_other_size c pubkey c.ed25519_public_key_len
          then of_message invalid_ed25519
          else of_value k))

  unfoldable pub parse_x25519 : Encoded → (require_kid : Bool) → Option (ErrMsgOr (CoseKey Map))
  unfolding parse_expected
  parse_x25519 e require_kid = do
    r ← parse_expected e octet_key_pair ecdh_es_hkdf_256 x25519
    with_value r (λ k. do
      m ← k.key
      let pubkey = c.get m (label_number pubkey_x)
      let kid = c.get m (label_number key_id)
      some (
          if is_null pubkey
            || is_no_bstr c pubkey
            || has_other_size c pubkey c.x25519_public_value_len
          then of_message invalid_x25519
          else if require_kid && (is_null kid || is_no_bstr c kid)
          then of_message missing_kid
          else of_value k))

  -- The test of two coordinates.
  abbrev pub bad_coordinates : Option Item → Option Item → ℕ → Bool
  bad_coordinates x y n =
      is_null x
      || is_null y
      || is_no_bstr c x
      || is_no_bstr c y
      || has_other_size c x n
      || has_other_size c y n

  unfoldable pub parse_p256 : Encoded → Option (ErrMsgOr (CoseKey Map))
  unfolding parse_expected
  parse_p256 e = do
    r ← parse_expected e ec2 es256 p256
    with_value r (λ k. do
      m ← k.key
      let bad =
          bad_coordinates (c.get m (label_number pubkey_x)) (c.get m (label_number pubkey_y)) 32
      some (if bad then of_message invalid_p256 else of_value k))

  unfoldable pub parse_p384 : Encoded → Option (ErrMsgOr (CoseKey Map))
  unfolding parse_expected
  parse_p384 e = do
    r ← parse_expected e ec2 es384 p384
    with_value r (λ k. do
      m ← k.key
      let bad =
          bad_coordinates (c.get m (label_number pubkey_x)) (c.get m (label_number pubkey_y)) 48
      some (if bad then of_message invalid_p384 else of_value k))

  -- getEcPublicKey(const bytevec& pubX, const bytevec& pubY)
  abbrev pub joined : List ℕ → List ℕ → ErrMsgOr (List ℕ)
  joined [] y = of_message missing_input
  joined (a ∷ x) [] = of_message missing_input
  joined (a ∷ x) (b ∷ y) = of_value ((a ∷ x) ++ (b ∷ y))

  -- getEcPublicKey()
  unfoldable pub get_ec_public_key : CoseKey Map → Option (ErrMsgOr (List ℕ))
  unfolding get_bstr_value
  get_ec_public_key k = do
    x ← get_bstr_value c pubkey_x k
    y ← get_bstr_value c pubkey_y k
    some (elim x [
      | none ↦ of_message no_ec_public_key
      | some xs ↦ elim y [ none ↦ of_message no_ec_public_key | some ys ↦ joined xs ys ]
    ])
