-- ===== src/Cose/Encoded.antt =====
-- What CoseKey of cppcose.h reads from a key: numbers in the range of an int, and the public key.
use device_xiaomi_dash_twrp.Prelude.{
  ℕ, ◌%◌, ◌^◌, ◌<◌, ◌≡◌, ◌↔◌, refl, sym, ap, subst, ◌∙◌, inl, inr, Option, none, some, List, [],
  ◌∷◌, ◌++◌, length, ltb, ltb→lt, lt→ltb, arith, Bool-cases,
}
use device_xiaomi_dash_twrp.Cose.{
  ℤ, pos, negsuc, narrow, Label, pubkey_x, pubkey_y, of_value, Cbor, CoseKey, of_map,
  get_bstr_value, get_int_value,
}
use device_xiaomi_dash_twrp.Cose.Parse.{get_ec_public_key, joined}
use device_xiaomi_dash_twrp.Cose.Keys.{
  Kind, ed25519_key, x25519_key, p256_key, p384_key, HasInt, HasBstr, HasSized, parse_kind,
}
use device_xiaomi_dash_twrp.Cose.Accepts.{IsReadKey, parse_kind_given}
use device_xiaomi_dash_twrp.Cose.Given.{given_value}

-- The range of a 32-bit int.
abbrev pub IsInt32 : ℤ → Type 0
IsInt32 (pos n) = n < 2 ^ 31
IsInt32 (negsuc n) = n < 2 ^ 31

narrow-IsInt32 : (v : ℤ) → IsInt32 v → narrow v ≡ v
unfolding narrow
narrow-IsInt32 (pos n) small =
    let low : n % 2 ^ 32 ≡ n = omega arith in rw (low, lt→ltb n (2 ^ 31) small) refl
narrow-IsInt32 (negsuc n) small =
    let low : n % 2 ^ 32 ≡ n = omega arith in rw (low, lt→ltb n (2 ^ 31) small) refl

IsInt32-narrow : (v : ℤ) → IsInt32 (narrow v)
unfolding narrow
IsInt32-narrow (pos n) = elim (Bool-cases (ltb (n % 2 ^ 32) (2 ^ 31))) [
  | inl low ↦ rw low (ltb→lt (n % 2 ^ 32) (2 ^ 31) low)
  | inr high ↦ rw high (ground arith)
]
IsInt32-narrow (negsuc n) = elim (Bool-cases (ltb (n % 2 ^ 32) (2 ^ 31))) [
  | inl low ↦ rw low (ltb→lt (n % 2 ^ 32) (2 ^ 31) low)
  | inr high ↦ rw high (ground arith)
]

-- The bytes of a coordinate, of a key that has two.
abbrev pub coordinate_size : Kind → Option ℕ
coordinate_size ed25519_key = none
coordinate_size (x25519_key require_kid) = none
coordinate_size p256_key = some 32
coordinate_size p384_key = some 48

module _ {Encoded Map Item : Type 0} (c : Cbor Encoded Map Item) where
  get_int-HasInt :
      (m : Map) (label : Label) (v : ℤ)
      → HasInt c m label v
      → get_int_value c label (of_map m) ≡ some (some (narrow v))
  unfolding get_int_value
  get_int-HasInt m label v (item, at, number) = rw (at, number) refl

  -- getIntValue gives the number that a key holds under a label exactly if the number is in the range of
  -- an int.
  pub get_int_value_lem :
      (m : Map) (label : Label) (v : ℤ)
      → HasInt c m label v
      → (get_int_value c label (of_map m) ≡ some (some v)) ↔ IsInt32 v
  get_int_value_lem m label v held = (
    λ same.
        let both : some (some (narrow v)) ≡ some (some v) =
          sym (get_int-HasInt m label v held) ∙ same in
        let cut : narrow v ≡ v = cc in subst IsInt32 cut (IsInt32-narrow v),
    λ small. get_int-HasInt m label v held ∙ ap (λ k. some (some k)) (narrow-IsInt32 v small),
  )

  -- The public key of a key with two coordinates.
  abbrev pub HasPublicKey : CoseKey Map → ℕ → Type 0
  HasPublicKey k n =
      (x : List ℕ) × (y : List ℕ) × (get_bstr_value c pubkey_x k ≡ some (some x))
      × (get_bstr_value c pubkey_y k ≡ some (some y))
      × (length x ≡ n)
      × (length y ≡ n)
      × (get_ec_public_key c k ≡ some (of_value (x ++ y)))

  get_bstr-HasBstr :
      (m : Map) (label : Label) (bs : List ℕ)
      → HasBstr c m label bs
      → get_bstr_value c label (of_map m) ≡ some (some bs)
  unfolding get_bstr_value
  get_bstr-HasBstr m label bs (item, at, is) = rw at (ap some is)

  joined_some : (x y : List ℕ) → 0 < length x → 0 < length y → joined c x y ≡ of_value (x ++ y)
  joined_some [] y h1 h2 = absurd (omega arith)
  joined_some (a ∷ x) [] h1 h2 = absurd (omega arith)
  joined_some (a ∷ x) (b ∷ y) h1 h2 = refl

  public_key :
      (m : Map) (n : ℕ)
      → 0 < n
      → HasSized c m pubkey_x n
      → HasSized c m pubkey_y n
      → HasPublicKey (of_map m) n
  unfolding get_ec_public_key get_bstr_value
  public_key m n some_bytes (x, (i, x_at, x_is), x_size) (y, (j, y_at, y_is), y_size) = (
    x,
    y,
    get_bstr-HasBstr m pubkey_x x (i, x_at, x_is),
    get_bstr-HasBstr m pubkey_y y (j, y_at, y_is),
    x_size,
    y_size,
    rw (get_ec_public_key, get_bstr_value, x_at)
        (rw x_is (rw y_at (rw y_is (ap some (joined_some x y (omega arith) (omega arith)))))),
  )

  -- A key that parse_p256 gives has a public key of two coordinates of 32 bytes each, one behind the
  -- other, and one that parse_p384 gives of 48 bytes each.
  pub get_ec_public_key_lem :
      (kind : Kind) (n : ℕ) (e : Encoded) (k : CoseKey Map)
      → coordinate_size kind ≡ some n
      → parse_kind c kind e ≡ some (of_value k)
      → HasPublicKey k n
  get_ec_public_key_lem ed25519_key n e k size h = cc
  get_ec_public_key_lem (x25519_key require_kid) n e k size h = cc
  get_ec_public_key_lem p256_key n e k size h =
      let (m, is, reads, (held, x, y)) =
        given_value _ (IsReadKey c p256_key e) k (parse_kind_given c p256_key e) h in
      let same : 32 ≡ n = cc in
      subst (HasPublicKey k) same
        (subst (λ k. HasPublicKey k 32) (sym is) (public_key m 32 (omega arith) x y))
  get_ec_public_key_lem p384_key n e k size h =
      let (m, is, reads, (held, x, y)) =
        given_value _ (IsReadKey c p384_key e) k (parse_kind_given c p384_key e) h in
      let same : 48 ≡ n = cc in
      subst (HasPublicKey k) same
        (subst (λ k. HasPublicKey k 48) (sym is) (public_key m 48 (omega arith) x y))
