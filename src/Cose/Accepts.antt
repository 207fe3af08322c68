-- ===== src/Cose/Accepts.antt =====
-- The parse functions of CoseKey in cppcose.h, from what they give to what the key holds.
use device_xiaomi_dash_twrp.Prelude.{
  ℕ, ◌==◌, ◌≡◌, refl, sym, ap, inl, inr, Bool, true, false, not, ◌&&◌, ◌||◌, Option, none, some,
  List, length, arith, if◌then◌else◌,
}
use device_xiaomi_dash_twrp.Cose.{
  ℤ, pos, negsuc, int_eq, Label, key_type, key_id, algorithm, curve, pubkey_x, pubkey_y,
  label_number, es256, eddsa, ecdh_es_hkdf_256, es384, p256, p384, x25519, ed25519, octet_key_pair,
  ec2, Message, not_a_map, when_parsing_key, unexpected_key_type, invalid_ed25519, invalid_x25519,
  missing_kid, invalid_p256, invalid_p384, ErrMsgOr, of_message, of_value, Cbor, CoseKey, of_map,
  is_null, is_int, is_no_bstr, has_other_size, check_int_value,
}
use device_xiaomi_dash_twrp.Cose.Parse.{
  parse, parse_expected, parse_ed25519, parse_x25519, parse_p256, parse_p384, bad_coordinates,
}
use device_xiaomi_dash_twrp.Cose.Keys.{
  Kind, ed25519_key, x25519_key, p256_key, p384_key, Given, HasInt, HasBstr, HasSized,
  HasParameters, IsKey, Reads, parse_kind,
}
use device_xiaomi_dash_twrp.Cose.Given.{chosen, then_given}

pub int_eq_lem : (a b : ℤ) → int_eq a b ≡ true → a ≡ b
int_eq_lem (pos a) (pos b) h = ap pos (ground arith)
int_eq_lem (pos a) (negsuc b) h = cc
int_eq_lem (negsuc a) (pos b) h = cc
int_eq_lem (negsuc a) (negsuc b) h = ap negsuc (ground arith)

or_false : (a b : Bool) → (a || b) ≡ false → (a ≡ false) × (b ≡ false)
or_false true b h = cc
or_false false b h = (refl, h)

unnegated : (a : Bool) → not a ≡ false → a ≡ true
unnegated true h = refl
unnegated false h = sym h

module _ {Encoded Map Item : Type 0} (c : Cbor Encoded Map Item) where
  is_int_sound :
      (m : Map) (label : Label) (v : ℤ)
      → is_int c (c.get m (label_number label)) v ≡ true
      → HasInt c m label v
  is_int_sound m label v h = held (c.get m (label_number label)) refl h
    where
      number :
          (item : Item) (r : Option ℤ)
          → (elim r [ none ↦ false | some w ↦ int_eq w v ]) ≡ true
          → r ≡ some v
      number item none h = cc
      number item (some w) h = ap some (int_eq_lem w v h)

      held :
          (o : Option Item)
          → c.get m (label_number label) ≡ o
          → is_int c o v ≡ true
          → HasInt c m label v
      held none at h = cc
      held (some item) at h = (item, at, number item (c.as_int item) h)

  bstr_sound :
      (m : Map) (label : Label)
      → is_null (c.get m (label_number label)) ≡ false
      → is_no_bstr c (c.get m (label_number label)) ≡ false
      → (bs : List ℕ) × HasBstr c m label bs
  bstr_sound m label h1 h2 = held (c.get m (label_number label)) refl h1 h2
    where
      bytes : (r : Option (List ℕ)) → is_null r ≡ false → (bs : List ℕ) × (r ≡ some bs)
      bytes none h = cc
      bytes (some bs) h = (bs, refl)

      held :
          (o : Option Item)
          → c.get m (label_number label) ≡ o
          → is_null o ≡ false
          → is_no_bstr c o ≡ false
          → (bs : List ℕ) × HasBstr c m label bs
      held none at h1 h2 = cc
      held (some item) at h1 h2 = let (bs, is) = bytes (c.as_bstr item) h2 in (bs, (item, at, is))

  size_sound :
      (m : Map) (label : Label) (n : ℕ)
      → is_null (c.get m (label_number label)) ≡ false
      → is_no_bstr c (c.get m (label_number label)) ≡ false
      → has_other_size c (c.get m (label_number label)) n ≡ false
      → HasSized c m label n
  size_sound m label n h1 h2 h3 =
      let (bs, (item, at, is)) = bstr_sound m label h1 h2 in
      let same = unnegated (length bs == n) (rw (at, has_other_size, is) at h3) in
      (bs, (item, at, is), ground arith)

  -- A key that parse has read.
  abbrev IsRead : Encoded → CoseKey Map → Type 0
  IsRead e k = (m : Map) × (k ≡ of_map m) × Reads c e m

  parse_given : (e : Encoded) → Given (some (parse c e)) (IsRead e)
  unfolding parse
  parse_given e = item_read (c.parse_item e) refl
    where
      map_read :
          (item : Item) (r : Option Map)
          → c.parse_item e ≡ some item
          → c.as_map item ≡ r
          → Given
              (some (elim r as (λ _. ErrMsgOr (CoseKey Map)) [
                | none ↦ of_message not_a_map
                | some m ↦ of_value (of_map m)
              ]))
              (IsRead e)
      map_read item none h1 h2 = inl (not_a_map, refl)
      map_read item (some m) h1 h2 = inr (of_map m, refl, (m, refl, (item, h1, h2)))

      item_read :
          (r : Option Item)
          → c.parse_item e ≡ r
          → Given
              (some (elim r as (λ _. ErrMsgOr (CoseKey Map)) [
                | none ↦ of_message when_parsing_key
                | some item ↦ elim (c.as_map item) as (λ _. ErrMsgOr (CoseKey Map)) [
                  | none ↦ of_message not_a_map
                  | some m ↦ of_value (of_map m)
                ]
              ]))
              (IsRead e)
      item_read none h = inl (when_parsing_key, refl)
      item_read (some item) h = map_read item (c.as_map item) h refl

  abbrev IsExpected : Encoded → ℤ → ℤ → ℤ → CoseKey Map → Type 0
  IsExpected e type' algorithm' curve' k =
      (m : Map) × (k ≡ of_map m) × Reads c e m × HasParameters c m type' algorithm' curve'

  IsExpected-given :
      (e : Encoded) (type' algorithm' curve' : ℤ)
      → Given (parse_expected c e type' algorithm' curve') (IsExpected e type' algorithm' curve')
  unfolding parse_expected check_int_value
  IsExpected-given e type' algorithm' curve' =
      then_given (IsRead e) (IsExpected e type' algorithm' curve') (some (parse c e)) _
        (parse_given e)
        (λ k (m, is, reads). rw is (
          chosen (IsExpected e type' algorithm' curve') _ unexpected_key_type (of_map m) (λ fine.
            let (rest, three) = or_false _ _ fine in
            let (one, two) = or_false _ _ rest in
            (
              m,
              refl,
              reads,
              (
                is_int_sound m key_type type' (unnegated _ one),
                is_int_sound m algorithm algorithm' (unnegated _ two),
                is_int_sound m curve curve' (unnegated _ three),
              ),
            ))))

  -- Two coordinates of this length.
  coordinates :
      (m : Map) (n : ℕ)
      → bad_coordinates c (c.get m (label_number pubkey_x)) (c.get m (label_number pubkey_y)) n
        ≡ false
      → HasSized c m pubkey_x n × HasSized c m pubkey_y n
  coordinates m n fine =
      let (b5, y_size) = or_false _ _ fine in
      let (b4, x_size) = or_false _ _ b5 in
      let (b3, y_bstr) = or_false _ _ b4 in
      let (b2, x_bstr) = or_false _ _ b3 in
      let (x_there, y_there) = or_false _ _ b2 in
      (size_sound m pubkey_x n x_there x_bstr x_size, size_sound m pubkey_y n y_there y_bstr y_size)

  abbrev pub IsReadKey : Kind → Encoded → CoseKey Map → Type 0
  IsReadKey kind e k = (m : Map) × (k ≡ of_map m) × Reads c e m × IsKey c kind m

  if_then_else_false :
      (e : Encoded) (P : CoseKey Map → Type 0) (b1 b2 : Bool) (t1 t2 : Message) (k : CoseKey Map)
      → (b1 ≡ false → b2 ≡ false → P k)
      → Given (some (if b1 then of_message t1 else if b2 then of_message t2 else of_value k)) P
  if_then_else_false e P true b2 t1 t2 k h = inl (t1, refl)
  if_then_else_false e P false b2 t1 t2 k h = chosen P b2 t2 k (h refl)

  and_false : (a b : Bool) → (a && b) ≡ false → a ≡ true → b ≡ false
  and_false true b h e = h
  and_false false b h e = cc

  pub parse_kind_given :
      (kind : Kind) (e : Encoded) → Given (parse_kind c kind e) (IsReadKey kind e)
  unfolding parse_ed25519 parse_x25519 parse_p256 parse_p384
  parse_kind_given ed25519_key e =
      then_given _ (IsReadKey ed25519_key e) _ _ (IsExpected-given e octet_key_pair eddsa ed25519)
        (λ k (m, is, reads, held). rw is (
          chosen (IsReadKey ed25519_key e) _ invalid_ed25519 (of_map m) (λ fine.
            let (rest, size) = or_false _ _ fine in
            let (there, bstr) = or_false _ _ rest in
            (
              m,
              refl,
              reads,
              (held, size_sound m pubkey_x c.ed25519_public_key_len there bstr size),
            ))))
  parse_kind_given (x25519_key require_kid) e =
      then_given _ (IsReadKey (x25519_key require_kid) e) _ _
        (IsExpected-given e octet_key_pair ecdh_es_hkdf_256 x25519)
        (λ k (m, is, reads, held). rw is (
          if_then_else_false e (IsReadKey (x25519_key require_kid) e) _ _ invalid_x25519 missing_kid
            (of_map m)
            (λ fine fine_kid.
              let (rest, size) = or_false _ _ fine in
              let (there, bstr) = or_false _ _ rest in
              (
                m,
                refl,
                reads,
                (
                  held,
                  size_sound m pubkey_x c.x25519_public_value_len there bstr size,
                  λ wanted.
                      let (kid_there, kid_bstr) = or_false _ _ (and_false _ _ fine_kid wanted) in
                      bstr_sound m key_id kid_there kid_bstr,
                ),
              ))))
  parse_kind_given p256_key e =
      then_given _ (IsReadKey p256_key e) _ _ (IsExpected-given e ec2 es256 p256)
        (λ k (m, is, reads, held). rw is (
          chosen (IsReadKey p256_key e) _ invalid_p256 (of_map m)
            (λ fine. let (x, y) = coordinates m 32 fine in (m, refl, reads, (held, x, y)))))
  parse_kind_given p384_key e =
      then_given _ (IsReadKey p384_key e) _ _ (IsExpected-given e ec2 es384 p384)
        (λ k (m, is, reads, held). rw is (
          chosen (IsReadKey p384_key e) _ invalid_p384 (of_map m)
            (λ fine. let (x, y) = coordinates m 48 fine in (m, refl, reads, (held, x, y)))))
