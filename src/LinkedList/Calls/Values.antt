-- ===== src/LinkedList/Calls/Values.antt =====
-- Where a call on the values of a list acts: the nodes before and behind the place.
use mathlib.Core.Option.{some-injective}
use device_xiaomi_dash_twrp.Prelude.{
  ℕ, zero, suc, ◌+◌, ◌≤◌, ◌≡◌, refl, sym, ap, ◌∙◌, inl, inr, Option, none, some, List, [], ◌∷◌,
  ◌++◌, map, length, get_elem?, arith, Option-cases,
}
use device_xiaomi_dash_twrp.LinkedList.{Ptr}
use device_xiaomi_dash_twrp.LinkedList.Ring.{Nodes}
use device_xiaomi_dash_twrp.LinkedList.Calls.{Reply, value, insert_at, erase_at, replying, reading}

module _ {T : Type 0} where
  abbrev pub values : Nodes T → List T
  values = map (λ node. node.1)

  pub length-values : (xs : Nodes T) → length (values xs) ≡ length xs
  length-values [] = refl
  length-values (x ∷ xs) = ap suc (length-values xs)

  pub insert_split :
      (i : ℕ) (v : T) (nodes : Nodes T) (l : List T)
      → insert_at i v (values nodes) ≡ some l
      → (xs : Nodes T) × (ys : Nodes T) × (nodes ≡ xs ++ ys)
        × (i ≡ length xs)
        × (l ≡ values xs ++ v ∷ values ys)
  unfolding insert_at
  insert_split zero v nodes l e = ([], nodes, refl, refl, sym (some-injective _ _ e))
  insert_split (suc i) v [] l e = cc
  insert_split (suc i) v ((a, w) ∷ nodes) l e = elim (Option-cases (insert_at i v (values nodes))) [
    | inl failed ↦ cc (rw failed at e)
    | inr (l', made) ↦
        let (xs, ys, split, len, vals) = insert_split i v nodes l' made in
        (
          (a, w) ∷ xs,
          ys,
          ap (λ k. (a, w) ∷ k) split,
          ap suc len,
          sym (some-injective _ _ (rw made at e)) ∙ ap (λ k. w ∷ k) vals,
        )
  ]

  pub erase_split :
      (i : ℕ) (nodes : Nodes T) (l : List T)
      → erase_at i (values nodes) ≡ some l
      → (xs : Nodes T) × (node : Ptr × T) × (ys : Nodes T) × (nodes ≡ xs ++ node ∷ ys)
        × (i ≡ length xs)
        × (l ≡ values xs ++ values ys)
  unfolding erase_at
  erase_split zero [] l e = cc
  erase_split (suc i) [] l e = cc
  erase_split zero (node ∷ nodes) l e = ([], node, nodes, refl, refl, sym (some-injective _ _ e))
  erase_split (suc i) ((a, w) ∷ nodes) l e = elim (Option-cases (erase_at i (values nodes))) [
    | inl failed ↦ cc (rw failed at e)
    | inr (l', made) ↦
        let (xs, node, ys, split, len, vals) = erase_split i nodes l' made in
        (
          (a, w) ∷ xs,
          node,
          ys,
          ap (λ k. (a, w) ∷ k) split,
          ap suc len,
          sym (some-injective _ _ (rw made at e)) ∙ ap (λ k. w ∷ k) vals,
        )
  ]

  pub read_split :
      (i : ℕ) (v : T) (nodes : Nodes T)
      → get_elem? (values nodes) i ≡ some v
      → (xs : Nodes T) × (a : Ptr) × (ys : Nodes T) × (nodes ≡ xs ++ (a, v) ∷ ys) × (i ≡ length xs)
  read_split i v [] e = cc
  read_split zero v ((a, w) ∷ nodes) e =
      ([], a, nodes, ap (λ u. (a, u) ∷ nodes) (some-injective _ _ e), refl)
  read_split (suc i) v ((b, w) ∷ nodes) e =
      let (xs, a, ys, split, len) = read_split i v nodes e in
      ((b, w) ∷ xs, a, ys, ap (λ k. (b, w) ∷ k) split, ap suc len)

  -- The list grows by one value at most.
  pub length-insert_at :
      (i : ℕ) (v : T) (l l' : List T) → insert_at i v l ≡ some l' → length l' ≤ length l + 1
  unfolding insert_at
  length-insert_at zero v l l' e = ground (arith, ap length (some-injective _ _ e))
  length-insert_at (suc i) v [] l' e = cc
  length-insert_at (suc i) v (w ∷ l) l' e = elim (Option-cases (insert_at i v l)) [
    | inl failed ↦ cc (rw failed at e)
    | inr (k, made) ↦
        omega (arith, length-insert_at i v l k made, ap length (some-injective _ _ (rw made at e)))
  ]

  pub length-erase_at : (i : ℕ) (l l' : List T) → erase_at i l ≡ some l' → length l' ≤ length l
  unfolding erase_at
  length-erase_at zero [] l' e = cc
  length-erase_at (suc i) [] l' e = cc
  length-erase_at zero (w ∷ l) l' e = omega (arith, ap length (some-injective _ _ e))
  length-erase_at (suc i) (w ∷ l) l' e = elim (Option-cases (erase_at i l)) [
    | inl failed ↦ cc (rw failed at e)
    | inr (k, made) ↦
        omega (arith, length-erase_at i l k made, ap length (some-injective _ _ (rw made at e)))
  ]

  pub replying_inv :
      (r r' : Reply T) (o : Option (List T)) (l : List T)
      → replying r o ≡ some (r', l)
      → (o ≡ some l) × (r ≡ r')
  replying_inv r r' none l e = cc
  replying_inv r r' (some k) l e =
      let same = some-injective _ _ e in (ap some (ap (λ p. p.1) same), ap (λ p. p.0) same)

  pub reading_inv :
      (o : Option T) (r : Reply T) (l l' : List T)
      → reading o l ≡ some (r, l')
      → (v : T) × (o ≡ some v) × (value v ≡ r) × (l ≡ l')
  reading_inv none r l l' e = cc
  reading_inv (some v) r l l' e =
      let same = some-injective _ _ e in (v, refl, ap (λ p. p.0) same, ap (λ p. p.1) same)
