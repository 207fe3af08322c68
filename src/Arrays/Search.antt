-- ===== src/Arrays/Search.antt =====
-- What the array functions of mem.h promise.
use device_xiaomi_dash_twrp.Prelude.{
  ◌≡◌, refl, ap, ◌∙◌, Bool, true, some, List, [], ◌∷◌, ◌++◌, length, arith, subst, inl, inr,
  Bool-cases,
}
use mathlib.Core.List.{append-nil}
use mathlib.Core.Bool.{false≢true as false_ne_true}
use device_xiaomi_dash_twrp.Arrays.{copy_elements, dup_array, copy_array, array_contains}

module _ {A : Type 0} where
  -- The first length a elements of the destination are replaced.
  copy_elements_lem :
      (a old rest : List A)
      → length old ≡ length a
      → copy_elements (length a) a (old ++ rest) ≡ some (a ++ rest)
  unfolding copy_elements
  copy_elements_lem [] [] rest h = refl
  copy_elements_lem [] (o ∷ old) rest h = absurd (omega arith)
  copy_elements_lem (v ∷ a) [] rest h = absurd (omega arith)
  copy_elements_lem (v ∷ a) (o ∷ old) rest h = rw (copy_elements_lem a old rest (omega arith))

  copy_elements_whole :
      (a old : List A) → length old ≡ length a → copy_elements (length a) a old ≡ some a
  copy_elements_whole a old h =
      subst (λ l. copy_elements (length a) a l ≡ some a) (append-nil old)
        (copy_elements_lem a old [] h ∙ ap some (append-nil a))

  -- Copying an array into one that is at least as long replaces its first elements, leaves those
  -- behind alone and stays inside both; duplicating into new storage of the same length gives an
  -- equal array, whatever stood in the storage.
  pub copies_are_exact :
      (a old rest : List A)
      → length old ≡ length a
      → (copy_array a (old ++ rest) ≡ some (a ++ rest))
        × (dup_array (some old) a (length a) ≡ some (some a))
  unfolding copy_array dup_array
  copies_are_exact a old rest h =
      (copy_elements_lem a old rest h, rw (dup_array, copy_elements_whole a old h))

  -- The value occurs at some place.
  abbrev pub Occurs : A → List A → Type 0
  Occurs val a = (before : List A) × (after : List A) × (a ≡ before ++ val ∷ after)

  found_lem :
      (equal : A → A → Bool)
      → ((v w : A) → equal v w ≡ true → v ≡ w)
      → (a : List A) (val : A) → array_contains equal a val ≡ true
      → Occurs val a
  unfolding array_contains
  found_lem equal right [] val h = absurd (false_ne_true h)
  found_lem equal right (v ∷ a) val h = elim (Bool-cases (equal v val)) [
    | inl e ↦ ([], a, ap (λ w. w ∷ a) (right v val e))
    | inr e ↦
        let rest : array_contains equal a val ≡ true = ground (arith, h, e) in
        let (before, after, split) = found_lem equal right a val rest in
        (v ∷ before, after, ap (λ l. v ∷ l) split)
  ]

  contains_lem :
      (equal : A → A → Bool)
      → ((v : A) → equal v v ≡ true)
      → (before after : List A) (val : A) → array_contains equal (before ++ val ∷ after) val ≡ true
  unfolding array_contains
  contains_lem equal same [] after val = rw (same val)
  contains_lem equal same (v ∷ before) after val = elim (Bool-cases (equal v val)) [
    | inl e ↦ rw e
    | inr e ↦ rw e (contains_lem equal same before after val)
  ]

  -- With an operator== that is equality, array_contains finds a value exactly if it occurs in the
  -- array.
  pub array_contains_lem :
      (equal : A → A → Bool)
      → ((v w : A) → equal v w ≡ true → v ≡ w)
      → ((v : A) → equal v v ≡ true)
      → (a : List A) (val : A)
      → (array_contains equal a val ≡ true → Occurs val a)
        × (Occurs val a → array_contains equal a val ≡ true)
  array_contains_lem equal right same a val = (
    found_lem equal right a val,
    λ (before, after, split). rw split (contains_lem equal same before after val),
  )
