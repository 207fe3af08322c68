-- ===== src/KeyMint/Sets/Copies.antt =====
-- The assignment of a vector to an AuthorizationSet of keymint_support/authorization_set.h.
use mathlib.Core.List.{append_assoc}
use device_xiaomi_dash_twrp.Prelude.{
  ℕ, zero, suc, ◌≡◌, refl, ap, subst, some, List, [], ◌∷◌, ◌++◌, length, length-append,
  set_at-append, get_elem?-middle, lt→ltb, le→ltb, arith,
}
use device_xiaomi_dash_twrp.KeyMint.Parameters.{KeyParameter}
use device_xiaomi_dash_twrp.KeyMint.Sets.{
  AuthorizationSet, resize, copy_each, assign_vector, from_vector,
}

length-resize :
    (fresh : KeyParameter) (n : ℕ) (elems : List KeyParameter) → length (resize fresh n elems) ≡ n
unfolding resize
length-resize fresh zero elems = refl
length-resize fresh (suc n) [] = ap suc (length-resize fresh n [])
length-resize fresh (suc n) (p ∷ elems) = ap suc (length-resize fresh n elems)

copy_each_lem :
    (xs ys zs : List KeyParameter)
    → length zs ≡ length ys
    → copy_each (xs ++ ys) (length ys) (length xs) (xs ++ zs) ≡ some (xs ++ ys)
unfolding copy_each
copy_each_lem xs [] [] same =
    rw (le→ltb (length xs) (length (xs ++ [])) (omega (arith, length-append xs [])))
copy_each_lem xs [] (z ∷ zs) same = absurd (omega arith)
copy_each_lem xs (y ∷ ys) [] same = absurd (omega arith)
copy_each_lem xs (y ∷ ys) (z ∷ zs) same =
    let one = xs ++ y ∷ [] in
    let next =
      subst (λ o. copy_each o (length ys) (length one) (one ++ zs) ≡ some o)
        (append_assoc xs (y ∷ []) ys) (copy_each_lem one ys zs (omega arith)) in
    rw
      (
        copy_each,
        lt→ltb (length xs) (length (xs ++ z ∷ zs)) (omega (arith, length-append xs (z ∷ zs))),
        get_elem?-middle xs ys y,
        set_at-append xs zs y z,
        ← length-append xs (y ∷ []),
      )
      next

assign_some :
    (fresh p : KeyParameter) (other : List KeyParameter) (s : AuthorizationSet)
    → assign_vector fresh (p ∷ other) s ≡ some (record { elems = p ∷ other })
unfolding assign_vector
assign_some fresh p other s = rw (
  assign_vector,
  lt→ltb 0 (length (p ∷ other)) (omega arith),
  copy_each_lem [] (p ∷ other) (resize fresh (length (p ∷ other)) s.elems)
      (length-resize fresh (length (p ∷ other)) s.elems),
)

-- What an assignment leaves.
abbrev pub assigned : List KeyParameter → AuthorizationSet → AuthorizationSet
assigned [] s = s
assigned (p ∷ other) s = record { elems = p ∷ other }

-- The assignment of a vector, whose loop stays inside both vectors, stores exactly the parameters of the
-- vector if it has any, and leaves the set as it was if it has none; a set constructed from a vector
-- has exactly the parameters of the vector.
pub assign_vector_lem :
    (fresh : KeyParameter) (other : List KeyParameter) (s : AuthorizationSet)
    → (assign_vector fresh other s ≡ some (assigned other s))
      × (from_vector fresh other ≡ some (record { elems = other }))
unfolding assign_vector from_vector
assign_vector_lem fresh [] s = (refl, refl)
assign_vector_lem fresh (p ∷ other) s =
    (assign_some fresh p other s, assign_some fresh p other (record { elems = [] }))
