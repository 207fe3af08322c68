-- ===== src/AuthProxy/Tests.antt =====
-- AuthProxy over two sets of numbers.
use device_xiaomi_dash_twrp.Prelude.{
  ℕ, zero, suc, ◌≡◌, refl, false, none, List, [], ◌∷◌, get_elem?, arith,
}
use device_xiaomi_dash_twrp.AuthProxy.{AuthProxy, Sets, SetPtr, begin, end, iterator_eq, walk}
use device_xiaomi_dash_twrp.AuthProxy.Walk.{walk_empty_runs_on}
use device_xiaomi_dash_twrp.AuthProxy.Lookup.{or_else}

-- The null pointer leads to the empty set, 1 and 2 to sets with elements.
abbrev numbers : SetPtr → List ℕ
numbers zero = []
numbers (suc zero) = 11 ∷ 12 ∷ []
numbers (suc (suc n)) = 21 ∷ []

abbrev number_sets : Sets ℕ
number_sets = record {
  elements = numbers;
  elem_at = λ s n. or_else 0 (get_elem? (numbers s) n);
  elem_at_lem = λ s n v h. rw h;
}

abbrev both : AuthProxy
both = record { hw_enforced = 1; sw_enforced = 2 }

abbrev neither : AuthProxy
neither = record { hw_enforced = 0; sw_enforced = 0 }

walk_empty_example :
    (iterator_eq (begin neither) end ≡ false) × (walk number_sets 5 (begin neither) ≡ none)
walk_empty_example = walk_empty_runs_on number_sets neither refl 5 (omega arith)
