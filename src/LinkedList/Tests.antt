-- ===== src/LinkedList/Tests.antt =====
-- A list of two values: the middle node is 1, the nodes 2 and 3, and 4 is free.
use device_xiaomi_dash_twrp.Prelude.{
  ℕ, zero, suc, ◌≡◌, refl, Bool, true, false, none, some, Option, [], ◌∷◌, ◌++◌, arith,
}
use device_xiaomi_dash_twrp.LinkedList.{Ptr, Heap, erase, clear}
use device_xiaomi_dash_twrp.LinkedList.Ring.{Nodes, IsRing}
use device_xiaomi_dash_twrp.LinkedList.Erase.{erase_lem}
use device_xiaomi_dash_twrp.LinkedList.Assign.{copy_construct}
use device_xiaomi_dash_twrp.LinkedList.Copy.{copy_construct_lem}
use device_xiaomi_dash_twrp.LinkedList.Clear.{Freed, clear_lem}

abbrev pub next_of : Ptr → Ptr
next_of zero = 0
next_of (suc zero) = 2
next_of (suc (suc zero)) = 3
next_of (suc (suc (suc n))) = 1

abbrev pub prev_of : Ptr → Ptr
prev_of zero = 0
prev_of (suc zero) = 3
prev_of (suc (suc zero)) = 1
prev_of (suc (suc (suc n))) = 2

abbrev pub value_at : Ptr → Option ℕ
value_at zero = none
value_at (suc zero) = none
value_at (suc (suc zero)) = some 20
value_at (suc (suc (suc n))) = some 30

abbrev pub live_at : Ptr → Bool
live_at zero = false
live_at (suc zero) = true
live_at (suc (suc zero)) = true
live_at (suc (suc (suc zero))) = true
live_at (suc (suc (suc (suc n)))) = false

abbrev pub two_values : Heap ℕ
two_values = record { next = next_of; prev = prev_of; value = value_at; live = live_at }

abbrev pub front : Nodes ℕ
front = (2, 20) ∷ []

abbrev pub back : Nodes ℕ
back = (3, 30) ∷ []

pub two_values-IsRing : IsRing two_values 1 (front ++ back)
two_values-IsRing = record {
  chain = (refl, refl, refl, refl, (refl, refl, refl, refl, (refl, refl)));
  apart = (omega arith, (omega arith, tt));
  distinct = ((omega arith, tt), (tt, tt));
  alive = refl;
}

erase_example :
    (g : Heap ℕ) × (erase 2 two_values ≡ some (3, g)) × IsRing g 1 ([] ++ back) × (g.live 2 ≡ false)
erase_example = erase_lem two_values 1 2 20 [] back two_values-IsRing

clear_example :
    (g : Heap ℕ) × (clear 3 1 two_values ≡ some (tt, g)) × IsRing g 1 [] × Freed g (front ++ back)
clear_example = clear_lem two_values 1 (front ++ back) 3 two_values-IsRing (omega arith)

-- The copy has its middle node at 4 and its nodes at 5 and 6.
copy_construct_example :
    (g : Heap ℕ) × (copy_construct (5 ∷ 6 ∷ []) 4 1 two_values ≡ some (4, g))
    × IsRing g 4 ((5, 20) ∷ (6, 30) ∷ [])
    × IsRing g 1 (front ++ back)
copy_construct_example =
    copy_construct_lem two_values 4 1 (front ++ back) (5 ∷ 6 ∷ []) two_values-IsRing
      (refl, (omega arith, (omega arith, tt)), (refl, (omega arith, tt), (refl, tt, tt))) refl
