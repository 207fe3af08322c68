-- ===== src/LinkedList/Calls/Tests.antt =====
-- Calls on the list of two values: a value is pushed, the first erased, one read, and they are counted.
use mathlib.Core.Option.{some-injective}
use device_xiaomi_dash_twrp.Prelude.{
  ℕ, ◌≡◌, refl, sym, ◌∙◌, ap, subst, Option, none, some, List, [], ◌∷◌, ◌++◌, if◌then◌else◌, arith,
}
use device_xiaomi_dash_twrp.LinkedList.{Ptr, Heap, push_back, begin, erase, get_value, size}
use device_xiaomi_dash_twrp.LinkedList.Tests.{two_values, front, back, two_values-IsRing}
use device_xiaomi_dash_twrp.LinkedList.Calls.{
  Call, push_back_call, erase_call, read, size_call, Reply, done, value, count, serve, run,
  run_values, serve_values,
}
use device_xiaomi_dash_twrp.LinkedList.Calls.Refine.{Represents, Admissible, run-values}

abbrev alloc : Heap ℕ → Ptr
alloc h = if h.live 4 then 5 else 4

abbrev calls : List (Call ℕ)
calls = push_back_call 40 ∷ (erase_call 0 ∷ (read 1 ∷ (size_call ∷ [])))

-- What one call leaves is known, so that the next may be looked at.
served :
    (fuel : ℕ) (c : Call ℕ) (cs : List (Call ℕ)) (h k : Heap ℕ) (r : Reply ℕ)
    → serve alloc fuel 1 c h ≡ some (r, k)
    → Admissible alloc fuel 1 cs k
    → (r' : Reply ℕ) (g : Heap ℕ) → serve alloc fuel 1 c h ≡ some (r', g)
    → Admissible alloc fuel 1 cs g
served fuel c cs h k r e rest r' g e' =
    subst (Admissible alloc fuel 1 cs) (ap (λ p. p.1) (some-injective _ _ (sym e ∙ e'))) rest

abbrev left : Option (Reply ℕ × Heap ℕ) → Heap ℕ
left none = two_values
left (some (r, g)) = g

-- The heaps between the calls.
abbrev pushed : Heap ℕ
pushed = left (serve alloc 8 1 (push_back_call 40) two_values)

abbrev erased : Heap ℕ
erased = left (serve alloc 8 1 (erase_call 0) pushed)

calls-Admissible : Admissible alloc 8 1 calls two_values
unfolding serve push_back begin erase get_value size
calls-Admissible = (
  refl,
  served 8 (push_back_call 40) (erase_call 0 ∷ (read 1 ∷ (size_call ∷ []))) two_values pushed done
      refl
      (
        refl,
        served 8 (erase_call 0) (read 1 ∷ (size_call ∷ [])) pushed erased done refl (
          refl,
          served 8 (read 1) (size_call ∷ []) erased erased (value 40) refl
              (refl, served 8 size_call [] erased erased (count 2) refl tt),
        ),
      ),
)

two_values-Represents : Represents two_values 1 (20 ∷ (30 ∷ []))
two_values-Represents = record { nodes = front ++ back; ring = two_values-IsRing; same = refl }

run-values_example :
    (g : Heap ℕ) × (run alloc 8 1 calls two_values
      ≡ some (done ∷ (done ∷ (value 40 ∷ (count 2 ∷ []))), g))
    × Represents g 1 (30 ∷ (40 ∷ []))
unfolding run_values serve_values
run-values_example =
    run-values alloc 8 1 calls two_values (20 ∷ (30 ∷ [])) (30 ∷ (40 ∷ []))
      (done ∷ (done ∷ (value 40 ∷ (count 2 ∷ [])))) calls-Admissible two_values-Represents
      (omega arith) refl
