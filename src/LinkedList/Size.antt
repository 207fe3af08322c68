-- ===== src/LinkedList/Size.antt =====
-- size and distance of List.h: the loop round the circle.
use device_xiaomi_dash_twrp.Prelude.{
  beq_refl, beq-ne, ℕ, zero, suc, ◌+◌, ◌<◌, ◌≡◌, sym, ap, ◌∙◌, some, [], ◌∷◌, arith, length,
}
use device_xiaomi_dash_twrp.LinkedList.{Ptr, Heap, distance_loop, size, begin, ◌>>=◌}
use device_xiaomi_dash_twrp.LinkedList.Access.{get_next-live}
use device_xiaomi_dash_twrp.LinkedList.Ring.{Nodes, Chain, Avoids, IsRing, first, next-first}

module _ {T : Type 0} where
  distance_lem :
      (h : Heap T) (p mid : Ptr) (xs : Nodes T) (fuel count : ℕ)
      → Chain h p xs mid
      → Avoids mid xs
      → length xs < fuel
      → distance_loop fuel (first xs mid) mid count h ≡ some (count + length xs, h)
  unfolding distance_loop
  distance_lem h p mid [] zero count c out low = absurd (omega arith)
  distance_lem h p mid [] (suc fuel) count c out low =
      rw beq_refl (ap (λ n. some (n, h)) (omega arith))
  distance_lem h p mid ((a, v) ∷ xs) zero count c out low = absurd (omega arith)
  distance_lem h p mid ((a, v) ∷ xs) (suc fuel) count c out low =
      rw
        (◌>>=◌, beq-ne a mid (λ e. out.0 (sym e)), get_next-live a h c.3, next-first h a mid xs c.4)
        (distance_lem h a mid xs fuel (count + 1) c.4 out.1 (omega arith)
          ∙ ap (λ n. some (n, h)) (omega arith))

  -- size() counts the values of a ring, in any number of rounds above theirs, and changes nothing.
  pub size_lem :
      (h : Heap T) (mid : Ptr) (xs : Nodes T) (fuel : ℕ)
      → IsRing h mid xs
      → length xs < fuel
      → size fuel mid h ≡ some (length xs, h)
  unfolding size begin
  size_lem h mid xs fuel ring low =
      rw (size, ◌>>=◌, begin, get_next-live mid h ring.alive, next-first h mid mid xs ring.chain)
        (distance_lem h mid mid xs fuel 0 ring.chain ring.apart low
          ∙ ap (λ n. some (n, h)) (omega arith))
