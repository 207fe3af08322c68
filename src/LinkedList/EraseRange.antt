-- ===== src/LinkedList/EraseRange.antt =====
-- erase of a range, in List.h: from a position up to the end of the list.
use mathlib.Core.List.{append-nil}
use device_xiaomi_dash_twrp.Prelude.{
  beq_refl, beq-ne, ℕ, suc, ◌≡◌, ◌≢◌, ap, ◌∙◌, sym, subst, true, some, [], ◌∷◌, ◌++◌, length,
}
use device_xiaomi_dash_twrp.LinkedList.{Ptr, Heap, erase, erase_range, ◌>>=◌}
use device_xiaomi_dash_twrp.LinkedList.Access.{get_next-live}
use device_xiaomi_dash_twrp.LinkedList.Ring.{
  Nodes, IsRing, first, next-first, Chain-append, Avoids-append,
}
use device_xiaomi_dash_twrp.LinkedList.Erase.{erase_lem}

module _ {T : Type 0} where
  erase_round :
      (h g : Heap T) (a b end : Ptr) (fuel : ℕ)
      → a ≢ end
      → h.live a ≡ true
      → erase a h ≡ some (b, g)
      → erase_range (suc fuel) a end h ≡ erase_range fuel (h.next a) end g
  unfolding erase_range
  erase_round h g a b end fuel ne alive run =
      rw (beq-ne a end ne, ◌>>=◌, get_next-live a h alive, run)

  -- Erasing from any position of a ring to its end ends, in as many rounds as there are values from
  -- there on and one more, and without a fault; the result is the end, and the list is the ring of
  -- the values before the position.
  pub erase_range_lem :
      (h : Heap T) (mid : Ptr) (xs ys : Nodes T)
      → IsRing h mid (xs ++ ys)
      → (g : Heap T) × (erase_range (suc (length ys)) (first ys mid) mid h ≡ some (mid, g))
        × IsRing g mid xs
  unfolding erase_range
  erase_range_lem h mid xs [] ring =
      (h, rw (beq_refl mid), subst (λ l. IsRing h mid l) (append-nil xs) ring)
  erase_range_lem h mid xs ((a, v) ∷ ys) ring =
      let (front, val, alive, back) = Chain-append h mid mid a v xs ys ring.chain in
      let (mx, my) = Avoids-append mid xs ((a, v) ∷ ys) ring.apart in
      let (h', run, smaller, dead) = erase_lem h mid a v xs ys ring in
      let (g, rest, done) = erase_range_lem h' mid xs ys smaller in
      let ne : a ≢ mid = λ e. my.0 (sym e) in
      (
        g,
        erase_round h h' a (first ys mid) mid (suc (length ys)) ne alive run
            ∙ ap (λ p. erase_range (suc (length ys)) p mid h') (next-first h a mid ys back)
            ∙ rest,
        done,
      )
