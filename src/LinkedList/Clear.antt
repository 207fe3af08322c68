-- ===== src/LinkedList/Clear.antt =====
-- clear of List.h: the loop that frees the nodes, and the reset of the middle one.
use device_xiaomi_dash_twrp.Prelude.{
  ℕ, zero, ◌<◌, arith, beq_refl, beq-ne, suc, ◌≡◌, ◌≢◌, refl, sym, ◌∙◌, true, false, some, [], ◌∷◌,
  length, subst,
}
use device_xiaomi_dash_twrp.LinkedList.{Ptr, Heap, update, clear_loop, clear, ◌>>=◌, ◌>>◌}
use device_xiaomi_dash_twrp.LinkedList.Access.{
  get_next-live, set_next-live, set_prev-live, delete_node-live,
}
use device_xiaomi_dash_twrp.LinkedList.Ring.{Nodes, Chain, Avoids, Distinct, IsRing}

module _ {T : Type 0} where
  -- From `cur` the next pointers lead through allocated nodes to `mid`.
  abbrev Forward : Heap T → Ptr → Nodes T → Ptr → Type 0
  Forward h cur [] mid = cur ≡ mid
  Forward h cur ((a, v) ∷ xs) mid = (cur ≡ a) × (h.live a ≡ true) × Forward h (h.next a) xs mid

  Forward-Chain :
      (h : Heap T) (p q : Ptr) (xs : Nodes T) → Chain h p xs q → Forward h (h.next p) xs q
  Forward-Chain h p q [] c = c.0
  Forward-Chain h p q ((a, v) ∷ xs) c = (c.0, c.3, Forward-Chain h a q xs c.4)

  -- None of the nodes is allocated.
  abbrev pub Freed : Heap T → Nodes T → Type 0
  Freed h [] = Unit {0}
  Freed h ((a, v) ∷ xs) = (h.live a ≡ false) × Freed h xs

  abbrev without : Heap T → Ptr → Heap T
  without h a = record h { live = update h.live a false }

  without_lem : (h : Heap T) (a b : Ptr) → a ≢ b → (without h a).live b ≡ h.live b
  without_lem h a b ne = rw (beq-ne b a (λ e. ne (sym e)))

  Forward-without :
      (h : Heap T) (a cur q : Ptr) (xs : Nodes T)
      → Avoids a xs
      → Forward h cur xs q
      → Forward (without h a) cur xs q
  Forward-without h a cur q [] out f = f
  Forward-without h a cur q ((b, v) ∷ xs) out f =
      (f.0, without_lem h a b out.0 ∙ f.1, Forward-without h a (h.next b) q xs out.1 f.2)

  clear_loop_lem :
      (h : Heap T) (mid cur : Ptr) (xs : Nodes T) (fuel : ℕ)
      → Forward h cur xs mid
      → Avoids mid xs
      → Distinct xs
      → length xs < fuel
      → (g : Heap T) × (clear_loop fuel mid cur h ≡ some (tt, g))
        × ((b : Ptr) → Avoids b xs → g.live b ≡ h.live b)
        × Freed g xs
  unfolding clear_loop
  clear_loop_lem h mid cur [] zero f out d low = absurd (omega arith)
  clear_loop_lem h mid cur [] (suc fuel) f out d low = (h, rw (f, beq_refl mid), (λ b o. refl), tt)
  clear_loop_lem h mid cur ((a, v) ∷ xs) zero f out d low = absurd (omega arith)
  clear_loop_lem h mid cur ((a, v) ∷ xs) (suc fuel) f out d low =
      let (g, run, kept, freed) =
        clear_loop_lem (without h a) mid (h.next a) xs fuel
          (Forward-without h a (h.next a) mid xs d.0 f.2) out.1 d.1 (omega arith) in
      (
        g,
        subst (λ c. clear_loop (suc fuel) mid c h ≡ some (tt, g)) (sym f.0)
            (rw
              (
                beq-ne a mid (λ e. out.0 (sym e)),
                ◌>>=◌,
                ◌>>◌,
                get_next-live a h f.1,
                delete_node-live a h f.1,
              )
              run),
        (λ b o. kept b o.1 ∙ without_lem h a b (λ e. o.0 (sym e))),
        (kept a d.0 ∙ rw (beq_refl a), freed),
      )

  -- Clearing a ring ends, in any number of rounds above that of its values, and without a fault; the
  -- list then is the empty ring, and every node it held is freed.
  pub clear_lem :
      (h : Heap T) (mid : Ptr) (xs : Nodes T) (fuel : ℕ)
      → IsRing h mid xs
      → length xs < fuel
      → (g : Heap T) × (clear fuel mid h ≡ some (tt, g)) × IsRing g mid [] × Freed g xs
  unfolding clear
  clear_lem h mid xs fuel ring low =
      let (g, run, kept, freed) =
        clear_loop_lem h mid (h.next mid) xs fuel (Forward-Chain h mid mid xs ring.chain) ring.apart
          ring.distinct low in
      let alive : g.live mid ≡ true = kept mid ring.apart ∙ ring.alive in
      let h1 = record g { prev = update g.prev mid mid } in
      let h2 = record h1 { next = update h1.next mid mid } in
      (
        h2,
        rw (
          clear,
          ◌>>=◌,
          ◌>>◌,
          get_next-live mid h ring.alive,
          run,
          set_prev-live mid g alive mid,
          set_next-live mid h1 alive mid,
        ),
        record {
          chain = (rw (beq_refl mid), rw (beq_refl mid));
          apart = tt;
          distinct = tt;
          alive = alive;
        },
        freed,
      )
