-- ===== src/LinkedList/Erase.antt =====
-- erase of List.h: a node is unlinked and freed.
use device_xiaomi_dash_twrp.Prelude.{
  ◌≡◌, ◌≢◌, refl, sym, ap, ◌∙◌, true, false, some, [], ◌∷◌, ◌++◌, arith, subst,
}
use device_xiaomi_dash_twrp.LinkedList.{Ptr, Heap, update, erase, ◌>>=◌, ◌>>◌}
use device_xiaomi_dash_twrp.LinkedList.Ring.{
  Nodes, Chain, Avoids, Distinct, IsRing, last, first, prev-last, next-first, last-ne, first-ne,
  live-last, live-first, Chain-append, Avoids-append, Avoids-join, frame,
}
use device_xiaomi_dash_twrp.LinkedList.Access.{
  get_next-live, get_prev-live, set_next-live, set_prev-live, delete_node-live,
}
use device_xiaomi_dash_twrp.LinkedList.Insert.{Distinct-back, front-Avoids}

module _ {T : Type 0} where
  -- The heap without the node `a`, which stood between `l` and `f`.
  abbrev unlinked : Heap T → (a l f : Ptr) → Heap T
  unlinked h a l f = record {
    next = update h.next l f;
    prev = update h.prev f l;
    value = h.value;
    live = update h.live a false;
  }

  erase_run :
      (h : Heap T) (a : Ptr)
      → h.live a ≡ true
      → h.live (h.prev a) ≡ true
      → h.live (h.next a) ≡ true
      → erase a h ≡ some (h.next a, unlinked h a (h.prev a) (h.next a))
  unfolding erase
  erase_run h a la ll lf =
      let h1 = record h { next = update h.next (h.prev a) (h.next a) } in
      let h2 = record h1 { prev = update h.prev (h.next a) (h.prev a) } in
      rw (
        erase,
        ◌>>=◌,
        ◌>>◌,
        get_next-live a h la,
        get_prev-live a h la,
        set_next-live (h.prev a) h ll (h.next a),
        set_prev-live (h.next a) h1 lf (h.prev a),
        delete_node-live a h2 la,
      )

  unlinked_chain :
      (h : Heap T) (a l f p q : Ptr) (xs ys : Nodes T)
      → Chain h p xs a
      → Chain h a ys q
      → l ≡ last p xs
      → f ≡ first ys q
      → Avoids p (xs ++ ys)
      → Avoids q (xs ++ ys)
      → Avoids a (xs ++ ys)
      → p ≢ a
      → q ≢ a
      → Distinct (xs ++ ys)
      → Chain (unlinked h a l f) p (xs ++ ys) q
  unlinked_chain h a l f p q [] [] front back el ef px qx ax pa qa d = ground arith
  unlinked_chain h a l f p q [] ((b, w) ∷ ys) front back el ef px qx ax pa qa d = (
    ground arith,
    ground arith,
    back.2,
    ground arith,
    frame h (unlinked h a l f) l f a b q ys (λ c cl cn. ground arith) (λ c cf cn. ground arith)
        (λ c cn. (refl, ground arith)) (λ e. px.0 (sym (e ∙ el)))
        (subst (λ k. Avoids k ys) (sym el) px.1) (λ e. qx.0 (e ∙ ef))
        (subst (λ k. Avoids k ys) (sym ef) d.0) (λ e. ax.0 (sym e)) qa ax.1 back.4,
  )
  unlinked_chain h a l f p q ((c, u) ∷ xs) ys front back el ef px qx ax pa qa d =
      let (cx, cy) = Avoids-append c xs ys d.0 in
      let (pxs, pys) = Avoids-append p xs ys px.1 in
      let not_l : p ≢ l = λ e. last-ne p c xs px.0 pxs (e ∙ el) in
      let not_f : c ≢ f = λ e. first-ne c q ys (λ s. qx.0 (sym s)) cy (e ∙ ef) in
      let not_a : c ≢ a = λ e. ax.0 (sym e) in
      (
        ground arith,
        ground arith,
        front.2,
        ground arith,
        unlinked_chain h a l f c q xs ys front.4 back el ef d.0 qx.1 ax.1 not_a qa d.1,
      )

  drop_node :
      (p a : Ptr) (v : T) (xs ys : Nodes T) → Avoids p (xs ++ (a, v) ∷ ys) → Avoids p (xs ++ ys)
  drop_node p a v xs ys out =
      let (l, r) = Avoids-append p xs ((a, v) ∷ ys) out in Avoids-join p xs ys l r.1

  Distinct-drop :
      (a : Ptr) (v : T) (xs ys : Nodes T) → Distinct (xs ++ (a, v) ∷ ys) → Distinct (xs ++ ys)
  Distinct-drop a v [] ys d = d.1
  Distinct-drop a v ((b, w) ∷ xs) ys d = (drop_node b a v xs ys d.0, Distinct-drop a v xs ys d.1)

  -- Erasing a node of the list: no fault, the result is the node behind it (the middle one at the
  -- end), the node is freed, and the list holds the other values and is a ring as before.
  pub erase_lem :
      (h : Heap T) (mid a : Ptr) (v : T) (xs ys : Nodes T)
      → IsRing h mid (xs ++ (a, v) ∷ ys)
      → (g : Heap T) × (erase a h ≡ some (first ys mid, g))
        × IsRing g mid (xs ++ ys)
        × (g.live a ≡ false)
  erase_lem h mid a v xs ys ring =
      let (front, val, alive, back) = Chain-append h mid mid a v xs ys ring.chain in
      let (mx, my) = Avoids-append mid xs ((a, v) ∷ ys) ring.apart in
      let el = prev-last h mid a xs front in
      let ef = next-first h a mid ys back in
      let tail = Distinct-back xs ((a, v) ∷ ys) ring.distinct in
      let ax = Avoids-join a xs ys (front-Avoids a v xs ys ring.distinct) tail.0 in
      let apart = drop_node mid a v xs ys ring.apart in
      let distinct = Distinct-drop a v xs ys ring.distinct in
      let ll = subst (λ l. h.live l ≡ true) (sym el) (live-last h mid a xs ring.alive front) in
      let lf = subst (λ l. h.live l ≡ true) (sym ef) (live-first h a mid ys ring.alive back) in
      (
        unlinked h a (h.prev a) (h.next a),
        erase_run h a alive ll lf ∙ ap (λ f. some (f, unlinked h a (h.prev a) (h.next a))) ef,
        record {
          chain =
              unlinked_chain h a (h.prev a) (h.next a) mid mid xs ys front back el ef apart apart ax
                my.0 my.0 distinct;
          apart = apart;
          distinct = distinct;
          alive = ground (arith, ring.alive, my.0);
        },
        ground arith,
      )
