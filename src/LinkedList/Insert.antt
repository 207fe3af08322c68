-- ===== src/LinkedList/Insert.antt =====
-- insert, push_front and push_back of List.h: a node is linked in before the given one.
use mathlib.Core.List.{append-nil, append_assoc}
use mathlib.Core.Bool.{false≢true as false_ne_true}
use device_xiaomi_dash_twrp.Prelude.{
  ◌≡◌, ◌≢◌, sym, ap, ◌∙◌, true, false, some, [], ◌∷◌, ◌++◌, arith, subst,
}
use device_xiaomi_dash_twrp.LinkedList.{Ptr, Heap, update, insert}
use device_xiaomi_dash_twrp.LinkedList.Ring.{
  Nodes, Chain, Avoids, Distinct, IsRing, last, first, prev-last, last-ne, live-last, Chain-append,
  join, Avoids-append, frame,
}

module _ {T : Type 0} where
  -- The heap with the node `n` between `l` and `q`.
  abbrev pub linked : Heap T → (n l q : Ptr) → T → Heap T
  linked h n l q v = record {
    next = update (update h.next n q) l n;
    prev = update (update h.prev n l) q n;
    value = update h.value n (some v);
    live = update h.live n true;
  }

  pub insert_run :
      (h : Heap T) (n q : Ptr) (v : T)
      → n ≢ q
      → h.live q ≡ true
      → h.live (h.prev q) ≡ true
      → insert (some n) q v h ≡ some (n, linked h n (h.prev q) q v)
  unfolding insert
  insert_run h n q v ne lq ll = ground arith

  linked_end :
      (h : Heap T) (n l p q : Ptr) (v : T) (xs : Nodes T)
      → Chain h p xs q
      → l ≡ last p xs
      → n ≢ p
      → n ≢ q
      → Avoids n xs
      → Avoids p xs
      → Avoids q xs
      → Distinct xs
      → Chain (linked h n l q v) p (xs ++ (n, v) ∷ []) q
  linked_end h n l p q v [] c e np nq nx px qx d = ground arith
  linked_end h n l p q v ((a, w) ∷ xs) c e np nq nx px qx d =
      let ne : p ≢ l = λ s. last-ne p a xs px.0 px.1 (s ∙ e) in
      (
        ground arith,
        ground arith,
        ground arith,
        ground arith,
        linked_end h n l a q v xs c.4 e nx.0 nq nx.1 d.0 qx.1 d.1,
      )

  pub fresh-Avoids :
      (h : Heap T) (n p q : Ptr) (xs : Nodes T) → Chain h p xs q → h.live n ≡ false → Avoids n xs
  fresh-Avoids h n p q [] c dead = tt
  fresh-Avoids h n p q ((a, w) ∷ xs) c dead = (
    (λ e. absurd (false_ne_true (sym dead ∙ ap h.live e ∙ c.3))),
    fresh-Avoids h n a q xs c.4 dead,
  )

  Avoids-insert :
      (p n : Ptr) (v : T) (xs ys : Nodes T)
      → p ≢ n
      → Avoids p (xs ++ ys)
      → Avoids p (xs ++ (n, v) ∷ ys)
  Avoids-insert p n v [] ys ne out = (ne, out)
  Avoids-insert p n v ((a, w) ∷ xs) ys ne out = (out.0, Avoids-insert p n v xs ys ne out.1)

  Distinct-insert :
      (n : Ptr) (v : T) (xs ys : Nodes T)
      → Avoids n (xs ++ ys)
      → Distinct (xs ++ ys)
      → Distinct (xs ++ (n, v) ∷ ys)
  Distinct-insert n v [] ys out d = (out, d)
  Distinct-insert n v ((a, w) ∷ xs) ys out d =
      (Avoids-insert a n v xs ys (λ e. out.0 (sym e)) d.0, Distinct-insert n v xs ys out.1 d.1)

  last-Avoids :
      (p : Ptr) (xs ys : Nodes T) → Avoids p ys → Distinct (xs ++ ys) → Avoids (last p xs) ys
  last-Avoids p [] ys out d = out
  last-Avoids p ((a, w) ∷ xs) ys out d = last-Avoids a xs ys (Avoids-append a xs ys d.0).1 d.1

  pub Distinct-front : (xs ys : Nodes T) → Distinct (xs ++ ys) → Distinct xs
  Distinct-front [] ys d = tt
  Distinct-front ((a, w) ∷ xs) ys d = ((Avoids-append a xs ys d.0).0, Distinct-front xs ys d.1)

  pub Distinct-back : (xs ys : Nodes T) → Distinct (xs ++ ys) → Distinct ys
  Distinct-back [] ys d = d
  Distinct-back ((a, w) ∷ xs) ys d = Distinct-back xs ys d.1

  pub front-Avoids :
      (a : Ptr) (w : T) (xs ys : Nodes T) → Distinct (xs ++ (a, w) ∷ ys) → Avoids a xs
  front-Avoids a w [] ys d = tt
  front-Avoids a w ((b, u) ∷ xs) ys d =
      ((λ e. (Avoids-append b xs ((a, w) ∷ ys) d.0).1.0 (sym e)), front-Avoids a w xs ys d.1)

  -- The chain with the node put before the first of `ys`, or at the end.
  linked_chain :
      (h : Heap T) (n mid : Ptr) (v : T) (xs ys : Nodes T)
      → IsRing h mid (xs ++ ys)
      → n ≢ mid
      → Avoids n (xs ++ ys)
      → Chain (linked h n (h.prev (first ys mid)) (first ys mid) v) mid (xs ++ (n, v) ∷ ys) mid
  linked_chain h n mid v xs [] ring nm out =
      let chain = subst (λ l. Chain h mid l mid) (append-nil xs) ring.chain in
      let apart = subst (λ l. Avoids mid l) (append-nil xs) ring.apart in
      let distinct = subst (λ l. Distinct l) (append-nil xs) ring.distinct in
      linked_end h n (h.prev mid) mid mid v xs chain (prev-last h mid mid xs chain) nm nm
        (subst (λ l. Avoids n l) (append-nil xs) out) apart apart distinct
  linked_chain h n mid v xs ((a, w) ∷ ys) ring nm out =
      let (front, val, alive, back) = Chain-append h mid mid a w xs ys ring.chain in
      let (nx, ny) = Avoids-append n xs ((a, w) ∷ ys) out in
      let (mx, my) = Avoids-append mid xs ((a, w) ∷ ys) ring.apart in
      let ax = front-Avoids a w xs ys ring.distinct in
      let tail = Distinct-back xs ((a, w) ∷ ys) ring.distinct in
      let e = prev-last h mid a xs front in
      let l_out =
        subst (λ l. Avoids l ((a, w) ∷ ys)) (sym e)
          (last-Avoids mid xs ((a, w) ∷ ys) my ring.distinct) in
      let g = linked h n (h.prev a) a v in
      let new_front =
        linked_end h n (h.prev a) mid a v xs front e nm ny.0 nx mx ax
          (Distinct-front xs ((a, w) ∷ ys) ring.distinct) in
      let new_back =
        frame h g (h.prev a) a n a mid ys (λ b bl bn. ground arith) (λ b br bn. ground arith)
          (λ b bn. (ground arith, ground arith)) (λ s. l_out.0 (sym s)) l_out.1 my.0 tail.0
          (λ s. ny.0 (sym s)) (λ s. nm (sym s)) ny.1 back in
      subst (λ l. Chain g mid l mid) (append_assoc xs ((n, v) ∷ []) ((a, w) ∷ ys))
        (join g mid mid a w (xs ++ (n, v) ∷ []) ys new_front (ground arith) (ground arith) new_back)

  pub live_position :
      (h : Heap T) (mid : Ptr) (xs ys : Nodes T)
      → IsRing h mid (xs ++ ys)
      → (h.live (first ys mid) ≡ true) × (h.live (h.prev (first ys mid)) ≡ true)
  live_position h mid xs [] ring =
      let chain = subst (λ l. Chain h mid l mid) (append-nil xs) ring.chain in
      (
        ring.alive,
        subst (λ l. h.live l ≡ true) (sym (prev-last h mid mid xs chain))
            (live-last h mid mid xs ring.alive chain),
      )
  live_position h mid xs ((a, w) ∷ ys) ring =
      let (front, val, alive, back) = Chain-append h mid mid a w xs ys ring.chain in
      (
        alive,
        subst (λ l. h.live l ≡ true) (sym (prev-last h mid a xs front))
            (live-last h mid a xs ring.alive front),
      )

  pub insert_lem :
      (h : Heap T) (mid n : Ptr) (v : T) (xs ys : Nodes T)
      → IsRing h mid (xs ++ ys)
      → h.live n ≡ false
      → (g : Heap T) × (insert (some n) (first ys mid) v h ≡ some (n, g))
        × IsRing g mid (xs ++ (n, v) ∷ ys)
  insert_lem h mid n v xs ys ring dead =
      let out = fresh-Avoids h n mid mid (xs ++ ys) ring.chain dead in
      let nm : n ≢ mid = λ e. absurd (false_ne_true (sym dead ∙ ap h.live e ∙ ring.alive)) in
      let (lq, ll) = live_position h mid xs ys ring in
      let nq : n ≢ first ys mid = λ e. absurd (false_ne_true (sym dead ∙ ap h.live e ∙ lq)) in
      (
        linked h n (h.prev (first ys mid)) (first ys mid) v,
        insert_run h n (first ys mid) v nq lq ll,
        record {
          chain = linked_chain h n mid v xs ys ring nm out;
          apart = Avoids-insert mid n v xs ys (λ e. nm (sym e)) ring.apart;
          distinct = Distinct-insert n v xs ys out ring.distinct;
          alive = ground (arith, ring.alive);
        },
      )
