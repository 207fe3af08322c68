-- ===== src/LinkedList/Copy.antt =====
-- The insertion of a range and the copy constructor of List.h.
use mathlib.Core.List.{append-nil, append_assoc}
use mathlib.Core.Bool.{false≢true as false_ne_true}
use device_xiaomi_dash_twrp.Prelude.{
  beq_refl, beq-ne, ◌≡◌, ◌≢◌, refl, ap, ◌∙◌, sym, subst, true, false, some, List, [], ◌∷◌, ◌++◌,
  length, arith,
}
use device_xiaomi_dash_twrp.LinkedList.{Cmd, Ptr, Heap, update, insert, prep, begin, ◌>>=◌}
use device_xiaomi_dash_twrp.LinkedList.Assign.{insert_range, copy_construct}
use device_xiaomi_dash_twrp.LinkedList.Access.{get_next-live, get_value-live}
use device_xiaomi_dash_twrp.LinkedList.Ring.{
  Nodes, Chain, IsRing, Avoids, first, last, next-first, prev-last, Chain-append, Avoids-append,
}
use device_xiaomi_dash_twrp.LinkedList.Insert.{
  linked, insert_run, insert_lem, fresh-Avoids, live_position,
}

abbrev Without : Ptr → List Ptr → Type 0
Without p [] = Unit {0}
Without p (n ∷ ns) = (p ≢ n) × Without p ns

update_here : {A : Type 0} (f : Ptr → A) (p : Ptr) (v : A) → update f p v p ≡ v
update_here f p v = rw (beq_refl p) refl

module _ {T : Type 0} where
  -- Addresses at which the allocator has n_off node, all different.
  abbrev pub Fresh : Heap T → List Ptr → Type 0
  Fresh h [] = Unit {0}
  Fresh h (n ∷ ns) = (h.live n ≡ false) × Without n ns × Fresh h ns

  -- The values of the nodes, at other addresses.
  abbrev pub copies : List Ptr → Nodes T → Nodes T
  copies [] xs = []
  copies (n ∷ ns) [] = []
  copies (n ∷ ns) ((a, v) ∷ xs) = (n, v) ∷ copies ns xs

  -- An address that is none of the source list.
  abbrev Off : Ptr → Ptr → Nodes T → Type 0
  Off b src all = (b ≢ src) × Avoids b all

  abbrev AllOff : Nodes T → Ptr → Nodes T → Type 0
  AllOff [] src all = Unit {0}
  AllOff ((b, w) ∷ built) src all = Off b src all × AllOff built src all

  last-Off :
      (p src : Ptr) (built all : Nodes T)
      → Off p src all
      → AllOff built src all
      → Off (last p built) src all
  last-Off p src [] all h k = h
  last-Off p src ((b, w) ∷ built) all h k = last-Off b src built all k.0 k.1

  AllOff-append :
      (src n : Ptr) (v : T) (built all : Nodes T)
      → AllOff built src all
      → Off n src all
      → AllOff (built ++ (n, v) ∷ []) src all
  AllOff-append src n v [] all h k = (k, tt)
  AllOff-append src n v ((b, w) ∷ built) all h k = (h.0, AllOff-append src n v built all h.1 k)

  -- Linking a node elsewhere keeps a chain.
  linked_keeps :
      (h : Heap T) (n l q p r : Ptr) (v : T) (xs : Nodes T)
      → (p ≢ n) × (p ≢ l)
      → (r ≢ n) × (r ≢ q)
      → Avoids n xs
      → Avoids l xs
      → Avoids q xs
      → Chain h p xs r
      → Chain (linked h n l q v) p xs r
  linked_keeps h n l q p r v [] ps rs nx lx qx c = ground arith
  linked_keeps h n l q p r v ((a, w) ∷ xs) ps rs nx lx qx c = (
    ground arith,
    ground arith,
    ground arith,
    ground arith,
    linked_keeps h n l q a r v xs ((λ e. nx.0 (sym e)), (λ e. lx.0 (sym e))) rs nx.1 lx.1 qx.1 c.4,
  )

  linked-IsRing :
      (h : Heap T) (n l q src : Ptr) (v : T) (all : Nodes T)
      → Off n src all
      → Off l src all
      → Off q src all
      → IsRing h src all
      → IsRing (linked h n l q v) src all
  linked-IsRing h n l q src v all n_off l_off q_off ring = record {
    chain =
        linked_keeps h n l q src src v all ((λ e. n_off.0 (sym e)), (λ e. l_off.0 (sym e)))
          ((λ e. n_off.0 (sym e)), (λ e. q_off.0 (sym e))) n_off.1 l_off.1 q_off.1 ring.chain;
    apart = ring.apart;
    distinct = ring.distinct;
    alive = ground (arith, ring.alive);
  }

  Fresh-linked :
      (h : Heap T) (n l q : Ptr) (v : T) (ns : List Ptr)
      → Without n ns
      → Fresh h ns
      → Fresh (linked h n l q v) ns
  Fresh-linked h n l q v [] out fresh = tt
  Fresh-linked h n l q v (m ∷ ns) out fresh =
      (ground arith, fresh.1, Fresh-linked h n l q v ns out.1 fresh.2)

  dead-Off :
      (h : Heap T) (n src : Ptr) (all : Nodes T)
      → h.live n ≡ false
      → IsRing h src all
      → Off n src all
  dead-Off h n src all dead ring = (
    (λ e. absurd (false_ne_true (sym dead ∙ ap h.live e ∙ ring.alive))),
    fresh-Avoids h n src src all ring.chain dead,
  )

  -- One round of the loop.
  range_round :
      (h g : Heap T) (n a mid src : Ptr) (v : T) (ns : List Ptr)
      → a ≢ src
      → h.live a ≡ true
      → h.value a ≡ some v
      → insert (some n) mid v h ≡ some (n, g)
      → g.live a ≡ true
      → insert_range (n ∷ ns) mid a src h ≡ insert_range ns mid (g.next a) src g
  unfolding insert_range
  range_round h g n a mid src v ns ne alive val run alive' =
      rw (beq-ne a src ne, ◌>>=◌, get_value-live a h alive v val, run, get_next-live a g alive')
        refl

  pub insert_range_lem :
      (h : Heap T) (mid src : Ptr) (built gone rest all : Nodes T) (fresh : List Ptr)
      → IsRing h mid built
      → IsRing h src all
      → all ≡ gone ++ rest
      → Off mid src all
      → AllOff built src all
      → Fresh h fresh
      → length fresh ≡ length rest
      → (g : Heap T) × (insert_range fresh mid (first rest src) src h ≡ some (tt, g))
        × IsRing g mid (built ++ copies fresh rest)
        × IsRing g src all
  unfolding insert_range
  insert_range_lem h mid src built gone [] all [] ring source e m_off off fresh long =
      (h, rw (beq_refl src) refl, subst (IsRing h mid) (sym (append-nil built)) ring, source)
  insert_range_lem h mid src built gone [] all (n ∷ ns) ring source e m_off off fresh long =
      absurd (omega arith)
  insert_range_lem h mid src built gone ((a, v) ∷ rest) all [] ring source e m_off off fresh long =
      absurd (omega arith)
  insert_range_lem h mid src built gone ((a, v) ∷ rest) all (n ∷ ns) ring source e m_off off
        (dead, out, fresh) long =
      let part = subst (λ l. Chain h src l src) e source.chain in
      let (front, val, alive, back) = Chain-append h src src a v gone rest part in
      let ne : a ≢ src = λ s.
        (Avoids-append src gone ((a, v) ∷ rest) (subst (Avoids src) e source.apart)).1.0 (sym s) in
      let ring' = subst (IsRing h mid) (sym (append-nil built)) ring in
      let (lq, ll) = live_position h mid built [] ring' in
      let l = h.prev mid in
      let g = linked h n l mid v in
      let nm : n ≢ mid = λ s. absurd (false_ne_true (sym dead ∙ ap h.live s ∙ ring.alive)) in
      let run = insert_run h n mid v nm lq ll in
      let n_off = dead-Off h n src all dead source in
      let l_off =
        subst (λ k. Off k src all) (sym (prev-last h mid mid built ring.chain))
          (last-Off mid src built all m_off off) in
      let source' = linked-IsRing h n l mid src v all n_off l_off m_off source in
      let (h', run', bigger) = insert_lem h mid n v built [] ring' dead in
      let results : some (n, h') ≡ some (n, g) = sym run' ∙ run in
      let same : h' ≡ g = cc in
      let (front', val', alive', back') =
        Chain-append g src src a v gone rest (subst (λ l. Chain g src l src) e source'.chain) in
      let (done, ran, held, source_held) =
        insert_range_lem g mid src (built ++ (n, v) ∷ []) (gone ++ (a, v) ∷ []) rest all ns
          (subst (λ k. IsRing k mid (built ++ (n, v) ∷ [])) same bigger) source'
          (e ∙ sym (append_assoc gone ((a, v) ∷ []) rest)) m_off
          (AllOff-append src n v built all off n_off) (Fresh-linked h n l mid v ns out fresh)
          (omega arith) in
      (
        done,
        range_round h g n a mid src v ns ne alive val run alive'
            ∙ ap (λ p. insert_range ns mid p src g) (next-first g a src rest back')
            ∙ ran,
        subst (IsRing done mid) (append_assoc built ((n, v) ∷ []) (copies ns rest)) held,
        source_held,
      )

  -- The heap with a new node in a circle of its own.
  abbrev alone : Heap T → Ptr → Heap T
  alone h mid = record h {
    next = update h.next mid mid;
    prev = update h.prev mid mid;
    live = update h.live mid true;
  }

  alone_keeps :
      (h : Heap T) (mid p r : Ptr) (xs : Nodes T)
      → p ≢ mid
      → r ≢ mid
      → Avoids mid xs
      → Chain h p xs r
      → Chain (alone h mid) p xs r
  alone_keeps h mid p r [] pm rm out c = ground arith
  alone_keeps h mid p r ((a, w) ∷ xs) pm rm out c = (
    ground arith,
    ground arith,
    ground arith,
    ground arith,
    alone_keeps h mid a r xs (λ e. out.0 (sym e)) rm out.1 c.4,
  )

  alone-IsRing :
      (h : Heap T) (mid src : Ptr) (xs : Nodes T)
      → Off mid src xs
      → IsRing h src xs
      → IsRing (alone h mid) src xs
  alone-IsRing h mid src xs off ring = record {
    chain = alone_keeps h mid src src xs (λ e. off.0 (sym e)) (λ e. off.0 (sym e)) off.1 ring.chain;
    apart = ring.apart;
    distinct = ring.distinct;
    alive = ground (arith, ring.alive);
  }

  Fresh-alone :
      (h : Heap T) (mid : Ptr) (ns : List Ptr)
      → Without mid ns
      → Fresh h ns
      → Fresh (alone h mid) ns
  Fresh-alone h mid [] out fresh = tt
  Fresh-alone h mid (m ∷ ns) out fresh = (ground arith, fresh.1, Fresh-alone h mid ns out.1 fresh.2)

  then_run :
      {A B : Type 0} (m : Cmd T A) (f : A → Cmd T B) (h g : Heap T) (a : A)
      → m h ≡ some (a, g)
      → (m >>= f) h ≡ f a g
  then_run m f h g a run = rw (◌>>=◌, run) refl

  -- The copy constructor, with free addresses for its nodes that are all different, gives a list of its
  -- own with the values of the source in their order, and leaves the source as it was.
  pub copy_construct_lem :
      (h : Heap T) (mid src : Ptr) (xs : Nodes T) (fresh : List Ptr)
      → IsRing h src xs
      → Fresh h (mid ∷ fresh)
      → length fresh ≡ length xs
      → (g : Heap T) × (copy_construct fresh mid src h ≡ some (mid, g))
        × IsRing g mid (copies fresh xs)
        × IsRing g src xs
  unfolding copy_construct prep begin
  copy_construct_lem h mid src xs fresh source (dead, out, free) long =
      let g = alone h mid in
      let off = dead-Off h mid src xs dead source in
      let source' = alone-IsRing h mid src xs off source in
      let own : IsRing g mid [] = record {
        chain = (update_here h.next mid mid, update_here h.prev mid mid);
        apart = tt;
        distinct = tt;
        alive = update_here h.live mid true;
      } in
      let (done, ran, held, source_held) =
        insert_range_lem g mid src [] [] xs xs fresh own source' refl off tt
          (Fresh-alone h mid fresh out free) long in
      (
        done,
        then_run (begin mid) _ g g mid
              (get_next-live mid g own.alive ∙ ap (λ p. some (p, g)) own.chain.0)
            ∙ then_run (begin src) _ g g (first xs src) (
                get_next-live src g source'.alive
                ∙ ap (λ p. some (p, g)) (next-first g src src xs source'.chain))
            ∙ then_run (insert_range fresh mid (first xs src) src) _ g done tt ran,
        held,
        source_held,
      )
