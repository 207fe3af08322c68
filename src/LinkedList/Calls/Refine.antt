-- ===== src/LinkedList/Calls/Refine.antt =====
-- The container of List.h against the list of its values, for every sequence of calls.
use mathlib.Core.List.{append-nil, map-append}
use mathlib.Core.Option.{some-injective}
use device_xiaomi_dash_twrp.Prelude.{
  false, ℕ, ◌+◌, ◌<◌, ◌≤◌, ◌≡◌, refl, sym, ap, subst, ◌∙◌, inl, inr, some, List, [], ◌∷◌, ◌++◌,
  length, length-append, get_elem?, arith, Option-cases, beq_refl, beq-ne,
}
use device_xiaomi_dash_twrp.LinkedList.{
  Ptr, Heap, begin, empty, insert, erase, get_value, push_front, push_back, ◌>>=◌, ◌>>◌,
}
use device_xiaomi_dash_twrp.LinkedList.Access.{get_next-live, get_value-live}
use device_xiaomi_dash_twrp.LinkedList.Ring.{Nodes, Chain, IsRing, first, next-first, Chain-append}
use device_xiaomi_dash_twrp.LinkedList.Insert.{insert_lem}
use device_xiaomi_dash_twrp.LinkedList.Erase.{erase_lem}
use device_xiaomi_dash_twrp.LinkedList.Size.{size_lem}
use device_xiaomi_dash_twrp.LinkedList.Clear.{clear_lem}
use device_xiaomi_dash_twrp.LinkedList.Calls.{
  Call, push_front_call, push_back_call, insert_call, erase_call, read, empty_call, size_call,
  clear_call, Reply, done, advance, position, serve, run, insert_at, erase_at, serve_values,
  run_values, is_nil,
}
use device_xiaomi_dash_twrp.LinkedList.Calls.Values.{
  values, length-values, insert_split, erase_split, read_split, length-insert_at, length-erase_at,
  replying_inv, reading_inv,
}

module _ {T : Type 0} where
  -- The container with the middle node `mid` holds the values `l`.
  pub record Represents (h : Heap T) (mid : Ptr) (l : List T) : Type 0 where
    pub nodes : Nodes T
    pub ring : IsRing h mid nodes
    pub same : values nodes ≡ l

  begin_lem :
      (h : Heap T) (mid : Ptr) (xs : Nodes T)
      → IsRing h mid xs
      → begin mid h ≡ some (first xs mid, h)
  unfolding begin
  begin_lem h mid xs ring = rw (get_next-live mid h ring.alive, next-first h mid mid xs ring.chain)

  advance_lem :
      (h : Heap T) (p q : Ptr) (xs ys : Nodes T)
      → Chain h p (xs ++ ys) q
      → advance (length xs) (first (xs ++ ys) q) h ≡ some (first ys q, h)
  unfolding advance
  advance_lem h p q [] ys c = refl
  advance_lem h p q ((a, v) ∷ xs) ys c =
      rw (◌>>=◌, get_next-live a h c.3, next-first h a q (xs ++ ys) c.4)
        (advance_lem h a q xs ys c.4)

  position_lem :
      (h : Heap T) (mid : Ptr) (xs ys : Nodes T)
      → IsRing h mid (xs ++ ys)
      → position mid (length xs) h ≡ some (first ys mid, h)
  unfolding position
  position_lem h mid xs ys ring =
      rw (◌>>=◌, begin_lem h mid (xs ++ ys) ring) (advance_lem h mid mid xs ys ring.chain)

  insert_serves :
      (alloc : Heap T → Ptr) (h : Heap T) (mid : Ptr) (i : ℕ) (v : T) (l l' : List T)
      → h.live (alloc h) ≡ false
      → Represents h mid l
      → insert_at i v l ≡ some l'
      → (g : Heap T) × (n : Ptr) × (posn : Ptr) × (position mid i h ≡ some (posn, h))
        × (insert (some (alloc h)) posn v h ≡ some (n, g))
        × Represents g mid l'
  insert_serves alloc h mid i v l l' fresh r e =
      let (xs, ys, split, len, vals) =
        insert_split i v r.nodes l' (subst (λ k. insert_at i v k ≡ some l') (sym r.same) e) in
      let ring = subst (λ k. IsRing h mid k) split r.ring in
      let (g, run, after) = insert_lem h mid (alloc h) v xs ys ring fresh in
      (
        g,
        alloc h,
        first ys mid,
        subst (λ k. position mid k h ≡ some (first ys mid, h)) (sym len)
            (position_lem h mid xs ys ring),
        run,
        record {
          nodes = xs ++ (alloc h, v) ∷ ys;
          ring = after;
          same = map-append (λ node. node.1) xs ((alloc h, v) ∷ ys) ∙ sym vals;
        },
      )

  erase_serves :
      (h : Heap T) (mid : Ptr) (i : ℕ) (l l' : List T)
      → Represents h mid l
      → erase_at i l ≡ some l'
      → (g : Heap T) × (after : Ptr) × (posn : Ptr) × (position mid i h ≡ some (posn, h))
        × (erase posn h ≡ some (after, g))
        × Represents g mid l'
  erase_serves h mid i l l' r e =
      let (xs, (a, w), ys, split, len, vals) =
        erase_split i r.nodes l' (subst (λ k. erase_at i k ≡ some l') (sym r.same) e) in
      let ring = subst (λ k. IsRing h mid k) split r.ring in
      let (g, run, smaller, dead) = erase_lem h mid a w xs ys ring in
      (
        g,
        first ys mid,
        a,
        subst (λ k. position mid k h ≡ some (a, h)) (sym len)
            (position_lem h mid xs ((a, w) ∷ ys) ring),
        run,
        record {
          nodes = xs ++ ys;
          ring = smaller;
          same = map-append (λ node. node.1) xs ys ∙ sym vals;
        },
      )

  read_serves :
      (h : Heap T) (mid : Ptr) (i : ℕ) (v : T) (l : List T)
      → Represents h mid l
      → get_elem? l i ≡ some v
      → (posn : Ptr) × (position mid i h ≡ some (posn, h)) × (get_value posn h ≡ some (v, h))
  read_serves h mid i v l r e =
      let (xs, a, ys, split, len) =
        read_split i v r.nodes (subst (λ k. get_elem? k i ≡ some v) (sym r.same) e) in
      let ring = subst (λ k. IsRing h mid k) split r.ring in
      let (front, val, alive, back) = Chain-append h mid mid a v xs ys ring.chain in
      (
        a,
        subst (λ k. position mid k h ≡ some (a, h)) (sym len)
            (position_lem h mid xs ((a, v) ∷ ys) ring),
        get_value-live a h alive v val,
      )

  push_front_run :
      (h : Heap T) (mid n : Ptr) (v : T) (xs : Nodes T)
      → IsRing h mid xs
      → push_front (some n) mid v h ≡ insert (some n) (first xs mid) v h
  unfolding push_front
  push_front_run h mid n v xs ring = rw (push_front, ◌>>=◌, begin_lem h mid xs ring)

  push_back_run :
      (h : Heap T) (mid n : Ptr) (v : T) → push_back (some n) mid v h ≡ insert (some n) mid v h
  unfolding push_back
  push_back_run h mid n v = refl

  empty_lem :
      (h : Heap T) (mid : Ptr) (xs : Nodes T)
      → IsRing h mid xs
      → empty mid h ≡ some (is_nil (values xs), h)
  unfolding empty
  empty_lem h mid [] ring = rw (◌>>=◌, get_next-live mid h ring.alive, ring.chain.0, beq_refl mid)
  empty_lem h mid ((a, v) ∷ xs) ring = rw (
    ◌>>=◌,
    get_next-live mid h ring.alive,
    ring.chain.0,
    beq-ne a mid (λ e. ring.apart.0 (sym e)),
  )

  -- A call gives the reply that it gives on the values, and keeps the representation.
  abbrev Served : (Heap T → Ptr) → ℕ → Ptr → Call T → Heap T → List T → Reply T → List T → Type 0
  Served alloc fuel mid c h l r l' =
      (g : Heap T) × (serve alloc fuel mid c h ≡ some (r, g))
      × Represents g mid l'
      × (length l' ≤ length l + 1)

  serve_lem :
      (alloc : Heap T → Ptr) (fuel : ℕ) (h : Heap T) (mid : Ptr) (c : Call T) (l l' : List T)
      (r : Reply T)
      → h.live (alloc h) ≡ false
      → Represents h mid l
      → length l < fuel
      → serve_values c l ≡ some (r, l')
      → Served alloc fuel mid c h l r l'
  unfolding serve serve_values
  serve_lem alloc fuel h mid (insert_call i v) l l' r fresh rep low e =
      let (made, reply) = replying_inv done r (insert_at i v l) l' e in
      let (g, n, posn, pos, run, rep') = insert_serves alloc h mid i v l l' fresh rep made in
      (g, rw (◌>>=◌, pos, run, reply), rep', length-insert_at i v l l' made)
  serve_lem alloc fuel h mid (erase_call i) l l' r fresh rep low e =
      let (made, reply) = replying_inv done r (erase_at i l) l' e in
      let (g, after, posn, pos, run, rep') = erase_serves h mid i l l' rep made in
      (g, rw (◌>>=◌, pos, run, reply), rep', omega (arith, length-erase_at i l l' made))
  serve_lem alloc fuel h mid (read i) l l' r fresh rep low e =
      let (v, found, reply, same) = reading_inv (get_elem? l i) r l l' e in
      let (posn, pos, run) = read_serves h mid i v l rep found in
      (
        h,
        rw (◌>>=◌, pos, run, reply),
        subst (Represents h mid) same rep,
        omega (arith, ap length same),
      )
  serve_lem alloc fuel h mid (push_front_call v) l l' r fresh rep low e =
      let same = some-injective _ _ e in
      let (g, run, after) = insert_lem h mid (alloc h) v [] rep.nodes rep.ring fresh in
      (
        g,
        rw (◌>>=◌, push_front_run h mid (alloc h) v rep.nodes rep.ring, run)
            (ap (λ p. some (p.0, g)) same),
        record {
          nodes = (alloc h, v) ∷ rep.nodes;
          ring = after;
          same = ap (λ k. v ∷ k) rep.same ∙ ap (λ p. p.1) same;
        },
        omega (arith, ap (λ p. length p.1) same),
      )
  serve_lem alloc fuel h mid (push_back_call v) l l' r fresh rep low e =
      let same = some-injective _ _ e in
      let ring = subst (λ k. IsRing h mid k) (sym (append-nil rep.nodes)) rep.ring in
      let (g, run, after) = insert_lem h mid (alloc h) v rep.nodes [] ring fresh in
      (
        g,
        rw (◌>>=◌, push_back_run h mid (alloc h) v, run) (ap (λ p. some (p.0, g)) same),
        record {
          nodes = rep.nodes ++ (alloc h, v) ∷ [];
          ring = after;
          same =
              map-append (λ node. node.1) rep.nodes ((alloc h, v) ∷ [])
              ∙ ap (λ k. k ++ v ∷ []) rep.same
              ∙ ap (λ p. p.1) same;
        },
        omega (arith, ap (λ p. length p.1) same, length-append l (v ∷ [])),
      )
  serve_lem alloc fuel h mid empty_call l l' r fresh rep low e =
      let same = some-injective _ _ e in
      (
        h,
        rw (◌>>=◌, empty_lem h mid rep.nodes rep.ring, rep.same) (ap (λ p. some (p.0, h)) same),
        subst (Represents h mid) (ap (λ p. p.1) same) rep,
        omega (arith, ap (λ p. length p.1) same),
      )
  serve_lem alloc fuel h mid size_call l l' r fresh rep low e =
      let same = some-injective _ _ e in
      let len : length rep.nodes ≡ length l = sym (length-values rep.nodes) ∙ ap length rep.same in
      (
        h,
        rw (◌>>=◌, size_lem h mid rep.nodes fuel rep.ring (omega arith), len)
            (ap (λ p. some (p.0, h)) same),
        subst (Represents h mid) (ap (λ p. p.1) same) rep,
        omega (arith, ap (λ p. length p.1) same),
      )
  serve_lem alloc fuel h mid clear_call l l' r fresh rep low e =
      let same = some-injective _ _ e in
      let len : length rep.nodes ≡ length l = sym (length-values rep.nodes) ∙ ap length rep.same in
      let (g, run, ring, freed) = clear_lem h mid rep.nodes fuel rep.ring (omega arith) in
      (
        g,
        rw (◌>>◌, ◌>>=◌, run) (ap (λ p. some (p.0, g)) same),
        record { nodes = []; ring = ring; same = ap (λ p. p.1) same },
        omega (arith, ap (λ p. length p.1) same),
      )

  -- Before each of the calls the address at which `new` puts a node is free.
  abbrev pub Admissible : (Heap T → Ptr) → ℕ → Ptr → List (Call T) → Heap T → Type 0
  Admissible alloc fuel mid [] h = Unit {0}
  Admissible alloc fuel mid (c ∷ cs) h =
      (h.live (alloc h) ≡ false)
      × ((r : Reply T) (g : Heap T)
          → serve alloc fuel mid c h ≡ some (r, g)
          → Admissible alloc fuel mid cs g)

  -- Any sequence of calls that the list of the values can serve, with every index in range, is served
  -- by the container with the same replies and without a fault, and leaves a container that holds
  -- the values which the list then has. At each call the
  -- address that `new` would give is free; a loop has more
  -- rounds than the list had values and is given calls.
  pub run-values :
      (alloc : Heap T → Ptr) (fuel : ℕ) (mid : Ptr) (cs : List (Call T)) (h : Heap T)
      (l l' : List T) (rs : List (Reply T))
      → Admissible alloc fuel mid cs h
      → Represents h mid l
      → length l + length cs < fuel
      → run_values cs l ≡ some (rs, l')
      → (g : Heap T) × (run alloc fuel mid cs h ≡ some (rs, g)) × Represents g mid l'
  unfolding run run_values
  run-values alloc fuel mid [] h l l' rs fresh rep low e =
      let same = some-injective _ _ e in
      (h, ap (λ p. some (p.0, h)) same, subst (Represents h mid) (ap (λ p. p.1) same) rep)
  run-values alloc fuel mid (c ∷ cs) h l l' rs fresh rep low e =
      elim (Option-cases (serve_values c l)) [
        | inl failed ↦ cc (rw (run_values, failed) at e)
        | inr ((r, l1), one) ↦ elim (Option-cases (run_values cs l1)) [
          | inl failed ↦ cc (rw (run_values, one, failed) at e)
          | inr ((more, l2), rest) ↦
              let same = some-injective _ _ (rw (run_values, one, rest) at e) in
              let (g, served, rep1, grown) =
                serve_lem alloc fuel h mid c l l1 r fresh.0 rep (omega arith) one in
              let (g2, ran, rep2) =
                run-values alloc fuel mid cs g l1 l2 more (fresh.1 r g served) rep1 (omega arith)
                  rest in
              (
                g2,
                rw (◌>>=◌, served, ran) (ap (λ p. some (p.0, g2)) same),
                subst (Represents g2 mid) (ap (λ p. p.1) same) rep2,
              )
        ]
      ]
