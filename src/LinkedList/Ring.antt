-- ===== src/LinkedList/Ring.antt =====
-- The circle of nodes that a list stands for, and what a change elsewhere leaves alone.
use device_xiaomi_dash_twrp.Prelude.{◌≡◌, ◌≢◌, sym, ◌∙◌, true, some, List, [], ◌∷◌, ◌++◌}
use device_xiaomi_dash_twrp.LinkedList.{Ptr, Heap}

-- Address and value of each node, in order.
abbrev pub Nodes : Type 0 → Type 0
Nodes T = List (Ptr × T)

module _ {T : Type 0} where
  -- From `p` the next pointers lead through `xs` to `q`, and the prev pointers back.
  abbrev pub Chain : Heap T → Ptr → Nodes T → Ptr → Type 0
  Chain h p [] q = (h.next p ≡ q) × (h.prev q ≡ p)
  Chain h p ((a, v) ∷ xs) q =
      (h.next p ≡ a) × (h.prev a ≡ p) × (h.value a ≡ some v) × (h.live a ≡ true) × Chain h a xs q

  -- No node of `xs` is at `p`.
  abbrev pub Avoids : Ptr → Nodes T → Type 0
  Avoids p [] = Unit {0}
  Avoids p ((a, v) ∷ xs) = (p ≢ a) × Avoids p xs

  -- The nodes are at different addresses.
  abbrev pub Distinct : Nodes T → Type 0
  Distinct [] = Unit {0}
  Distinct ((a, v) ∷ xs) = Avoids a xs × Distinct xs

  -- The list with middle node `mid` holds `xs`.
  pub record IsRing (h : Heap T) (mid : Ptr) (xs : Nodes T) : Type 0 where
    pub chain : Chain h mid xs mid
    pub apart : Avoids mid xs
    pub distinct : Distinct xs
    pub alive : h.live mid ≡ true

  abbrev pub last : Ptr → Nodes T → Ptr
  last p [] = p
  last p ((a, v) ∷ xs) = last a xs

  abbrev pub first : Nodes T → Ptr → Ptr
  first [] q = q
  first ((a, v) ∷ xs) q = a

  pub prev-last : (h : Heap T) (p q : Ptr) (xs : Nodes T) → Chain h p xs q → h.prev q ≡ last p xs
  prev-last h p q [] c = c.1
  prev-last h p q ((a, v) ∷ xs) c = prev-last h a q xs c.4

  pub next-first : (h : Heap T) (p q : Ptr) (xs : Nodes T) → Chain h p xs q → h.next p ≡ first xs q
  next-first h p q [] c = c.0
  next-first h p q ((a, v) ∷ xs) c = c.0

  pub last-ne : (p a : Ptr) (xs : Nodes T) → p ≢ a → Avoids p xs → p ≢ last a xs
  last-ne p a [] ne out = ne
  last-ne p a ((b, v) ∷ xs) ne out = last-ne p b xs out.0 out.1

  pub first-ne : (p q : Ptr) (xs : Nodes T) → p ≢ q → Avoids p xs → p ≢ first xs q
  first-ne p q [] ne out = ne
  first-ne p q ((b, v) ∷ xs) ne out = out.0

  pub live-last :
      (h : Heap T) (p q : Ptr) (xs : Nodes T)
      → h.live p ≡ true
      → Chain h p xs q
      → h.live (last p xs) ≡ true
  live-last h p q [] l c = l
  live-last h p q ((a, v) ∷ xs) l c = live-last h a q xs c.3 c.4

  pub live-first :
      (h : Heap T) (p q : Ptr) (xs : Nodes T)
      → h.live q ≡ true
      → Chain h p xs q
      → h.live (first xs q) ≡ true
  live-first h p q [] l c = l
  live-first h p q ((a, v) ∷ xs) l c = c.3

  pub Chain-append :
      (h : Heap T) (p q a : Ptr) (v : T) (xs ys : Nodes T)
      → Chain h p (xs ++ (a, v) ∷ ys) q
      → Chain h p xs a × (h.value a ≡ some v) × (h.live a ≡ true) × Chain h a ys q
  Chain-append h p q a v [] ys c = ((c.0, c.1), c.2, c.3, c.4)
  Chain-append h p q a v ((b, w) ∷ xs) ys c =
      let (front, val, alive, back) = Chain-append h b q a v xs ys c.4 in
      ((c.0, c.1, c.2, c.3, front), val, alive, back)

  pub join :
      (h : Heap T) (p q a : Ptr) (v : T) (xs ys : Nodes T)
      → Chain h p xs a
      → h.value a ≡ some v
      → h.live a ≡ true
      → Chain h a ys q
      → Chain h p (xs ++ (a, v) ∷ ys) q
  join h p q a v [] ys front val alive back = (front.0, front.1, val, alive, back)
  join h p q a v ((b, w) ∷ xs) ys front val alive back =
      (front.0, front.1, front.2, front.3, join h b q a v xs ys front.4 val alive back)

  pub Avoids-append : (p : Ptr) (xs ys : Nodes T) → Avoids p (xs ++ ys) → Avoids p xs × Avoids p ys
  Avoids-append p [] ys out = (tt, out)
  Avoids-append p ((a, v) ∷ xs) ys out = let (l, r) = Avoids-append p xs ys out.1 in ((out.0, l), r)

  pub Avoids-join : (p : Ptr) (xs ys : Nodes T) → Avoids p xs → Avoids p ys → Avoids p (xs ++ ys)
  Avoids-join p [] ys l r = r
  Avoids-join p ((a, v) ∷ xs) ys l r = (l.0, Avoids-join p xs ys l.1 r)

  -- A chain from `p` to `q` is left alone by changes of next at `l`, of prev at `r`, and of anything
  -- at the address `n`, if these are not where the chain reads.
  pub frame :
      (h g : Heap T) (l r n p q : Ptr) (xs : Nodes T)
      → ((a : Ptr) → a ≢ l → a ≢ n → g.next a ≡ h.next a)
      → ((a : Ptr) → a ≢ r → a ≢ n → g.prev a ≡ h.prev a)
      → ((a : Ptr) → a ≢ n → (g.value a ≡ h.value a) × (g.live a ≡ h.live a))
      → p ≢ l
      → Avoids l xs
      → q ≢ r
      → Avoids r xs
      → p ≢ n
      → q ≢ n
      → Avoids n xs
      → Chain h p xs q
      → Chain g p xs q
  frame h g l r n p q [] nx pv vl pl al qr ar pn qn an c = (nx p pl pn ∙ c.0, pv q qr qn ∙ c.1)
  frame h g l r n p q ((a, v) ∷ xs) nx pv vl pl al qr ar pn qn an c =
      let al' : a ≢ l = λ e. al.0 (sym e) in
      let ar' : a ≢ r = λ e. ar.0 (sym e) in
      let an' : a ≢ n = λ e. an.0 (sym e) in
      (
        nx p pl pn ∙ c.0,
        pv a ar' an' ∙ c.1,
        (vl a an').0 ∙ c.2,
        (vl a an').1 ∙ c.3,
        frame h g l r n a q xs nx pv vl al' al.1 qr ar.1 an' qn an.1 c.4,
      )
