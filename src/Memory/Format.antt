-- ===== src/Memory/Format.antt =====
-- Writers and readers against the byte strings that they stand for.
use native.Mathlib.Nat.{add_assoc}
use device_xiaomi_dash_twrp.Prelude.{
  ℕ, ◌+◌, ◌≤◌, ◌<◌, ◌≡◌, refl, ◌∙◌, ◌⊎◌, List, ◌++◌, length, length-append, arith,
}
use device_xiaomi_dash_twrp.Memory.{
  Mem, write_bytes, Holds, Put, ◌>>◌, Result, success, failure, Get, ◌&&>◌, into, pointer_mod,
}
use device_xiaomi_dash_twrp.Memory.Laws.{write_bytes-append, Holds-write_bytes, Holds-append}

-- With room for them the writer emits exactly `bs` and returns the address behind them.
pub record Writes (put : Put) (bs : List ℕ) : Type 0 where
  pub emits :
      (m : Mem) (p end : ℕ)
      → p + length bs ≤ end
      → end < pointer_mod
      → put m p end ≡ (write_bytes m p bs, p + length bs)

-- Where `bs` stands in the buffer the reader takes them all, and applies `f` to the object.
pub record Reads {ℓ} {A : Type ℓ} (get : Get A) (bs : List ℕ) (f : A → A) : Type ℓ where
  pub accepts :
      (m : Mem) (p end : ℕ) (a : A)
      → Holds m p bs
      → p + length bs ≤ end
      → end < pointer_mod
      → get m p end a ≡ success (p + length bs) (f a)

-- The same, where the buffer goes on behind `bs`.
pub record ReadsInside {ℓ} {A : Type ℓ} (get : Get A) (bs : List ℕ) (f : A → A) : Type ℓ where
  pub accepts :
      (m : Mem) (p end : ℕ) (a : A)
      → Holds m p bs
      → p + length bs < end
      → end < pointer_mod
      → get m p end a ≡ success (p + length bs) (f a)

-- The writer returns a pointer into the buffer or to its end, and changes no byte outside it.
pub record InBounds (put : Put) : Type 0 where
  pub stays : (m : Mem) (p end : ℕ) → p ≤ end → (p ≤ (put m p end).1) × ((put m p end).1 ≤ end)
  pub spares :
      (m : Mem) (p end : ℕ) → p ≤ end → (a : ℕ) → (a < p) ⊎ (end ≤ a) → (put m p end).0 a ≡ m a

-- A read that says `true` has stayed between `p` and `end`.
abbrev pub Within {ℓ} : {A : Type ℓ} → ℕ → ℕ → Result A → Type 0
Within p end (success q a) = (p ≤ q) × (q ≤ end)
Within p end (failure q a) = Unit {0}

pub record Guarded {ℓ} {A : Type ℓ} (get : Get A) : Type ℓ where
  pub guards : (m : Mem) (p end : ℕ) (a : A) → p ≤ end → Within p end (get m p end a)

widen {ℓ} : {B : Type ℓ} (p q end : ℕ) (r : Result B) → p ≤ q → Within q end r → Within p end r
widen p q end (success q' b) le v = omega arith
widen p q end (failure q' b) le v = tt

module _ {ℓ κ} {A : Type ℓ} {B : Type κ} where
  -- What follows a read goes on from where that stopped.
  pub bind-Within :
      (next : ℕ → A → Result B) (stop : A → B) (p end : ℕ) (r : Result A)
      → Within p end r
      → ((q : ℕ) (a : A) → q ≤ end → Within q end (next q a))
      → Within p end
          (elim r as (λ _. Result B) [ success q a ↦ next q a | failure q a ↦ failure q (stop a) ])
  bind-Within next stop p end (success q a) w k = widen p q end (next q a) w.0 (k q a w.1)
  bind-Within next stop p end (failure q a) w k = tt

pub Writes->> :
    {f g : Put} {xs ys : List ℕ} → Writes f xs → Writes g ys → Writes (f >> g) (xs ++ ys)
Writes->> {xs} {ys} wf wg = record {
  emits = λ m p end room top.
      let len = length-append xs ys in
      let first = wf.emits m p end (omega arith) top in
      let second = wg.emits (write_bytes m p xs) (p + length xs) end (omega arith) top in
      rw (first, second, len, write_bytes-append, add_assoc);
}

pub InBounds->> : {f g : Put} → InBounds f → InBounds g → InBounds (f >> g)
InBounds->> {f} {g} bf bg = record {
  stays = λ m p end le.
      let first = bf.stays m p end le in
      let second = bg.stays (f m p end).0 (f m p end).1 end first.1 in (omega arith, second.1);
  spares = λ m p end le a out.
      let first = bf.stays m p end le in
      bg.spares (f m p end).0 (f m p end).1 end first.1 a (omega arith)
      ∙ bf.spares m p end le a out;
}

module _ {ℓ} {A : Type ℓ} where
  pub Reads-&&> :
      {f g : Get A} {h k : A → A} {xs ys : List ℕ}
      → Reads f xs h
      → Reads g ys k
      → Reads (f &&> g) (xs ++ ys) (λ a. k (h a))
  Reads-&&> {h} {xs} {ys} rf rg = record {
    accepts = λ m p end a holds room top.
        let len = length-append xs ys in
        let (front, back) = Holds-append m p xs ys holds in
        let first = rf.accepts m p end a front (omega arith) top in
        let second = rg.accepts m (p + length xs) end (h a) back (omega arith) top in
        rw (first, ◌&&>◌, second, len, add_assoc);
  }

  -- A reader that needs more behind it has it in front of another.
  pub ReadsInside-&&> :
      {f g : Get A} {h k : A → A} {xs ys : List ℕ}
      → ReadsInside f xs h
      → Reads g ys k
      → 0 < length ys
      → Reads (f &&> g) (xs ++ ys) (λ a. k (h a))
  ReadsInside-&&> {h} {xs} {ys} rf rg more = record {
    accepts = λ m p end a holds room top.
        let len = length-append xs ys in
        let (front, back) = Holds-append m p xs ys holds in
        let first = rf.accepts m p end a front (omega arith) top in
        let second = rg.accepts m (p + length xs) end (h a) back (omega arith) top in
        rw (first, ◌&&>◌, second, len, add_assoc);
  }

  pub Guarded-&&> : {f g : Get A} → Guarded f → Guarded g → Guarded (f &&> g)
  Guarded-&&> {f} {g} gf gg = record {
    guards = λ m p end a le.
        bind-Within (λ q b. g m q end b) (λ b. b) p end (f m p end a) (gf.guards m p end a le)
          λ q b lt. gg.guards m q end b lt;
  }

module _ {ℓ κ} {A : Type ℓ} {B : Type κ} where
  pub Reads-into :
      (member : A → B) (update : A → B → A) {get : Get B} {h : B → B} {xs : List ℕ}
      → Reads get xs h
      → Reads (into member update get) xs (λ a. update a (h (member a)))
  Reads-into member update r = record {
    accepts = λ m p end a holds room top. rw (r.accepts m p end (member a) holds room top, into);
  }

  pub ReadsInside-into :
      (member : A → B) (update : A → B → A) {get : Get B} {h : B → B} {xs : List ℕ}
      → ReadsInside get xs h
      → ReadsInside (into member update get) xs (λ a. update a (h (member a)))
  ReadsInside-into member update r = record {
    accepts = λ m p end a holds room top. rw (r.accepts m p end (member a) holds room top, into);
  }

  pub Guarded-into :
      (member : A → B) (update : A → B → A) {get : Get B}
      → Guarded get
      → Guarded (into member update get)
  Guarded-into member update {get} g = record {
    guards = λ m p end a le.
        bind-Within (λ q b. success q (update a b)) (update a) p end (get m p end (member a))
          (g.guards m p end (member a) le) λ q b lt. (omega arith, lt);
  }

-- What is written is what is read back.
pub read_back {ℓ} :
    {A : Type ℓ} {put : Put} {get : Get A} {f : A → A} {bs : List ℕ}
    → Writes put bs
    → Reads get bs f
    → (m : Mem) (p end : ℕ) (a : A) → p + length bs ≤ end
    → end < pointer_mod
    → (get (put m p end).0 p end a ≡ success (p + length bs) (f a))
      × ((put m p end).1 ≡ p + length bs)
read_back {bs} w r m p end a room top =
    rw (w.emits m p end room top)
      (r.accepts (write_bytes m p bs) p end a (Holds-write_bytes m p bs) room top, refl)

-- A writer and a reader of one representation, at an object that has it.
pub record Format {ℓ} {A : Type ℓ} (put : Put) (get : Get A) (bs : List ℕ) (f : A → A)
    : Type ℓ where
  pub emits : Writes put bs
  pub accepts : Reads get bs f

pub record FormatInside {ℓ} {A : Type ℓ} (put : Put) (get : Get A) (bs : List ℕ) (f : A → A)
    : Type ℓ where
  pub emits : Writes put bs
  pub accepts : ReadsInside get bs f

-- A writer and a reader that keep to the buffer, at every object and every input.
pub record Confined {ℓ} {A : Type ℓ} (put : Put) (get : Get A) : Type ℓ where
  pub stays : InBounds put
  pub guarded : Guarded get

module _ {ℓ} {A : Type ℓ} where
  infixr 5 ◌&f◌ ◌&c◌
  pub ◌&f◌ :
      {put put' : Put} {get get' : Get A} {f g : A → A} {xs ys : List ℕ}
      → Format put get xs f
      → Format put' get' ys g
      → Format (put >> put') (get &&> get') (xs ++ ys) (λ a. g (f a))
  p &f q = record { emits = Writes->> p.emits q.emits; accepts = Reads-&&> p.accepts q.accepts }

  pub before :
      {put put' : Put} {get get' : Get A} {f g : A → A} {xs ys : List ℕ}
      → FormatInside put get xs f
      → Format put' get' ys g
      → 0 < length ys
      → Format (put >> put') (get &&> get') (xs ++ ys) (λ a. g (f a))
  before p q more = record {
    emits = Writes->> p.emits q.emits;
    accepts = ReadsInside-&&> p.accepts q.accepts more;
  }

  pub ◌&c◌ :
      {put put' : Put} {get get' : Get A}
      → Confined put get
      → Confined put' get'
      → Confined (put >> put') (get &&> get')
  p &c q = record { stays = InBounds->> p.stays q.stays; guarded = Guarded-&&> p.guarded q.guarded }

module _ {ℓ κ} {A : Type ℓ} {B : Type κ} (member : A → B) (update : A → B → A) where
  pub Format-into :
      {put : Put} {get : Get B} {f : B → B} {xs : List ℕ}
      → Format put get xs f
      → Format put (into member update get) xs (λ a. update a (f (member a)))
  Format-into p = record { emits = p.emits; accepts = Reads-into member update p.accepts }

  pub FormatInside-into :
      {put : Put} {get : Get B} {f : B → B} {xs : List ℕ}
      → FormatInside put get xs f
      → FormatInside put (into member update get) xs (λ a. update a (f (member a)))
  FormatInside-into p = record {
    emits = p.emits;
    accepts = ReadsInside-into member update p.accepts;
  }

  pub Confined-into :
      {put : Put} {get : Get B} → Confined put get → Confined put (into member update get)
  Confined-into p = record { stays = p.stays; guarded = Guarded-into member update p.guarded }
