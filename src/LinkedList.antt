-- ===== src/LinkedList.antt =====
-- prebuilt/a15-aidl/include/keymaster/keymaster/List.h: a doubly linked list. Its nodes form a circle
-- through the node `mpMiddle`, which holds no value. Nodes live in a heap; an access to one that is
-- not allocated is a fault, `none`. A loop on fuel also gives `none` where the fuel runs out.
pub mod Access
pub mod Ring
pub mod Insert
pub mod Erase
pub mod EraseRange
pub mod Copy
pub mod Size
pub mod Clear
pub mod Assign
pub mod Calls
mod Tests
use device_xiaomi_dash_twrp.Prelude.{
  ℕ, zero, suc, ◌+◌, ◌≡◌, Bool, true, false, not, Option, none, some, List, [], ◌∷◌, ◌++◌, ◌==◌,
  if◌then◌else◌,
}

abbrev pub Ptr : Type 0
Ptr = ℕ

-- The members of _Node, each as a function of the node's address.
pub record Heap (T : Type 0) : Type 0 where
  pub next : Ptr → Ptr
  pub prev : Ptr → Ptr
  pub value : Ptr → Option T
  pub live : Ptr → Bool

abbrev pub update {ℓ} : {A : Type ℓ} → (Ptr → A) → Ptr → A → Ptr → A
update f p v q = if q == p then v else f q

-- A computation over the heap.
abbrev pub Cmd : Type 0 → Type 0 → Type 0
Cmd T A = Heap T → Option (A × Heap T)

module _ {T : Type 0} where
  abbrev pub pure : {A : Type 0} → A → Cmd T A
  pure a h = some (a, h)

  infixl 5 ◌>>=◌ ◌>>◌
  abbrev pub ◌>>=◌ : {A B : Type 0} → Cmd T A → (A → Cmd T B) → Cmd T B
  ◌>>=◌ c k h = elim (c h) [ none ↦ none | some (a, h') ↦ k a h' ]

  abbrev pub ◌>>◌ : {B : Type 0} → Cmd T (Unit {0}) → Cmd T B → Cmd T B
  c >> k = c >>= λ _. k

  -- node->getNext(), getPrev(), setNext(ptr), setPrev(ptr)
  pub get_next : Ptr → Cmd T Ptr
  get_next p h = if h.live p then some (h.next p, h) else none

  pub get_prev : Ptr → Cmd T Ptr
  get_prev p h = if h.live p then some (h.prev p, h) else none

  pub set_next : Ptr → Ptr → Cmd T (Unit {0})
  set_next p q h = if h.live p then some (tt, record h { next = update h.next p q }) else none

  pub set_prev : Ptr → Ptr → Cmd T (Unit {0})
  set_prev p q h = if h.live p then some (tt, record h { prev = update h.prev p q }) else none

  -- `*it` as a value; a node that holds none is not a node of a list.
  pub get_value : Ptr → Cmd T T
  get_value p h = elim (h.value p) [ none ↦ none | some v ↦ if h.live p then some (v, h) else none ]

  -- `*it = v`
  pub set_value : Ptr → T → Cmd T (Unit {0})
  set_value p v h =
      if h.live p then some (tt, record h { value = update h.value p (some v) }) else none

  -- `new (std::nothrow) _Node(val)` at the address that the allocator chose. The code does not test
  -- for null: with no memory the first access faults.
  pub new_node : Option Ptr → T → Cmd T Ptr
  new_node none v h = none
  new_node (some p) v h =
      some (p, record h { value = update h.value p (some v); live = update h.live p true })

  pub delete_node : Ptr → Cmd T (Unit {0})
  delete_node p h = if h.live p then some (tt, record h { live = update h.live p false }) else none

  -- void prep(), at the address of the new middle node
  pub prep : Ptr → Cmd T Ptr
  prep mid h = some (
    mid,
    record h {
      next = update h.next mid mid;
      prev = update h.prev mid mid;
      live = update h.live mid true;
    },
  )

  -- inline bool empty() const
  pub empty : Ptr → Cmd T Bool
  unfolding get_next
  empty mid = do first ← get_next mid; pure (first == mid)

  -- iterator begin(); end() is `mid` itself.
  pub begin : Ptr → Cmd T Ptr
  unfolding get_next
  begin mid = get_next mid

  -- iterator insert(iterator posn, const T& val)
  pub insert : Option Ptr → Ptr → T → Cmd T Ptr
  unfolding new_node set_next set_prev get_prev
  insert fresh posn v = do
    new_one ← new_node fresh v
    set_next new_one posn
    before ← get_prev posn
    set_prev new_one before
    left ← get_prev posn
    set_next left new_one
    set_prev posn new_one
    pure new_one

  -- void push_front(const T& val), void push_back(const T& val)
  pub push_front : Option Ptr → Ptr → T → Cmd T Ptr
  unfolding insert begin
  push_front fresh mid v = do first ← begin mid; insert fresh first v

  pub push_back : Option Ptr → Ptr → T → Cmd T Ptr
  unfolding insert
  push_back fresh mid v = insert fresh mid v

  -- iterator erase(iterator posn)
  pub erase : Ptr → Cmd T Ptr
  unfolding get_next get_prev set_next set_prev delete_node
  erase posn = do
    after ← get_next posn
    before ← get_prev posn
    set_next before after
    set_prev after before
    delete_node posn
    pure after

  -- iterator erase(iterator first, iterator last): `erase(first++)` until `first` is `last`.
  pub erase_range : ℕ → Ptr → Ptr → Cmd T Ptr
  erase_range zero first last h = none
  erase_range (suc fuel) first last h =
      let round : Option (Ptr × Heap T) =
        (do step ← get_next first; gone ← erase first; erase_range fuel step last) h in
      if first == last then some (last, h) else round

  -- The loop of clear().
  pub clear_loop : ℕ → Ptr → Ptr → Cmd T (Unit {0})
  unfolding get_next delete_node
  clear_loop zero mid cur h = none
  clear_loop (suc fuel) mid cur h =
      let round : Option (Unit {0} × Heap T) =
        (do step ← get_next cur; delete_node cur; clear_loop fuel mid step) h in
      if cur == mid then some (tt, h) else round

  pub clear : ℕ → Ptr → Cmd T (Unit {0})
  unfolding clear_loop get_next set_prev set_next
  clear fuel mid = do
    first ← get_next mid
    clear_loop fuel mid first
    set_prev mid mid
    set_next mid mid

  -- ptrdiff_t distance(first, last) const: the loop, with the count so far.
  pub distance_loop : ℕ → Ptr → Ptr → ℕ → Cmd T ℕ
  unfolding get_next
  distance_loop zero first last count h = none
  distance_loop (suc fuel) first last count h =
      let round : Option (ℕ × Heap T) =
        (do step ← get_next first; distance_loop fuel step last (count + 1)) h in
      if first == last then some (count, h) else round

  -- size_t size() const
  pub size : ℕ → Ptr → Cmd T ℕ
  unfolding distance_loop begin
  size fuel mid = do first ← begin mid; distance_loop fuel first mid 0
