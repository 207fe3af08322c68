-- ===== src/LinkedList/Calls.antt =====
-- What a client asks of a List of List.h, and what it sees: as calls on the heap, and on the list of
-- values that the container stands for.
pub mod Values
pub mod Refine
mod Tests
use device_xiaomi_dash_twrp.Prelude.{
  ℕ, zero, suc, ◌+◌, Bool, true, false, Option, none, some, List, [], ◌∷◌, ◌++◌, length, get_elem?,
  if◌then◌else◌,
}
use device_xiaomi_dash_twrp.LinkedList.{
  Ptr, Heap, Cmd, pure, ◌>>=◌, ◌>>◌, get_next, begin, empty, size, insert, erase, clear, push_front,
  push_back, get_value,
}

-- `read i` and the others with an index use the iterator begin() after i increments.
pub data Call (T : Type 0) : Type 0 where
  push_front_call push_back_call : T → Call T
  insert_call : ℕ → T → Call T
  erase_call read : ℕ → Call T
  empty_call size_call clear_call : Call T

pub data Reply (T : Type 0) : Type 0 where
  done : Reply T
  value : T → Reply T
  count : ℕ → Reply T
  answer : Bool → Reply T

module _ {T : Type 0} where
  -- `_Iter& operator++()`, n times
  pub advance : ℕ → Ptr → Cmd T Ptr
  advance zero p = pure p
  advance (suc n) p = do q ← get_next p; advance n q

  -- The iterator at an index.
  pub position : Ptr → ℕ → Cmd T Ptr
  unfolding advance
  position mid i = do first ← begin mid; advance i first

  -- One call; `alloc` gives the address at which `new` puts a node, `fuel` the rounds for a loop.
  pub serve : (Heap T → Ptr) → ℕ → Ptr → Call T → Cmd T (Reply T)
  unfolding position
  serve alloc fuel mid (push_front_call v) h =
      (do new_one ← push_front (some (alloc h)) mid v; pure done) h
  serve alloc fuel mid (push_back_call v) h =
      (do new_one ← push_back (some (alloc h)) mid v; pure done) h
  serve alloc fuel mid (insert_call i v) h =
      (do posn ← position mid i; new_one ← insert (some (alloc h)) posn v; pure done) h
  serve alloc fuel mid (erase_call i) h =
      (do posn ← position mid i; after ← erase posn; pure done) h
  serve alloc fuel mid (read i) h = (do posn ← position mid i; v ← get_value posn; pure (value v)) h
  serve alloc fuel mid empty_call h = (do b ← empty mid; pure (answer b)) h
  serve alloc fuel mid size_call h = (do n ← size fuel mid; pure (count n)) h
  serve alloc fuel mid clear_call h = (clear fuel mid >> pure done) h

  -- The calls in order, with what each returns.
  pub run : (Heap T → Ptr) → ℕ → Ptr → List (Call T) → Cmd T (List (Reply T))
  run alloc fuel mid [] = pure []
  run alloc fuel mid (c ∷ cs) = do
    r ← serve alloc fuel mid c
    rs ← run alloc fuel mid cs
    pure (r ∷ rs)

  -- The values alone. An index that is out of range is no call that a client may make, `none`.
  pub insert_at : ℕ → T → List T → Option (List T)
  insert_at zero v l = some (v ∷ l)
  insert_at (suc i) v [] = none
  insert_at (suc i) v (w ∷ l) = elim (insert_at i v l) [ none ↦ none | some l' ↦ some (w ∷ l') ]

  pub erase_at : ℕ → List T → Option (List T)
  erase_at i [] = none
  erase_at zero (w ∷ l) = some l
  erase_at (suc i) (w ∷ l) = elim (erase_at i l) [ none ↦ none | some l' ↦ some (w ∷ l') ]

  abbrev pub replying : Reply T → Option (List T) → Option (Reply T × List T)
  replying r none = none
  replying r (some l) = some (r, l)

  abbrev pub reading : Option T → List T → Option (Reply T × List T)
  reading none l = none
  reading (some v) l = some (value v, l)

  abbrev pub is_nil : List T → Bool
  is_nil [] = true
  is_nil (w ∷ l) = false

  pub serve_values : Call T → List T → Option (Reply T × List T)
  unfolding insert_at erase_at
  serve_values (push_front_call v) l = some (done, v ∷ l)
  serve_values (push_back_call v) l = some (done, l ++ (v ∷ []))
  serve_values (insert_call i v) l = replying done (insert_at i v l)
  serve_values (erase_call i) l = replying done (erase_at i l)
  serve_values (read i) l = reading (get_elem? l i) l
  serve_values empty_call l = some (answer (is_nil l), l)
  serve_values size_call l = some (count (length l), l)
  serve_values clear_call l = some (done, [])

  pub run_values : List (Call T) → List T → Option (List (Reply T) × List T)
  run_values [] l = some ([], l)
  run_values (c ∷ cs) l = elim (serve_values c l) [
    | none ↦ none
    | some (r, l') ↦ elim (run_values cs l') [ none ↦ none | some (rs, l'') ↦ some (r ∷ rs, l'') ]
  ]
