-- ===== src/LinkedList/Assign.antt =====
-- operator=(const List<T>& right) of List.h, and the insertion of a range.
use device_xiaomi_dash_twrp.Prelude.{
  ℕ, zero, suc, Option, none, some, List, [], ◌∷◌, ◌==◌, if◌then◌else◌,
}
use device_xiaomi_dash_twrp.LinkedList.{
  Ptr, Heap, Cmd, pure, ◌>>=◌, ◌>>◌, get_next, begin, insert, erase_range, prep, get_value,
  set_value,
}

module _ {T : Type 0} where
  -- void insert(iterator posn, const_iterator first, const_iterator last). Each round takes the next
  -- address that the allocator gives.
  unfoldable pub insert_range : List Ptr → Ptr → Ptr → Ptr → Cmd T (Unit {0})
  unfolding insert get_next get_value
  insert_range [] posn first last h = if first == last then some (tt, h) else none
  insert_range (fresh ∷ more) posn first last h =
      let round : Option (Unit {0} × Heap T) =
        (do
          v ← get_value first
          made ← insert (some fresh) posn v
          step ← get_next first
          insert_range more posn step last)
          h in
      if first == last then some (tt, h) else round

  -- The loop of operator=: the iterators into the target and the source where it stops.
  pub assign_loop : ℕ → (dst last_dst src last_src : Ptr) → Cmd T (Ptr × Ptr)
  unfolding get_next get_value set_value
  assign_loop zero dst last_dst src last_src h = none
  assign_loop (suc fuel) dst last_dst src last_src h =
      let round : Option ((Ptr × Ptr) × Heap T) =
        (do
          v ← get_value src
          set_value dst v
          next_dst ← get_next dst
          next_src ← get_next src
          assign_loop fuel next_dst last_dst next_src last_src)
          h in
      if src == last_src
      then some ((dst, src), h)
      else if dst == last_dst
      then some ((dst, src), h)
      else round

  finish : ℕ → List Ptr → (mid right : Ptr) → Ptr × Ptr → Cmd T (Unit {0})
  unfolding erase_range insert_range
  finish fuel fresh mid right (dst, src) h =
      if src == right
      then (do gone ← erase_range fuel dst mid; pure tt) h
      else insert_range fresh mid src right h

  -- List<T>& operator=(const List<T>& right), of the list with the middle node `mid`.
  pub assign : ℕ → List Ptr → (mid right : Ptr) → Cmd T (Unit {0})
  unfolding begin assign_loop finish
  assign fuel fresh mid right h =
      let copied : Option (Unit {0} × Heap T) =
        (do
          first_dst ← begin mid
          first_src ← begin right
          stopped ← assign_loop fuel first_dst mid first_src right
          finish fuel fresh mid right stopped)
          h in
      if mid == right then some (tt, h) else copied

  -- List(const List<T>& src)
  unfoldable pub copy_construct : List Ptr → (mid src : Ptr) → Cmd T Ptr
  unfolding prep begin insert_range
  copy_construct fresh mid src = do
    made ← prep mid
    posn ← begin mid
    first ← begin src
    insert_range fresh posn first src
    pure made
