-- ===== src/LinkedList/Access.antt =====
-- The accessors of _Node in List.h at a node that is allocated.
use device_xiaomi_dash_twrp.Prelude.{◌≡◌, true, false, some}
use device_xiaomi_dash_twrp.LinkedList.{
  Ptr, Heap, update, get_next, get_prev, set_next, set_prev, delete_node, get_value,
}

module _ {T : Type 0} (p : Ptr) (h : Heap T) (alive : h.live p ≡ true) where
  pub get_next-live : get_next p h ≡ some (h.next p, h)
  unfolding get_next
  get_next-live = rw alive

  pub get_prev-live : get_prev p h ≡ some (h.prev p, h)
  unfolding get_prev
  get_prev-live = rw alive

  pub set_next-live : (q : Ptr) → set_next p q h ≡ some (tt, record h { next = update h.next p q })
  unfolding set_next
  set_next-live q = rw alive

  pub set_prev-live : (q : Ptr) → set_prev p q h ≡ some (tt, record h { prev = update h.prev p q })
  unfolding set_prev
  set_prev-live q = rw alive

  pub delete_node-live : delete_node p h ≡ some (tt, record h { live = update h.live p false })
  unfolding delete_node
  delete_node-live = rw alive

  pub get_value-live : (v : T) → h.value p ≡ some v → get_value p h ≡ some (v, h)
  unfolding get_value
  get_value-live v held = rw (get_value, held, alive)
