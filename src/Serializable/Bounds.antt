-- ===== src/Serializable/Bounds.antt =====
-- The templates of serializable.h against the bounds of the buffer.
use device_xiaomi_dash_twrp.Prelude.{
  ℕ, zero, suc, ◌+◌, ◌*◌, ◌/◌, ◌%◌, ◌≤◌, ◌≡◌, refl, inl, inr, Bool, true, false, ◌||◌, List, [],
  ◌∷◌, length, take, ltb, leb, Bool-cases, arith, if◌then◌else◌,
}
use device_xiaomi_dash_twrp.Memory.{Mem, Put, ◌>>◌, success, pointer_mod}
use device_xiaomi_dash_twrp.Memory.Bytes.{le_bytes, of_le}
use device_xiaomi_dash_twrp.Memory.Format.{InBounds, InBounds->>, Within, Guarded, bind-Within}
use device_xiaomi_dash_twrp.Serializable.Interface.{External}
use device_xiaomi_dash_twrp.Serializable.{
  uint32_max, UintArray, append_uint32_to_buf, append_uint64_to_buf, append_size_and_data_to_buf,
  append_collection_to_buf, append_each_uint32, append_uint32_array_to_buf, copy_uint32_from_buf,
  copy_uint64_from_buf, copy_each_uint32, copy_uint32_array_from_buf, copy_collection_from_buf,
  fill_uint32_array,
}

pub InBounds-skip : InBounds (λ m buf end. (m, buf))
InBounds-skip = record {
  stays = λ m p end le. (omega arith, le);
  spares = λ m p end le a out. refl;
}

-- A writer behind a guard that may return `buf` at once.
pub InBounds-if :
    (skip : Mem → ℕ → ℕ → Bool) (put : Put)
    → InBounds put
    → InBounds (λ m buf end. if skip m buf end then (m, buf) else put m buf end)
InBounds-if skip put b = record {
  stays = λ m p end le.
      elim (skip m p end)
        as (λ c.
          (p ≤ (if c then (m, p) else put m p end).1)
          × ((if c then (m, p) else put m p end).1 ≤ end)) [
            | true ↦ (omega arith, le)
            | false ↦ b.stays m p end le
          ];
  spares = λ m p end le a out.
      elim (skip m p end) as (λ c. (if c then (m, p) else put m p end).0 a ≡ m a) [
        | true ↦ refl
        | false ↦ b.spares m p end le a out
      ];
}

module _ (x : External) where
  open x use {append_stays}

  pub append_uint32-InBounds : (v : ℕ) → InBounds (append_uint32_to_buf x v)
  unfolding append_uint32_to_buf
  append_uint32-InBounds v = append_stays _

  pub append_uint64-InBounds : (v : ℕ) → InBounds (append_uint64_to_buf x v)
  unfolding append_uint64_to_buf
  append_uint64-InBounds v = append_stays _

  pub append_size_and_data-InBounds :
      (bs : List ℕ) (n : ℕ) → InBounds (append_size_and_data_to_buf x bs n)
  unfolding append_size_and_data_to_buf
  append_size_and_data-InBounds bs n = InBounds->> (append_uint32-InBounds n) (append_stays _)

  pub append_collection-InBounds : (bs : List ℕ) → InBounds (append_collection_to_buf x bs)
  unfolding append_collection_to_buf
  append_collection-InBounds bs =
      InBounds-if (λ m buf end. ltb uint32_max (length bs))
        (append_size_and_data_to_buf x bs (length bs))
        (append_size_and_data-InBounds bs (length bs))

  pub append_each_uint32-InBounds : (vs : List ℕ) → InBounds (append_each_uint32 x vs)
  unfolding append_each_uint32
  append_each_uint32-InBounds [] = InBounds-skip
  append_each_uint32-InBounds (v ∷ vs) =
      InBounds->> (append_uint32-InBounds v) (append_each_uint32-InBounds vs)

  pub append_uint32_array-InBounds :
      (vs : List ℕ) (n : ℕ) → InBounds (append_uint32_array_to_buf x vs n)
  unfolding append_uint32_array_to_buf
  append_uint32_array-InBounds vs n =
      InBounds-if (λ m buf end. leb (uint32_max / 4) n || ltb ((buf + n * 4) % pointer_mod) buf)
        (append_uint32_to_buf x n >> append_each_uint32 x (take n vs))
        (InBounds->> (append_uint32-InBounds n) (append_each_uint32-InBounds (take n vs)))

  pub copy_uint32-Guarded : Guarded (copy_uint32_from_buf x)
  unfolding copy_uint32_from_buf
  copy_uint32-Guarded = record {
    guards = λ m p end a le.
        bind-Within (λ q bs. success q (of_le bs)) (λ bs. a) p end _
          ((x.copy_guarded 4).guards m p end [] le) λ q bs lt. (omega arith, lt);
  }

  pub copy_uint64-Guarded : Guarded (copy_uint64_from_buf x)
  unfolding copy_uint64_from_buf
  copy_uint64-Guarded = record {
    guards = λ m p end a le.
        bind-Within (λ q bs. success q (of_le bs)) of_le p end _
          ((x.copy_guarded 8).guards m p end (le_bytes 8 a) le) λ q bs lt. (omega arith, lt);
  }

  pub copy_collection-Guarded : Guarded (copy_collection_from_buf x)
  unfolding copy_collection_from_buf
  copy_collection-Guarded = record {
    guards = λ m p end a le.
        bind-Within _ (λ n. a) p end _ (copy_uint32-Guarded.guards m p end 0 le)
          λ q n lt. elim (Bool-cases (x.buffer_bound_check q end n)) [
            | inl fits ↦ rw fits (omega (arith, x.check_sound q end n fits))
            | inr over ↦ rw over tt
          ];
  }

  pub copy_each_uint32-Within :
      (n : ℕ) (m : Mem) (p end : ℕ) → p ≤ end → Within p end (copy_each_uint32 x n m p end)
  unfolding copy_each_uint32
  copy_each_uint32-Within zero m p end le = omega arith
  copy_each_uint32-Within (suc n) m p end le =
      bind-Within _ (λ v. []) p end _ (copy_uint32-Guarded.guards m p end 0 le)
        λ q v lt.
          bind-Within (λ q' vs. success q' (v ∷ vs)) (λ vs. v ∷ vs) q end _
            (copy_each_uint32-Within n m q end lt) λ q' vs lt'. (omega arith, lt')

  fill-Within :
      (m : Mem) (p end : ℕ) (old : UintArray)
      → p ≤ end
      → Within p end (fill_uint32_array x m p end old)
  unfolding fill_uint32_array
  fill-Within m p end old le =
      elim (Bool-cases (
        leb (uint32_max / 4) old.count
        || ltb ((p + old.count * 4) % pointer_mod) p
        || ltb end ((p + old.count * 4) % pointer_mod))) [
          | inl bad ↦ rw bad tt
          | inr good ↦ elim (Bool-cases (x.allocates (old.count * 4))) [
            | inr none_left ↦ rw (good, none_left) tt
            | inl room ↦
                rw (good, room)
                  (bind-Within _ _ p end _ (copy_each_uint32-Within old.count m p end le)
                    λ q vs lt. (omega arith, lt))
          ]
        ]

  pub copy_uint32_array-Guarded : Guarded (copy_uint32_array_from_buf x)
  unfolding copy_uint32_array_from_buf
  copy_uint32_array-Guarded = record {
    guards = λ m p end a le.
        bind-Within _ (λ n. record a { count = n }) p end _
          (copy_uint32-Guarded.guards m p end a.count le)
          λ q n lt. fill-Within m q end (record a { count = n }) lt;
  }
