-- ===== src/Serializable/Reference.antt =====
-- Functions that keep the promises of `Interface`: the theorems that assume an `External` have one.
-- They are written for the witnesses, and model no code of the repository.
use device_xiaomi_dash_twrp.Prelude.{
  ℕ, ◌+◌, ◌≤◌, ◌<◌, ◌^◌, ◌≡◌, inl, inr, true, false, Option, some, List, [], ◌++◌, length,
  length-append, leb, leb→le, le→leb, lt→leb, if◌then◌else◌, Bool-cases, arith, ap, subst,
}
use device_xiaomi_dash_twrp.Memory.{
  Mem, Put, Get, success, failure, ok, write_bytes, read_bytes, Holds, pointer_mod,
}
use device_xiaomi_dash_twrp.Memory.Bytes.{le_bytes, of_le, length-le_bytes, of_le-le_bytes}
use device_xiaomi_dash_twrp.Memory.Laws.{write_bytes_outside, read_bytes-Holds, Holds-append}
use device_xiaomi_dash_twrp.Memory.Format.{Writes, Reads, InBounds, Guarded, bind-Within}
use device_xiaomi_dash_twrp.Serializable.Interface.{External, AcceptsExactFit}

unfoldable pub append : List ℕ → Put
append bs m p end = if leb (p + length bs) end then (write_bytes m p bs, p + length bs) else (m, p)

pub append-Writes : (bs : List ℕ) → Writes (append bs) bs
unfolding append
append-Writes bs = record { emits = λ m p end room top. rw (le→leb (p + length bs) end room) }

pub append-InBounds : (bs : List ℕ) → InBounds (append bs)
unfolding append
append-InBounds bs = record {
  stays = λ m p end le. elim (Bool-cases (leb (p + length bs) end)) [
    | inl room ↦ let fits = leb→le (p + length bs) end room in rw room (omega arith)
    | inr full ↦ rw full (omega arith)
  ];
  spares = λ m p end le a out. elim (Bool-cases (leb (p + length bs) end)) [
    | inl room ↦
        let fits = leb→le (p + length bs) end room in
        rw room (write_bytes_outside m p bs a (omega arith))
    | inr full ↦ rw full
  ];
}

unfoldable pub copy : ℕ → Get (List ℕ)
copy n m p end old = if leb (p + n) end then success (p + n) (read_bytes m p n) else failure p old

pub copy-Guarded : (n : ℕ) → Guarded (copy n)
unfolding copy
copy-Guarded n = record {
  guards = λ m p end a le. elim (Bool-cases (leb (p + n) end)) [
    | inl room ↦ let fits = leb→le (p + n) end room in rw room (omega arith)
    | inr full ↦ rw full tt
  ];
}

pub copy-enough :
    (n : ℕ) (m : Mem) (p end : ℕ) (old : List ℕ)
    → p + n ≤ end
    → end < pointer_mod
    → copy n m p end old ≡ success (p + n) (read_bytes m p n)
unfolding copy
copy-enough n m p end old room top = rw (le→leb (p + n) end room)

pub copy-short :
    (n : ℕ) (m : Mem) (p end : ℕ) (old : List ℕ) → end < p + n → ok (copy n m p end old) ≡ false
unfolding copy
copy-short n m p end old over = rw (lt→leb (p + n) end over)

-- Reads the size, then that many bytes.
unfoldable pub copy_sized : Get (ℕ × Option (List ℕ))
unfolding copy
copy_sized m p end old = elim (copy 4 m p end []) [
  | failure q size ↦ failure q old
  | success q size ↦ elim (copy (of_le size) m q end []) [
    | failure q' bs ↦ failure q' old
    | success q' bs ↦ success q' (of_le size, some bs)
  ]
]

pub copy_sized-Guarded : Guarded copy_sized
unfolding copy_sized
copy_sized-Guarded = record {
  guards = λ m p end a le.
      bind-Within _ (λ size. a) p end _ ((copy-Guarded 4).guards m p end [] le)
        λ q size lt.
          bind-Within (λ q' bs. success q' (of_le size, some bs)) (λ bs. a) q end _
            ((copy-Guarded (of_le size)).guards m q end [] lt) λ q' bs lt'. (omega arith, lt');
}

pub copy_sized-Reads :
    (bs : List ℕ)
    → length bs < 2 ^ 32
    → true ≡ true
    → Reads copy_sized (le_bytes 4 (length bs) ++ bs) (λ _. (length bs, some bs))
unfolding copy_sized
copy_sized-Reads bs small _ = record {
  accepts = λ m p end a holds room top.
      let len = length-append (le_bytes 4 (length bs)) bs in
      let four = length-le_bytes 4 (length bs) in
      let (front, back) = Holds-append m p (le_bytes 4 (length bs)) bs holds in
      let bytes = subst (λ k. Holds m (p + k) bs) four back in
      let size =
        subst (λ k. read_bytes m p k ≡ le_bytes 4 (length bs)) four
          (read_bytes-Holds m p _ front) in
      rw
        (
          copy-enough 4 m p end [] (omega arith) top,
          copy_sized,
          size,
          of_le-le_bytes 4 (length bs) small,
          copy-enough (length bs) m (p + 4) end [] (omega arith) top,
          read_bytes-Holds m (p + 4) bs bytes,
          size,
          of_le-le_bytes 4 (length bs) small,
          len,
          four,
        )
        (ap (λ q. success q (length bs, some bs)) (omega arith));
}

pub check_sound : (p end n : ℕ) → leb (p + n) end ≡ true → p + n ≤ end
check_sound p end n h = leb→le (p + n) end h

pub check_complete : (p end n : ℕ) → p + n < end → leb (p + n) end ≡ true
check_complete p end n h = le→leb (p + n) end (omega arith)

pub dup-copies : (bs cs : List ℕ) → ◌≡◌ {A = Option (List ℕ)} (some bs) (some cs) → cs ≡ bs
dup-copies bs cs h = cc

abbrev pub reference : External
reference = record {
  append_to_buf = append;
  append_emits = append-Writes;
  append_stays = append-InBounds;
  copy_from_buf = copy;
  copy_enough = copy-enough;
  copy_short = copy-short;
  copy_guarded = copy-Guarded;
  buffer_bound_check = λ p end n. leb (p + n) end;
  check_sound = check_sound;
  check_complete = check_complete;
  allocates = λ n. true;
  copy_size_and_data_from_buf = copy_sized;
  copy_sized = copy_sized-Reads;
  copy_sized_guarded = copy_sized-Guarded;
  dup_buffer = some;
  dup_copies = dup-copies;
}

pub reference-AcceptsExactFit : AcceptsExactFit reference
reference-AcceptsExactFit p n = le→leb (p + n) (p + n) (omega arith)
