-- ===== src/AdbdProps/Described.antt =====
-- An entry of a newc archive as its bytes hold it, without the steps of parse_newc of
-- tools/patch_recovery_adbd_props.py, and the body of the loop of parse_newc against it.
use device_xiaomi_dash_twrp.Prelude.{
  ℕ, zero, suc, ◌+◌, ◌-◌, ◌*◌, ◌/◌, ◌==◌, ◌≡◌, ◌≤◌, ◌<◌, refl, sym, ap, subst, ◌∙◌, inl, inr, ◌⊎◌,
  Bool, true, false, ◌&&◌, Option, none, some, List, [], ◌∷◌, length, take, leb, arith, Bool-cases,
  get_elem?, le→leb, leb→le, beq-ne,
}
use device_xiaomi_dash_twrp.Memory.Bytes.{same_bytes, same_bytes_lem}
use device_xiaomi_dash_twrp.VendorBoot.{bytes_at}
use device_xiaomi_dash_twrp.VendorBoot.Slices.{bytes_at-bytes_at}
use device_xiaomi_dash_twrp.AdbdProps.{trailer}
use device_xiaomi_dash_twrp.AdbdProps.Newc.{
  Outcome, done, raised, name_not_utf8, guard, ◌>>=◌, Signed, plus, minus, Header, Entry, aligned,
  positive, end_of, zero_at, field, fields, entry_with_path, entry_with_name, entry_at, decoded,
  is_magic,
}
use device_xiaomi_dash_twrp.AdbdProps.Entries.{bind_done, guard_done, done_inj}
use device_xiaomi_dash_twrp.AdbdProps.Settled.{then_done, read_some}

-- The first multiple of 4 at n or behind.
abbrev pub IsAligned : ℕ → ℕ → Type 0
IsAligned a n = ((q : ℕ) × (a ≡ 4 * q)) × (n ≤ a) × (a < n + 4)

pub aligned-IsAligned : (n : ℕ) → IsAligned (aligned n) n
unfolding aligned
aligned-IsAligned n = (((n + 3) / 4, omega arith), omega arith, omega arith)

pub IsAligned-aligned : (a n : ℕ) → IsAligned a n → aligned n ≡ a
unfolding aligned
IsAligned-aligned a n ((q, e), low, high) = omega arith

-- b"070701" or b"070702" stands there.
abbrev IsMagic : List ℕ → Type 0
IsMagic m = (m ≡ 48 ∷ 55 ∷ 48 ∷ 55 ∷ 48 ∷ 49 ∷ []) ⊎ (m ≡ 48 ∷ 55 ∷ 48 ∷ 55 ∷ 48 ∷ 50 ∷ [])

is_magic_sound : (m : List ℕ) → is_magic m ≡ true → IsMagic m
is_magic_sound m h = elim (Bool-cases (same_bytes m (48 ∷ 55 ∷ 48 ∷ 55 ∷ 48 ∷ 49 ∷ []))) [
  | inl one ↦ inl (same_bytes_lem m _ one)
  | inr other ↦ inr (same_bytes_lem m _ (rw other at h))
]

is_magic_complete : (m : List ℕ) → IsMagic m → is_magic m ≡ true
is_magic_complete m (inl e) = rw e refl
is_magic_complete m (inr e) = rw e refl

take-bytes_at :
    (blob : List ℕ) (offset : ℕ) → take 6 (bytes_at blob offset 110) ≡ bytes_at blob offset 6
take-bytes_at blob offset = bytes_at-bytes_at blob offset 110 0 6 offset (omega arith) (omega arith)

and_true : (a b : Bool) → (a && b) ≡ true → (a ≡ true) × (b ≡ true)
and_true true b h = (refl, h)
and_true false b h = cc

zero_at_sound : (blob : List ℕ) (at : ℕ) → zero_at blob at ≡ true → get_elem? blob at ≡ some 0
zero_at_sound blob at h = held (get_elem? blob at) h
  where
    held : (r : Option ℕ) → (elim r [ none ↦ false | some b ↦ b == 0 ]) ≡ true → r ≡ some 0
    held none h = cc
    held (some b) h = ap some (ground arith)

zero_at_complete : (blob : List ℕ) (at : ℕ) → get_elem? blob at ≡ some 0 → zero_at blob at ≡ true
zero_at_complete blob at h = rw (zero_at, h) refl

same_entry :
    (e : Entry) (h : Header) (o start finish : ℕ)
    → e.header ≡ h
    → e.header_start ≡ o
    → start ≡ e.data_start
    → e.data_end ≡ finish
    → record { path = e.path; header = h; header_start = o; data_start = start; data_end = finish }
      ≡ e
same_entry e h o start finish own begins opens ends = rw (sym own, sym begins, opens, sym ends) refl

-- The thirteen numbers of a header, each of eight digits, stand one behind the other from the seventh
-- byte of the header on.
module _ (int_16 : List ℕ → Option Signed) (decode : List ℕ → Option (List ℕ)) where
  abbrev pub HasNumber : List ℕ → ℕ → Signed → Type 0
  HasNumber blob at n = int_16 (bytes_at blob at 8) ≡ some n

  abbrev pub HasHeader : List ℕ → ℕ → Header → Type 0
  HasHeader blob o h =
      HasNumber blob (o + 6) h.inode
      × HasNumber blob (o + 14) h.mode
      × HasNumber blob (o + 22) h.uid
      × HasNumber blob (o + 30) h.gid
      × HasNumber blob (o + 38) h.nlink
      × HasNumber blob (o + 46) h.mtime
      × HasNumber blob (o + 54) h.size
      × HasNumber blob (o + 62) h.device_major
      × HasNumber blob (o + 70) h.device_minor
      × HasNumber blob (o + 78) h.rdevice_major
      × HasNumber blob (o + 86) h.rdevice_minor
      × HasNumber blob (o + 94) h.name_size
      × HasNumber blob (o + 102) h.check

  number_sound :
      (blob : List ℕ) (o i at : ℕ) (s : Signed)
      → i + 8 ≤ 110
      → at ≡ o + i
      → field int_16 decode (bytes_at blob o 110) i ≡ done s
      → HasNumber blob at s
  number_sound blob o i at s inside place h =
      ap int_16 (sym (bytes_at-bytes_at blob o 110 i 8 at inside place))
      ∙ read_some (int_16 (bytes_at (bytes_at blob o 110) i 8)) s h

  number_complete :
      (blob : List ℕ) (o i at : ℕ) (s : Signed)
      → i + 8 ≤ 110
      → at ≡ o + i
      → HasNumber blob at s
      → field int_16 decode (bytes_at blob o 110) i ≡ done s
  number_complete blob o i at s inside place h =
      rw (field, ap int_16 (bytes_at-bytes_at blob o 110 i 8 at inside place) ∙ h) refl

  header_sound :
      (blob : List ℕ) (o : ℕ) (h : Header)
      → fields int_16 decode (bytes_at blob o 110) ≡ done h
      → HasHeader blob o h
  unfolding fields
  header_sound blob o h eq =
      let num = number_sound blob o in
      then_done _ _ h eq (λ inode read_inode eq1. then_done _ _ h eq1 (λ mode read_mode eq2.
        then_done _ _ h eq2 (λ uid read_uid eq3. then_done _ _ h eq3 (λ gid read_gid eq4.
          then_done _ _ h eq4 (λ nlink read_nlink eq5. then_done _ _ h eq5 (λ mtime read_mtime eq6.
            then_done _ _ h eq6 (λ size read_size eq7.
              then_done _ _ h eq7 (λ device_major read_device_major eq8.
                then_done _ _ h eq8 (λ device_minor read_device_minor eq9.
                  then_done _ _ h eq9 (λ rdevice_major read_rdevice_major eq10.
                    then_done _ _ h eq10 (λ rdevice_minor read_rdevice_minor eq11.
                      then_done _ _ h eq11 (λ name_size read_name_size eq12.
                        then_done _ _ h eq12 (λ check read_check eq13.
                          subst (HasHeader blob o) (done_inj _ h eq13) (
                            num 6 (o + 6) inode (omega arith) refl read_inode,
                            num 14 (o + 14) mode (omega arith) refl read_mode,
                            num 22 (o + 22) uid (omega arith) refl read_uid,
                            num 30 (o + 30) gid (omega arith) refl read_gid,
                            num 38 (o + 38) nlink (omega arith) refl read_nlink,
                            num 46 (o + 46) mtime (omega arith) refl read_mtime,
                            num 54 (o + 54) size (omega arith) refl read_size,
                            num 62 (o + 62) device_major (omega arith) refl read_device_major,
                            num 70 (o + 70) device_minor (omega arith) refl read_device_minor,
                            num 78 (o + 78) rdevice_major (omega arith) refl read_rdevice_major,
                            num 86 (o + 86) rdevice_minor (omega arith) refl read_rdevice_minor,
                            num 94 (o + 94) name_size (omega arith) refl read_name_size,
                            num 102 (o + 102) check (omega arith) refl read_check,
                          ))))))))))))))

  header_complete :
      (blob : List ℕ) (o : ℕ) (h : Header)
      → HasHeader blob o h
      → fields int_16 decode (bytes_at blob o 110) ≡ done h
  unfolding fields ◌>>=◌
  header_complete blob o h
        (
          h_inode, h_mode, h_uid, h_gid, h_nlink, h_mtime, h_size, h_device_major, h_device_minor,
          h_rdevice_major, h_rdevice_minor, h_name_size, h_check,
        ) =
      rw
        (
          number_complete blob o 6 (o + 6) h.inode (omega arith) refl h_inode,
          number_complete blob o 14 (o + 14) h.mode (omega arith) refl h_mode,
          number_complete blob o 22 (o + 22) h.uid (omega arith) refl h_uid,
          number_complete blob o 30 (o + 30) h.gid (omega arith) refl h_gid,
          number_complete blob o 38 (o + 38) h.nlink (omega arith) refl h_nlink,
          number_complete blob o 46 (o + 46) h.mtime (omega arith) refl h_mtime,
          number_complete blob o 54 (o + 54) h.size (omega arith) refl h_size,
          number_complete blob o 62 (o + 62) h.device_major (omega arith) refl h_device_major,
          number_complete blob o 70 (o + 70) h.device_minor (omega arith) refl h_device_minor,
          number_complete blob o 78 (o + 78) h.rdevice_major (omega arith) refl h_rdevice_major,
          number_complete blob o 86 (o + 86) h.rdevice_minor (omega arith) refl h_rdevice_minor,
          number_complete blob o 94 (o + 94) h.name_size (omega arith) refl h_name_size,
          number_complete blob o 102 (o + 102) h.check (omega arith) refl h_check,
        )
        refl

  -- The entry e stands at the offset: the magic, the header, a name of at least one byte with its zero
  -- behind it, and behind the padding as many bytes of data as the header says.
  abbrev pub IsEntry : List ℕ → ℕ → Entry → Type 0
  IsEntry blob o e =
      (e.header_start ≡ o)
      × (o + 110 ≤ length blob)
      × IsMagic (bytes_at blob o 6)
      × HasHeader blob o e.header
      × ((n : ℕ) × (e.header.name_size ≡ plus (suc n))
          × (o + 110 + suc n ≤ length blob)
          × (get_elem? blob (o + 110 + n) ≡ some 0)
          × (decode (bytes_at blob (o + 110) n) ≡ some e.path)
          × IsAligned e.data_start (o + 110 + suc n))
      × ((n : ℕ) × (e.header.size ≡ plus n) × (e.data_end ≡ e.data_start + n))
      × (e.data_end ≤ length blob)

  with_path_sound :
      (blob : List ℕ) (o : ℕ) (h : Header) (start n : ℕ) (path : List ℕ) (e : Entry)
      → h.size ≡ plus n
      → entry_with_path int_16 decode blob o h start path ≡ done e
      → (e ≡ record {
        path = path;
        header = h;
        header_start = o;
        data_start = start;
        data_end = start + n;
      })
        × (start + n ≤ length blob)
  unfolding entry_with_path
  with_path_sound blob o h start n path e sized eq =
      let (data_end, ends, eq1) = bind_done _ _ e eq in
      let (fits, eq2) = guard_done _ _ _ e eq1 in
      let place : data_end ≡ start + n =
        done_inj data_end (start + n)
          (sym ends ∙ ap (end_of (same_bytes path trailer) start) sized) in
      (
        sym (done_inj _ e eq2)
            ∙ ap
                (λ k. record {
                  path = path;
                  header = h;
                  header_start = o;
                  data_start = start;
                  data_end = k;
                })
                place,
        subst (λ k. k ≤ length blob) place (leb→le data_end (length blob) fits),
      )

  with_path_complete :
      (blob : List ℕ) (o : ℕ) (h : Header) (start n : ℕ) (path : List ℕ)
      → h.size ≡ plus n
      → start + n ≤ length blob
      → entry_with_path int_16 decode blob o h start path
        ≡ done (record {
          path = path;
          header = h;
          header_start = o;
          data_start = start;
          data_end = start + n;
        })
  unfolding entry_with_path ◌>>=◌ guard
  with_path_complete blob o h start n path sized fits =
      rw (sized, le→leb (start + n) (length blob) fits) refl

  positive_sound : (s : Signed) (n : ℕ) → positive s ≡ done n → (k : ℕ) × (n ≡ suc k) × (s ≡ plus n)
  positive_sound (plus zero) n h = cc
  positive_sound (plus (suc k)) n h =
      let same = done_inj (suc k) n (rw (beq-ne (suc k) 0 (omega arith)) at h) in
      (k, sym same, ap plus same)
  positive_sound (minus k) n h = cc

  positive_complete : (s : Signed) (k : ℕ) → s ≡ plus (suc k) → positive s ≡ done (suc k)
  positive_complete s k h = ap positive h ∙ rw (beq-ne (suc k) 0 (omega arith)) refl

  path_sound :
      (name path : List ℕ) → decoded int_16 decode name ≡ done path → decode name ≡ some path
  path_sound name path h = held (decode name) h
    where
      held :
          (r : Option (List ℕ))
          → (elim r as (λ _. Outcome (List ℕ)) [ none ↦ raised name_not_utf8 | some q ↦ done q ])
            ≡ done path
          → r ≡ some path
      held none h = cc
      held (some q) h = ap some (done_inj q path h)

  path_complete :
      (name path : List ℕ) → decode name ≡ some path → decoded int_16 decode name ≡ done path
  path_complete name path h = rw (decoded, h) refl

  with_path-header :
      (blob : List ℕ) (o : ℕ) (h : Header) (start : ℕ) (path : List ℕ) (e : Entry)
      → entry_with_path int_16 decode blob o h start path ≡ done e
      → e.header ≡ h
  unfolding entry_with_path
  with_path-header blob o h start path e eq =
      let (data_end, ends, eq1) = bind_done _ _ e eq in
      let (fits, eq2) = guard_done _ _ _ e eq1 in ap (λ k. k.header) (sym (done_inj _ e eq2))

  -- From the name on.
  abbrev HasRest : List ℕ → ℕ → Header → ℕ → ℕ → Entry → Type 0
  HasRest blob o h k n e =
      (e.header ≡ h)
      × (e.header_start ≡ o)
      × (o + 110 + suc k ≤ length blob)
      × (get_elem? blob (o + 110 + k) ≡ some 0)
      × (decode (bytes_at blob (o + 110) k) ≡ some e.path)
      × IsAligned e.data_start (o + 110 + suc k)
      × (e.data_end ≡ e.data_start + n)
      × (e.data_end ≤ length blob)

  with_name_sound :
      (blob : List ℕ) (o : ℕ) (h : Header) (k n : ℕ) (e : Entry)
      → entry_with_name int_16 decode blob o h (suc k) ≡ done e
      → e.header.size ≡ plus n
      → HasRest blob o h k n e
  unfolding entry_with_name
  with_name_sound blob o h k n e eq sized =
      let name_end = o + 110 + suc k in
      let (held, eq1) = guard_done _ _ _ e eq in
      let (path, text, eq2) = bind_done _ _ e eq1 in
      let (fits, zero_there) = and_true (leb name_end (length blob)) _ held in
      let own = with_path-header blob o h (aligned name_end) path e eq2 in
      let (made, room) =
        with_path_sound blob o h (aligned name_end) n path e (ap (λ k. k.size) (sym own) ∙ sized)
          eq2 in
      let last : name_end - 1 ≡ o + 110 + k = omega arith in
      let less : suc k - 1 ≡ k = omega arith in
      subst (HasRest blob o h k n) (sym made) (
        refl,
        refl,
        leb→le name_end (length blob) fits,
        ap (get_elem? blob) (sym last) ∙ zero_at_sound blob (name_end - 1) zero_there,
        ap (λ j. decode (bytes_at blob (o + 110) j)) (sym less) ∙ path_sound _ path text,
        aligned-IsAligned name_end,
        refl,
        room,
      )

  with_name_complete :
      (blob : List ℕ) (o : ℕ) (h : Header) (k n : ℕ) (e : Entry)
      → HasRest blob o h k n e
      → h.size ≡ plus n
      → entry_with_name int_16 decode blob o h (suc k) ≡ done e
  unfolding entry_with_name ◌>>=◌ guard
  with_name_complete blob o h k n e (own, start, fits, last, text, begins, ends, room) sized =
      let name_end = o + 110 + suc k in
      let at_last : name_end - 1 ≡ o + 110 + k = omega arith in
      let less : suc k - 1 ≡ k = omega arith in
      let begin = IsAligned-aligned e.data_start name_end begins in
      let room_there : aligned name_end + n ≤ length blob =
        subst (λ j. j ≤ length blob) (ends ∙ ap (λ j. j + n) (sym begin)) room in
      let there = ap (zero_at blob) at_last ∙ zero_at_complete blob (o + 110 + k) last in
      let named =
        ap (λ j. decoded int_16 decode (bytes_at blob (o + 110) j)) less
        ∙ path_complete (bytes_at blob (o + 110) k) e.path text in
      rw (le→leb name_end (length blob) fits, there, named)
        (with_path_complete blob o h (aligned name_end) n e.path sized room_there
          ∙ ap done (
              same_entry e h o (aligned name_end) (aligned name_end + n) own start begin
                (ends ∙ ap (λ j. j + n) (sym begin))))

  -- What the loop body reads, when the size is not negative, is there.
  pub entry_at_sound :
      (blob : List ℕ) (o : ℕ) (e : Entry) (n : ℕ)
      → entry_at int_16 decode blob o ≡ done e
      → e.header.size ≡ plus n
      → IsEntry blob o e
  unfolding entry_at
  entry_at_sound blob o e n eq sized =
      let (fits, eq1) = guard_done _ _ _ e eq in
      let (magic, eq2) = guard_done _ _ _ e eq1 in
      let (h, read, eq3) = bind_done _ _ e eq2 in
      let (name_size, named, eq4) = bind_done _ _ e eq3 in
      let (k, is, number) = positive_sound h.name_size name_size named in
      let (own, start, inside, last, text, begins, ends, room) =
        with_name_sound blob o h k n e
          (subst (λ j. entry_with_name int_16 decode blob o h j ≡ done e) is eq4) sized in
      (
        start,
        leb→le (o + 110) (length blob) fits,
        is_magic_sound (bytes_at blob o 6) (ap is_magic (sym (take-bytes_at blob o)) ∙ magic),
        subst (HasHeader blob o) (sym own) (header_sound blob o h read),
        (k, ap (λ j. j.name_size) own ∙ number ∙ ap plus is, inside, last, text, begins),
        (n, sized, ends),
        room,
      )

  -- And what is there is read.
  pub entry_at_complete :
      (blob : List ℕ) (o : ℕ) (e : Entry)
      → IsEntry blob o e
      → entry_at int_16 decode blob o ≡ done e
  unfolding entry_at ◌>>=◌ guard
  entry_at_complete blob o e
        (start, fits, magic, held, (k, named, inside, last, text, begins), (n, sized, ends), room) =
      let known =
        ap is_magic (take-bytes_at blob o) ∙ is_magic_complete (bytes_at blob o 6) magic in
      rw
        (
          le→leb (o + 110) (length blob) fits,
          known,
          header_complete blob o e.header held,
          positive_complete e.header.name_size k named,
        )
        (with_name_complete blob o e.header k n e
          (refl, start, inside, last, text, begins, ends, room) sized)

  pub IsEntry-behind :
      (blob : List ℕ) (o : ℕ) (e : Entry) → IsEntry blob o e → e.data_start ≤ e.data_end
  IsEntry-behind blob o e (_, _, _, _, _, (n, sized, ends), room) = omega arith

  -- The size of what is read is the number of the header.
  pub entry_at-size :
      (blob : List ℕ) (o : ℕ) (e : Entry)
      → entry_at int_16 decode blob o ≡ done e
      → HasNumber blob (o + 54) e.header.size
  unfolding entry_at entry_with_name
  entry_at-size blob o e eq =
      let (fits, eq1) = guard_done _ _ _ e eq in
      let (magic, eq2) = guard_done _ _ _ e eq1 in
      let (h, read, eq3) = bind_done _ _ e eq2 in
      let (name_size, named, eq4) = bind_done _ _ e eq3 in
      let (held, eq5) = guard_done _ _ _ e eq4 in
      let (path, text, eq6) = bind_done _ _ e eq5 in
      let own = with_path-header blob o h (aligned (o + 110 + name_size)) path e eq6 in
      let (_, _, _, _, _, _, sized, _, _, _, _, _, _) = header_sound blob o h read in
      subst (λ j. HasNumber blob (o + 54) j.size) (sym own) sized
