-- ===== src/AdbdProps/Laid.antt =====
-- Where parse_newc of tools/patch_recovery_adbd_props.py finds entries, and when it finds none.
use device_xiaomi_dash_twrp.Prelude.{
  ℕ, zero, suc, ◌≡◌, ◌≤◌, ◌<◌, refl, sym, subst, ◌+◌, inl, inr, true, false, Option, List, [], ◌∷◌,
  length, ltb, Bool-cases,
}
use device_xiaomi_dash_twrp.Memory.Bytes.{same_bytes}
use device_xiaomi_dash_twrp.AdbdProps.{trailer, prop_default}
use device_xiaomi_dash_twrp.AdbdProps.Newc.{
  done, out_of_fuel, ◌>>=◌, Signed, Entry, aligned, entry_at, parse_loop, parse_newc,
}
use device_xiaomi_dash_twrp.AdbdProps.Patch.{targets}
use device_xiaomi_dash_twrp.AdbdProps.Entries.{entry_at-InArchive}
use device_xiaomi_dash_twrp.AdbdProps.Described.{IsAligned-aligned, IsEntry-behind}
use device_xiaomi_dash_twrp.AdbdProps.Parse.{Trace, ended, went_on, parse_newc-Trace}
use device_xiaomi_dash_twrp.AdbdProps.Standing.{
  Archive, trailer_at, then_entry, AreNonNegative, starts_inside, starts_behind, differ,
  parse_newc_lem,
}

-- One entry behind the other: the header at the offset, the data behind the name and in the archive,
-- no trailer, and the next header at the aligned end of the data; the archive goes on behind the last.
abbrev pub IsLaid : List ℕ → ℕ → List Entry → Type 0
IsLaid blob offset [] = offset < length blob
IsLaid blob offset (e ∷ entries) =
    (e.header_start ≡ offset)
    × (offset + 110 < e.data_start)
    × (e.data_start ≤ e.data_end)
    × (e.data_end ≤ length blob)
    × (same_bytes e.path trailer ≡ false)
    × IsLaid blob (aligned e.data_end) entries

abbrev AreInside : List ℕ → List Entry → Type 0
AreInside blob [] = Unit {0}
AreInside blob (e ∷ entries) = (e.data_end ≤ length blob) × AreInside blob entries

target-AreInside :
    (blob : List ℕ) (entries : List Entry) (e : Entry)
    → AreInside blob entries
    → targets entries ≡ e ∷ []
    → e.data_end ≤ length blob
target-AreInside blob [] e inside h = cc
target-AreInside blob (first ∷ entries) e (ends, inside) h =
    elim (Bool-cases (same_bytes first.path prop_default)) [
      | inl here ↦
          let found = rw here at h in
          let same : first ≡ e = cc in subst (λ k. k.data_end ≤ length blob) same ends
      | inr other ↦ target-AreInside blob entries e inside (rw other at h)
    ]

module _ (int_16 : List ℕ → Option Signed) (decode : List ℕ → Option (List ℕ)) where
  Trace-AreInside :
      (blob : List ℕ) (offset : ℕ) (entries : List Entry)
      → Trace int_16 decode blob offset entries
      → AreInside blob entries
  Trace-AreInside blob offset [] (ended _ e read last no_data quiet) = tt
  Trace-AreInside blob offset (e ∷ entries) (went_on _ _ _ read other rest) =
      let (starts, begins, ends) = entry_at-InArchive int_16 decode blob offset e read in
      (ends, Trace-AreInside blob (aligned e.data_end) entries rest)

  pub target_inside :
      (blob : List ℕ) (entries : List Entry) (e : Entry)
      → parse_newc int_16 decode blob ≡ done entries
      → targets entries ≡ e ∷ []
      → e.data_end ≤ length blob
  target_inside blob entries e read one =
      target-AreInside blob entries e
        (Trace-AreInside blob 0 entries (parse_newc-Trace int_16 decode blob entries read)) one

  Archive-IsLaid :
      (blob : List ℕ) (offset : ℕ) (entries : List Entry)
      → Archive int_16 decode blob offset entries
      → IsLaid blob offset entries
  Archive-IsLaid blob offset [] (trailer_at _ e next there last sized at quiet) =
      starts_inside int_16 decode blob offset e there
  Archive-IsLaid blob offset (e ∷ entries) (then_entry _ _ next _ there other at rest) =
      let (start, _, _, _, _, _, ends) = there in
      let goes = IsAligned-aligned next e.data_end at in
      (
        start,
        starts_behind int_16 decode blob offset e there,
        IsEntry-behind int_16 decode blob offset e there,
        ends,
        differ int_16 decode e.path other,
        subst (λ k. IsLaid blob k entries) (sym goes) (Archive-IsLaid blob next entries rest),
      )

  -- When parse_newc returns entries of which none has a negative size, they lie one behind the other
  -- from the start of the archive: the header of each begins at the aligned end of the entry in front of
  -- it, its data begins behind its header, does not end before it begins and ends in the archive, none is
  -- a trailer, and the archive goes on behind the last.
  pub parse_newc-IsLaid :
      (blob : List ℕ) (entries : List Entry)
      → parse_newc int_16 decode blob ≡ done entries
      → AreNonNegative entries
      → IsLaid blob 0 entries
  parse_newc-IsLaid blob entries h signs =
      let (described, _) = parse_newc_lem int_16 decode blob entries in
      Archive-IsLaid blob 0 entries (described (h, signs))

  -- When an entry that is no trailer has its aligned end at its own offset, the loop of parse_newc comes
  -- to that offset again without end: no fuel is enough for it.
  pub loop_returns :
      (fuel : ℕ) (blob : List ℕ) (offset : ℕ) (e : Entry) (entries : List Entry)
      → ltb offset (length blob) ≡ true
      → entry_at int_16 decode blob offset ≡ done e
      → same_bytes e.path trailer ≡ false
      → aligned e.data_end ≡ offset
      → parse_loop int_16 decode fuel blob offset entries ≡ out_of_fuel
  unfolding parse_loop ◌>>=◌
  loop_returns zero blob offset e entries within read other back = refl
  loop_returns (suc fuel) blob offset e entries within read other back =
      rw (within, read, other, back) (loop_returns fuel blob offset e _ within read other back)
