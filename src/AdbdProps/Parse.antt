-- ===== src/AdbdProps/Parse.antt =====
-- The turns of the loop of parse_newc of tools/patch_recovery_adbd_props.py, when it returns.
use device_xiaomi_dash_twrp.Prelude.{
  ℕ, zero, suc, ◌≡◌, refl, sym, subst, ◌∙◌, inl, inr, Bool, true, false, not, Option, List, [], ◌∷◌,
  ◌++◌, length, drop, ltb, Bool-cases,
}
use mathlib.Core.List.{append-nil, append_assoc}
use device_xiaomi_dash_twrp.Memory.Bytes.{same_bytes}
use device_xiaomi_dash_twrp.AdbdProps.{trailer}
use device_xiaomi_dash_twrp.AdbdProps.Newc.{
  done, Signed, Entry, aligned, is_zero, any_byte, entry_at, behind_trailer, close, parse_loop,
  parse_newc,
}
use device_xiaomi_dash_twrp.AdbdProps.Entries.{bind_done, guard_done, done_inj}

unless : (b : Bool) → not b ≡ true → b ≡ false
unless true h = sym h
unless false h = refl

module _ (int_16 : List ℕ → Option Signed) (decode : List ℕ → Option (List ℕ)) where
  -- What the loop reads from this offset on: these entries, then a trailer.
  pub data Trace (blob : List ℕ) : ℕ → List Entry → Type 0 where
    ended :
        (offset : ℕ) (e : Entry)
        → entry_at int_16 decode blob offset ≡ done e
        → same_bytes e.path trailer ≡ true
        → is_zero e.header.size ≡ true
        → any_byte (drop (aligned e.data_end) blob) ≡ false
        → Trace blob offset []
    went_on :
        (offset : ℕ) (e : Entry) (entries : List Entry)
        → entry_at int_16 decode blob offset ≡ done e
        → same_bytes e.path trailer ≡ false
        → Trace blob (aligned e.data_end) entries
        → Trace blob offset (e ∷ entries)

  close_sound :
      (blob : List ℕ) (offset : ℕ) (e : Entry) (entries result : List Entry)
      → entry_at int_16 decode blob offset ≡ done e
      → same_bytes e.path trailer ≡ true
      → close int_16 decode blob e entries ≡ done result
      → (result ≡ entries) × Trace blob offset []
  unfolding close behind_trailer
  close_sound blob offset e entries result read last h =
      let (no_data, rest) = guard_done _ _ _ result h in
      let (quiet, given) = guard_done _ _ _ result rest in
      (
        sym (done_inj entries result given),
        ended offset e read last no_data (unless (any_byte (drop (aligned e.data_end) blob)) quiet),
      )

  loop_sound :
      (fuel : ℕ) (blob : List ℕ) (offset : ℕ) (entries result : List Entry)
      → parse_loop int_16 decode fuel blob offset entries ≡ done result
      → (more : List Entry) × (result ≡ entries ++ more) × Trace blob offset more
  unfolding parse_loop
  loop_sound zero blob offset entries result h = cc
  loop_sound (suc fuel) blob offset entries result h =
      elim (Bool-cases (ltb offset (length blob))) [
        | inr past ↦ cc (rw past at h)
        | inl within ↦
            let (e, read, rest) = bind_done _ _ result (rw within at h) in
            elim (Bool-cases (same_bytes e.path trailer)) [
              | inl last ↦
                  let (given, trace) =
                    close_sound blob offset e entries result read last (rw last at rest) in
                  ([], given ∙ sym (append-nil entries), trace)
              | inr other ↦
                  let (more, made, trace) =
                    loop_sound fuel blob (aligned e.data_end) (entries ++ (e ∷ [])) result
                      (rw other at rest) in
                  (
                    e ∷ more,
                    made ∙ append_assoc entries (e ∷ []) more,
                    went_on offset e more read other trace,
                  )
            ]
      ]

  -- What the loop has read when parse_newc gives these entries.
  pub parse_newc-Trace :
      (blob : List ℕ) (entries : List Entry)
      → parse_newc int_16 decode blob ≡ done entries
      → Trace blob 0 entries
  unfolding parse_newc
  parse_newc-Trace blob entries h =
      let (more, made, trace) = loop_sound (suc (length blob)) blob 0 [] entries h in
      subst (Trace blob 0) (sym made) trace
