-- ===== src/AdbdProps/Patched.antt =====
-- What patch_entry of tools/patch_recovery_adbd_props.py makes of an archive.
use device_xiaomi_dash_twrp.Prelude.{
  ℕ, ◌+◌, ◌-◌, ◌≡◌, ◌≤◌, refl, sym, ap, ◌∙◌, true, List, [], ◌∷◌, length, arith,
}
use device_xiaomi_dash_twrp.VendorBoot.{bytes_at, put}
use device_xiaomi_dash_twrp.AdbdProps.{
  secure_1, secure_0, debuggable_0, debuggable_1, lines, count_exact_lines, hits,
}
use device_xiaomi_dash_twrp.AdbdProps.Hits.{relabel}
use device_xiaomi_dash_twrp.AdbdProps.Newc.{◌>>=◌, guard, done, Entry, is_regular}
use device_xiaomi_dash_twrp.AdbdProps.Patch.{patch_entry, patch_lines, changed_offsets}
use device_xiaomi_dash_twrp.AdbdProps.Changes.{distance, distance_refl, length-changed_offsets}
use device_xiaomi_dash_twrp.AdbdProps.Archive.{Outside, replace_in_archive, line_held}
use device_xiaomi_dash_twrp.AdbdProps.Found.{
  patched_lines, IsPlain-secure_1, IsPlain-secure_0, IsPlain-debuggable_0, IsPlain-debuggable_1,
  found_between, checked,
}

-- The data of an entry.
abbrev pub data_of : Entry → List ℕ → List ℕ
data_of e cpio = bytes_at cpio e.data_start (e.data_end - e.data_start)

-- The text has one line to change for each property, and no line that it would get.
abbrev pub IsPatchable : List ℕ → (h1 h2 : ℕ) → Type 0
IsPatchable text h1 h2 =
    (count_exact_lines text secure_1 ≡ h1 ∷ [])
    × (count_exact_lines text debuggable_0 ≡ h2 ∷ [])
    × (count_exact_lines text secure_0 ≡ [])
    × (count_exact_lines text debuggable_1 ≡ [])

abbrev pub Patched : List ℕ → Entry → List ℕ × List ℕ → Type 0
Patched cpio e (output, changed) =
    (lines (data_of e output) ≡ patched_lines (lines (data_of e cpio)))
    × (length output ≡ length cpio)
    × (length changed ≡ 2)
    × Outside e.data_start (e.data_end - e.data_start) cpio output

module _ (cpio : List ℕ) (e : Entry) (h1 h2 : ℕ) (inside : e.data_end ≤ length cpio)
    (s1 : count_exact_lines (data_of e cpio) secure_1 ≡ h1 ∷ [])
    (d0 : count_exact_lines (data_of e cpio) debuggable_0 ≡ h2 ∷ []) where
  abbrev first : List ℕ
  first = put cpio (e.data_start + h1) (length secure_1) secure_0

  abbrev pub second : List ℕ
  second = put first (e.data_start + h2) (length debuggable_0) debuggable_1

  first_held :
      (h1 + 11 ≤ e.data_end - e.data_start) × (bytes_at cpio (e.data_start + h1) 11 ≡ secure_1)
  first_held =
      line_held e.data_start (e.data_end - e.data_start) secure_1 secure_0 IsPlain-secure_1
        IsPlain-secure_0 refl cpio h1 s1

  room : e.data_start + (e.data_end - e.data_start) ≤ length cpio
  room = omega (arith, inside, first_held.0)

  after_first :
      (lines (data_of e first) ≡ relabel secure_1 secure_0 (lines (data_of e cpio)))
      × (length first ≡ length cpio)
      × (distance cpio first ≡ distance cpio cpio + 1)
      × Outside e.data_start (e.data_end - e.data_start) cpio first
  after_first =
      replace_in_archive e.data_start (e.data_end - e.data_start) secure_1 secure_0 IsPlain-secure_1
        IsPlain-secure_0 refl cpio cpio h1 refl room first_held.1 s1

  after_second :
      (lines (data_of e second) ≡ relabel debuggable_0 debuggable_1 (lines (data_of e first)))
      × (length second ≡ length first)
      × (distance cpio second ≡ distance cpio first + 1)
      × Outside e.data_start (e.data_end - e.data_start) first second
  unfolding count_exact_lines
  after_second =
      let (made, long, changes, around) = after_first in
      let (fits, held) =
        line_held e.data_start (e.data_end - e.data_start) debuggable_0 debuggable_1
          IsPlain-debuggable_0 IsPlain-debuggable_1 refl cpio h2 d0 in
      let still : count_exact_lines (data_of e first) debuggable_0 ≡ h2 ∷ [] =
        ap (hits debuggable_0 0) made ∙ found_between (lines (data_of e cpio)) ∙ d0 in
      replace_in_archive e.data_start (e.data_end - e.data_start) debuggable_0 debuggable_1
        IsPlain-debuggable_0 IsPlain-debuggable_1 refl cpio first h2 (sym long)
        (omega (arith, room, long)) held still

  two_changes : length (changed_offsets 0 cpio second) ≡ 2
  two_changes = omega (
    arith,
    length-changed_offsets 0 cpio second,
    after_second.2,
    after_first.2,
    distance_refl cpio,
  )

  pub all_lines : lines (data_of e second) ≡ patched_lines (lines (data_of e cpio))
  all_lines = after_second.0 ∙ ap (relabel debuggable_0 debuggable_1) after_first.0

  pub patch_entry_lem :
      is_regular e.header.mode ≡ true
      → count_exact_lines (data_of e cpio) secure_0 ≡ []
      → count_exact_lines (data_of e cpio) debuggable_1 ≡ []
      → (r : List ℕ × List ℕ) × (patch_entry cpio e ≡ done r) × Patched cpio e r
  unfolding patch_entry patch_lines count_exact_lines ◌>>=◌ guard
  patch_entry_lem regular s0 d1 =
      let fine = checked (data_of e second) (lines (data_of e cpio)) h1 h2 all_lines s1 d0 s0 d1 in
      (
        (second, changed_offsets 0 cpio second),
        rw (regular, s1, d0, two_changes, fine) refl,
        (
          all_lines,
          omega (arith, after_second.1, after_first.1),
          two_changes,
          λ p m where_. after_second.3 p m where_ ∙ after_first.3 p m where_,
        ),
      )
