-- ===== src/AdbdProps/Only.antt =====
-- When patch_entry of tools/patch_recovery_adbd_props.py gives an archive.
use device_xiaomi_dash_twrp.Prelude.{
  ℕ, ◌+◌, ◌≡◌, ◌≤◌, refl, sym, ap, ◌∙◌, true, List, [], ◌∷◌, length, arith,
}
use device_xiaomi_dash_twrp.VendorBoot.{put}
use device_xiaomi_dash_twrp.AdbdProps.{
  secure_1, secure_0, debuggable_0, debuggable_1, lines, count_exact_lines, hits,
}
use device_xiaomi_dash_twrp.AdbdProps.Newc.{done, Reason, Entry, is_regular}
use device_xiaomi_dash_twrp.AdbdProps.Patch.{
  only, patch_entry, patch_lines, check_lines, property_patches,
}
use device_xiaomi_dash_twrp.AdbdProps.Entries.{bind_done, guard_done, done_inj}
use device_xiaomi_dash_twrp.AdbdProps.Patched.{data_of, IsPatchable, all_lines}
use device_xiaomi_dash_twrp.AdbdProps.Found.{patched_lines, new_secure_0, new_debuggable_1}

pub only_done :
    {A : Type 0} (why : Reason) (xs : List A) (x : A) → only why xs ≡ done x → xs ≡ x ∷ []
only_done why [] x h = cc
only_done why (y ∷ []) x h = ap (λ k. k ∷ []) (done_inj y x h)
only_done why (y ∷ z ∷ rest) x h = cc

patch_lines_done :
    (before : List ℕ) (start : ℕ) (cpio output : List ℕ)
    → patch_lines before start property_patches cpio ≡ done output
    → (h1 h2 : ℕ) × (count_exact_lines before secure_1 ≡ h1 ∷ [])
      × (count_exact_lines before debuggable_0 ≡ h2 ∷ [])
      × (put (put cpio (start + h1) 11 secure_0) (start + h2) 15 debuggable_1 ≡ output)
unfolding patch_lines
patch_lines_done before start cpio output h =
    let (h1, one, rest) = bind_done _ _ output h in
    let (h2, two, last) = bind_done _ _ output rest in
    (h1, h2, only_done _ _ h1 one, only_done _ _ h2 two, done_inj _ output last)

check_lines_done :
    (after : List ℕ)
    → check_lines after property_patches ≡ done tt
    → (length (count_exact_lines after secure_0) ≡ 1)
      × (length (count_exact_lines after debuggable_1) ≡ 1)
unfolding check_lines
check_lines_done after h =
    let (gone, h1) = guard_done _ _ _ tt h in
    let (one, h2) = guard_done _ _ _ tt h1 in
    let (gone', h3) = guard_done _ _ _ tt h2 in
    let (one', h4) = guard_done _ _ _ tt h3 in (ground arith, ground arith)

none_before :
    (xs ys : List ℕ) (h : ℕ) (k : ℕ) → ys ≡ h ∷ [] → k ≡ length xs + length ys → k ≡ 1 → xs ≡ []
none_before [] ys h k one sum e = refl
none_before (x ∷ xs) ys h k one sum e = absurd (omega (arith, ap length one))

-- What patch_entry asks of an entry, for the archive that it gives.
pub patch_entry_done :
    (cpio : List ℕ) (e : Entry) (r : List ℕ × List ℕ)
    → e.data_end ≤ length cpio
    → patch_entry cpio e ≡ done r
    → (is_regular e.header.mode ≡ true) × (h1 : ℕ) × (h2 : ℕ) × IsPatchable (data_of e cpio) h1 h2
unfolding patch_entry count_exact_lines
patch_entry_done cpio e r inside h =
    let (regular, eq1) = guard_done _ _ _ r h in
    let (output, written, eq2) = bind_done _ _ r eq1 in
    let (two, eq3) = guard_done _ _ _ r eq2 in
    let (fine, checks, eq4) = bind_done _ _ r eq3 in
    let (h1, h2, s1, d0, made) =
      patch_lines_done (data_of e cpio) e.data_start cpio output written in
    let (one, one') = check_lines_done (data_of e output) checks in
    let texts : lines (data_of e output) ≡ patched_lines (lines (data_of e cpio)) =
      ap (λ k. lines (data_of e k)) (sym made) ∙ all_lines cpio e h1 h2 inside s1 d0 in
    let s0 =
      none_before _ _ h1 _ s1 (new_secure_0 (lines (data_of e cpio)))
        (ap (λ k. length (hits secure_0 0 k)) (sym texts) ∙ one) in
    let d1 =
      none_before _ _ h2 _ d0 (new_debuggable_1 (lines (data_of e cpio)))
        (ap (λ k. length (hits debuggable_1 0 k)) (sym texts) ∙ one') in
    (regular, h1, h2, (s1, d0, s0, d1))
