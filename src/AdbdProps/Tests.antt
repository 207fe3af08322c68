-- ===== src/AdbdProps/Tests.antt =====
-- Two small archives for tools/patch_recovery_adbd_props.py.
use device_xiaomi_dash_twrp.Prelude.{
  ℕ, ◌+◌, ◌-◌, ◌*◌, ◌==◌, ◌↔◌, ◌≡◌, refl, Option, none, some, List, [], ◌∷◌, ◌++◌, replicate, ltb,
  if◌then◌else◌,
}
use device_xiaomi_dash_twrp.AdbdProps.{
  secure_1, debuggable_0, secure_0, debuggable_1, prop_default, trailer, lines, strip, hits,
  count_exact_lines,
}
use device_xiaomi_dash_twrp.AdbdProps.Newc.{
  done, out_of_fuel, ◌>>=◌, guard, Signed, plus, minus, Entry, Header, is_regular, aligned,
  any_byte, fields, entry_with_path, entry_with_name, entry_at, behind_trailer, close, parse_loop,
  parse_newc,
}
use device_xiaomi_dash_twrp.AdbdProps.Patch.{
  patch_properties, patch_entry, patch_lines, check_lines, changed_offsets,
}
use device_xiaomi_dash_twrp.AdbdProps.Settled.{IsSettled}
use device_xiaomi_dash_twrp.AdbdProps.Standing.{
  Archive, AreNonNegative, HasNoNegativeSize, parse_newc_lem, parse_newc_settles,
}
use device_xiaomi_dash_twrp.AdbdProps.Laid.{IsLaid, parse_newc-IsLaid, loop_returns}
use device_xiaomi_dash_twrp.AdbdProps.Patched.{Patched}
use device_xiaomi_dash_twrp.AdbdProps.Whole.{
  IsPatchableArchive, patch_properties-Patched, patch_properties_only,
}

digit : ℕ → ℕ
digit b = if ltb b 58 then b - 48 else b - 87

number : ℕ → List ℕ → ℕ
unfolding digit
number n [] = n
number n (b ∷ bs) = number (n * 16 + digit b) bs

-- A number of eight digits, and one that may have a minus sign.
int_plain : List ℕ → Option Signed
unfolding number
int_plain bs = some (plus (number 0 bs))

int_signed : List ℕ → Option Signed
unfolding number
int_signed [] = none
int_signed (b ∷ bs) = some (if b == 45 then minus (number 0 bs - 1) else plus (number 0 (b ∷ bs)))

decode : List ℕ → Option (List ℕ)
decode bs = some bs

abbrev zeros : List ℕ
zeros = replicate 8 48

abbrev header_of : (mode size name_size : List ℕ) → List ℕ
header_of mode size name_size =
    (48 ∷ 55 ∷ 48 ∷ 55 ∷ 48 ∷ 49 ∷ [])
    ++ zeros
    ++ mode
    ++ replicate 32 48
    ++ size
    ++ replicate 32 48
    ++ name_size
    ++ zeros

abbrev archive_with : List ℕ → List ℕ
archive_with text =
    header_of (48 ∷ 48 ∷ 48 ∷ 48 ∷ 56 ∷ 49 ∷ 97 ∷ 52 ∷ []) (replicate 6 48 ++ (49 ∷ 99 ∷ []))
      (replicate 7 48 ++ (100 ∷ []))
    ++ prop_default
    ++ (0 ∷ 0 ∷ [])
    ++ text
    ++ header_of zeros zeros (replicate 7 48 ++ (98 ∷ []))
    ++ trailer
    ++ (0 ∷ 0 ∷ 0 ∷ 0 ∷ [])

abbrev archive : List ℕ
archive = archive_with (secure_1 ++ (10 ∷ debuggable_0 ++ (10 ∷ [])))

abbrev patched : List ℕ
patched = archive_with (secure_0 ++ (10 ∷ debuggable_1 ++ (10 ∷ [])))

-- An entry whose size is -0x70, so that its data ends at offset 0.
abbrev backward : List ℕ
backward =
    header_of zeros (45 ∷ 48 ∷ 48 ∷ 48 ∷ 48 ∷ 48 ∷ 55 ∷ 48 ∷ []) (replicate 7 48 ++ (50 ∷ []))
    ++ (120 ∷ 0 ∷ [])

abbrev header_values : (mode size name_size : Signed) → Header
header_values mode size name_size = record {
  inode = plus 0;
  mode = mode;
  uid = plus 0;
  gid = plus 0;
  nlink = plus 0;
  mtime = plus 0;
  size = size;
  device_major = plus 0;
  device_minor = plus 0;
  rdevice_major = plus 0;
  rdevice_minor = plus 0;
  name_size = name_size;
  check = plus 0;
}

abbrev prop_entry : Entry
prop_entry = record {
  path = prop_default;
  header = header_values (plus 33188) (plus 28) (plus 13);
  header_start = 0;
  data_start = 124;
  data_end = 152;
}

abbrev back_entry : Entry
back_entry = record {
  path = 120 ∷ [];
  header = header_values (plus 0) (minus 111) (plus 2);
  header_start = 0;
  data_start = 112;
  data_end = 0;
}

archive_read : parse_newc int_plain decode archive ≡ done (prop_entry ∷ [])
unfolding parse_newc parse_loop entry_at entry_with_name entry_with_path fields ◌>>=◌ guard close
    behind_trailer any_byte aligned int_plain number digit decode
archive_read = refl

back_read : entry_at int_signed decode backward 0 ≡ done back_entry
unfolding entry_at entry_with_name entry_with_path fields ◌>>=◌ guard aligned int_signed number
    digit decode
back_read = refl

no_negative : HasNoNegativeSize int_plain decode archive
unfolding int_plain
no_negative offset k here e = cc

can_patch : IsPatchableArchive int_plain decode archive (prop_entry ∷ []) prop_entry 0 12
unfolding count_exact_lines hits lines strip is_regular
can_patch = (archive_read, refl, refl, (refl, refl, refl, refl))

archive-patched : patch_properties int_plain decode archive ≡ done (patched, 134 ∷ 150 ∷ [])
unfolding patch_properties patch_entry patch_lines check_lines changed_offsets count_exact_lines
    hits lines strip is_regular parse_newc parse_loop entry_at entry_with_name entry_with_path
    fields ◌>>=◌ guard close behind_trailer any_byte aligned int_plain number digit decode
archive-patched = refl

patch_properties-Patched_example :
    (r : List ℕ × List ℕ) × (patch_properties int_plain decode archive ≡ done r)
    × Patched archive prop_entry r
patch_properties-Patched_example =
    patch_properties-Patched int_plain decode archive (prop_entry ∷ []) prop_entry 0 12 can_patch

patch_properties_only_example :
    (entries : List Entry) × (e : Entry) × (h1 : ℕ) × (h2 : ℕ) × IsPatchableArchive int_plain decode
      archive entries e h1 h2
    × Patched archive e (patched, 134 ∷ 150 ∷ [])
patch_properties_only_example =
    patch_properties_only int_plain decode archive (patched, 134 ∷ 150 ∷ []) archive-patched

parse_newc_lem_example :
    ((parse_newc int_plain decode archive ≡ done (prop_entry ∷ []))
      × AreNonNegative (prop_entry ∷ []))
    ↔ Archive int_plain decode archive 0 (prop_entry ∷ [])
parse_newc_lem_example = parse_newc_lem int_plain decode archive (prop_entry ∷ [])

parse_newc_settles_example : IsSettled (parse_newc int_plain decode archive)
parse_newc_settles_example = parse_newc_settles int_plain decode archive no_negative

parse_newc-IsLaid_example : IsLaid archive 0 (prop_entry ∷ [])
parse_newc-IsLaid_example =
    parse_newc-IsLaid int_plain decode archive (prop_entry ∷ []) archive_read (tt, tt)

loop_returns_example : parse_loop int_signed decode 9 backward 0 [] ≡ out_of_fuel
unfolding aligned
loop_returns_example =
    loop_returns int_signed decode 9 backward 0 back_entry [] refl back_read refl refl
