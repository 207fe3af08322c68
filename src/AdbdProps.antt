-- ===== src/AdbdProps.antt =====
-- tools/patch_recovery_adbd_props.py: parse_newc, which reads a newc archive, and patch_properties,
-- which sets two properties in its prop.default. The archive is a list of bytes. `int(field, 16)`
-- and the decoding of UTF-8 are parameters. lz4, the files and the report are not modelled.
pub mod Lines
pub mod Hits
pub mod Place
pub mod Newc
pub mod Patch
pub mod Changes
pub mod Archive
pub mod Found
pub mod Patched
pub mod Entries
pub mod Described
pub mod Settled
pub mod Parse
pub mod Standing
pub mod Laid
pub mod Only
pub mod Whole
mod Tests
use device_xiaomi_dash_twrp.Prelude.{
  ℕ, zero, suc, ◌+◌, ◌-◌, ◌*◌, ◌/◌, ◌%◌, Bool, true, false, not, ◌&&◌, ◌||◌, Option, none, some,
  List, [], ◌∷◌, ◌++◌, length, take, drop, get_elem?, ltb, leb, ◌==◌, if◌then◌else◌,
}
use device_xiaomi_dash_twrp.VendorBoot.{bytes_at, put}
use device_xiaomi_dash_twrp.Memory.Bytes.{same_bytes}

-- ro.secure=1
abbrev pub secure_1 : List ℕ
secure_1 = 114 ∷ 111 ∷ 46 ∷ 115 ∷ 101 ∷ 99 ∷ 117 ∷ 114 ∷ 101 ∷ 61 ∷ 49 ∷ []

-- ro.secure=0
abbrev pub secure_0 : List ℕ
secure_0 = 114 ∷ 111 ∷ 46 ∷ 115 ∷ 101 ∷ 99 ∷ 117 ∷ 114 ∷ 101 ∷ 61 ∷ 48 ∷ []

-- ro.debuggable=0
abbrev pub debuggable_0 : List ℕ
debuggable_0 =
    114 ∷ 111 ∷ 46 ∷ 100 ∷ 101 ∷ 98 ∷ 117 ∷ 103 ∷ 103 ∷ 97 ∷ 98 ∷ 108 ∷ 101 ∷ 61 ∷ 48 ∷ []

-- ro.debuggable=1
abbrev pub debuggable_1 : List ℕ
debuggable_1 =
    114 ∷ 111 ∷ 46 ∷ 100 ∷ 101 ∷ 98 ∷ 117 ∷ 103 ∷ 103 ∷ 97 ∷ 98 ∷ 108 ∷ 101 ∷ 61 ∷ 49 ∷ []

-- prop.default
abbrev pub prop_default : List ℕ
prop_default = 112 ∷ 114 ∷ 111 ∷ 112 ∷ 46 ∷ 100 ∷ 101 ∷ 102 ∷ 97 ∷ 117 ∷ 108 ∷ 116 ∷ []

-- TRAILER!!!
abbrev pub trailer : List ℕ
trailer = 84 ∷ 82 ∷ 65 ∷ 73 ∷ 76 ∷ 69 ∷ 82 ∷ 33 ∷ 33 ∷ 33 ∷ []

-- b'\r' and b'\n'
abbrev pub is_newline : ℕ → Bool
is_newline b = b == 10 || b == 13

-- The line break at b: a line feed, or a carriage return with the line feed behind it, is its end.
abbrev pub break_at : ℕ → List (List ℕ) → List (List ℕ)
break_at b [] = (b ∷ []) ∷ []
break_at b ([] ∷ ls) = (b ∷ []) ∷ [] ∷ ls
break_at b ((c ∷ l) ∷ ls) = if b == 13 && c == 10 then (b ∷ c ∷ l) ∷ ls else (b ∷ []) ∷ (c ∷ l) ∷ ls

abbrev pub extend_first : ℕ → List (List ℕ) → List (List ℕ)
extend_first b [] = (b ∷ []) ∷ []
extend_first b (l ∷ ls) = (b ∷ l) ∷ ls

-- splitlines(keepends=True) of bytes
pub lines : List ℕ → List (List ℕ)
lines [] = []
lines (b ∷ bs) = if is_newline b then break_at b (lines bs) else extend_first b (lines bs)

abbrev pub strip_byte : ℕ → List ℕ → List ℕ
strip_byte b [] = if is_newline b then [] else b ∷ []
strip_byte b (c ∷ cs) = b ∷ (c ∷ cs)

-- line.rstrip(b"\r\n")
pub strip : List ℕ → List ℕ
strip [] = []
strip (b ∷ bs) = strip_byte b (strip bs)

-- The loop of count_exact_lines.
pub hits : List ℕ → (cursor : ℕ) → List (List ℕ) → List ℕ
unfolding strip
hits wanted cursor [] = []
hits wanted cursor (line ∷ ls) =
    let rest = hits wanted (cursor + length line) ls in
    if same_bytes (strip line) wanted then cursor ∷ rest else rest

pub count_exact_lines : List ℕ → List ℕ → List ℕ
unfolding hits lines
count_exact_lines text wanted = hits wanted 0 (lines text)
