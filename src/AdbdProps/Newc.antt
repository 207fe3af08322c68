-- ===== src/AdbdProps/Newc.antt =====
-- parse_newc of tools/patch_recovery_adbd_props.py. An error that the function raises is a Reason. The
-- offset of the loop is a natural number: where a negative size would lead before the start of the
-- archive the outcome is before_start, and the model ends there. The code goes on with indices from the
-- end of the archive; nothing is said about such a run.
use device_xiaomi_dash_twrp.Prelude.{
  ℕ, zero, suc, ◌+◌, ◌-◌, ◌*◌, ◌/◌, ◌%◌, Bool, true, false, not, ◌&&◌, ◌||◌, Option, none, some,
  List, [], ◌∷◌, ◌++◌, length, take, drop, get_elem?, ltb, leb, ◌==◌, if◌then◌else◌,
}
use device_xiaomi_dash_twrp.Memory.Bytes.{same_bytes}
use device_xiaomi_dash_twrp.VendorBoot.{bytes_at}
use device_xiaomi_dash_twrp.AdbdProps.{trailer}

pub data Reason : Type 0 where
  truncated_header invalid_magic invalid_number invalid_name name_not_utf8 truncated_data : Reason
  trailer_with_data no_trailer data_after_trailer not_one_entry not_regular not_one_line : Reason
  unexpected_change_count old_line_survived new_line_not_unique : Reason

pub data Outcome (A : Type 0) : Type 0 where
  done : A → Outcome A
  raised : Reason → Outcome A
  out_of_fuel before_start : Outcome A

infixl 5 ◌>>=◌ ◌>>◌
unfoldable pub ◌>>=◌ : {A B : Type 0} → Outcome A → (A → Outcome B) → Outcome B
done a >>= f = f a
raised why >>= f = raised why
out_of_fuel >>= f = out_of_fuel
before_start >>= f = before_start

abbrev pub ◌>>◌ : {B : Type 0} → Outcome (Unit {0}) → Outcome B → Outcome B
m >> k = m >>= λ _. k

unfoldable pub guard : Bool → Reason → Outcome (Unit {0})
guard true why = done tt
guard false why = raised why

-- What int(field, 16) gives: n, or -(n + 1), since the field may have a sign.
pub data Signed : Type 0 where
  plus : ℕ → Signed
  minus : ℕ → Signed

-- The thirteen numbers of a header, in its order.
pub record Header : Type 0 where
  pub inode : Signed
  pub mode : Signed
  pub uid : Signed
  pub gid : Signed
  pub nlink : Signed
  pub mtime : Signed
  pub size : Signed
  pub device_major : Signed
  pub device_minor : Signed
  pub rdevice_major : Signed
  pub rdevice_minor : Signed
  pub name_size : Signed
  pub check : Signed

-- The dictionary of an entry; its numbers are those of the header.
pub record Entry : Type 0 where
  pub path : List ℕ
  pub header : Header
  pub header_start : ℕ
  pub data_start : ℕ
  pub data_end : ℕ

-- aligned(value) with its alignment of 4
unfoldable pub aligned : ℕ → ℕ
aligned value = (value + 4 - 1) / 4 * 4

-- stat.S_IFMT(mode) == stat.S_IFREG: bits 12 to 15 are 8, of a negative mode in two's complement.
unfoldable pub is_regular : Signed → Bool
is_regular (plus mode) = mode / 4096 % 16 == 8
is_regular (minus mode) = mode / 4096 % 16 == 7

-- NEWC_MAGICS, b"070701" and b"070702"
abbrev pub is_magic : List ℕ → Bool
is_magic m =
    same_bytes m (48 ∷ 55 ∷ 48 ∷ 55 ∷ 48 ∷ 49 ∷ [])
    || same_bytes m (48 ∷ 55 ∷ 48 ∷ 55 ∷ 48 ∷ 50 ∷ [])

-- size != 0
abbrev pub is_zero : Signed → Bool
is_zero (plus n) = n == 0
is_zero (minus n) = false

-- name_size, which is at least 1
abbrev pub positive : Signed → Outcome ℕ
positive (plus n) = if n == 0 then raised invalid_name else done n
positive (minus n) = raised invalid_name

-- data_start + size; a trailer with a size is refused in any case.
abbrev pub end_of : (is_trailer : Bool) (data_start : ℕ) → Signed → Outcome ℕ
end_of is_trailer data_start (plus n) = done (data_start + n)
end_of is_trailer data_start (minus n) =
    if is_trailer
    then raised trailer_with_data
    else if ltb n data_start
    then done (data_start - n - 1)
    else before_start

-- blob[at] == 0, at an index that is there
abbrev pub zero_at : List ℕ → ℕ → Bool
zero_at blob at = elim (get_elem? blob at) [ none ↦ false | some b ↦ b == 0 ]

-- any(byte != 0 for byte in bs)
unfoldable pub any_byte : List ℕ → Bool
any_byte [] = false
any_byte (b ∷ bs) = not (b == 0) || any_byte bs

module _ (int_16 : List ℕ → Option Signed) (decode : List ℕ → Option (List ℕ)) where
  abbrev pub field : List ℕ → ℕ → Outcome Signed
  field header index = elim (int_16 (bytes_at header index 8)) [
    | none ↦ raised invalid_number
    | some n ↦ done n
  ]

  -- [int(header[index : index + 8], 16) for index in range(6, 110, 8)]
  unfoldable pub fields : List ℕ → Outcome Header
  fields header = do
    inode ← field header 6
    mode ← field header 14
    uid ← field header 22
    gid ← field header 30
    nlink ← field header 38
    mtime ← field header 46
    size ← field header 54
    device_major ← field header 62
    device_minor ← field header 70
    rdevice_major ← field header 78
    rdevice_minor ← field header 86
    name_size ← field header 94
    check ← field header 102
    done (record {
      inode = inode;
      mode = mode;
      uid = uid;
      gid = gid;
      nlink = nlink;
      mtime = mtime;
      size = size;
      device_major = device_major;
      device_minor = device_minor;
      rdevice_major = rdevice_major;
      rdevice_minor = rdevice_minor;
      name_size = name_size;
      check = check;
    })

  abbrev pub decoded : List ℕ → Outcome (List ℕ)
  decoded name = elim (decode name) [ none ↦ raised name_not_utf8 | some path ↦ done path ]

  -- data_end, its test, and `entry = {...}`
  unfoldable pub entry_with_path :
      List ℕ → ℕ → Header → (data_start : ℕ) → (path : List ℕ) → Outcome Entry
  entry_with_path blob offset h data_start path = do
    data_end ← end_of (same_bytes path trailer) data_start h.size
    guard (leb data_end (length blob)) truncated_data
    done (record {
      path = path;
      header = h;
      header_start = offset;
      data_start = data_start;
      data_end = data_end;
    })

  -- From `name_end = name_start + name_size` on.
  unfoldable pub entry_with_name : List ℕ → ℕ → Header → (name_size : ℕ) → Outcome Entry
  unfolding aligned entry_with_path
  entry_with_name blob offset h name_size = do
    let name_end = offset + 110 + name_size
    guard (leb name_end (length blob) && zero_at blob (name_end - 1)) invalid_name
    path ← decoded (bytes_at blob (offset + 110) (name_size - 1))
    entry_with_path blob offset h (aligned name_end) path

  -- The body of the loop up to `entry = {...}`.
  unfoldable pub entry_at : List ℕ → ℕ → Outcome Entry
  unfolding fields entry_with_name
  entry_at blob offset = do
    guard (leb (offset + 110) (length blob)) truncated_header
    let header = bytes_at blob offset 110
    guard (is_magic (take 6 header)) invalid_magic
    h ← fields header
    name_size ← positive h.name_size
    entry_with_name blob offset h name_size

  -- What is behind the trailer is zero.
  unfoldable pub behind_trailer : List ℕ → ℕ → List Entry → Outcome (List Entry)
  unfolding any_byte
  behind_trailer blob offset entries = do
    guard (not (any_byte (drop offset blob))) data_after_trailer
    done entries

  -- `if name == "TRAILER!!!"`, and what follows the loop.
  unfoldable pub close : List ℕ → Entry → List Entry → Outcome (List Entry)
  unfolding behind_trailer aligned
  close blob entry entries = do
    guard (is_zero entry.header.size) trailer_with_data
    behind_trailer blob (aligned entry.data_end) entries

  -- The loop, with the entries so far.
  unfoldable pub parse_loop : (fuel : ℕ) → List ℕ → ℕ → List Entry → Outcome (List Entry)
  unfolding entry_at close aligned
  parse_loop zero blob offset entries = out_of_fuel
  parse_loop (suc fuel) blob offset entries =
      let body = entry_at blob offset >>= λ entry.
      let more = parse_loop fuel blob (aligned entry.data_end) (entries ++ (entry ∷ [])) in
      if same_bytes entry.path trailer then close blob entry entries else more in
      if ltb offset (length blob) then body else raised no_trailer

  unfoldable pub parse_newc : List ℕ → Outcome (List Entry)
  unfolding parse_loop
  parse_newc blob = parse_loop (suc (length blob)) blob 0 []
