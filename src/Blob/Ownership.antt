-- ===== src/Blob/Ownership.antt =====
-- TKeymasterBlob: the size against the memory, and what is in the memory that is freed.
use device_xiaomi_dash_twrp.Prelude.{
  ℕ, ◌≡◌, ◌≢◌, ◌↔◌, ◌⊎◌, inl, inr, refl, Bool, true, false, Option, none, some, List, [], ◌∷◌,
  length,
}
use device_xiaomi_dash_twrp.Blob.{
  Blob, Freed, null_blob, sized, zero_first, wipe, clear, copy_assign, move_construct, move_assign,
  reset, release,
}

-- The size is that of the block, and 0 without one.
abbrev Agree : Option (List ℕ) → ℕ → Type 0
Agree none size = size ≡ 0
Agree (some bs) size = size ≡ length bs

abbrev pub IsValid : Blob → Type 0
IsValid b = Agree b.data_ptr b.data_length

-- A block of `size` bytes, if there is one.
abbrev pub HasSize : Option (List ℕ) → ℕ → Type 0
HasSize none size = Unit {0}
HasSize (some bs) size = size ≡ length bs

abbrev pub AllZero : List ℕ → Type 0
AllZero [] = Unit {0}
AllZero (b ∷ bs) = (b ≡ 0) × AllZero bs

abbrev pub Wiped : Freed → Type 0
Wiped [] = Unit {0}
Wiped (block ∷ blocks) = AllZero block × Wiped blocks

-- Moving into an empty blob frees nothing, and neither does clearing one.
pub move_assign_empty : (rhs : Blob) → move_assign false rhs null_blob ≡ ([], rhs, null_blob)
unfolding move_assign clear wipe
move_assign_empty rhs = refl

pub clear_empty : clear null_blob ≡ ([], null_blob)
unfolding clear wipe
clear_empty = refl

pub sized-IsValid :
    (storage : Option (List ℕ)) (size : ℕ) → HasSize storage size → IsValid (sized storage size)
sized-IsValid none size h = refl
sized-IsValid (some bs) size h = h

zero_first-AllZero : (bs : List ℕ) → AllZero (zero_first (length bs) bs)
unfolding zero_first
zero_first-AllZero [] = tt
zero_first-AllZero (b ∷ bs) = (refl, zero_first-AllZero bs)

wipe-Wiped : (d : Option (List ℕ)) (size : ℕ) → Agree d size → Wiped (wipe d size)
unfolding wipe
wipe-Wiped none size h = tt
wipe-Wiped (some bs) size h = rw h (zero_first-AllZero bs, tt)

clear-Wiped : (b : Blob) → IsValid b → Wiped (clear b).0
unfolding clear
clear-Wiped b h = wipe-Wiped b.data_ptr b.data_length h

-- An assigned copy has the size of the source whether there is memory for it or not.
copied-IsValid :
    (copy : Option (List ℕ)) (size : ℕ)
    → HasSize copy size
    → Agree copy size ↔ ((copy ≢ none) ⊎ (size ≡ 0))
copied-IsValid none size held = (
  λ empty. inr empty,
  λ h. elim h [ inl some_memory ↦ absurd (some_memory refl) | inr empty ↦ empty ],
)
copied-IsValid (some bs) size held = (λ h. inl (λ none_there. cc), λ h. held)

-- From a blob whose size agrees with its memory, Reset, move assignment and copy assignment free
-- only blocks that have been overwritten by zeros. Reset, release and moves leave blobs whose size
-- agrees with their memory. Copy assignment leaves one exactly when it is an assignment to itself, or
-- dup_buffer gave memory, or the source is empty.
pub assignments_wipe :
    (this rhs : Blob) (same : Bool) (storage : Option (List ℕ)) (n : ℕ) (copy : Option (List ℕ))
    → IsValid this
    → IsValid rhs
    → HasSize storage n
    → HasSize copy rhs.data_length
    → Wiped (reset storage n this).0
      × IsValid (reset storage n this).1
      × Wiped (move_assign same rhs this).0
      × IsValid (move_assign same rhs this).1
      × IsValid (move_assign same rhs this).2
      × Wiped (copy_assign same copy rhs this).0
      × (IsValid (copy_assign same copy rhs this).1
          ↔ ((same ≡ true) ⊎ ((copy ≢ none) ⊎ (rhs.data_length ≡ 0))))
      × IsValid (move_construct rhs).1
      × IsValid (release this).1
unfolding reset move_assign copy_assign move_construct release
assignments_wipe this rhs true storage n copy vt vr vs vc = (
  clear-Wiped this vt,
  sized-IsValid storage n vs,
  tt,
  vt,
  vt,
  tt,
  (λ h. inl refl, λ h. vt),
  refl,
  refl,
)
assignments_wipe this rhs false storage n copy vt vr vs vc =
    let (to, from) = copied-IsValid copy rhs.data_length vc in
    (
      clear-Wiped this vt,
      sized-IsValid storage n vs,
      clear-Wiped this vt,
      vr,
      refl,
      clear-Wiped this vt,
      (λ h. inr (to h), λ h. elim h [ inl itself ↦ cc | inr other ↦ from other ]),
      refl,
      refl,
    )
