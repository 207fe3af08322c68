-- ===== src/CertificateChain/Ownership.antt =====
-- CertificateChain: the count against the array, and the certificates of a copy.
use device_xiaomi_dash_twrp.Prelude.{
  ℕ, ◌+◌, ◌≡◌, ◌≢◌, refl, Bool, true, false, Option, none, some, List, [], ◌∷◌, map, length, arith,
  if◌then◌else◌, length-replicate,
}
use device_xiaomi_dash_twrp.Blob.{Blob, contents, null_blob}
use device_xiaomi_dash_twrp.CertificateChain.{
  CertChain, with_length, entries_of, move_assign, push_front,
}

-- The count is that of the array, and 0 without one.
abbrev Counted : Option (List Blob) → ℕ → Type 0
Counted none n = n ≡ 0
Counted (some bs) n = n ≡ length bs

abbrev pub IsValid : CertChain → Type 0
IsValid c = Counted c.entries c.entry_count

abbrev pub certificates : CertChain → List (List ℕ)
unfolding entries_of
certificates c = map (λ b. contents b.data_ptr) (entries_of c.entries)

with_length-IsValid : (given : Bool) (n : ℕ) → IsValid (with_length given n)
unfolding with_length
with_length-IsValid true n = omega (arith, length-replicate n null_blob)
with_length-IsValid false n = refl

-- Each entry has the size of its memory.
abbrev pub AreValid : List Blob → Type 0
AreValid [] = Unit {0}
AreValid (b ∷ bs) = (b.data_length ≡ length (contents b.data_ptr)) × AreValid bs

-- Every allocation gave memory.
abbrev pub AllGiven : List Bool → Type 0
AllGiven [] = Unit {0}
AllGiven (a ∷ allowed) = (a ≡ true) × AllGiven allowed

abbrev Copied : List Blob → List Blob → Type 0
Copied copies bs =
    (length copies ≡ length bs)
    × (map (λ b. contents b.data_ptr) copies ≡ map (λ b. contents b.data_ptr) bs)
    × AreValid copies

-- A chain with an array of its own that has the same certificates, and the right sizes.
abbrev pub IsClone : CertChain → CertChain → Type 0
IsClone copy other =
    (copy.entries ≢ none)
    × (certificates copy ≡ certificates other)
    × (copy.entry_count ≡ other.entry_count)
    × IsValid copy
    × AreValid (entries_of copy.entries)

front_lem :
    (new_entry : Blob) (entries : Option (List Blob)) (n : ℕ)
    → Counted entries n
    → n + 1 ≡ length (new_entry ∷ entries_of entries)
unfolding entries_of
front_lem new_entry none n h = omega arith
front_lem new_entry (some bs) n h = omega arith

-- push_front puts the new certificate before the others and keeps the count right; without memory
-- it says false and changes nothing. Moving a chain leaves the source empty.
pub push_front_lem :
    (given : Bool) (new_entry : Blob) (c other : CertChain)
    → IsValid c
    → IsValid other
    → ((push_front given new_entry c).0 ≡ given)
      × (certificates (push_front given new_entry c).1
          ≡ (if given then contents new_entry.data_ptr ∷ certificates c else certificates c))
      × IsValid (push_front given new_entry c).1
      × IsValid (move_assign other c).1
      × (certificates (move_assign other c).1 ≡ certificates other)
      × (certificates (move_assign other c).2 ≡ [])
unfolding push_front move_assign certificates
push_front_lem true new_entry c other vc vo =
    (refl, refl, front_lem new_entry c.entries c.entry_count vc, vo, refl, refl)
push_front_lem false new_entry c other vc vo = (refl, refl, vc, vo, refl, refl)
