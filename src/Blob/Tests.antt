-- ===== src/Blob/Tests.antt =====
-- TKeymasterBlob at concrete blobs.
use device_xiaomi_dash_twrp.Prelude.{
  ℕ, ◌≡◌, ◌≢◌, ◌↔◌, ◌⊎◌, List, Option, true, refl, false, none, some, [], ◌∷◌,
}
use device_xiaomi_dash_twrp.Blob.{Blob, copy_assign, move_construct, move_assign, reset, release}
use device_xiaomi_dash_twrp.Blob.Ownership.{IsValid, Wiped, assignments_wipe}

abbrev key : Blob
key = record { data_ptr = some (7 ∷ 8 ∷ 9 ∷ []); data_length = 3 }

abbrev other_key : Blob
other_key = record { data_ptr = some (1 ∷ 2 ∷ []); data_length = 2 }

abbrev no_copy : Option (List ℕ)
no_copy = none

assignments_wipe_example :
    Wiped (reset (some (0 ∷ 0 ∷ [])) 2 key).0
    × IsValid (reset (some (0 ∷ 0 ∷ [])) 2 key).1
    × Wiped (move_assign false other_key key).0
    × IsValid (move_assign false other_key key).1
    × IsValid (move_assign false other_key key).2
    × Wiped (copy_assign false none other_key key).0
    × (IsValid (copy_assign false none other_key key).1
        ↔ ((false ≡ true) ⊎ ((no_copy ≢ none) ⊎ (other_key.data_length ≡ 0))))
    × IsValid (move_construct other_key).1
    × IsValid (release key).1
assignments_wipe_example =
    assignments_wipe key other_key false (some (0 ∷ 0 ∷ [])) 2 none refl refl refl tt
