-- ===== src/Arrays.antt =====
-- The array functions of prebuilt/a15-aidl/include/keymaster/keymaster/mem.h. An array is the list of
-- its elements; what `new (std::nothrow)` gave is an argument.
pub mod Search
mod Tests
use device_xiaomi_dash_twrp.Prelude.{
  ℕ, zero, suc, ◌*◌, ◌≡◌, Bool, true, false, Option, none, some, List, [], ◌∷◌, length,
  if◌then◌else◌,
}

module _ {ℓ} {A : Type ℓ} where
  -- array_size, for elements of `width` bytes, and array_length
  pub array_size : (width : ℕ) → List A → ℕ
  array_size width a = length a * width

  pub array_length : List A → ℕ
  array_length a = length a

  -- `for (size_t i = 0; i < n; ++i) dest[i] = a[i];`, with what stood in `dest`. Writing or reading
  -- past an array is `none`.
  pub copy_elements : ℕ → List A → List A → Option (List A)
  copy_elements zero a dest = some dest
  copy_elements (suc n) [] dest = none
  copy_elements (suc n) (v ∷ a) [] = none
  copy_elements (suc n) (v ∷ a) (old ∷ dest) = elim (copy_elements n a dest) [
    | none ↦ none
    | some copied ↦ some (v ∷ copied)
  ]

  -- dup_array(const T* a, size_t n); `storage` is the new array, or null. `some none` is the null
  -- pointer returned.
  pub dup_array : Option (List A) → List A → ℕ → Option (Option (List A))
  unfolding copy_elements
  dup_array none a n = some none
  dup_array (some storage) a n = elim (copy_elements n a storage) [
    | none ↦ none
    | some dup ↦ some (some dup)
  ]

  -- copy_array(arr, dest)
  pub copy_array : List A → List A → Option (List A)
  unfolding copy_elements
  copy_array arr dest = copy_elements (length arr) arr dest

  -- array_contains(a, val), over the operator== of the elements
  pub array_contains : (A → A → Bool) → List A → A → Bool
  array_contains equal [] val = false
  array_contains equal (v ∷ a) val = if equal v val then true else array_contains equal a val
