-- ===== src/CertificateChain.antt =====
-- CertificateChain of android_keymaster_utils.h: an array of blobs that owns its entries. A null
-- `entries` is `none`; what `new (std::nothrow)` gave is an argument.
pub mod Ownership
mod Tests
use device_xiaomi_dash_twrp.Prelude.{
  ℕ, zero, suc, ◌+◌, ◌≡◌, Bool, true, false, Option, none, some, List, [], ◌∷◌, ◌++◌, map, length,
  take, if◌then◌else◌, replicate,
}
use device_xiaomi_dash_twrp.Blob.{Blob, null_blob, contents}

-- keymaster_cert_chain_t
pub record CertChain : Type 0 where
  pub entries : Option (List Blob)
  pub entry_count : ℕ

abbrev pub empty_chain : CertChain
empty_chain = record { entries = none; entry_count = 0 }

-- explicit CertificateChain(size_t length); `given` says whether the array could be allocated.
pub with_length : Bool → ℕ → CertChain
with_length given n =
    if given
    then record { entries = some (replicate n null_blob); entry_count = n }
    else empty_chain

-- Clear(): the blocks of the entries that it deletes, and the chain after it. Deleting a null
-- pointer does nothing.
blocks : List Blob → List (List ℕ)
blocks [] = []
blocks (b ∷ bs) = elim b.data_ptr [ none ↦ blocks bs | some bytes ↦ bytes ∷ blocks bs ]

unfoldable pub entries_of : Option (List Blob) → List Blob
entries_of none = []
entries_of (some bs) = bs

pub clear : CertChain → List (List ℕ) × CertChain
unfolding blocks entries_of
clear c = (blocks (entries_of c.entries), empty_chain)

-- CertificateChain& operator=(CertificateChain&& other): the blocks freed, this, other. The move
-- constructor is the assignment to an empty chain.
pub move_assign : CertChain → CertChain → List (List ℕ) × CertChain × CertChain
unfolding clear
move_assign other this = ((clear this).0, other, empty_chain)

-- The loop of clone. `allowed` are the outcomes of its allocations, in order; where one fails the
-- entries copied so far are freed with the local chain.
clone_entries : List Bool → List Blob → Option (List Blob)
clone_entries allowed [] = some []
clone_entries [] (b ∷ bs) = none
clone_entries (a ∷ allowed) (b ∷ bs) =
    let rest : Option (List Blob) = elim (clone_entries allowed bs) [
      | none ↦ none
      | some copies ↦ some (
          record {
            data_ptr = some (take b.data_length (contents b.data_ptr));
            data_length = b.data_length;
          }
          ∷ copies)
    ] in
    if a then rest else none

-- static CertificateChain clone(const keymaster_cert_chain_t& other); the first outcome is that of
-- the array.
pub clone : List Bool → CertChain → CertChain
unfolding clone_entries entries_of
clone [] other = empty_chain
clone (a ∷ allowed) other =
    let copied : CertChain = elim (clone_entries allowed (entries_of other.entries)) [
      | none ↦ empty_chain
      | some copies ↦ record { entries = some copies; entry_count = other.entry_count }
    ] in
    if a then copied else empty_chain

-- bool push_front(const keymaster_blob_t& new_entry)
pub push_front : Bool → Blob → CertChain → Bool × CertChain
unfolding entries_of
push_front given new_entry c =
    if given
    then (
      true,
      record { entries = some (new_entry ∷ entries_of c.entries); entry_count = c.entry_count + 1 },
    )
    else (false, c)

-- keymaster_cert_chain_t release(): the struct handed out, and this.
pub release : CertChain → CertChain × CertChain
release c = (c, empty_chain)
