-- ===== src/KeyMint/Utils/Certificates.antt =====
-- kmCertChain2Aidl of KeyMintUtils.h on the chains of android_keymaster_utils.h.
use mathlib.Core.List.{append_assoc}
use device_xiaomi_dash_twrp.Prelude.{
  ℕ, ◌≡◌, refl, ap, subst, ◌∙◌, Option, none, some, List, [], ◌∷◌, ◌++◌, map, length, length-append,
  length-replicate, take_all, set_at, set_at-append, get_elem?-middle, le→leb, beq-ne, replicate,
  arith,
}
use device_xiaomi_dash_twrp.Blob.{Blob, contents}
use device_xiaomi_dash_twrp.CertificateChain.{CertChain, entries_of}
use device_xiaomi_dash_twrp.CertificateChain.Ownership.{IsValid, certificates}
use device_xiaomi_dash_twrp.KeyMint.Utils.{
  read_range, km_blob_to_vector, convert_entries, km_cert_chain_to_aidl,
}

-- A blob whose size is that of its memory.
abbrev pub IsFull : Blob → Type 0
IsFull b = b.data_length ≡ length (contents b.data_ptr)

abbrev pub AllFull : Option (List Blob) → Type 0
AllFull none = Unit {0}
AllFull (some []) = Unit {0}
AllFull (some (b ∷ bs)) = IsFull b × AllFull (some bs)

read_range_lem :
    (storage : Option (List ℕ)) (n : ℕ)
    → n ≡ length (contents storage)
    → read_range storage n ≡ some (contents storage)
read_range_lem none n h = rw (h)
read_range_lem (some bs) n h = rw (h, le→leb (length bs) (length bs) (omega arith), take_all bs)

set_at_len :
    (out fresh : List (List ℕ)) (n : ℕ) (v f : List ℕ)
    → length out ≡ n
    → set_at (out ++ f ∷ fresh) n v ≡ (out ++ v ∷ []) ++ fresh
set_at_len out fresh n v f h =
    subst (λ k. set_at (out ++ f ∷ fresh) k v ≡ (out ++ v ∷ []) ++ fresh) h
      (set_at-append out fresh v f)

convert_lem :
    (done entries : List Blob) (out fresh : List (List ℕ))
    → AllFull (some entries)
    → length fresh ≡ length entries
    → length out ≡ length done
    → convert_entries (length entries) (length done) (done ++ entries) (out ++ fresh)
      ≡ some (out ++ map (λ b. contents b.data_ptr) entries)
unfolding convert_entries km_blob_to_vector
convert_lem done [] out [] full same len = refl
convert_lem done [] out (f ∷ fresh) full same len = absurd (omega arith)
convert_lem done (b ∷ entries) out [] full same len = absurd (omega arith)
convert_lem done (b ∷ entries) out (f ∷ fresh) (one, rest) same len =
    let v = contents b.data_ptr in
    let longer : length (out ++ v ∷ []) ≡ length (done ++ b ∷ []) =
      omega (arith, length-append out (v ∷ []), length-append done (b ∷ []), len) in
    let next =
      subst
        (λ o.
          convert_entries (length entries) (length (done ++ b ∷ [])) o ((out ++ v ∷ []) ++ fresh)
          ≡ some ((out ++ v ∷ []) ++ map (λ e. contents e.data_ptr) entries))
        (append_assoc done (b ∷ []) entries)
        (convert_lem (done ++ b ∷ []) entries (out ++ v ∷ []) fresh rest (omega arith) longer) in
    rw
      (
        convert_entries,
        get_elem?-middle done entries b,
        read_range_lem b.data_ptr b.data_length one,
        set_at_len out fresh (length done) v f len,
        ← length-append done (b ∷ []),
      )
      (next ∙ ap some (append_assoc out (v ∷ []) (map (λ e. contents e.data_ptr) entries)))

chain_lem :
    (entries : Option (List Blob)) (n : ℕ)
    → IsValid (record { entries = entries; entry_count = n })
    → AllFull entries
    → let chain : CertChain = record { entries = entries; entry_count = n } in
      km_cert_chain_to_aidl chain ≡ some (certificates chain)
unfolding km_cert_chain_to_aidl entries_of
chain_lem none n valid full = rw (valid)
chain_lem (some []) n valid full = rw (valid)
chain_lem (some (b ∷ bs)) n valid full =
    let size = length (b ∷ bs) in
    let fresh : List (List ℕ) = replicate size [] in
    rw (valid, beq-ne size 0 (λ e. absurd (omega (arith, e))))
      (convert_lem [] (b ∷ bs) [] fresh full (length-replicate size []) refl)

-- Of a chain whose count is that of its entries and whose entries have the size of their memory,
-- kmCertChain2Aidl reads only inside the entries and gives the bytes of each certificate, in order.
pub cert_chain_lem :
    (chain : CertChain)
    → IsValid chain
    → AllFull chain.entries
    → km_cert_chain_to_aidl chain ≡ some (certificates chain)
cert_chain_lem chain valid full = chain_lem chain.entries chain.entry_count valid full
