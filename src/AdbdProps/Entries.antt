-- ===== src/AdbdProps/Entries.antt =====
-- What entry_at, a turn of the loop of parse_newc of tools/patch_recovery_adbd_props.py, has read.
use device_xiaomi_dash_twrp.Prelude.{
  ℕ, ◌+◌, ◌==◌, ◌≡◌, ◌≤◌, ◌<◌, refl, sym, ap, subst, inl, inr, Bool, true, false, Option, List,
  length, arith, Bool-cases,
}
use device_xiaomi_dash_twrp.AdbdProps.Newc.{
  Outcome, done, raised, out_of_fuel, before_start, Reason, guard, ◌>>=◌, ◌>>◌, Signed, plus, minus,
  Header, Entry, entry_with_path, entry_with_name, aligned, positive, entry_at,
}

pub done_inj : {A : Type 0} (a b : A) → done a ≡ done b → a ≡ b
done_inj a b h = cc

pub bind_done :
    {A B : Type 0} (m : Outcome A) (f : A → Outcome B) (b : B)
    → (m >>= f) ≡ done b
    → (a : A) × (m ≡ done a) × (f a ≡ done b)
unfolding ◌>>=◌
bind_done (done a) f b h = (a, refl, h)
bind_done (raised why) f b h = cc
bind_done out_of_fuel f b h = cc
bind_done before_start f b h = cc

pub guard_done :
    {B : Type 0} (t : Bool) (why : Reason) (k : Outcome B) (b : B)
    → (guard t why >> k) ≡ done b
    → (t ≡ true) × (k ≡ done b)
unfolding ◌>>=◌ guard
guard_done true why k b h = (refl, h)
guard_done false why k b h = cc

-- A name and data end where the archive ends, or before.
abbrev pub InArchive : List ℕ → ℕ → Entry → Type 0
InArchive blob offset e =
    (e.header_start ≡ offset) × (offset + 110 < e.data_start) × (e.data_end ≤ length blob)

pub aligned_ge : (n : ℕ) → n ≤ aligned n
unfolding aligned
aligned_ge n = omega arith

positive_lem : (s : Signed) (n : ℕ) → positive s ≡ done n → 0 < n
positive_lem (plus m) n h = elim (Bool-cases (m == 0)) [
  | inl none_read ↦ cc (rw none_read at h)
  | inr some_read ↦ let same = done_inj m n (rw some_read at h) in ground arith
]
positive_lem (minus m) n h = cc

module _ (int_16 : List ℕ → Option Signed) (decode : List ℕ → Option (List ℕ)) where
  with_path :
      (blob : List ℕ) (offset : ℕ) (h : Header) (data_start : ℕ) (path : List ℕ) (e : Entry)
      → entry_with_path int_16 decode blob offset h data_start path ≡ done e
      → (e.header_start ≡ offset) × (e.data_start ≡ data_start) × (e.data_end ≤ length blob)
  unfolding entry_with_path
  with_path blob offset h data_start path e eq =
      let (data_end, ends, eq1) = bind_done _ _ e eq in
      let (fits, eq2) = guard_done _ _ _ e eq1 in
      let made = done_inj _ e eq2 in
      (
        ap (λ k. k.header_start) (sym made),
        ap (λ k. k.data_start) (sym made),
        subst (λ k. k.data_end ≤ length blob) made (ground arith),
      )

  with_name :
      (blob : List ℕ) (offset : ℕ) (h : Header) (name_size : ℕ) (e : Entry)
      → 0 < name_size
      → entry_with_name int_16 decode blob offset h name_size ≡ done e
      → InArchive blob offset e
  unfolding entry_with_name
  with_name blob offset h name_size e some_name eq =
      let (fits, eq1) = guard_done _ _ _ e eq in
      let (path, text, eq2) = bind_done _ _ e eq1 in
      let (start, begins, ends) =
        with_path blob offset h (aligned (offset + 110 + name_size)) path e eq2 in
      (start, omega (arith, begins, aligned_ge (offset + 110 + name_size)), ends)

  pub entry_at-InArchive :
      (blob : List ℕ) (offset : ℕ) (e : Entry)
      → entry_at int_16 decode blob offset ≡ done e
      → InArchive blob offset e
  unfolding entry_at
  entry_at-InArchive blob offset e eq =
      let (fits, eq1) = guard_done _ _ _ e eq in
      let (magic, eq2) = guard_done _ _ _ e eq1 in
      let (h, read, eq3) = bind_done _ _ e eq2 in
      let (name_size, named, eq4) = bind_done _ _ e eq3 in
      with_name blob offset h name_size e (positive_lem h.name_size name_size named) eq4
