-- ===== src/AdbdProps/Settled.antt =====
-- The loop body of parse_newc of tools/patch_recovery_adbd_props.py for an archive that has no negative
-- size: it gives an entry or raises an error.
use device_xiaomi_dash_twrp.Prelude.{
  ℕ, ◌+◌, ◌-◌, ◌≡◌, ◌≢◌, refl, sym, ap, ◌∙◌, inl, inr, Bool, true, false, Option, none, some, List,
  arith, ◌==◌, Bool-cases,
}
use device_xiaomi_dash_twrp.Memory.Bytes.{same_bytes}
use device_xiaomi_dash_twrp.VendorBoot.{bytes_at}
use device_xiaomi_dash_twrp.VendorBoot.Slices.{bytes_at-bytes_at}
use device_xiaomi_dash_twrp.AdbdProps.{trailer}
use device_xiaomi_dash_twrp.AdbdProps.Newc.{
  invalid_number, name_not_utf8, Outcome, done, raised, out_of_fuel, before_start, Reason, guard,
  ◌>>=◌, ◌>>◌, Signed, plus, minus, Header, aligned, positive, end_of, field, fields, decoded,
  entry_with_path, entry_with_name, entry_at,
}
use device_xiaomi_dash_twrp.AdbdProps.Entries.{bind_done, done_inj}

-- The code has come to a result or to an error.
abbrev pub IsSettled : {A : Type 0} → Outcome A → Type 0
IsSettled (done a) = Unit {0}
IsSettled (raised why) = Unit {0}
IsSettled out_of_fuel = ⊥
IsSettled before_start = ⊥

pub bind-IsSettled :
    {A B : Type 0} (m : Outcome A) (f : A → Outcome B)
    → IsSettled m
    → ((a : A) → m ≡ done a → IsSettled (f a))
    → IsSettled (m >>= f)
unfolding ◌>>=◌
bind-IsSettled (done a) f h k = k a refl
bind-IsSettled (raised why) f h k = tt
bind-IsSettled out_of_fuel f h k = absurd h
bind-IsSettled before_start f h k = absurd h

pub guard-IsSettled :
    {B : Type 0} (t : Bool) (why : Reason) (k : Outcome B)
    → (t ≡ true → IsSettled k)
    → IsSettled (guard t why >> k)
unfolding ◌>>=◌ guard
guard-IsSettled true why k h = h refl
guard-IsSettled false why k h = tt

positive-IsSettled : (s : Signed) → IsSettled (positive s)
positive-IsSettled (plus n) = elim (Bool-cases (n == 0)) [ inl z ↦ rw z tt | inr p ↦ rw p tt ]
positive-IsSettled (minus n) = tt

abbrev pub IsNonNegative : Signed → Type 0
IsNonNegative (plus n) = Unit {0}
IsNonNegative (minus n) = ⊥

end-IsSettled : (t : Bool) (start : ℕ) (s : Signed) → IsNonNegative s → IsSettled (end_of t start s)
end-IsSettled t start (plus n) h = tt
end-IsSettled t start (minus n) h = absurd h

pub then_done :
    {A B C : Type 0} (m : Outcome A) (f : A → Outcome B) (b : B)
    → (m >>= f) ≡ done b
    → ((a : A) → m ≡ done a → f a ≡ done b → C)
    → C
then_done m f b h k = let (a, ran, rest) = bind_done m f b h in k a ran rest

pub read_some :
    (r : Option Signed) (s : Signed)
    → (elim r as (λ _. Outcome Signed) [ none ↦ raised invalid_number | some n ↦ done n ]) ≡ done s
    → r ≡ some s
read_some none s h = cc
read_some (some n) s h = ap some (done_inj n s h)

module _ (int_16 : List ℕ → Option Signed) (decode : List ℕ → Option (List ℕ)) where
  field-IsSettled : (header : List ℕ) (i : ℕ) → IsSettled (field int_16 decode header i)
  field-IsSettled header i =
      elim (int_16 (bytes_at header i 8))
        as (λ r.
          IsSettled
            (elim r as (λ _. Outcome Signed) [ none ↦ raised invalid_number | some n ↦ done n ])) [
              | none ↦ tt
              | some n ↦ tt
            ]

  fields-IsSettled : (header : List ℕ) → IsSettled (fields int_16 decode header)
  unfolding fields
  fields-IsSettled header = bind-IsSettled _ _ (field-IsSettled header 6) (λ inode _.
      bind-IsSettled _ _ (field-IsSettled header 14) (λ mode _.
        bind-IsSettled _ _ (field-IsSettled header 22) (λ uid _.
          bind-IsSettled _ _ (field-IsSettled header 30) (λ gid _.
            bind-IsSettled _ _ (field-IsSettled header 38) (λ nlink _.
              bind-IsSettled _ _ (field-IsSettled header 46) (λ mtime _.
                bind-IsSettled _ _ (field-IsSettled header 54) (λ size _.
                  bind-IsSettled _ _ (field-IsSettled header 62) (λ device_major _.
                    bind-IsSettled _ _ (field-IsSettled header 70) (λ device_minor _.
                      bind-IsSettled _ _ (field-IsSettled header 78) (λ rdevice_major _.
                        bind-IsSettled _ _ (field-IsSettled header 86) (λ rdevice_minor _.
                          bind-IsSettled _ _ (field-IsSettled header 94) (λ name_size _.
                            bind-IsSettled _ _ (field-IsSettled header 102)
                              (λ check _. tt)))))))))))))

  fields-size :
      (header : List ℕ) (h : Header)
      → fields int_16 decode header ≡ done h
      → field int_16 decode header 54 ≡ done h.size
  unfolding fields
  fields-size header h eq = then_done _ _ h eq (λ inode read_inode eq1.
      then_done _ _ h eq1 (λ mode read_mode eq2. then_done _ _ h eq2 (λ uid read_uid eq3.
        then_done _ _ h eq3 (λ gid read_gid eq4. then_done _ _ h eq4 (λ nlink read_nlink eq5.
          then_done _ _ h eq5 (λ mtime read_mtime eq6. then_done _ _ h eq6 (λ size read_size eq7.
            then_done _ _ h eq7 (λ device_major read_device_major eq8.
              then_done _ _ h eq8 (λ device_minor read_device_minor eq9.
                then_done _ _ h eq9 (λ rdevice_major read_rdevice_major eq10.
                  then_done _ _ h eq10 (λ rdevice_minor read_rdevice_minor eq11.
                    then_done _ _ h eq11 (λ name_size read_name_size eq12.
                      then_done _ _ h eq12 (λ check read_check eq13.
                        read_size ∙ ap (λ k. done k.size) (done_inj _ h eq13))))))))))))))

  -- The size of the header at this offset, if it is a number, is not negative.
  abbrev pub SizeNotNegative : List ℕ → ℕ → Type 0
  SizeNotNegative blob offset = (k : ℕ) → int_16 (bytes_at blob (offset + 54) 8) ≢ some (minus k)

  sign_of :
      (header : List ℕ) (i : ℕ) (s : Signed)
      → ((k : ℕ) → int_16 (bytes_at header i 8) ≢ some (minus k))
      → field int_16 decode header i ≡ done s
      → IsNonNegative s
  sign_of header i (plus n) none_below e = tt
  sign_of header i (minus k) none_below e =
      none_below k (read_some (int_16 (bytes_at header i 8)) (minus k) e)

  size-IsNonNegative :
      (blob : List ℕ) (offset : ℕ) (h : Header)
      → SizeNotNegative blob offset
      → fields int_16 decode (bytes_at blob offset 110) ≡ done h
      → IsNonNegative h.size
  size-IsNonNegative blob offset h none_below e =
      let header = bytes_at blob offset 110 in
      let part = bytes_at-bytes_at blob offset 110 54 8 (offset + 54) (omega arith) refl in
      sign_of header 54 h.size (λ k read. none_below k (ap int_16 (sym part) ∙ read))
        (fields-size header h e)

  with_path-IsSettled :
      (blob : List ℕ) (offset : ℕ) (h : Header) (start : ℕ) (path : List ℕ)
      → IsNonNegative h.size
      → IsSettled (entry_with_path int_16 decode blob offset h start path)
  unfolding entry_with_path
  with_path-IsSettled blob offset h start path sign =
      bind-IsSettled _ _ (end-IsSettled (same_bytes path trailer) start h.size sign)
        (λ k _. guard-IsSettled _ _ _ (λ _. tt))

  decoded-IsSettled : (name : List ℕ) → IsSettled (decoded int_16 decode name)
  decoded-IsSettled name =
      elim (decode name)
        as (λ r.
          IsSettled
            (elim r as (λ _. Outcome (List ℕ)) [ none ↦ raised name_not_utf8 | some n ↦ done n ])) [
              | none ↦ tt
              | some n ↦ tt
            ]

  with_name-IsSettled :
      (blob : List ℕ) (offset : ℕ) (h : Header) (name_size : ℕ)
      → IsNonNegative h.size
      → IsSettled (entry_with_name int_16 decode blob offset h name_size)
  unfolding entry_with_name
  with_name-IsSettled blob offset h name_size sign = guard-IsSettled _ _ _ (λ _.
      bind-IsSettled _ _ (decoded-IsSettled (bytes_at blob (offset + 110) (name_size - 1)))
        (λ path _.
          with_path-IsSettled blob offset h (aligned (offset + 110 + name_size)) path sign))

  pub entry_at-IsSettled :
      (blob : List ℕ) (offset : ℕ)
      → SizeNotNegative blob offset
      → IsSettled (entry_at int_16 decode blob offset)
  unfolding entry_at
  entry_at-IsSettled blob offset none_below = guard-IsSettled _ _ _ (λ _.
      guard-IsSettled _ _ _ (λ _.
        bind-IsSettled _ _ (fields-IsSettled (bytes_at blob offset 110)) (λ h read.
          bind-IsSettled _ _ (positive-IsSettled h.name_size) (λ name_size _.
            with_name-IsSettled blob offset h name_size
              (size-IsNonNegative blob offset h none_below read)))))
