-- ===== src/AdbdProps/Archive.antt =====
-- The data of an entry in the archive of tools/patch_recovery_adbd_props.py, where a line is replaced.
use device_xiaomi_dash_twrp.Prelude.{
  ℕ, zero, suc, ◌+◌, ◌≡◌, ◌≤◌, refl, sym, ap, ◌∙◌, inl, inr, ◌⊎◌, List, [], ◌∷◌, ◌++◌, length, take,
  drop, arith,
}
use device_xiaomi_dash_twrp.VendorBoot.{bytes_at, put}
use device_xiaomi_dash_twrp.VendorBoot.Slices.{length-put, put_below, put_above, bytes_at-bytes_at}
use device_xiaomi_dash_twrp.AdbdProps.{lines, count_exact_lines}
use device_xiaomi_dash_twrp.AdbdProps.Hits.{IsPlain, relabel}
use device_xiaomi_dash_twrp.AdbdProps.Place.{replace_line}
use device_xiaomi_dash_twrp.AdbdProps.Changes.{distance, distance-put}

take_over :
    (x d : List ℕ) (n : ℕ)
    → length x ≤ n
    → n ≤ length d
    → take n (x ++ drop (length x) d) ≡ x ++ drop (length x) (take n d)
take_over [] d n h long = refl
take_over (a ∷ x) d zero h long = absurd (omega arith)
take_over (a ∷ x) [] (suc n) h long = absurd (omega arith)
take_over (a ∷ x) (b ∷ d) (suc n) h long =
    ap (λ k. a ∷ k) (take_over x d n (omega arith) (omega arith))

take-put :
    (x d : List ℕ) (h n : ℕ)
    → h + length x ≤ n
    → n ≤ length d
    → take n (put d h (length x) x) ≡ put (take n d) h (length x) x
take-put x d zero n room long = take_over x d n (omega arith) long
take-put x d (suc h) zero room long = absurd (omega arith)
take-put x [] (suc h) (suc n) room long = absurd (omega arith)
take-put x (b ∷ d) (suc h) (suc n) room long =
    ap (λ k. b ∷ k) (take-put x d h n (omega arith) (omega arith))

-- What an assignment within a slice makes of the slice.
slice-put :
    (x d : List ℕ) (start h n p : ℕ)
    → p ≡ start + h
    → h + length x ≤ n
    → start + n ≤ length d
    → bytes_at (put d p (length x) x) start n ≡ put (bytes_at d start n) h (length x) x
slice-put x d zero h n p at room long =
    ap (λ k. bytes_at (put d k (length x) x) 0 n) {y = h} (omega arith)
    ∙ take-put x d h n room (omega arith)
slice-put x d (suc start) h n zero at room long = absurd (omega arith)
slice-put x [] (suc start) h n (suc p) at room long = absurd (omega arith)
slice-put x (b ∷ d) (suc start) h n (suc p) at room long =
    slice-put x d start h n p (omega arith) room (omega arith)

length-take_most : (d : List ℕ) (n : ℕ) → length (take n d) ≤ n
length-take_most d zero = omega arith
length-take_most [] (suc n) = omega arith
length-take_most (b ∷ d) (suc n) = omega (arith, length-take_most d n)

-- What holds behind a replacement of a line of the slice, for the archive it is made in.
abbrev pub Outside : (start n : ℕ) → List ℕ → List ℕ → Type 0
Outside start n d e =
    (p m : ℕ) → (p + m ≤ start) ⊎ (start + n ≤ p) → bytes_at e p m ≡ bytes_at d p m

module _ (start n : ℕ) (old new : List ℕ) (plain : IsPlain old) (plain' : IsPlain new)
    (same : length old ≡ length new) where
  abbrev replaced : List ℕ → ℕ → List ℕ
  replaced out h = put out (start + h) (length old) new

  abbrev pub slice : List ℕ → List ℕ
  slice d = bytes_at d start n

  -- Where the line stands in the slice, which has room for it.
  pub line_held :
      (d : List ℕ) (h : ℕ)
      → count_exact_lines (slice d) old ≡ h ∷ []
      → (h + length old ≤ n) × (bytes_at d (start + h) (length old) ≡ old)
  line_held d h e =
      let (made, held, room) = replace_line old new plain plain' same (slice d) h e in
      let fits : h + length old ≤ n = omega (arith, room, length-take_most (drop start d) n) in
      (fits, sym (bytes_at-bytes_at d start n h (length old) (start + h) fits refl) ∙ held)

  pub replace_in_archive :
      (d out : List ℕ) (h : ℕ)
      → length d ≡ length out
      → start + n ≤ length out
      → bytes_at d (start + h) (length old) ≡ old
      → count_exact_lines (slice out) old ≡ h ∷ []
      → (lines (slice (replaced out h)) ≡ relabel old new (lines (slice out)))
        × (length (replaced out h) ≡ length out)
        × (distance d (replaced out h) ≡ distance d out + distance old new)
        × Outside start n out (replaced out h)
  replace_in_archive d out h long room at e =
      let (made, held, room') = replace_line old new plain plain' same (slice out) h e in
      let (fits, here) = line_held out h e in
      let fits' : h + length new ≤ n = omega arith in
      let fits_out : (start + h) + length new ≤ length out = omega arith in
      let text : slice (replaced out h) ≡ put (slice out) h (length old) new =
        rw same (slice-put new out start h n (start + h) refl fits' room) in
      (
        ap lines text ∙ made,
        rw same (length-put out (start + h) new fits_out),
        distance-put old new d out (start + h) same at here long (omega arith),
        λ p m where_. rw same (elim where_ [
          | inl below ↦ put_below out (start + h) new p m (omega arith) fits_out
          | inr above ↦ put_above out (start + h) new p m (omega arith) fits_out
        ]),
      )
