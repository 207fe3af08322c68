-- ===== src/AdbdProps/Place.antt =====
-- Where tools/patch_recovery_adbd_props.py writes: a line that count_exact_lines finds once.
use mathlib.Core.List.{append_assoc}
use device_xiaomi_dash_twrp.Prelude.{
  ℕ, zero, suc, ◌+◌, ◌≡◌, ◌≤◌, refl, sym, ap, subst, ◌∙◌, inl, inr, true, false, List, [], ◌∷◌,
  ◌++◌, length, length-append, drop, arith, Bool-cases,
}
use device_xiaomi_dash_twrp.Memory.Bytes.{same_bytes, same_bytes_lem}
use device_xiaomi_dash_twrp.VendorBoot.{bytes_at, put}
use device_xiaomi_dash_twrp.VendorBoot.Slices.{take_front}
use device_xiaomi_dash_twrp.AdbdProps.{lines, strip, hits, count_exact_lines}
use device_xiaomi_dash_twrp.AdbdProps.Lines.{
  concat, concat-lines, SameBreaks, SameBreaks-refl, lines-concat,
}
use device_xiaomi_dash_twrp.AdbdProps.Hits.{
  IsPlain, line_end, strip_split, relabel, no_hits, lengths-relabel,
}

drop-append : (a c : List ℕ) → drop (length a) (a ++ c) ≡ c
drop-append [] c = refl
drop-append (x ∷ a) c = drop-append a c

put-append_right :
    (a c : List ℕ) (o p n : ℕ) (x : List ℕ)
    → p ≡ length a + o
    → put (a ++ c) p n x ≡ a ++ put c o n x
put-append_right [] c o p n x e = ap (λ k. put c k n x) {y = o} (omega arith)
put-append_right (b ∷ a) c o zero n x e = absurd (omega arith)
put-append_right (b ∷ a) c o (suc p) n x e =
    ap (λ k. b ∷ k) (put-append_right a c o p n x (omega arith))

bytes_at-append_right :
    (a c : List ℕ) (o p n : ℕ) → p ≡ length a + o → bytes_at (a ++ c) p n ≡ bytes_at c o n
bytes_at-append_right [] c o p n e = ap (λ k. bytes_at c k n) {y = o} (omega arith)
bytes_at-append_right (b ∷ a) c o zero n e = absurd (omega arith)
bytes_at-append_right (b ∷ a) c o (suc p) n e = bytes_at-append_right a c o p n (omega arith)

SameBreaks-append :
    (a b c d : List ℕ) → SameBreaks a b → SameBreaks c d → SameBreaks (a ++ c) (b ++ d)
SameBreaks-append [] [] c d h k = k
SameBreaks-append [] (y ∷ b) c d h k = absurd h
SameBreaks-append (x ∷ a) [] c d h k = absurd h
SameBreaks-append (x ∷ a) (y ∷ b) c d h k = (h.0, SameBreaks-append a b c d h.1 k)

SameBreaks-IsPlain : (a b : List ℕ) → IsPlain a → IsPlain b → length a ≡ length b → SameBreaks a b
SameBreaks-IsPlain [] [] p q e = tt
SameBreaks-IsPlain [] (y ∷ b) p q e = absurd (omega arith)
SameBreaks-IsPlain (x ∷ a) [] p q e = absurd (omega arith)
SameBreaks-IsPlain (x ∷ a) (y ∷ b) p q e =
    (inr (p.0, q.0), SameBreaks-IsPlain a b p.1 q.1 (omega arith))

module _ (old new : List ℕ) (plain : IsPlain old) (plain' : IsPlain new)
    (same : length old ≡ length new) where
  relabel_none :
      (cursor : ℕ) (ls : List (List ℕ)) → hits old cursor ls ≡ [] → relabel old new ls ≡ ls
  relabel_none cursor [] h = refl
  relabel_none cursor (l ∷ ls) h =
      let (here, later) = no_hits old cursor l ls h in
      let rest = relabel_none (cursor + length l) ls later in rw (here, rest)

  -- The place of the line, as the code writes to it, and what writing there does.
  abbrev Placed : List (List ℕ) → (cursor h : ℕ) → Type 0
  Placed ls cursor h =
      (o : ℕ) × (h ≡ cursor + o)
      × (bytes_at (concat ls) o (length old) ≡ old)
      × (o + length old ≤ length (concat ls))
      × (concat (relabel old new ls) ≡ put (concat ls) o (length old) new)
      × SameBreaks (concat ls) (concat (relabel old new ls))

  Placed-here :
      (cursor : ℕ) (l : List ℕ) (ls : List (List ℕ))
      → same_bytes (strip l) old ≡ true
      → hits old (cursor + length l) ls ≡ []
      → Placed (l ∷ ls) cursor cursor
  Placed-here cursor l ls here later =
      let e = line_end l in
      let rest = e ++ concat ls in
      let is_line : l ≡ old ++ e =
        (strip_split l).0 ∙ ap (λ k. k ++ e) (same_bytes_lem (strip l) old here) in
      let whole : l ++ concat ls ≡ old ++ rest =
        ap (λ k. k ++ concat ls) is_line ∙ append_assoc old e (concat ls) in
      rw (here, relabel_none (cursor + length l) ls later, append_assoc new e (concat ls), whole)
        (
          0,
          omega arith,
          take_front old rest (length old) refl,
          omega (arith, length-append old rest),
          sym (ap (λ k. new ++ k) (drop-append old rest)),
          SameBreaks-append old new rest rest (SameBreaks-IsPlain old new plain plain' same)
              (SameBreaks-refl rest),
        )

  Placed-later :
      (cursor h : ℕ) (l : List ℕ) (ls : List (List ℕ))
      → same_bytes (strip l) old ≡ false
      → Placed ls (cursor + length l) h
      → Placed (l ∷ ls) cursor h
  Placed-later cursor h l ls other (o, at, held, room, made, breaks) = rw other (
    length l + o,
    omega (arith, at),
    bytes_at-append_right l (concat ls) o (length l + o) (length old) refl ∙ held,
    omega (arith, room, length-append l (concat ls)),
    ap (λ k. l ++ k) made
        ∙ sym (put-append_right l (concat ls) o (length l + o) (length old) new refl),
    SameBreaks-append l l (concat ls) (concat (relabel old new ls)) (SameBreaks-refl l) breaks,
  )

  placed : (cursor h : ℕ) (ls : List (List ℕ)) → hits old cursor ls ≡ h ∷ [] → Placed ls cursor h
  unfolding hits
  placed cursor h [] e = cc
  placed cursor h (l ∷ ls) e = elim (Bool-cases (same_bytes (strip l) old)) [
    | inl here ↦
        let found = rw (hits, here) at e in
        let at : cursor ≡ h = cc in
        let none_later : hits old (cursor + length l) ls ≡ [] = cc in
        subst (Placed (l ∷ ls) cursor) at (Placed-here cursor l ls here none_later)
    | inr other ↦
        Placed-later cursor h l ls other (placed (cursor + length l) h ls (rw (hits, other) at e))
  ]

  -- One line is found: writing the new text over it changes the text of this line alone.
  pub replace_line :
      (text : List ℕ) (h : ℕ)
      → count_exact_lines text old ≡ h ∷ []
      → (lines (put text h (length old) new) ≡ relabel old new (lines text))
        × (bytes_at text h (length old) ≡ old)
        × (h + length old ≤ length text)
  unfolding count_exact_lines
  replace_line text h e =
      let (o, at, held, room, made, breaks) = placed 0 h (lines text) e in
      let whole = concat-lines text in
      let here : o ≡ h = omega (arith, at) in
      let written : concat (relabel old new (lines text)) ≡ put text h (length old) new =
        made ∙ (λ i. put (whole i) (here i) (length old) new) in
      (
        lines-concat text (put text h (length old) new) (relabel old new (lines text))
            (subst (λ k. SameBreaks k (put text h (length old) new)) whole
              (subst (SameBreaks (concat (lines text))) written breaks))
            (sym (lengths-relabel old new plain' same (lines text))) written,
        subst (λ k. bytes_at k h (length old) ≡ old) whole
            (subst (λ k. bytes_at (concat (lines text)) k (length old) ≡ old) here held),
        omega (arith, at, room, ap length whole),
      )
