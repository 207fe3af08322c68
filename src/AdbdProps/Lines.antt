-- ===== src/AdbdProps/Lines.antt =====
-- The lines of a text of tools/patch_recovery_adbd_props.py, and of a text in which bytes that end no
-- line have changed.
use device_xiaomi_dash_twrp.Prelude.{
  ℕ, suc, ◌==◌, ◌≡◌, refl, sym, ap, ◌∙◌, inl, inr, ◌⊎◌, true, false, ◌&&◌, List, [], ◌∷◌, ◌++◌, map,
  length, arith, Bool-cases,
}
use device_xiaomi_dash_twrp.AdbdProps.{is_newline, break_at, extend_first, lines}

abbrev pub concat : List (List ℕ) → List ℕ
concat [] = []
concat (l ∷ ls) = l ++ concat ls

concat-break_at : (b : ℕ) (ls : List (List ℕ)) → concat (break_at b ls) ≡ b ∷ concat ls
concat-break_at b [] = refl
concat-break_at b ([] ∷ ls) = refl
concat-break_at b ((c ∷ l) ∷ ls) = elim (Bool-cases (b == 13 && c == 10)) [
  | inl joined ↦ rw joined
  | inr apart ↦ rw apart
]

concat-extend_first : (b : ℕ) (ls : List (List ℕ)) → concat (extend_first b ls) ≡ b ∷ concat ls
concat-extend_first b [] = refl
concat-extend_first b (l ∷ ls) = refl

-- The lines make up the text.
pub concat-lines : (text : List ℕ) → concat (lines text) ≡ text
unfolding lines
concat-lines [] = refl
concat-lines (b ∷ bs) = elim (Bool-cases (is_newline b)) [
  | inl ends ↦ rw ends (concat-break_at b (lines bs) ∙ ap (λ k. b ∷ k) (concat-lines bs))
  | inr plain ↦ rw plain (concat-extend_first b (lines bs) ∙ ap (λ k. b ∷ k) (concat-lines bs))
]

-- Two texts with the same line breaks.
abbrev pub SameBreaks : List ℕ → List ℕ → Type 0
SameBreaks [] [] = Unit {0}
SameBreaks [] (c ∷ cs) = ⊥
SameBreaks (b ∷ bs) [] = ⊥
SameBreaks (b ∷ bs) (c ∷ cs) =
    (((is_newline b ≡ true) × (b ≡ c)) ⊎ ((is_newline b ≡ false) × (is_newline c ≡ false)))
    × SameBreaks bs cs

abbrev SameShape : List (List ℕ) → List (List ℕ) → Type 0
SameShape [] [] = Unit {0}
SameShape [] (m ∷ ms) = ⊥
SameShape (l ∷ ls) [] = ⊥
SameShape (l ∷ ls) (m ∷ ms) = SameBreaks l m × SameShape ls ms

SameBreaks-length : (bs cs : List ℕ) → SameBreaks bs cs → length bs ≡ length cs
SameBreaks-length [] [] h = refl
SameBreaks-length [] (c ∷ cs) h = absurd h
SameBreaks-length (b ∷ bs) [] h = absurd h
SameBreaks-length (b ∷ bs) (c ∷ cs) h = ap suc (SameBreaks-length bs cs h.1)

SameShape-lengths : (ls ms : List (List ℕ)) → SameShape ls ms → map length ls ≡ map length ms
SameShape-lengths [] [] h = refl
SameShape-lengths [] (m ∷ ms) h = absurd h
SameShape-lengths (l ∷ ls) [] h = absurd h
SameShape-lengths (l ∷ ls) (m ∷ ms) h =
    let heads = SameBreaks-length l m h.0 in
    let tails = SameShape-lengths ls ms h.1 in λ i. heads i ∷ tails i

pub SameBreaks-refl : (bs : List ℕ) → SameBreaks bs bs
SameBreaks-refl [] = tt
SameBreaks-refl (b ∷ bs) = elim (Bool-cases (is_newline b)) [
  | inl ends ↦ (inl (ends, refl), SameBreaks-refl bs)
  | inr plain ↦ (inr (plain, plain), SameBreaks-refl bs)
]

-- A line feed is read as part of the break in front of it, in both texts or in neither.
same_join :
    (c e : ℕ)
    → ((is_newline c ≡ true) × (c ≡ e)) ⊎ ((is_newline c ≡ false) × (is_newline e ≡ false))
    → (c == 10) ≡ (e == 10)
same_join c e (inl (ends, same)) = ap (λ k. k == 10) same
same_join c e (inr (plain, plain')) = ground arith

SameShape-break_at :
    (b : ℕ) (ls ms : List (List ℕ))
    → is_newline b ≡ true
    → SameShape ls ms
    → SameShape (break_at b ls) (break_at b ms)
SameShape-break_at b [] [] ends h = ((inl (ends, refl), tt), tt)
SameShape-break_at b [] (m ∷ ms) ends h = absurd h
SameShape-break_at b (l ∷ ls) [] ends h = absurd h
SameShape-break_at b ([] ∷ ls) ([] ∷ ms) ends h = ((inl (ends, refl), tt), h)
SameShape-break_at b ([] ∷ ls) ((e ∷ m) ∷ ms) ends h = absurd h.0
SameShape-break_at b ((c ∷ l) ∷ ls) ([] ∷ ms) ends h = absurd h.0
SameShape-break_at b ((c ∷ l) ∷ ls) ((e ∷ m) ∷ ms) ends h = elim (Bool-cases (b == 13 && c == 10)) [
  | inl joined ↦
      rw (joined, ap (λ k. b == 13 && k) (sym (same_join c e h.0.0)) ∙ joined)
        (((inl (ends, refl), h.0), h.1))
  | inr apart ↦
      rw (apart, ap (λ k. b == 13 && k) (sym (same_join c e h.0.0)) ∙ apart)
        ((((inl (ends, refl), tt), h)))
]

SameShape-extend_first :
    (b c : ℕ) (ls ms : List (List ℕ))
    → is_newline b ≡ false
    → is_newline c ≡ false
    → SameShape ls ms
    → SameShape (extend_first b ls) (extend_first c ms)
SameShape-extend_first b c [] [] p q h = ((inr (p, q), tt), tt)
SameShape-extend_first b c [] (m ∷ ms) p q h = absurd h
SameShape-extend_first b c (l ∷ ls) [] p q h = absurd h
SameShape-extend_first b c (l ∷ ls) (m ∷ ms) p q h = ((inr (p, q), h.0), h.1)

SameShape-lines : (bs cs : List ℕ) → SameBreaks bs cs → SameShape (lines bs) (lines cs)
unfolding lines
SameShape-lines [] [] h = tt
SameShape-lines [] (c ∷ cs) h = absurd h
SameShape-lines (b ∷ bs) [] h = absurd h
SameShape-lines (b ∷ bs) (c ∷ cs) (inl (ends, same), rest) =
    let ends' = ap is_newline (sym same) ∙ ends in
    rw (ends, ends', ← same)
      (SameShape-break_at b (lines bs) (lines cs) ends (SameShape-lines bs cs rest))
SameShape-lines (b ∷ bs) (c ∷ cs) (inr (plain, plain'), rest) =
    rw (plain, plain')
      (SameShape-extend_first b c (lines bs) (lines cs) plain plain' (SameShape-lines bs cs rest))

split_eq : (a b c d : List ℕ) → length a ≡ length b → a ++ c ≡ b ++ d → (a ≡ b) × (c ≡ d)
split_eq [] [] c d h e = (refl, e)
split_eq [] (y ∷ b) c d h e = absurd (omega arith)
split_eq (x ∷ a) [] c d h e = absurd (omega arith)
split_eq (x ∷ a) (y ∷ b) c d h e =
    let heads : x ≡ y = cc in
    let tails : a ++ c ≡ b ++ d = cc in
    let (same, rest) = split_eq a b c d (omega arith) tails in ((λ i. heads i ∷ same i), rest)

same_cut : (ls ms : List (List ℕ)) → map length ls ≡ map length ms → concat ls ≡ concat ms → ls ≡ ms
same_cut [] [] h e = refl
same_cut [] (m ∷ ms) h e = cc
same_cut (l ∷ ls) [] h e = cc
same_cut (l ∷ ls) (m ∷ ms) h e =
    let len : length l ≡ length m = cc in
    let lens : map length ls ≡ map length ms = cc in
    let (same, rest) = split_eq l m (concat ls) (concat ms) len e in
    let more = same_cut ls ms lens rest in λ i. same i ∷ more i

-- A text with the line breaks of another, put together from pieces of the lengths of the other's
-- lines, has these pieces as its lines.
pub lines-concat :
    (text text' : List ℕ) (ls : List (List ℕ))
    → SameBreaks text text'
    → map length (lines text) ≡ map length ls
    → concat ls ≡ text'
    → lines text' ≡ ls
lines-concat text text' ls breaks lens made =
    same_cut (lines text') ls
      (sym (SameShape-lengths (lines text) (lines text') (SameShape-lines text text' breaks))
        ∙ lens)
      (concat-lines text' ∙ sym made)
