-- ===== src/AdbdProps/Hits.antt =====
-- count_exact_lines of tools/patch_recovery_adbd_props.py, and the replacement of a line that it finds.
use device_xiaomi_dash_twrp.Prelude.{
  ℕ, ◌+◌, ◌≡◌, ◌≢◌, refl, sym, ap, ◌∙◌, inl, inr, true, false, List, [], ◌∷◌, ◌++◌, map, length,
  length-append, drop, arith, if◌then◌else◌, Bool-cases,
}
use device_xiaomi_dash_twrp.Memory.Bytes.{
  same_bytes, same_bytes_lem, same_bytes_refl, same_bytes-ne,
}
use device_xiaomi_dash_twrp.AdbdProps.{is_newline, strip_byte, strip, hits}

-- No byte ends a line, or every byte does.
abbrev pub IsPlain : List ℕ → Type 0
IsPlain [] = Unit {0}
IsPlain (b ∷ bs) = (is_newline b ≡ false) × IsPlain bs

abbrev pub IsBreak : List ℕ → Type 0
IsBreak [] = Unit {0}
IsBreak (b ∷ bs) = (is_newline b ≡ true) × IsBreak bs

-- The line break of a line, which strip removes.
pub line_end : List ℕ → List ℕ
line_end l = drop (length (strip l)) l

strip_byte_split :
    (b : ℕ) (bs s : List ℕ)
    → bs ≡ s ++ drop (length s) bs
    → IsBreak (drop (length s) bs)
    → let t = strip_byte b s in
      ((b ∷ bs) ≡ t ++ drop (length t) (b ∷ bs)) × IsBreak (drop (length t) (b ∷ bs))
strip_byte_split b bs [] e h = elim (Bool-cases (is_newline b)) [
  | inl ends ↦ rw ends (refl, (ends, h))
  | inr plain ↦ rw plain (refl, h)
]
strip_byte_split b bs (c ∷ cs) e h = (ap (λ k. b ∷ k) e, h)

pub strip_split : (l : List ℕ) → (l ≡ strip l ++ line_end l) × IsBreak (line_end l)
unfolding strip line_end
strip_split [] = (refl, tt)
strip_split (b ∷ bs) = let rest = strip_split bs in strip_byte_split b bs (strip bs) rest.0 rest.1

strip-IsBreak : (e : List ℕ) → IsBreak e → strip e ≡ []
unfolding strip
strip-IsBreak [] h = refl
strip-IsBreak (b ∷ e) h = rw (strip, strip-IsBreak e h.1, h.0)

strip-append : (w e : List ℕ) → IsPlain w → IsBreak e → strip (w ++ e) ≡ w
unfolding strip
strip-append [] e p h = strip-IsBreak e h
strip-append (b ∷ []) e p h = rw (strip, strip-IsBreak e h, p.0)
strip-append (b ∷ c ∷ w) e p h = rw (strip, strip-append (c ∷ w) e p.1 h)

-- The lines with this text get another, and keep their break.
abbrev pub relabel_line : List ℕ → List ℕ → List ℕ → List ℕ
relabel_line old new line = if same_bytes (strip line) old then new ++ line_end line else line

abbrev pub relabel : List ℕ → List ℕ → List (List ℕ) → List (List ℕ)
relabel old new [] = []
relabel old new (l ∷ ls) = relabel_line old new l ∷ relabel old new ls

pub no_hits :
    (wanted : List ℕ) (cursor : ℕ) (l : List ℕ) (ls : List (List ℕ))
    → hits wanted cursor (l ∷ ls) ≡ []
    → (same_bytes (strip l) wanted ≡ false) × (hits wanted (cursor + length l) ls ≡ [])
unfolding hits
no_hits wanted cursor l ls h = elim (Bool-cases (same_bytes (strip l) wanted)) [
  | inl here ↦ cc (rw (hits, here) at h)
  | inr other ↦ (other, rw (hits, other) at h)
]

module _ (old new : List ℕ) (plain : IsPlain new) (same : length old ≡ length new) where
  strip-relabel_line :
      (l : List ℕ) → same_bytes (strip l) old ≡ true → strip (relabel_line old new l) ≡ new
  strip-relabel_line l h = rw h (strip-append new (line_end l) plain (strip_split l).1)

  length-relabel_line : (l : List ℕ) → length (relabel_line old new l) ≡ length l
  length-relabel_line l = elim (Bool-cases (same_bytes (strip l) old)) [
    | inr other ↦ rw other
    | inl here ↦ rw here (
        let split = ap length (strip_split l).0 in
        let text = ap length (same_bytes_lem (strip l) old here) in
        omega (
          arith,
          split,
          text,
          length-append (strip l) (line_end l),
          length-append new (line_end l),
        ))
  ]

  pub lengths-relabel : (ls : List (List ℕ)) → map length (relabel old new ls) ≡ map length ls
  lengths-relabel [] = refl
  lengths-relabel (l ∷ ls) =
      let heads = length-relabel_line l in let tails = lengths-relabel ls in λ i. heads i ∷ tails i

  test_other :
      (wanted l : List ℕ)
      → wanted ≢ old
      → wanted ≢ new
      → same_bytes (strip (relabel_line old new l)) wanted ≡ same_bytes (strip l) wanted
  test_other wanted l p q = elim (Bool-cases (same_bytes (strip l) old)) [
    | inr other ↦ rw other
    | inl here ↦
        ap (λ k. same_bytes k wanted) (strip-relabel_line l here)
        ∙ same_bytes-ne new wanted (λ e. q (sym e))
        ∙ sym (
            ap (λ k. same_bytes k wanted) (same_bytes_lem (strip l) old here)
            ∙ same_bytes-ne old wanted (λ e. p (sym e)))
  ]

  test_old : (l : List ℕ) → old ≢ new → same_bytes (strip (relabel_line old new l)) old ≡ false
  test_old l p = elim (Bool-cases (same_bytes (strip l) old)) [
    | inr other ↦ rw other other
    | inl here ↦
        ap (λ k. same_bytes k old) (strip-relabel_line l here)
        ∙ same_bytes-ne new old (λ e. p (sym e))
  ]

  test_new :
      (l : List ℕ)
      → same_bytes (strip l) new ≡ false
      → same_bytes (strip (relabel_line old new l)) new ≡ same_bytes (strip l) old
  test_new l p = elim (Bool-cases (same_bytes (strip l) old)) [
    | inr other ↦ rw other p
    | inl here ↦
        ap (λ k. same_bytes k new) (strip-relabel_line l here) ∙ same_bytes_refl new ∙ sym here
  ]

  -- Another line is found where it was before.
  pub hits-relabel_other :
      (wanted : List ℕ) (cursor : ℕ) (ls : List (List ℕ))
      → wanted ≢ old
      → wanted ≢ new
      → hits wanted cursor (relabel old new ls) ≡ hits wanted cursor ls
  unfolding hits
  hits-relabel_other wanted cursor [] p q = refl
  hits-relabel_other wanted cursor (l ∷ ls) p q = rw (
    test_other wanted l p q,
    length-relabel_line l,
    hits-relabel_other wanted (cursor + length l) ls p q,
  )

  -- The old line is found no more, and the new one where the old one was.
  pub hits-relabel_old :
      (cursor : ℕ) (ls : List (List ℕ)) → old ≢ new → hits old cursor (relabel old new ls) ≡ []
  unfolding hits
  hits-relabel_old cursor [] p = refl
  hits-relabel_old cursor (l ∷ ls) p =
      rw (test_old l p, length-relabel_line l) (hits-relabel_old (cursor + length l) ls p)

  pub hits-relabel_new :
      (cursor : ℕ) (ls : List (List ℕ))
      → hits new cursor ls ≡ []
      → hits new cursor (relabel old new ls) ≡ hits old cursor ls
  unfolding hits
  hits-relabel_new cursor [] p = refl
  hits-relabel_new cursor (l ∷ ls) p =
      let (here, later) = no_hits new cursor l ls p in
      rw (test_new l here, length-relabel_line l, hits-relabel_new (cursor + length l) ls later)

  -- As many lines have the new text as had one of the two.
  pub length-hits-relabel :
      (cursor : ℕ) (ls : List (List ℕ))
      → old ≢ new
      → length (hits new cursor (relabel old new ls))
        ≡ length (hits new cursor ls) + length (hits old cursor ls)
  unfolding hits
  length-hits-relabel cursor [] p = refl
  length-hits-relabel cursor (l ∷ ls) p =
      let rest = length-hits-relabel (cursor + length l) ls p in
      elim (Bool-cases (same_bytes (strip l) old)) [
        | inl here ↦
            let was : same_bytes (strip l) new ≡ false =
              ap (λ k. same_bytes k new) (same_bytes_lem (strip l) old here)
              ∙ same_bytes-ne old new p in
            let is : same_bytes (strip (relabel_line old new l)) new ≡ true =
              ap (λ k. same_bytes k new) (strip-relabel_line l here) ∙ same_bytes_refl new in
            rw (is, length-relabel_line l, was, here) (omega (arith, rest))
        | inr other ↦ elim (Bool-cases (same_bytes (strip l) new)) [
          | inl same_text ↦ rw (other, same_text, rest) (omega arith)
          | inr another ↦ rw (other, another, rest) refl
        ]
      ]
