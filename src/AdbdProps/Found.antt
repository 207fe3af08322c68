-- ===== src/AdbdProps/Found.antt =====
-- The lines that patch_properties of tools/patch_recovery_adbd_props.py looks for, before and after.
use device_xiaomi_dash_twrp.Prelude.{
  ℕ, ◌+◌, ◌≡◌, ◌≢◌, refl, sym, ap, ◌∙◌, inl, inr, true, false, List, [], ◌∷◌, length, Bool, not,
  ◌&&◌, Bool-cases,
}
use device_xiaomi_dash_twrp.Memory.Bytes.{same_bytes, same_bytes_refl}
use device_xiaomi_dash_twrp.AdbdProps.{
  is_newline, secure_1, secure_0, debuggable_0, debuggable_1, lines, count_exact_lines, hits,
}
use device_xiaomi_dash_twrp.AdbdProps.Hits.{
  IsPlain, relabel, hits-relabel_other, hits-relabel_old, hits-relabel_new, length-hits-relabel,
}
use device_xiaomi_dash_twrp.AdbdProps.Newc.{◌>>=◌, guard, done}
use device_xiaomi_dash_twrp.AdbdProps.Patch.{check_lines, property_patches}

abbrev pub patched_lines : List (List ℕ) → List (List ℕ)
patched_lines ls = relabel debuggable_0 debuggable_1 (relabel secure_1 secure_0 ls)

all_plain : List ℕ → Bool
all_plain [] = true
all_plain (b ∷ bs) = not (is_newline b) && all_plain bs

all_plain-IsPlain : (bs : List ℕ) → all_plain bs ≡ true → IsPlain bs
unfolding all_plain
all_plain-IsPlain [] h = tt
all_plain-IsPlain (b ∷ bs) h = elim (Bool-cases (is_newline b)) [
  | inl ends ↦ cc (rw ends at h)
  | inr plain ↦ (plain, all_plain-IsPlain bs (rw plain at h))
]

pub IsPlain-secure_1 : IsPlain secure_1
unfolding all_plain
IsPlain-secure_1 = all_plain-IsPlain secure_1 refl

pub IsPlain-secure_0 : IsPlain secure_0
unfolding all_plain
IsPlain-secure_0 = all_plain-IsPlain secure_0 refl

pub IsPlain-debuggable_0 : IsPlain debuggable_0
unfolding all_plain
IsPlain-debuggable_0 = all_plain-IsPlain debuggable_0 refl

pub IsPlain-debuggable_1 : IsPlain debuggable_1
unfolding all_plain
IsPlain-debuggable_1 = all_plain-IsPlain debuggable_1 refl

differ : (a b : List ℕ) → same_bytes a b ≡ false → a ≢ b
differ a b h e =
    let yes : same_bytes a b ≡ true = ap (λ k. same_bytes a k) (sym e) ∙ same_bytes_refl a in
    let clash : true ≡ false = sym yes ∙ h in cc clash

pub found_between :
    (ls : List (List ℕ))
    → hits debuggable_0 0 (relabel secure_1 secure_0 ls) ≡ hits debuggable_0 0 ls
found_between ls =
    hits-relabel_other secure_1 secure_0 IsPlain-secure_0 refl debuggable_0 0 ls
      (differ debuggable_0 secure_1 refl) (differ debuggable_0 secure_0 refl)

found_secure_1 : (ls : List (List ℕ)) → hits secure_1 0 (patched_lines ls) ≡ []
found_secure_1 ls =
    hits-relabel_other debuggable_0 debuggable_1 IsPlain-debuggable_1 refl secure_1 0
      (relabel secure_1 secure_0 ls) (differ secure_1 debuggable_0 refl)
      (differ secure_1 debuggable_1 refl)
    ∙ hits-relabel_old secure_1 secure_0 IsPlain-secure_0 refl 0 ls (differ secure_1 secure_0 refl)

found_secure_0 :
    (ls : List (List ℕ))
    → hits secure_0 0 ls ≡ []
    → hits secure_0 0 (patched_lines ls) ≡ hits secure_1 0 ls
found_secure_0 ls h =
    hits-relabel_other debuggable_0 debuggable_1 IsPlain-debuggable_1 refl secure_0 0
      (relabel secure_1 secure_0 ls) (differ secure_0 debuggable_0 refl)
      (differ secure_0 debuggable_1 refl)
    ∙ hits-relabel_new secure_1 secure_0 IsPlain-secure_0 refl 0 ls h

found_debuggable_0 : (ls : List (List ℕ)) → hits debuggable_0 0 (patched_lines ls) ≡ []
found_debuggable_0 ls =
    hits-relabel_old debuggable_0 debuggable_1 IsPlain-debuggable_1 refl 0
      (relabel secure_1 secure_0 ls) (differ debuggable_0 debuggable_1 refl)

found_debuggable_1 :
    (ls : List (List ℕ))
    → hits debuggable_1 0 ls ≡ []
    → hits debuggable_1 0 (patched_lines ls) ≡ hits debuggable_0 0 ls
found_debuggable_1 ls h =
    hits-relabel_new debuggable_0 debuggable_1 IsPlain-debuggable_1 refl 0
      (relabel secure_1 secure_0 ls)
      (hits-relabel_other secure_1 secure_0 IsPlain-secure_0 refl debuggable_1 0 ls
          (differ debuggable_1 secure_1 refl) (differ debuggable_1 secure_0 refl)
        ∙ h)
    ∙ found_between ls

pub checked :
    (after : List ℕ) (ls : List (List ℕ)) (h1 h2 : ℕ)
    → lines after ≡ patched_lines ls
    → hits secure_1 0 ls ≡ h1 ∷ []
    → hits debuggable_0 0 ls ≡ h2 ∷ []
    → hits secure_0 0 ls ≡ []
    → hits debuggable_1 0 ls ≡ []
    → check_lines after property_patches ≡ done tt
unfolding check_lines count_exact_lines ◌>>=◌ guard
checked after ls h1 h2 made s1 d0 s0 d1 =
    rw
      (
        made,
        found_secure_1 ls,
        found_secure_0 ls s0,
        s1,
        found_debuggable_0 ls,
        found_debuggable_1 ls d1,
        d0,
      )
      refl

pub new_secure_0 :
    (ls : List (List ℕ))
    → length (hits secure_0 0 (patched_lines ls))
      ≡ length (hits secure_0 0 ls) + length (hits secure_1 0 ls)
new_secure_0 ls =
    ap length (
      hits-relabel_other debuggable_0 debuggable_1 IsPlain-debuggable_1 refl secure_0 0
        (relabel secure_1 secure_0 ls) (differ secure_0 debuggable_0 refl)
        (differ secure_0 debuggable_1 refl))
    ∙ length-hits-relabel secure_1 secure_0 IsPlain-secure_0 refl 0 ls
        (differ secure_1 secure_0 refl)

pub new_debuggable_1 :
    (ls : List (List ℕ))
    → length (hits debuggable_1 0 (patched_lines ls))
      ≡ length (hits debuggable_1 0 ls) + length (hits debuggable_0 0 ls)
new_debuggable_1 ls =
    length-hits-relabel debuggable_0 debuggable_1 IsPlain-debuggable_1 refl 0
      (relabel secure_1 secure_0 ls) (differ debuggable_0 debuggable_1 refl)
    ∙ λ i.
        length (
          hits-relabel_other secure_1 secure_0 IsPlain-secure_0 refl debuggable_1 0 ls
            (differ debuggable_1 secure_1 refl) (differ debuggable_1 secure_0 refl) i)
        + length (found_between ls i)
