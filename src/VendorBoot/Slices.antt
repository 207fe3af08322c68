-- ===== src/VendorBoot/Slices.antt =====
-- Slices and slice assignment of tools/repack_vendor_boot.py.
use device_xiaomi_dash_twrp.Prelude.{
  subst, take_all, ℕ, zero, suc, ◌+◌, ◌≤◌, ◌≡◌, refl, ap, ◌∙◌, List, [], ◌∷◌, ◌++◌, length, take,
  drop, arith,
}
use device_xiaomi_dash_twrp.VendorBoot.{bytes_at, put}

pub length-bytes_at : (d : List ℕ) (o n : ℕ) → o + n ≤ length d → length (bytes_at d o n) ≡ n
length-bytes_at d zero zero h = refl
length-bytes_at [] zero (suc n) h = absurd (omega arith)
length-bytes_at (b ∷ d) zero (suc n) h = ap suc (length-bytes_at d zero n (omega arith))
length-bytes_at [] (suc o) n h = absurd (omega arith)
length-bytes_at (b ∷ d) (suc o) n h = length-bytes_at d o n (omega arith)

empty_slice : (i m : ℕ) → bytes_at [] i m ≡ take m []
empty_slice zero m = refl
empty_slice (suc i) m = refl

slice_front : (d : List ℕ) (n i m : ℕ) → i + m ≤ n → bytes_at (take n d) i m ≡ bytes_at d i m
slice_front d n zero zero h = refl
slice_front d n (suc i) zero h = refl
slice_front d zero i (suc m) h = absurd (omega arith)
slice_front [] (suc n) i (suc m) h = refl
slice_front (b ∷ d) (suc n) zero (suc m) h = ap (λ k. b ∷ k) (slice_front d n zero m (omega arith))
slice_front (b ∷ d) (suc n) (suc i) (suc m) h = slice_front d n i (suc m) (omega arith)

-- A slice of a slice.
pub bytes_at-bytes_at :
    (d : List ℕ) (o n i m q : ℕ)
    → i + m ≤ n
    → q ≡ o + i
    → bytes_at (bytes_at d o n) i m ≡ bytes_at d q m
bytes_at-bytes_at d zero n i m q h e =
    slice_front d n i m h ∙ ap (λ k. bytes_at d k m) {y = q} (omega arith)
bytes_at-bytes_at d (suc o) n i m zero h e = absurd (omega arith)
bytes_at-bytes_at [] (suc o) n i m (suc q) h e = slice_front [] n i m h ∙ empty_slice i m
bytes_at-bytes_at (b ∷ d) (suc o) n i m (suc q) h e = bytes_at-bytes_at d o n i m q h (omega arith)

length-take_drop : (x d : List ℕ) → length x ≤ length d → length (x ++ drop (length x) d) ≡ length d
length-take_drop [] d h = refl
length-take_drop (a ∷ x) [] h = absurd (omega arith)
length-take_drop (a ∷ x) (b ∷ d) h = ap suc (length-take_drop x d (omega arith))

pub length-put :
    (d : List ℕ) (o : ℕ) (x : List ℕ)
    → o + length x ≤ length d
    → length (put d o (length x) x) ≡ length d
length-put d zero x h = length-take_drop x d (omega arith)
length-put [] (suc o) x h = absurd (omega arith)
length-put (b ∷ d) (suc o) x h = ap suc (length-put d o x (omega arith))

front : (x r : List ℕ) (i m : ℕ) → i + m ≤ length x → bytes_at (x ++ r) i m ≡ bytes_at x i m
front x r zero zero h = refl
front x r (suc i) zero h = refl
front [] r i (suc m) h = absurd (omega arith)
front (a ∷ x) r zero (suc m) h = ap (λ k. a ∷ k) (front x r zero m (omega arith))
front (a ∷ x) r (suc i) (suc m) h = front x r i (suc m) (omega arith)

behind :
    (x d : List ℕ) (p : ℕ)
    → length x ≤ p
    → length x ≤ length d
    → drop p (x ++ drop (length x) d) ≡ drop p d
behind [] d p h h' = refl
behind (a ∷ x) d zero h h' = absurd (omega arith)
behind (a ∷ x) [] (suc p) h h' = absurd (omega arith)
behind (a ∷ x) (b ∷ d) (suc p) h h' = behind x d p (omega arith) (omega arith)

pub take_front : (q r : List ℕ) (n : ℕ) → length q ≡ n → take n (q ++ r) ≡ q
take_front q r n e =
    subst (λ k. take k (q ++ r) ≡ q) e (front q r 0 (length q) (omega arith) ∙ take_all q)

-- What an assignment of a slice puts where it writes.
pub put_here :
    (d : List ℕ) (o : ℕ) (x : List ℕ) (i m q : ℕ)
    → i + m ≤ length x
    → o + length x ≤ length d
    → q ≡ o + i
    → bytes_at (put d o (length x) x) q m ≡ bytes_at x i m
put_here d zero x i m q h h' e =
    ap (λ k. bytes_at (put d 0 (length x) x) k m) {y = i} (omega arith)
    ∙ front x (drop (length x) d) i m h
put_here [] (suc o) x i m q h h' e = absurd (omega arith)
put_here (b ∷ d) (suc o) x i m zero h h' e = absurd (omega arith)
put_here (b ∷ d) (suc o) x i m (suc q) h h' e = put_here d o x i m q h (omega arith) (omega arith)

-- It leaves what is before.
pub put_below :
    (d : List ℕ) (o : ℕ) (x : List ℕ) (p m : ℕ)
    → p + m ≤ o
    → o + length x ≤ length d
    → bytes_at (put d o (length x) x) p m ≡ bytes_at d p m
put_below d zero x zero zero h h' = refl
put_below d zero x (suc p) m h h' = absurd (omega arith)
put_below (b ∷ d) (suc o) x zero zero h h' = refl
put_below d zero x zero (suc m) h h' = absurd (omega arith)
put_below [] (suc o) x p m h h' = absurd (omega arith)
put_below (b ∷ d) (suc o) x zero (suc m) h h' =
    ap (λ k. b ∷ k) (put_below d o x zero m (omega arith) (omega arith))
put_below (b ∷ d) (suc o) x (suc p) m h h' = put_below d o x p m (omega arith) (omega arith)

-- It leaves what is behind.
pub put_above :
    (d : List ℕ) (o : ℕ) (x : List ℕ) (p m : ℕ)
    → o + length x ≤ p
    → o + length x ≤ length d
    → bytes_at (put d o (length x) x) p m ≡ bytes_at d p m
put_above d zero x p m h h' = ap (take m) (behind x d p (omega arith) (omega arith))
put_above [] (suc o) x p m h h' = absurd (omega arith)
put_above (b ∷ d) (suc o) x zero m h h' = absurd (omega arith)
put_above (b ∷ d) (suc o) x (suc p) m h h' = put_above d o x p m (omega arith) (omega arith)

put_front :
    (x p r : List ℕ)
    → length x ≤ length p
    → x ++ drop (length x) (p ++ r) ≡ (x ++ drop (length x) p) ++ r
put_front [] p r h = refl
put_front (a ∷ x) [] r h = absurd (omega arith)
put_front (a ∷ x) (b ∷ p) r h = ap (λ k. a ∷ k) (put_front x p r (omega arith))

-- An assignment within the first of two parts.
pub put-append :
    (p r : List ℕ) (o : ℕ) (x : List ℕ)
    → o + length x ≤ length p
    → put (p ++ r) o (length x) x ≡ put p o (length x) x ++ r
put-append p r zero x h = put_front x p r (omega arith)
put-append [] r (suc o) x h = absurd (omega arith)
put-append (b ∷ p) r (suc o) x h = ap (λ k. b ∷ k) (put-append p r o x (omega arith))

drop_front :
    (x y p : List ℕ)
    → length x ≡ length y
    → length x ≤ length p
    → drop (length y) (x ++ drop (length x) p) ≡ drop (length y) p
drop_front [] [] p same h = refl
drop_front [] (b ∷ y) p same h = absurd (omega arith)
drop_front (a ∷ x) [] p same h = absurd (omega arith)
drop_front (a ∷ x) (b ∷ y) [] same h = absurd (omega arith)
drop_front (a ∷ x) (b ∷ y) (c ∷ p) same h = drop_front x y p (omega arith) (omega arith)

-- The second of two assignments to one slice counts.
pub put-put :
    (p : List ℕ) (o : ℕ) (x y : List ℕ)
    → length x ≡ length y
    → o + length x ≤ length p
    → put (put p o (length x) x) o (length y) y ≡ put p o (length y) y
put-put p zero x y same h = ap (λ k. y ++ k) (drop_front x y p same (omega arith))
put-put [] (suc o) x y same h = absurd (omega arith)
put-put (b ∷ p) (suc o) x y same h = ap (λ k. b ∷ k) (put-put p o x y same (omega arith))
