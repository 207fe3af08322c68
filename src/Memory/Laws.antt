-- ===== src/Memory/Laws.antt =====
-- Laws of memory, and what it means that a writer emits and a reader accepts given bytes.
use device_xiaomi_dash_twrp.Prelude.{
  ℕ, ◌+◌, ◌≤◌, ◌<◌, ◌≡◌, refl, ap, ◌∙◌, subst, ◌⊎◌, inl, List, [], ◌∷◌, ◌++◌, length, arith,
}
use device_xiaomi_dash_twrp.Memory.{Mem, store, write_bytes, read_bytes, Holds}

pub write_bytes-nil : (m : Mem) (p : ℕ) → write_bytes m p [] ≡ m
unfolding write_bytes
write_bytes-nil m p = refl

pub write_bytes-one : (m : Mem) (p v : ℕ) → write_bytes m p (v ∷ []) ≡ store m p v
unfolding write_bytes
write_bytes-one m p v = refl

pub write_bytes-append :
    (m : Mem) (p : ℕ) (xs ys : List ℕ)
    → write_bytes m p (xs ++ ys) ≡ write_bytes (write_bytes m p xs) (p + length xs) ys
unfolding write_bytes
write_bytes-append m p [] ys = ap (λ q. write_bytes m q ys) (omega arith)
write_bytes-append m p (x ∷ xs) ys =
    write_bytes-append (store m p x) (p + 1) xs ys
    ∙ ap (λ q. write_bytes (write_bytes (store m p x) (p + 1) xs) q ys) (omega arith)

pub write_bytes_outside :
    (m : Mem) (p : ℕ) (xs : List ℕ) (a : ℕ)
    → (a < p) ⊎ (p + length xs ≤ a)
    → write_bytes m p xs a ≡ m a
unfolding write_bytes
write_bytes_outside m p [] a out = refl
write_bytes_outside m p (x ∷ xs) a out =
    write_bytes_outside (store m p x) (p + 1) xs a (omega arith) ∙ ground arith

pub Holds-write_bytes : (m : Mem) (p : ℕ) (xs : List ℕ) → Holds (write_bytes m p xs) p xs
unfolding write_bytes
Holds-write_bytes m p [] = tt
Holds-write_bytes m p (x ∷ xs) = (
  write_bytes_outside (store m p x) (p + 1) xs p (inl (omega arith)) ∙ ground arith,
  Holds-write_bytes (store m p x) (p + 1) xs,
)

pub Holds-append :
    (m : Mem) (p : ℕ) (xs ys : List ℕ)
    → Holds m p (xs ++ ys)
    → Holds m p xs × Holds m (p + length xs) ys
Holds-append m p [] ys h = (tt, subst (λ q. Holds m q ys) (omega arith) h)
Holds-append m p (x ∷ xs) ys h =
    let (front, back) = Holds-append m (p + 1) xs ys h.1 in
    ((h.0, front), subst (λ q. Holds m q ys) (omega arith) back)

pub read_bytes-Holds :
    (m : Mem) (p : ℕ) (xs : List ℕ) → Holds m p xs → read_bytes m p (length xs) ≡ xs
unfolding read_bytes
read_bytes-Holds m p [] h = refl
read_bytes-Holds m p (x ∷ xs) h = rw (h.0, read_bytes-Holds m (p + 1) xs h.1)
