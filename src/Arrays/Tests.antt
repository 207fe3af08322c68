-- ===== src/Arrays/Tests.antt =====
-- The array functions at arrays of numbers.
use device_xiaomi_dash_twrp.Prelude.{ℕ, ◌≡◌, true, List, [], ◌∷◌, ◌==◌, arith}

equal_right : (v w : ℕ) → (v == w) ≡ true → v ≡ w
equal_right v w h = ground arith

equal_same : (v : ℕ) → (v == v) ≡ true
equal_same v = ground arith

abbrev two : List ℕ
two = 1 ∷ 2 ∷ []

abbrev old_two : List ℕ
old_two = 8 ∷ 8 ∷ []

abbrev old_rest : List ℕ
old_rest = 9 ∷ []
