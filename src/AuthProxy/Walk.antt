-- ===== src/AuthProxy/Walk.antt =====
-- Walking an AuthProxy from begin() to end().
use device_xiaomi_dash_twrp.Prelude.{
  beq-ne, ℕ, zero, suc, ◌+◌, ◌%◌, ◌<◌, ◌≡◌, refl, ap, false, none, List, [], ◌++◌, length,
  length-append, arith,
}
use device_xiaomi_dash_twrp.Memory.{pointer_mod}
use device_xiaomi_dash_twrp.AuthProxy.{
  AuthProxyIterator, AuthProxy, Sets, invalid, iterator_eq, begin, end, increment, walk,
}

not_end : (it : AuthProxyIterator) → it.pos < invalid → iterator_eq it end ≡ false
unfolding iterator_eq end
not_end it h = rw (beq-ne it.pos invalid (omega arith))

module _ {Param : Type 0} (sets : Sets Param) where
  abbrev all : AuthProxyIterator → List Param
  all it = sets.elements it.auth_set1 ++ sets.elements it.auth_set2

  increment_empty :
      (it : AuthProxyIterator)
      → all it ≡ []
      → it.pos + 1 < invalid
      → increment sets it ≡ record it { pos = it.pos + 1 }
  unfolding increment
  increment_empty it none_there low =
      let len = length-append (sets.elements it.auth_set1) (sets.elements it.auth_set2) in
      let size : length (all it) ≡ 0 = ap length none_there in
      let next : (it.pos + 1) % pointer_mod ≡ it.pos + 1 = omega arith in
      let total : (length (sets.elements it.auth_set1) + length (sets.elements it.auth_set2))
            % pointer_mod
          ≡ 0 =
        omega arith in
      rw (beq-ne it.pos invalid (omega arith), next, total, beq-ne (it.pos + 1) 0 (omega arith))

  walk_empty :
      (fuel : ℕ) (it : AuthProxyIterator)
      → all it ≡ []
      → it.pos + fuel < invalid
      → walk sets fuel it ≡ none
  unfolding walk
  walk_empty zero it none_there low = refl
  walk_empty (suc fuel) it none_there low = rw (
    not_end it (omega arith),
    increment_empty it none_there (omega arith),
    walk_empty fuel (record it { pos = it.pos + 1 }) none_there (omega arith),
  )

  -- Over two empty sets begin() is not end(), and the walk does not reach end() in fewer than 2^64 - 1
  -- rounds.
  pub walk_empty_runs_on :
      (p : AuthProxy)
      → sets.elements p.hw_enforced ++ sets.elements p.sw_enforced ≡ []
      → (fuel : ℕ) → fuel < invalid
      → (iterator_eq (begin p) end ≡ false) × (walk sets fuel (begin p) ≡ none)
  unfolding begin
  walk_empty_runs_on p none_there fuel low =
      (not_end (begin p) (omega arith), walk_empty fuel (begin p) none_there (omega arith))
