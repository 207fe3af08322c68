-- ===== src/AuthProxy.antt =====
-- prebuilt/a15-aidl/include/keymaster/keymaster/authorization_set.h: AuthProxy, the hardware- and
-- the software-enforced set seen as one, and AuthProxyIterator, which walks over both. A set is the
-- list of its elements; `operator[]` and `find` are declared only, and parameters here.
pub mod Lookup
pub mod Walk
mod Tests
use device_xiaomi_dash_twrp.Prelude.{
  ℕ, zero, suc, ◌+◌, ◌-◌, ◌%◌, ◌≡◌, Bool, true, false, not, ◌&&◌, ◌||◌, Option, none, some, List,
  [], ◌∷◌, length, ltb, ◌==◌, if◌then◌else◌, get_elem?,
}
use device_xiaomi_dash_twrp.Memory.{pointer_mod}

-- `~size_t(0)`
abbrev pub invalid : ℕ
invalid = pointer_mod - 1

-- The sets are pointers; the null pointer is 0.
pub record AuthProxyIterator : Type 0 where
  pub pos : ℕ
  pub auth_set1 : ℕ
  pub auth_set2 : ℕ

abbrev pub SetPtr : Type 0
SetPtr = ℕ

-- AuthProxy holds references to both sets.
pub record AuthProxy : Type 0 where
  pub hw_enforced : SetPtr
  pub sw_enforced : SetPtr

-- bool operator==(const AuthProxyIterator& rhs)
pub iterator_eq : AuthProxyIterator → AuthProxyIterator → Bool
iterator_eq a b =
    if a.pos == b.pos
    then a.pos == invalid || a.auth_set1 == b.auth_set1 && a.auth_set2 == b.auth_set2
    else false

-- AuthProxyIterator begin() const, AuthProxyIterator end() const
pub begin : AuthProxy → AuthProxyIterator
begin p = record { pos = 0; auth_set1 = p.hw_enforced; auth_set2 = p.sw_enforced }

pub end : AuthProxyIterator
end = record { pos = invalid; auth_set1 = 0; auth_set2 = 0 }

-- What the header relies on in AuthorizationSet: the elements behind a pointer, and `operator[]`,
-- "Returns the nth element of the set"; beyond the size it returns anything.
pub record Sets (Param : Type 0) : Type 0 where
  pub elements : SetPtr → List Param
  pub elem_at : SetPtr → ℕ → Param
  pub elem_at_lem :
      (s : SetPtr) (n : ℕ) (v : Param) → get_elem? (elements s) n ≡ some v → elem_at s n ≡ v

module _ {Param : Type 0} (sets : Sets Param) where
  -- size_t size() const of AuthorizationSet
  abbrev pub set_size : SetPtr → ℕ
  set_size s = length (sets.elements s)

  -- AuthProxyIterator& operator++()
  pub increment : AuthProxyIterator → AuthProxyIterator
  increment it =
      let next = (it.pos + 1) % pointer_mod in
      if it.pos == invalid then it else record it {
        pos =
            if next == (set_size it.auth_set1 + set_size it.auth_set2) % pointer_mod
            then invalid
            else next;
      }

  -- const keymaster_key_param_t& operator*() const
  pub current : AuthProxyIterator → Param
  current it =
      if ltb it.pos (set_size it.auth_set1)
      then sets.elem_at it.auth_set1 it.pos
      else sets.elem_at it.auth_set2 (it.pos - set_size it.auth_set1)

  -- `for (auto& param : proxy)`: the parameters from `it` on, `none` where the fuel runs out.
  pub walk : ℕ → AuthProxyIterator → Option (List Param)
  unfolding iterator_eq increment current end
  walk zero it = none
  walk (suc fuel) it =
      let rest : Option (List Param) = elim (walk fuel (increment it)) [
        | none ↦ none
        | some ps ↦ some (current it ∷ ps)
      ] in
      if iterator_eq it end then some [] else rest

  -- size_t size() const of AuthProxy
  pub proxy_size : AuthProxy → ℕ
  proxy_size p = (set_size p.hw_enforced + set_size p.sw_enforced) % pointer_mod

  -- keymaster_key_param_t operator[](size_t pos) const; `blank` is `{}`. The subtraction of size_t
  -- does not wrap there, since `pos` is not below the subtrahend.
  pub proxy_at : Param → AuthProxy → ℕ → Param
  proxy_at blank p pos =
      if ltb pos (set_size p.hw_enforced)
      then sets.elem_at p.hw_enforced pos
      else if ltb (pos - set_size p.hw_enforced) (set_size p.sw_enforced)
      then sets.elem_at p.sw_enforced (pos - set_size p.hw_enforced)
      else blank
