-- ===== src/AuthProxy/Lookup.antt =====
-- AuthProxy::operator[] against the list of the elements of both sets.
use native.Mathlib.Decide.{dec_lt}
use device_xiaomi_dash_twrp.Prelude.{
  ℕ, ◌+◌, ◌-◌, ◌<◌, ◌≡◌, sym, ap, ◌∙◌, Option, none, some, ◌++◌, length, length-append, arith,
  lt→ltb, le→ltb, get_elem?, get_elem?-append_left, get_elem?-append_right, get_elem?-some,
  get_elem?-none,
}
use device_xiaomi_dash_twrp.AuthProxy.{AuthProxy, Sets, proxy_at, AuthProxyIterator, current}

abbrev pub or_else {ℓ} : {A : Type ℓ} → A → Option A → A
or_else d none = d
or_else d (some v) = v

module _ {Param : Type 0} (sets : Sets Param) where
  pub current_lem :
      (it : AuthProxyIterator) (v : Param)
      → get_elem? (sets.elements it.auth_set1 ++ sets.elements it.auth_set2) it.pos ≡ some v
      → current sets it ≡ v
  unfolding current
  current_lem it v h = elim (dec_lt it.pos (length (sets.elements it.auth_set1))) [
    | yes low ↦ rw (lt→ltb _ _ low) (
        sets.elem_at_lem _ _ v
          (sym (get_elem?-append_left (sets.elements it.auth_set1) _ it.pos low) ∙ h))
    | no high ↦
        let split : length (sets.elements it.auth_set1)
              + (it.pos - length (sets.elements it.auth_set1))
            ≡ it.pos =
          omega arith in
        rw (le→ltb it.pos (length (sets.elements it.auth_set1)) (omega arith)) (
          sets.elem_at_lem _ _ v (
            sym (get_elem?-append_right (sets.elements it.auth_set1) _ _)
            ∙ ap (get_elem? (sets.elements it.auth_set1 ++ sets.elements it.auth_set2)) split
            ∙ h))
  ]

  in_range :
      (it : AuthProxyIterator) (v blank : Param)
      → get_elem? (sets.elements it.auth_set1 ++ sets.elements it.auth_set2) it.pos ≡ some v
      → it.pos < length (sets.elements it.auth_set1) + length (sets.elements it.auth_set2)
      → proxy_at sets blank
          (record { hw_enforced = it.auth_set1; sw_enforced = it.auth_set2 })
          it.pos
        ≡ v
  unfolding proxy_at current
  in_range it v blank here inside = elim (dec_lt it.pos (length (sets.elements it.auth_set1))) [
    | yes low ↦
        let found = current_lem it v here in rw (lt→ltb _ _ low) (rw (lt→ltb _ _ low) at found)
    | no high ↦
        let found = current_lem it v here in
        let miss = le→ltb it.pos (length (sets.elements it.auth_set1)) (omega arith) in
        let hit =
          lt→ltb (it.pos - length (sets.elements it.auth_set1))
            (length (sets.elements it.auth_set2)) (omega arith) in
        rw (miss, hit) (rw miss at found)
  ]

  -- Below the joint size AuthProxy's element at `pos` is that of the hardware-enforced elements
  -- followed by the software-enforced ones; from there on it is the empty parameter.
  pub proxy_at-append :
      (blank : Param) (p : AuthProxy) (pos : ℕ)
      → proxy_at sets blank p pos
        ≡ or_else blank (get_elem? (sets.elements p.hw_enforced ++ sets.elements p.sw_enforced) pos)
  unfolding proxy_at
  proxy_at-append blank p pos =
      let hw = sets.elements p.hw_enforced in
      let sw = sets.elements p.sw_enforced in
      let it : AuthProxyIterator = record {
        pos = pos;
        auth_set1 = p.hw_enforced;
        auth_set2 = p.sw_enforced;
      } in
      let len = length-append hw sw in
      elim (dec_lt pos (length (hw ++ sw))) [
        | no out ↦ rw (
          get_elem?-none (hw ++ sw) pos (omega arith),
          le→ltb pos (length hw) (omega arith),
          le→ltb (pos - length hw) (length sw) (omega arith),
        )
        | yes inside ↦
            let (v, here) = get_elem?-some (hw ++ sw) pos inside in
            in_range it v blank here (omega arith) ∙ sym (ap (or_else blank) here)
      ]
