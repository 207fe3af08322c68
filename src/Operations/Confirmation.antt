-- ===== src/Operations/Confirmation.antt =====
-- The buffer of an operation that collects what a confirmation is to be checked against.
use device_xiaomi_dash_twrp.Prelude.{
  ◌≡◌, refl, sym, ap, ◌∙◌, Bool, true, false, Option, none, some, List, [], ◌∷◌, ◌++◌,
}
use device_xiaomi_dash_twrp.Operations.{Operation, create_confirmation_verifier_buffer}

-- The first of them that is there.
abbrev pub first_some : {A : Type 0} → List (Option A) → Option A
first_some [] = none
first_some (none ∷ rest) = first_some rest
first_some (some a ∷ rest) = some a

abbrev pub is_some : {A : Type 0} → Option A → Bool
is_some none = false
is_some (some a) = true

first_one : {A : Type 0} (a : Option A) → first_some (a ∷ []) ≡ a
first_one none = refl
first_one (some b) = refl

first_two :
    {A : Type 0} (a b : Option A) (rest : List (Option A))
    → first_some (first_some (a ∷ b ∷ []) ∷ rest) ≡ first_some (a ∷ b ∷ rest)
first_two none none rest = refl
first_two none (some b) rest = refl
first_two (some a) b rest = refl

first_behind :
    {A : Type 0} (a later : Option A) (rest : List (Option A))
    → first_some (first_some (a ∷ rest) ∷ later ∷ []) ≡ first_some (a ∷ rest ++ later ∷ [])
first_behind (some a) later rest = refl
first_behind none later [] = refl
first_behind none later (b ∷ rest) = first_behind b later rest

module _ {S Buffer : Type 0} where
  -- The operation after some calls; `made` has what each was given.
  abbrev pub after_calls : (made : List (Option Buffer)) → Operation S Buffer → Operation S Buffer
  after_calls [] o = o
  after_calls (made ∷ more) o = after_calls more (create_confirmation_verifier_buffer made o).1

  with_buffer : Operation S Buffer → Option Buffer → Operation S Buffer
  with_buffer o b = record o { confirmation_verifier_buffer = b }

  call_lem :
      (existing made : Option Buffer) (o : Operation S Buffer)
      → o.confirmation_verifier_buffer ≡ existing
      → ((create_confirmation_verifier_buffer made o).0
          ≡ is_some (first_some (existing ∷ made ∷ [])))
        × ((create_confirmation_verifier_buffer made o).1
            ≡ with_buffer o (first_some (existing ∷ made ∷ [])))
  unfolding create_confirmation_verifier_buffer with_buffer
  call_lem (some b) made o h = rw h (refl, refl)
  call_lem none none o h = rw h (refl, refl)
  call_lem none (some b) o h = rw h (refl, refl)

  after_calls_lem :
      (made : List (Option Buffer)) (o : Operation S Buffer)
      → after_calls made o ≡ with_buffer o (first_some (o.confirmation_verifier_buffer ∷ made))
  unfolding with_buffer
  after_calls_lem [] o = ap (with_buffer o) (sym (first_one o.confirmation_verifier_buffer))
  after_calls_lem (made ∷ more) o =
      let existing = o.confirmation_verifier_buffer in
      let (said, changed) = call_lem existing made o refl in
      ap (after_calls more) changed
      ∙ after_calls_lem more (with_buffer o (first_some (existing ∷ made ∷ [])))
      ∙ ap (with_buffer o) (first_two existing made more)

  -- After any calls the buffer is the first that there is: the one of before, or else the first for
  -- which a call was given memory; the calls change nothing else of the operation. A call says true
  -- exactly if this buffer is there after it.
  pub confirmation_buffer_is_made_once :
      (made : List (Option Buffer)) (later : Option Buffer) (o : Operation S Buffer)
      → (after_calls made o ≡ record o {
        confirmation_verifier_buffer = first_some (o.confirmation_verifier_buffer ∷ made);
      })
        × ((create_confirmation_verifier_buffer later (after_calls made o)).0
            ≡ is_some (first_some (o.confirmation_verifier_buffer ∷ made ++ later ∷ [])))
  unfolding with_buffer
  confirmation_buffer_is_made_once made later o =
      let existing = o.confirmation_verifier_buffer in
      let after = after_calls_lem made o in
      let (said, changed) =
        call_lem (first_some (existing ∷ made)) later (after_calls made o)
          (ap (λ k. k.confirmation_verifier_buffer) after) in
      (after, said ∙ ap is_some (first_behind existing later made))
