-- ===== src/KeyMint/Sets/Built.antt =====
-- The set that AuthorizationSetBuilder of keymint_support/authorization_set.h makes.
use mathlib.Core.List.{append_assoc, append-nil}
use device_xiaomi_dash_twrp.Prelude.{
  ◌↔◌, ℕ, ◌-◌, ◌≡◌, refl, sym, ap, subst, ◌∙◌, ◌⊎◌, inl, inr, true, List, [], ◌∷◌, ◌++◌, length,
  take, take_all,
}
use device_xiaomi_dash_twrp.KeyMint.Tags.{
  Tag, tag_number, union_tag, blob_field, attestation_challenge, attestation_application_id,
}
use device_xiaomi_dash_twrp.KeyMint.Parameters.{
  Value, KeyParameter, make, authorization, make_key_parameter,
}
use device_xiaomi_dash_twrp.KeyMint.Sets.{
  AuthorizationSet, contains, push_param, push_all, push_tag, push_bytes, push_text, push_string,
  attestation_challenge_of, attestation_application_id_of, Call, authorization_call, text_call,
  string_call, authorizations_call, challenge_call, application_id_call, call, build,
}
use device_xiaomi_dash_twrp.KeyMint.Sets.Membership.{Has, contains_lem}

abbrev blob : Tag → List ℕ → KeyParameter
blob t bs = record { tag = tag_number t; content = make blob_field bs }

-- The parameters for which a call asks: a literal without its terminating zero, a string whole.
abbrev pub requested : Call → List KeyParameter
requested (authorization_call t v) = authorization t v ∷ []
requested (text_call t chars) = blob t (take (length chars - 1) chars) ∷ []
requested (string_call t chars) = blob t chars ∷ []
requested (authorizations_call set) = set
requested (challenge_call challenge) = blob attestation_challenge challenge ∷ []
requested (application_id_call id) = blob attestation_application_id id ∷ []

push_all-elems :
    (set : List KeyParameter) (s : AuthorizationSet) → (push_all set s).elems ≡ s.elems ++ set
unfolding push_all push_param
push_all-elems [] s = sym (append-nil s.elems)
push_all-elems (p ∷ set) s = push_all-elems set (push_param p s) ∙ append_assoc s.elems (p ∷ []) set

call_lem : (c : Call) (s : AuthorizationSet) → (call c s).elems ≡ s.elems ++ requested c
unfolding call push_tag push_text push_string push_bytes push_param attestation_challenge_of
    attestation_application_id_of
call_lem (authorization_call t v) s = refl
call_lem (text_call t chars) s = refl
call_lem (string_call t chars) s = ap (λ bs. s.elems ++ blob t bs ∷ []) (take_all chars)
call_lem (authorizations_call set) s = push_all-elems set s
call_lem (challenge_call challenge) s =
    ap (λ bs. s.elems ++ blob attestation_challenge bs ∷ []) (take_all challenge)
call_lem (application_id_call id) s =
    ap (λ bs. s.elems ++ blob attestation_application_id bs ∷ []) (take_all id)

Has-append_left : (p : KeyParameter) (xs ys : List KeyParameter) → Has p xs → Has p (xs ++ ys)
Has-append_left p [] ys has = absurd has
Has-append_left p (x ∷ xs) ys (inl here) = inl here
Has-append_left p (x ∷ xs) ys (inr later) = inr (Has-append_left p xs ys later)

Has-append_right : (p : KeyParameter) (xs ys : List KeyParameter) → Has p ys → Has p (xs ++ ys)
Has-append_right p [] ys has = has
Has-append_right p (x ∷ xs) ys has = inr (Has-append_right p xs ys has)

Has-split : (p : KeyParameter) (xs ys : List KeyParameter) → Has p (xs ++ ys) → Has p xs ⊎ Has p ys
Has-split p [] ys has = inr has
Has-split p (x ∷ xs) ys (inl here) = inl (inl here)
Has-split p (x ∷ xs) ys (inr later) = elim (Has-split p xs ys later) [
  | inl first ↦ inl (inr first)
  | inr second ↦ inr second
]

-- One of the calls asked for the parameter.
abbrev pub Requested : KeyParameter → List Call → Type 0
Requested p [] = ⊥
Requested p (c ∷ cs) = Has p (requested c) ⊎ Requested p cs

built_from :
    (p : KeyParameter) (cs : List Call) (s : AuthorizationSet)
    → Has p (build cs s).elems
    → Has p s.elems ⊎ Requested p cs
unfolding build
built_from p [] s has = inl has
built_from p (c ∷ cs) s has = elim (built_from p cs (call c s) has) [
  | inr later ↦ inr (inr later)
  | inl now ↦ elim (Has-split p s.elems (requested c) (subst (Has p) (call_lem c s) now)) [
    | inl before ↦ inl before
    | inr made ↦ inr (inl made)
  ]
]

built_with :
    (p : KeyParameter) (cs : List Call) (s : AuthorizationSet)
    → Has p s.elems ⊎ Requested p cs
    → Has p (build cs s).elems
unfolding build
built_with p [] s (inl has) = has
built_with p [] s (inr none_asked) = absurd none_asked
built_with p (c ∷ cs) s (inl before) =
    built_with p cs (call c s)
      (inl (subst (Has p) (sym (call_lem c s)) (Has-append_left p s.elems (requested c) before)))
built_with p (c ∷ cs) s (inr (inl made)) =
    built_with p cs (call c s)
      (inl (subst (Has p) (sym (call_lem c s)) (Has-append_right p s.elems (requested c) made)))
built_with p (c ∷ cs) s (inr (inr later)) = built_with p cs (call c s) (inr later)

-- After any sequence of calls of a builder, Contains of a tag and a value says true exactly if the set
-- had that parameter before, or one of the calls asked for it.
pub contains-build :
    (t : Tag) (v : Value (union_tag t)) (cs : List Call) (s : AuthorizationSet)
    → (contains t v (build cs s).elems ≡ true)
      ↔ (Has (make_key_parameter t v) s.elems ⊎ Requested (make_key_parameter t v) cs)
contains-build t v cs s =
    let p = make_key_parameter t v in
    let both = contains_lem t v (build cs s).elems in
    ((λ yes. built_from p cs s (both.0 yes)), (λ has. both.1 (built_with p cs s has)))
