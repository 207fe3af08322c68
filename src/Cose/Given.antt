-- ===== src/Cose/Given.antt =====
-- The results of CoseKey in cppcose.h: an error, or a value with a property.
use device_xiaomi_dash_twrp.Prelude.{
  ◌≡◌, ◌≢◌, refl, sym, ap, subst, ◌∙◌, inl, inr, Bool, true, false, Option, none, some,
  if◌then◌else◌,
}
use device_xiaomi_dash_twrp.Cose.{Message, ErrMsgOr, of_message, of_value, ◌>>=◌, with_value}
use device_xiaomi_dash_twrp.Cose.Keys.{Given}

pub chosen :
    {A : Type 0} (P : A → Type 0) (bad : Bool) (text : Message) (v : A)
    → (bad ≡ false → P v)
    → Given (some (if bad then of_message text else of_value v)) P
chosen P true text v h = inl (text, refl)
chosen P false text v h = inr (v, refl, h refl)

pub then_given :
    {A B : Type 0} (P : A → Type 0) (Q : B → Type 0) (r : Option (ErrMsgOr A))
    (f : A → Option (ErrMsgOr B))
    → Given r P
    → ((v : A) → P v → Given (f v) Q)
    → Given (r >>= λ x. with_value x f) Q
then_given P Q r f (inl (text, h)) k = inl (text, rw h refl)
then_given P Q r f (inr (v, h, p)) k = rw h (k v p)

value_in : {A : Type 0} → Option (ErrMsgOr A) → Option A
value_in none = none
value_in (some r) = r.held

pub given_some : {A : Type 0} (r : Option (ErrMsgOr A)) (P : A → Type 0) → Given r P → r ≢ none
given_some r P (inl (text, h)) e = let clash = sym h ∙ e in cc clash
given_some r P (inr (v, h, p)) e = let clash = sym h ∙ e in cc clash

-- A value that is given has the property.
pub given_value :
    {A : Type 0} (r : Option (ErrMsgOr A)) (P : A → Type 0) (k : A)
    → Given r P
    → r ≡ some (of_value k)
    → P k
unfolding value_in
given_value r P k (inl (text, failed)) h = let clash = ap value_in (sym failed ∙ h) in cc clash
given_value r P k (inr (v, read, holds)) h =
    let both = ap value_in (sym read ∙ h) in let same : v ≡ k = cc in subst P same holds
