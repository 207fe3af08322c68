-- ===== src/ErrorOr.antt =====
-- KmErrorOr of prebuilt/a15-aidl/include/keymaster/keymaster/keymaster_utils.h: an error or a value
-- that must be looked at before it is destroyed. Getting a value that is not there, and the abort of
-- the destructor, are `none`.
use device_xiaomi_dash_twrp.Prelude.{Bool, true, false, Option, none, some, if◌then◌else◌}

-- What of keymaster_error_t the class names.
pub record ErrorCodes (Error : Type 0) : Type 0 where
  pub km_error_ok : Error
  pub km_error_unknown_error : Error

-- The members error_, value_ and value_checked_.
pub record KmErrorOr (Error T : Type 0) : Type 0 where
  pub error_code : Error
  pub held : Option T
  pub value_checked : Bool

module _ {Error T : Type 0} (codes : ErrorCodes Error) where
  -- KmErrorOr(), KmErrorOr(keymaster_error_t error), KmErrorOr(const T& value)
  pub default_construct : KmErrorOr Error T
  default_construct = record {
    error_code = codes.km_error_unknown_error;
    held = none;
    value_checked = true;
  }

  pub from_error : Error → KmErrorOr Error T
  from_error e = record { error_code = e; held = none; value_checked = false }

  pub from_value : T → KmErrorOr Error T
  from_value v = record { error_code = codes.km_error_ok; held = some v; value_checked = false }

  -- operator=(KmErrorOr&& other) of two objects, three swaps: this and other afterwards.
  pub move_assign : KmErrorOr Error T → KmErrorOr Error T → KmErrorOr Error T × KmErrorOr Error T
  move_assign this other = (other, this)

  -- KmErrorOr(KmErrorOr&& other): this and other afterwards. value_ starts without a value.
  pub move_construct : KmErrorOr Error T → KmErrorOr Error T × KmErrorOr Error T
  unfolding move_assign default_construct
  move_construct other = move_assign default_construct other

  -- ~KmErrorOr()
  pub destroy : KmErrorOr Error T → Option (Unit {0})
  destroy x = if x.value_checked then some tt else none

  -- bool isOk() const, also operator bool: the answer, and the object.
  pub is_ok : KmErrorOr Error T → Bool × KmErrorOr Error T
  is_ok x = (elim x.held [ none ↦ false | some v ↦ true ], record x { value_checked = true })

  -- keymaster_error_t error()
  pub error_of : KmErrorOr Error T → Error
  error_of x = if x.value_checked then x.error_code else codes.km_error_unknown_error

  -- value(), operator*, operator->
  pub value_of : KmErrorOr Error T → Option T
  value_of x = x.held
