-- ===== src/Enforcement.antt =====
-- KeymasterEnforcement of prebuilt/a15-aidl/include/keymaster/keymaster/keymaster_enforcement.h: the
-- part of its state that the header changes, early boot and the lock of the device. The clock
-- get_current_time_ms is that of a subclass; its value comes with each call.
use device_xiaomi_dash_twrp.Prelude.{ℕ, ◌/◌, ◌%◌, ◌^◌, Bool, true, false}

-- in_early_boot_, device_locked_at_, password_unlock_only_
pub record KeymasterEnforcement : Type 0 where
  pub in_early_boot : Bool
  pub device_locked_at : ℕ
  pub password_unlock_only : Bool

-- The initial values of the members.
pub initial : KeymasterEnforcement
initial = record { in_early_boot = true; device_locked_at = 0; password_unlock_only = false }

-- uint32_t get_current_time() const
pub get_current_time : ℕ → ℕ
get_current_time current_time_ms = current_time_ms / 1000 % 2 ^ 32

-- void early_boot_ended()
pub early_boot_ended : KeymasterEnforcement → KeymasterEnforcement
early_boot_ended s = record s { in_early_boot = false }

-- void device_locked(bool password_only)
pub device_locked : (current_time_ms : ℕ) → Bool → KeymasterEnforcement → KeymasterEnforcement
device_locked current_time_ms password_only s = record s {
  device_locked_at = current_time_ms;
  password_unlock_only = password_only;
}
