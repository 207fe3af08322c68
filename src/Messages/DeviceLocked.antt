-- ===== src/Messages/DeviceLocked.antt =====
-- DeviceLockedRequest: a flag byte and the verification token, whose methods are declared only.
-- Its SerializedSize leaves the token out.
use device_xiaomi_dash_twrp.Prelude.{
  ℕ, suc, ◌+◌, ◌<◌, ◌≤◌, ◌≡◌, refl, ap, Bool, true, false, not, ◌∷◌, [], ◌++◌, List, length, arith,
  if◌then◌else◌, ltb, leb, ◌==◌, lt→leb, lt→ltb, Bool-cases, inl, inr,
}
use device_xiaomi_dash_twrp.Memory.{
  Mem, store, Put, ◌>>◌, Get, ◌&&>◌, into, success, failure, pointer_mod,
}
use device_xiaomi_dash_twrp.Memory.Laws.{write_bytes-one}
use device_xiaomi_dash_twrp.Memory.Format.{
  Format, Confined, ◌&f◌, ◌&c◌, Format-into, Confined-into, read_back,
}
use device_xiaomi_dash_twrp.Serializable.Contract.{Serializable}

pub record DeviceLockedRequest (VerificationToken : Type 0) : Type 0 where
  pub password_only : Bool
  pub token : VerificationToken

-- `passwordOnly ? 1 : 0`
abbrev pub flag_byte : Bool → ℕ
flag_byte b = if b then 1 else 0

-- `if (buf < end) *buf++ = passwordOnly ? 1 : 0;`
pub put_flag : Bool → Put
put_flag b m buf end = if ltb buf end then (store m buf (flag_byte b), buf + 1) else (m, buf)

-- `if (*buf_ptr >= end) return false; passwordOnly = !!*(*buf_ptr)++;`
pub get_flag : Get Bool
get_flag m buf end old =
    if leb end buf then failure buf old else success (buf + 1) (not (m buf == 0))

flag-Format : (b : Bool) → Format (put_flag b) get_flag (flag_byte b ∷ []) (λ _. b)
unfolding put_flag get_flag
flag-Format b = record {
  emits = record {
    emits = λ m p end room top. rw (lt→ltb p end (omega arith), write_bytes-one m p (flag_byte b));
  };
  accepts = record {
    accepts = λ m p end a holds room top. rw (lt→leb end p (omega arith), holds.0) (flag b p);
  };
}
  where
    flag : (c : Bool) (p : ℕ) → success (p + 1) (not (flag_byte c == 0)) ≡ success (p + 1) c
    flag true p = refl
    flag false p = refl

flag-Confined : (b : Bool) → Confined (put_flag b) get_flag
unfolding put_flag get_flag
flag-Confined b = record {
  stays = record { stays = λ m p end le. ground arith; spares = λ m p end le a out. ground arith };
  guarded = record {
    guards = λ m p end a le. elim (Bool-cases (leb end p)) [
      | inl full ↦ rw full tt
      | inr room ↦ rw room (ground arith)
    ];
  };
}

module _ {VerificationToken : Type 0} (token : Serializable VerificationToken) where
  pub serialized_size : DeviceLockedRequest VerificationToken → ℕ
  serialized_size r = 1

  pub serialize : DeviceLockedRequest VerificationToken → Put
  serialize r = do put_flag r.password_only; token.serialize r.token

  pub deserialize : Get (DeviceLockedRequest VerificationToken)
  deserialize =
      into (λ r. r.password_only) (λ r v. record r { password_only = v }) get_flag
      &&> into (λ r. r.token) (λ r v. record r { token = v }) token.deserialize

  abbrev pub bytes : DeviceLockedRequest VerificationToken → List ℕ
  bytes r = (flag_byte r.password_only ∷ []) ++ token.bytes r.token

  abbrev pub loads :
      DeviceLockedRequest VerificationToken
      → DeviceLockedRequest VerificationToken
      → DeviceLockedRequest VerificationToken
  loads r old = record { password_only = r.password_only; token = token.loads r.token old.token }

  pub format :
      (r : DeviceLockedRequest VerificationToken)
      → token.Fits r.token
      → Format (serialize r) deserialize (bytes r) (loads r)
  unfolding serialize deserialize
  format r f =
      Format-into _ _ (flag-Format r.password_only) &f Format-into _ _ (token.format r.token f)

  pub confined : (r : DeviceLockedRequest VerificationToken) → Confined (serialize r) deserialize
  unfolding serialize deserialize
  confined r =
      Confined-into _ _ (flag-Confined r.password_only)
      &c Confined-into _ _ (token.confined r.token)

  -- A request whose token has a representation of at least one byte, written where there is room
  -- for it, is read back; but it takes the token's bytes more than SerializedSize says.
  pub device_locked_understates :
      (r : DeviceLockedRequest VerificationToken)
      → token.Fits r.token
      → 0 < length (token.bytes r.token)
      → (m : Mem) (p end : ℕ) (old : DeviceLockedRequest VerificationToken)
      → p + suc (length (token.bytes r.token)) ≤ end
      → end < pointer_mod
      → (deserialize (serialize r m p end).0 p end old
          ≡ success (p + serialized_size r + token.serialized_size r.token) (loads r old))
        × ((serialize r m p end).1 ≡ p + serialized_size r + token.serialized_size r.token)
        × (p + serialized_size r < (serialize r m p end).1)
  unfolding serialized_size
  device_locked_understates r f more m p end old room top =
      let size = token.size_counts r.token f (omega arith) in
      let form = format r f in
      let (read, pointer) = read_back form.emits form.accepts m p end old room top in
      (rw (read, size) (ap (λ q. success q (loads r old)) (omega arith)), omega arith, omega arith)
