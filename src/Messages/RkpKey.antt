-- ===== src/Messages/RkpKey.antt =====
-- GenerateRkpKeyRequest: the byte of the flag test_mode.
use device_xiaomi_dash_twrp.Prelude.{ℕ, ◌+◌, ◌<◌, ◌≡◌, sym, ap, ◌∙◌, List, length, arith}
use device_xiaomi_dash_twrp.Memory.{Put, Get, into, pointer_mod, success, read_bytes}
use device_xiaomi_dash_twrp.Memory.Laws.{read_bytes-Holds}
use device_xiaomi_dash_twrp.Memory.Format.{Format, Confined, Reads, Format-into, Confined-into}
use device_xiaomi_dash_twrp.Serializable.Interface.{External}
use device_xiaomi_dash_twrp.Serializable.Contract.{Serializable}

-- `test_mode` is the memory of the bool, one byte.
pub record GenerateRkpKeyRequest : Type 0 where
  pub test_mode : List ℕ

module _ (x : External) where
  pub serialized_size : GenerateRkpKeyRequest → ℕ
  serialized_size r = 1

  pub serialize : GenerateRkpKeyRequest → Put
  serialize r = x.append_to_buf r.test_mode

  pub deserialize : Get GenerateRkpKeyRequest
  deserialize = into (λ r. r.test_mode) (λ r v. record r { test_mode = v }) (x.copy_from_buf 1)

  abbrev pub bytes : GenerateRkpKeyRequest → List ℕ
  bytes r = r.test_mode

  abbrev pub Fits : GenerateRkpKeyRequest → Type 0
  Fits r = length r.test_mode ≡ 1

  abbrev pub loads : GenerateRkpKeyRequest → GenerateRkpKeyRequest → GenerateRkpKeyRequest
  loads r old = record { test_mode = r.test_mode }

  copy_byte-Reads : (bs : List ℕ) → length bs ≡ 1 → Reads (x.copy_from_buf 1) bs (λ _. bs)
  copy_byte-Reads bs one = record {
    accepts = λ m p end old holds room top.
        x.copy_enough 1 m p end old (omega arith) top
        ∙ (ap (λ n. success (p + n) (read_bytes m p n)) (sym one))
        ∙ ap (success (p + length bs)) (read_bytes-Holds m p bs holds);
  }

  pub format :
      (r : GenerateRkpKeyRequest) → Fits r → Format (serialize r) deserialize (bytes r) (loads r)
  unfolding serialize deserialize
  format r f =
      Format-into _ _
        (record { emits = x.append_emits r.test_mode; accepts = copy_byte-Reads r.test_mode f })

  pub confined : (r : GenerateRkpKeyRequest) → Confined (serialize r) deserialize
  unfolding serialize deserialize
  confined r =
      Confined-into _ _ (record { stays = x.append_stays r.test_mode; guarded = x.copy_guarded 1 })

  pub size_counts :
      (r : GenerateRkpKeyRequest)
      → Fits r
      → length (bytes r) < pointer_mod
      → serialized_size r ≡ length (bytes r)
  unfolding serialized_size
  size_counts r f lt = sym f

  abbrev pub codec : Serializable GenerateRkpKeyRequest
  codec = record {
    serialized_size = serialized_size;
    serialize = serialize;
    deserialize = deserialize;
    bytes = bytes;
    Fits = Fits;
    loads = loads;
    size_counts = size_counts;
    format = format;
    confined = confined;
  }
