-- ===== src/Messages/Attestation/IdsKm3.antt =====
-- SetAttestationIdsKM3Request: the base request and a second IMEI.
use device_xiaomi_dash_twrp.Prelude.{
  ℕ, ◌+◌, ◌%◌, ◌<◌, ◌≡◌, ◌++◌, List, length, length-append, arith,
}
use device_xiaomi_dash_twrp.Memory.{Put, ◌>>◌, Get, ◌&&>◌, into, pointer_mod}
use device_xiaomi_dash_twrp.Memory.Format.{Format, Confined, ◌&f◌, ◌&c◌, Format-into, Confined-into}
use device_xiaomi_dash_twrp.Serializable.Interface.{External}
use device_xiaomi_dash_twrp.Serializable.Contract.{Serializable}
use device_xiaomi_dash_twrp.Messages.Attestation.Ids
use device_xiaomi_dash_twrp.Messages.Attestation.Ids.{SetAttestationIdsRequest}

pub record SetAttestationIdsKm3Request (Buffer : Type 0) : Type 0 where
  pub base : SetAttestationIdsRequest Buffer
  pub second_imei : Buffer

module _ (x : External) {Buffer : Type 0} (buffer : Serializable Buffer) where
  pub serialized_size : SetAttestationIdsKm3Request Buffer → ℕ
  serialized_size r =
      ((Ids.codec x buffer).serialized_size r.base + buffer.serialized_size r.second_imei)
      % pointer_mod

  pub serialize : SetAttestationIdsKm3Request Buffer → Put
  serialize r = do (Ids.codec x buffer).serialize r.base; buffer.serialize r.second_imei

  pub deserialize : Get (SetAttestationIdsKm3Request Buffer)
  deserialize =
      into (λ r. r.base) (λ r v. record r { base = v }) (Ids.codec x buffer).deserialize
      &&> into (λ r. r.second_imei) (λ r v. record r { second_imei = v }) buffer.deserialize

  -- The members in the order in which they are written.
  abbrev pub bytes : SetAttestationIdsKm3Request Buffer → List ℕ
  bytes r = (Ids.codec x buffer).bytes r.base ++ buffer.bytes r.second_imei

  -- Every member fits the width at which it is written.
  pub record Fits (r : SetAttestationIdsKm3Request Buffer) : Type 0 where
    pub base_fits : (Ids.codec x buffer).Fits r.base
    pub second_imei_fits : buffer.Fits r.second_imei

  -- What reading `r` makes of `old`.
  abbrev pub loads :
      SetAttestationIdsKm3Request Buffer
      → SetAttestationIdsKm3Request Buffer
      → SetAttestationIdsKm3Request Buffer
  loads r old = record {
    base = (Ids.codec x buffer).loads r.base old.base;
    second_imei = buffer.loads r.second_imei old.second_imei;
  }

  pub format :
      (r : SetAttestationIdsKm3Request Buffer)
      → Fits r
      → Format (serialize r) deserialize (bytes r) (loads r)
  unfolding serialize deserialize
  format r f =
      Format-into _ _ ((Ids.codec x buffer).format r.base f.base_fits)
      &f Format-into _ _ (buffer.format r.second_imei f.second_imei_fits)

  pub confined : (r : SetAttestationIdsKm3Request Buffer) → Confined (serialize r) deserialize
  unfolding serialize deserialize
  confined r =
      Confined-into _ _ ((Ids.codec x buffer).confined r.base)
      &c Confined-into _ _ (buffer.confined r.second_imei)

  pub size_counts :
      (r : SetAttestationIdsKm3Request Buffer)
      → Fits r
      → length (bytes r) < pointer_mod
      → serialized_size r ≡ length (bytes r)
  unfolding serialized_size
  size_counts r f lt = omega (
    arith,
    length-append {0} ((Ids.codec x buffer).bytes r.base) (buffer.bytes r.second_imei),
    (Ids.codec x buffer).size_counts r.base f.base_fits,
    buffer.size_counts r.second_imei f.second_imei_fits,
  )

  abbrev pub codec : Serializable (SetAttestationIdsKm3Request Buffer)
  codec = record {
    serialized_size = serialized_size;
    serialize = serialize;
    deserialize = deserialize;
    bytes = bytes;
    Fits = Fits;
    loads = loads;
    size_counts = size_counts;
    format = format;
    confined = confined;
  }
