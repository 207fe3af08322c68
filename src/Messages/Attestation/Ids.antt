-- ===== src/Messages/Attestation/Ids.antt =====
-- SetAttestationIdsRequest: eight buffers. Buffer is a parameter: its methods are declared only.
use device_xiaomi_dash_twrp.Prelude.{
  ℕ, ◌+◌, ◌%◌, ◌<◌, ◌≡◌, ◌++◌, List, length, length-append, arith,
}
use device_xiaomi_dash_twrp.Memory.{Put, ◌>>◌, Get, ◌&&>◌, into, pointer_mod}
use device_xiaomi_dash_twrp.Memory.Format.{Format, Confined, ◌&f◌, ◌&c◌, Format-into, Confined-into}
use device_xiaomi_dash_twrp.Serializable.Interface.{External}
use device_xiaomi_dash_twrp.Serializable.Contract.{Serializable}

pub record SetAttestationIdsRequest (Buffer : Type 0) : Type 0 where
  pub brand : Buffer
  pub device : Buffer
  pub product : Buffer
  pub serial : Buffer
  pub imei : Buffer
  pub meid : Buffer
  pub manufacturer : Buffer
  pub model : Buffer

module _ (x : External) {Buffer : Type 0} (buffer : Serializable Buffer) where
  pub serialized_size : SetAttestationIdsRequest Buffer → ℕ
  serialized_size r =
      (buffer.serialized_size r.brand
        + buffer.serialized_size r.device
        + buffer.serialized_size r.product
        + buffer.serialized_size r.serial
        + buffer.serialized_size r.imei
        + buffer.serialized_size r.meid
        + buffer.serialized_size r.manufacturer
        + buffer.serialized_size r.model)
      % pointer_mod

  pub serialize : SetAttestationIdsRequest Buffer → Put
  serialize r = do
    buffer.serialize r.brand
    buffer.serialize r.device
    buffer.serialize r.product
    buffer.serialize r.serial
    buffer.serialize r.imei
    buffer.serialize r.meid
    buffer.serialize r.manufacturer
    buffer.serialize r.model

  pub deserialize : Get (SetAttestationIdsRequest Buffer)
  deserialize =
      into (λ r. r.brand) (λ r v. record r { brand = v }) buffer.deserialize
      &&> into (λ r. r.device) (λ r v. record r { device = v }) buffer.deserialize
      &&> into (λ r. r.product) (λ r v. record r { product = v }) buffer.deserialize
      &&> into (λ r. r.serial) (λ r v. record r { serial = v }) buffer.deserialize
      &&> into (λ r. r.imei) (λ r v. record r { imei = v }) buffer.deserialize
      &&> into (λ r. r.meid) (λ r v. record r { meid = v }) buffer.deserialize
      &&> into (λ r. r.manufacturer) (λ r v. record r { manufacturer = v }) buffer.deserialize
      &&> into (λ r. r.model) (λ r v. record r { model = v }) buffer.deserialize

  -- The members in the order in which they are written.
  abbrev pub bytes : SetAttestationIdsRequest Buffer → List ℕ
  bytes r =
      buffer.bytes r.brand
      ++ (buffer.bytes r.device
          ++ (buffer.bytes r.product
              ++ (buffer.bytes r.serial
                  ++ (buffer.bytes r.imei
                      ++ (buffer.bytes r.meid
                          ++ (buffer.bytes r.manufacturer ++ buffer.bytes r.model))))))

  -- Every member fits the width at which it is written.
  pub record Fits (r : SetAttestationIdsRequest Buffer) : Type 0 where
    pub brand_fits : buffer.Fits r.brand
    pub device_fits : buffer.Fits r.device
    pub product_fits : buffer.Fits r.product
    pub serial_fits : buffer.Fits r.serial
    pub imei_fits : buffer.Fits r.imei
    pub meid_fits : buffer.Fits r.meid
    pub manufacturer_fits : buffer.Fits r.manufacturer
    pub model_fits : buffer.Fits r.model

  -- What reading `r` makes of `old`.
  abbrev pub loads :
      SetAttestationIdsRequest Buffer
      → SetAttestationIdsRequest Buffer
      → SetAttestationIdsRequest Buffer
  loads r old = record {
    brand = buffer.loads r.brand old.brand;
    device = buffer.loads r.device old.device;
    product = buffer.loads r.product old.product;
    serial = buffer.loads r.serial old.serial;
    imei = buffer.loads r.imei old.imei;
    meid = buffer.loads r.meid old.meid;
    manufacturer = buffer.loads r.manufacturer old.manufacturer;
    model = buffer.loads r.model old.model;
  }

  pub format :
      (r : SetAttestationIdsRequest Buffer)
      → Fits r
      → Format (serialize r) deserialize (bytes r) (loads r)
  unfolding serialize deserialize
  format r f =
      Format-into _ _ (buffer.format r.brand f.brand_fits)
      &f Format-into _ _ (buffer.format r.device f.device_fits)
      &f Format-into _ _ (buffer.format r.product f.product_fits)
      &f Format-into _ _ (buffer.format r.serial f.serial_fits)
      &f Format-into _ _ (buffer.format r.imei f.imei_fits)
      &f Format-into _ _ (buffer.format r.meid f.meid_fits)
      &f Format-into _ _ (buffer.format r.manufacturer f.manufacturer_fits)
      &f Format-into _ _ (buffer.format r.model f.model_fits)

  pub confined : (r : SetAttestationIdsRequest Buffer) → Confined (serialize r) deserialize
  unfolding serialize deserialize
  confined r =
      Confined-into _ _ (buffer.confined r.brand)
      &c Confined-into _ _ (buffer.confined r.device)
      &c Confined-into _ _ (buffer.confined r.product)
      &c Confined-into _ _ (buffer.confined r.serial)
      &c Confined-into _ _ (buffer.confined r.imei)
      &c Confined-into _ _ (buffer.confined r.meid)
      &c Confined-into _ _ (buffer.confined r.manufacturer)
      &c Confined-into _ _ (buffer.confined r.model)

  pub size_counts :
      (r : SetAttestationIdsRequest Buffer)
      → Fits r
      → length (bytes r) < pointer_mod
      → serialized_size r ≡ length (bytes r)
  unfolding serialized_size
  size_counts r f lt = omega (
    arith,
    length-append {0} (buffer.bytes r.brand) (
        buffer.bytes r.device
        ++ (buffer.bytes r.product
            ++ (buffer.bytes r.serial
                ++ (buffer.bytes r.imei
                    ++ (buffer.bytes r.meid
                        ++ (buffer.bytes r.manufacturer ++ buffer.bytes r.model)))))),
    length-append {0} (buffer.bytes r.device) (
        buffer.bytes r.product
        ++ (buffer.bytes r.serial
            ++ (buffer.bytes r.imei
                ++ (buffer.bytes r.meid
                    ++ (buffer.bytes r.manufacturer ++ buffer.bytes r.model))))),
    length-append {0} (buffer.bytes r.product) (
        buffer.bytes r.serial
        ++ (buffer.bytes r.imei
            ++ (buffer.bytes r.meid ++ (buffer.bytes r.manufacturer ++ buffer.bytes r.model)))),
    length-append {0} (buffer.bytes r.serial) (
        buffer.bytes r.imei
        ++ (buffer.bytes r.meid ++ (buffer.bytes r.manufacturer ++ buffer.bytes r.model))),
    length-append {0} (buffer.bytes r.imei)
        (buffer.bytes r.meid ++ (buffer.bytes r.manufacturer ++ buffer.bytes r.model)),
    length-append {0} (buffer.bytes r.meid) (buffer.bytes r.manufacturer ++ buffer.bytes r.model),
    length-append {0} (buffer.bytes r.manufacturer) (buffer.bytes r.model),
    buffer.size_counts r.brand f.brand_fits,
    buffer.size_counts r.device f.device_fits,
    buffer.size_counts r.product f.product_fits,
    buffer.size_counts r.serial f.serial_fits,
    buffer.size_counts r.imei f.imei_fits,
    buffer.size_counts r.meid f.meid_fits,
    buffer.size_counts r.manufacturer f.manufacturer_fits,
    buffer.size_counts r.model f.model_fits,
  )

  abbrev pub codec : Serializable (SetAttestationIdsRequest Buffer)
  codec = record {
    serialized_size = serialized_size;
    serialize = serialize;
    deserialize = deserialize;
    bytes = bytes;
    Fits = Fits;
    loads = loads;
    size_counts = size_counts;
    format = format;
    confined = confined;
  }
