-- ===== src/Messages/RootOfTrust/Request.antt =====
-- GetRootOfTrustRequest: the challenge, which reading appends to.
use device_xiaomi_dash_twrp.Prelude.{
  ℕ, ◌+◌, ◌%◌, ◌<◌, ◌^◌, ◌≡◌, ◌++◌, List, length, length-append, arith,
}
use device_xiaomi_dash_twrp.Memory.{Put, Get, into, pointer_mod}
use device_xiaomi_dash_twrp.Memory.Bytes.{le_bytes, length-le_bytes}
use device_xiaomi_dash_twrp.Memory.Format.{Format, Confined, Format-into, Confined-into}
use device_xiaomi_dash_twrp.Serializable.Interface.{External, AcceptsExactFit}
use device_xiaomi_dash_twrp.Serializable.Contract.{Serializable}
use device_xiaomi_dash_twrp.Serializable.{append_collection_to_buf, copy_collection_from_buf}
use device_xiaomi_dash_twrp.Serializable.Codecs.{
  collection-Format, collection_bytes, collection-Confined,
}

pub record GetRootOfTrustRequest : Type 0 where
  pub challenge : List ℕ

module _ (x : External) where
  pub serialized_size : GetRootOfTrustRequest → ℕ
  serialized_size r = (4 + length r.challenge) % pointer_mod

  pub serialize : GetRootOfTrustRequest → Put
  serialize r = append_collection_to_buf x r.challenge

  pub deserialize : Get GetRootOfTrustRequest
  deserialize =
      into (λ r. r.challenge) (λ r v. record r { challenge = v }) (copy_collection_from_buf x)

  -- The members in the order in which they are written.
  abbrev pub bytes : GetRootOfTrustRequest → List ℕ
  bytes r = collection_bytes r.challenge

  -- Every member fits the width at which it is written, and collections may fill the buffer.
  pub record Fits (r : GetRootOfTrustRequest) : Type 0 where
    pub exact : AcceptsExactFit x
    pub challenge_fits : length r.challenge < 2 ^ 32

  -- What reading `r` makes of `old`.
  abbrev pub loads : GetRootOfTrustRequest → GetRootOfTrustRequest → GetRootOfTrustRequest
  loads r old = record { challenge = old.challenge ++ r.challenge }

  pub format :
      (r : GetRootOfTrustRequest) → Fits r → Format (serialize r) deserialize (bytes r) (loads r)
  unfolding serialize deserialize
  format r f = Format-into _ _ (collection-Format x f.exact r.challenge f.challenge_fits)

  pub confined : (r : GetRootOfTrustRequest) → Confined (serialize r) deserialize
  unfolding serialize deserialize
  confined r = Confined-into _ _ (collection-Confined x r.challenge)

  pub size_counts :
      (r : GetRootOfTrustRequest)
      → Fits r
      → length (bytes r) < pointer_mod
      → serialized_size r ≡ length (bytes r)
  unfolding serialized_size
  size_counts r f lt = omega (
    arith,
    length-append {0} (le_bytes 4 (length r.challenge)) r.challenge,
    length-le_bytes 4 (length r.challenge),
  )

  abbrev pub codec : Serializable GetRootOfTrustRequest
  codec = record {
    serialized_size = serialized_size;
    serialize = serialize;
    deserialize = deserialize;
    bytes = bytes;
    Fits = Fits;
    loads = loads;
    size_counts = size_counts;
    format = format;
    confined = confined;
  }
