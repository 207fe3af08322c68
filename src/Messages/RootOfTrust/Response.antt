-- ===== src/Messages/RootOfTrust/Response.antt =====
-- GetRootOfTrustResponse: the root of trust, which reading appends to.
use device_xiaomi_dash_twrp.Prelude.{
  ℕ, ◌+◌, ◌%◌, ◌<◌, ◌^◌, ◌≡◌, ◌++◌, List, length, length-append, arith,
}
use device_xiaomi_dash_twrp.Memory.{Put, Get, into, pointer_mod}
use device_xiaomi_dash_twrp.Memory.Bytes.{le_bytes, length-le_bytes}
use device_xiaomi_dash_twrp.Memory.Format.{Format, Confined, Format-into, Confined-into}
use device_xiaomi_dash_twrp.Serializable.Interface.{External, AcceptsExactFit}
use device_xiaomi_dash_twrp.Serializable.Contract.{Serializable}
use device_xiaomi_dash_twrp.Serializable.{append_collection_to_buf, copy_collection_from_buf}
use device_xiaomi_dash_twrp.Serializable.Codecs.{
  collection-Format, collection_bytes, collection-Confined,
}

pub record GetRootOfTrustResponse : Type 0 where
  pub root_of_trust : List ℕ

module _ (x : External) where
  pub serialized_size : GetRootOfTrustResponse → ℕ
  serialized_size r = (4 + length r.root_of_trust) % pointer_mod

  pub serialize : GetRootOfTrustResponse → Put
  serialize r = append_collection_to_buf x r.root_of_trust

  pub deserialize : Get GetRootOfTrustResponse
  deserialize =
      into (λ r. r.root_of_trust) (λ r v. record r { root_of_trust = v })
        (copy_collection_from_buf x)

  -- The members in the order in which they are written.
  abbrev pub bytes : GetRootOfTrustResponse → List ℕ
  bytes r = collection_bytes r.root_of_trust

  -- Every member fits the width at which it is written, and collections may fill the buffer.
  pub record Fits (r : GetRootOfTrustResponse) : Type 0 where
    pub exact : AcceptsExactFit x
    pub root_of_trust_fits : length r.root_of_trust < 2 ^ 32

  -- What reading `r` makes of `old`.
  abbrev pub loads : GetRootOfTrustResponse → GetRootOfTrustResponse → GetRootOfTrustResponse
  loads r old = record { root_of_trust = old.root_of_trust ++ r.root_of_trust }

  pub format :
      (r : GetRootOfTrustResponse) → Fits r → Format (serialize r) deserialize (bytes r) (loads r)
  unfolding serialize deserialize
  format r f = Format-into _ _ (collection-Format x f.exact r.root_of_trust f.root_of_trust_fits)

  pub confined : (r : GetRootOfTrustResponse) → Confined (serialize r) deserialize
  unfolding serialize deserialize
  confined r = Confined-into _ _ (collection-Confined x r.root_of_trust)

  pub size_counts :
      (r : GetRootOfTrustResponse)
      → Fits r
      → length (bytes r) < pointer_mod
      → serialized_size r ≡ length (bytes r)
  unfolding serialized_size
  size_counts r f lt = omega (
    arith,
    length-append {0} (le_bytes 4 (length r.root_of_trust)) r.root_of_trust,
    length-le_bytes 4 (length r.root_of_trust),
  )

  abbrev pub codec : Serializable GetRootOfTrustResponse
  codec = record {
    serialized_size = serialized_size;
    serialize = serialize;
    deserialize = deserialize;
    bytes = bytes;
    Fits = Fits;
    loads = loads;
    size_counts = size_counts;
    format = format;
    confined = confined;
  }
