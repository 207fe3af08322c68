-- ===== src/NetworkOrder/Tests.antt =====
-- ntoh and hton at an integer of four bytes.
use mathlib.Core.List.{reverse}
use device_xiaomi_dash_twrp.Prelude.{◌≡◌, arith}
use device_xiaomi_dash_twrp.Memory.Bytes.{le_bytes}
use device_xiaomi_dash_twrp.NetworkOrder.{ntoh, hton, ntoh-hton}

ntoh-hton_example :
    (le_bytes 4 (hton 4 305419896) ≡ reverse (le_bytes 4 305419896))
    × (ntoh 4 (hton 4 305419896) ≡ 305419896)
ntoh-hton_example = ntoh-hton 4 305419896 (omega arith)
