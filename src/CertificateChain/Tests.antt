-- ===== src/CertificateChain/Tests.antt =====
-- CertificateChain at a chain of two certificates.
use device_xiaomi_dash_twrp.Prelude.{some, [], ◌∷◌}
use device_xiaomi_dash_twrp.Blob.{Blob}
use device_xiaomi_dash_twrp.CertificateChain.{CertChain}

abbrev leaf : Blob
leaf = record { data_ptr = some (1 ∷ 2 ∷ []); data_length = 2 }

abbrev root : Blob
root = record { data_ptr = some (3 ∷ []); data_length = 1 }

abbrev chain : CertChain
chain = record { entries = some (leaf ∷ root ∷ []); entry_count = 2 }
