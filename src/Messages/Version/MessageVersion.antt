-- ===== src/Messages/Version/MessageVersion.antt =====
-- km_version.h and MessageVersion of android_keymaster_messages.h: which message version a keymaster
-- version speaks.
use device_xiaomi_dash_twrp.Prelude.{
  ℕ, ◌≤◌, ◌≡◌, refl, Option, none, some, ◌==◌, if◌then◌else◌, arith,
}

-- enum class KmVersion
pub data KmVersion : Type 0 where
  keymaster_1 keymaster_1_1 keymaster_2 keymaster_3 keymaster_4 keymaster_4_1 : KmVersion
  keymint_1 keymint_2 keymint_3 : KmVersion

-- The values of the enumerators.
pub version_number : KmVersion → ℕ
version_number keymaster_1 = 10
version_number keymaster_1_1 = 11
version_number keymaster_2 = 20
version_number keymaster_3 = 30
version_number keymaster_4 = 40
version_number keymaster_4_1 = 41
version_number keymint_1 = 100
version_number keymint_2 = 200
version_number keymint_3 = 300

abbrev pub max_message_version : ℕ
max_message_version = 4

abbrev pub default_message_version : ℕ
default_message_version = 3

-- The switch of MessageVersion, over the number that the argument holds: a KmVersion that came in a
-- message need not be an enumerator. kInvalidMessageVersion, -1, is `none`.
pub message_version : ℕ → Option ℕ
message_version v =
    if v == 10
    then some 1
    else if v == 11
    then some 2
    else if v == 20
    then some 3
    else if v == 30
    then some 3
    else if v == 40
    then some 3
    else if v == 41
    then some 3
    else if v == 100
    then some 4
    else if v == 200
    then some 4
    else if v == 300
    then some 4
    else none

-- Every KmVersion has a message version, between 1 and the largest one.
version_known :
    (v : KmVersion)
    → (n : ℕ) × (message_version (version_number v) ≡ some n) × (1 ≤ n) × (n ≤ max_message_version)
unfolding message_version version_number
version_known keymaster_1 = (1, refl, omega arith, omega arith)
version_known keymaster_1_1 = (2, refl, omega arith, omega arith)
version_known keymaster_2 = (3, refl, omega arith, omega arith)
version_known keymaster_3 = (3, refl, omega arith, omega arith)
version_known keymaster_4 = (3, refl, omega arith, omega arith)
version_known keymaster_4_1 = (3, refl, omega arith, omega arith)
version_known keymint_1 = (4, refl, omega arith, omega arith)
version_known keymint_2 = (4, refl, omega arith, omega arith)
version_known keymint_3 = (4, refl, omega arith, omega arith)

pub version_20 : message_version 20 ≡ some 3
unfolding message_version
version_20 = refl

pub version_300 : message_version 300 ≡ some 4
unfolding message_version
version_300 = refl

-- A newer keymaster never speaks an older message version: among the numbers that have a message
-- version, the version grows with the number.
pub message_version_monotone :
    (v w m n : ℕ)
    → v ≤ w
    → message_version v ≡ some m
    → message_version w ≡ some n
    → (1 ≤ m) × (m ≤ n) × (n ≤ max_message_version)
unfolding message_version
message_version_monotone v w m n le hv hw = ground arith
