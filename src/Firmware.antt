-- ===== src/Firmware.antt =====
-- crates/virtual-yubihsm-core/src/firmware.rs: the command and algorithm surface of a build.
-- The Cargo features of the build are the argument of `compiled`.
use virtual_yubihsm.Prelude.{Bool, true, false, ◌&&◌, ◌||◌, if◌then◌else◌}

pub data FirmwareProfile : Type 0 where
  yubi_hsm2 protected_derivation full test_prefixed_ecdh test_session_objects : FirmwareProfile

pub record Features : Type 0 where
  pub firmware_full : Bool
  pub firmware_protected_derivation : Bool
  pub test_firmware_prefixed_ecdh : Bool
  pub test_firmware_session_objects : Bool

unfoldable pub compiled : Features → FirmwareProfile
compiled f =
    if f.firmware_full
    then full
    else if f.firmware_protected_derivation
        || (f.test_firmware_prefixed_ecdh && f.test_firmware_session_objects)
    then protected_derivation
    else if f.test_firmware_prefixed_ecdh
    then test_prefixed_ecdh
    else if f.test_firmware_session_objects
    then test_session_objects
    else yubi_hsm2

unfoldable pub extended_curves : FirmwareProfile → Bool
extended_curves full = true
extended_curves _ = false

unfoldable pub post_quantum : FirmwareProfile → Bool
post_quantum full = true
post_quantum _ = false

unfoldable pub prefixed_ecdh : FirmwareProfile → Bool
prefixed_ecdh protected_derivation = true
prefixed_ecdh full = true
prefixed_ecdh test_prefixed_ecdh = true
prefixed_ecdh _ = false

unfoldable pub session_objects : FirmwareProfile → Bool
session_objects protected_derivation = true
session_objects full = true
session_objects test_session_objects = true
session_objects _ = false

unfoldable pub direct_rsa_wrap : FirmwareProfile → Bool
direct_rsa_wrap full = true
direct_rsa_wrap _ = false
