-- ===== src/Device/Default.antt =====
-- crates/virtual-yubihsm-core/src/device.rs: the configuration of a device that is given none.
use virtual_yubihsm.Prelude.{ℕ, List, [], ◌∷◌, ◌++◌, if◌then◌else◌}
use virtual_yubihsm.Firmware.{FirmwareProfile}
use virtual_yubihsm.Algorithm.{Algorithm, to_byte, supported_by_firmware}
use virtual_yubihsm.Algorithm.Official.{official}
use virtual_yubihsm.Device.State.{DeviceConfig}

-- The algorithms that the extended profiles add
abbrev extended : List Algorithm
extended =
    Algorithm.x25519 ∷ Algorithm.x448 ∷ Algorithm.ed448 ∷ Algorithm.ml_dsa44 ∷ Algorithm.ml_dsa65
    ∷ Algorithm.ml_dsa87 ∷ Algorithm.ml_kem512 ∷ Algorithm.ml_kem768 ∷ Algorithm.ml_kem1024
    ∷ Algorithm.hybrid_ml_kem768_p256 ∷ Algorithm.hybrid_ml_kem768_x25519
    ∷ Algorithm.hybrid_ml_kem1024_p384 ∷ []

-- `.filter(|algorithm| algorithm.supported_by_firmware()).map(|algorithm| algorithm as u8)`
unfoldable pub supported_bytes : FirmwareProfile → List Algorithm → List ℕ
supported_bytes profile [] = []
supported_bytes profile (algorithm ∷ algorithms) =
    let rest = supported_bytes profile algorithms in
    if supported_by_firmware profile algorithm then to_byte algorithm ∷ rest else rest

unfoldable pub default_config : FirmwareProfile → DeviceConfig
unfolding supported_bytes
default_config profile = record {
  version = 2 ∷ 5 ∷ 0 ∷ [];
  serial = 12345678;
  log_capacity = 62;
  algorithms = supported_bytes profile (official ++ extended);
  part_number = 55 ∷ 56 ∷ 67 ∷ 76 ∷ 85 ∷ 70 ∷ 88 ∷ 53 ∷ 48 ∷ 48 ∷ 48 ∷ 80 ∷ 0 ∷ [];
}
