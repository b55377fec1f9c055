-- ===== src/Device/Options/Read.antt =====
-- crates/virtual-yubihsm-core/src/device.rs: `get_option` and the tests that read the options.
use virtual_yubihsm.Prelude.{
  ℕ, suc, zero, ◌-◌, Bool, true, false, not, ◌&&◌, ◌||◌, Option, none, some, List, [], ◌∷◌,
  contains, ◌==◌, if◌then◌else◌,
}
use virtual_yubihsm.Prelude.OrderedMap.{OrderedMap, get, nat_order}
use virtual_yubihsm.Error.{Result, ok, err, ◌>>=◌, guard, invalid_data}
use virtual_yubihsm.Firmware.{FirmwareProfile}
use virtual_yubihsm.Algorithm.{Algorithm}
use virtual_yubihsm.Algorithm
use virtual_yubihsm.Protocol.{CommandCode}
use virtual_yubihsm.Protocol
use virtual_yubihsm.Wire.{decode}
use virtual_yubihsm.Request.{u8_request}
use virtual_yubihsm.Device.Options.{
  DeviceOptions, supported_command, supported_algorithm, option_off, option_on, option_force_audit,
  option_command_audit, option_algorithm_toggle, option_fips_mode,
}

-- `get(key).copied().unwrap_or(default)`
abbrev pub value_or : ℕ → Option ℕ → ℕ
value_or default none = default
value_or default (some value) = value

-- The first 256 - `left` bytes are behind; `for command in 0..=u8::MAX`.
command_values : FirmwareProfile → OrderedMap ℕ ℕ → ℕ → List ℕ
command_values profile command_audit zero = []
command_values profile command_audit (suc left) =
    let command = 255 - left in
    let rest = command_values profile command_audit left in
    if supported_command profile (Protocol.from_byte command)
    then command ∷ value_or option_off (get command command_audit) ∷ rest
    else rest

algorithm_values : FirmwareProfile → OrderedMap ℕ ℕ → List ℕ → List ℕ
algorithm_values profile algorithm_toggle [] = []
algorithm_values profile algorithm_toggle (algorithm ∷ algorithms) =
    let rest = algorithm_values profile algorithm_toggle algorithms in
    if supported_algorithm profile (Algorithm.from_byte algorithm)
    then algorithm ∷ value_or option_on (get algorithm algorithm_toggle) ∷ rest
    else rest

unfoldable pub get_option : FirmwareProfile → List ℕ → DeviceOptions → List ℕ → Result (List ℕ)
unfolding command_values algorithm_values
get_option profile algorithms options request_data = do
  option ← decode u8_request request_data
  if option == option_force_audit
      then ok (options.force_audit ∷ [])
      else if option == option_command_audit
      then ok (command_values profile options.command_audit 256)
      else if option == option_algorithm_toggle
      then ok (algorithm_values profile options.algorithm_toggle algorithms)
      else if option == option_fips_mode
      then ok (options.fips_mode ∷ [])
      else err invalid_data

abbrev is_fips_disallowed : Option Algorithm → Bool
is_fips_disallowed (some Algorithm.rsa_pkcs1_sha1) = true
is_fips_disallowed (some Algorithm.rsa_pss_sha1) = true
is_fips_disallowed (some Algorithm.ecdsa_sha1) = true
is_fips_disallowed (some Algorithm.ec_k256) = true
is_fips_disallowed (some Algorithm.rsa_pkcs1_decrypt) = true
is_fips_disallowed _ = false

unfoldable pub fips_disallowed_algorithm : ℕ → Bool
fips_disallowed_algorithm algorithm = is_fips_disallowed (Algorithm.from_byte algorithm)

unfoldable pub algorithm_enabled : FirmwareProfile → List ℕ → DeviceOptions → ℕ → Bool
unfolding fips_disallowed_algorithm
algorithm_enabled profile algorithms options algorithm =
    supported_algorithm profile (Algorithm.from_byte algorithm)
    && (contains algorithms algorithm
        && (not (value_or option_on (get algorithm options.algorithm_toggle) == option_off)
            && not (not (options.fips_mode == option_off) && fips_disallowed_algorithm algorithm)))

unfoldable pub require_algorithm_enabled :
    FirmwareProfile → List ℕ → DeviceOptions → ℕ → Result (Unit {0})
unfolding algorithm_enabled
require_algorithm_enabled profile algorithms options algorithm =
    guard (algorithm_enabled profile algorithms options algorithm) invalid_data

-- `algorithms.iter().copied().filter(..).collect()`
enabled_of : (ℕ → Bool) → List ℕ → List ℕ
enabled_of enabled [] = []
enabled_of enabled (algorithm ∷ algorithms) =
    let rest = enabled_of enabled algorithms in if enabled algorithm then algorithm ∷ rest else rest

unfoldable pub enabled_algorithms : FirmwareProfile → List ℕ → DeviceOptions → List ℕ
unfolding enabled_of algorithm_enabled
enabled_algorithms profile algorithms options =
    enabled_of (algorithm_enabled profile algorithms options) algorithms

unfoldable pub command_is_meta : CommandCode → Bool
command_is_meta CommandCode.echo = true
command_is_meta CommandCode.create_session = true
command_is_meta CommandCode.authenticate_session = true
command_is_meta CommandCode.session_message = true
command_is_meta CommandCode.get_device_info = true
command_is_meta CommandCode.get_device_public_key = true
command_is_meta CommandCode.close_session = true
command_is_meta _ = false

abbrev opens_session : CommandCode → Bool
opens_session CommandCode.create_session = true
opens_session CommandCode.authenticate_session = true
opens_session _ = false

unfoldable pub command_can_be_audited : CommandCode → Bool
unfolding command_is_meta
command_can_be_audited command = not (command_is_meta command) || opens_session command

unfoldable pub should_audit : DeviceOptions → CommandCode → Bool
unfolding command_can_be_audited
should_audit options command =
    command_can_be_audited command
    && not
        (value_or option_off (get (Protocol.to_byte command) options.command_audit) == option_off)
