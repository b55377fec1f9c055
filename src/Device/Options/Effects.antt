-- ===== src/Device/Options/Effects.antt =====
-- What a fixed option means for the commands and algorithms of the device.
use virtual_yubihsm.Prelude.{ℕ, ◌≡◌, refl, Bool, true, false, Option, none, some, List, ◌==◌, arith}
use virtual_yubihsm.Prelude.OrderedMap.{get, nat_order}
use virtual_yubihsm.Firmware.{FirmwareProfile}
use virtual_yubihsm.Protocol.{CommandCode, to_byte}
use virtual_yubihsm.Device.Options.{
  DeviceOptions, is_fixed, option_fix, option_off, set_option, options_after,
}
use virtual_yubihsm.Device.Options.Fixed.{StaysFixed, set_option-StaysFixed}
use virtual_yubihsm.Device.Options.Read.{
  value_or, algorithm_enabled, fips_disallowed_algorithm, command_can_be_audited, should_audit,
}

fixed_is_on :
    (default : ℕ) (value : Option ℕ)
    → is_fixed value ≡ true
    → (value_or default value == option_off) ≡ false
fixed_is_on default none h = cc
fixed_is_on default (some value) h = ground arith

-- A command that can be audited and whose auditing was FIX is audited after any SET OPTION.
pub audited_stays :
    (profile : FirmwareProfile) (algorithms : List ℕ) (fresh : Bool) (options : DeviceOptions)
    (request_data : List ℕ) (command : CommandCode)
    → command_can_be_audited command ≡ true
    → is_fixed (get (to_byte command) options.command_audit) ≡ true
    → should_audit
        (options_after options (set_option profile algorithms fresh options request_data))
        command
      ≡ true
unfolding should_audit
audited_stays profile algorithms fresh options request_data command can fixed =
    let after = options_after options (set_option profile algorithms fresh options request_data) in
    let stays : StaysFixed options after =
      set_option-StaysFixed profile algorithms fresh options request_data in
    let on =
      fixed_is_on option_off (get (to_byte command) after.command_audit)
        (stays.audit (to_byte command) fixed) in
    rw (can, on) refl

-- Once FIPS mode was FIX, an algorithm that it rules out is not enabled after any SET OPTION.
pub fips_disallowed_stays :
    (profile : FirmwareProfile) (algorithms : List ℕ) (fresh : Bool) (options : DeviceOptions)
    (request_data : List ℕ) (algorithm : ℕ)
    → (options.fips_mode == option_fix) ≡ true
    → fips_disallowed_algorithm algorithm ≡ true
    → algorithm_enabled profile algorithms
        (options_after options (set_option profile algorithms fresh options request_data))
        algorithm
      ≡ false
unfolding algorithm_enabled
fips_disallowed_stays profile algorithms fresh options request_data algorithm fixed disallowed =
    let after = options_after options (set_option profile algorithms fresh options request_data) in
    let stays : StaysFixed options after =
      set_option-StaysFixed profile algorithms fresh options request_data in
    let still : (after.fips_mode == option_fix) ≡ true = stays.fips fixed in ground arith
