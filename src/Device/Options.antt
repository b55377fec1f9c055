-- ===== src/Device/Options.antt =====
-- crates/virtual-yubihsm-core/src/device.rs: the device options, `set_option` and the tests that
-- read them. An option that was set to FIX cannot be changed.
pub mod Fixed
pub mod Read
pub mod Effects
use virtual_yubihsm.Prelude.{
  ℕ, zero, suc, ◌%◌, Bool, true, false, not, ◌&&◌, ◌||◌, Option, none, some, List, [], ◌∷◌, length,
  contains, is_some, ◌==◌, if◌then◌else◌,
}
use virtual_yubihsm.Prelude.OrderedMap.{OrderedMap, get, insert, nat_order}
use virtual_yubihsm.Error.{
  Result, ok, err, ◌>>=◌, ◌>>◌, invalid_data, wrong_length, insufficient_permissions,
}
use virtual_yubihsm.Firmware.{FirmwareProfile}
use virtual_yubihsm.Algorithm.{Algorithm}
use virtual_yubihsm.Algorithm
use virtual_yubihsm.Protocol.{CommandCode}
use virtual_yubihsm.Protocol
use virtual_yubihsm.Wire.{decode}
use virtual_yubihsm.Request.{SetOptionRequest, set_option_request}

abbrev pub option_off : ℕ
option_off = 0

abbrev pub option_on : ℕ
option_on = 1

abbrev pub option_fix : ℕ
option_fix = 2

abbrev pub option_force_audit : ℕ
option_force_audit = 0x01

abbrev pub option_command_audit : ℕ
option_command_audit = 0x03

abbrev pub option_algorithm_toggle : ℕ
option_algorithm_toggle = 0x04

abbrev pub option_fips_mode : ℕ
option_fips_mode = 0x05

pub record DeviceOptions : Type 0 where
  pub force_audit : ℕ
  pub command_audit : OrderedMap ℕ ℕ
  pub algorithm_toggle : OrderedMap ℕ ℕ
  pub fips_mode : ℕ

unfoldable pub valid_option_value : ℕ → Bool
valid_option_value value = (value == option_off) || ((value == option_on) || (value == option_fix))

unfoldable pub set_option_value : ℕ → ℕ → Result ℕ
unfolding valid_option_value
set_option_value current requested =
    if not (valid_option_value requested)
    then err invalid_data
    else if (current == option_fix) && not (requested == option_fix)
    then err insufficient_permissions
    else ok requested

abbrev pub is_fixed : Option ℕ → Bool
is_fixed none = false
is_fixed (some value) = value == option_fix

abbrev pub supported_command : FirmwareProfile → Option CommandCode → Bool
supported_command profile none = false
supported_command profile (some command) = Protocol.supported_by_firmware profile command

abbrev pub supported_algorithm : FirmwareProfile → Option Algorithm → Bool
supported_algorithm profile none = false
supported_algorithm profile (some algorithm) = Algorithm.supported_by_firmware profile algorithm

-- The tests on one pair of a command byte and a value; the command compares by its byte.
command_audit_pair : FirmwareProfile → OrderedMap ℕ ℕ → ℕ → ℕ → Result (OrderedMap ℕ ℕ)
unfolding valid_option_value
command_audit_pair profile updated command value =
    if not (supported_command profile (Protocol.from_byte command))
    then err invalid_data
    else if not (valid_option_value value)
    then err invalid_data
    else if (command == 0x05) && not (value == option_off)
    then err invalid_data
    else if is_fixed (get command updated) && not (value == option_fix)
    then err insufficient_permissions
    else ok (insert command value updated)

algorithm_toggle_pair : FirmwareProfile → List ℕ → OrderedMap ℕ ℕ → ℕ → ℕ → Result (OrderedMap ℕ ℕ)
unfolding valid_option_value
algorithm_toggle_pair profile algorithms updated algorithm value =
    if not (contains algorithms algorithm)
      || (not (supported_algorithm profile (Algorithm.from_byte algorithm))
          || not (valid_option_value value))
    then err invalid_data
    else if is_fixed (get algorithm updated) && not (value == option_fix)
    then err insufficient_permissions
    else ok (insert algorithm value updated)

-- `for pair in values.as_chunks::<2>().0`
for_pairs :
    (OrderedMap ℕ ℕ → ℕ → ℕ → Result (OrderedMap ℕ ℕ))
    → OrderedMap ℕ ℕ
    → List ℕ
    → Result (OrderedMap ℕ ℕ)
for_pairs step updated [] = ok updated
for_pairs step updated (key ∷ []) = ok updated
for_pairs step updated (key ∷ value ∷ values) =
    step updated key value >>= λ next. for_pairs step next values

abbrev one_value : List ℕ → Result ℕ
one_value (value ∷ []) = ok value
one_value _ = err wrong_length

abbrev pairs : List ℕ → Result (List ℕ)
pairs values =
    if (length values == 0) || not (length values % 2 == 0) then err wrong_length else ok values

abbrev require_fresh : Bool → Result (Unit {0})
require_fresh true = ok tt
require_fresh false = err insufficient_permissions

set_force_audit : DeviceOptions → List ℕ → Result DeviceOptions
unfolding set_option_value
set_force_audit options values = do
  value ← one_value values
  updated ← set_option_value options.force_audit value
  ok (record options { force_audit = updated })

set_command_audit : FirmwareProfile → DeviceOptions → List ℕ → Result DeviceOptions
unfolding for_pairs command_audit_pair
set_command_audit profile options values = do
  checked ← pairs values
  updated ← for_pairs (command_audit_pair profile) options.command_audit checked
  ok (record options { command_audit = updated })

set_algorithm_toggle :
    FirmwareProfile → List ℕ → Bool → DeviceOptions → List ℕ → Result DeviceOptions
unfolding for_pairs algorithm_toggle_pair
set_algorithm_toggle profile algorithms fresh options values = do
  require_fresh fresh
  checked ← pairs values
  updated ← for_pairs (algorithm_toggle_pair profile algorithms) options.algorithm_toggle checked
  ok (record options { algorithm_toggle = updated })

set_fips_mode : Bool → DeviceOptions → List ℕ → Result DeviceOptions
unfolding set_option_value
set_fips_mode fresh options values = do
  require_fresh fresh
  value ← one_value values
  updated ← set_option_value options.fips_mode value
  ok (record options { fips_mode = updated })

-- `fresh` is whether the store holds the factory authentication key and nothing else
-- (`require_fresh_device_for_algorithm_options`); `algorithms` are the configured ones.
unfoldable pub set_option :
    FirmwareProfile → List ℕ → Bool → DeviceOptions → List ℕ → Result DeviceOptions
unfolding set_force_audit set_command_audit set_algorithm_toggle set_fips_mode
set_option profile algorithms fresh options request_data = do
  request ← decode set_option_request request_data
  if request.option == option_force_audit
      then set_force_audit options request.values
      else if request.option == option_command_audit
      then set_command_audit profile options request.values
      else if request.option == option_algorithm_toggle
      then set_algorithm_toggle profile algorithms fresh options request.values
      else if request.option == option_fips_mode
      then set_fips_mode fresh options request.values
      else err invalid_data

-- What a failed request leaves: the options are written last.
abbrev pub options_after : DeviceOptions → Result DeviceOptions → DeviceOptions
options_after options (ok updated) = updated
options_after options (err e) = options
