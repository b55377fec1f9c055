-- ===== src/Device/Command.antt =====
-- crates/virtual-yubihsm-core/src/device.rs, `execute_inner_result` and `execute_inner_with_session`:
-- how a decrypted command is checked, run, audited and answered.
use virtual_yubihsm.Prelude.{
  ℕ, Bool, false, not, ◌&&◌, ◌||◌, Option, none, some, List, length, leb, ◌==◌, if◌then◌else◌,
}
use virtual_yubihsm.Error.{
  Result, ok, err, guard, result_code, ◌>>=◌, ◌>>◌, invalid_command, invalid_session, wrong_length,
  log_full,
}
use virtual_yubihsm.Frame.{Frame, response, error}
use virtual_yubihsm.Keys.{Keys, Platform, HashAlgorithm}
use virtual_yubihsm.Protocol.{CommandCode, from_byte, supported_by_firmware}
use virtual_yubihsm.Session.{secure_response_data_fits}
use virtual_yubihsm.SessionObject.{SessionObjects}
use virtual_yubihsm.Authorization.{SessionAuthorization}
use virtual_yubihsm.Device.Authorize.{authorize_command_request}
use virtual_yubihsm.Device.Options.{option_off}
use virtual_yubihsm.Device.Options.Read.{should_audit}
use virtual_yubihsm.Device.Audit.{append_audit_entry}
use virtual_yubihsm.Device.State.{Device, infos}
use virtual_yubihsm.Device.Derivation.{session_object_command}
use virtual_yubihsm.Device.Execute.{
  command_changes_persistent_state, passes_full_log, supported_command_of,
  execute_plain_or_authenticated, run_command,
}

module _ ⦃keys : Keys⦄ where
  -- The device and the objects of the session, which a call outside a session has none of.
  pub record Context : Type 0 where
    pub device : Device
    pub objects : Option SessionObjects

module _ ⦃keys : Keys⦄ (platform : Platform) where
  unfoldable pub run_nested :
      Context → SessionAuthorization → List ℕ → Option SessionObjects → Result (Context × List ℕ)
  run_nested context authorization request_data none = err invalid_session
  run_nested context authorization request_data (some objects) = do
    (updated, answer) ←
        session_object_command platform context.device authorization objects request_data
    ok (record context { objects = some updated }, answer)

  abbrev pub run_plain : Context → Result (Device × List ℕ) → Result (Context × List ℕ)
  run_plain context (ok (device, answer)) = ok (record context { device = device }, answer)
  run_plain context (err failed) = err failed

  -- The match on the command
  unfoldable pub run :
      Context → SessionAuthorization → CommandCode → List ℕ → Result (Context × List ℕ)
  unfolding run_nested
  run context authorization CommandCode.session_object request_data =
      run_nested context authorization request_data context.objects
  run context authorization command request_data =
      run_plain context (run_command platform context.device authorization command request_data)

  -- What runs in a session alone
  unfoldable pub authorized :
      Context → SessionAuthorization → List ℕ → Option CommandCode → Result (Context × List ℕ)
  unfolding run
  authorized context authorization request_data none = err invalid_command
  authorized context authorization request_data (some command) = do
    guard (supported_by_firmware platform.profile command) invalid_command
    authorize_command_request platform.prehash_length (infos context.device.objects) authorization
        command request_data
    run context authorization command request_data

  unfoldable pub execute_inner_result :
      Context → SessionAuthorization → Frame → Result (Context × List ℕ)
  unfolding authorized
  execute_inner_result context authorization request =
      elim (execute_plain_or_authenticated platform context.device request) [
        | some answer ↦ answer >>= λ (bytes : List ℕ). ok (context, bytes)
        | none ↦ authorized context authorization request.payload (from_byte request.command)
      ]

  abbrev pub log_is_full : Device → Bool
  log_is_full device =
      not (device.options.force_audit == option_off)
      && leb device.config.log_capacity (length device.audit.entries)

  abbrev pub refused : Device → Option CommandCode → Bool
  refused device none = false
  refused device (some command) = not (passes_full_log command) && log_is_full device

  -- `append_audit_entry` of the device
  unfoldable pub audited : Device → SessionAuthorization → CommandCode → List ℕ → ℕ → Device
  audited device authorization command request_data code =
      let (audit, changed) =
        append_audit_entry (platform.digest HashAlgorithm.sha256) device.config.log_capacity
          device.audit authorization command request_data code in
      record device { audit = audit; persistent_change = device.persistent_change || changed }

  abbrev pub was_audited : Device → Option CommandCode → Bool
  was_audited device none = false
  was_audited device (some command) = should_audit device.options command

  abbrev pub changes : Option CommandCode → Bool
  changes none = false
  changes (some command) = command_changes_persistent_state command

  -- The audit entry, if the options asked for one when the command came.
  abbrev pub with_audit :
      Device → SessionAuthorization → Option CommandCode → List ℕ → Bool → ℕ → Device
  with_audit device authorization none request_data audit code = device
  with_audit device authorization (some command) request_data audit code =
      if audit then audited device authorization command request_data code else device

  abbrev pub marked : Device → Option CommandCode → Device
  marked device command = record device {
    persistent_change = device.persistent_change || changes command;
  }

  -- A command whose answer is too long has run, and its effect stays.
  unfoldable pub finish :
      Context
      → SessionAuthorization
      → Frame
      → Option CommandCode
      → Bool
      → Result (Context × List ℕ)
      → Context × Frame
  unfolding audited
  finish before authorization request command audit (err failed) =
      let device =
        with_audit before.device authorization command request.payload audit
          (result_code {A = Unit {0}} (err failed)) in
      (record before { device = device }, error failed)
  finish before authorization request command audit (ok (context, bytes)) =
      let fits = secure_response_data_fits (length bytes) in
      let device =
        with_audit context.device authorization command request.payload audit
          (if fits then 0 else result_code {A = Unit {0}} (err wrong_length)) in
      if fits
      then (record context { device = marked device command }, response request.command bytes)
      else (record context { device = device }, error wrong_length)

  unfoldable pub execute_inner_with_session :
      Context → SessionAuthorization → Frame → Context × Frame
  unfolding execute_inner_result finish
  execute_inner_with_session context authorization request =
      let command = supported_command_of platform request.command in
      if refused context.device command
      then (context, error log_full)
      else finish context authorization request command (was_audited context.device command)
          (execute_inner_result context authorization request)
