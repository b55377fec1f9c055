-- ===== src/Device/Effects/Rule.antt =====
-- A rule for what a command leaves behind: it holds of the device and of the session's objects if it
-- holds before, after every effect of the command, and whatever is audited.
use virtual_yubihsm.Prelude.{
  ℕ, ◌≡◌, refl, Bool, true, false, Option, none, some, List, length, inl, inr, Option-cases,
  Bool-cases,
}
use virtual_yubihsm.Error.{Result, ok, err, ◌>>=◌}
use virtual_yubihsm.Error.Ensures.{Ensures, holds, fails, >>=-Ensures}
use virtual_yubihsm.Frame.{Frame}
use virtual_yubihsm.Keys.{Keys, Platform}
use virtual_yubihsm.Protocol.{CommandCode, from_byte}
use virtual_yubihsm.Authorization.{SessionAuthorization}
use virtual_yubihsm.SessionObject.{SessionObjects}
use virtual_yubihsm.Session.{secure_response_data_fits}
use virtual_yubihsm.Device.Audit.{AuditState}
use virtual_yubihsm.Device.State.{Device, infos}
use virtual_yubihsm.Device.Authorize.{authorize_command_request}
use virtual_yubihsm.Device.Execute.{
  run_command, execute_plain_or_authenticated, supported_command_of,
}
use virtual_yubihsm.Device.Derivation.{session_object_command}
use virtual_yubihsm.Device.Command.{
  Context, run, run_nested, run_plain, authorized, execute_inner_result, audited, with_audit,
  finish, refused, was_audited, execute_inner_with_session,
}
use virtual_yubihsm.Device.Effects.{Effect}
use virtual_yubihsm.Device.Effects.Puts.{Within}
use virtual_yubihsm.Device.Effects.Commands.{run_command-Within}

module _ ⦃keys : Keys⦄ (platform : Platform) (authorization : SessionAuthorization)
    (request : Frame) (context : Context) (P : Device → Type 0) (Q : Option SessionObjects → Type 0)
    (effect : (command : CommandCode) (updated : Device) (answer : List ℕ)
      → from_byte request.command ≡ some command
      → authorize_command_request platform.prehash_length
          (infos context.device.objects)
          authorization
          command
          request.payload
        ≡ ok tt
      → run_command platform context.device authorization command request.payload
        ≡ ok (updated, answer)
      → Effect platform authorization command context.device updated
      → P updated)
    (nested : (objects : SessionObjects) (result : SessionObjects × List ℕ)
      → context.objects ≡ some objects
      → session_object_command platform context.device authorization objects request.payload
        ≡ ok result
      → Q (some result.0))
    (audit : (device : Device) (state : AuditState) (changed : Bool)
      → P device
      → P (record device { audit = state; persistent_change = changed }))
    (device_before : P context.device) (objects_before : Q context.objects) where
  abbrev Holds : Context → Type 0
  Holds done = P done.device × Q done.objects

  run_plain-Holds :
      (command : CommandCode) (result : Result (Device × List ℕ))
      → from_byte request.command ≡ some command
      → authorize_command_request platform.prehash_length
          (infos context.device.objects)
          authorization
          command
          request.payload
        ≡ ok tt
      → run_command platform context.device authorization command request.payload ≡ result
      → Ensures (Within platform authorization command context.device) result
      → Ensures (λ (done : Context × List ℕ). Holds done.0) (run_plain platform context result)
  run_plain-Holds command (ok (updated, answer)) e allowed ran (holds done) =
      holds (effect command updated answer e allowed ran done, objects_before)
  run_plain-Holds command (err failed) e allowed ran fails = fails

  run_nested-Holds :
      (objects : Option SessionObjects)
      → context.objects ≡ objects
      → Ensures
          (λ (done : Context × List ℕ). Holds done.0)
          (run_nested platform context authorization request.payload objects)
  unfolding run_nested
  run_nested-Holds none e = fails
  run_nested-Holds (some objects) e =
      >>=-Ensures
        {r = session_object_command platform context.device authorization objects request.payload}
        λ result done. holds (device_before, nested objects result e done)

  run-Holds :
      (command : CommandCode)
      → from_byte request.command ≡ some command
      → authorize_command_request platform.prehash_length
          (infos context.device.objects)
          authorization
          command
          request.payload
        ≡ ok tt
      → Ensures
          (λ (done : Context × List ℕ). Holds done.0)
          (run platform context authorization command request.payload)
  unfolding run
  run-Holds CommandCode.session_object e allowed = run_nested-Holds context.objects refl
  run-Holds command e allowed =
      run_plain-Holds command _ e allowed refl
        (run_command-Within platform authorization context.device command request.payload)

  authorized-Holds :
      (command : Option CommandCode)
      → from_byte request.command ≡ command
      → Ensures
          (λ (done : Context × List ℕ). Holds done.0)
          (authorized platform context authorization request.payload command)
  unfolding authorized
  authorized-Holds none e = fails
  authorized-Holds (some command) e =
      >>=-Ensures λ supported known. >>=-Ensures λ checked allowed. run-Holds command e allowed

  answered-Holds :
      (answer : Result (List ℕ))
      → Ensures
          (λ (done : Context × List ℕ). Holds done.0)
          (answer >>= λ (bytes : List ℕ). ok (context, bytes))
  answered-Holds (ok bytes) = holds (device_before, objects_before)
  answered-Holds (err failed) = fails

  execute_inner_result-Holds :
      Ensures
        (λ (done : Context × List ℕ). Holds done.0)
        (execute_inner_result platform context authorization request)
  unfolding execute_inner_result
  execute_inner_result-Holds =
      elim (Option-cases (execute_plain_or_authenticated platform context.device request)) [
        | inl none_plain ↦
            rw (execute_inner_result, none_plain)
              (authorized-Holds (from_byte request.command) refl)
        | inr (answer, e) ↦ rw (execute_inner_result, e) (answered-Holds answer)
      ]

  with_audit-Holds :
      (device : Device) (command : Option CommandCode) (asked : Bool) (code : ℕ)
      → P device
      → P (with_audit platform device authorization command request.payload asked code)
  unfolding audited
  with_audit-Holds device none asked code h = h
  with_audit-Holds device (some command) true code h = audit device _ _ h
  with_audit-Holds device (some command) false code h = h

  finish-Holds :
      (command : Option CommandCode) (asked : Bool) (result : Result (Context × List ℕ))
      → Ensures (λ (done : Context × List ℕ). Holds done.0) result
      → Holds (finish platform context authorization request command asked result).0
  unfolding finish
  finish-Holds command asked (err failed) fails =
      (with_audit-Holds context.device command asked _ device_before, objects_before)
  finish-Holds command asked (ok (done, bytes)) (holds kept) =
      elim (Bool-cases (secure_response_data_fits (length bytes))) [
        | inl fits ↦
            rw fits (audit _ _ _ (with_audit-Holds done.device command asked 0 kept.0), kept.1)
        | inr long ↦ rw long (with_audit-Holds done.device command asked _ kept.0, kept.1)
      ]

  pub execute_inner_with_session-Holds :
      Holds (execute_inner_with_session platform context authorization request).0
  unfolding execute_inner_with_session
  execute_inner_with_session-Holds =
      let command = supported_command_of platform request.command in
      elim (Bool-cases (refused platform context.device command)) [
        | inl full ↦ rw full (device_before, objects_before)
        | inr room ↦ rw room (
            finish-Holds command (was_audited platform context.device command)
              (execute_inner_result platform context authorization request)
              execute_inner_result-Holds)
      ]
