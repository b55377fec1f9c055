-- ===== src/Device/Messages.antt =====
-- crates/virtual-yubihsm-core/src/device.rs: `session_message_with`: a secure message, the command in it
-- and the encrypted answer. The handler and the observer are the empty ones of `handle_frame`.
use virtual_yubihsm.Prelude.{ℕ, Bool, true, false, not, Option, none, some, ◌==◌, if◌then◌else◌}
use virtual_yubihsm.Prelude.OrderedMap.{get, insert, nat_order}
use virtual_yubihsm.Error.{Result, ok, err, ok_or, guard, invalid_session, wrong_length}
use virtual_yubihsm.Frame.{Frame, error, error_command}
use virtual_yubihsm.Keys.{Keys, Platform}
use virtual_yubihsm.Wire.{decode}
use virtual_yubihsm.Capability.{Capability}
use virtual_yubihsm.Protocol.{CommandCode, from_byte, required_session_capability}
use virtual_yubihsm.Object.{key_order}
use virtual_yubihsm.Object.Material.{}
use virtual_yubihsm.Request.{session_envelope_request}
use virtual_yubihsm.Session.{secure_response_fits}
use virtual_yubihsm.Session.Secure.{SecureSession, decrypt_request, encrypt_response}
use virtual_yubihsm.SessionObject.{SessionObjects}
use virtual_yubihsm.Authorization.{SessionAuthorization, require_capability}
use virtual_yubihsm.Device.State.{Device, SessionEntry}
use virtual_yubihsm.Device.Command.{Context, execute_inner_with_session}
use virtual_yubihsm.Device.Sessions.{proceed, without}

module _ ⦃keys : Keys⦄ (platform : Platform) where
  abbrev pub required_by : Option CommandCode → Option Capability
  required_by none = none
  required_by (some command) = required_session_capability command

  abbrev pub permitted : SessionAuthorization → Option Capability → Result (Unit {0})
  permitted authorization none = ok tt
  permitted authorization (some required) = require_capability authorization required

  unfoldable pub run_permitted :
      Context → SessionEntry → Frame → Result (Unit {0}) → Context × Frame
  run_permitted context entry inner (err failed) = (context, error failed)
  run_permitted context entry inner (ok nothing) =
      execute_inner_with_session platform context entry.authorization inner

  -- The session's capability is checked before the command runs.
  unfoldable pub run_inner : Device → SessionEntry → Frame → Context × Frame
  unfolding run_permitted
  run_inner device entry inner =
      run_permitted (record { device = device; objects = some entry.objects }) entry inner
        (permitted entry.authorization (required_by (from_byte inner.command)))

  abbrev pub closes : Option CommandCode → Frame → Bool
  closes (some CommandCode.close_session) answer = true
  closes (some CommandCode.reset_device) answer = not (answer.command == error_command)
  closes _ answer = false

  abbrev pub with_objects : SessionEntry → Option SessionObjects → SessionEntry
  with_objects entry none = entry
  with_objects entry (some objects) = record entry { objects = objects }

  -- The encrypted answer, and the session put back unless it is closed; a session whose answer
  -- cannot be encrypted is gone.
  unfoldable pub answer_inner : ℕ → SessionEntry → Frame → Context → Frame → Device × Result Frame
  answer_inner sid entry inner context answer =
      proceed platform context.device (encrypt_response platform entry.secure answer)
        λ (secure, outer). (
          if closes (from_byte inner.command) answer
              then context.device
              else record context.device {
                sessions =
                    insert sid (record (with_objects entry context.objects) { secure = secure })
                      context.device.sessions;
              },
          ok outer,
        )

  abbrev pub fitting_answer : Frame → Frame
  fitting_answer answer = if secure_response_fits answer then answer else error wrong_length

  -- A message of a session that is authenticated and whose MAC and padding are right.
  unfoldable pub inner_message :
      Device → ℕ → SessionEntry → SecureSession → Frame → Device × Result Frame
  unfolding run_inner answer_inner
  inner_message device sid entry secure inner =
      let current : SessionEntry = record entry { secure = secure; last_activity = platform.now } in
      let (context, answer) = run_inner device current inner in
      answer_inner sid current inner context (fitting_answer answer)

  unfoldable pub session_message : Device → Frame → Device × Result Frame
  unfolding inner_message
  session_message device request =
      proceed platform device (decode session_envelope_request request.payload) λ decoded.
        proceed platform device (ok_or (get decoded.session_id device.sessions) invalid_session)
          λ entry.
            let rest = without platform decoded.session_id device in
            proceed platform rest (guard entry.authenticated invalid_session) λ checked.
              proceed platform rest (decrypt_request platform entry.secure request)
                λ (secure, inner). inner_message rest decoded.session_id entry secure inner
