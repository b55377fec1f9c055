-- ===== src/Device/Entry.antt =====
-- crates/virtual-yubihsm-core/src/device.rs: what comes in from outside, `handle_encoded` and
-- `handle_frame`, and the commands that need no session.
use virtual_yubihsm.Prelude.{ℕ, Option, none, some, List}
use virtual_yubihsm.Prelude.OrderedMap.{nat_order}
use virtual_yubihsm.Error.{Result, ok, err, invalid_command}
use virtual_yubihsm.Frame.{Frame, parse, encode, response, error}
use virtual_yubihsm.Keys.{Keys, Platform}
use virtual_yubihsm.Protocol.{CommandCode, from_byte}
use virtual_yubihsm.Object.{key_order}
use virtual_yubihsm.Object.Material.{}
use virtual_yubihsm.Session.Secure.{}
use virtual_yubihsm.Device.State.{Device}
use virtual_yubihsm.Device.Execute.{execute_plain_or_authenticated}
use virtual_yubihsm.Device.Sessions.{expire_inactive_sessions, create_session, authenticate_session}
use virtual_yubihsm.Device.Messages.{session_message}

module _ ⦃keys : Keys⦄ (platform : Platform) where
  unfoldable pub execute_plain : Device → Frame → Frame
  execute_plain device request = elim (execute_plain_or_authenticated platform device request) [
    | none ↦ error invalid_command
    | some (ok answer) ↦ response request.command answer
    | some (err failed) ↦ error failed
  ]

  abbrev pub or_error : Device × Result Frame → Device × Frame
  or_error (device, ok answer) = (device, answer)
  or_error (device, err failed) = (device, error failed)

  unfoldable pub dispatch : Device → Frame → Option CommandCode → Device × Frame
  unfolding create_session authenticate_session session_message execute_plain
  dispatch device request (some CommandCode.echo) = (device, execute_plain device request)
  dispatch device request (some CommandCode.get_device_info) =
      (device, execute_plain device request)
  dispatch device request (some CommandCode.get_device_public_key) =
      (device, execute_plain device request)
  dispatch device request (some CommandCode.create_session) =
      or_error (create_session platform device request)
  dispatch device request (some CommandCode.authenticate_session) =
      or_error (authenticate_session platform device request)
  dispatch device request (some CommandCode.session_message) =
      or_error (session_message platform device request)
  dispatch device request _ = (device, error invalid_command)

  -- `handle_frame_with_hooks` with no hooks
  unfoldable pub handle_frame : Device → Frame → Device × Frame
  unfolding expire_inactive_sessions dispatch
  handle_frame device request =
      dispatch (expire_inactive_sessions platform.now device) request (from_byte request.command)

  abbrev pub encoded_answer : Device × Frame → Device × List ℕ
  encoded_answer (device, answer) = (device, encode answer)

  unfoldable pub handle_parsed : Device → Result Frame → Device × List ℕ
  unfolding handle_frame
  handle_parsed device (ok request) = encoded_answer (handle_frame device request)
  handle_parsed device (err failed) = (device, encode (error failed))

  unfoldable pub handle_encoded : Device → List ℕ → Device × List ℕ
  unfolding handle_parsed
  handle_encoded device encoded = handle_parsed device (parse encoded)
