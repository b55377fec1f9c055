-- ===== src/Device/Sessions/Outside.antt =====
-- crates/virtual-yubihsm-core/src/device.rs: what comes in outside of a secure message does not touch
-- the objects, the options or the identity of the device.
use virtual_yubihsm.Prelude.{
  ℕ, ◌≡◌, ◌≢◌, refl, Bool, true, false, Option, some, List, if◌then◌else◌,
}
use virtual_yubihsm.Prelude.OrderedMap.{get, nat_order}
use virtual_yubihsm.Error.{Result, ok, err, ok_or, invalid_session}
use virtual_yubihsm.Error.Ensures.{Ensures, holds, fails, >>=-Ensures}
use virtual_yubihsm.Frame.{Frame}
use virtual_yubihsm.Keys.{Keys, Platform}
use virtual_yubihsm.Wire.{decode}
use virtual_yubihsm.Protocol.{CommandCode, from_byte}
use virtual_yubihsm.Object.Material.{AuthenticationKeyMaterial, symmetric, asymmetric}
use virtual_yubihsm.Request.{create_session_request, session_envelope_request}
use virtual_yubihsm.Authorization.{SessionAuthorization}
use virtual_yubihsm.Device.Options.Read.{should_audit}
use virtual_yubihsm.Device.State.{Device, SessionEntry}
use virtual_yubihsm.Device.Command.{audited}
use virtual_yubihsm.Device.Sessions.{
  expire_inactive_sessions, session_authorization, open_symmetric, open_asymmetric, open_with,
  open_session, audited_answer, proceed, create_session, authenticate_entry, without,
  authenticate_session,
}
use virtual_yubihsm.Device.Entry.{or_error, dispatch, handle_frame}

module _ ⦃keys : Keys⦄ where
  abbrev pub Untouched : Device → Device → Type 0
  Untouched before after =
      (after.objects ≡ before.objects)
      × (after.sequence_history ≡ before.sequence_history)
      × (after.options ≡ before.options)
      × (after.device_static_private ≡ before.device_static_private)

module _ ⦃keys : Keys⦄ (platform : Platform) (before : Device) where
  abbrev Leaves : Device × Result Frame → Type 0
  Leaves done = Untouched before done.0

  abbrev Answers : Device × Frame → Type 0
  Answers done = Untouched before done.0

  open_with-Answers :
      (device : Device) (authorization : SessionAuthorization) (sid : ℕ) (host : List ℕ)
      (material : AuthenticationKeyMaterial)
      → Untouched before device
      → Ensures Answers (open_with platform device authorization sid host material)
  unfolding open_with open_symmetric open_asymmetric
  open_with-Answers device authorization sid host (symmetric static_keys) h =
      search (>>=-Ensures, holds) depth 16
  open_with-Answers device authorization sid host (asymmetric host_static_public) h =
      search (>>=-Ensures, holds) depth 16

  open_session-Answers :
      (device : Device) (authorization : SessionAuthorization) (key_id : ℕ) (host : List ℕ)
      → Untouched before device
      → Ensures Answers (open_session platform device authorization key_id host)
  unfolding open_session
  open_session-Answers device authorization key_id host h =
      search (>>=-Ensures, open_with-Answers) depth 8

  proceed-Leaves :
      {A : Type 0} (device : Device) (r : Result A) (next : A → Device × Result Frame)
      → Untouched before device
      → ((a : A) → r ≡ ok a → Leaves (next a))
      → Leaves (proceed platform device r next)
  proceed-Leaves device (ok a) next h k = k a refl
  proceed-Leaves device (err failed) next h k = h

  if_audited-Untouched :
      (device : Device) (authorization : SessionAuthorization) (command : CommandCode)
      (request_data : List ℕ) (audit : Bool) (code : ℕ)
      → Untouched before device
      → Untouched before (
          if audit then audited platform device authorization command request_data code else device)
  unfolding audited
  if_audited-Untouched device authorization command request_data true code h = h
  if_audited-Untouched device authorization command request_data false code h = h

  audited_answer-Leaves :
      (device : Device) (authorization : SessionAuthorization) (command : CommandCode)
      (request_data : List ℕ) (result : Result (Device × Frame))
      → Untouched before device
      → Ensures Answers result
      → Leaves (audited_answer platform device authorization command request_data result)
  audited_answer-Leaves device authorization command request_data (ok (opened, answer)) h
        (holds k) =
      if_audited-Untouched opened authorization command request_data
        (should_audit opened.options command) 0 k
  audited_answer-Leaves device authorization command request_data (err failed) h fails =
      if_audited-Untouched device authorization command request_data
        (should_audit device.options command) _ h

  create_session-Leaves :
      (device : Device) (request : Frame)
      → Untouched before device
      → Leaves (create_session platform device request)
  unfolding create_session
  create_session-Leaves device request h =
      proceed-Leaves device (decode create_session_request request.payload) _ h λ decoded _.
        proceed-Leaves device (session_authorization device decoded.authentication_key_id) _ h
          λ authorization _.
            audited_answer-Leaves device authorization CommandCode.create_session request.payload _
              h
              (open_session-Answers device authorization decoded.authentication_key_id
                decoded.host_challenge_or_public_key h)

  authenticate_entry-Answers :
      (device : Device) (sid : ℕ) (entry : SessionEntry) (request : Frame)
      → Untouched before device
      → Ensures Answers (authenticate_entry platform device sid entry request)
  unfolding authenticate_entry
  authenticate_entry-Answers device sid entry request h = search (>>=-Ensures, holds) depth 16

  authenticate_session-Leaves :
      (device : Device) (request : Frame)
      → Untouched before device
      → Leaves (authenticate_session platform device request)
  unfolding authenticate_session
  authenticate_session-Leaves device request h =
      proceed-Leaves device (decode session_envelope_request request.payload) _ h λ decoded _.
        proceed-Leaves device (ok_or (get decoded.session_id device.sessions) invalid_session) _ h
          λ entry _.
            audited_answer-Leaves (without platform decoded.session_id device) entry.authorization
              CommandCode.authenticate_session request.payload _ h
              (authenticate_entry-Answers (without platform decoded.session_id device)
                decoded.session_id entry request h)

  or_error-Answers : (done : Device × Result Frame) → Leaves done → Answers (or_error platform done)
  or_error-Answers (device, ok answer) h = h
  or_error-Answers (device, err failed) h = h

  dispatch-Answers :
      (device : Device) (request : Frame) (command : Option CommandCode)
      → command ≢ some CommandCode.session_message
      → Untouched before device
      → Answers (dispatch platform device request command)
  unfolding dispatch
  dispatch-Answers device request (some CommandCode.session_message) other h = absurd (other refl)
  dispatch-Answers device request (some CommandCode.create_session) other h =
      or_error-Answers (create_session platform device request)
        (create_session-Leaves device request h)
  dispatch-Answers device request (some CommandCode.authenticate_session) other h =
      or_error-Answers (authenticate_session platform device request)
        (authenticate_session-Leaves device request h)
  dispatch-Answers device request (some CommandCode.echo) other h = h
  dispatch-Answers device request _ other h = h

module _ ⦃keys : Keys⦄ (platform : Platform) where
  -- Any frame that is not a secure message, whatever its payload, leaves the objects, the generations
  -- of ids, the options and the device's static key as they were.
  pub handle_frame-Untouched :
      (device : Device) (request : Frame)
      → from_byte request.command ≢ some CommandCode.session_message
      → Untouched device (handle_frame platform device request).0
  unfolding handle_frame expire_inactive_sessions
  handle_frame-Untouched device request other =
      dispatch-Answers platform device (expire_inactive_sessions platform.now device) request
        (from_byte request.command) other (refl, refl, refl, refl)
