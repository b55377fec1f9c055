-- ===== src/Device/Invariant/Frames.antt =====
-- What comes in from outside keeps the invariant of the device: sessions are opened, authenticated,
-- used and dropped, and the store changes through their commands alone.
use virtual_yubihsm.Prelude.{
  ℕ, zero, suc, ◌+◌, ◌<◌, ◌≡◌, refl, sym, subst, Bool, true, false, Option, none, some, List, [],
  length, if◌then◌else◌, arith,
}
use virtual_yubihsm.Prelude.OrderedMap.{
  get, insert, nat_order, insert-IsSorted, remove-IsSorted, retain-IsSorted,
}
use virtual_yubihsm.Prelude.OrderedMap.All.{All-insert, All-remove, All-retain, All-get}
use virtual_yubihsm.Error.{Result, ok, err, ok_or, guard, sessions_full, invalid_session}
use virtual_yubihsm.Error.Ensures.{Ensures, holds, fails, >>=-Ensures, ok_or-eq_ok}
use virtual_yubihsm.Frame.{Frame, parse}
use virtual_yubihsm.Keys.{Keys, Platform}
use virtual_yubihsm.Wire.{decode}
use virtual_yubihsm.Protocol.{CommandCode, from_byte}
use virtual_yubihsm.Request.{create_session_request, session_envelope_request}
use virtual_yubihsm.Object.Material.{AuthenticationKeyMaterial, symmetric, asymmetric}
use virtual_yubihsm.Session.Secure.{SecureSession, decrypt_request, encrypt_response}
use virtual_yubihsm.SessionObject.{SessionObjects}
use virtual_yubihsm.SessionObject.Handles.{AreObjects}
use virtual_yubihsm.Authorization.{SessionAuthorization}
use virtual_yubihsm.Device.Options.Read.{should_audit}
use virtual_yubihsm.Device.State.{Device, Sessions, SessionEntry}
use virtual_yubihsm.Device.Command.{Context, audited}
use virtual_yubihsm.Device.Sessions.{
  max_sessions, first_free, expire_inactive_sessions, unlogged_authentication,
  session_authorization, open_symmetric, open_asymmetric, open_with, open_session, audited_answer,
  proceed, create_session, authenticate_entry, without, authenticate_session,
}
use virtual_yubihsm.Device.Messages.{
  run_permitted, run_inner, closes, with_objects, answer_inner, inner_message, session_message,
}
use virtual_yubihsm.Device.Entry.{or_error, dispatch, handle_frame, handle_parsed, handle_encoded}
use virtual_yubihsm.Device.Invariant.{IsDevice, IsSession}
use virtual_yubihsm.Device.Invariant.Commands.{
  HasObjects, IsContext, execute_inner_with_session-IsContext,
}

module _ ⦃keys : Keys⦄ where
  first_free-lt :
      (sessions : Sessions) (sid left found : ℕ)
      → first_free sessions sid left ≡ some found
      → found < sid + left
  unfolding first_free
  first_free-lt sessions sid zero found e = cc
  first_free-lt sessions sid (suc left) found e =
      ground (arith, first_free-lt sessions (suc sid) left found)

  insert_session-IsDevice :
      (device : Device) (sid : ℕ) (entry : SessionEntry)
      → sid < 16
      → AreObjects entry.objects
      → IsDevice device
      → IsDevice (record device { sessions = insert sid entry device.sessions })
  insert_session-IsDevice device sid entry low few h = (
    h.0,
    (
      insert-IsSorted sid entry device.sessions h.1.0,
      All-insert IsSession sid entry device.sessions (low, few) h.1.1,
    ),
  )

  unlogged-IsDevice :
      (device : Device) → IsDevice device → IsDevice (unlogged_authentication device)
  unfolding unlogged_authentication
  unlogged-IsDevice device h = h

  expire-IsDevice :
      (now : ℕ) (device : Device) → IsDevice device → IsDevice (expire_inactive_sessions now device)
  unfolding expire_inactive_sessions
  expire-IsDevice now device h =
      (h.0, (retain-IsSorted _ device.sessions h.1.0, All-retain IsSession _ device.sessions h.1.1))

module _ ⦃keys : Keys⦄ (platform : Platform)
    (password_length : (password : List ℕ)
      → length (platform.yubico_password_kdf password) ≡ 32) where
  abbrev Kept : Device × Frame → Type 0
  Kept done = IsDevice done.0

  opened-Kept :
      (device : Device) (sid : ℕ) (entry : SessionEntry) (answer : Frame)
      → first_free device.sessions 0 max_sessions ≡ some sid
      → AreObjects entry.objects
      → IsDevice device
      → Kept (record device { sessions = insert sid entry device.sessions }, answer)
  opened-Kept device sid entry answer free few h =
      insert_session-IsDevice device sid entry (first_free-lt device.sessions 0 16 sid free) few h

  open_with-Kept :
      (device : Device) (authorization : SessionAuthorization) (sid : ℕ) (host : List ℕ)
      (material : AuthenticationKeyMaterial)
      → first_free device.sessions 0 max_sessions ≡ some sid
      → IsDevice device
      → Ensures Kept (open_with platform device authorization sid host material)
  unfolding open_with open_symmetric open_asymmetric
  open_with-Kept device authorization sid host (symmetric static_keys) free h =
      search (>>=-Ensures, holds, opened-Kept, few) depth 16
    where
      few : AreObjects []
      few = (omega arith, tt)
  open_with-Kept device authorization sid host (asymmetric host_static_public) free h =
      search (>>=-Ensures, holds, opened-Kept, unlogged-IsDevice, few) depth 16
    where
      few : AreObjects []
      few = (omega arith, tt)

  found_free-Kept :
      (device : Device) (authorization : SessionAuthorization) (sid : ℕ) (host : List ℕ)
      (material : AuthenticationKeyMaterial)
      → ok_or (first_free device.sessions 0 max_sessions) sessions_full ≡ ok sid
      → IsDevice device
      → Ensures Kept (open_with platform device authorization sid host material)
  found_free-Kept device authorization sid host material e =
      open_with-Kept device authorization sid host material (ok_or-eq_ok _ sessions_full e)

  open_session-Kept :
      (device : Device) (authorization : SessionAuthorization) (key_id : ℕ) (host : List ℕ)
      → IsDevice device
      → Ensures Kept (open_session platform device authorization key_id host)
  unfolding open_session
  open_session-Kept device authorization key_id host h =
      search (>>=-Ensures, found_free-Kept) depth 8

  -- The state that a frame leaves, whatever it is answered
  abbrev Leaves : Device × Result Frame → Type 0
  Leaves done = IsDevice done.0

  proceed-Leaves :
      {A : Type 0} (device : Device) (r : Result A) (next : A → Device × Result Frame)
      → IsDevice device
      → ((a : A) → r ≡ ok a → Leaves (next a))
      → Leaves (proceed platform device r next)
  proceed-Leaves device (ok a) next h k = k a refl
  proceed-Leaves device (err failed) next h k = h

  if_audited-IsDevice :
      (device : Device) (authorization : SessionAuthorization) (command : CommandCode)
      (request_data : List ℕ) (audit : Bool) (code : ℕ)
      → IsDevice device
      → IsDevice (
          if audit then audited platform device authorization command request_data code else device)
  unfolding audited
  if_audited-IsDevice device authorization command request_data true code h = h
  if_audited-IsDevice device authorization command request_data false code h = h

  audited_answer-Leaves :
      (before : Device) (authorization : SessionAuthorization) (command : CommandCode)
      (request_data : List ℕ) (result : Result (Device × Frame))
      → IsDevice before
      → Ensures Kept result
      → Leaves (audited_answer platform before authorization command request_data result)
  audited_answer-Leaves before authorization command request_data (ok (device, answer)) h
        (holds k) =
      if_audited-IsDevice device authorization command request_data
        (should_audit device.options command) 0 k
  audited_answer-Leaves before authorization command request_data (err failed) h fails =
      if_audited-IsDevice before authorization command request_data
        (should_audit before.options command) _ h

  create_session-Leaves :
      (device : Device) (request : Frame)
      → IsDevice device
      → Leaves (create_session platform device request)
  unfolding create_session
  create_session-Leaves device request h =
      proceed-Leaves device (decode create_session_request request.payload) _ h λ decoded _.
        proceed-Leaves device (session_authorization device decoded.authentication_key_id) _ h
          λ authorization _.
            audited_answer-Leaves device authorization CommandCode.create_session request.payload _
              h
              (open_session-Kept device authorization decoded.authentication_key_id
                decoded.host_challenge_or_public_key h)

  without-IsDevice :
      (sid : ℕ) (device : Device) → IsDevice device → IsDevice (without platform sid device)
  without-IsDevice sid device h = (
    h.0,
    (remove-IsSorted sid device.sessions h.1.0, All-remove IsSession sid device.sessions h.1.1),
  )

  found-IsSession :
      (device : Device) (sid : ℕ) (entry : SessionEntry)
      → IsDevice device
      → ok_or (get sid device.sessions) invalid_session ≡ ok entry
      → IsSession (sid, entry)
  found-IsSession device sid entry h e =
      All-get IsSession sid entry device.sessions h.1.1 (ok_or-eq_ok _ invalid_session e)

  kept_session-IsDevice :
      (device : Device) (sid : ℕ) (before entry : SessionEntry)
      → IsSession (sid, before)
      → entry.objects ≡ before.objects
      → IsDevice device
      → IsDevice (record device { sessions = insert sid entry device.sessions })
  kept_session-IsDevice device sid before entry s same =
      insert_session-IsDevice device sid entry s.0 (subst AreObjects (sym same) s.1)

  authenticate_entry-Kept :
      (device : Device) (sid : ℕ) (entry : SessionEntry) (request : Frame)
      → IsSession (sid, entry)
      → IsDevice device
      → Ensures Kept (authenticate_entry platform device sid entry request)
  unfolding authenticate_entry
  authenticate_entry-Kept device sid entry request s h =
      search (>>=-Ensures, holds, unlogged-IsDevice, kept_session-IsDevice) depth 16

  authenticate_session-Leaves :
      (device : Device) (request : Frame)
      → IsDevice device
      → Leaves (authenticate_session platform device request)
  unfolding authenticate_session
  authenticate_session-Leaves device request h =
      proceed-Leaves device (decode session_envelope_request request.payload) _ h λ decoded _.
        proceed-Leaves device (ok_or (get decoded.session_id device.sessions) invalid_session) _ h
          λ entry found.
            let rest = without-IsDevice decoded.session_id device h in
            audited_answer-Leaves (without platform decoded.session_id device) entry.authorization
              CommandCode.authenticate_session request.payload _ rest
              (authenticate_entry-Kept (without platform decoded.session_id device)
                decoded.session_id entry request
                (found-IsSession device decoded.session_id entry h found) rest)

  run_permitted-IsContext :
      (context : Context) (entry : SessionEntry) (inner : Frame) (checked : Result (Unit {0}))
      → IsContext context
      → IsContext (run_permitted platform context entry inner checked).0
  unfolding run_permitted
  run_permitted-IsContext context entry inner (err failed) h = h
  run_permitted-IsContext context entry inner (ok nothing) h =
      execute_inner_with_session-IsContext platform password_length context entry.authorization
        inner h

  with_objects-AreObjects :
      (entry : SessionEntry) (objects : Option SessionObjects)
      → AreObjects entry.objects
      → HasObjects objects
      → AreObjects (with_objects platform entry objects).objects
  with_objects-AreObjects entry none few h = few
  with_objects-AreObjects entry (some objects) few h = h

  answer_inner-Leaves :
      (sid : ℕ) (entry : SessionEntry) (inner : Frame) (context : Context) (answer : Frame)
      → IsSession (sid, entry)
      → IsContext context
      → Leaves (answer_inner platform sid entry inner context answer)
  unfolding answer_inner
  answer_inner-Leaves sid entry inner context answer s h =
      proceed-Leaves context.device (encrypt_response platform entry.secure answer) _ h.0 λ outer _.
        put_back (closes platform (from_byte inner.command) answer)
          (record (with_objects platform entry context.objects) { secure = outer.0 })
          (with_objects-AreObjects entry context.objects s.1 h.1)
    where
      put_back :
          (closed : Bool) (kept : SessionEntry)
          → AreObjects kept.objects
          → IsDevice (
              if closed
              then context.device
              else record context.device { sessions = insert sid kept context.device.sessions })
      put_back true kept few = h.0
      put_back false kept few = insert_session-IsDevice context.device sid kept s.0 few h.0

  inner_message-Leaves :
      (device : Device) (sid : ℕ) (entry : SessionEntry) (secure : SecureSession) (inner : Frame)
      → IsSession (sid, entry)
      → IsDevice device
      → Leaves (inner_message platform device sid entry secure inner)
  unfolding inner_message run_inner
  inner_message-Leaves device sid entry secure inner s h =
      let current : SessionEntry = record entry { secure = secure; last_activity = platform.now } in
      answer_inner-Leaves sid current inner _ _ s
        (run_permitted-IsContext _ current inner _ (h, s.1))

  session_message-Leaves :
      (device : Device) (request : Frame)
      → IsDevice device
      → Leaves (session_message platform device request)
  unfolding session_message
  session_message-Leaves device request h =
      proceed-Leaves device (decode session_envelope_request request.payload) _ h λ decoded _.
        proceed-Leaves device (ok_or (get decoded.session_id device.sessions) invalid_session) _ h
          λ entry found.
            let rest = without platform decoded.session_id device in
            let kept = without-IsDevice decoded.session_id device h in
            proceed-Leaves rest (guard entry.authenticated invalid_session) _ kept λ checked _.
              proceed-Leaves rest (decrypt_request platform entry.secure request) _ kept λ opened _.
                inner_message-Leaves rest decoded.session_id entry opened.0 opened.1
                  (found-IsSession device decoded.session_id entry h found) kept

  or_error-Kept : (done : Device × Result Frame) → Leaves done → Kept (or_error platform done)
  or_error-Kept (device, ok answer) h = h
  or_error-Kept (device, err failed) h = h

  dispatch-Kept :
      (device : Device) (request : Frame) (command : Option CommandCode)
      → IsDevice device
      → Kept (dispatch platform device request command)
  unfolding dispatch
  dispatch-Kept device request (some CommandCode.create_session) h =
      or_error-Kept (create_session platform device request)
        (create_session-Leaves device request h)
  dispatch-Kept device request (some CommandCode.authenticate_session) h =
      or_error-Kept (authenticate_session platform device request)
        (authenticate_session-Leaves device request h)
  dispatch-Kept device request (some CommandCode.session_message) h =
      or_error-Kept (session_message platform device request)
        (session_message-Leaves device request h)
  dispatch-Kept device request _ h = h

  handle_parsed-IsDevice :
      (device : Device) (parsed : Result Frame)
      → IsDevice device
      → IsDevice (handle_parsed platform device parsed).0
  unfolding handle_parsed handle_frame
  handle_parsed-IsDevice device (ok request) h =
      dispatch-Kept _ request (from_byte request.command) (expire-IsDevice platform.now device h)
  handle_parsed-IsDevice device (err failed) h = h

  -- Whatever bytes come in, the device keeps its invariant: its objects stand in order under their
  -- own keys, each is valid and its id has a generation; at most the sixteen session ids are in
  -- use, in order; and every session has at most 64 objects, none under the handle 0. This holds
  -- where a password key has 32 bytes.
  pub handle_encoded-IsDevice :
      (device : Device) (encoded : List ℕ)
      → IsDevice device
      → IsDevice (handle_encoded platform device encoded).0
  unfolding handle_encoded
  handle_encoded-IsDevice device encoded h = handle_parsed-IsDevice device (parse encoded) h
