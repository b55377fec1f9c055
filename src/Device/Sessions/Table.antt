-- ===== src/Device/Sessions/Table.antt =====
-- crates/virtual-yubihsm-core/src/device.rs: which sessions are in the table: an id is free while
-- fewer than sixteen are open, and an idle session is gone.
use virtual_yubihsm.Prelude.{
  ℕ, zero, suc, ◌+◌, ◌-◌, ◌≤◌, ◌<◌, ◌≡◌, refl, ap, ◌∙◌, Bool, false, none, some, length, ltb,
  ==_iff, if◌then◌else◌, inl, inr, Option-cases, arith,
}
use virtual_yubihsm.Prelude.OrderedMap.{get, remove, contains_key, nat_order, IsSorted, get-remove}
use virtual_yubihsm.Prelude.OrderedMap.Gets.{get-retain, kept_if, length-remove-lt}
use virtual_yubihsm.Error.{ok, err, invalid_session}
use virtual_yubihsm.Frame.{Frame, error}
use virtual_yubihsm.Keys.{Keys, Platform}
use virtual_yubihsm.Wire.{decode}
use virtual_yubihsm.Protocol.{CommandCode, from_byte}
use virtual_yubihsm.Request.{SessionEnvelopeRequest, session_envelope_request}
use virtual_yubihsm.Device.State.{Device, Sessions, SessionEntry}
use virtual_yubihsm.Device.Sessions.{
  max_sessions, session_inactivity_timeout, first_free, expire_inactive_sessions,
}
use virtual_yubihsm.Device.Messages.{session_message}
use virtual_yubihsm.Device.Entry.{or_error, dispatch, handle_frame}

irreflexive : (k : ℕ) → ltb k k ≡ false
irreflexive k = ground arith

module _ ⦃keys : Keys⦄ where
  contains_key-remove :
      (j k : ℕ) (sessions : Sessions)
      → j < k
      → contains_key k (remove j sessions) ≡ contains_key k sessions
  unfolding contains_key
  contains_key-remove j k sessions below = ground (arith, get-remove j k sessions, ==_iff j k)

  first_free-remove :
      (j sid left : ℕ) (sessions : Sessions)
      → j < sid
      → first_free (remove j sessions) sid left ≡ first_free sessions sid left
  unfolding first_free
  first_free-remove j sid zero sessions below = refl
  first_free-remove j sid (suc left) sessions below =
      let rest = first_free-remove j (suc sid) left sessions (omega (arith, below)) in
      ground (arith, rest, contains_key-remove j sid sessions below)

  full-length :
      (sessions : Sessions) (sid left : ℕ)
      → first_free sessions sid left ≡ none
      → left ≤ length sessions
  unfolding first_free
  full-length sessions sid zero e = omega arith
  full-length sessions sid (suc left) e = ground (
    arith,
    full-length (remove sid sessions) (suc sid) left,
    first_free-remove sid (suc sid) left sessions (omega arith),
    length-remove-lt sid sessions,
  )

  first_free-unused :
      (sessions : Sessions) (sid left found : ℕ)
      → first_free sessions sid left ≡ some found
      → (found < sid + left) × (get found sessions ≡ none)
  unfolding first_free contains_key
  first_free-unused sessions sid zero found e = cc
  first_free-unused sessions sid (suc left) found e =
      ground (arith, first_free-unused sessions (suc sid) left found)

  -- While fewer than sixteen sessions are open, opening one finds an id for it: below sixteen, and of
  -- no open session.
  pub first_free-finds :
      (sessions : Sessions)
      → length sessions < 16
      → (sid : ℕ) × (first_free sessions 0 max_sessions ≡ some sid)
        × (sid < 16)
        × (get sid sessions ≡ none)
  first_free-finds sessions room = elim (Option-cases (first_free sessions 0 16)) [
    | inl full ↦ absurd (omega (arith, full-length sessions 0 16 full, room))
    | inr (sid, found) ↦
        let facts = first_free-unused sessions 0 16 sid found in (sid, found, facts.0, facts.1)
  ]

module _ ⦃keys : Keys⦄ (platform : Platform) where
  session_message-unknown :
      (device : Device) (request : Frame) (envelope : SessionEnvelopeRequest)
      → decode session_envelope_request request.payload ≡ ok envelope
      → get envelope.session_id device.sessions ≡ none
      → session_message platform device request ≡ (device, err invalid_session)
  unfolding session_message
  session_message-unknown device request envelope decoded unknown = rw decoded (rw unknown refl)

  get-expired :
      (device : Device) (sid : ℕ) (entry : SessionEntry)
      → IsSorted device.sessions
      → get sid device.sessions ≡ some entry
      → session_inactivity_timeout ≤ platform.now - entry.last_activity
      → get sid (expire_inactive_sessions platform.now device).sessions ≡ none
  unfolding expire_inactive_sessions
  get-expired device sid entry sorted found idle =
      let stays : SessionEntry → Bool =
        λ session. ltb (platform.now - session.last_activity) session_inactivity_timeout in
      let late : stays entry ≡ false = ground arith in
      get-retain irreflexive stays sid device.sessions sorted
      ∙ (ap (kept_if stays) found ∙ ap (λ b. if b then some entry else none) late)

  -- A message for a session that has been idle for thirty seconds or more, on a sorted table, is
  -- answered with the error for an unknown session; nothing happens but that the idle sessions go.
  pub handle_frame-expired :
      (device : Device) (request : Frame) (envelope : SessionEnvelopeRequest) (entry : SessionEntry)
      → IsSorted device.sessions
      → from_byte request.command ≡ some CommandCode.session_message
      → decode session_envelope_request request.payload ≡ ok envelope
      → get envelope.session_id device.sessions ≡ some entry
      → session_inactivity_timeout ≤ platform.now - entry.last_activity
      → handle_frame platform device request
        ≡ (expire_inactive_sessions platform.now device, error invalid_session)
  unfolding handle_frame dispatch
  handle_frame-expired device request envelope entry sorted named decoded found idle = rw named (
      ap (or_error platform) (
        session_message-unknown (expire_inactive_sessions platform.now device) request envelope
          decoded (get-expired device envelope.session_id entry sorted found idle)))
