-- ===== src/Device/Sessions/Closed.antt =====
-- crates/virtual-yubihsm-core/src/device.rs, `session_message_with`: a session is taken out of the
-- table for the time of its message, and is put back only with the answer to it.
use virtual_yubihsm.Prelude.{
  ℕ, ◌≡◌, refl, ◌∙◌, Bool, true, false, Option, none, some, ==_self, inl, inr, ◌⊎◌, Bool-cases,
  arith,
}
use virtual_yubihsm.Prelude.OrderedMap.{get, nat_order, get-remove, get-insert}
use virtual_yubihsm.Error.{DeviceError, Result, ok, err, guard, invalid_session}
use virtual_yubihsm.Frame.{Frame}
use virtual_yubihsm.Keys.{Keys, Platform}
use virtual_yubihsm.Wire.{decode}
use virtual_yubihsm.Protocol.{CommandCode, from_byte}
use virtual_yubihsm.Authorization.{SessionAuthorization}
use virtual_yubihsm.Request.{SessionEnvelopeRequest, session_envelope_request}
use virtual_yubihsm.Session.Secure.{SecureSession, decrypt_request, encrypt_response}
use virtual_yubihsm.SessionObject.{SessionObjects}
use virtual_yubihsm.Device.State.{Device, SessionEntry, install_factory_authentication_key}
use virtual_yubihsm.Device.Store.{stored}
use virtual_yubihsm.Device.Command.{Context, execute_inner_with_session}
use virtual_yubihsm.Device.Effects.{Effect, Written, written, created, imported, replaced, reset}
use virtual_yubihsm.Device.Effects.Rule.{execute_inner_with_session-Holds}
use virtual_yubihsm.Device.Sessions.{proceed, without}
use virtual_yubihsm.Device.Messages.{
  session_message, inner_message, answer_inner, run_inner, run_permitted, permitted, required_by,
  closes, with_objects,
}

module _ ⦃keys : Keys⦄ where
  Written-absent :
      (sid : ℕ) (device updated : Device) {info : _}
      → Written device info updated
      → get sid device.sessions ≡ none
      → get sid updated.sessions ≡ none
  unfolding stored
  Written-absent sid device updated (written object same valid) absent = absent

module _ ⦃keys : Keys⦄ (platform : Platform) where
  -- A session that is not in the table is not put there by a command.
  Effect-absent :
      (sid : ℕ) (authorization : SessionAuthorization) (command : CommandCode)
      (device updated : Device)
      → Effect platform authorization command device updated
      → get sid device.sessions ≡ none
      → get sid updated.sessions ≡ none
  unfolding install_factory_authentication_key get
  Effect-absent sid authorization command device updated (created info capability fresh allowed w)
        absent =
      Written-absent sid device updated w absent
  Effect-absent sid authorization command device updated
        (imported requested wrap_key id origin fresh allowed w) absent =
      Written-absent sid device updated w absent
  Effect-absent sid authorization command device updated
        (replaced at existing info found same_key same_rights w) absent =
      Written-absent sid device updated w absent
  Effect-absent sid authorization command device updated (reset renewed is_reset) absent = refl
  Effect-absent sid authorization command device updated _ absent = absent

  execute_inner_with_session-absent :
      (sid : ℕ) (context : Context) (authorization : SessionAuthorization) (request : Frame)
      → get sid context.device.sessions ≡ none
      → get sid
          (execute_inner_with_session platform context authorization request).0.device.sessions
        ≡ none
  execute_inner_with_session-absent sid context authorization request absent =
      (execute_inner_with_session-Holds platform authorization request context
        (λ (device : Device). get sid device.sessions ≡ none) (λ objects. Unit {0})
        (λ command updated answer named allowed ran effect.
          Effect-absent sid authorization command context.device updated effect absent)
        (λ objects result known done. tt) (λ device state changed kept. kept) absent tt).0

  run_permitted-absent :
      (sid : ℕ) (context : Context) (entry : SessionEntry) (inner : Frame)
      (allowed : Result (Unit {0}))
      → get sid context.device.sessions ≡ none
      → get sid (run_permitted platform context entry inner allowed).0.device.sessions ≡ none
  unfolding run_permitted
  run_permitted-absent sid context entry inner (err failed) absent = absent
  run_permitted-absent sid context entry inner (ok nothing) absent =
      execute_inner_with_session-absent sid context entry.authorization inner absent

  -- The message was opened with the session's keys, its answer was sealed with the state after that,
  -- and the session is in the table with the state after both, active just now.
  pub record Answered (sid : ℕ) (before : SessionEntry) (request : Frame)
      (done : Device × Result Frame) : Type 0 where
    pub inner : Frame
    pub answer : Frame
    pub outer : Frame
    pub secure : SecureSession
    pub after : SessionEntry
    pub was_authenticated : before.authenticated ≡ true
    pub opened : decrypt_request platform before.secure request ≡ ok (secure, inner)
    pub sealed : encrypt_response platform secure answer ≡ ok (after.secure, outer)
    pub replied : done.1 ≡ ok outer
    pub kept : get sid done.0.sessions ≡ some after
    pub active : after.last_activity ≡ platform.now

  abbrev pub IsGone : ℕ → Device × Result Frame → Type 0
  IsGone sid done = get sid done.0.sessions ≡ none

  proceed-ends :
      {A : Type 0} (P : Device × Result Frame → Type 0) (device : Device) (r : Result A)
      (next : A → Device × Result Frame)
      → ((failed : DeviceError) → P (device, err failed))
      → ((a : A) → r ≡ ok a → P (next a))
      → P (proceed platform device r next)
  proceed-ends P device (ok a) next stops goes = goes a refl
  proceed-ends P device (err failed) next stops goes = stops failed

  get-without : (sid : ℕ) (device : Device) → get sid (without platform sid device).sessions ≡ none
  get-without sid device = ground (arith, get-remove sid sid device.sessions, ==_self sid)

  with_objects-active :
      (entry : SessionEntry) (objects : Option SessionObjects)
      → (with_objects platform entry objects).last_activity ≡ entry.last_activity
  with_objects-active entry none = refl
  with_objects-active entry (some objects) = refl

  guard-eq_ok : (b : Bool) (failed : DeviceError) {a : Unit {0}} → guard b failed ≡ ok a → b ≡ true
  guard-eq_ok true failed e = refl
  guard-eq_ok false failed e = cc

  answer_inner-ends :
      (sid : ℕ) (before current : SessionEntry) (request inner answer : Frame) (context : Context)
      → before.authenticated ≡ true
      → decrypt_request platform before.secure request ≡ ok (current.secure, inner)
      → current.last_activity ≡ platform.now
      → get sid context.device.sessions ≡ none
      → IsGone sid (answer_inner platform sid current inner context answer)
        ⊎ Answered sid before request (answer_inner platform sid current inner context answer)
  unfolding answer_inner
  answer_inner-ends sid before current request inner answer context known opened active absent =
      proceed-ends (λ done. IsGone sid done ⊎ Answered sid before request done) context.device
        (encrypt_response platform current.secure answer) _ (λ failed. inl absent)
        λ (secure, outer) sealed.
          elim (Bool-cases (closes platform (from_byte inner.command) answer)) [
            | inl closing ↦ inl (rw closing absent)
            | inr stays ↦
                let after : SessionEntry = record (with_objects platform current context.objects) {
                  secure = secure;
                } in
                inr (record {
                  inner = inner;
                  answer = answer;
                  outer = outer;
                  secure = current.secure;
                  after = after;
                  was_authenticated = known;
                  opened = opened;
                  sealed = sealed;
                  replied = refl;
                  kept = rw stays (
                      ground
                        (arith, get-insert sid sid after context.device.sessions, ==_self sid));
                  active = with_objects-active current context.objects ∙ active;
                })
          ]

  inner_message-ends :
      (device : Device) (sid : ℕ) (before : SessionEntry) (request inner : Frame)
      (secure : SecureSession)
      → before.authenticated ≡ true
      → decrypt_request platform before.secure request ≡ ok (secure, inner)
      → get sid device.sessions ≡ none
      → IsGone sid (inner_message platform device sid before secure inner)
        ⊎ Answered sid before request (inner_message platform device sid before secure inner)
  unfolding inner_message run_inner
  inner_message-ends device sid before request inner secure known opened absent =
      let current : SessionEntry = record before {
        secure = secure;
        last_activity = platform.now;
      } in
      answer_inner-ends sid before current request inner _ _ known opened refl (
        run_permitted-absent sid (record { device = device; objects = some current.objects })
          current inner
          (permitted platform current.authorization
            (required_by platform (from_byte inner.command)))
          absent)

  -- However the message of a session ends, the session is in the table afterwards only if it was
  -- authenticated, its message was opened, and an answer was sealed and is the result; it is there
  -- with the secure state after both and active just now. In every other case it is gone, so a
  -- session whose message ends in an error is, be it before its command runs or after that.
  pub session_message-ends :
      (device : Device) (request : Frame) (envelope : SessionEnvelopeRequest)
      (before : SessionEntry)
      → decode session_envelope_request request.payload ≡ ok envelope
      → get envelope.session_id device.sessions ≡ some before
      → IsGone envelope.session_id (session_message platform device request)
        ⊎ Answered envelope.session_id before request (session_message platform device request)
  unfolding session_message
  session_message-ends device request envelope before decoded found =
      let sid = envelope.session_id in
      let rest = without platform sid device in
      let ends : Device × Result Frame → Type 0 =
        λ done. IsGone sid done ⊎ Answered sid before request done in
      rw decoded (
        rw found (
          proceed-ends ends rest (guard before.authenticated invalid_session) _
            (λ failed. inl (get-without sid device))
            λ checked known.
              proceed-ends ends rest (decrypt_request platform before.secure request) _
                (λ failed. inl (get-without sid device))
                λ (secure, inner) opened.
                  inner_message-ends rest sid before request inner secure
                    (guard-eq_ok before.authenticated invalid_session known) opened
                    (get-without sid device)))
