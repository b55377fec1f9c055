-- ===== src/Device/Sessions.antt =====
-- crates/virtual-yubihsm-core/src/device.rs: the session table, the opening and the authentication
-- of a session.
pub mod Table
pub mod Closed
pub mod Outside
use virtual_yubihsm.Prelude.{
  ℕ, zero, suc, ◌+◌, ◌-◌, Bool, true, false, not, ◌&&◌, ◌||◌, Option, none, some, List, [], ◌∷◌,
  ◌++◌, length, drop, leb, ltb, ◌==◌, if◌then◌else◌,
}
use virtual_yubihsm.Prelude.OrderedMap.{get, insert, remove, retain, contains_key, nat_order}
use virtual_yubihsm.Error.{
  DeviceError, Result, ok, err, ok_or, guard, result_code, ◌>>=◌, ◌>>◌, invalid_command,
  invalid_data, invalid_session, authentication_failed, sessions_full, storage_failed, wrong_length,
  object_not_found,
}
use virtual_yubihsm.Frame.{Frame, parse, encode, response, error, error_command}
use virtual_yubihsm.Keys.{Keys, Platform}
use virtual_yubihsm.Wire.{decode}
use virtual_yubihsm.Capability.{Capability}
use virtual_yubihsm.Protocol.{CommandCode, from_byte, to_byte, required_session_capability}
use virtual_yubihsm.Object.{ObjectType, key_order}
use virtual_yubihsm.Object.Material.{
  AuthenticationKeyMaterial, symmetric, asymmetric, ObjectMaterial, authentication,
}
use virtual_yubihsm.Request.{create_session_request, session_envelope_request}
use virtual_yubihsm.Session.{secure_response_fits}
use virtual_yubihsm.Session.Secure.{
  SecureSession, challenge_length, p256_public_key_length, begin_symmetric, begin_asymmetric,
  authenticate_symmetric, decrypt_request, encrypt_response,
}
use virtual_yubihsm.SessionObject.{SessionObjects}
use virtual_yubihsm.Authorization.{SessionAuthorization, require_capability}
use virtual_yubihsm.Device.Authorize.{key_of}
use virtual_yubihsm.Device.Options.Read.{should_audit}
use virtual_yubihsm.Device.Audit.{record_unlogged_authentication_if_full}
use virtual_yubihsm.Device.State.{Device, Sessions, SessionEntry}
use virtual_yubihsm.Device.Execute.{execute_plain_or_authenticated}
use virtual_yubihsm.Device.Command.{Context, execute_inner_with_session, audited}

abbrev pub max_sessions : ℕ
max_sessions = 16

abbrev pub session_inactivity_timeout : ℕ
session_inactivity_timeout = 30

module _ ⦃keys : Keys⦄ where
  abbrev is_authentication : ObjectMaterial → Bool
  is_authentication (authentication material) = true
  is_authentication _ = false

  unfoldable pub session_authorization : Device → ℕ → Result SessionAuthorization
  session_authorization device authentication_key_id = do
    object ←
        ok_or (get (key_of ObjectType.authentication_key authentication_key_id) device.objects)
          object_not_found
    guard (is_authentication object.material) invalid_data
    ok (record {
      authentication_key_id = authentication_key_id;
      capabilities = object.info.capabilities;
      delegated_capabilities = object.info.delegated_capabilities;
      domains = object.info.domains;
    })

  abbrev authentication_of : ObjectMaterial → Result AuthenticationKeyMaterial
  authentication_of (authentication material) = ok material
  authentication_of _ = err invalid_data

  unfoldable pub authentication_key_material : Device → ℕ → Result AuthenticationKeyMaterial
  authentication_key_material device authentication_key_id = do
    object ←
        ok_or (get (key_of ObjectType.authentication_key authentication_key_id) device.objects)
          object_not_found
    authentication_of object.material

  -- `(0..MAX_SESSIONS).find(..)`, with so many ids left from `sid` on
  unfoldable pub first_free : Sessions → ℕ → ℕ → Option ℕ
  first_free sessions sid zero = none
  first_free sessions sid (suc left) =
      let later = first_free sessions (suc sid) left in
      if contains_key sid sessions then later else some sid

  unfoldable pub expire_inactive_sessions : ℕ → Device → Device
  expire_inactive_sessions now device = record device {
    sessions =
        retain (λ sid session. ltb (now - session.last_activity) session_inactivity_timeout)
          device.sessions;
  }

  unfoldable pub clear_sessions : Device → Device
  clear_sessions device = record device { sessions = [] }

  unfoldable pub unlogged_authentication : Device → Device
  unlogged_authentication device =
      let (audit, changed) =
        record_unlogged_authentication_if_full device.options.force_audit device.config.log_capacity
          device.audit in
      record device { audit = audit; persistent_change = device.persistent_change || changed }

  abbrev pub new_entry :
      SessionAuthorization → SecureSession → Option (List ℕ) → Bool → ℕ → SessionEntry
  new_entry authorization secure expected authenticated now = record {
    authorization = authorization;
    secure = secure;
    expected_host_cryptogram = expected;
    authenticated = authenticated;
    last_activity = now;
    objects = [];
  }

module _ ⦃keys : Keys⦄ (platform : Platform) where
  unfoldable pub open_symmetric :
      Device → SessionAuthorization → ℕ → List ℕ → List ℕ → Result (Device × Frame)
  open_symmetric device authorization sid static_keys host = do
    guard (length host == challenge_length) wrong_length
    card_challenge ← ok_or (platform.fill challenge_length) storage_failed
    (secure, card_cryptogram, expected) ←
        begin_symmetric platform sid static_keys host card_challenge
    ok (
      record device {
        sessions =
            insert sid (new_entry authorization secure (some expected) false platform.now)
              device.sessions;
      },
      response (to_byte CommandCode.create_session) (sid ∷ card_challenge ++ card_cryptogram),
    )

  unfoldable pub open_asymmetric :
      Device → SessionAuthorization → ℕ → List ℕ → List ℕ → Result (Device × Frame)
  unfolding unlogged_authentication
  open_asymmetric device authorization sid host_static_public host = do
    guard (length host == p256_public_key_length) wrong_length
    (secure, device_ephemeral_public, receipt) ←
        begin_asymmetric platform sid device.device_static_private host_static_public host
    ok (
      unlogged_authentication (record device {
        sessions =
            insert sid (new_entry authorization secure none true platform.now) device.sessions;
      }),
      response (to_byte CommandCode.create_session) (sid ∷ device_ephemeral_public ++ receipt),
    )

  unfoldable pub open_with :
      Device
      → SessionAuthorization
      → ℕ
      → List ℕ
      → AuthenticationKeyMaterial
      → Result (Device × Frame)
  unfolding open_symmetric open_asymmetric
  open_with device authorization sid host (symmetric static_keys) =
      open_symmetric device authorization sid static_keys host
  open_with device authorization sid host (asymmetric host_static_public) =
      open_asymmetric device authorization sid host_static_public host

  -- The closure of `create_session`
  unfoldable pub open_session : Device → SessionAuthorization → ℕ → List ℕ → Result (Device × Frame)
  unfolding authentication_key_material first_free open_with
  open_session device authorization authentication_key_id host = do
    material ← authentication_key_material device authentication_key_id
    sid ← ok_or (first_free device.sessions 0 max_sessions) sessions_full
    open_with device authorization sid host material

  -- What is audited of the opening of a session, and what is answered.
  abbrev pub audited_answer :
      Device
      → SessionAuthorization
      → CommandCode
      → List ℕ
      → Result (Device × Frame)
      → Device × Result Frame
  audited_answer before authorization command request_data (ok (device, answer)) = (
    if should_audit device.options command
        then audited platform device authorization command request_data 0
        else device,
    ok answer,
  )
  audited_answer before authorization command request_data (err failed) = (
    if should_audit before.options command
        then audited platform before authorization command request_data
            (result_code {A = Unit {0}} (err failed))
        else before,
    err failed,
  )

  -- `?` in a handler that may have changed the device
  abbrev pub proceed :
      {A : Type 0} → Device → Result A → (A → Device × Result Frame) → Device × Result Frame
  proceed device (ok value) next = next value
  proceed device (err failed) next = (device, err failed)

  unfoldable pub create_session : Device → Frame → Device × Result Frame
  unfolding session_authorization open_session
  create_session device request =
      proceed device (decode create_session_request request.payload) λ decoded.
        proceed device (session_authorization device decoded.authentication_key_id) λ authorization.
          audited_answer device authorization CommandCode.create_session request.payload (
            open_session device authorization decoded.authentication_key_id
              decoded.host_challenge_or_public_key)

  -- The closure of `authenticate_session`, on the device without the session
  unfoldable pub authenticate_entry : Device → ℕ → SessionEntry → Frame → Result (Device × Frame)
  unfolding unlogged_authentication
  authenticate_entry device sid entry request = do
    guard (not entry.authenticated) invalid_session
    expected ← ok_or entry.expected_host_cryptogram authentication_failed
    secure ← authenticate_symmetric platform entry.secure request expected
    ok (
      unlogged_authentication (record device {
        sessions =
            insert sid
              (record entry {
                secure = secure;
                expected_host_cryptogram = none;
                authenticated = true;
                last_activity = platform.now;
              })
              device.sessions;
      }),
      response (to_byte CommandCode.authenticate_session) [],
    )

  abbrev pub without : ℕ → Device → Device
  without sid device = record device { sessions = remove sid device.sessions }

  unfoldable pub authenticate_session : Device → Frame → Device × Result Frame
  unfolding authenticate_entry
  authenticate_session device request =
      proceed device (decode session_envelope_request request.payload) λ decoded.
        proceed device (ok_or (get decoded.session_id device.sessions) invalid_session) λ entry.
          audited_answer (without decoded.session_id device) entry.authorization
            CommandCode.authenticate_session request.payload
            (authenticate_entry (without decoded.session_id device) decoded.session_id entry
              request)
