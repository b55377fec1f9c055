-- ===== src/Device/Authorize.antt =====
-- crates/virtual-yubihsm-core/src/device.rs, `authorize_command_request` and what it calls: the
-- checks of session, object and domain before a command runs. The object store is its metadata
-- here, since no check reads key material.
pub mod KeyUse
pub mod Hidden
use virtual_yubihsm.Prelude.{
  ℕ, not, ◌&&◌, ◌||◌, Bool, Option, none, some, List, [], ◌==◌, if◌then◌else◌,
}
use virtual_yubihsm.Prelude.OrderedMap.{OrderedMap, get, contains_key}
use virtual_yubihsm.Error.{Result, ok, err, ok_or, ◌>>=◌, ◌>>◌, object_not_found, invalid_id}
use virtual_yubihsm.Wire.{decode}
use virtual_yubihsm.Capability.{Capability}
use virtual_yubihsm.Protocol.{CommandCode, required_session_capability}
use virtual_yubihsm.Object.{ObjectKey, ObjectInfo, ObjectType, key_order}
use virtual_yubihsm.Authorization.{
  SessionAuthorization, require_capability, require_visible, authorize_use, authorize_delete,
  authorize_wrapped_export as check_export,
}
use virtual_yubihsm.Request.{
  id_remainder_request, u16_request, object_request, object_key_request, get_public_key_request,
}
use virtual_yubihsm.Request.Keys.{
  sign_pss_request, sign_ml_dsa_request, encapsulate_request, derive_ecdh_kdf_request,
  decrypt_oaep_request, aes_cbc_request, create_otp_aead_request, decrypt_otp_request,
  rewrap_otp_aead_request, export_wrapped_request, export_rsa_wrapped_fields,
  import_wrapped_request, import_rsa_wrapped_request, put_rsa_wrapped_key_request,
  sign_attestation_certificate_request, change_authentication_key_request,
}

abbrev pub Infos : Type 0
Infos = OrderedMap ObjectKey ObjectInfo

abbrev pub key_of : ObjectType → ℕ → ObjectKey
key_of object_type id = record { object_type = object_type; id = id }

unfoldable pub authorize_object :
    Infos → SessionAuthorization → ObjectKey → Capability → Result (Unit {0})
authorize_object objects session key capability = do
  object ← ok_or (get key objects) object_not_found
  authorize_use session object capability capability

unfoldable pub require_object_visible : Infos → SessionAuthorization → ObjectKey → Result (Unit {0})
require_object_visible objects session key = do
  object ← ok_or (get key objects) object_not_found
  require_visible session object

unfoldable pub authorize_wrapped_export :
    Infos → SessionAuthorization → ObjectType → ℕ → ObjectKey → Result (Unit {0})
authorize_wrapped_export objects session wrap_key_type wrap_id target_key = do
  wrap_key ← ok_or (get (key_of wrap_key_type wrap_id) objects) object_not_found
  target ← ok_or (get target_key objects) object_not_found
  check_export session target wrap_key

-- The two keys of an attestation; 0 names the device's own.
attestation_target : Infos → SessionAuthorization → ℕ → Result (Unit {0})
unfolding require_object_visible
attestation_target objects session target_id =
    if target_id == 0
    then ok tt
    else require_object_visible objects session (key_of ObjectType.asymmetric_key target_id)

attestation_template : Infos → SessionAuthorization → ℕ → Result (Unit {0})
unfolding require_object_visible
attestation_template objects session attesting_id =
    if contains_key (key_of ObjectType.opaque attesting_id) objects
    then require_object_visible objects session (key_of ObjectType.opaque attesting_id)
    else ok tt

attestation_key : Infos → SessionAuthorization → ℕ → Result (Unit {0})
unfolding authorize_object attestation_template
attestation_key objects session attesting_id = if attesting_id == 0 then ok tt else (do
  authorize_object objects session (key_of ObjectType.asymmetric_key attesting_id)
      Capability.sign_attestation_certificate
  attestation_template objects session attesting_id)

-- `MlDsaPrehash` is the first argument, as in `sign_ml_dsa_request`.
unfoldable pub authorize_target :
    (ℕ → Option ℕ) → Infos → SessionAuthorization → CommandCode → List ℕ → Result (Unit {0})
unfolding attestation_target attestation_key
authorize_target prehash_length objects session CommandCode.put_opaque request_data = do
  request ← decode object_request request_data
  if not (request.header.requested_id == 0)
        && contains_key (key_of ObjectType.opaque request.header.requested_id) objects
      then authorize_object objects session (key_of ObjectType.opaque request.header.requested_id)
          Capability.put_opaque
      else ok tt
authorize_target prehash_length objects session CommandCode.get_opaque request_data = do
  id ← decode u16_request request_data
  require_object_visible objects session (key_of ObjectType.opaque id)
authorize_target prehash_length objects session CommandCode.change_authentication_key request_data =
    do
      request ← decode change_authentication_key_request request_data
      if not (request.id == session.authentication_key_id)
          then err invalid_id
          else authorize_object objects session (key_of ObjectType.authentication_key request.id)
              Capability.change_authentication_key
authorize_target prehash_length objects session CommandCode.sign_pkcs1 request_data = do
  request ← decode id_remainder_request request_data
  authorize_object objects session (key_of ObjectType.asymmetric_key request.id)
      Capability.sign_pkcs
authorize_target prehash_length objects session CommandCode.sign_ecdsa request_data = do
  request ← decode id_remainder_request request_data
  authorize_object objects session (key_of ObjectType.asymmetric_key request.id)
      Capability.sign_ecdsa
authorize_target prehash_length objects session CommandCode.sign_eddsa request_data = do
  request ← decode id_remainder_request request_data
  authorize_object objects session (key_of ObjectType.asymmetric_key request.id)
      Capability.sign_eddsa
authorize_target prehash_length objects session CommandCode.decapsulate_ml_kem request_data = do
  request ← decode id_remainder_request request_data
  authorize_object objects session (key_of ObjectType.asymmetric_key request.id)
      Capability.decapsulate_ml_kem
authorize_target prehash_length objects session CommandCode.decapsulate_hybrid_kem request_data = do
  request ← decode id_remainder_request request_data
  authorize_object objects session (key_of ObjectType.asymmetric_key request.id)
      Capability.decapsulate_hybrid_kem
authorize_target prehash_length objects session CommandCode.derive_ecdh request_data = do
  request ← decode id_remainder_request request_data
  authorize_object objects session (key_of ObjectType.asymmetric_key request.id)
      Capability.derive_ecdh
authorize_target prehash_length objects session CommandCode.decrypt_pkcs1 request_data = do
  request ← decode id_remainder_request request_data
  authorize_object objects session (key_of ObjectType.asymmetric_key request.id)
      Capability.decrypt_pkcs
authorize_target prehash_length objects session CommandCode.sign_hmac request_data = do
  request ← decode id_remainder_request request_data
  authorize_object objects session (key_of ObjectType.hmac_key request.id) Capability.sign_hmac
authorize_target prehash_length objects session CommandCode.verify_hmac request_data = do
  request ← decode id_remainder_request request_data
  authorize_object objects session (key_of ObjectType.hmac_key request.id) Capability.verify_hmac
authorize_target prehash_length objects session CommandCode.wrap_data request_data = do
  request ← decode id_remainder_request request_data
  authorize_object objects session (key_of ObjectType.wrap_key request.id) Capability.wrap_data
authorize_target prehash_length objects session CommandCode.unwrap_data request_data = do
  request ← decode id_remainder_request request_data
  authorize_object objects session (key_of ObjectType.wrap_key request.id) Capability.unwrap_data
authorize_target prehash_length objects session CommandCode.encrypt_ecb request_data = do
  request ← decode id_remainder_request request_data
  authorize_object objects session (key_of ObjectType.symmetric_key request.id)
      Capability.encrypt_ecb
authorize_target prehash_length objects session CommandCode.decrypt_ecb request_data = do
  request ← decode id_remainder_request request_data
  authorize_object objects session (key_of ObjectType.symmetric_key request.id)
      Capability.decrypt_ecb
authorize_target prehash_length objects session CommandCode.sign_pss request_data = do
  request ← decode sign_pss_request request_data
  authorize_object objects session (key_of ObjectType.asymmetric_key request.id) Capability.sign_pss
authorize_target prehash_length objects session CommandCode.sign_ml_dsa request_data = do
  request ← decode (sign_ml_dsa_request prehash_length) request_data
  authorize_object objects session (key_of ObjectType.asymmetric_key request.id)
      Capability.sign_ml_dsa
authorize_target prehash_length objects session CommandCode.encapsulate_ml_kem request_data = do
  request ← decode encapsulate_request request_data
  authorize_object objects session (key_of ObjectType.asymmetric_key request)
      Capability.encapsulate_ml_kem
authorize_target prehash_length objects session CommandCode.encapsulate_hybrid_kem request_data = do
  request ← decode encapsulate_request request_data
  authorize_object objects session (key_of ObjectType.asymmetric_key request)
      Capability.encapsulate_hybrid_kem
authorize_target prehash_length objects session CommandCode.derive_ecdh_kdf request_data = do
  request ← decode derive_ecdh_kdf_request request_data
  authorize_object objects session (key_of ObjectType.asymmetric_key request.id)
      Capability.derive_ecdh_kdf
authorize_target prehash_length objects session CommandCode.decrypt_oaep request_data = do
  request ← decode decrypt_oaep_request request_data
  authorize_object objects session (key_of ObjectType.asymmetric_key request.id)
      Capability.decrypt_oaep
authorize_target prehash_length objects session CommandCode.encrypt_cbc request_data = do
  request ← decode aes_cbc_request request_data
  authorize_object objects session (key_of ObjectType.symmetric_key request.id)
      Capability.encrypt_cbc
authorize_target prehash_length objects session CommandCode.decrypt_cbc request_data = do
  request ← decode aes_cbc_request request_data
  authorize_object objects session (key_of ObjectType.symmetric_key request.id)
      Capability.decrypt_cbc
authorize_target prehash_length objects session CommandCode.create_otp_aead request_data = do
  request ← decode create_otp_aead_request request_data
  authorize_object objects session (key_of ObjectType.otp_aead_key request.id)
      Capability.create_otp_aead
authorize_target prehash_length objects session CommandCode.randomize_otp_aead request_data = do
  request ← decode u16_request request_data
  authorize_object objects session (key_of ObjectType.otp_aead_key request)
      Capability.randomize_otp_aead
authorize_target prehash_length objects session CommandCode.decrypt_otp request_data = do
  request ← decode decrypt_otp_request request_data
  authorize_object objects session (key_of ObjectType.otp_aead_key request.id)
      Capability.decrypt_otp
authorize_target prehash_length objects session CommandCode.get_template request_data = do
  request ← decode u16_request request_data
  authorize_object objects session (key_of ObjectType.template request) Capability.get_template
authorize_target prehash_length objects session CommandCode.import_wrapped request_data = do
  request ← decode import_wrapped_request request_data
  authorize_object objects session (key_of ObjectType.wrap_key request.wrap_id)
      Capability.import_wrapped
authorize_target prehash_length objects session CommandCode.import_rsa_wrapped request_data = do
  request ← decode import_rsa_wrapped_request request_data
  authorize_object objects session (key_of ObjectType.wrap_key request.wrap_id)
      Capability.import_wrapped
authorize_target prehash_length objects session CommandCode.put_rsa_wrapped_key request_data = do
  request ← decode put_rsa_wrapped_key_request request_data
  authorize_object objects session (key_of ObjectType.wrap_key request.wrap_id)
      Capability.import_wrapped
authorize_target prehash_length objects session CommandCode.rewrap_otp_aead request_data = do
  request ← decode rewrap_otp_aead_request request_data
  authorize_object objects session (key_of ObjectType.otp_aead_key request.from_id)
      Capability.rewrap_from_otp_aead_key
  authorize_object objects session (key_of ObjectType.otp_aead_key request.to_id)
      Capability.rewrap_to_otp_aead_key
authorize_target prehash_length objects session CommandCode.export_wrapped request_data = do
  request ← decode export_wrapped_request request_data
  authorize_wrapped_export objects session ObjectType.wrap_key request.wrap_id request.target
authorize_target prehash_length objects session CommandCode.get_rsa_wrapped_key request_data = do
  request ← decode export_rsa_wrapped_fields request_data
  authorize_wrapped_export objects session ObjectType.public_wrap_key request.wrap_id request.target
authorize_target prehash_length objects session CommandCode.export_rsa_wrapped request_data = do
  request ← decode export_rsa_wrapped_fields request_data
  authorize_wrapped_export objects session ObjectType.public_wrap_key request.wrap_id request.target
authorize_target prehash_length objects session CommandCode.sign_attestation_certificate
      request_data =
    do
      request ← decode sign_attestation_certificate_request request_data
      attestation_target objects session request.target_id
      attestation_key objects session request.attesting_id
authorize_target prehash_length objects session CommandCode.get_object_info request_data = do
  key ← decode object_key_request request_data
  require_object_visible objects session key
authorize_target prehash_length objects session CommandCode.get_public_key request_data = do
  key ← decode get_public_key_request request_data
  require_object_visible objects session key
authorize_target prehash_length objects session CommandCode.delete_object request_data = do
  key ← decode object_key_request request_data
  object ← ok_or (get key objects) object_not_found
  authorize_delete session object
authorize_target prehash_length objects session _ request_data = ok tt

abbrev require_for : SessionAuthorization → Option Capability → Result (Unit {0})
require_for session none = ok tt
require_for session (some required) = require_capability session required

unfoldable pub authorize_command_request :
    (ℕ → Option ℕ) → Infos → SessionAuthorization → CommandCode → List ℕ → Result (Unit {0})
authorize_command_request prehash_length objects session command request_data = do
  require_for session (required_session_capability command)
  authorize_target prehash_length objects session command request_data
