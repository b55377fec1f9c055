-- ===== src/Device/Execute.antt =====
-- crates/virtual-yubihsm-core/src/device.rs, the arms of `execute_inner_result`: what each command
-- runs, and the handlers that are written there. A handler that fails changes
-- nothing, since each writes last.
use virtual_yubihsm.Prelude.{ℕ, Bool, true, false, ◌&&◌, Option, none, some, List, [], length, ◌==◌}
use virtual_yubihsm.Prelude.OrderedMap.{contains_key, remove}
use virtual_yubihsm.Error.{Result, ok, err, ok_or, ◌>>=◌, invalid_command, storage_failed}
use virtual_yubihsm.Frame.{Frame}
use virtual_yubihsm.Keys.{Keys, Platform, KeyKind, EcCurve}
use virtual_yubihsm.Wire.{decode}
use virtual_yubihsm.Protocol.{CommandCode, from_byte, supported_by_firmware}
use virtual_yubihsm.Object.{ObjectType, key_order}
use virtual_yubihsm.Request.{empty_request, remainder_request, u8_request, object_key_request}
use virtual_yubihsm.Authorization.{SessionAuthorization}
use virtual_yubihsm.Device.Authorize.{key_of}
use virtual_yubihsm.Device.Options.{set_option}
use virtual_yubihsm.Device.Options.Read.{get_option, command_is_meta}
use virtual_yubihsm.Device.Audit.{fresh_audit, set_log_index, get_log_entries}
use virtual_yubihsm.Device.State.{Device, default_options, install_factory_authentication_key}
use virtual_yubihsm.Device.Put.{
  put_opaque, put_authentication_key, put_asymmetric_key, put_hmac_key, put_symmetric_key,
  put_template, change_authentication_key,
}
use virtual_yubihsm.Device.Put.Wrap.{put_wrap_key, put_public_wrap_key, put_otp_aead_key}
use virtual_yubihsm.Device.Use.{
  get_public_key, sign_pkcs1, sign_pss, sign_ecdsa, sign_ml_dsa, encapsulate_ml_kem,
  decapsulate_ml_kem, encapsulate_hybrid_kem, decapsulate_hybrid_kem, sign_eddsa, derive_ecdh,
  derive_ecdh_kdf, decrypt_pkcs1, decrypt_oaep,
}
use virtual_yubihsm.Device.Symmetric.{
  crypt_aes_ecb, crypt_aes_cbc, sign_hmac, verify_hmac, create_otp_aead, randomize_otp_aead,
  decrypt_otp, rewrap_otp_aead,
}
use virtual_yubihsm.Device.Read.{
  list_objects, get_storage_info, get_opaque, get_template, get_device_public_key, get_object_info,
  get_pseudo_random, get_device_info,
}
use virtual_yubihsm.Device.Wrap.{wrap_data, unwrap_data, export_wrapped, import_wrapped}
use virtual_yubihsm.Device.Wrap.Rsa.{export_rsa_wrapped, import_rsa_wrapped, put_rsa_wrapped_key}
use virtual_yubihsm.Device.Attestation.{sign_attestation_certificate}

unfoldable pub command_changes_persistent_state : CommandCode → Bool
command_changes_persistent_state CommandCode.put_opaque = true
command_changes_persistent_state CommandCode.put_authentication_key = true
command_changes_persistent_state CommandCode.put_asymmetric_key = true
command_changes_persistent_state CommandCode.generate_asymmetric_key = true
command_changes_persistent_state CommandCode.import_wrapped = true
command_changes_persistent_state CommandCode.put_wrap_key = true
command_changes_persistent_state CommandCode.set_option = true
command_changes_persistent_state CommandCode.put_hmac_key = true
command_changes_persistent_state CommandCode.generate_hmac_key = true
command_changes_persistent_state CommandCode.generate_wrap_key = true
command_changes_persistent_state CommandCode.delete_object = true
command_changes_persistent_state CommandCode.put_template = true
command_changes_persistent_state CommandCode.put_otp_aead_key = true
command_changes_persistent_state CommandCode.generate_otp_aead_key = true
command_changes_persistent_state CommandCode.set_log_index = true
command_changes_persistent_state CommandCode.change_authentication_key = true
command_changes_persistent_state CommandCode.put_symmetric_key = true
command_changes_persistent_state CommandCode.generate_symmetric_key = true
command_changes_persistent_state CommandCode.put_public_wrap_key = true
command_changes_persistent_state CommandCode.put_rsa_wrapped_key = true
command_changes_persistent_state CommandCode.import_rsa_wrapped = true
command_changes_persistent_state CommandCode.reset_device = true
command_changes_persistent_state _ = false

-- The log commands stay usable when the log is full, and so do the commands of the session itself.
abbrev pub passes_full_log : CommandCode → Bool
passes_full_log CommandCode.get_log_entries = true
passes_full_log CommandCode.set_log_index = true
passes_full_log command = command_is_meta command

abbrev supported : Bool → CommandCode → Option CommandCode
supported true command = some command
supported false command = none

module _ ⦃keys : Keys⦄ (platform : Platform) where
  -- `CommandCode::from_byte(..).filter(supported_by_firmware)`
  unfoldable pub supported_command_of : ℕ → Option CommandCode
  supported_command_of byte = elim (from_byte byte) [
    | none ↦ none
    | some command ↦ supported (supported_by_firmware platform.profile command) command
  ]

  plain_command : Device → List ℕ → Option CommandCode → Option (Result (List ℕ))
  plain_command device request_data (some CommandCode.echo) =
      some (decode remainder_request request_data)
  plain_command device request_data (some CommandCode.get_device_info) =
      some (get_device_info platform device request_data)
  plain_command device request_data (some CommandCode.get_device_public_key) =
      some (get_device_public_key device request_data)
  plain_command device request_data _ = none

  unfoldable pub execute_plain_or_authenticated : Device → Frame → Option (Result (List ℕ))
  unfolding plain_command
  execute_plain_or_authenticated device request =
      plain_command device request.payload (from_byte request.command)

  -- `require_fresh_device_for_algorithm_options`
  unfoldable pub is_fresh_device : Device → Bool
  is_fresh_device device =
      (length device.objects == 1)
      && contains_key (key_of ObjectType.authentication_key 1) device.objects

  unfoldable pub reset_device : Device → List ℕ → Result (Device × List ℕ)
  reset_device device request_data = do
    nothing ← decode empty_request request_data
    renewed ← ok_or (platform.generate_for_kind (KeyKind.ec EcCurve.p256)) storage_failed
    ok (
      install_factory_authentication_key platform (record device {
        objects = [];
        sequence_history = [];
        sessions = [];
        device_static_private = renewed;
        options = default_options;
        audit = fresh_audit;
      }),
      [],
    )

  unfoldable pub delete_object : Device → List ℕ → Result (Device × List ℕ)
  delete_object device request_data = do
    key ← decode object_key_request request_data
    ok (record device { objects = remove key device.objects }, [])

  unfoldable pub change_option : Device → List ℕ → Result (Device × List ℕ)
  unfolding is_fresh_device
  change_option device request_data = do
    options ←
        set_option platform.profile device.config.algorithms (is_fresh_device device) device.options
          request_data
    ok (record device { options = options }, [])

  unfoldable pub change_log : Device → List ℕ → Result (Device × List ℕ)
  change_log device request_data = do
    audit ← set_log_index device.audit request_data
    ok (record device { audit = audit }, [])

  abbrev pub kept : Device → Result (List ℕ) → Result (Device × List ℕ)
  kept device answer = answer >>= λ (bytes : List ℕ). ok (device, bytes)

  abbrev answered_empty : {A : Type 0} → Result A → Result (List ℕ)
  answered_empty checked = checked >>= λ nothing. ok []

  -- The commands that leave the objects of the session alone.
  unfoldable pub run_command :
      Device → SessionAuthorization → CommandCode → List ℕ → Result (Device × List ℕ)
  unfolding reset_device delete_object change_option change_log
  run_command device authorization CommandCode.close_session request_data =
      kept device (answered_empty (decode empty_request request_data))
  run_command device authorization CommandCode.get_storage_info request_data =
      kept device (get_storage_info device request_data)
  run_command device authorization CommandCode.get_pseudo_random request_data =
      kept device (get_pseudo_random platform request_data)
  run_command device authorization CommandCode.list_objects request_data =
      kept device (list_objects device authorization request_data)
  run_command device authorization CommandCode.get_object_info request_data =
      kept device (get_object_info platform device authorization request_data)
  run_command device authorization CommandCode.get_log_entries request_data =
      kept device (get_log_entries device.audit request_data)
  run_command device authorization CommandCode.set_log_index request_data =
      change_log device request_data
  run_command device authorization CommandCode.set_option request_data =
      change_option device request_data
  run_command device authorization CommandCode.get_option request_data =
      kept device (get_option platform.profile device.config.algorithms device.options request_data)
  run_command device authorization CommandCode.put_authentication_key request_data =
      put_authentication_key platform device authorization request_data
  run_command device authorization CommandCode.change_authentication_key request_data =
      change_authentication_key platform device request_data
  run_command device authorization CommandCode.put_opaque request_data =
      put_opaque platform device authorization request_data
  run_command device authorization CommandCode.put_asymmetric_key request_data =
      put_asymmetric_key platform device authorization request_data false
  run_command device authorization CommandCode.generate_asymmetric_key request_data =
      put_asymmetric_key platform device authorization request_data true
  run_command device authorization CommandCode.get_public_key request_data =
      kept device (get_public_key device authorization request_data)
  run_command device authorization CommandCode.sign_attestation_certificate request_data =
      kept device (sign_attestation_certificate platform device authorization request_data)
  run_command device authorization CommandCode.sign_pkcs1 request_data =
      kept device (sign_pkcs1 platform device authorization request_data)
  run_command device authorization CommandCode.sign_pss request_data =
      kept device (sign_pss platform device authorization request_data)
  run_command device authorization CommandCode.sign_ecdsa request_data =
      kept device (sign_ecdsa platform device authorization request_data)
  run_command device authorization CommandCode.sign_eddsa request_data =
      kept device (sign_eddsa platform device authorization request_data)
  run_command device authorization CommandCode.sign_ml_dsa request_data =
      kept device (sign_ml_dsa platform device authorization request_data)
  run_command device authorization CommandCode.encapsulate_ml_kem request_data =
      kept device (encapsulate_ml_kem platform device authorization request_data)
  run_command device authorization CommandCode.decapsulate_ml_kem request_data =
      kept device (decapsulate_ml_kem platform device authorization request_data)
  run_command device authorization CommandCode.encapsulate_hybrid_kem request_data =
      kept device (encapsulate_hybrid_kem platform device authorization request_data)
  run_command device authorization CommandCode.decapsulate_hybrid_kem request_data =
      kept device (decapsulate_hybrid_kem platform device authorization request_data)
  run_command device authorization CommandCode.derive_ecdh request_data =
      kept device (derive_ecdh platform device authorization request_data)
  run_command device authorization CommandCode.derive_ecdh_kdf request_data =
      kept device (derive_ecdh_kdf platform device authorization request_data)
  run_command device authorization CommandCode.decrypt_pkcs1 request_data =
      kept device (decrypt_pkcs1 platform device authorization request_data)
  run_command device authorization CommandCode.decrypt_oaep request_data =
      kept device (decrypt_oaep platform device authorization request_data)
  run_command device authorization CommandCode.put_hmac_key request_data =
      put_hmac_key platform device authorization request_data false
  run_command device authorization CommandCode.generate_hmac_key request_data =
      put_hmac_key platform device authorization request_data true
  run_command device authorization CommandCode.sign_hmac request_data =
      kept device (sign_hmac platform device authorization request_data)
  run_command device authorization CommandCode.verify_hmac request_data =
      kept device (verify_hmac platform device authorization request_data)
  run_command device authorization CommandCode.put_wrap_key request_data =
      put_wrap_key platform device authorization request_data false
  run_command device authorization CommandCode.generate_wrap_key request_data =
      put_wrap_key platform device authorization request_data true
  run_command device authorization CommandCode.put_public_wrap_key request_data =
      put_public_wrap_key platform device authorization request_data
  run_command device authorization CommandCode.wrap_data request_data =
      kept device (wrap_data platform device authorization request_data)
  run_command device authorization CommandCode.unwrap_data request_data =
      kept device (unwrap_data platform device authorization request_data)
  run_command device authorization CommandCode.export_wrapped request_data =
      kept device (export_wrapped platform device authorization request_data)
  run_command device authorization CommandCode.import_wrapped request_data =
      import_wrapped platform device authorization request_data
  run_command device authorization CommandCode.get_rsa_wrapped_key request_data =
      kept device (export_rsa_wrapped platform device authorization request_data true)
  run_command device authorization CommandCode.put_rsa_wrapped_key request_data =
      put_rsa_wrapped_key platform device authorization request_data
  run_command device authorization CommandCode.export_rsa_wrapped request_data =
      kept device (export_rsa_wrapped platform device authorization request_data false)
  run_command device authorization CommandCode.import_rsa_wrapped request_data =
      import_rsa_wrapped platform device authorization request_data
  run_command device authorization CommandCode.put_symmetric_key request_data =
      put_symmetric_key platform device authorization request_data false
  run_command device authorization CommandCode.generate_symmetric_key request_data =
      put_symmetric_key platform device authorization request_data true
  run_command device authorization CommandCode.encrypt_ecb request_data =
      kept device (crypt_aes_ecb platform device authorization request_data true)
  run_command device authorization CommandCode.decrypt_ecb request_data =
      kept device (crypt_aes_ecb platform device authorization request_data false)
  run_command device authorization CommandCode.encrypt_cbc request_data =
      kept device (crypt_aes_cbc platform device authorization request_data true)
  run_command device authorization CommandCode.decrypt_cbc request_data =
      kept device (crypt_aes_cbc platform device authorization request_data false)
  run_command device authorization CommandCode.put_otp_aead_key request_data =
      put_otp_aead_key platform device authorization request_data false
  run_command device authorization CommandCode.generate_otp_aead_key request_data =
      put_otp_aead_key platform device authorization request_data true
  run_command device authorization CommandCode.create_otp_aead request_data =
      kept device (create_otp_aead platform device authorization request_data)
  run_command device authorization CommandCode.randomize_otp_aead request_data =
      kept device (randomize_otp_aead platform device authorization request_data)
  run_command device authorization CommandCode.decrypt_otp request_data =
      kept device (decrypt_otp platform device authorization request_data)
  run_command device authorization CommandCode.rewrap_otp_aead request_data =
      kept device (rewrap_otp_aead platform device authorization request_data)
  run_command device authorization CommandCode.put_template request_data =
      put_template platform device authorization request_data
  run_command device authorization CommandCode.get_template request_data =
      kept device (get_template device request_data)
  run_command device authorization CommandCode.get_opaque request_data =
      kept device (get_opaque device request_data)
  run_command device authorization CommandCode.delete_object request_data =
      delete_object device request_data
  run_command device authorization CommandCode.reset_device request_data =
      reset_device device request_data
  run_command device authorization CommandCode.blink_device request_data =
      kept device (answered_empty (decode u8_request request_data))
  run_command device authorization _ request_data = err invalid_command
