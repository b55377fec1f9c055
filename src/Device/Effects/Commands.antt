-- ===== src/Device/Effects/Commands.antt =====
-- Every command stays within its effects, and most leave the device as it is.
use virtual_yubihsm.Prelude.{ℕ, true, false, List}
use virtual_yubihsm.Error.Ensures.{Ensures, holds, fails, >>=-Ensures}
use virtual_yubihsm.Keys.{Keys, Platform}
use virtual_yubihsm.Protocol.{CommandCode}
use virtual_yubihsm.Authorization.{SessionAuthorization}
use virtual_yubihsm.Device.State.{Device}
use virtual_yubihsm.Device.Execute.{
  run_command, reset_device, delete_object, change_option, change_log,
}
use virtual_yubihsm.Device.Effects.{unchanged, deleted, configured, acknowledged, reset}
use virtual_yubihsm.Device.Effects.Puts.{
  Within, put_opaque-Within, put_authentication_key-Within, put_asymmetric_key-Within,
  put_hmac_key-Within, put_symmetric_key-Within, put_template-Within,
  change_authentication_key-Within, put_wrap_key-Within, put_public_wrap_key-Within,
  put_otp_aead_key-Within,
}
use virtual_yubihsm.Device.Effects.Imports.{
  import_wrapped-Within, import_rsa_wrapped-Within, put_rsa_wrapped_key-Within,
}

module _ ⦃keys : Keys⦄ (platform : Platform) (authorization : SessionAuthorization) where
  reset_device-Within :
      (device : Device) (request_data : List ℕ)
      → Ensures
          (Within platform authorization CommandCode.reset_device device)
          (reset_device platform device request_data)
  unfolding reset_device
  reset_device-Within device request_data = search (>>=-Ensures, holds, reset) depth 10

  delete_object-Within :
      (device : Device) (request_data : List ℕ)
      → Ensures
          (Within platform authorization CommandCode.delete_object device)
          (delete_object platform device request_data)
  unfolding delete_object
  delete_object-Within device request_data = search (>>=-Ensures, holds, deleted) depth 10

  change_option-Within :
      (device : Device) (request_data : List ℕ)
      → Ensures
          (Within platform authorization CommandCode.set_option device)
          (change_option platform device request_data)
  unfolding change_option
  change_option-Within device request_data = search (>>=-Ensures, holds, configured) depth 10

  change_log-Within :
      (device : Device) (request_data : List ℕ)
      → Ensures
          (Within platform authorization CommandCode.set_log_index device)
          (change_log platform device request_data)
  unfolding change_log
  change_log-Within device request_data = search (>>=-Ensures, holds, acknowledged) depth 10

  pub run_command-Within :
      (device : Device) (command : CommandCode) (request_data : List ℕ)
      → Ensures
          (Within platform authorization command device)
          (run_command platform device authorization command request_data)
  unfolding run_command
  run_command-Within device CommandCode.set_log_index request_data =
      change_log-Within device request_data
  run_command-Within device CommandCode.set_option request_data =
      change_option-Within device request_data
  run_command-Within device CommandCode.put_authentication_key request_data =
      put_authentication_key-Within platform authorization CommandCode.put_authentication_key device
        request_data
  run_command-Within device CommandCode.change_authentication_key request_data =
      change_authentication_key-Within platform authorization CommandCode.change_authentication_key
        device request_data
  run_command-Within device CommandCode.put_opaque request_data =
      put_opaque-Within platform authorization CommandCode.put_opaque device request_data
  run_command-Within device CommandCode.put_asymmetric_key request_data =
      put_asymmetric_key-Within platform authorization CommandCode.put_asymmetric_key device
        request_data false
  run_command-Within device CommandCode.generate_asymmetric_key request_data =
      put_asymmetric_key-Within platform authorization CommandCode.generate_asymmetric_key device
        request_data true
  run_command-Within device CommandCode.put_hmac_key request_data =
      put_hmac_key-Within platform authorization CommandCode.put_hmac_key device request_data false
  run_command-Within device CommandCode.generate_hmac_key request_data =
      put_hmac_key-Within platform authorization CommandCode.generate_hmac_key device request_data
        true
  run_command-Within device CommandCode.put_wrap_key request_data =
      put_wrap_key-Within platform authorization CommandCode.put_wrap_key device request_data false
  run_command-Within device CommandCode.generate_wrap_key request_data =
      put_wrap_key-Within platform authorization CommandCode.generate_wrap_key device request_data
        true
  run_command-Within device CommandCode.put_public_wrap_key request_data =
      put_public_wrap_key-Within platform authorization CommandCode.put_public_wrap_key device
        request_data
  run_command-Within device CommandCode.import_wrapped request_data =
      import_wrapped-Within platform authorization CommandCode.import_wrapped device request_data
  run_command-Within device CommandCode.put_rsa_wrapped_key request_data =
      put_rsa_wrapped_key-Within platform authorization CommandCode.put_rsa_wrapped_key device
        request_data
  run_command-Within device CommandCode.import_rsa_wrapped request_data =
      import_rsa_wrapped-Within platform authorization CommandCode.import_rsa_wrapped device
        request_data
  run_command-Within device CommandCode.put_symmetric_key request_data =
      put_symmetric_key-Within platform authorization CommandCode.put_symmetric_key device
        request_data false
  run_command-Within device CommandCode.generate_symmetric_key request_data =
      put_symmetric_key-Within platform authorization CommandCode.generate_symmetric_key device
        request_data true
  run_command-Within device CommandCode.put_otp_aead_key request_data =
      put_otp_aead_key-Within platform authorization CommandCode.put_otp_aead_key device
        request_data false
  run_command-Within device CommandCode.generate_otp_aead_key request_data =
      put_otp_aead_key-Within platform authorization CommandCode.generate_otp_aead_key device
        request_data true
  run_command-Within device CommandCode.put_template request_data =
      put_template-Within platform authorization CommandCode.put_template device request_data
  run_command-Within device CommandCode.delete_object request_data =
      delete_object-Within device request_data
  run_command-Within device CommandCode.reset_device request_data =
      reset_device-Within device request_data
  run_command-Within device command request_data =
      search (>>=-Ensures, holds, unchanged, fails) depth 8
