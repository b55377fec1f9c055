-- ===== src/Device/Put/Wrap.antt =====
-- crates/virtual-yubihsm-core/src/device.rs: the commands that put and generate wrap keys and OTP
-- AEAD keys.
use virtual_yubihsm.Prelude.{
  ℕ, ◌+◌, Bool, not, ◌&&◌, List, length, to_be_bytes, ◌==◌, if◌then◌else◌,
}
use virtual_yubihsm.Error.{Result, ok, err, ok_or, guard, ◌>>=◌, ◌>>◌, invalid_data, wrong_length}
use virtual_yubihsm.Keys.{Keys, Platform}
use virtual_yubihsm.Algorithm.{
  Algorithm, is_rsa_key, asymmetric_key_length, asymmetric_object_length, aes_key_length,
}
use virtual_yubihsm.Algorithm
use virtual_yubihsm.Capability.{Capability, none_set}
use virtual_yubihsm.Wire.{decode}
use virtual_yubihsm.Object.{ObjectType}
use virtual_yubihsm.Object.Material.{ObjectMaterial, secret, public, otp_aead_key}
use virtual_yubihsm.Object.Record.{ObjectRecord, option_bind, add_eight}
use virtual_yubihsm.Object.Record
use virtual_yubihsm.Request.{delegated_object_request, otp_aead_key_request}
use virtual_yubihsm.Authorization.{SessionAuthorization, authorize_create}
use virtual_yubihsm.Device.State.{Device}
use virtual_yubihsm.Device.Store.{resolve_id, write_object, write_imported_object}
use virtual_yubihsm.Device.Tables.{is_ccm_wrap, is_yubico_otp}
use virtual_yubihsm.Device.Material.{asymmetric_key_material}
use virtual_yubihsm.Device.Put.{as_u16, new_info, origin_of, require_enabled, sized_secret}

abbrev wrap_key_length : Algorithm → Result ℕ
wrap_key_length algorithm =
    if is_ccm_wrap algorithm
    then ok_or (aes_key_length algorithm) invalid_data
    else if is_rsa_key algorithm
    then ok_or (asymmetric_key_length algorithm) invalid_data
    else err invalid_data

abbrev wrap_object_length : Algorithm → ℕ → Result ℕ
wrap_object_length algorithm key_length =
    if is_rsa_key algorithm
    then ok_or (option_bind (asymmetric_object_length algorithm) add_eight) invalid_data
    else ok (key_length + 8)

abbrev otp_key_length : Algorithm → Result ℕ
otp_key_length algorithm =
    if is_yubico_otp algorithm
    then ok_or (aes_key_length algorithm) invalid_data
    else err invalid_data

module _ ⦃keys : Keys⦄ (platform : Platform) where
  wrap_material : Algorithm → ℕ → Bool → List ℕ → Result ObjectMaterial
  wrap_material algorithm key_length generate supplied =
      if is_rsa_key algorithm
      then asymmetric_key_material platform algorithm generate supplied
      else (do value ← sized_secret platform key_length generate supplied; ok (secret value))

  unfoldable pub put_wrap_key :
      Device → SessionAuthorization → List ℕ → Bool → Result (Device × List ℕ)
  unfolding wrap_material
  put_wrap_key device authorization request_data generate = do
    request ← decode delegated_object_request request_data
    guard (not (generate && not (length request.material == 0))) wrong_length
    let header = request.header
    algorithm ← ok_or (Algorithm.from_byte header.algorithm) invalid_data
    require_enabled platform device (Algorithm.to_byte algorithm)
    key_length ← wrap_key_length algorithm
    id ← resolve_id device.objects platform.id_draws ObjectType.wrap_key header.requested_id
    object_length ← wrap_object_length algorithm key_length
    let info =
        new_info header ObjectType.wrap_key (Algorithm.to_byte algorithm) id (as_u16 object_length)
          (origin_of generate) request.delegated_capabilities
    authorize_create authorization info
        (if generate then Capability.generate_wrap_key else Capability.put_wrap_key)
    material ← wrap_material algorithm key_length generate request.material
    let object : ObjectRecord = record { info = info; material = material }
    Record.validate object
    updated ← if generate then write_object device object else write_imported_object device object
    ok (updated, to_be_bytes 2 id)

  unfoldable pub put_public_wrap_key :
      Device → SessionAuthorization → List ℕ → Result (Device × List ℕ)
  put_public_wrap_key device authorization request_data = do
    request ← decode delegated_object_request request_data
    let header = request.header
    algorithm ← ok_or (Algorithm.from_byte header.algorithm) invalid_data
    require_enabled platform device (Algorithm.to_byte algorithm)
    guard (is_rsa_key algorithm) invalid_data
    key_length ← ok_or (asymmetric_key_length algorithm) invalid_data
    guard (length request.material == key_length) wrong_length
    id ← resolve_id device.objects platform.id_draws ObjectType.public_wrap_key header.requested_id
    let info =
        new_info header ObjectType.public_wrap_key (Algorithm.to_byte algorithm) id
          (as_u16 (key_length + 8)) 2 request.delegated_capabilities
    authorize_create authorization info Capability.put_public_wrap_key
    let object : ObjectRecord = record { info = info; material = public request.material }
    Record.validate object
    updated ← write_object device object
    ok (updated, to_be_bytes 2 id)

  unfoldable pub put_otp_aead_key :
      Device → SessionAuthorization → List ℕ → Bool → Result (Device × List ℕ)
  put_otp_aead_key device authorization request_data generate = do
    request ← decode otp_aead_key_request request_data
    guard (not (generate && not (length request.material == 0))) wrong_length
    let header = request.header
    algorithm ← ok_or (Algorithm.from_byte header.algorithm) invalid_data
    require_enabled platform device (Algorithm.to_byte algorithm)
    key_length ← otp_key_length algorithm
    key ← sized_secret platform key_length generate request.material
    id ← resolve_id device.objects platform.id_draws ObjectType.otp_aead_key header.requested_id
    let info =
        new_info header ObjectType.otp_aead_key (Algorithm.to_byte algorithm) id
          (as_u16 (key_length + 4)) (origin_of generate) none_set
    authorize_create authorization info
        (if generate then Capability.generate_otp_aead_key else Capability.put_otp_aead_key)
    let object : ObjectRecord = record { info = info; material = otp_aead_key request.nonce_id key }
    Record.validate object
    updated ← write_object device object
    ok (updated, to_be_bytes 2 id)
