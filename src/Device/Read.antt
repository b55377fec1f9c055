-- ===== src/Device/Read.antt =====
-- crates/virtual-yubihsm-core/src/device.rs: the commands that read the device and its objects.
pub mod Listing
use virtual_yubihsm.Prelude.{
  ℕ, ◌+◌, ◌-◌, ◌%◌, ◌^◌, ◌&&◌, Option, none, some, List, [], ◌∷◌, ◌++◌, length, min, set,
  to_be_bytes, ◌==◌, if◌then◌else◌,
}
use virtual_yubihsm.Prelude.OrderedMap.{get}
use virtual_yubihsm.Error.{
  DeviceError, Result, ok, err, ok_or, map_err, ◌>>=◌, ◌>>◌, invalid_data, object_not_found,
  storage_failed,
}
use virtual_yubihsm.Keys.{Keys, Platform, SoftwarePublicKey}
use virtual_yubihsm.Capability.{retain_firmware_supported}
use virtual_yubihsm.Wire.{decode}
use virtual_yubihsm.Object.{ObjectType, key_order, type_byte, encode}
use virtual_yubihsm.Object.Material.{ObjectMaterial}
use virtual_yubihsm.Request.{
  empty_request, u16_request, object_key_request, get_device_info_request,
}
use virtual_yubihsm.Request.Filters.{ObjectFilters, object_filters, matches}
use virtual_yubihsm.Session.Secure.{authentication_algorithm_ec_p256}
use virtual_yubihsm.Authorization.{SessionAuthorization, can_see, require_visible}
use virtual_yubihsm.Device.Authorize.{key_of}
use virtual_yubihsm.Device.Options.Read.{enabled_algorithms}
use virtual_yubihsm.Device.State.{Device, Objects}
use virtual_yubihsm.Device.Put.{as_u16, random_bytes}

abbrev max_objects : ℕ
max_objects = 256

-- `map_err` of a request that ends early
abbrev data_error : DeviceError → DeviceError
data_error DeviceError.wrong_length = invalid_data
data_error error = error

module _ ⦃keys : Keys⦄ where
  list_matching : SessionAuthorization → ObjectFilters → Objects → List ℕ
  list_matching authorization filters [] = []
  list_matching authorization filters ((key, object) ∷ objects) =
      let rest = list_matching authorization filters objects in
      if can_see authorization object.info && matches filters object.info
      then to_be_bytes 2 object.info.id
        ++ (type_byte object.info.object_type ∷ object.info.sequence ∷ rest)
      else rest

  unfoldable pub list_objects : Device → SessionAuthorization → List ℕ → Result (List ℕ)
  unfolding list_matching
  list_objects device authorization request_data = do
    filters ← map_err data_error (decode object_filters request_data)
    ok (list_matching authorization filters device.objects)

  -- `1024 - used` is a subtraction of 16-bit numbers, which the source does not check.
  unfoldable pub get_storage_info : Device → List ℕ → Result (List ℕ)
  get_storage_info device request_data = do
    nothing ← decode empty_request request_data
    let used = as_u16 (length device.objects)
    ok (
        to_be_bytes 2 max_objects
        ++ (to_be_bytes 2 (as_u16 (max_objects - length device.objects))
            ++ (to_be_bytes 2 1024
                ++ (to_be_bytes 2 ((2 ^ 16 + 1024 - used) % 2 ^ 16) ++ to_be_bytes 2 126))))

  abbrev opaque_of : ObjectMaterial → Result (List ℕ)
  opaque_of (ObjectMaterial.opaque value) = ok value
  opaque_of _ = err invalid_data

  unfoldable pub get_opaque : Device → List ℕ → Result (List ℕ)
  get_opaque device request_data = do
    id ← decode u16_request request_data
    object ← ok_or (get (key_of ObjectType.opaque id) device.objects) object_not_found
    opaque_of object.material

  unfoldable pub get_template : Device → List ℕ → Result (List ℕ)
  get_template device request_data = do
    id ← decode u16_request request_data
    object ← ok_or (get (key_of ObjectType.template id) device.objects) object_not_found
    opaque_of object.material

  abbrev device_point : SoftwarePublicKey → Result (List ℕ)
  device_point (SoftwarePublicKey.ec point) = ok (set point 0 authentication_algorithm_ec_p256)
  device_point _ = err storage_failed

  unfoldable pub get_device_public_key : Device → List ℕ → Result (List ℕ)
  get_device_public_key device request_data = do
    nothing ← decode empty_request request_data
    device_point (keys.public_key device.device_static_private)

module _ ⦃keys : Keys⦄ (platform : Platform) where
  -- The metadata shows only the capabilities that the firmware has.
  unfoldable pub get_object_info : Device → SessionAuthorization → List ℕ → Result (List ℕ)
  get_object_info device authorization request_data = do
    key ← decode object_key_request request_data
    object ← ok_or (get key device.objects) object_not_found
    require_visible authorization object.info
    ok (
        encode (record object.info {
          capabilities = retain_firmware_supported platform.profile object.info.capabilities;
          delegated_capabilities =
              retain_firmware_supported platform.profile object.info.delegated_capabilities;
        }))

  unfoldable pub get_pseudo_random : List ℕ → Result (List ℕ)
  get_pseudo_random request_data = do
    size ← decode u16_request request_data
    random_bytes platform size

  abbrev device_info : Device → Option ℕ → Result (List ℕ)
  device_info device none = ok (
      device.config.version
      ++ (to_be_bytes 4 device.config.serial
          ++ (device.config.log_capacity
              ∷ min (length device.audit.entries) 0xff
              ∷ enabled_algorithms platform.profile device.config.algorithms device.options)))
  device_info device (some selector) =
      if selector == 1 then ok device.config.part_number else err invalid_data

  unfoldable pub get_device_info : Device → List ℕ → Result (List ℕ)
  get_device_info device request_data = do
    selector ← decode get_device_info_request request_data
    device_info device selector
