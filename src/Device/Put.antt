-- ===== src/Device/Put.antt =====
-- crates/virtual-yubihsm-core/src/device.rs: the commands that put and generate objects, but for
-- wrap keys and OTP AEAD keys. `generate` tells the two commands of a handler apart.
pub mod Wrap
use virtual_yubihsm.Prelude.{
  ℕ, ◌+◌, ◌%◌, ◌^◌, Bool, true, false, not, ◌&&◌, ◌||◌, Option, none, some, List, [], length,
  bytes_eq, to_be_bytes, ltb, ◌==◌, if◌then◌else◌,
}
use virtual_yubihsm.Prelude.OrderedMap.{get}
use virtual_yubihsm.Error.{
  Result, ok, err, ok_or, guard, ◌>>=◌, ◌>>◌, invalid_data, wrong_length, storage_failed,
  object_not_found,
}
use virtual_yubihsm.Keys.{Keys, Platform}
use virtual_yubihsm.Algorithm.{
  Algorithm, asymmetric_key_length, asymmetric_object_length, hmac_object_length, aes_key_length,
}
use virtual_yubihsm.Algorithm
use virtual_yubihsm.Capability.{Capability, CapabilitySet, none_set}
use virtual_yubihsm.Wire.{decode}
use virtual_yubihsm.Object.{ObjectInfo, ObjectType, key_order}
use virtual_yubihsm.Object.Material.{
  ObjectMaterial, authentication, secret, opaque, material_length,
}
use virtual_yubihsm.Object.Record.{ObjectRecord, option_bind, to_u16}
use virtual_yubihsm.Object.Record
use virtual_yubihsm.Request.{
  ObjectHeader, ObjectRequest, object_request, DelegatedObjectRequest, delegated_object_request,
}
use virtual_yubihsm.Request.Keys.{change_authentication_key_request}
use virtual_yubihsm.Request.Filters.{trim_label}
use virtual_yubihsm.Authorization.{SessionAuthorization, authorize_create}
use virtual_yubihsm.Device.Authorize.{key_of}
use virtual_yubihsm.Device.Options.Read.{require_algorithm_enabled}
use virtual_yubihsm.Device.State.{Device}
use virtual_yubihsm.Device.Store.{resolve_id, write_object, write_imported_object}
use virtual_yubihsm.Device.Tables.{authentication_key_length, hmac_length, is_aes_key}
use virtual_yubihsm.Device.Material.{parse_authentication_key_material, asymmetric_key_material}

abbrev opaque_data_algorithm : ℕ
opaque_data_algorithm = 30

-- `as u16`
abbrev pub as_u16 : ℕ → ℕ
as_u16 n = n % 2 ^ 16

-- The metadata of a new object, as every PUT command fills it in.
abbrev pub new_info : ObjectHeader → ObjectType → ℕ → ℕ → ℕ → ℕ → CapabilitySet → ObjectInfo
new_info header object_type algorithm id length origin delegated_capabilities = record {
  capabilities = header.capabilities;
  id = id;
  length = length;
  domains = header.domains;
  object_type = object_type;
  algorithm = algorithm;
  sequence = 0;
  origin = origin;
  label = trim_label header.label;
  delegated_capabilities = delegated_capabilities;
}

abbrev pub origin_of : Bool → ℕ
origin_of generate = if generate then 1 else 2

-- `algorithm.aes_key_length().filter(..)`
abbrev aes_length_of : Algorithm → Result ℕ
aes_length_of algorithm =
    if is_aes_key algorithm then ok_or (aes_key_length algorithm) invalid_data else err invalid_data

module _ ⦃keys : Keys⦄ (platform : Platform) where
  -- `getrandom::fill(..).map_err(|_| StorageFailed)`
  abbrev pub random_bytes : ℕ → Result (List ℕ)
  random_bytes n = ok_or (platform.fill n) storage_failed

  abbrev pub require_enabled : Device → ℕ → Result (Unit {0})
  require_enabled device =
      require_algorithm_enabled platform.profile device.config.algorithms device.options

  -- The object that a PUT of an opaque object replaces has to have the same metadata.
  unfoldable pub replace_opaque :
      Device → ObjectHeader → List ℕ → ObjectRecord → Result (Device × List ℕ)
  replace_opaque device header material existing =
      if not (bytes_eq existing.info.capabilities header.capabilities)
        || (not (existing.info.domains == header.domains)
            || (not (existing.info.algorithm == header.algorithm)
                || not (bytes_eq existing.info.label (trim_label header.label))))
      then err invalid_data
      else (do
        size ← to_u16 (length material)
        updated ← write_object device (record existing {
          info = record existing.info { length = size };
          material = opaque material;
        })
        ok (updated, to_be_bytes 2 header.requested_id))

  unfoldable pub new_opaque :
      Device → SessionAuthorization → ObjectHeader → List ℕ → Result (Device × List ℕ)
  new_opaque device authorization header material = do
    id ← resolve_id device.objects platform.id_draws ObjectType.opaque header.requested_id
    size ← to_u16 (length material)
    let info = new_info header ObjectType.opaque header.algorithm id size 2 none_set
    authorize_create authorization info Capability.put_opaque
    let object : ObjectRecord = record { info = info; material = opaque material }
    Record.validate object
    updated ← write_object device object
    ok (updated, to_be_bytes 2 id)

  -- `if requested_id != 0` and the lookup
  unfoldable pub existing_opaque : Device → ℕ → Option ObjectRecord
  existing_opaque device requested_id =
      if requested_id == 0 then none else get (key_of ObjectType.opaque requested_id) device.objects

  -- `if let Some(existing)`
  unfoldable pub replace_or_create :
      Device → SessionAuthorization → ObjectRequest → Option ObjectRecord → Result (Device × List ℕ)
  unfolding replace_opaque new_opaque
  replace_or_create device authorization request (some existing) =
      replace_opaque device request.header request.material existing
  replace_or_create device authorization request none =
      new_opaque device authorization request.header request.material

  unfoldable pub put_opaque : Device → SessionAuthorization → List ℕ → Result (Device × List ℕ)
  unfolding existing_opaque replace_or_create
  put_opaque device authorization request_data = do
    request ← decode object_request request_data
    require_enabled device request.header.algorithm
    if not (request.header.algorithm == opaque_data_algorithm) && (length request.material == 0)
        then err invalid_data
        else replace_or_create device authorization request
            (existing_opaque device request.header.requested_id)

  unfoldable pub put_authentication_key :
      Device → SessionAuthorization → List ℕ → Result (Device × List ℕ)
  put_authentication_key device authorization request_data = do
    request ← decode delegated_object_request request_data
    let header = request.header
    require_enabled device header.algorithm
    key_length ← authentication_key_length header.algorithm
    guard (length request.material == key_length) wrong_length
    id ←
        resolve_id device.objects platform.id_draws ObjectType.authentication_key
          header.requested_id
    let info =
        new_info header ObjectType.authentication_key header.algorithm id (as_u16 (key_length + 8))
          2 request.delegated_capabilities
    authorize_create authorization info Capability.put_authentication_key
    material ← parse_authentication_key_material platform header.algorithm request.material
    let object : ObjectRecord = record { info = info; material = authentication material }
    Record.validate object
    updated ← write_object device object
    ok (updated, to_be_bytes 2 id)

  unfoldable pub put_asymmetric_key :
      Device → SessionAuthorization → List ℕ → Bool → Result (Device × List ℕ)
  put_asymmetric_key device authorization request_data generate = do
    request ← decode object_request request_data
    let header = request.header
    guard (not (generate && not (length request.material == 0))) wrong_length
    algorithm ← ok_or (Algorithm.from_byte header.algorithm) invalid_data
    require_enabled device (Algorithm.to_byte algorithm)
    expected_length ← ok_or (asymmetric_key_length algorithm) invalid_data
    id ← resolve_id device.objects platform.id_draws ObjectType.asymmetric_key header.requested_id
    object_length ← ok_or (asymmetric_object_length algorithm) invalid_data
    let info =
        new_info header ObjectType.asymmetric_key (Algorithm.to_byte algorithm) id
          (as_u16 object_length) (origin_of generate) none_set
    authorize_create authorization info
        (if generate then Capability.generate_asymmetric_key else Capability.put_asymmetric_key)
    material ← asymmetric_key_material platform algorithm generate request.material
    guard (material_length material == expected_length) invalid_data
    let object : ObjectRecord = record { info = info; material = material }
    Record.validate object
    updated ← if generate then write_object device object else write_imported_object device object
    ok (updated, to_be_bytes 2 id)

  hmac_secret : ℕ → Bool → List ℕ → Result (List ℕ)
  hmac_secret generated_length generate supplied =
      if generate
      then random_bytes generated_length
      else if (length supplied == 0) || ltb 128 (length supplied)
      then err wrong_length
      else ok supplied

  unfoldable pub put_hmac_key :
      Device → SessionAuthorization → List ℕ → Bool → Result (Device × List ℕ)
  unfolding hmac_secret
  put_hmac_key device authorization request_data generate = do
    request ← decode object_request request_data
    let header = request.header
    guard (not (generate && not (length request.material == 0))) wrong_length
    require_enabled device header.algorithm
    generated_length ← hmac_length header.algorithm
    value ← hmac_secret generated_length generate request.material
    id ← resolve_id device.objects platform.id_draws ObjectType.hmac_key header.requested_id
    object_length ←
        ok_or (option_bind (Algorithm.from_byte header.algorithm) hmac_object_length) invalid_data
    let info =
        new_info header ObjectType.hmac_key header.algorithm id (as_u16 object_length)
          (origin_of generate) none_set
    authorize_create authorization info
        (if generate then Capability.generate_hmac_key else Capability.put_mac_key)
    let object : ObjectRecord = record { info = info; material = secret value }
    Record.validate object
    updated ← write_object device object
    ok (updated, to_be_bytes 2 id)

  -- A generated secret, or the supplied one if its length is that of the algorithm.
  abbrev pub sized_secret : ℕ → Bool → List ℕ → Result (List ℕ)
  sized_secret key_length generate supplied =
      if generate
      then random_bytes key_length
      else if not (length supplied == key_length)
      then err wrong_length
      else ok supplied

  unfoldable pub put_symmetric_key :
      Device → SessionAuthorization → List ℕ → Bool → Result (Device × List ℕ)
  put_symmetric_key device authorization request_data generate = do
    request ← decode object_request request_data
    let header = request.header
    guard (not (generate && not (length request.material == 0))) wrong_length
    algorithm ← ok_or (Algorithm.from_byte header.algorithm) invalid_data
    require_enabled device (Algorithm.to_byte algorithm)
    key_length ← aes_length_of algorithm
    value ← sized_secret key_length generate request.material
    id ← resolve_id device.objects platform.id_draws ObjectType.symmetric_key header.requested_id
    let info =
        new_info header ObjectType.symmetric_key (Algorithm.to_byte algorithm) id
          (as_u16 key_length) (origin_of generate) none_set
    authorize_create authorization info
        (if generate then Capability.generate_symmetric_key else Capability.put_symmetric_key)
    let object : ObjectRecord = record { info = info; material = secret value }
    Record.validate object
    updated ← write_object device object
    ok (updated, to_be_bytes 2 id)

  unfoldable pub put_template : Device → SessionAuthorization → List ℕ → Result (Device × List ℕ)
  put_template device authorization request_data = do
    request ← decode object_request request_data
    let header = request.header
    guard (not (length request.material == 0)) wrong_length
    guard (header.algorithm == Algorithm.to_byte Algorithm.template_ssh) invalid_data
    require_enabled device header.algorithm
    id ← resolve_id device.objects platform.id_draws ObjectType.template header.requested_id
    size ← to_u16 (length request.material)
    let info = new_info header ObjectType.template header.algorithm id size 2 none_set
    authorize_create authorization info Capability.put_template
    let object : ObjectRecord = record { info = info; material = opaque request.material }
    Record.validate object
    updated ← write_object device object
    ok (updated, to_be_bytes 2 id)

  unfoldable pub change_authentication_key : Device → List ℕ → Result (Device × List ℕ)
  change_authentication_key device request_data = do
    request ← decode change_authentication_key_request request_data
    require_enabled device request.algorithm
    key_length ← authentication_key_length request.algorithm
    guard (length request.material == key_length) wrong_length
    material ← parse_authentication_key_material platform request.algorithm request.material
    existing ←
        ok_or (get (key_of ObjectType.authentication_key request.id) device.objects)
          object_not_found
    updated ← write_object device (record existing {
      info = record existing.info {
        algorithm = request.algorithm;
        length = as_u16 (key_length + 8);
      };
      material = authentication material;
    })
    ok (updated, to_be_bytes 2 request.id)
