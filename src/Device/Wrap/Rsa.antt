-- ===== src/Device/Wrap/Rsa.antt =====
-- crates/virtual-yubihsm-core/src/device.rs: the commands that move keys and objects under an RSA
-- wrap key.
use virtual_yubihsm.Prelude.{
  ℕ, ◌+◌, ◌-◌, Bool, true, false, not, ◌&&◌, List, [], ◌∷◌, ◌++◌, length, take, drop, contains,
  to_be_bytes, leb, ltb, ◌==◌, if◌then◌else◌,
}
use virtual_yubihsm.Prelude.OrderedMap.{get}
use virtual_yubihsm.Error.{
  Result, ok, err, ok_or, guard, ◌>>=◌, ◌>>◌, invalid_data, wrong_length, object_not_found,
}
use virtual_yubihsm.Firmware.{direct_rsa_wrap}
use virtual_yubihsm.Keys.{Keys, Platform, SoftwarePublicKey, RsaHashAlgorithm}
use virtual_yubihsm.Algorithm.{
  Algorithm, is_rsa_key, asymmetric_key_length, asymmetric_object_length, aes_key_length,
}
use virtual_yubihsm.Algorithm
use virtual_yubihsm.Capability.{none_set}
use virtual_yubihsm.Wire.{decode}
use virtual_yubihsm.Object.{ObjectInfo, ObjectType, key_order, type_byte}
use virtual_yubihsm.Object.Material.{ObjectMaterial, secret, material_length}
use virtual_yubihsm.Object.Record.{ObjectRecord, to_u16}
use virtual_yubihsm.Object.Record
use virtual_yubihsm.Request.Keys.{
  ExportRsaWrappedFields, export_rsa_wrapped_fields, import_rsa_wrapped_request,
  PutRsaWrappedKeyRequest, put_rsa_wrapped_key_request,
}
use virtual_yubihsm.Request.Filters.{trim_label}
use virtual_yubihsm.Authorization.{SessionAuthorization, authorize_wrapped_creation}
use virtual_yubihsm.Device.Options.{option_off}
use virtual_yubihsm.Device.State.{Device}
use virtual_yubihsm.Device.Store.{resolve_id, write_imported_object}
use virtual_yubihsm.Device.Tables.{
  holds_of, is_aes_key, rsa_oaep_hash, rsa_mgf_hash, rsa_wrap_aes_length,
}
use virtual_yubihsm.Device.Material.{signing_key, rsa_modulus_length, object_secret}
use virtual_yubihsm.Device.Put.{random_bytes, require_enabled}
use virtual_yubihsm.Device.Use.{enabled_object}
use virtual_yubihsm.Device.Wrapped.Pkcs8.{asymmetric_pkcs8, asymmetric_material_from_pkcs8}
use virtual_yubihsm.Device.Wrapped.Codec.{encode_wrapped_object, decode_wrapped_object}
use virtual_yubihsm.Device.Wrap.{store_imported}

abbrev is_symmetric : ObjectType → Bool
is_symmetric ObjectType.symmetric_key = true
is_symmetric _ = false

abbrev is_key_type : ObjectType → Bool
is_key_type ObjectType.asymmetric_key = true
is_key_type ObjectType.symmetric_key = true
is_key_type _ = false

module _ ⦃keys : Keys⦄ (platform : Platform) where
  unfoldable pub rsa_private_wrap_key : Device → SessionAuthorization → ℕ → Result ObjectRecord
  rsa_private_wrap_key device authorization id = do
    object ← enabled_object platform device authorization ObjectType.wrap_key id
    guard (holds_of is_rsa_key (Algorithm.from_byte object.info.algorithm)) invalid_data
    ok object

  unfoldable pub rsa_aes_wrap :
      SoftwarePublicKey → ℕ → List ℕ → List ℕ → RsaHashAlgorithm → Result (List ℕ)
  rsa_aes_wrap public_key aes_length plaintext label_digest mgf_hash = do
    aes_key ← random_bytes platform aes_length
    encrypted_key ←
        ok_or (platform.encrypt_rsa_oaep_digest public_key aes_key label_digest mgf_hash)
          invalid_data
    wrapped ← ok_or (platform.wrap_aes_kwp aes_key plaintext) invalid_data
    ok (encrypted_key ++ wrapped)

  unfoldable pub rsa_aes_unwrap :
      keys.SigningKey → List ℕ → ℕ → List ℕ → RsaHashAlgorithm → Result (List ℕ)
  rsa_aes_unwrap private_key wrapped modulus_length label_digest mgf_hash = do
    guard (ltb modulus_length (length wrapped)) wrong_length
    aes_key ←
        ok_or
          (platform.decrypt_rsa_oaep_digest private_key (take modulus_length wrapped) label_digest
            mgf_hash)
          invalid_data
    guard (contains (16 ∷ 24 ∷ 32 ∷ []) (length aes_key)) invalid_data
    ok_or (platform.unwrap_aes_kwp aes_key (drop modulus_length wrapped)) invalid_data

  abbrev wrap_public_key : ObjectMaterial → Result SoftwarePublicKey
  wrap_public_key (ObjectMaterial.public modulus) =
      ok (SoftwarePublicKey.rsa modulus (1 ∷ 0 ∷ 1 ∷ []))
  wrap_public_key _ = err invalid_data

  export_direct :
      Device → ExportRsaWrappedFields → Bool → ObjectRecord → ObjectRecord → Result (List ℕ)
  export_direct device request key_material_only wrap_key target = do
    guard (direct_rsa_wrap platform.profile) invalid_data
    guard (device.options.fips_mode == option_off) invalid_data
    guard (length request.label_hash == 0) wrong_length
    guard (key_material_only && is_symmetric request.target.object_type) invalid_data
    plaintext ← object_secret target
    public ← wrap_public_key wrap_key.material
    ok_or (platform.encrypt_rsa_pkcs1v15 public plaintext) invalid_data

  -- The plaintext: the key alone or the whole object
  abbrev key_plaintext : ObjectType → ObjectRecord → Result (List ℕ)
  key_plaintext ObjectType.asymmetric_key target = asymmetric_pkcs8 platform target
  key_plaintext ObjectType.symmetric_key target = object_secret target
  key_plaintext _ target = err invalid_data

  export_oaep : ExportRsaWrappedFields → Bool → ObjectRecord → ObjectRecord → Result (List ℕ)
  unfolding rsa_aes_wrap
  export_oaep request key_material_only wrap_key target = do
    oaep_hash ← rsa_oaep_hash request.oaep_hash
    guard (length request.label_hash == platform.rsa_hash_output_length oaep_hash) wrong_length
    guard (not (key_material_only && not (is_key_type request.target.object_type))) invalid_data
    aes_length ← rsa_wrap_aes_length request.aes_algorithm
    mgf_hash ← rsa_mgf_hash request.mgf_hash
    plaintext ←
        if key_material_only
        then key_plaintext request.target.object_type target
        else encode_wrapped_object platform target
    public ← wrap_public_key wrap_key.material
    rsa_aes_wrap public aes_length plaintext request.label_hash mgf_hash

  unfoldable pub export_rsa_wrapped :
      Device → SessionAuthorization → List ℕ → Bool → Result (List ℕ)
  unfolding export_direct export_oaep
  export_rsa_wrapped device authorization request_data key_material_only = do
    request ← decode export_rsa_wrapped_fields request_data
    wrap_key ←
        enabled_object platform device authorization ObjectType.public_wrap_key request.wrap_id
    target ← ok_or (get request.target device.objects) object_not_found
    if (request.aes_algorithm == 0) && ((request.oaep_hash == 0) && (request.mgf_hash == 0))
        then export_direct device request key_material_only wrap_key target
        else export_oaep request key_material_only wrap_key target

  unfoldable pub import_rsa_wrapped :
      Device → SessionAuthorization → List ℕ → Result (Device × List ℕ)
  unfolding rsa_private_wrap_key rsa_aes_unwrap
  import_rsa_wrapped device authorization request_data = do
    request ← decode import_rsa_wrapped_request request_data
    oaep_hash ← rsa_oaep_hash request.oaep_hash
    let label_length = platform.rsa_hash_output_length oaep_hash
    mgf_hash ← rsa_mgf_hash request.mgf_hash
    wrap_key ← rsa_private_wrap_key device authorization request.wrap_id
    modulus_length ← rsa_modulus_length wrap_key
    let whole = request.wrapped_and_label
    guard (leb (modulus_length + 16 + label_length) (length whole)) wrong_length
    let wrapped_end = length whole - label_length
    private ← signing_key wrap_key
    plaintext ←
        rsa_aes_unwrap private (take wrapped_end whole) modulus_length (drop wrapped_end whole)
          mgf_hash
    object ← decode_wrapped_object platform plaintext
    authorize_wrapped_creation authorization object.info wrap_key.info
    store_imported platform device object

  symmetric_import : Algorithm → List ℕ → Result (ObjectMaterial × ℕ)
  symmetric_import algorithm plaintext = do
    guard (is_aes_key algorithm) invalid_data
    key_length ← ok_or (aes_key_length algorithm) invalid_data
    guard (length plaintext == key_length) wrong_length
    ok (secret plaintext, key_length)

  unfoldable pub import_rsa_wrapped_key_material :
      ObjectType → Algorithm → List ℕ → Result (ObjectMaterial × ℕ)
  unfolding symmetric_import
  import_rsa_wrapped_key_material ObjectType.asymmetric_key algorithm plaintext = do
    material ← asymmetric_material_from_pkcs8 platform algorithm plaintext
    logical_length ← ok_or (asymmetric_key_length algorithm) invalid_data
    guard (material_length material == logical_length) invalid_data
    ok (material, logical_length)
  import_rsa_wrapped_key_material ObjectType.symmetric_key algorithm plaintext =
      symmetric_import algorithm plaintext
  import_rsa_wrapped_key_material _ algorithm plaintext = err invalid_data

  direct_plaintext : Device → PutRsaWrappedKeyRequest → ObjectRecord → ℕ → Result (List ℕ)
  direct_plaintext device request wrap_key modulus_length = do
    guard (direct_rsa_wrap platform.profile) invalid_data
    guard (device.options.fips_mode == option_off) invalid_data
    guard (is_symmetric request.object_type) invalid_data
    guard (length request.wrapped_and_label == modulus_length) wrong_length
    private ← signing_key wrap_key
    ok_or (platform.decrypt_rsa_pkcs1v15 private request.wrapped_and_label) invalid_data

  oaep_plaintext : PutRsaWrappedKeyRequest → ObjectRecord → ℕ → Result (List ℕ)
  unfolding rsa_aes_unwrap
  oaep_plaintext request wrap_key modulus_length = do
    oaep_hash ← rsa_oaep_hash request.oaep_hash
    let label_length = platform.rsa_hash_output_length oaep_hash
    mgf_hash ← rsa_mgf_hash request.mgf_hash
    let whole = request.wrapped_and_label
    guard (ltb (modulus_length + label_length) (length whole)) wrong_length
    let wrapped_end = length whole - label_length
    private ← signing_key wrap_key
    rsa_aes_unwrap private (take wrapped_end whole) modulus_length (drop wrapped_end whole) mgf_hash

  -- The logical length of the imported key
  abbrev imported_length : ObjectType → Algorithm → ℕ → Result ℕ
  imported_length ObjectType.asymmetric_key algorithm logical_length =
      ok_or (asymmetric_object_length algorithm) invalid_data
  imported_length ObjectType.symmetric_key algorithm logical_length = ok logical_length
  imported_length _ algorithm logical_length = err invalid_data

  abbrev imported_info : PutRsaWrappedKeyRequest → Algorithm → ℕ → ℕ → ObjectInfo
  imported_info request algorithm id length = record {
    capabilities = request.capabilities;
    id = id;
    length = length;
    domains = request.domains;
    object_type = request.object_type;
    algorithm = Algorithm.to_byte algorithm;
    sequence = 0;
    origin = 0x12;
    label = trim_label request.label;
    delegated_capabilities = none_set;
  }

  -- The plaintext of the request, under the RSA key or under an AES key that it wraps
  unwrapped : Device → PutRsaWrappedKeyRequest → ObjectRecord → ℕ → Result (List ℕ)
  unfolding direct_plaintext oaep_plaintext
  unwrapped device request wrap_key modulus_length =
      if (request.oaep_hash == 0) && (request.mgf_hash == 0)
      then direct_plaintext device request wrap_key modulus_length
      else oaep_plaintext request wrap_key modulus_length

  unfoldable pub put_rsa_wrapped_key :
      Device → SessionAuthorization → List ℕ → Result (Device × List ℕ)
  unfolding rsa_private_wrap_key unwrapped import_rsa_wrapped_key_material
  put_rsa_wrapped_key device authorization request_data = do
    request ← decode put_rsa_wrapped_key_request request_data
    guard (is_key_type request.object_type) invalid_data
    algorithm ← ok_or (Algorithm.from_byte request.algorithm) invalid_data
    require_enabled platform device (Algorithm.to_byte algorithm)
    wrap_key ← rsa_private_wrap_key device authorization request.wrap_id
    modulus_length ← rsa_modulus_length wrap_key
    plaintext ← unwrapped device request wrap_key modulus_length
    (material, logical_length) ←
        import_rsa_wrapped_key_material request.object_type algorithm plaintext
    id ← resolve_id device.objects platform.id_draws request.object_type request.requested_id
    object_length ← imported_length request.object_type algorithm logical_length
    size ← to_u16 object_length
    let info = imported_info request algorithm id size
    authorize_wrapped_creation authorization info wrap_key.info
    let object : ObjectRecord = record { info = info; material = material }
    Record.validate object
    updated ← write_imported_object device object
    ok (updated, type_byte request.object_type ∷ to_be_bytes 2 id)
