-- ===== src/Device/Wrapped/Codec.antt =====
-- crates/virtual-yubihsm-core/src/device.rs: the form in which an object leaves the device under a
-- wrap key: a CBOR array of eleven values. The CBOR codec is that of the platform.
use virtual_yubihsm.Prelude.{
  ℕ, Bool, true, false, not, ◌&&◌, ◌||◌, List, length, bit_and, bytes_eq, ltb, ◌==◌, if◌then◌else◌,
}
use virtual_yubihsm.Error.{
  Result, ok, err, ok_or, guard, ◌>>=◌, ◌>>◌, invalid_data, wrong_length, storage_failed,
}
use virtual_yubihsm.Keys.{Keys, Platform, CborValue, CborValues, no_more, value_then}
use virtual_yubihsm.Algorithm.{Algorithm, is_rsa_key}
use virtual_yubihsm.Algorithm
use virtual_yubihsm.Object.{ObjectInfo, ObjectType, type_byte, from_byte}
use virtual_yubihsm.Object.Material.{symmetric, asymmetric, ObjectMaterial}
use virtual_yubihsm.Object.Record.{ObjectRecord, normalize_info_length, is_some_rsa}
use virtual_yubihsm.Object.Record
use virtual_yubihsm.Device.Wrapped.{
  validate_wrapped_object, wrapped_u8, wrapped_u16, wrapped_bytes, wrapped_array, next, finished,
  count, exactly, is_schema, wrapped_object_schema, wrapped_object_version, wrapped_material_secret,
  wrapped_material_pkcs8, wrapped_material_opaque, wrapped_material_public,
  wrapped_material_authentication_symmetric, wrapped_material_authentication_asymmetric,
  wrapped_material_otp_aead,
}
use virtual_yubihsm.Device.Wrapped.Pkcs8.{asymmetric_pkcs8, asymmetric_material_from_pkcs8}

abbrev one_value : ℕ → List ℕ → CborValue
one_value kind value =
    CborValue.array
      (value_then (CborValue.integer kind) (value_then (CborValue.bytes value) no_more))

abbrev is_asymmetric : ObjectType → Bool
is_asymmetric ObjectType.asymmetric_key = true
is_asymmetric _ = false

abbrev is_wrap : ObjectType → Bool
is_wrap ObjectType.wrap_key = true
is_wrap _ = false

abbrev holds_secret : ObjectType → Bool
holds_secret ObjectType.wrap_key = true
holds_secret ObjectType.hmac_key = true
holds_secret ObjectType.symmetric_key = true
holds_secret _ = false

abbrev holds_opaque : ObjectType → Bool
holds_opaque ObjectType.opaque = true
holds_opaque ObjectType.template = true
holds_opaque _ = false

abbrev is_authentication : ObjectType → Bool
is_authentication ObjectType.authentication_key = true
is_authentication _ = false

abbrev is_otp_aead : ObjectType → Bool
is_otp_aead ObjectType.otp_aead_key = true
is_otp_aead _ = false

abbrev is_public_wrap : ObjectType → Bool
is_public_wrap ObjectType.public_wrap_key = true
is_public_wrap _ = false

module _ ⦃keys : Keys⦄ (platform : Platform) where
  abbrev pkcs8_value : ObjectRecord → Result CborValue
  pkcs8_value object = do
    encoded ← asymmetric_pkcs8 platform object
    ok (one_value wrapped_material_pkcs8 encoded)

  abbrev when : Bool → Result CborValue → Result CborValue
  when fits value = if fits then value else err invalid_data

  -- Each material with the types that may hold it.
  material_value : ObjectRecord → ObjectType → ObjectMaterial → Result CborValue
  material_value object object_type (ObjectMaterial.signing_key key) =
      when
        (is_asymmetric object_type
          || (is_wrap object_type && is_some_rsa (Algorithm.from_byte object.info.algorithm)))
        (pkcs8_value object)
  material_value object object_type (ObjectMaterial.montgomery_key key) =
      when (is_asymmetric object_type) (pkcs8_value object)
  material_value object object_type (ObjectMaterial.secret value) =
      when (holds_secret object_type) (ok (one_value wrapped_material_secret value))
  material_value object object_type (ObjectMaterial.opaque value) =
      when (holds_opaque object_type) (ok (one_value wrapped_material_opaque value))
  material_value object object_type (ObjectMaterial.public value) =
      when (is_public_wrap object_type) (ok (one_value wrapped_material_public value))
  material_value object object_type (ObjectMaterial.authentication (symmetric value)) =
      when (is_authentication object_type)
        (ok (one_value wrapped_material_authentication_symmetric value))
  material_value object object_type (ObjectMaterial.authentication (asymmetric value)) =
      when (is_authentication object_type)
        (ok (one_value wrapped_material_authentication_asymmetric value))
  material_value object object_type (ObjectMaterial.otp_aead_key nonce_id key) =
      when (is_otp_aead object_type) (
        ok (
          CborValue.array (
            value_then (CborValue.integer wrapped_material_otp_aead)
              (value_then (CborValue.bytes nonce_id) (value_then (CborValue.bytes key) no_more)))))
  material_value object object_type _ = err invalid_data

  unfoldable pub wrapped_material : ObjectRecord → Result CborValue
  unfolding material_value
  wrapped_material object = material_value object object.info.object_type object.material

  abbrev wrapped_fields : ObjectInfo → CborValue → CborValue
  wrapped_fields info material = CborValue.array (
      value_then (CborValue.text wrapped_object_schema) (
        value_then (CborValue.integer wrapped_object_version) (
          value_then (CborValue.integer (type_byte info.object_type)) (
            value_then (CborValue.integer info.id) (
              value_then (CborValue.integer info.domains) (
                value_then (CborValue.bytes info.capabilities) (
                  value_then (CborValue.integer info.algorithm) (
                    value_then (CborValue.integer (bit_and info.origin 0x0f)) (
                      value_then (CborValue.bytes info.label) (
                        value_then (CborValue.bytes info.delegated_capabilities)
                          (value_then material no_more)))))))))))

  unfoldable pub encode_wrapped_object : ObjectRecord → Result (List ℕ)
  unfolding wrapped_material
  encode_wrapped_object object = do
    validate_wrapped_object platform object
    material ← wrapped_material object
    output ← ok_or (platform.cbor_into_writer (wrapped_fields object.info material)) storage_failed
    guard (not (ltb 0xffff (length output))) wrong_length
    ok output

  -- The one value that most kinds of material have, and nothing behind it
  abbrev last_bytes : CborValues → Result (List ℕ)
  last_bytes values = do
    (value, rest) ← next values
    bytes ← wrapped_bytes value
    finished rest
    ok bytes

  pkcs8_material : Algorithm → CborValues → Result ObjectMaterial
  pkcs8_material algorithm values = do
    (value, rest) ← next values
    encoded ← wrapped_bytes value
    material ← asymmetric_material_from_pkcs8 platform algorithm encoded
    finished rest
    ok material

  otp_aead_values : CborValues → Result ObjectMaterial
  otp_aead_values values = do
    (first, second_on) ← next values
    nonce ← wrapped_bytes first
    nonce_id ← exactly 4 nonce
    (second, rest) ← next second_on
    key ← wrapped_bytes second
    finished rest
    ok (ObjectMaterial.otp_aead_key nonce_id key)

  abbrev only : (List ℕ → ObjectMaterial) → CborValues → Result ObjectMaterial
  only wrap values = last_bytes values >>= λ (bytes : List ℕ). ok (wrap bytes)

  material_of_kind : ObjectType → Algorithm → ℕ → CborValues → Result ObjectMaterial
  unfolding pkcs8_material otp_aead_values
  material_of_kind object_type algorithm kind values =
      if (kind == wrapped_material_secret)
        && (holds_secret object_type && not (is_wrap object_type && is_rsa_key algorithm))
      then only ObjectMaterial.secret values
      else if (kind == wrapped_material_pkcs8)
          && (is_asymmetric object_type || (is_wrap object_type && is_rsa_key algorithm))
      then pkcs8_material algorithm values
      else if (kind == wrapped_material_opaque) && holds_opaque object_type
      then only ObjectMaterial.opaque values
      else if (kind == wrapped_material_public) && is_public_wrap object_type
      then only ObjectMaterial.public values
      else if (kind == wrapped_material_authentication_symmetric) && is_authentication object_type
      then only (λ bytes. ObjectMaterial.authentication (symmetric bytes)) values
      else if (kind == wrapped_material_authentication_asymmetric) && is_authentication object_type
      then only (λ bytes. ObjectMaterial.authentication (asymmetric bytes)) values
      else if (kind == wrapped_material_otp_aead) && is_otp_aead object_type
      then otp_aead_values values
      else err invalid_data

  unfoldable pub decode_wrapped_material :
      ObjectType → Algorithm → CborValue → Result ObjectMaterial
  unfolding material_of_kind
  decode_wrapped_material object_type algorithm value = do
    values ← wrapped_array value
    (first, rest) ← next values
    kind ← wrapped_u8 first
    material_of_kind object_type algorithm kind rest

  -- The fields one after the other, and the record that they make.
  wrapped_record : CborValues → Result ObjectRecord
  unfolding decode_wrapped_material
  wrapped_record fields = do
    guard (count fields == 11) invalid_data
    (schema, from_version) ← next fields
    guard (is_schema schema) invalid_data
    (version_value, from_type) ← next from_version
    version ← wrapped_u8 version_value
    guard (version == wrapped_object_version) invalid_data
    (type_value, from_id) ← next from_type
    type_number ← wrapped_u8 type_value
    object_type ← ok_or (from_byte type_number) invalid_data
    (id_value, from_domains) ← next from_id
    id ← wrapped_u16 id_value
    (domains_value, from_capabilities) ← next from_domains
    domains ← wrapped_u16 domains_value
    (capabilities_value, from_algorithm) ← next from_capabilities
    capability_bytes ← wrapped_bytes capabilities_value
    capabilities ← exactly 8 capability_bytes
    (algorithm_value, from_origin) ← next from_algorithm
    algorithm_byte ← wrapped_u8 algorithm_value
    algorithm ← ok_or (Algorithm.from_byte algorithm_byte) invalid_data
    (origin_value, from_label) ← next from_origin
    origin ← wrapped_u8 origin_value
    guard (bit_and origin 0xf0 == 0) invalid_data
    (label_value, from_delegated) ← next from_label
    label ← wrapped_bytes label_value
    (delegated_value, from_material) ← next from_delegated
    delegated_bytes ← wrapped_bytes delegated_value
    delegated_capabilities ← exactly 8 delegated_bytes
    (material_field, nothing) ← next from_material
    material ← decode_wrapped_material object_type algorithm material_field
    ok (record {
      info = record {
        capabilities = capabilities;
        id = id;
        length = 0;
        domains = domains;
        object_type = object_type;
        algorithm = algorithm_byte;
        sequence = 0;
        origin = origin;
        label = label;
        delegated_capabilities = delegated_capabilities;
      };
      material = material;
    })

  -- Only the encoding of the record itself is accepted.
  check_canonical : ObjectRecord → List ℕ → Result ObjectRecord
  unfolding encode_wrapped_object
  check_canonical object encoded = do
    normalized ← normalize_info_length object
    Record.validate normalized
    again ← encode_wrapped_object normalized
    if not (bytes_eq again encoded) then err invalid_data else ok normalized

  unfoldable pub decode_wrapped_object : List ℕ → Result ObjectRecord
  unfolding wrapped_record check_canonical
  decode_wrapped_object encoded = do
    guard (not (ltb 0xffff (length encoded))) wrong_length
    (value, position) ← ok_or (platform.cbor_from_reader encoded) invalid_data
    guard (position == length encoded) invalid_data
    fields ← wrapped_array value
    object ← wrapped_record fields
    check_canonical object encoded
