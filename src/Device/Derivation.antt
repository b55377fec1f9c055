-- ===== src/Device/Derivation.antt =====
-- crates/virtual-yubihsm-core/src/device.rs: the nested commands on the volatile objects of a
-- session, which the session keeps and no other session sees.
pub mod Window
use virtual_yubihsm.Prelude.{
  ℕ, zero, suc, ◌+◌, ◌-◌, ◌*◌, ◌/◌, ◌%◌, ◌^◌, Bool, not, ◌&&◌, ◌||◌, List, [], ◌∷◌, ◌++◌, length,
  take, drop, get_or, bytes_eq, to_be_bytes, bit_and, bit_or, leb, ltb, ◌==◌, if◌then◌else◌, ◌⊎◌,
  inl, inr,
}
use virtual_yubihsm.Prelude.OrderedMap.{get, remove, nat_order}
use virtual_yubihsm.Error.{
  Result, ok, err, ok_or, guard, ◌>>=◌, ◌>>◌, invalid_data, wrong_length, storage_failed,
  object_not_found, insufficient_permissions,
}
use virtual_yubihsm.Keys.{Keys, Platform, KeyKind, EcCurve, HashAlgorithm, SoftwareSymmetricError}
use virtual_yubihsm.Algorithm.{Algorithm}
use virtual_yubihsm.Algorithm
use virtual_yubihsm.Capability.{Capability}
use virtual_yubihsm.Wire.{decode}
use virtual_yubihsm.Protocol.Nested.{SessionObjectCommand}
use virtual_yubihsm.Request.Nested.{
  session_object_request, SessionSourceRequest, volatile, persistent_asymmetric,
  persistent_symmetric, SessionResultHeader, generate_session_asymmetric_key_request,
  derive_session_ecdh_request, concatenate_session_keys_request, concatenate_session_data_request,
  extract_session_object_request, sha256_session_object_request, counter_kdf_session_object_request,
  handle_request, verify_session_cmac_request,
}
use virtual_yubihsm.SessionObject.{
  SessionObject, SessionObjects, is_aes, is_p256_private, secret, p256_object, secret_value,
  p256_key, public_key, insert_object, flag_readable, flag_derive, flag_verify,
}
use virtual_yubihsm.Session.{block_size}
use virtual_yubihsm.Authorization.{SessionAuthorization, authorize_use}
use virtual_yubihsm.Device.State.{Device}
use virtual_yubihsm.Device.Material.{signing_key, object_secret}
use virtual_yubihsm.Device.Use.{asymmetric_object}
use virtual_yubihsm.Device.Symmetric.{symmetric_object, as_byte}

-- `flags & flag == 0`
abbrev pub lacks_flag : ℕ → ℕ → Bool
lacks_flag flags flag = bit_and flags flag == 0

-- `!(FLAG_READABLE | FLAG_DERIVE | FLAG_VERIFY)` of a u8
unfoldable pub validate_session_flags : ℕ → Result (Unit {0})
validate_session_flags flags = guard (bit_and flags (255 - 7) == 0) invalid_data

unfoldable pub validate_session_result_header : SessionResultHeader → Result ℕ
unfolding validate_session_flags
validate_session_result_header header = do
  validate_session_flags header.flags
  guard (not (is_p256_private header.kind)) invalid_data
  if (header.output_length == 0) || ltb 1024 header.output_length
      then err wrong_length
      else ok header.output_length

-- One byte of the material read as a ring of bits, the highest bit of a byte first.
unfoldable pub extract_byte : List ℕ → ℕ → ℕ
extract_byte base position =
    let bit = position % (length base * 8) in
    let byte_index = bit / 8 in
    let shift = bit % 8 in
    if shift == 0
    then get_or base byte_index 0
    else bit_or (get_or base byte_index 0 * 2 ^ shift % 256)
        (get_or base ((byte_index + 1) % length base) 0 / 2 ^ (8 - shift))

-- `for index in 0..output_length`, from a bit position on
unfoldable pub extract_bytes : List ℕ → ℕ → ℕ → List ℕ
unfolding extract_byte
extract_bytes base position zero = []
extract_bytes base position (suc count) =
    extract_byte base position ∷ extract_bytes base (position + 8) count

-- `expected[..n].ct_eq(signature)` and the error of the MAC
abbrev cmac_output : SoftwareSymmetricError ⊎ List ℕ → Result (List ℕ)
cmac_output (inl error) = err invalid_data
cmac_output (inr mac) = ok mac

module _ ⦃keys : Keys⦄ where
  unfoldable pub session_derivation_secret : SessionObjects → ℕ → Result (List ℕ)
  session_derivation_secret objects handle = do
    object ← ok_or (get handle objects) object_not_found
    guard (not (lacks_flag object.flags flag_derive)) insufficient_permissions
    ok_or (secret_value object) invalid_data

  unfoldable pub read_session_object : SessionObjects → List ℕ → Result (List ℕ)
  read_session_object objects request_data = do
    handle ← decode handle_request request_data
    object ← ok_or (get handle objects) object_not_found
    guard (not (lacks_flag object.flags flag_readable)) insufficient_permissions
    ok_or (secret_value object) invalid_data

  unfoldable pub delete_session_object : SessionObjects → List ℕ → Result (SessionObjects × List ℕ)
  delete_session_object objects request_data = do
    handle ← decode handle_request request_data
    object ← ok_or (get handle objects) object_not_found
    ok (remove handle objects, [])

module _ ⦃keys : Keys⦄ (platform : Platform) where
  unfoldable pub verify_session_object : SessionObjects → List ℕ → Result (List ℕ)
  verify_session_object objects request_data = do
    request ← decode verify_session_cmac_request request_data
    object ← ok_or (get request.handle objects) object_not_found
    guard (is_aes object.kind && not (lacks_flag object.flags flag_verify)) insufficient_permissions
    key ← ok_or (secret_value object) invalid_data
    let size = length request.signature
    guard (leb 1 size && leb size block_size) wrong_length
    expected ← cmac_output (platform.aes_cmac key request.message)
    ok (as_byte (bytes_eq (take size expected) request.signature) ∷ [])

  abbrev volatile_key : SessionObject → Result keys.SigningKey
  volatile_key object = do
    guard (not (lacks_flag object.flags flag_derive)) insufficient_permissions
    ok_or (p256_key object) invalid_data

  ecdh_key :
      Device → SessionAuthorization → SessionObjects → SessionSourceRequest → Result keys.SigningKey
  ecdh_key device authorization objects (persistent_asymmetric id) = do
    object ← asymmetric_object platform device authorization id
    authorize_use authorization object.info Capability.derive_ecdh Capability.derive_ecdh
    signing_key object
  ecdh_key device authorization objects (volatile handle) =
      ok_or (get handle objects) object_not_found >>= volatile_key
  ecdh_key device authorization objects (persistent_symmetric id) = err invalid_data

  kdf_key : Device → SessionAuthorization → SessionObjects → SessionSourceRequest → Result (List ℕ)
  unfolding session_derivation_secret
  kdf_key device authorization objects (persistent_symmetric id) = do
    object ← symmetric_object platform device authorization id
    authorize_use authorization object.info Capability.encrypt_ecb Capability.encrypt_ecb
    object_secret object
  kdf_key device authorization objects (volatile handle) = session_derivation_secret objects handle
  kdf_key device authorization objects (persistent_asymmetric id) = err invalid_data

  -- The last bytes of the shared secret
  unfoldable pub session_ecdh :
      Device
      → SessionAuthorization
      → SessionObjects
      → List ℕ
      → Result (SessionResultHeader × List ℕ)
  unfolding validate_session_result_header ecdh_key
  session_ecdh device authorization objects payload = do
    request ← decode derive_session_ecdh_request payload
    output_length ← validate_session_result_header request.header
    key ← ecdh_key device authorization objects request.source
    value ← ok_or (platform.derive_with_signing_key key request.peer_public) invalid_data
    guard (leb output_length (length value)) wrong_length
    ok (request.header, drop (length value - output_length) value)

  -- `available` is at most a `usize`, since both parts are in memory.
  abbrev prefix_of : SessionResultHeader → ℕ → List ℕ → Result (SessionResultHeader × List ℕ)
  prefix_of header output_length material =
      if ltb (length material) output_length
      then err wrong_length
      else ok (header, take output_length material)

  unfoldable pub concatenate_keys : SessionObjects → List ℕ → Result (SessionResultHeader × List ℕ)
  unfolding validate_session_result_header session_derivation_secret
  concatenate_keys objects payload = do
    request ← decode concatenate_session_keys_request payload
    output_length ← validate_session_result_header request.header
    left ← session_derivation_secret objects request.left
    right ← session_derivation_secret objects request.right
    prefix_of request.header output_length (left ++ right)

  unfoldable pub concatenate_data : SessionObjects → List ℕ → Result (SessionResultHeader × List ℕ)
  unfolding validate_session_result_header session_derivation_secret
  concatenate_data objects payload = do
    request ← decode concatenate_session_data_request payload
    output_length ← validate_session_result_header request.header
    base ← session_derivation_secret objects request.base
    prefix_of request.header output_length (base ++ request.added)

  unfoldable pub extract : SessionObjects → List ℕ → Result (SessionResultHeader × List ℕ)
  unfolding validate_session_result_header session_derivation_secret extract_bytes
  extract objects payload = do
    request ← decode extract_session_object_request payload
    output_length ← validate_session_result_header request.header
    base ← session_derivation_secret objects request.base
    guard (ltb request.offset (length base * 8)) invalid_data
    guard (leb output_length (length base)) wrong_length
    ok (request.header, extract_bytes base request.offset output_length)

  unfoldable pub session_sha256 : SessionObjects → List ℕ → Result (SessionResultHeader × List ℕ)
  unfolding validate_session_result_header session_derivation_secret
  session_sha256 objects payload = do
    request ← decode sha256_session_object_request payload
    output_length ← validate_session_result_header request.header
    guard (leb output_length 32) wrong_length
    base ← session_derivation_secret objects request.base
    ok (request.header, take output_length (platform.digest HashAlgorithm.sha256 base))

  unfoldable pub counter_kdf :
      Device
      → SessionAuthorization
      → SessionObjects
      → List ℕ
      → Result (SessionResultHeader × List ℕ)
  unfolding validate_session_result_header kdf_key
  counter_kdf device authorization objects payload = do
    request ← decode counter_kdf_session_object_request payload
    output_length ← validate_session_result_header request.header
    key ← kdf_key device authorization objects request.source
    value ← ok_or (platform.cmac_counter_kdf key request.fields output_length) invalid_data
    ok (request.header, value)

  unfoldable pub generate_session_key : SessionObjects → List ℕ → Result (SessionObjects × List ℕ)
  unfolding validate_session_flags
  generate_session_key objects payload = do
    request ← decode generate_session_asymmetric_key_request payload
    validate_session_flags request.flags
    if not (request.algorithm == Algorithm.to_byte Algorithm.ec_p256)
          || lacks_flag request.flags flag_derive
        then err invalid_data
        else (do
          key ← ok_or (platform.generate_for_kind (KeyKind.ec EcCurve.p256)) storage_failed
          object ← ok_or (p256_object request.flags key) invalid_data
          public ← ok_or (public_key object) storage_failed
          (handle, updated) ←
              ok_or (insert_object platform.handle_draws object objects) storage_failed
          ok (updated, to_be_bytes 8 handle ++ public))

  abbrev pub derived :
      SessionObjects → Result (SessionResultHeader × List ℕ) → Result (SessionObjects × List ℕ)
  derived objects value = do
    (header, bytes) ← value
    object ← ok_or (secret header.kind header.flags bytes) invalid_data
    (handle, updated) ← ok_or (insert_object platform.handle_draws object objects) storage_failed
    ok (updated, to_be_bytes 8 handle)

  abbrev pub kept : SessionObjects → Result (List ℕ) → Result (SessionObjects × List ℕ)
  kept objects answer = answer >>= λ (bytes : List ℕ). ok (objects, bytes)

  unfoldable pub by_operation :
      Device
      → SessionAuthorization
      → SessionObjects
      → SessionObjectCommand
      → List ℕ
      → Result (SessionObjects × List ℕ)
  unfolding generate_session_key
  by_operation device authorization objects SessionObjectCommand.read payload =
      kept objects (read_session_object objects payload)
  by_operation device authorization objects SessionObjectCommand.verify_cmac payload =
      kept objects (verify_session_object objects payload)
  by_operation device authorization objects SessionObjectCommand.delete_object payload =
      delete_session_object objects payload
  by_operation device authorization objects SessionObjectCommand.generate_asymmetric_key payload =
      generate_session_key objects payload
  by_operation device authorization objects SessionObjectCommand.derive_ecdh payload =
      derived objects (session_ecdh device authorization objects payload)
  by_operation device authorization objects SessionObjectCommand.concatenate_key payload =
      derived objects (concatenate_keys objects payload)
  by_operation device authorization objects SessionObjectCommand.concatenate_data payload =
      derived objects (concatenate_data objects payload)
  by_operation device authorization objects SessionObjectCommand.extract payload =
      derived objects (extract objects payload)
  by_operation device authorization objects SessionObjectCommand.sha256 payload =
      derived objects (session_sha256 objects payload)
  by_operation device authorization objects SessionObjectCommand.counter_kdf payload =
      derived objects (counter_kdf device authorization objects payload)

  unfoldable pub session_object_command :
      Device → SessionAuthorization → SessionObjects → List ℕ → Result (SessionObjects × List ℕ)
  unfolding by_operation
  session_object_command device authorization objects request_data = do
    request ← decode session_object_request request_data
    by_operation device authorization objects request.operation request.payload
