-- ===== src/Device/Wrap.antt =====
-- crates/virtual-yubihsm-core/src/device.rs: the commands that wrap data and move objects under an
-- AES-CCM wrap key.
pub mod Rsa
pub mod RoundTrip
use virtual_yubihsm.Prelude.{
  ℕ, ◌+◌, Bool, true, false, not, ◌&&◌, ◌||◌, Option, none, some, List, [], ◌∷◌, ◌++◌, length, take,
  drop, get_or, to_be_bytes, bit_or, ltb, leb, ◌==◌, if◌then◌else◌,
}
use virtual_yubihsm.Prelude.OrderedMap.{get}
use virtual_yubihsm.Error.{
  Result, ok, err, ok_or, guard, ◌>>=◌, ◌>>◌, invalid_data, wrong_length, object_not_found,
}
use virtual_yubihsm.Keys.{Keys, Platform}
use virtual_yubihsm.Algorithm
use virtual_yubihsm.Wire.{decode}
use virtual_yubihsm.Object.{ObjectInfo, ObjectType, key_order, type_byte}
use virtual_yubihsm.Object.Record.{ObjectRecord}
use virtual_yubihsm.Object.Record
use virtual_yubihsm.Request.{id_remainder_request}
use virtual_yubihsm.Request.Keys.{export_wrapped_request, import_wrapped_request}
use virtual_yubihsm.Authorization.{SessionAuthorization, authorize_wrapped_creation}
use virtual_yubihsm.Device.State.{Device}
use virtual_yubihsm.Device.Store.{resolve_id, write_imported_object}
use virtual_yubihsm.Device.Tables.{holds_of, is_ccm_wrap}
use virtual_yubihsm.Device.Material.{object_secret}
use virtual_yubihsm.Device.Put.{random_bytes}
use virtual_yubihsm.Device.Use.{enabled_object}
use virtual_yubihsm.Device.Wrapped.Codec.{encode_wrapped_object, decode_wrapped_object}

-- `AES_CCM_NONCE_SIZE` and `AES_CCM_TAG_SIZE` of software-key-core
abbrev pub ccm_nonce_size : ℕ
ccm_nonce_size = 13

abbrev pub ccm_tag_size : ℕ
ccm_tag_size = 16

abbrev above_one : Option ℕ → Bool
above_one none = false
above_one (some format) = ltb 1 format

module _ ⦃keys : Keys⦄ (platform : Platform) where
  unfoldable pub ccm_wrap_key : Device → SessionAuthorization → ℕ → Result ObjectRecord
  ccm_wrap_key device authorization id = do
    object ← enabled_object platform device authorization ObjectType.wrap_key id
    guard (holds_of is_ccm_wrap (Algorithm.from_byte object.info.algorithm)) invalid_data
    ok object

  -- The nonce is drawn before the key is read.
  unfoldable pub ccm_wrap : ObjectRecord → List ℕ → Result (List ℕ)
  ccm_wrap wrap_key plaintext = do
    nonce ← random_bytes platform ccm_nonce_size
    key ← object_secret wrap_key
    encrypted ← ok_or (platform.encrypt_aes_ccm key nonce plaintext) invalid_data
    ok (1 ∷ nonce ++ encrypted)

  unfoldable pub wrap_data : Device → SessionAuthorization → List ℕ → Result (List ℕ)
  unfolding ccm_wrap_key ccm_wrap
  wrap_data device authorization request_data = do
    request ← decode id_remainder_request request_data
    object ← ccm_wrap_key device authorization request.id
    ccm_wrap object request.remainder

  unfoldable pub unwrap_data : Device → SessionAuthorization → List ℕ → Result (List ℕ)
  unfolding ccm_wrap_key
  unwrap_data device authorization request_data = do
    request ← decode id_remainder_request request_data
    let wrapped = request.remainder
    if ltb (length wrapped) (1 + ccm_nonce_size + ccm_tag_size) || not (get_or wrapped 0 0 == 1)
        then err wrong_length
        else (do
          object ← ccm_wrap_key device authorization request.id
          key ← object_secret object
          ok_or
              (platform.decrypt_aes_ccm key (take ccm_nonce_size (drop 1 wrapped))
                (drop (1 + ccm_nonce_size) wrapped))
              invalid_data)

  unfoldable pub export_wrapped : Device → SessionAuthorization → List ℕ → Result (List ℕ)
  unfolding ccm_wrap_key ccm_wrap
  export_wrapped device authorization request_data = do
    request ← decode export_wrapped_request request_data
    guard (not (above_one request.format)) wrong_length
    wrap_key ← ccm_wrap_key device authorization request.wrap_id
    target ← ok_or (get request.target device.objects) object_not_found
    plaintext ← encode_wrapped_object platform target
    ccm_wrap wrap_key plaintext

  -- What the two imports of a whole object do with it: an id of its own, the mark of an import, and
  -- the checks of the record.
  unfoldable pub store_imported : Device → ObjectRecord → Result (Device × List ℕ)
  store_imported device object = do
    id ← resolve_id device.objects platform.id_draws object.info.object_type object.info.id
    let imported : ObjectRecord = record object {
      info = record object.info { id = id; origin = bit_or object.info.origin 0x10 };
    }
    Record.validate imported
    updated ← write_imported_object device imported
    ok (updated, type_byte object.info.object_type ∷ to_be_bytes 2 id)

  unfoldable pub import_wrapped : Device → SessionAuthorization → List ℕ → Result (Device × List ℕ)
  unfolding ccm_wrap_key store_imported
  import_wrapped device authorization request_data = do
    request ← decode import_wrapped_request request_data
    if not (request.format == 1) || ltb (length request.ciphertext) ccm_tag_size
        then err wrong_length
        else (do
          wrap_key ← ccm_wrap_key device authorization request.wrap_id
          key ← object_secret wrap_key
          plaintext ←
              ok_or (platform.decrypt_aes_ccm key request.nonce request.ciphertext) invalid_data
          object ← decode_wrapped_object platform plaintext
          authorize_wrapped_creation authorization object.info wrap_key.info
          store_imported device object)
