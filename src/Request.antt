-- ===== src/Request.antt =====
-- crates/virtual-yubihsm-core/src/request.rs: the typed requests of the commands. The source's
-- macros declare many request types of one shape; each shape is one reader here.
pub mod Keys
pub mod Filters
pub mod Nested
use virtual_yubihsm.Prelude.{
  ℕ, zero, suc, List, Option, none, some, length, ◌==◌, not, if◌then◌else◌,
}
use virtual_yubihsm.Error.{wrong_length, invalid_data}
use virtual_yubihsm.Wire.{
  Reader, pure, fail, required, ◌>>=◌, read_u8, read_u16, read_array, read_slice,
  read_u8_sized_slice, read_u16_sized_slice, read_remainder, remaining_len,
}
use virtual_yubihsm.Capability.{CapabilitySet}
use virtual_yubihsm.Object.{ObjectKey, ObjectType, asymmetric_key, from_byte}

-- `empty_requests!`
unfoldable pub empty_request : Reader (Unit {0})
empty_request = pure tt

-- `remainder_requests!`
unfoldable pub remainder_request : Reader (List ℕ)
unfolding read_remainder
remainder_request = read_remainder

-- `u8_requests!`
unfoldable pub u8_request : Reader ℕ
unfolding read_u8
u8_request = read_u8

-- `u16_requests!`
unfoldable pub u16_request : Reader ℕ
unfolding read_u16
u16_request = read_u16

pub record IdRemainder : Type 0 where
  pub id : ℕ
  pub remainder : List ℕ

-- `id_remainder_requests!`
unfoldable pub id_remainder_request : Reader IdRemainder
unfolding read_remainder
id_remainder_request = do
  id ← read_u16
  remainder ← read_remainder
  pure (record { id = id; remainder = remainder })

unfoldable pub get_device_info_request : Reader (Option ℕ)
unfolding remaining_len
get_device_info_request = do
  n ← remaining_len
  if n == 0
      then pure none
      else if n == 1
      then (do selector ← read_u8; pure (some selector))
      else fail invalid_data

pub record CreateSessionRequest : Type 0 where
  pub authentication_key_id : ℕ
  pub host_challenge_or_public_key : List ℕ

unfoldable pub create_session_request : Reader CreateSessionRequest
unfolding read_remainder
create_session_request = do
  id ← read_u16
  rest ← read_remainder
  pure (record { authentication_key_id = id; host_challenge_or_public_key = rest })

pub record SessionEnvelopeRequest : Type 0 where
  pub session_id : ℕ
  pub body : List ℕ

unfoldable pub session_envelope_request : Reader SessionEnvelopeRequest
unfolding read_remainder
session_envelope_request = do
  id ← read_u8
  rest ← read_remainder
  pure (record { session_id = id; body = rest })

unfoldable pub object_key_request : Reader ObjectKey
object_key_request = do
  id ← read_u16
  byte ← read_u8
  object_type ← required (from_byte byte) invalid_data
  pure (record { object_type = object_type; id = id })

unfoldable pub get_public_key_request : Reader ObjectKey
unfolding remaining_len
get_public_key_request = do
  id ← read_u16
  n ← remaining_len
  if n == 0
      then pure (record { object_type = asymmetric_key; id = id })
      else if n == 1
      then (do
        byte ← read_u8
        object_type ← required (from_byte byte) invalid_data
        pure (record { object_type = object_type; id = id }))
      else fail wrong_length

pub record SetOptionRequest : Type 0 where
  pub option : ℕ
  pub values : List ℕ

unfoldable pub set_option_request : Reader SetOptionRequest
set_option_request = do
  option ← read_u8
  values ← read_u16_sized_slice
  pure (record { option = option; values = values })

pub record ObjectHeader : Type 0 where
  pub requested_id : ℕ
  pub label : List ℕ
  pub domains : ℕ
  pub capabilities : CapabilitySet
  pub algorithm : ℕ

unfoldable pub object_header : Reader ObjectHeader
object_header = do
  requested_id ← read_u16
  label ← read_array 40
  domains ← read_u16
  capabilities ← read_array 8
  algorithm ← read_u8
  pure (record {
    requested_id = requested_id;
    label = label;
    domains = domains;
    capabilities = capabilities;
    algorithm = algorithm;
  })

pub record ObjectRequest : Type 0 where
  pub header : ObjectHeader
  pub material : List ℕ

-- `object_requests!`
unfoldable pub object_request : Reader ObjectRequest
unfolding read_remainder
object_request = do
  header ← object_header
  material ← read_remainder
  pure (record { header = header; material = material })

pub record DelegatedObjectRequest : Type 0 where
  pub header : ObjectHeader
  pub delegated_capabilities : CapabilitySet
  pub material : List ℕ

unfoldable pub delegated_object_request : Reader DelegatedObjectRequest
unfolding read_remainder
delegated_object_request = do
  header ← object_header
  delegated ← read_array 8
  material ← read_remainder
  pure (record { header = header; delegated_capabilities = delegated; material = material })

pub record OtpAeadKeyRequest : Type 0 where
  pub header : ObjectHeader
  pub nonce_id : List ℕ
  pub material : List ℕ

unfoldable pub otp_aead_key_request : Reader OtpAeadKeyRequest
unfolding read_remainder
otp_aead_key_request = do
  header ← object_header
  nonce_id ← read_array 4
  material ← read_remainder
  pure (record { header = header; nonce_id = nonce_id; material = material })
