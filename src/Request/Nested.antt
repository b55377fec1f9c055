-- ===== src/Request/Nested.antt =====
-- crates/virtual-yubihsm-core/src/request.rs: the requests of the nested session-object commands.
use virtual_yubihsm.Prelude.{
  ℕ, zero, suc, true, false, ◌||◌, List, [], ◌∷◌, length, ltb, ◌==◌, if◌then◌else◌,
}
use virtual_yubihsm.Error.{wrong_length, invalid_data}
use virtual_yubihsm.Keys.{CounterKdfField, IntegerFormat, LengthMethod}
use virtual_yubihsm.Wire.{
  Reader, pure, fail, required, ◌>>=◌, read_u8, read_u16, read_u64, read_u8_sized_slice,
  read_u16_sized_slice, read_remainder,
}
use virtual_yubihsm.SessionObject.{SessionObjectKind, kind_from_byte}
use virtual_yubihsm.Protocol.Nested.{SessionObjectCommand, from_byte}

pub record SessionObjectRequest : Type 0 where
  pub operation : SessionObjectCommand
  pub payload : List ℕ

unfoldable pub session_object_request : Reader SessionObjectRequest
session_object_request = do
  byte ← read_u8
  operation ← required (from_byte byte) invalid_data
  payload ← read_remainder
  pure (record { operation = operation; payload = payload })

pub data SessionSourceRequest : Type 0 where
  volatile : ℕ → SessionSourceRequest
  persistent_asymmetric : ℕ → SessionSourceRequest
  persistent_symmetric : ℕ → SessionSourceRequest

unfoldable pub session_source_request : Reader SessionSourceRequest
session_source_request = do
  tag ← read_u8
  if tag == 0
      then (do handle ← read_u64; pure (volatile handle))
      else if tag == 1
      then (do id ← read_u16; pure (persistent_asymmetric id))
      else if tag == 2
      then (do id ← read_u16; pure (persistent_symmetric id))
      else fail invalid_data

pub record SessionResultHeader : Type 0 where
  pub flags : ℕ
  pub kind : SessionObjectKind
  pub output_length : ℕ

unfoldable pub session_result_header : Reader SessionResultHeader
session_result_header = do
  flags ← read_u8
  byte ← read_u8
  kind ← required (kind_from_byte byte) invalid_data
  output_length ← read_u16
  pure (record { flags = flags; kind = kind; output_length = output_length })

pub record GenerateSessionAsymmetricKeyRequest : Type 0 where
  pub flags : ℕ
  pub algorithm : ℕ

unfoldable pub generate_session_asymmetric_key_request : Reader GenerateSessionAsymmetricKeyRequest
generate_session_asymmetric_key_request = do
  flags ← read_u8
  algorithm ← read_u8
  pure (record { flags = flags; algorithm = algorithm })

pub record DeriveSessionEcdhRequest : Type 0 where
  pub header : SessionResultHeader
  pub source : SessionSourceRequest
  pub peer_public : List ℕ

unfoldable pub derive_session_ecdh_request : Reader DeriveSessionEcdhRequest
derive_session_ecdh_request = do
  header ← session_result_header
  source ← session_source_request
  peer_public ← read_u16_sized_slice
  pure (record { header = header; source = source; peer_public = peer_public })

pub record ConcatenateSessionKeysRequest : Type 0 where
  pub header : SessionResultHeader
  pub left : ℕ
  pub right : ℕ

unfoldable pub concatenate_session_keys_request : Reader ConcatenateSessionKeysRequest
concatenate_session_keys_request = do
  header ← session_result_header
  left ← read_u64
  right ← read_u64
  pure (record { header = header; left = left; right = right })

pub record ConcatenateSessionDataRequest : Type 0 where
  pub header : SessionResultHeader
  pub base : ℕ
  pub added : List ℕ

unfoldable pub concatenate_session_data_request : Reader ConcatenateSessionDataRequest
concatenate_session_data_request = do
  header ← session_result_header
  base ← read_u64
  added ← read_remainder
  pure (record { header = header; base = base; added = added })

pub record ExtractSessionObjectRequest : Type 0 where
  pub header : SessionResultHeader
  pub base : ℕ
  pub offset : ℕ

unfoldable pub extract_session_object_request : Reader ExtractSessionObjectRequest
extract_session_object_request = do
  header ← session_result_header
  base ← read_u64
  offset ← read_u16
  pure (record { header = header; base = base; offset = offset })

pub record Sha256SessionObjectRequest : Type 0 where
  pub header : SessionResultHeader
  pub base : ℕ

unfoldable pub sha256_session_object_request : Reader Sha256SessionObjectRequest
sha256_session_object_request = do
  header ← session_result_header
  base ← read_u64
  pure (record { header = header; base = base })

-- One field of the fixed input of a counter-mode derivation, past its kind byte.
unfoldable pub counter_kdf_format : Reader IntegerFormat
counter_kdf_format = do
  width_bits ← read_u8
  order ← read_u8
  if order == 0
      then pure (record { width_bits = width_bits; little_endian = false })
      else if order == 1
      then pure (record { width_bits = width_bits; little_endian = true })
      else fail invalid_data

unfoldable pub length_method : Reader LengthMethod
length_method = do
  byte ← read_u8
  if byte == 0
      then pure LengthMethod.key
      else if byte == 1
      then pure LengthMethod.segments
      else fail invalid_data

unfoldable pub counter_kdf_field : Reader CounterKdfField
unfolding counter_kdf_format length_method
counter_kdf_field = do
  kind ← read_u8
  if kind == 0
      then (do
        value ← read_u16_sized_slice
        if length value == 0 then fail wrong_length else pure (CounterKdfField.bytes value))
      else if kind == 1
      then (do format ← counter_kdf_format; pure (CounterKdfField.counter format))
      else if kind == 2
      then (do
        format ← counter_kdf_format
        method ← length_method
        pure (CounterKdfField.length format method))
      else fail invalid_data

-- `for _ in 0..count`
unfoldable pub counter_kdf_fields : ℕ → Reader (List CounterKdfField)
unfolding counter_kdf_field
counter_kdf_fields zero = pure []
counter_kdf_fields (suc count) = do
  field ← counter_kdf_field
  fields ← counter_kdf_fields count
  pure (field ∷ fields)

pub record CounterKdfSessionObjectRequest : Type 0 where
  pub header : SessionResultHeader
  pub source : SessionSourceRequest
  pub fields : List CounterKdfField

unfoldable pub counter_kdf_session_object_request : Reader CounterKdfSessionObjectRequest
unfolding counter_kdf_fields
counter_kdf_session_object_request = do
  header ← session_result_header
  source ← session_source_request
  count ← read_u8
  if (count == 0) || ltb 64 count then fail invalid_data else (do
    fields ← counter_kdf_fields count
    pure (record { header = header; source = source; fields = fields }))

-- `ReadSessionObjectRequest` and `DeleteSessionObjectRequest`
unfoldable pub handle_request : Reader ℕ
handle_request = read_u64

pub record VerifySessionCmacRequest : Type 0 where
  pub handle : ℕ
  pub signature : List ℕ
  pub message : List ℕ

unfoldable pub verify_session_cmac_request : Reader VerifySessionCmacRequest
verify_session_cmac_request = do
  handle ← read_u64
  signature ← read_u8_sized_slice
  message ← read_remainder
  pure (record { handle = handle; signature = signature; message = message })
