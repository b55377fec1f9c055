-- ===== src/Request/Keys.antt =====
-- crates/virtual-yubihsm-core/src/request.rs: the requests that use, export and import keys.
use virtual_yubihsm.Prelude.{ℕ, List, Option, none, some, length, ◌==◌, not, if◌then◌else◌}
use virtual_yubihsm.Error.{wrong_length, invalid_data}
use virtual_yubihsm.Wire.{
  Reader, pure, fail, required, ◌>>=◌, read_u8, read_u16, read_array, read_slice,
  read_u8_sized_slice, read_remainder, remaining_len,
}
use virtual_yubihsm.Capability.{CapabilitySet}
use virtual_yubihsm.Object.{ObjectKey, ObjectType, from_byte}

pub record SignPssRequest : Type 0 where
  pub id : ℕ
  pub mgf_hash : ℕ
  pub salt_length : ℕ
  pub digest : List ℕ

unfoldable pub sign_pss_request : Reader SignPssRequest
unfolding read_remainder
sign_pss_request = do
  id ← read_u16
  mgf_hash ← read_u8
  salt_length ← read_u16
  digest ← read_remainder
  pure (record { id = id; mgf_hash = mgf_hash; salt_length = salt_length; digest = digest })

pub record SignMlDsaRequest : Type 0 where
  pub prehash : Option (ℕ × ℕ)
  pub id : ℕ
  pub mode : ℕ
  pub context : List ℕ
  pub message : List ℕ

-- `MlDsaPrehash::from_id` and `digest_length` are the argument: the digest length of a hash id.
-- A prehash is kept as its id with its digest length.
prehash_of : (ℕ → Option ℕ) → ℕ → Reader (Option (ℕ × ℕ))
prehash_of digest_length hash =
    if hash == 0
    then pure none
    else (do n ← required (digest_length hash) invalid_data; pure (some (hash, n)))

abbrev digest_fits : Option (ℕ × ℕ) → List ℕ → Reader (Unit {0})
digest_fits none message = pure tt
digest_fits (some (hash, n)) message =
    if not (length message == n) then fail wrong_length else pure tt

unfoldable pub sign_ml_dsa_request : (ℕ → Option ℕ) → Reader SignMlDsaRequest
unfolding prehash_of read_remainder
sign_ml_dsa_request digest_length = do
  id ← read_u16
  mode ← read_u8
  hash ← read_u8
  prehash ← prehash_of digest_length hash
  context ← read_u8_sized_slice
  message ← read_remainder
  checked ← digest_fits prehash message
  pure (record { prehash = prehash; id = id; mode = mode; context = context; message = message })

-- `EncapsulateMlKemRequest`
unfoldable pub encapsulate_request : Reader ℕ
encapsulate_request = read_u16

pub record DeriveEcdhKdfRequest : Type 0 where
  pub id : ℕ
  pub hash : ℕ
  pub output_length : ℕ
  pub peer_public : List ℕ
  pub prefix : List ℕ
  pub shared_info : List ℕ

unfoldable pub derive_ecdh_kdf_request : Reader DeriveEcdhKdfRequest
derive_ecdh_kdf_request = do
  id ← read_u16
  hash ← read_u8
  output_length ← read_u16
  peer_length ← read_u16
  prefix_length ← read_u16
  info_length ← read_u16
  peer_public ← read_slice peer_length
  prefix ← read_slice prefix_length
  shared_info ← read_slice info_length
  pure (record {
    id = id;
    hash = hash;
    output_length = output_length;
    peer_public = peer_public;
    prefix = prefix;
    shared_info = shared_info;
  })

pub record DecryptOaepRequest : Type 0 where
  pub id : ℕ
  pub mgf_hash : ℕ
  pub ciphertext_and_label : List ℕ

unfoldable pub decrypt_oaep_request : Reader DecryptOaepRequest
unfolding read_remainder
decrypt_oaep_request = do
  id ← read_u16
  mgf_hash ← read_u8
  rest ← read_remainder
  pure (record { id = id; mgf_hash = mgf_hash; ciphertext_and_label = rest })

pub record AesCbcRequest : Type 0 where
  pub id : ℕ
  pub iv : List ℕ
  pub input : List ℕ

unfoldable pub aes_cbc_request : Reader AesCbcRequest
unfolding read_remainder
aes_cbc_request = do
  id ← read_u16
  iv ← read_array 16
  input ← read_remainder
  pure (record { id = id; iv = iv; input = input })

pub record ExportWrappedRequest : Type 0 where
  pub wrap_id : ℕ
  pub target : ObjectKey
  pub format : Option ℕ

format_byte : ℕ → Reader (Option ℕ)
format_byte n =
    if n == 0
    then pure none
    else if n == 1
    then (do format ← read_u8; pure (some format))
    else fail wrong_length

unfoldable pub export_wrapped_request : Reader ExportWrappedRequest
unfolding format_byte remaining_len
export_wrapped_request = do
  wrap_id ← read_u16
  byte ← read_u8
  object_type ← required (from_byte byte) invalid_data
  id ← read_u16
  n ← remaining_len
  format ← format_byte n
  pure (record {
    wrap_id = wrap_id;
    target = record { object_type = object_type; id = id };
    format = format;
  })

pub record ImportWrappedRequest : Type 0 where
  pub wrap_id : ℕ
  pub format : ℕ
  pub nonce : List ℕ
  pub ciphertext : List ℕ

unfoldable pub import_wrapped_request : Reader ImportWrappedRequest
unfolding read_remainder
import_wrapped_request = do
  wrap_id ← read_u16
  format ← read_u8
  nonce ← read_array 13
  ciphertext ← read_remainder
  pure (record { wrap_id = wrap_id; format = format; nonce = nonce; ciphertext = ciphertext })

pub record CreateOtpAeadRequest : Type 0 where
  pub id : ℕ
  pub credential : List ℕ

unfoldable pub create_otp_aead_request : Reader CreateOtpAeadRequest
create_otp_aead_request = do
  id ← read_u16
  credential ← read_array 22
  pure (record { id = id; credential = credential })

pub record DecryptOtpRequest : Type 0 where
  pub id : ℕ
  pub aead : List ℕ
  pub otp : List ℕ

unfoldable pub decrypt_otp_request : Reader DecryptOtpRequest
decrypt_otp_request = do
  id ← read_u16
  aead ← read_array 36
  otp ← read_array 16
  pure (record { id = id; aead = aead; otp = otp })

pub record RewrapOtpAeadRequest : Type 0 where
  pub from_id : ℕ
  pub to_id : ℕ
  pub aead : List ℕ

unfoldable pub rewrap_otp_aead_request : Reader RewrapOtpAeadRequest
rewrap_otp_aead_request = do
  from_id ← read_u16
  to_id ← read_u16
  aead ← read_array 36
  pure (record { from_id = from_id; to_id = to_id; aead = aead })

pub record SignAttestationCertificateRequest : Type 0 where
  pub target_id : ℕ
  pub attesting_id : ℕ

unfoldable pub sign_attestation_certificate_request : Reader SignAttestationCertificateRequest
sign_attestation_certificate_request = do
  target_id ← read_u16
  attesting_id ← read_u16
  pure (record { target_id = target_id; attesting_id = attesting_id })

pub record ChangeAuthenticationKeyRequest : Type 0 where
  pub id : ℕ
  pub algorithm : ℕ
  pub material : List ℕ

unfoldable pub change_authentication_key_request : Reader ChangeAuthenticationKeyRequest
unfolding read_remainder
change_authentication_key_request = do
  id ← read_u16
  algorithm ← read_u8
  material ← read_remainder
  pure (record { id = id; algorithm = algorithm; material = material })

pub record ExportRsaWrappedFields : Type 0 where
  pub wrap_id : ℕ
  pub target : ObjectKey
  pub aes_algorithm : ℕ
  pub oaep_hash : ℕ
  pub mgf_hash : ℕ
  pub label_hash : List ℕ

unfoldable pub export_rsa_wrapped_fields : Reader ExportRsaWrappedFields
unfolding read_remainder
export_rsa_wrapped_fields = do
  wrap_id ← read_u16
  byte ← read_u8
  object_type ← required (from_byte byte) invalid_data
  id ← read_u16
  aes_algorithm ← read_u8
  oaep_hash ← read_u8
  mgf_hash ← read_u8
  label_hash ← read_remainder
  pure (record {
    wrap_id = wrap_id;
    target = record { object_type = object_type; id = id };
    aes_algorithm = aes_algorithm;
    oaep_hash = oaep_hash;
    mgf_hash = mgf_hash;
    label_hash = label_hash;
  })

pub record ImportRsaWrappedRequest : Type 0 where
  pub wrap_id : ℕ
  pub oaep_hash : ℕ
  pub mgf_hash : ℕ
  pub wrapped_and_label : List ℕ

unfoldable pub import_rsa_wrapped_request : Reader ImportRsaWrappedRequest
unfolding read_remainder
import_rsa_wrapped_request = do
  wrap_id ← read_u16
  oaep_hash ← read_u8
  mgf_hash ← read_u8
  rest ← read_remainder
  pure (record {
    wrap_id = wrap_id;
    oaep_hash = oaep_hash;
    mgf_hash = mgf_hash;
    wrapped_and_label = rest;
  })

pub record PutRsaWrappedKeyRequest : Type 0 where
  pub wrap_id : ℕ
  pub object_type : ObjectType
  pub requested_id : ℕ
  pub label : List ℕ
  pub domains : ℕ
  pub capabilities : CapabilitySet
  pub algorithm : ℕ
  pub oaep_hash : ℕ
  pub mgf_hash : ℕ
  pub wrapped_and_label : List ℕ

unfoldable pub put_rsa_wrapped_key_request : Reader PutRsaWrappedKeyRequest
unfolding read_remainder
put_rsa_wrapped_key_request = do
  wrap_id ← read_u16
  byte ← read_u8
  object_type ← required (from_byte byte) invalid_data
  requested_id ← read_u16
  label ← read_array 40
  domains ← read_u16
  capabilities ← read_array 8
  algorithm ← read_u8
  oaep_hash ← read_u8
  mgf_hash ← read_u8
  rest ← read_remainder
  pure (record {
    wrap_id = wrap_id;
    object_type = object_type;
    requested_id = requested_id;
    label = label;
    domains = domains;
    capabilities = capabilities;
    algorithm = algorithm;
    oaep_hash = oaep_hash;
    mgf_hash = mgf_hash;
    wrapped_and_label = rest;
  })
