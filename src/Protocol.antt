-- ===== src/Protocol.antt =====
-- crates/virtual-yubihsm-core/src/protocol.rs: the command bytes and the capability that each
-- command needs on the session.
pub mod Nested
use virtual_yubihsm.Prelude.{
  ℕ, ◌≡◌, refl, sym, ap, ◌∙◌, ◌↔◌, Bool, true, false, Option, none, some, List, [], ◌∷◌, match_byte,
  code-match_byte, arith, ◌==◌,
}
use virtual_yubihsm.Firmware.{FirmwareProfile, prefixed_ecdh, session_objects, post_quantum}
use virtual_yubihsm.Capability.{Capability}

pub data CommandCode : Type 0 where
  echo create_session authenticate_session : CommandCode
  session_message get_device_info reset_device : CommandCode
  get_device_public_key session_object derive_ecdh_kdf : CommandCode
  sign_ml_dsa encapsulate_ml_kem decapsulate_ml_kem : CommandCode
  encapsulate_hybrid_kem decapsulate_hybrid_kem close_session : CommandCode
  get_storage_info put_opaque get_opaque : CommandCode
  put_authentication_key put_asymmetric_key generate_asymmetric_key : CommandCode
  sign_pkcs1 list_objects decrypt_pkcs1 : CommandCode
  export_wrapped import_wrapped put_wrap_key : CommandCode
  get_log_entries get_object_info set_option : CommandCode
  get_option get_pseudo_random put_hmac_key : CommandCode
  sign_hmac get_public_key sign_pss : CommandCode
  sign_ecdsa derive_ecdh delete_object : CommandCode
  decrypt_oaep generate_hmac_key generate_wrap_key : CommandCode
  verify_hmac sign_ssh_certificate put_template : CommandCode
  get_template decrypt_otp create_otp_aead : CommandCode
  randomize_otp_aead rewrap_otp_aead sign_attestation_certificate : CommandCode
  put_otp_aead_key generate_otp_aead_key set_log_index : CommandCode
  wrap_data unwrap_data sign_eddsa : CommandCode
  blink_device change_authentication_key put_symmetric_key : CommandCode
  generate_symmetric_key decrypt_ecb encrypt_ecb : CommandCode
  decrypt_cbc encrypt_cbc put_public_wrap_key : CommandCode
  get_rsa_wrapped_key put_rsa_wrapped_key export_rsa_wrapped : CommandCode
  import_rsa_wrapped : CommandCode

-- `command as u8`
unfoldable pub to_byte : CommandCode → ℕ
to_byte echo = 0x01
to_byte create_session = 0x03
to_byte authenticate_session = 0x04
to_byte session_message = 0x05
to_byte get_device_info = 0x06
to_byte reset_device = 0x08
to_byte get_device_public_key = 0x0a
to_byte session_object = 0x0b
to_byte derive_ecdh_kdf = 0x0c
to_byte sign_ml_dsa = 0x0d
to_byte encapsulate_ml_kem = 0x0e
to_byte decapsulate_ml_kem = 0x0f
to_byte encapsulate_hybrid_kem = 0x10
to_byte decapsulate_hybrid_kem = 0x11
to_byte close_session = 0x40
to_byte get_storage_info = 0x41
to_byte put_opaque = 0x42
to_byte get_opaque = 0x43
to_byte put_authentication_key = 0x44
to_byte put_asymmetric_key = 0x45
to_byte generate_asymmetric_key = 0x46
to_byte sign_pkcs1 = 0x47
to_byte list_objects = 0x48
to_byte decrypt_pkcs1 = 0x49
to_byte export_wrapped = 0x4a
to_byte import_wrapped = 0x4b
to_byte put_wrap_key = 0x4c
to_byte get_log_entries = 0x4d
to_byte get_object_info = 0x4e
to_byte set_option = 0x4f
to_byte get_option = 0x50
to_byte get_pseudo_random = 0x51
to_byte put_hmac_key = 0x52
to_byte sign_hmac = 0x53
to_byte get_public_key = 0x54
to_byte sign_pss = 0x55
to_byte sign_ecdsa = 0x56
to_byte derive_ecdh = 0x57
to_byte delete_object = 0x58
to_byte decrypt_oaep = 0x59
to_byte generate_hmac_key = 0x5a
to_byte generate_wrap_key = 0x5b
to_byte verify_hmac = 0x5c
to_byte sign_ssh_certificate = 0x5d
to_byte put_template = 0x5e
to_byte get_template = 0x5f
to_byte decrypt_otp = 0x60
to_byte create_otp_aead = 0x61
to_byte randomize_otp_aead = 0x62
to_byte rewrap_otp_aead = 0x63
to_byte sign_attestation_certificate = 0x64
to_byte put_otp_aead_key = 0x65
to_byte generate_otp_aead_key = 0x66
to_byte set_log_index = 0x67
to_byte wrap_data = 0x68
to_byte unwrap_data = 0x69
to_byte sign_eddsa = 0x6a
to_byte blink_device = 0x6b
to_byte change_authentication_key = 0x6c
to_byte put_symmetric_key = 0x6d
to_byte generate_symmetric_key = 0x6e
to_byte decrypt_ecb = 0x6f
to_byte encrypt_ecb = 0x70
to_byte decrypt_cbc = 0x71
to_byte encrypt_cbc = 0x72
to_byte put_public_wrap_key = 0x73
to_byte get_rsa_wrapped_key = 0x74
to_byte put_rsa_wrapped_key = 0x75
to_byte export_rsa_wrapped = 0x76
to_byte import_rsa_wrapped = 0x77

abbrev command_arms : List (ℕ × CommandCode)
command_arms =
    (0x01, echo)
    ∷ (0x03, create_session)
    ∷ (0x04, authenticate_session)
    ∷ (0x05, session_message)
    ∷ (0x06, get_device_info)
    ∷ (0x08, reset_device)
    ∷ (0x0a, get_device_public_key)
    ∷ (0x0b, session_object)
    ∷ (0x0c, derive_ecdh_kdf)
    ∷ (0x0d, sign_ml_dsa)
    ∷ (0x0e, encapsulate_ml_kem)
    ∷ (0x0f, decapsulate_ml_kem)
    ∷ (0x10, encapsulate_hybrid_kem)
    ∷ (0x11, decapsulate_hybrid_kem)
    ∷ (0x40, close_session)
    ∷ (0x41, get_storage_info)
    ∷ (0x42, put_opaque)
    ∷ (0x43, get_opaque)
    ∷ (0x44, put_authentication_key)
    ∷ (0x45, put_asymmetric_key)
    ∷ (0x46, generate_asymmetric_key)
    ∷ (0x47, sign_pkcs1)
    ∷ (0x48, list_objects)
    ∷ (0x49, decrypt_pkcs1)
    ∷ (0x4a, export_wrapped)
    ∷ (0x4b, import_wrapped)
    ∷ (0x4c, put_wrap_key)
    ∷ (0x4d, get_log_entries)
    ∷ (0x4e, get_object_info)
    ∷ (0x4f, set_option)
    ∷ (0x50, get_option)
    ∷ (0x51, get_pseudo_random)
    ∷ (0x52, put_hmac_key)
    ∷ (0x53, sign_hmac)
    ∷ (0x54, get_public_key)
    ∷ (0x55, sign_pss)
    ∷ (0x56, sign_ecdsa)
    ∷ (0x57, derive_ecdh)
    ∷ (0x58, delete_object)
    ∷ (0x59, decrypt_oaep)
    ∷ (0x5a, generate_hmac_key)
    ∷ (0x5b, generate_wrap_key)
    ∷ (0x5c, verify_hmac)
    ∷ (0x5d, sign_ssh_certificate)
    ∷ (0x5e, put_template)
    ∷ (0x5f, get_template)
    ∷ (0x60, decrypt_otp)
    ∷ (0x61, create_otp_aead)
    ∷ (0x62, randomize_otp_aead)
    ∷ (0x63, rewrap_otp_aead)
    ∷ (0x64, sign_attestation_certificate)
    ∷ (0x65, put_otp_aead_key)
    ∷ (0x66, generate_otp_aead_key)
    ∷ (0x67, set_log_index)
    ∷ (0x68, wrap_data)
    ∷ (0x69, unwrap_data)
    ∷ (0x6a, sign_eddsa)
    ∷ (0x6b, blink_device)
    ∷ (0x6c, change_authentication_key)
    ∷ (0x6d, put_symmetric_key)
    ∷ (0x6e, generate_symmetric_key)
    ∷ (0x6f, decrypt_ecb)
    ∷ (0x70, encrypt_ecb)
    ∷ (0x71, decrypt_cbc)
    ∷ (0x72, encrypt_cbc)
    ∷ (0x73, put_public_wrap_key)
    ∷ (0x74, get_rsa_wrapped_key)
    ∷ (0x75, put_rsa_wrapped_key)
    ∷ (0x76, export_rsa_wrapped)
    ∷ (0x77, import_rsa_wrapped)
    ∷ []

unfoldable pub from_byte : ℕ → Option CommandCode
from_byte = match_byte command_arms

-- `FirmwareProfile::compiled()` is the first argument.
unfoldable pub supported_by_firmware : FirmwareProfile → CommandCode → Bool
unfolding prefixed_ecdh session_objects post_quantum
supported_by_firmware profile derive_ecdh_kdf = prefixed_ecdh profile
supported_by_firmware profile session_object = session_objects profile
supported_by_firmware profile sign_ml_dsa = post_quantum profile
supported_by_firmware profile encapsulate_ml_kem = post_quantum profile
supported_by_firmware profile decapsulate_ml_kem = post_quantum profile
supported_by_firmware profile encapsulate_hybrid_kem = post_quantum profile
supported_by_firmware profile decapsulate_hybrid_kem = post_quantum profile
supported_by_firmware profile _ = true

unfoldable pub required_session_capability : CommandCode → Option Capability
required_session_capability put_opaque = some Capability.put_opaque
required_session_capability get_opaque = some Capability.get_opaque
required_session_capability put_authentication_key = some Capability.put_authentication_key
required_session_capability put_asymmetric_key = some Capability.put_asymmetric_key
required_session_capability generate_asymmetric_key = some Capability.generate_asymmetric_key
required_session_capability sign_pkcs1 = some Capability.sign_pkcs
required_session_capability decrypt_pkcs1 = some Capability.decrypt_pkcs
required_session_capability export_wrapped = some Capability.export_wrapped
required_session_capability export_rsa_wrapped = some Capability.export_wrapped
required_session_capability get_rsa_wrapped_key = some Capability.export_wrapped
required_session_capability import_wrapped = some Capability.import_wrapped
required_session_capability import_rsa_wrapped = some Capability.import_wrapped
required_session_capability put_wrap_key = some Capability.put_wrap_key
required_session_capability put_rsa_wrapped_key = some Capability.import_wrapped
required_session_capability get_log_entries = some Capability.get_log_entries
required_session_capability set_option = some Capability.set_option
required_session_capability set_log_index = some Capability.set_option
required_session_capability get_option = some Capability.get_option
required_session_capability get_pseudo_random = some Capability.get_pseudo_random
required_session_capability put_hmac_key = some Capability.put_mac_key
required_session_capability sign_hmac = some Capability.sign_hmac
required_session_capability sign_pss = some Capability.sign_pss
required_session_capability sign_ecdsa = some Capability.sign_ecdsa
required_session_capability derive_ecdh = some Capability.derive_ecdh
required_session_capability derive_ecdh_kdf = some Capability.derive_ecdh_kdf
required_session_capability session_object = some Capability.session_objects
required_session_capability decrypt_oaep = some Capability.decrypt_oaep
required_session_capability generate_hmac_key = some Capability.generate_hmac_key
required_session_capability generate_wrap_key = some Capability.generate_wrap_key
required_session_capability verify_hmac = some Capability.verify_hmac
required_session_capability sign_ssh_certificate = some Capability.sign_ssh_certificate
required_session_capability put_template = some Capability.put_template
required_session_capability get_template = some Capability.get_template
required_session_capability decrypt_otp = some Capability.decrypt_otp
required_session_capability create_otp_aead = some Capability.create_otp_aead
required_session_capability randomize_otp_aead = some Capability.randomize_otp_aead
required_session_capability sign_attestation_certificate =
    some Capability.sign_attestation_certificate
required_session_capability put_otp_aead_key = some Capability.put_otp_aead_key
required_session_capability generate_otp_aead_key = some Capability.generate_otp_aead_key
required_session_capability wrap_data = some Capability.wrap_data
required_session_capability unwrap_data = some Capability.unwrap_data
required_session_capability sign_eddsa = some Capability.sign_eddsa
required_session_capability sign_ml_dsa = some Capability.sign_ml_dsa
required_session_capability encapsulate_ml_kem = some Capability.encapsulate_ml_kem
required_session_capability decapsulate_ml_kem = some Capability.decapsulate_ml_kem
required_session_capability encapsulate_hybrid_kem = some Capability.encapsulate_hybrid_kem
required_session_capability decapsulate_hybrid_kem = some Capability.decapsulate_hybrid_kem
required_session_capability change_authentication_key = some Capability.change_authentication_key
required_session_capability put_symmetric_key = some Capability.put_symmetric_key
required_session_capability generate_symmetric_key = some Capability.generate_symmetric_key
required_session_capability decrypt_ecb = some Capability.decrypt_ecb
required_session_capability encrypt_ecb = some Capability.encrypt_ecb
required_session_capability decrypt_cbc = some Capability.decrypt_cbc
required_session_capability encrypt_cbc = some Capability.encrypt_cbc
required_session_capability put_public_wrap_key = some Capability.put_public_wrap_key
required_session_capability reset_device = some Capability.reset_device
required_session_capability _ = none

-- Every command has a byte that `from_byte` reads back.
pub from_byte-to_byte : (c : CommandCode) → from_byte (to_byte c) ≡ some c
unfolding from_byte to_byte
from_byte-to_byte echo = refl
from_byte-to_byte _ = refl

-- `from_byte` accepts no byte but that of the command it answers with.
pub to_byte-from_byte : (b : ℕ) {c : CommandCode} → from_byte b ≡ some c → to_byte c ≡ b
unfolding from_byte to_byte
to_byte-from_byte b h = code-match_byte to_byte command_arms b (omega arith) h

-- `from_byte` answers with a command exactly for that command's byte, so no byte has two commands
-- and every command is reached.
pub from_byte_iff : (b : ℕ) (c : CommandCode) → (from_byte b ≡ some c) ↔ (to_byte c ≡ b)
from_byte_iff b c = (λ h. to_byte-from_byte b h, λ h. ap from_byte (sym h) ∙ from_byte-to_byte c)
