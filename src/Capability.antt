-- ===== src/Capability.antt =====
-- crates/virtual-yubihsm-core/src/capability.rs: capability numbers and the eight-byte bitmap.
-- A `CapabilitySet` is its bytes, the most significant first.
pub mod Sets
use virtual_yubihsm.Prelude.{
  ℕ, ◌-◌, ◌/◌, ◌%◌, ◌^◌, ◌<◌, ◌≡◌, Bool, true, false, not, ◌&&◌, List, [], ◌∷◌, length, get_or, set,
  replicate, AreBytes, bit_and, bit_or, ◌==◌, if◌then◌else◌,
}
use virtual_yubihsm.Firmware.{
  FirmwareProfile, prefixed_ecdh, session_objects as has_session_objects, post_quantum,
}

pub data Capability : Type 0 where
  get_opaque put_opaque put_authentication_key : Capability
  put_asymmetric_key generate_asymmetric_key sign_pkcs : Capability
  sign_pss sign_ecdsa sign_eddsa : Capability
  decrypt_pkcs decrypt_oaep derive_ecdh : Capability
  export_wrapped import_wrapped put_wrap_key : Capability
  generate_wrap_key exportable_under_wrap set_option : Capability
  get_option get_pseudo_random put_mac_key : Capability
  generate_hmac_key sign_hmac verify_hmac : Capability
  get_log_entries sign_ssh_certificate get_template : Capability
  put_template reset_device decrypt_otp : Capability
  create_otp_aead randomize_otp_aead rewrap_from_otp_aead_key : Capability
  rewrap_to_otp_aead_key sign_attestation_certificate put_otp_aead_key : Capability
  generate_otp_aead_key wrap_data unwrap_data : Capability
  delete_opaque delete_authentication_key delete_asymmetric_key : Capability
  delete_wrap_key delete_hmac_key delete_template : Capability
  delete_otp_aead_key change_authentication_key put_symmetric_key : Capability
  generate_symmetric_key delete_symmetric_key decrypt_ecb : Capability
  encrypt_ecb decrypt_cbc encrypt_cbc : Capability
  put_public_wrap_key delete_public_wrap_key derive_ecdh_kdf : Capability
  session_objects sign_ml_dsa encapsulate_ml_kem : Capability
  decapsulate_ml_kem encapsulate_hybrid_kem decapsulate_hybrid_kem : Capability

-- `capability as usize`
unfoldable pub to_bit : Capability → ℕ
to_bit get_opaque = 0x00
to_bit put_opaque = 0x01
to_bit put_authentication_key = 0x02
to_bit put_asymmetric_key = 0x03
to_bit generate_asymmetric_key = 0x04
to_bit sign_pkcs = 0x05
to_bit sign_pss = 0x06
to_bit sign_ecdsa = 0x07
to_bit sign_eddsa = 0x08
to_bit decrypt_pkcs = 0x09
to_bit decrypt_oaep = 0x0a
to_bit derive_ecdh = 0x0b
to_bit export_wrapped = 0x0c
to_bit import_wrapped = 0x0d
to_bit put_wrap_key = 0x0e
to_bit generate_wrap_key = 0x0f
to_bit exportable_under_wrap = 0x10
to_bit set_option = 0x11
to_bit get_option = 0x12
to_bit get_pseudo_random = 0x13
to_bit put_mac_key = 0x14
to_bit generate_hmac_key = 0x15
to_bit sign_hmac = 0x16
to_bit verify_hmac = 0x17
to_bit get_log_entries = 0x18
to_bit sign_ssh_certificate = 0x19
to_bit get_template = 0x1a
to_bit put_template = 0x1b
to_bit reset_device = 0x1c
to_bit decrypt_otp = 0x1d
to_bit create_otp_aead = 0x1e
to_bit randomize_otp_aead = 0x1f
to_bit rewrap_from_otp_aead_key = 0x20
to_bit rewrap_to_otp_aead_key = 0x21
to_bit sign_attestation_certificate = 0x22
to_bit put_otp_aead_key = 0x23
to_bit generate_otp_aead_key = 0x24
to_bit wrap_data = 0x25
to_bit unwrap_data = 0x26
to_bit delete_opaque = 0x27
to_bit delete_authentication_key = 0x28
to_bit delete_asymmetric_key = 0x29
to_bit delete_wrap_key = 0x2a
to_bit delete_hmac_key = 0x2b
to_bit delete_template = 0x2c
to_bit delete_otp_aead_key = 0x2d
to_bit change_authentication_key = 0x2e
to_bit put_symmetric_key = 0x2f
to_bit generate_symmetric_key = 0x30
to_bit delete_symmetric_key = 0x31
to_bit decrypt_ecb = 0x32
to_bit encrypt_ecb = 0x33
to_bit decrypt_cbc = 0x34
to_bit encrypt_cbc = 0x35
to_bit put_public_wrap_key = 0x36
to_bit delete_public_wrap_key = 0x37
to_bit derive_ecdh_kdf = 0x38
to_bit session_objects = 0x39
to_bit sign_ml_dsa = 0x3a
to_bit encapsulate_ml_kem = 0x3b
to_bit decapsulate_ml_kem = 0x3c
to_bit encapsulate_hybrid_kem = 0x3d
to_bit decapsulate_hybrid_kem = 0x3e

-- `FirmwareProfile::compiled()` is the first argument.
unfoldable pub supported_by_firmware : FirmwareProfile → Capability → Bool
unfolding prefixed_ecdh has_session_objects post_quantum
supported_by_firmware profile derive_ecdh_kdf = prefixed_ecdh profile
supported_by_firmware profile session_objects = has_session_objects profile
supported_by_firmware profile sign_ml_dsa = post_quantum profile
supported_by_firmware profile encapsulate_ml_kem = post_quantum profile
supported_by_firmware profile decapsulate_ml_kem = post_quantum profile
supported_by_firmware profile encapsulate_hybrid_kem = post_quantum profile
supported_by_firmware profile decapsulate_hybrid_kem = post_quantum profile
supported_by_firmware profile _ = true

abbrev pub CapabilitySet : Type 0
CapabilitySet = List ℕ

-- `[u8; 8]`
pub record IsCapabilitySet (s : CapabilitySet) : Type 0 where
  pub eight : length s ≡ 8
  pub bytes : AreBytes s

abbrev pub none_set : CapabilitySet
none_set = replicate 8 0

abbrev pub all_set : CapabilitySet
all_set = replicate 8 0xff

unfoldable pub contains : CapabilitySet → Capability → Bool
unfolding to_bit
contains s capability =
    let bit = to_bit capability in not (bit_and (get_or s (7 - bit / 8) 0) (2 ^ (bit % 8)) == 0)

unfoldable pub contains_all : CapabilitySet → CapabilitySet → Bool
contains_all (available ∷ s) (required ∷ r) =
    (bit_and available required == required) && contains_all s r
contains_all _ _ = true

unfoldable pub is_subset_of : CapabilitySet → CapabilitySet → Bool
unfolding contains_all
is_subset_of s available = contains_all available s

unfoldable pub insert : CapabilitySet → Capability → CapabilitySet
unfolding to_bit
insert s capability =
    let bit = to_bit capability in
    set s (7 - bit / 8) (bit_or (get_or s (7 - bit / 8) 0) (2 ^ (bit % 8)))

-- `!(1 << k)` of a byte
unfoldable pub remove : CapabilitySet → Capability → CapabilitySet
unfolding to_bit
remove s capability =
    let bit = to_bit capability in
    set s (7 - bit / 8) (bit_and (get_or s (7 - bit / 8) 0) (2 ^ 8 - 1 - 2 ^ (bit % 8)))

insert_all : CapabilitySet → List Capability → CapabilitySet
unfolding insert
insert_all s [] = s
insert_all s (c ∷ cs) = insert_all (insert s c) cs

unfoldable pub from_capabilities : List Capability → CapabilitySet
unfolding insert_all
from_capabilities = insert_all none_set

abbrev extensions : List Capability
extensions =
    derive_ecdh_kdf ∷ session_objects ∷ sign_ml_dsa ∷ encapsulate_ml_kem ∷ decapsulate_ml_kem
    ∷ encapsulate_hybrid_kem ∷ decapsulate_hybrid_kem ∷ []

retain_supported : FirmwareProfile → CapabilitySet → List Capability → CapabilitySet
unfolding supported_by_firmware remove
retain_supported profile s [] = s
retain_supported profile s (c ∷ cs) =
    retain_supported profile (if not (supported_by_firmware profile c) then remove s c else s) cs

unfoldable pub retain_firmware_supported : FirmwareProfile → CapabilitySet → CapabilitySet
unfolding retain_supported
retain_firmware_supported profile s = retain_supported profile s extensions

unfoldable pub intersection : CapabilitySet → CapabilitySet → CapabilitySet
intersection (left ∷ s) (right ∷ r) = bit_and left right ∷ intersection s r
intersection _ _ = []
