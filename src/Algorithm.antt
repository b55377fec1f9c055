-- ===== src/Algorithm.antt =====
-- crates/virtual-yubihsm-core/src/algorithm.rs: algorithm identifiers and the lengths they fix.
pub mod Official
use virtual_yubihsm.Prelude.{
  ℕ, ◌≡◌, Bool, true, false, ◌||◌, Option, none, some, List, [], ◌∷◌, match_byte, ltb, ◌==◌,
  if◌then◌else◌, refl,
}
use virtual_yubihsm.Keys.{MlDsaParameterSet, MlKemParameterSet, HybridKemConstruction}
use virtual_yubihsm.Firmware.{FirmwareProfile, extended_curves, post_quantum}

pub data Algorithm : Type 0 where
  rsa_pkcs1_sha1 rsa_pkcs1_sha256 rsa_pkcs1_sha384 : Algorithm
  rsa_pkcs1_sha512 rsa_pss_sha1 rsa_pss_sha256 : Algorithm
  rsa_pss_sha384 rsa_pss_sha512 rsa2048 : Algorithm
  rsa3072 rsa4096 ec_p256 : Algorithm
  ec_p384 ec_p521 ec_k256 : Algorithm
  ec_brainpool_p256 ec_brainpool_p384 ec_brainpool_p512 : Algorithm
  hmac_sha1 hmac_sha256 hmac_sha384 : Algorithm
  hmac_sha512 ecdsa_sha1 ecdh : Algorithm
  rsa_oaep_sha1 rsa_oaep_sha256 rsa_oaep_sha384 : Algorithm
  rsa_oaep_sha512 aes128_ccm_wrap opaque_data : Algorithm
  opaque_x509_certificate mgf1_sha1 mgf1_sha256 : Algorithm
  mgf1_sha384 mgf1_sha512 template_ssh : Algorithm
  aes128_yubico_otp aes128_yubico_authentication aes192_yubico_otp : Algorithm
  aes256_yubico_otp aes192_ccm_wrap aes256_ccm_wrap : Algorithm
  ecdsa_sha256 ecdsa_sha384 ecdsa_sha512 : Algorithm
  ed25519 ec_p224 rsa_pkcs1_decrypt : Algorithm
  ec_p256_yubico_authentication aes128 aes192 : Algorithm
  aes256 aes_ecb aes_cbc : Algorithm
  aes_kwp x25519 x448 : Algorithm
  ed448 ml_dsa44 ml_dsa65 : Algorithm
  ml_dsa87 ml_kem512 ml_kem768 : Algorithm
  ml_kem1024 hybrid_ml_kem768_p256 hybrid_ml_kem768_x25519 : Algorithm
  hybrid_ml_kem1024_p384 : Algorithm

-- `algorithm as u8`
unfoldable pub to_byte : Algorithm → ℕ
to_byte rsa_pkcs1_sha1 = 1
to_byte rsa_pkcs1_sha256 = 2
to_byte rsa_pkcs1_sha384 = 3
to_byte rsa_pkcs1_sha512 = 4
to_byte rsa_pss_sha1 = 5
to_byte rsa_pss_sha256 = 6
to_byte rsa_pss_sha384 = 7
to_byte rsa_pss_sha512 = 8
to_byte rsa2048 = 9
to_byte rsa3072 = 10
to_byte rsa4096 = 11
to_byte ec_p256 = 12
to_byte ec_p384 = 13
to_byte ec_p521 = 14
to_byte ec_k256 = 15
to_byte ec_brainpool_p256 = 16
to_byte ec_brainpool_p384 = 17
to_byte ec_brainpool_p512 = 18
to_byte hmac_sha1 = 19
to_byte hmac_sha256 = 20
to_byte hmac_sha384 = 21
to_byte hmac_sha512 = 22
to_byte ecdsa_sha1 = 23
to_byte ecdh = 24
to_byte rsa_oaep_sha1 = 25
to_byte rsa_oaep_sha256 = 26
to_byte rsa_oaep_sha384 = 27
to_byte rsa_oaep_sha512 = 28
to_byte aes128_ccm_wrap = 29
to_byte opaque_data = 30
to_byte opaque_x509_certificate = 31
to_byte mgf1_sha1 = 32
to_byte mgf1_sha256 = 33
to_byte mgf1_sha384 = 34
to_byte mgf1_sha512 = 35
to_byte template_ssh = 36
to_byte aes128_yubico_otp = 37
to_byte aes128_yubico_authentication = 38
to_byte aes192_yubico_otp = 39
to_byte aes256_yubico_otp = 40
to_byte aes192_ccm_wrap = 41
to_byte aes256_ccm_wrap = 42
to_byte ecdsa_sha256 = 43
to_byte ecdsa_sha384 = 44
to_byte ecdsa_sha512 = 45
to_byte ed25519 = 46
to_byte ec_p224 = 47
to_byte rsa_pkcs1_decrypt = 48
to_byte ec_p256_yubico_authentication = 49
to_byte aes128 = 50
to_byte aes192 = 51
to_byte aes256 = 52
to_byte aes_ecb = 53
to_byte aes_cbc = 54
to_byte aes_kwp = 55
to_byte x25519 = 56
to_byte x448 = 57
to_byte ed448 = 58
to_byte ml_dsa44 = 59
to_byte ml_dsa65 = 60
to_byte ml_dsa87 = 61
to_byte ml_kem512 = 62
to_byte ml_kem768 = 63
to_byte ml_kem1024 = 64
to_byte hybrid_ml_kem768_p256 = 65
to_byte hybrid_ml_kem768_x25519 = 66
to_byte hybrid_ml_kem1024_p384 = 67

-- What `transmute` makes of the bytes 1 to 67.
abbrev algorithm_arms : List (ℕ × Algorithm)
algorithm_arms =
    (1, rsa_pkcs1_sha1)
    ∷ (2, rsa_pkcs1_sha256)
    ∷ (3, rsa_pkcs1_sha384)
    ∷ (4, rsa_pkcs1_sha512)
    ∷ (5, rsa_pss_sha1)
    ∷ (6, rsa_pss_sha256)
    ∷ (7, rsa_pss_sha384)
    ∷ (8, rsa_pss_sha512)
    ∷ (9, rsa2048)
    ∷ (10, rsa3072)
    ∷ (11, rsa4096)
    ∷ (12, ec_p256)
    ∷ (13, ec_p384)
    ∷ (14, ec_p521)
    ∷ (15, ec_k256)
    ∷ (16, ec_brainpool_p256)
    ∷ (17, ec_brainpool_p384)
    ∷ (18, ec_brainpool_p512)
    ∷ (19, hmac_sha1)
    ∷ (20, hmac_sha256)
    ∷ (21, hmac_sha384)
    ∷ (22, hmac_sha512)
    ∷ (23, ecdsa_sha1)
    ∷ (24, ecdh)
    ∷ (25, rsa_oaep_sha1)
    ∷ (26, rsa_oaep_sha256)
    ∷ (27, rsa_oaep_sha384)
    ∷ (28, rsa_oaep_sha512)
    ∷ (29, aes128_ccm_wrap)
    ∷ (30, opaque_data)
    ∷ (31, opaque_x509_certificate)
    ∷ (32, mgf1_sha1)
    ∷ (33, mgf1_sha256)
    ∷ (34, mgf1_sha384)
    ∷ (35, mgf1_sha512)
    ∷ (36, template_ssh)
    ∷ (37, aes128_yubico_otp)
    ∷ (38, aes128_yubico_authentication)
    ∷ (39, aes192_yubico_otp)
    ∷ (40, aes256_yubico_otp)
    ∷ (41, aes192_ccm_wrap)
    ∷ (42, aes256_ccm_wrap)
    ∷ (43, ecdsa_sha256)
    ∷ (44, ecdsa_sha384)
    ∷ (45, ecdsa_sha512)
    ∷ (46, ed25519)
    ∷ (47, ec_p224)
    ∷ (48, rsa_pkcs1_decrypt)
    ∷ (49, ec_p256_yubico_authentication)
    ∷ (50, aes128)
    ∷ (51, aes192)
    ∷ (52, aes256)
    ∷ (53, aes_ecb)
    ∷ (54, aes_cbc)
    ∷ (55, aes_kwp)
    ∷ (56, x25519)
    ∷ (57, x448)
    ∷ (58, ed448)
    ∷ (59, ml_dsa44)
    ∷ (60, ml_dsa65)
    ∷ (61, ml_dsa87)
    ∷ (62, ml_kem512)
    ∷ (63, ml_kem768)
    ∷ (64, ml_kem1024)
    ∷ (65, hybrid_ml_kem768_p256)
    ∷ (66, hybrid_ml_kem768_x25519)
    ∷ (67, hybrid_ml_kem1024_p384)
    ∷ []

unfoldable pub from_byte : ℕ → Option Algorithm
from_byte value = if (value == 0) || ltb 67 value then none else match_byte algorithm_arms value

-- `FirmwareProfile::compiled()` is the first argument.
unfoldable pub supported_by_firmware : FirmwareProfile → Algorithm → Bool
unfolding extended_curves post_quantum
supported_by_firmware profile x25519 = extended_curves profile
supported_by_firmware profile x448 = extended_curves profile
supported_by_firmware profile ed448 = extended_curves profile
supported_by_firmware profile ml_dsa44 = post_quantum profile
supported_by_firmware profile ml_dsa65 = post_quantum profile
supported_by_firmware profile ml_dsa87 = post_quantum profile
supported_by_firmware profile ml_kem512 = post_quantum profile
supported_by_firmware profile ml_kem768 = post_quantum profile
supported_by_firmware profile ml_kem1024 = post_quantum profile
supported_by_firmware profile hybrid_ml_kem768_p256 = post_quantum profile
supported_by_firmware profile hybrid_ml_kem768_x25519 = post_quantum profile
supported_by_firmware profile hybrid_ml_kem1024_p384 = post_quantum profile
supported_by_firmware profile _ = true

unfoldable pub ml_dsa_parameters : Algorithm → Option MlDsaParameterSet
ml_dsa_parameters ml_dsa44 = some MlDsaParameterSet.ml_dsa44
ml_dsa_parameters ml_dsa65 = some MlDsaParameterSet.ml_dsa65
ml_dsa_parameters ml_dsa87 = some MlDsaParameterSet.ml_dsa87
ml_dsa_parameters _ = none

unfoldable pub ml_kem_parameters : Algorithm → Option MlKemParameterSet
ml_kem_parameters ml_kem512 = some MlKemParameterSet.ml_kem512
ml_kem_parameters ml_kem768 = some MlKemParameterSet.ml_kem768
ml_kem_parameters ml_kem1024 = some MlKemParameterSet.ml_kem1024
ml_kem_parameters _ = none

unfoldable pub hybrid_kem_construction : Algorithm → Option HybridKemConstruction
hybrid_kem_construction hybrid_ml_kem768_p256 = some HybridKemConstruction.ml_kem768_p256
hybrid_kem_construction hybrid_ml_kem768_x25519 = some HybridKemConstruction.ml_kem768_x25519
hybrid_kem_construction hybrid_ml_kem1024_p384 = some HybridKemConstruction.ml_kem1024_p384
hybrid_kem_construction _ = none

unfoldable pub is_rsa_key : Algorithm → Bool
is_rsa_key rsa2048 = true
is_rsa_key rsa3072 = true
is_rsa_key rsa4096 = true
is_rsa_key _ = false

unfoldable pub is_weierstrass_key : Algorithm → Bool
is_weierstrass_key ec_p224 = true
is_weierstrass_key ec_p256 = true
is_weierstrass_key ec_p384 = true
is_weierstrass_key ec_p521 = true
is_weierstrass_key ec_k256 = true
is_weierstrass_key ec_brainpool_p256 = true
is_weierstrass_key ec_brainpool_p384 = true
is_weierstrass_key ec_brainpool_p512 = true
is_weierstrass_key _ = false

unfoldable pub asymmetric_key_length : Algorithm → Option ℕ
asymmetric_key_length ml_dsa44 = some 32
asymmetric_key_length ml_dsa65 = some 32
asymmetric_key_length ml_dsa87 = some 32
asymmetric_key_length ml_kem512 = some 64
asymmetric_key_length ml_kem768 = some 64
asymmetric_key_length ml_kem1024 = some 64
asymmetric_key_length hybrid_ml_kem768_p256 = some 32
asymmetric_key_length hybrid_ml_kem768_x25519 = some 32
asymmetric_key_length hybrid_ml_kem1024_p384 = some 32
asymmetric_key_length rsa2048 = some 256
asymmetric_key_length rsa3072 = some 384
asymmetric_key_length rsa4096 = some 512
asymmetric_key_length ec_p224 = some 28
asymmetric_key_length ec_p256 = some 32
asymmetric_key_length ec_k256 = some 32
asymmetric_key_length ec_brainpool_p256 = some 32
asymmetric_key_length ed25519 = some 32
asymmetric_key_length x25519 = some 32
asymmetric_key_length x448 = some 56
asymmetric_key_length ed448 = some 57
asymmetric_key_length ec_p384 = some 48
asymmetric_key_length ec_brainpool_p384 = some 48
asymmetric_key_length ec_p521 = some 66
asymmetric_key_length ec_brainpool_p512 = some 64
asymmetric_key_length _ = none

unfoldable pub asymmetric_object_length : Algorithm → Option ℕ
asymmetric_object_length ml_dsa44 = some 32
asymmetric_object_length ml_dsa65 = some 32
asymmetric_object_length ml_dsa87 = some 32
asymmetric_object_length ml_kem512 = some 64
asymmetric_object_length ml_kem768 = some 64
asymmetric_object_length ml_kem1024 = some 64
asymmetric_object_length hybrid_ml_kem768_p256 = some 32
asymmetric_object_length hybrid_ml_kem768_x25519 = some 32
asymmetric_object_length hybrid_ml_kem1024_p384 = some 32
asymmetric_object_length rsa2048 = some 896
asymmetric_object_length rsa3072 = some 1344
asymmetric_object_length rsa4096 = some 1792
asymmetric_object_length ec_p224 = some 84
asymmetric_object_length ec_p256 = some 96
asymmetric_object_length ec_k256 = some 96
asymmetric_object_length ec_brainpool_p256 = some 96
asymmetric_object_length ec_p384 = some 144
asymmetric_object_length ec_brainpool_p384 = some 144
asymmetric_object_length ec_p521 = some 198
asymmetric_object_length ec_brainpool_p512 = some 192
asymmetric_object_length ed25519 = some 128
asymmetric_object_length x25519 = some 64
asymmetric_object_length x448 = some 112
asymmetric_object_length ed448 = some 228
asymmetric_object_length _ = none

unfoldable pub hmac_object_length : Algorithm → Option ℕ
hmac_object_length hmac_sha1 = some 128
hmac_object_length hmac_sha256 = some 128
hmac_object_length hmac_sha384 = some 256
hmac_object_length hmac_sha512 = some 256
hmac_object_length _ = none

unfoldable pub aes_key_length : Algorithm → Option ℕ
aes_key_length aes128 = some 16
aes_key_length aes128_ccm_wrap = some 16
aes_key_length aes128_yubico_otp = some 16
aes_key_length aes192 = some 24
aes_key_length aes192_ccm_wrap = some 24
aes_key_length aes192_yubico_otp = some 24
aes_key_length aes256 = some 32
aes_key_length aes256_ccm_wrap = some 32
aes_key_length aes256_yubico_otp = some 32
aes_key_length _ = none

-- The registry is contiguous: `from_byte` reads back every identifier's byte.
pub from_byte-to_byte : (a : Algorithm) → from_byte (to_byte a) ≡ some a
unfolding from_byte to_byte
from_byte-to_byte rsa_pkcs1_sha1 = refl
from_byte-to_byte _ = refl
