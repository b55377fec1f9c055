-- ===== src/Keys.antt =====
-- The outside of the core: the keys and the functions of software-key-core and of the operating
-- system that the core calls, as parameters. The enumerations have the variants that the core's
-- matches name. A function that fails answers `none`, since the core maps every error it gives.
use virtual_yubihsm.Prelude.{ℕ, Bool, Option, List, ◌⊎◌}
use virtual_yubihsm.Error.{Result}
use virtual_yubihsm.Firmware.{FirmwareProfile}

pub data EcCurve : Type 0 where
  p224 p256 p384 p521 : EcCurve
  secp256k1 brainpool_p256 brainpool_p384 brainpool_p512 : EcCurve

pub data EdwardsCurve : Type 0 where
  ed25519 ed448 : EdwardsCurve

pub data MontgomeryCurve : Type 0 where
  x25519 x448 : MontgomeryCurve

pub data MlDsaParameterSet : Type 0 where
  ml_dsa44 ml_dsa65 ml_dsa87 : MlDsaParameterSet

pub data MlKemParameterSet : Type 0 where
  ml_kem512 ml_kem768 ml_kem1024 : MlKemParameterSet

pub data HybridKemConstruction : Type 0 where
  ml_kem768_p256 ml_kem768_x25519 ml_kem1024_p384 : HybridKemConstruction

pub data KeyKind : Type 0 where
  ec : EcCurve → KeyKind
  edwards : EdwardsCurve → KeyKind
  rsa : ℕ → KeyKind
  ml_dsa : MlDsaParameterSet → KeyKind

-- `SoftwarePublicKey`, without the fields that the core ignores.
pub data SoftwarePublicKey : Type 0 where
  ec : List ℕ → SoftwarePublicKey
  edwards : EdwardsCurve → List ℕ → SoftwarePublicKey
  rsa : List ℕ → List ℕ → SoftwarePublicKey
  ml_dsa : List ℕ → SoftwarePublicKey

pub data RsaHashAlgorithm : Type 0 where
  sha1 sha256 sha384 sha512 : RsaHashAlgorithm

pub data HashAlgorithm : Type 0 where
  sha1 sha224 sha256 sha384 sha512 : HashAlgorithm
  sha3_224 sha3_256 sha3_384 sha3_512 : HashAlgorithm

pub data SignatureScheme : Type 0 where
  ecdsa_p224_sha224 ecdsa_p256_sha256 ecdsa_p384_sha384 : SignatureScheme
  ecdsa_p521_sha512 ecdsa_secp256k1_sha256 : SignatureScheme
  ecdsa_brainpool_p256_sha256 ecdsa_brainpool_p384_sha384 : SignatureScheme
  ecdsa_brainpool_p512_sha512 ed25519 ed448 : SignatureScheme

pub data MlDsaRandomization : Type 0 where
  deterministic randomized hedge_preferred : MlDsaRandomization

-- `RsaPrivateValidationError` and `RsaPublicValidationError`
pub data RsaValidationError : Type 0 where
  invalid_key randomness_unavailable : RsaValidationError

pub data SoftwareSymmetricError : Type 0 where
  invalid_data_length invalid_iv_length : SoftwareSymmetricError
  invalid_key_length authentication_failed : SoftwareSymmetricError

pub record IntegerFormat : Type 0 where
  pub width_bits : ℕ
  pub little_endian : Bool

pub data LengthMethod : Type 0 where
  key segments : LengthMethod

pub data CounterKdfField : Type 0 where
  bytes : List ℕ → CounterKdfField
  counter : IntegerFormat → CounterKdfField
  length : IntegerFormat → LengthMethod → CounterKdfField

-- `Rfc8410PrivateKeyInfo` of device.rs, an object identifier being its arcs and the parameters being
-- whether there are any. Its encoding is generated by the `der` crate.
pub record Rfc8410PrivateKeyInfo : Type 0 where
  pub version : ℕ
  pub oid : List ℕ
  pub has_parameters : Bool
  pub private_key : List ℕ

-- `ciborium::Value`, as far as the core matches it; a negative integer is among the others.
mutual
  pub data CborValue : Type 0 where
    integer : ℕ → CborValue
    bytes : List ℕ → CborValue
    text : List ℕ → CborValue
    array : CborValues → CborValue
    other : CborValue

  pub data CborValues : Type 0 where
    no_more : CborValues
    value_then : CborValue → CborValues → CborValues

pub data Validation {ℓ} (A : Type ℓ) : Type ℓ where
  valid : A → Validation A
  invalid : RsaValidationError → Validation A

-- The private keys and what is read from them, always the same for the same key.
pub record Keys : Type 1 where
  pub SigningKey : Type 0
  pub RsaKey : Type 0
  pub MlDsaKey : Type 0
  pub MontgomeryKey : Type 0
  pub MlKemKey : Type 0
  pub HybridKemKey : Type 0
  -- `SoftwareSigningKey::Rsa` and `SoftwareSigningKey::MlDsa`, and the match on them
  pub rsa_signing_key : RsaKey → SigningKey
  pub as_rsa : SigningKey → Option RsaKey
  pub ml_dsa_signing_key : MlDsaKey → SigningKey
  pub as_ml_dsa : SigningKey → Option MlDsaKey
  pub key_kind : SigningKey → KeyKind
  pub edwards_private_key_length : EdwardsCurve → ℕ
  pub serialized : SigningKey → Option (List ℕ)
  pub private_value : SigningKey → Option (List ℕ)
  pub public_key : SigningKey → SoftwarePublicKey
  pub to_pkcs8_der : SigningKey → Option (List ℕ)
  pub from_pkcs8_der_for_kind : KeyKind → List ℕ → Option SigningKey
  pub from_serialized_for_kind : KeyKind → List ℕ → Option SigningKey
  -- The primes of `rsa_crt_components`
  pub rsa_crt_primes : SigningKey → Option (List ℕ × List ℕ)
  pub restore_rsa_primes : List ℕ → List ℕ → List ℕ → Option SigningKey
  pub from_rsa_primes : List ℕ → List ℕ → List ℕ → Option SigningKey
  pub modulus_bits : RsaKey → ℕ
  pub validate_for_import : RsaKey → Validation RsaKey
  pub validate_rsa_public_key : List ℕ → List ℕ → ℕ → Validation (Unit {0})
  pub ml_dsa_from_serialized : MlDsaParameterSet → List ℕ → Option MlDsaKey
  pub ml_dsa_expanded_length : MlDsaParameterSet → ℕ
  pub montgomery_curve : MontgomeryKey → MontgomeryCurve
  pub montgomery_serialized : MontgomeryKey → List ℕ
  pub montgomery_public_key : MontgomeryKey → List ℕ
  pub montgomery_from_serialized : MontgomeryCurve → List ℕ → Option MontgomeryKey
  pub ml_kem_parameter_set : MlKemKey → MlKemParameterSet
  pub ml_kem_serialized : MlKemKey → List ℕ
  pub ml_kem_public_key : MlKemKey → List ℕ
  pub ml_kem_from_serialized : MlKemParameterSet → List ℕ → Option MlKemKey
  pub ml_kem_expanded_length : MlKemParameterSet → ℕ
  pub ml_kem_ciphertext_length : MlKemParameterSet → ℕ
  pub hybrid_construction : HybridKemKey → HybridKemConstruction
  pub hybrid_seed : HybridKemKey → List ℕ
  pub hybrid_public_key : HybridKemKey → Option (List ℕ)
  pub hybrid_from_seed : HybridKemConstruction → List ℕ → Option HybridKemKey
  pub hybrid_ciphertext_length : HybridKemConstruction → ℕ

-- The public key that a certificate certifies; the SPKI of software-key-core is made of it.
pub data CertifiedKey : Type 0 where
  of_signing : SoftwarePublicKey → CertifiedKey
  of_montgomery : MontgomeryCurve → List ℕ → CertifiedKey
  of_hybrid : HybridKemConstruction → List ℕ → CertifiedKey

-- What the X.509 builder gets: `AttestationProfile`, the serial number and the keys. The names are
-- given by their ids, and a template is an encoded certificate whose names, validity and extensions
-- are taken over.
pub record CertificateParts ⦃keys : Keys⦄ : Type 0 where
  pub target : CertifiedKey
  pub target_id : ℕ
  pub attesting_id : ℕ
  pub signer : keys.SigningKey
  pub template : Option (List ℕ)
  pub key_agreement : Bool
  pub key_encipherment : Bool
  pub metadata_extensions : List (ℕ × List ℕ)
  pub serial_number : List ℕ

-- What one command gets from the build, the clock, the random source and the functions of
-- software-key-core, whose results may depend on randomness. The random source answers the draws
-- of the two loops from a list each, and fails after it.
pub record Platform ⦃keys : Keys⦄ : Type 0 where
  pub profile : FirmwareProfile
  pub now : ℕ
  pub id_draws : List ℕ
  pub handle_draws : List ℕ
  -- `getrandom::fill` of so many bytes
  pub fill : ℕ → Option (List ℕ)
  pub generate_for_kind : KeyKind → Option keys.SigningKey
  pub generate_ml_dsa : MlDsaParameterSet → Option keys.MlDsaKey
  pub generate_montgomery : MontgomeryCurve → Option keys.MontgomeryKey
  pub generate_ml_kem : MlKemParameterSet → Option keys.MlKemKey
  pub generate_hybrid_kem : HybridKemConstruction → Option keys.HybridKemKey
  pub digest : HashAlgorithm → List ℕ → List ℕ
  pub hmac : HashAlgorithm → List ℕ → List ℕ → Option (List ℕ)
  pub x963_kdf : HashAlgorithm → List ℕ → List ℕ → ℕ → Option (List ℕ)
  pub cmac_counter_kdf : List ℕ → List CounterKdfField → ℕ → Option (List ℕ)
  pub prehash_length : ℕ → Option ℕ
  pub rsa_hash_output_length : RsaHashAlgorithm → ℕ
  pub sign_rsa_pkcs1v15_digest : keys.SigningKey → RsaHashAlgorithm → List ℕ → Option (List ℕ)
  pub sign_rsa_pkcs1v15_payload : keys.SigningKey → List ℕ → Option (List ℕ)
  pub sign_rsa_pss_digest :
      keys.SigningKey → RsaHashAlgorithm → RsaHashAlgorithm → ℕ → List ℕ → Option (List ℕ)
  pub ec_curve : SignatureScheme → Option EcCurve
  -- `sign_prehash` and `to_ecdsa_der`
  pub sign_ecdsa_der : keys.SigningKey → SignatureScheme → List ℕ → EcCurve → Option (List ℕ)
  pub sign_message : keys.SigningKey → SignatureScheme → List ℕ → Option (List ℕ)
  -- `sign` and `sign_prehash`, whose hash is that of the request
  pub sign_ml_dsa :
      keys.MlDsaKey → List ℕ → List ℕ → Option (ℕ × ℕ) → MlDsaRandomization → Option (List ℕ)
  pub ml_kem_encapsulate : MlKemParameterSet → List ℕ → Option (List ℕ × List ℕ)
  pub ml_kem_decapsulate : keys.MlKemKey → List ℕ → Option (List ℕ)
  pub hybrid_kem_encapsulate : HybridKemConstruction → List ℕ → Option (List ℕ × List ℕ)
  pub hybrid_kem_decapsulate : keys.HybridKemKey → List ℕ → Option (List ℕ)
  pub montgomery_derive : keys.MontgomeryKey → List ℕ → Option (List ℕ)
  pub derive_with_signing_key : keys.SigningKey → List ℕ → Option (List ℕ)
  pub decrypt_rsa_pkcs1v15 : keys.SigningKey → List ℕ → Option (List ℕ)
  pub decrypt_rsa_oaep_digest :
      keys.SigningKey → List ℕ → List ℕ → RsaHashAlgorithm → Option (List ℕ)
  pub encrypt_rsa_pkcs1v15 : SoftwarePublicKey → List ℕ → Option (List ℕ)
  pub encrypt_rsa_oaep_digest :
      SoftwarePublicKey → List ℕ → List ℕ → RsaHashAlgorithm → Option (List ℕ)
  pub validate_ec_public_key : List ℕ → Bool
  pub wrap_aes_kwp : List ℕ → List ℕ → Option (List ℕ)
  pub unwrap_aes_kwp : List ℕ → List ℕ → Option (List ℕ)
  pub encrypt_aes_ccm : List ℕ → List ℕ → List ℕ → Option (List ℕ)
  pub decrypt_aes_ccm : List ℕ → List ℕ → List ℕ → Option (List ℕ)
  pub encrypt_aes_ecb : List ℕ → List ℕ → Option (List ℕ)
  pub decrypt_aes_ecb : List ℕ → List ℕ → Option (List ℕ)
  pub encrypt_aes_cbc : List ℕ → List ℕ → List ℕ → SoftwareSymmetricError ⊎ List ℕ
  pub decrypt_aes_cbc : List ℕ → List ℕ → List ℕ → SoftwareSymmetricError ⊎ List ℕ
  pub encrypt_aes_block : List ℕ → List ℕ → SoftwareSymmetricError ⊎ List ℕ
  pub aes_cmac : List ℕ → List ℕ → SoftwareSymmetricError ⊎ List ℕ
  pub encrypt_yubico_otp_aead : List ℕ → List ℕ → List ℕ → Option (List ℕ)
  pub decrypt_yubico_otp_aead : List ℕ → List ℕ → List ℕ → Option (List ℕ)
  pub pad_iso7816 : List ℕ → List ℕ
  pub unpad_iso7816 : List ℕ → Option (List ℕ)
  pub scp03_key : List ℕ → ℕ → List ℕ → Option (List ℕ)
  pub scp03_cryptogram : List ℕ → ℕ → List ℕ → Option (List ℕ)
  pub x963_kdf_sha256 : List ℕ → List ℕ → ℕ → Option (List ℕ)
  pub yubico_password_kdf : List ℕ → List ℕ
  pub private_key_info_to_der : Rfc8410PrivateKeyInfo → Option (List ℕ)
  pub private_key_info_from_der : List ℕ → Option Rfc8410PrivateKeyInfo
  pub octet_string_to_der : List ℕ → Option (List ℕ)
  pub octet_string_from_der : List ℕ → Option (List ℕ)
  pub cbor_into_writer : CborValue → Option (List ℕ)
  -- The value and the position behind it
  pub cbor_from_reader : List ℕ → Option (CborValue × ℕ)
  -- `CertificateSigner::from_key` and the default validity, and the X.509 builder
  pub certificate_signer : keys.SigningKey → Result (Unit {0})
  pub build_certificate : CertificateParts → Result (List ℕ)
