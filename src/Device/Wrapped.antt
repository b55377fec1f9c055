-- ===== src/Device/Wrapped.antt =====
-- crates/virtual-yubihsm-core/src/device.rs: the values of which the form of an object under a wrap
-- key is built, and which objects have one. The CBOR codec is that of the platform.
pub mod Pkcs8
pub mod Codec
use virtual_yubihsm.Prelude.{
  ℕ, ◌+◌, ◌%◌, ◌/◌, Bool, true, false, not, ◌&&◌, ◌||◌, Option, none, some, List, [], ◌∷◌, length,
  bit_and, bytes_eq, is_some, leb, ltb, ◌==◌, if◌then◌else◌,
}
use virtual_yubihsm.Error.{
  Result, ok, err, ok_or, guard, ◌>>=◌, ◌>>◌, invalid_data, wrong_length, storage_failed,
}
use virtual_yubihsm.Keys.{
  Keys, Platform, KeyKind, MontgomeryCurve, MlDsaParameterSet, MlKemParameterSet,
  HybridKemConstruction, SoftwarePublicKey, Rfc8410PrivateKeyInfo, CborValue, CborValues, no_more,
  value_then,
}
use virtual_yubihsm.Algorithm.{
  Algorithm, is_rsa_key, asymmetric_key_length, asymmetric_object_length, hmac_object_length,
  aes_key_length, ml_dsa_parameters, ml_kem_parameters, hybrid_kem_construction,
}
use virtual_yubihsm.Algorithm
use virtual_yubihsm.Object.{ObjectInfo, ObjectType, type_byte, from_byte}
use virtual_yubihsm.Object.Material.{
  AuthenticationKeyMaterial, symmetric, asymmetric, ObjectMaterial, montgomery_of, material_length,
  parsed,
}
use virtual_yubihsm.Object.Record.{ObjectRecord, is_some_of, normalize_info_length}
use virtual_yubihsm.Object.Record
use virtual_yubihsm.Device.Tables.{
  asymmetric_key_kind, montgomery_algorithm, montgomery_oid, is_aes_key, is_ccm_wrap, is_yubico_otp,
}
use virtual_yubihsm.Device.Material.{
  signing_key, montgomery_key_for_curve, parse_authentication_key_material,
}

-- `"virtual-yubihsm-object"`
abbrev pub wrapped_object_schema : List ℕ
wrapped_object_schema =
    118 ∷ 105 ∷ 114 ∷ 116 ∷ 117 ∷ 97 ∷ 108 ∷ 45 ∷ 121 ∷ 117 ∷ 98 ∷ 105 ∷ 104 ∷ 115 ∷ 109 ∷ 45 ∷ 111
    ∷ 98 ∷ 106 ∷ 101 ∷ 99 ∷ 116 ∷ []

abbrev pub wrapped_object_version : ℕ
wrapped_object_version = 1

abbrev pub wrapped_material_secret : ℕ
wrapped_material_secret = 0

abbrev pub wrapped_material_pkcs8 : ℕ
wrapped_material_pkcs8 = 1

abbrev pub wrapped_material_opaque : ℕ
wrapped_material_opaque = 2

abbrev pub wrapped_material_public : ℕ
wrapped_material_public = 3

abbrev pub wrapped_material_authentication_symmetric : ℕ
wrapped_material_authentication_symmetric = 4

abbrev pub wrapped_material_authentication_asymmetric : ℕ
wrapped_material_authentication_asymmetric = 5

abbrev pub wrapped_material_otp_aead : ℕ
wrapped_material_otp_aead = 6

-- `values.next().ok_or(InvalidData)`
abbrev pub next : CborValues → Result (CborValue × CborValues)
next no_more = err invalid_data
next (value_then value rest) = ok (value, rest)

abbrev pub finished : CborValues → Result (Unit {0})
finished no_more = ok tt
finished (value_then value rest) = err invalid_data

abbrev pub count : CborValues → ℕ
count no_more = 0
count (value_then value rest) = count rest + 1

abbrev below : ℕ → ℕ → Result ℕ
below bound n = if ltb n bound then ok n else err invalid_data

unfoldable pub wrapped_u8 : CborValue → Result ℕ
wrapped_u8 (CborValue.integer n) = below 0x100 n
wrapped_u8 _ = err invalid_data

unfoldable pub wrapped_u16 : CborValue → Result ℕ
wrapped_u16 (CborValue.integer n) = below 0x10000 n
wrapped_u16 _ = err invalid_data

unfoldable pub wrapped_bytes : CborValue → Result (List ℕ)
wrapped_bytes (CborValue.bytes value) = ok value
wrapped_bytes _ = err invalid_data

abbrev pub wrapped_array : CborValue → Result CborValues
wrapped_array (CborValue.array values) = ok values
wrapped_array _ = err invalid_data

abbrev pub is_schema : CborValue → Bool
is_schema (CborValue.text value) = bytes_eq value wrapped_object_schema
is_schema _ = false

-- `try_into()` an array of this length
abbrev pub exactly : ℕ → List ℕ → Result (List ℕ)
exactly n value = guard (length value == n) invalid_data >> ok value

-- `&parsed == authentication`
abbrev same_authentication : AuthenticationKeyMaterial → AuthenticationKeyMaterial → Bool
same_authentication (symmetric a) (symmetric b) = bytes_eq a b
same_authentication (asymmetric a) (asymmetric b) = bytes_eq a b
same_authentication _ _ = false

abbrev authentication_bytes : AuthenticationKeyMaterial → List ℕ
authentication_bytes (symmetric value) = value
authentication_bytes (asymmetric value) = value

abbrev is_ok_and : {A : Type 0} → (A → Bool) → Result A → Bool
is_ok_and test (ok a) = test a
is_ok_and test (err error) = false

abbrev has_ml_dsa : MlDsaParameterSet → MlDsaParameterSet → Bool
has_ml_dsa MlDsaParameterSet.ml_dsa44 MlDsaParameterSet.ml_dsa44 = true
has_ml_dsa MlDsaParameterSet.ml_dsa65 MlDsaParameterSet.ml_dsa65 = true
has_ml_dsa MlDsaParameterSet.ml_dsa87 MlDsaParameterSet.ml_dsa87 = true
has_ml_dsa _ _ = false

abbrev is_ml_dsa_kind : MlDsaParameterSet → KeyKind → Bool
is_ml_dsa_kind parameters (KeyKind.ml_dsa others) = has_ml_dsa parameters others
is_ml_dsa_kind parameters _ = false

abbrev is_ml_kem : Option MlKemParameterSet → MlKemParameterSet → Bool
is_ml_kem (some MlKemParameterSet.ml_kem512) MlKemParameterSet.ml_kem512 = true
is_ml_kem (some MlKemParameterSet.ml_kem768) MlKemParameterSet.ml_kem768 = true
is_ml_kem (some MlKemParameterSet.ml_kem1024) MlKemParameterSet.ml_kem1024 = true
is_ml_kem _ _ = false

abbrev is_hybrid : Option HybridKemConstruction → HybridKemConstruction → Bool
is_hybrid (some HybridKemConstruction.ml_kem768_p256) HybridKemConstruction.ml_kem768_p256 = true
is_hybrid (some HybridKemConstruction.ml_kem768_x25519) HybridKemConstruction.ml_kem768_x25519 =
    true
is_hybrid (some HybridKemConstruction.ml_kem1024_p384) HybridKemConstruction.ml_kem1024_p384 = true
is_hybrid _ _ = false

abbrev is_opaque : Algorithm → Bool
is_opaque Algorithm.opaque_data = true
is_opaque Algorithm.opaque_x509_certificate = true
is_opaque _ = false

abbrev is_template : Algorithm → Bool
is_template Algorithm.template_ssh = true
is_template _ = false

-- `algorithm.asymmetric_key_length() == Some(private.len())`, with the length itself for a key that
-- has no private value
abbrev private_length_fits : Option ℕ → Option (List ℕ) → Bool
private_length_fits none none = false
private_length_fits (some n) none = true
private_length_fits none (some private) = false
private_length_fits (some n) (some private) = n == length private

module _ ⦃keys : Keys⦄ where
  abbrev ml_dsa_kind_fits : Option MlDsaParameterSet → Algorithm → keys.SigningKey → Bool
  ml_dsa_kind_fits (some parameters) algorithm key = is_ml_dsa_kind parameters (keys.key_kind key)
  ml_dsa_kind_fits none algorithm key =
      not (is_some (montgomery_of algorithm))
      && private_length_fits (asymmetric_key_length algorithm) (keys.private_value key)

module _ ⦃keys : Keys⦄ (platform : Platform) where
  -- The pairs of a type and a material that may be wrapped, with what each asks of the algorithm.
  material_fits : ObjectType → ObjectMaterial → ℕ → Algorithm → Bool
  material_fits ObjectType.opaque (ObjectMaterial.opaque value) byte algorithm = is_opaque algorithm
  material_fits ObjectType.template (ObjectMaterial.opaque value) byte algorithm =
      is_template algorithm
  material_fits ObjectType.authentication_key (ObjectMaterial.authentication value) byte algorithm =
      is_ok_and (λ parsed. same_authentication parsed value)
        (parse_authentication_key_material platform byte (authentication_bytes value))
  material_fits ObjectType.asymmetric_key (ObjectMaterial.signing_key key) byte algorithm =
      ml_dsa_kind_fits (ml_dsa_parameters algorithm) algorithm key
  material_fits ObjectType.asymmetric_key (ObjectMaterial.montgomery_key key) byte algorithm =
      is_some (montgomery_of algorithm)
  material_fits ObjectType.asymmetric_key (ObjectMaterial.ml_kem_key key) byte algorithm =
      is_ml_kem (ml_kem_parameters algorithm) (keys.ml_kem_parameter_set key)
  material_fits ObjectType.asymmetric_key (ObjectMaterial.hybrid_kem_key key) byte algorithm =
      is_hybrid (hybrid_kem_construction algorithm) (keys.hybrid_construction key)
  material_fits ObjectType.wrap_key (ObjectMaterial.signing_key key) byte algorithm =
      is_rsa_key algorithm && is_some (keys.as_rsa key)
  material_fits ObjectType.wrap_key (ObjectMaterial.secret value) byte algorithm =
      is_ccm_wrap algorithm && is_some_of (aes_key_length algorithm) (length value)
  material_fits ObjectType.hmac_key (ObjectMaterial.secret value) byte algorithm =
      is_some (hmac_object_length algorithm) && (leb 1 (length value) && leb (length value) 128)
  material_fits ObjectType.otp_aead_key (ObjectMaterial.otp_aead_key nonce_id key) byte algorithm =
      is_yubico_otp algorithm && is_some_of (aes_key_length algorithm) (length key)
  material_fits ObjectType.symmetric_key (ObjectMaterial.secret value) byte algorithm =
      is_aes_key algorithm && is_some_of (aes_key_length algorithm) (length value)
  material_fits ObjectType.public_wrap_key (ObjectMaterial.public value) byte algorithm =
      is_rsa_key algorithm && is_some_of (asymmetric_key_length algorithm) (length value)
  material_fits _ _ byte algorithm = false

  unfoldable pub validate_wrapped_object : ObjectRecord → Result (Unit {0})
  unfolding material_fits
  validate_wrapped_object object = do
    Record.validate object
    algorithm ← ok_or (Algorithm.from_byte object.info.algorithm) invalid_data
    guard (material_fits object.info.object_type object.material object.info.algorithm algorithm)
        invalid_data
