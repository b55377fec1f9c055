-- ===== src/Device/Tables.antt =====
-- crates/virtual-yubihsm-core/src/device.rs: the tables that tie algorithm bytes to lengths, curves,
-- signature schemes and hashes.
use virtual_yubihsm.Prelude.{
  ℕ, Bool, true, false, not, Option, none, some, List, [], ◌∷◌, ◌==◌, if◌then◌else◌, match_byte,
}
use virtual_yubihsm.Error.{Result, ok, err, ok_or, invalid_data}
use virtual_yubihsm.Keys.{
  KeyKind, EcCurve, EdwardsCurve, MontgomeryCurve, MlDsaParameterSet, SignatureScheme,
  RsaHashAlgorithm, HashAlgorithm,
}
use virtual_yubihsm.Algorithm.{
  Algorithm, is_rsa_key, asymmetric_key_length, ml_dsa_parameters, ml_kem_parameters,
  hybrid_kem_construction,
}
use virtual_yubihsm.Algorithm
use virtual_yubihsm.Object.Material.{montgomery_of}
use virtual_yubihsm.Object.Record.{option_bind}
use virtual_yubihsm.Session.Secure.{
  authentication_algorithm_aes128_yubico, authentication_algorithm_ec_p256,
}

unfoldable pub authentication_key_length : ℕ → Result ℕ
authentication_key_length algorithm =
    if algorithm == authentication_algorithm_aes128_yubico
    then ok 32
    else if algorithm == authentication_algorithm_ec_p256
    then ok 64
    else err invalid_data

-- Byte 60 stands for Ed448 in the source's table.
unfoldable pub asymmetric_key_algorithm : ℕ → Result (SignatureScheme × ℕ)
asymmetric_key_algorithm algorithm =
    ok_or
      (match_byte
        ((47, (SignatureScheme.ecdsa_p224_sha224, 28))
          ∷ (12, (SignatureScheme.ecdsa_p256_sha256, 32))
          ∷ (13, (SignatureScheme.ecdsa_p384_sha384, 48))
          ∷ (14, (SignatureScheme.ecdsa_p521_sha512, 66))
          ∷ (15, (SignatureScheme.ecdsa_secp256k1_sha256, 32))
          ∷ (16, (SignatureScheme.ecdsa_brainpool_p256_sha256, 32))
          ∷ (17, (SignatureScheme.ecdsa_brainpool_p384_sha384, 48))
          ∷ (18, (SignatureScheme.ecdsa_brainpool_p512_sha512, 64))
          ∷ (46, (SignatureScheme.ed25519, 32))
          ∷ (60, (SignatureScheme.ed448, 57))
          ∷ [])
        algorithm)
      invalid_data

abbrev curve_kind : Algorithm → Result KeyKind
curve_kind Algorithm.ec_p224 = ok (KeyKind.ec EcCurve.p224)
curve_kind Algorithm.ec_p256 = ok (KeyKind.ec EcCurve.p256)
curve_kind Algorithm.ec_p384 = ok (KeyKind.ec EcCurve.p384)
curve_kind Algorithm.ec_p521 = ok (KeyKind.ec EcCurve.p521)
curve_kind Algorithm.ec_k256 = ok (KeyKind.ec EcCurve.secp256k1)
curve_kind Algorithm.ec_brainpool_p256 = ok (KeyKind.ec EcCurve.brainpool_p256)
curve_kind Algorithm.ec_brainpool_p384 = ok (KeyKind.ec EcCurve.brainpool_p384)
curve_kind Algorithm.ec_brainpool_p512 = ok (KeyKind.ec EcCurve.brainpool_p512)
curve_kind Algorithm.ed25519 = ok (KeyKind.edwards EdwardsCurve.ed25519)
curve_kind Algorithm.ed448 = ok (KeyKind.edwards EdwardsCurve.ed448)
curve_kind Algorithm.rsa2048 = ok (KeyKind.rsa 2048)
curve_kind Algorithm.rsa3072 = ok (KeyKind.rsa 3072)
curve_kind Algorithm.rsa4096 = ok (KeyKind.rsa 4096)
curve_kind _ = err invalid_data

abbrev ml_dsa_or : Option MlDsaParameterSet → Result KeyKind → Result KeyKind
ml_dsa_or none rest = rest
ml_dsa_or (some parameters) rest = ok (KeyKind.ml_dsa parameters)

unfoldable pub asymmetric_key_kind : Algorithm → Result KeyKind
asymmetric_key_kind algorithm = ml_dsa_or (ml_dsa_parameters algorithm) (curve_kind algorithm)

-- `montgomery_algorithm`, its object identifier apart
unfoldable pub montgomery_algorithm : ℕ → Option MontgomeryCurve
montgomery_algorithm algorithm = option_bind (Algorithm.from_byte algorithm) montgomery_of

abbrev pub montgomery_oid : MontgomeryCurve → List ℕ
montgomery_oid MontgomeryCurve.x25519 = 1 ∷ 3 ∷ 101 ∷ 110 ∷ []
montgomery_oid MontgomeryCurve.x448 = 1 ∷ 3 ∷ 101 ∷ 111 ∷ []

abbrev pub curve_eq : MontgomeryCurve → MontgomeryCurve → Bool
curve_eq MontgomeryCurve.x25519 MontgomeryCurve.x25519 = true
curve_eq MontgomeryCurve.x448 MontgomeryCurve.x448 = true
curve_eq _ _ = false

abbrev pub bool_eq : Bool → Bool → Bool
bool_eq true b = b
bool_eq false b = not b

abbrev oaep_hash_of : Option Algorithm → Result RsaHashAlgorithm
oaep_hash_of (some Algorithm.rsa_oaep_sha1) = ok RsaHashAlgorithm.sha1
oaep_hash_of (some Algorithm.rsa_oaep_sha256) = ok RsaHashAlgorithm.sha256
oaep_hash_of (some Algorithm.rsa_oaep_sha384) = ok RsaHashAlgorithm.sha384
oaep_hash_of (some Algorithm.rsa_oaep_sha512) = ok RsaHashAlgorithm.sha512
oaep_hash_of _ = err invalid_data

unfoldable pub rsa_oaep_hash : ℕ → Result RsaHashAlgorithm
rsa_oaep_hash algorithm = oaep_hash_of (Algorithm.from_byte algorithm)

abbrev mgf_hash_of : Option Algorithm → Result RsaHashAlgorithm
mgf_hash_of (some Algorithm.mgf1_sha1) = ok RsaHashAlgorithm.sha1
mgf_hash_of (some Algorithm.mgf1_sha256) = ok RsaHashAlgorithm.sha256
mgf_hash_of (some Algorithm.mgf1_sha384) = ok RsaHashAlgorithm.sha384
mgf_hash_of (some Algorithm.mgf1_sha512) = ok RsaHashAlgorithm.sha512
mgf_hash_of _ = err invalid_data

unfoldable pub rsa_mgf_hash : ℕ → Result RsaHashAlgorithm
rsa_mgf_hash algorithm = mgf_hash_of (Algorithm.from_byte algorithm)

abbrev pub is_aes_key : Algorithm → Bool
is_aes_key Algorithm.aes128 = true
is_aes_key Algorithm.aes192 = true
is_aes_key Algorithm.aes256 = true
is_aes_key _ = false

abbrev pub is_ccm_wrap : Algorithm → Bool
is_ccm_wrap Algorithm.aes128_ccm_wrap = true
is_ccm_wrap Algorithm.aes192_ccm_wrap = true
is_ccm_wrap Algorithm.aes256_ccm_wrap = true
is_ccm_wrap _ = false

abbrev pub is_yubico_otp : Algorithm → Bool
is_yubico_otp Algorithm.aes128_yubico_otp = true
is_yubico_otp Algorithm.aes192_yubico_otp = true
is_yubico_otp Algorithm.aes256_yubico_otp = true
is_yubico_otp _ = false

-- `Algorithm::from_byte(..)` matched against some algorithms
abbrev pub holds_of : (Algorithm → Bool) → Option Algorithm → Bool
holds_of test none = false
holds_of test (some algorithm) = test algorithm

abbrev aes_of : Option Algorithm → Result ℕ
aes_of (some Algorithm.aes128) = ok 16
aes_of (some Algorithm.aes192) = ok 24
aes_of (some Algorithm.aes256) = ok 32
aes_of _ = err invalid_data

unfoldable pub rsa_wrap_aes_length : ℕ → Result ℕ
rsa_wrap_aes_length algorithm = aes_of (Algorithm.from_byte algorithm)

unfoldable pub rsa_hash_from_digest_length : ℕ → Option RsaHashAlgorithm
rsa_hash_from_digest_length = match_byte (
    (20, RsaHashAlgorithm.sha1)
    ∷ (32, RsaHashAlgorithm.sha256)
    ∷ (48, RsaHashAlgorithm.sha384)
    ∷ (64, RsaHashAlgorithm.sha512)
    ∷ [])

unfoldable pub hmac_length : ℕ → Result ℕ
hmac_length algorithm =
    ok_or (match_byte ((19, 20) ∷ (20, 32) ∷ (21, 48) ∷ (22, 64) ∷ []) algorithm) invalid_data

-- The hash of `calculate_hmac`
abbrev pub hmac_hash : ℕ → Result HashAlgorithm
hmac_hash algorithm =
    ok_or
      (match_byte
        ((19, HashAlgorithm.sha1)
          ∷ (20, HashAlgorithm.sha256)
          ∷ (21, HashAlgorithm.sha384)
          ∷ (22, HashAlgorithm.sha512)
          ∷ [])
        algorithm)
      invalid_data

unfoldable pub ecdh_kdf_hash : ℕ → Result HashAlgorithm
ecdh_kdf_hash value =
    ok_or
      (match_byte
        ((1, HashAlgorithm.sha1)
          ∷ (2, HashAlgorithm.sha224)
          ∷ (3, HashAlgorithm.sha256)
          ∷ (4, HashAlgorithm.sha384)
          ∷ (5, HashAlgorithm.sha512)
          ∷ (6, HashAlgorithm.sha3_224)
          ∷ (7, HashAlgorithm.sha3_256)
          ∷ (8, HashAlgorithm.sha3_384)
          ∷ (9, HashAlgorithm.sha3_512)
          ∷ [])
        value)
      invalid_data
