-- ===== src/Device/Use.antt =====
-- crates/virtual-yubihsm-core/src/device.rs: the commands that use an asymmetric key: signatures, key
-- encapsulation, key agreement and decryption.
use virtual_yubihsm.Prelude.{
  ℕ, ◌-◌, Bool, true, false, not, ◌||◌, Option, none, some, List, [], ◌∷◌, ◌++◌, length, take, drop,
  contains, leb, ◌==◌, if◌then◌else◌, match_byte,
}
use virtual_yubihsm.Prelude.OrderedMap.{get}
use virtual_yubihsm.Error.{
  Result, ok, err, ok_or, guard, ◌>>=◌, ◌>>◌, invalid_data, wrong_length, object_not_found,
}
use virtual_yubihsm.Keys.{
  Keys, Platform, SoftwarePublicKey, SignatureScheme, MlDsaRandomization, RsaHashAlgorithm,
}
use virtual_yubihsm.Algorithm.{Algorithm}
use virtual_yubihsm.Algorithm
use virtual_yubihsm.Wire.{decode}
use virtual_yubihsm.Object.{ObjectType, key_order}
use virtual_yubihsm.Object.Material.{AuthenticationKeyMaterial, ObjectMaterial}
use virtual_yubihsm.Object.Record.{ObjectRecord}
use virtual_yubihsm.Request.{id_remainder_request, get_public_key_request}
use virtual_yubihsm.Request.Keys.{
  sign_pss_request, sign_ml_dsa_request, encapsulate_request, derive_ecdh_kdf_request,
  decrypt_oaep_request,
}
use virtual_yubihsm.Session.{secure_response_data_fits}
use virtual_yubihsm.Authorization.{SessionAuthorization, require_visible}
use virtual_yubihsm.Device.Authorize.{key_of}
use virtual_yubihsm.Device.State.{Device}
use virtual_yubihsm.Device.Tables.{
  asymmetric_key_algorithm, montgomery_algorithm, rsa_hash_from_digest_length, rsa_mgf_hash,
  ecdh_kdf_hash,
}
use virtual_yubihsm.Device.Material.{
  signing_key, rsa_key, rsa_modulus_length, montgomery_key, raw_ecdh_secret,
}
use virtual_yubihsm.Device.Put.{require_enabled}

-- `matches!(algorithm, SignatureScheme::Ed25519 | SignatureScheme::Ed448)`
abbrev is_edwards : SignatureScheme → Bool
is_edwards SignatureScheme.ed25519 = true
is_edwards SignatureScheme.ed448 = true
is_edwards _ = false

abbrev edwards_scheme : Option Algorithm → Result SignatureScheme
edwards_scheme (some Algorithm.ed25519) = ok SignatureScheme.ed25519
edwards_scheme (some Algorithm.ed448) = ok SignatureScheme.ed448
edwards_scheme _ = err invalid_data

abbrev hedge_mode : ℕ → Result MlDsaRandomization
hedge_mode mode =
    ok_or
      (match_byte
        ((0, MlDsaRandomization.deterministic)
          ∷ (1, MlDsaRandomization.randomized)
          ∷ (2, MlDsaRandomization.hedge_preferred)
          ∷ [])
        mode)
      invalid_data

-- The bytes that a public key adds to the answer; a point is without its first byte.
abbrev public_bytes : SoftwarePublicKey → List ℕ
public_bytes (SoftwarePublicKey.ec point) = drop 1 point
public_bytes (SoftwarePublicKey.edwards curve public_key) = public_key
public_bytes (SoftwarePublicKey.rsa modulus exponent) = modulus
public_bytes (SoftwarePublicKey.ml_dsa public_key) = public_key

-- The types whose public key can be read
abbrev has_public_key : ObjectType → Bool
has_public_key ObjectType.asymmetric_key = true
has_public_key ObjectType.authentication_key = true
has_public_key ObjectType.wrap_key = true
has_public_key ObjectType.public_wrap_key = true
has_public_key _ = false

module _ ⦃keys : Keys⦄ where
  abbrev authentication_public : ObjectMaterial → Result (List ℕ)
  authentication_public (ObjectMaterial.authentication (AuthenticationKeyMaterial.asymmetric key)) =
      ok key
  authentication_public _ = err invalid_data

  abbrev wrap_public : ObjectMaterial → Result (List ℕ)
  wrap_public (ObjectMaterial.public modulus) = ok modulus
  wrap_public _ = err invalid_data

  -- The keys that are neither post-quantum nor metadata: Montgomery keys by their algorithm.
  curve_public : ObjectRecord → Result (List ℕ)
  curve_public object = elim (montgomery_algorithm object.info.algorithm) [
    | some curve ↦
        montgomery_key object >>= λ (key : keys.MontgomeryKey). ok (keys.montgomery_public_key key)
    | none ↦
        signing_key object >>= λ (key : keys.SigningKey). ok (public_bytes (keys.public_key key))
  ]

  private_public : ObjectRecord → ObjectMaterial → Result (List ℕ)
  unfolding curve_public
  private_public object (ObjectMaterial.ml_kem_key key) = ok (keys.ml_kem_public_key key)
  private_public object (ObjectMaterial.hybrid_kem_key key) =
      ok_or (keys.hybrid_public_key key) invalid_data
  private_public object _ = curve_public object

  public_of : ObjectRecord → ObjectType → Result (List ℕ)
  unfolding private_public
  public_of object ObjectType.authentication_key = authentication_public object.material
  public_of object ObjectType.public_wrap_key = wrap_public object.material
  public_of object _ = private_public object object.material

  unfoldable pub get_public_key : Device → SessionAuthorization → List ℕ → Result (List ℕ)
  unfolding public_of
  get_public_key device authorization request_data = do
    key ← decode get_public_key_request request_data
    guard (has_public_key key.object_type) invalid_data
    object ← ok_or (get key device.objects) object_not_found
    require_visible authorization object.info
    public ← public_of object object.info.object_type
    ok (object.info.algorithm ∷ public)

  abbrev ml_kem_key_of : ObjectMaterial → Result keys.MlKemKey
  ml_kem_key_of (ObjectMaterial.ml_kem_key key) = ok key
  ml_kem_key_of _ = err invalid_data

  abbrev hybrid_kem_key_of : ObjectMaterial → Result keys.HybridKemKey
  hybrid_kem_key_of (ObjectMaterial.hybrid_kem_key key) = ok key
  hybrid_kem_key_of _ = err invalid_data

module _ ⦃keys : Keys⦄ (platform : Platform) where
  -- A stored object of this type that the session sees and whose algorithm is enabled, as the
  -- handlers look up their keys.
  unfoldable pub enabled_object :
      Device → SessionAuthorization → ObjectType → ℕ → Result ObjectRecord
  enabled_object device authorization object_type id = do
    object ← ok_or (get (key_of object_type id) device.objects) object_not_found
    require_visible authorization object.info
    require_enabled platform device object.info.algorithm
    ok object

  abbrev pub asymmetric_object : Device → SessionAuthorization → ℕ → Result ObjectRecord
  asymmetric_object device authorization =
      enabled_object device authorization ObjectType.asymmetric_key

  abbrev sign_rsa : keys.SigningKey → List ℕ → Option RsaHashAlgorithm → Option (List ℕ)
  sign_rsa key payload (some hash) = platform.sign_rsa_pkcs1v15_digest key hash payload
  sign_rsa key payload none = platform.sign_rsa_pkcs1v15_payload key payload

  unfoldable pub sign_pkcs1 : Device → SessionAuthorization → List ℕ → Result (List ℕ)
  sign_pkcs1 device authorization request_data = do
    request ← decode id_remainder_request request_data
    let payload = request.remainder
    guard (not (length payload == 0)) wrong_length
    object ← asymmetric_object device authorization request.id
    key ← rsa_key object
    ok_or (sign_rsa key payload (rsa_hash_from_digest_length (length payload))) invalid_data

  unfoldable pub sign_pss : Device → SessionAuthorization → List ℕ → Result (List ℕ)
  sign_pss device authorization request_data = do
    request ← decode sign_pss_request request_data
    guard (not (length request.digest == 0)) wrong_length
    object ← asymmetric_object device authorization request.id
    mgf_hash ← rsa_mgf_hash request.mgf_hash
    hash ← ok_or (rsa_hash_from_digest_length (length request.digest)) wrong_length
    key ← rsa_key object
    ok_or (platform.sign_rsa_pss_digest key hash mgf_hash request.salt_length request.digest)
        invalid_data

  unfoldable pub sign_ecdsa : Device → SessionAuthorization → List ℕ → Result (List ℕ)
  sign_ecdsa device authorization request_data = do
    request ← decode id_remainder_request request_data
    guard (not (length request.remainder == 0)) wrong_length
    object ← asymmetric_object device authorization request.id
    (scheme, size) ← asymmetric_key_algorithm object.info.algorithm
    guard (not (is_edwards scheme)) invalid_data
    curve ← ok_or (platform.ec_curve scheme) invalid_data
    key ← signing_key object
    ok_or (platform.sign_ecdsa_der key scheme request.remainder curve) invalid_data

  unfoldable pub sign_ml_dsa : Device → SessionAuthorization → List ℕ → Result (List ℕ)
  sign_ml_dsa device authorization request_data = do
    request ← decode (sign_ml_dsa_request platform.prehash_length) request_data
    object ← asymmetric_object device authorization request.id
    require_enabled platform device object.info.algorithm
    mode ← hedge_mode request.mode
    signing ← signing_key object
    key ← ok_or (keys.as_ml_dsa signing) invalid_data
    ok_or (platform.sign_ml_dsa key request.message request.context request.prehash mode)
        invalid_data

  unfoldable pub encapsulate_ml_kem : Device → SessionAuthorization → List ℕ → Result (List ℕ)
  encapsulate_ml_kem device authorization request_data = do
    id ← decode encapsulate_request request_data
    object ← asymmetric_object device authorization id
    require_enabled platform device object.info.algorithm
    key ← ml_kem_key_of object.material
    (ciphertext, secret) ←
        ok_or
          (platform.ml_kem_encapsulate (keys.ml_kem_parameter_set key) (keys.ml_kem_public_key key))
          invalid_data
    ok (ciphertext ++ secret)

  unfoldable pub decapsulate_ml_kem : Device → SessionAuthorization → List ℕ → Result (List ℕ)
  decapsulate_ml_kem device authorization request_data = do
    request ← decode id_remainder_request request_data
    let ciphertext = request.remainder
    guard (not (length ciphertext == 0)) wrong_length
    object ← asymmetric_object device authorization request.id
    require_enabled platform device object.info.algorithm
    key ← ml_kem_key_of object.material
    guard (length ciphertext == keys.ml_kem_ciphertext_length (keys.ml_kem_parameter_set key))
        wrong_length
    ok_or (platform.ml_kem_decapsulate key ciphertext) invalid_data

  unfoldable pub encapsulate_hybrid_kem : Device → SessionAuthorization → List ℕ → Result (List ℕ)
  encapsulate_hybrid_kem device authorization request_data = do
    id ← decode encapsulate_request request_data
    object ← asymmetric_object device authorization id
    require_enabled platform device object.info.algorithm
    key ← hybrid_kem_key_of object.material
    public ← ok_or (keys.hybrid_public_key key) invalid_data
    (ciphertext, secret) ←
        ok_or (platform.hybrid_kem_encapsulate (keys.hybrid_construction key) public) invalid_data
    ok (ciphertext ++ secret)

  unfoldable pub decapsulate_hybrid_kem : Device → SessionAuthorization → List ℕ → Result (List ℕ)
  decapsulate_hybrid_kem device authorization request_data = do
    request ← decode id_remainder_request request_data
    let ciphertext = request.remainder
    object ← asymmetric_object device authorization request.id
    require_enabled platform device object.info.algorithm
    key ← hybrid_kem_key_of object.material
    guard (length ciphertext == keys.hybrid_ciphertext_length (keys.hybrid_construction key))
        wrong_length
    ok_or (platform.hybrid_kem_decapsulate key ciphertext) invalid_data

  unfoldable pub sign_eddsa : Device → SessionAuthorization → List ℕ → Result (List ℕ)
  sign_eddsa device authorization request_data = do
    request ← decode id_remainder_request request_data
    object ← asymmetric_object device authorization request.id
    scheme ← edwards_scheme (Algorithm.from_byte object.info.algorithm)
    key ← signing_key object
    ok_or (platform.sign_message key scheme request.remainder) invalid_data

  unfoldable pub derive_ecdh : Device → SessionAuthorization → List ℕ → Result (List ℕ)
  derive_ecdh device authorization request_data = do
    request ← decode id_remainder_request request_data
    guard (not (length request.remainder == 0)) wrong_length
    object ← asymmetric_object device authorization request.id
    raw_ecdh_secret platform object request.remainder

  unfoldable pub derive_ecdh_kdf : Device → SessionAuthorization → List ℕ → Result (List ℕ)
  derive_ecdh_kdf device authorization request_data = do
    request ← decode derive_ecdh_kdf_request request_data
    hash ← ecdh_kdf_hash request.hash
    let output_length = request.output_length
    if (output_length == 0) || not (secure_response_data_fits output_length)
        then err wrong_length
        else (do
          object ← asymmetric_object device authorization request.id
          shared_secret ← raw_ecdh_secret platform object request.peer_public
          ok_or
              (platform.x963_kdf hash (request.prefix ++ shared_secret) request.shared_info
                output_length)
              invalid_data)

  unfoldable pub decrypt_pkcs1 : Device → SessionAuthorization → List ℕ → Result (List ℕ)
  decrypt_pkcs1 device authorization request_data = do
    request ← decode id_remainder_request request_data
    guard (not (length request.remainder == 0)) wrong_length
    object ← asymmetric_object device authorization request.id
    key ← rsa_key object
    ok_or (platform.decrypt_rsa_pkcs1v15 key request.remainder) invalid_data

  unfoldable pub decrypt_oaep : Device → SessionAuthorization → List ℕ → Result (List ℕ)
  decrypt_oaep device authorization request_data = do
    request ← decode decrypt_oaep_request request_data
    object ← asymmetric_object device authorization request.id
    modulus_length ← rsa_modulus_length object
    let whole = request.ciphertext_and_label
    guard (leb modulus_length (length whole)) wrong_length
    guard (contains (20 ∷ 32 ∷ 48 ∷ 64 ∷ []) (length whole - modulus_length)) wrong_length
    mgf_hash ← rsa_mgf_hash request.mgf_hash
    key ← rsa_key object
    ok_or
        (platform.decrypt_rsa_oaep_digest key (take modulus_length whole)
          (drop modulus_length whole) mgf_hash)
        invalid_data
