-- ===== src/Device/Material.antt =====
-- crates/virtual-yubihsm-core/src/device.rs: how a command makes the key material of an object, and
-- how it takes a key out of one.
use virtual_yubihsm.Prelude.{
  ℕ, ◌+◌, ◌*◌, ◌/◌, Bool, not, ◌&&◌, ◌||◌, Option, none, some, List, [], ◌∷◌, length, take, drop,
  contains, is_some, ◌==◌, if◌then◌else◌,
}
use virtual_yubihsm.Error.{
  Result, ok, err, ok_or, guard, ◌>>=◌, ◌>>◌, invalid_data, wrong_length, storage_failed,
}
use virtual_yubihsm.Keys.{
  Keys, Platform, KeyKind, MontgomeryCurve, MlKemParameterSet, MlDsaParameterSet,
  HybridKemConstruction,
}
use virtual_yubihsm.Algorithm.{
  Algorithm, is_rsa_key, asymmetric_key_length, ml_dsa_parameters, ml_kem_parameters,
  hybrid_kem_construction,
}
use virtual_yubihsm.Algorithm
use virtual_yubihsm.Object.Material.{
  AuthenticationKeyMaterial, symmetric, asymmetric, ObjectMaterial, montgomery_of, parsed,
}
use virtual_yubihsm.Object.Record.{ObjectRecord}
use virtual_yubihsm.Session.Secure.{
  authentication_algorithm_aes128_yubico, authentication_algorithm_ec_p256,
}
use virtual_yubihsm.Device.Tables.{
  asymmetric_key_kind, montgomery_algorithm, curve_eq, bool_eq, hmac_hash,
}

module _ ⦃keys : Keys⦄ where
  -- `let SoftwareSigningKey::Rsa(..)` and the like say which variant a key has.
  abbrev pub signing_key_of : ObjectMaterial → Result keys.SigningKey
  signing_key_of (ObjectMaterial.signing_key key) = ok key
  signing_key_of _ = err invalid_data

  unfoldable pub signing_key : ObjectRecord → Result keys.SigningKey
  signing_key object = do
    key ← signing_key_of object.material
    algorithm ← ok_or (Algorithm.from_byte object.info.algorithm) invalid_data
    if is_some (montgomery_of algorithm)
          || not (bool_eq (is_rsa_key algorithm) (is_some (keys.as_rsa key)))
        then err invalid_data
        else ok key

  unfoldable pub rsa_key : ObjectRecord → Result keys.SigningKey
  unfolding signing_key
  rsa_key object = do
    algorithm ← ok_or (Algorithm.from_byte object.info.algorithm) invalid_data
    guard (is_rsa_key algorithm) invalid_data
    signing_key object

  abbrev rsa_length : Algorithm → Result ℕ
  rsa_length algorithm =
      if is_rsa_key algorithm
      then ok_or (asymmetric_key_length algorithm) invalid_data
      else err invalid_data

  unfoldable pub rsa_modulus_length : ObjectRecord → Result ℕ
  rsa_modulus_length object =
      ok_or (Algorithm.from_byte object.info.algorithm) invalid_data >>= rsa_length

  abbrev montgomery_key_of : ObjectMaterial → Result keys.MontgomeryKey
  montgomery_key_of (ObjectMaterial.montgomery_key key) = ok key
  montgomery_key_of _ = err invalid_data

  unfoldable pub montgomery_key_for_curve :
      ObjectRecord → MontgomeryCurve → Result keys.MontgomeryKey
  montgomery_key_for_curve object curve = do
    key ← montgomery_key_of object.material
    if not (curve_eq (keys.montgomery_curve key) curve) then err invalid_data else ok key

  unfoldable pub montgomery_key : ObjectRecord → Result keys.MontgomeryKey
  unfolding montgomery_key_for_curve
  montgomery_key object =
      ok_or (montgomery_algorithm object.info.algorithm) invalid_data
      >>= montgomery_key_for_curve object

  abbrev secret_of : ObjectMaterial → Result (List ℕ)
  secret_of (ObjectMaterial.secret secret) = ok secret
  secret_of _ = err invalid_data

  unfoldable pub object_secret : ObjectRecord → Result (List ℕ)
  object_secret object = secret_of object.material

  abbrev otp_aead_of : ObjectMaterial → Result (List ℕ × List ℕ)
  otp_aead_of (ObjectMaterial.otp_aead_key nonce_id key) = ok (nonce_id, key)
  otp_aead_of _ = err invalid_data

  unfoldable pub otp_aead_material : ObjectRecord → Result (List ℕ × List ℕ)
  otp_aead_material object = otp_aead_of object.material

module _ ⦃keys : Keys⦄ (platform : Platform) where
  unfoldable pub parse_authentication_key_material : ℕ → List ℕ → Result AuthenticationKeyMaterial
  parse_authentication_key_material algorithm key =
      if (algorithm == authentication_algorithm_aes128_yubico) && (length key == 32)
      then ok (symmetric key)
      else if (algorithm == authentication_algorithm_ec_p256) && (length key == 64)
      then guard (platform.validate_ec_public_key (0x04 ∷ key)) invalid_data >> ok (asymmetric key)
      else if (algorithm == authentication_algorithm_aes128_yubico)
          || (algorithm == authentication_algorithm_ec_p256)
      then err wrong_length
      else err invalid_data

  ml_kem_material : MlKemParameterSet → Bool → List ℕ → Result ObjectMaterial
  ml_kem_material parameters generate supplied =
      let expanded = keys.ml_kem_expanded_length parameters in
      if (generate && not (length supplied == 0))
        || (not generate && not (contains (64 ∷ expanded ∷ (64 + expanded) ∷ []) (length supplied)))
      then err wrong_length
      else parsed ObjectMaterial.ml_kem_key (
          if generate
          then platform.generate_ml_kem parameters
          else keys.ml_kem_from_serialized parameters supplied)

  hybrid_kem_material : HybridKemConstruction → Bool → List ℕ → Result ObjectMaterial
  hybrid_kem_material construction generate supplied =
      if (generate && not (length supplied == 0)) || (not generate && not (length supplied == 32))
      then err wrong_length
      else parsed ObjectMaterial.hybrid_kem_key (
          if generate
          then platform.generate_hybrid_kem construction
          else keys.hybrid_from_seed construction supplied)

  montgomery_material : MontgomeryCurve → ℕ → Bool → List ℕ → Result ObjectMaterial
  montgomery_material curve expected_length generate supplied =
      if generate
      then (do
        key ← ok_or (platform.generate_montgomery curve) storage_failed
        ok (ObjectMaterial.montgomery_key key))
      else if not (length supplied == expected_length)
      then err wrong_length
      else parsed ObjectMaterial.montgomery_key (keys.montgomery_from_serialized curve supplied)

  rsa_key_material : ℕ → Bool → List ℕ → Result ObjectMaterial
  rsa_key_material expected_length generate supplied =
      if generate
      then (do
        key ← ok_or (platform.generate_for_kind (KeyKind.rsa (expected_length * 8))) storage_failed
        ok (ObjectMaterial.signing_key key))
      else if not (length supplied == expected_length)
      then err wrong_length
      else parsed ObjectMaterial.signing_key (
          keys.from_rsa_primes (take (expected_length / 2) supplied)
            (drop (expected_length / 2) supplied) (1 ∷ 0 ∷ 1 ∷ []))

  ml_dsa_material : MlDsaParameterSet → Bool → List ℕ → Result ObjectMaterial
  ml_dsa_material parameters generate supplied =
      let expanded = keys.ml_dsa_expanded_length parameters in
      if not generate && not (contains (32 ∷ expanded ∷ (32 + expanded) ∷ []) (length supplied))
      then err wrong_length
      else (do
        key ←
            if generate
            then ok_or (platform.generate_ml_dsa parameters) storage_failed
            else ok_or (keys.ml_dsa_from_serialized parameters supplied) invalid_data
        ok (ObjectMaterial.signing_key (keys.ml_dsa_signing_key key)))

  abbrev serialized_length : Option (List ℕ) → ℕ
  serialized_length none = 0
  serialized_length (some secret) = length secret

  curve_material : KeyKind → ℕ → Bool → List ℕ → Result ObjectMaterial
  curve_material key_kind expected_length generate supplied = do
    key ←
        if generate
        then ok_or (platform.generate_for_kind key_kind) storage_failed
        else if not (length supplied == expected_length)
        then err wrong_length
        else ok_or (keys.from_serialized_for_kind key_kind supplied) invalid_data
    if not (serialized_length (keys.serialized key) == expected_length)
        then err invalid_data
        else ok (ObjectMaterial.signing_key key)

  ml_dsa_or_curve : Option MlDsaParameterSet → Algorithm → ℕ → Bool → List ℕ → Result ObjectMaterial
  unfolding ml_dsa_material curve_material
  ml_dsa_or_curve (some parameters) algorithm expected_length generate supplied = do
    key_kind ← asymmetric_key_kind algorithm
    ml_dsa_material parameters generate supplied
  ml_dsa_or_curve none algorithm expected_length generate supplied = do
    key_kind ← asymmetric_key_kind algorithm
    curve_material key_kind expected_length generate supplied

  montgomery_or_signing :
      Option MontgomeryCurve → Algorithm → ℕ → Bool → List ℕ → Result ObjectMaterial
  unfolding montgomery_material rsa_key_material ml_dsa_or_curve
  montgomery_or_signing (some curve) algorithm expected_length generate supplied =
      montgomery_material curve expected_length generate supplied
  montgomery_or_signing none algorithm expected_length generate supplied =
      if is_rsa_key algorithm
      then rsa_key_material expected_length generate supplied
      else ml_dsa_or_curve (ml_dsa_parameters algorithm) algorithm expected_length generate supplied

  by_parameters :
      Option MlKemParameterSet
      → Option HybridKemConstruction
      → Algorithm
      → ℕ
      → Bool
      → List ℕ
      → Result ObjectMaterial
  unfolding ml_kem_material hybrid_kem_material montgomery_or_signing
  by_parameters (some parameters) _ algorithm expected_length generate supplied =
      ml_kem_material parameters generate supplied
  by_parameters none (some construction) algorithm expected_length generate supplied =
      hybrid_kem_material construction generate supplied
  by_parameters none none algorithm expected_length generate supplied =
      if generate && not (length supplied == 0)
      then err wrong_length
      else montgomery_or_signing (montgomery_of algorithm) algorithm expected_length generate
          supplied

  unfoldable pub asymmetric_key_material : Algorithm → Bool → List ℕ → Result ObjectMaterial
  unfolding by_parameters
  asymmetric_key_material algorithm generate supplied = do
    expected_length ← ok_or (asymmetric_key_length algorithm) invalid_data
    by_parameters (ml_kem_parameters algorithm) (hybrid_kem_construction algorithm) algorithm
        expected_length generate supplied

  unfoldable pub calculate_hmac : ObjectRecord → List ℕ → Result (List ℕ)
  unfolding object_secret
  calculate_hmac object message = do
    secret ← object_secret object
    algorithm ← hmac_hash object.info.algorithm
    ok_or (platform.hmac algorithm secret message) invalid_data

  unfoldable pub raw_ecdh_secret : ObjectRecord → List ℕ → Result (List ℕ)
  unfolding montgomery_key signing_key
  raw_ecdh_secret object peer_public =
      if is_some (montgomery_algorithm object.info.algorithm)
      then (do
        key ← montgomery_key object
        ok_or (platform.montgomery_derive key peer_public) invalid_data)
      else (do
        key ← signing_key object
        ok_or (platform.derive_with_signing_key key peer_public) invalid_data)
