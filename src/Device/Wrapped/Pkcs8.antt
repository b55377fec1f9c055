-- ===== src/Device/Wrapped/Pkcs8.antt =====
-- crates/virtual-yubihsm-core/src/device.rs: private keys as PKCS #8. The DER codec is that of the
-- platform, and the keys of software-key-core have their own.
use virtual_yubihsm.Prelude.{
  ℕ, Bool, true, false, not, ◌&&◌, ◌||◌, Option, none, some, List, [], ◌∷◌, length, bytes_eq,
  is_some, ◌==◌, if◌then◌else◌,
}
use virtual_yubihsm.Error.{Result, ok, err, ok_or, guard, ◌>>=◌, ◌>>◌, invalid_data}
use virtual_yubihsm.Keys.{Keys, Platform, MontgomeryCurve, SoftwarePublicKey}
use virtual_yubihsm.Algorithm.{Algorithm, is_rsa_key, asymmetric_key_length, ml_dsa_parameters}
use virtual_yubihsm.Object.Material.{ObjectMaterial, montgomery_of, parsed}
use virtual_yubihsm.Object.Record.{ObjectRecord, is_some_of}
use virtual_yubihsm.Device.Tables.{asymmetric_key_kind, montgomery_algorithm, montgomery_oid}
use virtual_yubihsm.Device.Material.{signing_key, montgomery_key_for_curve}

-- `algorithm.asymmetric_key_length() != key.private_value().map(len)`
abbrev same_length : Option ℕ → Option (List ℕ) → Bool
same_length none none = true
same_length (some n) (some private) = n == length private
same_length _ _ = false

module _ ⦃keys : Keys⦄ (platform : Platform) where
  unfoldable pub montgomery_pkcs8 : MontgomeryCurve → List ℕ → Result (List ℕ)
  montgomery_pkcs8 curve secret = do
    key ← ok_or (keys.montgomery_from_serialized curve secret) invalid_data
    inner ← ok_or (platform.octet_string_to_der secret) invalid_data
    ok_or
        (platform.private_key_info_to_der (record {
          version = 0;
          oid = montgomery_oid curve;
          has_parameters = false;
          private_key = inner;
        }))
        invalid_data

  unfoldable pub montgomery_from_pkcs8 : MontgomeryCurve → List ℕ → Result (List ℕ)
  montgomery_from_pkcs8 curve encoded = do
    info ← ok_or (platform.private_key_info_from_der encoded) invalid_data
    guard
        ((info.version == 0)
          && (bytes_eq info.oid (montgomery_oid curve) && not info.has_parameters))
        invalid_data
    secret ← ok_or (platform.octet_string_from_der info.private_key) invalid_data
    key ← ok_or (keys.montgomery_from_serialized curve secret) invalid_data
    ok secret

  unfoldable pub asymmetric_pkcs8 : ObjectRecord → Result (List ℕ)
  unfolding montgomery_pkcs8
  asymmetric_pkcs8 object = elim (montgomery_algorithm object.info.algorithm) [
    | some curve ↦ montgomery_key_for_curve object curve >>= λ (key : keys.MontgomeryKey).
        montgomery_pkcs8 curve (keys.montgomery_serialized key)
    | none ↦
        signing_key object >>= λ (key : keys.SigningKey). ok_or (keys.to_pkcs8_der key) invalid_data
  ]

  abbrev rsa_public : SoftwarePublicKey → Result (List ℕ × List ℕ)
  rsa_public (SoftwarePublicKey.rsa modulus exponent) = ok (modulus, exponent)
  rsa_public _ = err invalid_data

  signing_from_pkcs8 : Algorithm → List ℕ → Result ObjectMaterial
  signing_from_pkcs8 algorithm encoded = do
    kind ← asymmetric_key_kind algorithm
    key ← ok_or (keys.from_pkcs8_der_for_kind kind encoded) invalid_data
    if is_rsa_key algorithm
        then (do
          (modulus, exponent) ← rsa_public (keys.public_key key)
          if not (bytes_eq exponent (1 ∷ 0 ∷ 1 ∷ []))
                || not (is_some_of (asymmetric_key_length algorithm) (length modulus))
              then err invalid_data
              else ok (ObjectMaterial.signing_key key))
        else if not (is_some (ml_dsa_parameters algorithm))
            && not (same_length (asymmetric_key_length algorithm) (keys.private_value key))
        then err invalid_data
        else ok (ObjectMaterial.signing_key key)

  unfoldable pub asymmetric_material_from_pkcs8 : Algorithm → List ℕ → Result ObjectMaterial
  unfolding montgomery_from_pkcs8 signing_from_pkcs8
  asymmetric_material_from_pkcs8 algorithm encoded = elim (montgomery_of algorithm) [
    | some curve ↦ montgomery_from_pkcs8 curve encoded >>= λ (serialized : List ℕ).
        parsed ObjectMaterial.montgomery_key (keys.montgomery_from_serialized curve serialized)
    | none ↦ signing_from_pkcs8 algorithm encoded
  ]
