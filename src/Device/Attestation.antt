-- ===== src/Device/Attestation.antt =====
-- crates/virtual-yubihsm-core/src/device.rs: the attestation of a key. Which keys may be attested
-- and with what metadata is decided here; the X.509 builder is that of the platform.
use virtual_yubihsm.Prelude.{
  ℕ, Bool, true, not, Option, none, some, List, [], ◌∷◌, ◌++◌, bit_and, to_be_bytes, ◌==◌,
  if◌then◌else◌,
}
use virtual_yubihsm.Prelude.OrderedMap.{get}
use virtual_yubihsm.Error.{Result, ok, err, ok_or, guard, ◌>>=◌, ◌>>◌, invalid_data, storage_failed}
use virtual_yubihsm.Keys.{
  Keys, Platform, SoftwarePublicKey, CertifiedKey, of_signing, of_montgomery, of_hybrid,
}
use virtual_yubihsm.Algorithm.{Algorithm, is_rsa_key, is_weierstrass_key}
use virtual_yubihsm.Algorithm
use virtual_yubihsm.Capability.{none_set}
use virtual_yubihsm.Wire.{decode}
use virtual_yubihsm.Object.{ObjectInfo, ObjectType, key_order}
use virtual_yubihsm.Object.Material.{ObjectMaterial}
use virtual_yubihsm.Object.Record.{ObjectRecord}
use virtual_yubihsm.Request.Keys.{sign_attestation_certificate_request}
use virtual_yubihsm.Authorization.{SessionAuthorization, require_visible}
use virtual_yubihsm.Device.Authorize.{key_of}
use virtual_yubihsm.Device.State.{Device, DeviceConfig}
use virtual_yubihsm.Device.Tables.{montgomery_algorithm}
use virtual_yubihsm.Device.Material.{signing_key, montgomery_key_for_curve}
use virtual_yubihsm.Device.Put.{require_enabled}
use virtual_yubihsm.Device.Use.{asymmetric_object}

-- `b"Virtual YubiHSM device key"`
abbrev device_key_label : List ℕ
device_key_label =
    86 ∷ 105 ∷ 114 ∷ 116 ∷ 117 ∷ 97 ∷ 108 ∷ 32 ∷ 89 ∷ 117 ∷ 98 ∷ 105 ∷ 72 ∷ 83 ∷ 77 ∷ 32 ∷ 100 ∷ 101
    ∷ 118 ∷ 105 ∷ 99 ∷ 101 ∷ 32 ∷ 107 ∷ 101 ∷ 121 ∷ []

abbrev device_key_info : ObjectInfo
device_key_info = record {
  capabilities = none_set;
  id = 0;
  length = 96;
  domains = 0;
  object_type = ObjectType.asymmetric_key;
  algorithm = 12;
  sequence = 0;
  origin = 0;
  label = device_key_label;
  delegated_capabilities = none_set;
}

-- The last arc of each extension's identifier, with its value
unfoldable pub attestation_metadata_extensions : DeviceConfig → ObjectInfo → List (ℕ × List ℕ)
attestation_metadata_extensions config target =
    (1, config.version)
    ∷ (2, to_be_bytes 4 config.serial)
    ∷ (3, target.origin ∷ [])
    ∷ (4, to_be_bytes 2 target.domains)
    ∷ (5, target.capabilities)
    ∷ (6, to_be_bytes 2 target.id)
    ∷ (9, target.label)
    ∷ []

abbrev agrees : Algorithm → Bool
agrees Algorithm.ecdh = true
agrees Algorithm.x25519 = true
agrees Algorithm.x448 = true
agrees algorithm = is_weierstrass_key algorithm

abbrev ec_only : SoftwarePublicKey → Result CertifiedKey
ec_only (SoftwarePublicKey.ec point) = ok (of_signing (SoftwarePublicKey.ec point))
ec_only _ = err storage_failed

abbrev not_ml_dsa : SoftwarePublicKey → Result CertifiedKey
not_ml_dsa (SoftwarePublicKey.ml_dsa public_key) = err invalid_data
not_ml_dsa public_key = ok (of_signing public_key)

module _ ⦃keys : Keys⦄ where
  certified_curve : ObjectRecord → Result CertifiedKey
  certified_curve object = elim (montgomery_algorithm object.info.algorithm) [
    | some curve ↦ montgomery_key_for_curve object curve >>= λ (key : keys.MontgomeryKey).
        ok (of_montgomery curve (keys.montgomery_public_key key))
    | none ↦ signing_key object >>= λ (key : keys.SigningKey). not_ml_dsa (keys.public_key key)
  ]

  certified_key : ObjectRecord → ObjectMaterial → Result CertifiedKey
  unfolding certified_curve
  certified_key object (ObjectMaterial.hybrid_kem_key key) = do
    public ← ok_or (keys.hybrid_public_key key) invalid_data
    ok (of_hybrid (keys.hybrid_construction key) public)
  certified_key object _ = certified_curve object

  unfoldable pub object_subject_public_key_info : ObjectRecord → Result CertifiedKey
  unfolding certified_key
  object_subject_public_key_info object = certified_key object object.material

module _ ⦃keys : Keys⦄ (platform : Platform) where
  -- Only a key that was generated on the device is attested.
  attested : Device → SessionAuthorization → ℕ → Result (CertifiedKey × ObjectInfo)
  unfolding object_subject_public_key_info
  attested device authorization target_id =
      if target_id == 0
      then (do
        key ← ec_only (keys.public_key device.device_static_private)
        ok (key, device_key_info))
      else (do
        target ← asymmetric_object platform device authorization target_id
        guard (not (bit_and target.info.origin 1 == 0)) invalid_data
        require_enabled platform device target.info.algorithm
        key ← object_subject_public_key_info target
        ok (key, target.info))

  attesting_private : Device → SessionAuthorization → ℕ → Result keys.SigningKey
  attesting_private device authorization attesting_id =
      if attesting_id == 0 then ok device.device_static_private else (do
        attesting ← asymmetric_object platform device authorization attesting_id
        guard (attesting.info.algorithm == Algorithm.to_byte Algorithm.ec_p256) invalid_data
        signing_key attesting)

  abbrev certificate_of : ObjectMaterial → Result (Option (List ℕ))
  certificate_of (ObjectMaterial.opaque encoded) = ok (some encoded)
  certificate_of _ = err invalid_data

  template_of : SessionAuthorization → Option ObjectRecord → Result (Option (List ℕ))
  template_of authorization none = ok none
  template_of authorization (some template) = do
    require_visible authorization template.info
    guard (template.info.algorithm == Algorithm.to_byte Algorithm.opaque_x509_certificate)
        invalid_data
    certificate_of template.material

  -- `attesting_id != 0` and the lookup
  template_at : Device → ℕ → Option ObjectRecord
  template_at device attesting_id =
      if attesting_id == 0 then none else get (key_of ObjectType.opaque attesting_id) device.objects

  unfoldable pub sign_attestation_certificate :
      Device → SessionAuthorization → List ℕ → Result (List ℕ)
  unfolding attested attesting_private template_of template_at attestation_metadata_extensions
  sign_attestation_certificate device authorization request_data = do
    request ← decode sign_attestation_certificate_request request_data
    (target, target_info) ← attested device authorization request.target_id
    signer ← attesting_private device authorization request.attesting_id
    platform.certificate_signer signer
    template ← template_of authorization (template_at device request.attesting_id)
    algorithm ← ok_or (Algorithm.from_byte target_info.algorithm) invalid_data
    platform.build_certificate (record {
      target = target;
      target_id = request.target_id;
      attesting_id = request.attesting_id;
      signer = signer;
      template = template;
      key_agreement = agrees algorithm;
      key_encipherment = is_rsa_key algorithm;
      metadata_extensions = attestation_metadata_extensions device.config target_info;
      serial_number =
          to_be_bytes 4 device.config.serial
          ++ (to_be_bytes 2 request.target_id ++ to_be_bytes 2 request.attesting_id);
    })
