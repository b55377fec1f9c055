-- ===== src/Object/Stored.antt =====
-- crates/virtual-yubihsm-core/src/object.rs: the persistent form of an object, which holds no
-- parsed key.
use virtual_yubihsm.Prelude.{ℕ, ◌/◌, List, ◌++◌, length, if◌then◌else◌}
use virtual_yubihsm.Error.{Result, ok, ok_or, ◌>>=◌, invalid_data}
use virtual_yubihsm.Keys.{Keys}
use virtual_yubihsm.Algorithm.{Algorithm, is_rsa_key, asymmetric_key_length}
use virtual_yubihsm.Algorithm
use virtual_yubihsm.Object.{ObjectInfo}
use virtual_yubihsm.Object.Material.{
  AuthenticationKeyMaterial, symmetric, asymmetric, ObjectMaterial, left_pad,
  typed_private_material,
}
use virtual_yubihsm.Object.Record.{ObjectRecord, holds_private_key}

pub data StoredObjectMaterial : Type 0 where
  authentication : AuthenticationKeyMaterial → StoredObjectMaterial
  secret : List ℕ → StoredObjectMaterial
  opaque : List ℕ → StoredObjectMaterial
  public : List ℕ → StoredObjectMaterial
  otp_aead_key : List ℕ → List ℕ → StoredObjectMaterial

pub record StoredObjectRecord : Type 0 where
  pub info : ObjectInfo
  pub material : StoredObjectMaterial

unfoldable pub stored_length : StoredObjectMaterial → ℕ
stored_length (authentication (symmetric value)) = length value
stored_length (authentication (asymmetric value)) = length value
stored_length (secret value) = length value
stored_length (opaque value) = length value
stored_length (public value) = length value
stored_length (otp_aead_key nonce_id key) = length key

module _ ⦃keys : Keys⦄ where
  -- Both primes, padded to half the length of the modulus.
  unfoldable pub stored_primes : Algorithm → keys.SigningKey → Result (List ℕ)
  stored_primes algorithm key = do
    (p, q) ← ok_or (keys.rsa_crt_primes key) invalid_data
    whole ← ok_or (asymmetric_key_length algorithm) invalid_data
    left ← left_pad p (whole / 2)
    right ← left_pad q (whole / 2)
    ok (left ++ right)

  unfoldable pub stored_signing_key : ℕ → keys.SigningKey → Result (List ℕ)
  unfolding stored_primes
  stored_signing_key byte key = do
    algorithm ← ok_or (Algorithm.from_byte byte) invalid_data
    if is_rsa_key algorithm
        then stored_primes algorithm key
        else ok_or (keys.serialized key) invalid_data

  unfoldable pub stored_material : ℕ → ObjectMaterial → Result StoredObjectMaterial
  unfolding stored_signing_key
  stored_material byte (ObjectMaterial.authentication value) = ok (authentication value)
  stored_material byte (ObjectMaterial.signing_key key) = do
    encoded ← stored_signing_key byte key
    ok (secret encoded)
  stored_material byte (ObjectMaterial.montgomery_key key) =
      ok (secret (keys.montgomery_serialized key))
  stored_material byte (ObjectMaterial.ml_kem_key key) = ok (secret (keys.ml_kem_serialized key))
  stored_material byte (ObjectMaterial.hybrid_kem_key key) = ok (secret (keys.hybrid_seed key))
  stored_material byte (ObjectMaterial.secret value) = ok (secret value)
  stored_material byte (ObjectMaterial.opaque value) = ok (opaque value)
  stored_material byte (ObjectMaterial.public value) = ok (public value)
  stored_material byte (ObjectMaterial.otp_aead_key nonce_id key) = ok (otp_aead_key nonce_id key)

  unfoldable pub to_stored : ObjectRecord → Result StoredObjectRecord
  unfolding stored_material
  to_stored object = do
    material ← stored_material object.info.algorithm object.material
    ok (record { info = object.info; material = material })

  unfoldable pub restored_material : ObjectInfo → StoredObjectMaterial → Result ObjectMaterial
  restored_material info (authentication value) = ok (ObjectMaterial.authentication value)
  restored_material info (secret value) =
      if holds_private_key info.object_type (Algorithm.from_byte info.algorithm)
      then typed_private_material info value
      else ok (ObjectMaterial.secret value)
  restored_material info (opaque value) = ok (ObjectMaterial.opaque value)
  restored_material info (public value) = ok (ObjectMaterial.public value)
  restored_material info (otp_aead_key nonce_id key) = ok (ObjectMaterial.otp_aead_key nonce_id key)

  unfoldable pub from_stored : StoredObjectRecord → Result ObjectRecord
  unfolding restored_material
  from_stored stored = do
    material ← restored_material stored.info stored.material
    ok (record { info = stored.info; material = material })
