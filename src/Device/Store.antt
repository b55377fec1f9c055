-- ===== src/Device/Store.antt =====
-- crates/virtual-yubihsm-core/src/device.rs: the object store: how ids are chosen and how objects
-- are written. The random ids are drawn from a list, after which the random source fails.
pub mod Ids
use virtual_yubihsm.Prelude.{
  ℕ, ◌*◌, ◌%◌, Bool, true, false, not, ◌&&◌, ◌||◌, Option, none, some, List, [], ◌∷◌, ◌==◌,
  if◌then◌else◌,
}
use virtual_yubihsm.Prelude.OrderedMap.{OrderedMap, get, insert, contains_key, nat_order}
use virtual_yubihsm.Error.{
  Result, ok, err, ok_or, guard, ◌>>=◌, ◌>>◌, invalid_data, invalid_id, object_exists,
  storage_failed,
}
use virtual_yubihsm.Keys.{Keys, Platform, RsaValidationError, Validation, valid, invalid}
use virtual_yubihsm.Algorithm.{Algorithm, is_rsa_key, asymmetric_key_length}
use virtual_yubihsm.Algorithm
use virtual_yubihsm.Object.{ObjectKey, ObjectInfo, ObjectType, key_order, key}
use virtual_yubihsm.Object.Material.{ObjectMaterial, signing_key}
use virtual_yubihsm.Object.Record.{ObjectRecord, promote_private_material, option_bind}
use virtual_yubihsm.Object.Record
use virtual_yubihsm.Device.Authorize.{key_of}
use virtual_yubihsm.Device.State.{Device, Objects, next_generation}

abbrev pub rsa_validation_error : {A : Type 0} → RsaValidationError → Result A
rsa_validation_error RsaValidationError.invalid_key = err invalid_data
rsa_validation_error RsaValidationError.randomness_unavailable = err storage_failed

abbrev pub validated : {A : Type 0} → Validation A → Result A
validated (valid a) = ok a
validated (invalid error) = rsa_validation_error error

-- `Algorithm::from_byte(..).filter(|algorithm| algorithm.is_rsa_key())`
abbrev rsa_only : Option Algorithm → Option Algorithm
rsa_only none = none
rsa_only (some algorithm) = if is_rsa_key algorithm then some algorithm else none

module _ ⦃keys : Keys⦄ where
  -- `self.objects.keys().any(|key| key.id == id)`
  unfoldable pub id_in_use : ℕ → Objects → Bool
  id_in_use id [] = false
  id_in_use id ((k, object) ∷ objects) = (k.id == id) || id_in_use id objects

  abbrev pub available_id : Objects → ℕ → Bool
  available_id objects id = not (id == 0) && (not (id == 0xffff) && not (id_in_use id objects))

  unfoldable pub random_available_id_with : Objects → List ℕ → Result ℕ
  unfolding id_in_use
  random_available_id_with objects [] = err storage_failed
  random_available_id_with objects (id ∷ draws) =
      let later = random_available_id_with objects draws in
      if available_id objects id then ok id else later

  unfoldable pub resolve_id : Objects → List ℕ → ObjectType → ℕ → Result ℕ
  unfolding random_available_id_with
  resolve_id objects draws object_type requested =
      if requested == 0xffff
      then err invalid_id
      else if not (requested == 0)
      then if contains_key (key_of object_type requested) objects
        then err object_exists
        else ok requested
      else random_available_id_with objects draws

  abbrev public_modulus : ObjectMaterial → Result (List ℕ)
  public_modulus (ObjectMaterial.public modulus) = ok modulus
  public_modulus _ = err invalid_data

  check_public_modulus : ObjectRecord → Result (Unit {0})
  check_public_modulus object = do
    algorithm ← ok_or (rsa_only (Algorithm.from_byte object.info.algorithm)) invalid_data
    modulus ← public_modulus object.material
    size ← ok_or (asymmetric_key_length algorithm) invalid_data
    validated (keys.validate_rsa_public_key modulus (1 ∷ 0 ∷ 1 ∷ []) (size * 8))

  abbrev is_public_wrap_key : ObjectType → Bool
  is_public_wrap_key ObjectType.public_wrap_key = true
  is_public_wrap_key _ = false

  -- The generation is kept in the history, and its low byte is the object's sequence.
  unfoldable pub stored : Device → ObjectRecord → Device
  unfolding next_generation
  stored device object =
      let generation = next_generation device.sequence_history object.info.id in
      record device {
        sequence_history = insert object.info.id generation device.sequence_history;
        objects =
            insert (key object.info)
              (record object { info = record object.info { sequence = generation % 256 } })
              device.objects;
      }

  unfoldable pub write_object : Device → ObjectRecord → Result Device
  unfolding check_public_modulus stored
  write_object device object = do
    promoted ← promote_private_material object
    Record.validate promoted
    if is_public_wrap_key promoted.info.object_type then check_public_modulus promoted else ok tt
    ok (stored device promoted)

  -- `if let ObjectMaterial::SigningKey(SoftwareSigningKey::Rsa(key))`
  abbrev rsa_of : ObjectMaterial → Option keys.RsaKey
  rsa_of (signing_key key) = keys.as_rsa key
  rsa_of _ = none

  abbrev pub check_imported : ObjectRecord → Option keys.RsaKey → Result ObjectRecord
  check_imported object none = ok object
  check_imported object (some key) = do
    size ←
        ok_or (option_bind (Algorithm.from_byte object.info.algorithm) asymmetric_key_length)
          invalid_data
    guard (keys.modulus_bits key == size * 8) invalid_data
    accepted ← validated (keys.validate_for_import key)
    ok (record object { material = signing_key (keys.rsa_signing_key accepted) })

  unfoldable pub write_imported_object : Device → ObjectRecord → Result Device
  unfolding write_object
  write_imported_object device object = do
    promoted ← promote_private_material object
    Record.validate promoted
    checked ← check_imported promoted (rsa_of promoted.material)
    write_object device checked

  -- Trusted provisioning: the object keeps its own sequence.
  unfoldable pub provision_object : Device → ObjectRecord → Result Device
  provision_object device object = do
    promoted ← promote_private_material object
    Record.validate promoted
    ok (record device {
      sequence_history = insert promoted.info.id promoted.info.sequence device.sequence_history;
      objects = insert (key promoted.info) promoted device.objects;
      persistent_change = true;
    })
