-- ===== src/Device/Persist/RoundTrip.antt =====
-- crates/virtual-yubihsm-core/src/device.rs and object.rs: a restart finds the state that was saved.
use virtual_yubihsm.Prelude.{
  ℕ, ◌≡◌, refl, sym, ap, ◌∙◌, subst, true, false, some, List, [], ◌∷◌, ◌++◌, append_assoc,
  append-nil, length, All, leb, ==_self, is_some, arith,
}
use virtual_yubihsm.Prelude.OrderedMap.{get, contains_key, IsSorted}
use virtual_yubihsm.Prelude.OrderedMap.Gets.{insert-last}
use virtual_yubihsm.Error.{ok, ok_or, ◌>>=◌, >>=-eq-ok, storage_failed}
use virtual_yubihsm.Error.Ensures.{ok_or-eq_ok}
use virtual_yubihsm.Keys.{Keys, KeyKind, EcCurve}
use virtual_yubihsm.Algorithm
use virtual_yubihsm.Object.{ObjectKey, ObjectInfo, key_order, key_lt, key}
use virtual_yubihsm.Object.Material.{
  ObjectMaterial, authentication, signing_key, montgomery_key, ml_kem_key, hybrid_kem_key, opaque,
  public, otp_aead_key, typed_private_material,
}
use virtual_yubihsm.Object.Record.{ObjectRecord, holds_private_key}
use virtual_yubihsm.Object.Record
use virtual_yubihsm.Object.Stored.{
  StoredObjectMaterial, StoredObjectRecord, stored_material, to_stored, restored_material,
  from_stored, stored_signing_key,
}
use virtual_yubihsm.Device.Options.{valid_option_value}
use virtual_yubihsm.Device.State.{Device, Objects, SequenceHistory, history_valid}
use virtual_yubihsm.Device.Invariant.{IsFiled, IsStore}
use virtual_yubihsm.Device.Persist.{
  PersistentState, acceptable, restored_object, restored_objects, stored_objects,
  from_persistent_state, persistent_state, thirty_two, persistent_state_schema,
  persistent_state_version, all_valid,
}

key_lt-irreflexive : (k : ObjectKey) → key_lt k k ≡ false
key_lt-irreflexive k = ground arith

module _ ⦃keys : Keys⦄ where
  -- The object holds a private key, and what is saved of the key gives the key back.
  abbrev KeyRestores : ObjectInfo → ObjectMaterial → Type 0
  KeyRestores info material =
      (holds_private_key info.object_type (Algorithm.from_byte info.algorithm) ≡ true)
      × ((encoded : List ℕ)
          → stored_material info.algorithm material ≡ ok (StoredObjectMaterial.secret encoded)
          → typed_private_material info encoded ≡ ok material)

  -- A parsed key is restored from what is saved of it, and an object that is saved as a private key
  -- has a parsed key.
  abbrev pub Restores : ObjectInfo → ObjectMaterial → Type 0
  Restores info (signing_key key) = KeyRestores info (signing_key key)
  Restores info (montgomery_key key) = KeyRestores info (montgomery_key key)
  Restores info (ml_kem_key key) = KeyRestores info (ml_kem_key key)
  Restores info (hybrid_kem_key key) = KeyRestores info (hybrid_kem_key key)
  Restores info (ObjectMaterial.secret value) =
      holds_private_key info.object_type (Algorithm.from_byte info.algorithm) ≡ false
  Restores info _ = Unit {0}

  restored_key :
      (info : ObjectInfo) (material : ObjectMaterial) (encoded : List ℕ)
      → KeyRestores info material
      → stored_material info.algorithm material ≡ ok (StoredObjectMaterial.secret encoded)
      → restored_material info (StoredObjectMaterial.secret encoded) ≡ ok material
  unfolding restored_material
  restored_key info material encoded restores saved = rw restores.0 (restores.1 encoded saved)

  same_restored :
      (info : ObjectInfo) (material : ObjectMaterial) (saved stored : StoredObjectMaterial)
      → ok saved ≡ ok stored
      → restored_material info saved ≡ ok material
      → restored_material info stored ≡ ok material
  same_restored info material saved stored same restored =
      let equal : saved ≡ stored = cc in
      subst (λ m. restored_material info m ≡ ok material) equal restored

  restored_material-stored_material :
      (info : ObjectInfo) (material : ObjectMaterial) (stored : StoredObjectMaterial)
      → Restores info material
      → stored_material info.algorithm material ≡ ok stored
      → restored_material info stored ≡ ok material
  unfolding stored_material restored_material
  restored_material-stored_material info (signing_key key) stored restores saved =
      let (encoded, serialized, done) =
        >>=-eq-ok (stored_signing_key info.algorithm key)
          (λ encoded. ok (StoredObjectMaterial.secret encoded)) saved in
      same_restored info (signing_key key) (StoredObjectMaterial.secret encoded) stored done
        (restored_key info (signing_key key) encoded restores (saved ∙ sym done))
  restored_material-stored_material info (montgomery_key key) stored restores saved =
      same_restored info (montgomery_key key) _ stored saved
        (restored_key info (montgomery_key key) _ restores refl)
  restored_material-stored_material info (ml_kem_key key) stored restores saved =
      same_restored info (ml_kem_key key) _ stored saved
        (restored_key info (ml_kem_key key) _ restores refl)
  restored_material-stored_material info (hybrid_kem_key key) stored restores saved =
      same_restored info (hybrid_kem_key key) _ stored saved
        (restored_key info (hybrid_kem_key key) _ restores refl)
  restored_material-stored_material info (ObjectMaterial.secret value) stored restores saved =
      same_restored info (ObjectMaterial.secret value) (StoredObjectMaterial.secret value) stored
        saved (rw restores refl)
  restored_material-stored_material info (opaque value) stored restores saved =
      same_restored info (opaque value) _ stored saved refl
  restored_material-stored_material info (public value) stored restores saved =
      same_restored info (public value) _ stored saved refl
  restored_material-stored_material info (authentication value) stored restores saved =
      same_restored info (authentication value) _ stored saved refl
  restored_material-stored_material info (otp_aead_key nonce_id key) stored restores saved =
      same_restored info (otp_aead_key nonce_id key) _ stored saved refl

  -- Of an object whose keys are restored, what is saved gives the object back.
  restored_object-to_stored :
      (object : ObjectRecord) (stored : StoredObjectRecord)
      → Restores object.info object.material
      → Record.validate object ≡ ok tt
      → to_stored object ≡ ok stored
      → restored_object 3 stored ≡ ok object
  unfolding to_stored from_stored restored_object
  restored_object-to_stored object stored restores valid saved =
      let (material, kept, done) =
        >>=-eq-ok (stored_material object.info.algorithm object.material)
          (λ m. ok (record { info = object.info; material = m })) saved in
      let equal : record { info = object.info; material = material } ≡ stored = cc in
      let restored : restored_material object.info material ≡ ok object.material =
        restored_material-stored_material object.info object.material material restores kept in
      subst (λ r. restored_object 3 r ≡ ok object) equal (rw restored (rw valid refl))

  -- The objects that are still to come go behind the ones that are there.
  restored_objects-stored_objects :
      (history : SequenceHistory) (there objects : Objects) (stored : List StoredObjectRecord)
      → IsSorted (there ++ objects)
      → All (IsFiled history) objects
      → All (λ (entry : ObjectKey × ObjectRecord). Restores entry.1.info entry.1.material) objects
      → stored_objects objects ≡ ok stored
      → restored_objects 3 there stored ≡ ok (there ++ objects)
  unfolding stored_objects restored_objects contains_key
  restored_objects-stored_objects history there [] stored sorted filed restores saved =
      let equal : [] ≡ stored = cc in
      subst (λ r. restored_objects 3 there r ≡ ok (there ++ [])) equal
        (ap ok (sym (append-nil there)))
  restored_objects-stored_objects history there ((at, object) ∷ objects) stored sorted filed
        restores saved =
      let (first, e, others) =
        >>=-eq-ok (to_stored object)
          (λ first.
            stored_objects objects >>= λ (rest : List StoredObjectRecord). ok (first ∷ rest))
          saved in
      let (rest, f, done) =
        >>=-eq-ok (stored_objects objects) (λ (rest : List StoredObjectRecord). ok (first ∷ rest))
          others in
      let equal : first ∷ rest ≡ stored = cc in
      let at_key : at ≡ key object.info = filed.0.0 in
      let last =
        insert-last key_lt-irreflexive (key object.info) object there objects
          (subst (λ k. IsSorted (there ++ (k, object) ∷ objects)) at_key sorted) in
      let absent : is_some (get (key object.info) there) ≡ false = ap is_some last.0 in
      let moved : (there ++ (key object.info, object) ∷ []) ++ objects
          ≡ there ++ (at, object) ∷ objects =
        append_assoc there ((key object.info, object) ∷ []) objects
        ∙ ap (λ k. there ++ (k, object) ∷ objects) (sym at_key) in
      subst (λ r. restored_objects 3 there r ≡ ok (there ++ (at, object) ∷ objects)) equal
        (rw (restored_object-to_stored object first restores.0 filed.0.1 e) (
          rw absent (
            ap (λ t. restored_objects 3 t rest) last.1
            ∙ (restored_objects-stored_objects history (there ++ (key object.info, object) ∷ [])
                  objects rest (subst IsSorted (sym moved) sorted) filed.1 restores.1 f
                ∙ ap ok moved))))

  -- What the tests of a restart ask of the state: values of options that are known, a log within its
  -- capacity, and ids that may be given.
  pub record IsPersistable (device : Device) : Type 0 where
    pub log_fits : leb (length device.audit.entries) device.config.log_capacity ≡ true
    pub force_audit_valid : valid_option_value device.options.force_audit ≡ true
    pub fips_mode_valid : valid_option_value device.options.fips_mode ≡ true
    pub command_audit_valid : all_valid device.options.command_audit ≡ true
    pub algorithm_toggle_valid : all_valid device.options.algorithm_toggle ≡ true
    pub ids_valid : history_valid device.sequence_history ≡ true

  abbrev image : Device → List StoredObjectRecord → List ℕ → PersistentState
  image device objects static_private = record {
    schema = persistent_state_schema;
    version = persistent_state_version;
    config = device.config;
    objects = objects;
    device_static_private = static_private;
    state_epoch = device.state_epoch;
    sequence_history = device.sequence_history;
    options = device.options;
    audit = device.audit;
  }

  acceptable-persistent_state :
      (device : Device) (objects : List StoredObjectRecord) (static_private : List ℕ)
      → IsPersistable device
      → acceptable device.config (image device objects static_private) ≡ true
  unfolding acceptable
  acceptable-persistent_state device objects static_private p =
      rw
        (
          ==_self device.config.serial,
          p.log_fits,
          p.force_audit_valid,
          p.fips_mode_valid,
          p.command_audit_valid,
        )
        p.algorithm_toggle_valid

  thirty_two-eq_ok : (value kept : List ℕ) → thirty_two value ≡ ok kept → value ≡ kept
  thirty_two-eq_ok value kept e = ground arith

  ok-injective : {A : Type 0} {a b : A} → ok a ≡ ok b → a ≡ b
  ok-injective e = cc

  from_image :
      (device : Device) (objects : List StoredObjectRecord) (static_private : List ℕ)
      → IsPersistable device
      → keys.from_serialized_for_kind (KeyKind.ec EcCurve.p256) static_private
        ≡ some device.device_static_private
      → restored_objects 3 [] objects ≡ ok device.objects
      → from_persistent_state device.config (image device objects static_private)
        ≡ ok (record device { sessions = []; persistent_change = false })
  unfolding from_persistent_state
  from_image device objects static_private p static restored =
      rw (acceptable-persistent_state device objects static_private p)
        (rw static (rw (p.ids_valid) (rw restored refl)))

  -- A device is restored from the state that it saves, with its objects, options, audit log, generations,
  -- epoch and static key, and with no session. Its store has every object under its own key, in
  -- order and valid; its options, its log and its ids are such as a restart accepts; and the static
  -- key and the parsed keys of the objects are read back from what is saved of them.
  pub from_persistent_state-persistent_state :
      (device : Device) (state : PersistentState)
      → IsStore device.objects device.sequence_history
      → IsPersistable device
      → All
          (λ (entry : ObjectKey × ObjectRecord). Restores entry.1.info entry.1.material)
          device.objects
      → ((encoded : List ℕ)
          → keys.serialized device.device_static_private ≡ some encoded
          → keys.from_serialized_for_kind (KeyKind.ec EcCurve.p256) encoded
            ≡ some device.device_static_private)
      → persistent_state device ≡ ok state
      → from_persistent_state device.config state
        ≡ ok (record device { sessions = []; persistent_change = false })
  unfolding persistent_state
  from_persistent_state-persistent_state device state store persistable restores static saved =
      let (objects, stored, serializing) =
        >>=-eq-ok (stored_objects device.objects)
          (λ (objects : List StoredObjectRecord).
            ok_or (keys.serialized device.device_static_private) storage_failed >>= λ serialized.
            thirty_two serialized >>= λ kept. ok (image device objects kept))
          saved in
      let (serialized, read, sizing) =
        >>=-eq-ok (ok_or (keys.serialized device.device_static_private) storage_failed)
          (λ serialized. thirty_two serialized >>= λ kept. ok (image device objects kept))
          serializing in
      let (kept, sized, done) =
        >>=-eq-ok (thirty_two serialized) (λ kept. ok (image device objects kept)) sizing in
      let equal : image device objects serialized ≡ state =
        ap (image device objects) (thirty_two-eq_ok serialized kept sized) ∙ ok-injective done in
      subst
        (λ r.
          from_persistent_state device.config r
          ≡ ok (record device { sessions = []; persistent_change = false }))
        equal
        (from_image device objects serialized persistable
          (static serialized (ok_or-eq_ok _ storage_failed read))
          (restored_objects-stored_objects device.sequence_history [] device.objects objects store.0
            store.1 restores stored))
