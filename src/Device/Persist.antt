-- ===== src/Device/Persist.antt =====
-- crates/virtual-yubihsm-core/src/device.rs: the durable state: what is saved, what of it a restart
-- accepts, and the epoch. The CBOR of serde is a parameter of the transports, so the state is its
-- record here.
pub mod RoundTrip
use virtual_yubihsm.Prelude.{
  ℕ, ◌+◌, ◌^◌, Bool, true, false, not, ◌&&◌, ◌||◌, Option, none, some, List, [], ◌∷◌, length,
  bytes_eq, is_some, leb, ltb, ◌==◌, if◌then◌else◌,
}
use virtual_yubihsm.Prelude.OrderedMap.{OrderedMap, get, insert, contains_key}
use virtual_yubihsm.Error.{Result, ok, err, ok_or, guard, ◌>>=◌, ◌>>◌, invalid_data, storage_failed}
use virtual_yubihsm.Keys.{Keys, KeyKind, EcCurve}
use virtual_yubihsm.Algorithm.{Algorithm, is_rsa_key, asymmetric_object_length}
use virtual_yubihsm.Algorithm
use virtual_yubihsm.Object.{ObjectKey, ObjectInfo, ObjectType, key_order, key}
use virtual_yubihsm.Object.Material.{ObjectMaterial, material_length}
use virtual_yubihsm.Object.Record.{ObjectRecord, normalize_info_length, option_bind}
use virtual_yubihsm.Object.Record
use virtual_yubihsm.Object.Stored.{StoredObjectRecord, stored_length, to_stored, from_stored}
use virtual_yubihsm.Device.Options.{DeviceOptions, valid_option_value}
use virtual_yubihsm.Device.Audit.{AuditState}
use virtual_yubihsm.Device.State.{DeviceConfig, SequenceHistory, history_valid, Objects, Device}

-- `"virtual-yubihsm-state"`
abbrev pub persistent_state_schema : List ℕ
persistent_state_schema =
    118 ∷ 105 ∷ 114 ∷ 116 ∷ 117 ∷ 97 ∷ 108 ∷ 45 ∷ 121 ∷ 117 ∷ 98 ∷ 105 ∷ 104 ∷ 115 ∷ 109 ∷ 45 ∷ 115
    ∷ 116 ∷ 97 ∷ 116 ∷ 101 ∷ []

abbrev pub persistent_state_version : ℕ
persistent_state_version = 3

pub record PersistentState : Type 0 where
  pub schema : List ℕ
  pub version : ℕ
  pub config : DeviceConfig
  pub objects : List StoredObjectRecord
  pub device_static_private : List ℕ
  pub state_epoch : ℕ
  pub sequence_history : SequenceHistory
  pub options : DeviceOptions
  pub audit : AuditState

-- `values().any(|value| !valid_option_value(*value))`, the other way round
unfoldable pub all_valid : OrderedMap ℕ ℕ → Bool
all_valid [] = true
all_valid ((k, value) ∷ values) = valid_option_value value && all_valid values

-- The tests on the image as a whole
unfoldable pub acceptable : DeviceConfig → PersistentState → Bool
unfolding all_valid
acceptable config state =
    bytes_eq state.schema persistent_state_schema
    && (((state.version == 1) || ((state.version == 2) || (state.version == 3)))
        && ((state.config.serial == config.serial)
            && (leb (length state.audit.entries) config.log_capacity
                && (valid_option_value state.options.force_audit
                    && (valid_option_value state.options.fips_mode
                        && (all_valid state.options.command_audit
                            && all_valid state.options.algorithm_toggle))))))

module _ ⦃keys : Keys⦄ where
  abbrev old_asymmetric_length : Option Algorithm → Result ℕ
  old_asymmetric_length (some Algorithm.ed25519) = ok 64
  old_asymmetric_length algorithm =
      ok_or (option_bind algorithm asymmetric_object_length) invalid_data

  abbrev old_wrap_length : Option Algorithm → ℕ → Result ℕ
  old_wrap_length none size = ok size
  old_wrap_length (some algorithm) size =
      if is_rsa_key algorithm
      then ok_or (asymmetric_object_length algorithm) invalid_data
      else ok size

  abbrev old_length : ObjectType → Option Algorithm → ℕ → Result ℕ
  old_length ObjectType.asymmetric_key algorithm size = old_asymmetric_length algorithm
  old_length ObjectType.wrap_key algorithm size = old_wrap_length algorithm size
  old_length _ algorithm size = ok size

  unfoldable pub version_two_object_length : ObjectRecord → Result ℕ
  version_two_object_length object =
      old_length object.info.object_type (Algorithm.from_byte object.info.algorithm)
        (material_length object.material)

  abbrev previous_length : ℕ → ℕ → ObjectRecord → Result ℕ
  previous_length version stored_material_length object =
      if version == 1
      then ok stored_material_length
      else if version == 2
      then version_two_object_length object
      else err invalid_data

  -- An object of an older image has the length of its version, and gets that of this one.
  migrated : ℕ → ℕ → ObjectRecord → Result ObjectRecord
  unfolding version_two_object_length
  migrated version stored_material_length object =
      if ltb version persistent_state_version
      then (do
        previous ← previous_length version stored_material_length object
        guard (object.info.length == previous) invalid_data
        normalize_info_length object)
      else ok object

  unfoldable pub restored_object : ℕ → StoredObjectRecord → Result ObjectRecord
  unfolding migrated
  restored_object version stored = do
    object ← from_stored stored
    current ← migrated version (stored_length stored.material) object
    Record.validate current
    ok current

  -- The loop over the stored objects; a key that comes twice is an error.
  unfoldable pub restored_objects : ℕ → Objects → List StoredObjectRecord → Result Objects
  unfolding restored_object
  restored_objects version objects [] = ok objects
  restored_objects version objects (stored ∷ rest) =
      restored_object version stored >>= λ (object : ObjectRecord).
      if contains_key (key object.info) objects
      then err invalid_data
      else restored_objects version (insert (key object.info) object objects) rest

  unfoldable pub from_persistent_state : DeviceConfig → PersistentState → Result Device
  unfolding restored_objects
  from_persistent_state config state = do
    guard (acceptable config state) invalid_data
    device_static_private ←
        ok_or (keys.from_serialized_for_kind (KeyKind.ec EcCurve.p256) state.device_static_private)
          invalid_data
    guard (history_valid state.sequence_history) invalid_data
    objects ← restored_objects state.version [] state.objects
    ok (record {
      config = config;
      objects = objects;
      sessions = [];
      device_static_private = device_static_private;
      state_epoch = state.state_epoch;
      sequence_history = state.sequence_history;
      options = state.options;
      audit = state.audit;
      persistent_change = false;
    })

  unfoldable pub stored_objects : Objects → Result (List StoredObjectRecord)
  stored_objects [] = ok []
  stored_objects ((k, object) ∷ objects) = to_stored object >>= λ (stored : StoredObjectRecord).
      stored_objects objects >>= λ (rest : List StoredObjectRecord). ok (stored ∷ rest)

  abbrev thirty_two : List ℕ → Result (List ℕ)
  thirty_two value = guard (length value == 32) storage_failed >> ok value

  unfoldable pub persistent_state : Device → Result PersistentState
  unfolding stored_objects
  persistent_state device = do
    objects ← stored_objects device.objects
    serialized ← ok_or (keys.serialized device.device_static_private) storage_failed
    device_static_private ← thirty_two serialized
    ok (record {
      schema = persistent_state_schema;
      version = persistent_state_version;
      config = device.config;
      objects = objects;
      device_static_private = device_static_private;
      state_epoch = device.state_epoch;
      sequence_history = device.sequence_history;
      options = device.options;
      audit = device.audit;
    })

  -- `checked_add` of a u64. When it fails the change stays pending.
  unfoldable pub take_persistent_change : Device → Result (Device × Bool)
  take_persistent_change device =
      if not device.persistent_change
      then ok (device, false)
      else if ltb (device.state_epoch + 1) (2 ^ 64)
      then ok
          (record device { state_epoch = device.state_epoch + 1; persistent_change = false }, true)
      else err storage_failed
