-- ===== src/Device/State.antt =====
-- crates/virtual-yubihsm-core/src/device.rs: the configuration and the state of a device, and its
-- factory state. A time is a number of seconds.
use virtual_yubihsm.Prelude.{
  ℕ, ◌+◌, ◌%◌, ◌^◌, Bool, true, false, not, ◌&&◌, Option, none, some, List, [], ◌∷◌, ◌==◌,
}
use virtual_yubihsm.Prelude.OrderedMap.{OrderedMap, get, insert, nat_order}
use virtual_yubihsm.Error.{Result, ok, ok_or, ◌>>=◌, invalid_data}
use virtual_yubihsm.Keys.{Keys, Platform, KeyKind, EcCurve}
use virtual_yubihsm.Capability.{all_set}
use virtual_yubihsm.Object.{ObjectKey, ObjectInfo, ObjectType, key_order, key}
use virtual_yubihsm.Object.Material.{authentication, symmetric}
use virtual_yubihsm.Object.Record.{ObjectRecord}
use virtual_yubihsm.Authorization.{SessionAuthorization}
use virtual_yubihsm.SessionObject.{SessionObjects}
use virtual_yubihsm.Session.Secure.{SecureSession, authentication_algorithm_aes128_yubico}
use virtual_yubihsm.Device.Authorize.{Infos}
use virtual_yubihsm.Device.Options.{DeviceOptions}
use virtual_yubihsm.Device.Audit.{AuditState, fresh_audit}

pub record DeviceConfig : Type 0 where
  pub version : List ℕ
  pub serial : ℕ
  pub log_capacity : ℕ
  pub algorithms : List ℕ
  pub part_number : List ℕ

-- `SequenceHistory`: the generation of every id that was ever written.
abbrev pub SequenceHistory : Type 0
SequenceHistory = OrderedMap ℕ ℕ

-- `SequenceHistory::validate`
unfoldable pub history_valid : SequenceHistory → Bool
history_valid [] = true
history_valid ((id, generation) ∷ entries) =
    (not (id == 0) && not (id == 0xffff)) && history_valid entries

-- `wrapping_add` of a u64
unfoldable pub next_generation : SequenceHistory → ℕ → ℕ
next_generation history id = elim (get id history) [
  | none ↦ 0
  | some generation ↦ (generation + 1) % 2 ^ 64
]

-- `DeviceOptions::default()`
abbrev pub default_options : DeviceOptions
default_options = record {
  force_audit = 0;
  command_audit = [];
  algorithm_toggle = [];
  fips_mode = 0;
}

-- `b"DEFAULT AUTHKEY CHANGE THIS"`
abbrev factory_label : List ℕ
factory_label =
    68 ∷ 69 ∷ 70 ∷ 65 ∷ 85 ∷ 76 ∷ 84 ∷ 32 ∷ 65 ∷ 85 ∷ 84 ∷ 72 ∷ 75 ∷ 69 ∷ 89 ∷ 32 ∷ 67 ∷ 72 ∷ 65
    ∷ 78 ∷ 71 ∷ 69 ∷ 32 ∷ 84 ∷ 72 ∷ 73 ∷ 83 ∷ []

abbrev pub factory_info : ObjectInfo
factory_info = record {
  capabilities = all_set;
  id = 1;
  length = 40;
  domains = 0xffff;
  object_type = ObjectType.authentication_key;
  algorithm = authentication_algorithm_aes128_yubico;
  sequence = 0;
  origin = 2;
  label = factory_label;
  delegated_capabilities = all_set;
}

-- `b"password"`
abbrev factory_password : List ℕ
factory_password = 112 ∷ 97 ∷ 115 ∷ 115 ∷ 119 ∷ 111 ∷ 114 ∷ 100 ∷ []

module _ ⦃keys : Keys⦄ where
  abbrev pub Objects : Type 0
  Objects = OrderedMap ObjectKey ObjectRecord

  -- The metadata, for the checks that read nothing else.
  abbrev pub infos : Objects → Infos
  infos [] = []
  infos ((key, object) ∷ objects) = (key, object.info) ∷ infos objects

  pub record SessionEntry : Type 0 where
    pub authorization : SessionAuthorization
    pub secure : SecureSession
    pub expected_host_cryptogram : Option (List ℕ)
    pub authenticated : Bool
    pub last_activity : ℕ
    pub objects : SessionObjects

  abbrev pub Sessions : Type 0
  Sessions = OrderedMap ℕ SessionEntry

  pub record Device : Type 0 where
    pub config : DeviceConfig
    pub objects : Objects
    pub sessions : Sessions
    pub device_static_private : keys.SigningKey
    pub state_epoch : ℕ
    pub sequence_history : SequenceHistory
    pub options : DeviceOptions
    pub audit : AuditState
    pub persistent_change : Bool

module _ ⦃keys : Keys⦄ (platform : Platform) where
  abbrev pub factory_record : ObjectRecord
  factory_record = record {
    info = factory_info;
    material = authentication (symmetric (platform.yubico_password_kdf factory_password));
  }

  unfoldable pub install_factory_authentication_key : Device → Device
  install_factory_authentication_key device = record device {
    sequence_history = insert 1 0 device.sequence_history;
    objects = insert (key factory_info) factory_record device.objects;
  }

  -- `factory_default_with_device_static_private`
  unfoldable pub factory_default : DeviceConfig → List ℕ → Result Device
  unfolding install_factory_authentication_key
  factory_default config device_static_private = do
    key ←
        ok_or (keys.from_serialized_for_kind (KeyKind.ec EcCurve.p256) device_static_private)
          invalid_data
    ok (
        install_factory_authentication_key (record {
          config = config;
          objects = [];
          sessions = [];
          device_static_private = key;
          state_epoch = 0;
          sequence_history = [];
          options = default_options;
          audit = fresh_audit;
          persistent_change = false;
        }))
