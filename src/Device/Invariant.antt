-- ===== src/Device/Invariant.antt =====
-- The invariant of the object store: the objects stand in order under their own keys, each is valid,
-- and the history knows every id in use. Every effect of a command keeps it.
pub mod Nested
pub mod Commands
pub mod Frames
use virtual_yubihsm.Prelude.{
  ℕ, ◌+◌, ◌%◌, ◌<◌, ◌≡◌, refl, sym, ap, ◌∙◌, subst, Bool, true, false, Option, none, some, List, [],
  ◌∷◌, length, All, is_some, if◌then◌else◌, ◌==◌, ==_self, arith,
}
use virtual_yubihsm.Prelude.OrderedMap.{
  OrderedMap, get, insert, remove, contains_key, IsSorted, insert-IsSorted, remove-IsSorted,
  get-insert, nat_order,
}
use virtual_yubihsm.Prelude.OrderedMap.All.{All-insert, All-remove, All-map, All-get}
use virtual_yubihsm.Error.{Result, ok, err}
use virtual_yubihsm.Error.Ensures.{Ensures, holds, >>=-Ensures}
use virtual_yubihsm.Keys.{Keys, Platform}
use virtual_yubihsm.Protocol.{CommandCode}
use virtual_yubihsm.Object.{ObjectKey, ObjectInfo, key_order, key}
use virtual_yubihsm.Object.Material.{material_length}
use virtual_yubihsm.Object.Record.{ObjectRecord, expected_info_length}
use virtual_yubihsm.Object.Record
use virtual_yubihsm.Object
use virtual_yubihsm.Algorithm
use virtual_yubihsm.Authorization.{SessionAuthorization}
use virtual_yubihsm.SessionObject.Handles.{AreObjects}
use virtual_yubihsm.Device.State.{
  Device, Objects, SessionEntry, Sessions, SequenceHistory, next_generation, factory_info,
  factory_record, install_factory_authentication_key,
}
use virtual_yubihsm.Device.Store.{stored, provision_object}
use virtual_yubihsm.Device.Effects.{
  Effect, unchanged, created, imported, replaced, deleted, configured, acknowledged, reset, Written,
  written,
}

module _ ⦃keys : Keys⦄ where
  -- An object under its own key, valid, and with an id that the history knows.
  abbrev pub IsFiled : SequenceHistory → ObjectKey × ObjectRecord → Type 0
  IsFiled history (at, object) =
      (at ≡ key object.info)
      × (Record.validate object ≡ ok tt)
      × (contains_key object.info.id history ≡ true)

  abbrev pub IsStore : Objects → SequenceHistory → Type 0
  IsStore objects history = IsSorted objects × All (IsFiled history) objects

  -- A session has one of the sixteen ids, and its objects are within their limit.
  abbrev pub IsSession : ℕ × SessionEntry → Type 0
  IsSession (sid, entry) = (sid < 16) × AreObjects entry.objects

  abbrev pub IsTable : Sessions → Type 0
  IsTable sessions = IsSorted sessions × All IsSession sessions

  abbrev pub IsDevice : Device → Type 0
  IsDevice device = IsStore device.objects device.sequence_history × IsTable device.sessions

  IsFiled-insert :
      (history : SequenceHistory) (id generation : ℕ) (entry : ObjectKey × ObjectRecord)
      → IsFiled history entry
      → IsFiled (insert id generation history) entry
  unfolding contains_key
  IsFiled-insert history id generation (at, object) h =
      (h.0, h.1, ground (arith, get-insert id object.info.id generation history))

  insert-IsStore :
      (objects : Objects) (history : SequenceHistory) (generation : ℕ) (object : ObjectRecord)
      → Record.validate object ≡ ok tt
      → IsStore objects history
      → IsStore (insert (key object.info) object objects) (insert object.info.id generation history)
  unfolding contains_key
  insert-IsStore objects history generation object valid store = (
    insert-IsSorted (key object.info) object objects store.0,
    All-insert (IsFiled (insert object.info.id generation history)) (key object.info) object objects
        (
          refl,
          valid,
          ground (
            arith,
            ==_self object.info.id,
            get-insert object.info.id object.info.id generation history,
          ),
        )
        (All-map (IsFiled history) (IsFiled (insert object.info.id generation history)) objects
          (IsFiled-insert history object.info.id generation) store.1),
  )

  -- The sequence is not checked.
  validate-sequence :
      (object : ObjectRecord) (sequence : ℕ)
      → Record.validate object ≡ ok tt
      → Record.validate (record object { info = record object.info { sequence = sequence } })
        ≡ ok tt
  unfolding Record.validate Object.validate expected_info_length
  validate-sequence object sequence valid = valid

  Written-IsStore :
      (device updated : Device) (info : ObjectInfo)
      → Written device info updated
      → IsStore device.objects device.sequence_history
      → IsStore updated.objects updated.sequence_history
  unfolding stored key
  Written-IsStore device updated info (written object same valid) store =
      insert-IsStore device.objects device.sequence_history
        (next_generation device.sequence_history object.info.id)
        (record object {
          info = record object.info {
            sequence = next_generation device.sequence_history object.info.id % 256;
          };
        })
        (validate-sequence object _ valid) store

  pub provision_object-IsStore :
      (device : Device) (object : ObjectRecord)
      → IsStore device.objects device.sequence_history
      → Ensures
          (λ (updated : Device). IsStore updated.objects updated.sequence_history)
          (provision_object device object)
  unfolding provision_object
  provision_object-IsStore device object store =
      search (>>=-Ensures, holds, insert-IsStore) depth 12

module _ ⦃keys : Keys⦄ (platform : Platform)
    (password_length : (password : List ℕ)
      → length (platform.yubico_password_kdf password) ≡ 32) where
  factory_record-valid : Record.validate (factory_record platform) ≡ ok tt
  unfolding Record.validate Object.validate expected_info_length material_length Algorithm.from_byte
  factory_record-valid = rw (password_length _) refl

  pub install_factory_authentication_key-IsStore :
      (device : Device)
      → IsStore device.objects device.sequence_history
      → IsStore
          (install_factory_authentication_key platform device).objects
          (install_factory_authentication_key platform device).sequence_history
  unfolding install_factory_authentication_key
  install_factory_authentication_key-IsStore device store =
      insert-IsStore device.objects device.sequence_history 0 (factory_record platform)
        factory_record-valid store

  -- Whatever a command does, the store stays as it has to be.
  pub Effect-IsStore :
      (authorization : SessionAuthorization) (command : CommandCode) (device updated : Device)
      → Effect platform authorization command device updated
      → IsStore device.objects device.sequence_history
      → IsStore updated.objects updated.sequence_history
  Effect-IsStore authorization command device updated unchanged store = store
  Effect-IsStore authorization command device updated (created info capability fresh allowed w)
        store =
      Written-IsStore device updated info w store
  Effect-IsStore authorization command device updated
        (imported requested wrap_key id origin fresh allowed w) store =
      Written-IsStore device updated (record requested { id = id; origin = origin }) w store
  Effect-IsStore authorization command device updated
        (replaced at existing info found same_key same_rights w) store =
      Written-IsStore device updated info w store
  Effect-IsStore authorization command device updated (deleted at is_delete) store = (
    remove-IsSorted at device.objects store.0,
    All-remove (IsFiled device.sequence_history) at device.objects store.1,
  )
  Effect-IsStore authorization command device updated (configured options) store = store
  Effect-IsStore authorization command device updated (acknowledged audit) store = store
  Effect-IsStore authorization command device updated (reset renewed is_reset) store =
      install_factory_authentication_key-IsStore _ (tt, tt)

  Effect-IsTable :
      (authorization : SessionAuthorization) (command : CommandCode) (device updated : Device)
      → Effect platform authorization command device updated
      → IsTable device.sessions
      → IsTable updated.sessions
  unfolding stored install_factory_authentication_key
  Effect-IsTable authorization command device updated (reset renewed is_reset) table = (tt, tt)
  Effect-IsTable authorization command device updated
        (created info capability fresh allowed (written object same valid)) table =
      table
  Effect-IsTable authorization command device updated
        (imported requested wrap_key id origin fresh allowed (written object same valid)) table =
      table
  Effect-IsTable authorization command device updated
        (replaced at existing info found same_key same_rights (written object same valid)) table =
      table
  Effect-IsTable authorization command device updated _ table = table

  pub Effect-IsDevice :
      (authorization : SessionAuthorization) (command : CommandCode) (device updated : Device)
      → Effect platform authorization command device updated
      → IsDevice device
      → IsDevice updated
  Effect-IsDevice authorization command device updated effect h = (
    Effect-IsStore authorization command device updated effect h.0,
    Effect-IsTable authorization command device updated effect h.1,
  )
