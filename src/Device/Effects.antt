-- ===== src/Device/Effects.antt =====
-- What a command may do to the device, as a relation of the device before and after: every handler
-- stays within it.
pub mod Puts
pub mod Imports
pub mod Commands
pub mod Rule
use virtual_yubihsm.Prelude.{
  ℕ, ◌≡◌, refl, sym, ap, ◌∙◌, subst, Bool, true, false, Option, none, some, List, [], ◌∷◌,
  if◌then◌else◌, arith,
}
use virtual_yubihsm.Prelude.OrderedMap.{get, remove}
use virtual_yubihsm.Error.{Result, ok, err, ◌>>=◌, ◌>>◌, >>=-eq-ok}
use virtual_yubihsm.Error.Ensures.{Ensures, holds, fails, >>=-Ensures, Ensures-ok}
use virtual_yubihsm.Keys.{Keys, Platform}
use virtual_yubihsm.Capability.{Capability, CapabilitySet}
use virtual_yubihsm.Protocol.{CommandCode}
use virtual_yubihsm.Object.{ObjectKey, ObjectInfo, key_order, key}
use virtual_yubihsm.Object.Record.{ObjectRecord, promote_private_material}
use virtual_yubihsm.Object.Record
use virtual_yubihsm.Authorization.{
  SessionAuthorization, authorize_create, authorize_wrapped_creation,
}
use virtual_yubihsm.Device.Authorize.{key_of}
use virtual_yubihsm.Device.Options.{DeviceOptions}
use virtual_yubihsm.Device.Audit.{AuditState, fresh_audit}
use virtual_yubihsm.Device.State.{Device, default_options, install_factory_authentication_key}
use virtual_yubihsm.Device.Store.{stored, check_imported, write_object, write_imported_object}

-- What an object allows, and to whom.
pub record Rights : Type 0 where
  pub capabilities : CapabilitySet
  pub delegated_capabilities : CapabilitySet
  pub domains : ℕ

abbrev pub rights : ObjectInfo → Rights
rights info = record {
  capabilities = info.capabilities;
  delegated_capabilities = info.delegated_capabilities;
  domains = info.domains;
}

module _ ⦃keys : Keys⦄ where
  -- A valid object with this metadata was stored.
  pub data Written (device : Device) (info : ObjectInfo) : Device → Type 0 where
    written :
        (object : ObjectRecord)
        → object.info ≡ info
        → Record.validate object ≡ ok tt
        → Written device info (stored device object)

  promote_private_material-info :
      (object promoted : ObjectRecord)
      → promote_private_material object ≡ ok promoted
      → promoted.info ≡ object.info
  unfolding promote_private_material
  promote_private_material-info object promoted e = ground arith

  Written-stored :
      (device : Device) (info : ObjectInfo) (object promoted : ObjectRecord)
      → object.info ≡ info
      → promote_private_material object ≡ ok promoted
      → Record.validate promoted ≡ ok tt
      → Written device info (stored device promoted)
  Written-stored device info object promoted same e valid =
      written promoted (promote_private_material-info object promoted e ∙ same) valid

  pub write_object-Ensures :
      (device : Device) (object : ObjectRecord) (info : ObjectInfo)
      → object.info ≡ info
      → Ensures (Written device info) (write_object device object)
  unfolding write_object
  write_object-Ensures device object info same =
      search (>>=-Ensures, holds, Written-stored) depth 12

  check_imported-info :
      (object checked : ObjectRecord) (key : Option keys.RsaKey)
      → check_imported object key ≡ ok checked
      → checked.info ≡ object.info
  check_imported-info object checked none e = cc
  check_imported-info object checked (some key) e = ground arith

  write_checked :
      (device : Device) (object promoted checked : ObjectRecord) (info : ObjectInfo)
      (key : Option keys.RsaKey)
      → object.info ≡ info
      → promote_private_material object ≡ ok promoted
      → check_imported promoted key ≡ ok checked
      → Ensures (Written device info) (write_object device checked)
  write_checked device object promoted checked info key same p c =
      write_object-Ensures device checked info (
        check_imported-info promoted checked key c
        ∙ promote_private_material-info object promoted p
        ∙ same)

  pub write_imported_object-Ensures :
      (device : Device) (object : ObjectRecord) (info : ObjectInfo)
      → object.info ≡ info
      → Ensures (Written device info) (write_imported_object device object)
  unfolding write_imported_object
  write_imported_object-Ensures device object info same =
      search (>>=-Ensures, write_checked) depth 12

module _ ⦃keys : Keys⦄ (platform : Platform) where
  -- The device after a command of this session: `command` is named where only one command does it.
  pub data Effect (authorization : SessionAuthorization) (command : CommandCode) (device : Device)
      : Device → Type 0 where
    unchanged : Effect authorization command device device
    created :
        {updated : Device} (info : ObjectInfo) (capability : Capability)
        → get (key info) device.objects ≡ none
        → authorize_create authorization info capability ≡ ok tt
        → Written device info updated
        → Effect authorization command device updated
    imported :
        {updated : Device} (requested : ObjectInfo) (wrap_key : ObjectInfo) (id origin : ℕ)
        → get (key_of requested.object_type id) device.objects ≡ none
        → authorize_wrapped_creation authorization requested wrap_key ≡ ok tt
        → Written device (record requested { id = id; origin = origin }) updated
        → Effect authorization command device updated
    replaced :
        {updated : Device} (at : ObjectKey) (existing : ObjectRecord) (info : ObjectInfo)
        → get at device.objects ≡ some existing
        → key info ≡ key existing.info
        → rights info ≡ rights existing.info
        → Written device info updated
        → Effect authorization command device updated
    deleted :
        (at : ObjectKey)
        → command ≡ CommandCode.delete_object
        → Effect authorization command device (record device { objects = remove at device.objects })
    configured :
        (options : DeviceOptions)
        → Effect authorization command device (record device { options = options })
    acknowledged :
        (audit : AuditState) → Effect authorization command device (record device { audit = audit })
    reset :
        (renewed : keys.SigningKey)
        → command ≡ CommandCode.reset_device
        → Effect authorization command device (
            install_factory_authentication_key platform (record device {
              objects = [];
              sequence_history = [];
              sessions = [];
              device_static_private = renewed;
              options = default_options;
              audit = fresh_audit;
            }))
