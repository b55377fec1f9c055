-- ===== src/Tests.antt =====
-- Concrete keys and sessions, and the results on authorization applied to them.
pub mod Codec
pub mod State
pub mod Device
use virtual_yubihsm.Prelude.{
  ℕ, ◌+◌, ◌*◌, ◌%◌, ◌^◌, ◌≤◌, ◌<◌, ◌≡◌, refl, ◌↔◌, Bool, true, false, not, ◌&&◌, ◌||◌, ◌==◌, Option,
  none, some, List, [], ◌∷◌, ◌++◌, length, replicate, to_be_bytes, from_be_bytes, leb, take, drop,
  AreBytes, arith,
}
use virtual_yubihsm.Prelude.OrderedMap.{OrderedMap, get, insert, remove, nat_order}
use virtual_yubihsm.Error.{Result, ok, err, object_not_found}
use virtual_yubihsm.Wire.{decode, read_u16, read_slice, read_u64}
use virtual_yubihsm.Wire.Splits.{read_slice_iff, read_u64-eq_ok, decode_iff}
use virtual_yubihsm.Frame.{Frame, parse, encode, max_data_length}
use virtual_yubihsm.Frame.RoundTrip.{parse-encode, encode-parse}
use virtual_yubihsm.Firmware.{FirmwareProfile}
use virtual_yubihsm.Capability.{
  Capability, CapabilitySet, IsCapabilitySet, contains, contains_all, is_subset_of, intersection,
}
use virtual_yubihsm.Capability
use virtual_yubihsm.Capability.Sets.{
  holds, IsSubset, contains_all_iff, is_subset_of_iff, holds-insert, holds-remove,
  holds-intersection,
}
use virtual_yubihsm.Protocol.{
  CommandCode, required_session_capability, from_byte, to_byte, from_byte_iff,
}
use virtual_yubihsm.Object.{ObjectInfo, ObjectType, validate, deletion_capability, key_order}
use virtual_yubihsm.Authorization.{
  SessionAuthorization, can_see, require_capability, require_visible, authorize_use,
  authorize_create, authorize_delete, authorize_wrapped_export, authorize_wrapped_creation,
}
use virtual_yubihsm.Authorization.Rules.{
  IsWithinDomains, authorize_create_iff, authorize_wrapped_export_iff,
  authorize_wrapped_creation_ceiling,
}
use virtual_yubihsm.Request.{
  empty_request, id_remainder_request, u8_request, u16_request, IdRemainder,
}
use virtual_yubihsm.Session.{increment_counter, secure_response_data_fits}
use virtual_yubihsm.Session.Counter.{increment_counter_lem, secure_response_data_fits_iff}
use virtual_yubihsm.Device.Authorize.{Infos, key_of, authorize_target, authorize_command_request}
use virtual_yubihsm.Device.Authorize.Hidden.{authorize_command_request-hidden}
use virtual_yubihsm.Device.Authorize.KeyUse.{key_use_authorized, leading_id}
use virtual_yubihsm.Device.Options.{DeviceOptions, set_option, options_after}
use virtual_yubihsm.Device.Options.Fixed.{StaysFixed, set_option-StaysFixed}
use virtual_yubihsm.Device.Audit.{
  AuditEntry, AuditState, fresh_audit, append_audit_entry, get_log_entries,
}
use virtual_yubihsm.Device.Audit.Chain.{IsLog, append_audit_entry-IsLog, length-get_log_entries}

abbrev pub every_capability : CapabilitySet
every_capability = replicate 8 0xff

-- ECDSA signing (bit 7) and export under wrap (bit 16)
abbrev pub some_capabilities : CapabilitySet
some_capabilities = 0 ∷ 0 ∷ 0 ∷ 0 ∷ 0 ∷ 1 ∷ 0 ∷ 0x80 ∷ []

pub every_capability-IsCapabilitySet : IsCapabilitySet every_capability
every_capability-IsCapabilitySet = record { eight = refl; bytes = omega arith }

pub some_capabilities-IsCapabilitySet : IsCapabilitySet some_capabilities
some_capabilities-IsCapabilitySet = record { eight = refl; bytes = omega arith }

abbrev pub session : SessionAuthorization
session = record {
  authentication_key_id = 1;
  capabilities = every_capability;
  delegated_capabilities = every_capability;
  domains = 0x0003;
}

abbrev pub signing_key : ObjectInfo
signing_key = record {
  capabilities = some_capabilities;
  id = 0x0102;
  length = 33;
  domains = 0x0002;
  object_type = ObjectType.asymmetric_key;
  algorithm = 12;
  sequence = 0;
  origin = 1;
  label = 65 ∷ [];
  delegated_capabilities = replicate 8 0;
}

abbrev hidden_key : ObjectInfo
hidden_key = record signing_key { domains = 0x0100 }

abbrev wrap_key : ObjectInfo
wrap_key = record signing_key {
  capabilities = every_capability;
  object_type = ObjectType.wrap_key;
  delegated_capabilities = every_capability;
}

abbrev objects : Infos
objects = (key_of ObjectType.asymmetric_key 0x0102, signing_key) ∷ []

abbrev no_prehash : ℕ → Option ℕ
no_prehash code = none

-- Sign ECDSA with key 0x0102 over a digest of two bytes
abbrev pub sign_request : List ℕ
sign_request = 0x01 ∷ 0x02 ∷ 0xaa ∷ 0xbb ∷ []

sign_request_passes :
    authorize_command_request no_prehash objects session CommandCode.sign_ecdsa sign_request ≡ ok tt
unfolding authorize_command_request required_session_capability require_capability contains
    authorize_target decode id_remainder_request read_u16 get authorize_use
sign_request_passes = refl

key_use_authorized_example :
    (object : ObjectInfo) × (get
        (key_of ObjectType.asymmetric_key (leading_id sign_request))
        objects
      ≡ some object)
    × (can_see session object ≡ true)
    × (contains session.capabilities Capability.sign_ecdsa ≡ true)
    × (contains object.capabilities Capability.sign_ecdsa ≡ true)
key_use_authorized_example =
    key_use_authorized no_prehash objects session CommandCode.sign_ecdsa sign_request
      ObjectType.asymmetric_key Capability.sign_ecdsa refl sign_request_passes

cannot_see_hidden : can_see session hidden_key ≡ false
unfolding can_see
cannot_see_hidden = refl

-- The key 0x0103 is in the store, and is not visible.
abbrev with_hidden : Infos
with_hidden = (key_of ObjectType.asymmetric_key 0x0103, hidden_key) ∷ objects

finds_hidden : get (key_of ObjectType.asymmetric_key 0x0103) with_hidden ≡ some hidden_key
unfolding get
finds_hidden = refl

authorize_command_request-hidden_example :
    authorize_command_request no_prehash with_hidden session CommandCode.sign_ecdsa
      (0x01 ∷ 0x03 ∷ 0xaa ∷ 0xbb ∷ [])
    ≡ authorize_command_request no_prehash
        (remove (key_of ObjectType.asymmetric_key 0x0103) with_hidden)
        session
        CommandCode.sign_ecdsa
        (0x01 ∷ 0x03 ∷ 0xaa ∷ 0xbb ∷ [])
authorize_command_request-hidden_example =
    authorize_command_request-hidden no_prehash with_hidden session CommandCode.sign_ecdsa
      (0x01 ∷ 0x03 ∷ 0xaa ∷ 0xbb ∷ []) (key_of ObjectType.asymmetric_key 0x0103) hidden_key
      finds_hidden cannot_see_hidden refl

pub no_capabilities-IsCapabilitySet : IsCapabilitySet (replicate 8 0)
no_capabilities-IsCapabilitySet = record { eight = refl; bytes = omega arith }

authorize_create_iff_example :
    (authorize_create session signing_key Capability.put_asymmetric_key ≡ ok tt) ↔ (
      (contains session.capabilities Capability.put_asymmetric_key ≡ true)
      × (validate signing_key ≡ ok tt)
      × IsWithinDomains signing_key.domains session.domains
      × IsSubset signing_key.capabilities session.delegated_capabilities
      × IsSubset signing_key.delegated_capabilities session.delegated_capabilities)
authorize_create_iff_example =
    authorize_create_iff session signing_key Capability.put_asymmetric_key (omega arith)
      (omega arith) every_capability-IsCapabilitySet some_capabilities-IsCapabilitySet
      no_capabilities-IsCapabilitySet

authorize_wrapped_export_iff_example :
    (authorize_wrapped_export session signing_key wrap_key ≡ ok tt) ↔ (
      (authorize_use session wrap_key Capability.export_wrapped Capability.export_wrapped ≡ ok tt)
      × (can_see session signing_key ≡ true)
      × (contains signing_key.capabilities Capability.exportable_under_wrap ≡ true)
      × IsSubset signing_key.capabilities wrap_key.delegated_capabilities)
authorize_wrapped_export_iff_example =
    authorize_wrapped_export_iff session signing_key wrap_key some_capabilities-IsCapabilitySet
      every_capability-IsCapabilitySet

creation_passes : authorize_wrapped_creation session signing_key wrap_key ≡ ok tt
unfolding authorize_wrapped_creation contains is_subset_of
creation_passes = refl

authorize_wrapped_creation_ceiling_example :
    IsWithinDomains signing_key.domains session.domains
    × IsSubset signing_key.capabilities session.delegated_capabilities
    × IsSubset signing_key.delegated_capabilities session.delegated_capabilities
    × IsSubset signing_key.capabilities wrap_key.delegated_capabilities
authorize_wrapped_creation_ceiling_example =
    authorize_wrapped_creation_ceiling session signing_key wrap_key (omega arith) (omega arith)
      every_capability-IsCapabilitySet some_capabilities-IsCapabilitySet
      no_capabilities-IsCapabilitySet every_capability-IsCapabilitySet creation_passes
