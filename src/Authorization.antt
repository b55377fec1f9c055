-- ===== src/Authorization.antt =====
-- crates/virtual-yubihsm-core/src/authorization.rs: what a session may do with an object. The
-- checks read only the metadata of an `ObjectRecord`, so the records are their `ObjectInfo` here.
pub mod Rules
use virtual_yubihsm.Prelude.{ℕ, ◌-◌, ◌^◌, Bool, not, ◌||◌, bit_and, ◌==◌, if◌then◌else◌}
use virtual_yubihsm.Error.{
  Result, ok, err, guard, ◌>>=◌, ◌>>◌, insufficient_permissions, object_not_found,
}
use virtual_yubihsm.Capability.{Capability, CapabilitySet, contains, is_subset_of}
use virtual_yubihsm.Object.{ObjectInfo, validate, deletion_capability}

pub record SessionAuthorization : Type 0 where
  pub authentication_key_id : ℕ
  pub capabilities : CapabilitySet
  pub delegated_capabilities : CapabilitySet
  pub domains : ℕ

unfoldable pub require_capability : SessionAuthorization → Capability → Result (Unit {0})
require_capability session capability =
    guard (contains session.capabilities capability) insufficient_permissions

unfoldable pub can_see : SessionAuthorization → ObjectInfo → Bool
can_see session object = not (bit_and session.domains object.domains == 0)

-- A cross-domain object is indistinguishable from a missing object.
unfoldable pub require_visible : SessionAuthorization → ObjectInfo → Result (Unit {0})
unfolding can_see
require_visible session object = guard (can_see session object) object_not_found

unfoldable pub authorize_use :
    SessionAuthorization → ObjectInfo → Capability → Capability → Result (Unit {0})
unfolding require_visible require_capability
authorize_use session object session_capability object_capability = do
  require_visible session object
  require_capability session session_capability
  guard (contains object.capabilities object_capability) insufficient_permissions

-- `!domains` of a u16
unfoldable pub authorize_create : SessionAuthorization → ObjectInfo → Capability → Result (Unit {0})
unfolding require_capability validate
authorize_create session requested command_capability = do
  require_capability session command_capability
  validate requested
  if not (bit_and requested.domains (2 ^ 16 - 1 - session.domains) == 0)
        || (not (is_subset_of requested.capabilities session.delegated_capabilities)
            || not (is_subset_of requested.delegated_capabilities session.delegated_capabilities))
      then err insufficient_permissions
      else ok tt

unfoldable pub authorize_delete : SessionAuthorization → ObjectInfo → Result (Unit {0})
unfolding require_visible require_capability
authorize_delete session object = do
  require_visible session object
  require_capability session (deletion_capability object.object_type)

unfoldable pub authorize_wrapped_export :
    SessionAuthorization → ObjectInfo → ObjectInfo → Result (Unit {0})
unfolding authorize_use
authorize_wrapped_export session object wrap_key = do
  authorize_use session wrap_key Capability.export_wrapped Capability.export_wrapped
  require_visible session object
  if not (contains object.capabilities Capability.exportable_under_wrap)
        || not (is_subset_of object.capabilities wrap_key.delegated_capabilities)
      then err insufficient_permissions
      else ok tt

unfoldable pub authorize_wrapped_creation :
    SessionAuthorization → ObjectInfo → ObjectInfo → Result (Unit {0})
unfolding authorize_create
authorize_wrapped_creation session requested wrap_key = do
  authorize_create session requested Capability.import_wrapped
  if not (is_subset_of requested.capabilities wrap_key.delegated_capabilities)
      then err insufficient_permissions
      else ok tt
