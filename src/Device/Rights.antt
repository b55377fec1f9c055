-- ===== src/Device/Rights.antt =====
-- No command gives an object more rights than its session may hand on.
pub mod Kept
pub mod Deleted
use virtual_yubihsm.Prelude.{
  ◌-◌, ◌^◌, ◌≡◌, ◌≢◌, sym, ap, ◌∙◌, subst, true, Option, none, some, bit_and, arith,
}
use virtual_yubihsm.Prelude.OrderedMap.{get, get-insert-new, get-remove-none}
use virtual_yubihsm.Prelude.OrderedMap.All.{All-get}
use virtual_yubihsm.Error.{ok}
use virtual_yubihsm.Frame.{Frame}
use virtual_yubihsm.Keys.{Keys, Platform}
use virtual_yubihsm.Capability.{Capability, is_subset_of}
use virtual_yubihsm.Protocol.{CommandCode, from_byte}
use virtual_yubihsm.Object.{ObjectKey, ObjectInfo, key_order, key}
use virtual_yubihsm.Object.Record.{ObjectRecord}
use virtual_yubihsm.Authorization.{
  SessionAuthorization, authorize_create, authorize_wrapped_creation,
}
use virtual_yubihsm.Device.State.{Device}
use virtual_yubihsm.Device.Store.{stored}
use virtual_yubihsm.Device.Command.{Context, execute_inner_with_session}
use virtual_yubihsm.Device.Effects.{
  Effect, created, imported, replaced, deleted, reset, Written, written, Rights, rights,
}
use virtual_yubihsm.Device.Effects.Rule.{execute_inner_with_session-Holds}
use virtual_yubihsm.Device.Invariant.{IsStore, IsFiled}

-- The domains are the session's, and the capabilities are among those that it may delegate.
pub record WithinSession (authorization : SessionAuthorization) (granted : Rights) : Type 0 where
  pub domains_within : bit_and granted.domains (2 ^ 16 - 1 - authorization.domains) ≡ 0
  pub capabilities_within :
      is_subset_of granted.capabilities authorization.delegated_capabilities ≡ true
  pub delegated_within :
      is_subset_of granted.delegated_capabilities authorization.delegated_capabilities ≡ true

authorize_create-WithinSession :
    (authorization : SessionAuthorization) (info : ObjectInfo) (capability : Capability)
    → authorize_create authorization info capability ≡ ok tt
    → WithinSession authorization (rights info)
unfolding authorize_create
authorize_create-WithinSession authorization info capability h = record {
  domains_within = ground arith;
  capabilities_within = ground arith;
  delegated_within = ground arith;
}

authorize_wrapped_creation-WithinSession :
    (authorization : SessionAuthorization) (info wrap_key : ObjectInfo)
    → authorize_wrapped_creation authorization info wrap_key ≡ ok tt
    → WithinSession authorization (rights info)
unfolding authorize_wrapped_creation
authorize_wrapped_creation-WithinSession authorization info wrap_key h =
    authorize_create-WithinSession authorization info Capability.import_wrapped (ground arith)

clash : {A : Type 0} {a : A} → ◌≡◌ {A = Option A} none (some a) → ⊥
clash e = cc

module _ ⦃keys : Keys⦄ where
  -- Every object that is new, under its key, is within the rights of the session.
  abbrev pub Grows : SessionAuthorization → Device → Device → Type 0
  Grows authorization before after =
      (at : ObjectKey) (object : ObjectRecord)
      → get at before.objects ≡ none
      → get at after.objects ≡ some object
      → WithinSession authorization (rights object.info)

  stored-within :
      (authorization : SessionAuthorization) (device : Device) (object : ObjectRecord)
      (info : ObjectInfo) (at : ObjectKey) (found : ObjectRecord)
      → object.info ≡ info
      → (get (key info) device.objects ≡ none → WithinSession authorization (rights info))
      → get at device.objects ≡ none
      → get at (stored device object).objects ≡ some found
      → WithinSession authorization (rights found.info)
  unfolding stored key
  stored-within authorization device object info at found same allowed absent present =
      let new = get-insert-new (key object.info) at _ found device.objects absent present in
      let same_key = ap key (sym same) ∙ new.0 in
      subst (λ (granted : Rights). WithinSession authorization granted)
        (ap rights (sym same) ∙ ap (λ (o : ObjectRecord). rights o.info) (sym new.1))
        (allowed (ap (λ k. get k device.objects) same_key ∙ absent))

  Written-Grows :
      (authorization : SessionAuthorization) (device updated : Device) (info : ObjectInfo)
      → Written device info updated
      → (get (key info) device.objects ≡ none → WithinSession authorization (rights info))
      → Grows authorization device updated
  unfolding stored
  Written-Grows authorization device updated info (written object same valid) allowed at found
        absent present =
      stored-within authorization device object info at found same allowed absent present

module _ ⦃keys : Keys⦄ (platform : Platform) where
  Effect-Grows :
      (authorization : SessionAuthorization) (command : CommandCode) (device updated : Device)
      → Effect platform authorization command device updated
      → command ≢ CommandCode.reset_device
      → IsStore device.objects device.sequence_history
      → Grows authorization device updated
  unfolding key
  Effect-Grows authorization command device updated (created info capability fresh allowed w) other
        store =
      Written-Grows authorization device updated info w
        λ absent. authorize_create-WithinSession authorization info capability allowed
  Effect-Grows authorization command device updated
        (imported requested wrap_key id origin fresh allowed w) other store =
      Written-Grows authorization device updated (record requested { id = id; origin = origin }) w
        λ absent. authorize_wrapped_creation-WithinSession authorization requested wrap_key allowed
  Effect-Grows authorization command device updated
        (replaced at existing info found same_key same_rights w) other store =
      let filed =
        All-get (IsFiled device.sequence_history) at existing device.objects store.1 found in
      Written-Grows authorization device updated info w λ absent.
        absurd
          (clash (sym absent ∙ ap (λ k. get k device.objects) (same_key ∙ sym filed.0) ∙ found))
  Effect-Grows authorization command device updated (deleted at is_delete) other store =
      λ new object absent present.
        absurd (clash (sym (get-remove-none at new device.objects absent) ∙ present))
  Effect-Grows authorization command device updated (reset renewed is_reset) other store =
      absurd (other is_reset)
  Effect-Grows authorization command device updated _ other store =
      λ new object absent present. absurd (clash (sym absent ∙ present))

  -- However a session's command ends, unless it is ResetDevice, an object that the store did not hold
  -- under its type and id before has only domains of the session, and only capabilities that the
  -- session may delegate. The store is well-formed before: in order, each object valid, under its own
  -- key and with an id that the history of generations knows.
  pub execute_inner_with_session-Grows :
      (context : Context) (authorization : SessionAuthorization) (request : Frame)
      → from_byte request.command ≢ some CommandCode.reset_device
      → IsStore context.device.objects context.device.sequence_history
      → Grows authorization context.device
          (execute_inner_with_session platform context authorization request).0.device
  execute_inner_with_session-Grows context authorization request other store =
      (execute_inner_with_session-Holds platform authorization request context
        (Grows authorization context.device) (λ objects. Unit {0})
        (λ command updated answer named allowed ran effect.
          Effect-Grows authorization command context.device updated effect
            (λ is_reset. other (named ∙ ap some is_reset)) store)
        (λ objects result known done. tt) (λ device state changed grown. grown)
        (λ at object absent present. absurd (clash (sym absent ∙ present))) tt).0
