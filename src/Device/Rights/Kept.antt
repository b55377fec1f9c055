-- ===== src/Device/Rights/Kept.antt =====
-- No command gives an object that is there more rights, or fewer.
use virtual_yubihsm.Prelude.{◌≡◌, ◌≢◌, sym, ap, ◌∙◌, Option, none, some, inl, inr}
use virtual_yubihsm.Prelude.OrderedMap.{get, get-insert-known, get-remove-some}
use virtual_yubihsm.Prelude.OrderedMap.All.{All-get}
use virtual_yubihsm.Frame.{Frame}
use virtual_yubihsm.Keys.{Keys, Platform}
use virtual_yubihsm.Protocol.{CommandCode, from_byte}
use virtual_yubihsm.Object.{ObjectKey, ObjectInfo, key_order, key}
use virtual_yubihsm.Object.Record.{ObjectRecord}
use virtual_yubihsm.Authorization.{SessionAuthorization}
use virtual_yubihsm.Device.State.{Device}
use virtual_yubihsm.Device.Store.{stored}
use virtual_yubihsm.Device.Command.{Context, execute_inner_with_session}
use virtual_yubihsm.Device.Effects.{
  Effect, created, imported, replaced, deleted, reset, Written, written, rights, configured,
  acknowledged, unchanged,
}
use virtual_yubihsm.Device.Effects.Rule.{execute_inner_with_session-Holds}
use virtual_yubihsm.Device.Invariant.{IsStore, IsFiled}

differ : {A : Type 0} {a : A} → ◌≡◌ {A = Option A} none (some a) → ⊥
differ e = cc

one_value : {A : Type 0} {a b : A} {o : Option A} → o ≡ some a → o ≡ some b → a ≡ b
one_value e f = cc

module _ ⦃keys : Keys⦄ where
  -- An object that is there before and after has the same rights.
  abbrev pub KeepsRights : Device → Device → Type 0
  KeepsRights before after =
      (at : ObjectKey) (old new : ObjectRecord)
      → get at before.objects ≡ some old
      → get at after.objects ≡ some new
      → rights new.info ≡ rights old.info

  stored-rights :
      (device : Device) (object : ObjectRecord) (info : ObjectInfo) (at : ObjectKey)
      (old new : ObjectRecord)
      → object.info ≡ info
      → ((there : ObjectRecord)
          → get (key info) device.objects ≡ some there
          → rights info ≡ rights there.info)
      → get at device.objects ≡ some old
      → get at (stored device object).objects ≡ some new
      → rights new.info ≡ rights old.info
  unfolding stored key
  stored-rights device object info at old new same agree known present =
      elim (get-insert-known (key object.info) at old _ new device.objects known present) [
        | inl (same_key, inserted) ↦
            ap (λ (o : ObjectRecord). rights o.info) inserted
            ∙ (ap rights same
                ∙ agree old (ap (λ k. get k device.objects) (ap key (sym same) ∙ same_key) ∙ known))
        | inr kept ↦ ap (λ (o : ObjectRecord). rights o.info) kept
      ]

  Written-KeepsRights :
      (device updated : Device) (info : ObjectInfo)
      → Written device info updated
      → ((there : ObjectRecord)
          → get (key info) device.objects ≡ some there
          → rights info ≡ rights there.info)
      → KeepsRights device updated
  unfolding stored
  Written-KeepsRights device updated info (written object same valid) agree at old new known
        present =
      stored-rights device object info at old new same agree known present

  unchanged-KeepsRights : (device : Device) → KeepsRights device device
  unchanged-KeepsRights device at old new known present =
      ap (λ (o : ObjectRecord). rights o.info) (one_value present known)

module _ ⦃keys : Keys⦄ (platform : Platform) where
  Effect-KeepsRights :
      (authorization : SessionAuthorization) (command : CommandCode) (device updated : Device)
      → Effect platform authorization command device updated
      → command ≢ CommandCode.reset_device
      → IsStore device.objects device.sequence_history
      → KeepsRights device updated
  unfolding key
  Effect-KeepsRights authorization command device updated (created info capability fresh allowed w)
        other store =
      Written-KeepsRights device updated info w λ there found. absurd (differ (sym fresh ∙ found))
  Effect-KeepsRights authorization command device updated
        (imported requested wrap_key id origin fresh allowed w) other store =
      Written-KeepsRights device updated (record requested { id = id; origin = origin }) w
        λ there found. absurd (differ (sym fresh ∙ found))
  Effect-KeepsRights authorization command device updated
        (replaced at existing info found same_key same_rights w) other store =
      let filed =
        All-get (IsFiled device.sequence_history) at existing device.objects store.1 found in
      Written-KeepsRights device updated info w λ there present.
        same_rights
        ∙ ap (λ (o : ObjectRecord). rights o.info)
            (one_value (ap (λ k. get k device.objects) (same_key ∙ sym filed.0) ∙ found) present)
  Effect-KeepsRights authorization command device updated (deleted at is_delete) other store =
      λ place old new known present.
        ap (λ (o : ObjectRecord). rights o.info)
          (one_value (get-remove-some at place new device.objects present) known)
  Effect-KeepsRights authorization command device updated (reset renewed is_reset) other store =
      absurd (other is_reset)
  Effect-KeepsRights authorization command device updated (configured options) other store =
      unchanged-KeepsRights device
  Effect-KeepsRights authorization command device updated (acknowledged audit) other store =
      unchanged-KeepsRights device
  Effect-KeepsRights authorization command device updated unchanged other store =
      unchanged-KeepsRights device

  -- However a session's command ends, unless it is ResetDevice, an object that the store holds under
  -- its type and id both before and after has the domains, the capabilities and the delegated
  -- capabilities that it had. The store is well-formed before: in order, each object valid, under
  -- its own key and with an id that the history of generations knows.
  pub execute_inner_with_session-KeepsRights :
      (context : Context) (authorization : SessionAuthorization) (request : Frame)
      → from_byte request.command ≢ some CommandCode.reset_device
      → IsStore context.device.objects context.device.sequence_history
      → KeepsRights context.device
          (execute_inner_with_session platform context authorization request).0.device
  execute_inner_with_session-KeepsRights context authorization request other store =
      (execute_inner_with_session-Holds platform authorization request context
        (KeepsRights context.device) (λ objects. Unit {0})
        (λ command updated answer named allowed ran effect.
          Effect-KeepsRights authorization command context.device updated effect
            (λ is_reset. other (named ∙ ap some is_reset)) store)
        (λ objects result known done. tt) (λ device state changed kept. kept)
        (unchanged-KeepsRights context.device) tt).0
