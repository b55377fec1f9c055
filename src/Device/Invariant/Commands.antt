-- ===== src/Device/Invariant/Commands.antt =====
-- The commands of a session keep the invariant of the device, and the limit on the session's objects.
use virtual_yubihsm.Prelude.{ℕ, ◌≡◌, subst, Option, none, some, List, length}
use virtual_yubihsm.Error.Ensures.{Ensures, Ensures-ok}
use virtual_yubihsm.Frame.{Frame}
use virtual_yubihsm.Keys.{Keys, Platform}
use virtual_yubihsm.SessionObject.{SessionObjects}
use virtual_yubihsm.SessionObject.Handles.{AreObjects}
use virtual_yubihsm.Authorization.{SessionAuthorization}
use virtual_yubihsm.Device.Command.{Context, execute_inner_with_session}
use virtual_yubihsm.Device.Effects.Rule.{execute_inner_with_session-Holds}
use virtual_yubihsm.Device.Invariant.{IsDevice, Effect-IsDevice}
use virtual_yubihsm.Device.Invariant.Nested.{HoldsObjects, session_object_command-HoldsObjects}

module _ ⦃keys : Keys⦄ where
  abbrev pub HasObjects : Option SessionObjects → Type 0
  HasObjects none = Unit {0}
  HasObjects (some objects) = AreObjects objects

  abbrev pub IsContext : Context → Type 0
  IsContext context = IsDevice context.device × HasObjects context.objects

module _ ⦃keys : Keys⦄ (platform : Platform)
    (password_length : (password : List ℕ)
      → length (platform.yubico_password_kdf password) ≡ 32) where
  pub execute_inner_with_session-IsContext :
      (context : Context) (authorization : SessionAuthorization) (request : Frame)
      → IsContext context
      → IsContext (execute_inner_with_session platform context authorization request).0
  execute_inner_with_session-IsContext context authorization request h =
      execute_inner_with_session-Holds platform authorization request context IsDevice HasObjects
        (λ command updated answer named allowed ran effect.
          Effect-IsDevice platform password_length authorization command context.device updated
            effect h.0)
        (λ objects result e done. Ensures-ok (
          subst (Ensures (HoldsObjects platform)) done (
            session_object_command-HoldsObjects platform context.device authorization objects
              request.payload (subst HasObjects e h.1))))
        (λ device state changed kept. kept) h.0 h.1
