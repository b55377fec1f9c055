-- ===== src/Device/Effects/Imports.antt =====
-- The handlers that import objects under a wrap key store them within the rights of the session and
-- of the wrap key.
use virtual_yubihsm.Prelude.{ℕ, ◌≡◌, subst, List}
use virtual_yubihsm.Error.{ok}
use virtual_yubihsm.Error.Ensures.{Ensures, Ensures-ok, holds, fails, >>=-Ensures, if-Ensures}
use virtual_yubihsm.Keys.{Keys, Platform}
use virtual_yubihsm.Protocol.{CommandCode}
use virtual_yubihsm.Object.{ObjectInfo}
use virtual_yubihsm.Object.Record.{ObjectRecord}
use virtual_yubihsm.Authorization.{SessionAuthorization, authorize_wrapped_creation}
use virtual_yubihsm.Device.State.{Device}
use virtual_yubihsm.Device.Store.Ids.{resolve_id_lem}
use virtual_yubihsm.Device.Store.{resolve_id, write_imported_object}
use virtual_yubihsm.Device.Wrap.{store_imported, import_wrapped}
use virtual_yubihsm.Device.Wrap.Rsa.{import_rsa_wrapped, put_rsa_wrapped_key}
use virtual_yubihsm.Device.Effects.{imported, write_imported_object-Ensures}
use virtual_yubihsm.Device.Effects.Puts.{Within}

module _ ⦃keys : Keys⦄ (platform : Platform) (authorization : SessionAuthorization)
    (command : CommandCode) where
  imported-Within :
      (device updated : Device) (requested wrap_key : ObjectInfo) (object : ObjectRecord)
      (answer : List ℕ) (named : ℕ)
      → resolve_id device.objects platform.id_draws requested.object_type named ≡ ok object.info.id
      → authorize_wrapped_creation authorization requested wrap_key ≡ ok tt
      → object.info ≡ record requested { id = object.info.id; origin = object.info.origin }
      → write_imported_object device object ≡ ok updated
      → Within platform authorization command device (updated, answer)
  imported-Within device updated requested wrap_key object answer named fresh allowed same e =
      imported requested wrap_key object.info.id object.info.origin
        (resolve_id_lem device.objects platform.id_draws requested.object_type named object.info.id
          fresh).2
        allowed
        (Ensures-ok (subst (Ensures _) e (write_imported_object-Ensures device object _ same)))

  store_imported-Within :
      (device : Device) (object : ObjectRecord) (wrap_key : ObjectInfo)
      → authorize_wrapped_creation authorization object.info wrap_key ≡ ok tt
      → Ensures
          (Within platform authorization command device)
          (store_imported platform device object)
  unfolding store_imported
  store_imported-Within device object wrap_key allowed =
      search (>>=-Ensures, holds, imported-Within) depth 20 fits 4000

  pub import_wrapped-Within :
      (device : Device) (request_data : List ℕ)
      → Ensures
          (Within platform authorization command device)
          (import_wrapped platform device authorization request_data)
  unfolding import_wrapped
  import_wrapped-Within device request_data =
      search (>>=-Ensures, if-Ensures, fails, store_imported-Within) depth 28 fits 4000

  pub import_rsa_wrapped-Within :
      (device : Device) (request_data : List ℕ)
      → Ensures
          (Within platform authorization command device)
          (import_rsa_wrapped platform device authorization request_data)
  unfolding import_rsa_wrapped
  import_rsa_wrapped-Within device request_data =
      search (>>=-Ensures, store_imported-Within) depth 28 fits 4000

  pub put_rsa_wrapped_key-Within :
      (device : Device) (request_data : List ℕ)
      → Ensures
          (Within platform authorization command device)
          (put_rsa_wrapped_key platform device authorization request_data)
  unfolding put_rsa_wrapped_key
  put_rsa_wrapped_key-Within device request_data =
      search (>>=-Ensures, holds, imported-Within) depth 32 fits 6000
