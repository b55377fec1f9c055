-- ===== src/Device/Effects/Puts.antt =====
-- The handlers that put objects create them within the rights of the session, or replace the content
-- of an object and keep its rights.
use virtual_yubihsm.Prelude.{
  ℕ, ◌≡◌, refl, subst, inl, inr, Option-cases, Bool, true, false, some, List, arith, none,
}
use virtual_yubihsm.Prelude.OrderedMap.{get}
use virtual_yubihsm.Error.{ok, ok_or, object_not_found}
use virtual_yubihsm.Error.Ensures.{
  Ensures, holds, fails, >>=-Ensures, if-Ensures, ok_or-eq_ok, Ensures-ok,
}
use virtual_yubihsm.Keys.{Keys, Platform}
use virtual_yubihsm.Capability.{Capability}
use virtual_yubihsm.Protocol.{CommandCode}
use virtual_yubihsm.Object.{ObjectKey, ObjectType, key_order, key}
use virtual_yubihsm.Device.Authorize.{key_of}
use virtual_yubihsm.Request.{ObjectHeader, ObjectRequest}
use virtual_yubihsm.Device.Put.Wrap.{put_wrap_key, put_public_wrap_key, put_otp_aead_key}
use virtual_yubihsm.Object.Record.{ObjectRecord}
use virtual_yubihsm.Authorization.{SessionAuthorization, authorize_create}
use virtual_yubihsm.Device.State.{Device}
use virtual_yubihsm.Device.Store.Ids.{resolve_id_lem}
use virtual_yubihsm.Device.Store.{resolve_id, write_object, write_imported_object}
use virtual_yubihsm.Device.Put.{
  put_opaque, put_authentication_key, put_asymmetric_key, put_hmac_key, put_symmetric_key,
  put_template, change_authentication_key, new_opaque, replace_opaque, existing_opaque,
  replace_or_create,
}
use virtual_yubihsm.Device.Effects.{
  Effect, created, replaced, rights, write_object-Ensures, write_imported_object-Ensures,
}

module _ ⦃keys : Keys⦄ (platform : Platform) (authorization : SessionAuthorization)
    (command : CommandCode) where
  abbrev pub Within : Device → Device × List ℕ → Type 0
  Within device result = Effect platform authorization command device result.0

  unused :
      (device : Device) (object : ObjectRecord) (requested : ℕ)
      → resolve_id device.objects platform.id_draws object.info.object_type requested
        ≡ ok object.info.id
      → get (key object.info) device.objects ≡ none
  unfolding key
  unused device object requested fresh =
      (resolve_id_lem device.objects platform.id_draws object.info.object_type requested
        object.info.id fresh).2

  -- The object that was written is one that the session may create.
  wrote-Within :
      (device updated : Device) (object : ObjectRecord) (capability : Capability) (answer : List ℕ)
      (requested : ℕ)
      → resolve_id device.objects platform.id_draws object.info.object_type requested
        ≡ ok object.info.id
      → authorize_create authorization object.info capability ≡ ok tt
      → write_object device object ≡ ok updated
      → Within device (updated, answer)
  wrote-Within device updated object capability answer requested fresh allowed e =
      created object.info capability (unused device object requested fresh) allowed
        (Ensures-ok (subst (Ensures _) e (write_object-Ensures device object object.info refl)))

  wrote_imported-Within :
      (device updated : Device) (object : ObjectRecord) (capability : Capability) (answer : List ℕ)
      (requested : ℕ)
      → resolve_id device.objects platform.id_draws object.info.object_type requested
        ≡ ok object.info.id
      → authorize_create authorization object.info capability ≡ ok tt
      → write_imported_object device object ≡ ok updated
      → Within device (updated, answer)
  wrote_imported-Within device updated object capability answer requested fresh allowed e =
      created object.info capability (unused device object requested fresh) allowed (
        Ensures-ok
          (subst (Ensures _) e (write_imported_object-Ensures device object object.info refl)))

  pub put_template-Within :
      (device : Device) (request_data : List ℕ)
      → Ensures (Within device) (put_template platform device authorization request_data)
  unfolding put_template
  put_template-Within device request_data =
      search (>>=-Ensures, holds, wrote-Within) depth 24 fits 4000

  pub put_symmetric_key-Within :
      (device : Device) (request_data : List ℕ) (generate : Bool)
      → Ensures
          (Within device)
          (put_symmetric_key platform device authorization request_data generate)
  unfolding put_symmetric_key
  put_symmetric_key-Within device request_data generate =
      search (>>=-Ensures, holds, wrote-Within) depth 24 fits 4000

  pub put_hmac_key-Within :
      (device : Device) (request_data : List ℕ) (generate : Bool)
      → Ensures (Within device) (put_hmac_key platform device authorization request_data generate)
  unfolding put_hmac_key
  put_hmac_key-Within device request_data generate =
      search (>>=-Ensures, holds, wrote-Within) depth 24 fits 4000

  pub put_authentication_key-Within :
      (device : Device) (request_data : List ℕ)
      → Ensures (Within device) (put_authentication_key platform device authorization request_data)
  unfolding put_authentication_key
  put_authentication_key-Within device request_data =
      search (>>=-Ensures, holds, wrote-Within) depth 24 fits 4000

  pub put_asymmetric_key-Within :
      (device : Device) (request_data : List ℕ) (generate : Bool)
      → Ensures
          (Within device)
          (put_asymmetric_key platform device authorization request_data generate)
  unfolding put_asymmetric_key
  put_asymmetric_key-Within device request_data true =
      search (>>=-Ensures, holds, wrote-Within) depth 28 fits 4000
  put_asymmetric_key-Within device request_data false =
      search (>>=-Ensures, holds, wrote_imported-Within) depth 28 fits 4000

  pub put_wrap_key-Within :
      (device : Device) (request_data : List ℕ) (generate : Bool)
      → Ensures (Within device) (put_wrap_key platform device authorization request_data generate)
  unfolding put_wrap_key
  put_wrap_key-Within device request_data true =
      search (>>=-Ensures, holds, wrote-Within) depth 28 fits 4000
  put_wrap_key-Within device request_data false =
      search (>>=-Ensures, holds, wrote_imported-Within) depth 28 fits 4000

  pub put_public_wrap_key-Within :
      (device : Device) (request_data : List ℕ)
      → Ensures (Within device) (put_public_wrap_key platform device authorization request_data)
  unfolding put_public_wrap_key
  put_public_wrap_key-Within device request_data =
      search (>>=-Ensures, holds, wrote-Within) depth 28 fits 4000

  pub put_otp_aead_key-Within :
      (device : Device) (request_data : List ℕ) (generate : Bool)
      → Ensures
          (Within device)
          (put_otp_aead_key platform device authorization request_data generate)
  unfolding put_otp_aead_key
  put_otp_aead_key-Within device request_data generate =
      search (>>=-Ensures, holds, wrote-Within) depth 28 fits 4000

  new_opaque-Within :
      (device : Device) (header : ObjectHeader) (material : List ℕ)
      → Ensures (Within device) (new_opaque platform device authorization header material)
  unfolding new_opaque
  new_opaque-Within device header material =
      search (>>=-Ensures, holds, wrote-Within) depth 28 fits 4000

  -- The content was written to an object that keeps its rights.
  rewrote-Within :
      (device updated : Device) (at : ObjectKey) (existing object : ObjectRecord) (answer : List ℕ)
      → get at device.objects ≡ some existing
      → key object.info ≡ key existing.info
      → rights object.info ≡ rights existing.info
      → write_object device object ≡ ok updated
      → Within device (updated, answer)
  rewrote-Within device updated at existing object answer found same_key same_rights e =
      replaced at existing object.info found same_key same_rights
        (Ensures-ok (subst (Ensures _) e (write_object-Ensures device object object.info refl)))

  replace_opaque-Within :
      (device : Device) (at : ObjectKey) (header : ObjectHeader) (material : List ℕ)
      (existing : ObjectRecord)
      → get at device.objects ≡ some existing
      → Ensures (Within device) (replace_opaque platform device header material existing)
  unfolding replace_opaque key
  replace_opaque-Within device at header material existing found =
      search (>>=-Ensures, if-Ensures, holds, fails, rewrote-Within) depth 28 fits 4000

  existing_opaque-eq :
      (device : Device) (id : ℕ) (existing : ObjectRecord)
      → existing_opaque platform device id ≡ some existing
      → get (key_of ObjectType.opaque id) device.objects ≡ some existing
  unfolding existing_opaque
  existing_opaque-eq device id existing e = ground arith

  replace_or_create-Within :
      (device : Device) (request : ObjectRequest)
      → Ensures (Within device) (
          replace_or_create platform device authorization request
            (existing_opaque platform device request.header.requested_id))
  unfolding replace_or_create
  replace_or_create-Within device request =
      let found = existing_opaque platform device request.header.requested_id in
      elim (Option-cases found) [
        | inl missing ↦ rw missing (new_opaque-Within device request.header request.material)
        | inr (existing, e) ↦ rw e (
            replace_opaque-Within device (key_of ObjectType.opaque request.header.requested_id)
              request.header request.material existing
              (existing_opaque-eq device request.header.requested_id existing e))
      ]

  pub put_opaque-Within :
      (device : Device) (request_data : List ℕ)
      → Ensures (Within device) (put_opaque platform device authorization request_data)
  unfolding put_opaque
  put_opaque-Within device request_data =
      search (>>=-Ensures, if-Ensures, fails, replace_or_create-Within) depth 28 fits 4000

  changed-Within :
      (device updated : Device) (at : ObjectKey) (existing object : ObjectRecord) (answer : List ℕ)
      → ok_or (get at device.objects) object_not_found ≡ ok existing
      → key object.info ≡ key existing.info
      → rights object.info ≡ rights existing.info
      → write_object device object ≡ ok updated
      → Within device (updated, answer)
  changed-Within device updated at existing object answer found =
      rewrote-Within device updated at existing object answer (ok_or-eq_ok _ object_not_found found)

  pub change_authentication_key-Within :
      (device : Device) (request_data : List ℕ)
      → Ensures (Within device) (change_authentication_key platform device request_data)
  unfolding change_authentication_key key
  change_authentication_key-Within device request_data =
      search (>>=-Ensures, holds, changed-Within) depth 28 fits 4000
