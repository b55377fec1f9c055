-- ===== src/Device/Invariant/Nested.antt =====
-- The nested commands keep the objects of a session within their limit and under handles.
use virtual_yubihsm.Prelude.{ℕ, ◌≡◌, List}
use virtual_yubihsm.Error.{Result, ok, err, ok_or, storage_failed}
use virtual_yubihsm.Error.Ensures.{Ensures, holds, fails, >>=-Ensures, if-Ensures, ok_or-eq_ok}
use virtual_yubihsm.Keys.{Keys, Platform}
use virtual_yubihsm.Protocol.Nested.{SessionObjectCommand}
use virtual_yubihsm.Request.Nested.{SessionResultHeader}
use virtual_yubihsm.SessionObject.{SessionObject, SessionObjects, insert_object}
use virtual_yubihsm.SessionObject.Handles.{AreObjects, insert_object-AreObjects, remove-AreObjects}
use virtual_yubihsm.Authorization.{SessionAuthorization}
use virtual_yubihsm.Device.State.{Device}
use virtual_yubihsm.Device.Derivation.{
  by_operation, session_object_command, delete_session_object, generate_session_key, derived, kept,
}

module _ ⦃keys : Keys⦄ (platform : Platform) where
  abbrev pub HoldsObjects : SessionObjects × List ℕ → Type 0
  HoldsObjects result = AreObjects result.0

  inserted-HoldsObjects :
      (draws : List ℕ) (object : SessionObject) (objects : SessionObjects)
      (inserted : ℕ × SessionObjects) (answer : List ℕ)
      → AreObjects objects
      → ok_or (insert_object draws object objects) storage_failed ≡ ok inserted
      → HoldsObjects (inserted.1, answer)
  inserted-HoldsObjects draws object objects inserted answer h e =
      insert_object-AreObjects draws object objects inserted.1 inserted.0
        (ok_or-eq_ok _ storage_failed e) h

  derived-HoldsObjects :
      (objects : SessionObjects) (value : Result (SessionResultHeader × List ℕ))
      → AreObjects objects
      → Ensures HoldsObjects (derived platform objects value)
  derived-HoldsObjects objects value h = search (>>=-Ensures, holds, inserted-HoldsObjects) depth 12

  kept-HoldsObjects :
      (objects : SessionObjects) (answer : Result (List ℕ))
      → AreObjects objects
      → Ensures HoldsObjects (kept platform objects answer)
  kept-HoldsObjects objects (ok bytes) h = holds h
  kept-HoldsObjects objects (err failed) h = fails

  delete-HoldsObjects :
      (objects : SessionObjects) (payload : List ℕ)
      → AreObjects objects
      → Ensures HoldsObjects (delete_session_object objects payload)
  unfolding delete_session_object
  delete-HoldsObjects objects payload h = search (>>=-Ensures, holds, remove-AreObjects) depth 12

  generate-HoldsObjects :
      (objects : SessionObjects) (payload : List ℕ)
      → AreObjects objects
      → Ensures HoldsObjects (generate_session_key platform objects payload)
  unfolding generate_session_key
  generate-HoldsObjects objects payload h =
      search (>>=-Ensures, if-Ensures, holds, fails, inserted-HoldsObjects) depth 20

  by_operation-HoldsObjects :
      (device : Device) (authorization : SessionAuthorization) (objects : SessionObjects)
      (operation : SessionObjectCommand) (payload : List ℕ)
      → AreObjects objects
      → Ensures HoldsObjects (by_operation platform device authorization objects operation payload)
  unfolding by_operation
  by_operation-HoldsObjects device authorization objects SessionObjectCommand.read payload h =
      kept-HoldsObjects objects _ h
  by_operation-HoldsObjects device authorization objects SessionObjectCommand.verify_cmac payload
        h =
      kept-HoldsObjects objects _ h
  by_operation-HoldsObjects device authorization objects SessionObjectCommand.delete_object payload
        h =
      delete-HoldsObjects objects payload h
  by_operation-HoldsObjects device authorization objects
        SessionObjectCommand.generate_asymmetric_key payload h =
      generate-HoldsObjects objects payload h
  by_operation-HoldsObjects device authorization objects operation payload h =
      derived-HoldsObjects objects _ h

  pub session_object_command-HoldsObjects :
      (device : Device) (authorization : SessionAuthorization) (objects : SessionObjects)
      (request_data : List ℕ)
      → AreObjects objects
      → Ensures HoldsObjects
          (session_object_command platform device authorization objects request_data)
  unfolding session_object_command
  session_object_command-HoldsObjects device authorization objects request_data h =
      search (>>=-Ensures, by_operation-HoldsObjects) depth 8
