-- ===== src/Device/Rights/Deleted.antt =====
-- crates/virtual-yubihsm-core/src/device.rs: how an object can leave the store.
use virtual_yubihsm.Prelude.{
  ℕ, ◌≡◌, ◌≢◌, sym, ap, ◌∙◌, true, none, some, Option, List, [], ◌∷◌, arith,
}
use virtual_yubihsm.Prelude.OrderedMap.{get, insert, remove, get-insert, get-remove}
use virtual_yubihsm.Error.{ok, ok_or, object_not_found, ◌>>=◌, >>=-eq-ok}
use virtual_yubihsm.Error.Ensures.{ok_or-eq_ok}
use virtual_yubihsm.Frame.{Frame}
use virtual_yubihsm.Keys.{Keys, Platform}
use virtual_yubihsm.Wire.{decode}
use virtual_yubihsm.Capability.{contains}
use virtual_yubihsm.Protocol.{CommandCode, from_byte}
use virtual_yubihsm.Object.{ObjectKey, ObjectInfo, key_order, key_eq_iff, deletion_capability}
use virtual_yubihsm.Object.Record.{ObjectRecord}
use virtual_yubihsm.Request.{object_key_request}
use virtual_yubihsm.Authorization.{SessionAuthorization, can_see, authorize_delete}
use virtual_yubihsm.Device.Authorize.{authorize_target, authorize_command_request}
use virtual_yubihsm.Device.State.{Device, Objects, infos}
use virtual_yubihsm.Device.Store.{stored}
use virtual_yubihsm.Device.Execute.{run_command, delete_object}
use virtual_yubihsm.Device.Command.{Context, execute_inner_with_session}
use virtual_yubihsm.Device.Effects.{
  Effect, Written, written, unchanged, created, imported, replaced, deleted, configured,
  acknowledged, reset,
}
use virtual_yubihsm.Device.Effects.Rule.{execute_inner_with_session-Holds}

clash : {A : Type 0} {a : A} → ◌≡◌ {A = Option A} none (some a) → ⊥
clash e = cc

delete_rights :
    (session : SessionAuthorization) (object : ObjectInfo)
    → authorize_delete session object ≡ ok tt
    → (can_see session object ≡ true)
      × (contains session.capabilities (deletion_capability object.object_type) ≡ true)
unfolding authorize_delete
delete_rights session object allowed = ground arith

module _ ⦃keys : Keys⦄ where
  get-infos :
      (at : ObjectKey) (object : ObjectRecord) (objects : Objects)
      → get at objects ≡ some object
      → get at (infos objects) ≡ some object.info
  unfolding get
  get-infos at object [] found = cc
  get-infos at object ((key, there) ∷ objects) found = ground (arith, get-infos at object objects)

  insert-keeps :
      (k at : ObjectKey) (new object : ObjectRecord) (objects : Objects)
      → get at objects ≡ some object
      → get at (insert k new objects) ≢ none
  insert-keeps k at new object objects found lost = ground (arith, get-insert k at new objects)

  Written-keeps :
      (device updated : Device) (info : ObjectInfo) (at : ObjectKey) (object : ObjectRecord)
      → Written device info updated
      → get at device.objects ≡ some object
      → get at updated.objects ≢ none
  unfolding stored
  Written-keeps device updated info at object (written new same valid) found lost =
      insert-keeps _ at _ object device.objects found lost

module _ ⦃keys : Keys⦄ (platform : Platform) where
  -- The command deletes this object, which the session sees and may delete.
  pub record MayDelete (authorization : SessionAuthorization) (request : Frame) (at : ObjectKey)
      (object : ObjectInfo) : Type 0 where
    pub named : from_byte request.command ≡ some CommandCode.delete_object
    pub addressed : decode object_key_request request.payload ≡ ok at
    pub visible : can_see authorization object ≡ true
    pub held : contains authorization.capabilities (deletion_capability object.object_type) ≡ true

  delete_object-removes :
      (device updated : Device) (request_data answer : List ℕ) (at : ObjectKey)
      (object : ObjectRecord)
      → delete_object platform device request_data ≡ ok (updated, answer)
      → get at device.objects ≡ some object
      → get at updated.objects ≡ none
      → decode object_key_request request_data ≡ ok at
  unfolding delete_object
  delete_object-removes device updated request_data answer at object ran found lost =
      let (key, decoded, left) =
        >>=-eq-ok (decode object_key_request request_data)
          (λ key. ok (record device { objects = remove key device.objects }, [])) ran in
      let removed : record device { objects = remove key device.objects } ≡ updated = cc in
      let gone = ap (λ (d : Device). get at d.objects) removed ∙ lost in
      let same : key ≡ at = ground (arith, get-remove key at device.objects, key_eq_iff key at) in
      decoded ∙ ap ok same

  delete_object-allowed :
      (authorization : SessionAuthorization) (prehash_length : ℕ → Option ℕ) (objects : Objects)
      (request_data : List ℕ) (at : ObjectKey) (object : ObjectRecord)
      → authorize_command_request prehash_length
          (infos objects)
          authorization
          CommandCode.delete_object
          request_data
        ≡ ok tt
      → decode object_key_request request_data ≡ ok at
      → get at objects ≡ some object
      → authorize_delete authorization object.info ≡ ok tt
  unfolding authorize_command_request authorize_target
  delete_object-allowed authorization prehash_length objects request_data at object allowed decoded
        found =
      let (checked, first, target) =
        >>=-eq-ok _
          (λ _.
            authorize_target prehash_length (infos objects) authorization CommandCode.delete_object
              request_data)
          allowed in
      let (key, read, rest) =
        >>=-eq-ok (decode object_key_request request_data)
          (λ key.
            ok_or (get key (infos objects)) object_not_found >>= authorize_delete authorization)
          target in
      let (info, present, last) =
        >>=-eq-ok (ok_or (get key (infos objects)) object_not_found)
          (authorize_delete authorization) rest in
      let same : at ≡ key = cc in
      let known = get-infos at object objects found in
      let stays : info ≡ object.info = grind (arith, ok_or-eq_ok, present, known, same) in
      ap (authorize_delete authorization) (sym stays) ∙ last

  Effect-MayDelete :
      (authorization : SessionAuthorization) (request : Frame) (command : CommandCode)
      (device updated : Device) (answer : List ℕ) (at : ObjectKey) (object : ObjectRecord)
      → command ≢ CommandCode.reset_device
      → from_byte request.command ≡ some command
      → authorize_command_request platform.prehash_length
          (infos device.objects)
          authorization
          command
          request.payload
        ≡ ok tt
      → run_command platform device authorization command request.payload ≡ ok (updated, answer)
      → Effect platform authorization command device updated
      → get at device.objects ≡ some object
      → get at updated.objects ≡ none
      → MayDelete authorization request at object.info
  unfolding run_command
  Effect-MayDelete authorization request command device updated answer at object other named allowed
        ran (created info capability fresh permitted w) found lost =
      absurd (Written-keeps device updated info at object w found lost)
  Effect-MayDelete authorization request command device updated answer at object other named allowed
        ran (imported requested wrap_key id origin fresh permitted w) found lost =
      absurd (
        Written-keeps device updated (record requested { id = id; origin = origin }) at object w
          found lost)
  Effect-MayDelete authorization request command device updated answer at object other named allowed
        ran (replaced place existing info there same_key same_rights w) found lost =
      absurd (Written-keeps device updated info at object w found lost)
  Effect-MayDelete authorization request command device updated answer at object other named allowed
        ran (deleted place is_delete) found lost =
      let removing =
        ap (λ c. run_command platform device authorization c request.payload) (sym is_delete)
        ∙ ran in
      let addressed =
        delete_object-removes device updated request.payload answer at object removing found lost in
      let checked =
        ap
          (λ c.
            authorize_command_request platform.prehash_length (infos device.objects) authorization c
              request.payload)
          (sym is_delete)
        ∙ allowed in
      let rights = delete_rights authorization object.info (
        delete_object-allowed authorization platform.prehash_length device.objects request.payload
          at object checked addressed found) in
      record {
        named = named ∙ ap some is_delete;
        addressed = addressed;
        visible = rights.0;
        held = rights.1;
      }
  Effect-MayDelete authorization request command device updated answer at object other named allowed
        ran (reset renewed is_reset) found lost =
      absurd (other is_reset)
  Effect-MayDelete authorization request command device updated answer at object other named allowed
        ran (configured options) found lost =
      absurd (clash (sym lost ∙ found))
  Effect-MayDelete authorization request command device updated answer at object other named allowed
        ran (acknowledged audit) found lost =
      absurd (clash (sym lost ∙ found))
  Effect-MayDelete authorization request command device updated answer at object other named allowed
        ran unchanged found lost =
      absurd (clash (sym lost ∙ found))

  -- However a session's command ends, unless it is ResetDevice, an object that the store held before
  -- and holds no more was deleted by DeleteObject, which named it, in a session that shares a domain
  -- with it and has the capability to delete objects of its type.
  pub execute_inner_with_session-MayDelete :
      (context : Context) (authorization : SessionAuthorization) (request : Frame) (at : ObjectKey)
      (object : ObjectRecord)
      → from_byte request.command ≢ some CommandCode.reset_device
      → get at context.device.objects ≡ some object
      → get at (execute_inner_with_session platform context authorization request).0.device.objects
        ≡ none
      → MayDelete authorization request at object.info
  execute_inner_with_session-MayDelete context authorization request at object other found =
      (execute_inner_with_session-Holds platform authorization request context
        (λ device. get at device.objects ≡ none → MayDelete authorization request at object.info)
        (λ objects. Unit {0})
        (λ command updated answer named allowed ran effect.
          Effect-MayDelete authorization request command context.device updated answer at object
            (λ is_reset. other (named ∙ ap some is_reset)) named allowed ran effect found)
        (λ objects result known done. tt) (λ device state changed kept. kept)
        (λ lost. absurd (clash (sym lost ∙ found))) tt).0
