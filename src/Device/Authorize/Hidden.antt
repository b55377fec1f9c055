-- ===== src/Device/Authorize/Hidden.antt =====
-- crates/virtual-yubihsm-core/src/device.rs, `authorize_command_request`: what an object of other
-- domains lets a session learn. The checks of a command answer as if the object were not there.
use virtual_yubihsm.Prelude.{
  ℕ, ◌≡◌, refl, ◌==◌, Bool, true, false, not, Option, some, List, inl, inr, Bool-cases,
  if◌then◌else◌, arith,
}
use virtual_yubihsm.Prelude.OrderedMap.{get, remove, get-remove}
use virtual_yubihsm.Error.{Result, ok, err, ok_or, ◌>>=◌, object_not_found, invalid_id}
use virtual_yubihsm.Wire.{decode}
use virtual_yubihsm.Request.Keys.{change_authentication_key_request}
use virtual_yubihsm.Capability.{Capability}
use virtual_yubihsm.Protocol.{CommandCode}
use virtual_yubihsm.Object.{ObjectKey, ObjectInfo, ObjectType, key_order, key_eq, key_eq_iff}
use virtual_yubihsm.Authorization.{
  SessionAuthorization, can_see, require_visible, authorize_use, authorize_delete,
}
use virtual_yubihsm.Device.Authorize.{
  Infos, key_of, authorize_object, require_object_visible, authorize_target,
  authorize_command_request,
}

-- The commands whose checks look at no object but those they ask the session to see first. The
-- others look up two objects before either check, or ask whether there is an object at all.
abbrev pub looks_only_at_visible : CommandCode → Bool
looks_only_at_visible CommandCode.put_opaque = false
looks_only_at_visible CommandCode.sign_attestation_certificate = false
looks_only_at_visible CommandCode.export_wrapped = false
looks_only_at_visible CommandCode.get_rsa_wrapped_key = false
looks_only_at_visible CommandCode.export_rsa_wrapped = false
looks_only_at_visible _ = true

>>=-same :
    {A B : Type 0} (r : Result A) {f g : A → Result B}
    → ((a : A) → f a ≡ g a)
    → (r >>= f) ≡ (r >>= g)
>>=-same (ok a) same = same a
>>=-same (err failed) same = refl

-- A check that fails on the hidden object as on a missing one answers alike without it.
checked-hidden :
    (objects : Infos) (at key : ObjectKey) (object : ObjectInfo)
    (check : ObjectInfo → Result (Unit {0}))
    → get at objects ≡ some object
    → check object ≡ err object_not_found
    → (ok_or (get key objects) object_not_found >>= check)
      ≡ (ok_or (get key (remove at objects)) object_not_found >>= check)
checked-hidden objects at key object check found hidden = elim (Bool-cases (key_eq at key)) [
  | inl same ↦ ground (arith, key_eq_iff at key, get-remove at key objects)
  | inr apart ↦ rw (get-remove at key objects, apart) refl
]

if-same :
    {A : Type 0} (b : Bool) (x : A) {y z : A} → y ≡ z → (if b then x else y) ≡ (if b then x else z)
if-same true x same = refl
if-same false x same = same

module _ (objects : Infos) (session : SessionAuthorization) (at : ObjectKey) (object : ObjectInfo)
    (found : get at objects ≡ some object) (hidden : can_see session object ≡ false) where
  use-hidden : (c : Capability) → authorize_use session object c c ≡ err object_not_found
  unfolding authorize_use
  use-hidden c = ground arith

  delete-hidden : authorize_delete session object ≡ err object_not_found
  unfolding authorize_delete
  delete-hidden = ground arith

  visible-hidden : require_visible session object ≡ err object_not_found
  unfolding require_visible
  visible-hidden = ground arith

  authorize_object-hidden :
      (key : ObjectKey) (c : Capability)
      → authorize_object objects session key c ≡ authorize_object (remove at objects) session key c
  unfolding authorize_object
  authorize_object-hidden key c =
      checked-hidden objects at key object (λ o. authorize_use session o c c) found (use-hidden c)

  require_object_visible-hidden :
      (key : ObjectKey)
      → require_object_visible objects session key
        ≡ require_object_visible (remove at objects) session key
  unfolding require_object_visible
  require_object_visible-hidden key =
      checked-hidden objects at key object (require_visible session) found visible-hidden

  authorize_delete-hidden :
      (key : ObjectKey)
      → (ok_or (get key objects) object_not_found >>= authorize_delete session)
        ≡ (ok_or (get key (remove at objects)) object_not_found >>= authorize_delete session)
  authorize_delete-hidden key =
      checked-hidden objects at key object (authorize_delete session) found delete-hidden

  rewrap-hidden :
      (from to : ObjectKey) (c d : Capability)
      → (authorize_object objects session from c >>= λ _. authorize_object objects session to d) ≡ (
          authorize_object (remove at objects) session from c >>= λ _.
          authorize_object (remove at objects) session to d)
  rewrap-hidden from to c d = rw (authorize_object-hidden from c, authorize_object-hidden to d) refl

  authorize_target-hidden :
      (prehash_length : ℕ → Option ℕ) (command : CommandCode) (request_data : List ℕ)
      → looks_only_at_visible command ≡ true
      → authorize_target prehash_length objects session command request_data
        ≡ authorize_target prehash_length (remove at objects) session command request_data
  unfolding authorize_target
  authorize_target-hidden pl CommandCode.put_opaque request_data h = cc
  authorize_target-hidden pl CommandCode.sign_attestation_certificate request_data h = cc
  authorize_target-hidden pl CommandCode.export_wrapped request_data h = cc
  authorize_target-hidden pl CommandCode.get_rsa_wrapped_key request_data h = cc
  authorize_target-hidden pl CommandCode.export_rsa_wrapped request_data h = cc
  authorize_target-hidden pl CommandCode.rewrap_otp_aead request_data h =
      >>=-same _ λ request. rewrap-hidden _ _ _ _
  authorize_target-hidden pl CommandCode.delete_object request_data h =
      >>=-same _ λ key. authorize_delete-hidden key
  authorize_target-hidden pl CommandCode.change_authentication_key request_data h =
      >>=-same (decode change_authentication_key_request request_data) λ request.
        if-same (not (request.id == session.authentication_key_id)) (err invalid_id) (
          authorize_object-hidden (key_of ObjectType.authentication_key request.id)
            Capability.change_authentication_key)
  authorize_target-hidden pl _ request_data h =
      search (>>=-same, authorize_object-hidden, require_object_visible-hidden, refl) depth 4

-- An object that shares no domain with the session is answered exactly as a missing one: for every
-- command whose checks look only at objects that they ask the session to see, whatever it requests,
-- the checks pass or fail, and with the same error, as if the object were not in the store.
pub authorize_command_request-hidden :
    (prehash_length : ℕ → Option ℕ) (objects : Infos) (session : SessionAuthorization)
    (command : CommandCode) (request_data : List ℕ) (at : ObjectKey) (object : ObjectInfo)
    → get at objects ≡ some object
    → can_see session object ≡ false
    → looks_only_at_visible command ≡ true
    → authorize_command_request prehash_length objects session command request_data
      ≡ authorize_command_request prehash_length (remove at objects) session command request_data
unfolding authorize_command_request
authorize_command_request-hidden prehash_length objects session command request_data at object found
      hidden h =
    >>=-same _ λ _.
      authorize_target-hidden objects session at object found hidden prehash_length command
        request_data h
