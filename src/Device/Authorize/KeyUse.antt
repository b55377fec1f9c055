-- ===== src/Device/Authorize/KeyUse.antt =====
-- What a command that uses a key is allowed to do, from the bytes of its request.
use virtual_yubihsm.Prelude.{
  ℕ, ◌≡◌, true, Option, none, some, List, [], ◌∷◌, take, from_be_bytes, Option-cases, inl, inr,
  arith,
}
use virtual_yubihsm.Prelude.OrderedMap.{get}
use virtual_yubihsm.Error.{ok, ◌>>=◌, >>=-eq-ok}
use virtual_yubihsm.Wire.{decode, read_u16}
use virtual_yubihsm.Capability.{Capability, contains}
use virtual_yubihsm.Protocol.{CommandCode}
use virtual_yubihsm.Object.{ObjectKey, ObjectInfo, ObjectType, key_order}
use virtual_yubihsm.Authorization.{SessionAuthorization, authorize_use, can_see}
use virtual_yubihsm.Authorization.Rules.{authorize_use_iff}
use virtual_yubihsm.Request.{IdRemainder, id_remainder_request}
use virtual_yubihsm.Device.Authorize.{
  Infos, key_of, authorize_object, authorize_target, authorize_command_request,
}

-- The commands whose request is a key id and a remainder, with the type of the key and the
-- capability that its use needs.
abbrev pub key_use : CommandCode → Option (ObjectType × Capability)
key_use CommandCode.sign_pkcs1 = some (ObjectType.asymmetric_key, Capability.sign_pkcs)
key_use CommandCode.sign_ecdsa = some (ObjectType.asymmetric_key, Capability.sign_ecdsa)
key_use CommandCode.sign_eddsa = some (ObjectType.asymmetric_key, Capability.sign_eddsa)
key_use CommandCode.decapsulate_ml_kem =
    some (ObjectType.asymmetric_key, Capability.decapsulate_ml_kem)
key_use CommandCode.decapsulate_hybrid_kem =
    some (ObjectType.asymmetric_key, Capability.decapsulate_hybrid_kem)
key_use CommandCode.derive_ecdh = some (ObjectType.asymmetric_key, Capability.derive_ecdh)
key_use CommandCode.decrypt_pkcs1 = some (ObjectType.asymmetric_key, Capability.decrypt_pkcs)
key_use CommandCode.sign_hmac = some (ObjectType.hmac_key, Capability.sign_hmac)
key_use CommandCode.verify_hmac = some (ObjectType.hmac_key, Capability.verify_hmac)
key_use CommandCode.wrap_data = some (ObjectType.wrap_key, Capability.wrap_data)
key_use CommandCode.unwrap_data = some (ObjectType.wrap_key, Capability.unwrap_data)
key_use CommandCode.encrypt_ecb = some (ObjectType.symmetric_key, Capability.encrypt_ecb)
key_use CommandCode.decrypt_ecb = some (ObjectType.symmetric_key, Capability.decrypt_ecb)
key_use _ = none

-- The first two bytes of a request.
abbrev pub leading_id : List ℕ → ℕ
leading_id request_data = from_be_bytes (take 2 request_data)

id_remainder_leading :
    (request_data : List ℕ) (request : IdRemainder)
    → decode id_remainder_request request_data ≡ ok request
    → request.id ≡ leading_id request_data
unfolding decode id_remainder_request read_u16
id_remainder_leading [] request h = cc
id_remainder_leading (a ∷ []) request h = cc
id_remainder_leading (a ∷ b ∷ rest) request h = ground arith

authorize_object-eq_ok :
    (objects : Infos) (session : SessionAuthorization) (key : ObjectKey) (c : Capability)
    → authorize_object objects session key c ≡ ok tt
    → (object : ObjectInfo) × (get key objects ≡ some object)
      × (can_see session object ≡ true)
      × (contains session.capabilities c ≡ true)
      × (contains object.capabilities c ≡ true)
unfolding authorize_object
authorize_object-eq_ok objects session key c h = elim (Option-cases (get key objects)) [
  | inl missing ↦ ground arith
  | inr (object, found) ↦
      let allowed : authorize_use session object c c ≡ ok tt = ground arith in
      let rights = (authorize_use_iff session object c c).0 allowed in
      (object, found, rights.0, rights.1, rights.2)
]

id_remainder_use :
    (objects : Infos) (session : SessionAuthorization) (request_data : List ℕ) {s t : ObjectType}
    {b c : Capability}
    → ◌≡◌ {A = Option (ObjectType × Capability)} (some (s, b)) (some (t, c))
    → (decode id_remainder_request request_data >>= λ request.
        authorize_object objects session (key_of s request.id) b)
      ≡ ok tt
    → authorize_object objects session (key_of t (leading_id request_data)) c ≡ ok tt
id_remainder_use objects session request_data {s} {t} {b} {c} e h =
    let (request, decoded, allowed) =
      >>=-eq-ok (decode id_remainder_request request_data)
        (λ request. authorize_object objects session (key_of s request.id) b) h in
    let kind : s ≡ t = cc in
    let needs : b ≡ c = cc in
    rw (← id_remainder_leading request_data request decoded, ← kind, ← needs) allowed

target_use :
    (prehash_length : ℕ → Option ℕ) (objects : Infos) (session : SessionAuthorization)
    (command : CommandCode) (request_data : List ℕ) {t : ObjectType} {c : Capability}
    → key_use command ≡ some (t, c)
    → authorize_target prehash_length objects session command request_data ≡ ok tt
    → authorize_object objects session (key_of t (leading_id request_data)) c ≡ ok tt
unfolding authorize_target
target_use pl objects session CommandCode.sign_pkcs1 request_data e h =
    id_remainder_use objects session request_data e h
target_use pl objects session CommandCode.sign_ecdsa request_data e h =
    id_remainder_use objects session request_data e h
target_use pl objects session CommandCode.sign_eddsa request_data e h =
    id_remainder_use objects session request_data e h
target_use pl objects session CommandCode.decapsulate_ml_kem request_data e h =
    id_remainder_use objects session request_data e h
target_use pl objects session CommandCode.decapsulate_hybrid_kem request_data e h =
    id_remainder_use objects session request_data e h
target_use pl objects session CommandCode.derive_ecdh request_data e h =
    id_remainder_use objects session request_data e h
target_use pl objects session CommandCode.decrypt_pkcs1 request_data e h =
    id_remainder_use objects session request_data e h
target_use pl objects session CommandCode.sign_hmac request_data e h =
    id_remainder_use objects session request_data e h
target_use pl objects session CommandCode.verify_hmac request_data e h =
    id_remainder_use objects session request_data e h
target_use pl objects session CommandCode.wrap_data request_data e h =
    id_remainder_use objects session request_data e h
target_use pl objects session CommandCode.unwrap_data request_data e h =
    id_remainder_use objects session request_data e h
target_use pl objects session CommandCode.encrypt_ecb request_data e h =
    id_remainder_use objects session request_data e h
target_use pl objects session CommandCode.decrypt_ecb request_data e h =
    id_remainder_use objects session request_data e h
target_use pl objects session _ request_data e h = cc

-- A command that uses a key passes the checks only if the key that the first two bytes of its
-- request name is in the store under the type the command asks for, shares a domain with the
-- session, and both the session and the key have the capability.
pub key_use_authorized :
    (prehash_length : ℕ → Option ℕ) (objects : Infos) (session : SessionAuthorization)
    (command : CommandCode) (request_data : List ℕ) (t : ObjectType) (c : Capability)
    → key_use command ≡ some (t, c)
    → authorize_command_request prehash_length objects session command request_data ≡ ok tt
    → (object : ObjectInfo) × (get (key_of t (leading_id request_data)) objects ≡ some object)
      × (can_see session object ≡ true)
      × (contains session.capabilities c ≡ true)
      × (contains object.capabilities c ≡ true)
unfolding authorize_command_request
key_use_authorized prehash_length objects session command request_data t c e h =
    let (checked, first, second) =
      >>=-eq-ok _ (λ _. authorize_target prehash_length objects session command request_data) h in
    authorize_object-eq_ok objects session (key_of t (leading_id request_data)) c
      (target_use prehash_length objects session command request_data e second)
