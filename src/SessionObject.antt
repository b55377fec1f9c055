-- ===== src/SessionObject.antt =====
-- crates/virtual-yubihsm-core/src/session_object.rs: the volatile objects of a session. The random
-- handles are drawn from a list, after which the random source fails.
pub mod Handles
use virtual_yubihsm.Prelude.{
  ℕ, Bool, true, false, not, ◌&&◌, ◌||◌, Option, none, some, List, [], ◌∷◌, length, ltb, leb, ◌==◌,
  if◌then◌else◌, match_byte,
}
use virtual_yubihsm.Prelude.OrderedMap.{OrderedMap, get, insert, contains_key, nat_order}
use virtual_yubihsm.Keys.{Keys, KeyKind, EcCurve, SoftwarePublicKey}

abbrev pub max_session_objects : ℕ
max_session_objects = 64

abbrev pub flag_readable : ℕ
flag_readable = 1

abbrev pub flag_derive : ℕ
flag_derive = 2

abbrev pub flag_verify : ℕ
flag_verify = 4

pub data SessionObjectKind : Type 0 where
  generic_secret aes p256_private : SessionObjectKind

unfoldable pub kind_from_byte : ℕ → Option SessionObjectKind
kind_from_byte = match_byte ((1, generic_secret) ∷ (2, aes) ∷ (3, p256_private) ∷ [])

-- `kind == SessionObjectKind::Aes` and the like
abbrev pub is_aes : SessionObjectKind → Bool
is_aes aes = true
is_aes _ = false

abbrev pub is_p256_private : SessionObjectKind → Bool
is_p256_private p256_private = true
is_p256_private _ = false

abbrev is_p256 : KeyKind → Bool
is_p256 (KeyKind.ec EcCurve.p256) = true
is_p256 _ = false

abbrev pub is_aes_length : ℕ → Bool
is_aes_length n = (n == 16) || ((n == 24) || (n == 32))

module _ ⦃keys : Keys⦄ where
  pub data SessionObjectMaterial : Type 0 where
    secret_bytes : List ℕ → SessionObjectMaterial
    p256_key_of : keys.SigningKey → SessionObjectMaterial

  pub record SessionObject : Type 0 where
    pub kind : SessionObjectKind
    pub flags : ℕ
    pub material : SessionObjectMaterial

  unfoldable pub secret : SessionObjectKind → ℕ → List ℕ → Option SessionObject
  secret kind flags value =
      if (length value == 0)
        || (ltb 1024 (length value)
            || ((is_aes kind && not (is_aes_length (length value))) || is_p256_private kind))
      then none
      else some (record { kind = kind; flags = flags; material = secret_bytes value })

  unfoldable pub p256_object : ℕ → keys.SigningKey → Option SessionObject
  p256_object flags key =
      if is_p256 (keys.key_kind key)
      then some (record { kind = p256_private; flags = flags; material = p256_key_of key })
      else none

  abbrev bytes_of : SessionObjectMaterial → Option (List ℕ)
  bytes_of (secret_bytes value) = some value
  bytes_of (p256_key_of key) = none

  abbrev key_of : SessionObjectMaterial → Option keys.SigningKey
  key_of (secret_bytes value) = none
  key_of (p256_key_of key) = some key

  unfoldable pub secret_value : SessionObject → Option (List ℕ)
  secret_value object = bytes_of object.material

  unfoldable pub p256_key : SessionObject → Option keys.SigningKey
  p256_key object = key_of object.material

  abbrev uncompressed : SoftwarePublicKey → Option (List ℕ)
  uncompressed (SoftwarePublicKey.ec point) = some point
  uncompressed _ = none

  abbrev point_of : Option keys.SigningKey → Option (List ℕ)
  point_of none = none
  point_of (some key) = uncompressed (keys.public_key key)

  unfoldable pub public_key : SessionObject → Option (List ℕ)
  unfolding p256_key
  public_key object = point_of (p256_key object)

  abbrev pub SessionObjects : Type 0
  SessionObjects = OrderedMap ℕ SessionObject

  -- The first drawn handle that is not 0 and not in use.
  unfoldable pub draw_handle : SessionObjects → List ℕ → Option ℕ
  draw_handle objects [] = none
  draw_handle objects (handle ∷ draws) =
      let later = draw_handle objects draws in
      if not (handle == 0) && not (contains_key handle objects) then some handle else later

  abbrev pub inserted : SessionObject → SessionObjects → Option ℕ → Option (ℕ × SessionObjects)
  inserted object objects none = none
  inserted object objects (some handle) = some (handle, insert handle object objects)

  unfoldable pub insert_object :
      List ℕ → SessionObject → SessionObjects → Option (ℕ × SessionObjects)
  unfolding draw_handle
  insert_object draws object objects =
      if leb max_session_objects (length objects)
      then none
      else inserted object objects (draw_handle objects draws)
