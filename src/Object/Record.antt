-- ===== src/Object/Record.antt =====
-- crates/virtual-yubihsm-core/src/object.rs: an object with its key material, and the checks that
-- tie the metadata to the material.
pub mod Laws
use virtual_yubihsm.Prelude.{
  ℕ, ◌+◌, Bool, true, false, not, ◌&&◌, ◌||◌, Option, none, some, List, ltb, ◌==◌, if◌then◌else◌,
}
use virtual_yubihsm.Error.{Result, ok, err, ok_or, ◌>>=◌, ◌>>◌, invalid_data, wrong_length}
use virtual_yubihsm.Keys.{Keys}
use virtual_yubihsm.Algorithm.{
  Algorithm, is_rsa_key, asymmetric_key_length, asymmetric_object_length, hmac_object_length,
}
use virtual_yubihsm.Algorithm
use virtual_yubihsm.Object.{ObjectInfo, ObjectType}
use virtual_yubihsm.Object
use virtual_yubihsm.Object.Material.{
  ObjectMaterial, secret, material_length, typed_private_material,
}

abbrev pub is_some_rsa : Option Algorithm → Bool
is_some_rsa none = false
is_some_rsa (some algorithm) = is_rsa_key algorithm

-- The objects whose secret is a private key: asymmetric keys, and wrap keys of an RSA algorithm.
abbrev pub holds_private_key : ObjectType → Option Algorithm → Bool
holds_private_key ObjectType.asymmetric_key algorithm = true
holds_private_key ObjectType.wrap_key algorithm = is_some_rsa algorithm
holds_private_key _ algorithm = false

-- `matches!(object_type, AsymmetricKey | WrapKey) && algorithm.is_some_and(..)`
abbrev pub stores_private_asymmetric_key : ObjectType → Option Algorithm → Bool
stores_private_asymmetric_key ObjectType.asymmetric_key (some algorithm) = true
stores_private_asymmetric_key ObjectType.wrap_key (some algorithm) = is_rsa_key algorithm
stores_private_asymmetric_key _ _ = false

abbrev pub option_bind : {A B : Type 0} → Option A → (A → Option B) → Option B
option_bind none f = none
option_bind (some a) f = f a

-- `option == Some(n)`
abbrev pub is_some_of : Option ℕ → ℕ → Bool
is_some_of none n = false
is_some_of (some m) n = m == n

-- `length.checked_add(8)` of a 64-bit `usize`
abbrev pub add_eight : ℕ → Option ℕ
add_eight n = if ltb (n + 8) 0x10000000000000000 then some (n + 8) else none

abbrev wrap_length : ℕ → Option Algorithm → Result ℕ
wrap_length size (some Algorithm.aes128_ccm_wrap) = ok (size + 8)
wrap_length size (some Algorithm.aes192_ccm_wrap) = ok (size + 8)
wrap_length size (some Algorithm.aes256_ccm_wrap) = ok (size + 8)
wrap_length size (some algorithm) =
    if is_rsa_key algorithm
    then ok_or (option_bind (asymmetric_object_length algorithm) add_eight) invalid_data
    else err invalid_data
wrap_length size none = err invalid_data

-- The logical length of an object of this type and algorithm, with so much material.
abbrev pub info_length : ObjectType → Option Algorithm → ℕ → Result ℕ
info_length ObjectType.authentication_key algorithm size = ok (size + 8)
info_length ObjectType.asymmetric_key algorithm size =
    ok_or (option_bind algorithm asymmetric_object_length) invalid_data
info_length ObjectType.wrap_key algorithm size = wrap_length size algorithm
info_length ObjectType.hmac_key algorithm size =
    ok_or (option_bind algorithm hmac_object_length) invalid_data
info_length ObjectType.otp_aead_key algorithm size = ok (size + 4)
info_length ObjectType.public_wrap_key algorithm size = ok (size + 8)
info_length _ algorithm size = ok size

-- `u16::try_from(length).map_err(|_| WrongLength)`
abbrev pub to_u16 : ℕ → Result ℕ
to_u16 n = if ltb n 0x10000 then ok n else err wrong_length

module _ ⦃keys : Keys⦄ where
  pub record ObjectRecord : Type 0 where
    pub info : ObjectInfo
    pub material : ObjectMaterial

  abbrev promoted : ObjectInfo → ObjectMaterial → Result ObjectMaterial
  promoted info (secret value) =
      if holds_private_key info.object_type (Algorithm.from_byte info.algorithm)
      then typed_private_material info value
      else ok (secret value)
  promoted info material = ok material

  unfoldable pub promote_private_material : ObjectRecord → Result ObjectRecord
  promote_private_material object = do
    material ← promoted object.info object.material
    ok (record object { material = material })

  unfoldable pub expected_info_length : ObjectRecord → Result ℕ
  expected_info_length object =
      info_length object.info.object_type (Algorithm.from_byte object.info.algorithm)
        (material_length object.material)

  unfoldable pub normalize_info_length : ObjectRecord → Result ObjectRecord
  unfolding expected_info_length
  normalize_info_length object = do
    size ← expected_info_length object
    length ← to_u16 size
    ok (record object { info = record object.info { length = length } })

  unfoldable pub validate : ObjectRecord → Result (Unit {0})
  unfolding expected_info_length
  validate object = do
    Object.validate object.info
    if stores_private_asymmetric_key object.info.object_type
            (Algorithm.from_byte object.info.algorithm)
          && not (
              is_some_of
                (option_bind (Algorithm.from_byte object.info.algorithm) asymmetric_key_length)
                (material_length object.material))
        then err invalid_data
        else (do
          expected ← expected_info_length object
          if object.info.length == expected then ok tt else err invalid_data)
