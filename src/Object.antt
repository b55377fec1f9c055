-- ===== src/Object.antt =====
-- crates/virtual-yubihsm-core/src/object.rs: object types, keys and the metadata of an object.
-- Its children have the key material, the record and the stored form.
pub mod Info
pub mod Material
pub mod Record
pub mod Stored
use virtual_yubihsm.Prelude.{
  ℕ, ◌-◌, ◌≡◌, refl, ◌↔◌, Bool, true, false, ◌&&◌, ◌||◌, Option, some, List, [], ◌∷◌, ◌++◌, length,
  replicate, to_be_bytes, match_byte, code-match_byte, ltb, ◌==◌, if◌then◌else◌, arith,
}
use virtual_yubihsm.Prelude.OrderedMap.{Order}
use virtual_yubihsm.Error.{Result, ok, err, invalid_id, invalid_data}
use virtual_yubihsm.Capability.{Capability, CapabilitySet}

abbrev pub label_length : ℕ
label_length = 40

pub data ObjectType : Type 0 where
  opaque authentication_key asymmetric_key : ObjectType
  wrap_key hmac_key template : ObjectType
  otp_aead_key symmetric_key public_wrap_key : ObjectType

-- `object_type as u8`
abbrev pub type_byte : ObjectType → ℕ
type_byte opaque = 0x01
type_byte authentication_key = 0x02
type_byte asymmetric_key = 0x03
type_byte wrap_key = 0x04
type_byte hmac_key = 0x05
type_byte template = 0x06
type_byte otp_aead_key = 0x07
type_byte symmetric_key = 0x08
type_byte public_wrap_key = 0x09

abbrev type_arms : List (ℕ × ObjectType)
type_arms =
    (0x01, opaque)
    ∷ (0x02, authentication_key)
    ∷ (0x03, asymmetric_key)
    ∷ (0x04, wrap_key)
    ∷ (0x05, hmac_key)
    ∷ (0x06, template)
    ∷ (0x07, otp_aead_key)
    ∷ (0x08, symmetric_key)
    ∷ (0x09, public_wrap_key)
    ∷ []

unfoldable pub from_byte : ℕ → Option ObjectType
from_byte = match_byte type_arms

unfoldable pub deletion_capability : ObjectType → Capability
deletion_capability opaque = Capability.delete_opaque
deletion_capability authentication_key = Capability.delete_authentication_key
deletion_capability asymmetric_key = Capability.delete_asymmetric_key
deletion_capability wrap_key = Capability.delete_wrap_key
deletion_capability hmac_key = Capability.delete_hmac_key
deletion_capability template = Capability.delete_template
deletion_capability otp_aead_key = Capability.delete_otp_aead_key
deletion_capability symmetric_key = Capability.delete_symmetric_key
deletion_capability public_wrap_key = Capability.delete_public_wrap_key

pub record ObjectKey : Type 0 where
  pub object_type : ObjectType
  pub id : ℕ

pub record ObjectInfo : Type 0 where
  pub capabilities : CapabilitySet
  pub id : ℕ
  pub length : ℕ
  pub domains : ℕ
  pub object_type : ObjectType
  pub algorithm : ℕ
  pub sequence : ℕ
  pub origin : ℕ
  pub label : List ℕ
  pub delegated_capabilities : CapabilitySet

unfoldable pub validate : ObjectInfo → Result (Unit {0})
validate info =
    if (info.id == 0) || (info.id == 0xffff)
    then err invalid_id
    else if (info.domains == 0) || ltb label_length (length info.label)
    then err invalid_data
    else ok tt

unfoldable pub key : ObjectInfo → ObjectKey
key info = record { object_type = info.object_type; id = info.id }

-- The label is copied to offset 18 of a zeroed array; the delegated capabilities stand at 58.
unfoldable pub encode : ObjectInfo → List ℕ
encode info =
    info.capabilities
    ++ (to_be_bytes 2 info.id
        ++ (to_be_bytes 2 info.length
            ++ (to_be_bytes 2 info.domains
                ++ (type_byte info.object_type
                      ∷ info.algorithm
                      ∷ info.sequence
                      ∷ info.origin
                      ∷ info.label
                    ++ (replicate (label_length - length info.label) 0
                        ++ info.delegated_capabilities)))))

pub type_byte-from_byte : (b : ℕ) {t : ObjectType} → from_byte b ≡ some t → type_byte t ≡ b
unfolding from_byte
type_byte-from_byte b h = code-match_byte type_byte type_arms b (omega arith) h

pub from_byte-type_byte : (t : ObjectType) → from_byte (type_byte t) ≡ some t
unfolding from_byte
from_byte-type_byte opaque = refl
from_byte-type_byte _ = refl

pub type_byte-injective : (s t : ObjectType) → type_byte s ≡ type_byte t → s ≡ t
unfolding from_byte
type_byte-injective s t e = grind (arith, from_byte-type_byte)

-- The derived order: the type first, then the id.
abbrev pub key_eq : ObjectKey → ObjectKey → Bool
key_eq a b = (type_byte a.object_type == type_byte b.object_type) && (a.id == b.id)

abbrev pub key_lt : ObjectKey → ObjectKey → Bool
key_lt a b =
    ltb (type_byte a.object_type) (type_byte b.object_type)
    || ((type_byte a.object_type == type_byte b.object_type) && ltb a.id b.id)

pub key_eq_iff : (a b : ObjectKey) → (key_eq a b ≡ true) ↔ (a ≡ b)
key_eq_iff a b = ground (arith, type_byte-injective a.object_type b.object_type)

number_trans :
    (s t u i j k : ℕ)
    → (ltb s t || ((s == t) && ltb i j)) ≡ true
    → (ltb t u || ((t == u) && ltb j k)) ≡ true
    → (ltb s u || ((s == u) && ltb i k)) ≡ true
number_trans s t u i j k h l = ground arith

pub key_lt_trans : (a b c : ObjectKey) → key_lt a b ≡ true → key_lt b c ≡ true → key_lt a c ≡ true
key_lt_trans a b c =
    number_trans (type_byte a.object_type) (type_byte b.object_type) (type_byte c.object_type) a.id
      b.id c.id

number_total :
    (s t i j : ℕ)
    → ((t == s) && (j == i)) ≡ false
    → (ltb s t || ((s == t) && ltb i j)) ≡ false
    → (ltb t s || ((t == s) && ltb j i)) ≡ true
number_total s t i j h l = ground arith

pub key_lt_total : (a b : ObjectKey) → key_eq b a ≡ false → key_lt a b ≡ false → key_lt b a ≡ true
key_lt_total a b = number_total (type_byte a.object_type) (type_byte b.object_type) a.id b.id

instance abbrev pub key_order : Order ObjectKey
key_order = record {
  eq = key_eq;
  lt = key_lt;
  eq_iff = key_eq_iff;
  trans = key_lt_trans;
  total = key_lt_total;
}
