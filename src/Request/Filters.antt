-- ===== src/Request/Filters.antt =====
-- crates/virtual-yubihsm-core/src/request.rs: the filters of LIST OBJECTS, a loop over tagged
-- fields where a later field of one tag replaces an earlier one.
pub mod Fuel
pub mod RoundTrip
use virtual_yubihsm.Prelude.{
  ℕ, zero, suc, Bool, true, not, ◌&&◌, Option, none, some, List, [], ◌∷◌, length, bit_and, bytes_eq,
  ◌==◌, if◌then◌else◌,
}
use virtual_yubihsm.Error.{ok, err, invalid_data}
use virtual_yubihsm.Wire.{Reader, pure, fail, required, ◌>>=◌, read_u8, read_u16, read_array}
use virtual_yubihsm.Capability.{CapabilitySet, contains_all}
use virtual_yubihsm.Object.{ObjectInfo, ObjectType, type_byte, from_byte}

pub record ObjectFilters : Type 0 where
  pub id : Option ℕ
  pub object_type : Option ObjectType
  pub domains : Option ℕ
  pub capabilities : Option CapabilitySet
  pub algorithm : Option ℕ
  pub label : Option (List ℕ)

abbrev pub no_filters : ObjectFilters
no_filters = record {
  id = none;
  object_type = none;
  domains = none;
  capabilities = none;
  algorithm = none;
  label = none;
}

-- The part before the first zero byte.
unfoldable pub trim_label : List ℕ → List ℕ
trim_label [] = []
trim_label (b ∷ label) = if b == 0 then [] else b ∷ trim_label label

pub filter_value : ObjectFilters → ℕ → Reader ObjectFilters
unfolding trim_label
filter_value filters tag =
    if tag == 1
    then (do v ← read_u16; pure (record filters { id = some v }))
    else if tag == 2
    then (do
      byte ← read_u8
      v ← required (from_byte byte) invalid_data
      pure (record filters { object_type = some v }))
    else if tag == 3
    then (do v ← read_u16; pure (record filters { domains = some v }))
    else if tag == 4
    then (do v ← read_array 8; pure (record filters { capabilities = some v }))
    else if tag == 5
    then (do v ← read_u8; pure (record filters { algorithm = some v }))
    else if tag == 6
    then (do v ← read_array 40; pure (record filters { label = some (trim_label v) }))
    else fail invalid_data

pub filter_field : ObjectFilters → Reader ObjectFilters
filter_field filters = do tag ← read_u8; filter_value filters tag

-- `while reader.remaining_len() != 0`, with a round for each byte: a field takes one at least.
pub filters_loop : ℕ → ObjectFilters → Reader ObjectFilters
filters_loop fuel filters [] = ok (filters, [])
filters_loop zero filters (b ∷ reader) = err invalid_data
filters_loop (suc fuel) filters (b ∷ reader) =
    (filter_field filters >>= filters_loop fuel) (b ∷ reader)

unfoldable pub object_filters : Reader ObjectFilters
unfolding filters_loop
object_filters reader = filters_loop (length reader) no_filters reader

abbrev is_none_or : {A : Type 0} → Option A → (A → Bool) → Bool
is_none_or none p = true
is_none_or (some a) p = p a

unfoldable pub matches : ObjectFilters → ObjectInfo → Bool
matches filters object =
    is_none_or filters.id (λ id. object.id == id)
    && (is_none_or filters.object_type (λ t. type_byte object.object_type == type_byte t)
        && (is_none_or filters.domains (λ domains. not (bit_and object.domains domains == 0))
            && (is_none_or filters.capabilities
                  (λ capabilities. contains_all object.capabilities capabilities)
                && (is_none_or filters.algorithm (λ algorithm. object.algorithm == algorithm)
                    && is_none_or filters.label (λ label. bytes_eq object.label label)))))
