-- ===== src/Request/Filters/RoundTrip.antt =====
-- The filters of LIST OBJECTS against what a client means by them: fields in any order, where the
-- last one of a kind counts.
use virtual_yubihsm.Prelude.{
  ℕ, zero, suc, ◌-◌, ◌≤◌, ◌≡◌, ◌≢◌, refl, sym, ap, ◌∙◌, some, List, [], ◌∷◌, ◌++◌, length,
  length-append, length-replicate, replicate, to_be_bytes, IsU16, All, arith,
}
use virtual_yubihsm.Error.{ok}
use virtual_yubihsm.Wire.{decode, read_array}
use virtual_yubihsm.Wire.Splits.{read_u8-cons, read_u16-to_be_bytes, read_array-append, decode_iff}
use virtual_yubihsm.Capability.{CapabilitySet}
use virtual_yubihsm.Object.{ObjectType, type_byte, from_byte-type_byte}
use virtual_yubihsm.Request.Filters.{
  ObjectFilters, no_filters, trim_label, filter_value, filter_field, filters_loop, object_filters,
}
use virtual_yubihsm.Request.Filters.Fuel.{filters_loop_unfolds}

-- One field of the request, as a client means it.
pub data Field : Type 0 where
  of_id : ℕ → Field
  of_type : ObjectType → Field
  in_domains : ℕ → Field
  with_capabilities : CapabilitySet → Field
  of_algorithm : ℕ → Field
  of_label : List ℕ → Field

abbrev pub field_tag : Field → ℕ
field_tag (of_id id) = 1
field_tag (of_type object_type) = 2
field_tag (in_domains domains) = 3
field_tag (with_capabilities capabilities) = 4
field_tag (of_algorithm algorithm) = 5
field_tag (of_label label) = 6

abbrev pub field_value : Field → List ℕ
field_value (of_id id) = to_be_bytes 2 id
field_value (of_type object_type) = type_byte object_type ∷ []
field_value (in_domains domains) = to_be_bytes 2 domains
field_value (with_capabilities capabilities) = capabilities
field_value (of_algorithm algorithm) = algorithm ∷ []
field_value (of_label label) = label ++ replicate (40 - length label) 0

abbrev pub encode_fields : List Field → List ℕ
encode_fields [] = []
encode_fields (field ∷ fields) = field_tag field ∷ (field_value field ++ encode_fields fields)

-- A label is at most 40 bytes, none of them zero.
abbrev pub IsField : Field → Type 0
IsField (of_id id) = IsU16 id
IsField (of_type object_type) = Unit {0}
IsField (in_domains domains) = IsU16 domains
IsField (with_capabilities capabilities) = length capabilities ≡ 8
IsField (of_algorithm algorithm) = Unit {0}
IsField (of_label label) = (length label ≤ 40) × All (λ b. b ≢ 0) label

-- A field replaces what an earlier one of its kind said.
abbrev pub with_field : ObjectFilters → Field → ObjectFilters
with_field filters (of_id id) = record filters { id = some id }
with_field filters (of_type object_type) = record filters { object_type = some object_type }
with_field filters (in_domains domains) = record filters { domains = some domains }
with_field filters (with_capabilities capabilities) = record filters {
  capabilities = some capabilities;
}
with_field filters (of_algorithm algorithm) = record filters { algorithm = some algorithm }
with_field filters (of_label label) = record filters { label = some label }

abbrev pub with_fields : ObjectFilters → List Field → ObjectFilters
with_fields filters [] = filters
with_fields filters (field ∷ fields) = with_fields (with_field filters field) fields

trim_label-zeros : (n : ℕ) → trim_label (replicate n 0) ≡ []
unfolding trim_label
trim_label-zeros zero = refl
trim_label-zeros (suc n) = refl

trim_label-padded :
    (label : List ℕ) (n : ℕ) → All (λ b. b ≢ 0) label → trim_label (label ++ replicate n 0) ≡ label
unfolding trim_label
trim_label-padded [] n h = trim_label-zeros n
trim_label-padded (b ∷ label) n h = ground (arith, h.0, trim_label-padded label n h.1)

read_array-whole :
    (n : ℕ) (value rest : List ℕ)
    → length value ≡ n
    → read_array n (value ++ rest) ≡ ok (value, rest)
read_array-whole n value rest e =
    ap (λ k. read_array k (value ++ rest)) (sym e) ∙ read_array-append value rest

filter_field-encoded :
    (filters : ObjectFilters) (field : Field) (rest : List ℕ)
    → IsField field
    → filter_field filters (field_tag field ∷ (field_value field ++ rest))
      ≡ ok (with_field filters field, rest)
unfolding filter_field filter_value
filter_field-encoded filters (of_id id) rest h =
    rw (read_u8-cons, read_u16-to_be_bytes id rest h) refl
filter_field-encoded filters (of_type object_type) rest h =
    rw (read_u8-cons, read_u8-cons, from_byte-type_byte object_type) refl
filter_field-encoded filters (in_domains domains) rest h =
    rw (read_u8-cons, read_u16-to_be_bytes domains rest h) refl
filter_field-encoded filters (with_capabilities capabilities) rest h =
    rw (read_u8-cons, read_array-whole 8 capabilities rest h) refl
filter_field-encoded filters (of_algorithm algorithm) rest h = rw (read_u8-cons, read_u8-cons) refl
filter_field-encoded filters (of_label label) rest h =
    let padded = label ++ replicate (40 - length label) 0 in
    let full : length padded ≡ 40 = omega (
      arith,
      h.0,
      length-append label (replicate (40 - length label) 0),
      length-replicate {A = ℕ} (40 - length label) 0,
    ) in
    rw
      (
        read_u8-cons,
        read_array-whole 40 padded rest full,
        trim_label-padded label (40 - length label) h.1,
      )
      refl

filters_loop-encode_fields :
    (filters : ObjectFilters) (fields : List Field)
    → All IsField fields
    → filters_loop (length (encode_fields fields)) filters (encode_fields fields)
      ≡ ok (with_fields filters fields, [])
unfolding filters_loop
filters_loop-encode_fields filters [] h = refl
filters_loop-encode_fields filters (field ∷ fields) h =
    filters_loop_unfolds filters (field_tag field) (field_value field ++ encode_fields fields)
    ∙ rw (filter_field-encoded filters field (encode_fields fields) h.0)
        (filters_loop-encode_fields (with_field filters field) fields h.1)

-- The filters of LIST OBJECTS are read as they are meant: any fields, in any order and as often as
-- a client likes, decode from their tags and values to the filters that they name, the last of a
-- kind replacing the earlier ones; ids and domains of 16 bits, capabilities of eight bytes, and
-- labels of at most 40 bytes without a zero, padded with zeros to 40.
pub object_filters-encode_fields :
    (fields : List Field)
    → All IsField fields
    → decode object_filters (encode_fields fields) ≡ ok (with_fields no_filters fields)
unfolding object_filters
object_filters-encode_fields fields h =
    (decode_iff object_filters (encode_fields fields) (with_fields no_filters fields)).1
      (filters_loop-encode_fields no_filters fields h)
