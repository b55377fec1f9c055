-- ===== src/Tests/Codec.antt =====
-- The results on bitmaps, reads and frames, applied to concrete bytes.
use virtual_yubihsm.Prelude.{
  ℕ, ◌+◌, ◌%◌, ◌^◌, ◌≤◌, ◌<◌, ◌≡◌, refl, ◌↔◌, true, not, ◌&&◌, ◌||◌, ◌==◌, some, List, [], ◌∷◌,
  ◌++◌, length, to_be_bytes, from_be_bytes, leb, take, drop, AreBytes, arith, replicate, All,
}
use virtual_yubihsm.Prelude.OrderedMap.{nat_order}
use virtual_yubihsm.Error.{ok}
use virtual_yubihsm.Wire.{read_u64, decode}
use virtual_yubihsm.Wire.Splits.{read_u64-eq_ok}
use virtual_yubihsm.Frame.{Frame, parse, encode, max_data_length}
use virtual_yubihsm.Frame.RoundTrip.{parse-encode, encode-parse}
use virtual_yubihsm.Capability.{
  Capability, CapabilitySet, IsCapabilitySet, contains, contains_all, is_subset_of, intersection,
  remove,
}
use virtual_yubihsm.Capability
use virtual_yubihsm.Capability.Sets.{
  holds, IsSubset, is_subset_of_iff, holds-insert, holds-remove, holds-intersection,
}
use virtual_yubihsm.Protocol.{CommandCode, from_byte, to_byte, from_byte_iff}
use virtual_yubihsm.Object.{key_order, validate}
use virtual_yubihsm.Request.Filters.{object_filters, no_filters}
use virtual_yubihsm.Request.Filters.RoundTrip.{
  Field, of_id, of_label, IsField, encode_fields, object_filters-encode_fields,
}
use virtual_yubihsm.Session.{increment_counter, secure_response_data_fits}
use virtual_yubihsm.Session.Counter.{increment_counter_lem, secure_response_data_fits_iff}
use virtual_yubihsm.Object
use virtual_yubihsm.Object.Info.{encode_layout}
use virtual_yubihsm.Tests.{
  signing_key, no_capabilities-IsCapabilitySet, every_capability, some_capabilities,
  every_capability-IsCapabilitySet, some_capabilities-IsCapabilitySet,
}

is_subset_of_iff_example :
    (is_subset_of some_capabilities every_capability ≡ true)
    ↔ IsSubset some_capabilities every_capability
is_subset_of_iff_example =
    is_subset_of_iff some_capabilities every_capability some_capabilities-IsCapabilitySet
      every_capability-IsCapabilitySet

holds-insert_example :
    holds (Capability.insert some_capabilities Capability.get_opaque) 0
    ≡ ((Capability.to_bit Capability.get_opaque == 0) || holds some_capabilities 0)
holds-insert_example =
    holds-insert some_capabilities Capability.get_opaque 0 some_capabilities-IsCapabilitySet
      (omega arith)

holds-remove_example :
    holds (Capability.remove some_capabilities Capability.sign_ecdsa) 7
    ≡ (not (Capability.to_bit Capability.sign_ecdsa == 7) && holds some_capabilities 7)
holds-remove_example =
    holds-remove some_capabilities Capability.sign_ecdsa 7 some_capabilities-IsCapabilitySet
      (omega arith)

holds-intersection_example :
    holds (intersection some_capabilities every_capability) 16
    ≡ (holds some_capabilities 16 && holds every_capability 16)
holds-intersection_example =
    holds-intersection some_capabilities every_capability 16 some_capabilities-IsCapabilitySet
      every_capability-IsCapabilitySet (omega arith)

abbrev echo_frame : Frame
echo_frame = record { command = 0x01; payload = 0xaa ∷ 0xbb ∷ [] }

parse-encode_example : parse (encode echo_frame) ≡ ok echo_frame
parse-encode_example = parse-encode echo_frame (omega arith)

abbrev echo_bytes : List ℕ
echo_bytes = 0x01 ∷ 0x00 ∷ 0x02 ∷ 0xaa ∷ 0xbb ∷ []

parse-echo_bytes : parse echo_bytes ≡ ok echo_frame
unfolding parse
parse-echo_bytes = refl

encode-parse_example :
    (encode echo_frame ≡ echo_bytes) × (length echo_frame.payload ≤ max_data_length)
encode-parse_example = encode-parse echo_bytes (omega arith) parse-echo_bytes

increment_counter_lem_example :
    from_be_bytes (increment_counter (0x01 ∷ 0xff ∷ [])) ≡ (0x01ff + 1) % 256 ^ 2
increment_counter_lem_example = increment_counter_lem (0x01 ∷ 0xff ∷ []) (omega arith)

secure_response_data_fits_iff_example : secure_response_data_fits 8173 ≡ leb 8173 8172
secure_response_data_fits_iff_example = secure_response_data_fits_iff 8173 (omega arith)

read_eight : read_u64 (0 ∷ 0 ∷ 0 ∷ 0 ∷ 0 ∷ 0 ∷ 1 ∷ 2 ∷ 9 ∷ []) ≡ ok (258, 9 ∷ [])
unfolding read_u64
read_eight = refl

read_u64-eq_ok_example :
    (to_be_bytes 8 258 ++ (9 ∷ []) ≡ 0 ∷ 0 ∷ 0 ∷ 0 ∷ 0 ∷ 0 ∷ 1 ∷ 2 ∷ 9 ∷ [])
    × (258 < 2 ^ 64)
    × AreBytes (9 ∷ [])
read_u64-eq_ok_example =
    read_u64-eq_ok (0 ∷ 0 ∷ 0 ∷ 0 ∷ 0 ∷ 0 ∷ 1 ∷ 2 ∷ 9 ∷ []) (omega arith) read_eight

from_byte_iff_example :
    (from_byte 0x56 ≡ some CommandCode.sign_ecdsa) ↔ (to_byte CommandCode.sign_ecdsa ≡ 0x56)
from_byte_iff_example = from_byte_iff 0x56 CommandCode.sign_ecdsa

-- A label "ab", and the id 5 after the id 7
abbrev some_fields : List Field
some_fields = of_id 7 ∷ of_label (0x61 ∷ 0x62 ∷ []) ∷ of_id 5 ∷ []

some_fields-IsField : All IsField some_fields
some_fields-IsField =
    (omega arith, ((omega arith, (omega arith, (omega arith, tt))), (omega arith, tt)))

object_filters-encode_fields_example :
    decode object_filters (encode_fields some_fields)
    ≡ ok (record no_filters { id = some 5; label = some (0x61 ∷ 0x62 ∷ []) })
object_filters-encode_fields_example = object_filters-encode_fields some_fields some_fields-IsField

signing_key-valid : validate signing_key ≡ ok tt
unfolding validate
signing_key-valid = refl

encode_layout_example :
    (length (Object.encode signing_key) ≡ 66)
    × (take 8 (Object.encode signing_key) ≡ some_capabilities)
    × (drop 58 (Object.encode signing_key) ≡ replicate 8 0)
encode_layout_example =
    encode_layout signing_key some_capabilities-IsCapabilitySet no_capabilities-IsCapabilitySet
      signing_key-valid
