-- ===== src/Frame.antt =====
-- crates/virtual-yubihsm-core/src/frame.rs: the outer frame, a command byte, a 16-bit length and
-- the data. The field `data` of the source is `payload` here.
pub mod RoundTrip
use virtual_yubihsm.Prelude.{
  ℕ, ◌+◌, ◌%◌, ◌^◌, List, [], ◌∷◌, ◌++◌, length, drop, get_or, from_be_bytes, to_be_bytes, bit_or,
  ltb, ◌==◌, not, ◌||◌, if◌then◌else◌,
}
use virtual_yubihsm.Error.{DeviceError, Result, ok, err, wrong_length, to_byte}

abbrev pub header_length : ℕ
header_length = 3

abbrev pub max_frame_length : ℕ
max_frame_length = 8192

abbrev pub max_data_length : ℕ
max_data_length = 8189

abbrev pub response_bit : ℕ
response_bit = 0x80

abbrev pub error_command : ℕ
error_command = 0x7f

pub record Frame : Type 0 where
  pub command : ℕ
  pub payload : List ℕ

unfoldable pub new : ℕ → List ℕ → Result Frame
new command payload =
    if ltb max_data_length (length payload)
    then err wrong_length
    else ok (record { command = command; payload = payload })

unfoldable pub parse : List ℕ → Result Frame
unfolding new
parse encoded =
    if ltb (length encoded) header_length
    then err wrong_length
    else let declared = from_be_bytes (get_or encoded 1 0 ∷ get_or encoded 2 0 ∷ []) in
      if ltb max_data_length declared || not (length encoded == header_length + declared)
      then err wrong_length
      else new (get_or encoded 0 0) (drop header_length encoded)

-- The length field is `len as u16`.
unfoldable pub encode : Frame → List ℕ
encode frame = frame.command ∷ to_be_bytes 2 (length frame.payload % 2 ^ 16) ++ frame.payload

unfoldable pub response : ℕ → List ℕ → Frame
response request_command payload = record {
  command = bit_or request_command response_bit;
  payload = payload;
}

unfoldable pub error : DeviceError → Frame
unfolding to_byte
error e = record { command = error_command; payload = to_byte e ∷ [] }
