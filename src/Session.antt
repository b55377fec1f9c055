-- ===== src/Session.antt =====
-- crates/virtual-yubihsm-core/src/session.rs: the arithmetic of the secure channel. The message
-- counter is its sixteen bytes; `usize` has 64 bits.
pub mod Counter
pub mod Secure
use mathlib.Core.List.{reverse}
use virtual_yubihsm.Prelude.{
  ℕ, ◌+◌, ◌-◌, ◌*◌, ◌/◌, ◌%◌, ◌^◌, Bool, true, false, Option, none, some, List, [], ◌∷◌, length,
  ltb, leb, if◌then◌else◌,
}
use virtual_yubihsm.Frame.{Frame, header_length, max_data_length}

abbrev pub mac_length : ℕ
mac_length = 8

abbrev pub block_size : ℕ
block_size = 16

-- `checked_add` and `checked_mul` of `usize`
abbrev checked : ℕ → Option ℕ
checked n = if ltb n (2 ^ 64) then some n else none

infixl 5 ◌and_then◌
abbrev ◌and_then◌ : Option ℕ → (ℕ → Option ℕ) → Option ℕ
none and_then f = none
some n and_then f = f n

-- `div_ceil`
abbrev div_ceil : ℕ → ℕ → ℕ
div_ceil n d = (n + (d - 1)) / d

abbrev within_limit : Option ℕ → Bool
within_limit none = false
within_limit (some n) = leb n max_data_length

padded_length : ℕ → Option ℕ
padded_length data_length =
    checked (header_length + data_length)
    and_then (λ n. checked (n + 1))
    and_then (λ n. checked (div_ceil n block_size * block_size))

unfoldable pub secure_response_data_fits : ℕ → Bool
unfolding padded_length
secure_response_data_fits data_length = within_limit (
    padded_length data_length
    and_then (λ n. checked (1 + n))
    and_then (λ n. checked (n + mac_length)))

unfoldable pub secure_response_fits : Frame → Bool
unfolding secure_response_data_fits
secure_response_fits response = secure_response_data_fits (length response.payload)

-- `for byte in counter.iter_mut().rev()`: the last byte first, until one does not overflow.
carry : List ℕ → List ℕ
carry [] = []
carry (b ∷ rest) =
    let more = carry rest in if ltb (b + 1) 256 then (b + 1) ∷ rest else ((b + 1) % 256) ∷ more

unfoldable pub increment_counter : List ℕ → List ℕ
unfolding carry
increment_counter counter = reverse (carry (reverse counter))
