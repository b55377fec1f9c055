-- ===== src/Wire.antt =====
-- crates/virtual-yubihsm-core/src/wire.rs: the bounds-checked reader of the positional command
-- encoding. A `Reader` is the slice that remains; a failed read ends the decoding by `?`.
pub mod Splits
use virtual_yubihsm.Prelude.{
  ℕ, ◌≡◌, refl, Bool, true, false, List, [], ◌∷◌, length, take, drop, get_or, from_be_bytes, ltb,
  ◌==◌, if◌then◌else◌, Option, none, some,
}
use virtual_yubihsm.Error.{DeviceError, Result, ok, err, wrong_length, ◌>>=◌ as and_then}

abbrev pub Reader {ℓ} : Type ℓ → Type ℓ
Reader A = List ℕ → Result (A × List ℕ)

abbrev pub continue {ℓ κ} :
    {A : Type ℓ} {B : Type κ} → Result (A × List ℕ) → (A → Reader B) → Result (B × List ℕ)
continue (ok (a, rest)) f = f a rest
continue (err e) f = err e

infixl 5 ◌>>=◌ ◌>>◌
abbrev pub ◌>>=◌ {ℓ κ} : {A : Type ℓ} {B : Type κ} → Reader A → (A → Reader B) → Reader B
◌>>=◌ m f reader = continue (m reader) f

abbrev pub ◌>>◌ {ℓ κ} : {A : Type ℓ} {B : Type κ} → Reader A → Reader B → Reader B
m >> k = m >>= λ _. k

abbrev pub pure {ℓ} : {A : Type ℓ} → A → Reader A
pure a reader = ok (a, reader)

abbrev pub fail {ℓ} : {A : Type ℓ} → DeviceError → Reader A
fail e reader = err e

-- `option.ok_or(error)?`
abbrev pub required {ℓ} : {A : Type ℓ} → Option A → DeviceError → Reader A
required none e = fail e
required (some a) e = pure a

unfoldable pub remaining_len : Reader ℕ
remaining_len reader = ok (length reader, reader)

unfoldable pub read_slice : ℕ → Reader (List ℕ)
read_slice n reader =
    if ltb (length reader) n then err wrong_length else ok (take n reader, drop n reader)

-- `try_into` refuses a slice of another length than the array's.
unfoldable pub read_array : ℕ → Reader (List ℕ)
unfolding read_slice
read_array n = do value ← read_slice n; if length value == n then pure value else fail wrong_length

unfoldable pub read_u8 : Reader ℕ
unfolding read_array
read_u8 = do value ← read_array 1; pure (get_or value 0 0)

unfoldable pub read_u16 : Reader ℕ
unfolding read_array
read_u16 = do value ← read_array 2; pure (from_be_bytes value)

unfoldable pub read_u64 : Reader ℕ
unfolding read_array
read_u64 = do value ← read_array 8; pure (from_be_bytes value)

unfoldable pub read_u8_sized_slice : Reader (List ℕ)
unfolding read_u8 read_slice
read_u8_sized_slice = do n ← read_u8; read_slice n

unfoldable pub read_u16_sized_slice : Reader (List ℕ)
unfolding read_u16 read_slice
read_u16_sized_slice = do n ← read_u16; read_slice n

unfoldable pub read_remainder : Reader (List ℕ)
read_remainder reader = ok (reader, [])

unfoldable pub finish : List ℕ → Result (Unit {0})
finish [] = ok tt
finish (b ∷ rest) = err wrong_length

-- One complete payload: a request type's own fields, and nothing behind them.
unfoldable pub decode {ℓ} : {A : Type ℓ} → Reader A → List ℕ → Result A
unfolding finish
decode read encoded = and_then (read encoded) λ (value, rest). and_then (finish rest) λ _. ok value
