-- ===== src/Error.antt =====
-- crates/virtual-yubihsm-core/src/error.rs: the errors of the wire protocol and their bytes.
-- `Result` is the crate's alias `Result<T, DeviceError>`; `?` is the bind of a do block.
pub mod Ensures
use virtual_yubihsm.Prelude.{
  ℕ, ◌≡◌, refl, Option, none, some, List, [], ◌∷◌, Bool, true, false, match_byte, code-match_byte,
  arith,
}

pub data DeviceError : Type 0 where
  invalid_command invalid_data invalid_session authentication_failed : DeviceError
  sessions_full session_failed storage_failed wrong_length : DeviceError
  insufficient_permissions log_full object_not_found invalid_id : DeviceError
  ssh_ca_constraint_violation invalid_otp demo_mode object_exists : DeviceError

-- `error as u8`
unfoldable pub to_byte : DeviceError → ℕ
to_byte invalid_command = 0x01
to_byte invalid_data = 0x02
to_byte invalid_session = 0x03
to_byte authentication_failed = 0x04
to_byte sessions_full = 0x05
to_byte session_failed = 0x06
to_byte storage_failed = 0x07
to_byte wrong_length = 0x08
to_byte insufficient_permissions = 0x09
to_byte log_full = 0x0a
to_byte object_not_found = 0x0b
to_byte invalid_id = 0x0c
to_byte ssh_ca_constraint_violation = 0x0e
to_byte invalid_otp = 0x0f
to_byte demo_mode = 0x10
to_byte object_exists = 0x11

abbrev error_arms : List (ℕ × DeviceError)
error_arms =
    (0x01, invalid_command)
    ∷ (0x02, invalid_data)
    ∷ (0x03, invalid_session)
    ∷ (0x04, authentication_failed)
    ∷ (0x05, sessions_full)
    ∷ (0x06, session_failed)
    ∷ (0x07, storage_failed)
    ∷ (0x08, wrong_length)
    ∷ (0x09, insufficient_permissions)
    ∷ (0x0a, log_full)
    ∷ (0x0b, object_not_found)
    ∷ (0x0c, invalid_id)
    ∷ (0x0e, ssh_ca_constraint_violation)
    ∷ (0x0f, invalid_otp)
    ∷ (0x10, demo_mode)
    ∷ (0x11, object_exists)
    ∷ []

unfoldable pub from_byte : ℕ → Option DeviceError
from_byte = match_byte error_arms

pub data Result {ℓ} (A : Type ℓ) : Type ℓ where
  ok : A → Result A
  err : DeviceError → Result A

-- `if condition { Ok(()) } else { Err(error) }`
abbrev pub guard : Bool → DeviceError → Result (Unit {0})
guard true error = ok tt
guard false error = err error

infixl 5 ◌>>=◌ ◌>>◌
-- The `?` of the source
abbrev pub ◌>>=◌ {ℓ κ} : {A : Type ℓ} {B : Type κ} → Result A → (A → Result B) → Result B
ok value >>= next = next value
err error >>= next = err error

abbrev pub ◌>>◌ {ℓ} : {B : Type ℓ} → Result (Unit {0}) → Result B → Result B
checked >> next = checked >>= λ nothing. next

-- `option.ok_or(error)`
abbrev pub ok_or {ℓ} : {A : Type ℓ} → Option A → DeviceError → Result A
ok_or none e = err e
ok_or (some a) e = ok a

abbrev pub map_err {ℓ} : {A : Type ℓ} → (DeviceError → DeviceError) → Result A → Result A
map_err f (ok a) = ok a
map_err f (err e) = err (f e)

-- `result.as_ref().err().copied().map_or(0, |error| error as u8)`
abbrev pub result_code {ℓ} : {A : Type ℓ} → Result A → ℕ
result_code (ok a) = 0
result_code (err e) = to_byte e

-- What a chain that ended well did: its first step gave the value that the next one went on from.
pub >>=-eq-ok {ℓ κ} :
    {A : Type ℓ} {B : Type κ} {b : B} (first : Result A) (next : A → Result B)
    → (first >>= next) ≡ ok b
    → (a : A) × (first ≡ ok a) × (next a ≡ ok b)
>>=-eq-ok (ok a) next done = (a, refl, done)
>>=-eq-ok (err failed) next done = cc

-- Every error has a byte that `from_byte` reads back.
pub from_byte-to_byte : (e : DeviceError) → from_byte (to_byte e) ≡ some e
unfolding from_byte to_byte
from_byte-to_byte invalid_command = refl
from_byte-to_byte _ = refl

-- `from_byte` accepts no byte but that of the error it answers with.
pub to_byte-from_byte : (b : ℕ) {e : DeviceError} → from_byte b ≡ some e → to_byte e ≡ b
unfolding from_byte to_byte
to_byte-from_byte b h = code-match_byte to_byte error_arms b (omega arith) h
