-- ===== src/Device/Derivation/Window.antt =====
-- crates/virtual-yubihsm-core/src/device.rs: the shifts of EXTRACT, as arithmetic on two neighbouring
-- bytes of the secret.
use virtual_yubihsm.Prelude.{
  ℕ, zero, suc, ◌+◌, ◌-◌, ◌*◌, ◌/◌, ◌%◌, ◌^◌, ◌<◌, ◌≡◌, List, [], ◌∷◌, length, get_or, bit_or,
  AreBytes, ◌==◌, if◌then◌else◌, arith,
}
use virtual_yubihsm.Prelude.Bits.{raised, bit_or-raised}
use virtual_yubihsm.Device.Derivation.{extract_byte}

-- Eight bits of the sixteen of two bytes, from bit `shift` on, the highest first
abbrev pub window : ℕ → ℕ → ℕ → ℕ
window high low shift = (high * 256 + low) / 2 ^ (8 - shift) % 256

abbrev shifted : ℕ → ℕ → ℕ → ℕ
shifted high low shift =
    if shift == 0 then high else bit_or (high * 2 ^ shift % 256) (low / 2 ^ (8 - shift))

shifted-raised :
    (high low shift part rest : ℕ)
    → (high * 2 ^ shift % 256 ≡ raised shift part)
    → (low / 2 ^ (8 - shift) ≡ rest)
    → part < 2 ^ 8
    → rest < 2 ^ shift
    → bit_or (high * 2 ^ shift % 256) (low / 2 ^ (8 - shift)) ≡ raised shift part + rest
shifted-raised high low shift part rest front back h k =
    rw (front, back) (bit_or-raised 8 shift part rest h k)

shifted-window :
    (high low shift : ℕ)
    → high < 256
    → low < 256
    → shift < 8
    → shifted high low shift ≡ window high low shift
shifted-window high low zero h k s = omega arith
shifted-window high low (suc zero) h k s = omega (
  arith,
  shifted-raised high low 1 (high % 128) (low / 128) (omega arith) (omega arith) (omega arith)
      (omega arith),
)
shifted-window high low (suc (suc zero)) h k s = omega (
  arith,
  shifted-raised high low 2 (high % 64) (low / 64) (omega arith) (omega arith) (omega arith)
      (omega arith),
)
shifted-window high low (suc (suc (suc zero))) h k s = omega (
  arith,
  shifted-raised high low 3 (high % 32) (low / 32) (omega arith) (omega arith) (omega arith)
      (omega arith),
)
shifted-window high low (suc (suc (suc (suc zero)))) h k s = omega (
  arith,
  shifted-raised high low 4 (high % 16) (low / 16) (omega arith) (omega arith) (omega arith)
      (omega arith),
)
shifted-window high low (suc (suc (suc (suc (suc zero))))) h k s = omega (
  arith,
  shifted-raised high low 5 (high % 8) (low / 8) (omega arith) (omega arith) (omega arith)
      (omega arith),
)
shifted-window high low (suc (suc (suc (suc (suc (suc zero)))))) h k s = omega (
  arith,
  shifted-raised high low 6 (high % 4) (low / 4) (omega arith) (omega arith) (omega arith)
      (omega arith),
)
shifted-window high low (suc (suc (suc (suc (suc (suc (suc zero))))))) h k s = omega (
  arith,
  shifted-raised high low 7 (high % 2) (low / 2) (omega arith) (omega arith) (omega arith)
      (omega arith),
)
shifted-window high low (suc (suc (suc (suc (suc (suc (suc (suc more)))))))) h k s =
    absurd (omega arith)

get_or-lt : (base : List ℕ) (i : ℕ) → AreBytes base → get_or base i 0 < 256
get_or-lt [] i bytes = omega arith
get_or-lt (b ∷ base) zero bytes = bytes.0
get_or-lt (b ∷ base) (suc i) bytes = get_or-lt base i bytes.1

-- The byte that EXTRACT takes at a position, by shifts and `|`, is the eight bits from that position on
-- of the secret read as a ring: a window on the byte that holds the position and the one behind it, the
-- first byte following the last.
pub extract_byte_lem :
    (base : List ℕ) (position : ℕ)
    → AreBytes base
    → extract_byte base position
      ≡ window
          (get_or base (position % (length base * 8) / 8) 0)
          (get_or base ((position % (length base * 8) / 8 + 1) % length base) 0)
          (position % (length base * 8) % 8)
unfolding extract_byte
extract_byte_lem base position bytes =
    shifted-window (get_or base (position % (length base * 8) / 8) 0)
      (get_or base ((position % (length base * 8) / 8 + 1) % length base) 0)
      (position % (length base * 8) % 8) (get_or-lt base _ bytes) (get_or-lt base _ bytes)
      (omega arith)
