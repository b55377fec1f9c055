-- ===== src/Prelude/Bytes.antt =====
-- Bytes and big-endian integers: `to_be_bytes` and `from_be_bytes` at any width.
use Prim.Native.Nat.{ℕ, zero, suc, ◌+◌, ◌*◌, ◌/◌, ◌%◌, ◌^◌, ◌<◌}
use mathlib.Core.Path.{◌≡◌, refl, ◌∙◌}
use mathlib.Core.List.{List, [], ◌∷◌, ◌++◌, append-nil, append_assoc}
use native.Mathlib.Omega.{arith}
use native.Mathlib.Nat.{pow-suc}
use virtual_yubihsm.Prelude.Lists.{length, length-append, All, All-append}

abbrev pub IsByte : ℕ → Type 0
IsByte b = b < 256

abbrev pub IsU16 : ℕ → Type 0
IsU16 n = n < 2 ^ 16

abbrev pub IsU64 : ℕ → Type 0
IsU64 n = n < 2 ^ 64

abbrev pub AreBytes : List ℕ → Type 0
AreBytes = All IsByte

abbrev pub from_be_step : ℕ → ℕ → ℕ
from_be_step acc b = acc * 256 + b

-- `uN::from_be_bytes`: the first byte is the most significant.
abbrev pub from_be_acc : ℕ → List ℕ → ℕ
from_be_acc acc [] = acc
from_be_acc acc (b ∷ bs) = from_be_acc (acc * 256 + b) bs

abbrev pub from_be_bytes : List ℕ → ℕ
from_be_bytes = from_be_acc 0

-- `x.to_be_bytes()` of an integer of `n` bytes.
abbrev pub to_be_bytes : ℕ → ℕ → List ℕ
to_be_bytes zero x = []
to_be_bytes (suc n) x = to_be_bytes n (x / 256) ++ (x % 256 ∷ [])

pub length-to_be_bytes : (n x : ℕ) → length (to_be_bytes n x) ≡ n
length-to_be_bytes zero x = refl
length-to_be_bytes (suc n) x =
    omega (
      arith,
      length-append (to_be_bytes n (x / 256)) (x % 256 ∷ []),
      length-to_be_bytes n (x / 256),
    )

pub to_be_bytes-AreBytes : (n x : ℕ) → AreBytes (to_be_bytes n x)
to_be_bytes-AreBytes zero x = tt
to_be_bytes-AreBytes (suc n) x =
    All-append IsByte (to_be_bytes n (x / 256)) _ (to_be_bytes-AreBytes n (x / 256)) (omega arith)

pub from_be_acc-append :
    (acc : ℕ) (xs ys : List ℕ) → from_be_acc acc (xs ++ ys) ≡ from_be_acc (from_be_acc acc xs) ys
from_be_acc-append acc [] ys = refl
from_be_acc-append acc (x ∷ xs) ys = from_be_acc-append (acc * 256 + x) xs ys

pub from_be_bytes-to_be_bytes : (n x : ℕ) → x < 256 ^ n → from_be_bytes (to_be_bytes n x) ≡ x
from_be_bytes-to_be_bytes zero x h = omega arith
from_be_bytes-to_be_bytes (suc n) x h = omega (
  arith,
  from_be_acc-append 0 (to_be_bytes n (x / 256)) (x % 256 ∷ []),
  from_be_bytes-to_be_bytes n (x / 256) (omega (arith, pow-suc 256 n)),
)

-- Each byte moves from the list to the low end of the number.
to_be_bytes-from_be_acc :
    (n acc : ℕ) (xs : List ℕ)
    → AreBytes xs
    → to_be_bytes (length xs + n) (from_be_acc acc xs) ≡ to_be_bytes n acc ++ xs
to_be_bytes-from_be_acc n acc [] h = let e : 0 + n ≡ n = omega arith in rw (e, append-nil) refl
to_be_bytes-from_be_acc n acc (b ∷ xs) h =
    let e : suc (length xs) + n ≡ length xs + suc n = omega arith in
    let high : (acc * 256 + b) / 256 ≡ acc = omega arith in
    let low : (acc * 256 + b) % 256 ≡ b = omega arith in
    rw e (
      to_be_bytes-from_be_acc (suc n) (acc * 256 + b) xs h.1
      ∙ rw (high, low) (append_assoc (to_be_bytes n acc) (b ∷ []) xs))

pub to_be_bytes-from_be_bytes :
    (n : ℕ) (xs : List ℕ) → AreBytes xs → length xs ≡ n → to_be_bytes n (from_be_bytes xs) ≡ xs
to_be_bytes-from_be_bytes n xs h e =
    let f : length xs + 0 ≡ n = omega arith in rw (← f) (to_be_bytes-from_be_acc 0 0 xs h)

from_be_acc-lt :
    (n acc : ℕ) (xs : List ℕ)
    → AreBytes xs
    → acc < 256 ^ n
    → from_be_acc acc xs < 256 ^ (n + length xs)
from_be_acc-lt n acc [] h k = let e : n + 0 ≡ n = omega arith in rw e k
from_be_acc-lt n acc (b ∷ xs) h k =
    let e : n + suc (length xs) ≡ suc n + length xs = omega arith in
    rw e (from_be_acc-lt (suc n) (acc * 256 + b) xs h.1 (omega (arith, pow-suc 256 n)))

pub from_be_bytes-lt : (xs : List ℕ) → AreBytes xs → from_be_bytes xs < 256 ^ length xs
from_be_bytes-lt xs h =
    let e : 0 + length xs ≡ length xs = omega arith in
    rw e at (from_be_acc-lt 0 0 xs h (omega arith))
