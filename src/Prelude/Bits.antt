-- ===== src/Prelude/Bits.antt =====
-- The bits of a number, and what `&`, `|`, `!` and the zero tests on them mean bit by bit.
mod Digit
use Digit.{bit_and_low, bit_or_low, zero-bit_and}
use Prim.Native.Nat.{ℕ, zero, suc, ◌+◌, ◌-◌, ◌*◌, ◌/◌, ◌%◌, ◌^◌, ◌<◌, ◌≤◌, bit_and, bit_or}
use mathlib.Core.Path.{◌≡◌, refl, ap}
use mathlib.Core.Bool.{Bool, true, false, not, ◌&&◌, ◌||◌}
use mathlib.Core.Logic.{◌↔◌}
use native.Mathlib.Omega.{arith}
use native.Mathlib.Nat.{pow-suc, one-le-pow, pow-le-pow_right}
use virtual_yubihsm.Prelude.Tests.{◌==◌, ==_iff}

-- Bit `k` of `x`, the lowest first.
pub test_bit : ℕ → ℕ → Bool
test_bit x zero = x % 2 == 1
test_bit x (suc k) = test_bit (x / 2) k

pub test_bit-zero : (k : ℕ) → test_bit 0 k ≡ false
unfolding test_bit
test_bit-zero zero = refl
test_bit-zero (suc k) = test_bit-zero k

pub test_bit-bit_and : (a b k : ℕ) → test_bit (bit_and a b) k ≡ (test_bit a k && test_bit b k)
unfolding test_bit
test_bit-bit_and a b zero = ground (arith, bit_and_low a b)
test_bit-bit_and a b (suc k) =
    let half : bit_and a b / 2 ≡ bit_and (a / 2) (b / 2) = omega (arith, bit_and_low a b) in
    rw half (test_bit-bit_and (a / 2) (b / 2) k)

pub test_bit-bit_or : (a b k : ℕ) → test_bit (bit_or a b) k ≡ (test_bit a k || test_bit b k)
unfolding test_bit
test_bit-bit_or a b zero = ground (arith, bit_or_low a b)
test_bit-bit_or a b (suc k) =
    let half : bit_or a b / 2 ≡ bit_or (a / 2) (b / 2) = omega (arith, bit_or_low a b) in
    rw half (test_bit-bit_or (a / 2) (b / 2) k)

-- Two numbers of `n` bits with the same bits are one.
pub test_bit_ext :
    (n a b : ℕ) → a < 2 ^ n → b < 2 ^ n → ((k : ℕ) → k < n → test_bit a k ≡ test_bit b k) → a ≡ b
test_bit_ext zero a b ha hb same = omega arith
test_bit_ext (suc n) a b ha hb same =
    let low : (a % 2 == 1) ≡ (b % 2 == 1) = unfold test_bit in same 0 (omega arith) in
    let high : a / 2 ≡ b / 2 =
      test_bit_ext n (a / 2) (b / 2) (omega (arith, pow-suc 2 n)) (omega (arith, pow-suc 2 n))
        (λ k h. unfold test_bit in same (suc k) (omega arith)) in
    ground arith

pub bit_and-lt : (n a b : ℕ) → a < 2 ^ n → bit_and a b < 2 ^ n
bit_and-lt zero a b h = let e : a ≡ 0 = omega arith in rw e (omega (arith, zero-bit_and b))
bit_and-lt (suc n) a b h =
    omega (
      arith,
      bit_and_low a b,
      pow-suc 2 n,
      bit_and-lt n (a / 2) (b / 2) (omega (arith, pow-suc 2 n)),
    )

pub bit_or-lt : (n a b : ℕ) → a < 2 ^ n → b < 2 ^ n → bit_or a b < 2 ^ n
bit_or-lt zero a b h k =
    let e : a ≡ 0 = omega arith in let f : b ≡ 0 = omega arith in rw (e, f) (omega arith)
bit_or-lt (suc n) a b h k = omega (
  arith,
  bit_or_low a b,
  pow-suc 2 n,
  bit_or-lt n (a / 2) (b / 2) (omega (arith, pow-suc 2 n)) (omega (arith, pow-suc 2 n)),
)

-- The bits above the width of a number are off.
pub test_bit_above : (n a k : ℕ) → a < 2 ^ n → n ≤ k → test_bit a k ≡ false
unfolding test_bit
test_bit_above zero a k h m = let e : a ≡ 0 = omega arith in rw e (test_bit-zero k)
test_bit_above (suc n) a zero h m = absurd (omega arith)
test_bit_above (suc n) a (suc k) h m =
    test_bit_above n (a / 2) k (omega (arith, pow-suc 2 n)) (omega arith)

-- `1 << j` has one bit.
pub test_bit_shift : (j k : ℕ) → test_bit (2 ^ j) k ≡ (j == k)
unfolding test_bit
test_bit_shift zero zero = refl
test_bit_shift zero (suc k) = ground (arith, test_bit-zero k)
test_bit_shift (suc j) zero = ground (arith, pow-suc 2 j)
test_bit_shift (suc j) (suc k) =
    let half : 2 ^ suc j / 2 ≡ 2 ^ j = omega (arith, pow-suc 2 j) in
    rw half (rw (test_bit_shift j k) (ground arith))

-- `1 << k` in a byte.
pub shift-lt : (k : ℕ) → k < 8 → 2 ^ k < 2 ^ 8
shift-lt k h = omega (arith, pow-le-pow_right {n = 2} (omega arith) {i = k} {j = 7} (omega arith))

-- `!b` in a word of `n` bits.
pub test_bit_complement :
    (n b k : ℕ) → b < 2 ^ n → k < n → test_bit (2 ^ n - 1 - b) k ≡ not (test_bit b k)
unfolding test_bit
test_bit_complement zero b k h m = absurd (omega arith)
test_bit_complement (suc n) b zero h m = ground (arith, pow-suc 2 n, one-le-pow n 2)
test_bit_complement (suc n) b (suc k) h m =
    let half : (2 ^ suc n - 1 - b) / 2 ≡ 2 ^ n - 1 - b / 2 =
      omega (arith, pow-suc 2 n, one-le-pow n 2) in
    rw half (test_bit_complement n (b / 2) k (omega (arith, pow-suc 2 n)) (omega arith))

bit_and-zero_upto : (bound a : ℕ) → a ≤ bound → bit_and a 0 ≡ 0
bit_and-zero_upto zero a h = let e : a ≡ 0 = omega arith in rw e (zero-bit_and 0)
bit_and-zero_upto (suc bound) zero h = zero-bit_and 0
bit_and-zero_upto (suc bound) (suc a) h =
    omega (arith, bit_and_low (suc a) 0, bit_and-zero_upto bound (suc a / 2) (omega arith))

-- `x & (1 << k) != 0` reads bit `k`.
pub bit_and-shift : (x k : ℕ) → (bit_and x (2 ^ k) == 0) ≡ not (test_bit x k)
unfolding test_bit
bit_and-shift x zero =
    ground (arith, bit_and_low x 1, bit_and-zero_upto (x / 2) (x / 2) (omega arith))
bit_and-shift x (suc k) =
    let half : 2 ^ suc k / 2 ≡ 2 ^ k = omega (arith, pow-suc 2 k) in
    let low : bit_and x (2 ^ suc k) ≡ bit_and (x / 2) (2 ^ k) * 2 =
      rw (← half) (omega (arith, bit_and_low x (2 ^ suc k), pow-suc 2 k)) in
    ground (arith, bit_and-shift (x / 2) k, low)

-- `a & r == r`: every bit of `r` is one of `a`.
pub has_all_bits_iff :
    (n a r : ℕ)
    → a < 2 ^ n
    → r < 2 ^ n
    → ((bit_and a r == r) ≡ true) ↔ ((k : ℕ) → k < n → test_bit r k ≡ true → test_bit a k ≡ true)
has_all_bits_iff n a r ha hr = (
  λ e k h on. both e k on,
  λ sub. (==_iff _ r).1 (test_bit_ext n _ r (bit_and-lt n a r ha) hr (λ k h. same sub k h)),
)
  where
    both : (bit_and a r == r) ≡ true → (k : ℕ) → test_bit r k ≡ true → test_bit a k ≡ true
    both e k on =
        let held : test_bit (bit_and a r) k ≡ test_bit r k =
          ap (λ x. test_bit x k) ((==_iff _ r).0 e) in
        ground (arith, test_bit-bit_and a r k, held)

    same :
        ((k : ℕ) → k < n → test_bit r k ≡ true → test_bit a k ≡ true)
        → (k : ℕ) → k < n
        → test_bit (bit_and a r) k ≡ test_bit r k
    same sub k h = ground (arith, test_bit-bit_and a r k, sub k h)

-- `a & b == 0`: no bit is one of both.
pub no_shared_bit_iff :
    (n a b : ℕ)
    → a < 2 ^ n
    → ((bit_and a b == 0) ≡ true) ↔ ((k : ℕ) → k < n → test_bit a k ≡ true → test_bit b k ≡ false)
no_shared_bit_iff n a b ha = (
  λ e k h on. apart e k on,
  λ off. (==_iff _ 0).1 (
      test_bit_ext n _ 0 (bit_and-lt n a b ha) (omega (arith, one-le-pow n 2))
        (λ k h. none_of off k h)),
)
  where
    apart : (bit_and a b == 0) ≡ true → (k : ℕ) → test_bit a k ≡ true → test_bit b k ≡ false
    apart e k on =
        let held : test_bit (bit_and a b) k ≡ test_bit 0 k =
          ap (λ x. test_bit x k) ((==_iff _ 0).0 e) in
        ground (arith, test_bit-bit_and a b k, held, test_bit-zero k)

    none_of :
        ((k : ℕ) → k < n → test_bit a k ≡ true → test_bit b k ≡ false)
        → (k : ℕ) → k < n
        → test_bit (bit_and a b) k ≡ test_bit 0 k
    none_of off k h = ground (arith, test_bit-bit_and a b k, off k h, test_bit-zero k)

-- `a & !b == 0`: every bit of `a` is one of `b`.
pub within_bits_iff :
    (n a b : ℕ)
    → a < 2 ^ n
    → b < 2 ^ n
    → ((bit_and a (2 ^ n - 1 - b) == 0) ≡ true)
      ↔ ((k : ℕ) → k < n → test_bit a k ≡ true → test_bit b k ≡ true)
within_bits_iff n a b ha hb =
    let apart = no_shared_bit_iff n a (2 ^ n - 1 - b) ha in
    (
      λ e k h on. ground (arith, apart.0 e k h on, test_bit_complement n b k hb h),
      λ sub. apart.1 (λ k h on. ground (arith, sub k h on, test_bit_complement n b k hb h)),
    )

-- `t` with `s` zero bits below it
abbrev pub raised : ℕ → ℕ → ℕ
raised zero t = t
raised (suc s) t = raised s t * 2

bit_or-nothing : (n a : ℕ) → a < 2 ^ n → bit_or a 0 ≡ a
bit_or-nothing zero a h = let e : a ≡ 0 = omega arith in rw e refl
bit_or-nothing (suc n) a h =
    omega
      (arith, bit_or_low a 0, pow-suc 2 n, bit_or-nothing n (a / 2) (omega (arith, pow-suc 2 n)))

-- `|` of numbers that share no bit is their sum.
pub bit_or-raised : (n s t b : ℕ) → t < 2 ^ n → b < 2 ^ s → bit_or (raised s t) b ≡ raised s t + b
bit_or-raised n zero t b h k =
    let e : b ≡ 0 = omega arith in rw e (omega (arith, bit_or-nothing n t h))
bit_or-raised n (suc s) t b h k =
    let half : raised s t * 2 / 2 ≡ raised s t = omega arith in
    let rest : bit_or (raised s t * 2 / 2) (b / 2) ≡ raised s t + b / 2 =
      rw half (bit_or-raised n s t (b / 2) h (omega (arith, pow-suc 2 s))) in
    omega (arith, bit_or_low (raised s t * 2) b, rest)
