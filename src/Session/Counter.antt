-- ===== src/Session/Counter.antt =====
-- The message counter counts, and the size test is a bound.
use mathlib.Core.List.{reverse, reverse-append, reverse-reverse}
use native.Mathlib.Nat.{pow-suc, mod-eq_of_lt, mod_self}
use virtual_yubihsm.Prelude.{
  ℕ, ◌+◌, ◌*◌, ◌%◌, ◌^◌, ◌<◌, ◌≡◌, refl, sym, ◌∙◌, ap, List, [], ◌∷◌, length, length-append,
  AreBytes, All-append, IsByte, from_be_bytes, from_be_acc-append, leb, arith, ◌⊎◌, inl, inr,
}
use virtual_yubihsm.Session.{secure_response_data_fits, carry, increment_counter}

-- A clear response fits a secure frame exactly up to 8172 bytes of data, for every `usize`.
pub secure_response_data_fits_iff : (n : ℕ) → n < 2 ^ 64 → secure_response_data_fits n ≡ leb n 8172
unfolding secure_response_data_fits
secure_response_data_fits_iff n h = ground arith

-- The number of a counter whose least significant byte comes first.
le_value : List ℕ → ℕ
le_value [] = 0
le_value (b ∷ rest) = b + 256 * le_value rest

le_value-reverse : (xs : List ℕ) → from_be_bytes (reverse xs) ≡ le_value xs
unfolding le_value
le_value-reverse [] = refl
le_value-reverse (b ∷ rest) =
    rw (reverse-append (b ∷ []) rest)
      (omega (arith, from_be_acc-append 0 (reverse rest) (b ∷ []), le_value-reverse rest))

le_value-lt : (xs : List ℕ) → AreBytes xs → le_value xs < 256 ^ length xs
unfolding le_value
le_value-lt [] h = omega arith
le_value-lt (b ∷ rest) h = omega (arith, le_value-lt rest h.1, pow-suc 256 (length rest))

length-reverse : (xs : List ℕ) → length (reverse xs) ≡ length xs
length-reverse [] = refl
length-reverse (b ∷ rest) =
    rw (reverse-append (b ∷ []) rest)
      (omega (arith, length-append (reverse rest) (b ∷ []), length-reverse rest))

AreBytes-reverse : (xs : List ℕ) → AreBytes xs → AreBytes (reverse xs)
AreBytes-reverse [] h = tt
AreBytes-reverse (b ∷ rest) h =
    rw (reverse-append (b ∷ []) rest)
      (All-append IsByte (reverse rest) (b ∷ []) (AreBytes-reverse rest h.1) (h.0, tt))

length-carry : (xs : List ℕ) → length (carry xs) ≡ length xs
unfolding carry
length-carry [] = refl
length-carry (b ∷ rest) = ground (arith, length-carry rest)

-- The carry adds one, and wraps at the top.
le_value-carry :
    (xs : List ℕ)
    → AreBytes xs
    → (le_value (carry xs) ≡ le_value xs + 1) × (le_value xs + 1 < 256 ^ length xs)
      ⊎ (le_value (carry xs) ≡ 0) × (le_value xs + 1 ≡ 256 ^ length xs)
unfolding le_value carry
le_value-carry [] h = inr (omega arith)
le_value-carry (b ∷ rest) h =
    ground (arith, le_value-carry rest h.1, le_value-lt rest h.1, pow-suc 256 (length rest))

le_value-carry_mod :
    (xs : List ℕ) → AreBytes xs → le_value (carry xs) ≡ (le_value xs + 1) % 256 ^ length xs
le_value-carry_mod xs h = elim (le_value-carry xs h) [
  | inl (e, small) ↦ e ∙ sym (mod-eq_of_lt small)
  | inr (e, top) ↦ e ∙ sym (ap (λ (t : ℕ). t % 256 ^ length xs) top ∙ mod_self (256 ^ length xs))
]

-- `increment_counter` adds one to the big-endian number in the counter's bytes, and wraps past
-- its width.
pub increment_counter_lem :
    (counter : List ℕ)
    → AreBytes counter
    → from_be_bytes (increment_counter counter) ≡ (from_be_bytes counter + 1) % 256 ^ length counter
unfolding increment_counter
increment_counter_lem counter h =
    let r = reverse counter in
    let back : le_value r ≡ from_be_bytes counter =
      sym (le_value-reverse r) ∙ ap from_be_bytes (reverse-reverse counter) in
    le_value-reverse (carry r)
    ∙ le_value-carry_mod r (AreBytes-reverse counter h)
    ∙ rw (back, length-reverse counter) refl
