-- ===== src/Capability/Sets.antt =====
-- The bitmap refines sets of bit numbers below 64.
use virtual_yubihsm.Prelude.{
  ℕ, zero, suc, ◌+◌, ◌-◌, ◌*◌, ◌/◌, ◌%◌, ◌^◌, ◌<◌, ◌≡◌, refl, sym, ◌∙◌, ap, ◌↔◌, Bool, true, not,
  ◌&&◌, ◌||◌, [], ◌∷◌, length, length-set, get_or, get_or-set, get_or-lt, get_or_above, set, ltb,
  Bool-cases, &&_left, &&_right, &&_intro, inl, inr, All-set, AreBytes, IsByte, bit_and, bit_or,
  ◌==◌, if◌then◌else◌, arith,
}
use virtual_yubihsm.Prelude.Bits.{
  test_bit, test_bit-zero, test_bit-bit_and, test_bit-bit_or, test_bit_shift, shift-lt,
  test_bit_complement, bit_and-shift, has_all_bits_iff, bit_and-lt, bit_or-lt,
}
use virtual_yubihsm.Capability.{
  Capability, CapabilitySet, IsCapabilitySet, to_bit, contains, contains_all, is_subset_of, insert,
  remove, intersection,
}

-- Bit `n` of the bitmap.
pub holds : CapabilitySet → ℕ → Bool
holds s n = test_bit (get_or s (7 - n / 8) 0) (n % 8)

-- Inclusion of the sets that two bitmaps stand for.
abbrev pub IsSubset : CapabilitySet → CapabilitySet → Type 0
IsSubset s a = (n : ℕ) → n < 64 → holds s n ≡ true → holds a n ≡ true

pub to_bit-lt : (c : Capability) → to_bit c < 64
unfolding to_bit
to_bit-lt Capability.get_opaque = omega arith
to_bit-lt _ = omega arith

-- `contains` reads the bit of its capability.
pub contains-eq-holds : (s : CapabilitySet) (c : Capability) → contains s c ≡ holds s (to_bit c)
unfolding contains holds
contains-eq-holds s c = twice_not _ _ (bit_and-shift (get_or s (7 - to_bit c / 8) 0) (to_bit c % 8))
  where
    twice_not : (x y : Bool) → x ≡ not y → not x ≡ y
    twice_not x y h = ground arith

byte : (s : CapabilitySet) (i : ℕ) → IsCapabilitySet s → get_or s i 0 < 2 ^ 8
byte s i w = get_or-lt 255 s i w.bytes

-- A write of the byte that bit `m` stands in.
holds-set :
    (s : CapabilitySet) (m n v : ℕ)
    → IsCapabilitySet s
    → m < 64
    → n < 64
    → holds (set s (7 - m / 8) v) n
      ≡ (if 7 - m / 8 == 7 - n / 8 then test_bit v (n % 8) else holds s n)
unfolding holds
holds-set s m n v w h k =
    ground (arith, get_or-set s (7 - m / 8) (7 - n / 8) v 0 (omega (arith, w.eight)))

holds-insert_bit :
    (s : CapabilitySet) (m n : ℕ)
    → IsCapabilitySet s
    → m < 64
    → n < 64
    → holds (set s (7 - m / 8) (bit_or (get_or s (7 - m / 8) 0) (2 ^ (m % 8)))) n
      ≡ ((m == n) || holds s n)
holds-insert_bit s m n w h k =
    holds-set s m n (bit_or (get_or s (7 - m / 8) 0) (2 ^ (m % 8))) w h k
    ∙ rw
        (
          test_bit-bit_or (get_or s (7 - m / 8) 0) (2 ^ (m % 8)) (n % 8),
          test_bit_shift (m % 8) (n % 8),
        )
        (unfold holds in ground arith)

-- `insert` sets the bit of its capability in a bitmap of eight bytes and no other below 64.
pub holds-insert :
    (s : CapabilitySet) (c : Capability) (n : ℕ)
    → IsCapabilitySet s
    → n < 64
    → holds (insert s c) n ≡ ((to_bit c == n) || holds s n)
unfolding insert
holds-insert s c n w h = holds-insert_bit s (to_bit c) n w (to_bit-lt c) h

holds-remove_bit :
    (s : CapabilitySet) (m n : ℕ)
    → IsCapabilitySet s
    → m < 64
    → n < 64
    → holds (set s (7 - m / 8) (bit_and (get_or s (7 - m / 8) 0) (2 ^ 8 - 1 - 2 ^ (m % 8)))) n
      ≡ (not (m == n) && holds s n)
holds-remove_bit s m n w h k =
    holds-set s m n (bit_and (get_or s (7 - m / 8) 0) (2 ^ 8 - 1 - 2 ^ (m % 8))) w h k
    ∙ rw
        (
          test_bit-bit_and (get_or s (7 - m / 8) 0) (2 ^ 8 - 1 - 2 ^ (m % 8)) (n % 8),
          test_bit_complement 8 (2 ^ (m % 8)) (n % 8) (shift-lt (m % 8) (omega arith))
              (omega arith),
          test_bit_shift (m % 8) (n % 8),
        )
        (unfold holds in ground arith)

-- `remove` clears the bit of its capability in a bitmap of eight bytes and no other below 64.
pub holds-remove :
    (s : CapabilitySet) (c : Capability) (n : ℕ)
    → IsCapabilitySet s
    → n < 64
    → holds (remove s c) n ≡ (not (to_bit c == n) && holds s n)
unfolding remove
holds-remove s c n w h = holds-remove_bit s (to_bit c) n w (to_bit-lt c) h

pub insert-IsCapabilitySet :
    (s : CapabilitySet) (c : Capability) → IsCapabilitySet s → IsCapabilitySet (insert s c)
unfolding insert
insert-IsCapabilitySet s c w =
    let i = 7 - to_bit c / 8 in
    let v = bit_or (get_or s i 0) (2 ^ (to_bit c % 8)) in
    record {
      eight = omega (arith, length-set s i v, w.eight);
      bytes =
          All-set IsByte s i v w.bytes
            (bit_or-lt 8 (get_or s i 0) _ (byte s i w) (shift-lt (to_bit c % 8) (omega arith)));
    }

pub remove-IsCapabilitySet :
    (s : CapabilitySet) (c : Capability) → IsCapabilitySet s → IsCapabilitySet (remove s c)
unfolding remove
remove-IsCapabilitySet s c w =
    let i = 7 - to_bit c / 8 in
    let v = bit_and (get_or s i 0) (2 ^ 8 - 1 - 2 ^ (to_bit c % 8)) in
    record {
      eight = omega (arith, length-set s i v, w.eight);
      bytes = All-set IsByte s i v w.bytes (bit_and-lt 8 (get_or s i 0) _ (byte s i w));
    }

-- Byte by byte, over bitmaps of any length.
covers_iff :
    (a r : CapabilitySet)
    → length a ≡ length r
    → AreBytes a
    → AreBytes r
    → (contains_all a r ≡ true) ↔ (
        (i : ℕ)
        → (k : ℕ) → k < 8
        → test_bit (get_or r i 0) k ≡ true
        → test_bit (get_or a i 0) k ≡ true)
unfolding contains_all
covers_iff [] [] e ha hr = (λ h i k m on. on, λ h. refl)
covers_iff [] (y ∷ r) e ha hr = absurd (omega arith)
covers_iff (x ∷ a) [] e ha hr = absurd (omega arith)
covers_iff (x ∷ a) (y ∷ r) e ha hr =
    let head = has_all_bits_iff 8 x y ha.0 hr.0 in
    let rest = covers_iff a r (omega arith) ha.1 hr.1 in
    (
      λ h i k m on.
          (elim i
              as (λ i.
                test_bit (get_or (y ∷ r) i 0) k ≡ true → test_bit (get_or (x ∷ a) i 0) k ≡ true) [
                  | zero ↦ λ here. head.0 (&&_left _ _ h) k m here
                  | suc j ↦ λ there. rest.0 (&&_right _ _ h) j k m there
                ])
            on,
      λ sub. &&_intro _ _ (head.1 (λ k m. sub 0 k m)) (rest.1 (λ i. sub (suc i))),
    )

-- `contains_all` decides the inclusion of its argument, on bitmaps of eight bytes.
pub contains_all_iff :
    (a r : CapabilitySet)
    → IsCapabilitySet a
    → IsCapabilitySet r
    → (contains_all a r ≡ true) ↔ IsSubset r a
unfolding holds
contains_all_iff a r wa wr =
    let whole = covers_iff a r (wa.eight ∙ sym wr.eight) wa.bytes wr.bytes in
    (
      λ h n m on. whole.0 h (7 - n / 8) (n % 8) (omega arith) on,
      λ sub. whole.1 (λ i k m on. bit_at sub i k m on),
    )
  where
    bit_at :
        IsSubset r a
        → (i k : ℕ) → k < 8
        → test_bit (get_or r i 0) k ≡ true
        → test_bit (get_or a i 0) k ≡ true
    bit_at sub i k m on = elim (Bool-cases (ltb i 8)) [
      | inl small ↦
          let n = (7 - i) * 8 + k in
          let i' : 7 - n / 8 ≡ i = ground arith in
          let k' : n % 8 ≡ k = omega arith in rw (i', k') at (sub n (ground arith) (rw (i', k') on))
      | inr big ↦
          let off = get_or_above r i 0 (ground (arith, wr.eight)) in
          cc (sym on, ap (λ x. test_bit x k) off, test_bit-zero k)
    ]

-- `is_subset_of` decides inclusion, on bitmaps of eight bytes.
pub is_subset_of_iff :
    (s a : CapabilitySet)
    → IsCapabilitySet s
    → IsCapabilitySet a
    → (is_subset_of s a ≡ true) ↔ IsSubset s a
unfolding is_subset_of
is_subset_of_iff s a ws wa = contains_all_iff a s wa ws

get_or-intersection :
    (s r : CapabilitySet) (i : ℕ)
    → length s ≡ length r
    → get_or (intersection s r) i 0 ≡ bit_and (get_or s i 0) (get_or r i 0)
unfolding intersection
get_or-intersection [] [] i e = refl
get_or-intersection [] (y ∷ r) i e = absurd (omega arith)
get_or-intersection (x ∷ s) [] i e = absurd (omega arith)
get_or-intersection (x ∷ s) (y ∷ r) zero e = refl
get_or-intersection (x ∷ s) (y ∷ r) (suc i) e = get_or-intersection s r i (omega arith)

-- `intersection` keeps the bits below 64 that both bitmaps of eight bytes have.
pub holds-intersection :
    (s r : CapabilitySet) (n : ℕ)
    → IsCapabilitySet s
    → IsCapabilitySet r
    → n < 64
    → holds (intersection s r) n ≡ (holds s n && holds r n)
unfolding holds
holds-intersection s r n ws wr h =
    rw (get_or-intersection s r (7 - n / 8) (ws.eight ∙ sym wr.eight))
      (test_bit-bit_and _ _ (n % 8))
