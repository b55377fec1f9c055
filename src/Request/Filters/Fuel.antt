-- ===== src/Request/Filters/Fuel.antt =====
-- The loop over filters ends before its fuel does: every field takes a byte at least.
use virtual_yubihsm.Prelude.{
  ℕ, zero, suc, ◌+◌, ◌≤◌, ◌<◌, ◌≡◌, refl, ap, sym, ◌∙◌, Bool, true, false, Option, none, some, List,
  [], ◌∷◌, length, length-append, ◌==◌, if◌then◌else◌, arith,
}
use virtual_yubihsm.Error.{DeviceError, Result, ok, err}
use virtual_yubihsm.Wire.{Reader, pure, fail, required, ◌>>=◌, read_u8, read_u16, read_array}
use virtual_yubihsm.Wire.Splits.{read_slice_iff, read_array_lem, >>=-eq_ok}
use virtual_yubihsm.Request.Filters.{ObjectFilters, filter_value, filter_field, filters_loop}

-- What a read leaves is no longer than what it got.
abbrev Shrinks {ℓ} : {A : Type ℓ} → Reader A → Type ℓ
Shrinks {A} m =
    (reader : List ℕ) (a : A) (rest : List ℕ)
    → m reader ≡ ok (a, rest)
    → length rest ≤ length reader

>>=-Shrinks {ℓ κ} :
    {A : Type ℓ} {B : Type κ} (m : Reader A) (f : A → Reader B)
    → Shrinks m
    → ((a : A) → Shrinks (f a))
    → Shrinks (m >>= f)
>>=-Shrinks m f hm hf reader b rest e =
    let (a, between, first, second) = >>=-eq_ok m f reader e in
    omega (arith, hm reader a between first, hf a between b rest second)

-- Two continuations that agree on what the first read gives.
>>=-cong {ℓ κ} :
    {A : Type ℓ} {B : Type κ} (m : Reader A) (f g : A → Reader B) (reader : List ℕ)
    → ((a : A) (rest : List ℕ) → m reader ≡ ok (a, rest) → f a rest ≡ g a rest)
    → (m >>= f) reader ≡ (m >>= g) reader
>>=-cong {A} m f g reader agree = inspect (m reader) refl
  where
    inspect : (r : Result (A × List ℕ)) → m reader ≡ r → (m >>= f) reader ≡ (m >>= g) reader
    inspect (ok (a, rest)) e = rw e (agree a rest e)
    inspect (err d) e = rw e refl

pure-Shrinks {ℓ} : {A : Type ℓ} (a : A) → Shrinks (pure a)
pure-Shrinks a reader b rest e = ground arith

fail-Shrinks {ℓ} : {A : Type ℓ} (d : DeviceError) → Shrinks (fail {A = A} d)
fail-Shrinks d reader b rest e = cc

required-Shrinks {ℓ} : {A : Type ℓ} (o : Option A) (d : DeviceError) → Shrinks (required o d)
required-Shrinks none d = fail-Shrinks d
required-Shrinks (some a) d = pure-Shrinks a

if-Shrinks {ℓ} :
    {A : Type ℓ} (test : Bool) (m n : Reader A)
    → Shrinks m
    → Shrinks n
    → Shrinks (if test then m else n)
if-Shrinks true m n hm hn = hm
if-Shrinks false m n hm hn = hn

-- An array takes its length off the front.
read_array_length :
    (n : ℕ) (reader value rest : List ℕ)
    → read_array n reader ≡ ok (value, rest)
    → length reader ≡ n + length rest
read_array_length n reader value rest e =
    let split = (read_slice_iff n reader value rest).0 (sym (read_array_lem n reader) ∙ e) in
    ap length (sym split.1) ∙ omega (arith, length-append value rest, split.0)

read_array-Shrinks : (n : ℕ) → Shrinks (read_array n)
read_array-Shrinks n reader value rest e = omega (arith, read_array_length n reader value rest e)

read_u16-Shrinks : Shrinks read_u16
unfolding read_u16
read_u16-Shrinks = >>=-Shrinks (read_array 2) _ (read_array-Shrinks 2) λ v. pure-Shrinks _

read_u8-Shrinks : Shrinks read_u8
unfolding read_u8
read_u8-Shrinks = >>=-Shrinks (read_array 1) _ (read_array-Shrinks 1) λ v. pure-Shrinks _

read_u8_takes :
    (reader : List ℕ) (b : ℕ) (rest : List ℕ)
    → read_u8 reader ≡ ok (b, rest)
    → length rest < length reader
unfolding read_u8
read_u8_takes reader b rest e =
    let (value, between, first, second) = >>=-eq_ok (read_array 1) _ reader e in
    omega
      (arith, read_array_length 1 reader value between first, pure-Shrinks _ between b rest second)

filter_value-Shrinks : (filters : ObjectFilters) (tag : ℕ) → Shrinks (filter_value filters tag)
unfolding filter_value
filter_value-Shrinks filters tag =
    if-Shrinks (tag == 1) _ _ (>>=-Shrinks read_u16 _ read_u16-Shrinks λ v. pure-Shrinks _) (
      if-Shrinks (tag == 2) _ _
        (>>=-Shrinks read_u8 _ read_u8-Shrinks
          λ v. >>=-Shrinks _ _ (required-Shrinks _ _) λ t. pure-Shrinks _)
        (if-Shrinks (tag == 3) _ _ (>>=-Shrinks read_u16 _ read_u16-Shrinks λ v. pure-Shrinks _) (
          if-Shrinks (tag == 4) _ _
            (>>=-Shrinks (read_array 8) _ (read_array-Shrinks 8) λ v. pure-Shrinks _)
            (if-Shrinks (tag == 5) _ _ (>>=-Shrinks read_u8 _ read_u8-Shrinks λ v. pure-Shrinks _) (
              if-Shrinks (tag == 6) _ _
                (>>=-Shrinks (read_array 40) _ (read_array-Shrinks 40) λ v. pure-Shrinks _)
                (fail-Shrinks _))))))

filter_field_takes :
    (filters : ObjectFilters) (reader : List ℕ) (next : ObjectFilters) (rest : List ℕ)
    → filter_field filters reader ≡ ok (next, rest)
    → length rest < length reader
unfolding filter_field
filter_field_takes filters reader next rest e =
    let (tag, between, first, second) = >>=-eq_ok read_u8 (filter_value filters) reader e in
    omega (
      arith,
      read_u8_takes reader tag between first,
      filter_value-Shrinks filters tag between next rest second,
    )

-- Any fuel that covers the input gives the same answer.
filters_loop-fuel :
    (n m : ℕ) (filters : ObjectFilters) (reader : List ℕ)
    → length reader ≤ n
    → length reader ≤ m
    → filters_loop n filters reader ≡ filters_loop m filters reader
unfolding filters_loop
filters_loop-fuel n m filters [] hn hm = refl
filters_loop-fuel zero m filters (b ∷ reader) hn hm = absurd (omega arith)
filters_loop-fuel (suc n) zero filters (b ∷ reader) hn hm = absurd (omega arith)
filters_loop-fuel (suc n) (suc m) filters (b ∷ reader) hn hm =
    >>=-cong (filter_field filters) (filters_loop n) (filters_loop m) (b ∷ reader) λ next rest e.
      let shorter = filter_field_takes filters (b ∷ reader) next rest e in
      filters_loop-fuel n m next rest (omega arith) (omega arith)

-- The loop with a round for each byte is the loop of the source: on an input that is not empty it
-- reads one field and goes on with what is left, with a round for each byte of that again.
pub filters_loop_unfolds :
    (filters : ObjectFilters) (b : ℕ) (reader : List ℕ)
    → filters_loop (length (b ∷ reader)) filters (b ∷ reader)
      ≡ (filter_field filters >>= λ next rest. filters_loop (length rest) next rest) (b ∷ reader)
unfolding filters_loop
filters_loop_unfolds filters b reader =
    >>=-cong (filter_field filters) (filters_loop (length reader))
      (λ next rest. filters_loop (length rest) next rest) (b ∷ reader)
      λ next rest e.
        let shorter = filter_field_takes filters (b ∷ reader) next rest e in
        filters_loop-fuel (length reader) (length rest) next rest (omega arith) (omega arith)
