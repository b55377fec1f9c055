-- ===== src/Wire/Splits.antt =====
-- What each read takes off the front of the input, in both directions.
use virtual_yubihsm.Prelude.{
  ℕ, ◌^◌, ◌<◌, ◌≡◌, refl, sym, ap, ◌∙◌, ◌↔◌, List, [], ◌∷◌, ◌++◌, length, take-append, drop-append,
  take-append-drop, length-take, length-append, from_be_bytes, to_be_bytes,
  to_be_bytes-from_be_bytes, from_be_bytes-lt, IsByte, IsU16, AreBytes, All-take, All-drop, arith,
}
use virtual_yubihsm.Error.{Result, ok, err, wrong_length, ◌>>=◌ as and_then}
use virtual_yubihsm.Wire.{
  ◌>>=◌, finish, continue, Reader, read_slice, read_array, read_u8, read_u16, read_u64, decode,
}

-- A slice is read exactly when it and what is left make up the input.
pub read_slice_iff :
    (n : ℕ) (reader value rest : List ℕ)
    → (read_slice n reader ≡ ok (value, rest)) ↔ ((length value ≡ n) × (value ++ rest ≡ reader))
unfolding read_slice
read_slice_iff n reader value rest = (
  λ h. ground (arith, length-take n reader, take-append-drop n reader),
  λ (e, f).
      rw (← f, ← e)
        (ground (arith, length-append value rest, take-append value rest, drop-append value rest)),
)

pub read_slice_short :
    (n : ℕ) (reader : List ℕ) → length reader < n → read_slice n reader ≡ err wrong_length
unfolding read_slice
read_slice_short n reader h = ground arith

-- The check of `try_into` never fails.
pub read_array_lem : (n : ℕ) (reader : List ℕ) → read_array n reader ≡ read_slice n reader
unfolding read_array
read_array_lem n reader = ground (arith, length-take n reader)

pub read_array-append :
    (value rest : List ℕ) → read_array (length value) (value ++ rest) ≡ ok (value, rest)
read_array-append value rest =
    read_array_lem (length value) (value ++ rest)
    ∙ (read_slice_iff (length value) (value ++ rest) value rest).1 (refl, refl)

pub read_u8-cons : (b : ℕ) (rest : List ℕ) → read_u8 (b ∷ rest) ≡ ok (b, rest)
unfolding read_u8
read_u8-cons b rest = ground arith

pub read_u16-to_be_bytes :
    (x : ℕ) (rest : List ℕ) → IsU16 x → read_u16 (to_be_bytes 2 x ++ rest) ≡ ok (x, rest)
unfolding read_u16
read_u16-to_be_bytes x rest h = ground arith

-- A successful read took the encoding of its value off the front.
pub read_u8-eq_ok :
    (reader : List ℕ) {b : ℕ} {rest : List ℕ}
    → AreBytes reader
    → read_u8 reader ≡ ok (b, rest)
    → (b ∷ rest ≡ reader) × IsByte b × AreBytes rest
unfolding read_u8
read_u8-eq_ok [] h e = cc
read_u8-eq_ok (x ∷ xs) h e = ground arith

pub read_u16-eq_ok :
    (reader : List ℕ) {x : ℕ} {rest : List ℕ}
    → AreBytes reader
    → read_u16 reader ≡ ok (x, rest)
    → (to_be_bytes 2 x ++ rest ≡ reader) × IsU16 x × AreBytes rest
unfolding read_u16
read_u16-eq_ok [] h e = cc
read_u16-eq_ok (x ∷ []) h e = cc
read_u16-eq_ok (x ∷ y ∷ xs) h e = ground arith

pub read_array-eq_ok :
    (n : ℕ) (reader : List ℕ) {value rest : List ℕ}
    → AreBytes reader
    → read_array n reader ≡ ok (value, rest)
    → (length value ≡ n) × (value ++ rest ≡ reader) × AreBytes value × AreBytes rest
unfolding read_array
read_array-eq_ok n reader {value} {rest} h e =
    let split = (read_slice_iff n reader value rest).0 (sym (read_array_lem n reader) ∙ e) in
    ground (arith, split, All-take IsByte n reader h, All-drop IsByte n reader h)

-- Inversion of a successful bind of two reads.
pub >>=-eq_ok {ℓ κ} :
    {A : Type ℓ} {B : Type κ} (m : Reader A) (f : A → Reader B) (reader : List ℕ) {b : B}
    {rest : List ℕ}
    → (m >>= f) reader ≡ ok (b, rest)
    → (a : A) × (between : List ℕ) × (m reader ≡ ok (a, between)) × (f a between ≡ ok (b, rest))
>>=-eq_ok {A} m f reader {b} {rest} e = inspect (m reader) refl e
  where
    inspect :
        (r : Result (A × List ℕ))
        → m reader ≡ r
        → continue r f ≡ ok (b, rest)
        → (a : A) × (between : List ℕ) × (m reader ≡ ok (a, between)) × (f a between ≡ ok (b, rest))
    inspect (ok (a, between)) p q = (a, between, p, q)
    inspect (err d) p q = cc

pub read_u64-eq_ok :
    (reader : List ℕ) {x : ℕ} {rest : List ℕ}
    → AreBytes reader
    → read_u64 reader ≡ ok (x, rest)
    → (to_be_bytes 8 x ++ rest ≡ reader) × (x < 2 ^ 64) × AreBytes rest
unfolding read_u64
read_u64-eq_ok reader {x} {rest} h e =
    let (value, between, got, back) =
      >>=-eq_ok (read_array 8) (λ v r. ok (from_be_bytes v, r)) reader e in
    let split = read_array-eq_ok 8 reader h got in
    let whole = to_be_bytes-from_be_bytes 8 value split.2 split.0 in
    let small : from_be_bytes value < 256 ^ length value = from_be_bytes-lt value split.2 in
    let same : from_be_bytes value ≡ x = ground arith in
    let left : between ≡ rest = ground arith in
    (
      ap (λ (t : ℕ). to_be_bytes 8 t ++ rest) (sym same)
          ∙ ap (λ (t : List ℕ). t ++ rest) whole
          ∙ ap (λ (r : List ℕ). value ++ r) (sym left)
          ∙ split.1,
      rw (← same) (rw split.0 at small),
      rw (← left) split.3,
    )

-- `decode` succeeds exactly when the request type's reads end with nothing left.
pub decode_iff {ℓ} :
    {A : Type ℓ} (read : Reader A) (encoded : List ℕ) (a : A)
    → (decode read encoded ≡ ok a) ↔ (read encoded ≡ ok (a, []))
unfolding decode
decode_iff {A} read encoded a = inspect (read encoded)
  where
    inspect :
        (r : Result (A × List ℕ))
        → (and_then r (λ (value, rest). and_then (finish rest) λ _. ok value) ≡ ok a)
          ↔ (r ≡ ok (a, []))
    inspect (ok (x, [])) = (λ e. cc, λ e. cc)
    inspect (ok (x, b ∷ rest)) = (λ e. cc, λ e. cc)
    inspect (err d) = (λ e. cc, λ e. cc)
