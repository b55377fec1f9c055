-- ===== src/Error/Ensures.antt =====
-- What a fallible computation ensures of its value: nothing when it fails.
use virtual_yubihsm.Prelude.{◌≡◌, refl, Bool, true, false, Option, none, some, if◌then◌else◌}
use virtual_yubihsm.Error.{DeviceError, Result, ok, err, ok_or, ◌>>=◌}

pub data Ensures {A : Type 0} (P : A → Type 0) : Result A → Type 0 where
  holds : {a : A} → P a → Ensures P (ok a)
  fails : {failed : DeviceError} → Ensures P (err failed)

pub Ensures-ok : {A : Type 0} {P : A → Type 0} {a : A} → Ensures P (ok a) → P a
Ensures-ok (holds p) = p

pub >>=-Ensures :
    {A B : Type 0} {P : B → Type 0} {r : Result A} {next : A → Result B}
    → ((a : A) → r ≡ ok a → Ensures P (next a))
    → Ensures P (r >>= next)
>>=-Ensures {r = ok a} h = h a refl
>>=-Ensures {r = err failed} h = fails

pub if-Ensures :
    {A : Type 0} {P : A → Type 0} (b : Bool) {x y : Result A}
    → Ensures P x
    → Ensures P y
    → Ensures P (if b then x else y)
if-Ensures true h k = h
if-Ensures false h k = k

pub match-Ensures :
    {A B : Type 0} {P : B → Type 0} {o : Option A} {f : A → Result B} {y : Result B}
    → ((a : A) → o ≡ some a → Ensures P (f a))
    → Ensures P y
    → Ensures P (elim o [ some a ↦ f a | none ↦ y ])
match-Ensures {o = none} h k = k
match-Ensures {o = some a} h k = h a refl

-- The value that `ok_or` let through
pub ok_or-eq_ok :
    {A : Type 0} (o : Option A) (failed : DeviceError) {a : A} → ok_or o failed ≡ ok a → o ≡ some a
ok_or-eq_ok none failed e = cc
ok_or-eq_ok (some b) failed e = cc
