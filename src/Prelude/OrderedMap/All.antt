-- ===== src/Prelude/OrderedMap/All.antt =====
-- What holds of every entry of a map, through the operations.
use mathlib.Core.Path.{◌≡◌}
use mathlib.Core.Bool.{Bool}
use mathlib.Core.Option.{some}
use mathlib.Core.List.{List, [], ◌∷◌}
use native.Mathlib.Omega.{arith}
use virtual_yubihsm.Prelude.Lists.{All}
use virtual_yubihsm.Prelude.OrderedMap.{Order, OrderedMap, get, insert, remove, retain}

module _ {ℓ κ μ} {K : Type ℓ} {V : Type κ} ⦃o : Order K⦄ (P : K × V → Type μ) where
  pub All-insert : (k : K) (v : V) (m : OrderedMap K V) → P (k, v) → All P m → All P (insert k v m)
  unfolding insert
  All-insert k v [] p h = (p, tt)
  All-insert k v ((j, w) ∷ m) p h = ground (arith, All-insert k v m p h.1)

  pub All-remove : (k : K) (m : OrderedMap K V) → All P m → All P (remove k m)
  unfolding remove
  All-remove k [] h = tt
  All-remove k ((j, w) ∷ m) h = ground (arith, All-remove k m h.1)

  pub All-retain : (keep : K → V → Bool) (m : OrderedMap K V) → All P m → All P (retain keep m)
  unfolding retain
  All-retain keep [] h = tt
  All-retain keep ((j, w) ∷ m) h = ground (arith, All-retain keep m h.1)

  pub All-get : (k : K) (v : V) (m : OrderedMap K V) → All P m → get k m ≡ some v → P (k, v)
  unfolding get
  All-get k v [] h e = cc
  All-get k v ((j, w) ∷ m) h e = ground (arith, o.eq_iff j k, All-get k v m h.1)

pub All-map {ℓ μ ν} :
    {A : Type ℓ} (P : A → Type μ) (Q : A → Type ν) (xs : List A)
    → ((a : A) → P a → Q a)
    → All P xs
    → All Q xs
All-map P Q [] f h = tt
All-map P Q (x ∷ xs) f h = (f x h.0, All-map P Q xs f h.1)
