-- ===== src/Prelude/OrderedMap/Gets.antt =====
-- What is found in a map after it was filtered, and how many entries a removal takes.
use Prim.Native.Nat.{◌+◌, ◌≤◌}
use mathlib.Core.Path.{◌≡◌, refl}
use mathlib.Core.Bool.{Bool, true, false}
use mathlib.Core.Option.{Option, none, some}
use mathlib.Core.List.{[], ◌∷◌, ◌++◌}
use native.Mathlib.Omega.{arith}
use virtual_yubihsm.Prelude.Tests.{if◌then◌else◌}
use virtual_yubihsm.Prelude.Lists.{length}
use virtual_yubihsm.Prelude.OrderedMap.{
  Order, OrderedMap, get, remove, retain, contains_key, Above, IsSorted, length-remove-le, insert,
}

abbrev pub kept_if {ℓ} : {V : Type ℓ} → (V → Bool) → Option V → Option V
kept_if keep none = none
kept_if keep (some v) = if keep v then some v else none

module _ {ℓ} {K : Type ℓ} ⦃o : Order K⦄ (irreflexive : (k : K) → o.lt k k ≡ false) where
  lt-apart : (j k : K) → o.lt j k ≡ true → (o.eq j k ≡ false) × (o.lt k j ≡ false)
  lt-apart j k below = ground (arith, o.eq_iff j k, irreflexive k, o.trans k j k)

module _ {ℓ κ} {K : Type ℓ} {V : Type κ} ⦃o : Order K⦄
    (irreflexive : (k : K) → o.lt k k ≡ false) where
  Above-get : (j k : K) (m : OrderedMap K V) → o.eq j k ≡ true → Above j m → get k m ≡ none
  unfolding get
  Above-get j k [] e a = refl
  Above-get j k ((i, w) ∷ m) e a =
      ground (arith, o.eq_iff i k, o.eq_iff j k, irreflexive k, Above-get j k m e a.1)

  pub get-retain :
      (keep : V → Bool) (k : K) (m : OrderedMap K V)
      → IsSorted m
      → get k (retain (λ j. keep) m) ≡ kept_if keep (get k m)
  unfolding get retain
  get-retain keep k [] s = refl
  get-retain keep k ((j, w) ∷ m) s = ground (arith, Above-get j k m, get-retain keep k m s.1)

  Above-last :
      (j k : K) (v : V) (m n : OrderedMap K V) → Above j (m ++ (k, v) ∷ n) → o.lt j k ≡ true
  Above-last j k v [] n a = a.0
  Above-last j k v ((i, w) ∷ m) n a = Above-last j k v m n a.1

  -- A key above all others goes to the end.
  pub insert-last :
      (k : K) (v : V) (m n : OrderedMap K V)
      → IsSorted (m ++ (k, v) ∷ n)
      → (get k m ≡ none) × (insert k v m ≡ m ++ (k, v) ∷ [])
  unfolding get insert
  insert-last k v [] n s = (refl, refl)
  insert-last k v ((j, w) ∷ m) n s =
      let apart = lt-apart irreflexive j k (Above-last j k v m n s.0) in
      let rest = insert-last k v m n s.1 in
      (ground (arith, apart.0, rest.0), ground (arith, apart.0, apart.1, rest.1))

module _ {ℓ κ} {K : Type ℓ} {V : Type κ} ⦃o : Order K⦄ where
  pub length-remove-lt :
      (k : K) (m : OrderedMap K V) → contains_key k m ≡ true → length (remove k m) + 1 ≤ length m
  unfolding contains_key get remove
  length-remove-lt k [] c = cc
  length-remove-lt k ((j, w) ∷ m) c = ground (arith, length-remove-lt k m, length-remove-le k m)
