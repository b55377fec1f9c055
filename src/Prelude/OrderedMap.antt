-- ===== src/Prelude/OrderedMap.antt =====
-- `std::collections::BTreeMap` as an association list in key order. The order of keys is an
-- interface: `Ord` of the source's key types.
pub mod All
pub mod Gets
use Prim.Native.Nat.{ℕ, ◌+◌, ◌≤◌}
use mathlib.Core.Path.{◌≡◌, refl}
use mathlib.Core.Logic.{◌↔◌, ◌⊎◌, inl, inr}
use mathlib.Core.Bool.{Bool, true, false}
use mathlib.Core.Option.{Option, none, some}
use mathlib.Core.List.{List, [], ◌∷◌}
use native.Mathlib.Omega.{arith}
use virtual_yubihsm.Prelude.Tests.{◌==◌, ==_iff, ltb, if◌then◌else◌, is_some, Bool-cases}
use virtual_yubihsm.Prelude.Lists.{length}

pub record Order {ℓ} (K : Type ℓ) : Type ℓ where
  pub eq : K → K → Bool
  pub lt : K → K → Bool
  pub eq_iff : (a b : K) → (eq a b ≡ true) ↔ (a ≡ b)
  pub trans : (a b c : K) → lt a b ≡ true → lt b c ≡ true → lt a c ≡ true
  pub total : (a b : K) → eq b a ≡ false → lt a b ≡ false → lt b a ≡ true

pub ltb_trans : (a b c : ℕ) → ltb a b ≡ true → ltb b c ≡ true → ltb a c ≡ true
ltb_trans a b c h k = ground arith

pub ltb_total : (a b : ℕ) → (b == a) ≡ false → ltb a b ≡ false → ltb b a ≡ true
ltb_total a b h k = ground arith

instance abbrev pub nat_order : Order ℕ
nat_order = record { eq = ◌==◌; lt = ltb; eq_iff = ==_iff; trans = ltb_trans; total = ltb_total }

abbrev pub OrderedMap {ℓ κ} : Type ℓ → Type κ → Type (ℓ ⊔ κ)
OrderedMap K V = List (K × V)

module _ {ℓ κ} {K : Type ℓ} {V : Type κ} ⦃o : Order K⦄ where
  unfoldable pub get : K → OrderedMap K V → Option V
  get k [] = none
  get k ((j, v) ∷ m) = if o.eq j k then some v else get k m

  unfoldable pub contains_key : K → OrderedMap K V → Bool
  unfolding get
  contains_key k m = is_some (get k m)

  unfoldable pub insert : K → V → OrderedMap K V → OrderedMap K V
  insert k v [] = (k, v) ∷ []
  insert k v ((j, w) ∷ m) =
      let rest = insert k v m in
      if o.eq j k then (k, v) ∷ m else if o.lt k j then (k, v) ∷ (j, w) ∷ m else (j, w) ∷ rest

  unfoldable pub remove : K → OrderedMap K V → OrderedMap K V
  remove k [] = []
  remove k ((j, w) ∷ m) = let rest = remove k m in if o.eq j k then rest else (j, w) ∷ rest

  unfoldable pub retain : (K → V → Bool) → OrderedMap K V → OrderedMap K V
  retain keep [] = []
  retain keep ((j, w) ∷ m) = let rest = retain keep m in if keep j w then (j, w) ∷ rest else rest

  pub get-insert :
      (k i : K) (v : V) (m : OrderedMap K V)
      → get i (insert k v m) ≡ (if o.eq k i then some v else get i m)
  unfolding get insert
  get-insert k i v [] = refl
  get-insert k i v ((j, w) ∷ m) =
      ground (arith, o.eq_iff k i, o.eq_iff j k, o.eq_iff j i, get-insert k i v m)

  pub get-remove :
      (k i : K) (m : OrderedMap K V) → get i (remove k m) ≡ (if o.eq k i then none else get i m)
  unfolding get remove
  get-remove k i [] = ground arith
  get-remove k i ((j, w) ∷ m) =
      ground (arith, o.eq_iff k i, o.eq_iff j k, o.eq_iff j i, get-remove k i m)

  -- An entry that is new after an insertion is the inserted one.
  pub get-insert-new :
      (k i : K) (v w : V) (m : OrderedMap K V)
      → get i m ≡ none
      → get i (insert k v m) ≡ some w
      → (k ≡ i) × (w ≡ v)
  get-insert-new k i v w m absent present = ground (arith, o.eq_iff k i, get-insert k i v m)

  -- What is found after an insertion is the inserted value or what was found before.
  pub get-insert-known :
      (k i : K) (u v w : V) (m : OrderedMap K V)
      → get i m ≡ some u
      → get i (insert k v m) ≡ some w
      → ((k ≡ i) × (w ≡ v)) ⊎ (w ≡ u)
  get-insert-known k i u v w m known present = elim (Bool-cases (o.eq k i)) [
    | inl same ↦ inl (ground (arith, o.eq_iff k i, get-insert k i v m))
    | inr apart ↦ inr (ground (arith, get-insert k i v m))
  ]

  -- What is found after a removal was found before.
  pub get-remove-some :
      (k i : K) (v : V) (m : OrderedMap K V) → get i (remove k m) ≡ some v → get i m ≡ some v
  get-remove-some k i v m present = ground (arith, get-remove k i m)

  -- Nothing is new after a removal.
  pub get-remove-none : (k i : K) (m : OrderedMap K V) → get i m ≡ none → get i (remove k m) ≡ none
  get-remove-none k i m absent = ground (arith, get-remove k i m)

  pub length-remove-le : (k : K) (m : OrderedMap K V) → length (remove k m) ≤ length m
  unfolding remove
  length-remove-le k [] = omega arith
  length-remove-le k ((j, w) ∷ m) = ground (arith, length-remove-le k m)

  pub length-retain-le :
      (keep : K → V → Bool) (m : OrderedMap K V) → length (retain keep m) ≤ length m
  unfolding retain
  length-retain-le keep [] = omega arith
  length-retain-le keep ((j, w) ∷ m) = ground (arith, length-retain-le keep m)

  pub length-insert-le : (k : K) (v : V) (m : OrderedMap K V) → length (insert k v m) ≤ length m + 1
  unfolding insert
  length-insert-le k v [] = omega arith
  length-insert-le k v ((j, w) ∷ m) = ground (arith, length-insert-le k v m)

  -- Every key is above `k`.
  abbrev pub Above : K → OrderedMap K V → Type 0
  Above k [] = Unit {0}
  Above k ((j, w) ∷ m) = (o.lt k j ≡ true) × Above k m

  -- The keys rise along the list.
  abbrev pub IsSorted : OrderedMap K V → Type 0
  IsSorted [] = Unit {0}
  IsSorted ((j, w) ∷ m) = Above j m × IsSorted m

  Above-insert :
      (j k : K) (v : V) (m : OrderedMap K V) → o.lt j k ≡ true → Above j m → Above j (insert k v m)
  unfolding insert
  Above-insert j k v [] h a = (h, tt)
  Above-insert j k v ((i, w) ∷ m) h a = ground (arith, Above-insert j k v m h a.1)

  Above-trans : (k j : K) (m : OrderedMap K V) → o.lt k j ≡ true → Above j m → Above k m
  Above-trans k j [] h a = tt
  Above-trans k j ((i, w) ∷ m) h a = (o.trans k j i h a.0, Above-trans k j m h a.1)

  pub insert-IsSorted : (k : K) (v : V) (m : OrderedMap K V) → IsSorted m → IsSorted (insert k v m)
  unfolding insert
  insert-IsSorted k v [] s = (tt, tt)
  insert-IsSorted k v ((j, w) ∷ m) s = ground (
    arith,
    insert-IsSorted k v m s.1,
    o.eq_iff j k,
    o.total k j,
    Above-insert j k v m,
    Above-trans k j m,
  )

  Above-remove : (j k : K) (m : OrderedMap K V) → Above j m → Above j (remove k m)
  unfolding remove
  Above-remove j k [] a = tt
  Above-remove j k ((i, w) ∷ m) a = ground (arith, Above-remove j k m a.1)

  pub remove-IsSorted : (k : K) (m : OrderedMap K V) → IsSorted m → IsSorted (remove k m)
  unfolding remove
  remove-IsSorted k [] s = tt
  remove-IsSorted k ((j, w) ∷ m) s = ground (arith, remove-IsSorted k m s.1, Above-remove j k m s.0)

  Above-retain :
      (j : K) (keep : K → V → Bool) (m : OrderedMap K V) → Above j m → Above j (retain keep m)
  unfolding retain
  Above-retain j keep [] a = tt
  Above-retain j keep ((i, w) ∷ m) a = ground (arith, Above-retain j keep m a.1)

  pub retain-IsSorted :
      (keep : K → V → Bool) (m : OrderedMap K V) → IsSorted m → IsSorted (retain keep m)
  unfolding retain
  retain-IsSorted keep [] s = tt
  retain-IsSorted keep ((j, w) ∷ m) s =
      ground (arith, retain-IsSorted keep m s.1, Above-retain j keep m s.0)
