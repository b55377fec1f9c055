-- ===== src/Prelude/Match.antt =====
-- `match byte { 0x01 => A, … , _ => None }` as a table of its arms, the first that fits winning.
use Prim.Native.Nat.{ℕ}
use mathlib.Core.Path.{◌≡◌}
use mathlib.Core.Option.{Option, none, some}
use mathlib.Core.List.{List, [], ◌∷◌}
use native.Mathlib.Omega.{arith}
use virtual_yubihsm.Prelude.Tests.{◌==◌, if◌then◌else◌}

module _ {A : Type 0} where
  abbrev pub match_byte : List (ℕ × A) → ℕ → Option A
  match_byte [] b = none
  match_byte ((n, a) ∷ arms) b = if b == n then some a else match_byte arms b

  -- Each arm's value has the arm's byte for its code.
  abbrev pub AreCodes : (A → ℕ) → List (ℕ × A) → Type 0
  AreCodes code [] = Unit {0}
  AreCodes code ((n, a) ∷ arms) = (code a ≡ n) × AreCodes code arms

  pub code-match_byte :
      (code : A → ℕ) (arms : List (ℕ × A)) (b : ℕ) {a : A}
      → AreCodes code arms
      → match_byte arms b ≡ some a
      → code a ≡ b
  code-match_byte code [] b c e = cc
  code-match_byte code ((n, x) ∷ arms) b {a} c e =
      ground (arith, λ (h : match_byte arms b ≡ some a). code-match_byte code arms b {a = a} c.1 h)
