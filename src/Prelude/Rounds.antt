-- ===== src/Prelude/Rounds.antt =====
-- Loops on a bound of their rounds.
use Prim.Native.Nat.{ℕ, zero, suc, ◌≤◌}
use mathlib.Core.Path.{◌≡◌, refl, ◌∙◌}
use mathlib.Core.Logic.{inl, inr}
use native.Mathlib.Omega.{arith}
use imserver.Prelude.Tests.{leb, Bool-cases}

-- A loop that one more round does not change from `low` on is the same on any larger bound.
pub settle {ℓ} :
    {A : Type ℓ} (loop : ℕ → A) (low : ℕ)
    → ((n : ℕ) → low ≤ n → loop (suc n) ≡ loop n)
    → (n : ℕ) → low ≤ n
    → loop n ≡ loop low
settle loop low more zero h = let e : low ≡ 0 = omega arith in rw e refl
settle loop low more (suc n) h = elim (Bool-cases (leb low n)) [
  | inl below ↦ more n (ground arith) ∙ settle loop low more n (ground arith)
  | inr top ↦ let e : low ≡ suc n = ground arith in rw e refl
]
