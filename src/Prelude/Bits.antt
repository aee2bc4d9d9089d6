-- ===== src/Prelude/Bits.antt =====
-- `&`, `|` and shifts of unsigned words, as arithmetic.
use Prim.Native.Nat.{
  ℕ, zero, suc, ◌+◌, ◌*◌, ◌/◌, ◌%◌, ◌^◌, ◌≤◌, ◌<◌, min, max, bit_and, bit_or, digits,
  bit_and-bitwise, bit_or-bitwise,
}
use mathlib.Core.Path.{◌≡◌, refl, ap, ◌∙◌}
use mathlib.Core.Logic.{◌⊎◌, inl, inr}
use imserver.Prelude.Tests.{leb, Bool-cases}
use native.Mathlib.Omega.{arith}
use native.Mathlib.Nat.{pow-suc}

zero_or_more : (n : ℕ) → (n ≡ 0) ⊎ (0 < n)
zero_or_more zero = inl refl
zero_or_more (suc n) = inr (omega arith)

-- Both operations are one recursion on the binary digits of their first argument.
module _ (stop : ℕ → ℕ) (digit : ℕ → ℕ → ℕ) where
  -- A round more than there are digits changes nothing.
  one_round : (k x y : ℕ) → x ≤ k → digits stop digit (suc k) x y ≡ digits stop digit k x y
  one_round zero x y h = elim (zero_or_more x) [
    | inl e ↦ rw e refl
    | inr pos ↦ absurd (omega arith)
  ]
  one_round (suc k) zero y h = refl
  one_round (suc k) (suc v) y h =
      let less : suc v / 2 ≤ k = omega arith in
      ap (λ (high : ℕ). high * 2 + digit (suc v % 2) (y % 2)) (one_round k (suc v / 2) (y / 2) less)

  -- Nor do any number of them.
  more_rounds :
      (k low x y : ℕ) → x ≤ low → low ≤ k → digits stop digit k x y ≡ digits stop digit low x y
  more_rounds zero low x y h g = let e : low ≡ 0 = omega arith in rw e refl
  more_rounds (suc k) low x y h g = elim (Bool-cases (leb low k)) [
    | inl below ↦ one_round k x y (ground arith) ∙ more_rounds k low x y h (ground arith)
    | inr top ↦ let e : low ≡ suc k = ground arith in rw e refl
  ]

zero-bit_or : (y : ℕ) → bit_or 0 y ≡ y
zero-bit_or y = bit_or-bitwise 0 y

zero-bit_and : (y : ℕ) → bit_and 0 y ≡ 0
zero-bit_and y = bit_and-bitwise 0 y

-- The lowest digit, and the rest.
bit_or_step : (x y : ℕ) → bit_or x y ≡ bit_or (x / 2) (y / 2) * 2 + max (x % 2) (y % 2)
bit_or_step zero y = let low = zero-bit_or y in omega (arith, low, zero-bit_or (y / 2))
bit_or_step (suc v) y =
    let half : ℕ = suc v / 2 in
    let fewer = more_rounds (λ (t : ℕ). t) max v half half (y / 2) (omega arith) (omega arith) in
    omega (arith, fewer, bit_or-bitwise half (y / 2), bit_or-bitwise (suc v) y)

bit_and_step : (x y : ℕ) → bit_and x y ≡ bit_and (x / 2) (y / 2) * 2 + min (x % 2) (y % 2)
bit_and_step zero y = let low = zero-bit_and y in omega (arith, low, zero-bit_and (y / 2))
bit_and_step (suc v) y =
    let half : ℕ = suc v / 2 in
    let fewer = more_rounds (λ (t : ℕ). 0) min v half half (y / 2) (omega arith) (omega arith) in
    omega (arith, fewer, bit_and-bitwise half (y / 2), bit_and-bitwise (suc v) y)

-- With nothing on the right.
with_zero : (k x : ℕ) → x ≤ k → (bit_or x 0 ≡ x) × (bit_and x 0 ≡ 0)
with_zero zero x h = let e : x ≡ 0 = omega arith in rw e (zero-bit_or 0, zero-bit_and 0)
with_zero (suc k) x h = elim (zero_or_more x) [
  | inl e ↦ rw e (zero-bit_or 0, zero-bit_and 0)
  | inr pos ↦
      let half = with_zero k (x / 2) (omega arith) in
      (omega (arith, half.0, bit_or_step x 0), omega (arith, half.1, bit_and_step x 0))
]

pub bit_or-zero : (x : ℕ) → bit_or x 0 ≡ x
bit_or-zero x = (with_zero x x (omega arith)).0

pub bit_and-zero : (x : ℕ) → bit_and x 0 ≡ 0
bit_and-zero x = (with_zero x x (omega arith)).1

shift_suc : (x k : ℕ) → x * 2 ^ suc k ≡ 2 * (x * 2 ^ k)
shift_suc x k = omega (arith, ap (λ (t : ℕ). x * t) (pow-suc 2 k))

-- A value below bit `k`, and one that starts there, have no bit in common.
pub bit_or_high : (k hi lo : ℕ) → lo < 2 ^ k → bit_or (hi * 2 ^ k) lo ≡ hi * 2 ^ k + lo
bit_or_high zero hi lo h = ground (arith, bit_or-zero hi)
bit_or_high (suc k) hi lo h = ground (
  arith,
  bit_or_step (hi * 2 ^ suc k) lo,
  shift_suc hi k,
  pow-suc 2 k,
  bit_or_high k hi (lo / 2) (omega arith),
)

pub bit_or_low : (k lo hi : ℕ) → lo < 2 ^ k → bit_or lo (hi * 2 ^ k) ≡ lo + hi * 2 ^ k
bit_or_low zero lo hi h = ground (arith, zero-bit_or hi)
bit_or_low (suc k) lo hi h = ground (
  arith,
  bit_or_step lo (hi * 2 ^ suc k),
  shift_suc hi k,
  pow-suc 2 k,
  bit_or_low k (lo / 2) hi (omega arith),
)

-- A mask of low bits is a remainder.
pub bit_and_1 : (a : ℕ) → bit_and a 1 ≡ a % 2
bit_and_1 a = omega (arith, bit_and_step a 1, bit_and-zero (a / 2))

bit_and_15 : (a : ℕ) → bit_and a 15 ≡ a % 16
bit_and_15 a = omega (
  arith,
  bit_and_step a 15,
  bit_and_step (a / 2) 7,
  bit_and_step (a / 2 / 2) 3,
  bit_and_1 (a / 2 / 2 / 2),
)

pub bit_and_127 : (a : ℕ) → bit_and a 127 ≡ a % 128
bit_and_127 a = omega (
  arith,
  bit_and_step a 127,
  bit_and_step (a / 2) 63,
  bit_and_step (a / 2 / 2) 31,
  bit_and_15 (a / 2 / 2 / 2),
)

pub bit_and_255 : (a : ℕ) → bit_and a 255 ≡ a % 256
bit_and_255 a = omega (arith, bit_and_step a 255, bit_and_127 (a / 2))

bit_and_2 : (a : ℕ) → bit_and a 2 ≡ a / 2 % 2 * 2
bit_and_2 a = omega (arith, bit_and_step a 2, bit_and_1 (a / 2))

bit_and_16 : (a : ℕ) → bit_and a 16 ≡ a / 16 % 2 * 16
bit_and_16 a = omega (
  arith,
  bit_and_step a 16,
  bit_and_step (a / 2) 8,
  bit_and_step (a / 2 / 2) 4,
  bit_and_2 (a / 2 / 2 / 2),
)

-- The top bit of a byte.
pub bit_and_128 : (a : ℕ) → bit_and a 128 ≡ a / 128 % 2 * 128
bit_and_128 a = omega (
  arith,
  bit_and_step a 128,
  bit_and_step (a / 2) 64,
  bit_and_step (a / 2 / 2) 32,
  bit_and_16 (a / 2 / 2 / 2),
)
