-- ===== src/Prelude/Bytes.antt =====
-- Go's shifts and conversions of unsigned words, and words as big-endian bytes.
-- A signed word is its two's complement bit pattern: conversions between `int64` and `uint64`, and
-- `byte(i >> k)` for a `k` that leaves eight bits, are then the same functions on the pattern.
use Prim.Native.Nat.{ℕ, ◌+◌, ◌*◌, ◌/◌, ◌%◌, ◌^◌, ◌<◌, bit_or}
use mathlib.Core.Path.{◌≡◌}
use native.Mathlib.Omega.{arith}
use imserver.Prelude.Bits.{bit_or_high}

-- `x << k` on `w` bits, `x >> k`, and `byte(x)`.
abbrev pub shl : ℕ → ℕ → ℕ → ℕ
shl w x k = x * 2 ^ k % 2 ^ w

abbrev pub shr : ℕ → ℕ → ℕ
shr x k = x / 2 ^ k

abbrev pub byte : ℕ → ℕ
byte x = x % 256

pub join16 : (a b : ℕ) → a < 256 → b < 256 → bit_or (shl 16 a 8) b ≡ a * 2 ^ 8 + b
join16 a b ha hb = ground (arith, bit_or_high 8 a b)

pub join32 :
    (a b c d : ℕ)
    → a < 256
    → b < 256
    → c < 256
    → d < 256
    → bit_or (bit_or (bit_or (shl 32 a 24) (shl 32 b 16)) (shl 32 c 8)) d
      ≡ a * 2 ^ 24 + b * 2 ^ 16 + c * 2 ^ 8 + d
join32 a b c d ha hb hc hd = ground (
  arith,
  bit_or_high 24 a (b * 2 ^ 16),
  bit_or_high 16 (a * 2 ^ 8 + b) (c * 2 ^ 8),
  bit_or_high 8 (a * 2 ^ 16 + b * 2 ^ 8 + c) d,
)

-- The high half of an eight-byte word, at its place.
join64_high :
    (a b c d : ℕ)
    → a < 256
    → b < 256
    → c < 256
    → d < 256
    → bit_or (bit_or (bit_or (shl 64 a 56) (shl 64 b 48)) (shl 64 c 40)) (shl 64 d 32)
      ≡ (a * 2 ^ 24 + b * 2 ^ 16 + c * 2 ^ 8 + d) * 2 ^ 32
join64_high a b c d ha hb hc hd = ground (
  arith,
  bit_or_high 56 a (b * 2 ^ 48),
  bit_or_high 48 (a * 2 ^ 8 + b) (c * 2 ^ 40),
  bit_or_high 40 (a * 2 ^ 16 + b * 2 ^ 8 + c) (d * 2 ^ 32),
)

join64_low :
    (hi e f g h : ℕ)
    → e < 256
    → f < 256
    → g < 256
    → h < 256
    → bit_or (bit_or (bit_or (bit_or (hi * 2 ^ 32) (shl 64 e 24)) (shl 64 f 16)) (shl 64 g 8)) h
      ≡ hi * 2 ^ 32 + e * 2 ^ 24 + f * 2 ^ 16 + g * 2 ^ 8 + h
join64_low hi e f g h he hf hg hh = ground (
  arith,
  bit_or_high 32 hi (e * 2 ^ 24),
  bit_or_high 24 (hi * 2 ^ 8 + e) (f * 2 ^ 16),
  bit_or_high 16 (hi * 2 ^ 16 + e * 2 ^ 8 + f) (g * 2 ^ 8),
  bit_or_high 8 (hi * 2 ^ 24 + e * 2 ^ 16 + f * 2 ^ 8 + g) h,
)

-- A word is what its bytes, the highest first, are joined to.
pub split16 : (v : ℕ) → v < 2 ^ 16 → bit_or (shl 16 (v / 2 ^ 8 % 256) 8) (v % 256) ≡ v
split16 v h = rw (join16 (v / 2 ^ 8 % 256) (v % 256) (omega arith) (omega arith)) (omega arith)

pub split32 :
    (v : ℕ)
    → v < 2 ^ 32
    → bit_or
        (bit_or
          (bit_or (shl 32 (v / 2 ^ 24 % 256) 24) (shl 32 (v / 2 ^ 16 % 256) 16))
          (shl 32 (v / 2 ^ 8 % 256) 8))
        (v % 256)
      ≡ v
split32 v h =
    rw
      (join32 (v / 2 ^ 24 % 256) (v / 2 ^ 16 % 256) (v / 2 ^ 8 % 256) (v % 256) (omega arith)
        (omega arith) (omega arith) (omega arith))
      (omega arith)

-- The high four bytes of eight.
abbrev high32 : ℕ → ℕ
high32 v =
    v / 2 ^ 56 % 256 * 2 ^ 24
    + v / 2 ^ 48 % 256 * 2 ^ 16
    + v / 2 ^ 40 % 256 * 2 ^ 8
    + v / 2 ^ 32 % 256

high32_lem : (v : ℕ) → v < 2 ^ 64 → high32 v ≡ v / 2 ^ 32
high32_lem v h = omega arith

pub split64 :
    (v : ℕ)
    → v < 2 ^ 64
    → bit_or
        (bit_or
          (bit_or
            (bit_or
              (bit_or
                (bit_or
                  (bit_or (shl 64 (v / 2 ^ 56 % 256) 56) (shl 64 (v / 2 ^ 48 % 256) 48))
                  (shl 64 (v / 2 ^ 40 % 256) 40))
                (shl 64 (v / 2 ^ 32 % 256) 32))
              (shl 64 (v / 2 ^ 24 % 256) 24))
            (shl 64 (v / 2 ^ 16 % 256) 16))
          (shl 64 (v / 2 ^ 8 % 256) 8))
        (v % 256)
      ≡ v
split64 v h =
    rw
      (join64_high (v / 2 ^ 56 % 256) (v / 2 ^ 48 % 256) (v / 2 ^ 40 % 256) (v / 2 ^ 32 % 256)
        (omega arith) (omega arith) (omega arith) (omega arith))
      (rw
        (join64_low (high32 v) (v / 2 ^ 24 % 256) (v / 2 ^ 16 % 256) (v / 2 ^ 8 % 256) (v % 256)
          (omega arith) (omega arith) (omega arith) (omega arith))
        (rw (high32_lem v h) (omega arith)))
