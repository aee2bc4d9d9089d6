-- ===== src/Proto/Decoder/Variable.antt =====
-- `Variable` of pkg/proto/decoder.go reads what `WriteVariable` of pkg/proto/encoder.go wrote.
use imserver.Prelude.{
  ℕ, zero, suc, ◌+◌, ◌-◌, ◌/◌, ◌%◌, ◌*◌, ◌^◌, ◌≤◌, ◌<◌, ◌≡◌, refl, sym, ap, ◌∙◌, List, [], ◌∷◌,
  ◌++◌, length, length-append, drop, ltb, bit_and, arith, inl, inr, Bool-cases, length-drop,
}
use imserver.Prelude.Bits.{bit_and_127, bit_and_128}
use imserver.Proto.Result.{ok}
use imserver.Proto.Encoder.{write_variable, new_encoder}
use imserver.Proto.Encoder.Variable.{variable_groups, write_variable-groups}
use imserver.Proto.Decoder.{Decoder, new_decoder, variable_loop, variable, len}
use imserver.Proto.Decoder.Reads.{Reads, uint8-byte, bind-Reads, pure-Reads}

groups_zero : (k : ℕ) → variable_groups k 0 ≡ []
groups_zero zero = refl
groups_zero (suc k) = refl

split_product : (v mul : ℕ) → v * mul ≡ v % 128 * mul + v / 128 * (mul * 128)
split_product v mul =
    let e : v ≡ v % 128 + 128 * (v / 128) = omega arith in
    ap (λ (t : ℕ). t * mul) e ∙ distribute (v % 128) (v / 128)
  where
    distribute : (low high : ℕ) → (low + 128 * high) * mul ≡ low * mul + high * (mul * 128)
    distribute low high = grind arith

le_product : (w x : ℕ) → 0 < w → x ≤ w * x
le_product w x h = grind arith

loop-Reads :
    (f k v size mul : ℕ) (rest : List ℕ)
    → 0 < v
    → v ≤ k
    → length (variable_groups k v) ≤ f
    → size + v * mul < 2 ^ 64
    → Reads (variable_loop f size mul) (variable_groups k v ++ rest) (size + v * mul) rest
unfolding variable_loop
loop-Reads f zero v size mul rest p h room fits = absurd (omega arith)
loop-Reads zero (suc k) v size mul rest p h room fits = absurd (ground arith)
loop-Reads (suc f) (suc k) v size mul rest p h room fits = elim (Bool-cases (ltb v 128)) [
  | inl last ↦
      let e : variable_groups (suc k) v ++ rest ≡ v ∷ rest = ground (arith, groups_zero k) in
      let high : bit_and v 128 ≡ 0 = ground (arith, bit_and_128 v) in
      let low : bit_and v 127 ≡ v = ground (arith, bit_and_127 v) in
      let whole : (size + v * mul) % 2 ^ 64 ≡ size + v * mul = omega arith in
      rw e (bind-Reads _ (uint8-byte _ v) (rw (high, low, whole) (pure-Reads _ rest)))
  | inr more ↦
      let w : ℕ = v / 128 in
      let b : ℕ = v % 128 + 128 in
      let e : variable_groups (suc k) v ++ rest ≡ b ∷ (variable_groups k w ++ rest) =
        ground arith in
      let high : bit_and b 128 ≡ 128 = omega (arith, bit_and_128 b) in
      let low : bit_and b 127 ≡ v % 128 = omega (arith, bit_and_127 b) in
      let pos_w : 0 < w = ground arith in
      let split = split_product v mul in
      let bound = le_product w (mul * 128) pos_w in
      let size' : (size + v % 128 * mul) % 2 ^ 64 ≡ size + v % 128 * mul =
        omega (arith, split, bound) in
      let mul' : mul * 128 % 2 ^ 64 ≡ mul * 128 = omega (arith, split, bound) in
      let total : size + v * mul ≡ size + v % 128 * mul + w * (mul * 128) = omega (arith, split) in
      let read =
        loop-Reads f k w (size + v % 128 * mul) (mul * 128) rest pos_w (omega arith) (ground arith)
          (omega (arith, split, fits)) in
      rw (e, total) (bind-Reads _ (uint8-byte _ b) (rw (high, low, size', mul') read))
]

variable-Reads :
    (v : ℕ) (rest : List ℕ)
    → 0 < v
    → v < 2 ^ 64
    → Reads variable (variable_groups v v ++ rest) v rest
unfolding variable len
variable-Reads v rest p h = record {
  runs = λ d a.
      let one : 0 + v * 1 ≡ v = omega arith in
      let sized : length (variable_groups v v) ≤ length d.p - d.offset = omega (
        arith,
        length-drop d.offset d.p,
        ap (length {0}) a.left,
        length-append (variable_groups v v) rest,
      ) in
      rw (sym one) (
        (loop-Reads (length d.p - d.offset) v v 0 1 rest p (omega arith) sized (omega arith)).runs d
          a);
}

-- `Variable` reads back every number from 1 to 2^64 - 1 that `WriteVariable` wrote into an empty
-- buffer, whatever bytes follow, and leaves exactly these.
pub variable-write_variable :
    (v : ℕ) (rest : List ℕ)
    → 0 < v
    → v < 2 ^ 64
    → (d : Decoder) × (variable (new_decoder (write_variable v new_encoder ++ rest)) ≡ ok (v, d))
      × (drop d.offset d.p ≡ rest)
variable-write_variable v rest p h = rw (write_variable-groups v []) (
    let r =
      (variable-Reads v rest p h).runs (new_decoder (variable_groups v v ++ rest))
        (record { inside = omega arith; left = refl }) in
    (r.0, r.1, r.2.left))
