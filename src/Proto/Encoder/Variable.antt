-- ===== src/Proto/Encoder/Variable.antt =====
-- `WriteVariable` of pkg/proto/encoder.go, in plain arithmetic.
use imserver.Prelude.{
  ℕ, zero, suc, ◌+◌, ◌/◌, ◌%◌, ◌≡◌, refl, sym, List, [], ◌∷◌, ◌++◌, append-nil, append_assoc, ltb,
  ◌==◌, if◌then◌else◌, arith,
}
use imserver.Prelude.Bits.{bit_or_low}
use imserver.Prelude.Bytes.{byte}
use imserver.Proto.Encoder.{Encoder, variable_digit, write_variable_loop, write_variable}

-- Seven bits, and a bit that says that more follow.
abbrev pub group : ℕ → ℕ
group v = if ltb v 128 then v else v % 128 + 128

abbrev pub variable_groups : ℕ → ℕ → List ℕ
variable_groups zero v = []
variable_groups (suc f) v =
    let rest = variable_groups f (v / 128) in if v == 0 then [] else group v ∷ rest

byte-variable_digit : (v : ℕ) → byte (variable_digit v) ≡ group v
unfolding variable_digit
byte-variable_digit v = ground (arith, bit_or_low 7 (v % 128) 1)

write_variable_loop-groups :
    (f v : ℕ) (b : List ℕ) → write_variable_loop f v b ≡ b ++ variable_groups f v
unfolding write_variable_loop
write_variable_loop-groups zero v b = sym (append-nil b)
write_variable_loop-groups (suc f) v b = ground (
  arith,
  byte-variable_digit v,
  write_variable_loop-groups f (v / 128) (b ++ (byte (variable_digit v) ∷ [])),
  append_assoc b (byte (variable_digit v) ∷ []) (variable_groups f (v / 128)),
  append-nil b,
)

pub write_variable-groups :
    (v : ℕ) (enc : Encoder) → write_variable v enc ≡ enc ++ variable_groups v v
unfolding write_variable
write_variable-groups v enc = rw (write_variable_loop-groups v v []) refl
