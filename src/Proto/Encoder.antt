-- ===== src/Proto/Encoder.antt =====
-- pkg/proto/encoder.go. The one field of `Encoder` is its buffer, so an encoder is the bytes that
-- it holds; a write gives the new buffer. The writes of a `bytes.Buffer` return no error.
pub mod Appends
pub mod Variable
use imserver.Prelude.{
  ℕ, zero, suc, Bool, ◌/◌, ◌%◌, List, [], ◌∷◌, ◌++◌, length, ltb, ◌==◌, if◌then◌else◌, bit_and,
  bit_or,
}
use imserver.Prelude.Bytes.{shr, byte}

abbrev pub Encoder : Type 0
Encoder = List ℕ

-- Calls in the order in which Go makes them.
infixl 6 ◌|>◌
abbrev pub ◌|>◌ {ℓ κ} : {A : Type ℓ} {B : Type κ} → A → (A → B) → B
x |> f = f x

-- `if c { f() }`
unfoldable pub when : Bool → (Encoder → Encoder) → Encoder → Encoder
when c f w = if c then f w else w

abbrev pub new_encoder : Encoder
new_encoder = []

pub write_byte : ℕ → Encoder → Encoder
write_byte b w = w ++ (b ∷ [])

pub write_int : ℕ → Encoder → Encoder
unfolding write_byte
write_int i w = write_byte (byte i) w

pub write_uint8 : ℕ → Encoder → Encoder
unfolding write_int
write_uint8 i w = write_int i w

pub write_int16 : ℕ → Encoder → Encoder
write_int16 i w = w ++ (byte (shr i 8) ∷ byte (bit_and i 0xff) ∷ [])

pub write_uint16 : ℕ → Encoder → Encoder
unfolding write_int16
write_uint16 i w = write_int16 i w

pub write_int32 : ℕ → Encoder → Encoder
write_int32 i w =
    w ++ (byte (shr i 24) ∷ byte (shr i 16) ∷ byte (shr i 8) ∷ byte (bit_and i 0xff) ∷ [])

pub write_int64 : ℕ → Encoder → Encoder
write_int64 i w =
    w
    ++ (byte (shr i 56)
        ∷ byte (shr i 48)
        ∷ byte (shr i 40)
        ∷ byte (shr i 32)
        ∷ byte (shr i 24)
        ∷ byte (shr i 16)
        ∷ byte (shr i 8)
        ∷ byte (bit_and i 0xff)
        ∷ [])

pub write_uint64 : ℕ → Encoder → Encoder
unfolding write_int64
write_uint64 i w = write_int64 i w

pub write_uint32 : ℕ → Encoder → Encoder
write_uint32 v w =
    w ++ (byte (shr v 24) ∷ byte (shr v 16) ∷ byte (shr v 8) ∷ byte (bit_and v 0xff) ∷ [])

pub write_bytes : List ℕ → Encoder → Encoder
write_bytes b w = w ++ b

pub write_binary : List ℕ → Encoder → Encoder
unfolding write_int16
write_binary b w = if length b == 0 then write_int16 0 w else (w |> write_int16 (length b)) ++ b

-- A Go string is its bytes.
pub write_string : List ℕ → Encoder → Encoder
unfolding write_binary
write_string str w = write_binary str w

pub write_string_all : List ℕ → Encoder → Encoder
unfolding write_bytes
write_string_all str w = write_bytes str w

-- One round of the loops that write a number in groups of seven bits, lowest group first.
pub variable_digit : ℕ → ℕ
variable_digit v = let digit = v % 0x80 in if ltb 0 (v / 0x80) then bit_or digit 0x80 else digit

-- `for v > 0`. The first argument bounds the rounds: `v` itself is enough, as each round divides.
pub write_variable_loop : ℕ → ℕ → List ℕ → List ℕ
unfolding variable_digit
write_variable_loop zero v b = b
write_variable_loop (suc f) v b =
    let rest = write_variable_loop f (v / 0x80) (b ++ (byte (variable_digit v) ∷ [])) in
    if ltb 0 v then rest else b

pub write_variable : ℕ → Encoder → Encoder
unfolding write_variable_loop
write_variable v w = w ++ write_variable_loop v v []
