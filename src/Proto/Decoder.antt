-- ===== src/Proto/Decoder.antt =====
-- pkg/proto/decoder.go. A method takes the decoder and gives back its result and the new decoder.
pub mod Reads
pub mod Crash
pub mod Variable
use imserver.Prelude.{
  ℕ, zero, suc, ◌+◌, ◌-◌, ◌*◌, ◌%◌, ◌^◌, List, length, get_or, take, drop, ltb, leb, ◌==◌, ◌&&◌,
  if◌then◌else◌, bit_and, bit_or,
}
use imserver.Prelude.Int.{ℤ, pos, negsuc, pos_part, ◌+ℤ◌, ltb_ℤ}
use imserver.Prelude.Bytes.{shl}
use imserver.Proto.Result
use imserver.Proto.Result.{Result, ok, err, panic, short_read}

pub record Decoder : Type 0 where
  pub p : List ℕ
  pub offset : ℕ

abbrev pub new_decoder : List ℕ → Decoder
new_decoder p = record { p = p; offset = 0 }

abbrev pub Decode : Type 0 → Type 0
Decode A = Decoder → Result (A × Decoder)

infixl 5 ◌>>=◌
unfoldable pub ◌>>=◌ : {A B : Type 0} → Decode A → (A → Decode B) → Decode B
◌>>=◌ m f d = elim (m d) [ ok (a, d') ↦ f a d' | err e ↦ err e | panic ↦ panic ]

unfoldable pub pure : {A : Type 0} → A → Decode A
pure a d = ok (a, d)

-- A function that makes a decoder for `data` and drops it at the end.
unfoldable pub decode_all : {A : Type 0} → Decode A → List ℕ → Result A
decode_all m data' = elim (m (new_decoder data')) [
  | ok (a, d) ↦ ok a
  | err e ↦ err e
  | panic ↦ panic
]

-- `p[lo:hi]`, with the run-time check of its bounds.
pub slice : List ℕ → ℕ → ℤ → Result (List ℕ)
slice p lo (negsuc n) = panic
slice p lo (pos hi) =
    if leb lo hi && leb hi (length p) then ok (take (hi - lo) (drop lo p)) else panic

-- `Len`; the offset never passes the end.
pub len : Decoder → ℕ
len d = length d.p - d.offset

-- The `num` bytes from the offset, for a `num` that is in range.
abbrev window : Decoder → ℕ → List ℕ
window d num = take num (drop d.offset d.p)

abbrev advance : Decoder → ℕ → Decoder
advance d num = record d { offset = d.offset + num }

pub uint8 : Decode ℕ
uint8 d =
    if ltb (length d.p) (d.offset + 1)
    then err short_read
    else ok (get_or d.p d.offset 0, advance d 1)

-- The result is the bit pattern of an `int16`.
pub int16 : Decode ℕ
int16 d =
    let b = window d 2 in
    if ltb (length d.p) (d.offset + 2)
    then err short_read
    else ok (bit_or (shl 16 (get_or b 0 0) 8) (get_or b 1 0), advance d 2)

pub uint16 : Decode ℕ
unfolding int16
uint16 = int16

pub int32 : Decode ℕ
int32 d =
    let b = window d 4 in
    if ltb (length d.p) (d.offset + 4)
    then err short_read
    else ok (
      bit_or
          (bit_or (bit_or (shl 32 (get_or b 0 0) 24) (shl 32 (get_or b 1 0) 16))
            (shl 32 (get_or b 2 0) 8))
          (get_or b 3 0),
      advance d 4,
    )

pub uint32 : Decode ℕ
unfolding int32
uint32 = int32

pub int64 : Decode ℕ
int64 d =
    let b = window d 8 in
    let at = λ (i : ℕ) (k : ℕ). shl 64 (get_or b i 0) k in
    if ltb (length d.p) (d.offset + 8)
    then err short_read
    else ok (
      bit_or
          (bit_or
            (bit_or
              (bit_or (bit_or (bit_or (bit_or (at 0 56) (at 1 48)) (at 2 40)) (at 3 32)) (at 4 24))
              (at 5 16))
            (at 6 8))
          (get_or b 7 0),
      advance d 8,
    )

pub uint64 : Decode ℕ
unfolding int64
uint64 = int64

-- `int(size)` of the `int16` with this bit pattern.
pub int_of_int16 : ℕ → ℤ
int_of_int16 v = if ltb v 0x8000 then pos v else negsuc (0xffff - v)

pub bytes : ℤ → Decode (List ℕ)
unfolding slice
bytes num d =
    let hi = pos d.offset +ℤ num in
    if ltb_ℤ (pos (length d.p)) hi
    then err short_read
    else Result.◌>>=◌ (slice d.p d.offset hi) (λ b. ok (b, record d { offset = pos_part hi }))

-- The second half of `Binary` is the text of `Bytes` at `int(size)`.
pub binary : Decode (List ℕ)
unfolding int16 bytes int_of_int16 ◌>>=◌
binary = do size ← int16; bytes (int_of_int16 size)

pub string : Decode (List ℕ)
unfolding binary
string = binary

pub binary_all : Decode (List ℕ)
unfolding len
binary_all d = ok (drop d.offset d.p, record d { offset = d.offset + len d })

pub string_all : Decode (List ℕ)
unfolding binary_all
string_all = binary_all

-- Each round takes a byte, so `Len()` rounds are enough: after them `Uint8` reports the end.
pub variable_loop : ℕ → ℕ → ℕ → Decode ℕ
unfolding uint8 ◌>>=◌ pure
variable_loop zero size mul = λ d. err short_read
variable_loop (suc f) size mul = do
  i ← uint8
  let size' = (size + bit_and i 0x7f * mul) % 2 ^ 64
  let rest = variable_loop f size' (mul * 0x80 % 2 ^ 64)
  if bit_and i 0x80 == 0 then pure size' else rest

pub variable : Decode ℕ
unfolding variable_loop len
variable d = variable_loop (len d) 0 1 d
