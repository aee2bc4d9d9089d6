-- ===== src/Proto/Encoder/Appends.antt =====
-- Every write appends; what it appends, in plain arithmetic.
use imserver.Prelude.{
  ℕ, Bool, true, false, if◌then◌else◌, sym, append-nil, ◌+◌, ◌/◌, ◌%◌, ◌^◌, ◌≡◌, refl, List, [],
  ◌∷◌, ◌++◌, append_assoc, length, length-append, arith,
}
use imserver.Prelude.Bits.{bit_and_255}
use imserver.Proto.Encoder.{
  Encoder, when, write_byte, write_uint8, write_int16, write_int32, write_int64, write_uint32,
  write_bytes, write_string,
}

-- A word as its bytes, the highest first.
unfoldable pub be8 : ℕ → List ℕ
be8 v = v % 256 ∷ []

unfoldable pub be16 : ℕ → List ℕ
be16 v = v / 2 ^ 8 % 256 ∷ v % 256 ∷ []

unfoldable pub be32 : ℕ → List ℕ
be32 v = v / 2 ^ 24 % 256 ∷ v / 2 ^ 16 % 256 ∷ v / 2 ^ 8 % 256 ∷ v % 256 ∷ []

unfoldable pub be64 : ℕ → List ℕ
be64 v =
    v / 2 ^ 56 % 256
    ∷ v / 2 ^ 48 % 256
    ∷ v / 2 ^ 40 % 256
    ∷ v / 2 ^ 32 % 256
    ∷ v / 2 ^ 24 % 256
    ∷ v / 2 ^ 16 % 256
    ∷ v / 2 ^ 8 % 256
    ∷ v % 256
    ∷ []

-- A string behind its length.
unfoldable pub text : List ℕ → List ℕ
unfolding be16
text s = be16 (length s) ++ s

pub length-be8 : (v : ℕ) → length (be8 v) ≡ 1
unfolding be8
length-be8 v = refl

pub length-be32 : (v : ℕ) → length (be32 v) ≡ 4
unfolding be32
length-be32 v = refl

pub length-be64 : (v : ℕ) → length (be64 v) ≡ 8
unfolding be64
length-be64 v = refl

pub length-text : (s : List ℕ) → length (text s) ≡ length s + 2
unfolding text
length-text s = omega arith

pub length-if :
    (c : Bool) (part : List ℕ) → length (if c then part else []) ≡ (if c then length part else 0)
length-if true part = refl
length-if false part = refl

pub ruleset lengths = (length-append, length-if, length-be8, length-be32, length-be64, length-text)

module _ (w : Encoder) where
  pub write_byte-append : (b : ℕ) → write_byte b w ≡ w ++ (b ∷ [])
  unfolding write_byte
  write_byte-append b = refl

  pub write_uint8-append : (i : ℕ) → write_uint8 i w ≡ w ++ be8 i
  unfolding write_uint8 be8
  write_uint8-append i = refl

  write_int16-append : (i : ℕ) → write_int16 i w ≡ w ++ be16 i
  unfolding write_int16 be16
  write_int16-append i = ground (arith, bit_and_255 i)

  pub write_int32-append : (i : ℕ) → write_int32 i w ≡ w ++ be32 i
  unfolding write_int32 be32
  write_int32-append i = ground (arith, bit_and_255 i)

  pub write_uint32-append : (i : ℕ) → write_uint32 i w ≡ w ++ be32 i
  unfolding write_uint32 be32
  write_uint32-append i = ground (arith, bit_and_255 i)

  pub write_int64-append : (i : ℕ) → write_int64 i w ≡ w ++ be64 i
  unfolding write_int64 be64
  write_int64-append i = ground (arith, bit_and_255 i)

  pub write_bytes-append : (b : List ℕ) → write_bytes b w ≡ w ++ b
  unfolding write_bytes
  write_bytes-append b = refl

-- `WriteBinary` writes the length modulo 2^16, and then all the bytes.
pub write_string-append : (w : Encoder) (s : List ℕ) → write_string s w ≡ w ++ text s
unfolding write_string text
write_string-append w [] = write_int16-append w 0
write_string-append w (x ∷ xs) = ground (
  arith,
  write_int16-append w (length (x ∷ xs)),
  append_assoc w (be16 (length (x ∷ xs))) (x ∷ xs),
)

-- Under a test, the same or nothing.
pub when-append :
    (c : Bool) (w : Encoder) (f : Encoder → Encoder) (part : List ℕ)
    → f w ≡ w ++ part
    → when c f w ≡ w ++ (if c then part else [])
unfolding when
when-append true w f part h = h
when-append false w f part h = sym (append-nil w)

module _ (c : Bool) (w : Encoder) where
  pub when_uint8-append : (v : ℕ) → when c (write_uint8 v) w ≡ w ++ (if c then be8 v else [])
  when_uint8-append v = when-append c w (write_uint8 v) (be8 v) (write_uint8-append w v)

  pub when_uint32-append : (v : ℕ) → when c (write_uint32 v) w ≡ w ++ (if c then be32 v else [])
  when_uint32-append v = when-append c w (write_uint32 v) (be32 v) (write_uint32-append w v)

  pub when_string-append :
      (s : List ℕ) → when c (write_string s) w ≡ w ++ (if c then text s else [])
  when_string-append s = when-append c w (write_string s) (text s) (write_string-append w s)

pub ruleset appends = (
  write_byte-append, write_uint8-append, write_int32-append, write_uint32-append,
  write_int64-append, write_bytes-append, write_string-append, when_uint8-append,
  when_uint32-append, when_string-append,
)
