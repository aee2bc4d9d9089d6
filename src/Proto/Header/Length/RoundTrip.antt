-- ===== src/Proto/Header/Length/RoundTrip.antt =====
-- The remaining length that is written is the one that is read.
use imserver.Prelude.{
  ℕ, zero, suc, ◌+◌, ◌*◌, ◌/◌, ◌%◌, ◌^◌, ◌≤◌, ◌<◌, ◌≡◌, refl, sym, List, [], ◌∷◌, ◌++◌, append-nil,
  append_assoc, length, arith, ◌==◌, if◌then◌else◌,
}
use imserver.Prelude.Bits.{bit_or_low, bit_and_127, bit_and_128}
use imserver.Proto.Result.{ok}
use imserver.Proto.Encoder.{Encoder, write_byte}
use imserver.Proto.Encoder.Appends.{write_byte-append}
use imserver.Proto.Header.Length.{
  length_digit, encode_variable_loop, encode_variable, encode_variable2_loop, encode_variable2,
  decode_length_loop, decode_length,
}

-- The groups of seven bits of `n`, lowest first.
abbrev pub groups : ℕ → ℕ → List ℕ
groups zero n = []
groups (suc f) n = let rest = groups f (n / 128) in if n == 0 then [] else length_digit n ∷ rest

-- Rounds past the number itself add nothing.
pub groups_fuel : (f g n : ℕ) → n ≤ f → n ≤ g → groups f n ≡ groups g n
groups_fuel zero zero n h k = refl
groups_fuel zero (suc g) n h k = ground arith
groups_fuel (suc f) zero n h k = ground arith
groups_fuel (suc f) (suc g) n h k = ground (arith, groups_fuel f g (n / 128))

pub encode_variable_loop-groups :
    (f n : ℕ) (ret : List ℕ) → encode_variable_loop f n ret ≡ ret ++ groups f n
unfolding encode_variable_loop
encode_variable_loop-groups zero n ret = sym (append-nil ret)
encode_variable_loop-groups (suc f) n ret = ground (
  arith,
  encode_variable_loop-groups f (n / 128) (ret ++ (length_digit n ∷ [])),
  append_assoc ret (length_digit n ∷ []) (groups f (n / 128)),
  append-nil ret,
)

encode_variable2_loop-groups :
    (f n : ℕ) (enc : Encoder) → encode_variable2_loop f n enc ≡ enc ++ groups f n
unfolding encode_variable2_loop
encode_variable2_loop-groups zero n enc = sym (append-nil enc)
encode_variable2_loop-groups (suc f) n enc = ground (
  arith,
  write_byte-append enc (length_digit n),
  encode_variable2_loop-groups f (n / 128) (write_byte (length_digit n) enc),
  append_assoc enc (length_digit n ∷ []) (groups f (n / 128)),
  append-nil enc,
)

pub encode_variable2-groups : (n : ℕ) (enc : Encoder) → encode_variable2 n enc ≡ enc ++ groups n n
unfolding encode_variable2
encode_variable2-groups n enc = encode_variable2_loop-groups n n enc

-- `encodeVariable2` appends to the buffer what `encodeVariable` returns.
pub encode_variable2-encode_variable :
    (n : ℕ) (enc : Encoder) → encode_variable2 n enc ≡ enc ++ encode_variable n
unfolding encode_variable
encode_variable2-encode_variable n enc = rw (encode_variable2-groups, encode_variable_loop-groups)

length_digit-last : (n : ℕ) → n < 128 → length_digit n ≡ n
unfolding length_digit
length_digit-last n h = ground arith

pub length_digit-more : (n : ℕ) → 128 ≤ n → length_digit n ≡ n % 128 + 128
unfolding length_digit
length_digit-more n h = ground (arith, bit_or_low 7 (n % 128) 1)

-- One round of the reader, on a last digit and on one that more follow.
module _ (n m off r : ℕ) (rest : List ℕ) (room : r < 2 ^ m) (early : m < 27) where
  read_last :
      n < 128
      → n * 2 ^ m < 2 ^ 32
      → decode_length_loop (length_digit n ∷ rest) m off r ≡ ok (r + n * 2 ^ m, off + 1)
  unfolding decode_length_loop
  read_last h fits =
      ground (arith, length_digit-last n h, bit_and_127 n, bit_and_128 n, bit_or_low m r n)

  read_more :
      128 ≤ n
      → n % 128 * 2 ^ m < 2 ^ 32
      → decode_length_loop (length_digit n ∷ rest) m off r
        ≡ decode_length_loop rest (m + 7) (off + 1) (r + n % 128 * 2 ^ m)
  unfolding decode_length_loop
  read_more h fits = ground (
    arith,
    length_digit-more n h,
    bit_and_127 (n % 128 + 128),
    bit_and_128 (n % 128 + 128),
    bit_or_low m r (n % 128),
  )

groups_zero : (f n : ℕ) → n ≡ 0 → groups f n ≡ []
groups_zero zero n e = refl
groups_zero (suc f) n e = ground arith

-- Four digits at most are read, at the places 0, 7, 14 and 21.
read_21 :
    (f n off r : ℕ) (rest : List ℕ)
    → 0 < n
    → n ≤ f
    → n < 128
    → r < 2 ^ 21
    → decode_length_loop (groups f n ++ rest) 21 off r
      ≡ ok (r + n * 2 ^ 21, off + length (groups f n))
read_21 zero n off r rest p h small room = absurd (omega arith)
read_21 (suc f) n off r rest p h small room =
    ground (arith, groups_zero f (n / 128), read_last n 21 off r (groups f (n / 128) ++ rest))

read_14 :
    (f n off r : ℕ) (rest : List ℕ)
    → 0 < n
    → n ≤ f
    → n < 128 ^ 2
    → r < 2 ^ 14
    → decode_length_loop (groups f n ++ rest) 14 off r
      ≡ ok (r + n * 2 ^ 14, off + length (groups f n))
read_14 zero n off r rest p h small room = absurd (omega arith)
read_14 (suc f) n off r rest p h small room = ground (
  arith,
  groups_zero f (n / 128),
  read_last n 14 off r (groups f (n / 128) ++ rest),
  read_more n 14 off r (groups f (n / 128) ++ rest),
  read_21 f (n / 128) (off + 1) (r + n % 128 * 2 ^ 14) rest,
)

read_7 :
    (f n off r : ℕ) (rest : List ℕ)
    → 0 < n
    → n ≤ f
    → n < 128 ^ 3
    → r < 2 ^ 7
    → decode_length_loop (groups f n ++ rest) 7 off r
      ≡ ok (r + n * 2 ^ 7, off + length (groups f n))
read_7 zero n off r rest p h small room = absurd (omega arith)
read_7 (suc f) n off r rest p h small room = ground (
  arith,
  groups_zero f (n / 128),
  read_last n 7 off r (groups f (n / 128) ++ rest),
  read_more n 7 off r (groups f (n / 128) ++ rest),
  read_14 f (n / 128) (off + 1) (r + n % 128 * 2 ^ 7) rest,
)

read_0 :
    (f n : ℕ) (rest : List ℕ)
    → 0 < n
    → n ≤ f
    → n < 2 ^ 28
    → decode_length_loop (groups f n ++ rest) 0 0 0 ≡ ok (n, length (groups f n))
read_0 zero n rest p h small = absurd (omega arith)
read_0 (suc f) n rest p h small = ground (
  arith,
  groups_zero f (n / 128),
  read_last n 0 0 0 (groups f (n / 128) ++ rest),
  read_more n 0 0 0 (groups f (n / 128) ++ rest),
  read_7 f (n / 128) 1 (n % 128) rest,
)

-- `decodeLength` reads back every length from 1 to 2^28 - 1 that `encodeVariable` wrote, with the
-- number of bytes that it takes, and leaves what follows alone.
pub decode_length-encode_variable :
    (n : ℕ) (rest : List ℕ)
    → 0 < n
    → n < 2 ^ 28
    → decode_length (encode_variable n ++ rest) ≡ ok (n, length (encode_variable n))
unfolding decode_length encode_variable
decode_length-encode_variable n rest p h =
    rw encode_variable_loop-groups (read_0 n n rest p (omega arith) h)
