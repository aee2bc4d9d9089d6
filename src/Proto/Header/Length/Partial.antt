-- ===== src/Proto/Header/Length/Partial.antt =====
-- `decodeLength` on any bytes: how many it takes, and what it says of a length that is cut off.
use imserver.Prelude.{
  ℕ, zero, suc, ◌+◌, ◌*◌, ◌/◌, ◌%◌, ◌^◌, ◌≤◌, ◌<◌, ◌≡◌, refl, List, [], ◌∷◌, length, take, arith,
  bit_and, bit_or,
}
use imserver.Prelude.Bits.{bit_and_128}
use imserver.Prelude.Bytes.{shl}
use imserver.Proto.Result.{ok, err, decode_length as short}
use imserver.Proto.Header.Length.{length_digit, encode_variable, decode_length_loop, decode_length}
use imserver.Proto.Header.Length.RoundTrip.{groups, length_digit-more, encode_variable_loop-groups}

groups_none : (f n : ℕ) → n < 1 → length (groups f n) ≡ 0
groups_none zero n h = refl
groups_none (suc f) n h = ground arith

groups_one : (f n : ℕ) → n < 128 → length (groups f n) ≤ 1
groups_one zero n h = omega arith
groups_one (suc f) n h = ground (arith, groups_none f (n / 128))

groups_two : (f n : ℕ) → n < 128 ^ 2 → length (groups f n) ≤ 2
groups_two zero n h = omega arith
groups_two (suc f) n h = ground (arith, groups_one f (n / 128))

groups_three : (f n : ℕ) → n < 128 ^ 3 → length (groups f n) ≤ 3
groups_three zero n h = omega arith
groups_three (suc f) n h = ground (arith, groups_two f (n / 128))

groups_four : (f n : ℕ) → n < 2 ^ 28 → length (groups f n) ≤ 4
groups_four zero n h = omega arith
groups_four (suc f) n h = ground (arith, groups_three f (n / 128))

-- A group that another follows has its top bit set.
cut_groups :
    (f n m off r k : ℕ)
    → k < length (groups f n)
    → m + 7 * length (groups f n) ≤ 28
    → decode_length_loop (take k (groups f n)) m off r ≡ err short
unfolding decode_length_loop
cut_groups zero n m off r k h room = absurd (omega arith)
cut_groups (suc f) n m off r zero h room = ground arith
cut_groups (suc f) n m off r (suc k) h room =
    let r' = bit_or r (shl 32 (bit_and (length_digit n) 127) m) in
    ground (
      arith,
      groups_none f (n / 128),
      length_digit-more n,
      bit_and_128 (n % 128 + 128),
      cut_groups f (n / 128) (m + 7) (off + 1) r' k,
    )

-- `encodeVariable` writes at most four bytes for a number below 2^28.
pub length-encode_variable_le : (n : ℕ) → n < 2 ^ 28 → length (encode_variable n) ≤ 4
unfolding encode_variable
length-encode_variable_le n h = rw encode_variable_loop-groups (groups_four n n h)

-- A proper prefix of what `encodeVariable` writes, for a number below 2^28, is an error.
pub decode_length-cut :
    (n k : ℕ)
    → n < 2 ^ 28
    → k < length (encode_variable n)
    → decode_length (take k (encode_variable n)) ≡ err short
unfolding decode_length encode_variable
decode_length-cut n k h =
    rw encode_variable_loop-groups
      (λ lt. cut_groups n n 0 0 0 k lt (omega (arith, groups_four n n h)))

-- The count of bytes that a successful read reports, whatever the bytes.
decode_length_loop-ok :
    (input : List ℕ) (m off r n count : ℕ)
    → decode_length_loop input m off r ≡ ok (n, count)
    → (off + 1 ≤ count) × (count ≤ off + length input + 1)
unfolding decode_length_loop
decode_length_loop-ok [] m off r n count e = ground arith
decode_length_loop-ok (b ∷ input) m off r n count e = ground (
  arith,
  decode_length_loop-ok input (m + 7) (off + 1) (bit_or r (shl 32 (bit_and b 127) m)) n count,
)

-- On success `decodeLength` reports at least one byte.
pub decode_length-ok :
    (input : List ℕ) (n count : ℕ) → decode_length input ≡ ok (n, count) → 1 ≤ count
unfolding decode_length
decode_length-ok input n count e = omega (arith, decode_length_loop-ok input 0 0 0 n count e)
