-- ===== src/Server/Dispatch/Unpack/Agree.antt =====
-- The two functions named `decodeLength`, of internal/server/dispatch.go and pkg/proto/protocol.go.
use imserver.Prelude.{
  ℕ, ◌+◌, ◌*◌, ◌≤◌, ◌<◌, ◌^◌, ◌%◌, ◌≡◌, refl, List, [], ◌∷◌, ◌++◌, length, Option, none, some, min,
  arith, bit_and, bit_or,
}
use imserver.Prelude.Bits.{bit_and_127, bit_and_128, bit_or_low}
use imserver.Prelude.Bytes.{shl}
use imserver.Proto.Result.{Result, ok, err, panic}
use imserver.Proto.Header.Length
use imserver.Proto.Header.Length.{encode_variable}
use imserver.Proto.Header.Length.RoundTrip.{decode_length-encode_variable}
use imserver.Proto.Header.Length.Partial.{length-encode_variable_le}
use imserver.Server.Dispatch.Unpack.{decode_length_loop, decode_length}

-- What the server makes of the other's result: four bytes are counted at most.
abbrev pub at_most_four : Result (ℕ × ℕ) → Option (ℕ × ℕ)
at_most_four (ok (n, count)) = some (n, min count 4)
at_most_four (err e) = none
at_most_four panic = none

loops_agree :
    (input : List ℕ) (m off r : ℕ)
    → m ≡ 7 * off
    → off ≤ 4
    → decode_length_loop input m off r ≡ at_most_four (Length.decode_length_loop input m off r)
unfolding decode_length_loop Length.decode_length_loop
loops_agree [] m off r e h = ground arith
loops_agree (b ∷ input) m off r e h =
    ground (arith, loops_agree input (m + 7) (off + 1) (bit_or r (shl 32 (bit_and b 127) m)))

-- On all bytes the two agree on whether a length is there and on its value. They agree on the
-- bytes that it takes up to four, and where the protocol's counts five the server's counts four.
pub decode_length-agree :
    (input : List ℕ) → decode_length input ≡ at_most_four (Length.decode_length input)
unfolding decode_length Length.decode_length
decode_length-agree input = loops_agree input 0 0 0 refl (omega arith)

loop_end : (rest : List ℕ) (off r : ℕ) → Length.decode_length_loop rest 28 off r ≡ ok (r, off + 1)
unfolding Length.decode_length_loop
loop_end [] off r = refl
loop_end (b ∷ rest) off r = refl

-- A byte with the top bit set has more behind it.
more_behind :
    (b : ℕ) (rest : List ℕ) (m off r : ℕ)
    → (128 ≤ b) × (b < 256)
    → m < 27
    → r < 2 ^ m
    → b % 128 * 2 ^ m < 2 ^ 32
    → Length.decode_length_loop (b ∷ rest) m off r
      ≡ Length.decode_length_loop rest (m + 7) (off + 1) (r + b % 128 * 2 ^ m)
unfolding Length.decode_length_loop
more_behind b rest m off r hb early room fits =
    ground (arith, bit_and_127 b, bit_and_128 b, bit_or_low m r (b % 128))

protocol_five :
    (a b c d : ℕ) (rest : List ℕ)
    → (128 ≤ a) × (a < 256)
    → (128 ≤ b) × (b < 256)
    → (128 ≤ c) × (c < 256)
    → (128 ≤ d) × (d < 256)
    → Length.decode_length (a ∷ b ∷ c ∷ d ∷ rest)
      ≡ ok (a % 128 + b % 128 * 2 ^ 7 + c % 128 * 2 ^ 14 + d % 128 * 2 ^ 21, 5)
unfolding Length.decode_length
protocol_five a b c d rest ha hb hc hd =
    let r1 : ℕ = a % 128 in
    let r2 : ℕ = a % 128 + b % 128 * 2 ^ 7 in
    let r3 : ℕ = r2 + c % 128 * 2 ^ 14 in
    let r4 : ℕ = r3 + d % 128 * 2 ^ 21 in
    ground (
      arith,
      more_behind a (b ∷ c ∷ d ∷ rest) 0 0 0 ha,
      more_behind b (c ∷ d ∷ rest) 7 1 r1 hb,
      more_behind c (d ∷ rest) 14 2 r2 hc,
      more_behind d rest 21 3 r3 hd,
      loop_end rest 4 r4,
    )

-- Four bytes with the top bit set make the protocol's function count a fifth byte, which it has
-- not read; the server's counts the four.
pub decode_length-five :
    (a b c d : ℕ) (rest : List ℕ)
    → (128 ≤ a) × (a < 256)
    → (128 ≤ b) × (b < 256)
    → (128 ≤ c) × (c < 256)
    → (128 ≤ d) × (d < 256)
    → let n : ℕ = a % 128 + b % 128 * 2 ^ 7 + c % 128 * 2 ^ 14 + d % 128 * 2 ^ 21 in
      (Length.decode_length (a ∷ b ∷ c ∷ d ∷ rest) ≡ ok (n, 5))
      × (decode_length (a ∷ b ∷ c ∷ d ∷ rest) ≡ some (n, 4))
decode_length-five a b c d rest ha hb hc hd =
    let five = protocol_five a b c d rest ha hb hc hd in
    (five, ground (arith, decode_length-agree (a ∷ b ∷ c ∷ d ∷ rest), five))

-- The server's `decodeLength` reads back every length from 1 to 2^28 - 1 that the protocol's
-- `encodeVariable` wrote, with the number of bytes that it takes.
pub decode_length-encode_variable_server :
    (n : ℕ) (rest : List ℕ)
    → 0 < n
    → n < 2 ^ 28
    → decode_length (encode_variable n ++ rest) ≡ some (n, length (encode_variable n))
decode_length-encode_variable_server n rest p h = ground (
  arith,
  decode_length-agree (encode_variable n ++ rest),
  decode_length-encode_variable n rest p h,
  length-encode_variable_le n h,
)
