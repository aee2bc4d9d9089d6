-- ===== src/Proto/Header/Length.antt =====
-- The remaining length of pkg/proto/protocol.go: seven bits a byte, lowest group first.
pub mod RoundTrip
pub mod Partial
use imserver.Prelude.{
  ℕ, zero, suc, ◌+◌, ◌/◌, ◌%◌, List, [], ◌∷◌, ◌++◌, ltb, ◌==◌, if◌then◌else◌, bit_and, bit_or,
}
use imserver.Prelude.Bytes.{shl, byte}
use imserver.Proto.Result.{Result, ok, err, decode_length as decode_length_error}
use imserver.Proto.Encoder.{Encoder, write_byte}

-- One digit, with the top bit set if more follow.
unfoldable pub length_digit : ℕ → ℕ
length_digit size =
    let digit = byte (size % 0x80) in if ltb 0 (size / 0x80) then bit_or digit 0x80 else digit

-- `for size > 0`. The first argument bounds the rounds: `size` itself is enough, as each divides.
unfoldable pub encode_variable_loop : ℕ → ℕ → List ℕ → List ℕ
unfolding length_digit
encode_variable_loop zero size ret = ret
encode_variable_loop (suc f) size ret =
    let rest = encode_variable_loop f (size / 0x80) (ret ++ (length_digit size ∷ [])) in
    if ltb 0 size then rest else ret

unfoldable pub encode_variable : ℕ → List ℕ
unfolding encode_variable_loop
encode_variable size = encode_variable_loop size size []

unfoldable pub encode_variable2_loop : ℕ → ℕ → Encoder → Encoder
unfolding length_digit
encode_variable2_loop zero size enc = enc
encode_variable2_loop (suc f) size enc =
    let rest = encode_variable2_loop f (size / 0x80) (write_byte (length_digit size) enc) in
    if ltb 0 size then rest else enc

unfoldable pub encode_variable2 : ℕ → Encoder → Encoder
unfolding encode_variable2_loop
encode_variable2 size enc = encode_variable2_loop size size enc

-- The list is `data[offset:]`, so `offset >= len(data)` is its being empty. The result is the
-- length and the number of bytes that it took.
unfoldable pub decode_length_loop : List ℕ → ℕ → ℕ → ℕ → Result (ℕ × ℕ)
decode_length_loop [] multiplier offset r_length =
    if ltb multiplier 27 then err decode_length_error else ok (r_length, offset + 1)
decode_length_loop (digit ∷ rest) multiplier offset r_length =
    let r_length' = bit_or r_length (shl 32 (bit_and digit 127) multiplier) in
    let next = decode_length_loop rest (multiplier + 7) (offset + 1) r_length' in
    if ltb multiplier 27
    then (if bit_and digit 128 == 0 then ok (r_length', offset + 1) else next)
    else ok (r_length, offset + 1)

unfoldable pub decode_length : List ℕ → Result (ℕ × ℕ)
unfolding decode_length_loop
decode_length data' = decode_length_loop data' 0 0 0
