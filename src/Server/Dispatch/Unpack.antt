-- ===== src/Server/Dispatch/Unpack.antt =====
-- `gnetUnpacket` and `decodeLength` of internal/server/dispatch.go: how much of the bytes that
-- have arrived is whole packets.
pub mod Agree
pub mod Whole
use imserver.Prelude.{
  ℕ, zero, suc, ◌+◌, List, [], ◌∷◌, length, drop, take, Option, none, some, ltb, leb, ◌==◌, ◌||◌,
  if◌then◌else◌, bit_and, bit_or,
}
use imserver.Prelude.Bytes.{shl, shr}
use imserver.Proto.FrameType

-- The list is `data[offset:]`. The result is the length and the bytes that it takes; `none` is
-- `has == false`.
unfoldable pub decode_length_loop : List ℕ → ℕ → ℕ → ℕ → Option (ℕ × ℕ)
decode_length_loop [] multiplier offset r_length =
    if ltb multiplier 27 then none else some (r_length, offset)
decode_length_loop (digit ∷ rest) multiplier offset r_length =
    let r_length' = bit_or r_length (shl 32 (bit_and digit 127) multiplier) in
    let next = decode_length_loop rest (multiplier + 7) (offset + 1) r_length' in
    if ltb multiplier 27
    then (if bit_and digit 128 == 0 then some (r_length', offset + 1) else next)
    else some (r_length, offset)

unfoldable pub decode_length : List ℕ → Option (ℕ × ℕ)
unfolding decode_length_loop
decode_length input = decode_length_loop input 0 0 0

-- The first argument bounds the rounds: the bytes behind the offset are enough, as each round
-- takes one at least. The result is the offset at which the loop ends.
unfoldable pub unpack_loop : ℕ → List ℕ → ℕ → ℕ
unpack_loop zero buff offset = offset
unpack_loop (suc f) buff offset = elim (drop offset buff) [
  | [] ↦ offset
  | type_and_flags ∷ behind ↦
      let packet_type = shr type_and_flags 4 in
      let skip = unpack_loop f buff (offset + 1) in
      let packet : ℕ = elim (decode_length behind) [
        | none ↦ offset
        | some (remin_len, read_size) ↦
            let data_end = offset + read_size + remin_len + 1 in
            let next = unpack_loop f buff data_end in
            if leb data_end (length buff) then next else offset
      ] in
      if packet_type == FrameType.ping || packet_type == FrameType.pong then skip else packet
]

-- A nil slice is the empty one.
unfoldable pub gnet_unpacket : List ℕ → List ℕ
unfolding unpack_loop
gnet_unpacket buff = take (unpack_loop (length buff) buff 0) buff
