-- ===== src/Proto/Codec.antt =====
-- pkg/proto/protocol.go: `EncodeFrame` and `DecodeFrame`.
pub mod Whole
pub mod Wire
pub mod RoundTrip
pub mod Shape
pub mod Partial
pub mod Bounds
pub mod Crash
pub mod Sizes
use imserver.Prelude.{
  ℕ, ◌+◌, ◌-◌, ◌*◌, ◌%◌, ◌^◌, List, [], ◌∷◌, length, take, drop, Option, none, some, ltb, ◌==◌,
  ◌||◌, if◌then◌else◌,
}
use imserver.Prelude.Bytes.{shl, byte}
use imserver.Proto.Result.{
  Result, ok, err, panic, too_long, unsupported, decode_length as short, ◌>>=◌,
}
use imserver.Proto.FrameType
use imserver.Proto.Types.{
  Framer, zero_framer, Frame, connect, connack, send, sendack, recv, recvack, ping, pong,
  disconnect, sub, suback,
}
use imserver.Proto.Encoder.{Encoder, new_encoder, ◌|>◌, write_byte}
use imserver.Proto.Header.Flags.{to_fix_header_uint8, framer_from_uint8}
use imserver.Proto.Header.Length.{encode_variable2, decode_length}
use imserver.Proto.Connect.{decode_connect, encode_connect, encode_connect_size}
use imserver.Proto.Connack.{decode_connack, encode_connack, encode_connack_size}
use imserver.Proto.Send.{decode_send, encode_send, encode_send_size}
use imserver.Proto.Sendack.{decode_sendack, encode_sendack, encode_sendack_size}
use imserver.Proto.Recv.{decode_recv, encode_recv, encode_recv_size}
use imserver.Proto.Recvack.{decode_recvack, encode_recvack, encode_recvack_size}
use imserver.Proto.Disconnect.{decode_dis_connect, encode_dis_connect, encode_dis_connect_size}
use imserver.Proto.Sub.{decode_sub, encode_sub, encode_sub_size}
use imserver.Proto.Suback.{decode_suback, encode_suback, encode_suback_size}

abbrev pub latest_version : ℕ
latest_version = 3

abbrev pub max_remaing_length : ℕ
max_remaing_length = 1024 * 1024

abbrev pub PacketDecodeFunc : Type 0
PacketDecodeFunc = Framer → List ℕ → ℕ → Result Frame

-- `packetDecodeMap`; `none` for a type that is no key of it.
unfoldable pub packet_decode_map : ℕ → Option PacketDecodeFunc
packet_decode_map t =
    if t == FrameType.connect
    then some decode_connect
    else if t == FrameType.connack
    then some decode_connack
    else if t == FrameType.send
    then some decode_send
    else if t == FrameType.sendack
    then some decode_sendack
    else if t == FrameType.recv
    then some decode_recv
    else if t == FrameType.recvack
    then some decode_recvack
    else if t == FrameType.disconnect
    then some decode_dis_connect
    else if t == FrameType.sub
    then some decode_sub
    else if t == FrameType.suback
    then some decode_suback
    else none

-- The result is the header and the number of bytes of its length. The read of `data[0]` panics on
-- no data. A length that is not complete gives the zero header and no error.
unfoldable pub decode_framer : List ℕ → Result (Framer × ℕ)
decode_framer [] = panic
decode_framer (type_and_flags ∷ rest) =
    let p = framer_from_uint8 type_and_flags in
    let size = length (type_and_flags ∷ rest) in
    if p.frame_type == FrameType.ping || p.frame_type == FrameType.pong
    then ok (record p { frame_size = size }, 0)
    else elim (decode_length rest) [
      | ok (remaining, count) ↦
          ok (record p { remaining_length = remaining; frame_size = size }, count)
      | err short ↦ ok (zero_framer, 0)
      | err e ↦ err e
      | panic ↦ panic
    ]

-- `DecodeFrame` behind the header; `none` is a nil frame with no error: more bytes are wanted.
unfoldable pub decode_rest : List ℕ → ℕ → Framer → ℕ → Result (Option (Frame × ℕ))
decode_rest data' version framer count =
    let t = framer.frame_type in
    let msg_len = framer.remaining_length + 1 + count in
    if t == FrameType.unknown
    then ok none
    else if t == FrameType.ping
    then ok (some (ping framer, 1))
    else if t == FrameType.pong
    then ok (some (pong framer, 1))
    else if ltb max_remaing_length framer.remaining_length
    then err too_long
    else if ltb (length data') msg_len
    then ok none
    else elim (packet_decode_map t) [
      | none ↦ err unsupported
      | some decode_func ↦ do
        frame ← decode_func framer (take (msg_len - (1 + count)) (drop (1 + count) data')) version
        ok (some (frame, 1 + count + framer.remaining_length))
    ]

unfoldable pub decode_frame : List ℕ → ℕ → Result (Option (Frame × ℕ))
decode_frame data' version = elim (decode_framer data') [
  | ok (framer, count) ↦ decode_rest data' version framer count
  | err e ↦ ok none
  | panic ↦ panic
]

-- `encodeFrame`, the fixed header.
unfoldable pub encode_header : Frame → ℕ → Encoder → Encoder
encode_header f remaining enc =
    enc |> write_byte (to_fix_header_uint8 f) |> encode_variable2 remaining

-- `EncodeFrame`; no encoder of a packet returns an error.
unfoldable pub encode_frame : Frame → ℕ → Result (List ℕ)
encode_frame (ping f) version = ok (byte (shl 64 FrameType.ping 4) ∷ [])
encode_frame (pong f) version = ok (byte (shl 64 FrameType.pong 4) ∷ [])
encode_frame (connect p) version =
    let enc = new_encoder |> encode_header (connect p) (encode_connect_size p version % 2 ^ 32) in
    ok (encode_connect p enc version)
encode_frame (connack p) version =
    let enc = new_encoder |> encode_header (connack p) (encode_connack_size p version % 2 ^ 32) in
    ok (encode_connack p enc version)
encode_frame (send p) version =
    let enc = new_encoder |> encode_header (send p) (encode_send_size p version % 2 ^ 32) in
    ok (encode_send p enc version)
encode_frame (sendack p) version =
    let enc = new_encoder |> encode_header (sendack p) (encode_sendack_size p version % 2 ^ 32) in
    ok (encode_sendack p enc version)
encode_frame (recv p) version =
    let enc = new_encoder |> encode_header (recv p) (encode_recv_size p version % 2 ^ 32) in
    ok (encode_recv p enc version)
encode_frame (recvack p) version =
    let enc = new_encoder |> encode_header (recvack p) (encode_recvack_size p version % 2 ^ 32) in
    ok (encode_recvack p enc version)
encode_frame (disconnect p) version =
    let enc =
      new_encoder |> encode_header (disconnect p) (encode_dis_connect_size p version % 2 ^ 32) in
    ok (encode_dis_connect p enc version)
encode_frame (sub p) version =
    let enc = new_encoder |> encode_header (sub p) (encode_sub_size p version % 2 ^ 32) in
    ok (encode_sub p enc version)
encode_frame (suback p) version =
    let enc = new_encoder |> encode_header (suback p) (encode_suback_size p version % 2 ^ 32) in
    ok (encode_suback p enc version)
