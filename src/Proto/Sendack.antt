-- ===== src/Proto/Sendack.antt =====
-- pkg/proto/sendack.go: the SENDACK packet.
pub mod RoundTrip
use imserver.Prelude.{ℕ, ◌+◌, ◌%◌, ◌^◌, List, []}
use imserver.Proto.Result.{Result}
use imserver.Proto.ByteSize
use imserver.Proto.Types.{Framer, SendackPacket, Frame, sendack}
use imserver.Proto.Encoder.{Encoder, ◌|>◌, write_uint8, write_int64, write_uint32}
use imserver.Proto.Decoder.{Decode, ◌>>=◌, pure, decode_all, uint8, uint32, int64}

abbrev sendack_fields : Framer → ℕ → Decode Frame
sendack_fields framer version = do
  message_id ← int64
  client_seq ← uint32
  message_seq ← uint32
  reason_code ← uint8
  pure (
      sendack (record {
        framer = framer;
        message_id = message_id;
        message_seq = message_seq;
        client_seq = client_seq;
        client_msg_no = [];
        reason_code = reason_code;
      }))

unfoldable pub decode_sendack : Framer → List ℕ → ℕ → Result Frame
decode_sendack framer body version = decode_all (sendack_fields framer version) body

unfoldable pub encode_sendack : SendackPacket → Encoder → ℕ → Encoder
encode_sendack p enc version =
    enc
    |> write_int64 p.message_id
    |> write_uint32 (p.client_seq % 2 ^ 32)
    |> write_uint32 p.message_seq
    |> write_uint8 p.reason_code

unfoldable pub encode_sendack_size : SendackPacket → ℕ → ℕ
encode_sendack_size p version =
    ByteSize.message_id + ByteSize.client_seq + ByteSize.message_seq + ByteSize.reason_code
