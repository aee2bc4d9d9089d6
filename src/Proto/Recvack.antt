-- ===== src/Proto/Recvack.antt =====
-- pkg/proto/recvack.go: the RECVACK packet.
pub mod RoundTrip
use imserver.Prelude.{ℕ, ◌+◌, List}
use imserver.Proto.Result.{Result}
use imserver.Proto.ByteSize
use imserver.Proto.Types.{Framer, RecvackPacket, Frame, recvack}
use imserver.Proto.Encoder.{Encoder, ◌|>◌, write_int64, write_uint32}
use imserver.Proto.Decoder.{Decode, ◌>>=◌, pure, decode_all, uint32, int64}

abbrev recvack_fields : Framer → ℕ → Decode Frame
recvack_fields framer version = do
  message_id ← int64
  message_seq ← uint32
  pure (recvack (record { framer = framer; message_id = message_id; message_seq = message_seq }))

unfoldable pub decode_recvack : Framer → List ℕ → ℕ → Result Frame
decode_recvack framer body version = decode_all (recvack_fields framer version) body

unfoldable pub encode_recvack : RecvackPacket → Encoder → ℕ → Encoder
encode_recvack p enc version = enc |> write_int64 p.message_id |> write_uint32 p.message_seq

unfoldable pub encode_recvack_size : RecvackPacket → ℕ → ℕ
encode_recvack_size p version = ByteSize.message_id + ByteSize.message_seq
