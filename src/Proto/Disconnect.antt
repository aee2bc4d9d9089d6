-- ===== src/Proto/Disconnect.antt =====
-- pkg/proto/disconnect.go: the DISCONNECT packet.
pub mod RoundTrip
use imserver.Prelude.{ℕ, ◌+◌, List, length}
use imserver.Proto.Result.{Result}
use imserver.Proto.ByteSize
use imserver.Proto.Types.{Framer, DisconnectPacket, Frame, disconnect}
use imserver.Proto.Encoder.{Encoder, ◌|>◌, write_uint8, write_string}
use imserver.Proto.Decoder.{Decode, ◌>>=◌, pure, decode_all, uint8, string}

abbrev disconnect_fields : Framer → ℕ → Decode Frame
disconnect_fields framer version = do
  reason_code ← uint8
  reason ← string
  pure (disconnect (record { framer = framer; reason_code = reason_code; reason = reason }))

unfoldable pub decode_dis_connect : Framer → List ℕ → ℕ → Result Frame
decode_dis_connect framer body version = decode_all (disconnect_fields framer version) body

unfoldable pub encode_dis_connect : DisconnectPacket → Encoder → ℕ → Encoder
encode_dis_connect p enc version = enc |> write_uint8 p.reason_code |> write_string p.reason

unfoldable pub encode_dis_connect_size : DisconnectPacket → ℕ → ℕ
encode_dis_connect_size p version =
    ByteSize.reason_code + (length p.reason + ByteSize.string_fix_len)
