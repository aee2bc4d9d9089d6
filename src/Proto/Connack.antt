-- ===== src/Proto/Connack.antt =====
-- pkg/proto/connack.go: the CONNACK packet.
pub mod RoundTrip
use imserver.Prelude.{ℕ, ◌+◌, List, length, if◌then◌else◌}
use imserver.Proto.Result.{Result}
use imserver.Proto.ByteSize
use imserver.Proto.Types.{Framer, ConnackPacket, Frame, connack}
use imserver.Proto.Encoder.{Encoder, ◌|>◌, when, write_byte, write_uint8, write_int64, write_string}
use imserver.Proto.Decoder.{Decode, ◌>>=◌, pure, decode_all, uint8, int64, string}

abbrev connack_fields : Framer → ℕ → Decode Frame
connack_fields framer version = do
  server_version ← if framer.has_server_version then uint8 else pure 0
  time_diff ← int64
  reason_code ← uint8
  server_key ← string
  salt ← string
  pure (
      connack (record {
        framer = framer;
        server_version = server_version;
        server_key = server_key;
        salt = salt;
        time_diff = time_diff;
        reason_code = reason_code;
      }))

unfoldable pub decode_connack : Framer → List ℕ → ℕ → Result Frame
decode_connack framer body version = decode_all (connack_fields framer version) body

unfoldable pub encode_connack : ConnackPacket → Encoder → ℕ → Encoder
encode_connack p enc version =
    enc
    |> when (p.framer.has_server_version) (write_uint8 p.server_version)
    |> write_int64 p.time_diff
    |> write_byte p.reason_code
    |> write_string p.server_key
    |> write_string p.salt

unfoldable pub encode_connack_size : ConnackPacket → ℕ → ℕ
encode_connack_size p version =
    (if p.framer.has_server_version then ByteSize.version else 0)
    + ByteSize.time_diff
    + ByteSize.reason_code
    + (length p.server_key + ByteSize.string_fix_len)
    + (length p.salt + ByteSize.string_fix_len)
