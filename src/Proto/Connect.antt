-- ===== src/Proto/Connect.antt =====
-- pkg/proto/connect.go: the CONNECT packet.
pub mod RoundTrip
use imserver.Prelude.{ℕ, ◌+◌, List, length}
use imserver.Proto.Result.{Result}
use imserver.Proto.ByteSize
use imserver.Proto.Types.{Framer, ConnectPacket, Frame, connect}
use imserver.Proto.Encoder.{Encoder, ◌|>◌, write_uint8, write_int64, write_string}
use imserver.Proto.Decoder.{Decode, ◌>>=◌, pure, decode_all, uint8, int64, string}

abbrev connect_fields : Framer → ℕ → Decode Frame
connect_fields framer version = do
  version ← uint8
  device_flag ← uint8
  device_id ← string
  uid ← string
  token ← string
  client_timestamp ← int64
  client_key ← string
  pure (
      connect (record {
        framer = framer;
        version = version;
        client_key = client_key;
        device_id = device_id;
        device_flag = device_flag;
        client_timestamp = client_timestamp;
        uid = uid;
        token = token;
      }))

unfoldable pub decode_connect : Framer → List ℕ → ℕ → Result Frame
decode_connect framer body version = decode_all (connect_fields framer version) body

unfoldable pub encode_connect : ConnectPacket → Encoder → ℕ → Encoder
encode_connect p enc version =
    enc
    |> write_uint8 p.version
    |> write_uint8 p.device_flag
    |> write_string p.device_id
    |> write_string p.uid
    |> write_string p.token
    |> write_int64 p.client_timestamp
    |> write_string p.client_key

unfoldable pub encode_connect_size : ConnectPacket → ℕ → ℕ
encode_connect_size p version =
    ByteSize.version
    + ByteSize.device_flag
    + (length p.device_id + ByteSize.string_fix_len)
    + (length p.uid + ByteSize.string_fix_len)
    + (length p.token + ByteSize.string_fix_len)
    + ByteSize.client_timestamp
    + (length p.client_key + ByteSize.string_fix_len)
