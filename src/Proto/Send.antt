-- ===== src/Proto/Send.antt =====
-- pkg/proto/send.go: the SEND packet.
pub mod RoundTrip
use imserver.Prelude.{ℕ, ◌+◌, ◌%◌, ◌^◌, List, [], length, leb, ◌&&◌, if◌then◌else◌}
use imserver.Proto.Result.{Result}
use imserver.Proto.ByteSize
use imserver.Proto.Types.{Framer, SendPacket, Frame, send, is_set, setting_stream, setting_topic}
use imserver.Proto.Encoder.{
  Encoder, ◌|>◌, when, write_byte, write_uint8, write_uint32, write_string, write_bytes,
}
use imserver.Proto.Decoder.{Decode, ◌>>=◌, pure, decode_all, uint8, uint32, string, binary_all}

abbrev send_fields : Framer → ℕ → Decode Frame
send_fields framer version = do
  setting ← uint8
  client_seq ← uint32
  client_msg_no ← string
  stream_no ← if leb 2 version && is_set setting setting_stream then string else pure []
  channel_id ← string
  channel_type ← uint8
  expire ← if leb 3 version then uint32 else pure 0
  msg_key ← string
  topic ← if is_set setting setting_topic then string else pure []
  payload ← binary_all
  pure (
      send (record {
        framer = framer;
        setting = setting;
        msg_key = msg_key;
        expire = expire;
        client_seq = client_seq;
        client_msg_no = client_msg_no;
        stream_no = stream_no;
        channel_id = channel_id;
        channel_type = channel_type;
        topic = topic;
        payload = payload;
      }))

unfoldable pub decode_send : Framer → List ℕ → ℕ → Result Frame
decode_send framer body version = decode_all (send_fields framer version) body

unfoldable pub encode_send : SendPacket → Encoder → ℕ → Encoder
encode_send p enc version =
    enc
    |> write_byte p.setting
    |> write_uint32 (p.client_seq % 2 ^ 32)
    |> write_string p.client_msg_no
    |> when (leb 2 version && is_set p.setting setting_stream) (write_string p.stream_no)
    |> write_string p.channel_id
    |> write_uint8 p.channel_type
    |> when (leb 3 version) (write_uint32 p.expire)
    |> write_string p.msg_key
    |> when (is_set p.setting setting_topic) (write_string p.topic)
    |> write_bytes p.payload

unfoldable pub encode_send_size : SendPacket → ℕ → ℕ
encode_send_size p version =
    ByteSize.setting
    + ByteSize.client_seq
    + (length p.client_msg_no + ByteSize.string_fix_len)
    + (if leb 2 version && is_set p.setting setting_stream
        then (length p.stream_no + ByteSize.string_fix_len)
        else 0)
    + (length p.channel_id + ByteSize.string_fix_len)
    + ByteSize.channel_type
    + (if leb 3 version then ByteSize.expire else 0)
    + (length p.msg_key + ByteSize.string_fix_len)
    + (if is_set p.setting setting_topic then (length p.topic + ByteSize.string_fix_len) else 0)
    + length p.payload
