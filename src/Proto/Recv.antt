-- ===== src/Proto/Recv.antt =====
-- pkg/proto/recv.go: the RECV packet.
pub mod RoundTrip
use imserver.Prelude.{ℕ, ◌+◌, List, [], length, leb, ◌&&◌, if◌then◌else◌}
use imserver.Proto.Result.{Result}
use imserver.Proto.ByteSize
use imserver.Proto.Types.{
  Text, Framer, RecvPacket, Frame, recv, is_set, setting_stream, setting_topic,
}
use imserver.Proto.Encoder.{
  Encoder, ◌|>◌, when, write_byte, write_uint8, write_int32, write_int64, write_uint32,
  write_string, write_bytes,
}
use imserver.Proto.Decoder.{
  Decode, ◌>>=◌, pure, decode_all, uint8, int32, uint32, int64, string, binary_all,
}

-- What a message of a stream has more than another: its number, sequence number and flag.
abbrev pub Stream : Type 0
Stream = Text × ℕ × ℕ

abbrev pub no_stream : Stream
no_stream = ([], 0, 0)

abbrev stream_fields : Decode Stream
stream_fields = do
  stream_no ← string
  stream_seq ← uint32
  stream_flag ← uint8
  pure (stream_no, stream_seq, stream_flag)

abbrev write_stream : RecvPacket → Encoder → Encoder
write_stream p enc =
    enc |> write_string p.stream_no |> write_uint32 p.stream_seq |> write_uint8 p.stream_flag

abbrev recv_fields : Framer → ℕ → Decode Frame
recv_fields framer version = do
  setting ← uint8
  msg_key ← string
  from_uid ← string
  channel_id ← string
  channel_type ← uint8
  expire ← if leb 3 version then uint32 else pure 0
  client_msg_no ← string
  stream ← if leb 2 version && is_set setting setting_stream then stream_fields else pure no_stream
  message_id ← int64
  message_seq ← uint32
  timestamp ← int32
  topic ← if is_set setting setting_topic then string else pure []
  payload ← binary_all
  pure (
      recv (record {
        framer = framer;
        setting = setting;
        msg_key = msg_key;
        expire = expire;
        message_id = message_id;
        message_seq = message_seq;
        client_msg_no = client_msg_no;
        stream_no = stream.0;
        stream_seq = stream.1;
        stream_flag = stream.2;
        timestamp = timestamp;
        channel_id = channel_id;
        channel_type = channel_type;
        topic = topic;
        from_uid = from_uid;
        payload = payload;
        client_seq = 0;
      }))

unfoldable pub decode_recv : Framer → List ℕ → ℕ → Result Frame
decode_recv framer body version = decode_all (recv_fields framer version) body

unfoldable pub encode_recv : RecvPacket → Encoder → ℕ → Encoder
encode_recv p enc version =
    enc
    |> write_byte p.setting
    |> write_string p.msg_key
    |> write_string p.from_uid
    |> write_string p.channel_id
    |> write_uint8 p.channel_type
    |> when (leb 3 version) (write_uint32 p.expire)
    |> write_string p.client_msg_no
    |> when (leb 2 version && is_set p.setting setting_stream) (write_stream p)
    |> write_int64 p.message_id
    |> write_uint32 p.message_seq
    |> write_int32 p.timestamp
    |> when (is_set p.setting setting_topic) (write_string p.topic)
    |> write_bytes p.payload

unfoldable pub encode_recv_size : RecvPacket → ℕ → ℕ
encode_recv_size p version =
    ByteSize.setting
    + (length p.msg_key + ByteSize.string_fix_len)
    + (length p.from_uid + ByteSize.string_fix_len)
    + (length p.channel_id + ByteSize.string_fix_len)
    + ByteSize.channel_type
    + (if leb 3 version then ByteSize.expire else 0)
    + (length p.client_msg_no + ByteSize.string_fix_len)
    + (if leb 2 version && is_set p.setting setting_stream
        then (length p.stream_no + ByteSize.string_fix_len)
          + ByteSize.stream_seq
          + ByteSize.stream_flag
        else 0)
    + ByteSize.message_id
    + ByteSize.message_seq
    + ByteSize.timestamp
    + (if is_set p.setting setting_topic then (length p.topic + ByteSize.string_fix_len) else 0)
    + length p.payload
