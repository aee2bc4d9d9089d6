-- ===== src/Proto/Sub.antt =====
-- pkg/proto/sub.go: the SUB packet.
pub mod RoundTrip
use imserver.Prelude.{ℕ, ◌+◌, List, length}
use imserver.Proto.Result.{Result}
use imserver.Proto.ByteSize
use imserver.Proto.Types.{Framer, SubPacket, Frame, sub}
use imserver.Proto.Encoder.{Encoder, ◌|>◌, write_byte, write_uint8, write_string}
use imserver.Proto.Decoder.{Decode, ◌>>=◌, pure, decode_all, uint8, string}

abbrev sub_fields : Framer → ℕ → Decode Frame
sub_fields framer version = do
  setting ← uint8
  sub_no ← string
  channel_id ← string
  channel_type ← uint8
  action ← uint8
  param ← string
  pure (
      sub (record {
        framer = framer;
        setting = setting;
        sub_no = sub_no;
        channel_id = channel_id;
        channel_type = channel_type;
        action = action;
        param = param;
      }))

unfoldable pub decode_sub : Framer → List ℕ → ℕ → Result Frame
decode_sub framer body version = decode_all (sub_fields framer version) body

unfoldable pub encode_sub : SubPacket → Encoder → ℕ → Encoder
encode_sub p enc version =
    enc
    |> write_byte p.setting
    |> write_string p.sub_no
    |> write_string p.channel_id
    |> write_uint8 p.channel_type
    |> write_uint8 p.action
    |> write_string p.param

unfoldable pub encode_sub_size : SubPacket → ℕ → ℕ
encode_sub_size p version =
    ByteSize.setting
    + (length p.sub_no + ByteSize.string_fix_len)
    + (length p.channel_id + ByteSize.string_fix_len)
    + ByteSize.channel_type
    + ByteSize.action
    + (length p.param + ByteSize.string_fix_len)
