-- ===== src/Proto/Suback.antt =====
-- pkg/proto/suback.go: the SUBACK packet.
pub mod RoundTrip
use imserver.Prelude.{ℕ, ◌+◌, List, length}
use imserver.Proto.Result.{Result}
use imserver.Proto.ByteSize
use imserver.Proto.Types.{Framer, SubackPacket, Frame, suback}
use imserver.Proto.Encoder.{Encoder, ◌|>◌, write_uint8, write_string}
use imserver.Proto.Decoder.{Decode, ◌>>=◌, pure, decode_all, uint8, string}

abbrev suback_fields : Framer → ℕ → Decode Frame
suback_fields framer version = do
  sub_no ← string
  channel_id ← string
  channel_type ← uint8
  action ← uint8
  reason_code ← uint8
  pure (
      suback (record {
        framer = framer;
        sub_no = sub_no;
        channel_id = channel_id;
        channel_type = channel_type;
        action = action;
        reason_code = reason_code;
      }))

unfoldable pub decode_suback : Framer → List ℕ → ℕ → Result Frame
decode_suback framer body version = decode_all (suback_fields framer version) body

unfoldable pub encode_suback : SubackPacket → Encoder → ℕ → Encoder
encode_suback p enc version =
    enc
    |> write_string p.sub_no
    |> write_string p.channel_id
    |> write_uint8 p.channel_type
    |> write_uint8 p.action
    |> write_uint8 p.reason_code

unfoldable pub encode_suback_size : SubackPacket → ℕ → ℕ
encode_suback_size p version =
    (length p.sub_no + ByteSize.string_fix_len)
    + (length p.channel_id + ByteSize.string_fix_len)
    + ByteSize.channel_type
    + ByteSize.action
    + ByteSize.reason_code
