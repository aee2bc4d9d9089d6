-- ===== src/Tests/Codec.antt =====
-- The theorems on `DecodeFrame` and `EncodeFrame`, at concrete frames.
use imserver.Prelude.{◌+◌, ◌≤◌, ◌<◌, ◌≡◌, [], ◌∷◌, ◌++◌, length, take, some, none, arith}
use imserver.Proto.Result.{ok, panic}
use imserver.Proto.Types.{zero_framer, send, ping}
use imserver.Proto.Codec.{encode_frame, decode_frame}
use imserver.Proto.Codec.Wire.{wire, delivered_frame, arrived, encode_frame-wire}
use imserver.Proto.Codec.RoundTrip.{decode_frame-wire, decode_frame-encode_frame}
use imserver.Proto.Codec.Partial.{decode_frame-take-wire}
use imserver.Proto.Codec.Sizes.{encode_packet, encode_packet_size, length-encode_packet}
use imserver.Proto.Codec.Bounds.{decode_frame-size}
use imserver.Proto.Codec.Crash.{decode_frame-negative_length}
use imserver.Proto.Encoder.Appends.{be16}
use imserver.Proto.Header.Length.{encode_variable}
use imserver.Tests.Frames.{hello, hello-IsSendable, hello-some, ping-IsSendable}

decode_frame-wire_example :
    decode_frame (wire (send hello) 3 ++ (0x70 ∷ [])) 3
    ≡ ok (
        some (
          delivered_frame (send hello) (arrived (send hello) 3 (0x70 ∷ [])) 3,
          length (wire (send hello) 3),
        ))
decode_frame-wire_example = decode_frame-wire (send hello) 3 (0x70 ∷ []) hello-IsSendable

encode_frame-wire_example : encode_frame (send hello) 3 ≡ ok (wire (send hello) 3)
encode_frame-wire_example = encode_frame-wire (send hello) 3 hello-IsSendable

hello-encoded : encode_frame (send hello) 3 ≡ ok (wire (send hello) 3)
hello-encoded = encode_frame-wire (send hello) 3 hello-IsSendable

decode_frame-encode_frame_example :
    decode_frame (wire (send hello) 3 ++ (0x70 ∷ [])) 3
    ≡ ok (
        some (
          delivered_frame (send hello) (arrived (send hello) 3 (0x70 ∷ [])) 3,
          length (wire (send hello) 3),
        ))
decode_frame-encode_frame_example =
    decode_frame-encode_frame (send hello) 3 (0x70 ∷ []) (wire (send hello) 3) hello-IsSendable
      hello-encoded

decode_frame-take-wire_example : decode_frame (take 2 (wire (send hello) 3)) 3 ≡ ok none
decode_frame-take-wire_example =
    decode_frame-take-wire (send hello) 3 2 hello-IsSendable (omega arith) hello-some

length-encode_packet_example :
    length (encode_packet (send hello) (1 ∷ []) 3) ≡ 1 + encode_packet_size (send hello) 3
length-encode_packet_example = length-encode_packet (send hello) (1 ∷ []) 3

ping-decoded :
    decode_frame (0x70 ∷ 0x70 ∷ []) 3
    ≡ ok (some (delivered_frame (ping zero_framer) (arrived (ping zero_framer) 3 (0x70 ∷ [])) 3, 1))
ping-decoded = decode_frame-wire (ping zero_framer) 3 (0x70 ∷ []) ping-IsSendable

decode_frame-size_example : (0 < 1) × (1 ≤ 2)
decode_frame-size_example = decode_frame-size (0x70 ∷ 0x70 ∷ []) 3 1 _ ping-decoded

-- Seven bytes, CONNECT with the length 0xffff before its device identifier.
decode_frame-negative_length_example :
    decode_frame ((16 + 0) ∷ (encode_variable 5 ++ ((3 ∷ 1 ∷ (be16 0xffff ++ (0 ∷ []))) ++ []))) 1
    ≡ panic
unfolding be16
decode_frame-negative_length_example =
    decode_frame-negative_length 0 3 1 0xffff 1 (0 ∷ []) [] (omega arith) (omega arith)
      (omega arith) (omega arith)
