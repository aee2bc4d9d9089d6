-- ===== src/Proto/Codec/Whole.antt =====
-- A frame as its header and its body, and how `DecodeFrame` finds the body.
use imserver.Prelude.{
  ℕ, ◌+◌, ◌≤◌, ◌<◌, ◌≡◌, refl, ap, ◌∙◌, false, List, ◌∷◌, ◌++◌, length, length-append, take, drop,
  take-append, drop-append, some, ◌==◌, arith,
}
use imserver.Proto.Result.{ok, ◌>>=◌}
use imserver.Proto.FrameType
use imserver.Proto.Types.{Framer}
use imserver.Proto.Header.Flags.{framer_from_uint8}
use imserver.Proto.Header.Length.{encode_variable}
use imserver.Proto.Header.Length.RoundTrip.{decode_length-encode_variable}
use imserver.Proto.Codec.{
  PacketDecodeFunc, packet_decode_map, max_remaing_length, decode_framer, decode_rest, decode_frame,
}

-- A type with a body that can be decoded by `func`.
pub record HasBody (t : ℕ) (func : PacketDecodeFunc) : Type 0 where
  pub not_unknown : (t == FrameType.unknown) ≡ false
  pub not_ping : (t == FrameType.ping) ≡ false
  pub not_pong : (t == FrameType.pong) ≡ false
  pub decoder : packet_decode_map t ≡ some func

module _ (header : ℕ) (body rest : List ℕ) where
  abbrev pub whole : List ℕ
  whole = header ∷ (encode_variable (length body) ++ (body ++ rest))

  abbrev pub whole_framer : Framer
  whole_framer = record (framer_from_uint8 header) {
    remaining_length = length body;
    frame_size = length whole;
  }

  abbrev pub header_size : ℕ
  header_size = 1 + length (encode_variable (length body))

  module _ (some_body : 0 < length body) (limit : length body ≤ max_remaing_length) where
    module _ {func : PacketDecodeFunc}
        (k : HasBody (framer_from_uint8 header).frame_type func) where
      decode_framer-whole :
          decode_framer whole ≡ ok (whole_framer, length (encode_variable (length body)))
      unfolding decode_framer
      decode_framer-whole = ground (
        arith,
        k.not_ping,
        k.not_pong,
        decode_length-encode_variable (length body) (body ++ rest) some_body (omega arith),
      )

      body_part :
          take (length body) (
            drop
              (length (encode_variable (length body)))
              (encode_variable (length body) ++ (body ++ rest)))
          ≡ body
      body_part =
          ap (take (length body))
            (drop-append (encode_variable (length body)) (body ++ rest) _ refl)
          ∙ take-append body rest _ refl

      decode_rest-whole :
          (version count : ℕ)
          → count ≡ length (encode_variable (length body))
          → decode_rest whole version whole_framer count ≡ (
              func whole_framer body version >>= λ frame.
              ok (some (frame, 1 + count + length body)))
      unfolding decode_rest
      decode_rest-whole version count e = ground (
        arith,
        k.not_unknown,
        k.not_ping,
        k.not_pong,
        k.decoder,
        length-append (encode_variable (length body)) (body ++ rest),
        length-append body rest,
        body_part,
      )

      -- `DecodeFrame` hands the body to the decoder of its type, whatever follows.
      pub decode_frame-whole :
          (version : ℕ)
          → decode_frame whole version ≡ (
              func whole_framer body version >>= λ frame.
              ok (some (frame, header_size + length body)))
      unfolding decode_frame
      decode_frame-whole version =
          rw (decode_framer-whole, decode_frame) (decode_rest-whole version _ refl)
