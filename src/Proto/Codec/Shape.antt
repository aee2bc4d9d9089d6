-- ===== src/Proto/Codec/Shape.antt =====
-- The bytes of a frame are one byte, or a header, a length and a body of that length.
use imserver.Prelude.{ℕ, ◌≤◌, ◌<◌, ◌≡◌, refl, true, false, List, [], ◌∷◌, ◌++◌, length, ◌==◌, ◌||◌}
use imserver.Proto.FrameType
use imserver.Proto.Types.{
  Frame, get_frame_type, connect, connack, send, sendack, recv, recvack, disconnect, sub, suback,
  ping, pong,
}
use imserver.Proto.Header.Flags.{to_fix_header_uint8, framer_from_uint8}
use imserver.Proto.Header.Length.{encode_variable}
use imserver.Proto.Codec.{max_remaing_length}
use imserver.Proto.Codec.Wire.{wire, IsSendable, frame_body}
use imserver.Proto.Codec.RoundTrip.{read_type, frame_some}

abbrev pub type_of : ℕ → ℕ
type_of header = (framer_from_uint8 header).frame_type

-- The header of a frame that has a body.
pub record Bodied (header : ℕ) : Type 0 where
  pub not_unknown : (type_of header == FrameType.unknown) ≡ false
  pub not_ping : (type_of header == FrameType.ping) ≡ false
  pub not_pong : (type_of header == FrameType.pong) ≡ false

bodied :
    (f : Frame)
    → (get_frame_type f == FrameType.unknown) ≡ false
    → (get_frame_type f == FrameType.ping) ≡ false
    → (get_frame_type f == FrameType.pong) ≡ false
    → Bodied (to_fix_header_uint8 f)
bodied f a b c = record {
  not_unknown = rw (read_type f) a;
  not_ping = rw (read_type f) b;
  not_pong = rw (read_type f) c;
}

-- The bytes of a frame that can be sent, and the part of it that follows the length.
pub data Shape : List ℕ → Type 0 where
  single :
      (b : ℕ) → (type_of b == FrameType.ping || type_of b == FrameType.pong) ≡ true → Shape (b ∷ [])
  packet :
      (header : ℕ) (body : List ℕ)
      → Bodied header
      → 0 < length body
      → length body ≤ max_remaing_length
      → Shape (header ∷ (encode_variable (length body) ++ body))

pub wire-Shape : (f : Frame) (version : ℕ) → IsSendable f version → Shape (wire f version)
unfolding framer_from_uint8
wire-Shape (ping f) version s = single 0x70 refl
wire-Shape (pong f) version s = single 0x80 refl
wire-Shape (connect p) version s =
    packet (to_fix_header_uint8 (connect p)) (frame_body (connect p) version)
      (bodied (connect p) refl refl refl) (frame_some (connect p) version refl refl) s.small
wire-Shape (connack p) version s =
    packet (to_fix_header_uint8 (connack p)) (frame_body (connack p) version)
      (bodied (connack p) refl refl refl) (frame_some (connack p) version refl refl) s.small
wire-Shape (send p) version s =
    packet (to_fix_header_uint8 (send p)) (frame_body (send p) version)
      (bodied (send p) refl refl refl) (frame_some (send p) version refl refl) s.small
wire-Shape (sendack p) version s =
    packet (to_fix_header_uint8 (sendack p)) (frame_body (sendack p) version)
      (bodied (sendack p) refl refl refl) (frame_some (sendack p) version refl refl) s.small
wire-Shape (recv p) version s =
    packet (to_fix_header_uint8 (recv p)) (frame_body (recv p) version)
      (bodied (recv p) refl refl refl) (frame_some (recv p) version refl refl) s.small
wire-Shape (recvack p) version s =
    packet (to_fix_header_uint8 (recvack p)) (frame_body (recvack p) version)
      (bodied (recvack p) refl refl refl) (frame_some (recvack p) version refl refl) s.small
wire-Shape (disconnect p) version s =
    packet (to_fix_header_uint8 (disconnect p)) (frame_body (disconnect p) version)
      (bodied (disconnect p) refl refl refl) (frame_some (disconnect p) version refl refl) s.small
wire-Shape (sub p) version s =
    packet (to_fix_header_uint8 (sub p)) (frame_body (sub p) version)
      (bodied (sub p) refl refl refl) (frame_some (sub p) version refl refl) s.small
wire-Shape (suback p) version s =
    packet (to_fix_header_uint8 (suback p)) (frame_body (suback p) version)
      (bodied (suback p) refl refl refl) (frame_some (suback p) version refl refl) s.small
