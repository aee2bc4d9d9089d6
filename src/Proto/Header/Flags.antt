-- ===== src/Proto/Header/Flags.antt =====
-- `ToFixHeaderUint8` and `FramerFromUint8` of pkg/proto/common.go.
pub mod RoundTrip
use imserver.Prelude.{ℕ, Bool, true, false, ltb, ◌==◌, if◌then◌else◌, bit_and, bit_or}
use imserver.Prelude.Bytes.{shl, shr, byte}
use imserver.Proto.FrameType
use imserver.Proto.Types.{Framer, zero_framer, Frame, get_frame_type, framer_of}

unfoldable pub encode_bool : Bool → ℕ
encode_bool true = 1
encode_bool false = 0

-- The flags of a packet as a number. The shifts are those of an `int`.
unfoldable pub type_and_flags : Framer → ℕ
unfolding encode_bool
type_and_flags f =
    bit_or
      (bit_or (bit_or (shl 64 (encode_bool f.dup) 3) (shl 64 (encode_bool f.sync_once) 2))
        (shl 64 (encode_bool f.red_dot) 1))
      (encode_bool f.no_persist)

unfoldable pub to_fix_header_uint8 : Frame → ℕ
unfolding type_and_flags encode_bool
to_fix_header_uint8 f =
    let flags =
      if get_frame_type f == FrameType.connack
      then encode_bool (framer_of f).has_server_version
      else type_and_flags (framer_of f) in
    byte (bit_or (shl 8 (get_frame_type f) 4) flags)

unfoldable pub framer_from_uint8 : ℕ → Framer
framer_from_uint8 v = record zero_framer {
  no_persist = ltb 0 (bit_and v 0x01);
  red_dot = ltb 0 (bit_and (shr v 1) 0x01);
  sync_once = ltb 0 (bit_and (shr v 2) 0x01);
  dup = ltb 0 (bit_and (shr v 3) 0x01);
  frame_type = shr v 4;
  has_server_version = if shr v 4 == FrameType.connack then ltb 0 (bit_and v 0x01) else false;
}
