-- ===== src/Proto/Header/Flags/RoundTrip.antt =====
-- What a receiver reads of the first byte of a frame.
use imserver.Prelude.{
  ℕ, ◌+◌, ◌*◌, ◌<◌, ◌≤◌, ◌^◌, ◌≡◌, refl, Bool, true, false, ltb, ◌==◌, if◌then◌else◌, bit_and,
  bit_or, arith,
}
use imserver.Prelude.Bits.{bit_or_high, bit_and_1}
use imserver.Prelude.Bytes.{shl, shr, byte}
use imserver.Proto.FrameType
use imserver.Proto.Types.{Framer, zero_framer, Frame, connack, get_frame_type, framer_of}
use imserver.Proto.Header.Flags.{
  encode_bool, type_and_flags, to_fix_header_uint8, framer_from_uint8,
}

-- The flags that one byte carries: a CONNACK has one, and its receiver finds it in two fields.
abbrev pub carried_flags : ℕ → Framer → Framer
carried_flags t f =
    if t == FrameType.connack
    then record zero_framer {
      frame_type = t;
      no_persist = f.has_server_version;
      has_server_version = f.has_server_version;
    }
    else record zero_framer {
      frame_type = t;
      no_persist = f.no_persist;
      red_dot = f.red_dot;
      sync_once = f.sync_once;
      dup = f.dup;
    }

encode_bool-le : (b : Bool) → encode_bool b ≤ 1
unfolding encode_bool
encode_bool-le true = omega arith
encode_bool-le false = omega arith

-- A flag at the bottom of a number.
flag_at : (v q : ℕ) (b : Bool) → v ≡ q * 2 + encode_bool b → ltb 0 (bit_and v 1) ≡ b
unfolding encode_bool
flag_at v q true e = ground (arith, bit_and_1 v)
flag_at v q false e = ground (arith, bit_and_1 v)

-- The four flags as a number.
nibble : Framer → ℕ
nibble f =
    encode_bool f.dup * 8
    + encode_bool f.sync_once * 4
    + encode_bool f.red_dot * 2
    + encode_bool f.no_persist

type_and_flags-nibble : (f : Framer) → type_and_flags f ≡ nibble f
unfolding type_and_flags nibble
type_and_flags-nibble f = ground arith

module _ (f : Framer) where
  nibble-lt : nibble f < 2 ^ 4
  unfolding nibble
  nibble-lt = omega (
    arith,
    encode_bool-le f.dup,
    encode_bool-le f.sync_once,
    encode_bool-le f.red_dot,
    encode_bool-le f.no_persist,
  )

  -- The fields of the byte with type `t` and these flags.
  module _ (t : ℕ) (small : t < 16) where
    read_flags :
        (ltb 0 (bit_and (t * 2 ^ 4 + nibble f) 1) ≡ f.no_persist)
        × (ltb 0 (bit_and (shr (t * 2 ^ 4 + nibble f) 1) 1) ≡ f.red_dot)
        × (ltb 0 (bit_and (shr (t * 2 ^ 4 + nibble f) 2) 1) ≡ f.sync_once)
        × (ltb 0 (bit_and (shr (t * 2 ^ 4 + nibble f) 3) 1) ≡ f.dup)
    unfolding nibble
    read_flags =
        let d = encode_bool-le f.dup in
        let s = encode_bool-le f.sync_once in
        let r = encode_bool-le f.red_dot in
        let n = encode_bool-le f.no_persist in
        (
          flag_at _
              (t * 8 + encode_bool f.dup * 4 + encode_bool f.sync_once * 2 + encode_bool f.red_dot)
              f.no_persist (omega arith),
          flag_at _ (t * 4 + encode_bool f.dup * 2 + encode_bool f.sync_once) f.red_dot
              (omega arith),
          flag_at _ (t * 2 + encode_bool f.dup) f.sync_once (omega arith),
          flag_at _ t f.dup (omega arith),
        )

    read_type : shr (t * 2 ^ 4 + nibble f) 4 ≡ t
    read_type = omega (arith, nibble-lt)

    read_byte :
        (t == FrameType.connack) ≡ false
        → framer_from_uint8 (t * 2 ^ 4 + nibble f) ≡ carried_flags t f
    unfolding framer_from_uint8
    read_byte ne = ground (arith, read_type, read_flags)

    header_byte : byte (bit_or (shl 8 t 4) (type_and_flags f)) ≡ t * 2 ^ 4 + nibble f
    header_byte = ground (arith, type_and_flags-nibble f, nibble-lt, bit_or_high 4 t (nibble f))

    read_header :
        (t == FrameType.connack) ≡ false
        → framer_from_uint8 (byte (bit_or (shl 8 t 4) (type_and_flags f))) ≡ carried_flags t f
    read_header ne = rw header_byte (read_byte ne)

read_connack :
    (b : Bool)
    → framer_from_uint8 (byte (bit_or (shl 8 FrameType.connack 4) (encode_bool b)))
      ≡ record zero_framer {
        frame_type = FrameType.connack;
        no_persist = b;
        has_server_version = b;
      }
unfolding framer_from_uint8 encode_bool
read_connack true = refl
read_connack false = refl

-- `FramerFromUint8` gives back the type of the frame whose first byte it reads, with the flags
-- that this byte carries: the four flags of any frame but a CONNACK, and of a CONNACK the flag of
-- the server version, which stands in the bit of `NoPersist` and sets both.
pub framer_from_uint8-to_fix_header_uint8 :
    (f : Frame)
    → framer_from_uint8 (to_fix_header_uint8 f) ≡ carried_flags (get_frame_type f) (framer_of f)
unfolding to_fix_header_uint8
framer_from_uint8-to_fix_header_uint8 (connack p) = read_connack p.framer.has_server_version
framer_from_uint8-to_fix_header_uint8 f =
    read_header (framer_of f) (get_frame_type f) (omega arith) refl
