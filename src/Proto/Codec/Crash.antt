-- ===== src/Proto/Codec/Crash.antt =====
-- A length prefix of a string is read as an `int16`: with its top bit set it is negative, passes
-- the test for the end of the data, and makes the slice panic.
use imserver.Prelude.{ℕ, ◌+◌, ◌^◌, ◌≤◌, ◌<◌, ◌≡◌, refl, ◌∙◌, List, ◌∷◌, ◌++◌, length, arith}
use imserver.Proto.Result.{panic}
use imserver.Proto.FrameType
use imserver.Proto.Types.{Framer}
use imserver.Proto.Header.Flags.{framer_from_uint8}
use imserver.Proto.Header.Length.{encode_variable}
use imserver.Proto.Encoder.Appends.{be16}
use imserver.Proto.Decoder.Crash.{string-negative, bind-Panics, first-Panics, decode_all-Panics}
use imserver.Proto.Decoder.Reads.{uint8-byte}
use imserver.Proto.Connect.{decode_connect}
use imserver.Proto.Codec.{max_remaing_length, packet_decode_map, decode_frame}
use imserver.Proto.Codec.Whole.{HasBody, decode_frame-whole}

decode_connect-negative_length :
    (framer : Framer) (version_byte device_flag v version : ℕ) (tail : List ℕ)
    → 2 ^ 15 ≤ v
    → v < 2 ^ 16
    → decode_connect framer (version_byte ∷ device_flag ∷ (be16 v ++ tail)) version ≡ panic
unfolding decode_connect
decode_connect-negative_length framer version_byte device_flag v version tail lo hi =
    decode_all-Panics _ _ (
      bind-Panics _ (uint8-byte _ version_byte)
        (bind-Panics _ (uint8-byte _ device_flag) (first-Panics _ (string-negative v tail lo hi))))

connect_type :
    (flags : ℕ) → flags < 16 → (framer_from_uint8 (16 + flags)).frame_type ≡ FrameType.connect
unfolding framer_from_uint8
connect_type flags h = omega arith

connect-HasBody : HasBody FrameType.connect decode_connect
unfolding packet_decode_map
connect-HasBody = record { not_unknown = refl; not_ping = refl; not_pong = refl; decoder = refl }

-- A CONNECT frame, whatever its flags, its version and its device, and whatever follows it: if the
-- length before its first string is 2^15 or more, and its body has at most 1 MiB, `DecodeFrame`
-- panics.
pub decode_frame-negative_length :
    (flags version_byte device_flag v version : ℕ) (tail rest : List ℕ)
    → flags < 16
    → 2 ^ 15 ≤ v
    → v < 2 ^ 16
    → let body = version_byte ∷ device_flag ∷ (be16 v ++ tail) in
      length body ≤ max_remaing_length
      → decode_frame ((16 + flags) ∷ (encode_variable (length body) ++ (body ++ rest))) version
        ≡ panic
decode_frame-negative_length flags version_byte device_flag v version tail rest h lo hi small =
    let body : List ℕ = version_byte ∷ device_flag ∷ (be16 v ++ tail) in
    let k : HasBody (framer_from_uint8 (16 + flags)).frame_type decode_connect =
      rw (connect_type flags h) connect-HasBody in
    decode_frame-whole (16 + flags) body rest (omega arith) small k version
    ∙ rw (decode_connect-negative_length _ version_byte device_flag v version tail lo hi)
