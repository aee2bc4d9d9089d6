-- ===== src/Proto/Codec/Bounds.antt =====
-- How many bytes `DecodeFrame` says that a frame has.
use imserver.Prelude.{ℕ, ◌≤◌, ◌<◌, ◌≡◌, List, [], ◌∷◌, length, some, none, Option, arith}
use imserver.Proto.Result.{Result, ok, err, panic}
use imserver.Proto.Types.{Frame, Framer}
use imserver.Proto.Codec.{decode_framer, decode_rest, decode_frame}

-- What `DecodeFrame` does with the result of `decodeFramer`.
abbrev with_framer : List ℕ → ℕ → Result (Framer × ℕ) → Result (Option (Frame × ℕ))
with_framer input version (ok (framer, count)) = decode_rest input version framer count
with_framer input version (err e) = ok none
with_framer input version panic = panic

decode_rest-size :
    (input : List ℕ) (version count n : ℕ) (framer : Framer) (f : Frame)
    → 0 < length input
    → decode_rest input version framer count ≡ ok (some (f, n))
    → (0 < n) × (n ≤ length input)
unfolding decode_rest
decode_rest-size input version count n framer f pos e = ground arith

from_framer :
    (input : List ℕ) (version n : ℕ) (f : Frame) (r : Result (Framer × ℕ))
    → 0 < length input
    → with_framer input version r ≡ ok (some (f, n))
    → (0 < n) × (n ≤ length input)
from_framer input version n f (ok (framer, count)) pos e =
    decode_rest-size input version count n framer f pos e
from_framer input version n f (err x) pos e = cc
from_framer input version n f panic pos e = cc

-- A frame that `DecodeFrame` returns has at least one byte, and no more than there are.
pub decode_frame-size :
    (input : List ℕ) (version n : ℕ) (f : Frame)
    → decode_frame input version ≡ ok (some (f, n))
    → (0 < n) × (n ≤ length input)
decode_frame-size [] version n f e = unfold decode_frame decode_framer in cc
decode_frame-size (b ∷ rest) version n f e =
    from_framer (b ∷ rest) version n f (decode_framer (b ∷ rest)) (omega arith)
      (unfold decode_frame in e)
