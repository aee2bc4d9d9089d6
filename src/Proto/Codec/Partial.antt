-- ===== src/Proto/Codec/Partial.antt =====
-- `DecodeFrame` on a frame of which only a part has arrived.
use imserver.Prelude.{
  ℕ, zero, suc, ◌-◌, ◌≤◌, ◌<◌, ◌≡◌, List, ◌∷◌, ◌++◌, length, length-append, length-take, take,
  take-append_le, take-append_ge, none, inl, inr, leb, Bool-cases, arith,
}
use imserver.Proto.Result.{ok}
use imserver.Proto.Types.{Frame}
use imserver.Proto.Header.Length.{encode_variable}
use imserver.Proto.Header.Length.RoundTrip.{decode_length-encode_variable}
use imserver.Proto.Header.Length.Partial.{decode_length-cut}
use imserver.Proto.Codec.{max_remaing_length, decode_framer, decode_rest, decode_frame}
use imserver.Proto.Codec.Shape.{Shape, single, packet, Bodied, wire-Shape}
use imserver.Proto.Codec.Wire.{wire, IsSendable}

module _ (header : ℕ) (body : List ℕ) (version : ℕ) where
  abbrev lengths_part : List ℕ
  lengths_part = encode_variable (length body)

  module _ (k : Bodied header) (some_body : 0 < length body)
      (limit : length body ≤ max_remaing_length) where
    -- The length is cut off.
    cut_length :
        (j : ℕ)
        → j < length lengths_part
        → decode_frame (header ∷ take j lengths_part) version ≡ ok none
    unfolding decode_frame decode_framer decode_rest
    cut_length j h =
        ground (arith, k.not_ping, k.not_pong, decode_length-cut (length body) j (omega arith) h)

    -- The body is cut off.
    cut_body :
        (j : ℕ)
        → j < length body
        → decode_frame (header ∷ (lengths_part ++ take j body)) version ≡ ok none
    unfolding decode_frame decode_framer decode_rest
    cut_body j h = ground (
      arith,
      k.not_unknown,
      k.not_ping,
      k.not_pong,
      decode_length-encode_variable (length body) (take j body) some_body (omega arith),
      length-append lengths_part (take j body),
      length-take j body,
    )

    cut_frame :
        (j : ℕ)
        → j < length (lengths_part ++ body)
        → decode_frame (header ∷ take j (lengths_part ++ body)) version ≡ ok none
    cut_frame j h = elim (Bool-cases (leb (length lengths_part) j)) [
      | inl past ↦
          rw (take-append_ge lengths_part body j (ground arith))
            (cut_body (j - length lengths_part) (ground (arith, length-append lengths_part body)))
      | inr before ↦
          rw (take-append_le lengths_part body j (ground arith)) (cut_length j (ground arith))
    ]

cut-Shape :
    (version k : ℕ) {bytes : List ℕ}
    → Shape bytes
    → 0 < k
    → k < length bytes
    → decode_frame (take k bytes) version ≡ ok none
cut-Shape version zero s p h = absurd (omega arith)
cut-Shape version (suc k) (single b e) p h = absurd (omega arith)
cut-Shape version (suc k) (packet header body b pos small) p h =
    cut_frame header body version b pos small k (omega arith)

-- While a frame that can be sent arrives, `DecodeFrame` asks for more: on every first part of its
-- bytes that is not empty and not the whole, it returns no frame and no error.
pub decode_frame-take-wire :
    (f : Frame) (version k : ℕ)
    → IsSendable f version
    → 0 < k
    → k < length (wire f version)
    → decode_frame (take k (wire f version)) version ≡ ok none
decode_frame-take-wire f version k s = cut-Shape version k (wire-Shape f version s)
