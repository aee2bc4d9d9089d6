-- ===== src/Server/Dispatch/Unpack/Whole.antt =====
-- `gnetUnpacket` on frames that have arrived, with a part of another behind them.
use imserver.Prelude.{
  ℕ, zero, suc, ◌+◌, ◌-◌, ◌≤◌, ◌<◌, ◌≡◌, refl, sym, ap, ◌∙◌, List, [], ◌∷◌, ◌++◌, append_assoc,
  append-nil, length, length-append, length-drop, length-take, take, drop, take-append, drop-append,
  drop-drop, take-append_le, take-append_ge, leb, Bool-cases, inl, inr, arith,
}
use imserver.Proto.Types.{Frame}
use imserver.Proto.Header.Flags.{framer_from_uint8}
use imserver.Proto.Header.Length.{encode_variable}
use imserver.Proto.Header.Length.Partial.{decode_length-cut}
use imserver.Proto.Codec.{max_remaing_length}
use imserver.Proto.Codec.Shape.{Shape, single, packet, Bodied, wire-Shape}
use imserver.Proto.Codec.Wire.{wire, IsSendable}
use imserver.Server.Dispatch.Unpack.{unpack_loop, gnet_unpacket}
use imserver.Server.Dispatch.Unpack.Agree.{
  decode_length-agree, decode_length-encode_variable_server,
}

-- A round that finds a whole packet.
module _ (buff : List ℕ) (offset : ℕ) (inside : offset ≤ length buff) where
  left_of :
      (front rest : List ℕ)
      → drop offset buff ≡ front ++ rest
      → length front + length rest ≡ length buff - offset
  left_of front rest e =
      omega (arith, ap (length {0}) e, length-drop offset buff, length-append front rest)

  step-Shape :
      (f : ℕ) (front rest : List ℕ)
      → Shape front
      → drop offset buff ≡ front ++ rest
      → unpack_loop (suc f) buff offset ≡ unpack_loop f buff (offset + length front)
  unfolding unpack_loop framer_from_uint8
  step-Shape f front rest (single b t) e = ground (arith, t, e)
  step-Shape f front rest (packet header body k pos small) e = ground (
    arith,
    e,
    k.not_ping,
    k.not_pong,
    append_assoc (encode_variable (length body)) body rest,
    decode_length-encode_variable_server (length body) (body ++ rest) pos (omega arith),
    left_of front rest e,
    length-append (encode_variable (length body)) body,
  )

  -- A round that finds a part of one, whose length is cut off or whose body is.
  module _ (f header : ℕ) (body : List ℕ) (k : Bodied header)
      (limit : length body ≤ max_remaing_length) where
    stop_length :
        (j : ℕ)
        → j < length (encode_variable (length body))
        → drop offset buff ≡ header ∷ take j (encode_variable (length body))
        → unpack_loop (suc f) buff offset ≡ offset
    unfolding unpack_loop framer_from_uint8
    stop_length j h e = ground (
      arith,
      e,
      k.not_ping,
      k.not_pong,
      decode_length-agree (take j (encode_variable (length body))),
      decode_length-cut (length body) j (omega arith) h,
    )

    stop_body :
        (j : ℕ)
        → 0 < length body
        → j < length body
        → drop offset buff ≡ header ∷ (encode_variable (length body) ++ take j body)
        → unpack_loop (suc f) buff offset ≡ offset
    unfolding unpack_loop framer_from_uint8
    stop_body j pos h e = ground (
      arith,
      e,
      k.not_ping,
      k.not_pong,
      decode_length-encode_variable_server (length body) (take j body) pos (omega arith),
      left_of (header ∷ (encode_variable (length body) ++ take j body)) [] (e ∙ sym (append-nil _)),
      length-append (encode_variable (length body)) (take j body),
      length-take j body,
    )

  stop-Shape :
      (f k : ℕ) {bytes : List ℕ}
      → Shape bytes
      → k < length bytes
      → drop offset buff ≡ take k bytes
      → unpack_loop f buff offset ≡ offset
  unfolding unpack_loop
  stop-Shape zero k s h e = refl
  stop-Shape (suc f) zero s h e = rw (e, unpack_loop)
  stop-Shape (suc f) (suc k) (single b t) h e = absurd (omega arith)
  stop-Shape (suc f) (suc j) (packet header body k pos small) h e =
      elim (Bool-cases (leb (length (encode_variable (length body))) j)) [
        | inl past ↦
            stop_body f header body k small (j - length (encode_variable (length body))) pos
              (ground (arith, length-append (encode_variable (length body)) body))
              (e
                ∙ ap (λ (l : List ℕ). header ∷ l)
                    (take-append_ge (encode_variable (length body)) body j (ground arith)))
        | inr before ↦ stop_length f header body k small j (ground arith) (
            e
            ∙ ap (λ (l : List ℕ). header ∷ l)
                (take-append_le (encode_variable (length body)) body j (ground arith)))
      ]

-- Frames one behind the other, as their bytes.
abbrev pub wires : List Frame → ℕ → List ℕ
wires [] version = []
wires (f ∷ fs) version = wire f version ++ wires fs version

abbrev pub AllSendable : List Frame → ℕ → Type 0
AllSendable [] version = Unit {0}
AllSendable (f ∷ fs) version = IsSendable f version × AllSendable fs version

-- What has arrived of a frame that is not there yet; it may be nothing.
pub record IsPart (part : List ℕ) (version : ℕ) : Type 0 where
  pub frame : Frame
  pub sendable : IsSendable frame version
  pub count : ℕ
  pub less : count < length (wire frame version)
  pub bytes : part ≡ take count (wire frame version)

pub wire_some : (f : Frame) (version : ℕ) → IsSendable f version → 0 < length (wire f version)
wire_some f version s = shape_some (wire-Shape f version s)
  where
    shape_some : {bytes : List ℕ} → Shape bytes → 0 < length bytes
    shape_some (single b t) = omega arith
    shape_some (packet header body k pos small) = omega arith

unpack_wires :
    (fs : List Frame) (version : ℕ) (part buff : List ℕ) (f offset : ℕ)
    → AllSendable fs version
    → IsPart part version
    → offset ≤ length buff
    → drop offset buff ≡ wires fs version ++ part
    → length (wires fs version) ≤ f
    → unpack_loop f buff offset ≡ offset + length (wires fs version)
unpack_wires [] version part buff f offset a p inside e h =
    stop-Shape buff offset inside f p.count (wire-Shape p.frame version p.sendable) p.less
      (e ∙ p.bytes)
    ∙ omega arith
unpack_wires (g ∷ fs) version part buff zero offset (s, a) p inside e h =
    absurd (omega (arith, wire_some g version s, length-append (wire g version) (wires fs version)))
unpack_wires (g ∷ fs) version part buff (suc f) offset (s, a) p inside e h =
    let e' : drop offset buff ≡ wire g version ++ (wires fs version ++ part) =
      e ∙ append_assoc (wire g version) (wires fs version) part in
    let room = left_of buff offset inside (wire g version) (wires fs version ++ part) e' in
    step-Shape buff offset inside f (wire g version) (wires fs version ++ part)
      (wire-Shape g version s) e'
    ∙ unpack_wires fs version part buff f (offset + length (wire g version)) a p
        (omega (arith, room, length-drop offset buff))
        (sym (drop-drop offset (length (wire g version)) buff)
          ∙ ap (drop (length (wire g version))) e'
          ∙ drop-append (wire g version) (wires fs version ++ part) _ refl)
        (omega (arith, wire_some g version s, length-append (wire g version) (wires fs version)))
    ∙ omega (arith, length-append (wire g version) (wires fs version))

-- `gnetUnpacket` gives the bytes of the whole frames that have arrived, however many, and leaves
-- out what stands behind them, a proper part of another frame or nothing. All of these frames are
-- ones that can be sent.
pub gnet_unpacket-wires :
    (fs : List Frame) (version : ℕ) (part : List ℕ)
    → AllSendable fs version
    → IsPart part version
    → gnet_unpacket (wires fs version ++ part) ≡ wires fs version
unfolding gnet_unpacket
gnet_unpacket-wires fs version part a p =
    let buff = wires fs version ++ part in
    rw
      (unpack_wires fs version part buff (length buff) 0 a p (omega arith) refl
        (omega (arith, length-append (wires fs version) part)))
      (take-append (wires fs version) part _ (omega arith))
