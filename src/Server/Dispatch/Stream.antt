-- ===== src/Server/Dispatch/Stream.antt =====
-- `dataIn` on a connection that has authenticated: a stream of frames, cut at any byte.
use imserver.Prelude.{
  ℕ, zero, suc, ◌+◌, ◌-◌, ◌≤◌, ◌<◌, ◌≡◌, ◌≢◌, refl, sym, ap, ◌∙◌, true, List, [], ◌∷◌, ◌++◌,
  append_assoc, append-nil, length, length-append, length-drop, drop, drop-drop, drop-append, arith,
}
use imserver.Prelude.Int.{pos, ◌+ℤ◌}
use imserver.Proto.Result.{ok}
use imserver.Proto.Types.{Frame}
use imserver.Proto.Codec.Wire.{wire, IsSendable, delivered_frame, arrived}
use imserver.Proto.Codec.RoundTrip.{decode_frame-wire}
use imserver.Server.Dispatch.{
  Conn, ServerState, State, process, broke, discard, disable_read, put_frame, count_frame,
  decode_loop, data_in_authed, data_in,
}
use imserver.Server.Dispatch.Unpack.{gnet_unpacket}
use imserver.Server.Dispatch.Unpack.Whole.{
  wires, AllSendable, IsPart, gnet_unpacket-wires, wire_some,
}

-- What the receiver has of frames that arrive together. A frame's `FrameSize` counts the bytes of
-- those behind it too.
abbrev pub delivered_frames : List Frame → ℕ → List Frame
delivered_frames [] version = []
delivered_frames (f ∷ fs) version =
    delivered_frame f (arrived f version (wires fs version)) version ∷ delivered_frames fs version

-- The state after frames: each is cached and counted, and nothing is lost or closed.
pub record Received (fs : List Frame) (version : ℕ) (s s' : State) : Type 0 where
  pub cached : s'.1.frame_caches ≡ s.1.frame_caches ++ delivered_frames fs version
  pub inflight : s'.1.inflight_count ≡ s.1.inflight_count +ℤ pos (length fs)
  pub conn_msgs : s'.1.in_msgs ≡ s.1.in_msgs + length fs
  pub conn_bytes : s'.1.in_bytes ≡ s.1.in_bytes + length (wires fs version)
  pub server_msgs : s'.0.in_msgs ≡ s.0.in_msgs + length fs
  pub server_bytes : s'.0.in_bytes ≡ s.0.in_bytes + length (wires fs version)
  pub closed : s'.1.closed ≡ s.1.closed
  pub is_authed : s'.1.is_authed ≡ s.1.is_authed
  pub proto_version : s'.1.proto_version ≡ s.1.proto_version
  pub inbound : s'.1.inbound ≡ s.1.inbound

-- One frame.
abbrev take_frame : Frame → ℕ → State → State
take_frame frame size s = put_frame frame (count_frame size s)

record Took (frame : Frame) (size : ℕ) (s s' : State) : Type 0 where
  cached : s'.1.frame_caches ≡ s.1.frame_caches ++ (frame ∷ [])
  inflight : s'.1.inflight_count ≡ s.1.inflight_count +ℤ pos 1
  conn_msgs : s'.1.in_msgs ≡ s.1.in_msgs + 1
  conn_bytes : s'.1.in_bytes ≡ s.1.in_bytes + size
  server_msgs : s'.0.in_msgs ≡ s.0.in_msgs + 1
  server_bytes : s'.0.in_bytes ≡ s.0.in_bytes + size
  closed : s'.1.closed ≡ s.1.closed
  is_authed : s'.1.is_authed ≡ s.1.is_authed
  proto_version : s'.1.proto_version ≡ s.1.proto_version
  inbound : s'.1.inbound ≡ s.1.inbound

take_frame-Took :
    (frame : Frame) (size : ℕ) (d : ServerState) (c : Conn)
    → Took frame size (d, c) (take_frame frame size (d, c))
unfolding put_frame count_frame disable_read
take_frame-Took frame size d c = ground arith

Received-cons :
    (f : Frame) (fs : List Frame) (version : ℕ) (s s' s'' : State)
    → Took
        (delivered_frame f (arrived f version (wires fs version)) version)
        (length (wire f version))
        s
        s'
    → Received fs version s' s''
    → Received (f ∷ fs) version s s''
Received-cons f fs version s s' s'' t r = ground (
  arith,
  length-append (wire f version) (wires fs version),
  append_assoc s.1.frame_caches
      (delivered_frame f (arrived f version (wires fs version)) version ∷ [])
      (delivered_frames fs version),
)

-- How the loop ends on whole frames.
record Ended (fs : List Frame) (version f offset : ℕ) (input : List ℕ) (s : State) : Type 0 where
  after : State
  ends : decode_loop f input offset s ≡ broke (offset + length (wires fs version)) after
  received : Received fs version s after

loop_end :
    (f offset : ℕ) (input : List ℕ) (s : State)
    → length input ≤ offset
    → decode_loop f input offset s ≡ broke offset s
unfolding decode_loop
loop_end zero offset input s h = refl
loop_end (suc f) offset input s h = ground arith

loop_step :
    (f offset version : ℕ) (input : List ℕ) (s : State) (g : Frame) (rest : List ℕ)
    → s.1.proto_version ≡ version
    → IsSendable g version
    → offset < length input
    → drop offset input ≡ wire g version ++ rest
    → decode_loop (suc f) input offset s
      ≡ decode_loop f input (offset + length (wire g version)) (
          take_frame
            (delivered_frame g (arrived g version rest) version)
            (length (wire g version))
            s)
unfolding decode_loop
loop_step f offset version input s g rest v ok_g h e =
    ground (arith, v, e, decode_frame-wire g version rest ok_g)

loop_wires :
    (fs : List Frame) (version f offset : ℕ) (input : List ℕ) (s : State)
    → s.1.proto_version ≡ version
    → AllSendable fs version
    → offset ≤ length input
    → drop offset input ≡ wires fs version
    → length (wires fs version) ≤ f
    → Ended fs version f offset input s
loop_wires [] version f offset input s v a inside e h = record {
  after = s;
  ends =
      loop_end f offset input s (omega (arith, ap (length {0}) e, length-drop offset input))
      ∙ ap (λ (n : ℕ). broke n s) (omega arith);
  received = ground (arith, append-nil s.1.frame_caches);
}
loop_wires (g ∷ fs) version zero offset input s v (sg, a) inside e h =
    absurd
      (omega (arith, wire_some g version sg, length-append (wire g version) (wires fs version)))
loop_wires (g ∷ fs) version (suc f) offset input s v (sg, a) inside e h =
    let sized = length-append (wire g version) (wires fs version) in
    let some_byte = wire_some g version sg in
    let room : length (wire g version) + length (wires fs version) ≡ length input - offset =
      omega (arith, ap (length {0}) e, length-drop offset input, sized) in
    let s' =
      take_frame (delivered_frame g (arrived g version (wires fs version)) version)
        (length (wire g version)) s in
    let t =
      take_frame-Took (delivered_frame g (arrived g version (wires fs version)) version)
        (length (wire g version)) s.0 s.1 in
    let r =
      loop_wires fs version f (offset + length (wire g version)) input s' (t.proto_version ∙ v) a
        (omega (arith, room))
        (sym (drop-drop offset (length (wire g version)) input)
          ∙ ap (drop (length (wire g version))) e
          ∙ drop-append (wire g version) (wires fs version) _ refl)
        (omega (arith, sized, some_byte)) in
    record {
      after = r.after;
      ends =
          loop_step f offset version input s g (wires fs version) v sg
            (omega (arith, room, some_byte)) e
          ∙ r.ends
          ∙ ap (λ (n : ℕ). broke n r.after) (omega (arith, sized));
      received = Received-cons g fs version s s' r.after t r.received;
    }

-- Bytes of a stream of frames that can be sent reach an authenticated connection: `fs` are those
-- that are whole, at least one, and `part` is what is there of the next. `dataIn` caches every whole frame in order, counts the
-- frames and their bytes, keeps exactly `part` in the buffer, and goes on to process.
pub data_in-wires :
    (fs : List Frame) (part : List ℕ) (d : ServerState) (c : Conn)
    → c.is_authed ≡ true
    → fs ≢ []
    → AllSendable fs c.proto_version
    → IsPart part c.proto_version
    → c.inbound ≡ wires fs c.proto_version ++ part
    → (s : State) × (data_in true (d, c) ≡ ok ((s.0, record s.1 { inbound = part }), process))
      × Received fs c.proto_version (d, c) s
unfolding data_in data_in_authed discard
data_in-wires [] part d c au ne a p e = absurd (ne refl)
data_in-wires (f ∷ fs) part d c au ne (s, a) p e =
    let v = c.proto_version in
    let input = wires (f ∷ fs) v in
    let r =
      loop_wires (f ∷ fs) v (length input) 0 input (d, c) refl (s, a) (omega arith) refl
        (omega arith) in
    let unpacked : gnet_unpacket c.inbound ≡ input =
      rw e (gnet_unpacket-wires (f ∷ fs) v part (s, a) p) in
    let kept : drop (0 + length input) r.after.1.inbound ≡ part =
      rw (r.received.inbound, e) (drop-append input part _ (omega arith)) in
    (
      r.after,
      ground (
        arith,
        au,
        unpacked,
        r.ends,
        kept,
        wire_some f v s,
        length-append (wire f v) (wires fs v),
      ),
      r.received,
    )
