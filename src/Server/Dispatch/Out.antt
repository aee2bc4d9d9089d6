-- ===== src/Server/Dispatch/Out.antt =====
-- `dataOut` of internal/server/dispatch.go: frames for a connection become bytes in its outbound
-- buffer.
use imserver.Prelude.{
  ℕ, ◌+◌, ◌≡◌, refl, sym, ◌∙◌, true, List, [], ◌∷◌, ◌++◌, append_assoc, append-nil, length,
  length-append, arith, ◌≢◌,
}
use imserver.Proto.Result.{Result, ok, err, panic}
use imserver.Proto.Types.{Frame}
use imserver.Proto.Codec.{encode_frame}
use imserver.Proto.Codec.Wire.{wire, encode_frame-wire}
use imserver.Server.Dispatch.{State}
use imserver.Server.Dispatch.Unpack.Whole.{wires, AllSendable}

-- The bytes of one frame are written and counted. `pack` is what the write makes of them: a
-- websocket connection puts its own header before them, and the others nothing. An error of the
-- write is logged and changes nothing else.
unfoldable pub write_out : (List ℕ → List ℕ) → List ℕ → State → State
write_out pack b (d, c) = (
  record d { out_bytes = d.out_bytes + length b },
  record c { out_bytes = c.out_bytes + length b; outbound = c.outbound ++ pack b },
)

-- The loop over the frames; a frame that is not encoded is left out.
unfoldable pub write_frames : (List ℕ → List ℕ) → List Frame → State → Result State
write_frames pack [] s = ok s
write_frames pack (frame ∷ frames) s = elim (encode_frame frame s.1.proto_version) [
  | ok b ↦ write_frames pack frames (write_out pack b s)
  | err e ↦ write_frames pack frames s
  | panic ↦ panic
]

-- The counters of the frames.
unfoldable pub count_out : ℕ → State → State
count_out n (d, c) =
    (record d { out_msgs = d.out_msgs + n }, record c { out_msgs = c.out_msgs + n })

-- `WakeWrite`
unfoldable pub wake_write : Result State → Result State
wake_write (ok (d, c)) = ok (d, record c { write_woken = true })
wake_write (err e) = err e
wake_write panic = panic

unfoldable pub data_out : (List ℕ → List ℕ) → List Frame → State → Result State
data_out pack [] s = ok s
data_out pack (frame ∷ frames) s =
    wake_write (write_frames pack (frame ∷ frames) (count_out (length (frame ∷ frames)) s))

-- The frames as the connection packs them, one behind the other.
abbrev pub packed : (List ℕ → List ℕ) → List Frame → ℕ → List ℕ
packed pack [] version = []
packed pack (f ∷ fs) version = pack (wire f version) ++ packed pack fs version

-- What the loop leaves behind.
record Written (pack : List ℕ → List ℕ) (fs : List Frame) (s s' : State) : Type 0 where
  outbound : s'.1.outbound ≡ s.1.outbound ++ packed pack fs s.1.proto_version
  conn_bytes : s'.1.out_bytes ≡ s.1.out_bytes + length (wires fs s.1.proto_version)
  server_bytes : s'.0.out_bytes ≡ s.0.out_bytes + length (wires fs s.1.proto_version)
  conn_msgs : s'.1.out_msgs ≡ s.1.out_msgs
  server_msgs : s'.0.out_msgs ≡ s.0.out_msgs

write_frames-wires :
    (pack : List ℕ → List ℕ) (fs : List Frame) (s : State)
    → AllSendable fs s.1.proto_version
    → (s' : State) × (write_frames pack fs s ≡ ok s') × Written pack fs s s'
unfolding write_frames write_out
write_frames-wires pack [] s a = (
  s,
  refl,
  record {
    outbound = sym (append-nil s.1.outbound);
    conn_bytes = omega arith;
    server_bytes = omega arith;
    conn_msgs = refl;
    server_msgs = refl;
  },
)
write_frames-wires pack (f ∷ fs) (d, c) (s, a) =
    let b : List ℕ = wire f c.proto_version in
    let r = write_frames-wires pack fs (write_out pack b (d, c)) a in
    let w = r.2 in
    let sized = length-append b (wires fs c.proto_version) in
    (
      r.0,
      rw (encode_frame-wire f c.proto_version s, write_frames) (r.1),
      record {
        outbound = w.outbound ∙ append_assoc c.outbound (pack b) (packed pack fs c.proto_version);
        conn_bytes = omega (arith, w.conn_bytes, sized);
        server_bytes = omega (arith, w.server_bytes, sized);
        conn_msgs = w.conn_msgs;
        server_msgs = w.server_msgs;
      },
    )

-- The state after frames have gone out.
pub record Sent (pack : List ℕ → List ℕ) (fs : List Frame) (s s' : State) : Type 0 where
  pub outbound : s'.1.outbound ≡ s.1.outbound ++ packed pack fs s.1.proto_version
  pub woken : s'.1.write_woken ≡ true
  pub conn_msgs : s'.1.out_msgs ≡ s.1.out_msgs + length fs
  pub server_msgs : s'.0.out_msgs ≡ s.0.out_msgs + length fs
  pub conn_bytes : s'.1.out_bytes ≡ s.1.out_bytes + length (wires fs s.1.proto_version)
  pub server_bytes : s'.0.out_bytes ≡ s.0.out_bytes + length (wires fs s.1.proto_version)

-- `dataOut` of frames that can be sent puts the bytes of each, packed, behind what stands in the
-- outbound buffer, in order, counts the frames and their bytes for the connection and for the
-- server, and wakes the writer.
pub data_out-wires :
    (pack : List ℕ → List ℕ) (fs : List Frame) (s : State)
    → fs ≢ []
    → AllSendable fs s.1.proto_version
    → (s' : State) × (data_out pack fs s ≡ ok s') × Sent pack fs s s'
unfolding data_out count_out wake_write
data_out-wires pack [] s ne a = absurd (ne refl)
data_out-wires pack (f ∷ fs) (d, c) ne a =
    let r = write_frames-wires pack (f ∷ fs) (count_out (length (f ∷ fs)) (d, c)) a in
    let w = r.2 in
    (
      (r.0.0, record r.0.1 { write_woken = true }),
      rw (r.1) refl,
      record {
        outbound = w.outbound;
        woken = refl;
        conn_msgs = w.conn_msgs;
        server_msgs = w.server_msgs;
        conn_bytes = w.conn_bytes;
        server_bytes = w.server_bytes;
      },
    )
