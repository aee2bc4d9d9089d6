-- ===== src/Server/Dispatch/Context.antt =====
-- The rest of internal/server/conn_context.go: how the processor takes the cached frames, and how
-- the reading of a connection stops and starts with the number of its frames in flight.
use imserver.Prelude.{
  ℕ, ◌+◌, ◌≡◌, refl, ◌∙◌, ap, sym, Bool, true, false, List, [], ◌∷◌, ◌++◌, append_assoc, append-nil,
  ltb, ◌&&◌, not, if◌then◌else◌, arith,
}
use imserver.Prelude.Int.{ℤ, pos, negsuc, pos_part, neg_part, sub_ℕ, ◌+ℤ◌, ltb_ℤ}
use imserver.Proto.Types.{Frame}
use imserver.Server.Dispatch.{Conn, ServerState, State, put_frame, disable_read}

unfoldable pub enable_read : State → State
enable_read (d, c) = if not c.is_disable_read then (d, c) else (
  record d { slow_clients = d.slow_clients +ℤ negsuc 0 },
  record c { is_disable_read = false },
)

unfoldable pub pop_frames : State → List Frame × State
pop_frames (d, c) = (c.frame_caches, (d, record c { frame_caches = [] }))

unfoldable pub finish_frames : ℕ → State → State
finish_frames count (d, c) =
    let left = sub_ℕ (pos_part c.inflight_count) (neg_part c.inflight_count + count) in
    let c' : Conn = record c { inflight_count = left } in
    if ltb 0 d.user_msg_queue_max_size && not (ltb_ℤ (pos d.user_msg_queue_max_size) left)
    then enable_read (d, c')
    else (d, c')

-- `release`; the connection and the log of the context are not in the state.
unfoldable pub release : State → State
release (d, c) =
    (d, record c { inflight_count = pos 0; is_disable_read = false; frame_caches = [] })

-- What happens to a context: a frame comes in, the processor takes the frames, or it is done with
-- some of them.
pub data Act : Type 0 where
  putting : Frame → Act
  popping : Act
  finishing : ℕ → Act

-- Runs acts, with the frames that the processor took.
unfoldable pub run : List Act → State → List Frame × State
run [] s = ([], s)
run (putting frame ∷ acts) s = run acts (put_frame frame s)
run (popping ∷ acts) s =
    let (frames, s') = pop_frames s in let rest = run acts s' in (frames ++ rest.0, rest.1)
run (finishing count ∷ acts) s = run acts (finish_frames count s)

-- The frames that come in.
abbrev pub incoming : List Act → List Frame
incoming [] = []
incoming (putting frame ∷ acts) = frame ∷ incoming acts
incoming (popping ∷ acts) = incoming acts
incoming (finishing count ∷ acts) = incoming acts

-- More frames are in flight than the limit, if there is one.
abbrev pub is_over : State → Bool
is_over (d, c) =
    ltb 0 d.user_msg_queue_max_size && ltb_ℤ (pos d.user_msg_queue_max_size) c.inflight_count

-- Reading is off exactly over the limit, and the connection is counted as slow exactly then:
-- `others` is the count without it.
pub record IsFlow (others : ℤ) (s : State) : Type 0 where
  pub reading : s.1.is_disable_read ≡ is_over s
  pub slow : s.0.slow_clients ≡ others +ℤ pos (if s.1.is_disable_read then 1 else 0)

put_frame-IsFlow :
    (others : ℤ) (frame : Frame) (d : ServerState) (c : Conn)
    → IsFlow others (d, c)
    → IsFlow others (put_frame frame (d, c))
unfolding put_frame disable_read
put_frame-IsFlow others frame d c i = ground (arith, i.reading, i.slow)

finish_frames-IsFlow :
    (others : ℤ) (count : ℕ) (d : ServerState) (c : Conn)
    → IsFlow others (d, c)
    → IsFlow others (finish_frames count (d, c))
unfolding finish_frames enable_read
finish_frames-IsFlow others count d c i = ground (arith, i.reading, i.slow)

-- From a state in which reading is off exactly over the limit, and the connection is counted as
-- slow exactly then, frames that come in, are taken and are finished, in whatever order and number,
-- lead to such a state again.
pub run-IsFlow :
    (others : ℤ) (acts : List Act) (s : State) → IsFlow others s → IsFlow others (run acts s).1
unfolding run pop_frames
run-IsFlow others [] s i = i
run-IsFlow others (putting frame ∷ acts) (d, c) i =
    run-IsFlow others acts (put_frame frame (d, c)) (put_frame-IsFlow others frame d c i)
run-IsFlow others (popping ∷ acts) (d, c) i =
    run-IsFlow others acts (d, record c { frame_caches = [] })
      (record { reading = i.reading; slow = i.slow })
run-IsFlow others (finishing count ∷ acts) (d, c) i =
    run-IsFlow others acts (finish_frames count (d, c)) (finish_frames-IsFlow others count d c i)

put_frame-cached :
    (frame : Frame) (s : State)
    → (put_frame frame s).1.frame_caches ≡ s.1.frame_caches ++ (frame ∷ [])
unfolding put_frame disable_read
put_frame-cached frame (d, c) = ground arith

finish_frames-cached :
    (count : ℕ) (s : State) → (finish_frames count s).1.frame_caches ≡ s.1.frame_caches
unfolding finish_frames enable_read
finish_frames-cached count (d, c) = ground arith

-- However frames come in, are taken and are finished: those that were taken, and then those that
-- are still cached, are those that were cached and then those that came in, in order.
pub run-frames :
    (acts : List Act) (s : State)
    → (run acts s).0 ++ (run acts s).1.1.frame_caches ≡ s.1.frame_caches ++ incoming acts
unfolding run pop_frames
run-frames [] s = sym (append-nil s.1.frame_caches)
run-frames (putting frame ∷ acts) s =
    run-frames acts (put_frame frame s)
    ∙ ap (λ (l : List Frame). l ++ incoming acts) (put_frame-cached frame s)
    ∙ append_assoc s.1.frame_caches (frame ∷ []) (incoming acts)
run-frames (popping ∷ acts) (d, c) =
    let s' : State = (d, record c { frame_caches = [] }) in
    append_assoc c.frame_caches (run acts s').0 (run acts s').1.1.frame_caches
    ∙ ap (λ (l : List Frame). c.frame_caches ++ l) (run-frames acts s')
run-frames (finishing count ∷ acts) s =
    run-frames acts (finish_frames count s)
    ∙ ap (λ (l : List Frame). l ++ incoming acts) (finish_frames-cached count s)

-- `release` of a context whose reading is off switches it on without `enableRead`: the count of slow
-- connections keeps one that is gone.
pub release-slow :
    (others : ℤ) (s : State)
    → IsFlow others s
    → s.1.is_disable_read ≡ true
    → ((release s).1.is_disable_read ≡ false) × ((release s).0.slow_clients ≡ others +ℤ pos 1)
unfolding release
release-slow others (d, c) i off = (refl, ground (arith, i.slow, off))
