-- ===== src/Server/Dispatch.antt =====
-- internal/server/dispatch.go: bytes that arrive on a connection become frames; with the frame
-- cache of internal/server/conn_context.go.
pub mod Unpack
pub mod Stream
pub mod Unauthed
pub mod Out
pub mod Context
pub mod Rounds
use imserver.Prelude.{
  ℕ, zero, suc, ◌+◌, Bool, true, false, List, [], ◌∷◌, ◌++◌, length, drop, Option, none, some, ltb,
  ◌==◌, ◌&&◌, if◌then◌else◌,
}
use imserver.Prelude.Int.{ℤ, pos, ◌+ℤ◌, ltb_ℤ}
use imserver.Proto.Result.{Error, Result, ok, err, panic}
use imserver.Proto.Types.{Frame, ConnectPacket, connect}
use imserver.Proto.Codec.{decode_frame, latest_version}
use imserver.Server.Dispatch.Unpack.{gnet_unpacket}

-- A connection and its context. `inbound` is what `Peek(-1)` shows.
pub record Conn : Type 0 where
  pub is_authed : Bool
  pub proto_version : ℕ
  pub closed : Bool
  pub inbound : List ℕ
  pub frame_caches : List Frame
  pub inflight_count : ℤ
  pub is_disable_read : Bool
  pub in_msgs : ℕ
  pub in_bytes : ℕ
  pub outbound : List ℕ
  pub write_woken : Bool
  pub out_msgs : ℕ
  pub out_bytes : ℕ

-- The counters of the server, and the one option that is read.
pub record ServerState : Type 0 where
  pub in_msgs : ℕ
  pub in_bytes : ℕ
  pub out_msgs : ℕ
  pub out_bytes : ℕ
  pub slow_clients : ℤ
  pub user_msg_queue_max_size : ℕ

abbrev pub State : Type 0
State = ServerState × Conn

-- What the handler calls at its end.
pub data Next : Type 0 where
  nothing : Next
  process_auth : ConnectPacket → Next
  process : Next
  failed : Error → Next

unfoldable pub close : Conn → Conn
close c = record c { closed = true }

-- `Discard(n)`
unfoldable pub discard : ℕ → Conn → Conn
discard n c = record c { inbound = drop n c.inbound }

unfoldable pub disable_read : State → State
disable_read (d, c) =
    if c.is_disable_read
    then (d, c)
    else (record d { slow_clients = d.slow_clients +ℤ pos 1 }, record c { is_disable_read = true })

unfoldable pub put_frame : Frame → State → State
put_frame frame (d, c) =
    let c' : Conn = record c {
      inflight_count = c.inflight_count +ℤ pos 1;
      frame_caches = c.frame_caches ++ (frame ∷ []);
    } in
    if ltb 0 d.user_msg_queue_max_size && ltb_ℤ (pos d.user_msg_queue_max_size) c'.inflight_count
    then disable_read (d, c')
    else (d, c')

-- The counters of one frame.
unfoldable pub count_frame : ℕ → State → State
count_frame size (d, c) = (
  record d { in_msgs = d.in_msgs + 1; in_bytes = d.in_bytes + size },
  record c { in_msgs = c.in_msgs + 1; in_bytes = c.in_bytes + size },
)

-- How the loop over `data` ends: at an offset, with an error, or in a panic.
pub data LoopEnd : Type 0 where
  broke : ℕ → State → LoopEnd
  stopped : Error → State → LoopEnd
  crashed : LoopEnd

-- The first argument bounds the rounds: the bytes behind the offset are enough, as no frame is
-- empty.
unfoldable pub decode_loop : ℕ → List ℕ → ℕ → State → LoopEnd
decode_loop zero input offset s = broke offset s
decode_loop (suc f) input offset (d, c) =
    let round : LoopEnd = elim (decode_frame (drop offset input) c.proto_version) [
      | ok none ↦ broke offset (d, c)
      | ok (some (frame, size)) ↦
          decode_loop f input (offset + size) (put_frame frame (count_frame size (d, c)))
      | err e ↦ stopped e (d, close c)
      | panic ↦ crashed
    ] in
    if ltb offset (length input) then round else broke offset (d, c)

-- A connection that is not authenticated sends a CONNECT, and nothing else is looked at.
unfoldable pub data_in_unauthed : List ℕ → State → Result (State × Next)
data_in_unauthed input (d, c) = elim (decode_frame input latest_version) [
  | ok none ↦ ok ((d, c), nothing)
  | ok (some (connect p, size)) ↦ ok ((d, discard (length input) c), process_auth p)
  | ok (some (frame, size)) ↦ ok ((d, close c), nothing)
  | err e ↦ ok ((d, close c), nothing)
  | panic ↦ panic
]

unfoldable pub data_in_authed : List ℕ → State → Result (State × Next)
data_in_authed input s = elim (decode_loop (length input) input 0 s) [
  | broke offset (d, c) ↦ ok ((d, discard offset c), process)
  | stopped e s' ↦ ok (s', failed e)
  | crashed ↦ panic
]

-- `dataIn`. The first argument is `connIsAllow`, which asks the server for the address of the
-- connection.
unfoldable pub data_in : Bool → State → Result (State × Next)
data_in false (d, c) = ok ((d, close c), nothing)
data_in true (d, c) =
    let input = gnet_unpacket c.inbound in
    if length input == 0
    then ok ((d, c), nothing)
    else if c.is_authed
    then data_in_authed input (d, c)
    else data_in_unauthed input (d, c)
