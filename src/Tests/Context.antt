-- ===== src/Tests/Context.antt =====
-- The theorems on the connection's context and on the rounds of the loops, at concrete states.
use imserver.Prelude.{ℕ, ◌≡◌, refl, true, false, List, [], ◌∷◌, ◌++◌, arith}
use imserver.Prelude.Int.{pos}
use imserver.Proto.Types.{zero_framer, ping, pong}
use imserver.Server.Dispatch.{Conn, ServerState, State, put_frame, disable_read, decode_loop}
use imserver.Server.Dispatch.Context.{
  Act, putting, popping, finishing, IsFlow, run, incoming, run-IsFlow, run-frames, pop_frames,
  finish_frames, enable_read,
}
use imserver.Server.Dispatch.Rounds.{decode_loop-rounds}

-- At most one frame in flight.
abbrev limited : ServerState
limited = record {
  in_msgs = 0;
  in_bytes = 0;
  out_msgs = 0;
  out_bytes = 0;
  slow_clients = pos 4;
  user_msg_queue_max_size = 1;
}

abbrev idle : Conn
idle = record {
  is_authed = true;
  proto_version = 3;
  closed = false;
  inbound = [];
  frame_caches = [];
  inflight_count = pos 0;
  is_disable_read = false;
  in_msgs = 0;
  in_bytes = 0;
  outbound = [];
  write_woken = false;
  out_msgs = 0;
  out_bytes = 0;
}

abbrev busy : State
busy = (
  record limited { slow_clients = pos 5 },
  record idle { inflight_count = pos 2; is_disable_read = true },
)

abbrev acts : List Act
acts = putting (ping zero_framer) ∷ putting (pong zero_framer) ∷ popping ∷ finishing 2 ∷ []

acts-run : run acts (limited, idle) ≡ (ping zero_framer ∷ pong zero_framer ∷ [], (limited, idle))
unfolding run put_frame disable_read pop_frames finish_frames enable_read
acts-run = refl

idle-IsFlow : IsFlow (pos 4) (limited, idle)
idle-IsFlow = record { reading = refl; slow = refl }

busy-IsFlow : IsFlow (pos 4) busy
busy-IsFlow = record { reading = refl; slow = refl }

run-IsFlow_example : IsFlow (pos 4) (run acts (limited, idle)).1
run-IsFlow_example = run-IsFlow (pos 4) acts (limited, idle) idle-IsFlow

run-frames_example :
    (run acts (limited, idle)).0 ++ (run acts (limited, idle)).1.1.frame_caches
    ≡ [] ++ incoming acts
run-frames_example = run-frames acts (limited, idle)

abbrev pings : List ℕ
pings = 0x70 ∷ 0x70 ∷ 0x30 ∷ []

decode_loop-rounds_example :
    decode_loop 9 pings 0 (limited, idle) ≡ decode_loop 3 pings 0 (limited, idle)
decode_loop-rounds_example = decode_loop-rounds pings (limited, idle) 9 (omega arith)
