-- ===== src/Tests/Streams.antt =====
-- The theorem on streams at a concrete run.
use imserver.Prelude.{ℕ, ◌≡◌, List, [], ◌∷◌, arith}
use imserver.Okstore.File.{ok}
use imserver.Okstore.Stream.{Stream, new_stream, read_items}
use imserver.Okstore.Stream.Item.{StreamItem}
use imserver.Okstore.Stream.Run.{
  Event, appended, reopened, run, written, IsWritable, AllWritable, read_items-run,
}

abbrev part : ℕ → StreamItem
part x = record { client_msg_no = b'm' ∷ b'1' ∷ []; stream_seq = 0; blob = x ∷ 0x03 ∷ [] }

part-IsWritable : (x : ℕ) → IsWritable (part x)
part-IsWritable x = record { client_msg_no = omega arith; blob = omega arith }

abbrev events : List Event
events =
    appended (part b'a') ∷ reopened ∷ appended (part b'b') ∷ appended (part b'c') ∷ reopened ∷ []

events-AllWritable : AllWritable events
events-AllWritable = (part-IsWritable b'a', (part-IsWritable b'b', (part-IsWritable b'c', tt)))

read_items-run_example :
    (m : Stream) × (run events (new_stream []) ≡ ok m) × (read_items m ≡ ok (written 0 events))
read_items-run_example = read_items-run events events-AllWritable (omega arith)
