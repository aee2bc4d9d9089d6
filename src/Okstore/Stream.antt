-- ===== src/Okstore/Stream.antt =====
-- pkg/okstore/stream.go and the stream items of model.go: a stream is a file of numbered items, one
-- behind the other. The file is opened to append; `item_at` and the functions below read it.
pub mod Item
pub mod Reads
pub mod Run
use imserver.Prelude.{
  ℕ, zero, suc, ◌+◌, ◌%◌, ◌^◌, Bool, true, false, List, [], ◌∷◌, ◌++◌, length, ltb, leb, ◌==◌,
  if◌then◌else◌,
}
use imserver.Okstore.File.{Result, ok, err, panic, ◌>>=◌}
use imserver.Okstore.Stream.Item.{StreamItem, encode_stream_item, current_stream_item}

-- The fields of `Stream` that its operations change.
pub record Stream : Type 0 where
  pub stream_io : List ℕ
  pub max_stream_seq_loaded : Bool
  pub max_stream_seq : ℕ

-- `NewStream`, on the bytes that its file holds.
unfoldable pub new_stream : List ℕ → Stream
new_stream file = record { stream_io = file; max_stream_seq_loaded = false; max_stream_seq = 0 }

-- The loop of `readMaxStreamSeqNoLock` from an offset; the first argument bounds the rounds.
unfoldable pub max_loop : ℕ → List ℕ → ℕ → Result ℕ
max_loop zero file offset = panic
max_loop (suc f) file offset = do
  (item, size) ← current_stream_item file offset false
  let rest = max_loop f file (offset + size)
  if leb (length file) (offset + size) then ok item.stream_seq else rest

-- `readMaxStreamSeqNoLock`; every round takes at least a byte.
unfoldable pub read_max_stream_seq_no_lock : Stream → Result ℕ
unfolding max_loop
read_max_stream_seq_no_lock m =
    let found = max_loop (length m.stream_io) m.stream_io 0 in
    if length m.stream_io == 0 then ok 0 else found

-- `nextStreamSeqNoLock`: the next number, and the stream with the highest number loaded.
unfoldable pub next_stream_seq_no_lock : Stream → Result (ℕ × Stream)
next_stream_seq_no_lock m =
    let load = do
      top ← read_max_stream_seq_no_lock m
      ok ((top + 1) % 2 ^ 32, record m { max_stream_seq = top; max_stream_seq_loaded = true })
    in if m.max_stream_seq_loaded then ok ((m.max_stream_seq + 1) % 2 ^ 32, m) else load

-- `appendItem`: the number of the item, and the stream with the item behind its file.
unfoldable pub append_item : StreamItem → Stream → Result (ℕ × Stream)
append_item item m = do
  (next, m) ← next_stream_seq_no_lock m
  ok (
    next,
    record m {
      stream_io = m.stream_io ++ encode_stream_item (record item { stream_seq = next });
      max_stream_seq = next;
    },
  )

-- The loop of `readItems`.
unfoldable pub items_loop : ℕ → List ℕ → ℕ → Result (List StreamItem)
items_loop zero file offset = panic
items_loop (suc f) file offset = do
  (item, size) ← current_stream_item file offset true
  let rest = items_loop f file (offset + size)
  if leb (length file) (offset + size)
      then ok (item ∷ [])
      else (rest >>= λ items. ok (item ∷ items))

-- `sort.Sort` by `Less`, here by insertion: an item goes before the first that has a higher number.
unfoldable pub place : StreamItem → List StreamItem → List StreamItem
place x [] = x ∷ []
place x (y ∷ items) = if ltb x.stream_seq y.stream_seq then x ∷ y ∷ items else y ∷ place x items

unfoldable pub sort : List StreamItem → List StreamItem
sort [] = []
sort (x ∷ items) = place x (sort items)

-- `readItems`
unfoldable pub read_items : Stream → Result (List StreamItem)
read_items m =
    let read = do items ← items_loop (length m.stream_io) m.stream_io 0; ok (sort items)
    in if length m.stream_io == 0 then ok [] else read
