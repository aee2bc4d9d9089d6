-- ===== src/Okstore/Index.antt =====
-- pkg/okstore/segment_index.go: the sparse index of a segment, a memory-mapped file of entries of
-- eight bytes, each the distance of a sequence number from the segment's first and a position.
pub mod Search
pub mod Write
pub mod Entries
use imserver.Prelude.{
  ℕ, zero, suc, ◌+◌, ◌-◌, ◌*◌, ◌/◌, ◌%◌, ◌^◌, Bool, List, ◌++◌, length, take, drop, Option, none,
  some, ltb, leb, ◌==◌, if◌then◌else◌,
}
use imserver.Proto.Encoder.Appends.{be32}
use imserver.Okstore.File.{uint32}

pub record Entry : Type 0 where
  pub relative_offset : ℕ
  pub position : ℕ

pub record MessageSeqPosition : Type 0 where
  pub message_seq : ℕ
  pub position : ℕ

pub record Index : Type 0 where
  pub position : ℕ
  pub base_message_seq : ℕ
  pub mmap : List ℕ

-- `binary.Size(Entry{})`
abbrev pub entry_size : ℕ
entry_size = 8

-- `IndexMaxSizeOfByte`
abbrev pub max_bytes : ℕ
max_bytes = 2 * 1024 * 1024

abbrev pub warm_entries : ℕ
warm_entries = 8192 / 8

-- `binary.Write` of an entry.
unfoldable pub entry_bytes : Entry → List ℕ
entry_bytes e = be32 e.relative_offset ++ be32 e.position

-- `writeAt`
unfoldable pub write_at : List ℕ → ℕ → List ℕ → List ℕ
write_at p offset mmap = take offset mmap ++ (p ++ drop (offset + length p) mmap)

-- `offset - idx.baseMessageSeq`, on 32 bits.
unfoldable pub relative : Index → ℕ → ℕ
relative idx offset = (offset + 2 ^ 32 - idx.base_message_seq) % 2 ^ 32

-- `Append`; a full index takes no more entries, and that is no error.
unfoldable pub append : ℕ → ℕ → Index → Index
append offset position idx =
    let entry : Entry = record { relative_offset = relative idx offset; position = position } in
    if leb max_bytes idx.position then idx else record idx {
      mmap = write_at (entry_bytes entry) idx.position idx.mmap;
      position = idx.position + entry_size;
    }

-- `parseEntry`
unfoldable pub parse_entry : Index → ℕ → MessageSeqPosition
parse_entry idx mid =
    let p = take entry_size (drop (mid * entry_size) idx.mmap) in
    if ltb (length idx.mmap) (mid * entry_size + entry_size)
    then record { message_seq = idx.base_message_seq; position = 0 }
    else record {
      message_seq = (idx.base_message_seq + uint32 p) % 2 ^ 32;
      position = uint32 (drop 4 p);
    }

-- The key that `compareIndexEntry` compares.
abbrev pub key : Index → ℕ → ℕ
key idx i = (parse_entry idx i).message_seq

-- The loop of `binarySearch`; the first argument bounds the rounds.
unfoldable pub search_loop : ℕ → Index → ℕ → ℕ → ℕ → ℕ
search_loop zero idx target lo hi = lo
search_loop (suc f) idx target lo hi =
    let mid = (lo + hi + 1) / 2 in
    let left = search_loop f idx target lo (mid - 1) in
    let right = search_loop f idx target mid hi in
    let halved =
      if ltb target (key idx mid) then left else if ltb (key idx mid) target then right else mid in
    if ltb lo hi then halved else lo

-- `indexSlotRangeFor`, the first of its results: nothing for -1. `Lookup` reads no more.
unfoldable pub index_slot_range_for : Index → ℕ → Option ℕ
index_slot_range_for idx target =
    let entries = idx.position / entry_size in
    let first_hot = entries - 1 - warm_entries in
    let hot = search_loop entries idx target first_hot (entries - 1) in
    let cold = search_loop entries idx target 0 first_hot in
    if entries == 0
    then none
    else if ltb (key idx first_hot) target
    then some hot
    else if ltb target (key idx 0)
    then none
    else some cold

-- `Lookup`
abbrev pub at_slot : Index → Option ℕ → MessageSeqPosition
at_slot idx none = record { message_seq = idx.base_message_seq; position = 0 }
at_slot idx (some min) = parse_entry idx min

unfoldable pub lookup : Index → ℕ → MessageSeqPosition
lookup idx target = at_slot idx (index_slot_range_for idx target)

-- `LastPosition`
unfoldable pub last_position : Index → MessageSeqPosition
last_position idx =
    if idx.position == 0
    then record { message_seq = idx.base_message_seq; position = 0 }
    else parse_entry idx (idx.position / entry_size - 1)

-- `TruncateEntries`, nothing for its error.
unfoldable pub truncate_entries : ℕ → Index → Option Index
truncate_entries number idx =
    if ltb idx.position (number * entry_size)
    then none
    else some (record idx { position = number * entry_size })

-- `IsFull`
unfoldable pub is_full : Index → Bool
is_full idx = leb max_bytes idx.position
