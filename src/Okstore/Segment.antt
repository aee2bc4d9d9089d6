-- ===== src/Okstore/Segment.antt =====
-- pkg/okstore/segment.go: a segment, a file of messages one behind the other with its index. The file
-- is opened to append, so that a write goes behind its last byte.
pub mod Log
pub mod Reads
pub mod Refines
pub mod Single
pub mod Append
pub mod Check
use imserver.Prelude.{
  ℕ, zero, suc, ◌+◌, ◌-◌, ◌*◌, ◌%◌, ◌^◌, Bool, true, false, List, [], ◌∷◌, ◌++◌, length, take, ltb,
  leb, ◌==◌, ◌&&◌, ◌||◌, if◌then◌else◌,
}
use imserver.Okstore.File.{
  Error, Result, ok, err, panic, eof, no_data, ◌>>=◌, Read, full, short, read_at, whole, equal,
}
use imserver.Okstore.Message.{
  min_message_len, end_magic_number, valid, invalid, next_message_is_vail, decode_message_seq,
  decode_message_at,
}
use imserver.Okstore.Index.{Index, MessageSeqPosition, append, lookup, last_position}

-- What the store calls of a message, and the configured `DecodeMessageFnc`.
pub record Messages (A : Type 0) : Type 0 where
  pub get_seq : A → ℕ
  pub encode : A → List ℕ
  pub decode : List ℕ → Result A

-- `newSegment` sets the index interval.
abbrev pub index_interval_bytes : ℕ
index_interval_bytes = 4 * 1024

pub record Segment : Type 0 where
  pub base_message_seq : ℕ
  pub segment_file : List ℕ
  pub position : ℕ
  pub is_sanity_check : Bool
  pub last_msg_seq : ℕ
  pub file_size : ℕ
  pub index : Index
  pub bytes_since_last_index_entry : ℕ

unfoldable pub get_file_size : Segment → ℕ
get_file_size s = if s.position == 0 then s.file_size else s.position

-- `segment.append`
unfoldable pub append_bytes : List ℕ → Segment → Segment
append_bytes bytes s = record s {
  segment_file = s.segment_file ++ bytes;
  position = (s.position + length bytes) % 2 ^ 32;
}

-- `readTargetPosition`: the position of the target and of what follows it; the first argument bounds
-- the rounds.
unfoldable pub read_target_position : ℕ → Segment → ℕ → ℕ → Result (ℕ × ℕ)
read_target_position zero s start target = panic
read_target_position (suc f) s start target =
    let round = do
      (seq, data_len) ← decode_message_seq s.segment_file start
      let next = start + (min_message_len + data_len)
      let rest = read_target_position f s next target
      if seq == target then ok (start, next) else rest
    in if leb (get_file_size s) start then err no_data else round

-- Every round takes at least a byte.
abbrev pub rounds : Segment → ℕ
rounds s = suc (get_file_size s)

-- The index entry of `appendMessages` when one is due: `n` bytes back.
abbrev pub mark : Bool → ℕ → ℕ → Segment → Segment
mark false seq n s = s
mark true seq n s = record s {
  index = append seq ((s.position + 2 ^ 32 - n % 2 ^ 32) % 2 ^ 32) s.index;
  bytes_since_last_index_entry = 0;
}

module _ {A : Type 0} (ms : Messages A) where
  unfoldable pub encode_all : List A → List ℕ
  encode_all [] = []
  encode_all (m ∷ more) = ms.encode m ++ encode_all more

  -- `appendMessages`, the messages in their order; the number of bytes.
  unfoldable pub append_messages : List A → Segment → Segment × ℕ
  append_messages [] s = (s, 0)
  append_messages (m ∷ more) s =
      let bytes = encode_all (m ∷ more) in
      let n = length bytes in
      let due =
        ltb index_interval_bytes s.bytes_since_last_index_entry || ltb index_interval_bytes n in
      let marked = mark due (ms.get_seq m) n (append_bytes bytes s) in
      (record marked { bytes_since_last_index_entry = marked.bytes_since_last_index_entry + n }, n)

  -- `readMessagesAtPosition`: the first argument is `limit - count`, and the last the state of the
  -- callback.
  unfoldable pub read_messages_at_position :
      {S : Type 0} → ℕ → Segment → ℕ → (A → S → Result S) → S → Result S
  read_messages_at_position zero s position callback st = ok st
  read_messages_at_position (suc more) s position callback st =
      let round = do
        (m, size) ← decode_message_at ms.decode s.segment_file position
        st ← callback m st
        read_messages_at_position more s (position + size) callback st
      in if leb (get_file_size s) position then ok st else round

  -- The second part of `readMessages`, behind the search for the start.
  unfoldable pub read_from :
      {S : Type 0} → Result (ℕ × ℕ) → ℕ → Segment → (A → S → Result S) → S → Result S
  read_from (ok (start, next)) limit s callback st =
      read_messages_at_position limit s start callback st
  read_from (err no_data) limit s callback st = ok st
  read_from (err e) limit s callback st = err e
  read_from panic limit s callback st = panic

  -- `readMessages`
  unfoldable pub read_messages : {S : Type 0} → ℕ → ℕ → Segment → (A → S → Result S) → S → Result S
  read_messages message_seq limit s callback st =
      let found = lookup s.index message_seq in
      let start =
        if found.message_seq == message_seq
        then ok (found.position, 0)
        else read_target_position (rounds s) s found.position message_seq in
      read_from start limit s callback st

  -- `readAt`
  unfoldable pub read_message : ℕ → Segment → Result A
  read_message message_seq s = do
    let found = lookup s.index message_seq
    (target, _) ← read_target_position (rounds s) s found.position message_seq
    (m, _) ← decode_message_at ms.decode s.segment_file target
    ok m
