-- ===== src/Okstore/Segment/Check.antt =====
-- The check of a segment file when it is opened: `init`, `sanityCheck` and what these call. The backup
-- of a damaged file is left out.
pub mod Torn
pub mod Loops
pub mod Recovers
pub mod Opens
pub mod Init
use imserver.Prelude.{
  ℕ, zero, suc, ◌+◌, ◌-◌, ◌*◌, ◌%◌, ◌^◌, Bool, true, false, List, [], ◌∷◌, ◌++◌, length, take,
  replicate, ltb, leb, ◌==◌, ◌&&◌, not, if◌then◌else◌,
}
use imserver.Prelude.Int.{ℤ, pos, negsuc, sub_ℕ}
use imserver.Okstore.File.{
  Result, ok, err, eof, negative_offset, ◌>>=◌, full, short, read_at, whole, equal,
}
use imserver.Okstore.Message.{
  min_message_len, end_magic_number, valid, invalid, next_message_is_vail, decode_message_seq,
}
use imserver.Okstore.Index.{last_position}
use imserver.Okstore.Segment.{Segment}

-- The loop of `check`, on the position, the length that is valid and the length of the last message;
-- the first argument bounds the rounds.
unfoldable pub check_loop : ℕ → List ℕ → ℕ → ℕ → ℕ → ℕ → ℕ × ℕ
check_loop zero file size position vail last = (vail, last)
check_loop (suc f) file size position vail last =
    let round : ℕ × ℕ = elim (next_message_is_vail file position) [
      | invalid n e ↦ (vail, last)
      | valid n ↦ check_loop f file size (position + n) ((vail + n) % 2 ^ 32) n
    ] in
    if leb (size % 2 ^ 32) vail then (vail, last) else round

-- `File.Truncate`
unfoldable pub truncate : ℕ → List ℕ → List ℕ
truncate n file = take n file ++ replicate (n - length file) 0

-- `check`: where the last message starts.
unfoldable pub check : ℕ → Segment → ℤ × Segment
check size s =
    let r = check_loop (suc size) s.segment_file size 0 0 0 in
    let cut = if r.0 == size % 2 ^ 32 then s.segment_file else truncate r.0 s.segment_file in
    (sub_ℕ r.0 r.1, record s { position = r.0; segment_file = cut })

-- The loop of `sanitySimpleCheck`, on the position and the length of the last message.
unfoldable pub simple_loop : ℕ → List ℕ → ℕ → ℕ → ℕ → ℕ × ℕ
simple_loop zero file size start last = (start, last)
simple_loop (suc f) file size start last =
    let round : ℕ × ℕ = elim (next_message_is_vail file start) [
      | invalid n eof ↦ (start, last)
      | invalid n e ↦ simple_loop f file size (start + n) last
      | valid zero ↦ (start, last)
      | valid (suc n) ↦ simple_loop f file size (start + suc n) (suc n)
    ] in
    if leb size start then (start, last) else round

-- `sanitySimpleCheck`: whether it could tell, and where the last message starts.
unfoldable pub sanity_simple_check : ℕ → ℕ → Segment → Bool × (ℤ × Segment)
sanity_simple_check each_max size s =
    let p = last_position s.index in
    let r = simple_loop (suc size) s.segment_file size p.position 0 in
    if leb size (each_max + min_message_len)
    then (false, (pos 0, s))
    else if p.position == 0 && p.message_seq == 0
    then (false, (pos 0, s))
    else if r.1 == 0
    then (false, (pos 0, s))
    else (true, (sub_ℕ r.0 r.1, record s { position = r.0 % 2 ^ 32 }))

-- `hasEndMagicNumer`
unfoldable pub has_end_magic_number : ℕ → List ℕ → Result Bool
has_end_magic_number size file = do
  p ← whole (read_at file (size - 1) 1)
  ok (equal p end_magic_number)

-- `sanityCheck`; `each_max` is the configured size of a message.
unfoldable pub sanity_check : ℕ → Segment → Result (ℤ × Segment)
sanity_check each_max s =
    let size = length s.segment_file in
    let all = check size s in
    let simple = sanity_simple_check each_max size s in
    let look = do
      ended ← has_end_magic_number size s.segment_file
      ok (
          if not ended
          then all
          else if leb size (each_max + min_message_len)
          then all
          else if simple.0
          then simple.1
          else all)
    in if size == 0 then ok (pos 0, s) else look

-- The sequence number of the message that starts there; a read at a negative position is an error.
unfoldable pub last_seq_at : ℤ → Segment → Result ℕ
last_seq_at (pos zero) s =
    ok (if ltb 0 s.position then (s.base_message_seq + 1) % 2 ^ 32 else s.base_message_seq)
last_seq_at (pos (suc n)) s = do (seq, _) ← decode_message_seq s.segment_file (suc n); ok seq
last_seq_at (negsuc n) s = err negative_offset

-- `init` of the file as it is found.
unfoldable pub init : ℕ → Segment → Result Segment
init each_max s =
    let size = length s.segment_file in
    let opened = if ltb 0 size then record s { file_size = size } else s in
    let checked = do
      (start, s) ← sanity_check each_max opened
      seq ← last_seq_at start s
      ok (record s { last_msg_seq = seq; is_sanity_check = true })
    in if s.is_sanity_check then ok s else checked
