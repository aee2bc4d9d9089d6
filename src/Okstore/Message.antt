-- ===== src/Okstore/Message.antt =====
-- pkg/okstore/message.go and the functions of pkg/okstore/const.go that read one message: its bytes
-- in a segment file.
pub mod RoundTrip
use imserver.Prelude.{
  ℕ, ◌+◌, ◌-◌, ◌%◌, ◌^◌, List, [], ◌∷◌, ◌++◌, length, take, drop, leb, ◌&&◌, not, if◌then◌else◌,
}
use imserver.Proto.Encoder.Appends.{be32, be64}
use imserver.Okstore.File.{
  Error, Result, ok, err, panic, eof, start_magic, end_magic, bad_message, ◌>>=◌, Read, full, short,
  read_at, whole, equal, uint32, uint64,
}

abbrev pub magic_number : List ℕ
magic_number = 0x15 ∷ 0x16 ∷ []

abbrev pub end_magic_number : List ℕ
end_magic_number = 0x3 ∷ []

abbrev pub message_version : List ℕ
message_version = 0x01 ∷ []

abbrev pub message_seq_size : ℕ
message_seq_size = 8

abbrev pub message_data_len_size : ℕ
message_data_len_size = 4

abbrev pub appli_index_size : ℕ
appli_index_size = 8

-- The sum of the six sizes.
abbrev pub min_message_len : ℕ
min_message_len = 24

-- `EncodeMessage`
unfoldable pub encode_message : ℕ → List ℕ → List ℕ
encode_message message_seq body =
    magic_number
    ++ (message_version
        ++ (be32 (length body % 2 ^ 32)
            ++ (be64 message_seq ++ (be64 0 ++ (body ++ end_magic_number)))))

-- `msg[lo:hi]`, of a slice whose capacity is its length.
unfoldable pub slice : List ℕ → ℕ → ℕ → Result (List ℕ)
slice msg lo hi =
    if leb lo hi && leb hi (length msg) then ok (take (hi - lo) (drop lo msg)) else panic

-- A part that has to be these bytes.
unfoldable pub expect : List ℕ → List ℕ → Error → Result (List ℕ)
expect part wanted e = if equal part wanted then ok part else err e

-- `DecodeMessage`: the sequence number and the data.
unfoldable pub decode_message : List ℕ → Result (ℕ × List ℕ)
decode_message msg = do
  magic ← slice msg 0 2
  _ ← expect magic magic_number start_magic
  _ ← slice msg 2 3
  len_bytes ← slice msg 3 7
  seq_bytes ← slice msg 7 15
  _ ← slice msg 15 23
  body ← slice msg 23 (23 + uint32 len_bytes)
  tail ← slice msg (23 + uint32 len_bytes) (23 + uint32 len_bytes + 1)
  _ ← expect tail end_magic_number end_magic
  ok (uint64 seq_bytes % 2 ^ 32, body)

-- The result of `nextMessageIsVail`: the size of the message; or the bytes that were read, and the
-- error.
pub data Check : Type 0 where
  valid : ℕ → Check
  invalid : ℕ → Error → Check

-- Its last part, on the bytes of the length.
unfoldable pub check_end : List ℕ → ℕ → ℕ → Check
check_end file start size = elim (read_at file (start + 23 + size) 1) [
  | full tail ↦ if equal tail end_magic_number then valid (24 + size) else invalid 7 end_magic
  | short n ↦ invalid (6 + n) eof
]

-- `nextMessageIsVail`
unfoldable pub next_message_is_vail : List ℕ → ℕ → Check
next_message_is_vail file start = elim (read_at file start 2) [
  | short n ↦ invalid n eof
  | full magic ↦
      let sized : Check = elim (read_at file (start + 3) 4) [
        | short n ↦ invalid (2 + n) eof
        | full len_bytes ↦ check_end file start (uint32 len_bytes)
      ] in
      if equal magic magic_number then sized else invalid 2 start_magic
]

-- `decodeMessageSeq`: the sequence number and the length of the data.
unfoldable pub decode_message_seq : List ℕ → ℕ → Result (ℕ × ℕ)
decode_message_seq file position = do
  size_bytes ← whole (read_at file (position + 3) 4)
  seq_bytes ← whole (read_at file (position + 7) 8)
  ok (uint64 seq_bytes % 2 ^ 32, uint32 size_bytes)

-- `decodeMessageAt`: the message that `decode`, the store's `DecodeMessageFnc`, makes of its bytes,
-- and their number.
unfoldable pub decode_message_at : {A : Type 0} → (List ℕ → Result A) → List ℕ → ℕ → Result (A × ℕ)
decode_message_at decode file position = do
  min_bytes ← whole (read_at file position 23)
  _ ← expect (take 2 min_bytes) magic_number start_magic
  let size = uint32 (take 4 (drop 3 min_bytes))
  tail ← whole (read_at file (position + 23 + size) 1)
  _ ← expect tail end_magic_number end_magic
  total ← whole (read_at file position (24 + size))
  message ← decode total
  ok (message, 24 + size)
