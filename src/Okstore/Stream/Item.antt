-- ===== src/Okstore/Stream/Item.antt =====
-- The stream items of pkg/okstore/model.go: their bytes, and how one is read off a file.
pub mod Body
pub mod RoundTrip
use imserver.Prelude.{
  ℕ, ◌+◌, ◌*◌, ◌-◌, ◌%◌, ◌^◌, Bool, List, [], ◌∷◌, length, get_or, if◌then◌else◌,
}
use imserver.Proto.Encoder.{new_encoder, ◌|>◌, write_bytes, write_string, write_uint32}
use imserver.Okstore.File.{
  Result, ok, err, panic, start_magic, end_magic, ◌>>=◌, Read, read_at, whole, equal, uint32,
}
use imserver.Okstore.Message.{expect}

abbrev pub stream_version : List ℕ
stream_version = 0x01 ∷ []

abbrev pub stream_magic_number : List ℕ
stream_magic_number = 0x15 ∷ 0x16 ∷ []

abbrev pub stream_end_magic_number : List ℕ
stream_end_magic_number = 0x3 ∷ []

pub record StreamItem : Type 0 where
  pub client_msg_no : List ℕ
  pub stream_seq : ℕ
  pub blob : List ℕ

-- `EncodeStreamItem`
unfoldable pub encode_stream_item : StreamItem → List ℕ
encode_stream_item s =
    new_encoder
    |> write_bytes stream_magic_number
    |> write_bytes stream_version
    |> write_string s.client_msg_no
    |> write_uint32 s.stream_seq
    |> write_uint32 (length s.blob % 2 ^ 32)
    |> write_bytes s.blob
    |> write_bytes stream_end_magic_number

-- `Encoding.Uint16`: big-endian, of the first bytes.
unfoldable pub uint16 : List ℕ → ℕ
uint16 b = get_or b 0 0 * 2 ^ 8 + get_or b 1 0

-- The blob, if it is asked for.
unfoldable pub read_blob : Bool → List ℕ → ℕ → ℕ → Result (List ℕ)
read_blob wanted file offset size =
    let blob = whole (read_at file offset size) in if wanted then blob else ok []

-- `currentStreamItem`: the item at an offset, and the number of its bytes. With `readBlob` false it is
-- `currentStreamBaseInfo`.
unfoldable pub current_stream_item : List ℕ → ℕ → Bool → Result (StreamItem × ℕ)
unfolding read_blob
current_stream_item file start wanted = do
  magic ← whole (read_at file start 2)
  _ ← expect magic stream_magic_number start_magic
  no_len ← whole (read_at file (start + 3) 2)
  let n = uint16 no_len
  client_msg_no ← whole (read_at file (start + 5) n)
  seq ← whole (read_at file (start + (5 + n)) 4)
  blob_len ← whole (read_at file (start + (9 + n)) 4)
  let size = uint32 blob_len
  blob ← read_blob wanted file (start + (13 + n)) size
  tail ← whole (read_at file (start + (13 + n + size)) 1)
  _ ← expect tail stream_end_magic_number end_magic
  ok (record { client_msg_no = client_msg_no; stream_seq = uint32 seq; blob = blob }, 14 + n + size)
