-- ===== src/Okstore/Stream/Item/RoundTrip.antt =====
-- An item that stands in a file is read back.
use imserver.Prelude.{
  ℕ, ◌+◌, ◌%◌, ◌^◌, ◌<◌, ◌≡◌, refl, ap, ◌∙◌, Bool, true, false, List, [], ◌∷◌, ◌++◌, append_assoc,
  length, if◌then◌else◌, arith,
}
use imserver.Proto.Encoder.Appends.{be16, be32, text}
use imserver.Okstore.File.{ok, whole, equal, uint32, uint32-be32}
use imserver.Okstore.Message.{expect}
use imserver.Okstore.Stream.Item.{
  StreamItem, encode_stream_item, uint16, read_blob, current_stream_item,
}
use imserver.Okstore.Stream.Item.Body.{
  item_bytes, encode_stream_item-bytes, Stands, read_at-part, Stands-next, uint16-be16,
}

-- The fields hold what their Go types hold, and what is written before a part is its length.
pub record Fits (s : StreamItem) : Type 0 where
  pub client_msg_no : length s.client_msg_no < 2 ^ 16
  pub stream_seq : s.stream_seq < 2 ^ 32
  pub blob : length s.blob < 2 ^ 32

-- What a read gives: the blob if it is asked for.
abbrev pub seen : StreamItem → Bool → StreamItem
seen s wanted = record s { blob = if wanted then s.blob else [] }

module _ (s : StreamItem) (fits : Fits s) (file : List ℕ) (start : ℕ) (rest : List ℕ)
    (at : Stands file start (encode_stream_item s ++ rest)) where
  abbrev tail : List ℕ
  tail = 0x3 ∷ rest

  abbrev blob_tail : List ℕ
  blob_tail = s.blob ++ tail

  abbrev len_tail : List ℕ
  len_tail = be32 (length s.blob % 2 ^ 32) ++ blob_tail

  abbrev seq_tail : List ℕ
  seq_tail = be32 s.stream_seq ++ len_tail

  abbrev no_tail : List ℕ
  no_tail = s.client_msg_no ++ seq_tail

  n : ℕ
  n = length s.client_msg_no

  size : ℕ
  size = length s.blob

  abbrev no_len_tail : List ℕ
  no_len_tail = be16 n ++ no_tail

  abbrev version_tail : List ℕ
  version_tail = (0x1 ∷ []) ++ no_len_tail

  spread : encode_stream_item s ++ rest ≡ (0x15 ∷ 0x16 ∷ []) ++ version_tail
  unfolding item_bytes text n
  spread = ap (λ l. l ++ rest) (encode_stream_item-bytes s) ∙ simp append_assoc

  at_magic : Stands file start ((0x15 ∷ 0x16 ∷ []) ++ version_tail)
  unfolding n
  at_magic = record { inside = at.inside; left = at.left ∙ spread }

  at_version : Stands file (start + 2) version_tail
  at_version = Stands-next (0x15 ∷ 0x16 ∷ []) version_tail at_magic (start + 2) refl

  at_len : Stands file (start + 3) no_len_tail
  at_len = Stands-next (0x1 ∷ []) no_len_tail at_version (start + 3) (omega arith)

  at_no : Stands file (start + 5) no_tail
  unfolding be16
  at_no = Stands-next (be16 n) no_tail at_len (start + 5) (omega arith)

  at_seq : Stands file (start + (5 + n)) seq_tail
  unfolding n
  at_seq = Stands-next s.client_msg_no seq_tail at_no (start + (5 + n)) (omega arith)

  at_blob_len : Stands file (start + (9 + n)) len_tail
  unfolding be32
  at_blob_len = Stands-next (be32 s.stream_seq) len_tail at_seq (start + (9 + n)) (omega arith)

  at_blob : Stands file (start + (13 + n)) blob_tail
  unfolding be32
  at_blob =
      Stands-next (be32 (length s.blob % 2 ^ 32)) blob_tail at_blob_len (start + (13 + n))
        (omega arith)

  at_end : Stands file (start + (13 + n + size)) tail
  unfolding size
  at_end = Stands-next s.blob tail at_blob (start + (13 + n + size)) (omega arith)

  n_read : uint16 (be16 n) ≡ n
  unfolding n
  n_read = uint16-be16 (length s.client_msg_no) fits.client_msg_no

  size_read : uint32 (be32 (length s.blob % 2 ^ 32)) ≡ size
  unfolding size
  size_read = uint32-be32 (length s.blob % 2 ^ 32) (omega arith) ∙ omega (arith, fits.blob)

  read_blob-part :
      (wanted : Bool)
      → read_blob wanted file (start + (13 + n)) size ≡ ok (if wanted then s.blob else [])
  unfolding read_blob whole size
  read_blob-part true = rw (read_at-part s.blob tail at_blob (length s.blob) refl) refl
  read_blob-part false = refl

  -- `currentStreamItem` at an item that stands in the file gives the item, with its blob if that is
  -- asked for, and the number of its bytes.
  pub current_stream_item-there :
      (wanted : Bool)
      → current_stream_item file start wanted
        ≡ ok (seen s wanted, 14 + length s.client_msg_no + length s.blob)
  unfolding current_stream_item whole expect equal n size
  current_stream_item-there wanted =
      rw
        (
          read_at-part (0x15 ∷ 0x16 ∷ []) version_tail at_magic 2 refl,
          read_at-part (be16 n) no_tail at_len 2 (unfold be16 in refl),
          n_read,
          read_at-part s.client_msg_no seq_tail at_no n refl,
          read_at-part (be32 s.stream_seq) len_tail at_seq 4 (unfold be32 in refl),
          read_at-part (be32 (length s.blob % 2 ^ 32)) blob_tail at_blob_len 4
              (unfold be32 in refl),
          size_read,
          read_blob-part wanted,
          read_at-part (0x3 ∷ []) rest at_end 1 refl,
          uint32-be32 s.stream_seq fits.stream_seq,
        )
        refl
