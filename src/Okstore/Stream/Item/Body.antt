-- ===== src/Okstore/Stream/Item/Body.antt =====
-- The bytes of a stream item in plain arithmetic, and reads of a file part by part.
use imserver.Prelude.{
  ℕ, ◌+◌, ◌-◌, ◌%◌, ◌^◌, ◌≤◌, ◌<◌, ◌≡◌, refl, sym, ap, ◌∙◌, List, [], ◌∷◌, ◌++◌, append_assoc,
  length, length-append, length-drop, take, take-append, drop, drop-append, drop-drop, arith,
}
use imserver.Proto.Encoder.Appends.{be16, be32, text, appends, length-text, length-be32}
use imserver.Okstore.File.{full, read_at}
use imserver.Okstore.Stream.Item.{StreamItem, encode_stream_item, uint16}

-- The bytes of the item.
unfoldable pub item_bytes : StreamItem → List ℕ
item_bytes s =
    (0x15 ∷ 0x16 ∷ 0x01 ∷ [])
    ++ (text s.client_msg_no
        ++ (be32 s.stream_seq ++ (be32 (length s.blob % 2 ^ 32) ++ (s.blob ++ (0x3 ∷ [])))))

pub encode_stream_item-bytes : (s : StreamItem) → encode_stream_item s ≡ item_bytes s
unfolding encode_stream_item item_bytes
encode_stream_item-bytes s = simp (appends, append_assoc)

pub length-item :
    (s : StreamItem) → length (encode_stream_item s) ≡ 14 + length s.client_msg_no + length s.blob
unfolding item_bytes
length-item s =
    ap length (encode_stream_item-bytes s)
    ∙ omega (
      arith,
      length-append (text s.client_msg_no)
          (be32 s.stream_seq ++ (be32 (length s.blob % 2 ^ 32) ++ (s.blob ++ (0x3 ∷ [])))),
      length-append (be32 s.stream_seq) (be32 (length s.blob % 2 ^ 32) ++ (s.blob ++ (0x3 ∷ []))),
      length-append (be32 (length s.blob % 2 ^ 32)) (s.blob ++ (0x3 ∷ [])),
      length-append s.blob (0x3 ∷ []),
      length-text s.client_msg_no,
      length-be32 s.stream_seq,
      length-be32 (length s.blob % 2 ^ 32),
    )

-- `rest` is what stands in the file from an offset on.
pub record Stands (file : List ℕ) (offset : ℕ) (rest : List ℕ) : Type 0 where
  pub inside : offset ≤ length file
  pub left : drop offset file ≡ rest

module _ {file : List ℕ} {offset : ℕ} (part rest : List ℕ)
    (at : Stands file offset (part ++ rest)) where
  room : length part + length rest ≡ length file - offset
  room = omega (arith, ap length at.left, length-drop offset file, length-append part rest)

  -- A read of the first part.
  pub read_at-part : (n : ℕ) → n ≡ length part → read_at file offset n ≡ full part
  unfolding read_at
  read_at-part n e = ground (arith, room, at.inside, ap (take n) at.left, take-append part rest n e)

  -- What stands behind the first part.
  pub Stands-next : (n : ℕ) → n ≡ offset + length part → Stands file n rest
  Stands-next n e = record {
    inside = omega (arith, room, at.inside);
    left =
        ap (λ (k : ℕ). drop k file) e
        ∙ sym (drop-drop offset (length part) file)
        ∙ ap (drop (length part)) at.left
        ∙ drop-append part rest _ refl;
  }

pub uint16-be16 : (v : ℕ) → v < 2 ^ 16 → uint16 (be16 v) ≡ v
unfolding uint16 be16
uint16-be16 v h = omega arith
