-- ===== src/Okstore/Stream/Reads.antt =====
-- The loops over a stream's file, when it holds whole items.
use imserver.Prelude.{
  ℕ, zero, suc, ◌+◌, ◌≤◌, ◌<◌, ◌≡◌, refl, ap, ◌∙◌, Bool, true, false, List, [], ◌∷◌, ◌++◌, length,
  length-append, length-drop, leb, arith,
}
use imserver.Okstore.File.{ok}
use imserver.Okstore.Stream.{max_loop, items_loop, place, sort}
use imserver.Okstore.Stream.Item.{StreamItem, encode_stream_item, current_stream_item}
use imserver.Okstore.Stream.Item.Body.{length-item, Stands, Stands-next}
use imserver.Okstore.Stream.Item.RoundTrip.{Fits, seen, current_stream_item-there}

-- The bytes of items, one behind the other.
unfoldable pub items_bytes : List StreamItem → List ℕ
items_bytes [] = []
items_bytes (x ∷ items) = encode_stream_item x ++ items_bytes items

-- Items that are numbered on from a number, and whose fields fit.
pub data Numbered : ℕ → List StreamItem → Type 0 where
  nil : (n : ℕ) → Numbered n []
  cons :
      (n : ℕ) (x : StreamItem) (items : List StreamItem)
      → Fits x
      → x.stream_seq ≡ suc n
      → Numbered (suc n) items
      → Numbered n (x ∷ items)

pub length-items_bytes : (items : List StreamItem) → length items ≤ length (items_bytes items)
unfolding items_bytes
length-items_bytes [] = omega arith
length-items_bytes (x ∷ items) = omega (
  arith,
  length-items_bytes items,
  length-append (encode_stream_item x) (items_bytes items),
  length-item x,
)

module _ (file : List ℕ) (offset : ℕ) (x : StreamItem) (items : List StreamItem) (fits : Fits x)
    (at : Stands file offset (items_bytes (x ∷ items))) where
  abbrev size : ℕ
  size = 14 + length x.client_msg_no + length x.blob

  at_next : Stands file (offset + size) (items_bytes items)
  unfolding items_bytes
  at_next =
      Stands-next (encode_stream_item x) (items_bytes items) at (offset + size)
        (omega (arith, length-item x))

  item_there : (wanted : Bool) → current_stream_item file offset wanted ≡ ok (seen x wanted, size)
  unfolding items_bytes
  item_there wanted = current_stream_item-there x fits file offset (items_bytes items) at wanted

  left_over : length file ≡ offset + size + length (items_bytes items)
  unfolding items_bytes
  left_over = omega (
    arith,
    at.inside,
    ap length at.left,
    length-drop offset file,
    length-append (encode_stream_item x) (items_bytes items),
    length-item x,
  )

-- The highest number: that of the last item.
abbrev pub top : ℕ → List StreamItem → ℕ
top n [] = n
top n (x ∷ items) = top x.stream_seq items

module _ (file : List ℕ) where
  stops-last :
      (offset n : ℕ) (x : StreamItem)
      → Fits x
      → Stands file offset (items_bytes (x ∷ []))
      → leb (length file) (offset + (14 + length x.client_msg_no + length x.blob)) ≡ true
  unfolding items_bytes
  stops-last offset n x fits at = ground (arith, left_over file offset x [] fits at)

  goes_on :
      (offset n : ℕ) (x y : StreamItem) (items : List StreamItem)
      → Fits x
      → Stands file offset (items_bytes (x ∷ y ∷ items))
      → leb (length file) (offset + (14 + length x.client_msg_no + length x.blob)) ≡ false
  goes_on offset n x y items fits at =
      ground (arith, left_over file offset x (y ∷ items) fits at, length-items_bytes (y ∷ items))

  pub items_loop-items :
      (f offset n : ℕ) (x : StreamItem) (items : List StreamItem)
      → length items < f
      → Numbered n (x ∷ items)
      → Stands file offset (items_bytes (x ∷ items))
      → items_loop f file offset ≡ ok (x ∷ items)
  unfolding items_loop
  items_loop-items zero offset n x items h num at = absurd (omega arith)
  items_loop-items (suc f) offset n x [] h (cons n' x' items' fits e num) at =
      rw (item_there file offset x [] fits at true, stops-last offset n x fits at) refl
  items_loop-items (suc f) offset n x (y ∷ items) h (cons n' x' items' fits e num) at =
      rw
        (
          item_there file offset x (y ∷ items) fits at true,
          goes_on offset n x y items fits at,
          items_loop-items f _ _ y items (omega arith) num
              (at_next file offset x (y ∷ items) fits at),
        )
        refl

  pub max_loop-top :
      (f offset n k : ℕ) (x : StreamItem) (items : List StreamItem)
      → length items < f
      → Numbered n (x ∷ items)
      → Stands file offset (items_bytes (x ∷ items))
      → max_loop f file offset ≡ ok (top k (x ∷ items))
  unfolding max_loop
  max_loop-top zero offset n k x items h num at = absurd (omega arith)
  max_loop-top (suc f) offset n k x [] h (cons n' x' items' fits e num) at =
      rw (item_there file offset x [] fits at false, stops-last offset n x fits at) refl
  max_loop-top (suc f) offset n k x (y ∷ items) h (cons n' x' items' fits e num) at =
      rw
        (
          item_there file offset x (y ∷ items) fits at false,
          goes_on offset n x y items fits at,
          max_loop-top f _ _ x.stream_seq y items (omega arith) num
              (at_next file offset x (y ∷ items) fits at),
        )
        refl

pub top-Numbered :
    (n : ℕ) (items : List StreamItem) → Numbered n items → top n items ≡ n + length items
top-Numbered n [] num = omega arith
top-Numbered n (x ∷ items) (cons n' x' items' fits e num) =
    ap (λ (k : ℕ). top k items) e ∙ top-Numbered (suc n) items num ∙ omega arith

-- Numbered items are in the order of their numbers, so that the sort leaves them.
place-first :
    (x : StreamItem) (n : ℕ) (items : List StreamItem)
    → x.stream_seq ≡ n
    → Numbered n items
    → place x items ≡ x ∷ items
unfolding place
place-first x n [] e num = refl
place-first x n (y ∷ items) e (cons n' y' items' fits d num) = ground arith

pub sort-Numbered : (n : ℕ) (items : List StreamItem) → Numbered n items → sort items ≡ items
unfolding sort
sort-Numbered n [] num = refl
sort-Numbered n (x ∷ items) (cons n' x' items' fits e num) =
    ap (place x) (sort-Numbered (suc n) items num) ∙ place-first x (suc n) items e num
