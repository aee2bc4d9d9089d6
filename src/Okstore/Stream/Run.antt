-- ===== src/Okstore/Stream/Run.antt =====
-- A stream implements a numbered list of items, through writes and through the reopening of its file.
use imserver.Prelude.{
  ℕ, suc, ◌+◌, ◌%◌, ◌^◌, ◌<◌, ◌≡◌, refl, sym, ap, ◌∙◌, true, false, List, [], ◌∷◌, ◌++◌, append-nil,
  append_assoc, length, length-append, ◌==◌, arith, Bool-cases, inl, inr,
}
use mathlib.Core.Path.{subst}
use imserver.Okstore.File.{Result, ok, ◌>>=◌}
use imserver.Okstore.Stream.{
  Stream, new_stream, read_max_stream_seq_no_lock, next_stream_seq_no_lock, append_item, read_items,
}
use imserver.Okstore.Stream.Item.{StreamItem, encode_stream_item}
use imserver.Okstore.Stream.Item.Body.{Stands}
use imserver.Okstore.Stream.Item.RoundTrip.{Fits}
use imserver.Okstore.Stream.Reads.{
  items_bytes, Numbered, nil, cons, length-items_bytes, items_loop-items, max_loop-top,
  top-Numbered, sort-Numbered,
}

-- The stream holds these items; its number, once loaded, is theirs.
pub record IsStream (m : Stream) (items : List StreamItem) : Type 0 where
  pub bytes : m.stream_io ≡ items_bytes items
  pub numbered : Numbered 0 items
  pub loaded : m.max_stream_seq_loaded ≡ true → m.max_stream_seq ≡ length items

-- The lengths that are written fit their fields.
pub record IsWritable (item : StreamItem) : Type 0 where
  pub client_msg_no : length item.client_msg_no < 2 ^ 16
  pub blob : length item.blob < 2 ^ 32

abbrev pub number : StreamItem → ℕ → StreamItem
number item seq = record item { stream_seq = seq }

items_bytes-append :
    (items more : List StreamItem)
    → items_bytes (items ++ more) ≡ items_bytes items ++ items_bytes more
unfolding items_bytes
items_bytes-append [] more = refl
items_bytes-append (x ∷ items) more =
    ap (λ l. encode_stream_item x ++ l) (items_bytes-append items more)
    ∙ sym (append_assoc (encode_stream_item x) (items_bytes items) (items_bytes more))

items_bytes-one :
    (items : List StreamItem) (x : StreamItem)
    → items_bytes (items ++ x ∷ []) ≡ items_bytes items ++ encode_stream_item x
unfolding items_bytes
items_bytes-one items x =
    items_bytes-append items (x ∷ [])
    ∙ ap (λ l. items_bytes items ++ l) (append-nil (encode_stream_item x))

Numbered-append :
    (n : ℕ) (items : List StreamItem) (x : StreamItem)
    → Numbered n items
    → Fits x
    → x.stream_seq ≡ suc (n + length items)
    → Numbered n (items ++ x ∷ [])
Numbered-append n [] x num fits e = cons n x [] fits (omega (arith, e)) (nil _)
Numbered-append n (y ∷ items) x (cons n' y' items' good d num) fits e =
    cons n y _ good d (Numbered-append (suc n) items x num fits (omega (arith, e)))

module _ (m : Stream) where
  at_start : (items : List StreamItem) → IsStream m items → Stands m.stream_io 0 (items_bytes items)
  at_start items is = record { inside = omega arith; left = is.bytes }

  none_left :
      (items : List StreamItem) → IsStream m items → length m.stream_io ≡ length (items_bytes items)
  none_left items is = ap length is.bytes

  -- `readItems` of a stream that holds items gives the items in their order.
  pub read_items-IsStream : (items : List StreamItem) → IsStream m items → read_items m ≡ ok items
  unfolding read_items items_bytes
  read_items-IsStream [] is =
      let e : (length m.stream_io == 0) ≡ true = ground (arith, none_left [] is) in rw e refl
  read_items-IsStream (x ∷ items) is =
      let small = length-items_bytes (x ∷ items) in
      let e : (length m.stream_io == 0) ≡ false = ground (arith, none_left (x ∷ items) is, small) in
      rw
        (
          e,
          items_loop-items m.stream_io (length m.stream_io) 0 0 x items
              (omega (arith, none_left (x ∷ items) is, small)) is.numbered
              (at_start (x ∷ items) is),
          sort-Numbered 0 (x ∷ items) is.numbered,
        )
        refl

  read_max-IsStream :
      (items : List StreamItem)
      → IsStream m items
      → read_max_stream_seq_no_lock m ≡ ok (length items)
  unfolding read_max_stream_seq_no_lock items_bytes
  read_max-IsStream [] is =
      let e : (length m.stream_io == 0) ≡ true = ground (arith, none_left [] is) in rw e refl
  read_max-IsStream (x ∷ items) is =
      let small = length-items_bytes (x ∷ items) in
      let e : (length m.stream_io == 0) ≡ false = ground (arith, none_left (x ∷ items) is, small) in
      rw
        (
          e,
          max_loop-top m.stream_io (length m.stream_io) 0 0 0 x items
              (omega (arith, none_left (x ∷ items) is, small)) is.numbered
              (at_start (x ∷ items) is),
        )
        (ap ok (top-Numbered 0 (x ∷ items) is.numbered ∙ omega arith))

  -- What `nextStreamSeqNoLock` leaves: the number is loaded.
  abbrev pub ready : List StreamItem → Stream
  ready items = record m { max_stream_seq = length items; max_stream_seq_loaded = true }

  next-IsStream :
      (items : List StreamItem)
      → IsStream m items
      → suc (length items) < 2 ^ 32
      → (m' : Stream) × (next_stream_seq_no_lock m ≡ ok (suc (length items), m'))
        × (m'.stream_io ≡ m.stream_io)
        × (m'.max_stream_seq_loaded ≡ true)
  unfolding next_stream_seq_no_lock
  next-IsStream items is small =
      let e : (length items + 1) % 2 ^ 32 ≡ suc (length items) = omega (arith, small) in
      elim (Bool-cases m.max_stream_seq_loaded) [
        | inl y ↦ (m, ground (arith, is.loaded y, e), refl, y)
        | inr n ↦ (ready items, ground (arith, read_max-IsStream items is, e), refl, refl)
      ]

  -- `appendItem` gives the item the next number and puts it behind the items of the stream.
  pub append_item-IsStream :
      (items : List StreamItem) (item : StreamItem)
      → IsStream m items
      → IsWritable item
      → suc (length items) < 2 ^ 32
      → (m' : Stream) × (append_item item m ≡ ok (suc (length items), m'))
        × IsStream m' (items ++ number item (suc (length items)) ∷ [])
  unfolding append_item
  append_item-IsStream items item is fits small =
      let (m', e, kept, loaded) = next-IsStream items is small in
      let x = number item (suc (length items)) in
      let x-Fits : Fits x = record {
        client_msg_no = fits.client_msg_no;
        stream_seq = small;
        blob = fits.blob;
      } in
      (
        record m' {
          stream_io = m'.stream_io ++ encode_stream_item x;
          max_stream_seq = suc (length items);
        },
        rw e refl,
        record {
          bytes =
              ap (λ l. l ++ encode_stream_item x) (kept ∙ is.bytes) ∙ sym (items_bytes-one items x);
          numbered = Numbered-append 0 items x is.numbered x-Fits (omega arith);
          loaded = λ _. omega (arith, length-append items (x ∷ []));
        },
      )

-- What happens to a stream: an item is appended, or it is closed and its file opened again.
pub data Event : Type 0 where
  appended : StreamItem → Event
  reopened : Event

unfoldable pub run : List Event → Stream → Result Stream
run [] m = ok m
run (appended item ∷ events) m = append_item item m >>= λ r. run events r.1
run (reopened ∷ events) m = run events (new_stream m.stream_io)

-- The items of the events, numbered on from a number.
abbrev pub written : ℕ → List Event → List StreamItem
written n [] = []
written n (appended item ∷ events) = number item (suc n) ∷ written (suc n) events
written n (reopened ∷ events) = written n events

abbrev pub AllWritable : List Event → Type 0
AllWritable [] = Unit
AllWritable (appended item ∷ events) = IsWritable item × AllWritable events
AllWritable (reopened ∷ events) = AllWritable events

-- What a reopened stream holds.
reopen-IsStream :
    (m : Stream) (items : List StreamItem)
    → IsStream m items
    → IsStream (new_stream m.stream_io) items
unfolding new_stream
reopen-IsStream m items is = record { bytes = is.bytes; numbered = is.numbered; loaded = λ h. cc }

run-IsStream :
    (m : Stream) (items : List StreamItem) (events : List Event)
    → IsStream m items
    → AllWritable events
    → length items + length (written (length items) events) < 2 ^ 32
    → (m' : Stream) × (run events m ≡ ok m') × IsStream m' (items ++ written (length items) events)
unfolding run
run-IsStream m items [] is all small =
    (m, refl, subst (λ l. IsStream m l) (sym (append-nil items)) is)
run-IsStream m items (appended item ∷ events) is all small =
    let (m1, e, is1) = append_item-IsStream m items item is all.0 (omega (arith, small)) in
    let x = number item (suc (length items)) in
    let n : length (items ++ x ∷ []) ≡ suc (length items) =
      omega (arith, length-append items (x ∷ [])) in
    let k : length (items ++ x ∷ []) + length (written (length (items ++ x ∷ [])) events) < 2 ^ 32 =
      subst (λ (j : ℕ). j + length (written j events) < 2 ^ 32) (sym n) (omega (arith, small)) in
    let (m2, e2, is2) = run-IsStream m1 (items ++ x ∷ []) events is1 all.1 k in
    (
      m2,
      rw e e2,
      subst (λ l. IsStream m2 l)
          (append_assoc items (x ∷ []) (written (length (items ++ x ∷ [])) events)
            ∙ ap (λ (j : ℕ). items ++ x ∷ written j events) n)
          is2,
    )
run-IsStream m items (reopened ∷ events) is all small =
    run-IsStream (new_stream m.stream_io) items events (reopen-IsStream m items is) all small

-- On a stream whose file is empty, any sequence of `appendItem`s with the file closed and opened
-- again in between, of items whose client message number is below 2^16 bytes and whose blob is below
-- 2^32 bytes, and fewer than 2^32 of them: every call succeeds, and `readItems` then gives all the
-- items in the order in which they were appended, numbered 1, 2, 3 and so on.
pub read_items-run :
    (events : List Event)
    → AllWritable events
    → length (written 0 events) < 2 ^ 32
    → (m : Stream) × (run events (new_stream []) ≡ ok m) × (read_items m ≡ ok (written 0 events))
unfolding new_stream items_bytes
read_items-run events all small =
    let empty : IsStream (new_stream []) [] = record {
      bytes = refl;
      numbered = nil 0;
      loaded = λ h. absurd (cc);
    } in
    let (m, e, is) = run-IsStream (new_stream []) [] events empty all (omega (arith, small)) in
    (m, e, read_items-IsStream m (written 0 events) is)
