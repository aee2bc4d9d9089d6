-- ===== src/Tests/Store.antt =====
-- The theorems on the message store, on a log of two messages.
use imserver.Prelude.{
  ◌==◌, ◌⊎◌, inl, inr, sym, ◌∙◌, get_or, length-append, ℕ, ◌≡◌, refl, List, [], ◌∷◌, ◌++◌, length,
  take, replicate, length-replicate, ap, true, false, leb, if◌then◌else◌, arith,
}
use imserver.Proto.Encoder.Appends.{be32, be64}
use imserver.Okstore.File.{ok}
use imserver.Okstore.Message.{encode_message, decode_message}
use imserver.Okstore.Message.RoundTrip.{Fits, decode_message-encode_message}
use imserver.Okstore.Index as Index
use imserver.Okstore.Index.{MessageSeqPosition, max_bytes, lookup, index_slot_range_for}
use imserver.Okstore.Index.Search.{Found, index_slot_range_for-Found}
use imserver.Okstore.Index.Entries.{IsValid, IsNext, append-IsValid, lookup-append}
use imserver.Okstore.Segment.{
  Messages, Segment, encode_all, append_messages, get_file_size, read_messages,
}
use imserver.Okstore.Segment.Log.{IsStored, IsLog, nil, cons, collect, start_of}
use imserver.Okstore.Segment.Refines.{last, next, IsSegment, visible, read_messages-visible}
use imserver.Okstore.Segment.Append.{last_seq, CanAppend, append_messages-IsSegment}
use mathlib.Core.Path.{subst}
use imserver.Okstore.Topic.{read_topic_messages}
use imserver.Okstore.Topic.Reads.{IsTopic, rises, one_left, logs, read_topic_messages-visible}
use imserver.Okstore.Segment.Check.{init}
use imserver.Okstore.Segment.Check.Loops.{IsTorn}
use imserver.Okstore.Segment.Check.Recovers.{OnDisk}
use imserver.Okstore.Segment.Check.Opens.{Seen, small_file}
use imserver.Okstore.Segment.Check.Init.{IsNew, init-IsSegment}

-- A new index.
unfoldable blank : ℕ → List ℕ
blank n = replicate n 0

length-blank : (n : ℕ) → length (blank n) ≡ n
unfolding blank
length-blank n = length-replicate n 0

abbrev empty_index : Index.Index
empty_index = record { position = 0; base_message_seq = 0; mmap = blank max_bytes }

empty_index-IsValid : IsValid empty_index
empty_index-IsValid = record {
  entries = refl;
  size = length-blank max_bytes;
  inside = omega arith;
  base = omega arith;
  ascending = λ i j h k. absurd (omega (arith, k));
}

first-IsNext : IsNext empty_index 5 100
first-IsNext = record {
  seq = omega arith;
  small = omega arith;
  behind = λ i h. absurd (omega (arith, h));
}

lookup-append_example :
    lookup (Index.append 5 100 empty_index) 7
    ≡ (if leb 5 7 then record { message_seq = 5; position = 100 } else lookup empty_index 7)
lookup-append_example =
    lookup-append empty_index 5 100 empty_index-IsValid first-IsNext (omega arith) 7

index_slot_range_for-Found_example :
    Found
      (Index.append 5 100 empty_index)
      7
      (index_slot_range_for (Index.append 5 100 empty_index) 7)
index_slot_range_for-Found_example =
    index_slot_range_for-Found (Index.append 5 100 empty_index) 7
      (append-IsValid empty_index 5 100 empty_index-IsValid first-IsNext).ascending

abbrev pairs : Messages (ℕ × List ℕ)
pairs = record { get_seq = λ m. m.0; encode = λ m. encode_message m.0 m.1; decode = decode_message }

stored : (m : ℕ × List ℕ) → Fits m.0 m.1 → IsStored pairs m
stored m fits = record {
  body = m.1;
  encoded = refl;
  fits = fits;
  decoded = decode_message-encode_message m.0 m.1 fits;
}

abbrev two : List (ℕ × List ℕ)
two = (1, 7 ∷ 8 ∷ []) ∷ (2, 9 ∷ []) ∷ []

abbrev third : ℕ × List ℕ
third = (3, 4 ∷ [])

two-IsLog : IsLog pairs two
two-IsLog =
    cons (stored (1, 7 ∷ 8 ∷ []) (record { seq = omega arith; size = omega arith }))
      (cons (stored (2, 9 ∷ []) (record { seq = omega arith; size = omega arith })) nil)

third-IsStored : IsStored pairs third
third-IsStored = stored third (record { seq = omega arith; size = omega arith })

abbrev segment : Segment
segment = record {
  base_message_seq = 0;
  segment_file = encode_all pairs two;
  position = start_of pairs two;
  is_sanity_check = true;
  last_msg_seq = 2;
  file_size = 0;
  index = empty_index;
  bytes_since_last_index_entry = 51;
}

segment-IsSegment : IsSegment pairs segment two
unfolding get_file_size encode_all encode_message be32 be64
segment-IsSegment = record {
  holds = record { bytes = refl; size = refl; at_end = refl; stored = two-IsLog };
  ascends = next (omega arith) (next (omega arith) last);
  base = refl;
  valid = empty_index-IsValid;
  indexed = λ i h. absurd (omega (arith, h));
}

read_messages-visible_example :
    read_messages pairs 2 10 segment collect [] ≡ ok (take 10 (visible pairs 0 2 two))
read_messages-visible_example = read_messages-visible pairs segment two segment-IsSegment 2 10

third-CanAppend : CanAppend pairs segment two (third ∷ [])
unfolding encode_all encode_message be32 be64
third-CanAppend = record {
  stored = cons third-IsStored nil;
  ascends = next (omega arith) last;
  small = omega arith;
  seqs = omega arith;
}

append_messages-IsSegment_example :
    IsSegment pairs (append_messages pairs (third ∷ []) segment).0 (two ++ third ∷ [])
append_messages-IsSegment_example =
    append_messages-IsSegment pairs segment two (third ∷ []) segment-IsSegment third-CanAppend

-- The third message was cut after five bytes.
abbrev torn : List ℕ
torn = take 5 (pairs.encode third)

abbrev crashed : Segment
crashed = record {
  base_message_seq = 0;
  segment_file = encode_all pairs two ++ torn;
  position = 0;
  is_sanity_check = false;
  last_msg_seq = 0;
  file_size = 0;
  index = empty_index;
  bytes_since_last_index_entry = 0;
}

torn-IsTorn : IsTorn pairs torn
unfolding encode_message be32 be64
torn-IsTorn = record {
  message = third;
  stored = third-IsStored;
  kept = 5;
  cut = omega arith;
  part = refl;
}

crashed-OnDisk : OnDisk pairs crashed two torn
unfolding encode_all encode_message be32 be64
crashed-OnDisk = record {
  bytes = refl;
  is_torn = torn-IsTorn;
  stored = two-IsLog;
  small = omega arith;
  ascends = next (omega arith) (next (omega arith) last);
  base = refl;
  valid = empty_index-IsValid;
  indexed = λ i h. absurd (omega (arith, h));
}

crashed-IsNew : IsNew pairs crashed two torn
crashed-IsNew = record {
  disk = crashed-OnDisk;
  closed = refl;
  fresh = refl;
  unsized = refl;
  single = λ m e. absurd (omega (arith, ap length e));
  whole = λ e. absurd (omega (arith, ap length e));
}

crashed-Seen : Seen 1000 crashed.segment_file torn
unfolding encode_all encode_message be32 be64
crashed-Seen = small_file (omega arith)

init-IsSegment_example :
    (t : Segment) × ((init 1000 crashed ≡ ok t)
      × (IsSegment pairs t two × (t.last_msg_seq ≡ last_seq pairs 0 two)))
init-IsSegment_example = init-IsSegment pairs 1000 crashed two torn crashed-IsNew crashed-Seen

-- A topic of two segments.
abbrev second_segment : Segment
second_segment = record {
  base_message_seq = 2;
  segment_file = encode_all pairs (third ∷ []);
  position = start_of pairs (third ∷ []);
  is_sanity_check = true;
  last_msg_seq = 3;
  file_size = 0;
  index = record empty_index { base_message_seq = 2 };
  bytes_since_last_index_entry = 25;
}

second_segment-IsSegment : IsSegment pairs second_segment (third ∷ [])
unfolding get_file_size encode_all encode_message be32 be64
second_segment-IsSegment = record {
  holds = record { bytes = refl; size = refl; at_end = refl; stored = cons third-IsStored nil };
  ascends = next (omega arith) last;
  base = refl;
  valid = record {
    entries = refl;
    size = length-blank max_bytes;
    inside = omega arith;
    base = omega arith;
    ascending = λ i j h k. absurd (omega (arith, k));
  };
  indexed = λ i h. absurd (omega (arith, h));
}

abbrev bases : List ℕ
bases = 0 ∷ 2 ∷ []

abbrev segment_of : ℕ → Segment
segment_of b = if b == 0 then segment else second_segment

abbrev log_of : ℕ → List (ℕ × List ℕ)
log_of b = if b == 0 then two else third ∷ []

of_bases :
    (before : List ℕ) (b : ℕ) (after : List ℕ) → bases ≡ before ++ b ∷ after → (b ≡ 0) ⊎ (b ≡ 2)
of_bases [] b after e = inl (sym (ap (λ l. get_or l 0 0) e))
of_bases (x ∷ []) b after e = inr (sym (ap (λ l. get_or l 1 0) e))
of_bases (x ∷ y ∷ before) b after e =
    absurd (omega (arith, ap length e, length-append before (b ∷ after)))

bases-IsTopic : IsTopic pairs segment_of bases log_of
bases-IsTopic = record {
  rising = rises (omega arith) one_left;
  base = λ before b after e. elim (of_bases before b after e) [
    | inl z ↦ ap (λ y. (segment_of y).base_message_seq) z ∙ sym z
    | inr z ↦ ap (λ y. (segment_of y).base_message_seq) z ∙ sym z
  ];
  segment = λ before b after e. elim (of_bases before b after e) [
    | inl z ↦ subst (λ y. IsSegment pairs (segment_of y) (log_of y)) (sym z) segment-IsSegment
    | inr z ↦
        subst (λ y. IsSegment pairs (segment_of y) (log_of y)) (sym z) second_segment-IsSegment
  ];
}

read_topic_messages-visible_example :
    read_topic_messages pairs segment_of bases 2 10
    ≡ ok (take 10 (visible pairs 0 2 two ++ logs pairs segment_of bases log_of (2 ∷ [])))
read_topic_messages-visible_example =
    read_topic_messages-visible pairs segment_of bases log_of bases-IsTopic [] 0 (2 ∷ []) 2 10 refl
      (record { from = omega arith; past = λ h. absurd (omega (arith, h)); upto = refl })
