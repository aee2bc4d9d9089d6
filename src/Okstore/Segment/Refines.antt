-- ===== src/Okstore/Segment/Refines.antt =====
-- A segment implements a log: a list of messages in the order of their sequence numbers. The index
-- only says where a read starts.
use imserver.Prelude.{
  ℕ, zero, suc, ◌≤◌, ◌<◌, ◌≡◌, refl, sym, ap, ◌∙◌, true, false, List, [], ◌∷◌, ◌++◌, length, take,
  ◌==◌, if◌then◌else◌, append_assoc, arith, inl, inr, Bool-cases, Option,
}
use mathlib.Core.Path.{subst}
use imserver.Okstore.File.{ok}
use imserver.Okstore.Index.{MessageSeqPosition, parse_entry, lookup, at_slot}
use imserver.Okstore.Index.Search.{count, Found, nowhere, at, index_slot_range_for-Found}
use imserver.Okstore.Index.Entries.{IsValid}
use imserver.Okstore.Segment.{
  Messages, Segment, rounds, get_file_size, read_target_position, encode_all,
  read_messages_at_position, read_from, read_messages,
}
use imserver.Okstore.Segment.Log.{IsLog, cons, Holds, collect, start_of, start-suc}
use imserver.Okstore.Segment.Reads.{
  from_seq, locate, read_messages_at_position-take, read_target_position-locate,
}

module _ {A : Type 0} (ms : Messages A) where
  -- The sequence numbers go up from behind `base`.
  pub data Ascends : ℕ → List A → Type 0 where
    last : {base : ℕ} → Ascends base []
    next :
        {base : ℕ} {m : A} {log : List A}
        → base < ms.get_seq m
        → Ascends (ms.get_seq m) log
        → Ascends base (m ∷ log)

  -- The entry is the sequence number and the position of a message of the log.
  pub record Refers (log : List A) (p : MessageSeqPosition) : Type 0 where
    pub before : List A
    pub after : List A
    pub message : A
    pub split : log ≡ before ++ message ∷ after
    pub seq : p.message_seq ≡ ms.get_seq message
    pub position : p.position ≡ start_of ms before

  -- The segment holds the log, and its index says where some of its messages stand.
  pub record IsSegment (s : Segment) (log : List A) : Type 0 where
    pub holds : Holds ms s log
    pub ascends : Ascends s.base_message_seq log
    pub base : s.index.base_message_seq ≡ s.base_message_seq
    pub valid : IsValid s.index
    pub indexed : (i : ℕ) → i < count s.index → Refers log (parse_entry s.index i)

  pub behind-base :
      (base : ℕ) (before : List A) (m : A) (after : List A)
      → Ascends base (before ++ m ∷ after)
      → base < ms.get_seq m
  behind-base base [] m after (next h up) = h
  behind-base base (x ∷ before) m after (next h up) =
      omega (arith, h, behind-base (ms.get_seq x) before m after up)

  skip-from_seq :
      (target base : ℕ) (before : List A) (m : A) (after : List A)
      → Ascends base (before ++ m ∷ after)
      → ms.get_seq m ≤ target
      → from_seq ms target (before ++ m ∷ after) ≡ from_seq ms target (m ∷ after)
  skip-from_seq target base [] m after up le = refl
  skip-from_seq target base (x ∷ before) m after (next h up) le =
      let other : (ms.get_seq x == target) ≡ false =
        ground (arith, behind-base (ms.get_seq x) before m after up) in
      rw other (skip-from_seq target (ms.get_seq x) before m after up le)

  take-nil : (n : ℕ) → [] ≡ take {A = A} n []
  take-nil zero = refl
  take-nil (suc n) = refl

  pub IsLog-drop : (before : List A) {after : List A} → IsLog ms (before ++ after) → IsLog ms after
  IsLog-drop [] log = log
  IsLog-drop (x ∷ before) (cons h log) = IsLog-drop before log

  -- What a read from `target` on gives of a log: from the segment's own base on, all of it.
  abbrev pub visible : ℕ → ℕ → List A → List A
  visible base target log = if base == target then log else from_seq ms target log

  module _ (s : Segment) (log : List A) (seg : IsSegment s log) (target : ℕ) where
    abbrev size : get_file_size s ≡ length s.segment_file
    size = seg.holds.size

    read_at_start :
        (limit : ℕ) (before after : List A)
        → log ≡ before ++ after
        → read_messages_at_position ms limit s (start_of ms before) collect []
          ≡ ok (take limit after)
    read_at_start limit before after e =
        read_messages_at_position-take ms s size limit before after []
          (IsLog-drop before (subst (IsLog ms) e seg.holds.stored))
          (seg.holds.bytes ∙ ap (encode_all ms) e)

    pub find_target :
        (before after : List A)
        → log ≡ before ++ after
        → read_target_position (rounds s) s (start_of ms before) target
          ≡ locate ms target (start_of ms before) after
    find_target before after e =
        read_target_position-locate ms s size (rounds s) target before after
          (IsLog-drop before (subst (IsLog ms) e seg.holds.stored))
          (seg.holds.bytes ∙ ap (encode_all ms) e) (omega (arith, size))

    -- The read that starts where the target was found.
    read-locate :
        (limit : ℕ) (before after : List A)
        → log ≡ before ++ after
        → read_from ms (locate ms target (start_of ms before) after) limit s collect []
          ≡ ok (take limit (from_seq ms target after))
    unfolding read_from
    read-locate limit before [] e = ap ok (take-nil limit)
    read-locate limit before (m ∷ after) e = elim (Bool-cases (ms.get_seq m == target)) [
      | inl here ↦ rw here (read_at_start limit before (m ∷ after) e)
      | inr other ↦
          rw (other, start-suc ms before m)
            (read-locate limit (before ++ m ∷ []) after
              (e ∙ sym (append_assoc before (m ∷ []) after)))
    ]

    -- What a read needs of the place that a lookup gives.
    pub record Starts (p : MessageSeqPosition) : Type 0 where
      pub before : List A
      pub after : List A
      pub split : log ≡ before ++ after
      pub position : p.position ≡ start_of ms before
      exact : (p.message_seq == target) ≡ true → after ≡ visible s.base_message_seq target log
      behind :
          (p.message_seq == target) ≡ false
          → from_seq ms target after ≡ visible s.base_message_seq target log
      pub same : from_seq ms target after ≡ from_seq ms target log

    Refers-Starts : (p : MessageSeqPosition) → p.message_seq ≤ target → Refers log p → Starts p
    Refers-Starts p le r =
        let up = subst (Ascends s.base_message_seq) r.split seg.ascends in
        let skip =
          skip-from_seq target s.base_message_seq r.before r.message r.after up
            (omega (arith, r.seq, le)) in
        let same = sym (ap (from_seq ms target) r.split ∙ skip) in
        let above : (s.base_message_seq == target) ≡ false =
          ground (arith, behind-base s.base_message_seq r.before r.message r.after up, r.seq) in
        record {
          before = r.before;
          after = r.message ∷ r.after;
          split = r.split;
          position = r.position;
          exact = λ h. rw above (
              let here : (ms.get_seq r.message == target) ≡ true = ground (arith, r.seq) in
              rw (sym same, here) refl);
          behind = λ h. rw above same;
          same = same;
        }

    at_slot-Starts : (o : Option ℕ) → Found s.index target o → Starts (at_slot s.index o)
    unfolding encode_all
    at_slot-Starts _ (nowhere past) = record {
      before = [];
      after = log;
      split = refl;
      position = refl;
      exact = λ h.
          (let e : (s.base_message_seq == target) ≡ true = ground (arith, seg.base) in rw e refl);
      behind = λ h.
          (let e : (s.base_message_seq == target) ≡ false = ground (arith, seg.base) in rw e refl);
      same = refl;
    }
    at_slot-Starts _ (at r some_entry l) =
        Refers-Starts (parse_entry s.index r) l.before
          (seg.indexed r (omega (arith, some_entry, l.inside)))

    pub lookup-Starts : Starts (lookup s.index target)
    unfolding lookup
    lookup-Starts = at_slot-Starts _ (index_slot_range_for-Found s.index target seg.valid.ascending)

    -- `readMessages` of a segment that implements a log, with a callback that collects, gives the
    -- messages of the log from the one with the sequence number on, up to the limit; all from the
    -- first on when it is asked for the segment's base, and none when the log has no such number.
    pub read_messages-visible :
        (limit : ℕ)
        → read_messages ms target limit s collect []
          ≡ ok (take limit (visible s.base_message_seq target log))
    unfolding read_messages read_from
    read_messages-visible limit =
        let p = lookup s.index target in
        let st = lookup-Starts in
        elim (Bool-cases (p.message_seq == target)) [
          | inl here ↦
              rw (here, st.position)
                (read_at_start limit st.before st.after st.split
                  ∙ ap (λ l. ok (take limit l)) (st.exact here))
          | inr other ↦
              rw (other, st.position, find_target st.before st.after st.split)
                (read-locate limit st.before st.after st.split
                  ∙ ap (λ l. ok (take limit l)) (st.behind other))
        ]
