-- ===== src/Okstore/Topic/Reads.antt =====
-- A topic implements the logs of its segments, one behind the other.
use imserver.Prelude.{
  ℕ, zero, suc, ◌-◌, ◌≤◌, ◌<◌, ◌≡◌, refl, sym, ap, ◌∙◌, Bool, true, false, List, [], ◌∷◌, ◌++◌,
  append-nil, append_assoc, length, length-append, take, Option, none, some, leb, ◌==◌, arith, inl,
  inr, Bool-cases,
}
use mathlib.Core.Path.{subst}
use imserver.Okstore.File.{ok}
use imserver.Okstore.Segment.{Messages, Segment, encode_all, read_messages_at_position}
use imserver.Okstore.Segment.Log.{collect}
use imserver.Okstore.Segment.Reads.{read_messages_at_position-take}
use imserver.Okstore.Segment.Refines.{IsSegment, visible, read_messages-visible}
use imserver.Okstore.Topic.{
  calc_base_message_seq, next_base_message_seq, read_loop, read_topic_messages,
}

-- The bases go up.
pub data Rises : List ℕ → Type 0 where
  none_left : Rises []
  one_left : {b : ℕ} → Rises (b ∷ [])
  rises : {b c : ℕ} {more : List ℕ} → b < c → Rises (c ∷ more) → Rises (b ∷ c ∷ more)

-- The sequence number is not behind the first of the later bases.
abbrev pub up_to : ℕ → List ℕ → Bool
up_to message_seq [] = true
up_to message_seq (c ∷ more) = leb message_seq c

-- The segment of `base` has the sequence number: it is from the base on, but for the base itself when
-- there is a segment before, and up to the next base.
pub record InSegment (before : List ℕ) (base : ℕ) (after : List ℕ) (message_seq : ℕ) : Type 0 where
  pub from : base ≤ message_seq
  pub past : 0 < length before → base < message_seq
  pub upto : up_to message_seq after ≡ true

first_base : ℕ → List ℕ → ℕ
first_base base [] = base
first_base base (x ∷ before) = x

first_le :
    (before : List ℕ) (base : ℕ) (after : List ℕ)
    → Rises (before ++ base ∷ after)
    → first_base base before ≤ base
unfolding first_base
first_le [] base after r = omega arith
first_le (x ∷ []) base after (rises h r) = omega (arith, h)
first_le (x ∷ y ∷ before) base after (rises h r) =
    omega (arith, h, first_le (y ∷ before) base after r)

calc_lem :
    (before : List ℕ) (base : ℕ) (after : List ℕ) (message_seq : ℕ)
    → Rises (before ++ base ∷ after)
    → InSegment before base after message_seq
    → calc_base_message_seq (before ++ base ∷ after) message_seq ≡ some base
unfolding calc_base_message_seq first_base
calc_lem [] base [] message_seq r s = ground (arith, s.from)
calc_lem [] base (c ∷ after) message_seq r s = ground (arith, s.from, s.upto)
calc_lem (x ∷ []) base after message_seq (rises h r) s =
    let skip : leb message_seq base ≡ false = ground (arith, s.past (omega arith)) in
    let rest =
      calc_lem [] base after message_seq r
        (record { from = s.from; past = λ h. s.past (omega arith); upto = s.upto }) in
    elim (Bool-cases (leb x message_seq)) [
      | inl low ↦ rw (low, skip) rest
      | inr high ↦ rw high rest
    ]
calc_lem (x ∷ y ∷ before) base after message_seq (rises h r) s =
    let skip : leb message_seq y ≡ false =
      ground (arith, s.past (omega arith), first_le (y ∷ before) base after r) in
    let rest =
      calc_lem (y ∷ before) base after message_seq r
        (record { from = s.from; past = λ h. s.past (omega arith); upto = s.upto }) in
    elim (Bool-cases (leb x message_seq)) [
      | inl low ↦ rw (low, skip) rest
      | inr high ↦ rw high rest
    ]

-- The first of the later bases.
abbrev first_of : List ℕ → Option ℕ
first_of [] = none
first_of (c ∷ more) = some c

next_lem :
    (before : List ℕ) (base : ℕ) (after : List ℕ)
    → Rises (before ++ base ∷ after)
    → next_base_message_seq (before ++ base ∷ after) base ≡ first_of after
unfolding next_base_message_seq first_base
next_lem [] base [] r = refl
next_lem [] base (c ∷ after) r = ground arith
next_lem (x ∷ []) base after (rises h r) =
    let other : (x == base) ≡ false = ground (arith, h) in rw other (next_lem [] base after r)
next_lem (x ∷ y ∷ before) base after (rises h r) =
    let other : (x == base) ≡ false = ground (arith, h, first_le (y ∷ before) base after r) in
    rw other (next_lem (y ∷ before) base after r)

take-nil : {A : Type 0} (n : ℕ) → take {A = A} n [] ≡ []
take-nil zero = refl
take-nil (suc n) = refl

take-split :
    {A : Type 0} (k : ℕ) (xs ys : List A)
    → take k (xs ++ ys) ≡ take k xs ++ take (k - length (take k xs)) ys
take-split zero xs ys = refl
take-split (suc k) [] ys = let e : suc k ≡ suc k - 0 = omega arith in ap (λ n. take n ys) e
take-split (suc k) (x ∷ xs) ys =
    let e : k - length (take k xs) ≡ suc k - suc (length (take k xs)) = omega arith in
    ap (λ l. x ∷ l) (take-split k xs ys ∙ ap (λ n. take k xs ++ take n ys) e)

module _ {A : Type 0} (ms : Messages A) (get_segment : ℕ → Segment) (segments : List ℕ)
    (log_of : ℕ → List A) where
  -- The logs of the segments, one behind the other.
  abbrev pub logs : List ℕ → List A
  logs [] = []
  logs (b ∷ more) = log_of b ++ logs more

  -- The segments stand in the order of their bases, and each implements its log.
  pub record IsTopic : Type 0 where
    pub rising : Rises segments
    pub base :
        (before : List ℕ) (b : ℕ) (after : List ℕ)
        → segments ≡ before ++ b ∷ after
        → (get_segment b).base_message_seq ≡ b
    pub segment :
        (before : List ℕ) (b : ℕ) (after : List ℕ)
        → segments ≡ before ++ b ∷ after
        → IsSegment ms (get_segment b) (log_of b)

  module _ (topic : IsTopic) where
    read_whole :
        (before : List ℕ) (b : ℕ) (after : List ℕ) (limit : ℕ) (st : List A)
        → segments ≡ before ++ b ∷ after
        → read_messages_at_position ms limit (get_segment b) 0 collect st
          ≡ ok (st ++ take limit (log_of b))
    unfolding encode_all
    read_whole before b after limit st e =
        let seg = topic.segment before b after e in
        read_messages_at_position-take ms (get_segment b) seg.holds.size limit [] (log_of b) st
          seg.holds.stored seg.holds.bytes

    read_loop-logs :
        (f : ℕ) (before : List ℕ) (base : ℕ) (after : List ℕ) (limit : ℕ) (st : List A)
        → segments ≡ before ++ base ∷ after
        → length after < f
        → read_loop ms get_segment segments f base limit st
          ≡ ok (st ++ take (limit - length st) (logs after))
    unfolding read_loop
    read_loop-logs zero before base after limit st e enough = absurd (omega (arith, enough))
    read_loop-logs (suc f) before base [] limit st e enough =
        let none_next =
          ap (λ l. next_base_message_seq l base) e
          ∙ next_lem before base [] (subst Rises e topic.rising) in
        let all : st ≡ st ++ take (limit - length st) [] =
          sym (append-nil st) ∙ ap (λ l. st ++ l) (sym (take-nil (limit - length st))) in
        elim (Bool-cases (leb limit (length st))) [
          | inl full ↦ rw full (ap ok all)
          | inr room ↦ rw (room, none_next) (ap ok all)
        ]
    read_loop-logs (suc f) before base (c ∷ after) limit st e enough =
        let k : ℕ = limit - length st in
        let read : List A = take k (log_of c) in
        elim (Bool-cases (leb limit (length st))) [
          | inl full ↦
              let nothing : k ≡ 0 = ground arith in
              rw full (
                ap ok (
                  sym (append-nil st)
                  ∙ ap (λ n. st ++ take n (log_of c ++ logs after)) (sym nothing)))
          | inr room ↦
              let next =
                ap (λ l. next_base_message_seq l base) e
                ∙ next_lem before base (c ∷ after) (subst Rises e topic.rising) in
              let left : limit - length (st ++ read) ≡ k - length read =
                omega (arith, length-append st read) in
              let further = e ∙ sym (append_assoc before (base ∷ []) (c ∷ after)) in
              rw (room, next, read_whole (before ++ base ∷ []) c after k st further)
                (read_loop-logs f (before ++ base ∷ []) c after limit (st ++ read) further
                    (omega (arith, enough))
                  ∙ ap ok (
                      append_assoc st read (take (limit - length (st ++ read)) (logs after))
                      ∙ ap (λ l. st ++ l)
                          (ap (λ n. read ++ take n (logs after)) left
                            ∙ sym (take-split k (log_of c) (logs after)))))
        ]

    -- `readMessages` of a topic whose segments stand in the order of their bases and implement
    -- their logs, of a sequence number that is from the base of a segment on, but for the base
    -- itself when there is a segment before, and up to the next base: it gives the messages from
    -- the one with that number on, up to the limit, those of that segment and then all of the
    -- later ones.
    pub read_topic_messages-visible :
        (before : List ℕ) (base : ℕ) (after : List ℕ) (message_seq limit : ℕ)
        → segments ≡ before ++ base ∷ after
        → InSegment before base after message_seq
        → read_topic_messages ms get_segment segments message_seq limit
          ≡ ok (take limit (visible ms base message_seq (log_of base) ++ logs after))
    unfolding read_topic_messages
    read_topic_messages-visible before base after message_seq limit e inside =
        let found =
          ap (λ l. calc_base_message_seq l message_seq) e
          ∙ calc_lem before base after message_seq (subst Rises e topic.rising) inside in
        let seen : List A = visible ms base message_seq (log_of base) in
        let first =
          read_messages-visible ms (get_segment base) (log_of base)
            (topic.segment before base after e) message_seq limit
          ∙ ap (λ b. ok (take limit (visible ms b message_seq (log_of base))))
              (topic.base before base after e) in
        let enough : length after < length segments =
          omega (arith, ap length e, length-append before (base ∷ after)) in
        rw (read_topic_messages, found, first)
          (read_loop-logs (length segments) before base after limit (take limit seen) e enough
            ∙ ap ok (sym (take-split limit seen (logs after))))
