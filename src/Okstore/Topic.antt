-- ===== src/Okstore/Topic.antt =====
-- pkg/okstore/topic.go: reading of a topic, whose segments are named by their base sequence numbers.
-- The segments that getSegment opens or has in its cache are an argument, and the callback collects.
pub mod Reads
use imserver.Prelude.{
  ℕ, zero, suc, ◌-◌, List, [], ◌∷◌, length, Option, none, some, leb, ◌==◌, ◌&&◌, if◌then◌else◌,
}
use imserver.Okstore.File.{Result, ok, err, panic, not_found, ◌>>=◌}
use imserver.Okstore.Segment.{Messages, Segment, read_messages, read_messages_at_position}
use imserver.Okstore.Segment.Log.{collect}

-- `calcBaseMessageSeq`
unfoldable pub calc_base_message_seq : List ℕ → ℕ → Option ℕ
calc_base_message_seq [] message_seq = none
calc_base_message_seq (base ∷ []) message_seq = if leb base message_seq then some base else none
calc_base_message_seq (base ∷ next ∷ more) message_seq =
    let later = calc_base_message_seq (next ∷ more) message_seq in
    if leb base message_seq && leb message_seq next then some base else later

-- `nextBaseMessageSeq`; `none` for -1.
unfoldable pub next_base_message_seq : List ℕ → ℕ → Option ℕ
next_base_message_seq [] base = none
next_base_message_seq (b ∷ []) base = none
next_base_message_seq (b ∷ next ∷ more) base =
    let later = next_base_message_seq (next ∷ more) base in if b == base then some next else later

module _ {A : Type 0} (ms : Messages A) (get_segment : ℕ → Segment) (segments : List ℕ) where
  -- The loop of `readMessages`; the first argument bounds the rounds.
  unfoldable pub read_loop : ℕ → ℕ → ℕ → List A → Result (List A)
  read_loop zero base limit st = panic
  read_loop (suc f) base limit st =
      let round : Result (List A) = elim (next_base_message_seq segments base) [
        | none ↦ ok st
        | some next ↦
            read_messages_at_position ms (limit - length st) (get_segment next) 0 collect st
            >>= λ st. read_loop f next limit st
      ] in
      if leb limit (length st) then ok st else round

  -- `topic.readMessages`
  unfoldable pub read_topic_messages : ℕ → ℕ → Result (List A)
  read_topic_messages message_seq limit = elim (calc_base_message_seq segments message_seq) [
    | none ↦ err not_found
    | some base ↦ read_messages ms message_seq limit (get_segment base) collect [] >>= λ st.
        read_loop (length segments) base limit st
  ]
