-- ===== src/Server/RetryQueue/Process.antt =====
-- What `finishMessage` and `processInFlightQueue` do to the messages in flight.
use imserver.Prelude.{
  ℕ, ◌≡◌, ◌≢◌, refl, sym, ap, ◌∙◌, true, false, List, none, some, if◌then◌else◌, arith, inl, inr,
  Bool-cases, Option-cases,
}
use imserver.Prelude.Int.{ℤ, pos, negsuc}
use mathlib.Core.Path.{subst}
use imserver.Okstore.File.{equal, equal→≡, equal_refl}
use imserver.Server.InFlight.{Queue, remove}
use imserver.Server.InFlight.Kept.{In}
use imserver.Server.InFlight.Heap.{IsQueue, Removed}
use imserver.Server.InFlight.Removes.{remove-Removed}
use imserver.Server.RetryQueue.{
  RetryQueue, message_at, key_of, get_in_flight_key, pop_in_flight_message,
  remove_from_in_flight_pq, Finish, finished, not_in_flight, finish_message,
}

module _ (decimal : ℤ → List ℕ) where
  abbrev pub key : RetryQueue → ℕ → List ℕ
  key r p = key_of decimal (message_at r p)

  -- The messages by their keys are those of the heap.
  pub record IsRetry (r : RetryQueue) : Type 0 where
    pub queue : IsQueue r.in_flight_pq
    pub known : (p : ℕ) → In r.in_flight_pq p → r.in_flight_messages (key r p) ≡ some p
    pub owned :
        (k : List ℕ) (p : ℕ) → r.in_flight_messages k ≡ some p → (key r p ≡ k) × In r.in_flight_pq p

  -- The map without a key, and another heap.
  abbrev pub without : List ℕ → RetryQueue → Queue → RetryQueue
  without gone_key r pq = record {
    in_flight_pq = pq;
    in_flight_messages = λ k. if equal k gone_key then none else r.in_flight_messages k;
  }

  pub true≢false : true ≢ false
  true≢false e = ground arith

  pub none≢some : {p : ℕ} → none ≢ some p
  none≢some e = true≢false (ap (λ o. elim o [ none ↦ true | some x ↦ false ]) e)

  pub some-injective : {a b : ℕ} → some a ≡ some b → a ≡ b
  some-injective {a} e = ap (λ o. elim o [ none ↦ a | some x ↦ x ]) e

  module _ (r : RetryQueue) (valid : IsRetry r) (x : ℕ) (pq : Queue)
      (gone : Removed r.in_flight_pq x pq) (gone_key : List ℕ) (own : key r x ≡ gone_key)
      (has : r.in_flight_messages gone_key ≡ some x) where
    abbrev left : RetryQueue
    left = without gone_key r pq

    differs : (p : ℕ) → In r.in_flight_pq p → p ≢ x → equal (key r p) gone_key ≡ false
    differs p h other = elim (Bool-cases (equal (key r p) gone_key)) [
      | inl same ↦
          (let e = equal→≡ (key r p) gone_key same in
            absurd
              (other (some-injective (sym (valid.known p h) ∙ ap r.in_flight_messages e ∙ has))))
      | inr apart ↦ apart
    ]

    stays :
        (k : List ℕ) (p : ℕ)
        → left.in_flight_messages k ≡ some p
        → (equal k gone_key ≡ false) × (r.in_flight_messages k ≡ some p)
    stays k p h = elim (Bool-cases (equal k gone_key)) [
      | inl same ↦
          absurd (none≢some (ap (λ b. if b then none else r.in_flight_messages k) (sym same) ∙ h))
      | inr other ↦ (other, ap (λ b. if b then none else r.in_flight_messages k) (sym other) ∙ h)
    ]

    apart : (k : List ℕ) (p : ℕ) → equal k gone_key ≡ false → key r p ≡ k → p ≢ x
    apart k p other e same =
        let e2 : k ≡ gone_key = sym e ∙ ap (key r) same ∙ own in
        true≢false (sym (ap (λ z. equal z gone_key) e2 ∙ equal_refl gone_key) ∙ other)

    pub same_key : (p : ℕ) → key left p ≡ key r p
    same_key p = ap (key_of decimal) (gone.kept p)

    -- The map and the heap lose the message together.
    pub left-IsRetry : IsRetry left
    left-IsRetry = record {
      queue = gone.valid;
      known = λ p h.
          (let old = gone.back p h in
            ap left.in_flight_messages (same_key p)
            ∙ rw (differs p old.0 old.1) (valid.known p old.0));
      owned = λ k p h.
          (let s = stays k p h in
            let t = valid.owned k p s.1 in
            (same_key p ∙ t.0, gone.forth p t.1 (apart k p s.0 t.0)));
    }

    lost : left.in_flight_messages gone_key ≡ none
    lost = rw (equal_refl gone_key) refl

  -- What `finishMessage` may do: there is no such message in flight, or it is no longer.
  pub data Finishes (r : RetryQueue) (k : List ℕ) : Finish → Type 0 where
    unknown : r.in_flight_messages k ≡ none → Finishes r k not_in_flight
    gone :
        (x : ℕ) (s : RetryQueue)
        → r.in_flight_messages k ≡ some x
        → IsRetry s
        → Removed r.in_flight_pq x s.in_flight_pq
        → s.in_flight_messages k ≡ none
        → Finishes r k (finished s)

  pop-none :
      (k : List ℕ) (r : RetryQueue)
      → r.in_flight_messages k ≡ none
      → pop_in_flight_message decimal k r ≡ none
  unfolding pop_in_flight_message
  pop-none k r h = rw (pop_in_flight_message, h) refl

  pub pop-some :
      (k : List ℕ) (r : RetryQueue) (x : ℕ)
      → r.in_flight_messages k ≡ some x
      → pop_in_flight_message decimal k r ≡ some (x, without k r r.in_flight_pq)
  unfolding pop_in_flight_message
  pop-some k r x h = rw (pop_in_flight_message, h) refl

  pub remove-out :
      (x : ℕ) (r : RetryQueue)
      → (message_at r x).index ≡ negsuc 0
      → remove_from_in_flight_pq decimal x r ≡ some r
  unfolding remove_from_in_flight_pq
  remove-out x r h = rw (remove_from_in_flight_pq, h) refl

  remove-in :
      (x c : ℕ) (r : RetryQueue) (y : ℕ) (pq : Queue)
      → (message_at r x).index ≡ pos c
      → remove (pos c) r.in_flight_pq ≡ some (y, pq)
      → remove_from_in_flight_pq decimal x r ≡ some (record r { in_flight_pq = pq })
  unfolding remove_from_in_flight_pq
  remove-in x c r y pq h e =
      rw (remove_from_in_flight_pq, h, ap (λ z. remove z r.in_flight_pq) h ∙ e) refl

  -- `finishMessage`, when the map has exactly the messages of the heap under their keys, never
  -- panics: of a message in flight it takes the map entry and the heap's item, and the map still
  -- has exactly the messages of the heap; without one it is an error.
  pub finish_message-Finishes :
      (uid device_id : List ℕ) (message_id : ℤ) (r : RetryQueue)
      → IsRetry r
      → Finishes r
          (get_in_flight_key decimal uid device_id message_id)
          (finish_message decimal uid device_id message_id r)
  unfolding finish_message
  finish_message-Finishes uid device_id message_id r valid =
      let k = get_in_flight_key decimal uid device_id message_id in
      elim (Option-cases (r.in_flight_messages k)) [
        | inl absent ↦ rw (finish_message, pop-none k r absent) (unknown absent)
        | inr (x, has) ↦
            let (own, (c, (inside, e))) = valid.owned k x has in
            let i : (message_at r x).index ≡ pos c =
              ap (λ y. (message_at r y).index) (sym e) ∙ valid.queue.indexed c inside in
            let t = remove-Removed r.in_flight_pq valid.queue c inside in
            let removed = subst (λ y. Removed r.in_flight_pq y t.0) e t.1.1 in
            rw
              (
                finish_message,
                pop-some k r x has,
                remove-in x c (without k r r.in_flight_pq) _ t.0 i t.1.0,
              )
              (gone x (without k r t.0) has (left-IsRetry r valid x t.0 removed k own has) removed
                (lost r valid x t.0 removed k own has))
      ]
