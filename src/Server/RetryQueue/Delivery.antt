-- ===== src/Server/RetryQueue/Delivery.antt =====
-- `processInFlightQueue` delivers what is due, and keeps the rest; `startInFlightTimeout` adds a
-- message.
use imserver.Prelude.{
  ℕ, zero, suc, ◌≤◌, ◌<◌, ◌≡◌, ◌≢◌, refl, sym, ap, ◌∙◌, true, false, List, [], ◌∷◌, length, Option,
  none, some, ◌==◌, arith, inl, inr, Bool-cases,
}
use imserver.Prelude.Int.{ℤ}
use mathlib.Core.Path.{subst}
use mathlib.Core.List.Memᴰ
use mathlib.Core.List.{Memᴰ}
use imserver.Server.InFlight.{Queue, peek_and_shift}
use imserver.Server.InFlight.Kept.{In}
use imserver.Server.InFlight.Heap.{Removed}
use imserver.Server.InFlight.Removes.{Shifted, waits, due, peek_and_shift-Shifted}
use imserver.Server.RetryQueue.{
  RetryQueue, message_at, key_of, finished, finish_message, after_peek, process_in_flight_queue,
}
use imserver.Server.RetryQueue.Process.{key, without, IsRetry, left-IsRetry, pop-some, remove-out}

-- The messages stand in the order of their times, and each once.
pub data Ascends (time : ℕ → ℕ) : List ℕ → Type 0 where
  nil : Ascends time []
  cons :
      {x : ℕ} {more : List ℕ}
      → ((p : ℕ) → Memᴰ p more → (time x ≤ time p) × (p ≢ x))
      → Ascends time more
      → Ascends time (x ∷ more)

module _ (decimal : ℤ → List ℕ) (t : ℕ) where
  abbrev pub time : RetryQueue → ℕ → ℕ
  time r p = (message_at r p).pri

  -- The messages whose times are not past `t` are delivered, and the others are what is left.
  pub record Processed (r : RetryQueue) (delivered : List ℕ) (s : RetryQueue) : Type 0 where
    pub valid : IsRetry decimal s
    pub all : (p : ℕ) → In r.in_flight_pq p → time r p ≤ t → Memᴰ p delivered
    pub only : (p : ℕ) → Memᴰ p delivered → In r.in_flight_pq p × (time r p ≤ t)
    pub waiting : (p : ℕ) → In r.in_flight_pq p → t < time r p → In s.in_flight_pq p
    pub left : (p : ℕ) → In s.in_flight_pq p → In r.in_flight_pq p × (t < time r p)
    pub order : Ascends (time r) delivered

  abbrev pub Result : RetryQueue → Option (List ℕ × RetryQueue) → Type 0
  Result r o =
      (delivered : List ℕ) × ((s : RetryQueue) × ((o ≡ some (delivered, s))
          × Processed r delivered s))

  none-Processed :
      (r : RetryQueue)
      → IsRetry decimal r
      → ((p : ℕ) → In r.in_flight_pq p → t < time r p)
      → Processed r [] r
  none-Processed r valid later = record {
    valid = valid;
    all = λ p h le. absurd (omega (arith, later p h, le));
    only = λ p m. absurd (Memᴰ.not-nil m);
    waiting = λ p h lt. h;
    left = λ p h. (h, later p h);
    order = nil;
  }

  module _ (r : RetryQueue) (valid : IsRetry decimal r) (x : ℕ) (pq : Queue)
      (inside : In r.in_flight_pq x) (is_due : (message_at r x).pri ≤ t)
      (least : (p : ℕ) → In r.in_flight_pq p → time r x ≤ time r p)
      (gone : Removed r.in_flight_pq x pq) where
    abbrev s : RetryQueue
    s = record r { in_flight_pq = pq }

    gone_key : List ℕ
    gone_key = key_of decimal (message_at s x)

    own : key decimal r x ≡ gone_key
    unfolding gone_key
    own = sym (ap (key_of decimal) (gone.kept x))

    has : r.in_flight_messages gone_key ≡ some x
    has = ap r.in_flight_messages (sym own) ∙ valid.known x inside

    abbrev next : RetryQueue
    next = without decimal gone_key r pq

    next-IsRetry : IsRetry decimal next
    next-IsRetry = left-IsRetry decimal r valid x pq gone gone_key own has

    -- `finishMessage` of the message that `PeekAndShift` took.
    finish-next :
        finish_message decimal
          (message_at s x).to_uid
          (message_at s x).to_device_id
          (message_at s x).message_id
          s
        ≡ finished next
    unfolding finish_message gone_key
    finish-next =
        rw (finish_message, pop-some decimal gone_key s x has, remove-out decimal x next gone.out)
          refl

    time-next : (p : ℕ) → time next p ≡ time r p
    time-next p = ap (λ m. m.pri) (gone.kept p)

    cons-Processed :
        (more : List ℕ) (end : RetryQueue) → Processed next more end → Processed r (x ∷ more) end
    cons-Processed more end done = record {
      valid = done.valid;
      all = λ p h le. elim (Bool-cases (p == x)) [
        | inl same ↦ Memᴰ.head (same_of same)
        | inr other ↦
            Memᴰ.tail
              (done.all p (gone.forth p h (other_of other)) (omega (arith, time-next p, le)))
      ];
      only = λ p m. elim (Memᴰ.cases_cons m) [
        | inl e ↦ (subst (In r.in_flight_pq) (sym e) inside, omega (arith, ap (time r) e, is_due))
        | inr m ↦ (let h = done.only p m in ((gone.back p h.0).0, omega (arith, time-next p, h.1)))
      ];
      waiting = λ p h lt.
          (let apart =
              λ (e : p ≡ x). (let k = ap (time r) e in absurd (omega (arith, k, lt, is_due))) in
            done.waiting p (gone.forth p h apart) (omega (arith, time-next p, lt)));
      left =
          λ p h. (let k = done.left p h in ((gone.back p k.0).0, omega (arith, time-next p, k.1)));
      order =
          cons (λ p m. (let h = gone.back p (done.only p m).0 in (least p h.0, h.1)))
            (subst (λ f. Ascends f more) (λ i. λ p. time-next p i) done.order);
    }
      where
        same_of : {a b : ℕ} → (a == b) ≡ true → a ≡ b
        same_of h = ground arith

        other_of : {a b : ℕ} → (a == b) ≡ false → a ≢ b
        other_of h = ground arith

  -- One round, and the rest of the loop on a smaller heap.
  step :
      (rest : RetryQueue → Option (List ℕ × RetryQueue)) (r : RetryQueue)
      (valid : IsRetry decimal r)
      → ((n : RetryQueue)
          → IsRetry decimal n
          → suc (length n.in_flight_pq.items) ≡ length r.in_flight_pq.items
          → Result n (rest n))
      → (o : Option (Option ℕ × (ℕ × Queue))) → Shifted r.in_flight_pq valid.queue t o
      → Result r (after_peek decimal rest r o)
  step rest r valid again _ (waits wait later) = ([], (r, (refl, none-Processed r valid later)))
  step rest r valid again _ (due x pq inside is_due least gone) =
      let n = next r valid x pq inside is_due least gone in
      let (more, (end, (e, done))) =
        again n (next-IsRetry r valid x pq inside is_due least gone) (sym gone.smaller) in
      (
        x ∷ more,
        (
          end,
          (
            rw (finish-next r valid x pq inside is_due least gone) (
                ap {B = Option (List ℕ × RetryQueue)}
                  (λ o. elim o [ none ↦ none | some q ↦ some (x ∷ q.0, q.1) ]) e),
            cons-Processed r valid x pq inside is_due least gone more end done,
          ),
        ),
      )

  -- `processInFlightQueue`, when the map has exactly the messages of the heap under their keys,
  -- never panics and ends in no more rounds than there are messages and one: it delivers exactly
  -- the messages whose times are not past `t`, each once and in the order of their times, and the
  -- others stay in flight, in the map and the heap.
  pub process_in_flight_queue-Processed :
      (f : ℕ) (r : RetryQueue)
      → IsRetry decimal r
      → length r.in_flight_pq.items < f
      → Result r (process_in_flight_queue decimal f t r)
  unfolding process_in_flight_queue
  process_in_flight_queue-Processed zero r valid enough = absurd (omega (arith, enough))
  process_in_flight_queue-Processed (suc f) r valid enough =
      step (process_in_flight_queue decimal f t) r valid
        (λ n h e. process_in_flight_queue-Processed f n h (omega (arith, enough, e)))
        (peek_and_shift t r.in_flight_pq) (peek_and_shift-Shifted r.in_flight_pq valid.queue t)
