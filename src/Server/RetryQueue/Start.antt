-- ===== src/Server/RetryQueue/Start.antt =====
-- `startInFlightTimeout` puts a message in flight.
use imserver.Prelude.{
  ℕ, ◌-◌, ◌/◌, ◌<◌, ◌≡◌, ◌≢◌, ◌⊎◌, refl, sym, ap, ◌∙◌, true, false, List, length, Option, none,
  some, ◌==◌, if◌then◌else◌, arith, inl, inr, Bool-cases,
}
use imserver.Prelude.Int.{ℤ}
use imserver.Okstore.File.{equal, equal→≡, equal_refl}
use imserver.Server.InFlight.{Message, Store, write, Queue, item, pri_at, push}
use imserver.Server.InFlight.Swaps.{unplaced}
use imserver.Server.InFlight.Kept.{In}
use imserver.Server.InFlight.Heap.{IsQueue, Pushed, push-Pushed}
use imserver.Server.RetryQueue.{
  RetryQueue, message_at, key_of, push_in_flight_message, add_to_in_flight_pq,
  start_in_flight_timeout,
}
use imserver.Server.RetryQueue.Process.{key, IsRetry, some-injective, none≢some}

write-same : (p : ℕ) (m : Message) (store : Store) → write p m store p ≡ m
write-same p m store = let same : (p == p) ≡ true = ground arith in rw same refl

write-other : (p : ℕ) (m : Message) (store : Store) (x : ℕ) → x ≢ p → write p m store x ≡ store x
write-other p m store x h = let other : (x == p) ≡ false = ground (arith, h) in rw other refl

module _ (decimal : ℤ → List ℕ) (timeout : ℕ) (r : RetryQueue) (valid : IsRetry decimal r) (x : ℕ)
    (fresh : (c : ℕ) → c < length r.in_flight_pq.items → item r.in_flight_pq c ≢ x)
    (unknown : r.in_flight_messages (key decimal r x) ≡ none) where
  abbrev q : Queue
  q = r.in_flight_pq

  abbrev timed : Message
  timed = record (message_at r x) { pri = timeout }

  abbrev stamped : Queue
  stamped = record q { store = write x timed q.store }

  pri-stamped : (c : ℕ) → c < length q.items → pri_at stamped c ≡ pri_at q c
  pri-stamped c h = ap (λ m. m.pri) (write-other x timed q.store (item q c) (fresh c h))

  stamped-IsQueue : IsQueue stamped
  stamped-IsQueue = record {
    ordered = λ c cp cn. omega (
      arith,
      pri-stamped c cn,
      pri-stamped ((c - 1) / 2) (omega (arith, cn, cp)),
      valid.queue.ordered c cp cn,
    );
    indexed = λ c h.
        (ap (λ m. m.index) (write-other x timed q.store (item q c) (fresh c h))
          ∙ valid.queue.indexed c h);
    fits = valid.queue.fits;
    room = valid.queue.room;
  }

  pushed : (pq : Queue) × ((push x stamped ≡ some pq) × Pushed stamped x pq)
  pushed = push-Pushed x stamped stamped-IsQueue fresh

  abbrev new_key : List ℕ
  new_key = key decimal r x

  abbrev longer : List ℕ → Option ℕ
  longer k = if equal k new_key then some x else r.in_flight_messages k

  abbrev result : RetryQueue
  result = record { in_flight_pq = pushed.0; in_flight_messages = longer }

  key-x : key decimal result x ≡ new_key
  key-x =
      ap (key_of decimal) (pushed.1.1.kept x)
      ∙ ap (key_of decimal) (ap unplaced (write-same x timed q.store))

  key-other : (p : ℕ) → p ≢ x → key decimal result p ≡ key decimal r p
  key-other p h =
      ap (key_of decimal) (pushed.1.1.kept p)
      ∙ ap (key_of decimal) (ap unplaced (write-other x timed q.store p h))

  apart : (p : ℕ) → In q p → p ≢ x
  apart p h e = fresh h.0 h.1.0 (h.1.1 ∙ e)

  old_key : (p : ℕ) → In q p → equal (key decimal r p) new_key ≡ false
  old_key p h = elim (Bool-cases (equal (key decimal r p) new_key)) [
    | inl same ↦
        (let e = ap r.in_flight_messages (equal→≡ (key decimal r p) new_key same) in
          absurd (none≢some decimal (sym unknown ∙ sym e ∙ valid.known p h)))
    | inr other ↦ other
  ]

  result-IsRetry : IsRetry decimal result
  result-IsRetry = record {
    queue = pushed.1.1.valid;
    known = λ p h. elim (pushed.1.1.back p h) [
      | inl old ↦ (ap longer (key-other p (apart p old)) ∙ rw (old_key p old) (valid.known p old))
      | inr new ↦
          (ap (λ y. longer (key decimal result y)) new
            ∙ ap longer key-x
            ∙ rw (equal_refl new_key) (ap some (sym new)))
    ];
    owned = λ k p h. elim (Bool-cases (equal k new_key)) [
      | inl same ↦
          (let e : x ≡ p =
              some-injective decimal
                (ap (λ b. if b then some x else r.in_flight_messages k) (sym same) ∙ h) in
            (
              ap (key decimal result) (sym e) ∙ key-x ∙ sym (equal→≡ k new_key same),
              pushed.1.1.forth p (inr (sym e)),
            ))
      | inr other ↦
          (let t =
              valid.owned k p
                (ap (λ b. if b then some x else r.in_flight_messages k) (sym other) ∙ h) in
            (key-other p (apart p t.1) ∙ t.0, pushed.1.1.forth p (inl t.1)))
    ];
  }

  -- What `startInFlightTimeout` makes of the messages in flight.
  pub record Started (s : RetryQueue) : Type 0 where
    pub ready : IsRetry decimal s
    pub forth : (p : ℕ) → In q p ⊎ (p ≡ x) → In s.in_flight_pq p
    pub back : (p : ℕ) → In s.in_flight_pq p → In q p ⊎ (p ≡ x)
    pub time : (message_at s x).pri ≡ timeout

  abbrev timed_queue : RetryQueue
  timed_queue = record r { in_flight_pq = stamped }

  push_in_flight_message_lem :
      push_in_flight_message decimal x timed_queue
      ≡ record timed_queue { in_flight_messages = longer }
  unfolding push_in_flight_message
  push_in_flight_message_lem =
      let e : key_of decimal (stamped.store x) ≡ new_key =
        ap (key_of decimal) (write-same x timed q.store) in
      let none_there = ap r.in_flight_messages e ∙ unknown in
      rw (push_in_flight_message, none_there)
        (ap
          (λ z. record timed_queue {
            in_flight_messages = λ k. if equal k z then some x else r.in_flight_messages k;
          })
          e)

  add_to_in_flight_pq_lem :
      add_to_in_flight_pq decimal x (record timed_queue { in_flight_messages = longer })
      ≡ some result
  unfolding add_to_in_flight_pq
  add_to_in_flight_pq_lem = rw (add_to_in_flight_pq, pushed.1.0) refl

  -- `startInFlightTimeout` of a message that is not in the heap, and whose key is not in the map,
  -- never panics: it adds the message, due at its time, to the messages in flight, and the map
  -- still has exactly the messages of the heap under their keys.
  pub start_in_flight_timeout-Started :
      (s : RetryQueue) × ((start_in_flight_timeout decimal timeout x r ≡ some s) × Started s)
  unfolding start_in_flight_timeout
  start_in_flight_timeout-Started = (
    result,
    (
      ap (add_to_in_flight_pq decimal x) push_in_flight_message_lem ∙ add_to_in_flight_pq_lem,
      record {
        ready = result-IsRetry;
        forth = pushed.1.1.forth;
        back = pushed.1.1.back;
        time = ap (λ m. m.pri) (pushed.1.1.kept x) ∙ ap (λ m. m.pri) (write-same x timed q.store);
      },
    ),
  )
