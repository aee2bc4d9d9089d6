-- ===== src/Tests/Retry.antt =====
-- The theorems on the heap and the retry queue, on a queue of three messages.
use imserver.Prelude.{
  ℕ, zero, suc, ◌+◌, ◌-◌, ◌*◌, ◌/◌, ◌≤◌, ◌<◌, ◌≡◌, ◌≢◌, refl, sym, ap, ◌∙◌, Bool, true, false, List,
  [], ◌∷◌, length, Option, none, some, ◌==◌, if◌then◌else◌, arith,
}
use imserver.Prelude.Int.{ℤ, pos, negsuc, pos_part}
use imserver.Okstore.File.{equal, equal→≡}
use imserver.Server.InFlight.{
  Message, Queue, item, push, pop, remove, peek_and_shift, swap, up, down, drop_last,
}
use imserver.Server.InFlight.Kept.{In}
use imserver.Server.InFlight.Heap.{IsQueue, Pushed, Removed, push-Pushed}
use imserver.Server.InFlight.Removes.{remove-Removed, Shifted, peek_and_shift-Shifted}
use imserver.Server.RetryQueue.{
  RetryQueue, pop_in_flight_message, remove_from_in_flight_pq, get_in_flight_key, finish_message,
  process_in_flight_queue, start_in_flight_timeout,
}
use imserver.Server.RetryQueue.Process.{
  key, IsRetry, Finishes, some-injective, none≢some, finish_message-Finishes,
}
use imserver.Server.RetryQueue.Delivery.{Result, process_in_flight_queue-Processed}
use imserver.Server.RetryQueue.Start.{Started, start_in_flight_timeout-Started}

-- The message `p` is to the user `p`, and due at ten times `p`.
abbrev message : ℕ → ℤ → Message
message p i = record {
  to_uid = p ∷ [];
  to_device_id = [];
  message_id = pos p;
  pri = 10 * p;
  index = i;
}

abbrev place : ℕ → ℤ
place p = if p == 2 then pos 0 else if p == 3 then pos 1 else if p == 5 then pos 2 else negsuc 0

abbrev queue : Queue
queue = record { items = 2 ∷ 3 ∷ 5 ∷ []; capacity = 4; store = λ p. message p (place p) }

queue-IsQueue : IsQueue queue
queue-IsQueue = record {
  ordered = ordered;
  indexed = indexed;
  fits = omega arith;
  room = omega arith;
}
  where
    ordered : (c : ℕ) → 0 < c → c < 3 → (10 * item queue ((c - 1) / 2)) ≤ 10 * item queue c
    ordered zero above inside = absurd (omega (arith, above))
    ordered (suc zero) above inside = omega arith
    ordered (suc (suc zero)) above inside = omega arith
    ordered (suc (suc (suc c))) above inside = absurd (omega (arith, inside))

    indexed : (c : ℕ) → c < 3 → place (item queue c) ≡ pos c
    indexed zero inside = refl
    indexed (suc zero) inside = refl
    indexed (suc (suc zero)) inside = refl
    indexed (suc (suc (suc c))) inside = absurd (omega (arith, inside))

not_four : (c : ℕ) → c < length queue.items → item queue c ≢ 4
not_four zero h e = absurd (omega (arith, e))
not_four (suc zero) h e = absurd (omega (arith, e))
not_four (suc (suc zero)) h e = absurd (omega (arith, e))
not_four (suc (suc (suc c))) h e = absurd (omega (arith, h))

push-Pushed_example : (r : Queue) × ((push 4 queue ≡ some r) × Pushed queue 4 r)
push-Pushed_example = push-Pushed 4 queue queue-IsQueue not_four

remove-Removed_example : (s : Queue) × ((remove (pos 1) queue ≡ some (3, s)) × Removed queue 3 s)
remove-Removed_example = remove-Removed queue queue-IsQueue 1 (omega arith)

peek_and_shift-Shifted_example : Shifted queue queue-IsQueue 25 (peek_and_shift 25 queue)
peek_and_shift-Shifted_example = peek_and_shift-Shifted queue queue-IsQueue 25

-- One digit.
abbrev digit : ℤ → List ℕ
digit i = (48 + pos_part i) ∷ []

abbrev key_at : ℕ → List ℕ
key_at p = get_in_flight_key digit (p ∷ []) [] (pos p)

abbrev retries : RetryQueue
retries = record {
  in_flight_pq = queue;
  in_flight_messages = λ k.
      if equal k (key_at 2)
      then some 2
      else if equal k (key_at 3)
      then some 3
      else if equal k (key_at 5)
      then some 5
      else none;
}

retries-IsRetry : IsRetry digit retries
unfolding get_in_flight_key equal
retries-IsRetry = record { queue = queue-IsQueue; known = known; owned = owned }
  where
    of_place :
        (c : ℕ) → c < 3 → retries.in_flight_messages (key_at (item queue c)) ≡ some (item queue c)
    of_place zero h = refl
    of_place (suc zero) h = refl
    of_place (suc (suc zero)) h = refl
    of_place (suc (suc (suc c))) h = absurd (omega (arith, h))

    known : (p : ℕ) → In queue p → retries.in_flight_messages (key_at p) ≡ some p
    known p (c, (h, e)) =
        ap (λ y. retries.in_flight_messages (key_at y)) (sym e) ∙ of_place c h ∙ ap some e

    from :
        (k : List ℕ) (c p : ℕ)
        → c < 3
        → equal k (key_at (item queue c)) ≡ true
        → item queue c ≡ p
        → (key_at p ≡ k) × In queue p
    from k c p h same e = (sym (equal→≡ k (key_at (item queue c)) same ∙ ap key_at e), (c, (h, e)))

    third :
        (k : List ℕ) (p : ℕ) (b : Bool)
        → equal k (key_at 5) ≡ b
        → (if b then some 5 else none) ≡ some p
        → (key_at p ≡ k) × In queue p
    third k p true same h = from k 2 p (omega arith) same (some-injective digit h)
    third k p false other h = absurd (none≢some digit h)

    second :
        (k : List ℕ) (p : ℕ) (b : Bool)
        → equal k (key_at 3) ≡ b
        → (if b then some 3 else if equal k (key_at 5) then some 5 else none) ≡ some p
        → (key_at p ≡ k) × In queue p
    second k p true same h = from k 1 p (omega arith) same (some-injective digit h)
    second k p false other h = third k p (equal k (key_at 5)) refl h

    first :
        (k : List ℕ) (p : ℕ) (b : Bool)
        → equal k (key_at 2) ≡ b
        → (if b
            then some 2
            else if equal k (key_at 3)
            then some 3
            else if equal k (key_at 5)
            then some 5
            else none)
          ≡ some p
        → (key_at p ≡ k) × In queue p
    first k p true same h = from k 0 p (omega arith) same (some-injective digit h)
    first k p false other h = second k p (equal k (key_at 3)) refl h

    owned :
        (k : List ℕ) (p : ℕ) → retries.in_flight_messages k ≡ some p → (key_at p ≡ k) × In queue p
    owned k p h = first k p (equal k (key_at 2)) refl h

process_in_flight_queue-Processed_example :
    Result digit 35 retries (process_in_flight_queue digit 4 35 retries)
process_in_flight_queue-Processed_example =
    process_in_flight_queue-Processed digit 35 4 retries retries-IsRetry (omega arith)

finish_message-Finishes_example :
    Finishes digit retries
      (get_in_flight_key digit (3 ∷ []) [] (pos 3))
      (finish_message digit (3 ∷ []) [] (pos 3) retries)
finish_message-Finishes_example =
    finish_message-Finishes digit (3 ∷ []) [] (pos 3) retries retries-IsRetry

four_unknown : retries.in_flight_messages (key digit retries 4) ≡ none
unfolding get_in_flight_key equal
four_unknown = refl

start_in_flight_timeout-Started_example :
    (s : RetryQueue) × ((start_in_flight_timeout digit 90 4 retries ≡ some s)
      × Started digit 90 retries retries-IsRetry 4 not_four four_unknown s)
start_in_flight_timeout-Started_example =
    start_in_flight_timeout-Started digit 90 retries retries-IsRetry 4 not_four four_unknown

abbrev delivered : Option (List ℕ × RetryQueue) → List ℕ
delivered none = []
delivered (some r) = r.0

-- The first two are delivered, and the third waits.
retries-delivered : delivered (process_in_flight_queue digit 4 35 retries) ≡ 2 ∷ 3 ∷ []
unfolding process_in_flight_queue peek_and_shift pop finish_message pop_in_flight_message
    remove_from_in_flight_pq swap down up drop_last get_in_flight_key equal
retries-delivered = refl
