-- ===== src/Server/RetryQueue.antt =====
-- internal/server/retry_queue.go: the messages that wait for their acknowledgement, by their keys and
-- in the heap of their times. The counters of the monitor and the log are left out; what is delivered
-- again is the list of the calls of `startRetryDeliveryMsg`.
pub mod Process
pub mod Delivery
pub mod Start
use imserver.Prelude.{
  ℕ, zero, suc, ◌+◌, Bool, true, false, List, [], ◌∷◌, ◌++◌, Option, none, some, leb, ◌==◌, ◌&&◌,
  if◌then◌else◌,
}
use imserver.Prelude.Int.{ℤ, pos, negsuc}
use imserver.Okstore.File.{equal}
use imserver.Server.InFlight.{Message, Store, write, Queue, push, remove, peek_and_shift}

-- A Go map from keys to messages.
abbrev pub Messages : Type 0
Messages = List ℕ → Option ℕ

pub record RetryQueue : Type 0 where
  pub in_flight_pq : Queue
  pub in_flight_messages : Messages

abbrev pub message_at : RetryQueue → ℕ → Message
message_at r x = r.in_flight_pq.store x

-- The result of `finishMessage`.
pub data Finish : Type 0 where
  finished : RetryQueue → Finish
  not_in_flight : Finish
  panic : Finish

-- `decimal` is what `fmt.Sprintf` makes of a message id.
module _ (decimal : ℤ → List ℕ) where
  -- `getInFlightKey`, with the underscore 0x5f.
  unfoldable pub get_in_flight_key : List ℕ → List ℕ → ℤ → List ℕ
  get_in_flight_key uid device_id message_id =
      uid ++ (0x5f ∷ (device_id ++ (0x5f ∷ decimal message_id)))

  abbrev pub key_of : Message → List ℕ
  key_of m = get_in_flight_key m.to_uid m.to_device_id m.message_id

  -- `pushInFlightMessage`
  unfoldable pub push_in_flight_message : ℕ → RetryQueue → RetryQueue
  push_in_flight_message msg r =
      let key = key_of (message_at r msg) in
      elim (r.in_flight_messages key) [
        | some other ↦ r
        | none ↦ record r {
          in_flight_messages = λ k. if equal k key then some msg else r.in_flight_messages k;
        }
      ]

  -- `addToInFlightPQ`
  unfoldable pub add_to_in_flight_pq : ℕ → RetryQueue → Option RetryQueue
  add_to_in_flight_pq msg r = elim (push msg r.in_flight_pq) [
    | none ↦ none
    | some pq ↦ some (record r { in_flight_pq = pq })
  ]

  -- `startInFlightTimeout`, of which `timeout` is the time plus the interval.
  unfoldable pub start_in_flight_timeout : ℕ → ℕ → RetryQueue → Option RetryQueue
  start_in_flight_timeout timeout msg r =
      let timed = record (message_at r msg) { pri = timeout } in
      let pq = record r.in_flight_pq { store = write msg timed r.in_flight_pq.store } in
      add_to_in_flight_pq msg (push_in_flight_message msg (record r { in_flight_pq = pq }))

  -- `popInFlightMessage`; `none` for its error.
  unfoldable pub pop_in_flight_message : List ℕ → RetryQueue → Option (ℕ × RetryQueue)
  pop_in_flight_message key r = elim (r.in_flight_messages key) [
    | none ↦ none
    | some msg ↦ some (
      msg,
      record r { in_flight_messages = λ k. if equal k key then none else r.in_flight_messages k },
    )
  ]

  -- `removeFromInFlightPQ`
  unfoldable pub remove_from_in_flight_pq : ℕ → RetryQueue → Option RetryQueue
  remove_from_in_flight_pq msg r =
      let removed : Option RetryQueue = elim (remove (message_at r msg).index r.in_flight_pq) [
        | none ↦ none
        | some p ↦ some (record r { in_flight_pq = p.1 })
      ] in
      elim (message_at r msg).index [ negsuc zero ↦ some r | _ ↦ removed ]

  -- `finishMessage`
  unfoldable pub finish_message : List ℕ → List ℕ → ℤ → RetryQueue → Finish
  finish_message uid device_id message_id r =
      elim (pop_in_flight_message (get_in_flight_key uid device_id message_id) r) [
        | none ↦ not_in_flight
        | some p ↦ elim (remove_from_in_flight_pq p.0 p.1) [ none ↦ panic | some s ↦ finished s ]
      ]

  -- The loop of `processInFlightQueue` behind `finishMessage`, and behind `PeekAndShift`; `next` is the
  -- rest of the loop.
  abbrev pub after_finish :
      (RetryQueue → Option (List ℕ × RetryQueue))
      → ℕ
      → RetryQueue
      → Finish
      → Option (List ℕ × RetryQueue)
  after_finish next msg s (finished r) = elim (next r) [
    | none ↦ none
    | some q ↦ some (msg ∷ q.0, q.1)
  ]
  after_finish next msg s not_in_flight = some ([], s)
  after_finish next msg s panic = none

  abbrev pub after_peek :
      (RetryQueue → Option (List ℕ × RetryQueue))
      → RetryQueue
      → Option (Option ℕ × (ℕ × Queue))
      → Option (List ℕ × RetryQueue)
  after_peek next r none = none
  after_peek next r (some (none, (wait, pq))) = some ([], record r { in_flight_pq = pq })
  after_peek next r (some (some msg, (wait, pq))) =
      let s = record r { in_flight_pq = pq } in
      let m = message_at s msg in
      after_finish next msg s (finish_message m.to_uid m.to_device_id m.message_id s)

  -- `processInFlightQueue`: the messages that are delivered again, in their order; `none` is a panic, and
  -- the first argument bounds the rounds.
  unfoldable pub process_in_flight_queue : ℕ → ℕ → RetryQueue → Option (List ℕ × RetryQueue)
  process_in_flight_queue zero t r = none
  process_in_flight_queue (suc f) t r =
      after_peek (process_in_flight_queue f t) r (peek_and_shift t r.in_flight_pq)
