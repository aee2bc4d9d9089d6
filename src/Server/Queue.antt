-- ===== src/Server/Queue.antt =====
-- internal/server/queue.go: the queue between the goroutines of the server. One operation holds
-- the mutex from its start to its end, so a run of the program is a sequence of operations. The
-- buffer of github.com/eapache/queue is the list of what it holds, the oldest first.
use imserver.Prelude.{
  ◌≡◌, refl, Bool, true, false, List, [], ◌∷◌, ◌++◌, append_assoc, append-nil, Option, none, some,
  if◌then◌else◌, ◌∙◌, ap, sym,
}

pub record Queue {ℓ} (A : Type ℓ) : Type ℓ where
  pub buffer : List A
  pub closed : Bool

-- What a goroutine does with the queue.
pub data Op {ℓ} (A : Type ℓ) : Type ℓ where
  pushing : A → Op A
  popping : Op A
  trying : Op A
  closing : Op A

module _ {ℓ} {A : Type ℓ} where
  unfoldable pub new_queue : Queue A
  new_queue = record { buffer = []; closed = false }

  unfoldable pub push : A → Queue A → Queue A
  push v e = if e.closed then e else record e { buffer = e.buffer ++ (v ∷ []) }

  unfoldable pub close : Queue A → Queue A
  close e = if e.closed then e else record e { closed = true }

  -- What is taken from the front; `nil` where there is nothing.
  unfoldable pub take_front : List A → Option A × List A
  take_front [] = (none, [])
  take_front (v ∷ vs) = (some v, vs)

  -- `buffer.Length() == 0`
  unfoldable pub is_empty : List A → Bool
  is_empty [] = true
  is_empty (v ∷ vs) = false

  -- `Pop` past its wait: nothing where the caller still waits, for an open queue with nothing in
  -- it, and else its result, `none` for `nil`, with the new queue.
  unfoldable pub pop : Queue A → Option (Option A × Queue A)
  pop e =
      let front = take_front e.buffer in
      if e.closed
      then some (none, e)
      else if is_empty e.buffer
      then none
      else some (front.0, record e { buffer = front.1 })

  -- `TryPop`: the value and `ok`.
  unfoldable pub try_pop : Queue A → (Option A × Bool) × Queue A
  try_pop e =
      let front = take_front e.buffer in
      if is_empty e.buffer
      then ((none, e.closed), e)
      else ((front.0, true), record e { buffer = front.1 })

  -- A value that comes out before what comes out later.
  unfoldable pub answer : Option A → List A → List A
  answer none vs = vs
  answer (some v) vs = v ∷ vs

  -- Runs operations, with what came out; a `Pop` that has to wait is passed over.
  unfoldable pub run : List (Op A) → Queue A → List A × Queue A
  run [] e = ([], e)
  run (pushing v ∷ ops) e = run ops (push v e)
  run (popping ∷ ops) e = elim (pop e) [
    | none ↦ run ops e
    | some (r, e') ↦ let rest = run ops e' in (answer r rest.0, rest.1)
  ]
  run (trying ∷ ops) e =
      let (r, e') = try_pop e in let rest = run ops e' in (answer r.0 rest.0, rest.1)
  run (closing ∷ ops) e = run ops (close e)

  -- The values that are pushed before the queue is closed.
  abbrev pub accepted : List (Op A) → List A
  accepted [] = []
  accepted (pushing v ∷ ops) = v ∷ accepted ops
  accepted (popping ∷ ops) = accepted ops
  accepted (trying ∷ ops) = accepted ops
  accepted (closing ∷ ops) = []

  run-order_closed :
      (ops : List (Op A)) (buffer : List A)
      → let r = run ops (record { buffer = buffer; closed = true }) in r.0 ++ r.1.buffer ≡ buffer
  unfolding run push pop try_pop take_front is_empty close answer
  run-order_closed [] buffer = refl
  run-order_closed (pushing v ∷ ops) buffer = run-order_closed ops buffer
  run-order_closed (popping ∷ ops) buffer = run-order_closed ops buffer
  run-order_closed (trying ∷ ops) [] = run-order_closed ops []
  run-order_closed (trying ∷ ops) (v ∷ buffer) =
      ap (λ (l : List A). v ∷ l) (run-order_closed ops buffer)
  run-order_closed (closing ∷ ops) buffer = run-order_closed ops buffer

  run-order_open :
      (ops : List (Op A)) (buffer : List A)
      → let r = run ops (record { buffer = buffer; closed = false }) in
        r.0 ++ r.1.buffer ≡ buffer ++ accepted ops
  unfolding run push pop try_pop take_front is_empty close answer
  run-order_open [] buffer = sym (append-nil buffer)
  run-order_open (pushing v ∷ ops) buffer =
      run-order_open ops (buffer ++ (v ∷ [])) ∙ append_assoc buffer (v ∷ []) (accepted ops)
  run-order_open (popping ∷ ops) [] = run-order_open ops []
  run-order_open (popping ∷ ops) (v ∷ buffer) =
      ap (λ (l : List A). v ∷ l) (run-order_open ops buffer)
  run-order_open (trying ∷ ops) [] = run-order_open ops []
  run-order_open (trying ∷ ops) (v ∷ buffer) =
      ap (λ (l : List A). v ∷ l) (run-order_open ops buffer)
  run-order_open (closing ∷ ops) buffer = run-order_closed ops buffer ∙ sym (append-nil buffer)

  -- However goroutines push, pop, try to pop and close on a new queue: the values that came out,
  -- with those that are still in the buffer behind them, are those that were pushed before it was
  -- closed, in order; none is lost and none comes out twice.
  pub run-order :
      (ops : List (Op A)) → let r = run ops new_queue in r.0 ++ r.1.buffer ≡ accepted ops
  unfolding new_queue
  run-order ops = run-order_open ops []

  closed_lem :
      (buffer : List A) (v : A)
      → let e : Queue A = record { buffer = buffer; closed = true } in
        (push v e ≡ e)
        × (pop e ≡ some (none, e))
        × (try_pop e ≡ (((take_front buffer).0, true), record e { buffer = (take_front buffer).1 }))
  unfolding push pop try_pop take_front is_empty
  closed_lem [] v = (refl, refl, refl)
  closed_lem (w ∷ buffer) v = (refl, refl, refl)

  close-Closed : (e : Queue A) → close e ≡ record e { closed = true }
  unfolding close
  close-Closed e = close_from e.buffer e.closed
    where
      close_from :
          (buffer : List A) (closed : Bool)
          → close (record { buffer = buffer; closed = closed })
            ≡ record { buffer = buffer; closed = true }
      close_from buffer true = refl
      close_from buffer false = refl

  -- After `Close`, `Push` changes nothing, and `Pop` returns `nil` at once and takes nothing,
  -- whatever the buffer holds, while `TryPop` still takes the oldest value, and reports `ok` with
  -- `nil` when there is none.
  pub close_lem :
      (e : Queue A) (v : A)
      → let e' = close e in
        (push v e' ≡ e')
        × (pop e' ≡ some (none, e'))
        × (try_pop e'
            ≡ (((take_front e.buffer).0, true), record e' { buffer = (take_front e.buffer).1 }))
  close_lem e v = rw (close-Closed e) (closed_lem e.buffer v)
