-- ===== src/Tests/Queues.antt =====
-- The theorems on the queue and on the window of samples, at concrete runs.
use imserver.Prelude.{ℕ, ◌≡◌, refl, true, false, List, [], ◌∷◌, ◌++◌}
use imserver.Prelude.Int.{ℤ, pos}
use imserver.Server.Queue as Queue
use imserver.Server.Queue.{
  Op, pushing, popping, trying, closing, new_queue, close, pop, try_pop, take_front, run, accepted,
  run-order, close_lem,
}

abbrev script : List (Op ℕ)
script =
    popping
    ∷ pushing 1
    ∷ pushing 2
    ∷ trying
    ∷ pushing 3
    ∷ closing
    ∷ pushing 4
    ∷ popping
    ∷ trying
    ∷ []

script-run : run script new_queue ≡ (1 ∷ 2 ∷ [], record { buffer = 3 ∷ []; closed = true })
unfolding run new_queue Queue.push pop try_pop take_front Queue.is_empty close Queue.answer
script-run = refl

run-order_example : (run script new_queue).0 ++ (run script new_queue).1.buffer ≡ accepted script
run-order_example = run-order script

abbrev filled : Queue.Queue ℕ
filled = record { buffer = 1 ∷ 2 ∷ []; closed = false }

abbrev samples : List ℤ
samples = pos 4 ∷ pos 5 ∷ pos 6 ∷ []
