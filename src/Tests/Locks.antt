-- ===== src/Tests/Locks.antt =====
-- The theorems on the key lock, in a state in which one goroutine holds a key, another waits for it,
-- and Clean has run.
use imserver.Prelude.{ℕ, ◌≡◌, ◌⊎◌, refl, true, false, [], ◌∷◌, some, arith}
use imserver.Keylock.{Key, holding, add, create, mutex_lock, clean, miss, make, acquire, find}
use imserver.Okstore.File.{equal}
use imserver.Keylock.Threads.{System, Reach, start, later, moves, cleans}
use imserver.Keylock.Frames.{inside, place}
use imserver.Keylock.Safety.{mutual_exclusion, waiting_or_free}

abbrev room : Key
room = b'r' ∷ []

held :
    (s : System) × Reach 2 s
    × (s.pc 0 ≡ holding room 0)
    × (place (s.pc 0) ≡ some (room, 0))
    × (place (s.pc 1) ≡ some (room, 0))
unfolding add create mutex_lock equal clean
held =
    let s1 = later start (moves 0 (omega arith) (miss room refl)) in
    let s2 = later s1 (moves 0 (omega arith) (make room refl)) in
    let s3 = later s2 (moves 0 (omega arith) (acquire room 0 refl)) in
    let s4 = later s3 (moves 1 (omega arith) (find room 0 refl)) in
    (_, later s4 cleans, refl, refl, refl)

mutual_exclusion_example : ◌≡◌ {A = ℕ} 0 0
mutual_exclusion_example =
    let (s, reached, holds, keeps, waits) = held in
    mutual_exclusion reached 0 0 room 0 0 holds holds

waiting_or_free_example :
    (held.0.lock.locks room ≡ some 0)
    × (((held.0.lock.heap 0).locked ≡ false) ⊎ ((j : ℕ) × (inside 0 (held.0.pc j) ≡ true)))
waiting_or_free_example = waiting_or_free held.1 1 room 0 held.4
