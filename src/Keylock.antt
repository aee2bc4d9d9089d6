-- ===== src/Keylock.antt =====
-- pkg/keylock/keylock.go: a lock for each key, made when it is first asked for and removed by Clean
-- when nobody holds it or waits for it.
pub mod Threads
pub mod Frames
pub mod Invariant
pub mod Safety
use imserver.Prelude.{
  ℕ, zero, suc, ◌+◌, ◌≡◌, Bool, true, false, List, Option, none, some, ◌==◌, if◌then◌else◌,
}
use imserver.Prelude.Int.{ℤ, pos, negsuc, ◌+ℤ◌}
use imserver.Okstore.File.{equal}

-- `innerLock`: its count, and whether its `sync.Mutex` is locked.
pub record InnerLock : Type 0 where
  pub count : ℤ
  pub locked : Bool

abbrev pub Key : Type 0
Key = List ℕ

-- `KeyLock`, with the locks that its pointers lead to; `next` is a pointer that is not in use.
pub record KeyLock : Type 0 where
  pub locks : Key → Option ℕ
  pub heap : ℕ → InnerLock
  pub next : ℕ

-- `newInnerLock`
abbrev pub new_inner_lock : InnerLock
new_inner_lock = record { count = pos 0; locked = false }

-- `NewKeyLock`
abbrev pub new_key_lock : KeyLock
new_key_lock = record { locks = λ k. none; heap = λ p. new_inner_lock; next = 0 }

abbrev pub set_lock : ℕ → InnerLock → KeyLock → KeyLock
set_lock p lock l = record l { heap = λ q. if q == p then lock else l.heap q }

-- `add` and `done`
unfoldable pub add : ℕ → KeyLock → KeyLock
add p l = set_lock p (record (l.heap p) { count = (l.heap p).count +ℤ pos 1 }) l

unfoldable pub done : ℕ → KeyLock → KeyLock
done p l = set_lock p (record (l.heap p) { count = (l.heap p).count +ℤ negsuc 0 }) l

-- `Lock` and `Unlock` of the `sync.Mutex`.
unfoldable pub mutex_lock : ℕ → KeyLock → KeyLock
mutex_lock p l = set_lock p (record (l.heap p) { locked = true }) l

unfoldable pub mutex_unlock : ℕ → KeyLock → KeyLock
mutex_unlock p l = set_lock p (record (l.heap p) { locked = false }) l

-- The new lock of a key, in `Lock`.
unfoldable pub create : Key → KeyLock → KeyLock
create key l = record {
  locks = λ k. if equal k key then some l.next else l.locks k;
  heap = λ q. if q == l.next then new_inner_lock else l.heap q;
  next = suc l.next;
}

-- What `Clean` leaves of an entry.
unfoldable pub is_zero : ℤ → Bool
is_zero (pos n) = n == 0
is_zero (negsuc n) = false

unfoldable pub keep_used : (ℕ → InnerLock) → Option ℕ → Option ℕ
unfolding is_zero
keep_used heap none = none
keep_used heap (some p) = if is_zero (heap p).count then none else some p

-- `Clean`
unfoldable pub clean : KeyLock → KeyLock
unfolding keep_used
clean l = record l { locks = λ k. keep_used l.heap (l.locks k) }

-- Where a goroutine stands. Between its calls it does what it likes, and it calls `Unlock` for the key
-- that it has locked.
pub data Pc : Type 0 where
  idle : Pc
  -- in `Lock`, the key was not found under the read lock
  slow : Key → Pc
  -- in `Lock`, before `keyLock.Lock()`
  waiting : Key → ℕ → Pc
  -- between `Lock` and `Unlock`
  holding : Key → ℕ → Pc
  -- in `Unlock`, before `keyLock.Unlock()`
  leaving : ℕ → Pc

-- One step of a goroutine: a section under the mutex of the `KeyLock`, or an operation of the
-- `sync.Mutex` of a lock.
pub data Move (l : KeyLock) : Pc → KeyLock → Pc → Type 0 where
  find : (key : Key) (p : ℕ) → l.locks key ≡ some p → Move l idle (add p l) (waiting key p)
  miss : (key : Key) → l.locks key ≡ none → Move l idle l (slow key)
  find_late :
      (key : Key) (p : ℕ) → l.locks key ≡ some p → Move l (slow key) (add p l) (waiting key p)
  make :
      (key : Key)
      → l.locks key ≡ none
      → Move l (slow key) (add l.next (create key l)) (waiting key l.next)
  acquire :
      (key : Key) (p : ℕ)
      → (l.heap p).locked ≡ false
      → Move l (waiting key p) (mutex_lock p l) (holding key p)
  count_down :
      (key : Key) (p q : ℕ) → l.locks key ≡ some q → Move l (holding key p) (done q l) (leaving q)
  not_found : (key : Key) (p : ℕ) → l.locks key ≡ none → Move l (holding key p) l idle
  let_go : (p : ℕ) → Move l (leaving p) (mutex_unlock p l) idle
