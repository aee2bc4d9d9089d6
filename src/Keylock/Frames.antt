-- ===== src/Keylock/Frames.antt =====
-- The invariant of a KeyLock with the goroutines over it, and what each move changes.
use imserver.Prelude.{
  ℕ, ◌+◌, ◌-◌, ◌≤◌, ◌<◌, ◌≡◌, ◌⊎◌, inl, inr, refl, Bool, true, false, Option, none, some, ◌==◌,
  if◌then◌else◌, Bool-cases, arith,
}
use imserver.Prelude.Int.{ℤ, pos, negsuc, ◌+ℤ◌}
use imserver.Okstore.File.{equal, equal→≡, equal_refl}
use imserver.Keylock.{
  Key, KeyLock, add, done, mutex_lock, mutex_unlock, create, Pc, idle, slow, waiting, holding,
  leaving,
}
use imserver.Keylock.Threads.{total}

-- The goroutine is counted by the lock.
abbrev pub weight : ℕ → Pc → ℕ
weight p (waiting key q) = if q == p then 1 else 0
weight p (holding key q) = if q == p then 1 else 0
weight p c = 0

-- The goroutine has the `sync.Mutex` of the lock.
abbrev pub inside : ℕ → Pc → Bool
inside p (holding key q) = q == p
inside p (leaving q) = q == p
inside p c = false

abbrev pub uses : ℕ → Pc → Bool
uses p (waiting key q) = q == p
uses p (holding key q) = q == p
uses p (leaving q) = q == p
uses p c = false

-- The key and the lock that a goroutine is counted for.
abbrev pub place : Pc → Option (Key × ℕ)
place (waiting key q) = some (key, q)
place (holding key q) = some (key, q)
place c = none

pub record Inv (n : ℕ) (l : KeyLock) (pc : ℕ → Pc) : Type 0 where
  -- The entry of the key is the lock that the goroutine has.
  pub entry : (i : ℕ) (key : Key) (p : ℕ) → place (pc i) ≡ some (key, p) → l.locks key ≡ some p
  pub used : (i p : ℕ) → uses p (pc i) ≡ true → p < l.next
  pub mapped : (key : Key) (p : ℕ) → l.locks key ≡ some p → p < l.next
  pub counted : (p : ℕ) → p < l.next → (l.heap p).count ≡ pos (total (weight p) n pc)
  pub unique : (i j p : ℕ) → inside p (pc i) ≡ true → inside p (pc j) ≡ true → i ≡ j
  pub locked : (i p : ℕ) → inside p (pc i) ≡ true → (l.heap p).locked ≡ true
  pub owned : (p : ℕ) → p < l.next → (l.heap p).locked ≡ true → (i : ℕ) × (inside p (pc i) ≡ true)

-- What a move from `c` to `d` does: entries stay; the counts and the locks follow the goroutine.
pub record Frame (l : KeyLock) (c : Pc) (m : KeyLock) (d : Pc) : Type 0 where
  pub grows : l.next ≤ m.next
  pub entries : (key : Key) (p : ℕ) → l.locks key ≡ some p → m.locks key ≡ some p
  pub entry : (key : Key) (p : ℕ) → place d ≡ some (key, p) → m.locks key ≡ some p
  pub used : (p : ℕ) → uses p d ≡ true → p < m.next
  pub mapped : (key : Key) (p : ℕ) → m.locks key ≡ some p → p < m.next
  pub counted :
      (p a : ℕ)
      → ((p < l.next) × ((l.heap p).count ≡ pos a)) ⊎ ((l.next ≤ p) × (a ≡ 0))
      → p < m.next
      → weight p c ≤ a
      → (m.heap p).count ≡ pos (a + weight p d - weight p c)
  pub enters : (p : ℕ) → inside p d ≡ true → (inside p c ≡ true) ⊎ ((l.heap p).locked ≡ false)
  pub locks : (p : ℕ) → inside p d ≡ true → (m.heap p).locked ≡ true
  pub keeps :
      (p : ℕ)
      → (l.heap p).locked ≡ true
      → inside p c ≡ false
      → p < l.next
      → (m.heap p).locked ≡ true
  pub owned :
      (p : ℕ)
      → p < m.next
      → (m.heap p).locked ≡ true
      → (inside p d ≡ true) ⊎ ((p < l.next) × ((l.heap p).locked ≡ true) × (inside p c ≡ false))

module _ {n : ℕ} {l : KeyLock} {pc : ℕ → Pc} (inv : Inv n l pc) (i : ℕ) (lt : i < n) where
  -- Off a lock, nothing is counted.
  pub up : (a : ℕ) (z : ℤ) → z ≡ pos a → z +ℤ pos 1 ≡ pos (a + 1)
  up a z e = rw e (ground arith)

  pub down : (a : ℕ) (z : ℤ) → z ≡ pos a → 1 ≤ a → z +ℤ negsuc 0 ≡ pos (a - 1)
  down a z e h = rw e (ground arith)

  pub find-Frame :
      (key : Key) (p : ℕ) (c : Pc)
      → ((q : ℕ) → weight q c ≡ 0)
      → ((q : ℕ) → inside q c ≡ false)
      → l.locks key ≡ some p
      → Frame l c (add p l) (waiting key p)
  unfolding add
  find-Frame key p c w out e = record {
    grows = omega arith;
    entries = λ k q h. h;
    entry = λ k q h. ground (arith, e);
    used = λ q h. ground (arith, inv.mapped key p e);
    mapped = λ k q h. inv.mapped k q h;
    counted = λ q a h lt' w'. elim h [
      | inr (le, z) ↦ absurd (omega arith)
      | inl (lt'', e') ↦ ground (arith, w q, up a (l.heap q).count)
    ];
    enters = λ q h. absurd (cc);
    locks = λ q h. absurd (cc);
    keeps = λ q h h' h''. ground arith;
    owned = λ q h h'. inr (h, ground arith, out q);
  }

  pub make-Frame :
      (key : Key)
      → l.locks key ≡ none
      → Frame l (slow key) (add l.next (create key l)) (waiting key l.next)
  unfolding add create
  make-Frame key e = record {
    grows = omega arith;
    entries = λ k q h. ground (arith, equal→≡ k key, e);
    entry = λ k q h. ground (arith, equal_refl key);
    used = λ q h. ground arith;
    mapped = λ k q h. elim (Bool-cases (equal k key)) [
      | inl y ↦ ground arith
      | inr n' ↦ (let old = inv.mapped k q (ground arith) in omega (arith, old))
    ];
    counted = λ q a h lt' w'. elim h [ inr (le, z) ↦ ground arith | inl (lt'', e') ↦ ground arith ];
    enters = λ q h. absurd (cc);
    locks = λ q h. absurd (cc);
    keeps = λ q h h' h''. ground arith;
    owned = λ q h h'. elim (Bool-cases (q == l.next)) [
      | inl y ↦ absurd (ground arith)
      | inr n' ↦ inr (ground arith, ground arith, refl)
    ];
  }

  pub acquire-Frame :
      (key : Key) (p : ℕ)
      → l.locks key ≡ some p
      → (l.heap p).locked ≡ false
      → Frame l (waiting key p) (mutex_lock p l) (holding key p)
  unfolding mutex_lock
  acquire-Frame key p e free = record {
    grows = omega arith;
    entries = λ k q h. h;
    entry = λ k q h. ground (arith, e);
    used = λ q h. ground (arith, inv.mapped key p e);
    mapped = λ k q h. inv.mapped k q h;
    counted = λ q a h lt' w'. elim h [
      | inr (le, z) ↦ absurd (omega arith)
      | inl (lt'', e') ↦ ground arith
    ];
    enters = λ q h. inr (ground arith);
    locks = λ q h. ground arith;
    keeps = λ q h h' h''. ground arith;
    owned = λ q h h'. elim (Bool-cases (p == q)) [
      | inl y ↦ inl y
      | inr n' ↦ inr (h, ground arith, refl)
    ];
  }

  pub count_down-Frame :
      (key : Key) (p : ℕ)
      → l.locks key ≡ some p
      → (l.heap p).locked ≡ true
      → Frame l (holding key p) (done p l) (leaving p)
  unfolding done
  count_down-Frame key p e held = record {
    grows = omega arith;
    entries = λ k q h. h;
    entry = λ k q h. absurd (cc);
    used = λ q h. ground (arith, inv.mapped key p e);
    mapped = λ k q h. inv.mapped k q h;
    counted = λ q a h lt' w'. elim h [
      | inr (le, z) ↦ absurd (omega arith)
      | inl (lt'', e') ↦ ground (arith, down a (l.heap q).count)
    ];
    enters = λ q h. inl h;
    locks = λ q h. ground arith;
    keeps = λ q h h' h''. ground arith;
    owned =
        λ q h h'. elim (Bool-cases (p == q)) [ inl y ↦ inl y | inr n' ↦ inr (h, ground arith, n') ];
  }

  pub let_go-Frame : (p : ℕ) → Frame l (leaving p) (mutex_unlock p l) idle
  unfolding mutex_unlock
  let_go-Frame p = record {
    grows = omega arith;
    entries = λ k q h. h;
    entry = λ k q h. absurd (cc);
    used = λ q h. absurd (cc);
    mapped = λ k q h. inv.mapped k q h;
    counted = λ q a h lt' w'. elim h [
      | inr (le, z) ↦ absurd (omega arith)
      | inl (lt'', e') ↦ ground arith
    ];
    enters = λ q h. absurd (cc);
    locks = λ q h. absurd (cc);
    keeps = λ q h h' h''. ground arith;
    owned = λ q h h'. inr (h, ground arith, ground arith);
  }

  pub miss-Frame : (key : Key) → Frame l idle l (slow key)
  miss-Frame key = record {
    grows = omega arith;
    entries = λ k q h. h;
    entry = λ k q h. absurd (cc);
    used = λ q h. absurd (cc);
    mapped = λ k q h. inv.mapped k q h;
    counted = λ q a h lt' w'. elim h [
      | inr (le, z) ↦ absurd (omega arith)
      | inl (lt'', e') ↦ ground arith
    ];
    enters = λ q h. absurd (cc);
    locks = λ q h. absurd (cc);
    keeps = λ q h h' h''. h;
    owned = λ q h h'. inr (h, h', refl);
  }
