-- ===== src/Keylock/Safety.antt =====
-- What holds in every state that goroutines and Clean reach.
use imserver.Prelude.{
  ℕ, ◌≤◌, ◌≡◌, ◌⊎◌, inl, inr, refl, ap, ◌∙◌, true, false, Option, none, some, ◌==◌, Bool-cases,
  arith,
}
use imserver.Keylock.{Key, KeyLock, new_key_lock, keep_used, clean, Pc, idle, holding}
use imserver.Keylock.Threads.{System, Step, moves, cleans, Reach, start, later}
use imserver.Keylock.Frames.{inside, place, Inv}
use imserver.Keylock.Invariant.{Frame-Inv, Move-Frame, clean-entry}

-- Numbers from `n` on name no goroutine.
abbrev IsQuiet : ℕ → (ℕ → Pc) → Type 0
IsQuiet n pc = (i : ℕ) → n ≤ i → pc i ≡ idle

start-Inv : (n : ℕ) → Inv n new_key_lock (λ i. idle)
start-Inv n = record {
  entry = λ i key p h. absurd (cc);
  used = λ i p h. absurd (cc);
  mapped = λ key p h. absurd (cc);
  counted = λ p h. absurd (omega arith);
  unique = λ i j p h. absurd (cc);
  locked = λ i p h. absurd (cc);
  owned = λ p h. absurd (omega arith);
}

kept-locks :
    (l : KeyLock) (key : Key) (p : ℕ) (o : Option ℕ) → keep_used l.heap o ≡ some p → o ≡ some p
unfolding keep_used
kept-locks l key p none h = absurd (cc)
kept-locks l key p (some q) h = ground arith

clean-Inv : (n : ℕ) (l : KeyLock) (pc : ℕ → Pc) → Inv n l pc → IsQuiet n pc → Inv n (clean l) pc
unfolding clean
clean-Inv n l pc inv quiet = record {
  entry = clean-entry inv quiet;
  used = inv.used;
  mapped = λ key p h. inv.mapped key p (kept-locks l key p (l.locks key) h);
  counted = inv.counted;
  unique = inv.unique;
  locked = inv.locked;
  owned = inv.owned;
}

Step-Inv :
    {n : ℕ} {s t : System}
    → Inv n s.lock s.pc × IsQuiet n s.pc
    → Step n s t
    → Inv n t.lock t.pc × IsQuiet n t.pc
Step-Inv (inv, quiet) (moves i {l} {c} lt mv) =
    (Frame-Inv inv i lt l c (Move-Frame inv i lt refl mv), λ j h. ground (arith, quiet j))
Step-Inv {n} {s} (inv, quiet) cleans = (clean-Inv n s.lock s.pc inv quiet, quiet)

pub Reach-Inv : {n : ℕ} {s : System} → Reach n s → Inv n s.lock s.pc × IsQuiet n s.pc
Reach-Inv {n} start = (start-Inv n, λ i h. refl)
Reach-Inv (later r st) = Step-Inv (Reach-Inv r) st

holds : (c : Pc) (key : Key) (p : ℕ) → c ≡ holding key p → inside p c ≡ true
holds c key p e = let same : (p == p) ≡ true = ground arith in ap (inside p) e ∙ same

-- However goroutines call `Lock` and, for a key that they have locked, `Unlock`, and whenever `Clean`
-- runs: no two of them hold the lock of one key.
pub mutual_exclusion :
    {n : ℕ} {s : System}
    → Reach n s
    → (i j : ℕ) (key : Key) (p q : ℕ) → s.pc i ≡ holding key p
    → s.pc j ≡ holding key q
    → i ≡ j
mutual_exclusion {n} {s} r i j key p q at_i at_j =
    let (inv, quiet) = Reach-Inv r in
    let mine = inv.entry i key p (ap place at_i) in
    let other = inv.entry j key q (ap place at_j) in
    let same : q ≡ p = ground arith in
    inv.unique i j p (holds (s.pc i) key p at_i)
      (holds (s.pc j) key p (at_j ∙ ap (λ (t : ℕ). holding key t) same))

-- In every state that is reached: of a goroutine that holds a key or waits for it, the lock is the
-- entry of the key, so `Clean` has not removed it and `Unlock` finds it; and while it waits, the lock
-- is free, or some goroutine holds it or is about to release it.
pub waiting_or_free :
    {n : ℕ} {s : System}
    → Reach n s
    → (i : ℕ) (key : Key) (p : ℕ) → place (s.pc i) ≡ some (key, p)
    → (s.lock.locks key ≡ some p)
      × (((s.lock.heap p).locked ≡ false) ⊎ ((j : ℕ) × (inside p (s.pc j) ≡ true)))
waiting_or_free {s = s} r i key p h =
    let (inv, quiet) = Reach-Inv r in
    let mine = inv.entry i key p h in
    (
      mine,
      elim (Bool-cases (s.lock.heap p).locked) [
        | inl y ↦ inr (inv.owned p (inv.mapped key p mine) y)
        | inr free ↦ inl free
      ],
    )
