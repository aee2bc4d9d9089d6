-- ===== src/Keylock/Invariant.antt =====
-- The invariant of a KeyLock holds through every move of a goroutine; Clean keeps the entries in use.
use imserver.Prelude.{
  ℕ, ◌≤◌, ◌<◌, ◌≡◌, ◌⊎◌, inl, inr, refl, sym, ap, ◌∙◌, true, false, some, ◌==◌, ltb, ltb→lt,
  Bool-cases, arith,
}
use mathlib.Core.Path.{subst}
use imserver.Prelude.Int.{pos}
use imserver.Keylock.{
  Key, KeyLock, done, is_zero, keep_used, clean, Pc, idle, slow, waiting, holding, leaving, Move,
  find, miss, find_late, make, acquire, count_down, not_found, let_go,
}
use imserver.Keylock.Threads.{update, total, total-update, le-total, total-zero}
use imserver.Keylock.Frames.{
  weight, inside, uses, place, Inv, Frame, find-Frame, make-Frame, acquire-Frame, count_down-Frame,
  let_go-Frame, miss-Frame,
}

module _ {n : ℕ} {l : KeyLock} {pc : ℕ → Pc} (inv : Inv n l pc) (i : ℕ) (lt : i < n) where
  -- A goroutine that no lock counts and none that has it.
  unused-weight : (p : ℕ) → l.next ≤ p → (j : ℕ) → weight p (pc j) ≡ 0
  unused-weight p le j = weight-uses (pc j) (inv.used j p)
    where
      weight-uses : (c : Pc) → (uses p c ≡ true → p < l.next) → weight p c ≡ 0
      weight-uses idle h = refl
      weight-uses (slow key) h = refl
      weight-uses (waiting key q) h = ground arith
      weight-uses (holding key q) h = ground arith
      weight-uses (leaving q) h = refl

  -- The count of a lock before the move.
  count_before :
      (p : ℕ)
      → ((p < l.next) × ((l.heap p).count ≡ pos (total (weight p) n pc)))
        ⊎ ((l.next ≤ p) × (total (weight p) n pc ≡ 0))
  count_before p = elim (Bool-cases (ltb p l.next)) [
    | inl y ↦ (let b : p < l.next = ltb→lt p l.next y in inl (b, inv.counted p b))
    | inr no_lt ↦
        (let b : l.next ≤ p = ground arith in
          inr (b, total-zero (weight p) n pc (unused-weight p b)))
  ]

  -- A goroutine at a new place, or another one where it was.
  cases :
      (d : Pc) (j : ℕ)
      → ((j ≡ i) × (update pc i d j ≡ d)) ⊎ (((j == i) ≡ false) × (update pc i d j ≡ pc j))
  cases d j = elim (Bool-cases (j == i)) [
    | inl y ↦ inl (ground arith, rw y refl)
    | inr n' ↦ inr (n', rw n' refl)
  ]

  module _ (m : KeyLock) (d : Pc) (f : Frame l (pc i) m d) where
    moved : ℕ → Pc
    moved = update pc i d

    inside-moved : (j p : ℕ) → (j == i) ≡ false → inside p (pc j) ≡ true → inside p d ≡ true → j ≡ i
    inside-moved j p other a b = elim (f.enters p b) [
      | inl had ↦ inv.unique j i p a had
      | inr free ↦ absurd (ground (arith, inv.locked j p a))
    ]

    inside-uses : (p : ℕ) (c : Pc) → inside p c ≡ true → uses p c ≡ true
    inside-uses p idle h = absurd (cc)
    inside-uses p (slow key) h = absurd (cc)
    inside-uses p (waiting key q) h = absurd (cc)
    inside-uses p (holding key q) h = h
    inside-uses p (leaving q) h = h

    -- A goroutine that stays has a lock that the one that moves has not.
    not-inside : (j p : ℕ) → (j == i) ≡ false → inside p (pc j) ≡ true → inside p (pc i) ≡ false
    not-inside j p other a = elim (Bool-cases (inside p (pc i))) [
      | inl y ↦ (let same = inv.unique j i p a y in absurd (ground arith))
      | inr n' ↦ n'
    ]

    locked-other : (j p : ℕ) → (j == i) ≡ false → inside p (pc j) ≡ true → (m.heap p).locked ≡ true
    locked-other j p other a =
        f.keeps p (inv.locked j p a) (not-inside j p other a)
          (inv.used j p (inside-uses p (pc j) a))

    at_i : moved i ≡ d
    unfolding moved
    at_i = let same : (i == i) ≡ true = ground arith in rw same refl

    owner-other :
        (p : ℕ)
        → p < l.next
        → (l.heap p).locked ≡ true
        → inside p (pc i) ≡ false
        → (j : ℕ) × (inside p (moved j) ≡ true)
    unfolding moved
    owner-other p b h out =
        let (o, a) = inv.owned p b h in
        elim (Bool-cases (o == i)) [
          | inl y ↦
              (let same : o ≡ i = ground arith in
                absurd (ground (arith, ap (λ (t : ℕ). inside p (pc t)) same)))
          | inr other ↦ (o, rw other a)
        ]

    pub Frame-Inv : Inv n m (update pc i d)
    unfolding moved
    Frame-Inv = record {
      entry = λ j key p h. elim (cases d j) [
        | inl (e, at) ↦ f.entry key p (sym (ap place at) ∙ h)
        | inr (e, at) ↦ f.entries key p (inv.entry j key p (sym (ap place at) ∙ h))
      ];
      used = λ j p h. elim (cases d j) [
        | inl (e, at) ↦ f.used p (sym (ap (uses p) at) ∙ h)
        | inr (e, at) ↦
            (let b = inv.used j p (sym (ap (uses p) at) ∙ h) in omega (arith, b, f.grows))
      ];
      mapped = f.mapped;
      counted = λ p b.
          let c = le-total (weight p) n pc i lt in
          f.counted p (total (weight p) n pc) (count_before p) b c
          ∙ ap pos (omega (arith, total-update (weight p) n pc i d lt, c));
      unique = λ j k p a b. elim (cases d j) [
        | inl (e, at) ↦ elim (cases d k) [
          | inl (e', at') ↦ e ∙ sym e'
          | inr (e', at') ↦
              e
              ∙ sym (inside-moved k p e' (sym (ap (inside p) at') ∙ b) (sym (ap (inside p) at) ∙ a))
        ]
        | inr (e, at) ↦ elim (cases d k) [
          | inl (e', at') ↦
              inside-moved j p e (sym (ap (inside p) at) ∙ a) (sym (ap (inside p) at') ∙ b) ∙ sym e'
          | inr (e', at') ↦
              inv.unique j k p (sym (ap (inside p) at) ∙ a) (sym (ap (inside p) at') ∙ b)
        ]
      ];
      locked = λ j p h. elim (cases d j) [
        | inl (e, at) ↦ f.locks p (sym (ap (inside p) at) ∙ h)
        | inr (e, at) ↦ locked-other j p e (sym (ap (inside p) at) ∙ h)
      ];
      owned = λ p b h. elim (f.owned p b h) [
        | inl here ↦ (i, ap (inside p) at_i ∙ here)
        | inr (b', h', not_here) ↦ owner-other p b' h' not_here
      ];
    }

-- Every move keeps the invariant.
pub Move-Frame :
    {n : ℕ} {l m : KeyLock} {pc : ℕ → Pc} {c d : Pc} (inv : Inv n l pc) (i : ℕ) (lt : i < n)
    → c ≡ pc i
    → Move l c m d
    → Frame l c m d
Move-Frame inv i lt at (find key p e) = find-Frame inv i lt key p idle (λ q. refl) (λ q. refl) e
Move-Frame inv i lt at (miss key e) = miss-Frame inv i lt key
Move-Frame inv i lt at (find_late key p e) =
    find-Frame inv i lt key p (slow key) (λ q. refl) (λ q. refl) e
Move-Frame inv i lt at (make key e) = make-Frame inv i lt key e
Move-Frame inv i lt at (acquire key p free) =
    acquire-Frame inv i lt key p (inv.entry i key p (ap place (sym at))) free
Move-Frame {l = l} inv i lt at (count_down key p q e) =
    let own = inv.entry i key p (ap place (sym at)) in
    let same : p ≡ q = ground arith in
    let here : (p == p) ≡ true = ground arith in
    subst (λ (r : ℕ). Frame l (holding key p) (done r l) (leaving r)) same
      (count_down-Frame inv i lt key p own (inv.locked i p (ap (inside p) (sym at) ∙ here)))
Move-Frame inv i lt at (not_found key p e) =
    let own = inv.entry i key p (ap place (sym at)) in absurd (ground arith)
Move-Frame inv i lt at (let_go p) = let_go-Frame inv i lt p

-- `Clean` removes the lock of no goroutine that has one or waits for one.
pub clean-entry :
    {n : ℕ} {l : KeyLock} {pc : ℕ → Pc}
    → Inv n l pc
    → ((i : ℕ) → n ≤ i → pc i ≡ idle)
    → (i : ℕ) (key : Key) (p : ℕ) → place (pc i) ≡ some (key, p)
    → (clean l).locks key ≡ some p
unfolding clean keep_used is_zero
clean-entry {n} {l} {pc} inv rest i key p h =
    let own = inv.entry i key p h in
    let counts : 1 ≤ weight p (pc i) = place-weight (pc i) h in
    let there : i < n = elim (Bool-cases (ltb i n)) [
      | inl y ↦ ltb→lt i n y
      | inr o ↦ (let z = rest i (ground arith) in absurd (omega (arith, ap (weight p) z, counts)))
    ] in
    let all = le-total (weight p) n pc i there in
    let count = inv.counted p (inv.mapped key p own) in
    let positive : (total (weight p) n pc == 0) ≡ false = ground (arith, all) in
    rw (own, keep_used, count, is_zero, positive) refl
  where
    place-weight : (c : Pc) → place c ≡ some (key, p) → 1 ≤ weight p c
    place-weight idle e = absurd (cc)
    place-weight (slow k) e = absurd (cc)
    place-weight (waiting k q) e = ground arith
    place-weight (holding k q) e = ground arith
    place-weight (leaving q) e = absurd (cc)
