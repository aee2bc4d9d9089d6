-- ===== src/Server/InFlight/Heap.antt =====
-- The queue between two operations, and what these make of it.
use imserver.Prelude.{
  ℕ, zero, suc, ◌+◌, ◌-◌, ◌*◌, ◌/◌, ◌≤◌, ◌<◌, ◌≡◌, ◌≢◌, ◌⊎◌, refl, sym, ap, ◌∙◌, false, [], ◌∷◌,
  ◌++◌, length, length-append, get_or-append, get_or-last, some, ltb, ◌==◌, if◌then◌else◌, arith,
  inl, inr, Bool-cases,
}
use imserver.Prelude.Int.{pos, negsuc}
use imserver.Server.InFlight.{Queue, set_index, item, pri_at, up, push}
use imserver.Server.InFlight.Swaps.{
  unplaced, unplaced-set_index, index-set_index, set_index-other, IsIndexed,
}
use imserver.Server.InFlight.Order.{Ordered, OrderedBut, up-Ordered}
use imserver.Server.InFlight.Kept.{In, Rearranged, up-Rearranged}

-- A heap whose items know their places, within its capacity.
pub record IsQueue (q : Queue) : Type 0 where
  pub ordered : Ordered (length q.items) q
  pub indexed : IsIndexed q
  pub fits : length q.items ≤ q.capacity
  pub room : 0 < q.capacity

-- The queue `r` is `q` and the message `x`.
pub record Pushed (q : Queue) (x : ℕ) (r : Queue) : Type 0 where
  pub valid : IsQueue r
  pub forth : (p : ℕ) → In q p ⊎ (p ≡ x) → In r p
  pub back : (p : ℕ) → In r p → In q p ⊎ (p ≡ x)
  pub kept : (p : ℕ) → unplaced (r.store p) ≡ unplaced (q.store p)

-- The queue `r` is `q` without the message `x`, which has the index -1.
pub record Removed (q : Queue) (x : ℕ) (r : Queue) : Type 0 where
  pub valid : IsQueue r
  pub forth : (p : ℕ) → In q p → p ≢ x → In r p
  pub back : (p : ℕ) → In r p → In q p × (p ≢ x)
  pub smaller : length q.items ≡ suc (length r.items)
  pub out : (r.store x).index ≡ negsuc 0
  pub kept : (p : ℕ) → unplaced (r.store p) ≡ unplaced (q.store p)

-- The first item has the lowest priority.
pub root-least : (q : Queue) (n f c : ℕ) → Ordered n q → c < f → c < n → pri_at q 0 ≤ pri_at q c
root-least q n zero c o h cn = absurd (omega (arith, h))
root-least q n (suc f) c o h cn = elim (Bool-cases (c == 0)) [
  | inl root ↦ (let e : c ≡ 0 = ground arith in omega (arith, ap (pri_at q) e))
  | inr below ↦
      (let some : 0 < c = ground arith in
        omega (
          arith,
          o c some cn,
          root-least q n f ((c - 1) / 2) o (omega (arith, h, some)) (omega (arith, cn)),
        ))
]

module _ (x : ℕ) (q : Queue) (valid : IsQueue q)
    (fresh : (c : ℕ) → c < length q.items → item q c ≢ x) where
  abbrev n : ℕ
  n = length q.items

  abbrev grown : ℕ
  grown = if ltb q.capacity (n + 1) then q.capacity * 2 else q.capacity

  abbrev longer : Queue
  longer = record {
    items = q.items ++ x ∷ [];
    capacity = grown;
    store = set_index x (pos n) q.store;
  }

  length-longer : length longer.items ≡ suc n
  length-longer = omega (arith, length-append q.items (x ∷ []))

  old : (c : ℕ) → c < n → item longer c ≡ item q c
  old c h = get_or-append q.items (x ∷ []) c 0 h

  new : item longer n ≡ x
  new = get_or-last q.items x 0 n refl

  pri_of : (p : ℕ) → (longer.store p).pri ≡ (q.store p).pri
  pri_of p = ap (λ m. m.pri) (unplaced-set_index x (pos n) q.store p)

  pri-old : (c : ℕ) → c < n → pri_at longer c ≡ pri_at q c
  pri-old c h = ap (λ p. (longer.store p).pri) (old c h) ∙ pri_of (item q c)

  longer-OrderedBut : OrderedBut n (suc n) longer
  longer-OrderedBut = record {
    except = λ c cp cn other. omega (
      arith,
      pri-old c (omega (arith, cn, other)),
      pri-old ((c - 1) / 2) (omega (arith, cn, other)),
      valid.ordered c cp (omega (arith, cn, other)),
    );
    bridge = λ c np cn e. absurd (omega (arith, np, cn, e));
  }

  longer-IsIndexed : IsIndexed longer
  longer-IsIndexed c h = elim (Bool-cases (c == n)) [
    | inl last ↦
        (let e : c ≡ n = ground arith in
          ap (λ p. (longer.store p).index) (ap (item longer) e ∙ new)
          ∙ index-set_index x (pos n) q.store
          ∙ ap pos (sym e))
    | inr before ↦
        (let inside : c < n = ground (arith, length-longer) in
          ap (λ p. (longer.store p).index) (old c inside)
          ∙ ap (λ m. m.index) (set_index-other x (pos n) q.store (item q c) (fresh c inside))
          ∙ valid.indexed c inside)
  ]

  abbrev pushed : Queue
  pushed = up (suc n) n longer

  rearranged : Rearranged (suc n) longer pushed
  rearranged = up-Rearranged (suc n) (suc n) n longer (omega (arith, length-longer)) (omega arith)

  pushed-IsQueue : IsQueue pushed
  pushed-IsQueue = record {
    ordered =
        (let o =
            up-Ordered (suc n) (suc n) n longer (omega (arith, length-longer)) (omega arith)
              (omega arith) longer-OrderedBut in
          λ c cp cn. o c cp (omega (arith, cn, rearranged.same_length, length-longer)));
    indexed = rearranged.indexed longer-IsIndexed;
    fits = ground (
      arith, rearranged.same_length, rearranged.same_capacity, length-longer, valid.room,
      valid.fits,
    );
    room = ground (arith, rearranged.same_capacity, valid.room);
  }

  from_longer : (p : ℕ) → In longer p → In q p ⊎ (p ≡ x)
  from_longer p (c, (h, e)) = elim (Bool-cases (c == n)) [
    | inl last ↦ (let k : c ≡ n = ground arith in inr (sym e ∙ ap (item longer) k ∙ new))
    | inr before ↦
        (let inside : c < n = ground (arith, length-longer) in
          inl (c, (inside, sym (old c inside) ∙ e)))
  ]

  to_longer : (p : ℕ) → In q p ⊎ (p ≡ x) → In longer p
  to_longer p (inl (c, (h, e))) = (c, (omega (arith, h, length-longer), old c h ∙ e))
  to_longer p (inr e) = (n, (omega (arith, length-longer), new ∙ sym e))

  -- `Push`, on a heap within its capacity whose messages know their places, of a message that is
  -- not in it: it never panics, and gives such a heap again, of the old messages and the new one,
  -- none of which has changed but for its place.
  pub push-Pushed : (r : Queue) × ((push x q ≡ some r) × Pushed q x r)
  unfolding push
  push-Pushed =
      let enough : ltb grown (n + 1) ≡ false = ground (arith, valid.room, valid.fits) in
      (
        pushed,
        (
          rw enough refl,
          record {
            valid = pushed-IsQueue;
            forth = λ p h. rearranged.forth p (to_longer p h);
            back = λ p h. from_longer p (rearranged.back p h);
            kept = λ p. rearranged.kept p ∙ unplaced-set_index x (pos n) q.store p;
          },
        ),
      )
