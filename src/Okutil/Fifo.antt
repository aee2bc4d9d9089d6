-- ===== src/Okutil/Fifo.antt =====
-- pkg/okutil/fifo.go: the window over the last samples that the monitor shows.
use imserver.Prelude.{
  ℕ, zero, suc, ◌-◌, ◌<◌, ◌≤◌, ◌≡◌, refl, ap, sym, ◌∙◌, List, [], ◌∷◌, ◌++◌, length, length-append,
  drop, append_assoc, append-nil, Option, none, some, ◌==◌, if◌then◌else◌, arith, inl, inr, leb,
  Bool-cases, drop-all, length-drop,
}
use imserver.Prelude.Int.{ℤ, pos}

pub record Fifo : Type 0 where
  pub items : List ℤ
  pub size : ℕ

unfoldable pub new_fifo : ℕ → Fifo
new_fifo size = record { items = []; size = size }

-- `data[1:]`, which panics on a slice with nothing in it.
unfoldable pub tail : List ℤ → Option (List ℤ)
tail [] = none
tail (v ∷ vs) = some vs

unfoldable pub append_to : ℤ → Fifo → List ℤ → Fifo
append_to val f items = record f { items = items ++ (val ∷ []) }

-- `Push`, nothing where it panics.
unfoldable pub push : ℤ → Fifo → Option Fifo
push val f =
    if length f.items == f.size
    then elim (tail f.items) [ none ↦ none | some items ↦ some (append_to val f items) ]
    else some (append_to val f f.items)

-- `Pop`
unfoldable pub pop : Fifo → ℤ × Fifo
pop f = elim f.items [ [] ↦ (pos 0, f) | v ∷ vs ↦ (v, record f { items = vs }) ]

unfoldable pub push_all : List ℤ → Fifo → Option Fifo
push_all [] f = some f
push_all (v ∷ vs) f = elim (push v f) [ none ↦ none | some f' ↦ push_all vs f' ]

-- The last `size` of the values.
abbrev pub last : ℕ → List ℤ → List ℤ
last size vs = drop (length vs - size) vs

drop_append : (n : ℕ) (xs ys : List ℤ) → n ≤ length xs → drop n (xs ++ ys) ≡ drop n xs ++ ys
drop_append zero xs ys h = refl
drop_append (suc n) [] ys h = absurd (omega arith)
drop_append (suc n) (x ∷ xs) ys h = drop_append n xs ys (omega arith)

tail-drop : (n : ℕ) (vs : List ℤ) → n < length vs → tail (drop n vs) ≡ some (drop (suc n) vs)
unfolding tail
tail-drop n [] h = absurd (omega arith)
tail-drop zero (v ∷ vs) h = refl
tail-drop (suc n) (v ∷ vs) h = tail-drop n vs (omega arith)

-- A window that is full drops its oldest value.
push_full :
    (size : ℕ) (before : List ℤ) (v : ℤ)
    → 0 < size
    → size ≤ length before
    → push v (record { items = last size before; size = size })
      ≡ some (record { items = last size (before ++ (v ∷ [])); size = size })
unfolding push append_to
push_full size before v pos_size h =
    let n : ℕ = length before - size in
    let e : drop (suc n) before ++ (v ∷ []) ≡ last size (before ++ (v ∷ [])) =
      sym (drop_append (suc n) before (v ∷ []) (omega arith))
      ∙ ap (λ (k : ℕ). drop k (before ++ (v ∷ []))) {x = suc n}
          (omega (arith, length-append before (v ∷ []))) in
    rw (sym e) (ground (arith, length-drop n before, tail-drop n before (omega arith)))

push_room :
    (size : ℕ) (before : List ℤ) (v : ℤ)
    → length before < size
    → push v (record { items = last size before; size = size })
      ≡ some (record { items = last size (before ++ (v ∷ [])); size = size })
unfolding push append_to
push_room size before v h =
    let none_yet : length before - size ≡ 0 = omega arith in
    let none_after : length (before ++ (v ∷ [])) - size ≡ 0 =
      omega (arith, length-append before (v ∷ [])) in
    rw (none_yet, none_after) (ground arith)

push-last :
    (size : ℕ) (before : List ℤ) (v : ℤ)
    → 0 < size
    → push v (record { items = last size before; size = size })
      ≡ some (record { items = last size (before ++ (v ∷ [])); size = size })
push-last size before v h = elim (Bool-cases (leb size (length before))) [
  | inl full ↦ push_full size before v h (ground arith)
  | inr room ↦ push_room size before v (ground arith)
]

push_all-last :
    (size : ℕ) (before vs : List ℤ)
    → 0 < size
    → push_all vs (record { items = last size before; size = size })
      ≡ some (record { items = last size (before ++ vs); size = size })
unfolding push_all
push_all-last size before [] h = rw (append-nil before) refl
push_all-last size before (v ∷ vs) h =
    rw (push-last size before v h, push_all)
      (push_all-last size (before ++ (v ∷ [])) vs h
        ∙ ap (λ (l : List ℤ). some (record { items = last size l; size = size }))
            (append_assoc before (v ∷ []) vs))

-- A window of at least one sample holds, after any number of samples, the last of them in order,
-- as many as its size, and no `Push` panics.
pub push_all-new_fifo :
    (size : ℕ) (vs : List ℤ)
    → 0 < size
    → push_all vs (new_fifo size)
      ≡ some (record { items = drop (length vs - size) vs; size = size })
unfolding new_fifo
push_all-new_fifo size vs h =
    let empty : last size [] ≡ [] = drop-all _ [] (omega arith) in
    ap (λ (l : List ℤ). push_all vs (record { items = l; size = size })) (sym empty)
    ∙ push_all-last size [] vs h
