-- ===== src/Server/ConnManager/Removes.antt =====
-- RemoveConnWithID takes the id of a connection off the connections of its user.
use imserver.Prelude.{
  ℕ, zero, suc, ◌+◌, ◌-◌, ◌≡◌, refl, sym, ap, ap₂, ◌∙◌, true, false, List, [], ◌∷◌, ◌++◌,
  append_assoc, append-nil, length, length-append, length-drop, take, take-append, drop, get_or,
  leb, ◌==◌, some, arith,
}
use mathlib.Core.Path.{subst}
use imserver.Server.ConnManager.{remove_loop}

-- The id does not stand in the list.
abbrev pub Absent : ℕ → List ℕ → Type 0
Absent id [] = Unit
Absent id (x ∷ xs) = ((x == id) ≡ false) × Absent id xs

pub Absent-append : (id : ℕ) (xs ys : List ℕ) → Absent id xs → Absent id ys → Absent id (xs ++ ys)
Absent-append id [] ys a b = b
Absent-append id (x ∷ xs) ys a b = (a.0, Absent-append id xs ys a.1 b)

Absent-drop : (id n : ℕ) (xs : List ℕ) → Absent id xs → Absent id (drop n xs)
Absent-drop id zero xs a = a
Absent-drop id (suc n) [] a = tt
Absent-drop id (suc n) (x ∷ xs) a = Absent-drop id n xs a.1

get_or-here :
    (before : List ℕ) (x : ℕ) (after : List ℕ) (i : ℕ)
    → i ≡ length before
    → get_or (before ++ x ∷ after) i 0 ≡ x
get_or-here [] x after zero e = refl
get_or-here [] x after (suc i) e = absurd (omega arith)
get_or-here (y ∷ before) x after zero e = absurd (omega arith)
get_or-here (y ∷ before) x after (suc i) e = get_or-here before x after i (omega arith)

drop-behind : (xs ys : List ℕ) (k n : ℕ) → n ≡ length xs + k → drop n (xs ++ ys) ≡ drop k ys
drop-behind [] ys k n e = ap (λ (j : ℕ). drop j ys) (e ∙ omega arith)
drop-behind (x ∷ xs) ys k zero e = absurd (omega arith)
drop-behind (x ∷ xs) ys k (suc n) e = drop-behind xs ys k n (omega arith)

take-all : (xs : List ℕ) (n : ℕ) → n ≡ length xs → take n xs ≡ xs
take-all xs n e = ap (take n) (sym (append-nil xs)) ∙ take-append xs [] n e

module _ (id : ℕ) where
  -- No match among the ids that are left.
  loop-clear :
      (before xs after : List ℕ) (index len : ℕ)
      → index ≡ length before
      → Absent id xs
      → remove_loop (length xs) index id (before ++ (xs ++ after)) len
        ≡ some (take len (before ++ (xs ++ after)))
  unfolding remove_loop
  loop-clear before [] after index len e a = refl
  loop-clear before (x ∷ xs) after index len e a =
      let arr = before ++ (x ∷ (xs ++ after)) in
      let split : (before ++ x ∷ []) ++ (xs ++ after) ≡ arr =
        append_assoc before (x ∷ []) (xs ++ after) in
      let miss : (get_or arr index 0 == id) ≡ false =
        ap (λ (t : ℕ). t == id) (get_or-here before x (xs ++ after) index e) ∙ a.0 in
      let on =
        loop-clear (before ++ x ∷ []) xs after (index + 1) len
          (omega (arith, e, length-append before (x ∷ []))) a.1 in
      rw miss (
        ap (λ l. remove_loop (length xs) (index + 1) id l len) (sym split)
        ∙ on
        ∙ ap (λ l. some (take len l)) split)

  -- The ids behind the match, moved down by one.
  loop-cut :
      (before after : List ℕ) (index len : ℕ)
      → index ≡ length before
      → suc len ≡ length (before ++ id ∷ after)
      → Absent id after
      → remove_loop
          (length after)
          (index + 1)
          id
          (before ++ (after ++ drop len (before ++ id ∷ after)))
          len
        ≡ some (before ++ after)
  unfolding remove_loop
  loop-cut before [] index len e n a =
      let k : len ≡ length before = omega (arith, n, length-append before (id ∷ [])) in
      ap some (take-append before (drop len (before ++ id ∷ [])) len k ∙ sym (append-nil before))
  loop-cut before (y ∷ ys) index len e n a =
      let z = drop len (before ++ id ∷ y ∷ ys) in
      let k : len ≡ length before + suc (length ys) =
        omega (arith, n, length-append before (id ∷ y ∷ ys)) in
      let z_lem : z ≡ drop (length ys) (y ∷ ys) =
        drop-behind before (id ∷ y ∷ ys) (suc (length ys)) len k in
      let z_absent : Absent id z =
        subst (Absent id) (sym z_lem) (Absent-drop id (length ys) (y ∷ ys) a) in
      let one : length z ≡ 1 = ap length z_lem ∙ length-drop (length ys) (y ∷ ys) ∙ omega arith in
      let xs = ys ++ z in
      let rounds : length xs ≡ suc (length ys) = omega (arith, one, length-append ys z) in
      let arr : (before ++ y ∷ []) ++ (xs ++ []) ≡ before ++ y ∷ (ys ++ z) =
        append_assoc before (y ∷ []) (xs ++ []) ∙ ap (λ l. before ++ y ∷ l) (append-nil xs) in
      let cleared =
        loop-clear (before ++ y ∷ []) xs [] (index + 1) len
          (omega (arith, e, length-append before (y ∷ []))) (Absent-append id ys z a.1 z_absent) in
      ap₂ (λ (f : ℕ) (l : List ℕ). remove_loop f (index + 1) id l len) (sym rounds) (sym arr)
      ∙ cleared
      ∙ ap some (
          ap (take len) (arr ∙ sym (append_assoc before (y ∷ ys) z))
          ∙ take-append (before ++ y ∷ ys) z len (omega (arith, k, length-append before (y ∷ ys))))

  -- The ids up to the match, and the match.
  loop-walk :
      (before xs after : List ℕ) (index len : ℕ)
      → index ≡ length before
      → len ≡ length (before ++ (xs ++ id ∷ after))
      → Absent id xs
      → Absent id after
      → remove_loop (length (xs ++ id ∷ after)) index id (before ++ (xs ++ id ∷ after)) len
        ≡ some (before ++ (xs ++ after))
  unfolding remove_loop
  loop-walk before [] after index len e n a b =
      let arr = before ++ id ∷ after in
      let hit : (get_or arr index 0 == id) ≡ true =
        ground (arith, get_or-here before id after index e) in
      let inside : leb (index + 1) len ≡ true = ground (arith, length-append before (id ∷ after)) in
      let front : take index arr ≡ before = take-append before (id ∷ after) index e in
      let whole : take len arr ≡ arr = take-all arr len (omega (arith, n)) in
      let behind : drop (index + 1) arr ≡ after =
        drop-behind before (id ∷ after) 1 (index + 1) (omega (arith, e)) in
      rw (hit, inside, front, whole, behind)
        (loop-cut before after index (len - 1) e
          (omega (arith, n, length-append before (id ∷ after))) b)
  loop-walk before (x ∷ xs) after index len e n a b =
      let arr = before ++ (x ∷ (xs ++ id ∷ after)) in
      let split : (before ++ x ∷ []) ++ (xs ++ id ∷ after) ≡ arr =
        append_assoc before (x ∷ []) (xs ++ id ∷ after) in
      let miss : (get_or arr index 0 == id) ≡ false =
        ap (λ (t : ℕ). t == id) (get_or-here before x (xs ++ id ∷ after) index e) ∙ a.0 in
      let on =
        loop-walk (before ++ x ∷ []) xs after (index + 1) len
          (omega (arith, e, length-append before (x ∷ []))) (n ∙ ap length (sym split)) a.1 b in
      rw miss (
        ap (λ l. remove_loop (length (xs ++ id ∷ after)) (index + 1) id l len) (sym split)
        ∙ on
        ∙ ap some (append_assoc before (x ∷ []) (xs ++ after)))

-- The loop over the ids of a user, in which an id stands once, takes it out and keeps the others in
-- their order.
pub remove_loop-once :
    (id : ℕ) (xs after : List ℕ)
    → Absent id xs
    → Absent id after
    → remove_loop (length (xs ++ id ∷ after)) 0 id (xs ++ id ∷ after) (length (xs ++ id ∷ after))
      ≡ some (xs ++ after)
remove_loop-once id xs after a b = loop-walk id [] xs after 0 _ refl refl a b
