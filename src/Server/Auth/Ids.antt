-- ===== src/Server/Auth/Ids.antt =====
-- The connection ids of a user: all different, each known to the manager or to nobody.
use imserver.Prelude.{
  ℕ, ◌≡◌, ◌⊎◌, inl, inr, false, List, [], ◌∷◌, ◌++◌, Option, none, some, ◌==◌, arith,
}
use imserver.Proto.Types.{Text}
use imserver.Server.ConnManager.{NetConn, Engine, ConnManager}
use imserver.Server.ConnManager.Removes.{Absent}
use imserver.Server.ConnManager.Closes.{forget}

-- No id stands twice.
abbrev pub Once : List ℕ → Type 0
Once [] = Unit
Once (x ∷ xs) = Absent x xs × Once xs

-- An id of a user has no file descriptor any more, or it names a connection of the user that the
-- engine has.
abbrev pub Known : Engine → (ℕ → Option ℕ) → Text → ℕ → Type 0
Known eng conn_map uid i =
    (conn_map i ≡ none)
    ⊎ ((c : NetConn) × (conn_map i ≡ some c.fd) × (eng c.fd ≡ some c) × (c.id ≡ i) × (c.uid ≡ uid))

abbrev pub AllKnown : Engine → (ℕ → Option ℕ) → Text → List ℕ → Type 0
AllKnown eng conn_map uid [] = Unit
AllKnown eng conn_map uid (i ∷ ids) = Known eng conn_map uid i × AllKnown eng conn_map uid ids

pub AllKnown-append :
    (eng : Engine) (conn_map : ℕ → Option ℕ) (uid : Text) (xs ys : List ℕ)
    → AllKnown eng conn_map uid xs
    → AllKnown eng conn_map uid ys
    → AllKnown eng conn_map uid (xs ++ ys)
AllKnown-append eng conn_map uid [] ys a b = b
AllKnown-append eng conn_map uid (x ∷ xs) ys a b =
    (a.0, AllKnown-append eng conn_map uid xs ys a.1 b)

pub Absent-middle :
    (n i : ℕ) (xs ys : List ℕ) → Absent n (xs ++ i ∷ ys) → ((i == n) ≡ false) × Absent n (xs ++ ys)
Absent-middle n i [] ys a = a
Absent-middle n i (x ∷ xs) ys a = let (e, r) = Absent-middle n i xs ys a.1 in (e, (a.0, r))

pub Absent-first : (n : ℕ) (xs ys : List ℕ) → Absent n (xs ++ ys) → Absent n xs
Absent-first n [] ys a = tt
Absent-first n (x ∷ xs) ys a = (a.0, Absent-first n xs ys a.1)

pub Absent-second : (n : ℕ) (xs ys : List ℕ) → Absent n (xs ++ ys) → Absent n ys
Absent-second n [] ys a = a
Absent-second n (x ∷ xs) ys a = Absent-second n xs ys a.1

pub Once-middle :
    (i : ℕ) (xs ys : List ℕ) → Once (xs ++ i ∷ ys) → Absent i xs × Absent i ys × Once (xs ++ ys)
Once-middle i [] ys o = (tt, o.0, o.1)
Once-middle i (x ∷ xs) ys o =
    let (a, b, r) = Once-middle i xs ys o.1 in
    let (e, s) = Absent-middle x i xs ys o.0 in ((ground arith, a), b, (s, r))

-- Another id that is forgotten leaves what is known.
pub Known-forget :
    (eng : Engine) (m : ConnManager) (uid : Text) (i j : ℕ)
    → (j == i) ≡ false
    → Known eng m.conn_map uid j
    → Known eng (forget i m).conn_map uid j
Known-forget eng m uid i j e (inl h) = inl (rw e h)
Known-forget eng m uid i j e (inr (c, h, there, same, of)) = inr (c, rw e h, there, same, of)

pub AllKnown-forget :
    (eng : Engine) (m : ConnManager) (uid : Text) (i : ℕ) (ids : List ℕ)
    → Absent i ids
    → AllKnown eng m.conn_map uid ids
    → AllKnown eng (forget i m).conn_map uid ids
AllKnown-forget eng m uid i [] a k = tt
AllKnown-forget eng m uid i (j ∷ ids) a k =
    (Known-forget eng m uid i j a.0 k.0, AllKnown-forget eng m uid i ids a.1 k.1)
