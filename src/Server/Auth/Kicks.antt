-- ===== src/Server/Auth/Kicks.antt =====
-- One round of a loop over the older connections of a user: a connection stays or is removed.
use imserver.Prelude.{
  ℕ, ◌≡◌, refl, sym, ap, ap₂, ◌∙◌, Bool, true, List, [], ◌∷◌, ◌++◌, append_assoc, Option, none,
  some, ◌==◌, if◌then◌else◌, arith,
}
use mathlib.Core.Path.{subst}
use imserver.Proto.Types.{Text}
use imserver.Okstore.File.{equal, equal_refl}
use imserver.Server.ConnManager.{
  NetConn, Engine, ConnManager, get_conn, set_conn_ids, append_conn, conns_of, with_flag,
  remove_conn_with_id,
}
use imserver.Server.ConnManager.Removes.{Absent, Absent-append}
use imserver.Server.ConnManager.Closes.{
  IsRegistered, forget, remove_conn_with_id-without, conns_of-forget,
}
use imserver.Server.Auth.Ids.{Once, Known, AllKnown, Absent-middle, Once-middle, AllKnown-forget}

-- The connections with the flag, of several ids.
abbrev pub flagged : Engine → ConnManager → ℕ → List ℕ → List NetConn
flagged eng m flag ids = with_flag flag (conns_of eng m ids)

pub with_flag-append_conn :
    (flag : ℕ) (o : Option NetConn) (conns : List NetConn)
    → with_flag flag (append_conn o conns)
      ≡ with_flag flag (append_conn o []) ++ with_flag flag conns
unfolding with_flag append_conn
with_flag-append_conn flag none conns = refl
with_flag-append_conn flag (some c) conns = ground arith

pub with_flag-one :
    (flag : ℕ) (c : NetConn) (o : Option NetConn) (b : Bool)
    → o ≡ some c
    → (c.device_flag == flag) ≡ b
    → with_flag flag (append_conn o []) ≡ (if b then c ∷ [] else [])
unfolding with_flag append_conn
with_flag-one flag c o b e f = rw (e, append_conn, with_flag, f) refl

pub flagged-append :
    (eng : Engine) (m : ConnManager) (flag : ℕ) (xs ys : List ℕ)
    → flagged eng m flag (xs ++ ys) ≡ flagged eng m flag xs ++ flagged eng m flag ys
unfolding conns_of with_flag
flagged-append eng m flag [] ys = refl
flagged-append eng m flag (x ∷ xs) ys =
    let o = get_conn eng m x in
    let first = with_flag flag (append_conn o []) in
    with_flag-append_conn flag o (conns_of eng m (xs ++ ys))
    ∙ ap (λ l. first ++ l) (flagged-append eng m flag xs ys)
    ∙ sym (append_assoc first (flagged eng m flag xs) (flagged eng m flag ys))
    ∙ ap (λ l. l ++ flagged eng m flag ys) (sym (with_flag-append_conn flag o (conns_of eng m xs)))

-- The ids of a user, those that were looked at and the rest; the connections of the first that have
-- the flag.
pub record Rounds (eng : Engine) (m : ConnManager) (uid : Text) (flag : ℕ) (new : ℕ)
    (kept rest : List ℕ) (stays : List NetConn) : Type 0 where
  pub listed : m.user_conn_map uid ≡ kept ++ rest
  pub once : Once (kept ++ rest)
  pub known : AllKnown eng m.conn_map uid (kept ++ rest)
  pub absent : Absent new (kept ++ rest)
  pub clean : flagged eng m flag kept ≡ stays

module _ (eng : Engine) (uid : Text) (flag new : ℕ) (none_at_0 : eng 0 ≡ none) where
  -- The first of the rest stays.
  pub keep_first :
      (m : ConnManager) (kept : List ℕ) (i : ℕ) (rest : List ℕ) (stays conns : List NetConn)
      → Rounds eng m uid flag new kept (i ∷ rest) stays
      → with_flag flag (append_conn (get_conn eng m i) []) ≡ conns
      → Rounds eng m uid flag new (kept ++ i ∷ []) rest (stays ++ conns)
  unfolding conns_of
  keep_first m kept i rest stays conns r e =
      let move = append_assoc kept (i ∷ []) rest in
      record {
        listed = r.listed ∙ sym move;
        once = subst Once (sym move) r.once;
        known = subst (AllKnown eng m.conn_map uid) (sym move) r.known;
        absent = subst (Absent new) (sym move) r.absent;
        clean = flagged-append eng m flag kept (i ∷ []) ∙ ap₂ (λ a b. a ++ b) r.clean e;
      }

  -- What is known of the first of the rest.
  pub Known-first :
      (m : ConnManager) (kept : List ℕ) (i : ℕ) (rest : List ℕ)
      → AllKnown eng m.conn_map uid (kept ++ i ∷ rest)
      → Known eng m.conn_map uid i × AllKnown eng m.conn_map uid (kept ++ rest)
  Known-first m [] i rest k = (k.0, k.1)
  Known-first m (x ∷ kept) i rest k = let (a, b) = Known-first m kept i rest k.1 in (a, (k.0, b))

  -- The first of the rest is a connection of the user, and is removed.
  module _ (m : ConnManager) (kept : List ℕ) (rest : List ℕ) (stays : List NetConn) (c : NetConn)
      (r : Rounds eng m uid flag new kept (c.id ∷ rest) stays) (at : m.conn_map c.id ≡ some c.fd)
      (served : eng c.fd ≡ some c) (of : c.uid ≡ uid) where
    abbrev pub parts : Absent c.id kept × Absent c.id rest × Once (kept ++ rest)
    parts = Once-middle c.id kept rest r.once

    pub registered : IsRegistered eng m c
    registered = record {
      before = kept;
      after = rest;
      listed = ap m.user_conn_map of ∙ r.listed;
      once_before = parts.0;
      once_after = parts.1;
      mapped = at;
      served = served;
    }

    abbrev pub left : ConnManager
    left = record (forget c.id m) {
      user_conn_map = set_conn_ids c.uid (kept ++ rest) m.user_conn_map;
    }

    pub removes : remove_conn_with_id eng c.id m ≡ some left
    unfolding registered
    removes = remove_conn_with_id-without eng m c registered

    pub same_uid : equal uid c.uid ≡ true
    same_uid = ap (λ u. equal u c.uid) (sym of) ∙ equal_refl c.uid

    pub left-Rounds : Rounds eng left uid flag new kept rest stays
    left-Rounds = record {
      listed = rw same_uid refl;
      once = parts.2;
      known =
          AllKnown-forget eng m uid c.id (kept ++ rest)
            (Absent-append c.id kept rest parts.0 parts.1) (Known-first m kept c.id rest r.known).1;
      absent = (Absent-middle new c.id kept rest r.absent).1;
      clean =
          ap (with_flag flag) (conns_of-forget eng m left.user_conn_map c.id kept parts.0)
          ∙ r.clean;
    }

    pub left-flagged : flagged eng left flag rest ≡ flagged eng m flag rest
    left-flagged = ap (with_flag flag) (conns_of-forget eng m left.user_conn_map c.id rest parts.1)

  -- The connections with the flag, of a first id and more.
  pub flagged-first :
      (m : ConnManager) (i : ℕ) (rest : List ℕ)
      → flagged eng m flag (i ∷ rest)
        ≡ with_flag flag (append_conn (get_conn eng m i) []) ++ flagged eng m flag rest
  unfolding conns_of
  flagged-first m i rest = with_flag-append_conn flag (get_conn eng m i) (conns_of eng m rest)
