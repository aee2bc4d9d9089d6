-- ===== src/Server/ConnManager/Closes.antt =====
-- What RemoveConnWithID does for a connection that the engine still has, and for one that it has
-- closed.
use imserver.Prelude.{
  ℕ, ◌≡◌, refl, ap, ap₂, ◌∙◌, Bool, true, false, List, [], ◌∷◌, ◌++◌, length, length-append, ◌==◌,
  none, some, if◌then◌else◌, arith,
}
use imserver.Proto.Types.{Text}
use imserver.Okstore.File.{equal, equal_refl}
use imserver.Server.ConnManager.{
  NetConn, Engine, engine_remove, ConnManager, get_conn, fd_of, set_conn_ids, remove_loop,
  remove_found, remove_conn_with_id, remove_conn, append_conn, conns_of, get_conns_with_uid,
  exist_conns_with_uid,
}
use imserver.Server.ConnManager.Removes.{Absent, Absent-append, remove_loop-once}

-- The connection is known to the manager and to the engine; its id stands once among those of its
-- user, between `before` and `after`.
pub record IsRegistered (eng : Engine) (m : ConnManager) (conn : NetConn) : Type 0 where
  pub before : List ℕ
  pub after : List ℕ
  pub listed : m.user_conn_map conn.uid ≡ before ++ conn.id ∷ after
  pub once_before : Absent conn.id before
  pub once_after : Absent conn.id after
  pub mapped : m.conn_map conn.id ≡ some conn.fd
  pub served : eng conn.fd ≡ some conn

-- The manager without an id.
abbrev pub forget : ℕ → ConnManager → ConnManager
forget id m = record m { conn_map = λ i. if i == id then none else m.conn_map i }

module _ (eng : Engine) (m : ConnManager) (conn : NetConn) (reg : IsRegistered eng m conn) where
  -- The manager without the connection.
  abbrev pub without : ConnManager
  without = record (forget conn.id m) {
    user_conn_map = set_conn_ids conn.uid (reg.before ++ reg.after) m.user_conn_map;
  }

  get_conn-registered : get_conn eng m conn.id ≡ some conn
  get_conn-registered = ap (λ o. eng (fd_of o)) reg.mapped ∙ reg.served

  loop-registered :
      remove_loop
        (length (m.user_conn_map conn.uid))
        0
        conn.id
        (m.user_conn_map conn.uid)
        (length (m.user_conn_map conn.uid))
      ≡ some (reg.before ++ reg.after)
  loop-registered =
      ap (λ l. remove_loop (length l) 0 conn.id l (length l)) reg.listed
      ∙ remove_loop-once conn.id reg.before reg.after reg.once_before reg.once_after

  pub remove_conn_with_id-without : remove_conn_with_id eng conn.id m ≡ some without
  unfolding remove_conn_with_id remove_found
  remove_conn_with_id-without = rw (get_conn-registered, remove_found, loop-registered) refl

-- The connections of other ids do not change.
pub conns_of-forget :
    (eng : Engine) (m : ConnManager) (users : Text → List ℕ) (id : ℕ) (ids : List ℕ)
    → Absent id ids
    → conns_of eng (record (forget id m) { user_conn_map = users }) ids ≡ conns_of eng m ids
unfolding conns_of
conns_of-forget eng m users id [] a = refl
conns_of-forget eng m users id (i ∷ ids) a =
    ap₂ append_conn (ap (λ (b : Bool). eng (fd_of (if b then none else m.conn_map i))) a.0)
      (conns_of-forget eng m users id ids a.1)

other-user :
    (uid u : Text) (ids : List ℕ) (users : Text → List ℕ)
    → equal u uid ≡ false
    → set_conn_ids uid ids users u ≡ users u
other-user uid u ids users h = rw h refl

same-user :
    (uid : Text) (ids : List ℕ) (users : Text → List ℕ) → set_conn_ids uid ids users uid ≡ ids
same-user uid ids users = rw (equal_refl uid) refl

-- `RemoveConnWithID` of a connection that the engine still has, and whose id stands once among those
-- of its user, and of any other user among whose ids it does not stand: it does not panic; the user
-- then has the other connections, in their order; the other user has the same connections as before;
-- and the id has no file descriptor.
pub remove_conn_with_id-registered :
    (eng : Engine) (m : ConnManager) (conn : NetConn) (reg : IsRegistered eng m conn) (u : Text)
    → equal u conn.uid ≡ false
    → Absent conn.id (m.user_conn_map u)
    → (m' : ConnManager) × (remove_conn_with_id eng conn.id m ≡ some m')
      × (get_conns_with_uid eng m' conn.uid ≡ conns_of eng m (reg.before ++ reg.after))
      × (get_conns_with_uid eng m' u ≡ get_conns_with_uid eng m u)
      × (m'.conn_map conn.id ≡ none)
unfolding get_conns_with_uid
remove_conn_with_id-registered eng m conn reg u other absent =
    let m' = without eng m conn reg in
    let ids = reg.before ++ reg.after in
    let users = m'.user_conn_map in
    let same : (conn.id == conn.id) ≡ true = ground arith in
    (
      m',
      remove_conn_with_id-without eng m conn reg,
      ap (conns_of eng m') (same-user conn.uid ids m.user_conn_map)
          ∙ conns_of-forget eng m users conn.id ids
              (Absent-append conn.id reg.before reg.after reg.once_before reg.once_after),
      ap (conns_of eng m') (other-user conn.uid u ids m.user_conn_map other)
          ∙ conns_of-forget eng m users conn.id (m.user_conn_map u) absent,
      rw same refl,
    )

-- When a connection closes, the engine takes it off its table and then calls the close handler, which
-- calls `RemoveConn` twice. For a connection that is registered, and with no connection of the file
-- descriptor 0: nothing panics, and its id stays among those of its user for good, so that
-- `ExistConnsWithUID` says that the user has a connection.
pub remove_conn-closed :
    (eng : Engine) (m : ConnManager) (conn : NetConn)
    → IsRegistered eng m conn
    → eng 0 ≡ none
    → let closed = engine_remove conn eng in
      (m1 : ConnManager) × (m2 : ConnManager) × (remove_conn closed conn m ≡ some m1)
      × (remove_conn closed conn m1 ≡ some m2)
      × (m2.user_conn_map ≡ m.user_conn_map)
      × (exist_conns_with_uid m2 conn.uid ≡ true)
unfolding remove_conn remove_conn_with_id remove_found exist_conns_with_uid
remove_conn-closed eng m conn reg none_at_0 =
    let m1 = forget conn.id m in
    let same : (conn.id == conn.id) ≡ true = ground arith in
    let same_fd : (conn.fd == conn.fd) ≡ true = ground arith in
    let gone : engine_remove conn eng 0 ≡ none = ground arith in
    let gone_again : get_conn (engine_remove conn eng) m1 conn.id ≡ none = rw same gone in
    (
      m1,
      forget conn.id m1,
      rw (reg.mapped, same_fd, remove_found) refl,
      rw (gone_again, remove_found) refl,
      refl,
      ground (arith, ap length reg.listed, length-append reg.before (conn.id ∷ reg.after)),
    )
