-- ===== src/Server/Auth/Login.antt =====
-- What a login does to the connections that its user has, for any device level.
use imserver.Prelude.{
  ℕ, ◌≡◌, inl, inr, refl, sym, ap, ap₂, ◌∙◌, true, false, Bool, List, [], ◌∷◌, ◌++◌, append-nil,
  Option, none, some, ◌==◌, if◌then◌else◌, Bool-cases, ==_iff, arith,
}
use mathlib.Core.Path.{subst}
use imserver.Proto.Result.{ok}
use imserver.Proto.Types.{Text, ConnectPacket}
use imserver.Okstore.File.{equal, equal_refl}
use imserver.Server.ConnManager.{
  NetConn, Engine, engine_add, ConnManager, get_conn, add_conn, append_conn, conns_of, with_flag,
  get_conns_with_uid, get_conns_with,
}
use imserver.Server.ConnManager.Removes.{Absent}
use imserver.Server.Auth.{
  AuthServices, AuthState, Kicked, device_level_master, device_level_slave, kick, kick_master,
  kick_slave, close_old_conn, kick_frame, set_conn_info, run_timers, accept, respond, after_kick,
  after_keys,
}
use imserver.Server.Auth.Ids.{Once, Known, AllKnown}
use imserver.Server.Auth.Kicks.{flagged, with_flag-one, flagged-append, Rounds}
use imserver.Server.Auth.Loop.{IsLoop, left_of, loop-clean}

-- The connection that logs in is in the engine's table and not yet among those of the user; and the ids
-- of the user are all different, each known.
pub record IsReady (st : AuthState) (uid : Text) (conn : NetConn) : Type 0 where
  pub once : Once (st.manager.user_conn_map uid)
  pub known : AllKnown st.engine st.manager.conn_map uid (st.manager.user_conn_map uid)
  pub absent : Absent conn.id (st.manager.user_conn_map uid)
  pub served : st.engine conn.fd ≡ some conn
  pub no_conn : st.engine 0 ≡ none
  pub fd : (0 == conn.fd) ≡ false

module _ (eng : Engine) (m : ConnManager) (uid : Text) (conn new : NetConn)
    (served : eng conn.fd ≡ some conn) (no_conn : eng 0 ≡ none) (positive : (0 == conn.fd) ≡ false)
    (same_id : new.id ≡ conn.id) (same_fd : new.fd ≡ conn.fd) where
  abbrev eng' : Engine
  eng' = engine_add new eng

  abbrev m' : ConnManager
  m' = add_conn new m

  -- A connection that is known is not the new one.
  other_fd :
      (c : NetConn) → eng c.fd ≡ some c → (c.id == conn.id) ≡ false → (c.fd == new.fd) ≡ false
  other_fd c there other = elim (Bool-cases (c.fd == new.fd)) [
    | inr n ↦ n
    | inl y ↦
        (let fds : c.fd ≡ conn.fd = omega (arith, (==_iff c.fd new.fd).0 y, same_fd) in
          let both : some c ≡ some conn = sym there ∙ ap eng fds ∙ served in
          let ids : c.id ≡ conn.id = ap id_of both in absurd (ground arith))
  ]
    where
      id_of : Option NetConn → ℕ
      id_of none = 0
      id_of (some d) = d.id

  get_conn-other :
      (i : ℕ)
      → (i == conn.id) ≡ false
      → Known eng m.conn_map uid i
      → get_conn eng' m' i ≡ get_conn eng m i
  unfolding add_conn
  get_conn-other i other known =
      let miss : (i == new.id) ≡ false = ap (λ (j : ℕ). i == j) same_id ∙ other in
      let zero_miss : (0 == new.fd) ≡ false = ap (λ (j : ℕ). 0 == j) same_fd ∙ positive in
      elim known [
        | inl stale ↦ rw (miss, stale, zero_miss) refl
        | inr (c, at, there, same, of) ↦
            (let other_c : (c.id == conn.id) ≡ false = ap (λ (j : ℕ). j == conn.id) same ∙ other in
              rw (miss, at, other_fd c there other_c) refl)
      ]

  conns_of-other :
      (ids : List ℕ)
      → Absent conn.id ids
      → AllKnown eng m.conn_map uid ids
      → conns_of eng' m' ids ≡ conns_of eng m ids
  unfolding conns_of
  conns_of-other [] a k = refl
  conns_of-other (i ∷ ids) a k =
      ap₂ append_conn (get_conn-other i a.0 k.0) (conns_of-other ids a.1 k.1)

  -- The new connection stands behind the others of the user with the flag.
  flagged-added :
      (flag : ℕ) (ids : List ℕ) (stays : List NetConn)
      → new.uid ≡ uid
      → m.user_conn_map uid ≡ ids
      → Absent conn.id ids
      → AllKnown eng m.conn_map uid ids
      → flagged eng m flag ids ≡ stays
      → (new.device_flag == flag) ≡ true
      → get_conns_with eng' m' uid flag ≡ stays ++ new ∷ []
  unfolding get_conns_with get_conns_with_uid add_conn conns_of
  flagged-added flag ids stays of listed a k others hit =
      let here : equal uid new.uid ≡ true =
        ap (λ u. equal u new.uid) (sym of) ∙ equal_refl new.uid in
      let users : m'.user_conn_map uid ≡ ids ++ new.id ∷ [] =
        rw here (ap (λ l. l ++ new.id ∷ []) (ap m.user_conn_map of ∙ listed)) in
      let found : get_conn eng' m' new.id ≡ some new = ground arith in
      ap (flagged eng' m' flag) users
      ∙ flagged-append eng' m' flag ids (new.id ∷ [])
      ∙ ap₂ (λ a b. a ++ b) (ap (with_flag flag) (conns_of-other ids a k) ∙ others)
          (with_flag-one flag new (get_conn eng' m' new.id) true found hit)

-- The state behind a removal, for a master and for a slave.
abbrev dropped_by_master : Text → NetConn → ConnManager → Kicked → Kicked
dropped_by_master device_id c manager k =
    let same = equal c.device_id device_id in
    record {
      manager = manager;
      sent = if same then k.sent else k.sent ++ ((c.id, kick_frame) ∷ []);
      old_conn = c.id;
      timers = k.timers ++ (close_old_conn (if same then 4 else 5) ∷ []);
    }

abbrev pub dropped_by_slave : NetConn → ConnManager → Kicked → Kicked
dropped_by_slave c manager k = record k {
  manager = manager;
  old_conn = c.id;
  timers = k.timers ++ (close_old_conn 5 ∷ []);
}

-- The connections that a login of a level drops: a master all, a slave those of its device.
abbrev pub dropped : ℕ → Text → NetConn → Bool
dropped level device_id c =
    if level == device_level_master
    then true
    else if level == device_level_slave
    then equal c.device_id device_id
    else false

kick-IsLoop :
    (eng : Engine) (level : ℕ) (device_id : Text)
    → IsLoop eng (dropped level device_id) (kick eng level device_id)
unfolding kick kick_master kick_slave
kick-IsLoop eng level device_id = record {
  ends = λ k. ground arith;
  drop = λ c olds k m y e. elim (Bool-cases (level == device_level_master)) [
    | inl master ↦ (dropped_by_master device_id c m k, rw (master, kick_master, e) refl, refl)
    | inr n ↦ elim (Bool-cases (level == device_level_slave)) [
      | inl slave ↦
          (let same : equal c.device_id device_id ≡ true = ground arith in
            (dropped_by_slave c m k, rw (n, slave, kick_slave, same, e) refl, refl))
      | inr other ↦ absurd (ground arith)
    ]
  ];
  keep = λ c olds k n. elim (Bool-cases (level == device_level_master)) [
    | inl master ↦ absurd (ground arith)
    | inr n1 ↦ elim (Bool-cases (level == device_level_slave)) [
      | inl slave ↦
          (let same : equal c.device_id device_id ≡ false = ground arith in
            (record k { old_conn = c.id }, rw (n1, slave, kick_slave, same) refl, refl))
      | inr other ↦ (k, rw (n1, other) refl, refl)
    ]
  ];
}

-- The state of the loop before its first round.
abbrev pub begin : AuthState → Kicked
begin st = record { manager = st.manager; sent = st.sent; old_conn = 0; timers = [] }

-- For a connection that is ready: the loop over the old connections ends, and the new connection
-- stands behind those that the login does not drop.
pub after_keys-left :
    (svc : AuthServices) (conn : NetConn) (packet : ConnectPacket) (level level_i : ℕ)
    (aes_key aes_iv : Text) (st : AuthState)
    → IsReady st packet.uid conn
    → let olds = get_conns_with st.engine st.manager packet.uid packet.device_flag in
      (k : Kicked) × (st' : AuthState) × (kick st.engine level packet.device_id olds (begin st)
        ≡ some k)
      × (after_keys svc conn packet level level_i aes_key aes_iv st ≡ ok st')
      × (st'.closing ≡ st.closing ++ run_timers k.old_conn k.timers)
      × (get_conns_with st'.engine st'.manager packet.uid packet.device_flag
          ≡ left_of (dropped level packet.device_id) olds
            ++ set_conn_info packet level_i aes_key aes_iv conn ∷ [])
unfolding after_keys after_kick accept respond set_conn_info get_conns_with get_conns_with_uid
    conns_of with_flag
after_keys-left svc conn packet level level_i aes_key aes_iv st ready =
    let eng = st.engine in
    let uid = packet.uid in
    let flag = packet.device_flag in
    let ids = st.manager.user_conn_map uid in
    let olds = get_conns_with eng st.manager uid flag in
    let new = set_conn_info packet level_i aes_key aes_iv conn in
    let rounds : Rounds eng st.manager uid flag conn.id [] ids [] = record {
      listed = refl;
      once = ready.once;
      known = ready.known;
      absent = ready.absent;
      clean = refl;
    } in
    let (k, final, run, done) =
      loop-clean eng uid flag conn.id ready.no_conn (dropped level packet.device_id)
        (kick eng level packet.device_id) (kick-IsLoop eng level packet.device_id) ids [] (begin st)
        [] rounds in
    let whole = append-nil final in
    (
      k,
      accept svc conn packet level_i aes_key aes_iv (record st {
        manager = k.manager;
        sent = k.sent;
        closing = st.closing ++ run_timers k.old_conn k.timers;
      }),
      run,
      ap (after_kick svc conn packet level_i aes_key aes_iv st) run,
      refl,
      flagged-added eng k.manager uid conn new ready.served ready.no_conn ready.fd refl refl flag
          final (left_of (dropped level packet.device_id) olds) refl (done.listed ∙ whole)
          (subst (Absent conn.id) whole done.absent)
          (subst (AllKnown eng k.manager.conn_map uid) whole done.known) done.clean (ground arith),
    )
