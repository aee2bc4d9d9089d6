-- ===== src/Server/Auth/Slave.antt =====
-- Which connections the login of a slave device leaves, and which its timers close.
use imserver.Prelude.{
  ℕ, zero, suc, ◌≡◌, refl, sym, ap, ap₂, ◌∙◌, List, [], ◌∷◌, ◌++◌, append_assoc, append-nil,
  replicate, some, if◌then◌else◌, Option-cases, Bool-cases, inl, inr, arith,
}
use imserver.Proto.Result.{ok}
use imserver.Proto.Types.{Text, ConnectPacket}
use imserver.Okstore.File.{equal}
use imserver.Server.ConnManager.{NetConn, Engine, remove_conn_with_id, get_conns_with}
use imserver.Server.Auth.{
  AuthServices, AuthState, Kicked, close_old_conn, run_timers, device_level_slave, kick_slave, kick,
  set_conn_info, after_keys,
}
use imserver.Server.Auth.Loop.{left_of}
use imserver.Server.Auth.Login.{IsReady, dropped, dropped_by_slave, begin, after_keys-left}

-- Of some connections: those of other devices, how many are of the device, and the id of the last.
abbrev pub others : Text → List NetConn → List NetConn
others device_id [] = []
others device_id (c ∷ conns) =
    if equal c.device_id device_id then others device_id conns else c ∷ others device_id conns

abbrev pub count_device : Text → List NetConn → ℕ
count_device device_id [] = 0
count_device device_id (c ∷ conns) =
    if equal c.device_id device_id
    then suc (count_device device_id conns)
    else count_device device_id conns

abbrev pub last_id : ℕ → List NetConn → ℕ
last_id id [] = id
last_id id (c ∷ conns) = last_id c.id conns

left_of-slave :
    (device_id : Text) (conns : List NetConn)
    → left_of (dropped device_level_slave device_id) conns ≡ others device_id conns
left_of-slave device_id [] = refl
left_of-slave device_id (c ∷ conns) = ground (arith, left_of-slave device_id conns)

run_timers-replicate :
    (n id : ℕ) → run_timers id (replicate n (close_old_conn 5)) ≡ replicate n (5, id)
unfolding run_timers
run_timers-replicate zero id = refl
run_timers-replicate (suc n) id = ap (λ l. (5, id) ∷ l) (run_timers-replicate n id)

module _ (eng : Engine) (device_id : Text) where
  -- The timers of the loop, and its variable at the end.
  abbrev Timed : List NetConn → Kicked → Kicked → Type 0
  Timed olds k k' =
      (k'.timers ≡ k.timers ++ replicate (count_device device_id olds) (close_old_conn 5))
      × (k'.old_conn ≡ last_id k.old_conn olds)

  kick_slave-Timed :
      (olds : List NetConn) (k k' : Kicked)
      → kick_slave eng device_id olds k ≡ some k'
      → Timed olds k k'
  unfolding kick_slave
  kick_slave-Timed [] k k' h = (ground (arith, append-nil k.timers), ground arith)
  kick_slave-Timed (old ∷ olds) k k' h = elim (Bool-cases (equal old.device_id device_id)) [
    | inr n ↦
        (let (t, o) = kick_slave-Timed olds (record k { old_conn = old.id }) k' (ground arith) in
          (ground arith, o))
    | inl y ↦ elim (Option-cases (remove_conn_with_id eng old.id k.manager)) [
      | inl e ↦ absurd (ground arith)
      | inr (m, e) ↦
          (let (t, o) = kick_slave-Timed olds (dropped_by_slave old m k) k' (ground arith) in
            let n : count_device device_id (old ∷ olds) ≡ suc (count_device device_id olds) =
              rw y refl in
            (
              t
                  ∙ append_assoc k.timers (close_old_conn 5 ∷ [])
                      (replicate (count_device device_id olds) (close_old_conn 5))
                  ∙ ap (λ (n : ℕ). k.timers ++ replicate n (close_old_conn 5)) (sym n),
              o,
            ))
    ]
  ]

-- When a slave device logs in on a connection that is ready: no removal panics; of the connections
-- that its user has with the same device flag, those of other devices are left, and the new one; and
-- a timer of five seconds is started for each connection of the device, which closes the last of the
-- old connections with the flag, whichever device that is of.
pub after_keys-slave :
    (svc : AuthServices) (conn : NetConn) (packet : ConnectPacket) (level_i : ℕ)
    (aes_key aes_iv : Text) (st : AuthState)
    → IsReady st packet.uid conn
    → let olds = get_conns_with st.engine st.manager packet.uid packet.device_flag in
      (st' : AuthState) × (after_keys svc conn packet device_level_slave level_i aes_key aes_iv st
        ≡ ok st')
      × (get_conns_with st'.engine st'.manager packet.uid packet.device_flag
          ≡ others packet.device_id olds ++ set_conn_info packet level_i aes_key aes_iv conn ∷ [])
      × (st'.closing
          ≡ st.closing ++ replicate (count_device packet.device_id olds) (5, last_id 0 olds))
unfolding kick
after_keys-slave svc conn packet level_i aes_key aes_iv st ready =
    let olds = get_conns_with st.engine st.manager packet.uid packet.device_flag in
    let new = set_conn_info packet level_i aes_key aes_iv conn in
    let (k, st', run, done, closes, conns) =
      after_keys-left svc conn packet device_level_slave level_i aes_key aes_iv st ready in
    let (timers, last) = kick_slave-Timed st.engine packet.device_id olds (begin st) k run in
    (
      st',
      done,
      conns ∙ ap (λ l. l ++ new ∷ []) (left_of-slave packet.device_id olds),
      closes
          ∙ ap (λ l. st.closing ++ l)
              (ap₂ run_timers last timers
                ∙ run_timers-replicate (count_device packet.device_id olds) (last_id 0 olds)),
    )
