-- ===== src/Server/Auth/Master.antt =====
-- The login of a master device leaves its user one connection of its device flag.
use imserver.Prelude.{ℕ, ◌≡◌, refl, ap, ◌∙◌, List, [], ◌∷◌, ◌++◌}
use imserver.Proto.Result.{ok}
use imserver.Proto.Types.{Text, ConnectPacket}
use imserver.Server.ConnManager.{NetConn, get_conns_with}
use imserver.Server.Auth.{AuthServices, AuthState, device_level_master, set_conn_info, after_keys}
use imserver.Server.Auth.Loop.{left_of}
use imserver.Server.Auth.Login.{IsReady, dropped, after_keys-left}

left_of-master :
    (device_id : Text) (conns : List NetConn)
    → left_of (dropped device_level_master device_id) conns ≡ []
left_of-master device_id [] = refl
left_of-master device_id (c ∷ conns) = left_of-master device_id conns

-- When a master device logs in on a connection that is ready: no removal panics, and of the
-- connections that its user has with the same device flag only the new one is left.
pub after_keys-master :
    (svc : AuthServices) (conn : NetConn) (packet : ConnectPacket) (level_i : ℕ)
    (aes_key aes_iv : Text) (st : AuthState)
    → IsReady st packet.uid conn
    → (st' : AuthState) × (after_keys svc conn packet device_level_master level_i aes_key aes_iv st
        ≡ ok st')
      × (get_conns_with st'.engine st'.manager packet.uid packet.device_flag
          ≡ set_conn_info packet level_i aes_key aes_iv conn ∷ [])
after_keys-master svc conn packet level_i aes_key aes_iv st ready =
    let olds = get_conns_with st.engine st.manager packet.uid packet.device_flag in
    let new = set_conn_info packet level_i aes_key aes_iv conn in
    let (k, st', run, done, closes, conns) =
      after_keys-left svc conn packet device_level_master level_i aes_key aes_iv st ready in
    (st', done, conns ∙ ap (λ l. l ++ new ∷ []) (left_of-master packet.device_id olds))
