-- ===== src/Server/Auth.antt =====
-- processAuth of internal/server/processor.go: a CONNECT packet is checked, older connections of the
-- device are removed, and the connection is registered with its user.
pub mod Crash
pub mod Slave
pub mod Ids
pub mod Kicks
pub mod Loop
pub mod Login
pub mod Master
use imserver.Prelude.{
  ℕ, zero, suc, ◌*◌, ◌/◌, Bool, true, false, not, ◌&&◌, List, [], ◌∷◌, ◌++◌, length, replicate,
  take, Option, none, some, ltb, ◌==◌, if◌then◌else◌,
}
use imserver.Proto.Reason
use imserver.Proto.Result.{Result, ok, err, panic}
use imserver.Proto.Types.{
  Text, zero_framer, ConnectPacket, ConnackPacket, Frame, connack, disconnect,
}
use imserver.Proto.Codec.{latest_version}
use imserver.Okstore.File.{equal}
use imserver.Server.ConnManager.{
  NetConn, Engine, engine_add, ConnManager, add_conn, remove_conn_with_id, get_conns_with,
}

-- pkg/proto/common.go
abbrev pub device_level_slave : ℕ
device_level_slave = 0

abbrev pub device_level_master : ℕ
device_level_master = 1

-- The options that are read, and what the processor calls.
pub record AuthServices : Type 0 where
  pub manager_uid : Text
  pub manager_token_on : Bool
  pub manager_token : Text
  pub token_auth_on : Bool
  -- `strings.TrimSpace(s) == ""`, the decoding of base64, the AES key that the private key of the
  -- server and 32 bytes of the client give, the public key, and a random text.
  pub is_blank : Text → Bool
  pub decode_string : Text → Option (List ℕ)
  pub aes_key_of : List ℕ → Text
  pub server_key : Text
  pub random_string : Text
  -- The bit pattern of the server's time less the client's.
  pub time_diff : ℕ → ℕ
  -- The store: the token of a user on a device with the device level, and whether the user is banned;
  -- `none` is an error.
  pub get_user_token : Text → ℕ → Option (Text × ℕ)
  pub user_ban : Text → Option Bool

-- The connections, the frames that were written to each by id, and the ids of the connections that
-- timers will close, each behind the seconds until then.
pub record AuthState : Type 0 where
  pub engine : Engine
  pub manager : ConnManager
  pub sent : List (ℕ × Frame)
  pub closing : List (ℕ × ℕ)

unfoldable pub respond : NetConn → Frame → AuthState → AuthState
respond conn frame st = record st { sent = st.sent ++ ((conn.id, frame) ∷ []) }

-- `ConnackPacket{}`
abbrev pub zero_connack : ConnackPacket
zero_connack = record {
  framer = zero_framer;
  server_version = 0;
  server_key = [];
  salt = [];
  time_diff = 0;
  reason_code = 0;
}

unfoldable pub response_connack : NetConn → ℕ → AuthState → AuthState
unfolding respond
response_connack conn reason st =
    respond conn (connack (record zero_connack { reason_code = reason })) st

unfoldable pub response_connack_auth_fail : NetConn → AuthState → AuthState
unfolding response_connack
response_connack_auth_fail conn st = response_connack conn Reason.auth_fail st

-- The frame that tells a device that another one has logged in.
abbrev pub kick_frame : Frame
kick_frame = disconnect (record {
  framer = zero_framer;
  reason_code = Reason.connect_kick;
  reason =
      b'l' ∷ b'o' ∷ b'g' ∷ b'i' ∷ b'n' ∷ b' ' ∷ b'i' ∷ b'n' ∷ b' ' ∷ b'o' ∷ b't' ∷ b'h' ∷ b'e'
      ∷ b'r' ∷ b' ' ∷ b'd' ∷ b'e' ∷ b'v' ∷ b'i' ∷ b'c' ∷ b'e' ∷ [];
})

-- The function that `AfterFunc` is given with its seconds: it closes what the variable `oldConn` of the
-- loop holds when it runs.
pub data Timer : Type 0 where
  close_old_conn : ℕ → Timer

-- The state of a loop over the old connections: the manager, the frames, the id of the connection in
-- the variable `oldConn`, of which there is one for all rounds (go.mod says go 1.20), and the timers
-- that were started.
pub record Kicked : Type 0 where
  pub manager : ConnManager
  pub sent : List (ℕ × Frame)
  pub old_conn : ℕ
  pub timers : List Timer

-- What the timers close, seconds after the loop has ended.
unfoldable pub run_timers : ℕ → List Timer → List (ℕ × ℕ)
run_timers old_conn [] = []
run_timers old_conn (close_old_conn seconds ∷ timers) =
    (seconds, old_conn) ∷ run_timers old_conn timers

-- The loop for a device of the level master.
unfoldable pub kick_master : Engine → Text → List NetConn → Kicked → Option Kicked
kick_master eng device_id [] k = some k
kick_master eng device_id (old ∷ olds) k = elim (remove_conn_with_id eng old.id k.manager) [
  | none ↦ none
  | some manager ↦
      (let same = equal old.device_id device_id in
        kick_master eng device_id olds (record {
          manager = manager;
          sent = if same then k.sent else k.sent ++ ((old.id, kick_frame) ∷ []);
          old_conn = old.id;
          timers = k.timers ++ (close_old_conn (if same then 4 else 5) ∷ []);
        }))
]

-- The loop for a device of the level slave.
unfoldable pub kick_slave : Engine → Text → List NetConn → Kicked → Option Kicked
kick_slave eng device_id [] k = some k
kick_slave eng device_id (old ∷ olds) k =
    let removed : Option Kicked = elim (remove_conn_with_id eng old.id k.manager) [
      | none ↦ none
      | some manager ↦ kick_slave eng device_id olds (record k {
        manager = manager;
        old_conn = old.id;
        timers = k.timers ++ (close_old_conn 5 ∷ []);
      })
    ] in
    let kept = kick_slave eng device_id olds (record k { old_conn = old.id }) in
    if equal old.device_id device_id then removed else kept

-- The kicks for a device level; another level than these two kicks nobody.
unfoldable pub kick : Engine → ℕ → Text → List NetConn → Kicked → Option Kicked
unfolding kick_master kick_slave
kick eng level device_id olds k =
    if level == device_level_master
    then kick_master eng device_id olds k
    else if level == device_level_slave
    then kick_slave eng device_id olds k
    else some k

-- The connection with what the packet says and the keys.
unfoldable pub set_conn_info : ConnectPacket → ℕ → Text → Text → NetConn → NetConn
set_conn_info packet level aes_key aes_iv conn = record conn {
  proto_version = packet.version;
  is_authed = true;
  device_flag = packet.device_flag;
  device_id = packet.device_id;
  uid = packet.uid;
  aes_key = aes_key;
  aes_iv = aes_iv;
  device_level = level;
}

module _ (svc : AuthServices) where
  -- The token check: the device level, with the number that is kept on the connection.
  unfoldable pub verify_token : ConnectPacket → Option (ℕ × ℕ)
  verify_token packet =
      let of_store : Option (ℕ × ℕ) = elim (svc.get_user_token packet.uid packet.device_flag) [
        | none ↦ none
        | some (token, level) ↦ if equal token packet.token then some (level, level) else none
      ] in
      if equal packet.uid svc.manager_uid
      then if svc.manager_token_on && not (equal packet.token svc.manager_token)
        then none
        else some (device_level_slave, 0)
      else if svc.token_auth_on
      then if length packet.token == 0 then none else of_store
      else some (device_level_slave, 0)

  -- `getClientAesKeyAndIV`. The bytes that base64 gives have the capacity that `DecodedLen` says, three
  -- for each four characters, and `[:32]` panics beyond it.
  unfoldable pub get_client_aes_key_and_iv : Text → Result (Option (Text × Text))
  get_client_aes_key_and_iv client_key = elim (svc.decode_string client_key) [
    | none ↦ ok none
    | some bytes ↦
        if ltb (length client_key / 4 * 3) 32
        then panic
        else ok (some (svc.aes_key_of (take 32 (bytes ++ replicate 32 0)), svc.random_string))
  ]

  -- From `AddConn` on.
  unfoldable pub accept : NetConn → ConnectPacket → ℕ → Text → Text → AuthState → AuthState
  unfolding set_conn_info respond
  accept conn packet level aes_key aes_iv st =
      let conn' = set_conn_info packet level aes_key aes_iv conn in
      let ack : ConnackPacket = record {
        framer = record zero_framer { has_server_version = ltb 3 packet.version };
        server_version =
            if ltb latest_version packet.version then latest_version else packet.version;
        server_key = svc.server_key;
        salt = aes_iv;
        time_diff = svc.time_diff packet.client_timestamp;
        reason_code = Reason.success;
      } in
      respond conn' (connack ack)
        (record st { engine = engine_add conn' st.engine; manager = add_conn conn' st.manager })

  -- Behind the kicks of the old connections.
  unfoldable pub after_kick :
      NetConn → ConnectPacket → ℕ → Text → Text → AuthState → Option Kicked → Result AuthState
  unfolding accept run_timers
  after_kick conn packet level_i aes_key aes_iv st none = panic
  after_kick conn packet level_i aes_key aes_iv st (some k) = ok (
      accept conn packet level_i aes_key aes_iv (record st {
        manager = k.manager;
        sent = k.sent;
        closing = st.closing ++ run_timers k.old_conn k.timers;
      }))

  -- From the old connections on.
  unfoldable pub after_keys :
      NetConn → ConnectPacket → ℕ → ℕ → Text → Text → AuthState → Result AuthState
  unfolding kick after_kick
  after_keys conn packet level level_i aes_key aes_iv st =
      let olds = get_conns_with st.engine st.manager packet.uid packet.device_flag in
      let start : Kicked = record {
        manager = st.manager;
        sent = st.sent;
        old_conn = 0;
        timers = [];
      } in
      after_kick conn packet level_i aes_key aes_iv st
        (kick st.engine level packet.device_id olds start)

  -- From the keys on.
  unfoldable pub after_ban : NetConn → ConnectPacket → ℕ → ℕ → AuthState → Result AuthState
  unfolding get_client_aes_key_and_iv after_keys response_connack_auth_fail
  after_ban conn packet level level_i st = elim (get_client_aes_key_and_iv packet.client_key) [
    | ok none ↦ ok (response_connack_auth_fail conn st)
    | ok (some (aes_key, aes_iv)) ↦ after_keys conn packet level level_i aes_key aes_iv st
    | err e ↦ err e
    | panic ↦ panic
  ]

  -- From the ban on.
  unfoldable pub after_token :
      NetConn → ConnectPacket → Option (ℕ × ℕ) → AuthState → Result AuthState
  unfolding after_ban response_connack
  after_token conn packet none st = ok (response_connack_auth_fail conn st)
  after_token conn packet (some (level, level_i)) st = elim (svc.user_ban packet.uid) [
    | none ↦ ok (response_connack_auth_fail conn st)
    | some true ↦ ok (response_connack conn Reason.ban st)
    | some false ↦ after_ban conn packet level level_i st
  ]

  -- `processAuth`
  unfoldable pub process_auth : NetConn → ConnectPacket → AuthState → Result AuthState
  unfolding verify_token after_token response_connack_auth_fail
  process_auth conn packet st =
      if svc.is_blank packet.client_key
      then ok (response_connack_auth_fail conn st)
      else after_token conn packet (verify_token packet) st
