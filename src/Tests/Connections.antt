-- ===== src/Tests/Connections.antt =====
-- The theorems on the connection manager and on the login at concrete connections.
use imserver.Prelude.{
  ℕ, ◌≡◌, List, ◌↔◌, inr, refl, true, false, [], ◌∷◌, ◌++◌, replicate, none, some, ◌==◌,
  if◌then◌else◌,
}
use imserver.Okstore.File.{equal}
use imserver.Proto.Result.{ok, panic}
use imserver.Proto.Types.{Text, zero_framer, ConnectPacket}
use imserver.Server.ConnManager.{
  NetConn, Engine, engine_add, engine_remove, ConnManager, remove_conn_with_id, remove_conn,
  conns_of, append_conn, get_conns_with_uid, get_conns_with, with_flag, exist_conns_with_uid,
}
use imserver.Server.ConnManager.Closes.{
  IsRegistered, remove_conn_with_id-registered, remove_conn-closed,
}
use imserver.Server.Auth.{
  AuthServices, AuthState, device_level_slave, device_level_master, set_conn_info, after_keys,
  process_auth,
}
use imserver.Server.Auth.Crash.{IsShortKey, process_auth-panics}
use imserver.Server.Auth.Slave.{others, count_device, last_id, after_keys-slave}
use imserver.Server.Auth.Login.{IsReady}
use imserver.Server.Auth.Master.{after_keys-master}

abbrev alice : Text
alice = b'a' ∷ []

abbrev connection : ℕ → Text → NetConn
connection n device = record {
  id = n;
  fd = n;
  uid = alice;
  is_authed = true;
  proto_version = 3;
  device_flag = 1;
  device_id = device;
  device_level = 0;
  aes_key = [];
  aes_iv = [];
}

abbrev phone : NetConn
phone = connection 5 (b'p' ∷ [])

abbrev tablet : NetConn
tablet = connection 6 (b't' ∷ [])

abbrev table : Engine
table = engine_add phone (engine_add tablet (λ fd. none))

abbrev manager : ConnManager
manager = record {
  user_conn_map = λ u. if equal u alice then 5 ∷ 6 ∷ [] else [];
  conn_map = λ i. if i == 5 then some 5 else if i == 6 then some 6 else none;
}

abbrev bob : Text
bob = b'b' ∷ []

phone-IsRegistered : IsRegistered table manager phone
unfolding equal
phone-IsRegistered = record {
  before = [];
  after = 6 ∷ [];
  listed = refl;
  once_before = tt;
  once_after = (refl, tt);
  mapped = refl;
  served = refl;
}

remove_conn_with_id-registered_example :
    (m' : ConnManager) × (remove_conn_with_id table 5 manager ≡ some m')
    × (get_conns_with_uid table m' alice
        ≡ conns_of table manager (phone-IsRegistered.before ++ phone-IsRegistered.after))
    × (get_conns_with_uid table m' bob ≡ get_conns_with_uid table manager bob)
    × (m'.conn_map 5 ≡ none)
unfolding equal
remove_conn_with_id-registered_example =
    remove_conn_with_id-registered table manager phone phone-IsRegistered bob refl tt

remove_conn-closed_example :
    let closed = engine_remove phone table in
    (m1 : ConnManager) × (m2 : ConnManager) × (remove_conn closed phone manager ≡ some m1)
    × (remove_conn closed phone m1 ≡ some m2)
    × (m2.user_conn_map ≡ manager.user_conn_map)
    × (exist_conns_with_uid m2 alice ≡ true)
remove_conn-closed_example = remove_conn-closed table manager phone phone-IsRegistered refl

abbrev services : AuthServices
services = record {
  manager_uid = b'm' ∷ [];
  manager_token_on = true;
  manager_token = [];
  token_auth_on = true;
  is_blank = λ s. false;
  decode_string = λ s. some s;
  aes_key_of = λ bytes. bytes;
  server_key = [];
  random_string = [];
  time_diff = λ t. t;
  get_user_token = λ uid flag. some (b't' ∷ [], 1);
  user_ban = λ uid. some false;
}

abbrev login : ConnectPacket
login = record {
  framer = zero_framer;
  version = 3;
  client_key = b'k' ∷ [];
  device_id = b'p' ∷ [];
  device_flag = 1;
  client_timestamp = 0;
  uid = alice;
  token = b't' ∷ [];
}

-- A connection of the file descriptor 7 logs in.
abbrev fresh : NetConn
fresh = record (connection 7 []) { uid = []; is_authed = false }

abbrev before_login : AuthState
before_login = record {
  engine = engine_add fresh table;
  manager = manager;
  sent = [];
  closing = [];
}

before_login-IsReady : IsReady before_login alice fresh
unfolding equal
before_login-IsReady = record {
  once = ((refl, tt), (tt, tt));
  known = (inr (phone, refl, refl, refl, refl), (inr (tablet, refl, refl, refl, refl), tt));
  absent = (refl, (refl, tt));
  served = refl;
  no_conn = refl;
  fd = refl;
}

-- The client key of the login is too short.
process_auth-panics_example :
    (process_auth services fresh login before_login ≡ panic) ↔ IsShortKey services login
process_auth-panics_example =
    process_auth-panics services fresh login before_login before_login-IsReady

-- The old connections are of the phone and, last, of the tablet: the phone logs in again.
abbrev old_conns : List NetConn
old_conns = get_conns_with before_login.engine before_login.manager alice 1

old_conns-two : old_conns ≡ phone ∷ tablet ∷ []
unfolding get_conns_with get_conns_with_uid conns_of append_conn with_flag equal
old_conns-two = refl

after_keys-slave_example :
    (st' : AuthState) × (after_keys services fresh login device_level_slave 1 [] [] before_login
      ≡ ok st')
    × (get_conns_with st'.engine st'.manager alice 1
        ≡ others (b'p' ∷ []) old_conns ++ set_conn_info login 1 [] [] fresh ∷ [])
    × (st'.closing ≡ [] ++ replicate (count_device (b'p' ∷ []) old_conns) (5, last_id 0 old_conns))
after_keys-slave_example =
    after_keys-slave services fresh login 1 [] [] before_login before_login-IsReady

after_keys-master_example :
    (st' : AuthState) × (after_keys services fresh login device_level_master 1 [] [] before_login
      ≡ ok st')
    × (get_conns_with st'.engine st'.manager alice 1 ≡ set_conn_info login 1 [] [] fresh ∷ [])
after_keys-master_example =
    after_keys-master services fresh login 1 [] [] before_login before_login-IsReady
