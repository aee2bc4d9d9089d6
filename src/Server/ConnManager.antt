-- ===== src/Server/ConnManager.antt =====
-- internal/server/conn_manager.go: which connections a user has. A connection is found by its id, its
-- file descriptor, and the table of the network engine (`GetConn` of pkg/oknet/engine.go).
pub mod Removes
pub mod Closes
use imserver.Prelude.{
  ℕ, zero, suc, ◌+◌, ◌-◌, Bool, true, false, List, [], ◌∷◌, ◌++◌, length, take, drop, get_or,
  Option, none, some, ltb, leb, ◌==◌, if◌then◌else◌,
}
use imserver.Proto.Types.{Text}
use imserver.Okstore.File.{equal}

-- What the server keeps on a connection.
pub record NetConn : Type 0 where
  pub id : ℕ
  pub fd : ℕ
  pub uid : Text
  pub is_authed : Bool
  pub proto_version : ℕ
  pub device_flag : ℕ
  pub device_id : Text
  pub device_level : ℕ
  pub aes_key : Text
  pub aes_iv : Text

-- `connsUnix`
abbrev pub Engine : Type 0
Engine = ℕ → Option NetConn

-- `AddConn` and `RemoveConn` of the engine.
abbrev pub engine_add : NetConn → Engine → Engine
engine_add conn eng fd = if fd == conn.fd then some conn else eng fd

abbrev pub engine_remove : NetConn → Engine → Engine
engine_remove conn eng fd = if fd == conn.fd then none else eng fd

pub record ConnManager : Type 0 where
  pub user_conn_map : Text → List ℕ
  pub conn_map : ℕ → Option ℕ

-- `NewConnManager`
abbrev pub new_conn_manager : ConnManager
new_conn_manager = record { user_conn_map = λ uid. []; conn_map = λ id. none }

-- `c.connMap[id]`, which is 0 for an id that is missing.
abbrev pub fd_of : Option ℕ → ℕ
fd_of none = 0
fd_of (some fd) = fd

-- `GetConn`
abbrev pub get_conn : Engine → ConnManager → ℕ → Option NetConn
get_conn eng m id = eng (fd_of (m.conn_map id))

abbrev pub set_conn_ids : Text → List ℕ → (Text → List ℕ) → Text → List ℕ
set_conn_ids uid ids users u = if equal u uid then ids else users u

unfoldable pub add_conn : NetConn → ConnManager → ConnManager
add_conn conn m = record {
  user_conn_map =
      set_conn_ids conn.uid (m.user_conn_map conn.uid ++ (conn.id ∷ [])) m.user_conn_map;
  conn_map = λ i. if i == conn.id then some conn.fd else m.conn_map i;
}

-- The loop of `RemoveConnWithID`: Go ranges over the slice as it was, while `append` moves the rest of
-- the same array down. The arguments are the rounds left, the index, the id, the array, and the length
-- of the slice; `none` is a run-time panic.
unfoldable pub remove_loop : ℕ → ℕ → ℕ → List ℕ → ℕ → Option (List ℕ)
remove_loop zero index id arr len = some (take len arr)
remove_loop (suc f) index id arr len =
    let moved = take index arr ++ (drop (index + 1) (take len arr) ++ drop (len - 1) arr) in
    let cut = remove_loop f (index + 1) id moved (len - 1) in
    let next = remove_loop f (index + 1) id arr len in
    if get_or arr index 0 == id then if leb (index + 1) len then cut else none else next

-- The second part of `RemoveConnWithID`, behind the deletion from `connMap`.
unfoldable pub remove_found : Option NetConn → ConnManager → Option ConnManager
unfolding remove_loop
remove_found none m = some m
remove_found (some conn) m =
    let ids = m.user_conn_map conn.uid in
    elim (remove_loop (length ids) 0 conn.id ids (length ids)) [
      | some left ↦ some (record m { user_conn_map = set_conn_ids conn.uid left m.user_conn_map })
      | none ↦ none
    ]

-- `RemoveConnWithID`
unfoldable pub remove_conn_with_id : Engine → ℕ → ConnManager → Option ConnManager
unfolding remove_found
remove_conn_with_id eng id m =
    remove_found (get_conn eng m id)
      (record m { conn_map = λ i. if i == id then none else m.conn_map i })

-- `RemoveConn`
unfoldable pub remove_conn : Engine → NetConn → ConnManager → Option ConnManager
unfolding remove_conn_with_id
remove_conn eng conn m = remove_conn_with_id eng conn.id m

-- One round of the loops that collect the connections that the engine has.
unfoldable pub append_conn : Option NetConn → List NetConn → List NetConn
append_conn none conns = conns
append_conn (some conn) conns = conn ∷ conns

unfoldable pub conns_of : Engine → ConnManager → List ℕ → List NetConn
unfolding append_conn
conns_of eng m [] = []
conns_of eng m (id ∷ ids) = append_conn (get_conn eng m id) (conns_of eng m ids)

unfoldable pub get_conns_with_uid : Engine → ConnManager → Text → List NetConn
unfolding conns_of
get_conns_with_uid eng m uid = conns_of eng m (m.user_conn_map uid)

unfoldable pub exist_conns_with_uid : ConnManager → Text → Bool
exist_conns_with_uid m uid = ltb 0 (length (m.user_conn_map uid))

unfoldable pub with_flag : ℕ → List NetConn → List NetConn
with_flag flag [] = []
with_flag flag (conn ∷ conns) =
    let rest = with_flag flag conns in if conn.device_flag == flag then conn ∷ rest else rest

unfoldable pub get_conns_with : Engine → ConnManager → Text → ℕ → List NetConn
unfolding get_conns_with_uid with_flag
get_conns_with eng m uid flag = with_flag flag (get_conns_with_uid eng m uid)

unfoldable pub first_with_device_id : Text → List NetConn → Option NetConn
first_with_device_id device_id [] = none
first_with_device_id device_id (conn ∷ conns) =
    if equal conn.device_id device_id then some conn else first_with_device_id device_id conns

unfoldable pub get_conn_with_device_id : Engine → ConnManager → Text → Text → Option NetConn
unfolding get_conns_with_uid first_with_device_id
get_conn_with_device_id eng m uid device_id =
    first_with_device_id device_id (get_conns_with_uid eng m uid)

unfoldable pub get_conn_count_with : Engine → ConnManager → Text → ℕ → ℕ × ℕ
unfolding get_conns_with get_conns_with_uid
get_conn_count_with eng m uid flag =
    (length (get_conns_with eng m uid flag), length (get_conns_with_uid eng m uid))

unfoldable pub get_online_conns : Engine → ConnManager → List Text → List NetConn
unfolding conns_of
get_online_conns eng m [] = []
get_online_conns eng m (uid ∷ uids) =
    conns_of eng m (m.user_conn_map uid) ++ get_online_conns eng m uids
