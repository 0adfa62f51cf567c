-- ===== src/Server/Role.antt =====
-- REPLICAOF (src/server.cpp): the role of a server, its promotion and its connection to a master.
use redis_lite.Common.{
  ℕ, suc, Bool, true, false, ◌&&◌, List, [], ◌∷◌, Option, none, some, Bytes, codes, str_eq,
  if◌then◌else◌,
}
use redis_lite.Common.Int.{ℤ, pos}
use redis_lite.Common.Word.{leb_ℤ}
use redis_lite.Number.{stoi}
use redis_lite.Backlog.{set_start, create, default_capacity}
use redis_lite.Replication.{ReplicationInfo, generate_replid, master, worker}
use redis_lite.Command.Names.{to_upper}
use redis_lite.Command.Branches.{ok, err_port}
use redis_lite.Server.State.{ClientType, Server, Env, ◌>>=◌, update}
use redis_lite.Server.Send.{remove_client, answer}
use redis_lite.Server.Wait.{Ready, answer_waits}
use redis_lite.Server.Handshake.{Joined, requests, join}

-- `if (master_client_) { remove_client(master_client_); … }`
unfoldable pub drop_master : Option ℕ → Server → Option Server
drop_master none s = some s
drop_master (some m) s = do s' ← remove_client m s; some (record s' { master_client = none })

-- The loop of `disconnect_all_replicas` over a copy of `replicas_`.
unfoldable pub remove_all : List ℕ → Server → Option Server
remove_all [] s = some s
remove_all (c ∷ cs) s = remove_client c s >>= remove_all cs

unfoldable pub disconnect_all_replicas : Server → Option Server
disconnect_all_replicas s = remove_all s.replicas s

-- The identifiers shifted: the current one is the secondary one from now on.
unfoldable pub promoted_info : Bytes → ReplicationInfo → ReplicationInfo
promoted_info replid r = record {
  role = master;
  master_replid = replid;
  master_repl_offset = r.master_repl_offset;
  master_host = [];
  master_port = pos 0;
  master_replid2 = r.master_replid;
  second_repl_offset = r.master_repl_offset;
}

unfoldable pub promote : Bytes → Server → Server
promote replid s = record s {
  repl_info = promoted_info replid s.repl_info;
  replicaof = none;
  master_repl_offset = s.repl_info.master_repl_offset;
  backlog = set_start s.repl_info.master_repl_offset s.backlog;
  calls = suc s.calls;
}

-- `replicaof_ && replicaof_->first == host && replicaof_->second == port`
unfoldable pub same_master : Bytes → ℤ → Option (Bytes × ℤ) → Bool
same_master host port none = false
same_master host port (some (host', port')) =
    str_eq host' host && (leb_ℤ port' port && leb_ℤ port port')

-- Every parked client is answered.
abbrev pub always : Ready
always w caught_up = true

-- The role and the master of a replica that has not asked for anything yet.
unfoldable pub demote : Bytes → ℤ → Server → Server
demote host port s = record s {
  repl_info = record s.repl_info {
    role = worker;
    master_repl_offset = pos 0;
    master_host = host;
    master_port = port;
  };
  replicaof = some (host, port);
}

-- Behind a failed handshake.
unfoldable pub revert : Server → Server
revert s = record s {
  repl_info = record s.repl_info { role = master; master_host = []; master_port = pos 0 };
  replicaof = none;
}

-- A server before anything has happened.
unfoldable pub initial : ReplicationInfo → Option (Bytes × ℤ) → Server
initial r replicaof = record {
  store = record { entries = [] };
  repl_info = r;
  replicaof = replicaof;
  master_client = none;
  replicas = [];
  master_repl_offset = pos 0;
  backlog = create default_capacity;
  pending_waits = [];
  repl_queues = [];
  repl_has_work = false;
  clients = λ c. none;
  created = 0;
  calls = 0;
}

unfoldable pub unless_refused : Bool × Server → Option Server
unless_refused (connected, s) = if connected then some s else none

-- A server with the connection to its master, its bytes in the read buffer.
unfoldable pub connected_to : ℕ → Joined → Server → Server
connected_to fd j s = record s {
  repl_info = j.info;
  store = j.store;
  master_client = some s.created;
  clients =
      update s.created
        (some (record {
          fd = fd;
          type = ClientType.master_conn;
          read_buf = j.leftover;
          write_buf = [];
          ack_offset = pos 0;
          watches_out = false;
        }))
        s.clients;
  created = suc s.created;
  calls = suc s.calls;
}

-- Whether the replica is connected, and the server.
unfoldable pub on_joined : ℕ → Joined → Server → Bool × Server
on_joined fd j s =
    if j.connected
    then (true, connected_to fd j s)
    else (false, record s { repl_info = j.info; store = j.store; calls = suc s.calls })

module _ (env : Env) where
  -- `handle_replicaof_no_one`
  unfoldable pub handle_replicaof_no_one : ℕ → Server → Option Server
  handle_replicaof_no_one c s = if str_eq s.repl_info.role master then answer env ok c s else (do
    s' ← drop_master s.master_client s
    answer env ok c (promote (generate_replid (env.dist s'.calls)) s'))

  -- The dialogue over the socket, if there is one.
  unfoldable pub dialogue : ℤ → Option ℕ → Server → Option (Bool × Server)
  dialogue listen_port none s = some (false, record s { calls = suc s.calls })
  dialogue listen_port (some fd) s = do
    j ←
        join (env.load_sys s.calls) (env.load_clock s.calls) s.repl_info s.store
          (env.master_says s.calls (requests listen_port s.repl_info))
    some (on_joined fd j s)

  -- `connect_to_master`; a server with no `replicaof_` has nothing to connect to.
  unfoldable pub connect_to_master : ℤ → Server → Option (Bool × Server)
  connect_to_master listen_port s = elim (s.replicaof) [
    | none ↦ none
    | some (host, port) ↦ dialogue listen_port (env.connect s.calls host port) s
  ]

  -- A master answers its parked clients and drops its replicas.
  unfoldable pub retire : Server → Option Server
  retire s =
      if str_eq s.repl_info.role master
      then (do
        s1 ← answer_waits env always [] s.pending_waits s
        s2 ← disconnect_all_replicas (record s1 { pending_waits = [] })
        some (record s2 { master_repl_offset = pos 0 }))
      else some s

  -- `handle_replicaof_set_master`
  unfoldable pub handle_replicaof_set_master : ℕ → Bytes → ℤ → Server → Option Server
  handle_replicaof_set_master c host port s =
      if same_master host port s.replicaof
      then answer env (codes "+OK Already connected to specified master\r\n") c s
      else (do
        s1 ← retire s
        s2 ← drop_master s1.master_client s1
        s3 ← answer env ok c (demote host port s2)
        (connected, s4) ← connect_to_master port s3
        some (if connected then s4 else revert s4))

  unfoldable pub set_master_at : ℕ → Bytes → Option ℤ → Server → Option Server
  set_master_at c host none s = answer env err_port c s
  set_master_at c host (some port) s = handle_replicaof_set_master c host port s

  -- `handle_replicaof`
  unfoldable pub handle_replicaof : ℕ → List Bytes → Server → Option Server
  handle_replicaof c (name ∷ host ∷ port ∷ rest) s =
      if str_eq (to_upper host) (codes "NO") && str_eq (to_upper port) (codes "ONE")
      then handle_replicaof_no_one c s
      else set_master_at c host (stoi port) s
  handle_replicaof c _ s = some s

  -- The constructor, with the listening port; a handshake that fails ends the program.
  unfoldable pub start : ℤ → ReplicationInfo → Option (Bytes × ℤ) → Option Server
  start port r replicaof =
      let s = initial r replicaof in
      elim replicaof [ none ↦ some s | some m ↦ connect_to_master port s >>= unless_refused ]
