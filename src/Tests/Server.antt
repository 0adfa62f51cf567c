-- ===== src/Tests/Server.antt =====
-- The server.
use redis_lite.Common.{◌%◌, ◌≡◌, refl, List, [], ◌∷◌, Option, none, some, Bytes, codes, false}
use redis_lite.Common.Int.{ℤ, pos, negsuc}
use redis_lite.Resp.{encode_array}
use redis_lite.Replication.{master, no_replid}
use redis_lite.Backlog.{create}
use redis_lite.Server.State.{Server, Client, ClientType, Env, Sent}
use redis_lite.Server.Loop.{Event, Received, run}

-- An environment in which every `send` takes all bytes.
abbrev pub calm : Env
calm = record {
  send = λ n fd buf. Sent.sent 100000;
  now = λ n. pos n;
  clocks = λ n. record { now_sec = pos 0; steady_now = pos n; sys_now_ms = pos 0 };
  dist = λ n i. i % 16;
  connect = λ n host port. none;
  master_says = λ n messages. [];
  load_sys = λ n. pos 0;
  load_clock = λ n m. pos n;
}

abbrev pub fresh_master : Server
fresh_master = record {
  store = record { entries = [] };
  repl_info = record {
    role = master;
    master_replid = codes "id";
    master_repl_offset = pos 0;
    master_host = [];
    master_port = pos 0;
    master_replid2 = no_replid;
    second_repl_offset = negsuc 0;
  };
  replicaof = none;
  master_client = none;
  replicas = [];
  master_repl_offset = pos 0;
  backlog = create 64;
  pending_waits = [];
  repl_queues = [];
  repl_has_work = false;
  clients = λ c. none;
  created = 0;
  calls = 0;
}

sample : Option Server
unfolding run
sample =
    run calm
      (Event.accepted 7
        ∷ Event.readable 0 (Received.arrived (codes "*3\r\n$3\r\nSET\r\n$1\r\nk\r\n$1\r\nv\r\n"))
        ∷ [])
      fresh_master

sample_offset : Option ℤ
unfolding sample
sample_offset = elim sample [ none ↦ none | some s ↦ some s.master_repl_offset ]

abbrev pub a_client : Client
a_client = record {
  fd = 9;
  type = ClientType.regular;
  read_buf = [];
  write_buf = [];
  ack_offset = pos 0;
  watches_out = false;
}

-- A master with a key and a client at every address.
abbrev pub live_master : Server
live_master = record fresh_master {
  store = record { entries = (codes "k", record { value = codes "v"; expiry = none }) ∷ [] };
  clients = λ c. some a_client;
}

abbrev pub set_k : List Bytes
set_k = codes "SET" ∷ codes "k" ∷ codes "v" ∷ []

abbrev pub set_bytes : Bytes
set_bytes = codes "*3\r\n$3\r\nSET\r\n$1\r\nk\r\n$1\r\nv\r\n"

pub set_encoded : encode_array set_k ≡ set_bytes
unfolding encode_array
set_encoded = refl
