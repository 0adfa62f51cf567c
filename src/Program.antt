-- ===== src/Program.antt =====
-- `main` of src/main.cpp: the command line, the metadata of the server, its constructor and its loop.
use redis_lite.Common.{ℕ, ◌≡◌, ap, List, Option, some, Bytes, ◌⊎◌, inl, inr}
use redis_lite.Config.{Config, ConfigError, Parsed, parse_config, repl_info_of}
use redis_lite.Replication.{generate_replid}
use redis_lite.Server.State.{Server, Env, ◌>>=◌}
use redis_lite.Server.Role.{start}
use redis_lite.Server.Loop.{Event, run}
use redis_lite.Server.Quiet.{Unbroken}
use redis_lite.Server.Safe.{IsSafe}
use redis_lite.Server.Changes.{IsPolite}
use redis_lite.Server.Progress.{Reported, start-run}

-- `Server server(cfg.port, repl_info, cfg.replicaof);`
unfoldable pub construct : Env → (ℕ → ℕ) → Config → Option Server
construct env dist cfg = start env cfg.port (repl_info_of (generate_replid dist) cfg) cfg.replicaof

unfoldable pub serve : Env → (ℕ → ℕ) → List Event → Parsed → ConfigError ⊎ Option Server
serve env dist events (Parsed.ok cfg) = inr (construct env dist cfg >>= run env events)
serve env dist events (Parsed.err error) = inl error

-- What a command line comes to: the error printed, with which `main` returns 1, or the server after
-- the events, and `none` where the constructor threw or the program has no behaviour left.
unfoldable pub main : Env → (ℕ → ℕ) → List Event → List Bytes → ConfigError ⊎ Option Server
main env dist events args = serve env dist events (parse_config args)

-- `main` with any command line that the parser accepts and any random draws: if the constructor ends,
-- the loop handles any list of events of which each is about a client that exists when the event
-- comes: connections accepted, reads of any bytes or of an end or an error, sockets that became
-- writable, and ends of rounds. When no connection breaks under a `send` and no answer of a master
-- makes `std::stoll` throw, no handler uses a deleted client or an invalid iterator, and no exception
-- ends the loop. In the server that it leaves, the replicas, the parked clients, the queues and the
-- master connection refer to clients that exist, the replicas are distinct, and every replica and the
-- master connection are clients of that type.
pub main-IsSafe :
    (env : Env) (dist : ℕ → ℕ) (events : List Event) (args : List Bytes) (cfg : Config) (s : Server)
    → Unbroken env
    → IsPolite env
    → parse_config args ≡ Parsed.ok cfg
    → construct env dist cfg ≡ some s
    → Reported env events s
    → (s' : Server) × (main env dist events args ≡ inr (some s')) × IsSafe s'
unfolding main serve
main-IsSafe env dist events args cfg s calm polite parsed made reported =
    let (s', ran, safe) =
      start-run env calm polite cfg.port (repl_info_of (generate_replid dist) cfg) cfg.replicaof s
        events (unfold construct in made) reported in
    (s', rw (parsed, made) (ap inr ran), safe)
