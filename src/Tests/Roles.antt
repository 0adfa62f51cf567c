-- ===== src/Tests/Roles.antt =====
-- Role changes.
use redis_lite.Common.{
  refl, none, arith, length, leb, ◌==◌, ◌&&◌, str_eq, ◌≡◌, [], ◌∷◌, some, codes,
}
use redis_lite.Common.Int.{pos}
use redis_lite.Config.{Config, repl_info_of}
use redis_lite.Server.State.{Env, Server}
use redis_lite.Backlog.{create}
use redis_lite.Replication.{master, worker, generate_replid, draw, hex_digit}
use redis_lite.Server.Psync.{resumes}
use redis_lite.Server.Stream.{record_all, stream}
use redis_lite.Server.Promote.{handle_replicaof_no_one-resumes}
use redis_lite.Tests.Waits.{calm-Unbroken}
use redis_lite.Server.Role.{handle_replicaof_no_one, handle_replicaof_set_master, start}
use redis_lite.Server.Asks.{asked_for_all, handle_replicaof_asks_all}
use redis_lite.Tests.Server.{calm, live_master, fresh_master, a_client, set_k, set_encoded}

abbrev as_worker : Config
as_worker = record { port = pos 7000; replicaof = some (codes "h", pos 6379) }

-- A replica of the master `id` at the offset 5, still connected to it.
abbrev replica_at_5 : Server
replica_at_5 = record live_master {
  master_client = some 8;
  repl_info = record fresh_master.repl_info { role = worker; master_repl_offset = pos 5 };
}

handle_replicaof_no_one-resumes_example :
    (s' : Server) × (handle_replicaof_no_one calm 3 replica_at_5 ≡ some s')
    × (s'.repl_info.role ≡ master)
    × (s'.master_client ≡ none)
    × (resumes (codes "id") (pos 5) (record_all (set_k ∷ []) s')
        ≡ (5 == 5 && leb (length (stream (set_k ∷ []))) 64))
unfolding create generate_replid draw hex_digit
handle_replicaof_no_one-resumes_example =
    handle_replicaof_no_one-resumes calm 3 5 5 a_client replica_at_5 (set_k ∷ []) calm-Unbroken
      (unfold str_eq in refl) refl (refl, cc) refl refl (omega arith) (rw set_encoded (omega arith))
      (unfold str_eq in refl) (λ n. unfold str_eq in refl)

-- An environment with a master that answers PING.
abbrev answering : Env
answering = record calm {
  connect = λ n host port. some 5;
  master_says = λ n messages. codes "+PONG\r\n" ∷ [];
}

handle_replicaof_asks_all_example :
    (handle_replicaof_set_master answering 3 (codes "h") (pos 6379) live_master
      ≡ handle_replicaof_set_master
          (asked_for_all (pos 6379) answering)
          3
          (codes "h")
          (pos 6379)
          live_master)
    × (start answering (pos 6379) (repl_info_of (codes "id") as_worker) as_worker.replicaof
        ≡ start
            (asked_for_all (pos 6379) answering)
            (pos 6379)
            (repl_info_of (codes "id") as_worker)
            as_worker.replicaof)
handle_replicaof_asks_all_example =
    handle_replicaof_asks_all answering 3 (codes "h") (codes "id") (pos 6379) as_worker live_master
