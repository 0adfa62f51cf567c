-- ===== src/Server/Psync.antt =====
-- PSYNC (`handle_psync` of src/server.cpp): a replica is sent what it lacks of the stream, or a
-- snapshot of the store.
use redis_lite.Common.{
  ℕ, suc, Bool, false, true, ◌&&◌, ◌||◌, not, List, [], ◌∷◌, ◌++◌, Option, none, some, Bytes,
  length, codes, str_eq, if◌then◌else◌,
}
use redis_lite.Common.Int.{ℤ, pos, negsuc}
use redis_lite.Common.Word.{leb_ℤ}
use redis_lite.Number.{of_ℕ, of_ℤ, stoll}
use redis_lite.Backlog.{contains, read}
use redis_lite.Replication.{ReplicationInfo}
use redis_lite.Rdb.Save.{serialize}
use redis_lite.Server.State.{ClientType, Client, Server, Env, ◌>>=◌, change, put_queue}

-- `(args.size() >= 2) ? args[1] : "?"`
unfoldable pub asked_id : List Bytes → Bytes
asked_id (name ∷ id ∷ rest) = id
asked_id _ = codes "?"

unfoldable pub or_minus_one : Option ℤ → ℤ
or_minus_one none = negsuc 0
or_minus_one (some z) = z

-- The offset asked for; -1 if none is given or it does not parse.
unfoldable pub asked_offset : List Bytes → ℤ
asked_offset (name ∷ id ∷ offset ∷ rest) =
    if str_eq offset (codes "-1") then negsuc 0 else or_minus_one (stoll offset)
asked_offset _ = negsuc 0

-- `id_match`
unfoldable pub id_match : Bytes → ℤ → ReplicationInfo → Bool
id_match id offset r =
    str_eq id r.master_replid || (str_eq id r.master_replid2 && leb_ℤ offset r.second_repl_offset)

-- Both tests of a partial resync.
unfoldable pub resumes : Bytes → ℤ → Server → Bool
resumes id offset s =
    (not (str_eq id (codes "?")) && leb_ℤ (pos 0) offset)
    && (id_match id offset s.repl_info && contains offset s.backlog)

-- What the replica is sent first in a partial resync.
unfoldable pub continue_with : ℤ → Server → Bytes
continue_with offset s =
    codes "+CONTINUE " ++ (s.repl_info.master_replid ++ (codes "\r\n" ++ read offset s.backlog))

-- The reply to a replica that needs everything, with a snapshot.
unfoldable pub full_resync : Bytes → ℤ → Bytes → Bytes
full_resync replid offset rdb_bytes =
    codes "+FULLRESYNC "
    ++ (replid
        ++ (codes " "
            ++ (of_ℤ offset
                ++ (codes "\r\n$" ++ (of_ℕ (length rdb_bytes) ++ (codes "\r\n" ++ rdb_bytes))))))

abbrev pub as_replica : Client → Client
as_replica client = record client { type = ClientType.replica }

-- The client becomes a replica, with a queue that starts with `bytes`.
unfoldable pub attach : ℕ → Bytes → Server → Option Server
attach c bytes s = do
  client ← s.clients c
  s' ← change as_replica c s
  some (record s' {
    replicas = s.replicas ++ c ∷ [];
    repl_queues =
        put_queue c (record { pending = bytes; draining = []; fd = client.fd; removed = false })
          s.repl_queues;
    repl_has_work = true;
  })

module _ (env : Env) where
  unfoldable pub handle_psync : ℕ → List Bytes → Server → Option Server
  handle_psync c args s =
      if resumes (asked_id args) (asked_offset args) s
      then attach c (continue_with (asked_offset args) s) s
      else attach c
          (full_resync s.repl_info.master_replid s.master_repl_offset
            (serialize (env.clocks s.calls) s.store))
          (record s { calls = suc s.calls })
