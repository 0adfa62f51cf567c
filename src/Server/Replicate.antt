-- ===== src/Server/Replicate.antt =====
-- The replication stream (src/server.cpp): what the master records and sends of a write, and what
-- is done with the commands of a master and of a replica.
use redis_lite.Common.{
  ℕ, Bool, false, ◌&&◌, List, [], ◌∷◌, Option, none, some, Bytes, length, codes, str_eq,
  if◌then◌else◌,
}
use redis_lite.Common.Int.{ℤ, pos}
use redis_lite.Common.Word.{add_i64}
use redis_lite.Number.{stoll}
use redis_lite.Resp.{encode_array}
use redis_lite.Store.{evict_expired}
use redis_lite.Backlog.{feed}
use redis_lite.Replication.{master}
use redis_lite.Command.Names.{to_upper, is_write_command}
use redis_lite.Server.State.{Client, Server, Env, ◌>>=◌, change, append}
use redis_lite.Server.Wait.{propagate_to_replicas, resolve_pending_waits}

-- `int64_t pre_offset = master_repl_offset_; master_repl_offset_ += size; …`
unfoldable pub advance_stream : Bytes → Server → Server
advance_stream propagated s = record s {
  master_repl_offset = add_i64 s.master_repl_offset (pos (length propagated));
  backlog = feed propagated s.master_repl_offset s.backlog;
}

-- `repl_info_.master_repl_offset = master_repl_offset_`
unfoldable pub publish_offset : Server → Server
publish_offset s = record s {
  repl_info = record s.repl_info { master_repl_offset = s.master_repl_offset };
}

-- A write of a client: the offset, the backlog and the replicas.
unfoldable pub record_write : List Bytes → Server → Server
record_write args s =
    propagate_to_replicas (encode_array args)
      (publish_offset (advance_stream (encode_array args) s))

-- `if (command::is_write_command(cmd_name))`
unfoldable pub track : Bytes → List Bytes → Server → Server
track cmd_name args s = if is_write_command cmd_name then record_write args s else s

-- The DEL of a key that the sweep evicted. `repl_info_` keeps its offset.
unfoldable pub record_eviction : Bytes → Server → Server
record_eviction key s =
    let propagated = encode_array (codes "DEL" ∷ key ∷ []) in
    propagate_to_replicas propagated (advance_stream propagated s)

unfoldable pub record_evictions : List Bytes → Server → Server
record_evictions [] s = s
record_evictions (key ∷ keys) s = record_evictions keys (record_eviction key s)

-- `std::string cmd_name = args.empty() ? "" : to_upper(args[0])`
unfoldable pub name_of : List Bytes → Bytes
name_of [] = []
name_of (name ∷ rest) = to_upper name

-- `args.size() >= 2 && to_upper(args[0]) == "REPLCONF" && to_upper(args[1]) == "GETACK"`
unfoldable pub is_getack : List Bytes → Bool
is_getack (name ∷ sub ∷ rest) =
    str_eq (to_upper name) (codes "REPLCONF") && str_eq (to_upper sub) (codes "GETACK")
is_getack _ = false

-- `handle_master_read`
unfoldable pub handle_master_read : ℕ → List Bytes → Bytes → ℕ → Server → Option Server
handle_master_read c args response bytes_consumed s =
    let counted = record s {
      repl_info = record s.repl_info {
        master_repl_offset = add_i64 s.repl_info.master_repl_offset (pos bytes_consumed);
      };
    } in
    if is_getack args then append response c counted else some counted

-- The offset that a replica acknowledges; a malformed one is ignored.
unfoldable pub acked : List Bytes → Option ℤ
acked (name ∷ sub ∷ offset ∷ rest) =
    if str_eq (to_upper name) (codes "REPLCONF") && str_eq (to_upper sub) (codes "ACK")
    then stoll offset
    else none
acked _ = none

abbrev pub with_ack : ℤ → Client → Client
with_ack offset client = record client { ack_offset = offset }

-- The sweep of `run`, on a master. `clock n` is the time at the check of the entry number `n`.
unfoldable pub sweep : (ℕ → ℤ) → Server → Server
sweep clock s =
    let (expired, store) = evict_expired clock s.store in
    if str_eq s.repl_info.role master
    then record_evictions expired (record s { store = store })
    else s

module _ (env : Env) where
  -- `handle_replica_read`
  unfoldable pub handle_replica_read : ℕ → List Bytes → Server → Option Server
  handle_replica_read c args s = elim (acked args) [
    | none ↦ some s
    | some offset ↦ change (with_ack offset) c s >>= resolve_pending_waits env
  ]
