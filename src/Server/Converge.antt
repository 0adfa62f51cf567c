-- ===== src/Server/Converge.antt =====
-- Replication from end to end: `handle_read` of src/server.cpp at the master for the writes of a
-- client, and at a replica for the stream that the master makes of them.
use redis_lite.Common.{
  ℕ, ◌+◌, ◌<◌, ◌^◌, ◌≡◌, sym, ◌∙◌, ap, false, List, [], ◌++◌, some, Bytes, length, length-append,
  All, arith, str_eq, flatten,
}
use redis_lite.Common.Int.{pos}
use redis_lite.Pipeline.Chunks.{Sendable}
use redis_lite.Replication.{worker}
use redis_lite.Command.Agree.{Alike, Alike-sym, Alike-trans}
use redis_lite.Server.State.{ClientType, Queue, Server, Env, find_queue}
use redis_lite.Server.Wait.{is_nil}
use redis_lite.Server.Loop.{run}
use redis_lite.Server.Stream.{stream, InStep, with_pending}
use redis_lite.Server.Quiet.{Unbroken}
use redis_lite.Server.Writes.{IsWrite}
use redis_lite.Server.Follow.{IsFed, reads, run-reads}
use redis_lite.Server.Mirror.{stores-Alike}
use redis_lite.Server.Intake.{run-writes}

-- A server that is no replica, in step with its stream, receives well-formed writes from a regular
-- client: SET and DEL commands, valid or not. One of its replicas is at the same offset, and the two
-- stores agree: no key stands twice, and both have the same keys with the same values, of which the
-- same ones expire. No connection breaks under a `send`, the client's read buffer holds no whole
-- command at the start, that of the replica's master connection is empty, and the offsets stay below
-- 2^63.
-- Then, however the writes are cut into chunks, the master's loop ends behind the last one with their
-- encodings behind what the queue of the replica held; and, however these bytes are cut into chunks,
-- the replica's loop ends behind the last of them. The two stores agree again, whatever the clocks of
-- the two servers say, the replica's offset is that of the master, and both read buffers are empty.
pub run-Alike :
    (env env' : Env) (c d m size g : ℕ) (w buf : Bytes) (cmds : List (List Bytes))
    (chunks pieces : List Bytes) (s r : Server) (q : Queue)
    → Unbroken env
    → Unbroken env'
    → str_eq s.repl_info.role worker ≡ false
    → IsFed ClientType.regular s c buf
    → IsFed ClientType.master_conn r m []
    → All Sendable cmds
    → All IsWrite cmds
    → buf ++ flatten chunks ≡ stream cmds
    → flatten pieces ≡ stream cmds
    → InStep s size g w
    → g + length (w ++ stream cmds) < 2 ^ 63
    → r.repl_info.master_repl_offset ≡ s.master_repl_offset
    → is_nil s.replicas ≡ false
    → find_queue d s.repl_queues ≡ some q
    → Alike s.store r.store
    → (s' : Server) × (r' : Server) × (run env (reads c chunks) s ≡ some s')
      × (find_queue d s'.repl_queues ≡ some (with_pending (stream cmds) q))
      × (run env' (reads m pieces) r ≡ some r')
      × Alike s'.store r'.store
      × (r'.repl_info.master_repl_offset ≡ s'.master_repl_offset)
      × IsFed ClientType.regular s' c []
      × IsFed ClientType.master_conn r' m []
run-Alike env env' c d m size g w buf cmds chunks pieces s r q calm calm' is_master heard fed
      sendable writes sent cut h small level some_replica queued alike =
    let (s', ran, (alike1, in_step, queued'), heard') =
      run-writes env env' c d size g buf w chunks cmds s r q calm heard sendable writes sent
        is_master alike h small some_replica queued in
    let total = length-append w (stream cmds) in
    let (r', ran', alike2, at, fed') =
      run-reads env env' m (g + length w) [] pieces cmds s r calm' fed sendable writes cut is_master
        alike (level ∙ h.offset) (omega (arith, total)) in
    let both = stores-Alike env env' cmds s r writes is_master alike in
    (
      s',
      r',
      ran,
      queued',
      ran',
      Alike-trans s'.store _ r'.store alike1 (Alike-trans _ _ r'.store (Alike-sym _ _ both) alike2),
      at ∙ ap pos (omega (arith, total)) ∙ sym in_step.offset,
      heard',
      fed',
    )
