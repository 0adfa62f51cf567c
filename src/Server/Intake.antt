-- ===== src/Server/Intake.antt =====
-- The writes of a client (`handle_read` of src/server.cpp), as they arrive in chunks.
use mathlib.Core.Path.{subst}
use redis_lite.Common.{
  none, ℕ, ◌+◌, ◌<◌, ◌^◌, ◌≡◌, refl, sym, ◌∙◌, ap, false, List, [], ◌∷◌, ◌++◌, some, Bytes, length,
  length-append, All, arith, str_eq, flatten, append_assoc, append-nil, All-split,
}
use redis_lite.Pipeline.Chunks.{Sendable}
use redis_lite.Replication.{worker}
use redis_lite.Command.Agree.{Alike}
use redis_lite.Server.State.{ClientType, Client, Server, Env, update, change, Queue, find_queue}
use redis_lite.Server.Loop.{
  Received, on_command, handle_bytes, handle_read, with_read_buf, run, on_event,
}
use redis_lite.Server.Stream.{stream, record_all, InStep, with_pending, queue-record_all}
use redis_lite.Server.Quiet.{Unbroken}
use redis_lite.Server.Writes.{IsWrite, applied, apply_all, InStep-apply_all}
use redis_lite.Pipeline.Prefix.{Handled, process-prefix}
use redis_lite.Backlog.Replay.{Kept}
use redis_lite.Server.Mirror.{followed, follow_all, stores-Alike}
use redis_lite.Server.Batch.{send_answers_here, handle_all-writes}
use redis_lite.Server.Peers.{update_here}
use redis_lite.Server.Wait.{is_nil, propagate_to_replicas}
use redis_lite.Server.Replicate.{record_write, advance_stream, publish_offset}
use redis_lite.Server.Follow.{
  IsFed, reads, role-apply_all, no_command_left, length-stream_split, stream-append,
}

-- What is queued for a replica does not depend on the store.
abbrev streamed : Server → Server
streamed s = record s { store = record { entries = [] }; calls = 0 }

streamed-record_write :
    (args : List Bytes) (s : Server)
    → streamed (record_write args s) ≡ record_write args (streamed s)
unfolding record_write advance_stream publish_offset propagate_to_replicas
streamed-record_write args s = ground arith

streamed-apply_all :
    (env : Env) (cmds : List (List Bytes)) (s : Server)
    → streamed (apply_all env cmds s) ≡ record_all cmds (streamed s)
streamed-apply_all env [] s = refl
streamed-apply_all env (args ∷ cmds) s =
    streamed-apply_all env cmds (applied env args s)
    ∙ ap (record_all cmds) (streamed-record_write args _)

queue-apply_all :
    (env : Env) (cmds : List (List Bytes)) (d : ℕ) (q : Queue) (s : Server)
    → is_nil s.replicas ≡ false
    → find_queue d s.repl_queues ≡ some q
    → find_queue d (apply_all env cmds s).repl_queues ≡ some (with_pending (stream cmds) q)
queue-apply_all env cmds d q s some_replica queued =
    ap (λ (t : Server). find_queue d t.repl_queues) (streamed-apply_all env cmds s)
    ∙ queue-record_all cmds d q (streamed s) some_replica queued

-- The server without its clients.
abbrev pub bare : Server → Server
bare s = record s { clients = λ c. none; calls = 0 }

-- A chunk of writes, with `y` still to come.
handle_read-part :
    (env : Env) (c : ℕ) (cmds : List (List Bytes)) (client : Client) (s : Server) (chunk y : Bytes)
    → Unbroken env
    → s.clients c ≡ some client
    → client.type ≡ ClientType.regular
    → All Sendable cmds
    → All IsWrite cmds
    → (client.read_buf ++ chunk) ++ y ≡ stream cmds
    → (h : Handled (on_command env c) (some s) cmds (client.read_buf ++ chunk) y) × (s' : Server)
      × (client' : Client) × (handle_read env c (Received.arrived chunk) s ≡ some s')
      × (s'.clients c ≡ some client')
      × (client'.type ≡ ClientType.regular)
      × (client'.read_buf ≡ h.rest)
      × (bare s' ≡ bare (apply_all env h.done s))
unfolding handle_read handle_bytes change
handle_read-part env c cmds client s chunk y calm live regular sendable writes e =
    let h =
      process-prefix (on_command env c) (some s) cmds (client.read_buf ++ chunk) y sendable e in
    let writes1 = (All-split IsWrite h.done h.left (subst (All IsWrite) h.all writes)).0 in
    let (s1, client1, done1, live1, input1, same1) =
      handle_all-writes env c h.done client s writes1 live regular in
    let client2 : Client = with_read_buf h.rest client1 in
    let s2 : Server = record s1 { clients = update c (some client2) s1.clients } in
    let (s', client', sent', live', input, same) =
      send_answers_here env c client2 s2 calm (update_here c (some client2) s1.clients) in
    (
      h,
      s',
      client',
      rw (live, h.result, done1, live1) sent',
      live',
      input.1 ∙ (input1.1 ∙ regular),
      input.0,
      ap bare same ∙ ap bare same1,
    )

InStep-bare :
    (s s' : Server) (size g : ℕ) (w : Bytes)
    → bare s' ≡ bare s
    → InStep s size g w
    → InStep s' size g w
InStep-bare s s' size g w same h = record {
  kept = subst (λ b. Kept b size g w) (sym (ap (λ (v : Server). v.backlog) same)) h.kept;
  offset = ap (λ (v : Server). v.master_repl_offset) same ∙ h.offset;
}

replicas-record_write :
    (args : List Bytes) (s : Server) → (record_write args s).replicas ≡ s.replicas
unfolding record_write advance_stream publish_offset propagate_to_replicas
replicas-record_write args s = ground arith

replicas-apply_all :
    (env : Env) (cmds : List (List Bytes)) (s : Server)
    → (apply_all env cmds s).replicas ≡ s.replicas
replicas-apply_all env [] s = refl
replicas-apply_all env (args ∷ cmds) s =
    replicas-apply_all env cmds (applied env args s) ∙ replicas-record_write args _

follow_all-append :
    (env : Env) (front back : List (List Bytes)) (r : Server)
    → follow_all env (front ++ back) r ≡ follow_all env back (follow_all env front r)
follow_all-append env [] back r = refl
follow_all-append env (args ∷ front) back r = follow_all-append env front back (followed env args r)

stream_split :
    (w : Bytes) (cmds front back : List (List Bytes))
    → cmds ≡ front ++ back
    → (w ++ stream front) ++ stream back ≡ w ++ stream cmds
stream_split w cmds front back e =
    append_assoc w (stream front) (stream back)
    ∙ ap (λ b. w ++ b) (sym (ap stream e ∙ stream-append front back))

-- What the chunks of writes come to, next to a replica `r` that executes the same commands.
abbrev pub Taken : Env → ℕ → ℕ → ℕ → Bytes → List (List Bytes) → Server → Queue → Server → Type 0
Taken env' d size g w cmds r q s' =
    Alike s'.store (follow_all env' cmds r).store
    × InStep s' size g (w ++ stream cmds)
    × (find_queue d s'.repl_queues ≡ some (with_pending (stream cmds) q))

Taken-nil :
    (env' : Env) (d size g : ℕ) (w : Bytes) (s r : Server) (q : Queue)
    → Alike s.store r.store
    → InStep s size g w
    → find_queue d s.repl_queues ≡ some q
    → Taken env' d size g w [] r q s
Taken-nil env' d size g w s r q alike h queued = (alike, rw append-nil h, queued ∙ rw append-nil)

Taken-append :
    (env' : Env) (d size g : ℕ) (w : Bytes) (cmds front back : List (List Bytes)) (s' r : Server)
    (q : Queue)
    → cmds ≡ front ++ back
    → Taken env' d size g
        (w ++ stream front)
        back
        (follow_all env' front r)
        (with_pending (stream front) q)
        s'
    → Taken env' d size g w cmds r q s'
Taken-append env' d size g w cmds front back s' r q e (alike, h, queued) = (
  subst (λ (t : Server). Alike s'.store t.store)
      (sym (ap (λ c. follow_all env' c r) e ∙ follow_all-append env' front back r)) alike,
  subst (InStep s' size g) (stream_split w cmds front back e) h,
  queued ∙ ap (λ b. some (record q { pending = b })) (stream_split q.pending cmds front back e),
)

pub run-writes :
    (env env' : Env) (c d size g : ℕ) (buf w : Bytes) (chunks : List Bytes)
    (cmds : List (List Bytes)) (s r : Server) (q : Queue)
    → Unbroken env
    → IsFed ClientType.regular s c buf
    → All Sendable cmds
    → All IsWrite cmds
    → buf ++ flatten chunks ≡ stream cmds
    → str_eq s.repl_info.role worker ≡ false
    → Alike s.store r.store
    → InStep s size g w
    → g + length (w ++ stream cmds) < 2 ^ 63
    → is_nil s.replicas ≡ false
    → find_queue d s.repl_queues ≡ some q
    → (s' : Server) × (run env (reads c chunks) s ≡ some s')
      × Taken env' d size g w cmds r q s'
      × IsFed ClientType.regular s' c []
unfolding run on_event
run-writes env env' c d size g buf w [] cmds s r q calm fed sendable writes e is_master alike h
      small some_replica queued =
    let (nil, empty) = no_command_left buf cmds sendable fed.incomplete e in
    (
      s,
      refl,
      subst (λ cs. Taken env' d size g w cs r q s) (sym nil)
          (Taken-nil env' d size g w s r q alike h queued),
      subst (IsFed ClientType.regular s c) empty fed,
    )
run-writes env env' c d size g buf w (chunk ∷ chunks) cmds s r q calm fed sendable writes e
      is_master alike h small some_replica queued =
    let received =
      ap (λ (b : Bytes). (b ++ chunk) ++ flatten chunks) fed.buffer
      ∙ append_assoc buf chunk (flatten chunks)
      ∙ e in
    let (k, s1, client1, done, live1, type1, buffer1, same) =
      handle_read-part env c cmds fed.conn s chunk (flatten chunks) calm fed.live fed.type sendable
        writes received in
    let a = apply_all env k.done s in
    let sends = All-split Sendable k.done k.left (subst (All Sendable) k.all sendable) in
    let wrote = All-split IsWrite k.done k.left (subst (All IsWrite) k.all writes) in
    let total = length-append w (stream cmds) in
    let part = length-append w (stream k.done) in
    let split = length-stream_split cmds k.done k.left k.all in
    let whole = ap (λ (b : Bytes). length b) (stream_split w cmds k.done k.left k.all) in
    let in_step =
      InStep-bare a s1 size g (w ++ stream k.done) same
        (InStep-apply_all env k.done s size g w (omega (arith, total, part, split)) h) in
    let fed1 : IsFed ClientType.regular s1 c k.rest = record {
      conn = client1;
      live = live1;
      type = type1;
      buffer = buffer1;
      incomplete = k.incomplete;
    } in
    let (s', ran, taken, fed') =
      run-writes env env' c d size g k.rest (w ++ stream k.done) chunks k.left s1
        (follow_all env' k.done r) (with_pending (stream k.done) q) calm fed1 sends.1 wrote.1
        k.follows
        (ap (λ (v : Server). str_eq v.repl_info.role worker) same
          ∙ ap (λ role. str_eq role worker) (role-apply_all env k.done s)
          ∙ is_master)
        (subst (λ (v : Server). Alike v.store (follow_all env' k.done r).store) (sym same)
          (stores-Alike env env' k.done s r wrote.0 is_master alike))
        in_step (omega (arith, whole))
        (ap (λ (v : Server). is_nil v.replicas) same
          ∙ ap is_nil (replicas-apply_all env k.done s)
          ∙ some_replica)
        (ap (λ (v : Server). find_queue d v.repl_queues) same
          ∙ queue-apply_all env k.done d q s some_replica queued) in
    (s', rw done ran, Taken-append env' d size g w cmds k.done k.left s' r q k.all taken, fed')
