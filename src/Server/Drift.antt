-- ===== src/Server/Drift.antt =====
-- The GETACK of a WAIT (`handle_wait`, `propagate_to_replicas` and `handle_master_read` of
-- src/server.cpp), at the master and at a replica.
use redis_lite.Common.{
  ℕ, suc, ◌+◌, ◌<◌, ◌^◌, ◌≡◌, refl, ◌∙◌, sym, append-nil, ap, true, false, List, [], ◌∷◌, ◌++◌,
  some, Bytes, length, arith, str_eq,
}
use redis_lite.Common.Int.{ℤ, pos}
use redis_lite.Common.Word.{leb_ℤ, add_i64, add_i64-pos}
use redis_lite.Number.{stoi, stoll}
use redis_lite.Resp.{ParseResult, encode_array}
use redis_lite.Pipeline.{process}
use redis_lite.Pipeline.Chunks.{sent, process-encoded}
use redis_lite.Replication.{ReplicationInfo}
use redis_lite.Command.Names.{to_upper}
use redis_lite.Command.Execute.{execute}
use redis_lite.Server.State.{
  ClientType, Client, Queue, Server, Env, find_queue, append, appended, change, update,
}
use redis_lite.Server.Wait.{
  is_nil, is_zero, getack, park, wait_numbers, handle_wait, propagate_to_replicas,
  count_caught_up_replicas,
}
use redis_lite.Server.Replicate.{is_getack, handle_master_read}
use redis_lite.Server.Loop.{
  Received, dispatch, on_command, handle_bytes, handle_read, with_read_buf, is_master_conn,
}
use redis_lite.Server.Stream.{with_pending, queue-propagate}
use redis_lite.Server.Quiet.{Unbroken}
use redis_lite.Server.Batch.{send_answers_quiet}
use redis_lite.Server.Peers.{update_here}
use redis_lite.Server.Follow.{IsFed}

length-getack : length (encode_array getack) ≡ 37
unfolding encode_array
length-getack = refl

is_getack-getack : is_getack getack ≡ true
unfolding is_getack to_upper str_eq
is_getack-getack = refl

-- A replica behind a GETACK, with its answer in the buffer of the connection.
acknowledging : ℕ → Client → Bytes → Server → Server
acknowledging m client response s = record s {
  repl_info = record s.repl_info {
    master_repl_offset =
        add_i64 s.repl_info.master_repl_offset (pos (length (encode_array getack)));
  };
  clients = update m (some (appended response client)) s.clients;
}

dispatch-master_conn :
    (env : Env) (t : ClientType) (m : ℕ) (r : ParseResult) (response : Bytes) (s : Server)
    → t ≡ ClientType.master_conn
    → dispatch env t m r response s ≡ handle_master_read m r.args response r.bytes_consumed s
unfolding dispatch
dispatch-master_conn env t m r response s conn = rw conn refl

is_master_conn-eq :
    (env : Env) (t : ClientType) → t ≡ ClientType.master_conn → is_master_conn env t ≡ true
unfolding is_master_conn
is_master_conn-eq env t conn = rw conn refl

on_command-getack :
    (env : Env) (m : ℕ) (client : Client) (s : Server)
    → s.clients m ≡ some client
    → client.type ≡ ClientType.master_conn
    → (s1 : Server) × (response : Bytes) × (on_command env m (some s) (sent getack)
        ≡ some (acknowledging m client response s1))
      × (s1.repl_info ≡ s.repl_info)
unfolding on_command handle_master_read append change acknowledging
on_command-getack env m client s live conn =
    let out = execute (env.now s.calls) getack s.store s.repl_info true in
    let s1 : Server = record s { store = out.1; calls = suc s.calls } in
    let here = update_here m (some (appended out.0 client)) s.clients in
    (
      s1,
      out.0,
      rw
          (
            live,
            is_master_conn-eq env client.type conn,
            dispatch-master_conn env client.type m (sent getack) out.0 s1 conn,
            is_getack-getack,
          )
          (rw live (rw here refl)),
      refl,
    )

-- A replica reads a GETACK.
handle_read-getack :
    (env : Env) (m : ℕ) (r : Server)
    → Unbroken env
    → IsFed ClientType.master_conn r m []
    → (r' : Server) × (handle_read env m (Received.arrived (encode_array getack)) r ≡ some r')
      × (r'.repl_info.master_repl_offset ≡ add_i64 r.repl_info.master_repl_offset (pos 37))
unfolding handle_read handle_bytes change
handle_read-getack env m r calm fed =
    let (s1, response, done, info) = on_command-getack env m fed.conn r fed.live fed.type in
    let parsed : process (on_command env m) (some r) (fed.conn.read_buf ++ encode_array getack)
        ≡ (on_command env m (some r) (sent getack), []) =
      ap (λ b. process (on_command env m) (some r) (b ++ encode_array getack)) fed.buffer
      ∙ ap (process (on_command env m) (some r)) (sym (append-nil (encode_array getack)))
      ∙ process-encoded (on_command env m) (some r) (getack ∷ []) (omega (arith, length-getack)) in
    let client1 : Client = appended response fed.conn in
    let s2 = acknowledging m fed.conn response s1 in
    let live2 : s2.clients m ≡ some client1 =
      unfold acknowledging in update_here m (some client1) s1.clients in
    let client3 : Client = with_read_buf [] client1 in
    let s3 : Server = record s2 { clients = update m (some client3) s2.clients } in
    let (s', sent', same) =
      send_answers_quiet env m client3 s3 calm (update_here m (some client3) s2.clients) in
    (
      s',
      rw (fed.live, parsed, done, live2) sent',
      ap (λ (v : Server). v.repl_info.master_repl_offset) same
          ∙ (unfold acknowledging in
              rw length-getack
                (ap (λ (i : ReplicationInfo). add_i64 i.master_repl_offset (pos 37)) info)),
    )

-- A master parks a client.
handle_wait-park :
    (env : Env) (c : ℕ) (name replicas timeout : Bytes) (rest : List Bytes) (n t : ℤ) (count : ℕ)
    (s : Server)
    → stoi replicas ≡ some n
    → stoll timeout ≡ some t
    → is_nil s.replicas ≡ false
    → is_zero s.master_repl_offset ≡ false
    → count_caught_up_replicas s.master_repl_offset s ≡ some count
    → leb_ℤ n (pos count) ≡ false
    → handle_wait env c (name ∷ replicas ∷ timeout ∷ rest) s ≡ some (park env c n t s)
unfolding handle_wait wait_numbers
handle_wait-park env c name replicas timeout rest n t count s e f some_replica written counted
      short =
    rw (e, f, some_replica, written, counted, short) refl

queue-park :
    (env : Env) (c d : ℕ) (n t : ℤ) (q : Queue) (s : Server)
    → is_nil s.replicas ≡ false
    → find_queue d s.repl_queues ≡ some q
    → find_queue d (park env c n t s).repl_queues ≡ some (with_pending (encode_array getack) q)
unfolding park
queue-park env c d n t q s some_replica queued =
    queue-propagate d (encode_array getack) q s some_replica queued

offset-park :
    (env : Env) (c : ℕ) (n t : ℤ) (s : Server)
    → (park env c n t s).master_repl_offset ≡ s.master_repl_offset
unfolding park propagate_to_replicas
offset-park env c n t s = ground arith

-- A WAIT whose number of replicas is not reached, on a master with replicas and a stream that is not
-- empty, and a replica that has the master's offset `o`. The master's handler ends with its offset as
-- it was and a GETACK behind what the replica's queue held. When no connection breaks under a `send`
-- and the read buffer of its master connection is empty, the replica's handler ends for the GETACK,
-- and has then the offset `o + 37`, more than all that its master ever wrote (offsets below 2^63).
pub handle_wait-drift :
    (env env' : Env) (c d m o : ℕ) (name replicas timeout : Bytes) (rest : List Bytes) (n t : ℤ)
    (count : ℕ) (s r : Server) (q : Queue)
    → Unbroken env'
    → stoi replicas ≡ some n
    → stoll timeout ≡ some t
    → is_nil s.replicas ≡ false
    → is_zero s.master_repl_offset ≡ false
    → count_caught_up_replicas s.master_repl_offset s ≡ some count
    → leb_ℤ n (pos count) ≡ false
    → find_queue d s.repl_queues ≡ some q
    → IsFed ClientType.master_conn r m []
    → s.master_repl_offset ≡ pos o
    → r.repl_info.master_repl_offset ≡ pos o
    → o + 37 < 2 ^ 63
    → (s' : Server) × (r' : Server) × (handle_wait env c (name ∷ replicas ∷ timeout ∷ rest) s
        ≡ some s')
      × (s'.master_repl_offset ≡ pos o)
      × (find_queue d s'.repl_queues ≡ some (with_pending (encode_array getack) q))
      × (handle_read env' m (Received.arrived (encode_array getack)) r ≡ some r')
      × (r'.repl_info.master_repl_offset ≡ pos (o + 37))
handle_wait-drift env env' c d m o name replicas timeout rest n t count s r q calm e f some_replica
      written counted short queued fed at at' small =
    let (r', done, drifted) = handle_read-getack env' m r calm fed in
    (
      park env c n t s,
      r',
      handle_wait-park env c name replicas timeout rest n t count s e f some_replica written counted
          short,
      offset-park env c n t s ∙ at,
      queue-park env c d n t q s some_replica queued,
      done,
      drifted ∙ rw at' (add_i64-pos o 37 small),
    )
