-- ===== src/Server/FullResync.antt =====
-- A full resync from end to end: `handle_psync` on the master and `connect_to_master` on the replica
-- (src/server.cpp), with the snapshot of src/rdb.cpp between them.
use redis_lite.Common.{
  ℕ, ◌+◌, ◌≤◌, ◌<◌, ◌≡◌, ◌^◌, refl, sym, ◌∙◌, ap, true, false, List, ◌∷◌, ◌++◌, some, Bytes, codes,
  length, length-append, All, flatten, arith,
}
use redis_lite.Common.Int.{ℤ, pos}
use redis_lite.Number.{int_max}
use redis_lite.Map.{find}
use redis_lite.Store.{Store}
use redis_lite.Store.Access.{IsValid}
use redis_lite.Rdb.Save.{serialize, Clocks}
use redis_lite.Rdb.RoundTrip.{Small}
use redis_lite.Rdb.Restore.{load-serialize}
use redis_lite.Rdb.Lookup.{arrives, unexpired, find-load-serialize}
use redis_lite.Rdb.Load.{load}
use redis_lite.Replication.{ReplicationInfo}
use redis_lite.Server.State.{Client, Queue, Server, Env, find_queue, some-injective}
use redis_lite.Server.Psync.{asked_id, asked_offset, resumes, full_resync, handle_psync}
use redis_lite.Server.Handshake.{Joined, occurs, greet, expect, on_reply, join, load_or_clear}
use redis_lite.Server.Stream.{record_all, stream, Follows, Follows-offset}
use redis_lite.Server.Resume.{handle_psync-full}
use redis_lite.Server.Join.{IsPlain, status, on_reply-full_resync}

load_or_clear-serialize :
    (c : Clocks) (sys now : ℤ) (s old : Store)
    → length s.entries < 2 ^ 32
    → All Small s.entries
    → load_or_clear sys (λ _. now) (serialize c s) old ≡ (load sys (λ _. now) (serialize c s) old).1
unfolding load_or_clear
load_or_clear-serialize c sys now s old few small =
    rw (load-serialize c sys now s old few small) refl

expect_hit :
    (text piece : Bytes) (pieces : List Bytes)
    → occurs text piece ≡ true
    → expect text (piece ∷ pieces) ≡ some pieces
unfolding expect
expect_hit text piece pieces h = rw h

greet_lem :
    (pong ok1 ok2 : Bytes) (pieces : List Bytes)
    → occurs (codes "+PONG") pong ≡ true
    → occurs (codes "+OK") ok1 ≡ true
    → occurs (codes "+OK") ok2 ≡ true
    → greet (pong ∷ ok1 ∷ ok2 ∷ pieces) ≡ some pieces
unfolding greet
greet_lem pong ok1 ok2 pieces p q q' =
    rw
      (
        expect_hit (codes "+PONG") pong (ok1 ∷ ok2 ∷ pieces) p,
        expect_hit (codes "+OK") ok1 (ok2 ∷ pieces) q,
        expect_hit (codes "+OK") ok2 pieces q',
      )
      refl

-- A dialogue whose greetings are answered as they should be comes to the answer to PSYNC.
pub join_greeted :
    (sys : ℤ) (clock : ℕ → ℤ) (r : ReplicationInfo) (store : Store) (pong ok1 ok2 reply : Bytes)
    (pieces : List Bytes)
    → occurs (codes "+PONG") pong ≡ true
    → occurs (codes "+OK") ok1 ≡ true
    → occurs (codes "+OK") ok2 ≡ true
    → join sys clock r store (pong ∷ ok1 ∷ ok2 ∷ reply ∷ pieces)
      ≡ on_reply sys clock r store reply pieces
unfolding join on_reply
join_greeted sys clock r store pong ok1 ok2 reply pieces p q q' =
    rw (greet_lem pong ok1 ok2 (reply ∷ pieces) p q q', join) refl

-- What has become of the replica.
pub record Resynced (j : Joined) (c : Clocks) (sys now : ℤ) (s : Server) (later : Bytes)
    : Type 0 where
  pub connected : j.connected ≡ true
  pub replid : j.info.master_replid ≡ s.repl_info.master_replid
  pub offset : j.info.master_repl_offset ≡ s.master_repl_offset
  pub keys :
      (k : Bytes)
      → find k j.store.entries ≡ arrives c sys now (unexpired c.steady_now (find k s.store.entries))
  pub stream : j.leftover ++ flatten j.unread ≡ later

sent_lem :
    (env : Env) (c cap g : ℕ) (w : Bytes) (args : List Bytes) (client : Client) (s s' : Server)
    (cmds : List (List Bytes)) (q : Queue)
    → Follows s cap g w
    → g + length (w ++ stream cmds) < 2 ^ 63
    → s.clients c ≡ some client
    → resumes (asked_id args) (asked_offset args) s ≡ false
    → handle_psync env c args s ≡ some s'
    → find_queue c (record_all cmds s').repl_queues ≡ some q
    → q.pending
      ≡ full_resync s.repl_info.master_replid
          (pos (g + length w))
          (serialize (env.clocks s.calls) s.store)
        ++ stream cmds
sent_lem env c cap g w args client s s' cmds q h small live full done queued =
    let (s1, done1, queued1, in_step) =
      handle_psync-full env c cap g w args client s cmds h small live full in
    let one : s1 ≡ s' = some-injective (sym done1 ∙ done) in
    ap (λ (p : Queue). p.pending)
      (some-injective
        (sym queued ∙ ap (λ t. find_queue c (record_all cmds t).repl_queues) (sym one) ∙ queued1))

-- A full resync, with any writes behind it. The master `s`, whose backlog was fed the `w` of its
-- stream from the offset `g` on, or never, answers the PSYNC of a live client with a snapshot, and
-- the writes `cmds` follow. The replica `old` has its greetings answered with `+PONG` and `+OK` and
-- gets the bytes of its queue in any pieces, of which the first starts with the status line and
-- holds no `+CONTINUE`. Then the replica is connected under the master's identifier and offset; key
-- by key it has what the master had when it answered (with the time to live that is left); and what
-- it has still to read is exactly the stream of the writes. Offsets stay below 2 ^ 63; the master's
-- identifier has no space, carriage return or dollar sign; the master's keys are unique and its
-- store fits the snapshot format: fewer than 2 ^ 32 entries, strings (and the identifier) shorter
-- than 2 ^ 32 bytes, and a snapshot of at most `INT_MAX` bytes; the replica's steady clock stands
-- at `now` while it loads.
pub join-handle_psync :
    (env : Env) (c cap g : ℕ) (w : Bytes) (args : List Bytes) (client : Client) (s s' : Server)
    (cmds : List (List Bytes)) (q : Queue) (sys now : ℤ) (r : ReplicationInfo) (old : Store)
    (pong ok1 ok2 reply x : Bytes) (pieces : List Bytes)
    → Follows s cap g w
    → g + length (w ++ stream cmds) < 2 ^ 63
    → s.clients c ≡ some client
    → resumes (asked_id args) (asked_offset args) s ≡ false
    → handle_psync env c args s ≡ some s'
    → find_queue c (record_all cmds s').repl_queues ≡ some q
    → IsValid s.store
    → length s.store.entries < 2 ^ 32
    → All Small s.store.entries
    → length (serialize (env.clocks s.calls) s.store) ≤ int_max
    → IsPlain s.repl_info.master_replid
    → length s.repl_info.master_replid < 2 ^ 32
    → occurs (codes "+PONG") pong ≡ true
    → occurs (codes "+OK") ok1 ≡ true
    → occurs (codes "+OK") ok2 ≡ true
    → reply ≡ status s.repl_info.master_replid (g + length w) ++ x
    → occurs (codes "+CONTINUE") reply ≡ false
    → reply ++ flatten pieces ≡ q.pending
    → (j : Joined) × (join sys (λ _. now) r old (pong ∷ ok1 ∷ ok2 ∷ reply ∷ pieces) ≡ some j)
      × Resynced j (env.clocks s.calls) sys now s (stream cmds)
join-handle_psync env c cap g w args client s s' cmds q sys now r old pong ok1 ok2 reply x pieces h
      small live full done queued valid few strings fits plain short p1 p2 p3 first no_continue
      received =
    let clocks = env.clocks s.calls in
    let bytes = serialize clocks s.store in
    let (leftover, unread, replied, rest) =
      on_reply-full_resync sys (λ _. now) r old s.repl_info.master_replid bytes (stream cmds) reply
        x (g + length w) pieces plain short (omega (arith, length-append w (stream cmds))) fits
        first no_continue
        (received ∙ sent_lem env c cap g w args client s s' cmds q h small live full done queued) in
    (
      record {
        info = record r {
          master_replid = s.repl_info.master_replid;
          master_repl_offset = pos (g + length w);
        };
        store = load_or_clear sys (λ _. now) bytes old;
        connected = true;
        leftover = leftover;
        unread = unread;
      },
      join_greeted sys (λ _. now) r old pong ok1 ok2 reply pieces p1 p2 p3 ∙ replied,
      record {
        connected = refl;
        replid = refl;
        offset = sym (Follows-offset s cap g w h);
        keys = λ k.
            ap (λ (t : Store). find k t.entries)
              (load_or_clear-serialize clocks sys now s.store old few strings)
            ∙ find-load-serialize clocks sys now s.store old k valid few strings;
        stream = rest;
      },
    )
