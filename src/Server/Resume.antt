-- ===== src/Server/Resume.antt =====
-- `handle_psync` of src/server.cpp: what a replica that asks for a part of the stream, or for all of
-- it, is sent, however many writes follow.
use redis_lite.Common.{
  inl, inr, ℕ, suc, ◌+◌, ◌-◌, ◌^◌, ◌≤◌, ◌<◌, ◌≡◌, refl, ◌∙◌, ap, true, false, ◌&&◌, List, [], ◌∷◌,
  ◌++◌, append_assoc, some, Bytes, codes, length, length-append, drop, drop-append, arith, leb,
  str_eq,
}
use redis_lite.Common.Int.{pos}
use redis_lite.Backlog.Replay.{contains-Kept, read-Kept}
use redis_lite.Rdb.Save.{serialize}
use redis_lite.Server.State.{Client, Queue, Server, Env, find_queue, put_queue, update, change}
use redis_lite.Server.Psync.{
  asked_id, asked_offset, resumes, continue_with, full_resync, attach, handle_psync, as_replica,
  id_match,
}
use redis_lite.Server.Stream.{
  record_all, stream, InStep, Follows, Follows-offset, record_all-Follows, record_all-InStep,
  queue-record_all, find_queue-put_queue, is_nil-append,
}

-- A new queue with its first bytes.
abbrev pub queue_of : ℕ → Bytes → Queue
queue_of fd bytes = record { pending = bytes; draining = []; fd = fd; removed = false }

-- The server behind `attach`.
unfoldable pub attached : ℕ → Bytes → Client → Server → Server
attached c bytes client s = record s {
  clients = update c (some (as_replica client)) s.clients;
  replicas = s.replicas ++ c ∷ [];
  repl_queues = put_queue c (queue_of client.fd bytes) s.repl_queues;
  repl_has_work = true;
}

pub attach_lem :
    (c : ℕ) (bytes : Bytes) (client : Client) (s : Server)
    → s.clients c ≡ some client
    → attach c bytes s ≡ some (attached c bytes client s)
unfolding attach attached change
attach_lem c bytes client s live = rw live

-- The queue of a client attached, and the writes that follow.
queue-attached :
    (cmds : List (List Bytes)) (c : ℕ) (bytes : Bytes) (client : Client) (s : Server)
    → find_queue c (record_all cmds (attached c bytes client s)).repl_queues
      ≡ some (queue_of client.fd (bytes ++ stream cmds))
queue-attached cmds c bytes client s =
    queue-record_all cmds c (queue_of client.fd bytes) (attached c bytes client s)
      (unfold attached in is_nil-append s.replicas c)
      (unfold attached in find_queue-put_queue c (queue_of client.fd bytes) s.repl_queues)

InStep-attached :
    (c cap g : ℕ) (bytes w : Bytes) (client : Client) (s : Server)
    → InStep s cap g w
    → InStep (attached c bytes client s) cap g w
unfolding attached
InStep-attached c cap g bytes w client s h = record { kept = h.kept; offset = h.offset }

Follows-attached :
    (c cap g : ℕ) (bytes w : Bytes) (client : Client) (s : Server)
    → Follows s cap g w
    → Follows (attached c bytes client (record s { calls = suc s.calls })) cap g w
unfolding attached
Follows-attached c cap g bytes w client s (inl h) =
    inl (record { kept = h.kept; offset = h.offset })
Follows-attached c cap g bytes w client s (inr (e, h)) =
    inr (e, record { empty = h.empty; offset = h.offset; positive = h.positive })

pub resumes-window :
    (id : Bytes) (cap g o : ℕ) (w : Bytes) (s : Server)
    → InStep s cap g w
    → str_eq id (codes "?") ≡ false
    → id_match id (pos o) s.repl_info ≡ true
    → resumes id (pos o) s ≡ (leb (g + (length w - cap)) o && leb o (g + length w))
unfolding resumes
resumes-window id cap g o w s h known same =
    rw (known, same) (ground (arith, contains-Kept s.backlog cap g w o h.kept))

pub window_in : (lo hi o : ℕ) → lo ≤ o → o ≤ hi → (leb lo o && leb o hi) ≡ true
window_in lo hi o h k = ground arith

-- The bytes of the backlog from an offset in its window on, and what follows.
replayed :
    (cap g o : ℕ) (w more : Bytes) (s : Server)
    → InStep s cap g w
    → g + length w < 2 ^ 63
    → g + (length w - cap) ≤ o
    → o ≤ g + length w
    → continue_with (pos o) s ++ more
      ≡ codes "+CONTINUE "
        ++ (s.repl_info.master_replid ++ (codes "\r\n" ++ drop (o - g) (w ++ more)))
unfolding continue_with
replayed cap g o w more s h small lo hi =
    rw
      (
        read-Kept s.backlog cap g w o small lo hi h.kept,
        drop-append (o - g) w more (omega arith),
        append_assoc s.repl_info.master_replid,
      )
      refl

-- A PSYNC of a live client that names the stream of a master whose backlog has been fed the bytes
-- `w` from the offset `g` on, and an offset in the window of its last `cap` bytes: the replica's
-- queue begins with `+CONTINUE` and, whatever writes follow, holds the stream from that offset on,
-- with no gap and nothing twice; the master's offset and backlog stay in step with it. Offsets stay
-- below 2 ^ 63.
pub handle_psync-continue :
    (env : Env) (c cap g o : ℕ) (w : Bytes) (args : List Bytes) (client : Client) (s : Server)
    (cmds : List (List Bytes))
    → InStep s cap g w
    → g + length (w ++ stream cmds) < 2 ^ 63
    → s.clients c ≡ some client
    → str_eq (asked_id args) (codes "?") ≡ false
    → asked_offset args ≡ pos o
    → id_match (asked_id args) (pos o) s.repl_info ≡ true
    → g + (length w - cap) ≤ o
    → o ≤ g + length w
    → (s' : Server) × (handle_psync env c args s ≡ some s')
      × (find_queue c (record_all cmds s').repl_queues
          ≡ some (
              queue_of client.fd (
                codes "+CONTINUE "
                ++ (s.repl_info.master_replid
                    ++ (codes "\r\n" ++ drop (o - g) (w ++ stream cmds))))))
      × InStep (record_all cmds s') cap g (w ++ stream cmds)
unfolding handle_psync
handle_psync-continue env c cap g o w args client s cmds h small live known asked same lo hi =
    let bytes = continue_with (pos o) s in
    let s' = attached c bytes client s in
    let size = length-append w (stream cmds) in
    let inside = window_in _ _ o lo hi in
    (
      s',
      rw (asked, resumes-window (asked_id args) cap g o w s h known same, inside)
          (attach_lem c bytes client s live),
      queue-attached cmds c bytes client s
          ∙ ap (λ r. some (queue_of client.fd r))
              (replayed cap g o w (stream cmds) s h (omega (arith, size)) lo hi),
      record_all-InStep cmds s' cap g w small (InStep-attached c cap g bytes w client s h),
    )

-- Any other PSYNC of a live client: the replica's queue begins with the master's identifier and
-- offset and a snapshot of its store and, whatever writes follow, holds the stream of exactly those
-- writes behind it; the master's offset and backlog stay in step
-- with it. So too on a master that has not written anything yet.
pub handle_psync-full :
    (env : Env) (c cap g : ℕ) (w : Bytes) (args : List Bytes) (client : Client) (s : Server)
    (cmds : List (List Bytes))
    → Follows s cap g w
    → g + length (w ++ stream cmds) < 2 ^ 63
    → s.clients c ≡ some client
    → resumes (asked_id args) (asked_offset args) s ≡ false
    → (s' : Server) × (handle_psync env c args s ≡ some s')
      × (find_queue c (record_all cmds s').repl_queues
          ≡ some (
              queue_of client.fd (
                full_resync s.repl_info.master_replid
                  (pos (g + length w))
                  (serialize (env.clocks s.calls) s.store)
                ++ stream cmds)))
      × Follows (record_all cmds s') cap g (w ++ stream cmds)
unfolding handle_psync
handle_psync-full env c cap g w args client s cmds h small live full =
    let asked = record s { calls = suc s.calls } in
    let bytes =
      full_resync s.repl_info.master_replid s.master_repl_offset
        (serialize (env.clocks s.calls) s.store) in
    let s' = attached c bytes client asked in
    (
      s',
      rw full (attach_lem c bytes client asked live),
      queue-attached cmds c bytes client asked
          ∙ ap
              (λ o. some (
                queue_of client.fd (
                  full_resync s.repl_info.master_replid o (serialize (env.clocks s.calls) s.store)
                  ++ stream cmds)))
              (Follows-offset s cap g w h),
      record_all-Follows cmds s' cap g w small (Follows-attached c cap g bytes w client s h),
    )
