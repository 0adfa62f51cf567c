-- ===== src/Server/Stream.antt =====
-- What a replica is sent: the answer to its PSYNC, then the stream of the master's writes.
use mathlib.Core.List.{cons-ne-nil}
use redis_lite.Common.{
  ◌⊎◌, inl, inr, ◌≢◌, ℕ, ◌+◌, ◌^◌, ◌<◌, ◌≡◌, refl, ◌∙◌, ap, false, List, [], ◌∷◌, ◌++◌,
  append_assoc, append-nil, some, Bytes, length, length-append, flatten, map, arith,
}
use redis_lite.Common.Int.{pos}
use redis_lite.Common.Word.{add_i64-pos}
use redis_lite.Resp.{encode_array}
use redis_lite.Backlog.{create}
use redis_lite.Backlog.Replay.{first-Kept, Kept, feed-Kept}
use redis_lite.Server.State.{Queue, Server, find_queue, put_queue}
use redis_lite.Server.Wait.{push_all, is_nil, propagate_to_replicas}
use redis_lite.Server.Replicate.{record_write, advance_stream, publish_offset}

-- The writes of clients, one after the other.
abbrev pub record_all : List (List Bytes) → Server → Server
record_all [] s = s
record_all (args ∷ cmds) s = record_all cmds (record_write args s)

-- The bytes of the stream that the writes make.
abbrev pub stream : List (List Bytes) → Bytes
stream cmds = flatten (map encode_array cmds)

-- The offset and the backlog agree: the backlog has been fed `w` from the offset `g` on.
pub record InStep (s : Server) (cap g : ℕ) (w : Bytes) : Type 0 where
  pub kept : Kept s.backlog cap g w
  pub offset : s.master_repl_offset ≡ pos (g + length w)

-- A backlog that was never fed, at the offset `g`.
pub record IsNew (s : Server) (cap g : ℕ) : Type 0 where
  pub empty : s.backlog ≡ create cap
  pub offset : s.master_repl_offset ≡ pos g
  pub positive : 0 < cap

-- In step, or not fed yet.
abbrev pub Follows : Server → ℕ → ℕ → Bytes → Type 0
Follows s cap g w = InStep s cap g w ⊎ ((w ≡ []) × IsNew s cap g)

pub Follows-offset :
    (s : Server) (cap g : ℕ) (w : Bytes)
    → Follows s cap g w
    → s.master_repl_offset ≡ pos (g + length w)
Follows-offset s cap g w (inl h) = h.offset
Follows-offset s cap g w (inr (e, h)) =
    h.offset ∙ ap pos (omega (arith, ap (λ (t : Bytes). length t) e))

backlog-propagate : (b : Bytes) (s : Server) → (propagate_to_replicas b s).backlog ≡ s.backlog
unfolding propagate_to_replicas
backlog-propagate b s = ground arith

offset-propagate :
    (b : Bytes) (s : Server) → (propagate_to_replicas b s).master_repl_offset ≡ s.master_repl_offset
unfolding propagate_to_replicas
offset-propagate b s = ground arith

replicas-propagate : (b : Bytes) (s : Server) → (propagate_to_replicas b s).replicas ≡ s.replicas
unfolding propagate_to_replicas
replicas-propagate b s = ground arith

pub record_write-InStep :
    (args : List Bytes) (s : Server) (cap g : ℕ) (w : Bytes)
    → g + length (w ++ encode_array args) < 2 ^ 63
    → InStep s cap g w
    → InStep (record_write args s) cap g (w ++ encode_array args)
unfolding record_write advance_stream publish_offset
record_write-InStep args s cap g w small h =
    let d = encode_array args in
    let size = length-append w d in
    record {
      kept = rw (backlog-propagate, h.offset) (feed-Kept s.backlog cap g w d small h.kept);
      offset =
          rw (offset-propagate, h.offset)
            (add_i64-pos (g + length w) (length d) (omega (arith, size))
              ∙ ap pos (omega (arith, size)));
    }

encode_array-ne_nil : (args : List Bytes) → encode_array args ≢ []
unfolding encode_array
encode_array-ne_nil args = cons-ne-nil _ _

pub record_write-IsNew :
    (args : List Bytes) (s : Server) (cap g : ℕ)
    → g + length (encode_array args) < 2 ^ 63
    → IsNew s cap g
    → InStep (record_write args s) cap g (encode_array args)
unfolding record_write advance_stream publish_offset
record_write-IsNew args s cap g small h =
    let d = encode_array args in
    record {
      kept =
          rw (backlog-propagate, h.offset, h.empty)
            (first-Kept cap g d h.positive (encode_array-ne_nil args) small);
      offset = rw (offset-propagate, h.offset) (add_i64-pos g (length d) small);
    }

pub record_all-InStep :
    (cmds : List (List Bytes)) (s : Server) (cap g : ℕ) (w : Bytes)
    → g + length (w ++ stream cmds) < 2 ^ 63
    → InStep s cap g w
    → InStep (record_all cmds s) cap g (w ++ stream cmds)
record_all-InStep [] s cap g w small h = rw append-nil h
record_all-InStep (args ∷ cmds) s cap g w small h =
    let d = encode_array args in
    rw (← append_assoc) (
      record_all-InStep cmds (record_write args s) cap g (w ++ d) (rw append_assoc small) (
        record_write-InStep args s cap g w
          (omega (
            arith,
            length-append w d,
            length-append w (d ++ stream cmds),
            length-append d (stream cmds),
          ))
          h))

pub record_all-Follows :
    (cmds : List (List Bytes)) (s : Server) (cap g : ℕ) (w : Bytes)
    → g + length (w ++ stream cmds) < 2 ^ 63
    → Follows s cap g w
    → Follows (record_all cmds s) cap g (w ++ stream cmds)
record_all-Follows cmds s cap g w small (inl h) = inl (record_all-InStep cmds s cap g w small h)
record_all-Follows [] s cap g w small (inr (e, h)) = inr (append-nil w ∙ e, h)
record_all-Follows (args ∷ cmds) s cap g w small (inr (e, h)) =
    let d = encode_array args in
    let gone : w ++ (d ++ stream cmds) ≡ d ++ stream cmds = ap (λ r. r ++ (d ++ stream cmds)) e in
    inl (
      rw gone (
        record_all-InStep cmds (record_write args s) cap g d (rw gone at small) (
          record_write-IsNew args s cap g
            (omega (arith, length-append d (stream cmds), ap (λ (t : Bytes). length t) gone)) h)))

abbrev pub with_pending : Bytes → Queue → Queue
with_pending bytes q = record q { pending = q.pending ++ bytes }

find_queue-push_all :
    (c : ℕ) (bytes : Bytes) (q : Queue) (qs : List (ℕ × Queue))
    → find_queue c qs ≡ some q
    → find_queue c (push_all bytes qs) ≡ some (with_pending bytes q)
unfolding find_queue push_all
find_queue-push_all c bytes q [] h = cc
find_queue-push_all c bytes q ((d, p) ∷ qs) h = ground (arith, find_queue-push_all c bytes q qs)

pub find_queue-put_queue :
    (c : ℕ) (q : Queue) (qs : List (ℕ × Queue)) → find_queue c (put_queue c q qs) ≡ some q
unfolding find_queue put_queue
find_queue-put_queue c q [] = ground arith
find_queue-put_queue c q ((d, p) ∷ qs) = ground (arith, find_queue-put_queue c q qs)

pub queue-propagate :
    (c : ℕ) (bytes : Bytes) (q : Queue) (s : Server)
    → is_nil s.replicas ≡ false
    → find_queue c s.repl_queues ≡ some q
    → find_queue c (propagate_to_replicas bytes s).repl_queues ≡ some (with_pending bytes q)
unfolding propagate_to_replicas
queue-propagate c bytes q s some_replica h =
    rw some_replica (find_queue-push_all c bytes q s.repl_queues h)

pub queue-record_all :
    (cmds : List (List Bytes)) (c : ℕ) (q : Queue) (s : Server)
    → is_nil s.replicas ≡ false
    → find_queue c s.repl_queues ≡ some q
    → find_queue c (record_all cmds s).repl_queues ≡ some (with_pending (stream cmds) q)
queue-record_all [] c q s some_replica h = h ∙ rw append-nil
queue-record_all (args ∷ cmds) c q s some_replica h =
    let d = encode_array args in
    let s' = publish_offset (advance_stream d s) in
    let same : s'.replicas ≡ s.replicas = unfold publish_offset advance_stream in refl in
    let queued =
      queue-propagate c d q s' (ap is_nil same ∙ some_replica)
        (unfold publish_offset advance_stream in h) in
    queue-record_all cmds c (with_pending d q) (record_write args s)
      (unfold record_write in ap is_nil (replicas-propagate d s' ∙ same) ∙ some_replica)
      (unfold record_write in queued)
    ∙ ap (λ p. some (record q { pending = p })) (append_assoc q.pending d (stream cmds))

pub is_nil-append : (xs : List ℕ) (c : ℕ) → is_nil (xs ++ c ∷ []) ≡ false
unfolding is_nil
is_nil-append [] c = refl
is_nil-append (x ∷ xs) c = refl
