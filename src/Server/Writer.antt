-- ===== src/Server/Writer.antt =====
-- The writer thread (`writer_loop` of src/server.cpp) and the main thread at one replica's queue. The
-- main thread appends under the lock; the writer moves `pending` behind `draining` under the lock
-- and sends from `draining` without it. Only the writer touches `draining`, so the threads' steps at
-- one queue come in some order: a list of moves.
pub mod Delivery
use redis_lite.Common.{
  ℕ, zero, suc, ◌+◌, ◌≤◌, ◌<◌, ◌≡◌, ◌≢◌, refl, sym, ◌∙◌, ap, ap₂, true, false, List, [], ◌∷◌, ◌++◌,
  Bytes, length, arith, Bool, if◌then◌else◌, take, drop, append_assoc, append-nil, take-append-drop,
  length-drop,
}
use redis_lite.Server.State.{Queue, Sent, Env}
use redis_lite.Server.Send.{is_empty}

-- A queue, and the bytes that its socket has taken.
pub record Link : Type 0 where
  pub queue : Queue
  pub wire : Bytes

-- `queue->pending += data`
unfoldable pub push : Bytes → Queue → Queue
push bytes q = record q { pending = q.pending ++ bytes }

-- `queue->draining += std::move(queue->pending); queue->pending.clear();`
unfoldable pub collect : Queue → Queue
collect q =
    if is_empty q.pending then q else record q { draining = q.draining ++ q.pending; pending = [] }

-- One `send` from `draining`.
unfoldable pub send_once : Sent → Link → Link
send_once (Sent.sent n) l = record {
  queue = record l.queue { draining = drop (suc n) l.queue.draining };
  wire = l.wire ++ take (suc n) l.queue.draining;
}
send_once Sent.again l = l
send_once Sent.failed l = record l { queue = record l.queue { draining = [] } }

-- `while (!queue->draining.empty())`
unfoldable pub drain : Env → ℕ → ℕ → Link → Link
drain env zero calls l = l
drain env (suc fuel) calls l = elim (is_empty l.queue.draining) [
  | true ↦ l
  | false ↦ elim (env.send calls l.queue.fd l.queue.draining) [
    | Sent.sent n ↦ drain env fuel (suc calls) (send_once (Sent.sent n) l)
    | Sent.again ↦ l
    | Sent.failed ↦ send_once Sent.failed l
  ]
]

-- One round of the writer at one queue: nothing is sent to a client that was removed.
unfoldable pub writer_round : Env → ℕ → Link → Link
writer_round env calls l =
    let l' = record l { queue = collect l.queue } in
    if l'.queue.removed then l' else drain env (length l'.queue.draining) calls l'

pub data Move : Type 0 where
  pushed : Bytes → Move
  marked_removed collected : Move
  sent_once : Sent → Move

unfoldable pub move : Move → Link → Link
move (Move.pushed bytes) l = record l { queue = push bytes l.queue }
move Move.marked_removed l = record l { queue = record l.queue { removed = true } }
move Move.collected l = record l { queue = collect l.queue }
move (Move.sent_once r) l = send_once r l

unfoldable pub moves : List Move → Link → Link
moves [] l = l
moves (m ∷ ms) l = moves ms (move m l)

-- What the main thread appended, in order.
abbrev pub appended_by : List Move → Bytes
appended_by [] = []
appended_by (Move.pushed bytes ∷ ms) = bytes ++ appended_by ms
appended_by (Move.marked_removed ∷ ms) = appended_by ms
appended_by (Move.collected ∷ ms) = appended_by ms
appended_by (Move.sent_once r ∷ ms) = appended_by ms

-- No `send` broke.
abbrev pub NoneFailed : List Move → Type 0
NoneFailed [] = Unit
NoneFailed (Move.sent_once Sent.failed ∷ ms) = ⊥
NoneFailed (Move.sent_once (Sent.sent n) ∷ ms) = NoneFailed ms
NoneFailed (Move.sent_once Sent.again ∷ ms) = NoneFailed ms
NoneFailed (Move.pushed bytes ∷ ms) = NoneFailed ms
NoneFailed (Move.marked_removed ∷ ms) = NoneFailed ms
NoneFailed (Move.collected ∷ ms) = NoneFailed ms

-- All that the queue was ever given: taken by the socket, being sent, or waiting.
abbrev pub given : Link → Bytes
given l = l.wire ++ (l.queue.draining ++ l.queue.pending)
