-- ===== src/Server/Writer/Delivery.antt =====
-- What a replica's socket is given by the main thread and the writer thread (`writer_loop` and
-- `propagate_to_replicas` of src/server.cpp).
use redis_lite.Common.{
  ℕ, zero, suc, ◌≤◌, ◌≡◌, refl, sym, ◌∙◌, ap, ap₂, true, false, List, [], ◌∷◌, ◌++◌, Bytes, length,
  arith, take, drop, append_assoc, append-nil, take-append-drop, length-drop,
}
use redis_lite.Server.State.{Queue, Sent, Env}
use redis_lite.Server.Send.{is_empty}
use redis_lite.Server.Writer.{
  Link, push, collect, send_once, drain, writer_round, Move, move, moves, appended_by, NoneFailed,
  given,
}

collect_bytes : (q : Queue) → (collect q).draining ++ (collect q).pending ≡ q.draining ++ q.pending
unfolding collect is_empty
collect_bytes q = ground (arith, append-nil (q.draining ++ q.pending))

collect-given : (l : Link) → given (record l { queue = collect l.queue }) ≡ given l
collect-given l = ap (λ r. l.wire ++ r) (collect_bytes l.queue)

send_once-given : (n : ℕ) (l : Link) → given (send_once (Sent.sent n) l) ≡ given l
unfolding send_once
send_once-given n l =
    append_assoc l.wire (take (suc n) l.queue.draining) _
    ∙ ap (λ r. l.wire ++ r)
        (sym (append_assoc (take (suc n) l.queue.draining) _ l.queue.pending)
          ∙ ap (λ r. r ++ l.queue.pending) (take-append-drop (suc n) l.queue.draining))

-- Whatever order the threads' steps come in, and however much each `send` takes, if none fails:
-- what the socket took, followed by what is being sent and what waits, is what it was before
-- followed by all that was appended, in order; so nothing is lost, sent twice or out of order.
pub given-moves :
    (ms : List Move) (l : Link) → NoneFailed ms → given (moves ms l) ≡ given l ++ appended_by ms
unfolding moves move push send_once
given-moves [] l h = sym (append-nil (given l))
given-moves (Move.pushed bytes ∷ ms) l h =
    given-moves ms (record l { queue = push bytes l.queue }) h ∙ simp append_assoc
given-moves (Move.marked_removed ∷ ms) l h =
    given-moves ms (record l { queue = record l.queue { removed = true } }) h
given-moves (Move.collected ∷ ms) l h =
    given-moves ms (record l { queue = collect l.queue }) h
    ∙ ap (λ r. r ++ appended_by ms) (collect-given l)
given-moves (Move.sent_once (Sent.sent n) ∷ ms) l h =
    given-moves ms (send_once (Sent.sent n) l) h
    ∙ ap (λ r. r ++ appended_by ms) (send_once-given n l)
given-moves (Move.sent_once Sent.again ∷ ms) l h = given-moves ms l h
given-moves (Move.sent_once Sent.failed ∷ ms) l h = absurd h

-- A socket that has room: every `send` takes at least one byte.
abbrev pub Willing : Env → Type 0
Willing env = (n fd : ℕ) (bytes : Bytes) → (k : ℕ) × (env.send n fd bytes ≡ Sent.sent k)

collect-pending : (q : Queue) → (collect q).pending ≡ []
unfolding collect is_empty
collect-pending q = ground arith

collect-removed : (q : Queue) → (collect q).removed ≡ q.removed
unfolding collect
collect-removed q = ground arith

-- A link whose `draining` has all been taken.
emptied : Link → Bytes → Link
emptied l bytes = record { queue = record l.queue { draining = [] }; wire = l.wire ++ bytes }

empty_link : (l : Link) → l.queue.draining ≡ [] → l ≡ emptied l []
unfolding emptied
empty_link l e =
    ap₂ (λ d w. record { queue = record l.queue { draining = d }; wire = w }) e
      (sym (append-nil l.wire))

drain_end :
    (env : Env) (fuel calls : ℕ) (l : Link)
    → is_empty l.queue.draining ≡ true
    → drain env fuel calls l ≡ l
unfolding drain
drain_end env zero calls l e = refl
drain_end env (suc fuel) calls l e = rw (e, drain) refl

drain_more :
    (env : Env) (fuel calls n : ℕ) (l : Link)
    → is_empty l.queue.draining ≡ false
    → env.send calls l.queue.fd l.queue.draining ≡ Sent.sent n
    → drain env (suc fuel) calls l ≡ drain env fuel (suc calls) (send_once (Sent.sent n) l)
unfolding drain
drain_more env fuel calls n l e h = rw (e, drain, h) refl

nothing : is_empty [] ≡ true
unfolding is_empty
nothing = refl

something : (b : ℕ) (bytes : Bytes) → is_empty (b ∷ bytes) ≡ false
unfolding is_empty
something b bytes = refl

-- What the loop makes of a queue with the bytes `draining`.
drained :
    (env : Env) (fuel calls : ℕ) (draining : Bytes) (l : Link)
    → Willing env
    → l.queue.draining ≡ draining
    → length draining ≤ fuel
    → drain env fuel calls l ≡ emptied l draining
drained env fuel calls [] l willing e h =
    drain_end env fuel calls l (ap is_empty e ∙ nothing) ∙ empty_link l e
drained env zero calls (b ∷ bytes) l willing e h = absurd (omega arith)
drained env (suc fuel) calls (b ∷ bytes) l willing e h =
    let (n, takes) = willing calls l.queue.fd l.queue.draining in
    let l1 = send_once (Sent.sent n) l in
    let rest =
      drained env fuel (suc calls) (drop n bytes) l1 willing
        (unfold send_once in ap (drop (suc n)) e) (omega (arith, length-drop n bytes)) in
    drain_more env fuel calls n l (ap is_empty e ∙ something b bytes) takes
    ∙ rest
    ∙ unfold send_once emptied in
      ap (λ w. record { queue = record l.queue { draining = [] }; wire = w })
        (append_assoc l.wire (take (suc n) l.queue.draining) (drop n bytes)
          ∙ ap (λ d. l.wire ++ (take (suc n) d ++ drop n bytes)) e
          ∙ ap (λ r. l.wire ++ b ∷ r) (take-append-drop n bytes))

-- A round of the writer at a queue that is not marked removed and whose socket has room, after the
-- threads' steps `ms` in any order, of which no `send` failed: all that the queue was ever given
-- has been taken by the socket, in order, and both buffers are empty; the loop ends.
pub writer_round-moves :
    (env : Env) (calls : ℕ) (ms : List Move) (l : Link)
    → Willing env
    → NoneFailed ms
    → (moves ms l).queue.removed ≡ false
    → let l' = writer_round env calls (moves ms l) in
      (l'.wire ≡ given l ++ appended_by ms) × (l'.queue.draining ≡ []) × (l'.queue.pending ≡ [])
unfolding writer_round drain collect
writer_round-moves env calls ms l willing none_failed there =
    let l1 = moves ms l in
    let q = collect l1.queue in
    let l2 : Link = record l1 { queue = q } in
    let done = drained env (length q.draining) calls q.draining l2 willing refl (omega arith) in
    let on : q.removed ≡ false = collect-removed l1.queue ∙ there in
    rw (on, done)
      (unfold emptied in
        (
          ap (λ r. l1.wire ++ r)
                (sym (append-nil q.draining)
                  ∙ ap (λ r. q.draining ++ r) (sym (collect-pending l1.queue))
                  ∙ collect_bytes l1.queue)
              ∙ given-moves ms l none_failed,
          refl,
          collect-pending l1.queue,
        ))
