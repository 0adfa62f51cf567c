-- ===== src/Server/Wait.antt =====
-- WAIT (src/server.cpp): counting the replicas that have caught up, answering at once or parking the
-- client, and answering the parked ones.
use redis_lite.Common.{
  ℕ, suc, Bool, true, false, List, [], ◌∷◌, ◌++◌, Option, some, Bytes, length, codes, if◌then◌else◌,
  ◌||◌, ◌&&◌, ◌^◌, ◌-◌,
}
use redis_lite.Common.Int.{ℤ, pos, ltb_ℤ}
use redis_lite.Common.Word.{add_i64, mul_i64, leb_ℤ}
use redis_lite.Number.{stoi, stoll}
use redis_lite.Resp.{encode_array}
use redis_lite.Command.Branches.{err_integer}
use redis_lite.Server.State.{Client, WaitState, Queue, Server, Env, ◌>>=◌}
use redis_lite.Server.Send.{answer, answer_count}

-- `count_caught_up_replicas`: the loop over `replicas_`, which reads every client.
unfoldable pub count_caught_up : ℤ → List ℕ → (ℕ → Option Client) → Option ℕ
count_caught_up target [] clients = some 0
count_caught_up target (r ∷ rs) clients = do
  client ← clients r
  n ← count_caught_up target rs clients
  some (if leb_ℤ target client.ack_offset then suc n else n)

unfoldable pub count_caught_up_replicas : ℤ → Server → Option ℕ
count_caught_up_replicas target s = count_caught_up target s.replicas s.clients

unfoldable pub push_all : Bytes → List (ℕ × Queue) → List (ℕ × Queue)
push_all bytes [] = []
push_all bytes ((c, q) ∷ qs) = (c, record q { pending = q.pending ++ bytes }) ∷ push_all bytes qs

unfoldable pub is_nil : List ℕ → Bool
is_nil [] = true
is_nil (r ∷ rs) = false

-- `propagate_to_replicas`
unfoldable pub propagate_to_replicas : Bytes → Server → Server
propagate_to_replicas bytes s =
    if is_nil s.replicas
    then s
    else record s { repl_queues = push_all bytes s.repl_queues; repl_has_work = true }

abbrev pub getack : List Bytes
getack = codes "REPLCONF" ∷ codes "GETACK" ∷ codes "*" ∷ []

-- `time_point::max()`
abbrev pub never : ℤ
never = pos (2 ^ 63 - 1)

unfoldable pub is_zero : ℤ → Bool
is_zero z = leb_ℤ z (pos 0) && leb_ℤ (pos 0) z

-- Which parked clients a round answers, with the count of their replicas.
abbrev pub Ready : Type 0
Ready = WaitState → ℕ → Bool

-- `caught_up >= it->num_needed`
unfoldable pub enough : Ready
enough w caught_up = leb_ℤ w.num_needed (pos caught_up)

-- `now >= it->deadline`
unfoldable pub past : ℤ → Ready
past now w caught_up = leb_ℤ w.deadline now

-- A client behind `try_send`: if it was removed, so was its element of `pending_waits_`, and the
-- iterator at it is invalid.
unfoldable pub still_there : ℕ → Server → Option Server
still_there c s = s.clients c >>= λ _. some s

module _ (env : Env) where
  -- The loop over `pending_waits_`: `kept` are the elements passed, the list those from `it` on.
  unfoldable pub answer_waits : Ready → List WaitState → List WaitState → Server → Option Server
  answer_waits ready kept [] s = some (record s { pending_waits = kept })
  answer_waits ready kept (w ∷ ws) s = do
    n ← count_caught_up_replicas w.target_offset s
    elim (ready w n) [
      | true ↦ answer_count env n w.client s >>= still_there w.client >>= answer_waits ready kept ws
      | false ↦ answer_waits ready (kept ++ w ∷ []) ws s
    ]

  unfoldable pub resolve_pending_waits : Server → Option Server
  resolve_pending_waits s = answer_waits enough [] s.pending_waits s

  unfoldable pub check_wait_timeouts : Server → Option Server
  check_wait_timeouts s =
      answer_waits (past (env.now s.calls)) [] s.pending_waits (record s { calls = suc s.calls })

  -- `timeout_ms > 0 ? now() + milliseconds(timeout_ms) : time_point::max()`
  unfoldable pub deadline : ℤ → ℤ → ℤ
  deadline now timeout_ms =
      if ltb_ℤ (pos 0) timeout_ms then add_i64 now (mul_i64 timeout_ms (pos 1_000_000)) else never

  -- GETACK to every replica, and the client is parked.
  unfoldable pub park : ℕ → ℤ → ℤ → Server → Server
  park c num_needed timeout_ms s =
      let s' = propagate_to_replicas (encode_array getack) s in
      record s' {
        pending_waits =
            s.pending_waits
            ++ record {
              client = c;
              num_needed = num_needed;
              target_offset = s.master_repl_offset;
              deadline = deadline (env.now s.calls) timeout_ms;
            }
              ∷ [];
        calls = suc s.calls;
      }

  unfoldable pub wait_numbers : ℕ → Option ℤ → Option ℤ → Server → Option Server
  wait_numbers c (some num_needed) (some timeout_ms) s =
      if is_nil s.replicas || is_zero s.master_repl_offset
      then answer_count env (if is_zero s.master_repl_offset then length s.replicas else 0) c s
      else (do
        caught_up ← count_caught_up_replicas s.master_repl_offset s
        if leb_ℤ num_needed (pos caught_up)
            then answer_count env caught_up c s
            else some (park c num_needed timeout_ms s))
  wait_numbers c _ _ s = answer env err_integer c s

  -- `handle_wait`
  unfoldable pub handle_wait : ℕ → List Bytes → Server → Option Server
  handle_wait c (name ∷ replicas ∷ timeout ∷ rest) s =
      wait_numbers c (stoi replicas) (stoll timeout) s
  handle_wait c _ s = some s
