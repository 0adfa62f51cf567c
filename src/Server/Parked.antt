-- ===== src/Server/Parked.antt =====
-- Which parked clients a round takes out (`resolve_pending_waits`, `check_wait_timeouts` and
-- `handle_replica_read` of src/server.cpp), as long as no connection breaks.
use redis_lite.Common.{
  ℕ, suc, ◌≡◌, refl, ◌∙◌, ap, List, [], ◌∷◌, ◌++◌, Option, some, Bytes, codes, arith, Bool-cases,
  inl, inr, All, append_assoc, append-nil,
}
use redis_lite.Common.Int.{ℤ}
use redis_lite.Number.{of_ℕ}
use redis_lite.Server.State.{Client, WaitState, Server, Env, change, update, ◌>>=◌}
use redis_lite.Server.Send.{answer_count}
use redis_lite.Server.Wait.{
  Ready, past, count_caught_up_replicas, answer_waits, resolve_pending_waits, check_wait_timeouts,
  still_there,
}
use redis_lite.Server.Replicate.{handle_replica_read, acked, with_ack}
use redis_lite.Server.Quiet.{view, Unbroken, answer_quiet}
use redis_lite.Server.Live.{
  IsLive, client_of, caught, unanswered, counted, count-view, WaitsLive, waits-view,
}

-- A state `s` whose counts are `counts`.
abbrev pub Counts : Server → (ℤ → ℕ) → Type 0
Counts s counts = (target : ℤ) → count_caught_up_replicas target s ≡ some (counts target)

-- One parked client answered; the iterator stays valid.
pub answered_one :
    (env : Env) (n : ℕ) (w : WaitState) (s : Server)
    → Unbroken env
    → IsLive s.clients w.client
    → (s' : Server) × (answer_count env n w.client s >>= still_there w.client ≡ some s')
      × (view s' ≡ view s)
unfolding answer_count still_there
answered_one env n w s calm live =
    let (client, there) = client_of s.clients w.client live in
    let (s1, client1, sent, there1, same) =
      answer_quiet env (codes ":" ++ (of_ℕ n ++ codes "\r\n")) w.client client s calm there in
    (s1, rw (sent, there1) refl, same)

-- A round over the parked clients, when no connection breaks and no client in the round is deleted:
-- it ends, and leaves exactly those parked that are not ready, in their order.
pub answer_waits_lem :
    (env : Env) (ready : Ready) (counts : ℤ → ℕ) (ws kept : List WaitState) (s : Server)
    → Unbroken env
    → Counts s counts
    → WaitsLive s ws
    → (s' : Server) × (answer_waits env ready kept ws s ≡ some s')
      × (view s' ≡ view (record s { pending_waits = kept ++ unanswered ready counts ws }))
unfolding answer_waits
answer_waits_lem env ready counts [] kept s calm count live =
    (record s { pending_waits = kept }, refl, rw append-nil refl)
answer_waits_lem env ready counts (w ∷ ws) kept s calm count live =
    elim (Bool-cases (ready w (counts w.target_offset))) [
      | inl now ↦
          let (s1, sent, same1) = answered_one env (counts w.target_offset) w s calm live.0 in
          let (s', done, same) =
            answer_waits_lem env ready counts ws kept s1 calm
              (λ t. count-view s s1 t same1 ∙ count t) (waits-view s s1 ws same1 live.1) in
          (
            s',
            rw (count w.target_offset, now, sent) done,
            same
                ∙ ap
                    (λ (v : Server). record v {
                      pending_waits = kept ++ unanswered ready counts ws;
                    })
                    same1
                ∙ rw now refl,
          )
      | inr later ↦
          let (s', done, same) =
            answer_waits_lem env ready counts ws (kept ++ w ∷ []) s calm count live.1 in
          (s', rw (count w.target_offset, later) done, same ∙ rw (later, append_assoc) refl)
    ]

abbrev pub AllLive : Server → List ℕ → Type 0
AllLive s cs = All (IsLive s.clients) cs

pub IsLive-update :
    (c d : ℕ) (client : Client) (clients : ℕ → Option Client)
    → IsLive clients d
    → IsLive (update c (some client) clients) d
unfolding update
IsLive-update c d client clients h = ground arith

pub replicas-update :
    (c : ℕ) (client : Client) (clients : ℕ → Option Client) (cs : List ℕ)
    → All (IsLive clients) cs
    → All (IsLive (update c (some client) clients)) cs
replicas-update c client clients [] h = tt
replicas-update c client clients (d ∷ cs) h =
    (IsLive-update c d client clients h.0, replicas-update c client clients cs h.1)

pub waits-update :
    (c : ℕ) (client : Client) (clients : ℕ → Option Client) (ws : List WaitState)
    → All (λ w. IsLive clients w.client) ws
    → All (λ w. IsLive (update c (some client) clients) w.client) ws
waits-update c client clients [] h = tt
waits-update c client clients (w ∷ ws) h =
    (IsLive-update c w.client client clients h.0, waits-update c client clients ws h.1)

-- The server with one replica's acknowledgement.
abbrev pub acknowledged : ℕ → ℤ → Client → Server → Server
acknowledged c offset client s = record s {
  clients = update c (some (with_ack offset client)) s.clients;
}

pub handle_acked :
    (env : Env) (c : ℕ) (args : List Bytes) (offset : ℤ) (client : Client) (s : Server)
    → acked args ≡ some offset
    → s.clients c ≡ some client
    → handle_replica_read env c args s ≡ resolve_pending_waits env (acknowledged c offset client s)
unfolding handle_replica_read change
handle_acked env c args offset client s ack there = rw (ack, handle_replica_read, there) refl

-- A round over the deadlines, when no connection breaks and no replica and no parked client has
-- been deleted: it ends; exactly the parked clients whose deadline has passed are taken out, the
-- others stay in their order; and but for the buffers of clients nothing else changes.
pub check_wait_timeouts_exact :
    (env : Env) (s : Server)
    → Unbroken env
    → AllLive s s.replicas
    → WaitsLive s s.pending_waits
    → (s' : Server) × (check_wait_timeouts env s ≡ some s')
      × (view s'
          ≡ view (record s {
            pending_waits = unanswered (past (env.now s.calls)) (caught s) s.pending_waits;
          }))
unfolding check_wait_timeouts
check_wait_timeouts_exact env s calm replicas waits =
    let s1 = record s { calls = suc s.calls } in
    answer_waits_lem env (past (env.now s.calls)) (caught s) s.pending_waits [] s1 calm
      (λ t. unfold count_caught_up_replicas in counted s t replicas) waits
