-- ===== src/Server/Deadlines.antt =====
-- The deadlines of the clients parked by WAIT (`check_wait_timeouts` in the loop of `run` of
-- src/server.cpp), from the start of a server on.
use mathlib.Core.Path.{subst}
use redis_lite.Common.{
  ℕ, ◌≡◌, refl, sym, ◌∙◌, ap, false, List, [], ◌∷◌, Option, some, Bytes, All, arith, Bool-cases,
  inl, inr, str_eq,
}
use redis_lite.Common.Int.{ℤ}
use redis_lite.Common.Word.{leb_ℤ}
use redis_lite.Replication.{ReplicationInfo, master}
use redis_lite.Server.State.{WaitState, Server, Env}
use redis_lite.Server.Wait.{past, propagate_to_replicas}
use redis_lite.Server.Replicate.{record_eviction, record_evictions, advance_stream, sweep}
use redis_lite.Server.Role.{start}
use redis_lite.Server.Loop.{Event, on_event, run}
use redis_lite.Server.Quiet.{Unbroken}
use redis_lite.Server.Live.{caught, unanswered}
use redis_lite.Server.Parked.{check_wait_timeouts_exact}
use redis_lite.Server.Safe.{IsSafe}
use redis_lite.Server.Handlers.{replicas-IsLive}
use redis_lite.Server.Changes.{IsPolite}
use redis_lite.Server.Progress.{Reported, run-IsSafe, start-IsSafe}

pending-propagate :
    (bytes : Bytes) (s : Server) → (propagate_to_replicas bytes s).pending_waits ≡ s.pending_waits
unfolding propagate_to_replicas
pending-propagate bytes s = ground arith

pending-record_evictions :
    (names : List Bytes) (s : Server) → (record_evictions names s).pending_waits ≡ s.pending_waits
unfolding record_evictions record_eviction advance_stream
pending-record_evictions [] s = refl
pending-record_evictions (name ∷ names) s = pending-record_evictions names _ ∙ pending-propagate _ _

pending-sweep : (clock : ℕ → ℤ) (s : Server) → (sweep clock s).pending_waits ≡ s.pending_waits
unfolding sweep
pending-sweep clock s = elim (Bool-cases (str_eq s.repl_info.role master)) [
  | inl is_master ↦ rw is_master (pending-record_evictions _ _)
  | inr is_worker ↦ rw is_worker
]

-- A deadline that the clock has not reached.
abbrev pub IsAhead : ℤ → WaitState → Type 0
IsAhead now w = leb_ℤ w.deadline now ≡ false

unanswered-IsAhead :
    (now : ℤ) (counts : ℤ → ℕ) (ws : List WaitState)
    → All (IsAhead now) (unanswered (past now) counts ws)
unfolding past
unanswered-IsAhead now counts [] = tt
unanswered-IsAhead now counts (w ∷ ws) = elim (Bool-cases (leb_ℤ w.deadline now)) [
  | inl due ↦ rw due (unanswered-IsAhead now counts ws)
  | inr ahead ↦ rw ahead (ahead, unanswered-IsAhead now counts ws)
]

-- What a round's end leaves of the parked clients.
round_end-unanswered :
    (env : Env) (clock : ℕ → ℤ) (s : Server)
    → Unbroken env
    → IsSafe s
    → (s' : Server) × (on_event env (Event.round_end clock) s ≡ some s')
      × (s'.pending_waits ≡ unanswered (past (env.now s.calls)) (caught s) s.pending_waits)
unfolding on_event
round_end-unanswered env clock s calm safe =
    let (s1, done, same) =
      check_wait_timeouts_exact env s calm (replicas-IsLive s safe) safe.waits in
    (
      sweep clock s1,
      rw done refl,
      pending-sweep clock s1 ∙ ap (λ (v : Server). v.pending_waits) same,
    )

-- A server that the constructor made handles any list of events of clients that exist and then the
-- end of a round, when no connection breaks under a `send` and no answer of a master makes
-- `std::stoll` throw. Both end; every client that is parked behind the round has its deadline ahead
-- of the clock that the round read, and the round keeps, in their order, all those that were parked
-- before it with a deadline ahead. So a parked client with a deadline is let go by the first round
-- that ends at it or later.
pub round_end-run :
    (env : Env) (port : ℤ) (r : ReplicationInfo) (m : Option (Bytes × ℤ)) (s : Server)
    (es : List Event) (clock : ℕ → ℤ)
    → Unbroken env
    → IsPolite env
    → start env port r m ≡ some s
    → Reported env es s
    → (s1 : Server) × (s2 : Server) × (run env es s ≡ some s1)
      × (on_event env (Event.round_end clock) s1 ≡ some s2)
      × All (IsAhead (env.now s1.calls)) s2.pending_waits
      × (s2.pending_waits ≡ unanswered (past (env.now s1.calls)) (caught s1) s1.pending_waits)
round_end-run env port r m s es clock calm polite started reported =
    let (s1, ran, safe) =
      run-IsSafe env calm polite es s (start-IsSafe env calm polite port r m s started) reported in
    let (s2, done, left) = round_end-unanswered env clock s1 calm safe in
    (
      s1,
      s2,
      ran,
      done,
      subst (All (IsAhead (env.now s1.calls))) (sym left)
          (unanswered-IsAhead (env.now s1.calls) (caught s1) s1.pending_waits),
      left,
    )
