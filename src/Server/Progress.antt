-- ===== src/Server/Progress.antt =====
-- The event loop (`handle_read` and `run` of src/server.cpp) never uses a deleted client and never
-- ends in an exception, as long as no connection breaks and the masters' answers parse.
use mathlib.Core.Path.{subst}
use redis_lite.Common.{
  ℕ, suc, ◌≡◌, refl, sym, ◌∙◌, ap, true, false, List, [], ◌∷◌, ◌++◌, Option, some, none, Bytes,
  str_eq, Bool, Bool-cases, inl, inr, length,
}
use redis_lite.Common.Int.{ℤ}
use redis_lite.Pipeline.{pump, process}
use redis_lite.Replication.{ReplicationInfo, master}
use redis_lite.Server.State.{Server, Env, ◌>>=◌, change, update, some-injective}
use redis_lite.Server.Wait.{past}
use redis_lite.Server.Replicate.{record_eviction, record_evictions, advance_stream, sweep}
use redis_lite.Server.Role.{initial, start, unless_refused}
use redis_lite.Server.Loop.{
  Received, Event, handle_accept, on_command, handle_bytes, handle_read, with_read_buf, on_event,
  run,
}
use redis_lite.Server.Quiet.{Unbroken, try_send_quiet}
use redis_lite.Server.Live.{IsLive, client_of, caught, unanswered}
use redis_lite.Server.Parked.{check_wait_timeouts_exact}
use redis_lite.Server.Batch.{send_answers_quiet}
use redis_lite.Server.Safe.{keys, IsSafe, IsSafe-view, Sound-made}
use redis_lite.Server.Removal.{remove_client-IsSafe}
use redis_lite.Server.Handlers.{Ends, replicas-IsLive, propagate-IsSafe}
use redis_lite.Server.Peers.{updated-IsSafe, update_here, unanswered-All}
use redis_lite.Server.Commands.{pump-keeps, on_command-Ends}
use redis_lite.Server.Changes.{IsPolite, connect-Connects}

record_evictions-IsSafe :
    (names : List Bytes) (s : Server) → IsSafe s → IsSafe (record_evictions names s)
unfolding record_evictions record_eviction advance_stream
record_evictions-IsSafe [] s h = h
record_evictions-IsSafe (name ∷ names) s h =
    record_evictions-IsSafe names _ (propagate-IsSafe _ _ h)

sweep-IsSafe : (clock : ℕ → ℤ) (s : Server) → IsSafe s → IsSafe (sweep clock s)
unfolding sweep
sweep-IsSafe clock s h = elim (Bool-cases (str_eq s.repl_info.role master)) [
  | inl is_master ↦ rw is_master (record_evictions-IsSafe _ _ h)
  | inr is_worker ↦ rw is_worker h
]

handle_accept-IsSafe : (fd : ℕ) (s : Server) → IsSafe s → IsSafe (handle_accept fd s)
unfolding handle_accept
handle_accept-IsSafe fd s h =
    Sound-made s.clients s.replicas s.pending_waits (keys s.repl_queues) s.master_client s.created _
      h

initial-IsSafe : (r : ReplicationInfo) (m : Option (Bytes × ℤ)) → IsSafe (initial r m)
unfolding initial
initial-IsSafe r m = record {
  replicas = tt;
  distinct = tt;
  waits = tt;
  queues = tt;
  master_client = tt;
  created = λ d l. cc l;
}

-- An event of a client that exists.
abbrev pub Possible : Event → Server → Type 0
Possible (Event.accepted fd) s = Unit
Possible (Event.readable c received) s = IsLive s.clients c
Possible (Event.writable c) s = IsLive s.clients c
Possible (Event.round_end clock) s = Unit

module _ (env : Env) where
  -- Every event is one of a client that exists when the event comes.
  abbrev pub Reported : List Event → Server → Type 0
  Reported [] s = Unit
  Reported (e ∷ es) s = Possible e s × ((s' : Server) → on_event env e s ≡ some s' → Reported es s')

module _ (env : Env) (calm : Unbroken env) (polite : IsPolite env) where
  handle_bytes-Ends :
      (c : ℕ) (chunk : Bytes) (s : Server)
      → IsSafe s
      → IsLive s.clients c
      → (s' : Server) × (handle_bytes env c chunk s ≡ some s') × IsSafe s'
  unfolding handle_bytes change process
  handle_bytes-Ends c chunk s safe live =
      let (client, there) = client_of s.clients c live in
      let buf = client.read_buf ++ chunk in
      let (s1, done1, safe1, live1) =
        pump-keeps (Ends c) (on_command env c) (on_command-Ends env calm polite c)
          (suc (length buf)) (some s) buf (s, refl, safe, live) in
      let rest = (pump (on_command env c) (suc (length buf)) (some s) buf).1 in
      let (client1, there1) = client_of s1.clients c live1 in
      let s2 : Server = record s1 {
        clients = update c (some (with_read_buf rest client1)) s1.clients;
      } in
      let (s3, sent, same) =
        send_answers_quiet env c (with_read_buf rest client1) s2 calm
          (update_here c _ s1.clients) in
      (
        s3,
        rw (there, done1, there1) sent,
        IsSafe-view s2 s3 same
            (updated-IsSafe c client1 (with_read_buf rest client1) s1 safe1 there1 refl),
      )

  handle_read-Ends :
      (c : ℕ) (received : Received) (s : Server)
      → IsSafe s
      → IsLive s.clients c
      → (s' : Server) × (handle_read env c received s ≡ some s') × IsSafe s'
  unfolding handle_read
  handle_read-Ends c (Received.arrived chunk) s safe live = handle_bytes-Ends c chunk s safe live
  handle_read-Ends c Received.closed s safe live =
      let (s', done, gone, safe') = remove_client-IsSafe c s safe live in (s', done, safe')
  handle_read-Ends c Received.would_block s safe live = (s, refl, safe)
  handle_read-Ends c Received.broken s safe live =
      let (s', done, gone, safe') = remove_client-IsSafe c s safe live in (s', done, safe')

  -- The end of a round.
  round_end-Ends :
      (clock : ℕ → ℤ) (s : Server)
      → IsSafe s
      → (s' : Server) × (on_event env (Event.round_end clock) s ≡ some s') × IsSafe s'
  unfolding on_event
  round_end-Ends clock s safe =
      let (s1, done, same) =
        check_wait_timeouts_exact env s calm (replicas-IsLive s safe) safe.waits in
      let counts = unanswered (past (env.now s.calls)) (caught s) s.pending_waits in
      (
        sweep clock s1,
        rw done refl,
        sweep-IsSafe clock s1 (
            IsSafe-view (record s { pending_waits = counts }) s1 same
              (record {
                replicas = safe.replicas;
                distinct = safe.distinct;
                waits =
                    unanswered-All _ (past (env.now s.calls)) (caught s) s.pending_waits safe.waits;
                queues = safe.queues;
                master_client = safe.master_client;
                created = safe.created;
              })),
      )

  -- One event of a client that exists.
  pub on_event-Ends :
      (e : Event) (s : Server)
      → IsSafe s
      → Possible e s
      → (s' : Server) × (on_event env e s ≡ some s') × IsSafe s'
  on_event-Ends (Event.accepted fd) s safe possible =
      (handle_accept fd s, unfold on_event in refl, handle_accept-IsSafe fd s safe)
  on_event-Ends (Event.readable c received) s safe possible =
      let (s', done, safe') = handle_read-Ends c received s safe possible in
      (s', unfold on_event in done, safe')
  on_event-Ends (Event.writable c) s safe possible =
      let (client, there) = client_of s.clients c possible in
      let (s', client', done, there', same) = try_send_quiet env c client s calm there in
      (s', unfold on_event in done, IsSafe-view s s' same safe)
  on_event-Ends (Event.round_end clock) s safe possible = round_end-Ends clock s safe

  pub run-IsSafe :
      (es : List Event) (s : Server)
      → IsSafe s
      → Reported env es s
      → (s' : Server) × (run env es s ≡ some s') × IsSafe s'
  unfolding run
  run-IsSafe [] s safe reported = (s, refl, safe)
  run-IsSafe (e ∷ es) s safe reported =
      let (s1, done, safe1) = on_event-Ends e s safe reported.0 in
      let (s2, rest, safe2) = run-IsSafe es s1 safe1 (reported.1 s1 done) in
      (s2, rw done rest, safe2)

  connected-IsSafe :
      (connected : Bool) (s s' : Server)
      → unless_refused (connected, s) ≡ some s'
      → IsSafe s
      → IsSafe s'
  unfolding unless_refused
  connected-IsSafe true s s' e safe = subst IsSafe (some-injective e) safe
  connected-IsSafe false s s' e safe = cc e

  pub start-IsSafe :
      (port : ℤ) (r : ReplicationInfo) (m : Option (Bytes × ℤ)) (s : Server)
      → start env port r m ≡ some s
      → IsSafe s
  unfolding start
  start-IsSafe port r none s e = subst IsSafe (some-injective e) (initial-IsSafe r none)
  start-IsSafe port r (some m) s e =
      let (connected, s1, done, safe1, kept) =
        connect-Connects env calm polite port m (initial r (some m)) (unfold initial in refl)
          (initial-IsSafe r (some m)) in
      connected-IsSafe connected s1 s (sym (ap (λ o. o >>= unless_refused) done) ∙ e) safe1

  -- From the constructor on.
  pub start-run :
      (port : ℤ) (r : ReplicationInfo) (m : Option (Bytes × ℤ)) (s : Server) (es : List Event)
      → start env port r m ≡ some s
      → Reported env es s
      → (s' : Server) × (run env es s ≡ some s') × IsSafe s'
  start-run port r m s es e reported = run-IsSafe es s (start-IsSafe port r m s e) reported
