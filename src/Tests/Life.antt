-- ===== src/Tests/Life.antt =====
-- Servers from their start on, and a master with a replica.
use mathlib.Core.Path.{subst}
use redis_lite.Common.{
  ◌≡◌, refl, ℕ, ◌%◌, ◌*◌, ◌++◌, inr, List, [], ◌∷◌, length, some, none, Bytes, codes, true, false,
  All, arith, str_eq, flatten, ◌+◌,
}
use redis_lite.Common.Int.{pos}
use redis_lite.Resp.{encode_array, parse}
use redis_lite.Replication.{master, generate_replid}
use redis_lite.Replication.Replid.{IsDraw, IsHex, generate_replid-IsHex}
use redis_lite.Command.Names.{is_write_command, to_upper}
use redis_lite.Command.Agree.{Alike}
use redis_lite.Server.State.{ClientType, Queue, Server, update, find_queue, some-injective}
use redis_lite.Server.Wait.{
  past, is_nil, propagate_to_replicas, is_zero, getack, handle_wait, count_caught_up,
  count_caught_up_replicas,
}
use redis_lite.Server.Replicate.{name_of, record_write, publish_offset, advance_stream}
use redis_lite.Server.Psync.{resumes, continue_with}
use redis_lite.Server.Handshake.{join, greet, expect}
use redis_lite.Server.Role.{initial, start, same_master, handle_replicaof_set_master}
use redis_lite.Server.Loop.{Event, Received, handle_accept, handle_read, on_event, run}
use redis_lite.Server.Stream.{stream, InStep, record_write-IsNew, with_pending}
use redis_lite.Server.Live.{IsLive, caught, unanswered}
use redis_lite.Server.Safe.{HasType, IsSafe}
use redis_lite.Server.Changes.{IsPolite}
use redis_lite.Server.Revert.{handle_replicaof_set_master-reverted}
use redis_lite.Server.Progress.{Reported}
use redis_lite.Program.{construct, main, main-IsSafe}
use redis_lite.Config.{Config, Parsed, parse_config, repl_info_of}
use redis_lite.Number.{stoi, stoll}
use redis_lite.Server.Deadlines.{IsAhead, round_end-run}
use redis_lite.Server.Follow.{IsFed, reads}
use redis_lite.Server.Drift.{handle_wait-drift}
use redis_lite.Common.Word.{add_i64}
use redis_lite.Server.Converge.{run-Alike}
use redis_lite.Tests.Server.{
  calm, fresh_master, live_master, a_client, set_k, set_bytes, set_encoded,
}
use redis_lite.Tests.Waits.{calm-Unbroken}

calm-IsPolite : IsPolite calm
unfolding join greet expect
calm-IsPolite n messages sys clock r store = (_, refl)

abbrev draws : ℕ → ℕ
draws n = (7 * n) % 16

draws-IsDraw : IsDraw draws
draws-IsDraw n = omega arith

generate_replid-IsHex_example :
    (length (generate_replid draws) ≡ 40)
    × All IsHex (generate_replid draws)
    × (str_eq (generate_replid draws) (codes "?") ≡ false)
generate_replid-IsHex_example = generate_replid-IsHex draws draws-IsDraw

abbrev arguments : List Bytes
arguments = codes "--port" ∷ codes "7000" ∷ []

abbrev config : Config
config = record { port = pos 7000; replicaof = none }

accepted : parse_config arguments ≡ Parsed.ok config
unfolding parse_config stoi str_eq
accepted = refl

abbrev started : Server
started = initial (repl_info_of (generate_replid draws) config) none

constructs : construct calm draws config ≡ some started
unfolding construct start
constructs = refl

starts : start calm (pos 7000) (repl_info_of (generate_replid draws) config) none ≡ some started
unfolding start
starts = refl

-- A write, and a WAIT that nobody can answer yet.
abbrev pipelined : Bytes
pipelined = set_bytes ++ codes "*3\r\n$4\r\nWAIT\r\n$1\r\n1\r\n$3\r\n100\r\n"

abbrev events : List Event
events =
    Event.accepted 7
    ∷ Event.readable 0 (Received.arrived pipelined)
    ∷ Event.round_end (λ n. pos n)
    ∷ []

first_client : IsLive (handle_accept 7 started).clients 0
unfolding handle_accept update initial
first_client = refl

accept_event : (s : Server) → on_event calm (Event.accepted 7) started ≡ some s → IsLive s.clients 0
unfolding on_event
accept_event s e = subst (λ (s : Server). IsLive s.clients 0) (some-injective e) first_client

events-Reported : Reported calm events started
events-Reported = (tt, λ s e. (accept_event s e, λ s' e'. (tt, λ s'' e''. tt)))

main-IsSafe_example : (s' : Server) × (main calm draws events arguments ≡ inr (some s')) × IsSafe s'
main-IsSafe_example =
    main-IsSafe calm draws events arguments config started calm-Unbroken calm-IsPolite accepted
      constructs events-Reported

round_end-run_example :
    (s1 : Server) × (s2 : Server) × (run calm events started ≡ some s1)
    × (on_event calm (Event.round_end (λ n. pos n)) s1 ≡ some s2)
    × All (IsAhead (pos s1.calls)) s2.pending_waits
    × (s2.pending_waits ≡ unanswered (past (pos s1.calls)) (caught s1) s1.pending_waits)
round_end-run_example =
    round_end-run calm (pos 7000) (repl_info_of (generate_replid draws) config) none started events
      (λ n. pos n) calm-Unbroken calm-IsPolite starts events-Reported

-- A master with one client, behind a write.
abbrev joined : Server
joined = handle_accept 9 fresh_master

abbrev fed : Server
fed = record_write set_k joined

fed-InStep : InStep fed 64 0 (encode_array set_k)
fed-InStep =
    record_write-IsNew set_k joined 64 0 (rw set_encoded (omega arith))
      (unfold handle_accept in record { empty = refl; offset = refl; positive = omega arith })

fed-IsSafe : IsSafe fed
unfolding handle_accept record_write publish_offset advance_stream propagate_to_replicas is_nil
    update
fed-IsSafe = record {
  replicas = tt;
  distinct = tt;
  waits = tt;
  queues = tt;
  master_client = tt;
  created = λ d l. ground arith;
}

fed_client : HasType ClientType.regular fed.clients 0
unfolding handle_accept record_write publish_offset advance_stream propagate_to_replicas is_nil
    update
fed_client = refl

known_id : str_eq fed.repl_info.master_replid (codes "?") ≡ false
unfolding handle_accept record_write publish_offset advance_stream propagate_to_replicas is_nil
    str_eq
known_id = refl

another : same_master (codes "host") (pos 1) fed.replicaof ≡ false
unfolding handle_accept record_write publish_offset advance_stream propagate_to_replicas is_nil
    same_master
another = refl

handle_replicaof_set_master-reverted_example :
    (s' : Server) × (handle_replicaof_set_master calm 0 (codes "host") (pos 1) fed ≡ some s')
    × (s'.repl_info.role ≡ master)
    × (s'.repl_info.master_repl_offset ≡ pos 0)
    × (resumes fed.repl_info.master_replid (pos 4) s' ≡ true)
    × (continue_with (pos 4) s' ≡ continue_with (pos 4) fed)
handle_replicaof_set_master-reverted_example =
    handle_replicaof_set_master-reverted calm 0 64 0 4 (encode_array set_k) (codes "host") (pos 1)
      fed calm-Unbroken fed-IsSafe fed_client (λ n host port. refl) another fed-InStep known_id
      (rw set_encoded (omega arith)) (rw set_encoded (omega arith))

abbrev queue : Queue
queue = record { pending = []; draining = []; fd = 9; removed = false }

-- A master in step with its stream, and its replica at the same offset.
abbrev leading : Server
leading = record (record_write set_k live_master) {
  replicas = 2 ∷ [];
  repl_queues = (2, queue) ∷ [];
}

abbrev following : Server
following = record live_master {
  clients = λ c. some (record a_client { type = ClientType.master_conn });
  repl_info = record fresh_master.repl_info { master_repl_offset = leading.master_repl_offset };
}

leading-InStep : InStep leading 64 0 (encode_array set_k)
leading-InStep =
    let h =
      record_write-IsNew set_k live_master 64 0 (rw set_encoded (omega arith))
        (record { empty = refl; offset = refl; positive = omega arith }) in
    record { kept = h.kept; offset = h.offset }

agreeing : Alike leading.store following.store
unfolding record_write publish_offset advance_stream propagate_to_replicas is_nil
agreeing = ((tt, tt), (tt, tt), λ k. refl)

is_leader : str_eq leading.repl_info.role (codes "worker") ≡ false
unfolding record_write publish_offset advance_stream propagate_to_replicas is_nil str_eq
is_leader = refl

live_leader : leading.clients 3 ≡ some a_client
unfolding record_write publish_offset advance_stream propagate_to_replicas is_nil
live_leader = refl

following-IsFed : IsFed ClientType.master_conn following 5 []
unfolding parse
following-IsFed = record {
  conn = record a_client { type = ClientType.master_conn };
  live = refl;
  type = refl;
  buffer = refl;
  incomplete = refl;
}

-- The stream, cut in the middle of the command.
abbrev cut : List Bytes
cut = codes "*3\r\n$3\r\nSE" ∷ codes "T\r\n$1\r\nk\r\n$1\r\nv\r\n" ∷ []

cut_stream : flatten cut ≡ stream (set_k ∷ [])
unfolding encode_array
cut_stream = refl

-- The first bytes of a command wait in the read buffer of the master's client.
abbrev half_read : Server
half_read = record leading {
  clients = λ c. some (record a_client { read_buf = codes "*3\r\n$3\r\nSE" });
}

half_read-IsFed : IsFed ClientType.regular half_read 3 (codes "*3\r\n$3\r\nSE")
unfolding parse stoi
half_read-IsFed = record {
  conn = record a_client { read_buf = codes "*3\r\n$3\r\nSE" };
  live = refl;
  type = refl;
  buffer = refl;
  incomplete = refl;
}

half_read-InStep : InStep half_read 64 0 (encode_array set_k)
half_read-InStep = record { kept = leading-InStep.kept; offset = leading-InStep.offset }

abbrev other_half : List Bytes
other_half = codes "T\r\n$1\r\nk\r\n$1\r" ∷ codes "\nv\r\n" ∷ []

whole_stream : codes "*3\r\n$3\r\nSE" ++ flatten other_half ≡ stream (set_k ∷ [])
unfolding encode_array
whole_stream = refl

run-Alike_example :
    (s' : Server) × (r' : Server) × (run calm (reads 3 other_half) half_read ≡ some s')
    × (find_queue 2 s'.repl_queues ≡ some (with_pending (stream (set_k ∷ [])) queue))
    × (run calm (reads 5 cut) following ≡ some r')
    × Alike s'.store r'.store
    × (r'.repl_info.master_repl_offset ≡ s'.master_repl_offset)
    × IsFed ClientType.regular s' 3 []
    × IsFed ClientType.master_conn r' 5 []
run-Alike_example =
    run-Alike calm calm 3 2 5 64 0 (encode_array set_k) (codes "*3\r\n$3\r\nSE") (set_k ∷ [])
      other_half cut half_read following queue calm-Unbroken calm-Unbroken is_leader half_read-IsFed
      following-IsFed (omega arith) (unfold name_of is_write_command str_eq to_upper in (refl, tt))
      whole_stream cut_stream half_read-InStep (rw set_encoded (omega arith)) refl
      (unfold is_nil in refl) (unfold find_queue in refl) agreeing

leading_offset : leading.master_repl_offset ≡ pos 27
unfolding record_write publish_offset advance_stream propagate_to_replicas is_nil encode_array
    add_i64
leading_offset = refl

written_to : is_zero leading.master_repl_offset ≡ false
unfolding is_zero
written_to = rw leading_offset refl

nobody_yet : count_caught_up_replicas leading.master_repl_offset leading ≡ some 0
unfolding count_caught_up_replicas count_caught_up record_write publish_offset advance_stream
    propagate_to_replicas is_nil encode_array add_i64
nobody_yet = refl

handle_wait-drift_example :
    (s' : Server) × (r' : Server) × (handle_wait calm 3
        (codes "WAIT" ∷ codes "1" ∷ codes "100" ∷ [])
        leading
      ≡ some s')
    × (s'.master_repl_offset ≡ pos 27)
    × (find_queue 2 s'.repl_queues ≡ some (with_pending (encode_array getack) queue))
    × (handle_read calm 5 (Received.arrived (encode_array getack)) following ≡ some r')
    × (r'.repl_info.master_repl_offset ≡ pos (27 + 37))
handle_wait-drift_example =
    handle_wait-drift calm calm 3 2 5 27 (codes "WAIT") (codes "1") (codes "100") [] (pos 1)
      (pos 100) 0 leading following queue calm-Unbroken (unfold stoi in refl) (unfold stoll in refl)
      (unfold is_nil in refl) written_to nobody_yet refl (unfold find_queue in refl) following-IsFed
      leading_offset leading_offset (omega arith)
