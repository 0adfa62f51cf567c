-- ===== src/Tests/Waits.antt =====
-- Parked clients and the writer thread.
use redis_lite.Common.{
  leb, length, arith, if◌then◌else◌, ◌≡◌, refl, List, [], ◌∷◌, ◌++◌, Bytes, codes, false,
}
use redis_lite.Common.Int.{ℤ, pos}
use redis_lite.Number.{of_ℕ}
use redis_lite.Server.State.{Env, Server, Sent}
use redis_lite.Server.Send.{is_empty, flush}
use redis_lite.Server.Quiet.{Unbroken}
use redis_lite.Server.Reached.{short_of}
use redis_lite.Server.Replied.{replies}
use redis_lite.Server.Flushing.{IsEnd, IsRest, flush_ends}
use redis_lite.Server.Writer.{
  Link, Move, move, push, send_once, collect, moves, writer_round, appended_by, given,
}
use redis_lite.Server.Writer.Delivery.{Willing, writer_round-moves}
use redis_lite.Tests.Server.{calm, live_master}

pub calm-Unbroken : Unbroken calm
calm-Unbroken n fd bytes h = cc h

-- Two replicas, and two clients that wait for one and for two of them.
abbrev waiting : Server
waiting = record live_master {
  replicas = 1 ∷ 2 ∷ [];
  master_repl_offset = pos 50;
  pending_waits =
      record { client = 3; num_needed = pos 1; target_offset = pos 50; deadline = pos 9 }
      ∷ record { client = 4; num_needed = pos 2; target_offset = pos 50; deadline = pos 0 }
      ∷ [];
}

abbrev ack_50 : List Bytes
ack_50 = codes "REPLCONF" ∷ codes "ACK" ∷ codes "50" ∷ []

-- One of the two is left.
abbrev acked_offsets : List ℤ
acked_offsets = pos 50 ∷ pos 0 ∷ []

left_parked :
    short_of acked_offsets waiting.pending_waits
    ≡ record { client = 4; num_needed = pos 2; target_offset = pos 50; deadline = pos 0 } ∷ []
left_parked = refl

-- The same with sockets that have no room: the first of the two is told 1, the other nothing.
abbrev full : Env
full = record calm { send = λ n fd bytes. Sent.again }

told_one :
    (replies acked_offsets 3 waiting.pending_waits ≡ codes ":1\r\n")
    × (replies acked_offsets 4 waiting.pending_waits ≡ [])
unfolding of_ℕ
told_one = (refl, refl)

abbrev link : Link
link = record {
  queue = record { pending = 1 ∷ 2 ∷ []; draining = 3 ∷ 4 ∷ []; fd = 9; removed = false };
  wire = [];
}

-- A write is appended while the writer is sending.
abbrev order : List Move
order =
    Move.sent_once (Sent.sent 0)
    ∷ Move.pushed (5 ∷ 6 ∷ [])
    ∷ Move.collected
    ∷ Move.sent_once Sent.again
    ∷ Move.pushed (7 ∷ [])
    ∷ []

calm-Willing : Willing calm
calm-Willing n fd bytes = (100_000, refl)

not_removed : (moves order link).queue.removed ≡ false
unfolding moves move push send_once collect is_empty
not_removed = refl

writer_round-moves_example :
    ((writer_round calm 0 (moves order link)).wire ≡ given link ++ appended_by order)
    × ((writer_round calm 0 (moves order link)).queue.draining ≡ [])
    × ((writer_round calm 0 (moves order link)).queue.pending ≡ [])
writer_round-moves_example = writer_round-moves calm 0 order link calm-Willing tt not_removed

-- A socket that takes two bytes at a time, until its third call.
abbrev slow : Env
slow = record calm { send = λ n fd bytes. if leb n 1 then Sent.sent 1 else Sent.again }

flush_ends_example :
    (flush slow 9 4 (codes "abcdef") 0 ≡ flush slow (length (codes "abcdef")) 4 (codes "abcdef") 0)
    × IsEnd slow 4 (flush slow 9 4 (codes "abcdef") 0)
    × IsRest (codes "abcdef") (flush slow 9 4 (codes "abcdef") 0)
flush_ends_example = flush_ends slow 9 4 (codes "abcdef") 0 (omega arith)
