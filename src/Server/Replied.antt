-- ===== src/Server/Replied.antt =====
-- What an acknowledgement of a replica makes the server answer to the clients parked by WAIT
-- (`handle_replica_read` and `resolve_pending_waits` of src/server.cpp).
use redis_lite.Common.{ℕ, List, [], ◌∷◌, ◌++◌, Bytes, if◌then◌else◌, ◌==◌}
use redis_lite.Common.Int.{ℤ, pos, ltb_ℤ}
use redis_lite.Server.State.{WaitState, Server}
use redis_lite.Server.Reached.{not_below}
use redis_lite.Server.Answers.{reply}

-- The answers to the client `d`: for each of its waits that is reached, the number of offsets not
-- below its target.
abbrev pub replies : List ℤ → ℕ → List WaitState → Bytes
replies offsets d [] = []
replies offsets d (w ∷ ws) =
    let rest = replies offsets d ws in
    let n = not_below w.target_offset offsets in
    if ltb_ℤ (pos n) w.num_needed then rest else if w.client == d then reply n ++ rest else rest
