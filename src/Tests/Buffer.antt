-- ===== src/Tests/Buffer.antt =====
-- The replication backlog.
use redis_lite.Common.{
  some, none, if◌then◌else◌, ◌+◌, ◌-◌, ◌≡◌, refl, List, [], ◌∷◌, Bytes, length, flatten, arith, leb,
  ◌&&◌, true, drop,
}
use redis_lite.Common.Int.{pos}
use redis_lite.Common.Word.{add_i64, sub_i64}
use redis_lite.Backlog.{
  Backlog, create, feed, advance, contains, read, set_start, copy_in, copy_out, data_start,
}
use redis_lite.Backlog.Replay.{
  asked, feed_all, contains-feed_all, read-feed_all, read-feed_all-set_start,
}

abbrev pieces : List Bytes
pieces = (1 ∷ 2 ∷ 3 ∷ []) ∷ (4 ∷ 5 ∷ []) ∷ (6 ∷ 7 ∷ 8 ∷ []) ∷ []

-- A buffer of four bytes that has wrapped twice.
read_wrapped : read (pos 106) (feed_all pieces 100 (create 4)) ≡ 7 ∷ 8 ∷ []
unfolding read feed_all feed advance create copy_in copy_out data_start add_i64 sub_i64
read_wrapped = refl

contains-feed_all_example :
    contains (pos 103) (feed_all pieces 100 (create 4))
    ≡ (leb (100 + (length (flatten pieces) - 4)) 103 && leb 103 (100 + length (flatten pieces)))
contains-feed_all_example = contains-feed_all 4 100 103 pieces (omega arith) (cc) (omega arith)

contained_106 : contains (pos 106) (feed_all pieces 100 (create 4)) ≡ true
unfolding contains feed_all feed advance create copy_in add_i64 sub_i64
contained_106 = refl

read-feed_all_example :
    read (pos 106) (feed_all pieces 100 (create 4)) ≡ drop (106 - 100) (flatten pieces)
read-feed_all_example =
    read-feed_all 4 100 106 pieces (omega arith) (cc) (omega arith) contained_106

-- A buffer of four bytes with bytes of an older stream in it.
abbrev piece : Bytes
piece = 1 ∷ 2 ∷ 3 ∷ []

abbrev used : Backlog
used = record {
  buffer = 9 ∷ 9 ∷ 9 ∷ 9 ∷ [];
  capacity = 4;
  write_pos = 3;
  start_offset = pos 500;
  end_offset = pos 504;
  has_data = true;
}

read-feed_all-set_start_example :
    asked 102 (feed_all (piece ∷ []) 100 (set_start (pos 100) used)) ≡ (
      if leb (100 + (length (flatten (piece ∷ [])) - 4)) 102
        && leb 102 (100 + length (flatten (piece ∷ [])))
      then some (drop (102 - 100) (flatten (piece ∷ [])))
      else none)
read-feed_all-set_start_example =
    read-feed_all-set_start used 100 102 (piece ∷ []) refl (omega arith) (omega arith)
