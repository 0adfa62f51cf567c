-- ===== src/Tests/Snapshot.antt =====
-- Snapshots.
use redis_lite.Common.{
  Bytes, ◌≡◌, ◌≢◌, refl, false, [], ◌∷◌, codes, arith, some, none, str_eq, get_or,
}
use redis_lite.Common.Int.{pos}
use Prim.Native.Nat.{bit_xor}
use redis_lite.Map.{find}
use redis_lite.Store
use redis_lite.Store.{Store, is_expired}
use redis_lite.Store.Access.{IsValid}
use redis_lite.Number.{of_ℤ}
use redis_lite.Rdb.Crc.{crc64_table}
use redis_lite.Rdb.Codec.{
  write_length, read_string, special_string, int_string, of_taken, take_bytes, of_le, signed,
}
use redis_lite.Rdb.Save.{Clocks, serialize}
use redis_lite.Rdb.Load.{load, load_loop}
use redis_lite.Rdb.Rounds.{Runs, load_loop-Runs}
use redis_lite.Rdb.Lookup.{arrives, unexpired, find-load-serialize}

-- The master's store: `a` has expired, `b` expires 8 ms after the snapshot, `c` never.
abbrev saved : Store
saved = record {
  entries =
      (codes "a", record { value = codes "1"; expiry = some (pos 50) })
      ∷ (codes "b", record { value = codes "2"; expiry = some (pos 9_000_000) })
      ∷ (codes "c", record { value = codes "3"; expiry = none })
      ∷ [];
}

abbrev at_save : Clocks
at_save = record {
  now_sec = pos 1_700_000_000;
  steady_now = pos 1_000_000;
  sys_now_ms = pos 1_700_000_000_000;
}

abbrev nothing_loaded : Store
nothing_loaded = record { entries = [] }

two_byte_length : write_length 700 ≡ 0x42 ∷ 0xBC ∷ []
unfolding write_length
two_byte_length = refl

int8_string : read_string (0xC0 ∷ 0xFF ∷ 7 ∷ []) ≡ some (codes "-1", 7 ∷ [])
unfolding read_string special_string int_string of_taken take_bytes of_le signed of_ℤ
int8_string = refl

-- The table's entry for 7 is not the sum of those for 3 and 4, as it is in every CRC table.
table_not_linear :
    bit_xor (get_or crc64_table 3 0) (get_or crc64_table 4 0) ≢ get_or crc64_table 7 0
table_not_linear = omega arith

too_short : load (pos 0) (λ _. pos 0) (codes "REDIS") saved ≡ (false, nothing_loaded)
unfolding load Store.clear
too_short = refl

saved-IsValid : IsValid saved
unfolding str_eq
saved-IsValid = ((refl, (refl, tt)), ((refl, tt), (tt, tt)))

find-load-serialize_example :
    find
      (codes "b")
      (load
        (pos 1_700_000_000_003)
        (λ _. pos 77)
        (serialize at_save saved)
        nothing_loaded).1.entries
    ≡ arrives at_save
        (pos 1_700_000_000_003)
        (pos 77)
        (unexpired (pos 1_000_000) (find (codes "b") saved.entries))
find-load-serialize_example =
    find-load-serialize at_save (pos 1_700_000_000_003) (pos 77) saved nothing_loaded (codes "b")
      saved-IsValid (omega arith) (omega arith)

-- A key without its value, and no end of the data.
abbrev broken : Bytes
broken = 0 ∷ 1 ∷ 107 ∷ 5 ∷ 1 ∷ []

load_loop-Runs_example :
    Runs (pos 0) (λ n. pos n) broken none saved (load_loop 5 (pos 0) (λ n. pos n) broken none saved)
load_loop-Runs_example = load_loop-Runs 5 (pos 0) (λ n. pos n) broken none saved (omega arith)
