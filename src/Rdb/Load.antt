-- ===== src/Rdb/Load.antt =====
-- `rdb::load` (src/rdb.cpp). The result is whether it returned without throwing, and the store as
-- it is then: an error leaves the keys loaded so far.
use redis_lite.Common.{
  ℕ, zero, suc, Bool, true, false, [], ◌∷◌, Option, none, some, Bytes, codes, length, take, drop,
  str_eq, ltb, ◌==◌, if◌then◌else◌,
}
use redis_lite.Common.Int.{ℤ, pos}
use redis_lite.Common.Word.{sub_i64, mul_i64, to_i64, leb_ℤ}
use redis_lite.Store
use redis_lite.Store.{Store}
use redis_lite.Rdb.Codec.{read_length, read_string, read_le64, read_le32}
use redis_lite.Rdb.Save.{
  opcode_aux, opcode_selectdb, opcode_resizedb, opcode_expiretime_ms, opcode_expiretime, opcode_eof,
  type_string,
}

-- What one opcode does: throw, return, or go on at a cursor, with `pending_expiry` and the store.
pub data Step : Type 0 where
  fail : Store → Step
  finish : Store → Step
  next : Bytes → Option ℤ → Store → Step

-- A value that is read and ignored.
unfoldable pub skipped : Option (Bytes × Bytes) → Option Bytes
skipped none = none
skipped (some (s, rest)) = some rest

unfoldable pub skipped_length : Option (ℕ × Bytes) → Option Bytes
skipped_length none = none
skipped_length (some (n, rest)) = some rest

unfoldable pub go_on : Option Bytes → Option ℤ → Store → Step
go_on none pending s = Step.fail s
go_on (some rest) pending s = Step.next rest pending s

unfoldable pub skip_string : Option Bytes → Option Bytes
skip_string none = none
skip_string (some rest) = skipped (read_string rest)

unfoldable pub skip_length : Option Bytes → Option Bytes
skip_length none = none
skip_length (some rest) = skipped_length (read_length rest)

unfoldable pub expire_ms : Option (ℕ × Bytes) → Store → Step
expire_ms none s = Step.fail s
expire_ms (some (n, rest)) s = Step.next rest (some (to_i64 n)) s

unfoldable pub expire_sec : Option (ℕ × Bytes) → Store → Step
expire_sec none s = Step.fail s
expire_sec (some (n, rest)) s = Step.next rest (some (mul_i64 (pos n) (pos 1000))) s

-- The key is stored with what remains of its time to live, if anything does. `now` is the reading
-- of `steady_clock` that `Store::set` makes.
unfoldable pub store_entry : ℤ → ℤ → Bytes → Bytes → Option ℤ → Store → Store
store_entry sys_now_ms now key val none s = Store.set now key val none s
store_entry sys_now_ms now key val (some pending) s =
    let remaining = sub_i64 pending sys_now_ms in
    if leb_ℤ remaining (pos 0) then s else Store.set now key val (some remaining) s

unfoldable pub load_value : ℤ → ℤ → Bytes → Option (Bytes × Bytes) → Option ℤ → Store → Step
load_value sys_now_ms now key none pending s = Step.fail s
load_value sys_now_ms now key (some (val, rest)) pending s =
    Step.next rest none (store_entry sys_now_ms now key val pending s)

unfoldable pub load_entry : ℤ → ℤ → Option (Bytes × Bytes) → Option ℤ → Store → Step
load_entry sys_now_ms now none pending s = Step.fail s
load_entry sys_now_ms now (some (key, rest)) pending s =
    load_value sys_now_ms now key (read_string rest) pending s

-- The `switch`, with the bytes behind the opcode.
unfoldable pub step : ℤ → ℤ → ℕ → Bytes → Option ℤ → Store → Step
step sys_now_ms now opcode rest pending s =
    if opcode == opcode_aux
    then go_on (skip_string (skip_string (some rest))) pending s
    else if opcode == opcode_selectdb
    then go_on (skip_length (some rest)) pending s
    else if opcode == opcode_resizedb
    then go_on (skip_length (skip_length (some rest))) pending s
    else if opcode == opcode_expiretime_ms
    then expire_ms (read_le64 rest) s
    else if opcode == opcode_expiretime
    then expire_sec (read_le32 rest) s
    else if opcode == opcode_eof
    then Step.finish s
    else if opcode == type_string
    then load_entry sys_now_ms now (read_string rest) pending s
    else Step.fail s

-- `while (p < end)`. `clock n` is the reading of `steady_clock` when `n` bytes are left.
unfoldable pub load_loop : ℕ → ℤ → (ℕ → ℤ) → Bytes → Option ℤ → Store → Bool × Store
load_loop zero sys_now_ms clock rest pending s = (true, s)
load_loop (suc fuel) sys_now_ms clock [] pending s = (true, s)
load_loop (suc fuel) sys_now_ms clock (opcode ∷ rest) pending s =
    elim (step sys_now_ms (clock (length rest)) opcode rest pending s) [
      | Step.fail s' ↦ (false, s')
      | Step.finish s' ↦ (true, s')
      | Step.next rest' pending' s' ↦ load_loop fuel sys_now_ms clock rest' pending' s'
    ]

-- Each round takes at least one byte, so the number of bytes is fuel enough.
unfoldable pub load : ℤ → (ℕ → ℤ) → Bytes → Store → Bool × Store
load sys_now_ms clock bytes s =
    if ltb (length bytes) 9
    then (false, Store.clear s)
    else if str_eq (take 5 (take 9 bytes)) (codes "REDIS")
    then load_loop (length bytes) sys_now_ms clock (drop 9 bytes) none (Store.clear s)
    else (false, Store.clear s)
