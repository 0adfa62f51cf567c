-- ===== src/Backlog.antt =====
-- `replication_backlog.hpp`: the circular buffer of the last bytes of the replication stream.
-- Offsets are `int64_t`. Positions and lengths are `size_t`; they are at most `capacity_` plus the
-- length of a string in memory, so their sums do not reach 2 ^ 64 and are written as they stand.
pub mod Window
pub mod Copy
pub mod Ring
pub mod Stream
pub mod Replay
use redis_lite.Common.{
  ℕ, zero, suc, ◌+◌, ◌-◌, ◌*◌, ◌%◌, min, Bool, true, false, ◌&&◌, not, List, [], ◌∷◌, ◌++◌, Bytes,
  length, take, drop, get_or, replicate, if◌then◌else◌,
}
use redis_lite.Common.Int.{ℤ, pos, ltb_ℤ}
use redis_lite.Common.Word.{add_i64, sub_i64, to_u64, leb_ℤ}

pub record Backlog : Type 0 where
  pub buffer : Bytes
  pub capacity : ℕ
  pub write_pos : ℕ
  pub start_offset : ℤ
  pub end_offset : ℤ
  pub has_data : Bool

-- The constructor.
unfoldable pub create : ℕ → Backlog
create capacity = record {
  buffer = replicate capacity 0;
  capacity = capacity;
  write_pos = 0;
  start_offset = pos 0;
  end_offset = pos 0;
  has_data = false;
}

-- The default argument of the constructor.
abbrev pub default_capacity : ℕ
default_capacity = 1024 * 1024

-- `std::memcpy(&buffer[at], src, n)` for the `n` bytes of the last argument.
unfoldable pub overwrite : Bytes → ℕ → Bytes → Bytes
overwrite [] at src = []
overwrite (b ∷ buffer) zero [] = b ∷ buffer
overwrite (b ∷ buffer) zero (c ∷ src) = c ∷ overwrite buffer zero src
overwrite (b ∷ buffer) (suc at) src = b ∷ overwrite buffer at src

module _ (capacity : ℕ) where
  -- The loop of `feed`. The bytes left to copy are the list; each round copies at least one.
  unfoldable pub copy_in : ℕ → Bytes → ℕ → Bytes → Bytes × ℕ
  unfolding overwrite
  copy_in zero buffer write_pos src = (buffer, write_pos)
  copy_in (suc fuel) buffer write_pos [] = (buffer, write_pos)
  copy_in (suc fuel) buffer write_pos (c ∷ src) =
      let chunk = min (length (c ∷ src)) (capacity - write_pos) in
      copy_in fuel (overwrite buffer write_pos (take chunk (c ∷ src)))
        ((write_pos + chunk) % capacity) (drop chunk (c ∷ src))

  -- The loop of `read`: `left` bytes from `at` on.
  unfoldable pub copy_out : ℕ → Bytes → ℕ → ℕ → Bytes → Bytes
  copy_out zero buffer at left result = result
  copy_out (suc fuel) buffer at zero result = result
  copy_out (suc fuel) buffer at (suc left) result =
      let chunk = min (suc left) (capacity - at) in
      copy_out fuel buffer ((at + chunk) % capacity) (suc left - chunk)
        (result ++ take chunk (drop at buffer))

-- The offsets behind the copy, and `start_offset_` moved up when old bytes were overwritten.
unfoldable pub advance : Backlog → ℤ → ℕ → ℤ → Backlog
advance b global_offset size start =
    let end = add_i64 global_offset (pos size) in
    let limit = pos b.capacity in
    record b {
      start_offset = if ltb_ℤ limit (sub_i64 end start) then sub_i64 end limit else start;
      end_offset = end;
      has_data = true;
    }

unfoldable pub feed : Bytes → ℤ → Backlog → Backlog
feed [] global_offset b = b
feed (c ∷ bytes) global_offset b =
    let (buffer, write_pos) =
      copy_in b.capacity (length (c ∷ bytes)) b.buffer b.write_pos (c ∷ bytes) in
    advance (record b { buffer = buffer; write_pos = write_pos }) global_offset (length (c ∷ bytes))
      (if b.has_data then b.start_offset else global_offset)

unfoldable pub contains : ℤ → Backlog → Bool
contains offset b = b.has_data && (leb_ℤ b.start_offset offset && leb_ℤ offset b.end_offset)

-- Where the oldest byte stands.
unfoldable pub data_start : Backlog → ℕ
data_start b =
    let data_len = sub_i64 b.end_offset b.start_offset in
    (b.write_pos + b.capacity - to_u64 data_len % b.capacity) % b.capacity

unfoldable pub read : ℤ → Backlog → Bytes
read from_offset b =
    let bytes_to_read = to_u64 (sub_i64 b.end_offset from_offset) in
    let skip = to_u64 (sub_i64 from_offset b.start_offset) in
    let read_start = (data_start b + skip) % b.capacity in
    if leb_ℤ b.end_offset from_offset
    then []
    else copy_out b.capacity bytes_to_read b.buffer read_start bytes_to_read []

unfoldable pub set_start : ℤ → Backlog → Backlog
set_start offset b = record b {
  start_offset = offset;
  end_offset = offset;
  write_pos = 0;
  has_data = true;
}
