-- ===== src/Replication.antt =====
-- `replication_info.hpp`: the replication metadata of a server, and its identifiers.
pub mod Replid
use redis_lite.Common.{
  ℕ, zero, suc, ◌+◌, List, [], ◌∷◌, Option, none, some, Bytes, codes, get_elem?, replicate,
}
use redis_lite.Common.Int.{ℤ}

pub record ReplicationInfo : Type 0 where
  pub role : Bytes
  pub master_replid : Bytes
  pub master_repl_offset : ℤ
  pub master_host : Bytes
  pub master_port : ℤ
  pub master_replid2 : Bytes
  pub second_repl_offset : ℤ

abbrev pub master : Bytes
master = codes "master"

abbrev pub worker : Bytes
worker = codes "worker"

abbrev pub no_replid : Bytes
no_replid = replicate 40 b'0'

-- `hex`
abbrev pub hex : Bytes
hex = codes "0123456789abcdef"

-- `hex[d]`; the array ends with a zero byte, and no draw goes beyond it.
abbrev pub or_terminator : Option ℕ → ℕ
or_terminator none = 0
or_terminator (some c) = c

unfoldable pub hex_digit : ℕ → ℕ
hex_digit d = or_terminator (get_elem? hex d)

-- The loop over the characters of `id`; `dist n` is the draw number `n`.
unfoldable pub draw : (ℕ → ℕ) → ℕ → Bytes → Bytes
draw dist n [] = []
draw dist n (c ∷ id) = hex_digit (dist n) ∷ draw dist (suc n) id

unfoldable pub generate_replid : (ℕ → ℕ) → Bytes
generate_replid dist = draw dist 0 (replicate 40 b'0')
