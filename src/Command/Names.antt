-- ===== src/Command/Names.antt =====
-- The names of the commands (src/command.cpp): case folding, the dispatch, and which are writes.
use redis_lite.Common.{ℕ, ◌-◌, Bool, ◌&&◌, ◌||◌, map, Bytes, codes, str_eq, leb, if◌then◌else◌}

-- `::toupper` in the C locale.
unfoldable pub upper : ℕ → ℕ
upper c = if leb b'a' c && leb c b'z' then c - 32 else c

unfoldable pub to_upper : Bytes → Bytes
unfolding upper
to_upper s = map upper s

unfoldable pub is_write_command : Bytes → Bool
unfolding to_upper
is_write_command cmd =
    let upper = to_upper cmd in str_eq upper (codes "SET") || str_eq upper (codes "DEL")

-- The commands, in the order in which their names are tested.
pub data Kind : Type 0 where
  ping echo info set del get role replconf psync replicaof wait unknown : Kind

unfoldable pub kind_of : Bytes → Kind
kind_of cmd =
    if str_eq cmd (codes "PING")
    then Kind.ping
    else if str_eq cmd (codes "ECHO")
    then Kind.echo
    else if str_eq cmd (codes "INFO")
    then Kind.info
    else if str_eq cmd (codes "SET")
    then Kind.set
    else if str_eq cmd (codes "DEL")
    then Kind.del
    else if str_eq cmd (codes "GET")
    then Kind.get
    else if str_eq cmd (codes "ROLE")
    then Kind.role
    else if str_eq cmd (codes "REPLCONF")
    then Kind.replconf
    else if str_eq cmd (codes "PSYNC")
    then Kind.psync
    else if str_eq cmd (codes "REPLICAOF")
    then Kind.replicaof
    else if str_eq cmd (codes "WAIT")
    then Kind.wait
    else Kind.unknown
