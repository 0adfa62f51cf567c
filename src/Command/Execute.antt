-- ===== src/Command/Execute.antt =====
-- `command::execute` (src/command.cpp): what the server answers to one command, and what the
-- command does to the store. An empty answer leaves the command to the server.
use redis_lite.Common.{Bool, ◌&&◌, not, List, [], ◌∷◌, Bytes, codes, str_eq, if◌then◌else◌}
use redis_lite.Common.Int.{ℤ}
use redis_lite.Store.{Store}
use redis_lite.Replication.{ReplicationInfo, worker}
use redis_lite.Command.Names.{Kind, kind_of, to_upper, is_write_command}
use redis_lite.Command.Branches.{
  Outcome, pong, readonly, echo, info, set, del, get, role, replconf, replicaof, wait, err_unknown,
}

unfoldable pub err_no_command : Bytes
err_no_command = codes "-ERR no command\r\n"

-- The branch of a command, with the arguments behind its name.
unfoldable pub run : Kind → ℤ → Bytes → List Bytes → Store → ReplicationInfo → Outcome
run Kind.ping now name rest s r = (pong, s)
run Kind.echo now name rest s r = (echo rest, s)
run Kind.info now name rest s r = (info rest r, s)
run Kind.set now name rest s r = set now rest s
run Kind.del now name rest s r = del rest s
run Kind.get now name rest s r = (get now rest s, s)
run Kind.role now name rest s r = (role r, s)
run Kind.replconf now name rest s r = (replconf rest r, s)
run Kind.psync now name rest s r = ([], s)
run Kind.replicaof now name rest s r = (replicaof rest, s)
run Kind.wait now name rest s r = (wait rest, s)
run Kind.unknown now name rest s r = (err_unknown name, s)

-- A write that a client sends to a replica.
unfoldable pub rejected : Bytes → ReplicationInfo → Bool → Bool
rejected cmd r from_master = not from_master && (str_eq r.role worker && is_write_command cmd)

-- `now` is the reading of `steady_clock` that SET and GET make.
unfoldable pub execute : ℤ → List Bytes → Store → ReplicationInfo → Bool → Outcome
execute now [] s r from_master = (err_no_command, s)
execute now (name ∷ rest) s r from_master =
    let cmd = to_upper name in
    if rejected cmd r from_master then (readonly, s) else run (kind_of cmd) now name rest s r
