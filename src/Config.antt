-- ===== src/Config.antt =====
-- `config.hpp` and `config.cpp`: the command line, and `main.cpp`'s use of it. `std::stoi` is that of
-- Number; the arguments are those behind the program's name.
pub mod Parse
use redis_lite.Common.{
  ℕ, ◌≤◌, ◌≡◌, refl, ◌&&◌, Bool, true, false, List, [], ◌∷◌, Option, none, some, Bytes, codes,
  str_eq, if◌then◌else◌, arith,
}
use redis_lite.Common.Int.{ℤ, pos, negsuc, ◌≤ℤ◌}
use redis_lite.Common.Word.{leb_ℤ}
use redis_lite.Number.{of_ℕ, stoi}
use redis_lite.Number.RoundTrip.{stoi-of_ℕ}
use redis_lite.Replication.{ReplicationInfo, master, worker, no_replid}
use redis_lite.Server.Handshake.{starts_with}

-- `Config`
pub record Config : Type 0 where
  pub port : ℤ
  pub replicaof : Option (Bytes × ℤ)

abbrev pub default_config : Config
default_config = record { port = pos 6379; replicaof = none }

-- The `std::runtime_error`s, by their messages.
pub data ConfigError : Type 0 where
  port_requires_value replicaof_requires_format : ConfigError
  invalid_port invalid_master_port unknown_option : Bytes → ConfigError
  port_out_of_range master_port_out_of_range : ℤ → ConfigError

pub data Parsed : Type 0 where
  ok : Config → Parsed
  err : ConfigError → Parsed

infixl 5 ◌>>=◌
abbrev ◌>>=◌ : Parsed → (Config → Parsed) → Parsed
ok c >>= f = f c
err e >>= f = err e

-- `port < 1 || port > 65535`, negated.
abbrev is_port : ℤ → Bool
is_port z = leb_ℤ (pos 1) z && leb_ℤ z (pos 65535)

set_port : Bytes → Option ℤ → Config → Parsed
set_port text none c = err (invalid_port text)
set_port text (some port) c =
    if is_port port then ok (record c { port = port }) else err (port_out_of_range port)

set_master : Bytes → Bytes → Option ℤ → Config → Parsed
set_master host text none c = err (invalid_master_port text)
set_master host text (some port) c =
    if is_port port
    then ok (record c { replicaof = some (host, port) })
    else err (master_port_out_of_range port)

-- What the argument selects: `--port`, `--replicaof`, or an argument that is passed over.
abbrev select : Bytes → Parsed → Parsed → Parsed → Parsed
select arg on_port on_replicaof other =
    if str_eq arg (codes "--port")
    then on_port
    else if str_eq arg (codes "--replicaof")
    then on_replicaof
    else if starts_with (codes "--") arg
    then err (unknown_option arg)
    else other

-- The loop over the arguments, with what they have set so far.
unfoldable pub parse_args : List Bytes → Config → Parsed
unfolding set_port set_master
parse_args [] c = ok c
parse_args (arg ∷ []) c =
    select arg (err port_requires_value) (err replicaof_requires_format) (ok c)
parse_args (arg ∷ a ∷ []) c =
    let ported = set_port a (stoi a) c in
    let other = parse_args (a ∷ []) c in select arg ported (err replicaof_requires_format) other
parse_args (arg ∷ a ∷ b ∷ rest) c =
    let ported = set_port a (stoi a) c >>= parse_args (b ∷ rest) in
    let mastered = set_master a b (stoi b) c >>= parse_args rest in
    let other = parse_args (a ∷ b ∷ rest) c in select arg ported mastered other

unfoldable pub parse_config : List Bytes → Parsed
unfolding parse_args
parse_config args = parse_args args default_config

abbrev host_of : Option (Bytes × ℤ) → Bytes
host_of none = []
host_of (some (host, port)) = host

abbrev port_of : Option (Bytes × ℤ) → ℤ
port_of none = pos 0
port_of (some (host, port)) = port

abbrev role_of : Option (Bytes × ℤ) → Bytes
role_of none = master
role_of (some (host, port)) = worker

-- The metadata that `main` starts the server with.
unfoldable pub repl_info_of : Bytes → Config → ReplicationInfo
repl_info_of replid c = record {
  role = role_of c.replicaof;
  master_replid = replid;
  master_repl_offset = pos 0;
  master_host = host_of c.replicaof;
  master_port = port_of c.replicaof;
  master_replid2 = no_replid;
  second_repl_offset = negsuc 0;
}

abbrev pub IsPort : ℤ → Type 0
IsPort z = (pos 1 ≤ℤ z) × (z ≤ℤ pos 65535)

abbrev pub MasterIsPort : Option (Bytes × ℤ) → Type 0
MasterIsPort none = Unit
MasterIsPort (some (host, port)) = IsPort port

abbrev pub IsUsable : Config → Type 0
IsUsable c = IsPort c.port × MasterIsPort c.replicaof
