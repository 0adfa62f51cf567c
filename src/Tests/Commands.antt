-- ===== src/Tests/Commands.antt =====
-- Commands.
use redis_lite.Common.{
  ◌+◌, ◌-◌, ◌*◌, ◌≤◌, ◌≡◌, ◌⊎◌, refl, false, [], ◌∷◌, codes, arith, none, some, str_eq, leb,
  if◌then◌else◌,
}
use redis_lite.Common.Int.{pos, negsuc}
use redis_lite.Number.{stoll}
use redis_lite.Resp.{encode_bulk_string, encode_null_bulk_string}
use redis_lite.Store
use redis_lite.Store.{Store}
use redis_lite.Store.Access.{IsValid}
use redis_lite.Map.{names_key}
use redis_lite.Replication.{ReplicationInfo, master, worker, no_replid}
use redis_lite.Command.Names.{Kind, kind_of, to_upper, is_write_command}
use redis_lite.Command.Branches.{set_options, int_reply, readonly}
use redis_lite.Command.Execute.{execute, rejected}
use redis_lite.Command.Writes.{execute_keeps, execute_replica}
use redis_lite.Command.AllOrNothing.{Written, Untouched, execute-set_writes}
use redis_lite.Command.Keys.{get-set_expiring, execute-del}

abbrev as_master : ReplicationInfo
as_master = record {
  role = master;
  master_replid = codes "id";
  master_repl_offset = pos 0;
  master_host = [];
  master_port = pos 0;
  master_replid2 = no_replid;
  second_repl_offset = negsuc 0;
}

abbrev as_worker : ReplicationInfo
as_worker = record as_master { role = worker }

abbrev nothing : Store
nothing = record { entries = [] }

-- Names are read in any case.
kinds :
    (kind_of (to_upper (codes "sEt")) ≡ Kind.set)
    × (kind_of (to_upper (codes "gett")) ≡ Kind.unknown)
unfolding kind_of to_upper str_eq
kinds = (refl, refl)

is_set : kind_of (to_upper (codes "set")) ≡ Kind.set
unfolding kind_of to_upper str_eq
is_set = refl

is_get : kind_of (to_upper (codes "Get")) ≡ Kind.get
unfolding kind_of to_upper str_eq
is_get = refl

is_del : kind_of (to_upper (codes "DEL")) ≡ Kind.del
unfolding kind_of to_upper str_eq
is_del = refl

set_accepted : rejected (to_upper (codes "set")) as_master false ≡ false
unfolding rejected str_eq
set_accepted = refl

del_accepted : rejected (to_upper (codes "DEL")) as_master false ≡ false
unfolding rejected str_eq
del_accepted = refl

set_on_worker :
    execute (pos 0) (codes "SET" ∷ codes "k" ∷ codes "v" ∷ []) nothing as_worker false
    ≡ (readonly, nothing)
unfolding execute rejected is_write_command str_eq
set_on_worker = refl

px_5 : set_options (codes "px" ∷ codes "5" ∷ []) none ≡ some (some (pos 5))
unfolding set_options to_upper str_eq stoll
px_5 = refl

ping_no_write : is_write_command (to_upper (codes "ping")) ≡ false
unfolding is_write_command str_eq
ping_no_write = refl

execute_keeps_example : (execute (pos 0) (codes "ping" ∷ []) nothing as_master false).1 ≡ nothing
execute_keeps_example =
    execute_keeps (pos 0) (codes "ping") [] nothing as_master false ping_no_write

execute_replica_example :
    (execute (pos 0) (codes "set" ∷ codes "k" ∷ codes "v" ∷ []) nothing as_worker false).1 ≡ nothing
execute_replica_example =
    execute_replica (pos 0) (codes "set" ∷ codes "k" ∷ codes "v" ∷ []) nothing as_worker refl

-- A negative time to live.
execute-set_writes_example :
    let options = codes "k" ∷ codes "v" ∷ codes "px" ∷ codes "-5" ∷ [] in
    Written
      (pos 0)
      options
      nothing
      (execute (pos 0) (codes "set" ∷ options) nothing as_master false)
    ⊎ Untouched nothing (execute (pos 0) (codes "set" ∷ options) nothing as_master false)
execute-set_writes_example =
    execute-set_writes (pos 0) (codes "set") (codes "k" ∷ codes "v" ∷ codes "px" ∷ codes "-5" ∷ [])
      nothing as_master false is_set

get-set_expiring_example :
    (execute
      (pos 5_000_000)
      (codes "Get" ∷ codes "k" ∷ [])
      (execute
        (pos 7)
        (codes "set" ∷ codes "k" ∷ codes "v" ∷ codes "px" ∷ codes "5" ∷ [])
        nothing
        as_master
        false).1
      as_master
      false).0
    ≡ (if str_eq (codes "k") (codes "k")
        then if leb (7 + 5 * 1_000_000) 5_000_000
          then encode_null_bulk_string
          else encode_bulk_string (codes "v")
        else (execute (pos 5_000_000) (codes "Get" ∷ codes "k" ∷ []) nothing as_master false).0)
get-set_expiring_example =
    get-set_expiring 7 5 5_000_000 (codes "set") (codes "Get") (codes "k") (codes "v") (codes "k")
      (codes "px" ∷ codes "5" ∷ []) [] nothing as_master as_master false false is_set is_get
      set_accepted px_5 (omega arith) (omega arith)

abbrev one : Store
one = record { entries = (codes "k", record { value = codes "v"; expiry = none }) ∷ [] }

execute-del_example :
    let (answer, s') =
      execute (pos 0) (codes "DEL" ∷ codes "k" ∷ codes "x" ∷ []) one as_master false in
    (answer ≡ int_reply (Store.size one - Store.size s'))
    × (Store.size s' ≤ Store.size one)
    × (Store.get (pos 1) (codes "k") s' ≡ (
        if names_key (codes "k" ∷ codes "x" ∷ []) (codes "k")
        then none
        else Store.get (pos 1) (codes "k") one))
    × IsValid s'
execute-del_example =
    execute-del (pos 0) (pos 1) (codes "DEL") (codes "k") (codes "k") (codes "x" ∷ []) one as_master
      false is_del del_accepted (omega arith)
