-- ===== src/Command/Writes.antt =====
-- Which commands change the store.
use redis_lite.Common.{
  ◌≡◌, refl, Bool, true, false, List, [], ◌∷◌, Bytes, str_eq_iff, Bool-cases, inl, inr, ◌∙◌, sym,
  ap, arith, if◌then◌else◌,
}
use redis_lite.Common.Int.{ℤ}
use redis_lite.Store.{Store}
use redis_lite.Replication.{ReplicationInfo, worker}
use redis_lite.Command.Names.{to_upper, is_write_command, Kind, kind_of}
use redis_lite.Command.Branches.{Outcome}
use redis_lite.Command.Execute.{execute, rejected, run}
use redis_lite.Command.Fold.{is_write_kind, is_write_command_lem}

run_keeps :
    (k : Kind) (now : ℤ) (name : Bytes) (rest : List Bytes) (s : Store) (r : ReplicationInfo)
    → is_write_kind k ≡ false
    → (run k now name rest s r).1 ≡ s
unfolding run
run_keeps Kind.set now name rest s r h = cc
run_keeps Kind.del now name rest s r h = cc
run_keeps _ now name rest s r h = refl

-- The store behind a command, on either side of the test for rejection.
abbrev pub branch_store : Bool → Outcome → Store → Store
branch_store rejected out s = if rejected then s else out.1

pub execute_store :
    (now : ℤ) (name : Bytes) (rest : List Bytes) (s : Store) (r : ReplicationInfo)
    (from_master : Bool)
    → (execute now (name ∷ rest) s r from_master).1
      ≡ branch_store
          (rejected (to_upper name) r from_master)
          (run (kind_of (to_upper name)) now name rest s r)
          s
unfolding execute
execute_store now name rest s r from_master = ground arith

-- `command::execute` leaves the store as it was for every name but SET and DEL, in any spelling, with
-- any arguments, in any role and whoever sends it. What the server does behind it, as a resync for
-- REPLICAOF, is not part of it.
pub execute_keeps :
    (now : ℤ) (name : Bytes) (rest : List Bytes) (s : Store) (r : ReplicationInfo)
    (from_master : Bool)
    → is_write_command (to_upper name) ≡ false
    → (execute now (name ∷ rest) s r from_master).1 ≡ s
execute_keeps now name rest s r from_master h =
    let other =
      run_keeps (kind_of (to_upper name)) now name rest s r (sym (is_write_command_lem name) ∙ h) in
    execute_store now name rest s r from_master ∙ ground (arith, other)

rejected-replica :
    (cmd : Bytes) (r : ReplicationInfo)
    → r.role ≡ worker
    → is_write_command cmd ≡ true
    → rejected cmd r false ≡ true
unfolding rejected
rejected-replica cmd r h write = ground (arith, str_eq_iff r.role worker)

-- In the role of a replica and for a client that is not the connection to the master,
-- `command::execute` leaves the store as it was, whatever the name, its spelling and the arguments
-- are: SET and DEL are rejected, and no other name writes. What the server does behind it, as a resync
-- for REPLICAOF, is not part of it.
pub execute_replica :
    (now : ℤ) (args : List Bytes) (s : Store) (r : ReplicationInfo)
    → r.role ≡ worker
    → (execute now args s r false).1 ≡ s
execute_replica now [] s r h = unfold execute in refl
execute_replica now (name ∷ rest) s r h = elim (Bool-cases (is_write_command (to_upper name))) [
  | inl write ↦
      execute_store now name rest s r false
      ∙ ap (λ b. branch_store b (run (kind_of (to_upper name)) now name rest s r) s)
          (rejected-replica (to_upper name) r h write)
  | inr other ↦ execute_keeps now name rest s r false other
]

pub rejected-other :
    (name : Bytes) (r : ReplicationInfo) (from_master : Bool)
    → is_write_kind (kind_of (to_upper name)) ≡ false
    → rejected (to_upper name) r from_master ≡ false
unfolding rejected
rejected-other name r from_master h = ground (arith, is_write_command_lem name)
