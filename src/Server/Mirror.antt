-- ===== src/Server/Mirror.antt =====
-- The commands of a master's stream at a replica (`handle_master_read` of src/server.cpp), next to the
-- same commands at the master.
use redis_lite.Common.{
  ℕ, suc, ◌+◌, ◌<◌, ◌^◌, ◌≡◌, refl, ◌∙◌, ap, true, false, List, [], ◌∷◌, some, Bytes, codes, length,
  length-append, All, arith, str_eq,
}
use redis_lite.Common.Int.{ℤ, pos}
use redis_lite.Common.Word.{add_i64, add_i64-pos}
use redis_lite.Resp.{encode_array}
use redis_lite.Pipeline.Chunks.{sent, handle_all}
use redis_lite.Replication.{ReplicationInfo, worker}
use redis_lite.Command.Names.{to_upper, is_write_command}
use redis_lite.Command.Execute.{execute, rejected}
use redis_lite.Command.Agree.{Alike, execute-Alike}
use redis_lite.Server.State.{ClientType, Client, Server, Env}
use redis_lite.Server.Wait.{propagate_to_replicas}
use redis_lite.Server.Replicate.{
  name_of, is_getack, handle_master_read, record_write, advance_stream, publish_offset,
}
use redis_lite.Server.Loop.{dispatch, is_master_conn, on_command}
use redis_lite.Server.Stream.{stream}
use redis_lite.Server.Writes.{IsWrite, applied, apply_all, other_name}

-- One write of the stream at a replica.
abbrev pub followed : Env → List Bytes → Server → Server
followed env args s = record s {
  store = (execute (env.now s.calls) args s.store s.repl_info true).1;
  repl_info = record s.repl_info {
    master_repl_offset = add_i64 s.repl_info.master_repl_offset (pos (length (encode_array args)));
  };
  calls = suc s.calls;
}

abbrev pub follow_all : Env → List (List Bytes) → Server → Server
follow_all env [] s = s
follow_all env (args ∷ cmds) s = follow_all env cmds (followed env args s)

-- A write is no GETACK.
is_getack-write : (args : List Bytes) → IsWrite args → is_getack args ≡ false
unfolding is_getack name_of
is_getack-write [] h = refl
is_getack-write (name ∷ []) h = refl
is_getack-write (name ∷ sub ∷ rest) h =
    let other =
      other_name (to_upper name) (codes "REPLCONF") (unfold is_write_command str_eq in refl) h in
    rw other refl

on_command-followed :
    (env : Env) (m : ℕ) (args : List Bytes) (client : Client) (s : Server)
    → IsWrite args
    → s.clients m ≡ some client
    → client.type ≡ ClientType.master_conn
    → on_command env m (some s) (sent args) ≡ some (followed env args s)
unfolding on_command dispatch is_master_conn handle_master_read
on_command-followed env m args client s write live conn =
    rw (live, conn, is_getack-write args write) (rw live refl)

pub clients-follow_all :
    (env : Env) (cmds : List (List Bytes)) (s : Server)
    → (follow_all env cmds s).clients ≡ s.clients
clients-follow_all env [] s = refl
clients-follow_all env (args ∷ cmds) s = clients-follow_all env cmds (followed env args s)

pub handle_all-followed :
    (env : Env) (m : ℕ) (cmds : List (List Bytes)) (client : Client) (s : Server)
    → All IsWrite cmds
    → s.clients m ≡ some client
    → client.type ≡ ClientType.master_conn
    → handle_all (on_command env m) (some s) cmds ≡ some (follow_all env cmds s)
handle_all-followed env m [] client s writes live conn = refl
handle_all-followed env m (args ∷ cmds) client s (write, writes) live conn =
    ap (λ o. handle_all (on_command env m) o cmds)
      (on_command-followed env m args client s write live conn)
    ∙ handle_all-followed env m cmds client (followed env args s) writes live conn

-- What the record of a write leaves alone.
store-record_write : (args : List Bytes) (s : Server) → (record_write args s).store ≡ s.store
unfolding record_write advance_stream publish_offset propagate_to_replicas
store-record_write args s = ground arith

pub role-record_write :
    (args : List Bytes) (s : Server) → (record_write args s).repl_info.role ≡ s.repl_info.role
unfolding record_write advance_stream publish_offset propagate_to_replicas
role-record_write args s = ground arith

accepted :
    (cmd : Bytes) (r : ReplicationInfo)
    → str_eq r.role worker ≡ false
    → rejected cmd r false ≡ false
unfolding rejected
accepted cmd r h = rw h refl

nameless : ¬ IsWrite []
unfolding name_of is_write_command to_upper str_eq
nameless h = cc h

-- Both ends of a stream.
pub stores-Alike :
    (env env' : Env) (cmds : List (List Bytes)) (s r : Server)
    → All IsWrite cmds
    → str_eq s.repl_info.role worker ≡ false
    → Alike s.store r.store
    → Alike (apply_all env cmds s).store (follow_all env' cmds r).store
stores-Alike env env' [] s r writes is_master h = h
stores-Alike env env' ([] ∷ cmds) s r (write, writes) is_master h = absurd (nameless write)
stores-Alike env env' ((name ∷ rest) ∷ cmds) s r (write, writes) is_master h =
    let args = name ∷ rest in
    let both =
      execute-Alike (env.now s.calls) (env'.now r.calls) name rest s.store r.store s.repl_info
        r.repl_info (unfold name_of in write) (accepted (to_upper name) s.repl_info is_master) h in
    stores-Alike env env' cmds (applied env args s) (followed env' args r) writes
      (ap (λ role. str_eq role worker) (role-record_write args _) ∙ is_master)
      (rw store-record_write both)

add_i64_regroup :
    (z : ℤ) (a b o : ℕ) → z ≡ pos o → o + (a + b) < 2 ^ 63 → add_i64 z (pos a) ≡ pos (o + a)
add_i64_regroup z a b o e h = rw e (add_i64-pos o a (omega arith))

pub offset-follow_all :
    (env : Env) (cmds : List (List Bytes)) (r : Server) (o : ℕ)
    → r.repl_info.master_repl_offset ≡ pos o
    → o + length (stream cmds) < 2 ^ 63
    → (follow_all env cmds r).repl_info.master_repl_offset ≡ pos (o + length (stream cmds))
offset-follow_all env [] r o e h = e ∙ ap pos (omega arith)
offset-follow_all env (args ∷ cmds) r o e h =
    let size = length-append (encode_array args) (stream cmds) in
    offset-follow_all env cmds (followed env args r) (o + length (encode_array args))
      (add_i64_regroup _ (length (encode_array args)) (length (stream cmds)) o e
        (omega (arith, size)))
      (omega (arith, size))
    ∙ ap pos (omega (arith, size))
