-- ===== src/Server/Writes.antt =====
-- One write of a client (SET or DEL) in the loop of `handle_read` of src/server.cpp.
use redis_lite.Common.{
  ℕ, suc, ◌+◌, ◌<◌, ◌^◌, ◌≡◌, refl, sym, ◌∙◌, ap, true, false, List, [], ◌∷◌, ◌++◌, some, Option,
  Bytes, codes, length, arith, str_eq, str_eq_iff, append-nil, append_assoc, length-append,
  Bool-cases, inl, inr,
}
use redis_lite.Resp.{encode_array}
use redis_lite.Pipeline.Chunks.{sent}
use redis_lite.Command.Names.{is_write_command}
use redis_lite.Command.Execute.{execute}
use redis_lite.Server.State.{ClientType, Client, Server, Env, append, appended, change, update}
use redis_lite.Server.Wait.{propagate_to_replicas}
use redis_lite.Server.Replicate.{name_of, track, record_write, advance_stream, publish_offset}
use redis_lite.Server.Loop.{on_request, dispatch, is_master_conn, on_command}
use redis_lite.Server.Stream.{stream, InStep, record_write-InStep}
use redis_lite.Server.Quiet.{blanks, blank-update}

-- SET or DEL, in any spelling.
abbrev pub IsWrite : List Bytes → Type 0
IsWrite args = is_write_command (name_of args) ≡ true

-- One write: executed on the store, then recorded in the stream.
abbrev pub applied : Env → List Bytes → Server → Server
applied env args s = record_write args (record s {
  store = (execute (env.now s.calls) args s.store s.repl_info false).1;
  calls = suc s.calls;
})

abbrev pub apply_all : Env → List (List Bytes) → Server → Server
apply_all env [] s = s
apply_all env (args ∷ cmds) s = apply_all env cmds (applied env args s)

-- The server without the clients' buffers.
abbrev pub faced : Server → Server
faced s = record s { clients = blanks s.clients }

faced-record_write :
    (args : List Bytes) (s : Server) → faced (record_write args s) ≡ record_write args (faced s)
unfolding record_write advance_stream publish_offset propagate_to_replicas
faced-record_write args s = ground arith

pub faced-apply_all :
    (env : Env) (cmds : List (List Bytes)) (s : Server)
    → faced (apply_all env cmds s) ≡ apply_all env cmds (faced s)
faced-apply_all env [] s = refl
faced-apply_all env (args ∷ cmds) s =
    faced-apply_all env cmds (applied env args s)
    ∙ ap (apply_all env cmds) (faced-record_write args _)

clients-record_write : (args : List Bytes) (s : Server) → (record_write args s).clients ≡ s.clients
unfolding record_write advance_stream publish_offset propagate_to_replicas
clients-record_write args s = ground arith

pub InStep-apply_all :
    (env : Env) (cmds : List (List Bytes)) (s : Server) (cap g : ℕ) (w : Bytes)
    → g + length (w ++ stream cmds) < 2 ^ 63
    → InStep s cap g w
    → InStep (apply_all env cmds s) cap g (w ++ stream cmds)
InStep-apply_all env [] s cap g w small h = rw append-nil h
InStep-apply_all env (args ∷ cmds) s cap g w small h =
    let d = encode_array args in
    rw (← append_assoc) (
      InStep-apply_all env cmds (applied env args s) cap g (w ++ d) (rw append_assoc small) (
        record_write-InStep args _ cap g w
          (omega (
            arith,
            length-append w d,
            length-append w (d ++ stream cmds),
            length-append d (stream cmds),
          ))
          (record { kept = h.kept; offset = h.offset })))

-- A name that is not that of a write.
pub other_name :
    (name text : Bytes)
    → is_write_command text ≡ false
    → is_write_command name ≡ true
    → str_eq name text ≡ false
other_name name text h k = elim (Bool-cases (str_eq name text)) [
  | inl same ↦ cc (ap is_write_command ((str_eq_iff name text).0 same))
  | inr other ↦ other
]

-- The answer to a write, and the write recorded.
on_request-write :
    (env : Env) (c : ℕ) (args : List Bytes) (response : Bytes) (client : Client) (s : Server)
    → IsWrite args
    → s.clients c ≡ some client
    → on_request env c args response s
      ≡ some (
          record_write args
            (record s { clients = update c (some (appended response client)) s.clients }))
unfolding on_request track append change
on_request-write env c args response client s write live =
    rw
      (
        other_name (name_of args) (codes "WAIT") (unfold is_write_command str_eq in refl) write,
        other_name (name_of args) (codes "REPLICAOF") (unfold is_write_command str_eq in refl)
            write,
        other_name (name_of args) (codes "PSYNC") (unfold is_write_command str_eq in refl) write,
        live,
        write,
      )
      refl

-- The client behind a write.
abbrev pub answered : Env → List Bytes → Client → Server → Client
answered env args client s =
    appended (execute (env.now s.calls) args s.store s.repl_info false).0 client

-- The server behind the handling of one write.
abbrev pub handled : Env → ℕ → List Bytes → Client → Server → Server
handled env c args client s = record_write args (record s {
  store = (execute (env.now s.calls) args s.store s.repl_info false).1;
  calls = suc s.calls;
  clients = update c (some (answered env args client s)) s.clients;
})

update_hit : (c : ℕ) (o : Option Client) (clients : ℕ → Option Client) → update c o clients c ≡ o
unfolding update
update_hit c o clients = ground arith

pub live-handled :
    (env : Env) (c : ℕ) (args : List Bytes) (client : Client) (s : Server)
    → (handled env c args client s).clients c ≡ some (answered env args client s)
live-handled env c args client s =
    ap (λ (h : ℕ → Option Client). h c) (clients-record_write args _) ∙ update_hit c _ s.clients

pub on_command-write :
    (env : Env) (c : ℕ) (args : List Bytes) (client : Client) (s : Server)
    → IsWrite args
    → s.clients c ≡ some client
    → client.type ≡ ClientType.regular
    → on_command env c (some s) (sent args) ≡ some (handled env c args client s)
unfolding on_command dispatch is_master_conn
on_command-write env c args client s write live regular =
    rw (live, regular)
      (rw
        (
          on_request-write env c args (execute (env.now s.calls) args s.store s.repl_info false).0
              client
              (record s {
                store = (execute (env.now s.calls) args s.store s.repl_info false).1;
                calls = suc s.calls;
              })
              write live,
          live-handled env c args client s,
        )
        (ap (λ t. some (handled env c args (record client { type = t }) s)) regular))

pub faced-handled :
    (env : Env) (c : ℕ) (args : List Bytes) (client : Client) (s : Server)
    → s.clients c ≡ some client
    → faced (handled env c args client s) ≡ faced (applied env args s)
faced-handled env c args client s live =
    faced-record_write args _
    ∙ ap
        (λ (h : ℕ → Option Client). record_write args (record s {
          store = (execute (env.now s.calls) args s.store s.repl_info false).1;
          calls = suc s.calls;
          clients = h;
        }))
        (blank-update c client (answered env args client s) s.clients live refl)
    ∙ sym (faced-record_write args _)
