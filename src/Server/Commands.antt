-- ===== src/Server/Commands.antt =====
-- A command of a client (`handle_read` of src/server.cpp): its handler ends, and keeps the references
-- of the server, as long as no connection breaks and the masters' answers parse.
use redis_lite.Common.{
  ℕ, zero, suc, refl, ap, List, Option, some, Bytes, codes, ◌==◌, ◌&&◌, str_eq, Bool-cases, inl,
  inr,
}
use redis_lite.Resp.{ParseResult, parse}
use redis_lite.Pipeline.{pump}
use redis_lite.Command.Names.{is_write_command}
use redis_lite.Command.Execute.{execute}
use redis_lite.Server.State.{ClientType, Server, Env, ◌>>=◌}
use redis_lite.Server.Send.{is_empty}
use redis_lite.Server.Replicate.{name_of, track, record_write}
use redis_lite.Server.Loop.{on_request, dispatch, is_master_conn, on_command}
use redis_lite.Server.Quiet.{Unbroken}
use redis_lite.Server.Live.{client_of}
use redis_lite.Server.Safe.{type_of, HasType, IsSafe, typed-IsLive}
use redis_lite.Server.Handlers.{Ends, Keeps-Ends, record_write-Keeps, handle_wait-Keeps}
use redis_lite.Server.Peers.{
  handle_psync-Ends, handle_master_read-Keeps, append-Keeps, handle_replica_read-Keeps,
}
use redis_lite.Server.Changes.{IsPolite, handle_replicaof-Keeps}

-- The rule of the loop over the commands: what one command keeps, the loop keeps.
pub pump-keeps {ℓ κ} :
    {S : Type ℓ} (P : S → Type κ) (handle : S → ParseResult → S)
    → ((s : S) (r : ParseResult) → P s → P (handle s r))
    → (fuel : ℕ) (s : S) (buf : Bytes) → P s
    → P (pump handle fuel s buf).0
unfolding pump
pump-keeps P handle step zero s buf h = h
pump-keeps P handle step (suc fuel) s buf h = elim (Bool-cases ((parse buf).bytes_consumed == 0)) [
  | inl stop ↦ rw stop h
  | inr go ↦ rw go (pump-keeps P handle step fuel _ _ (step s (parse buf) h))
]

-- A handler, and then the record of a write.
tracked :
    (name : Bytes) (args : List Bytes) (c : ℕ) (m : Option Server)
    → Ends c m
    → Ends c (m >>= (λ s'. some (track name args s')))
unfolding track
tracked name args c m (s', done, safe, live) = elim (Bool-cases (is_write_command name)) [
  | inl write ↦
      let (client, there) = client_of s'.clients c live in
      let (safe', typed) = record_write-Keeps client.type c args s' safe (ap type_of there) in
      rw (done, write)
        (
          record_write args s',
          refl,
          safe',
          typed-IsLive client.type (record_write args s').clients c typed,
        )
  | inr other ↦ rw (done, other) (s', refl, safe, live)
]

module _ (env : Env) (calm : Unbroken env) (polite : IsPolite env) where
  on_request-Ends :
      (c : ℕ) (args : List Bytes) (response : Bytes) (s : Server)
      → IsSafe s
      → HasType ClientType.regular s.clients c
      → Ends c (on_request env c args response s)
  unfolding on_request
  on_request-Ends c args response s safe regular =
      let name = name_of args in
      let r = ClientType.regular in
      elim (Bool-cases (str_eq name (codes "WAIT") && is_empty response)) [
        | inl wait ↦ rw wait (
            tracked name args c _
              (Keeps-Ends r c _ (handle_wait-Keeps env calm r c args s safe regular)))
        | inr not_wait ↦ elim (Bool-cases (str_eq name (codes "REPLICAOF") && is_empty response)) [
          | inl replicaof ↦
              rw (not_wait, replicaof)
                (Keeps-Ends r c _ (handle_replicaof-Keeps env calm polite c args s safe regular))
          | inr not_replicaof ↦
              elim (Bool-cases (str_eq name (codes "PSYNC") && is_empty response)) [
                | inl psync ↦
                    rw (not_wait, not_replicaof, psync)
                      (tracked name args c _ (handle_psync-Ends env c args s safe regular))
                | inr other ↦
                    rw (not_wait, not_replicaof, other)
                      (tracked name args c _
                        (Keeps-Ends r c _ (append-Keeps r c response s safe regular)))
              ]
        ]
      ]

  dispatch-Ends :
      (t : ClientType) (c : ℕ) (r : ParseResult) (response : Bytes) (s : Server)
      → IsSafe s
      → HasType t s.clients c
      → Ends c (dispatch env t c r response s)
  unfolding dispatch
  dispatch-Ends ClientType.master_conn c r response s safe typed =
      Keeps-Ends ClientType.master_conn c _ (
        handle_master_read-Keeps ClientType.master_conn c r.args response r.bytes_consumed s safe
          typed)
  dispatch-Ends ClientType.replica c r response s safe typed =
      Keeps-Ends ClientType.replica c _
        (handle_replica_read-Keeps env ClientType.replica c r.args s calm safe typed)
  dispatch-Ends ClientType.regular c r response s safe typed =
      on_request-Ends c r.args response s safe typed

  pub on_command-Ends :
      (c : ℕ) (m : Option Server) (r : ParseResult) → Ends c m → Ends c (on_command env c m r)
  unfolding on_command
  on_command-Ends c m r (s, done, safe, live) =
      let (client, there) = client_of s.clients c live in
      let out =
        execute (env.now s.calls) r.args s.store s.repl_info (is_master_conn env client.type) in
      let s1 : Server = record s { store = out.1; calls = suc s.calls } in
      let (s2, done2, safe2, live2) =
        dispatch-Ends client.type c r out.0 s1 safe (ap type_of there) in
      let (client2, there2) = client_of s2.clients c live2 in
      (s2, rw (done, there, done2, there2) refl, safe2, live2)
