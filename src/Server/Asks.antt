-- ===== src/Server/Asks.antt =====
-- What a server that becomes a replica asks its master for (`connect_to_master` and
-- `handle_replicaof_set_master` of src/server.cpp).
use redis_lite.Common.{
  arith, ◌++◌, ℕ, zero, suc, ◌≡◌, refl, sym, ap, List, [], ◌∷◌, Option, none, some, Bytes, codes,
  drop, Bool-cases, inl, inr, length,
}
use redis_lite.Common.Int.{ℤ, pos}
use redis_lite.Number.{of_ℤ}
use redis_lite.Resp.{encode_array}
use redis_lite.Replication.{ReplicationInfo}
use redis_lite.Server.State.{WaitState, Server, Sent, Env, ◌>>=◌, append}
use redis_lite.Server.Send.{flush, try_send, answer, answer_count}
use redis_lite.Server.Metadata.{info-answer}
use redis_lite.Server.Wait.{Ready, answer_waits, count_caught_up_replicas, is_zero}
use redis_lite.Server.Handshake.{psync_request, requests}
use redis_lite.Command.Branches.{ok}
use redis_lite.Config.{Config, repl_info_of}
use redis_lite.Server.Role.{
  always, retire, drop_master, demote, dialogue, connect_to_master, on_joined, connected_to,
  handle_replicaof_set_master, start, initial, unless_refused, same_master,
}

-- The four messages of a replica that asks for everything.
abbrev pub full_requests : ℤ → List Bytes
full_requests listen_port =
    encode_array (codes "PING" ∷ [])
    ∷ encode_array (codes "REPLCONF" ∷ codes "listening-port" ∷ of_ℤ listen_port ∷ [])
    ∷ encode_array (codes "REPLCONF" ∷ codes "capa" ∷ codes "psync2" ∷ [])
    ∷ encode_array (codes "PSYNC" ∷ codes "?" ∷ codes "-1" ∷ [])
    ∷ []

-- The environment in which every master answers as if it had been asked for everything.
abbrev pub asked_for_all : ℤ → Env → Env
asked_for_all port env = record env {
  master_says = λ n messages. env.master_says n (full_requests port);
}

requests-full :
    (port : ℤ) (r : ReplicationInfo)
    → r.master_repl_offset ≡ pos 0
    → requests port r ≡ full_requests port
unfolding requests psync_request is_zero
requests-full port r h = rw h (ground arith)

>>=-ext :
    {A B : Type 0} (m : Option A) (f g : A → Option B)
    → ((a : A) → m ≡ some a → f a ≡ g a)
    → (m >>= f) ≡ (m >>= g)
>>=-ext none f g h = refl
>>=-ext (some a) f g h = h a refl

module _ (port : ℤ) (env : Env) where
  flush_round_same :
      (fuel fd b : ℕ) (buf : Bytes) (calls : ℕ) (r : Sent)
      → env.send calls fd (b ∷ buf) ≡ r
      → ((n : ℕ)
          → flush (asked_for_all port env) fuel fd (drop n buf) (suc calls)
            ≡ flush env fuel fd (drop n buf) (suc calls))
      → flush (asked_for_all port env) (suc fuel) fd (b ∷ buf) calls
        ≡ flush env (suc fuel) fd (b ∷ buf) calls
  unfolding flush
  flush_round_same fuel fd b buf calls (Sent.sent n) e h = rw (e, flush) (h n)
  flush_round_same fuel fd b buf calls Sent.again e h = rw (e, flush) refl
  flush_round_same fuel fd b buf calls Sent.failed e h = rw (e, flush) refl

  flush_same :
      (fuel fd : ℕ) (buf : Bytes) (calls : ℕ)
      → flush (asked_for_all port env) fuel fd buf calls ≡ flush env fuel fd buf calls
  flush_same zero fd buf calls = unfold flush in refl
  flush_same (suc fuel) fd [] calls = unfold flush in refl
  flush_same (suc fuel) fd (b ∷ buf) calls =
      flush_round_same fuel fd b buf calls (env.send calls fd (b ∷ buf)) refl
        (λ n. flush_same fuel fd (drop n buf) (suc calls))

  try_send_same : (c : ℕ) (s : Server) → try_send (asked_for_all port env) c s ≡ try_send env c s
  unfolding try_send
  try_send_same c s = >>=-ext (s.clients c) _ _ (λ client e.
      rw (flush_same (length client.write_buf) client.fd client.write_buf s.calls) refl)

  answer_same :
      (text : Bytes) (c : ℕ) (s : Server)
      → answer (asked_for_all port env) text c s ≡ answer env text c s
  unfolding answer
  answer_same text c s = >>=-ext (append text c s) _ _ (λ s' e. try_send_same c s')

  answer_waits_same :
      (ready : Ready) (ws kept : List WaitState) (s : Server)
      → answer_waits (asked_for_all port env) ready kept ws s ≡ answer_waits env ready kept ws s
  unfolding answer_waits answer_count
  answer_waits_same ready [] kept s = refl
  answer_waits_same ready (w ∷ ws) kept s =
      >>=-ext (count_caught_up_replicas w.target_offset s) _ _ (λ n e.
        elim (Bool-cases (ready w n)) [
          | inl now ↦
              rw (now, answer_same _ w.client s)
                (>>=-ext _ _ _ (λ s' e'. answer_waits_same ready ws kept s'))
          | inr later ↦ rw later (answer_waits_same ready ws (kept ++ w ∷ []) s)
        ])

  retire_same : (s : Server) → retire (asked_for_all port env) s ≡ retire env s
  unfolding retire
  retire_same s = rw (answer_waits_same always s.pending_waits [] s) refl

  dialogue_same :
      (socket : Option ℕ) (s : Server)
      → s.repl_info.master_repl_offset ≡ pos 0
      → dialogue (asked_for_all port env) port socket s ≡ dialogue env port socket s
  unfolding dialogue on_joined connected_to
  dialogue_same none s h = refl
  dialogue_same (some fd) s h = rw (requests-full port s.repl_info h) refl

  connect_via :
      (m : Option (Bytes × ℤ)) (s : Server)
      → s.repl_info.master_repl_offset ≡ pos 0
      → elim m [
        | none ↦ none
        | some (host, port') ↦
            dialogue (asked_for_all port env) port (env.connect s.calls host port') s
      ]
        ≡ elim m [
          | none ↦ none
          | some (host, port') ↦ dialogue env port (env.connect s.calls host port') s
        ]
  connect_via none s h = refl
  connect_via (some (host, port')) s h = dialogue_same (env.connect s.calls host port') s h

  connect_same :
      (s : Server)
      → s.repl_info.master_repl_offset ≡ pos 0
      → connect_to_master (asked_for_all port env) port s ≡ connect_to_master env port s
  unfolding connect_to_master
  connect_same s h = connect_via s.replicaof s h

  set_master_same :
      (c : ℕ) (host : Bytes) (s : Server)
      → handle_replicaof_set_master (asked_for_all port env) c host port s
        ≡ handle_replicaof_set_master env c host port s
  unfolding handle_replicaof_set_master demote
  set_master_same c host s = elim (Bool-cases (same_master host port s.replicaof)) [
    | inl same ↦ rw same (answer_same _ c s)
    | inr other ↦
        rw (other, retire_same s)
          (>>=-ext (retire env s) _ _ (λ s1 e1.
            >>=-ext (drop_master s1.master_client s1) _ _ (λ s2 e2.
              rw (answer_same ok c (demote host port s2)) (
                >>=-ext (answer env ok c (demote host port s2)) _ _ (λ s3 e3.
                  rw
                    (connect_same s3 (
                      ap (λ (r : ReplicationInfo). r.master_repl_offset)
                        (info-answer env ok c (demote host port s2) s3 e3)))
                    refl)))))
  ]

  start_via :
      (m : Option (Bytes × ℤ)) (s : Server)
      → s.repl_info.master_repl_offset ≡ pos 0
      → elim m [
        | none ↦ some s
        | some m' ↦ connect_to_master (asked_for_all port env) port s >>= unless_refused
      ]
        ≡ elim m [ none ↦ some s | some m' ↦ connect_to_master env port s >>= unless_refused ]
  start_via none s h = refl
  start_via (some m) s h = ap (λ r. r >>= unless_refused) (connect_same s h)

  start_same :
      (r : ReplicationInfo) (replicaof : Option (Bytes × ℤ))
      → r.master_repl_offset ≡ pos 0
      → start (asked_for_all port env) port r replicaof ≡ start env port r replicaof
  unfolding start initial
  start_same r replicaof h = start_via replicaof (initial r replicaof) h

-- A server never asks for a partial resync: whatever its state and the environment, REPLICAOF to
-- any host and port comes to what it would come to if its master answered every dialogue as that of
-- a replica which asks for everything; and so does the start of a server with any configuration.
pub handle_replicaof_asks_all :
    (env : Env) (c : ℕ) (host replid : Bytes) (port : ℤ) (config : Config) (s : Server)
    → (handle_replicaof_set_master env c host port s
        ≡ handle_replicaof_set_master (asked_for_all port env) c host port s)
      × (start env port (repl_info_of replid config) config.replicaof
          ≡ start (asked_for_all port env) port (repl_info_of replid config) config.replicaof)
unfolding repl_info_of
handle_replicaof_asks_all env c host replid port config s = (
  sym (set_master_same port env c host s),
  sym (start_same port env (repl_info_of replid config) config.replicaof refl),
)
