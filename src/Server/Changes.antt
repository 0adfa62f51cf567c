-- ===== src/Server/Changes.antt =====
-- REPLICAOF (`handle_replicaof` of src/server.cpp) ends, and keeps the references of the server, as
-- long as no connection breaks and no answer of a master makes `std::stoll` throw.
use redis_lite.Common.{
  ℕ, ◌≡◌, refl, ◌∙◌, ap, true, false, List, [], ◌∷◌, Option, some, none, Bytes, codes, ◌&&◌, str_eq,
  if◌then◌else◌, Bool, Bool-cases, inl, inr,
}
use redis_lite.Common.Int.{ℤ}
use redis_lite.Number.{stoi}
use redis_lite.Store.{Store}
use redis_lite.Replication.{ReplicationInfo}
use redis_lite.Command.Names.{to_upper}
use redis_lite.Command.Branches.{ok, err_port}
use redis_lite.Server.State.{ClientType, Server, Env, some-injective}
use redis_lite.Server.Handshake.{Joined, join, requests}
use redis_lite.Server.Role.{
  demote, revert, dialogue, connect_to_master, on_joined, connected_to, handle_replicaof_set_master,
  same_master, set_master_at, handle_replicaof,
}
use redis_lite.Server.Quiet.{Unbroken, answer_quiet}
use redis_lite.Server.Safe.{
  HasType, keys, IsSafe, typed_client, IsSafe-view, Sound-connected, made_type,
}
use redis_lite.Server.Handlers.{Keeps, type-view, answer-Keeps}
use redis_lite.Server.Teardown.{
  Regular, drop_master-Keeps, handle_replicaof_no_one-Keeps, retire-Keeps,
}

-- No answer of a master makes `std::stoll` throw: every dialogue ends.
abbrev pub IsPolite : Env → Type 0
IsPolite env =
    (n : ℕ) (messages : List Bytes) (sys : ℤ) (clock : ℕ → ℤ) (r : ReplicationInfo) (store : Store)
    → (j : Joined) × (join sys clock r store (env.master_says n messages) ≡ some j)

-- Every client keeps its type.
abbrev pub KeepsTypes : Server → Server → Type 0
KeepsTypes s s' = (t : ClientType) (d : ℕ) → HasType t s.clients d → HasType t s'.clients d

-- An attempt to connect that ends, whether or not it succeeds.
abbrev pub Connects : Server → Option (Bool × Server) → Type 0
Connects s m =
    (connected : Bool) × (s' : Server) × (m ≡ some (connected, s')) × IsSafe s' × KeepsTypes s s'

on_joined-Connects :
    (fd : ℕ) (j : Joined) (s : Server) → IsSafe s → Connects s (some (on_joined fd j s))
unfolding on_joined connected_to
on_joined-Connects fd j s safe = elim (Bool-cases j.connected) [
  | inl up ↦ rw up (
    true,
    _,
    refl,
    Sound-connected s.clients s.replicas s.pending_waits (keys s.repl_queues) s.master_client
        s.created _ refl safe,
    made_type s.clients s.created _ safe.created,
  )
  | inr down ↦ rw down (false, _, refl, safe, λ t d h. h)
]

revert-Keeps :
    (c : ℕ) (connected : Bool) (s : Server)
    → IsSafe s
    → Regular s c
    → Keeps ClientType.regular c (some (if connected then s else revert s))
unfolding revert
revert-Keeps c true s safe regular = (s, refl, safe, regular)
revert-Keeps c false s safe regular = (_, refl, safe, regular)

module _ (env : Env) (calm : Unbroken env) (polite : IsPolite env) where
  dialogue-Connects :
      (port : ℤ) (socket : Option ℕ) (s : Server)
      → IsSafe s
      → Connects s (dialogue env port socket s)
  unfolding dialogue
  dialogue-Connects port none s safe = (false, _, refl, safe, λ t d h. h)
  dialogue-Connects port (some fd) s safe =
      let (j, joined) =
        polite s.calls (requests port s.repl_info) (env.load_sys s.calls) (env.load_clock s.calls)
          s.repl_info s.store in
      rw joined (on_joined-Connects fd j s safe)

  connect_at :
      (port : ℤ) (m : Bytes × ℤ) (o : Option (Bytes × ℤ)) (s : Server)
      → o ≡ some m
      → elim o [
        | none ↦ none
        | some (host, port') ↦ dialogue env port (env.connect s.calls host port') s
      ]
        ≡ dialogue env port (env.connect s.calls m.0 m.1) s
  connect_at port m none s e = cc
  connect_at port m (some (host, port')) s e =
      ap (λ (m : Bytes × ℤ). dialogue env port (env.connect s.calls m.0 m.1) s) (some-injective e)

  pub connect-Connects :
      (port : ℤ) (m : Bytes × ℤ) (s : Server)
      → s.replicaof ≡ some m
      → IsSafe s
      → Connects s (connect_to_master env port s)
  unfolding connect_to_master
  connect-Connects port m s e safe =
      let (connected, s', done, safe', kept) =
        dialogue-Connects port (env.connect s.calls m.0 m.1) s safe in
      (connected, s', connect_at port m s.replicaof s e ∙ done, safe', kept)

  pub handle_replicaof_set_master-Keeps :
      (c : ℕ) (host : Bytes) (port : ℤ) (s : Server)
      → IsSafe s
      → Regular s c
      → Keeps ClientType.regular c (handle_replicaof_set_master env c host port s)
  unfolding handle_replicaof_set_master demote
  handle_replicaof_set_master-Keeps c host port s safe regular =
      elim (Bool-cases (same_master host port s.replicaof)) [
        | inl same ↦ rw same (answer-Keeps env calm ClientType.regular _ c s safe regular)
        | inr other ↦
            let (s1, retired, safe1, regular1) = retire-Keeps env calm c s safe regular in
            let (s2, dropped, safe2, regular2) =
              drop_master-Keeps c s1.master_client s1 safe1.master_client refl safe1 regular1 in
            let (client, live, e) = typed_client ClientType.regular s2.clients c regular2 in
            let (s3, client', sent, there, same) =
              answer_quiet env ok c client (demote host port s2) calm live in
            let (connected, s4, done, safe4, kept) =
              connect-Connects port (host, port) s3 (ap (λ (v : Server). v.replicaof) same)
                (IsSafe-view (demote host port s2) s3 same safe2) in
            let regular3 = type-view (demote host port s2) s3 c same ∙ regular2 in
            rw (other, retired, dropped, sent, done)
              (revert-Keeps c connected s4 safe4 (kept ClientType.regular c regular3))
      ]

  set_master_at-Keeps :
      (c : ℕ) (host : Bytes) (port : Option ℤ) (s : Server)
      → IsSafe s
      → Regular s c
      → Keeps ClientType.regular c (set_master_at env c host port s)
  unfolding set_master_at
  set_master_at-Keeps c host none s safe regular =
      answer-Keeps env calm ClientType.regular err_port c s safe regular
  set_master_at-Keeps c host (some port) s safe regular =
      handle_replicaof_set_master-Keeps c host port s safe regular

  pub handle_replicaof-Keeps :
      (c : ℕ) (args : List Bytes) (s : Server)
      → IsSafe s
      → Regular s c
      → Keeps ClientType.regular c (handle_replicaof env c args s)
  unfolding handle_replicaof
  handle_replicaof-Keeps c [] s safe regular = (s, refl, safe, regular)
  handle_replicaof-Keeps c (a ∷ []) s safe regular = (s, refl, safe, regular)
  handle_replicaof-Keeps c (a ∷ b ∷ []) s safe regular = (s, refl, safe, regular)
  handle_replicaof-Keeps c (name ∷ host ∷ port ∷ rest) s safe regular =
      elim (Bool-cases
        (str_eq (to_upper host) (codes "NO") && str_eq (to_upper port) (codes "ONE"))) [
          | inl no_one ↦ rw no_one (handle_replicaof_no_one-Keeps env calm c s safe regular)
          | inr named ↦ rw named (set_master_at-Keeps c host (stoi port) s safe regular)
        ]
