-- ===== src/Server/Teardown.antt =====
-- A promotion, and a master that gives up its replicas (`handle_replicaof_no_one` and the tear-down in
-- `handle_replicaof_set_master` of src/server.cpp): they end, and keep the references of the server,
-- as long as no connection breaks.
use mathlib.Core.Path.{subst}
use redis_lite.Common.{
  ℕ, ◌≡◌, ◌≢◌, refl, ◌∙◌, ap, false, List, [], ◌∷◌, Option, some, none, All, arith, ◌==◌, str_eq,
  Bool-cases, inl, inr, ℕ_discrete,
}
use redis_lite.Common.Int.{pos}
use redis_lite.Replication.{master}
use redis_lite.Command.Branches.{ok}
use redis_lite.Server.State.{ClientType, Server, Env, without}
use redis_lite.Server.Role.{
  always, retire, drop_master, remove_all, disconnect_all_replicas, promote,
  handle_replicaof_no_one,
}
use redis_lite.Server.Quiet.{Unbroken}
use redis_lite.Server.Live.{caught, counted, unanswered}
use redis_lite.Server.Parked.{answer_waits_lem}
use redis_lite.Server.Safe.{HasType, IsMasterConn, Distinct, IsSafe, typed-IsLive, IsSafe-view}
use redis_lite.Server.Removal.{left_type, removed_client, remove_client_live, removed_client-IsSafe}
use redis_lite.Server.Handlers.{Keeps, type-view, replicas-IsLive, answer-Keeps}
use redis_lite.Server.Peers.{unanswered-All}

abbrev pub Regular : Server → ℕ → Type 0
Regular s c = HasType ClientType.regular s.clients c

-- A regular client outlives the removal of one of another type.
removed_other :
    (t : ClientType) (d c : ℕ) (s : Server)
    → t ≢ ClientType.regular
    → HasType t s.clients d
    → Regular s c
    → Regular (removed_client d s) c
removed_other t d c s ne h regular =
    left_type d s.clients c ClientType.regular (apart (ℕ_discrete c d)) regular
  where
    apart : Dec (c ≡ d) → (c == d) ≡ false
    apart (yes e) = absurd (ne (cc (h, regular, ap s.clients e)))
    apart (no other) = ground arith

-- Removing a client of another type.
remove-Keeps :
    (t : ClientType) (d c : ℕ) (s : Server)
    → t ≢ ClientType.regular
    → HasType t s.clients d
    → IsSafe s
    → Regular s c
    → IsSafe (removed_client d s) × Regular (removed_client d s) c
remove-Keeps t d c s ne h safe regular =
    (removed_client-IsSafe d s safe, removed_other t d c s ne h regular)

pub drop_master-Keeps :
    (c : ℕ) (m : Option ℕ) (s : Server)
    → IsMasterConn s.clients m
    → m ≡ s.master_client
    → IsSafe s
    → Regular s c
    → Keeps ClientType.regular c (drop_master m s)
unfolding drop_master
drop_master-Keeps c none s h e safe regular = (s, refl, safe, regular)
drop_master-Keeps c (some m) s h e safe regular =
    let live = typed-IsLive ClientType.master_conn s.clients m h in
    let (safe1, regular1) = remove-Keeps ClientType.master_conn m c s (cc) h safe regular in
    (
      record (removed_client m s) { master_client = none },
      rw (remove_client_live m s live) refl,
      record {
        replicas = safe1.replicas;
        distinct = safe1.distinct;
        waits = safe1.waits;
        queues = safe1.queues;
        master_client = tt;
        created = safe1.created;
      },
      regular1,
    )

without_absent : (c : ℕ) (xs : List ℕ) → All (λ y. y ≢ c) xs → without c xs ≡ xs
unfolding without
without_absent c [] h = refl
without_absent c (x ∷ xs) h = ground (arith, without_absent c xs h.1, h.0)

without_head : (c : ℕ) (xs : List ℕ) → All (λ y. y ≢ c) xs → without c (c ∷ xs) ≡ xs
unfolding without
without_head c xs h = ground (arith, without_absent c xs h)

-- The loop over a copy of `replicas_`.
remove_all-Keeps :
    (c : ℕ) (rs : List ℕ) (s : Server)
    → s.replicas ≡ rs
    → IsSafe s
    → Regular s c
    → Keeps ClientType.regular c (remove_all rs s)
unfolding remove_all
remove_all-Keeps c [] s e safe regular = (s, refl, safe, regular)
remove_all-Keeps c (r ∷ rs) s e safe regular =
    let typed = (subst (All (HasType ClientType.replica s.clients)) e safe.replicas).0 in
    let apart = (subst Distinct e safe.distinct).0 in
    let live = typed-IsLive ClientType.replica s.clients r typed in
    let (safe1, regular1) = remove-Keeps ClientType.replica r c s (cc) typed safe regular in
    let (s', done, safe', regular') =
      remove_all-Keeps c rs (removed_client r s) (ap (without r) e ∙ without_head r rs apart) safe1
        regular1 in
    (s', rw (remove_client_live r s live) done, safe', regular')

module _ (env : Env) (calm : Unbroken env) where
  pub handle_replicaof_no_one-Keeps :
      (c : ℕ) (s : Server)
      → IsSafe s
      → Regular s c
      → Keeps ClientType.regular c (handle_replicaof_no_one env c s)
  unfolding handle_replicaof_no_one
  handle_replicaof_no_one-Keeps c s safe regular =
      elim (Bool-cases (str_eq s.repl_info.role master)) [
        | inl is_master ↦
            rw is_master (answer-Keeps env calm ClientType.regular ok c s safe regular)
        | inr is_worker ↦
            let (s1, dropped, safe1, regular1) =
              drop_master-Keeps c s.master_client s safe.master_client refl safe regular in
            rw (is_worker, dropped)
              (answer-Keeps env calm ClientType.regular ok c _ (unfold promote in safe1)
                (unfold promote in regular1))
      ]

  pub retire-Keeps :
      (c : ℕ) (s : Server) → IsSafe s → Regular s c → Keeps ClientType.regular c (retire env s)
  unfolding retire disconnect_all_replicas
  retire-Keeps c s safe regular = elim (Bool-cases (str_eq s.repl_info.role master)) [
    | inl is_master ↦
        let left = unanswered always (caught s) s.pending_waits in
        let (s1, done, same) =
          answer_waits_lem env always (caught s) s.pending_waits [] s calm
            (λ t. counted s t (replicas-IsLive s safe)) safe.waits in
        let safe1 =
          IsSafe-view (record s { pending_waits = left }) s1 same
            (record {
              replicas = safe.replicas;
              distinct = safe.distinct;
              waits = unanswered-All _ always (caught s) s.pending_waits safe.waits;
              queues = safe.queues;
              master_client = safe.master_client;
              created = safe.created;
            }) in
        let (s2, gone, safe2, regular2) =
          remove_all-Keeps c s1.replicas (record s1 { pending_waits = [] }) refl
            (record {
              replicas = safe1.replicas;
              distinct = safe1.distinct;
              waits = tt;
              queues = safe1.queues;
              master_client = safe1.master_client;
              created = safe1.created;
            })
            (type-view (record s { pending_waits = left }) s1 c same ∙ regular) in
        (record s2 { master_repl_offset = pos 0 }, rw (is_master, done, gone) refl, safe2, regular2)
    | inr is_worker ↦ (s, rw is_worker refl, safe, regular)
  ]
