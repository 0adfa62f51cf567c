-- ===== src/Server/Removal.antt =====
-- Removing a client leaves no reference to a deleted one (`remove_client` of src/server.cpp).
use redis_lite.Common.{
  ℕ, ◌≡◌, ◌≢◌, refl, ◌∙◌, ap, false, List, [], ◌∷◌, Option, some, none, All, arith, ◌==◌,
  Bool-cases, inl, inr,
}
use redis_lite.Server.State.{
  ClientType, Client, WaitState, Queue, Server, update, without, without_waits, without_queue,
}
use redis_lite.Server.Send.{remove_client, unless_is}
use redis_lite.Server.Live.{is_client, IsLive, client_of}
use redis_lite.Server.Safe.{type_of, HasType, IsMasterConn, Distinct, keys, IsSafe}

module _ (c : ℕ) (clients : ℕ → Option Client) where
  abbrev pub left : ℕ → Option Client
  left = update c none clients

  left_other : (d : ℕ) → (d == c) ≡ false → left d ≡ clients d
  unfolding update
  left_other d ne = ground arith

  left_live : (d : ℕ) → IsLive left d → IsLive clients d
  unfolding update
  left_live d h = ground arith

  pub left_type :
      (d : ℕ) (t : ClientType) → (d == c) ≡ false → HasType t clients d → HasType t left d
  left_type d t ne h = ap type_of (left_other d ne) ∙ h

  kept : (d : ℕ) → (d == c) ≡ false → IsLive clients d → IsLive left d
  kept d ne h = ap is_client (left_other d ne) ∙ h

  replicas-without :
      (rs : List ℕ)
      → All (HasType ClientType.replica clients) rs
      → All (HasType ClientType.replica left) (without c rs)
  unfolding without
  replicas-without [] h = tt
  replicas-without (r ∷ rs) h = elim (Bool-cases (r == c)) [
    | inl e ↦ rw e (replicas-without rs h.1)
    | inr ne ↦ rw ne (left_type r ClientType.replica ne h.0, replicas-without rs h.1)
  ]

  All-without : (P : ℕ → Type 0) (rs : List ℕ) → All P rs → All P (without c rs)
  unfolding without
  All-without P [] h = tt
  All-without P (r ∷ rs) h = elim (Bool-cases (r == c)) [
    | inl e ↦ rw e (All-without P rs h.1)
    | inr ne ↦ rw ne (h.0, All-without P rs h.1)
  ]

  Distinct-without : (rs : List ℕ) → Distinct rs → Distinct (without c rs)
  unfolding without
  Distinct-without [] h = tt
  Distinct-without (r ∷ rs) h = elim (Bool-cases (r == c)) [
    | inl e ↦ rw e (Distinct-without rs h.1)
    | inr ne ↦ rw ne (All-without (λ y. y ≢ r) rs h.0, Distinct-without rs h.1)
  ]

  waits-without :
      (ws : List WaitState)
      → All (λ w. IsLive clients w.client) ws
      → All (λ w. IsLive left w.client) (without_waits c ws)
  unfolding without_waits
  waits-without [] h = tt
  waits-without (w ∷ ws) h = elim (Bool-cases (w.client == c)) [
    | inl e ↦ rw e (waits-without ws h.1)
    | inr ne ↦ rw ne (kept w.client ne h.0, waits-without ws h.1)
  ]

  queues-without :
      (qs : List (ℕ × Queue))
      → All (IsLive clients) (keys qs)
      → All (IsLive left) (keys (without_queue c qs))
  unfolding without_queue
  queues-without [] h = tt
  queues-without ((d, q) ∷ qs) h = elim (Bool-cases (d == c)) [
    | inl e ↦ rw e (queues-without qs h.1)
    | inr ne ↦ rw ne (kept d ne h.0, queues-without qs h.1)
  ]

  master-unless_is : (m : Option ℕ) → IsMasterConn clients m → IsMasterConn left (unless_is c m)
  unfolding unless_is
  master-unless_is none h = tt
  master-unless_is (some m) h = elim (Bool-cases (m == c)) [
    | inl e ↦ rw e tt
    | inr ne ↦ rw ne (left_type m ClientType.master_conn ne h)
  ]

  pub gone : left c ≡ none
  unfolding update
  gone = ground arith

-- The server behind `remove_client`.
abbrev pub removed_client : ℕ → Server → Server
removed_client c s = record s {
  master_client = unless_is c s.master_client;
  replicas = without c s.replicas;
  repl_queues = without_queue c s.repl_queues;
  pending_waits = without_waits c s.pending_waits;
  clients = update c none s.clients;
}

pub remove_client_live :
    (c : ℕ) (s : Server) → IsLive s.clients c → remove_client c s ≡ some (removed_client c s)
unfolding remove_client
remove_client_live c s live = let (client, there) = client_of s.clients c live in rw there refl

pub removed_client-IsSafe : (c : ℕ) (s : Server) → IsSafe s → IsSafe (removed_client c s)
removed_client-IsSafe c s h = record {
  replicas = replicas-without c s.clients s.replicas h.replicas;
  distinct = Distinct-without c s.clients s.replicas h.distinct;
  waits = waits-without c s.clients s.pending_waits h.waits;
  queues = queues-without c s.clients s.repl_queues h.queues;
  master_client = master-unless_is c s.clients s.master_client h.master_client;
  created = λ d l. h.created d (left_live c s.clients d l);
}

-- Removing a client that exists, in a server in which every reference to a client leads to one that
-- exists and has the type that it should have: it ends, the client is deleted, and again every
-- reference, of the replicas, the parked clients, the queues and the connection to the master, leads
-- to a client that exists, of the type that it should have; so none leads to this one.
pub remove_client-IsSafe :
    (c : ℕ) (s : Server)
    → IsSafe s
    → IsLive s.clients c
    → (s' : Server) × (remove_client c s ≡ some s') × (s'.clients c ≡ none) × IsSafe s'
remove_client-IsSafe c s h live =
    (removed_client c s, remove_client_live c s live, gone c s.clients, removed_client-IsSafe c s h)
