-- ===== src/Server/State.antt =====
-- The data of `Server` (src/server.hpp) and `Client` (src/client.hpp), and what the server takes
-- from its environment.
use redis_lite.Common.{
  ◌≡◌, refl, ℕ, Bool, List, [], ◌∷◌, ◌++◌, Option, none, some, Bytes, ◌==◌, if◌then◌else◌,
}
use redis_lite.Common.Int.{ℤ}
use redis_lite.Store.{Store}
use redis_lite.Replication.{ReplicationInfo}
use redis_lite.Backlog.{Backlog}
use redis_lite.Rdb.Save.{Clocks}

-- `ClientType`, without the listening socket, which carries no data.
pub data ClientType : Type 0 where
  regular replica master_conn : ClientType

-- `Client`; `watches_out` is whether epoll watches the connection for room to write.
pub record Client : Type 0 where
  pub fd : ℕ
  pub type : ClientType
  pub read_buf : Bytes
  pub write_buf : Bytes
  pub ack_offset : ℤ
  pub watches_out : Bool

-- `WaitState`
pub record WaitState : Type 0 where
  pub client : ℕ
  pub num_needed : ℤ
  pub target_offset : ℤ
  pub deadline : ℤ

-- `ReplicaWriteQueue`
pub record Queue : Type 0 where
  pub pending : Bytes
  pub draining : Bytes
  pub fd : ℕ
  pub removed : Bool

-- `Server`. A `Client*` is a number: the client is the one made after that many others. `created`
-- counts the clients made, `calls` the questions that the server has asked its environment.
pub record Server : Type 0 where
  pub store : Store
  pub repl_info : ReplicationInfo
  pub replicaof : Option (Bytes × ℤ)
  pub master_client : Option ℕ
  pub replicas : List ℕ
  pub master_repl_offset : ℤ
  pub backlog : Backlog
  pub pending_waits : List WaitState
  pub repl_queues : List (ℕ × Queue)
  pub repl_has_work : Bool
  pub clients : ℕ → Option Client
  pub created : ℕ
  pub calls : ℕ

-- What `send` or `recv` may come to: `sent n` is `n + 1` bytes taken, `again` is `EAGAIN` or
-- `EWOULDBLOCK`, `failed` any other error.
pub data Sent : Type 0 where
  sent : ℕ → Sent
  again failed : Sent

-- The environment's answers; the first argument is the number of the question.
pub record Env : Type 0 where
  -- `send` on a descriptor.
  pub send : ℕ → ℕ → Bytes → Sent
  -- `steady_clock`, in nanoseconds.
  pub now : ℕ → ℤ
  -- The clocks that `rdb::serialize` reads.
  pub clocks : ℕ → Clocks
  -- The draws from `uniform_int_distribution<int>(0, 15)` in a call of `generate_replid`.
  pub dist : ℕ → ℕ → ℕ
  -- The socket of a connection to a master, if it could be made.
  pub connect : ℕ → Bytes → ℤ → Option ℕ
  -- What the master's side of a handshake answers to the messages sent, as `recv` returns it piece
  -- by piece.
  pub master_says : ℕ → List Bytes → List Bytes
  -- `system_clock` in milliseconds, and `steady_clock`, as `rdb::load` reads them.
  pub load_sys : ℕ → ℤ
  pub load_clock : ℕ → ℕ → ℤ

-- The heap of clients with one of them changed.
unfoldable pub update : ℕ → Option Client → (ℕ → Option Client) → ℕ → Option Client
update at c clients j = if at == j then c else clients j

infixl 5 ◌>>=◌
abbrev pub ◌>>=◌ {ℓ κ} : {A : Type ℓ} {B : Type κ} → Option A → (A → Option B) → Option B
none >>= f = none
some a >>= f = f a

-- `*client` with its fields changed; a deleted client has none.
unfoldable pub change : (Client → Client) → ℕ → Server → Option Server
change f c s = do
  client ← s.clients c
  some (record s { clients = update c (some (f client)) s.clients })

-- `client->write_buf += text`
abbrev pub appended : Bytes → Client → Client
appended text client = record client { write_buf = client.write_buf ++ text }

unfoldable pub append : Bytes → ℕ → Server → Option Server
append text c s = change (appended text) c s

-- A vector with every element that equals the first argument taken out.
unfoldable pub without : ℕ → List ℕ → List ℕ
without c [] = []
without c (x ∷ xs) = if x == c then without c xs else x ∷ without c xs

unfoldable pub without_waits : ℕ → List WaitState → List WaitState
without_waits c [] = []
without_waits c (w ∷ ws) = if w.client == c then without_waits c ws else w ∷ without_waits c ws

-- `repl_queues_` without a client. The writer thread may still hold the queue taken out.
unfoldable pub without_queue : ℕ → List (ℕ × Queue) → List (ℕ × Queue)
without_queue c [] = []
without_queue c ((d, q) ∷ qs) = if d == c then without_queue c qs else (d, q) ∷ without_queue c qs

-- `repl_queues_[client] = queue`
unfoldable pub put_queue : ℕ → Queue → List (ℕ × Queue) → List (ℕ × Queue)
put_queue c q [] = (c, q) ∷ []
put_queue c q ((d, p) ∷ qs) = if d == c then (d, q) ∷ qs else (d, p) ∷ put_queue c q qs

unfoldable pub find_queue : ℕ → List (ℕ × Queue) → Option Queue
find_queue c [] = none
find_queue c ((d, q) ∷ qs) = if d == c then some q else find_queue c qs

-- A chain that came to a result: its first step did too.
pub >>=-eq-some {ℓ κ} :
    {A : Type ℓ} {B : Type κ} (m : Option A) (f : A → Option B) {b : B}
    → (m >>= f) ≡ some b
    → (a : A) × (m ≡ some a) × (f a ≡ some b)
>>=-eq-some none f h = cc
>>=-eq-some (some a) f h = (a, refl, h)

pub some-injective {ℓ} : {A : Type ℓ} {a b : A} → some a ≡ some b → a ≡ b
some-injective h = cc
