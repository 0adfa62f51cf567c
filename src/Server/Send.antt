-- ===== src/Server/Send.antt =====
-- Sending to a client and taking a client out of the server (`try_send` and `remove_client` of
-- src/server.cpp).
use redis_lite.Common.{
  ℕ, zero, suc, Bool, true, false, not, [], ◌∷◌, ◌++◌, Option, none, some, Bytes, length, drop,
  codes, ◌==◌, if◌then◌else◌,
}
use redis_lite.Number.{of_ℕ}
use redis_lite.Server.State.{
  Client, Server, Sent, Env, ◌>>=◌, change, append, update, without, without_waits, without_queue,
}

unfoldable pub is_empty : Bytes → Bool
is_empty [] = true
is_empty (b ∷ bytes) = false

unfoldable pub unless_is : ℕ → Option ℕ → Option ℕ
unless_is c none = none
unless_is c (some m) = if m == c then none else some m

-- `remove_client`: every reference goes before the client is deleted.
unfoldable pub remove_client : ℕ → Server → Option Server
remove_client c s = do
  client ← s.clients c
  some (record s {
    master_client = unless_is c s.master_client;
    replicas = without c s.replicas;
    repl_queues = without_queue c s.repl_queues;
    pending_waits = without_waits c s.pending_waits;
    clients = update c none s.clients;
  })

-- What the loop of `try_send` comes to.
pub record Flushed : Type 0 where
  pub left : Bytes
  pub calls : ℕ
  pub broken : Bool

-- The watched events behind `try_send`, and the rest of the buffer.
abbrev pub flushed : Flushed → Client → Client
flushed r client = record client { write_buf = r.left; watches_out = not (is_empty r.left) }

module _ (env : Env) where
  -- `while (!client->write_buf.empty())`. Every round that goes on sends at least one byte, so the
  -- length of the buffer is fuel enough.
  unfoldable pub flush : ℕ → ℕ → Bytes → ℕ → Flushed
  flush zero fd buf calls = record { left = buf; calls = calls; broken = false }
  flush (suc fuel) fd [] calls = record { left = []; calls = calls; broken = false }
  flush (suc fuel) fd (b ∷ buf) calls = elim (env.send calls fd (b ∷ buf)) [
    | Sent.sent n ↦ flush fuel fd (drop n buf) (suc calls)
    | Sent.again ↦ record { left = b ∷ buf; calls = suc calls; broken = false }
    | Sent.failed ↦ record { left = b ∷ buf; calls = suc calls; broken = true }
  ]

  -- A client whose connection broke is removed.
  unfoldable pub try_send : ℕ → Server → Option Server
  try_send c s = do
    client ← s.clients c
    let r = flush (length client.write_buf) client.fd client.write_buf s.calls
    s' ← change (flushed r) c (record s { calls = r.calls })
    if r.broken then remove_client c s' else some s'

  -- `write_buf += text; try_send(client);`
  unfoldable pub answer : Bytes → ℕ → Server → Option Server
  answer text c s = append text c s >>= try_send c

  -- A number as the answer.
  unfoldable pub answer_count : ℕ → ℕ → Server → Option Server
  answer_count n c s = answer (codes ":" ++ (of_ℕ n ++ codes "\r\n")) c s
