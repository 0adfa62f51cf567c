-- ===== src/Server/Loop.antt =====
-- The event loop (`run`, `handle_accept`, `handle_read`, `handle_write` of src/server.cpp): one
-- event after the other, and what is done with each command of a connection.
use redis_lite.Common.{
  ℕ, suc, Bool, true, false, ◌&&◌, List, [], ◌∷◌, ◌++◌, Option, some, Bytes, codes, str_eq,
  if◌then◌else◌,
}
use redis_lite.Common.Int.{ℤ, pos}
use redis_lite.Resp.{ParseResult}
use redis_lite.Pipeline.{process}
use redis_lite.Command.Execute.{execute}
use redis_lite.Server.State.{ClientType, Client, Server, Env, ◌>>=◌, change, append, update}
use redis_lite.Server.Send.{is_empty, remove_client, try_send}
use redis_lite.Server.Wait.{handle_wait, check_wait_timeouts}
use redis_lite.Server.Replicate.{name_of, track, handle_master_read, handle_replica_read, sweep}
use redis_lite.Server.Psync.{handle_psync}
use redis_lite.Server.Role.{handle_replicaof}

-- What `recv` comes to.
pub data Received : Type 0 where
  arrived : Bytes → Received
  closed would_block broken : Received

pub data Event : Type 0 where
  accepted : ℕ → Event
  readable : ℕ → Received → Event
  writable : ℕ → Event
  -- The end of a round, with the clock that the sweep reads.
  round_end : (ℕ → ℤ) → Event

-- `handle_accept`, with the descriptor of the new connection.
unfoldable pub handle_accept : ℕ → Server → Server
handle_accept fd s = record s {
  clients =
      update s.created
        (some (record {
          fd = fd;
          type = ClientType.regular;
          read_buf = [];
          write_buf = [];
          ack_offset = pos 0;
          watches_out = false;
        }))
        s.clients;
  created = suc s.created;
}

abbrev pub with_read_buf : Bytes → Client → Client
with_read_buf bytes client = record client { read_buf = bytes }

module _ (env : Env) where
  -- What a client that is neither master nor replica asked for.
  unfoldable pub on_request : ℕ → List Bytes → Bytes → Server → Option Server
  on_request c args response s =
      let name = name_of args in
      if str_eq name (codes "WAIT") && is_empty response
      then handle_wait env c args s >>= (λ s'. some (track name args s'))
      else if str_eq name (codes "REPLICAOF") && is_empty response
      then handle_replicaof env c args s
      else if str_eq name (codes "PSYNC") && is_empty response
      then handle_psync env c args s >>= (λ s'. some (track name args s'))
      else append response c s >>= (λ s'. some (track name args s'))

  unfoldable pub dispatch : ClientType → ℕ → ParseResult → Bytes → Server → Option Server
  dispatch ClientType.master_conn c r response s =
      handle_master_read c r.args response r.bytes_consumed s
  dispatch ClientType.replica c r response s = handle_replica_read env c r.args s
  dispatch ClientType.regular c r response s = on_request c r.args response s

  unfoldable pub is_master_conn : ClientType → Bool
  is_master_conn ClientType.master_conn = true
  is_master_conn _ = false

  -- One command: executed, then dispatched, and the client is still there for
  -- `read_buf.erase(0, bytes_consumed)`.
  unfoldable pub on_command : ℕ → Option Server → ParseResult → Option Server
  on_command c state r = do
    s ← state
    client ← s.clients c
    let (response, store) =
        execute (env.now s.calls) r.args s.store s.repl_info (is_master_conn client.type)
    s' ← dispatch client.type c r response (record s { store = store; calls = suc s.calls })
    client' ← s'.clients c
    some s'

  -- `if (!client->write_buf.empty()) try_send(client);`
  unfoldable pub send_answers : ℕ → Server → Option Server
  send_answers c s = do
    client ← s.clients c
    if is_empty client.write_buf then some s else try_send env c s

  -- The bytes received, the loop over the complete commands, and the answers.
  unfoldable pub handle_bytes : ℕ → Bytes → Server → Option Server
  handle_bytes c chunk s = do
    client ← s.clients c
    let (state, rest) = process (on_command c) (some s) (client.read_buf ++ chunk)
    s' ← state
    s'' ← change (with_read_buf rest) c s'
    send_answers c s''

  -- `handle_read`
  unfoldable pub handle_read : ℕ → Received → Server → Option Server
  handle_read c (Received.arrived chunk) s = handle_bytes c chunk s
  handle_read c Received.closed s = remove_client c s
  handle_read c Received.would_block s = some s
  handle_read c Received.broken s = remove_client c s

  unfoldable pub on_event : Event → Server → Option Server
  on_event (Event.accepted fd) s = some (handle_accept fd s)
  on_event (Event.readable c received) s = handle_read c received s
  on_event (Event.writable c) s = try_send env c s
  on_event (Event.round_end clock) s = check_wait_timeouts env s >>= (λ s'. some (sweep clock s'))

  unfoldable pub run : List Event → Server → Option Server
  run [] s = some s
  run (e ∷ es) s = on_event e s >>= run es
