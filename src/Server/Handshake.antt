-- ===== src/Server/Handshake.antt =====
-- The handshake of a replica with its master (`connect_to_master` and `send_and_recv` of
-- src/server.cpp), as a function of the pieces that `recv` returns. A list that ends is a `send` or
-- `recv` that fails. Sockets are made and watched by the environment.
use redis_lite.Common.{
  ℕ, suc, ◌+◌, ◌-◌, ◌%◌, ◌^◌, Bool, true, false, ◌&&◌, ◌||◌, List, [], ◌∷◌, ◌++◌, Option, none,
  some, Bytes, length, take, drop, codes, ltb, leb, ◌==◌, if◌then◌else◌,
}
use redis_lite.Common.Int.{ℤ}
use redis_lite.Common.Word.{to_u64}
use redis_lite.Number.{of_ℤ, stoi, stoll}
use redis_lite.Resp.{encode_array}
use redis_lite.Store
use redis_lite.Store.{Store}
use redis_lite.Replication.{ReplicationInfo}
use redis_lite.Rdb.Load.{load}
use redis_lite.Server.State.{◌>>=◌}
use redis_lite.Server.Send.{is_empty}
use redis_lite.Server.Wait.{is_zero}

unfoldable pub starts_with : Bytes → Bytes → Bool
starts_with [] bytes = true
starts_with (p ∷ text) [] = false
starts_with (p ∷ text) (b ∷ bytes) = p == b && starts_with text bytes

unfoldable pub next_index : Option ℕ → Option ℕ
next_index none = none
next_index (some n) = some (suc n)

-- `bytes.find(text)`; `none` is `npos`.
unfoldable pub index_of : Bytes → Bytes → Option ℕ
index_of text [] = if is_empty text then some 0 else none
index_of text (b ∷ bytes) =
    if starts_with text (b ∷ bytes) then some 0 else next_index (index_of text bytes)

-- `bytes.find(text) != npos`
unfoldable pub occurs : Bytes → Bytes → Bool
occurs text bytes = elim (index_of text bytes) [ none ↦ false | some n ↦ true ]

-- The identifier and offset of the PSYNC request.
unfoldable pub psync_request : ReplicationInfo → List Bytes
psync_request r =
    if is_empty r.master_replid || is_zero r.master_repl_offset
    then codes "PSYNC" ∷ codes "?" ∷ codes "-1" ∷ []
    else codes "PSYNC" ∷ r.master_replid ∷ of_ℤ r.master_repl_offset ∷ []

-- The four messages of the handshake.
unfoldable pub requests : ℤ → ReplicationInfo → List Bytes
requests listen_port r =
    encode_array (codes "PING" ∷ [])
    ∷ encode_array (codes "REPLCONF" ∷ codes "listening-port" ∷ of_ℤ listen_port ∷ [])
    ∷ encode_array (codes "REPLCONF" ∷ codes "capa" ∷ codes "psync2" ∷ [])
    ∷ encode_array (psync_request r)
    ∷ []

-- One `send_and_recv` whose answer must hold `text`; the pieces behind the answer.
unfoldable pub expect : Bytes → List Bytes → Option (List Bytes)
expect text [] = none
expect text (piece ∷ pieces) = if occurs text piece then some pieces else none

unfoldable pub greet : List Bytes → Option (List Bytes)
greet pieces = expect (codes "+PONG") pieces >>= expect (codes "+OK") >>= expect (codes "+OK")

-- `substr(from, to - from)` on `size_t`: a difference below zero reaches to the end.
unfoldable pub between : ℕ → ℕ → Bytes → Bytes
between from to bytes = if leb from to then take (to - from) (drop from bytes) else drop from bytes

-- The identifier and the text of the offset in `+FULLRESYNC <replid> <offset>\r\n`.
unfoldable pub resync_fields : Bytes → Option (Bytes × Bytes)
resync_fields reply = do
  space1 ← index_of (codes " ") reply
  step ← index_of (codes " ") (drop (space1 + 1) reply)
  crlf ← index_of (codes "\r\n") reply
  let space2 = space1 + 1 + step
  some (between (space1 + 1) space2 reply, between (space2 + 1) crlf reply)

unfoldable pub joined_info : Bytes → Option ℤ → ReplicationInfo → Option ReplicationInfo
joined_info replid none r = none
joined_info replid (some offset) r =
    some (record r { master_replid = replid; master_repl_offset = offset })

-- `none`: the exception of `std::stoll`, which nothing catches.
unfoldable pub resync_info : Bytes → ReplicationInfo → Option ReplicationInfo
resync_info reply r = elim (resync_fields reply) [
  | none ↦ some r
  | some (replid, offset) ↦ joined_info replid (stoll offset) r
]

-- The text of the length and the start of the snapshot, once the line `$<length>\r\n` is there.
unfoldable pub rdb_header : Bytes → Option (Bytes × ℕ)
rdb_header accumulated = do
  dollar ← index_of (codes "$") accumulated
  line ← index_of (codes "\r\n") (drop dollar accumulated)
  some (take (line - 1) (drop (dollar + 1) accumulated), dollar + line + 2)

-- `recv` until the line is there: its fields, what was read, and the pieces to come.
unfoldable pub await_header : Bytes → List Bytes → Option ((Bytes × ℕ) × Bytes × List Bytes)
await_header accumulated [] = elim (rdb_header accumulated) [
  | none ↦ none
  | some h ↦ some (h, accumulated, [])
]
await_header accumulated (piece ∷ pieces) = elim (rdb_header accumulated) [
  | none ↦ await_header (accumulated ++ piece) pieces
  | some h ↦ some (h, accumulated, piece ∷ pieces)
]

-- `recv` until `size` bytes are there.
unfoldable pub await_size : ℕ → Bytes → List Bytes → Option (Bytes × List Bytes)
await_size size accumulated [] =
    if ltb (length accumulated) size then none else some (accumulated, [])
await_size size accumulated (piece ∷ pieces) =
    let more = await_size size (accumulated ++ piece) pieces in
    if ltb (length accumulated) size then more else some (accumulated, piece ∷ pieces)

-- The snapshot, the bytes read behind it, and the pieces to come. `rdb_len` may be negative: the
-- sum is of `size_t`.
unfoldable pub rdb_bytes : ℕ → ℤ → Bytes → List Bytes → Option (Bytes × Bytes × List Bytes)
rdb_bytes rdb_start rdb_len accumulated pieces =
    let rdb_end = (rdb_start + to_u64 rdb_len) % 2 ^ 64 in
    elim (await_size rdb_end accumulated pieces) [
      | none ↦ none
      | some (all, rest) ↦ some (take (to_u64 rdb_len) (drop rdb_start all), drop rdb_end all, rest)
    ]

-- The snapshot of a reply, from the first piece of it on.
unfoldable pub receive_rdb : Bytes → List Bytes → Option (Bytes × Bytes × List Bytes)
receive_rdb reply pieces = do
  ((text, rdb_start), accumulated, rest) ← await_header reply pieces
  rdb_len ← stoi text
  rdb_bytes rdb_start rdb_len accumulated rest

-- How a handshake ends: the metadata and the store behind it, whether the replica is connected (a
-- `std::runtime_error` if not), the bytes for its read buffer, and the pieces not received yet.
pub record Joined : Type 0 where
  pub info : ReplicationInfo
  pub store : Store
  pub connected : Bool
  pub leftover : Bytes
  pub unread : List Bytes

abbrev pub refused : ReplicationInfo → Store → Joined
refused r store = record { info = r; store = store; connected = false; leftover = []; unread = [] }

-- The snapshot loaded; one that is refused leaves an empty store.
unfoldable pub load_or_clear : ℤ → (ℕ → ℤ) → Bytes → Store → Store
load_or_clear sys clock bytes store =
    let (loaded, store') = load sys clock bytes store in
    if loaded then store' else Store.clear store'

unfoldable pub joined_full :
    ℤ → (ℕ → ℤ) → ReplicationInfo → Store → Option (Bytes × Bytes × List Bytes) → Joined
joined_full sys clock r store none = refused r store
joined_full sys clock r store (some (bytes, leftover, unread)) = record {
  info = r;
  store = load_or_clear sys clock bytes store;
  connected = true;
  leftover = leftover;
  unread = unread;
}

-- The answer to PSYNC, in the piece `reply` and those behind it.
unfoldable pub on_reply : ℤ → (ℕ → ℤ) → ReplicationInfo → Store → Bytes → List Bytes → Option Joined
on_reply sys clock r store reply pieces =
    if occurs (codes "+CONTINUE") reply
    then some (record { info = r; store = store; connected = true; leftover = []; unread = pieces })
    else if occurs (codes "+FULLRESYNC") reply
    then (do
      r' ← resync_info reply r
      some (joined_full sys clock r' store (receive_rdb reply pieces)))
    else some (refused r store)

-- The dialogue on a new connection. `none`: an exception that nothing catches.
unfoldable pub join : ℤ → (ℕ → ℤ) → ReplicationInfo → Store → List Bytes → Option Joined
join sys clock r store pieces = elim (greet pieces) [
  | none ↦ some (refused r store)
  | some [] ↦ some (refused r store)
  | some (reply ∷ rest) ↦ on_reply sys clock r store reply rest
]
