-- ===== src/Server/Follow.antt =====
-- A replica and the stream of its master (`handle_read` of src/server.cpp), as it arrives in chunks.
use mathlib.Core.Path.{subst}
use redis_lite.Common.{
  ℕ, ◌+◌, ◌<◌, ◌^◌, ◌≡◌, refl, sym, ◌∙◌, ap, false, List, [], ◌∷◌, ◌++◌, some, Option, Bytes,
  length, length-append, All, arith, str_eq, flatten, append_assoc, append-nil, All-split,
}
use redis_lite.Common.Int.{pos}
use redis_lite.Resp.{encode_array, parse}
use redis_lite.Pipeline.Chunks.{Sendable}
use redis_lite.Replication.{ReplicationInfo, worker}
use redis_lite.Command.Agree.{Alike}
use redis_lite.Server.State.{ClientType, Client, Server, Env, update, change}
use redis_lite.Server.Loop.{
  Received, on_command, handle_bytes, handle_read, with_read_buf, Event, run, on_event,
}
use redis_lite.Server.Stream.{stream}
use redis_lite.Server.Quiet.{Unbroken}
use redis_lite.Server.Writes.{IsWrite, applied, apply_all}
use redis_lite.Pipeline.Prefix.{Handled, process-prefix, encoded-incomplete}
use redis_lite.Server.Batch.{send_answers_here}
use redis_lite.Server.Peers.{update_here}
use redis_lite.Server.Mirror.{
  follow_all, handle_all-followed, clients-follow_all, role-record_write, stores-Alike,
  offset-follow_all,
}

-- A chunk at the connection to the master, with `y` of the stream still to come.
handle_read-chunk :
    (env : Env) (m : ℕ) (cmds : List (List Bytes)) (client : Client) (s : Server) (chunk y : Bytes)
    → Unbroken env
    → s.clients m ≡ some client
    → client.type ≡ ClientType.master_conn
    → All Sendable cmds
    → All IsWrite cmds
    → (client.read_buf ++ chunk) ++ y ≡ stream cmds
    → (h : Handled (on_command env m) (some s) cmds (client.read_buf ++ chunk) y) × (s' : Server)
      × (client' : Client) × (handle_read env m (Received.arrived chunk) s ≡ some s')
      × (s'.clients m ≡ some client')
      × (client'.type ≡ ClientType.master_conn)
      × (client'.read_buf ≡ h.rest)
      × (s'.store ≡ (follow_all env h.done s).store)
      × (s'.repl_info ≡ (follow_all env h.done s).repl_info)
unfolding handle_read handle_bytes change
handle_read-chunk env m cmds client s chunk y calm live conn sendable writes e =
    let h =
      process-prefix (on_command env m) (some s) cmds (client.read_buf ++ chunk) y sendable e in
    let writes1 = (All-split IsWrite h.done h.left (subst (All IsWrite) h.all writes)).0 in
    let s1 = follow_all env h.done s in
    let done1 = handle_all-followed env m h.done client s writes1 live conn in
    let live1 = ap (λ (f : ℕ → Option Client). f m) (clients-follow_all env h.done s) ∙ live in
    let client1 : Client = with_read_buf h.rest client in
    let s2 : Server = record s1 { clients = update m (some client1) s1.clients } in
    let (s', client', sent', live', input, same) =
      send_answers_here env m client1 s2 calm (update_here m (some client1) s1.clients) in
    (
      h,
      s',
      client',
      rw (live, h.result, done1, live1) sent',
      live',
      input.1 ∙ conn,
      input.0,
      ap (λ (v : Server). v.store) same,
      ap (λ (v : Server). v.repl_info) same,
    )

-- The reads of chunks at a connection.
abbrev pub reads : ℕ → List Bytes → List Event
reads m [] = []
reads m (chunk ∷ chunks) = Event.readable m (Received.arrived chunk) ∷ reads m chunks

pub stream-append :
    (front back : List (List Bytes)) → stream (front ++ back) ≡ stream front ++ stream back
stream-append [] back = refl
stream-append (args ∷ front) back =
    ap (λ r. encode_array args ++ r) (stream-append front back)
    ∙ sym (append_assoc (encode_array args) (stream front) (stream back))

apply_all-append :
    (env : Env) (front back : List (List Bytes)) (s : Server)
    → apply_all env (front ++ back) s ≡ apply_all env back (apply_all env front s)
apply_all-append env [] back s = refl
apply_all-append env (args ∷ front) back s = apply_all-append env front back (applied env args s)

pub role-apply_all :
    (env : Env) (cmds : List (List Bytes)) (s : Server)
    → (apply_all env cmds s).repl_info.role ≡ s.repl_info.role
role-apply_all env [] s = refl
role-apply_all env (args ∷ cmds) s =
    role-apply_all env cmds (applied env args s) ∙ role-record_write args _

-- A connection of type `t` at the server `r`, with a part of a command in its read buffer.
pub record IsFed (t : ClientType) (r : Server) (m : ℕ) (buf : Bytes) : Type 0 where
  pub conn : Client
  pub live : r.clients m ≡ some conn
  pub type : conn.type ≡ t
  pub buffer : conn.read_buf ≡ buf
  pub incomplete : (parse buf).bytes_consumed ≡ 0

-- No chunk is left, so no command is.
pub no_command_left :
    (buf : Bytes) (cmds : List (List Bytes))
    → All Sendable cmds
    → (parse buf).bytes_consumed ≡ 0
    → buf ++ [] ≡ stream cmds
    → (cmds ≡ []) × (buf ≡ [])
no_command_left buf cmds sendable z e =
    let same = sym (append-nil buf) ∙ e in
    let nil = encoded-incomplete cmds sendable (subst (λ b. (parse b).bytes_consumed ≡ 0) same z) in
    (nil, same ∙ ap stream nil)

pub length-stream_split :
    (cmds front back : List (List Bytes))
    → cmds ≡ front ++ back
    → length (stream cmds) ≡ length (stream front) + length (stream back)
length-stream_split cmds front back e =
    ap (λ (c : List (List Bytes)). length (stream c)) e
    ∙ ap (λ (b : Bytes). length b) (stream-append front back)
    ∙ length-append (stream front) (stream back)

-- The chunks of a stream at a replica, next to the master `s` that executes the same commands.
pub run-reads :
    (env env' : Env) (m o : ℕ) (buf : Bytes) (chunks : List Bytes) (cmds : List (List Bytes))
    (s r : Server)
    → Unbroken env'
    → IsFed ClientType.master_conn r m buf
    → All Sendable cmds
    → All IsWrite cmds
    → buf ++ flatten chunks ≡ stream cmds
    → str_eq s.repl_info.role worker ≡ false
    → Alike s.store r.store
    → r.repl_info.master_repl_offset ≡ pos o
    → o + length (stream cmds) < 2 ^ 63
    → (r' : Server) × (run env' (reads m chunks) r ≡ some r')
      × Alike (apply_all env cmds s).store r'.store
      × (r'.repl_info.master_repl_offset ≡ pos (o + length (stream cmds)))
      × IsFed ClientType.master_conn r' m []
unfolding run on_event
run-reads env env' m o buf [] cmds s r calm fed sendable writes e is_master alike at small =
    let (nil, empty) = no_command_left buf cmds sendable fed.incomplete e in
    let none_left = ap (λ (c : List (List Bytes)). length (stream c)) nil in
    (
      r,
      refl,
      subst (λ c. Alike (apply_all env c s).store r.store) (sym nil) alike,
      at ∙ ap pos (omega (arith, none_left)),
      subst (IsFed ClientType.master_conn r m) empty fed,
    )
run-reads env env' m o buf (chunk ∷ chunks) cmds s r calm fed sendable writes e is_master alike at
      small =
    let received =
      ap (λ (b : Bytes). (b ++ chunk) ++ flatten chunks) fed.buffer
      ∙ append_assoc buf chunk (flatten chunks)
      ∙ e in
    let (h, r1, conn1, done, live1, type1, buffer1, store, info) =
      handle_read-chunk env' m cmds fed.conn r chunk (flatten chunks) calm fed.live fed.type
        sendable writes received in
    let s1 = apply_all env h.done s in
    let sends = All-split Sendable h.done h.left (subst (All Sendable) h.all sendable) in
    let wrote = All-split IsWrite h.done h.left (subst (All IsWrite) h.all writes) in
    let size = length-stream_split cmds h.done h.left h.all in
    let alike1 =
      subst (λ t. Alike s1.store t) (sym store)
        (stores-Alike env env' h.done s r wrote.0 is_master alike) in
    let at1 =
      ap (λ (i : ReplicationInfo). i.master_repl_offset) info
      ∙ offset-follow_all env' h.done r o at (omega (arith, size)) in
    let fed1 : IsFed ClientType.master_conn r1 m h.rest = record {
      conn = conn1;
      live = live1;
      type = type1;
      buffer = buffer1;
      incomplete = h.incomplete;
    } in
    let (r2, ran, alike2, at2, fed2) =
      run-reads env env' m (o + length (stream h.done)) h.rest chunks h.left s1 r1 calm fed1 sends.1
        wrote.1 h.follows
        (ap (λ role. str_eq role worker) (role-apply_all env h.done s) ∙ is_master) alike1 at1
        (omega (arith, size)) in
    (
      r2,
      rw done ran,
      subst (λ (t : Server). Alike t.store r2.store)
          (sym (ap (λ c. apply_all env c s) h.all ∙ apply_all-append env h.done h.left s)) alike2,
      at2 ∙ ap pos (omega (arith, size)),
      fed2,
    )
