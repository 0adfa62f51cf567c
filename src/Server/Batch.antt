-- ===== src/Server/Batch.antt =====
-- A chunk of writes through `handle_read` (src/server.cpp): what it comes to, and the stream behind
-- it.
use redis_lite.Common.{
  ℕ, ◌+◌, ◌<◌, ◌^◌, ◌≡◌, refl, sym, ◌∙◌, ap, List, [], ◌∷◌, ◌++◌, some, Bytes, length, All,
  Bool-cases, inl, inr,
}
use redis_lite.Pipeline.Chunks.{Sendable, sent, handle_all, process-encoded}
use redis_lite.Server.State.{ClientType, Client, Server, Env}
use redis_lite.Server.Send.{is_empty, flushed}
use redis_lite.Server.Loop.{
  Received, on_command, send_answers, handle_bytes, handle_read, with_read_buf,
}
use redis_lite.Server.Stream.{stream, InStep}
use redis_lite.Server.Quiet.{blank, view, Unbroken, change_quiet, try_send-flushed}
use redis_lite.Server.Promote.{InStep-view}
use redis_lite.Server.Writes.{
  IsWrite, apply_all, applied, faced, answered, handled, InStep-apply_all, live-handled,
  on_command-write, faced-handled, faced-apply_all,
}

-- What the rest of the loop reads of a client.
abbrev pub SameInput : Client → Client → Type 0
SameInput client' client = (client'.read_buf ≡ client.read_buf) × (client'.type ≡ client.type)

-- The loop over the writes of one client.
pub handle_all-writes :
    (env : Env) (c : ℕ) (cmds : List (List Bytes)) (client : Client) (s : Server)
    → All IsWrite cmds
    → s.clients c ≡ some client
    → client.type ≡ ClientType.regular
    → (s' : Server) × (client' : Client) × (handle_all (on_command env c) (some s) cmds ≡ some s')
      × (s'.clients c ≡ some client')
      × SameInput client' client
      × (faced s' ≡ faced (apply_all env cmds s))
handle_all-writes env c [] client s writes live regular =
    (s, client, refl, live, (refl, refl), refl)
handle_all-writes env c (args ∷ cmds) client s (write, writes) live regular =
    let s1 = handled env c args client s in
    let (s', client', done, live', buffer, same) =
      handle_all-writes env c cmds (answered env args client s) s1 writes
        (live-handled env c args client s) regular in
    (
      s',
      client',
      ap (λ o. handle_all (on_command env c) o cmds)
            (on_command-write env c args client s write live regular)
          ∙ done,
      live',
      buffer,
      same
          ∙ faced-apply_all env cmds s1
          ∙ ap (apply_all env cmds) (faced-handled env c args client s live)
          ∙ sym (faced-apply_all env cmds (applied env args s)),
    )

-- The answers, at a client that is still there.
pub send_answers_here :
    (env : Env) (c : ℕ) (client : Client) (s : Server)
    → Unbroken env
    → s.clients c ≡ some client
    → (s' : Server) × (client' : Client) × (send_answers env c s ≡ some s')
      × (s'.clients c ≡ some client')
      × SameInput client' client
      × (view s' ≡ view s)
unfolding send_answers
send_answers_here env c client s calm live = elim (Bool-cases (is_empty client.write_buf)) [
  | inl none_left ↦ (s, client, rw (live, none_left) refl, live, (refl, refl), refl)
  | inr some_left ↦
      let (s', r, done, live', same) = try_send-flushed env c client s calm live in
      (s', flushed r client, rw (live, some_left) done, live', (refl, refl), same)
]

pub send_answers_quiet :
    (env : Env) (c : ℕ) (client : Client) (s : Server)
    → Unbroken env
    → s.clients c ≡ some client
    → (s' : Server) × (send_answers env c s ≡ some s') × (view s' ≡ view s)
send_answers_quiet env c client s calm live =
    let (s', client', done, live', input, same) = send_answers_here env c client s calm live in
    (s', done, same)

-- A client that is neither replica nor master sends writes (SET or DEL, in any spelling, of at most
-- `INT_MAX` arguments of at most `INT_MAX` bytes), as one chunk of bytes into an empty read buffer,
-- and no connection breaks. The handler ends; but for the clients' buffers the server is as if the
-- commands had been executed one after the other, each at its own reading of the clock, and each
-- recorded in the stream once; and the offset and the backlog of a master that was in step with its
-- stream stay in step, with exactly the encodings of the commands added (offsets below 2 ^ 63).
pub handle_read-writes :
    (env : Env) (c cap g : ℕ) (w : Bytes) (cmds : List (List Bytes)) (client : Client) (s : Server)
    → Unbroken env
    → s.clients c ≡ some client
    → client.type ≡ ClientType.regular
    → client.read_buf ≡ []
    → All Sendable cmds
    → All IsWrite cmds
    → InStep s cap g w
    → g + length (w ++ stream cmds) < 2 ^ 63
    → (s' : Server) × (handle_read env c (Received.arrived (stream cmds)) s ≡ some s')
      × (view s' ≡ view (apply_all env cmds s))
      × InStep s' cap g (w ++ stream cmds)
unfolding handle_read handle_bytes
handle_read-writes env c cap g w cmds client s calm live regular empty sendable writes h small =
    let (s1, client1, done1, live1, (buffer, type), same1) =
      handle_all-writes env c cmds client s writes live regular in
    let parsed = process-encoded (on_command env c) (some s) cmds sendable in
    let (s2, cleared, live2, same2) =
      change_quiet (with_read_buf []) c client1 s1 live1
        (ap (λ r. blank (with_read_buf r client1)) (sym (buffer ∙ empty))) in
    let (s', sent, same') = send_answers_quiet env c _ s2 calm live2 in
    let same = same' ∙ same2 ∙ ap (λ (v : Server). record v { calls = 0 }) same1 in
    (
      s',
      rw (live, empty, parsed, done1, cleared) sent,
      same,
      InStep-view (apply_all env cmds s) s' cap g (w ++ stream cmds) same
          (InStep-apply_all env cmds s cap g w small h),
    )
