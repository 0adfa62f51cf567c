-- ===== src/Server/Quiet.antt =====
-- Answers change nothing but the buffers of clients (`try_send` of src/server.cpp), as long as no
-- connection breaks.
use mathlib.Core.Path.{fun_ext}
use redis_lite.Common.{
  ℕ, zero, suc, ◌≡◌, ◌≢◌, refl, ◌∙◌, ap, false, [], ◌∷◌, Option, some, none, Bytes, length, arith,
  ℕ_discrete, drop,
}
use redis_lite.Server.State.{Client, Server, Env, Sent, change, append, appended, update}
use redis_lite.Server.Send.{Flushed, flush, flushed, try_send, answer}

-- A client without its buffers.
abbrev pub blank : Client → Client
blank client = record client { write_buf = []; watches_out = false }

abbrev pub blank? : Option Client → Option Client
blank? none = none
blank? (some client) = some (blank client)

abbrev pub blanks : (ℕ → Option Client) → ℕ → Option Client
blanks clients = λ c. blank? (clients c)

-- The server without its clients' buffers and the count of system calls.
abbrev pub view : Server → Server
view s = record s { clients = blanks s.clients; calls = 0 }

-- An environment in which no connection breaks.
abbrev pub Unbroken : Env → Type 0
Unbroken env = (n fd : ℕ) (bytes : Bytes) → env.send n fd bytes ≢ Sent.failed

-- One `send` of the loop, by what it comes to.
flush_round :
    (env : Env) (fuel fd b : ℕ) (buf : Bytes) (calls : ℕ) (r : Sent)
    → env.send calls fd (b ∷ buf) ≡ r
    → r ≢ Sent.failed
    → ((n : ℕ) → (flush env fuel fd (drop n buf) (suc calls)).broken ≡ false)
    → (flush env (suc fuel) fd (b ∷ buf) calls).broken ≡ false
unfolding flush
flush_round env fuel fd b buf calls (Sent.sent n) e h rest = rw (e, flush) (rest n)
flush_round env fuel fd b buf calls Sent.again e h rest = rw (e, flush) refl
flush_round env fuel fd b buf calls Sent.failed e h rest = absurd (h refl)

flush-Unbroken :
    (env : Env) (fuel fd : ℕ) (buf : Bytes) (calls : ℕ)
    → Unbroken env
    → (flush env fuel fd buf calls).broken ≡ false
flush-Unbroken env zero fd buf calls h = unfold flush in refl
flush-Unbroken env (suc fuel) fd [] calls h = unfold flush in refl
flush-Unbroken env (suc fuel) fd (b ∷ buf) calls h =
    flush_round env fuel fd b buf calls (env.send calls fd (b ∷ buf)) refl (h calls fd (b ∷ buf))
      (λ n. flush-Unbroken env fuel fd (drop n buf) (suc calls) h)

pub blank-update :
    (c : ℕ) (client client' : Client) (clients : ℕ → Option Client)
    → clients c ≡ some client
    → blank client' ≡ blank client
    → blanks (update c (some client') clients) ≡ blanks clients
unfolding update
blank-update c client client' clients live same = fun_ext (λ j. elim (ℕ_discrete c j) [
  | yes e ↦ ground (arith, live, same, ap clients e)
  | no ne ↦ ground arith
])

-- A change of a client's buffers.
pub change_quiet :
    (f : Client → Client) (c : ℕ) (client : Client) (s : Server)
    → s.clients c ≡ some client
    → blank (f client) ≡ blank client
    → (s' : Server) × (change f c s ≡ some s')
      × (s'.clients c ≡ some (f client))
      × (view s' ≡ view s)
unfolding change
change_quiet f c client s live same = (
  record s { clients = update c (some (f client)) s.clients },
  rw live refl,
  unfold update in ground arith,
  ap (λ (h : ℕ → Option Client). record s { clients = h; calls = 0 })
      (blank-update c client (f client) s.clients live same),
)

-- With no connection broken, `try_send` of a live client changes its write buffer alone.
pub try_send-flushed :
    (env : Env) (c : ℕ) (client : Client) (s : Server)
    → Unbroken env
    → s.clients c ≡ some client
    → (s' : Server) × (r : Flushed) × (try_send env c s ≡ some s')
      × (s'.clients c ≡ some (flushed r client))
      × (view s' ≡ view s)
unfolding try_send
try_send-flushed env c client s calm live =
    let r = flush env (length client.write_buf) client.fd client.write_buf s.calls in
    let (s', changed, live', same) =
      change_quiet (flushed r) c client (record s { calls = r.calls }) live refl in
    let ends =
      flush-Unbroken env (length client.write_buf) client.fd client.write_buf s.calls calm in
    (s', r, rw (live, changed, ends) refl, live', same)

-- It leaves the client live.
pub try_send_quiet :
    (env : Env) (c : ℕ) (client : Client) (s : Server)
    → Unbroken env
    → s.clients c ≡ some client
    → (s' : Server) × (client' : Client) × (try_send env c s ≡ some s')
      × (s'.clients c ≡ some client')
      × (view s' ≡ view s)
try_send_quiet env c client s calm live =
    let (s', r, done, live', same) = try_send-flushed env c client s calm live in
    (s', flushed r client, done, live', same)

pub answer_quiet :
    (env : Env) (text : Bytes) (c : ℕ) (client : Client) (s : Server)
    → Unbroken env
    → s.clients c ≡ some client
    → (s' : Server) × (client' : Client) × (answer env text c s ≡ some s')
      × (s'.clients c ≡ some client')
      × (view s' ≡ view s)
unfolding answer append
answer_quiet env text c client s calm live =
    let (s1, changed, live1, same1) = change_quiet (appended text) c client s live refl in
    let (s2, client2, sent, live2, same2) =
      try_send_quiet env c (appended text client) s1 calm live1 in
    (s2, client2, rw changed sent, live2, same2 ∙ same1)
