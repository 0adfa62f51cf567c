-- ===== src/Server/Answers.antt =====
-- What the clients parked by WAIT are answered (`resolve_pending_waits` of src/server.cpp): the bytes
-- in their write buffers, while no socket takes any of them.
use redis_lite.Common.{
  ℕ, zero, suc, ◌≡◌, ◌≢◌, refl, sym, ◌∙◌, ap, true, false, Bool, List, [], ◌∷◌, ◌++◌, append_assoc,
  append-nil, Option, some, none, Bytes, codes, arith, Bool-cases, inl, inr, if◌then◌else◌, length,
  ℕ_discrete, ◌==◌,
}
use redis_lite.Common.Int.{ℤ}
use redis_lite.Number.{of_ℕ}
use redis_lite.Server.State.{
  Client, WaitState, Server, Env, Sent, update, append, appended, change, ◌>>=◌,
}
use redis_lite.Server.Send.{remove_client, is_empty, flush, flushed, try_send, answer, answer_count}
use redis_lite.Server.Wait.{Ready, answer_waits, still_there}
use redis_lite.Server.Quiet.{view, blank-update}
use redis_lite.Server.Live.{IsLive, client_of, count-view, WaitsLive, waits-view}
use redis_lite.Server.Parked.{Counts}

-- No socket takes a byte.
abbrev pub IsFull : Env → Type 0
IsFull env = (n fd : ℕ) (bytes : Bytes) → env.send n fd bytes ≡ Sent.again

flush-IsFull :
    (env : Env) (f fd : ℕ) (buf : Bytes) (calls : ℕ)
    → IsFull env
    → ((flush env f fd buf calls).left ≡ buf) × ((flush env f fd buf calls).broken ≡ false)
unfolding flush
flush-IsFull env zero fd buf calls full = (refl, refl)
flush-IsFull env (suc f) fd [] calls full = (refl, refl)
flush-IsFull env (suc f) fd (b ∷ buf) calls full = rw (full calls fd (b ∷ buf), flush) (refl, refl)

-- The rest of the buffers, and the buffer of one client.
abbrev Appended : ℕ → Bytes → Client → Server → Server → Type 0
Appended c text client s s' =
    (client' : Client) × (s'.clients c ≡ some client')
    × (client'.write_buf ≡ client.write_buf ++ text)
    × ((d : ℕ) → c ≢ d → s'.clients d ≡ s.clients d)

pub update_same :
    (c : ℕ) (o : Option Client) (clients : ℕ → Option Client) → update c o clients c ≡ o
unfolding update
update_same c o clients = ground arith

pub update_other :
    (c d : ℕ) (o : Option Client) (clients : ℕ → Option Client)
    → c ≢ d
    → update c o clients d ≡ clients d
unfolding update
update_other c d o clients ne = ground arith

answer-Appended :
    (env : Env) (text : Bytes) (c : ℕ) (client : Client) (s : Server)
    → IsFull env
    → s.clients c ≡ some client
    → (s' : Server) × (answer env text c s ≡ some s')
      × Appended c text client s s'
      × (view s' ≡ view s)
unfolding answer append change try_send flush update remove_client is_empty
answer-Appended env text c client s full live =
    let client1 : Client = appended text client in
    let clients1 = update c (some client1) s.clients in
    let r = flush env (length client1.write_buf) client1.fd client1.write_buf s.calls in
    let (left, whole) =
      flush-IsFull env (length client1.write_buf) client1.fd client1.write_buf s.calls full in
    let here = update_same c (some client1) s.clients in
    (
      record s { clients = update c (some (flushed r client1)) clients1; calls = r.calls },
      rw live (rw here (rw here (rw whole refl))),
      (
        flushed r client1,
        update_same c (some (flushed r client1)) clients1,
        left,
        λ d ne.
            update_other c d (some (flushed r client1)) clients1 ne
            ∙ update_other c d (some client1) s.clients ne,
      ),
      ap (λ (h : ℕ → Option Client). record s { clients = h; calls = 0 })
          (blank-update c client1 (flushed r client1) clients1 here refl
            ∙ blank-update c client client1 s.clients live refl),
    )

-- The bytes to send to a client.
abbrev pub buf_of : Option Client → Bytes
buf_of none = []
buf_of (some client) = client.write_buf

abbrev pub reply : ℕ → Bytes
reply n = codes ":" ++ (of_ℕ n ++ codes "\r\n")

-- What a round writes to the client `d`.
abbrev pub told : Ready → (ℤ → ℕ) → ℕ → List WaitState → Bytes
told ready counts d [] = []
told ready counts d (w ∷ ws) =
    let rest = told ready counts d ws in
    let n = counts w.target_offset in
    if ready w n then (if w.client == d then reply n ++ rest else rest) else rest

same_key : (c d : ℕ) → c ≡ d → (c == d) ≡ true
same_key c d e = ground arith

other_key : (c d : ℕ) → c ≢ d → (c == d) ≡ false
other_key c d ne = ground arith

if-append :
    (b : Bool) (x y z : Bytes) → (if b then x ++ y else x) ++ z ≡ x ++ (if b then y ++ z else z)
if-append true x y z = append_assoc x y z
if-append false x y z = refl

buf-Appended :
    (c d : ℕ) (text : Bytes) (client : Client) (s s' : Server)
    → s.clients c ≡ some client
    → Appended c text client s s'
    → buf_of (s'.clients d)
      ≡ (if c == d then buf_of (s.clients d) ++ text else buf_of (s.clients d))
buf-Appended c d text client s s' live (client', live', longer, others) = elim (ℕ_discrete c d) [
  | yes e ↦ rw (same_key c d e) (
      ap (λ k. buf_of (s'.clients k)) (sym e)
      ∙ ap buf_of live'
      ∙ longer
      ∙ ap (λ o. buf_of o ++ text) (sym live)
      ∙ ap (λ k. buf_of (s.clients k) ++ text) e)
  | no ne ↦ rw (other_key c d ne) (ap buf_of (others d ne))
]

answered_buf :
    (env : Env) (n : ℕ) (w : WaitState) (s : Server)
    → IsFull env
    → IsLive s.clients w.client
    → (s' : Server) × (answer_count env n w.client s >>= still_there w.client ≡ some s')
      × ((d : ℕ)
          → buf_of (s'.clients d)
            ≡ (if w.client == d then buf_of (s.clients d) ++ reply n else buf_of (s.clients d)))
      × (view s' ≡ view s)
unfolding answer_count still_there
answered_buf env n w s full live =
    let (client, there) = client_of s.clients w.client live in
    let (s1, sent, (client1, there1, longer, others), same) =
      answer-Appended env (reply n) w.client client s full there in
    (
      s1,
      rw (sent, there1) refl,
      λ d. buf-Appended w.client d (reply n) client s s1 there (client1, there1, longer, others),
      same,
    )

pub answer_waits-told :
    (env : Env) (ready : Ready) (counts : ℤ → ℕ) (ws kept : List WaitState) (s : Server)
    → IsFull env
    → Counts s counts
    → WaitsLive s ws
    → (s' : Server) × (answer_waits env ready kept ws s ≡ some s')
      × ((d : ℕ) → buf_of (s'.clients d) ≡ buf_of (s.clients d) ++ told ready counts d ws)
unfolding answer_waits
answer_waits-told env ready counts [] kept s full count live =
    (record s { pending_waits = kept }, refl, λ d. sym (append-nil (buf_of (s.clients d))))
answer_waits-told env ready counts (w ∷ ws) kept s full count live =
    elim (Bool-cases (ready w (counts w.target_offset))) [
      | inl now ↦
          let (s1, sent, more, same1) = answered_buf env (counts w.target_offset) w s full live.0 in
          let (s', done, rest) =
            answer_waits-told env ready counts ws kept s1 full
              (λ t. count-view s s1 t same1 ∙ count t) (waits-view s s1 ws same1 live.1) in
          (
            s',
            rw (count w.target_offset, now, sent) done,
            λ d.
                let before = buf_of (s.clients d) in
                let after = told ready counts d ws in
                rest d
                ∙ ap (λ text. text ++ after) (more d)
                ∙ if-append (w.client == d) before (reply (counts w.target_offset)) after
                ∙ rw now refl,
          )
      | inr later ↦
          let (s', done, rest) =
            answer_waits-told env ready counts ws (kept ++ w ∷ []) s full count live.1 in
          (s', rw (count w.target_offset, later) done, λ d. rw later (rest d))
    ]
