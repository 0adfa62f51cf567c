-- ===== src/Server/Reached.antt =====
-- WAITs whose number of replicas is reached (`handle_replica_read`, `resolve_pending_waits` and
-- `count_caught_up_replicas` of src/server.cpp).
use redis_lite.Common.{
  ℕ, suc, ◌≡◌, refl, ◌∙◌, ap, true, false, not, Bool, List, [], ◌∷◌, Option, some, none, Bytes,
  arith, Bool-cases, inl, inr, All, if◌then◌else◌,
}
use redis_lite.Common.Int.{ℤ, pos, ltb_ℤ}
use redis_lite.Common.Word.{leb_ℤ}
use redis_lite.Server.State.{Client, WaitState, Server, Env}
use redis_lite.Server.Wait.{
  enough, count_caught_up, count_caught_up_replicas, resolve_pending_waits,
}
use redis_lite.Server.Replicate.{handle_replica_read, acked, with_ack}
use redis_lite.Server.Quiet.{view, Unbroken}
use redis_lite.Server.Live.{IsLive, client_of, caught, unanswered, counted, WaitsLive}
use redis_lite.Server.Parked.{
  AllLive, acknowledged, handle_acked, answer_waits_lem, replicas-update, waits-update,
}

-- The offsets that the replicas have acknowledged.
abbrev noted : Option Client → List ℤ → List ℤ
noted none offsets = offsets
noted (some client) offsets = client.ack_offset ∷ offsets

abbrev pub acks : (ℕ → Option Client) → List ℕ → List ℤ
acks clients [] = []
acks clients (r ∷ rs) = noted (clients r) (acks clients rs)

-- How many of the offsets are not below the target.
abbrev pub not_below : ℤ → List ℤ → ℕ
not_below target [] = 0
not_below target (offset ∷ offsets) =
    let n = not_below target offsets in if ltb_ℤ offset target then n else suc n

-- The parked clients that wait for more replicas than have acknowledged their offset.
abbrev pub short_of : List ℤ → List WaitState → List WaitState
short_of offsets [] = []
short_of offsets (w ∷ ws) =
    let rest = short_of offsets ws in
    if ltb_ℤ (pos (not_below w.target_offset offsets)) w.num_needed then w ∷ rest else rest

-- Those that stay parked are among those before.
pub short_of-All :
    (P : WaitState → Type 0) (offsets : List ℤ) (ws : List WaitState)
    → All P ws
    → All P (short_of offsets ws)
short_of-All P offsets [] h = tt
short_of-All P offsets (w ∷ ws) h =
    elim (Bool-cases (ltb_ℤ (pos (not_below w.target_offset offsets)) w.num_needed)) [
      | inl short ↦ rw short (h.0, short_of-All P offsets ws h.1)
      | inr reached ↦ rw reached (short_of-All P offsets ws h.1)
    ]

pub leb-ltb : (a b : ℤ) → leb_ℤ a b ≡ not (ltb_ℤ b a)
leb-ltb a b = ground arith

pub if-not : {A : Type 0} (b : Bool) (x y : A) → (if not b then x else y) ≡ (if b then y else x)
if-not true x y = refl
if-not false x y = refl

count-not_below :
    (target : ℤ) (rs : List ℕ) (clients : ℕ → Option Client)
    → All (IsLive clients) rs
    → count_caught_up target rs clients ≡ some (not_below target (acks clients rs))
unfolding count_caught_up
count-not_below target [] clients h = refl
count-not_below target (r ∷ rs) clients h =
    let (client, live) = client_of clients r h.0 in
    let rest = count-not_below target rs clients h.1 in
    rw (live, rest, leb-ltb target client.ack_offset)
      (ap some (if-not (ltb_ℤ client.ack_offset target) _ _))

pub caught-not_below :
    (s : Server) (target : ℤ)
    → AllLive s s.replicas
    → caught s target ≡ not_below target (acks s.clients s.replicas)
unfolding count_caught_up_replicas
caught-not_below s target h = rw (caught, count-not_below target s.replicas s.clients h) refl

unanswered-short_of :
    (s : Server) (ws : List WaitState)
    → AllLive s s.replicas
    → unanswered enough (caught s) ws ≡ short_of (acks s.clients s.replicas) ws
unfolding enough
unanswered-short_of s [] h = refl
unanswered-short_of s (w ∷ ws) h =
    let rest = unanswered-short_of s ws h in
    let count = caught-not_below s w.target_offset h in
    let n = not_below w.target_offset (acks s.clients s.replicas) in
    let left = short_of (acks s.clients s.replicas) ws in
    rw (count, rest, leb-ltb w.num_needed (pos n))
      (if-not (ltb_ℤ (pos n) w.num_needed) left (w ∷ left))

pub handle_replica_read-ack :
    (env : Env) (c : ℕ) (args : List Bytes) (offset : ℤ) (client : Client) (s : Server)
    → Unbroken env
    → s.clients c ≡ some client
    → acked args ≡ some offset
    → AllLive s s.replicas
    → WaitsLive s s.pending_waits
    → let s1 = acknowledged c offset client s in
      (s' : Server) × (handle_replica_read env c args s ≡ some s')
      × (view s'
          ≡ view (record s1 {
            pending_waits = short_of (acks s1.clients s1.replicas) s.pending_waits;
          }))
unfolding resolve_pending_waits
handle_replica_read-ack env c args offset client s calm there ack replicas waits =
    let s1 = acknowledged c offset client s in
    let live = replicas-update c (with_ack offset client) s.clients s.replicas replicas in
    let (s', done, same) =
      answer_waits_lem env enough (caught s1) s.pending_waits [] s1 calm (λ t. counted s1 t live)
        (waits-update c (with_ack offset client) s.clients s.pending_waits waits) in
    (
      s',
      handle_acked env c args offset client s ack there ∙ done,
      same
          ∙ ap (λ ws. view (record s1 { pending_waits = ws }))
              (unanswered-short_of s1 s.pending_waits live),
    )
