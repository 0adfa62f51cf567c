-- ===== src/Server/Peers.antt =====
-- The handlers of replicas and of the master (`handle_psync`, `handle_replica_read` and
-- `handle_master_read` of src/server.cpp) end, and keep the references of the server, as long as no
-- connection breaks.
use redis_lite.Common.{
  ℕ, suc, ◌≡◌, ◌≢◌, refl, sym, ◌∙◌, ap, false, List, [], ◌∷◌, ◌++◌, Option, some, none, Bytes, All,
  All-weaken, All-append, arith, ◌==◌, Bool-cases, Option-cases, inl, inr, ℕ_discrete,
}
use redis_lite.Common.Int.{ℤ}
use redis_lite.Server.State.{
  ClientType, Client, WaitState, Queue, Server, Env, change, append, appended, update, put_queue,
}
use redis_lite.Server.Wait.{Ready}
use redis_lite.Server.Replicate.{
  is_getack, handle_master_read, acked, with_ack, handle_replica_read,
}
use redis_lite.Server.Psync.{asked_id, asked_offset, resumes, as_replica, attach, handle_psync}
use redis_lite.Server.Quiet.{Unbroken}
use redis_lite.Server.Resume.{attached, attach_lem, queue_of}
use redis_lite.Server.Live.{is_client, IsLive, unanswered}
use redis_lite.Server.Parked.{IsLive-update, acknowledged}
use redis_lite.Server.Reached.{acks, short_of, short_of-All, handle_replica_read-ack}
use redis_lite.Server.Safe.{
  type_of, HasType, IsMasterConn, Distinct, keys, IsSafe, typed-IsLive, typed_client, SameTypes,
  Sound-retyped, IsSafe-view,
}
use redis_lite.Server.Handlers.{Ends, Keeps, type-view, replicas-IsLive}

-- A client changed, its type kept.
retyped :
    (c : ℕ) (client client' : Client) (clients : ℕ → Option Client)
    → clients c ≡ some client
    → client'.type ≡ client.type
    → SameTypes clients (update c (some client') clients)
unfolding update
retyped c client client' clients live same d = elim (ℕ_discrete c d) [
  | yes e ↦ ground (arith, live, same, ap clients e)
  | no ne ↦ ground arith
]

-- The waits that a round leaves are among those before it.
pub unanswered-All :
    (P : WaitState → Type 0) (ready : Ready) (counts : ℤ → ℕ) (ws : List WaitState)
    → All P ws
    → All P (unanswered ready counts ws)
unanswered-All P ready counts [] h = tt
unanswered-All P ready counts (w ∷ ws) h = elim (Bool-cases (ready w (counts w.target_offset))) [
  | inl now ↦ rw now (unanswered-All P ready counts ws h.1)
  | inr later ↦ rw later (h.0, unanswered-All P ready counts ws h.1)
]

-- A client changed in its buffers or its offset.
pub updated-IsSafe :
    (c : ℕ) (client client' : Client) (s : Server)
    → IsSafe s
    → s.clients c ≡ some client
    → client'.type ≡ client.type
    → IsSafe (record s { clients = update c (some client') s.clients })
updated-IsSafe c client client' s h live same =
    Sound-retyped s.clients (update c (some client') s.clients) s.replicas s.pending_waits
      (keys s.repl_queues) s.master_client s.created (retyped c client client' s.clients live same)
      h

pub update_here :
    (c : ℕ) (o : Option Client) (clients : ℕ → Option Client) → update c o clients c ≡ o
unfolding update
update_here c o clients = ground arith

-- A regular client becomes a replica with a queue.
module _ (c : ℕ) (client : Client) (clients : ℕ → Option Client)
    (regular : HasType ClientType.regular clients c) where
  abbrev joined : ℕ → Option Client
  joined = update c (some (as_replica client)) clients

  joined_other : (d : ℕ) → (d == c) ≡ false → joined d ≡ clients d
  unfolding update
  joined_other d ne = ground arith

  other_type :
      (t : ClientType) (d : ℕ) → t ≢ ClientType.regular → HasType t clients d → (d == c) ≡ false
  other_type t d ne h = elim (ℕ_discrete d c) [
    | yes e ↦ absurd (ne (cc (h, regular, ap clients e)))
    | no other ↦ ground arith
  ]

  joined_live : (d : ℕ) → IsLive joined d → IsLive clients d
  unfolding update
  joined_live d h = elim (ℕ_discrete c d) [
    | yes e ↦
        ap (λ j. is_client (clients j)) (sym e) ∙ typed-IsLive ClientType.regular clients c regular
    | no ne ↦ ground arith
  ]

  joined_type :
      (t : ClientType) (d : ℕ) → t ≢ ClientType.regular → HasType t clients d → HasType t joined d
  joined_type t d ne h = ap type_of (joined_other d (other_type t d ne h)) ∙ h

  IsMasterConn-joined : (m : Option ℕ) → IsMasterConn clients m → IsMasterConn joined m
  IsMasterConn-joined none h = tt
  IsMasterConn-joined (some m) h = joined_type ClientType.master_conn m (cc) h

Distinct-append :
    (xs : List ℕ) (c : ℕ) → Distinct xs → All (λ y. y ≢ c) xs → Distinct (xs ++ c ∷ [])
Distinct-append [] c h apart = (tt, tt)
Distinct-append (x ∷ xs) c h apart = (
  All-append (λ y. y ≢ x) xs (c ∷ []) h.0 (λ e. apart.0 (sym e), tt),
  Distinct-append xs c h.1 apart.1,
)

keys-put_queue :
    (P : ℕ → Type 0) (c : ℕ) (q : Queue) (qs : List (ℕ × Queue))
    → P c
    → All P (keys qs)
    → All P (keys (put_queue c q qs))
unfolding put_queue
keys-put_queue P c q [] here h = (here, tt)
keys-put_queue P c q ((d, p) ∷ qs) here h = elim (Bool-cases (d == c)) [
  | inl e ↦ rw e h
  | inr ne ↦ rw ne (h.0, keys-put_queue P c q qs here h.1)
]

differ :
    (c r : ℕ) (clients : ℕ → Option Client)
    → HasType ClientType.regular clients c
    → HasType ClientType.replica clients r
    → r ≢ c
differ c r clients regular replica e = cc (regular, replica, ap clients e)

attach-Ends :
    (c : ℕ) (bytes : Bytes) (s : Server)
    → IsSafe s
    → HasType ClientType.regular s.clients c
    → Ends c (attach c bytes s)
attach-Ends c bytes s h regular =
    let (client, live, e) = typed_client ClientType.regular s.clients c regular in
    let to_joined = joined_type c client s.clients regular in
    let stays = λ (d : ℕ). IsLive-update c d (as_replica client) s.clients in
    let here = update_here c (some (as_replica client)) s.clients in
    (
      attached c bytes client s,
      attach_lem c bytes client s live,
      unfold attached in
          record {
            replicas =
                All-append _ s.replicas (c ∷ [])
                  (All-weaken (λ r l. to_joined ClientType.replica r (cc) l) s.replicas h.replicas)
                  (ap type_of here, tt);
            distinct =
                Distinct-append s.replicas c h.distinct
                  (All-weaken (λ r l e'. differ c r s.clients regular l e') s.replicas h.replicas);
            waits = All-weaken (λ (w : WaitState) l. stays w.client l) s.pending_waits h.waits;
            queues =
                keys-put_queue _ c (queue_of client.fd bytes) s.repl_queues (ap is_client here)
                  (All-weaken stays (keys s.repl_queues) h.queues);
            master_client =
                IsMasterConn-joined c client s.clients regular s.master_client h.master_client;
            created = λ d l. h.created d (joined_live c client s.clients regular d l);
          },
      unfold attached in ap is_client here,
    )

pub append-Keeps :
    (t : ClientType) (c : ℕ) (response : Bytes) (s : Server)
    → IsSafe s
    → HasType t s.clients c
    → Keeps t c (append response c s)
unfolding append change
append-Keeps t c response s h typed =
    let (client, live, e) = typed_client t s.clients c typed in
    (
      record s { clients = update c (some (appended response client)) s.clients },
      rw live refl,
      updated-IsSafe c client (appended response client) s h live refl,
      ap type_of (update_here c _ s.clients) ∙ ap some e,
    )

pub handle_master_read-Keeps :
    (t : ClientType) (c : ℕ) (args : List Bytes) (response : Bytes) (consumed : ℕ) (s : Server)
    → IsSafe s
    → HasType t s.clients c
    → Keeps t c (handle_master_read c args response consumed s)
unfolding handle_master_read
handle_master_read-Keeps t c args response consumed s h typed = elim (Bool-cases (is_getack args)) [
  | inl asked ↦ rw asked (append-Keeps t c response _ h typed)
  | inr other ↦ rw other (_, refl, h, typed)
]

module _ (env : Env) where
  pub handle_psync-Ends :
      (c : ℕ) (args : List Bytes) (s : Server)
      → IsSafe s
      → HasType ClientType.regular s.clients c
      → Ends c (handle_psync env c args s)
  unfolding handle_psync
  handle_psync-Ends c args s h regular =
      elim (Bool-cases (resumes (asked_id args) (asked_offset args) s)) [
        | inl partial ↦ rw partial (attach-Ends c _ s h regular)
        | inr full ↦ rw full (attach-Ends c _ (record s { calls = suc s.calls }) h regular)
      ]

  pub handle_replica_read-Keeps :
      (t : ClientType) (c : ℕ) (args : List Bytes) (s : Server)
      → Unbroken env
      → IsSafe s
      → HasType t s.clients c
      → Keeps t c (handle_replica_read env c args s)
  unfolding handle_replica_read
  handle_replica_read-Keeps t c args s calm h typed =
      let (client, live, e) = typed_client t s.clients c typed in
      elim (Option-cases (acked args)) [
        | inl none_given ↦ (s, rw (none_given, handle_replica_read) refl, h, typed)
        | inr (offset, given) ↦
            let s1 = acknowledged c offset client s in
            let h1 = updated-IsSafe c client (with_ack offset client) s h live refl in
            let (s', done, same) =
              handle_replica_read-ack env c args offset client s calm live given
                (replicas-IsLive s h) h.waits in
            let kept = record s1 {
              pending_waits = short_of (acks s1.clients s1.replicas) s.pending_waits;
            } in
            (
              s',
              done,
              IsSafe-view kept s' same (record {
                replicas = h1.replicas;
                distinct = h1.distinct;
                waits = short_of-All _ (acks s1.clients s1.replicas) s.pending_waits h1.waits;
                queues = h1.queues;
                master_client = h1.master_client;
                created = h1.created;
              }),
              type-view kept s' c same ∙ ap type_of (update_here c _ s.clients) ∙ ap some e,
            )
      ]
