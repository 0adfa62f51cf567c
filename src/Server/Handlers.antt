-- ===== src/Server/Handlers.antt =====
-- The handlers of a client's commands (`handle_wait`, `handle_psync`, `handle_replica_read` and
-- `handle_master_read` of src/server.cpp) end, and keep the references of the server, as long as no
-- connection breaks.
use redis_lite.Common.{
  ℕ, ◌≡◌, refl, sym, ◌∙◌, ap, List, [], ◌∷◌, Option, some, none, Bytes, All, All-weaken, All-append,
  arith, ◌||◌, Bool-cases, inl, inr,
}
use redis_lite.Common.Int.{ℤ, pos}
use redis_lite.Common.Word.{leb_ℤ}
use redis_lite.Number.{stoi, stoll}
use redis_lite.Resp.{encode_array}
use redis_lite.Command.Branches.{err_integer}
use redis_lite.Server.State.{ClientType, Client, Queue, Server, Env}
use redis_lite.Server.Send.{answer, answer_count}
use redis_lite.Server.Wait.{
  is_nil, is_zero, push_all, propagate_to_replicas, park, getack, wait_numbers, handle_wait,
}
use redis_lite.Server.Replicate.{advance_stream, publish_offset, record_write}
use redis_lite.Server.Quiet.{Unbroken, view, answer_quiet}
use redis_lite.Server.Live.{IsLive, counted, caught}
use redis_lite.Server.Safe.{
  type_of, HasType, keys, IsSafe, typed-IsLive, typed_client, type_of-blank?, IsSafe-view,
}

-- A call that ends, in a server with sound references, with the client `c` still there.
abbrev pub Ends : ℕ → Option Server → Type 0
Ends c m = (s' : Server) × (m ≡ some s') × IsSafe s' × IsLive s'.clients c

-- The same, with the type of the client as it was.
abbrev pub Keeps : ClientType → ℕ → Option Server → Type 0
Keeps t c m = (s' : Server) × (m ≡ some s') × IsSafe s' × HasType t s'.clients c

pub Keeps-Ends : (t : ClientType) (c : ℕ) (m : Option Server) → Keeps t c m → Ends c m
Keeps-Ends t c m (s', done, safe, typed) = (s', done, safe, typed-IsLive t s'.clients c typed)

pub type-view :
    (s s' : Server) (d : ℕ) → view s' ≡ view s → type_of (s'.clients d) ≡ type_of (s.clients d)
type-view s s' d same =
    type_of-blank? (s'.clients d)
    ∙ ap (λ (v : Server). type_of (v.clients d)) same
    ∙ sym (type_of-blank? (s.clients d))

pub replicas-IsLive : (s : Server) → IsSafe s → All (IsLive s.clients) s.replicas
replicas-IsLive s h = All-weaken (typed-IsLive ClientType.replica s.clients) s.replicas h.replicas

-- What is queued for the replicas changes no reference.
keys-push_all : (bytes : Bytes) (qs : List (ℕ × Queue)) → keys (push_all bytes qs) ≡ keys qs
unfolding push_all
keys-push_all bytes [] = refl
keys-push_all bytes ((c, q) ∷ qs) = ap (λ r. c ∷ r) (keys-push_all bytes qs)

pub propagate-IsSafe :
    (bytes : Bytes) (s : Server) → IsSafe s → IsSafe (propagate_to_replicas bytes s)
unfolding propagate_to_replicas
propagate-IsSafe bytes s h = elim (Bool-cases (is_nil s.replicas)) [
  | inl e ↦ rw e h
  | inr ne ↦ rw (ne, keys-push_all) h
]

pub clients-propagate :
    (bytes : Bytes) (s : Server) → (propagate_to_replicas bytes s).clients ≡ s.clients
unfolding propagate_to_replicas
clients-propagate bytes s = ground arith

pub record_write-Keeps :
    (t : ClientType) (c : ℕ) (args : List Bytes) (s : Server)
    → IsSafe s
    → HasType t s.clients c
    → IsSafe (record_write args s) × HasType t (record_write args s).clients c
unfolding record_write publish_offset advance_stream
record_write-Keeps t c args s h typed = (
  propagate-IsSafe (encode_array args) _ h,
  ap (λ (f : ℕ → Option Client). type_of (f c)) (clients-propagate (encode_array args) _) ∙ typed,
)

module _ (env : Env) (calm : Unbroken env) where
  pub answer-Keeps :
      (t : ClientType) (text : Bytes) (c : ℕ) (s : Server)
      → IsSafe s
      → HasType t s.clients c
      → Keeps t c (answer env text c s)
  answer-Keeps t text c s h typed =
      let (client, live, e) = typed_client t s.clients c typed in
      let (s', client', sent, there, same) = answer_quiet env text c client s calm live in
      (s', sent, IsSafe-view s s' same h, type-view s s' c same ∙ typed)

  park-Keeps :
      (t : ClientType) (c : ℕ) (n timeout : ℤ) (s : Server)
      → IsSafe s
      → HasType t s.clients c
      → Keeps t c (some (park env c n timeout s))
  unfolding park
  park-Keeps t c n timeout s h typed =
      let s1 = propagate_to_replicas (encode_array getack) s in
      let h1 = propagate-IsSafe (encode_array getack) s h in
      let same = clients-propagate (encode_array getack) s in
      let typed1 = ap (λ (f : ℕ → Option Client). type_of (f c)) same ∙ typed in
      (
        _,
        refl,
        record {
          replicas = h1.replicas;
          distinct = h1.distinct;
          waits =
              All-append _ s.pending_waits _ (rw same h.waits)
                (typed-IsLive t s1.clients c typed1, tt);
          queues = h1.queues;
          master_client = h1.master_client;
          created = h1.created;
        },
        typed1,
      )

  wait_numbers-Keeps :
      (t : ClientType) (c : ℕ) (n timeout : Option ℤ) (s : Server)
      → IsSafe s
      → HasType t s.clients c
      → Keeps t c (wait_numbers env c n timeout s)
  unfolding wait_numbers answer_count
  wait_numbers-Keeps t c none timeout s h typed = answer-Keeps t err_integer c s h typed
  wait_numbers-Keeps t c (some n) none s h typed = answer-Keeps t err_integer c s h typed
  wait_numbers-Keeps t c (some n) (some timeout) s h typed =
      elim (Bool-cases (is_nil s.replicas || is_zero s.master_repl_offset)) [
        | inl at_once ↦ rw at_once (answer-Keeps t _ c s h typed)
        | inr later ↦
            let count = caught s s.master_repl_offset in
            let e = counted s s.master_repl_offset (replicas-IsLive s h) in
            elim (Bool-cases (leb_ℤ n (pos count))) [
              | inl reached ↦ rw (later, e, reached) (answer-Keeps t _ c s h typed)
              | inr short ↦ rw (later, e, short) (park-Keeps t c n timeout s h typed)
            ]
      ]

  pub handle_wait-Keeps :
      (t : ClientType) (c : ℕ) (args : List Bytes) (s : Server)
      → IsSafe s
      → HasType t s.clients c
      → Keeps t c (handle_wait env c args s)
  unfolding handle_wait
  handle_wait-Keeps t c (name ∷ replicas ∷ timeout ∷ rest) s h typed =
      wait_numbers-Keeps t c (stoi replicas) (stoll timeout) s h typed
  handle_wait-Keeps t c [] s h typed = (s, refl, h, typed)
  handle_wait-Keeps t c (a ∷ []) s h typed = (s, refl, h, typed)
  handle_wait-Keeps t c (a ∷ b ∷ []) s h typed = (s, refl, h, typed)
