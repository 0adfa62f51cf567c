-- ===== src/Server/Safe.antt =====
-- The references of a server to its clients (the members of `Server` in src/server.hpp): where they
-- lead.
use mathlib.Core.Path.{subst}
use redis_lite.Common.{
  ℕ, suc, ◌≡◌, ◌≢◌, ◌<◌, refl, sym, ◌∙◌, ap, true, List, [], ◌∷◌, Option, some, none, All,
  All-weaken, arith,
}
use redis_lite.Server.State.{ClientType, Client, WaitState, Queue, Server, update}
use redis_lite.Server.Live.{is_client, IsLive, client_of}
use redis_lite.Server.Quiet.{blank?, blanks, view}

-- The type of a client, if there is one.
abbrev pub type_of : Option Client → Option ClientType
type_of none = none
type_of (some client) = some client.type

abbrev pub HasType : ClientType → (ℕ → Option Client) → ℕ → Type 0
HasType t clients c = type_of (clients c) ≡ some t

abbrev pub IsMasterConn : (ℕ → Option Client) → Option ℕ → Type 0
IsMasterConn clients none = Unit
IsMasterConn clients (some m) = HasType ClientType.master_conn clients m

-- No number stands in the list twice.
abbrev pub Distinct : List ℕ → Type 0
Distinct [] = Unit
Distinct (x ∷ xs) = All (λ y. y ≢ x) xs × Distinct xs

abbrev pub keys : List (ℕ × Queue) → List ℕ
keys [] = []
keys ((c, q) ∷ qs) = c ∷ keys qs

-- The members of a server that refer to clients: replicas are clients of that type and are listed
-- once, parked clients and those with a queue exist, the connection to the master is of that type,
-- and no client stands where the next one will be made.
pub record Sound (clients : ℕ → Option Client) (rs : List ℕ) (ws : List WaitState) (qs : List ℕ)
    (m : Option ℕ) (next : ℕ) : Type 0 where
  pub replicas : All (HasType ClientType.replica clients) rs
  pub distinct : Distinct rs
  pub waits : All (λ w. IsLive clients w.client) ws
  pub queues : All (IsLive clients) qs
  pub master_client : IsMasterConn clients m
  pub created : (d : ℕ) → IsLive clients d → d < next

abbrev pub IsSafe : Server → Type 0
IsSafe s = Sound s.clients s.replicas s.pending_waits (keys s.repl_queues) s.master_client s.created

-- A client of some type exists.
pub typed-IsLive :
    (t : ClientType) (clients : ℕ → Option Client) (c : ℕ) → HasType t clients c → IsLive clients c
typed-IsLive t clients c h = typed (clients c) h
  where
    typed : (o : Option Client) → type_of o ≡ some t → is_client o ≡ true
    typed none h = cc
    typed (some client) h = refl

-- The client of a type.
pub typed_client :
    (t : ClientType) (clients : ℕ → Option Client) (c : ℕ)
    → HasType t clients c
    → (client : Client) × (clients c ≡ some client) × (client.type ≡ t)
typed_client t clients c h =
    let (client, live) = client_of clients c (typed-IsLive t clients c h) in
    (client, live, cc (ap type_of live, h))

live_as : (o o' : Option Client) → type_of o ≡ type_of o' → is_client o ≡ true → is_client o' ≡ true
live_as none o' e h = cc
live_as (some x) none e h = cc
live_as (some x) (some y) e h = refl

-- Two heaps whose clients have the same types.
abbrev pub SameTypes : (ℕ → Option Client) → (ℕ → Option Client) → Type 0
SameTypes clients clients' = (d : ℕ) → type_of (clients d) ≡ type_of (clients' d)

IsMasterConn-retyped :
    (clients clients' : ℕ → Option Client) (m : Option ℕ)
    → SameTypes clients clients'
    → IsMasterConn clients m
    → IsMasterConn clients' m
IsMasterConn-retyped clients clients' none same h = tt
IsMasterConn-retyped clients clients' (some m) same h = sym (same m) ∙ h

pub Sound-retyped :
    (clients clients' : ℕ → Option Client) (rs : List ℕ) (ws : List WaitState) (qs : List ℕ)
    (m : Option ℕ) (next : ℕ)
    → SameTypes clients clients'
    → Sound clients rs ws qs m next
    → Sound clients' rs ws qs m next
Sound-retyped clients clients' rs ws qs m next same h = record {
  replicas = All-weaken (λ r e. sym (same r) ∙ e) rs h.replicas;
  distinct = h.distinct;
  waits = All-weaken (λ (w : WaitState) l. live_as _ _ (same w.client) l) ws h.waits;
  queues = All-weaken (λ d l. live_as _ _ (same d) l) qs h.queues;
  master_client = IsMasterConn-retyped clients clients' m same h.master_client;
  created = λ d l. h.created d (live_as _ _ (sym (same d)) l);
}

pub type_of-blank? : (o : Option Client) → type_of o ≡ type_of (blank? o)
type_of-blank? none = refl
type_of-blank? (some client) = refl

pub IsSafe-view : (s s' : Server) → view s' ≡ view s → IsSafe s → IsSafe s'
IsSafe-view s s' same h =
    let blanked =
      Sound-retyped s.clients (blanks s.clients) s.replicas s.pending_waits (keys s.repl_queues)
        s.master_client s.created (λ d. type_of-blank? (s.clients d)) h in
    Sound-retyped (blanks s'.clients) s'.clients s'.replicas s'.pending_waits (keys s'.repl_queues)
      s'.master_client s'.created (λ d. sym (type_of-blank? (s'.clients d)))
      (subst IsSafe (sym same) blanked)

-- A new client.
module _ (clients : ℕ → Option Client) (next : ℕ) (client : Client)
    (bound : (d : ℕ) → IsLive clients d → d < next) where
  abbrev made : ℕ → Option Client
  made = update next (some client) clients

  made_other : (d : ℕ) → IsLive clients d → made d ≡ clients d
  unfolding update
  made_other d h = ground (arith, bound d h)

  made_bound : (d : ℕ) → IsLive made d → d < suc next
  unfolding update
  made_bound d h = ground (arith, bound d)

  made_new : made next ≡ some client
  unfolding update
  made_new = ground arith

  made_live : (d : ℕ) → IsLive clients d → IsLive made d
  made_live d h = ap is_client (made_other d h) ∙ h

  pub made_type : (t : ClientType) (d : ℕ) → HasType t clients d → HasType t made d
  made_type t d h = ap type_of (made_other d (typed-IsLive t clients d h)) ∙ h

  IsMasterConn-made : (m : Option ℕ) → IsMasterConn clients m → IsMasterConn made m
  IsMasterConn-made none h = tt
  IsMasterConn-made (some m) h = made_type ClientType.master_conn m h

pub Sound-made :
    (clients : ℕ → Option Client) (rs : List ℕ) (ws : List WaitState) (qs : List ℕ) (m : Option ℕ)
    (next : ℕ) (client : Client)
    → Sound clients rs ws qs m next
    → Sound (update next (some client) clients) rs ws qs m (suc next)
Sound-made clients rs ws qs m next client h = record {
  replicas = All-weaken (made_type clients next client h.created ClientType.replica) rs h.replicas;
  distinct = h.distinct;
  waits =
      All-weaken (λ (w : WaitState) l. made_live clients next client h.created w.client l) ws
        h.waits;
  queues = All-weaken (made_live clients next client h.created) qs h.queues;
  master_client = IsMasterConn-made clients next client h.created m h.master_client;
  created = made_bound clients next client h.created;
}

-- The new client is the connection to the master.
pub Sound-connected :
    (clients : ℕ → Option Client) (rs : List ℕ) (ws : List WaitState) (qs : List ℕ) (m : Option ℕ)
    (next : ℕ) (client : Client)
    → client.type ≡ ClientType.master_conn
    → Sound clients rs ws qs m next
    → Sound (update next (some client) clients) rs ws qs (some next) (suc next)
Sound-connected clients rs ws qs m next client e h =
    let made = Sound-made clients rs ws qs m next client h in
    record {
      replicas = made.replicas;
      distinct = made.distinct;
      waits = made.waits;
      queues = made.queues;
      master_client = ap type_of (made_new clients next client h.created) ∙ ap some e;
      created = made.created;
    }
