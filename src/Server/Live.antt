-- ===== src/Server/Live.antt =====
-- Clients that have not been deleted, and the counts of replicas that have caught up
-- (`count_caught_up_replicas` of src/server.cpp).
use redis_lite.Common.{
  ℕ, suc, ◌≡◌, refl, sym, ◌∙◌, ap, true, false, List, [], ◌∷◌, Option, some, none, arith, Bool,
  if◌then◌else◌, Option-cases, inl, inr, All,
}
use redis_lite.Common.Int.{ℤ}
use redis_lite.Common.Word.{leb_ℤ}
use redis_lite.Server.State.{Client, WaitState, Server}
use redis_lite.Server.Wait.{Ready, count_caught_up, count_caught_up_replicas}
use redis_lite.Server.Quiet.{blank?, blanks, view}

abbrev pub is_client : Option Client → Bool
is_client none = false
is_client (some client) = true

-- The client has not been deleted.
abbrev pub IsLive : (ℕ → Option Client) → ℕ → Type 0
IsLive clients c = is_client (clients c) ≡ true

pub client_of :
    (clients : ℕ → Option Client) (c : ℕ)
    → IsLive clients c
    → (client : Client) × (clients c ≡ some client)
client_of clients c h = elim (Option-cases (clients c)) [
  | inl gone ↦ cc (ap is_client gone)
  | inr live ↦ live
]

-- The count of the replicas that have caught up, where none has been deleted.
abbrev pub caught : Server → ℤ → ℕ
caught s target = elim (count_caught_up_replicas target s) [ none ↦ 0 | some n ↦ n ]

-- The parked clients that a round leaves parked.
abbrev pub unanswered : Ready → (ℤ → ℕ) → List WaitState → List WaitState
unanswered ready counts [] = []
unanswered ready counts (w ∷ ws) =
    let rest = unanswered ready counts ws in
    if ready w (counts w.target_offset) then rest else w ∷ rest

count_some :
    (target : ℤ) (rs : List ℕ) (clients : ℕ → Option Client)
    → All (IsLive clients) rs
    → (n : ℕ) × (count_caught_up target rs clients ≡ some n)
unfolding count_caught_up
count_some target [] clients h = (0, refl)
count_some target (r ∷ rs) clients h =
    let (client, live) = client_of clients r h.0 in
    let (n, rest) = count_some target rs clients h.1 in
    (if leb_ℤ target client.ack_offset then suc n else n, rw (live, rest) refl)

pub counted :
    (s : Server) (target : ℤ)
    → All (IsLive s.clients) s.replicas
    → count_caught_up_replicas target s ≡ some (caught s target)
unfolding count_caught_up_replicas
counted s target h = let (n, e) = count_some target s.replicas s.clients h in rw (e, caught) refl

count-blanks :
    (target : ℤ) (rs : List ℕ) (clients : ℕ → Option Client)
    → count_caught_up target rs (blanks clients) ≡ count_caught_up target rs clients
unfolding count_caught_up
count-blanks target [] clients = refl
count-blanks target (r ∷ rs) clients = ground (arith, count-blanks target rs clients)

-- Counts and deletions show in the view.
pub count-view :
    (s s' : Server) (target : ℤ)
    → view s' ≡ view s
    → count_caught_up_replicas target s' ≡ count_caught_up_replicas target s
unfolding count_caught_up_replicas
count-view s s' target same =
    sym (count-blanks target s'.replicas s'.clients)
    ∙ ap (λ (v : Server). count_caught_up target v.replicas v.clients) same
    ∙ count-blanks target s.replicas s.clients

is_client-blank? : (o : Option Client) → is_client (blank? o) ≡ is_client o
is_client-blank? none = refl
is_client-blank? (some client) = refl

pub IsLive-view :
    (s s' : Server) (c : ℕ) → view s' ≡ view s → IsLive s.clients c → IsLive s'.clients c
IsLive-view s s' c same h =
    sym (is_client-blank? (s'.clients c))
    ∙ ap (λ (v : Server). is_client (v.clients c)) same
    ∙ is_client-blank? (s.clients c)
    ∙ h

abbrev pub WaitsLive : Server → List WaitState → Type 0
WaitsLive s ws = All (λ w. IsLive s.clients w.client) ws

pub waits-view :
    (s s' : Server) (ws : List WaitState) → view s' ≡ view s → WaitsLive s ws → WaitsLive s' ws
waits-view s s' [] same h = tt
waits-view s s' (w ∷ ws) same h = (IsLive-view s s' w.client same h.0, waits-view s s' ws same h.1)
