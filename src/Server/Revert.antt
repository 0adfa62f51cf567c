-- ===== src/Server/Revert.antt =====
-- A REPLICAOF whose handshake fails (`handle_replicaof_set_master` of src/server.cpp): the backlog that
-- the server goes back to being a master with.
use redis_lite.Common.{
  ℕ, suc, ◌+◌, ◌-◌, ◌≤◌, ◌≡◌, refl, sym, ◌∙◌, ap, true, false, List, [], ◌∷◌, Option, none, some,
  Bytes, codes, length, str_eq, str_eq_refl, Bool-cases, inl, inr,
}
use redis_lite.Common.Int.{ℤ, pos}
use redis_lite.Replication.{ReplicationInfo, master}
use redis_lite.Command.Branches.{ok}
use redis_lite.Server.State.{ClientType, Server, Env, >>=-eq-some, some-injective}
use redis_lite.Server.Send.{remove_client}
use redis_lite.Server.Psync.{resumes, id_match, continue_with}
use redis_lite.Server.Role.{
  always, retire, drop_master, remove_all, disconnect_all_replicas, demote, revert, dialogue,
  connect_to_master, handle_replicaof_set_master, same_master,
}
use redis_lite.Server.Stream.{InStep}
use redis_lite.Server.Resume.{resumes-window, window_in}
use redis_lite.Server.Quiet.{Unbroken, view, answer_quiet}
use redis_lite.Server.Live.{caught, counted}
use redis_lite.Server.Parked.{answer_waits_lem}
use redis_lite.Server.Safe.{HasType, IsSafe, typed_client}
use redis_lite.Server.Handlers.{replicas-IsLive}
use redis_lite.Server.Teardown.{retire-Keeps, drop_master-Keeps}

-- The backlog and the metadata kept.
abbrev Framed : Server → Server → Type 0
Framed s s' = (s'.backlog ≡ s.backlog) × (s'.repl_info ≡ s.repl_info) × (s'.replicaof ≡ s.replicaof)

Framed-trans : (s t u : Server) → Framed s t → Framed t u → Framed s u
Framed-trans s t u (a, b, c) (a', b', c') = (a' ∙ a, b' ∙ b, c' ∙ c)

Framed-eq : (s s' : Server) → s ≡ s' → Framed s s'
Framed-eq s s' e = (
  ap (λ (t : Server). t.backlog) (sym e),
  ap (λ (t : Server). t.repl_info) (sym e),
  ap (λ (t : Server). t.replicaof) (sym e),
)

Framed-view : (s s' : Server) → view s' ≡ view s → Framed s s'
Framed-view s s' same = (
  ap (λ (v : Server). v.backlog) same,
  ap (λ (v : Server). v.repl_info) same,
  ap (λ (v : Server). v.replicaof) same,
)

remove_client-Framed : (c : ℕ) (s s' : Server) → remove_client c s ≡ some s' → Framed s s'
unfolding remove_client
remove_client-Framed c s s' h =
    let (client, live, done) = >>=-eq-some (s.clients c) _ h in Framed-eq _ s' (some-injective done)

remove_all-Framed : (cs : List ℕ) (s s' : Server) → remove_all cs s ≡ some s' → Framed s s'
unfolding remove_all
remove_all-Framed [] s s' h = Framed-eq s s' (some-injective h)
remove_all-Framed (c ∷ cs) s s' h =
    let (s1, removed, rest) = >>=-eq-some (remove_client c s) _ h in
    Framed-trans s s1 s' (remove_client-Framed c s s1 removed) (remove_all-Framed cs s1 s' rest)

drop_master-Framed : (m : Option ℕ) (s s' : Server) → drop_master m s ≡ some s' → Framed s s'
unfolding drop_master
drop_master-Framed none s s' h = Framed-eq s s' (some-injective h)
drop_master-Framed (some m) s s' h =
    let (s1, removed, rest) = >>=-eq-some (remove_client m s) _ h in
    Framed-trans s s1 s' (remove_client-Framed m s s1 removed)
      (Framed-eq (record s1 { master_client = none }) s' (some-injective rest))

retire-Framed :
    (env : Env) (s s' : Server) → Unbroken env → IsSafe s → retire env s ≡ some s' → Framed s s'
unfolding retire disconnect_all_replicas
retire-Framed env s s' calm safe h = elim (Bool-cases (str_eq s.repl_info.role master)) [
  | inl is_master ↦
      let (s1, done, same) =
        answer_waits_lem env always (caught s) s.pending_waits [] s calm
          (λ t. counted s t (replicas-IsLive s safe)) safe.waits in
      let h1 = (rw (is_master, done) at h) in
      let (s2, removed, rest) =
        >>=-eq-some (remove_all s1.replicas (record s1 { pending_waits = [] })) _ h1 in
      Framed-trans s s1 s' (Framed-view (record s { pending_waits = _ }) s1 same) (
        Framed-trans s1 s2 s'
          (remove_all-Framed s1.replicas (record s1 { pending_waits = [] }) s2 removed)
          (Framed-eq (record s2 { master_repl_offset = pos 0 }) s' (some-injective rest)))
  | inr is_worker ↦ Framed-eq s s' (some-injective (rw is_worker at h))
]

id_match_here : (o : ℕ) (r : ReplicationInfo) → id_match r.master_replid (pos o) r ≡ true
unfolding id_match
id_match_here o r = rw (str_eq_refl r.master_replid)

-- What a partial resync reads of the server.
resumes-Framed :
    (id : Bytes) (o : ℤ) (s s' : Server) → Framed s s' → resumes id o s' ≡ resumes id o s
unfolding resumes
resumes-Framed id o s s' (b, r, m) = rw (b, r)

continue_with-Framed :
    (o : ℤ) (s s' : Server) → Framed s s' → continue_with o s' ≡ continue_with o s
unfolding continue_with
continue_with-Framed o s s' (b, r, m) = rw (b, r)

-- The server behind a failed REPLICAOF.
reverted : Server → Server
reverted s = revert (record s { calls = suc s.calls })

resumes-reverted :
    (id host : Bytes) (port o : ℤ) (s s' : Server)
    → view s' ≡ view (demote host port s)
    → resumes id o (reverted s') ≡ resumes id o s
unfolding reverted revert demote resumes id_match
resumes-reverted id host port o s s' same = ap (λ (v : Server). resumes id o (revert v)) same

continue_with-reverted :
    (host : Bytes) (port o : ℤ) (s s' : Server)
    → view s' ≡ view (demote host port s)
    → continue_with o (reverted s') ≡ continue_with o s
unfolding reverted revert demote continue_with
continue_with-reverted host port o s s' same = ap (λ (v : Server). continue_with o (revert v)) same

offset-reverted :
    (host : Bytes) (port : ℤ) (s s' : Server)
    → view s' ≡ view (demote host port s)
    → (reverted s').repl_info.master_repl_offset ≡ pos 0
unfolding reverted revert demote
offset-reverted host port s s' same = ap (λ (v : Server). v.repl_info.master_repl_offset) same

role-reverted : (s : Server) → (reverted s).repl_info.role ≡ master
unfolding reverted revert
role-reverted s = refl

-- No master can be connected to.
abbrev pub Unreachable : Env → Type 0
Unreachable env = (n : ℕ) (host : Bytes) (port : ℤ) → env.connect n host port ≡ none

connect_to_master-none :
    (env : Env) (port : ℤ) (s : Server) (m : Bytes × ℤ)
    → Unreachable env
    → s.replicaof ≡ some m
    → connect_to_master env port s ≡ some (false, record s { calls = suc s.calls })
unfolding connect_to_master dialogue
connect_to_master-none env port s m refused e = rw (e, refused s.calls m.0 m.1)

-- Beyond the removal of its replicas and of its own master.
demoted :
    (env : Env) (c : ℕ) (host : Bytes) (port : ℤ) (s : Server)
    → Unbroken env
    → IsSafe s
    → HasType ClientType.regular s.clients c
    → Unreachable env
    → same_master host port s.replicaof ≡ false
    → (s2 : Server) × (s3 : Server) × Framed s s2
      × (view s3 ≡ view (demote host port s2))
      × (handle_replicaof_set_master env c host port s ≡ some (reverted s3))
unfolding handle_replicaof_set_master demote reverted
demoted env c host port s calm safe regular refused other =
    let (s1, retired, safe1, regular1) = retire-Keeps env calm c s safe regular in
    let (s2, dropped, safe2, regular2) =
      drop_master-Keeps c s1.master_client s1 safe1.master_client refl safe1 regular1 in
    let (client, live, e) = typed_client ClientType.regular s2.clients c regular2 in
    let (s3, client', sent, there, same) =
      answer_quiet env ok c client (demote host port s2) calm live in
    let alone =
      connect_to_master-none env port s3 (host, port) refused
        (ap (λ (v : Server). v.replicaof) same) in
    (
      s2,
      s3,
      Framed-trans s s1 s2 (retire-Framed env s s1 calm safe retired)
          (drop_master-Framed s1.master_client s1 s2 dropped),
      same,
      rw (other, retired, dropped, sent, alone),
    )

-- A server whose backlog holds the end of its stream, at the stream's offset, is told by a regular
-- client to follow a host that it does not follow yet. No connection to a master succeeds, and no
-- connection to a client breaks. The handler ends, and the server is a master with the offset 0 in
-- its metadata, but it still resumes the old stream: a replica that names the server's identifier,
-- which is not `?`, and any offset `o` of the backlog's window is answered with a partial resync, and
-- with the same bytes as before the command.
pub handle_replicaof_set_master-reverted :
    (env : Env) (c size g o : ℕ) (w host : Bytes) (port : ℤ) (s : Server)
    → Unbroken env
    → IsSafe s
    → HasType ClientType.regular s.clients c
    → Unreachable env
    → same_master host port s.replicaof ≡ false
    → InStep s size g w
    → str_eq s.repl_info.master_replid (codes "?") ≡ false
    → g + (length w - size) ≤ o
    → o ≤ g + length w
    → (s' : Server) × (handle_replicaof_set_master env c host port s ≡ some s')
      × (s'.repl_info.role ≡ master)
      × (s'.repl_info.master_repl_offset ≡ pos 0)
      × (resumes s.repl_info.master_replid (pos o) s' ≡ true)
      × (continue_with (pos o) s' ≡ continue_with (pos o) s)
handle_replicaof_set_master-reverted env c size g o w host port s calm safe regular refused other h
      known lo hi =
    let (s2, s3, framed, same, done) = demoted env c host port s calm safe regular refused other in
    let id = s.repl_info.master_replid in
    (
      reverted s3,
      done,
      role-reverted s3,
      offset-reverted host port s2 s3 same,
      resumes-reverted id host port (pos o) s2 s3 same
          ∙ (resumes-Framed id (pos o) s s2 framed
              ∙ (resumes-window id size g o w s h known (id_match_here o s.repl_info)
                  ∙ window_in _ _ o lo hi)),
      continue_with-reverted host port (pos o) s2 s3 same
          ∙ continue_with-Framed (pos o) s s2 framed,
    )
