-- ===== src/Server/Promote.antt =====
-- REPLICAOF NO ONE (`handle_replicaof_no_one` of src/server.cpp): which siblings of a promoted
-- replica go on where they stopped.
use redis_lite.Common.{
  ◌≢◌, Option, none, some, sym, ℕ, ◌+◌, ◌<◌, ◌≡◌, ◌^◌, refl, ◌∙◌, ap, false, List, [], ◌∷◌, Bytes,
  codes, length, arith, leb, ◌&&◌, ◌||◌, str_eq, str_eq_refl, ◌==◌,
}
use mathlib.Core.Path.{subst}
use redis_lite.Common.Int.{ℤ, pos}
use redis_lite.Common.Word.{leb_ℤ}
use redis_lite.Backlog.Replay.{Kept, restarted-Kept, contains-Kept}
use redis_lite.Replication.{ReplicationInfo, generate_replid, master}
use redis_lite.Server.State.{Server, Client, Env, update, without, without_queue, without_waits}
use redis_lite.Server.Wait.{propagate_to_replicas}
use redis_lite.Server.Replicate.{record_write, advance_stream, publish_offset}
use redis_lite.Server.Psync.{resumes, id_match}
use redis_lite.Backlog.{Backlog}
use redis_lite.Command.Branches.{ok}
use redis_lite.Server.Send.{remove_client}
use redis_lite.Server.Quiet.{Unbroken, view, answer_quiet}
use redis_lite.Server.Live.{IsLive, client_of}
use redis_lite.Server.Role.{promote, promoted_info, drop_master, handle_replicaof_no_one}
use redis_lite.Server.Stream.{record_all, stream, InStep, record_all-InStep}

-- What the writes leave alone: the identifiers that PSYNC is matched against.
abbrev ids : ReplicationInfo → Bytes × Bytes × ℤ
ids r = (r.master_replid, r.master_replid2, r.second_repl_offset)

ids-record_all :
    (cmds : List (List Bytes)) (s : Server) → ids (record_all cmds s).repl_info ≡ ids s.repl_info
ids-record_all [] s = refl
ids-record_all (args ∷ cmds) s =
    ids-record_all cmds (record_write args s)
    ∙ unfold record_write propagate_to_replicas advance_stream publish_offset in ground arith

id_match-ids :
    (id : Bytes) (o : ℤ) (r r' : ReplicationInfo)
    → ids r ≡ ids r'
    → id_match id o r ≡ id_match id o r'
unfolding id_match
id_match-ids id o r r' h =
    ap (λ (t : Bytes × Bytes × ℤ). str_eq id t.0 || (str_eq id t.1 && leb_ℤ o t.2)) h

second_id :
    (replid : Bytes) (s : Server) (g o : ℕ)
    → s.repl_info.master_repl_offset ≡ pos g
    → str_eq s.repl_info.master_replid replid ≡ false
    → id_match s.repl_info.master_replid (pos o) (promote replid s).repl_info ≡ leb o g
unfolding id_match promote promoted_info
second_id replid s g o at new = rw (new, str_eq_refl s.repl_info.master_replid, at) (ground arith)

promoted-InStep :
    (replid : Bytes) (s : Server) (g : ℕ)
    → s.repl_info.master_repl_offset ≡ pos g
    → length s.backlog.buffer ≡ s.backlog.capacity
    → 0 < s.backlog.capacity
    → InStep (promote replid s) s.backlog.capacity g []
unfolding promote
promoted-InStep replid s g at sized positive = record {
  kept = rw at (restarted-Kept s.backlog g sized positive);
  offset = at ∙ ap pos (omega arith);
}

-- What the handler leaves alone of a server that has just been promoted.
resumes-restarted :
    (old : Bytes) (cap g o : ℕ) (cmds : List (List Bytes)) (t : Server)
    → InStep t cap g []
    → g + length (stream cmds) < 2 ^ 63
    → str_eq old (codes "?") ≡ false
    → id_match old (pos o) t.repl_info ≡ leb o g
    → resumes old (pos o) (record_all cmds t) ≡ (o == g && leb (length (stream cmds)) cap)
unfolding resumes
resumes-restarted old cap g o cmds t h small known second =
    let in_step = record_all-InStep cmds t cap g [] small h in
    let same =
      id_match-ids old (pos o) (record_all cmds t).repl_info t.repl_info (ids-record_all cmds t) in
    let window = contains-Kept (record_all cmds t).backlog cap g (stream cmds) o in_step.kept in
    ground (arith, same, second, window, known)

-- The connection to the master is another one than `c`, if there is one.
abbrev pub IsOtherClient : (ℕ → Option Client) → ℕ → Option ℕ → Type 0
IsOtherClient clients c none = Unit
IsOtherClient clients c (some m) = IsLive clients m × (m ≢ c)

-- The metadata, the backlog and one client, kept.
record Keeps (c : ℕ) (s s' : Server) : Type 0 where
  info : s'.repl_info ≡ s.repl_info
  backlog : s'.backlog ≡ s.backlog
  client : s'.clients c ≡ s.clients c
  dropped : s'.master_client ≡ none

other_address :
    (m c : ℕ) (clients : ℕ → Option Client) → m ≢ c → update m none clients c ≡ clients c
unfolding update
other_address m c clients h = ground (arith, h)

-- The server without the connection to its master.
without_master : ℕ → Server → Server
without_master m s = record s {
  master_client = none;
  replicas = without m s.replicas;
  repl_queues = without_queue m s.repl_queues;
  pending_waits = without_waits m s.pending_waits;
  clients = update m none s.clients;
}

drop_master-Keeps :
    (c : ℕ) (master_client : Option ℕ) (s : Server)
    → master_client ≡ s.master_client
    → IsOtherClient s.clients c master_client
    → (s' : Server) × (drop_master master_client s ≡ some s') × Keeps c s s'
unfolding drop_master remove_client without_master
drop_master-Keeps c none s e h =
    (s, refl, record { info = refl; backlog = refl; client = refl; dropped = sym e })
drop_master-Keeps c (some m) s e h =
    let (client, live) = client_of s.clients m h.0 in
    (
      without_master m s,
      rw live refl,
      record {
        info = refl;
        backlog = refl;
        client = other_address m c s.clients h.1;
        dropped = refl;
      },
    )

pub InStep-view :
    (s s' : Server) (cap g : ℕ) (w : Bytes)
    → view s' ≡ view s
    → InStep s cap g w
    → InStep s' cap g w
InStep-view s s' cap g w same h = record {
  kept = subst (λ (v : Server). Kept v.backlog cap g w) (sym same) h.kept;
  offset = ap (λ (v : Server). v.master_repl_offset) same ∙ h.offset;
}

-- REPLICAOF NO ONE at a replica that had received `g` bytes of its master's stream, when no
-- connection breaks, whether or not its master is still connected, and with a new identifier that
-- differs from the old one, which is not `?`: the handler ends; the server is a master from then
-- on, with no connection to the old one; and, whatever writes follow (offsets below 2 ^ 63), a
-- sibling that names the old master's identifier and the offset `o` is resumed exactly if it
-- stopped at the offset `g` as well and the writes since then still fit the backlog, which has a
-- buffer of its positive capacity: so never with bytes of the old stream that the promoted server
-- did not have, and never with a gap.
pub handle_replicaof_no_one-resumes :
    (env : Env) (c g o : ℕ) (client : Client) (s : Server) (cmds : List (List Bytes))
    → Unbroken env
    → str_eq s.repl_info.role master ≡ false
    → s.clients c ≡ some client
    → IsOtherClient s.clients c s.master_client
    → s.repl_info.master_repl_offset ≡ pos g
    → length s.backlog.buffer ≡ s.backlog.capacity
    → 0 < s.backlog.capacity
    → g + length (stream cmds) < 2 ^ 63
    → str_eq s.repl_info.master_replid (codes "?") ≡ false
    → ((n : ℕ) → str_eq s.repl_info.master_replid (generate_replid (env.dist n)) ≡ false)
    → (s' : Server) × (handle_replicaof_no_one env c s ≡ some s')
      × (s'.repl_info.role ≡ master)
      × (s'.master_client ≡ none)
      × (resumes s.repl_info.master_replid (pos o) (record_all cmds s')
          ≡ (o == g && leb (length (stream cmds)) s.backlog.capacity))
unfolding handle_replicaof_no_one
handle_replicaof_no_one-resumes env c g o client s cmds calm worker live other at sized positive
      small known new =
    let (s1, dropped, kept) = drop_master-Keeps c s.master_client s refl other in
    let replid = generate_replid (env.dist s1.calls) in
    let s2 = promote replid s1 in
    let (s', client', sent, there, same) =
      answer_quiet env ok c client s2 calm (unfold promote in kept.client ∙ live) in
    let info = ap (λ (v : Server). v.repl_info) same in
    let at1 = ap (λ (r : ReplicationInfo). r.master_repl_offset) kept.info ∙ at in
    let id : Bytes = s.repl_info.master_replid in
    let on_backlog : (f : Backlog → ℕ) → f s1.backlog ≡ f s.backlog = λ f. ap f kept.backlog in
    let capacity = on_backlog (λ b. b.capacity) in
    let sized1 = on_backlog (λ b. length b.buffer) ∙ sized ∙ sym capacity in
    let new1 =
      ap (λ (r : ReplicationInfo). str_eq r.master_replid replid) kept.info ∙ new s1.calls in
    let second =
      ap (id_match id (pos o)) info
      ∙ ap (λ (r : ReplicationInfo). id_match r.master_replid (pos o) s2.repl_info) (sym kept.info)
      ∙ second_id replid s1 g o at1 new1 in
    let in_step =
      InStep-view s2 s' s1.backlog.capacity g [] same
        (promoted-InStep replid s1 g at1 sized1 (rw capacity positive)) in
    (
      s',
      rw (worker, dropped) sent,
      ap (λ (r : ReplicationInfo). r.role) info ∙ (unfold promote promoted_info in refl),
      ap (λ (v : Server). v.master_client) same ∙ (unfold promote in kept.dropped),
      resumes-restarted id s1.backlog.capacity g o cmds s' in_step small known second
          ∙ ap (λ n. o == g && leb (length (stream cmds)) n) capacity,
    )
