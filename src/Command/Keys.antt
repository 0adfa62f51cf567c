-- ===== src/Command/Keys.antt =====
-- What clients see of the keys: GET behind SET, and DEL.
use redis_lite.Common.{
  ℕ, ◌+◌, ◌-◌, ◌≤◌, ◌*◌, ◌^◌, ◌<◌, ◌≡◌, refl, Bool, false, List, [], ◌∷◌, Bytes, str_eq, ap, arith,
  Option, none, some, if◌then◌else◌, leb,
}
use redis_lite.Common.Int.{ℤ, pos}
use redis_lite.Resp.{encode_bulk_string, encode_null_bulk_string}
use redis_lite.Store
use redis_lite.Store.{Store}
use redis_lite.Map.{names_key}
use redis_lite.Store.Access.{IsValid, get-set_ttl, get-set_forever, get-del, size-del, del-IsValid}
use redis_lite.Replication.{ReplicationInfo}
use redis_lite.Command.Fold.{is_write_kind}
use redis_lite.Command.Writes.{rejected-other}
use redis_lite.Command.Names.{to_upper, Kind, kind_of}
use redis_lite.Command.Branches.{
  set, set_parsed, set_options, not_positive, get, get_reply, del, del_all, int_reply, ok,
}
use redis_lite.Command.Execute.{execute, rejected, run}

-- The answer to GET depends on the store alone: nothing rejects it.
execute-get :
    (now : ℤ) (name j : Bytes) (rest : List Bytes) (s : Store) (r : ReplicationInfo)
    (from_master : Bool)
    → kind_of (to_upper name) ≡ Kind.get
    → (execute now (name ∷ j ∷ rest) s r from_master).0 ≡ get_reply (Store.get now j s)
unfolding execute run get
execute-get now name j rest s r from_master h =
    rw (rejected-other name r from_master (ap is_write_kind h), h)

execute-set :
    (now : ℤ) (name k v : Bytes) (options : List Bytes) (px : Option ℤ) (s : Store)
    (r : ReplicationInfo) (from_master : Bool)
    → kind_of (to_upper name) ≡ Kind.set
    → rejected (to_upper name) r from_master ≡ false
    → set_options options none ≡ some px
    → not_positive px ≡ false
    → execute now (name ∷ k ∷ v ∷ options) s r from_master ≡ (ok, Store.set now k v px s)
unfolding execute run set set_parsed
execute-set now name k v options px s r from_master h accepted o p = rw (accepted, h, o, p)

-- An accepted `SET k v` with no options, at any time and under any spelling of the names: a GET of
-- `k` at any later or earlier clock reading, by anyone and in any role, answers `v`, also where `k`
-- had an expiry; a GET of another key answers what it would have answered without the SET.
pub get-set_plain :
    (start now : ℤ) (set_name get_name k v j : Bytes) (rest : List Bytes) (s : Store)
    (r r' : ReplicationInfo) (from_master from_master' : Bool)
    → kind_of (to_upper set_name) ≡ Kind.set
    → kind_of (to_upper get_name) ≡ Kind.get
    → rejected (to_upper set_name) r from_master ≡ false
    → (execute now
        (get_name ∷ j ∷ rest)
        (execute start (set_name ∷ k ∷ v ∷ []) s r from_master).1
        r'
        from_master').0
      ≡ (if str_eq k j
          then encode_bulk_string v
          else (execute now (get_name ∷ j ∷ rest) s r' from_master').0)
get-set_plain start now set_name get_name k v j rest s r r' from_master from_master' hs hg
      accepted =
    let written =
      execute-set start set_name k v [] none s r from_master hs accepted
        (unfold set_options in refl) (unfold not_positive in refl) in
    rw
      (
        written,
        execute-get now get_name j rest (Store.set start k v none s) r' from_master' hg,
        execute-get now get_name j rest s r' from_master' hg,
        get-set_forever start now k j v s,
      )
      (unfold get_reply in ground arith)

-- An accepted `SET k v` whose options ask for `px` milliseconds, `0 < px`, at a time at which the
-- expiry is representable: a GET of `k` answers `v` before `start + px` and the null answer from
-- then on; a GET of another key answers what it would have answered without the SET.
pub get-set_expiring :
    (start px now : ℕ) (set_name get_name k v j : Bytes) (options rest : List Bytes) (s : Store)
    (r r' : ReplicationInfo) (from_master from_master' : Bool)
    → kind_of (to_upper set_name) ≡ Kind.set
    → kind_of (to_upper get_name) ≡ Kind.get
    → rejected (to_upper set_name) r from_master ≡ false
    → set_options options none ≡ some (some (pos px))
    → 0 < px
    → start + px * 1_000_000 < 2 ^ 63
    → (execute
        (pos now)
        (get_name ∷ j ∷ rest)
        (execute (pos start) (set_name ∷ k ∷ v ∷ options) s r from_master).1
        r'
        from_master').0
      ≡ (if str_eq k j
          then if leb (start + px * 1_000_000) now
            then encode_null_bulk_string
            else encode_bulk_string v
          else (execute (pos now) (get_name ∷ j ∷ rest) s r' from_master').0)
get-set_expiring start px now set_name get_name k v j options rest s r r' from_master from_master'
      hs hg accepted parsed positive small =
    let written =
      execute-set (pos start) set_name k v options (some (pos px)) s r from_master hs accepted
        parsed (unfold not_positive in ground arith) in
    rw
      (
        written,
        execute-get (pos now) get_name j rest (Store.set (pos start) k v (some (pos px)) s) r'
            from_master' hg,
        execute-get (pos now) get_name j rest s r' from_master' hg,
        get-set_ttl start px now k j v s small,
      )
      (unfold get_reply in ground arith)

-- The loop of DEL: the count, the size, and every lookup behind it.
del_all_lem :
    (now : ℤ) (keys : List Bytes) (count : ℕ) (s : Store) (j : Bytes)
    → IsValid s
    → let (n, s') = del_all keys count s in
      (n + Store.size s' ≡ count + Store.size s)
      × (Store.get now j s' ≡ (if names_key keys j then none else Store.get now j s))
      × IsValid s'
unfolding del_all
del_all_lem now [] count s j h = (refl, refl, h)
del_all_lem now (k ∷ keys) count s j h = ground (
  arith,
  del_all_lem now keys (if (Store.del k s).0 then count + 1 else count) (Store.del k s).1 j
      (del-IsValid k s h),
  size-del k s,
  get-del now k j s h,
)

-- An accepted DEL with at least one key, on a store with unique keys: the answer is the number of
-- entries that the store lost, every lookup of a key named finds nothing any more, every lookup of
-- another key answers as before, at every clock reading, and keys stay unique.
pub execute-del :
    (now at : ℤ) (name k j : Bytes) (keys : List Bytes) (s : Store) (r : ReplicationInfo)
    (from_master : Bool)
    → kind_of (to_upper name) ≡ Kind.del
    → rejected (to_upper name) r from_master ≡ false
    → IsValid s
    → let (answer, s') = execute now (name ∷ k ∷ keys) s r from_master in
      (answer ≡ int_reply (Store.size s - Store.size s'))
      × (Store.size s' ≤ Store.size s)
      × (Store.get at j s' ≡ (if names_key (k ∷ keys) j then none else Store.get at j s))
      × IsValid s'
unfolding execute run del
execute-del now at name k j keys s r from_master h accepted valid =
    let (count, lookup, kept) = del_all_lem at (k ∷ keys) 0 s j valid in
    rw (accepted, h) (ap int_reply (omega (arith, count)), omega (arith, count), lookup, kept)
