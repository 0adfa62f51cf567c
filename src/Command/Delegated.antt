-- ===== src/Command/Delegated.antt =====
-- The empty answer: which commands the server itself handles, and what it may rely on then.
use redis_lite.Common.{
  ◌≡◌, refl, Bool, true, false, List, [], ◌∷◌, Bytes, Bool-cases, inl, inr, ap, arith, Option, none,
  some,
}
use redis_lite.Common.Int.{ℤ}
use redis_lite.Number.{stoi}
use redis_lite.Resp.{encode_bulk_string, encode_null_bulk_string, encode_array}
use redis_lite.Store.{Store}
use redis_lite.Replication.{ReplicationInfo}
use redis_lite.Command.Names.{to_upper, Kind, kind_of}
use redis_lite.Command.Branches.{
  echo, info, info_section, set, set_parsed, del, get, get_reply, role, replconf, wait,
  check_numbers, err_args, err_integer, err_expire, err_unknown, int_reply, ok, pong, readonly,
  set_options,
}
use redis_lite.Command.Execute.{execute, rejected, run, err_no_command}

-- The commands that `handle_read` takes over when the answer is empty.
abbrev pub server_kind : Kind → Bool
server_kind Kind.psync = true
server_kind Kind.replicaof = true
server_kind Kind.wait = true
server_kind _ = false

is_nil : Bytes → Bool
is_nil [] = true
is_nil (c ∷ s) = false

get_reply-ne : (v : Option Bytes) → is_nil (get_reply v) ≡ false
unfolding is_nil get_reply encode_null_bulk_string encode_bulk_string
get_reply-ne none = refl
get_reply-ne (some v) = refl

info_section-ne : (s : Bytes) (r : ReplicationInfo) → is_nil (info_section s r) ≡ false
unfolding is_nil info_section encode_bulk_string
info_section-ne [] r = refl
info_section-ne (c ∷ s) r = ground arith

set_parsed-ne :
    (now : ℤ) (k v : Bytes) (px : Option (Option ℤ)) (s : Store)
    → is_nil (set_parsed now k v px s).0 ≡ false
unfolding is_nil set_parsed err_integer err_expire ok
set_parsed-ne now k v none s = refl
set_parsed-ne now k v (some px) s = ground arith

run-ne :
    (k : Kind) (now : ℤ) (name : Bytes) (rest : List Bytes) (s : Store) (r : ReplicationInfo)
    → server_kind k ≡ false
    → is_nil (run k now name rest s r).0 ≡ false
unfolding is_nil run
run-ne Kind.ping now name rest s r h = unfold pong in refl
run-ne Kind.echo now name [] s r h = unfold echo err_args in refl
run-ne Kind.echo now name (text ∷ rest) s r h = unfold echo encode_bulk_string in refl
run-ne Kind.info now name [] s r h = unfold info in info_section-ne [] r
run-ne Kind.info now name (section ∷ rest) s r h =
    unfold info in info_section-ne (to_upper section) r
run-ne Kind.set now name [] s r h = unfold set err_args in refl
run-ne Kind.set now name (k ∷ []) s r h = unfold set err_args in refl
run-ne Kind.set now name (k ∷ v ∷ options) s r h =
    unfold set in set_parsed-ne now k v (set_options options none) s
run-ne Kind.del now name [] s r h = unfold del err_args in refl
run-ne Kind.del now name (k ∷ keys) s r h = unfold del int_reply in refl
run-ne Kind.get now name [] s r h = unfold get err_args in refl
run-ne Kind.get now name (k ∷ rest) s r h =
    unfold get in get_reply-ne (redis_lite.Store.get now k s)
run-ne Kind.role now name rest s r h = unfold role in ground arith
run-ne Kind.replconf now name [] s r h = unfold replconf ok in refl
run-ne Kind.replconf now name (sub ∷ rest) s r h = unfold replconf ok encode_array in ground arith
run-ne Kind.psync now name rest s r h = cc
run-ne Kind.replicaof now name rest s r h = cc
run-ne Kind.wait now name rest s r h = cc
run-ne Kind.unknown now name rest s r h = unfold err_unknown in refl

is_nil-nil : is_nil [] ≡ true
unfolding is_nil
is_nil-nil = refl

execute-ne :
    (now : ℤ) (name : Bytes) (rest : List Bytes) (s : Store) (r : ReplicationInfo)
    (from_master : Bool)
    → server_kind (kind_of (to_upper name)) ≡ false
    → is_nil (execute now (name ∷ rest) s r from_master).0 ≡ false
unfolding execute
execute-ne now name rest s r from_master h =
    elim (Bool-cases (rejected (to_upper name) r from_master)) [
      | inl no_write ↦ rw no_write (unfold readonly is_nil in refl)
      | inr other ↦ rw other (run-ne (kind_of (to_upper name)) now name rest s r h)
    ]

-- Only PSYNC, REPLICAOF and WAIT are ever answered by the empty text, which is what `handle_read`
-- takes as "the server handles this": every other command, on every branch, is answered at once.
pub execute-empty :
    (now : ℤ) (args : List Bytes) (s : Store) (r : ReplicationInfo) (from_master : Bool)
    → (execute now args s r from_master).0 ≡ []
    → (name : Bytes) × (rest : List Bytes) × (args ≡ name ∷ rest)
      × (server_kind (kind_of (to_upper name)) ≡ true)
unfolding execute
execute-empty now [] s r from_master h = unfold err_no_command in cc
execute-empty now (name ∷ rest) s r from_master h = (
  name,
  rest,
  refl,
  elim (Bool-cases (server_kind (kind_of (to_upper name)))) [
    | inl handled ↦ handled
    | inr other ↦ cc (execute-ne now name rest s r from_master other, ap is_nil h, is_nil-nil)
  ],
)

check_numbers-empty :
    (x y : Option ℤ) → check_numbers x y ≡ [] → (n t : ℤ) × (x ≡ some n) × (y ≡ some t)
unfolding check_numbers err_integer
check_numbers-empty (some n) (some t) h = (n, t, refl, refl)
check_numbers-empty none y h = cc
check_numbers-empty (some n) none h = cc

-- WAIT reaches the server only with a number of replicas and a timeout that both parse as an `int`;
-- the server's own tests of the arguments never fail.
pub wait-empty :
    (rest : List Bytes)
    → wait rest ≡ []
    → (a b : Bytes) × (more : List Bytes) × (n t : ℤ) × (rest ≡ a ∷ b ∷ more)
      × (stoi a ≡ some n)
      × (stoi b ≡ some t)
unfolding wait check_numbers err_args err_integer
wait-empty [] h = cc
wait-empty (a ∷ []) h = cc
wait-empty (a ∷ b ∷ more) h =
    let (n, t, hn, ht) = check_numbers-empty (stoi a) (stoi b) h in (a, b, more, n, t, refl, hn, ht)
