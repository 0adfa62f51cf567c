-- ===== src/Command/Branches.antt =====
-- The branches of `command::execute` (src/command.cpp). Each gets the arguments behind the name of
-- the command, `args[1]` and on.
use redis_lite.Common.{
  ℕ, ◌+◌, Bool, false, ◌&&◌, List, [], ◌∷◌, ◌++◌, Option, none, some, Bytes, codes, str_eq,
  if◌then◌else◌,
}
use redis_lite.Common.Int.{ℤ, pos}
use redis_lite.Common.Word.{mul_i64, leb_ℤ}
use redis_lite.Number.{of_ℕ, of_ℤ, stoi, stoll}
use redis_lite.Resp.{encode_bulk_string, encode_null_bulk_string, encode_array}
use redis_lite.Store
use redis_lite.Store.{Store}
use redis_lite.Replication.{ReplicationInfo, master}
use redis_lite.Command.Names.{to_upper}

-- What one command does: the answer, and the store behind it.
abbrev pub Outcome : Type 0
Outcome = Bytes × Store

unfoldable pub err_integer : Bytes
err_integer = codes "-ERR value is not an integer or out of range\r\n"

unfoldable pub err_args : Bytes → Bytes
err_args name = codes "-ERR wrong number of arguments for '" ++ (name ++ codes "' command\r\n")

unfoldable pub err_port : Bytes
err_port = codes "-ERR Invalid master port\r\n"

unfoldable pub ok : Bytes
ok = codes "+OK\r\n"

unfoldable pub pong : Bytes
pong = codes "+PONG\r\n"

unfoldable pub readonly : Bytes
readonly = codes "-READONLY You can't write against a read only replica.\r\n"

unfoldable pub int_reply : ℕ → Bytes
int_reply n = b':' ∷ (of_ℕ n ++ codes "\r\n")

unfoldable pub int_reply_ℤ : ℤ → Bytes
int_reply_ℤ z = b':' ∷ (of_ℤ z ++ codes "\r\n")

unfoldable pub echo : List Bytes → Bytes
echo [] = err_args (codes "echo")
echo (text ∷ rest) = encode_bulk_string text

unfoldable pub info_body : ReplicationInfo → Bytes
info_body r =
    codes "role:"
    ++ (r.role
        ++ (codes "\r\nmaster_replid:"
            ++ (r.master_replid
                ++ (codes "\r\nmaster_repl_offset:"
                    ++ (of_ℤ r.master_repl_offset
                        ++ (codes "\r\nmaster_replid2:"
                            ++ (r.master_replid2
                                ++ (codes "\r\nsecond_repl_offset:"
                                    ++ of_ℤ r.second_repl_offset))))))))

unfoldable pub info_section : Bytes → ReplicationInfo → Bytes
info_section [] r = encode_bulk_string (info_body r)
info_section (c ∷ s) r =
    if str_eq (c ∷ s) (codes "REPLICATION")
    then encode_bulk_string (info_body r)
    else encode_bulk_string []

unfoldable pub info : List Bytes → ReplicationInfo → Bytes
info [] r = info_section [] r
info (section ∷ rest) r = info_section (to_upper section) r

-- The loop over the options of SET, from `args[3]` on. `none` is a number that does not parse.
unfoldable pub set_options : List Bytes → Option ℤ → Option (Option ℤ)
set_options [] px = some px
set_options (opt ∷ []) px = some px
set_options (opt ∷ value ∷ rest) px =
    let number = stoll value in
    let with_px : Option (Option ℤ) = elim number [
      | none ↦ none
      | some z ↦ set_options rest (some z)
    ] in
    let with_ex : Option (Option ℤ) = elim number [
      | none ↦ none
      | some z ↦ set_options rest (some (mul_i64 z (pos 1000)))
    ] in
    let skipped = set_options (value ∷ rest) px in
    if str_eq (to_upper opt) (codes "PX")
    then with_px
    else if str_eq (to_upper opt) (codes "EX")
    then with_ex
    else skipped

-- `if (px_millis && *px_millis <= 0)`
unfoldable pub not_positive : Option ℤ → Bool
not_positive none = false
not_positive (some z) = leb_ℤ z (pos 0)

unfoldable pub err_expire : Bytes
err_expire = codes "-ERR invalid expire time in 'set' command\r\n"

unfoldable pub set_parsed : ℤ → Bytes → Bytes → Option (Option ℤ) → Store → Outcome
set_parsed now key value none s = (err_integer, s)
set_parsed now key value (some px) s =
    if not_positive px then (err_expire, s) else (ok, Store.set now key value px s)

unfoldable pub set : ℤ → List Bytes → Store → Outcome
set now [] s = (err_args (codes "set"), s)
set now (key ∷ []) s = (err_args (codes "set"), s)
set now (key ∷ value ∷ options) s = set_parsed now key value (set_options options none) s

-- `for (size_t i = 1; …) if (store.del(args[i])) count++;`
unfoldable pub del_all : List Bytes → ℕ → Store → ℕ × Store
del_all [] count s = (count, s)
del_all (key ∷ keys) count s =
    let (found, s') = Store.del key s in del_all keys (if found then count + 1 else count) s'

unfoldable pub del : List Bytes → Store → Outcome
del [] s = (err_args (codes "del"), s)
del (key ∷ keys) s = let (count, s') = del_all (key ∷ keys) 0 s in (int_reply count, s')

unfoldable pub get_reply : Option Bytes → Bytes
get_reply none = encode_null_bulk_string
get_reply (some value) = encode_bulk_string value

unfoldable pub get : ℤ → List Bytes → Store → Bytes
get now [] s = err_args (codes "get")
get now (key ∷ rest) s = get_reply (Store.get now key s)

unfoldable pub role : ReplicationInfo → Bytes
role r =
    if str_eq r.role master
    then codes "*3\r\n$6\r\nmaster\r\n" ++ (int_reply_ℤ r.master_repl_offset ++ codes "*0\r\n")
    else codes "*5\r\n$5\r\nslave\r\n"
      ++ (encode_bulk_string r.master_host
          ++ (int_reply_ℤ r.master_port
              ++ (codes "$9\r\nconnected\r\n" ++ int_reply_ℤ r.master_repl_offset)))

unfoldable pub replconf : List Bytes → ReplicationInfo → Bytes
replconf [] r = ok
replconf (sub ∷ rest) r =
    if str_eq (to_upper sub) (codes "GETACK")
    then encode_array (codes "REPLCONF" ∷ codes "ACK" ∷ of_ℤ r.master_repl_offset ∷ [])
    else ok

unfoldable pub check_port : Option ℤ → Bytes
check_port none = err_port
check_port (some port) = if leb_ℤ (pos 1) port && leb_ℤ port (pos 65535) then [] else err_port

unfoldable pub replicaof : List Bytes → Bytes
replicaof (host ∷ port ∷ []) =
    if str_eq (to_upper host) (codes "NO") && str_eq (to_upper port) (codes "ONE")
    then []
    else check_port (stoi port)
replicaof _ = err_args (codes "replicaof")

unfoldable pub check_numbers : Option ℤ → Option ℤ → Bytes
check_numbers (some n) (some t) = []
check_numbers _ _ = err_integer

unfoldable pub wait : List Bytes → Bytes
wait (replicas ∷ timeout ∷ rest) = check_numbers (stoi replicas) (stoi timeout)
wait _ = err_args (codes "wait")

unfoldable pub err_unknown : Bytes → Bytes
err_unknown name = codes "-ERR unknown command '" ++ (name ++ codes "'\r\n")
