-- ===== src/Config/Parse.antt =====
-- What the command line of src/config.cpp can and cannot set.
use mathlib.Core.Path.{subst}
use redis_lite.Common.{
  ℕ, ◌≤◌, ◌≡◌, refl, true, List, [], ◌∷◌, Option, none, some, Bytes, codes, str_eq, arith,
}
use redis_lite.Common.Int.{ℤ, pos}
use redis_lite.Number.{of_ℕ, stoi}
use redis_lite.Number.RoundTrip.{stoi-of_ℕ}
use redis_lite.Replication.{ReplicationInfo, master, worker}
use redis_lite.Config.{
  Config, Parsed, ok, err, ◌>>=◌, is_port, set_port, set_master, select, parse_args, parse_config,
  IsPort, MasterIsPort, IsUsable, default_config, repl_info_of,
}

-- What a parse that succeeds satisfies.
abbrev Then : (Config → Type 0) → Parsed → Type 0
Then P (ok c) = P c
Then P (err e) = Unit

set_port-IsUsable :
    (text : Bytes) (z : Option ℤ) (c : Config) → IsUsable c → Then IsUsable (set_port text z c)
unfolding set_port
set_port-IsUsable text none c h = tt
set_port-IsUsable text (some port) c h = ground arith

set_master-IsUsable :
    (host text : Bytes) (z : Option ℤ) (c : Config)
    → IsUsable c
    → Then IsUsable (set_master host text z c)
unfolding set_master
set_master-IsUsable host text none c h = tt
set_master-IsUsable host text (some port) c h = ground arith

Then-bind :
    (p : Parsed) (f : Config → Parsed)
    → Then IsUsable p
    → ((c : Config) → IsUsable c → Then IsUsable (f c))
    → Then IsUsable (p >>= f)
Then-bind (ok c) f h k = k c h
Then-bind (err e) f h k = tt

Then-select :
    (arg : Bytes) (a b c : Parsed)
    → Then IsUsable a
    → Then IsUsable b
    → Then IsUsable c
    → Then IsUsable (select arg a b c)
Then-select arg a b c ha hb hc = ground arith

parse_args-Then : (args : List Bytes) (c : Config) → IsUsable c → Then IsUsable (parse_args args c)
unfolding parse_args
parse_args-Then [] c h = h
parse_args-Then (arg ∷ []) c h = Then-select arg _ _ _ tt tt h
parse_args-Then (arg ∷ a ∷ []) c h =
    Then-select arg _ _ _ (set_port-IsUsable a (stoi a) c h) tt (parse_args-Then (a ∷ []) c h)
parse_args-Then (arg ∷ a ∷ b ∷ rest) c h =
    Then-select arg _ _ _
      (Then-bind (set_port a (stoi a) c) (parse_args (b ∷ rest)) (set_port-IsUsable a (stoi a) c h)
        (parse_args-Then (b ∷ rest)))
      (Then-bind (set_master a b (stoi b) c) (parse_args rest)
        (set_master-IsUsable a b (stoi b) c h) (parse_args-Then rest))
      (parse_args-Then (a ∷ b ∷ rest) c h)

ok-injective : {c d : Config} → ok c ≡ ok d → c ≡ d
ok-injective h = cc

-- The role and the master of a server that is started with a configuration.
abbrev pub StartsAs : ReplicationInfo → Option (Bytes × ℤ) → Type 0
StartsAs r none = r.role ≡ master
StartsAs r (some (host, port)) = (r.role ≡ worker) × (r.master_host ≡ host) × (r.master_port ≡ port)

Then-ok : (P : Config → Type 0) (p : Parsed) (c : Config) → p ≡ ok c → Then P p → P c
Then-ok P (ok c') c e h = subst P (ok-injective e) h
Then-ok P (err x) c e h = cc

started :
    (replid : Bytes) (port : ℤ) (m : Option (Bytes × ℤ))
    → StartsAs (repl_info_of replid (record { port = port; replicaof = m })) m
unfolding repl_info_of
started replid port none = refl
started replid port (some (host, q)) = (refl, refl, refl)

-- Whatever the arguments are: a configuration that the parser accepts has a port from 1 to 65535 and,
-- if it names a master, a master's port from 1 to 65535; the server then starts as a worker of that
-- master, and as a master if none is named.
pub parse_config-IsUsable :
    (args : List Bytes) (c : Config) (replid : Bytes)
    → parse_config args ≡ ok c
    → IsPort c.port × MasterIsPort c.replicaof × StartsAs (repl_info_of replid c) c.replicaof
unfolding parse_config repl_info_of
parse_config-IsUsable args c replid h =
    let usable =
      Then-ok IsUsable (parse_args args default_config) c h
        (parse_args-Then args default_config (omega arith)) in
    (usable.0, usable.1, started replid c.port c.replicaof)

-- For ports from 1 to 65535 printed in decimal and any host: `--port p` and `--replicaof host q`, in
-- either order, are accepted and set exactly these.
pub parse_config-printed :
    (p q : ℕ) (host : Bytes)
    → 1 ≤ p
    → p ≤ 65535
    → 1 ≤ q
    → q ≤ 65535
    → let expected = ok (record { port = pos p; replicaof = some (host, pos q) }) in
      (parse_config (codes "--port" ∷ of_ℕ p ∷ codes "--replicaof" ∷ host ∷ of_ℕ q ∷ []) ≡ expected)
      × (parse_config (codes "--replicaof" ∷ host ∷ of_ℕ q ∷ codes "--port" ∷ of_ℕ p ∷ [])
          ≡ expected)
unfolding parse_config parse_args set_port set_master str_eq
parse_config-printed p q host lo hi lo' hi' =
    let number = stoi-of_ℕ p (omega arith) in
    let number' = stoi-of_ℕ q (omega arith) in
    let in_range : is_port (pos p) ≡ true = ground arith in
    let in_range' : is_port (pos q) ≡ true = ground arith in
    (rw (number, in_range, number', in_range') refl, rw (number', in_range', number, in_range) refl)
