-- ===== src/Tests/Cmdline.antt =====
-- The command line.
use redis_lite.Common.{◌≡◌, refl, List, [], ◌∷◌, some, Bytes, codes, arith, str_eq}
use redis_lite.Common.Int.{pos}
use redis_lite.Number.{of_ℕ, stoi}
use redis_lite.Config.{Config, Parsed, parse_config, repl_info_of, IsPort, MasterIsPort}
use redis_lite.Config.Parse.{StartsAs, parse_config-IsUsable, parse_config-printed}

abbrev arguments : List Bytes
arguments =
    codes "--port" ∷ codes "7000" ∷ codes "--replicaof" ∷ codes "localhost" ∷ codes "6379" ∷ []

abbrev config : Config
config = record { port = pos 7000; replicaof = some (codes "localhost", pos 6379) }

accepted : parse_config arguments ≡ Parsed.ok config
unfolding parse_config stoi str_eq
accepted = refl

parse_config-IsUsable_example :
    IsPort (pos 7000)
    × MasterIsPort (some (codes "localhost", pos 6379))
    × StartsAs (repl_info_of (codes "id") config) (some (codes "localhost", pos 6379))
parse_config-IsUsable_example = parse_config-IsUsable arguments config (codes "id") accepted

parse_config-printed_example :
    (parse_config
        (codes "--port" ∷ of_ℕ 7000 ∷ codes "--replicaof" ∷ codes "localhost" ∷ of_ℕ 6379 ∷ [])
      ≡ Parsed.ok config)
    × (parse_config
          (codes "--replicaof" ∷ codes "localhost" ∷ of_ℕ 6379 ∷ codes "--port" ∷ of_ℕ 7000 ∷ [])
        ≡ Parsed.ok config)
parse_config-printed_example =
    parse_config-printed 7000 6379 (codes "localhost") (omega arith) (omega arith) (omega arith)
      (omega arith)
