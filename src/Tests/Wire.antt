-- ===== src/Tests/Wire.antt =====
-- RESP and the pipelining loop.
use redis_lite.Common.{
  ◌≡◌, ◌≢◌, refl, List, [], ◌∷◌, ◌++◌, map, Bytes, codes, length, flatten, arith, some,
}
use redis_lite.Common.Int.{negsuc, pos}
use redis_lite.Number.{stoi}
use redis_lite.Resp.{ParseResult, incomplete, parse, encode_array}
use redis_lite.Resp.RoundTrip.{parse-encode_array}
use redis_lite.Resp.Laws.{parse-append, parse_prefix}
use redis_lite.Pipeline.{pump, process, receive, receive_all}
use redis_lite.Pipeline.Chunks.{handle_all, process_ends, receive_all-flatten, receive_all-encoded}

abbrev echo_hey : List Bytes
echo_hey = codes "ECHO" ∷ codes "hey" ∷ []

abbrev ping : List Bytes
ping = codes "PING" ∷ []

parse_two :
    parse (codes "*2\r\n$4\r\nECHO\r\n$3\r\nhey\r\n*1\r\n")
    ≡ record { args = echo_hey; bytes_consumed = 23 }
unfolding parse stoi
parse_two = refl

parse_malformed : parse (codes "*1\r\n$x\r\n") ≡ incomplete
unfolding parse stoi
parse_malformed = refl

-- `std::stoi` skips white space, takes a sign and stops at the first byte that is no digit.
stoi_forms : (stoi (codes " +12x") ≡ some (pos 12)) × (stoi (codes "-7") ≡ some (negsuc 6))
unfolding stoi
stoi_forms = (refl, refl)

parse-encode_array_example :
    parse (encode_array echo_hey ++ codes "*1\r")
    ≡ record { args = echo_hey; bytes_consumed = length (encode_array echo_hey) }
parse-encode_array_example = parse-encode_array echo_hey (codes "*1\r") (omega arith) (omega arith)

found : (parse (codes "*1\r\n$4\r\nPING\r\n")).bytes_consumed ≢ 0
unfolding parse stoi
found = omega arith

parse-append_example :
    parse (codes "*1\r\n$4\r\nPING\r\n" ++ codes "*2") ≡ parse (codes "*1\r\n$4\r\nPING\r\n")
parse-append_example = parse-append (codes "*1\r\n$4\r\nPING\r\n") (codes "*2") found

split_ping : codes "*1\r\n$4\r\nPI" ++ codes "NG\r\n" ≡ encode_array ping
unfolding encode_array
split_ping = refl

parse_prefix_example : parse (codes "*1\r\n$4\r\nPI") ≡ incomplete
parse_prefix_example =
    parse_prefix ping (codes "*1\r\n$4\r\nPI") (codes "NG\r\n") (omega arith) (omega arith)
      split_ping (cc)

-- A handler that keeps what it was given.
abbrev keep : List ParseResult → ParseResult → List ParseResult
keep s r = s ++ r ∷ []

receive_all-flatten_example :
    receive_all keep ([], []) (codes "*1\r\n$4\r\nPI" ∷ codes "NG\r\n*1" ∷ [])
    ≡ receive keep ([], []) (flatten (codes "*1\r\n$4\r\nPI" ∷ codes "NG\r\n*1" ∷ []))
receive_all-flatten_example =
    receive_all-flatten keep [] (codes "*1\r\n$4\r\nPI" ∷ codes "NG\r\n*1" ∷ [])

process_ends_example :
    ((parse (process keep [] (codes "*1\r\n$4\r\nPING\r\n*1")).1).bytes_consumed ≡ 0)
    × (pump keep 99 [] (codes "*1\r\n$4\r\nPING\r\n*1")
        ≡ process keep [] (codes "*1\r\n$4\r\nPING\r\n*1"))
process_ends_example = process_ends keep 99 [] (codes "*1\r\n$4\r\nPING\r\n*1") (omega arith)

split_two :
    flatten (codes "*1\r\n$4\r\nPING\r\n*2\r\n$4\r\nEC" ∷ codes "HO\r\n$3\r\nhey\r\n" ∷ [])
    ≡ flatten (map encode_array (ping ∷ echo_hey ∷ []))
unfolding encode_array
split_two = refl

receive_all-encoded_example :
    receive_all keep
      ([], [])
      (codes "*1\r\n$4\r\nPING\r\n*2\r\n$4\r\nEC" ∷ codes "HO\r\n$3\r\nhey\r\n" ∷ [])
    ≡ (handle_all keep [] (ping ∷ echo_hey ∷ []), [])
receive_all-encoded_example =
    receive_all-encoded keep [] (ping ∷ echo_hey ∷ [])
      (codes "*1\r\n$4\r\nPING\r\n*2\r\n$4\r\nEC" ∷ codes "HO\r\n$3\r\nhey\r\n" ∷ []) (omega arith)
      split_two
