-- ===== src/Resp.antt =====
-- `resp_parser.hpp` and `resp_parser.cpp`: the RESP wire format.
-- A cursor `buffer + pos` is the list of the bytes from `pos` on, beside the number `pos` itself.
-- `parse` has one result for "incomplete" and for "malformed", as the source has.
pub mod RoundTrip
pub mod Cursor
pub mod Laws
use redis_lite.Common.{
  ℕ, zero, suc, ◌+◌, ◌<◌, Bool, true, false, List, [], ◌∷◌, ◌++◌, Option, none, some, Bytes, codes,
  length, take, drop, ltb, ◌==◌, if◌then◌else◌,
}
use redis_lite.Common.Int.{ℤ, pos, negsuc}
use redis_lite.Number.{of_ℕ, stoi}

-- `ParseResult`; a default-constructed one has no argument and consumed nothing.
pub record ParseResult : Type 0 where
  pub args : List Bytes
  pub bytes_consumed : ℕ

abbrev pub incomplete : ParseResult
incomplete = record { args = []; bytes_consumed = 0 }

abbrev pub cr : ℕ
cr = 13

abbrev pub lf : ℕ
lf = 10

-- `while (pos < length && buffer[pos] != '\r') pos++;`: the bytes passed, and those from `pos` on.
unfoldable pub scan_line : Bytes → Bytes × Bytes
scan_line [] = ([], [])
scan_line (c ∷ s) =
    let (line, rest) = scan_line s in if c == cr then ([], c ∷ s) else (c ∷ line, rest)

-- The value of a decimal line that may not be negative.
unfoldable pub checked : Option ℤ → Option ℕ
checked none = none
checked (some (pos n)) = some n
checked (some (negsuc n)) = none

-- `if (pos + 1 >= length) return result;` and the step over the two bytes after the line.
unfoldable pub skip_crlf : ℕ → Bytes → ℕ → Option (ℕ × ℕ × Bytes)
skip_crlf n [] at = none
skip_crlf n (c ∷ []) at = none
skip_crlf n (c ∷ d ∷ rest) at = some (n, at + 2, rest)

with_value : Option ℕ → ℕ → Bytes → Option (ℕ × ℕ × Bytes)
unfolding skip_crlf
with_value none at rest = none
with_value (some n) at rest = skip_crlf n rest at

-- A line `<marker><number>\r\n` at the cursor: the number, and the cursor behind the line.
-- `*<count>` and `$<length>` are both read so.
unfoldable pub read_header : ℕ → ℕ → Bytes → Option (ℕ × ℕ × Bytes)
unfolding scan_line checked with_value
read_header marker at [] = none
read_header marker at (c ∷ s) =
    let (line, rest) = scan_line s in
    if c == marker then with_value (checked (stoi line)) (at + 1 + length line) rest else none

-- `if (pos + str_len + 2 > length) return result;` and the argument copied.
unfoldable pub read_body : Option (ℕ × ℕ × Bytes) → Option (Bytes × ℕ × Bytes)
read_body none = none
read_body (some (n, at, rest)) =
    if ltb (length rest) (n + 2) then none else some (take n rest, at + (n + 2), drop (n + 2) rest)

-- `for (int i = 0; i < count; i++)`, with the arguments read so far.
unfoldable pub read_args : ℕ → List Bytes → ℕ → Bytes → Option (List Bytes × ℕ × Bytes)
unfolding read_header read_body
read_args zero args at rest = some (args, at, rest)
read_args (suc count) args at rest = elim (read_body (read_header b'$' at rest)) [
  | none ↦ none
  | some (arg, at', rest') ↦ read_args count (args ++ (arg ∷ [])) at' rest'
]

read_counted : Option (ℕ × ℕ × Bytes) → Option (List Bytes × ℕ × Bytes)
unfolding read_args
read_counted none = none
read_counted (some (count, at, rest)) = read_args count [] at rest

-- `result` is assigned on a complete parse only.
unfoldable pub result_of : Option (List Bytes × ℕ × Bytes) → ParseResult
result_of none = incomplete
result_of (some (args, at, rest)) = record { args = args; bytes_consumed = at }

unfoldable pub parse : Bytes → ParseResult
unfolding read_header read_counted result_of
parse buffer = result_of (read_counted (read_header b'*' 0 buffer))

unfoldable pub encode_bulk_string : Bytes → Bytes
unfolding of_ℕ
encode_bulk_string str = b'$' ∷ (of_ℕ (length str) ++ cr ∷ lf ∷ (str ++ cr ∷ lf ∷ []))

unfoldable pub encode_null_bulk_string : Bytes
encode_null_bulk_string = codes "$-1\r\n"

-- `for (const auto& arg : args) result += encode_bulk_string(arg);`
unfoldable pub encode_bulk_strings : List Bytes → Bytes
unfolding encode_bulk_string
encode_bulk_strings [] = []
encode_bulk_strings (arg ∷ args) = encode_bulk_string arg ++ encode_bulk_strings args

unfoldable pub encode_array : List Bytes → Bytes
unfolding encode_bulk_strings
encode_array args = b'*' ∷ (of_ℕ (length args) ++ cr ∷ lf ∷ encode_bulk_strings args)
