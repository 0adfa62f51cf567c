-- ===== src/Resp/RoundTrip.antt =====
-- `parse` reads back what `encode_array` writes, whatever follows it in the buffer.
use redis_lite.Common.{
  ℕ, ◌+◌, ◌≤◌, ◌≡◌, refl, List, [], ◌∷◌, ◌++◌, append_assoc, append-nil, some, Bytes, length,
  length-append, take-length, drop-length, All, arith,
}
use redis_lite.Number.{of_ℕ, int_max}
use redis_lite.Number.RoundTrip.{IsDigit, of_ℕ-IsDigit, stoi-of_ℕ}
use redis_lite.Resp.Cursor.{read_args-suc}
use redis_lite.Resp.{
  cr, lf, scan_line, checked, with_value, read_header, read_body, read_args, parse,
  encode_bulk_string, encode_bulk_strings, encode_array,
}

scan_line-digits :
    (line rest : Bytes) → All IsDigit line → scan_line (line ++ cr ∷ rest) ≡ (line, cr ∷ rest)
unfolding scan_line
scan_line-digits [] rest h = refl
scan_line-digits (c ∷ line) rest h = ground (arith, scan_line-digits line rest h.1)

-- The length of the line that `read_header` reads, with its marker and its end.
abbrev pub header_size : ℕ → ℕ
header_size n = 1 + length (of_ℕ n) + 2

pub read_header-of_ℕ :
    (marker at n : ℕ) (rest : Bytes)
    → n ≤ int_max
    → read_header marker at (marker ∷ (of_ℕ n ++ cr ∷ lf ∷ rest))
      ≡ some (n, at + header_size n, rest)
unfolding read_header checked with_value
read_header-of_ℕ marker at n rest h =
    rw (scan_line-digits (of_ℕ n) (lf ∷ rest) (of_ℕ-IsDigit n), stoi-of_ℕ n h) (ground arith)

pub read_body-append :
    (s rest : Bytes) (at : ℕ)
    → read_body (some (length s, at, s ++ cr ∷ lf ∷ rest)) ≡ some (s, at + (length s + 2), rest)
unfolding read_body
read_body-append s rest at = ground (
  arith,
  length-append s (cr ∷ lf ∷ rest),
  take-length s (cr ∷ lf ∷ rest),
  drop-length s (cr ∷ lf ∷ rest) 2,
)

-- What an argument takes in the buffer.
abbrev pub bulk_size : Bytes → ℕ
bulk_size s = header_size (length s) + (length s + 2)

abbrev pub Fits : Bytes → Type 0
Fits s = length s ≤ int_max

read_bulk_string :
    (s rest : Bytes) (at : ℕ)
    → Fits s
    → read_body (read_header b'$' at (encode_bulk_string s ++ rest))
      ≡ some (s, at + bulk_size s, rest)
unfolding encode_bulk_string
read_bulk_string s rest at h =
    let e : (of_ℕ (length s) ++ cr ∷ lf ∷ (s ++ cr ∷ lf ∷ [])) ++ rest
        ≡ of_ℕ (length s) ++ cr ∷ lf ∷ (s ++ cr ∷ lf ∷ rest) =
      simp append_assoc in
    rw (e, read_header-of_ℕ b'$' at (length s) (s ++ cr ∷ lf ∷ rest) h, read_body-append)
      (ground arith)

length-encode_bulk_string : (s : Bytes) → length (encode_bulk_string s) ≡ bulk_size s
unfolding encode_bulk_string
length-encode_bulk_string s = omega (
  arith,
  length-append (of_ℕ (length s)) (cr ∷ lf ∷ (s ++ cr ∷ lf ∷ [])),
  length-append s (cr ∷ lf ∷ []),
)

read_args-encode :
    (args done : List Bytes) (at : ℕ) (rest : Bytes)
    → All Fits args
    → read_args (length args) done at (encode_bulk_strings args ++ rest)
      ≡ some (done ++ args, at + length (encode_bulk_strings args), rest)
unfolding encode_bulk_strings
read_args-encode [] done at rest h = unfold read_args in ground (arith, append-nil done)
read_args-encode (s ∷ args) done at rest h = rw append_assoc (
    ground (
      arith,
      read_args-suc (length args) done at
          (encode_bulk_string s ++ (encode_bulk_strings args ++ rest))
          (read_bulk_string s (encode_bulk_strings args ++ rest) at h.0),
      read_args-encode args (done ++ s ∷ []) (at + bulk_size s) rest h.1,
      append_assoc done (s ∷ []) args,
      length-append (encode_bulk_string s) (encode_bulk_strings args),
      length-encode_bulk_string s,
    ))

-- For at most `INT_MAX` arguments, each of at most `INT_MAX` bytes: `parse` at the encoding of the
-- arguments, followed by any bytes, returns exactly those arguments and the encoding's length.
pub parse-encode_array :
    (args : List Bytes) (rest : Bytes)
    → length args ≤ int_max
    → All Fits args
    → parse (encode_array args ++ rest)
      ≡ record { args = args; bytes_consumed = length (encode_array args) }
unfolding parse encode_array
parse-encode_array args rest h hs =
    let e : (of_ℕ (length args) ++ cr ∷ lf ∷ encode_bulk_strings args) ++ rest
        ≡ of_ℕ (length args) ++ cr ∷ lf ∷ (encode_bulk_strings args ++ rest) =
      simp append_assoc in
    rw (e, read_header-of_ℕ b'*' 0 (length args) (encode_bulk_strings args ++ rest) h)
      (ground (
        arith,
        read_args-encode args [] (0 + header_size (length args)) rest hs,
        length-append (of_ℕ (length args)) (cr ∷ lf ∷ encode_bulk_strings args),
      ))
