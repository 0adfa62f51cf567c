-- ===== src/Resp/Laws.antt =====
-- What `parse` returns at any buffer, and at a growing one.
use redis_lite.Common.{
  ℕ, ◌≤◌, ◌≡◌, refl, ◌<◌, ◌≢◌, ◌⊎◌, inl, inr, ap, List, [], ◌∷◌, ◌++◌, Option, none, some, sym,
  Bytes, length, length-append, arith, All, ℕ_discrete, append-nil,
}
use redis_lite.Number.{int_max}
use redis_lite.Resp.{
  incomplete, read_header, read_args, read_counted, result_of, parse, encode_array,
}
use redis_lite.Resp.Cursor.{
  read_header-Passed, read_args-Passed, read_header-append, read_args-append,
}
use redis_lite.Resp.RoundTrip.{Fits, parse-encode_array}

-- The ways a parse ends.
data Outcome (b : Bytes) : Type 0 where
  stopped : parse b ≡ incomplete → Outcome b
  complete :
      (n at : ℕ) (s : Bytes) (args : List Bytes) (end : ℕ) (rest : Bytes)
      → read_header b'*' 0 b ≡ some (n, at, s)
      → read_args n [] at s ≡ some (args, end, rest)
      → parse b ≡ record { args = args; bytes_consumed = end }
      → Outcome b

outcome_counted :
    (b : Bytes) (n at : ℕ) (s : Bytes) (r : Option (List Bytes × ℕ × Bytes))
    → read_header b'*' 0 b ≡ some (n, at, s)
    → read_args n [] at s ≡ r
    → Outcome b
unfolding parse read_counted result_of
outcome_counted b n at s none h e = Outcome.stopped (rw (h, e))
outcome_counted b n at s (some (args, end, rest)) h e =
    Outcome.complete n at s args end rest h e (rw (h, e))

outcome_header : (b : Bytes) (r : Option (ℕ × ℕ × Bytes)) → read_header b'*' 0 b ≡ r → Outcome b
outcome_header b none h = Outcome.stopped (unfold parse read_counted result_of in rw h)
outcome_header b (some (n, at, s)) h = outcome_counted b n at s (read_args n [] at s) h refl

outcome : (b : Bytes) → Outcome b
outcome b = outcome_header b (read_header b'*' 0 b) refl

sizes_of :
    {b : Bytes}
    → Outcome b
    → (parse b ≡ incomplete)
      ⊎ ((0 < (parse b).bytes_consumed) × ((parse b).bytes_consumed ≤ length b))
sizes_of (Outcome.stopped e) = inl e
sizes_of {b} (Outcome.complete n at s args end rest h r e) =
    let header = read_header-Passed b'*' 0 b h in
    let body = read_args-Passed n [] at s r in
    inr (rw e (omega (arith, header, body)), rw e (omega (arith, header, body)))

-- At every buffer, `parse` either returns the default result, with no arguments and nothing
-- consumed, or consumes at least one byte and no more than the buffer holds.
pub parse_bounds :
    (b : Bytes)
    → (parse b ≡ incomplete)
      ⊎ ((0 < (parse b).bytes_consumed) × ((parse b).bytes_consumed ≤ length b))
parse_bounds b = sizes_of (outcome b)

pub consumed-le-length : (b : Bytes) → (parse b).bytes_consumed ≤ length b
consumed-le-length b = elim (parse_bounds b) [ inl e ↦ rw e (omega arith) | inr h ↦ h.1 ]

consumed_zero : (b : Bytes) → (parse b).bytes_consumed ≡ 0 → parse b ≡ incomplete
consumed_zero b z = elim (parse_bounds b) [ inl e ↦ e | inr h ↦ absurd (omega arith) ]

append_of :
    {b : Bytes} (more : Bytes)
    → Outcome b
    → (parse b).bytes_consumed ≢ 0
    → parse (b ++ more) ≡ parse b
append_of more (Outcome.stopped e) ne = absurd (ne (rw e))
append_of {b} more (Outcome.complete n at s args end rest h r e) ne =
    unfold parse read_counted result_of in
    rw (read_header-append b'*' 0 b more h, read_args-append n [] at s more r, h, r)

-- Once `parse` has found a command at the front of a buffer, bytes received behind it do not change
-- the command found nor the number of bytes consumed.
pub parse-append : (b more : Bytes) → (parse b).bytes_consumed ≢ 0 → parse (b ++ more) ≡ parse b
parse-append b more ne = append_of more (outcome b) ne

length-ne-zero : (s : Bytes) → s ≢ [] → length s ≢ 0
length-ne-zero [] ne = absurd (ne refl)
length-ne-zero (c ∷ s) ne = omega arith

-- What a parse of a prefix would have consumed, if it had found a command.
whole_consumed :
    (args : List Bytes) (p q : Bytes)
    → length args ≤ int_max
    → All Fits args
    → p ++ q ≡ encode_array args
    → (parse p).bytes_consumed ≢ 0
    → (parse p).bytes_consumed ≡ length (p ++ q)
whole_consumed args p q h hs e found =
    rw
      (
        ← parse-append p q found,
        e,
        ← append-nil (encode_array args),
        parse-encode_array args [] h hs,
      )
      (ap length (sym (append-nil (encode_array args))))

-- A buffer that holds a strict prefix of an encoded command (of at most `INT_MAX` arguments of at
-- most `INT_MAX` bytes) is reported as incomplete, wherever the prefix was cut.
pub parse_prefix :
    (args : List Bytes) (p q : Bytes)
    → length args ≤ int_max
    → All Fits args
    → p ++ q ≡ encode_array args
    → q ≢ []
    → parse p ≡ incomplete
parse_prefix args p q h hs e ne = elim (ℕ_discrete (parse p).bytes_consumed 0) [
  | yes z ↦ consumed_zero p z
  | no found ↦ absurd (
      omega (
        arith,
        consumed-le-length p,
        whole_consumed args p q h hs e found,
        length-append p q,
        length-ne-zero q ne,
      ))
]
