-- ===== src/Resp/Cursor.antt =====
-- One round of the argument loop, and what the cursor does: it only moves forward, over bytes of
-- the buffer, and more bytes behind the buffer change nothing that was read.
use redis_lite.Common.{
  ℕ, zero, suc, ◌+◌, ◌≤◌, ◌<◌, ◌≡◌, refl, ◌≢◌, ◌∙◌, List, [], ◌∷◌, ◌++◌, Option, none, some, Bytes,
  length, length-append, take-append, drop-append, length-drop, arith, Option-cases, inl, inr, sym,
}
use redis_lite.Number.{stoi}
use redis_lite.Resp.{scan_line, checked, skip_crlf, with_value, read_header, read_body, read_args}

pub read_args-suc :
    (count : ℕ) (args : List Bytes) (at : ℕ) (rest : Bytes) {arg : Bytes} {at' : ℕ} {rest' : Bytes}
    → read_body (read_header b'$' at rest) ≡ some (arg, at', rest')
    → read_args (suc count) args at rest ≡ read_args count (args ++ arg ∷ []) at' rest'
unfolding read_args
read_args-suc count args at rest h = rw (h, read_args)

pub read_args-none :
    (count : ℕ) (args : List Bytes) (at : ℕ) (rest : Bytes)
    → read_body (read_header b'$' at rest) ≡ none
    → read_args (suc count) args at rest ≡ none
unfolding read_args
read_args-none count args at rest h = rw (h, read_args)

length-scan_line : (s : Bytes) → length (scan_line s).0 + length (scan_line s).1 ≡ length s
unfolding scan_line
length-scan_line [] = omega arith
length-scan_line (c ∷ s) = ground (arith, length-scan_line s)

-- The cursor `(at, rest)` stands behind `(at', rest')`: it has passed `at - at'` bytes.
abbrev pub Passed : ℕ → Bytes → ℕ → Bytes → Type 0
Passed at rest at' rest' = at' + length rest' ≡ at + length rest

pub read_header-Passed :
    (marker at : ℕ) (s : Bytes) {n at' : ℕ} {rest' : Bytes}
    → read_header marker at s ≡ some (n, at', rest')
    → Passed at s at' rest' × (at < at')
unfolding read_header with_value
read_header-Passed marker at [] h = cc
read_header-Passed marker at (c ∷ s) h = ground (arith, length-scan_line s)

read_body-Passed :
    (h : Option (ℕ × ℕ × Bytes)) {n at : ℕ} {s arg : Bytes} {at' : ℕ} {rest' : Bytes}
    → h ≡ some (n, at, s)
    → read_body h ≡ some (arg, at', rest')
    → Passed at s at' rest' × (at < at')
unfolding read_body
read_body-Passed h {n} {at} {s} e r = ground (arith, length-drop (n + 2) s)

-- A step of the loop that succeeds has read a header, and then a body behind it.
read_body-some :
    (h : Option (ℕ × ℕ × Bytes)) {r : Bytes × ℕ × Bytes}
    → read_body h ≡ some r
    → (c : ℕ × ℕ × Bytes) × (h ≡ some c)
unfolding read_body
read_body-some none e = cc
read_body-some (some c) e = (c, refl)

read_arg-Passed :
    (at : ℕ) (s : Bytes) {arg : Bytes} {at' : ℕ} {rest' : Bytes}
    → read_body (read_header b'$' at s) ≡ some (arg, at', rest')
    → Passed at s at' rest' × (at < at')
read_arg-Passed at s e =
    let (c, h) = read_body-some (read_header b'$' at s) e in
    omega (arith, read_header-Passed b'$' at s h, read_body-Passed (read_header b'$' at s) h e)

pub read_args-Passed :
    (count : ℕ) (args : List Bytes) (at : ℕ) (s : Bytes) {args' : List Bytes} {at' : ℕ}
    {rest' : Bytes}
    → read_args count args at s ≡ some (args', at', rest')
    → Passed at s at' rest' × (at ≤ at')
read_args-Passed zero args at s e = unfold read_args in ground arith
read_args-Passed (suc count) args at s e = elim (Option-cases (read_body (read_header b'$' at s))) [
  | inl h ↦ cc (read_args-none count args at s h)
  | inr ((arg, mid, rest), h) ↦ omega (
    arith,
    read_arg-Passed at s h,
    read_args-Passed count (args ++ arg ∷ []) mid rest (sym (read_args-suc count args at s h) ∙ e),
  )
]

scan_line-append :
    (s more : Bytes)
    → (scan_line s).1 ≢ []
    → scan_line (s ++ more) ≡ ((scan_line s).0, (scan_line s).1 ++ more)
unfolding scan_line
scan_line-append [] more ne = absurd (ne refl)
scan_line-append (c ∷ s) more ne = ground (arith, scan_line-append s more)

skip_crlf-append :
    (n : ℕ) (s : Bytes) (at : ℕ) (more : Bytes) {m at' : ℕ} {rest : Bytes}
    → skip_crlf n s at ≡ some (m, at', rest)
    → (s ≢ []) × (skip_crlf n (s ++ more) at ≡ some (m, at', rest ++ more))
unfolding skip_crlf
skip_crlf-append n [] at more e = cc
skip_crlf-append n (c ∷ []) at more e = cc
skip_crlf-append n (c ∷ d ∷ s) at more e = ground arith

with_value-append :
    (v : Option ℕ) (at : ℕ) (s more : Bytes) {m at' : ℕ} {rest : Bytes}
    → with_value v at s ≡ some (m, at', rest)
    → (s ≢ []) × (with_value v at (s ++ more) ≡ some (m, at', rest ++ more))
unfolding with_value
with_value-append none at s more e = cc
with_value-append (some n) at s more e = skip_crlf-append n s at more e

pub read_header-append :
    (marker at : ℕ) (s more : Bytes) {n at' : ℕ} {rest : Bytes}
    → read_header marker at s ≡ some (n, at', rest)
    → read_header marker at (s ++ more) ≡ some (n, at', rest ++ more)
unfolding read_header
read_header-append marker at [] more e = cc
read_header-append marker at (c ∷ s) more e =
    let (line, rest) = scan_line s in
    ground (
      arith,
      scan_line-append s more,
      with_value-append (checked (stoi line)) (at + 1 + length line) rest more,
    )

read_body-append_more :
    (n at : ℕ) (s more : Bytes) {arg : Bytes} {at' : ℕ} {rest' : Bytes}
    → read_body (some (n, at, s)) ≡ some (arg, at', rest')
    → read_body (some (n, at, s ++ more)) ≡ some (arg, at', rest' ++ more)
unfolding read_body
read_body-append_more n at s more e =
    ground (arith, length-append s more, take-append n s more, drop-append (n + 2) s more)

read_arg-append :
    (at : ℕ) (s more : Bytes) {arg : Bytes} {at' : ℕ} {rest : Bytes}
    → read_body (read_header b'$' at s) ≡ some (arg, at', rest)
    → read_body (read_header b'$' at (s ++ more)) ≡ some (arg, at', rest ++ more)
read_arg-append at s more e =
    let ((n, mid, body), h) = read_body-some (read_header b'$' at s) e in
    rw (read_header-append b'$' at s more h) (read_body-append_more n mid body more (rw h at e))

pub read_args-append :
    (count : ℕ) (args : List Bytes) (at : ℕ) (s more : Bytes) {args' : List Bytes} {at' : ℕ}
    {rest : Bytes}
    → read_args count args at s ≡ some (args', at', rest)
    → read_args count args at (s ++ more) ≡ some (args', at', rest ++ more)
read_args-append zero args at s more e = unfold read_args in ground arith
read_args-append (suc count) args at s more e =
    elim (Option-cases (read_body (read_header b'$' at s))) [
      | inl h ↦ cc (read_args-none count args at s h)
      | inr ((arg, mid, rest), h) ↦
          read_args-suc count args at (s ++ more) (read_arg-append at s more h)
          ∙ read_args-append count (args ++ arg ∷ []) mid rest more
              (sym (read_args-suc count args at s h) ∙ e)
    ]
