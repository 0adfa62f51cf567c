-- ===== src/Server/Find.antt =====
-- Looking for a text in the replies of a master (`std::string::find` and `substr` as
-- `connect_to_master` of src/server.cpp uses them).
use redis_lite.Common.{
  ℕ, suc, ◌+◌, ◌-◌, ◌≤◌, ◌≡◌, ◌≢◌, refl, ◌∙◌, ap, true, false, [], ◌∷◌, ◌++◌, some, Bytes, codes,
  length, take, drop, All, take-length, drop-length_self, take-append, drop-append, Bool-cases,
  Option-cases, inl, inr, arith, leb, ◌==◌, ◌&&◌, length-drop,
}
use redis_lite.Server.State.{>>=-eq-some}
use redis_lite.Server.Send.{is_empty}
use redis_lite.Server.Handshake.{starts_with, index_of, next_index, between, rdb_header}

differs :
    (c : ℕ) (text : Bytes) (b : ℕ) (bytes : Bytes)
    → b ≢ c
    → starts_with (c ∷ text) (b ∷ bytes) ≡ false
unfolding starts_with
differs c text b bytes h = ground arith

-- A text whose first byte is not among the bytes in front of it.
pub index_of-behind :
    (c : ℕ) (text front back : Bytes)
    → All (λ b. b ≢ c) front
    → starts_with (c ∷ text) back ≡ true
    → index_of (c ∷ text) (front ++ back) ≡ some (length front)
unfolding index_of next_index
index_of-behind c text [] [] h found = unfold starts_with in cc
index_of-behind c text [] (b ∷ back) h found = rw found
index_of-behind c text (b ∷ front) back h found =
    rw (differs c text b (front ++ back) h.0, index_of-behind c text front back h.1 found)

starts_with-append :
    (text front back : Bytes)
    → length text ≤ length front
    → starts_with text (front ++ back) ≡ starts_with text front
unfolding starts_with
starts_with-append [] front back h = refl
starts_with-append (t ∷ text) [] back h = absurd (omega arith)
starts_with-append (t ∷ text) (b ∷ front) back h =
    ap (λ r. t == b && r) (starts_with-append text front back (omega arith))

length-starts_with :
    (text bytes : Bytes) → starts_with text bytes ≡ true → length text ≤ length bytes
unfolding starts_with
length-starts_with [] bytes h = omega arith
length-starts_with (t ∷ text) [] h = cc
length-starts_with (t ∷ text) (b ∷ bytes) h = ground (arith, length-starts_with text bytes)

-- A text found lies within the bytes.
pub index_of_bounds :
    (c n : ℕ) (text bytes : Bytes)
    → index_of (c ∷ text) bytes ≡ some n
    → n + length (c ∷ text) ≤ length bytes
unfolding index_of next_index
index_of_bounds c n text [] h = unfold is_empty in cc
index_of_bounds c n text (b ∷ bytes) h = elim (Bool-cases (starts_with (c ∷ text) (b ∷ bytes))) [
  | inl here ↦
      let at : n ≡ 0 = ground arith in
      omega (arith, at, length-starts_with (c ∷ text) (b ∷ bytes) here)
  | inr later ↦ elim (Option-cases (index_of (c ∷ text) bytes)) [
    | inl lost ↦ cc
    | inr (m, found) ↦
        let at : n ≡ suc m = ground arith in omega (arith, at, index_of_bounds c m text bytes found)
  ]
]

-- A text found stays where it is when bytes are received behind it.
pub index_of-append :
    (c n : ℕ) (text front back : Bytes)
    → index_of (c ∷ text) front ≡ some n
    → index_of (c ∷ text) (front ++ back) ≡ some n
unfolding index_of next_index
index_of-append c n text [] back h = unfold is_empty in cc
index_of-append c n text (b ∷ front) back h =
    let room : length (c ∷ text) ≤ length (b ∷ front) =
      omega (arith, index_of_bounds c n text (b ∷ front) h) in
    let same = starts_with-append (c ∷ text) (b ∷ front) back room in
    elim (Bool-cases (starts_with (c ∷ text) (b ∷ front))) [
      | inl here ↦ ground (arith, same)
      | inr later ↦ elim (Option-cases (index_of (c ∷ text) front)) [
        | inl lost ↦ cc
        | inr (m, found) ↦ ground (arith, same, index_of-append c m text front back found)
      ]
    ]

-- A part of a text by its two ends.
pub between_middle :
    (front middle back : Bytes) (from to : ℕ)
    → from ≡ length front
    → to ≡ length front + length middle
    → between from to (front ++ (middle ++ back)) ≡ middle
unfolding between
between_middle front middle back from to e f =
    let size : to - from ≡ length middle = omega arith in
    let order : leb from to ≡ true = ground arith in
    rw order (
      ap (λ k. take k (drop from (front ++ (middle ++ back)))) size
      ∙ ap (λ k. take (length middle) (drop k (front ++ (middle ++ back)))) e
      ∙ ap (take (length middle)) (drop-length_self front (middle ++ back))
      ∙ take-length middle back)

header_parts :
    (bytes : Bytes) {h : Bytes × ℕ}
    → rdb_header bytes ≡ some h
    → (dollar line : ℕ) × (index_of (codes "$") bytes ≡ some dollar)
      × (index_of (codes "\r\n") (drop dollar bytes) ≡ some line)
      × (h ≡ (take (line - 1) (drop (dollar + 1) bytes), dollar + line + 2))
unfolding rdb_header
header_parts bytes h =
    let (dollar, found, h1) = >>=-eq-some (index_of (codes "$") bytes) _ h in
    let (line, found', h2) = >>=-eq-some (index_of (codes "\r\n") (drop dollar bytes)) _ h1 in
    (dollar, line, found, found', cc)

-- The line with the length of a snapshot stays where it is when bytes are received behind it.
pub rdb_header-append :
    (front back : Bytes) {h : Bytes × ℕ}
    → rdb_header front ≡ some h
    → rdb_header (front ++ back) ≡ some h
rdb_header-append front back {h} found =
    let (dollar, line, at, at', e) = header_parts front found in
    let in_front = index_of_bounds b'$' dollar [] front at in
    let in_line = index_of_bounds 13 line (10 ∷ []) (drop dollar front) at' in
    let size = length-drop dollar front in
    let size' = length-drop (dollar + 1) front in
    unfold rdb_header in
    rw
      (
        index_of-append b'$' dollar [] front back at,
        drop-append dollar front back (omega arith),
        index_of-append 13 line (10 ∷ []) (drop dollar front) back at',
        drop-append (dollar + 1) front back (omega arith),
        take-append (line - 1) (drop (dollar + 1) front) back (omega arith),
        e,
      )
      refl
