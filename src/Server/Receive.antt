-- ===== src/Server/Receive.antt =====
-- A snapshot that is received in pieces by `connect_to_master` (src/server.cpp) is the snapshot that
-- was sent, wherever the pieces were cut.
use redis_lite.Common.{
  ℕ, suc, ◌+◌, ◌≤◌, ◌<◌, ◌≡◌, ◌≢◌, ◌^◌, ◌%◌, refl, sym, ◌∙◌, ap, ap₂, List, [], ◌∷◌, ◌++◌, some,
  Bytes, codes, length, length-append, take, drop, All, flatten, take-length, drop-length,
  drop-length_self, take-append, drop-append, arith, length-drop, drop-drop,
}
use redis_lite.Common.Int.{pos}
use redis_lite.Number.{of_ℕ, stoi, int_max}
use redis_lite.Number.RoundTrip.{stoi-of_ℕ, of_ℕ-IsDigit, IsDigit}
use redis_lite.Server.Handshake.{
  rdb_header, await_header, await_size, rdb_bytes, receive_rdb, starts_with,
}
use redis_lite.Server.Find.{index_of-behind}
use redis_lite.Server.Await.{await_header-found, await_size-found}

-- A snapshot with its length in front and what follows it.
abbrev pub framed : Bytes → Bytes → Bytes → Bytes
framed line bytes later =
    line ++ (codes "$" ++ (of_ℕ (length bytes) ++ (codes "\r\n" ++ (bytes ++ later))))

IsDigit-ne_cr : (s : Bytes) → All IsDigit s → All (λ b. b ≢ 13) s
IsDigit-ne_cr [] h = tt
IsDigit-ne_cr (c ∷ s) h = (omega arith, IsDigit-ne_cr s h.1)

-- Where the snapshot starts.
abbrev pub start_of : Bytes → Bytes → ℕ
start_of line bytes = length line + length (of_ℕ (length bytes)) + 3

rdb_header-framed :
    (line bytes later : Bytes)
    → All (λ b. b ≢ b'$') line
    → rdb_header (framed line bytes later) ≡ some (of_ℕ (length bytes), start_of line bytes)
unfolding rdb_header
rdb_header-framed line bytes later clean =
    let digits = of_ℕ (length bytes) in
    let back = codes "\r\n" ++ (bytes ++ later) in
    let ne = IsDigit-ne_cr digits (of_ℕ-IsDigit (length bytes)) in
    rw
      (
        index_of-behind b'$' [] line (codes "$" ++ (digits ++ back)) clean
            (unfold starts_with in refl),
        drop-length_self line,
        index_of-behind 13 (10 ∷ []) (b'$' ∷ digits) back (omega arith, ne)
            (unfold starts_with in refl),
        drop-length line,
      )
      (ap₂ (λ t n. some (t, n))
        (ap (λ k. take k (digits ++ back)) {y = length digits} (omega arith)
          ∙ take-length digits back)
        (omega arith))

start_drop :
    (line bytes later : Bytes)
    → drop (start_of line bytes) (framed line bytes later) ≡ bytes ++ later
start_drop line bytes later =
    let digits = of_ℕ (length bytes) in
    let rest = codes "$" ++ (digits ++ (codes "\r\n" ++ (bytes ++ later))) in
    ap (λ k. drop k (line ++ rest)) {y = length line + (1 + (length digits + 2))} (omega arith)
    ∙ drop-length line rest (1 + (length digits + 2))
    ∙ ap (λ k. drop k rest) {y = suc (length digits + 2)} (omega arith)
    ∙ drop-length digits (codes "\r\n" ++ (bytes ++ later)) 2

framed_long :
    (line bytes later : Bytes)
    → start_of line bytes + length bytes ≤ length (framed line bytes later)
framed_long line bytes later =
    let digits = of_ℕ (length bytes) in
    omega (
      arith,
      length-append line (codes "$" ++ (digits ++ (codes "\r\n" ++ (bytes ++ later)))),
      length-append digits (codes "\r\n" ++ (bytes ++ later)),
      length-append bytes later,
    )

end_drop :
    (line bytes later : Bytes)
    → drop (start_of line bytes + length bytes) (framed line bytes later) ≡ later
end_drop line bytes later =
    sym (drop-drop (length bytes) (start_of line bytes) (framed line bytes later))
    ∙ ap (drop (length bytes)) (start_drop line bytes later)
    ∙ drop-length_self bytes later

-- Bytes of which `n` from `from` on have been received.
prefix_take :
    (all rest total : Bytes) (from n : ℕ)
    → all ++ rest ≡ total
    → from + n ≤ length all
    → take n (drop from all) ≡ take n (drop from total)
prefix_take all rest total from n e room = sym (
    ap (λ t. take n (drop from t)) (sym e)
    ∙ ap (take n) (drop-append from all rest (omega arith))
    ∙ take-append n (drop from all) rest (omega (arith, length-drop from all)))

prefix_drop :
    (all rest total : Bytes) (k : ℕ)
    → all ++ rest ≡ total
    → k ≤ length all
    → drop k all ++ rest ≡ drop k total
prefix_drop all rest total k e room = sym (drop-append k all rest room) ∙ ap (drop k) e

received_parts :
    (reply text front all : Bytes) (pieces rest unread : List Bytes) (start size : ℕ)
    → await_header reply pieces ≡ some ((text, start), front, rest)
    → stoi text ≡ some (pos size)
    → size < 2 ^ 64
    → start + size < 2 ^ 64
    → await_size (start + size) front rest ≡ some (all, unread)
    → receive_rdb reply pieces ≡ some (take size (drop start all), drop (start + size) all, unread)
unfolding receive_rdb rdb_bytes
received_parts reply text front all pieces rest unread start size found number small fits sized =
    let whole : (start + size % 2 ^ 64) % 2 ^ 64 ≡ start + size = omega arith in
    let len : size % 2 ^ 64 ≡ size = omega arith in
    let whole' : (start + size) % 2 ^ 64 ≡ start + size = omega arith in
    rw (found, number, rdb_bytes, whole, sized, len)
      (ap (λ k. some (take size (drop start all), drop k all, unread)) whole')

-- Whatever pieces a snapshot arrives in behind its length, the first of them with the line in front:
-- the snapshot is taken out whole, and nothing behind it is lost.
pub receive_rdb-framed :
    (line bytes later reply : Bytes) (pieces : List Bytes)
    → All (λ b. b ≢ b'$') line
    → length bytes ≤ int_max
    → length line + length (of_ℕ (length bytes)) + length bytes + 3 < 2 ^ 64
    → reply ++ flatten pieces ≡ framed line bytes later
    → (leftover : Bytes) × (unread : List Bytes) × (receive_rdb reply pieces
        ≡ some (bytes, leftover, unread))
      × (leftover ++ flatten unread ≡ later)
receive_rdb-framed line bytes later reply pieces clean small fits same =
    let start = start_of line bytes in
    let size = length bytes in
    let total = framed line bytes later in
    let (front, rest, found, same1) =
      await_header-found pieces reply (of_ℕ size, start)
        (ap rdb_header same ∙ rdb_header-framed line bytes later clean) in
    let long : start + size ≤ length (front ++ flatten rest) =
      omega (arith, framed_long line bytes later, ap (λ (t : Bytes). length t) (same1 ∙ same)) in
    let (all, unread, sized, same2, reach) = await_size-found rest front (start + size) long in
    let rebuilt : all ++ flatten unread ≡ total = same2 ∙ same1 ∙ same in
    let taken : take size (drop start all) ≡ bytes =
      prefix_take all (flatten unread) total start size rebuilt reach
      ∙ ap (take size) (start_drop line bytes later)
      ∙ take-length bytes later in
    (
      drop (start + size) all,
      unread,
      received_parts reply (of_ℕ size) front all pieces rest unread start size found
            (stoi-of_ℕ size small) (omega arith) (omega arith) sized
          ∙ ap (λ t. some (t, drop (start + size) all, unread)) taken,
      prefix_drop all (flatten unread) total (start + size) rebuilt reach
          ∙ end_drop line bytes later,
    )
