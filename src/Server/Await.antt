-- ===== src/Server/Await.antt =====
-- The loops of `connect_to_master` (src/server.cpp) that receive a snapshot do not depend on how the
-- stream was cut.
use redis_lite.Common.{
  ℕ, ◌≤◌, ◌<◌, ◌≡◌, refl, sym, ◌∙◌, List, [], ◌∷◌, ◌++◌, append_assoc, append-nil, none, some,
  Bytes, length, flatten, Option-cases, inl, inr, arith, dec_lt,
}
use redis_lite.Server.Handshake.{rdb_header, await_header, await_size}
use redis_lite.Server.Find.{rdb_header-append}

-- Pieces that stand for the same bytes.
abbrev pub Same : Bytes → List Bytes → Bytes → List Bytes → Type 0
Same front pieces front' pieces' = front ++ flatten pieces ≡ front' ++ flatten pieces'

await_header_more :
    (front piece : Bytes) (pieces : List Bytes)
    → rdb_header front ≡ none
    → await_header front (piece ∷ pieces) ≡ await_header (front ++ piece) pieces
unfolding await_header
await_header_more front piece pieces h = rw (h, await_header)

await_header_done :
    (front : Bytes) (pieces : List Bytes) (h : Bytes × ℕ)
    → rdb_header front ≡ some h
    → await_header front pieces ≡ some (h, front, pieces)
unfolding await_header
await_header_done front [] h found = rw (found, await_header)
await_header_done front (piece ∷ pieces) h found = rw (found, await_header)

pub await_header-found :
    (pieces : List Bytes) (front : Bytes) (h : Bytes × ℕ)
    → rdb_header (front ++ flatten pieces) ≡ some h
    → (front' : Bytes) × (pieces' : List Bytes) × (await_header front pieces
        ≡ some (h, front', pieces'))
      × (front' ++ flatten pieces' ≡ front ++ flatten pieces)
await_header-found [] front h found =
    (front, [], await_header_done front [] h (rw append-nil at found), refl)
await_header-found (piece ∷ pieces) front h found = elim (Option-cases (rdb_header front)) [
  | inl early ↦
      let (front', pieces', waited, same) =
        await_header-found pieces (front ++ piece) h (rw append_assoc found) in
      (
        front',
        pieces',
        await_header_more front piece pieces early ∙ waited,
        same ∙ append_assoc front piece (flatten pieces),
      )
  | inr (h', there) ↦
      let one = sym (rdb_header-append front (piece ++ flatten pieces) there) ∙ found in
      (front, piece ∷ pieces, await_header_done front (piece ∷ pieces) h (there ∙ one), refl)
]

await_size_more :
    (front piece : Bytes) (pieces : List Bytes) (size : ℕ)
    → length front < size
    → await_size size front (piece ∷ pieces) ≡ await_size size (front ++ piece) pieces
unfolding await_size
await_size_more front piece pieces size h = ground arith

await_size_done :
    (front : Bytes) (pieces : List Bytes) (size : ℕ)
    → size ≤ length front
    → await_size size front pieces ≡ some (front, pieces)
unfolding await_size
await_size_done front [] size h = ground arith
await_size_done front (piece ∷ pieces) size h = ground arith

pub await_size-found :
    (pieces : List Bytes) (front : Bytes) (size : ℕ)
    → size ≤ length (front ++ flatten pieces)
    → (front' : Bytes) × (pieces' : List Bytes) × (await_size size front pieces
        ≡ some (front', pieces'))
      × (front' ++ flatten pieces' ≡ front ++ flatten pieces)
      × (size ≤ length front')
await_size-found [] front size enough =
    let enough' : size ≤ length front = rw append-nil at enough in
    (front, [], await_size_done front [] size enough', refl, enough')
await_size-found (piece ∷ pieces) front size enough = elim (dec_lt (length front) size) [
  | yes early ↦
      let (front', pieces', waited, same, size') =
        await_size-found pieces (front ++ piece) size (rw append_assoc enough) in
      (
        front',
        pieces',
        await_size_more front piece pieces size early ∙ waited,
        same ∙ append_assoc front piece (flatten pieces),
        size',
      )
  | no there ↦ (
    front,
    piece ∷ pieces,
    await_size_done front (piece ∷ pieces) size (omega arith),
    refl,
    omega arith,
  )
]
