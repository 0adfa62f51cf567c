-- ===== src/Backlog/Replay.antt =====
-- What a replica that asks for a partial resync is sent: the bytes of the stream from its offset.
use mathlib.Core.List.{cons-ne-nil}
use mathlib.Core.Path.{subst, subst₂, subst₃}
use redis_lite.Common.{
  ℕ, ◌+◌, ◌-◌, ◌^◌, ◌≤◌, ◌<◌, ◌≡◌, ◌≢◌, refl, sym, ◌∙◌, ap, List, [], ◌∷◌, ◌++◌, append_assoc,
  append-nil, Bytes, length, flatten, length-append, drop, drop-drop, arith, true, leb, ◌&&◌,
  Bool-cases, inl, inr, if◌then◌else◌, Option, some, none,
}
use redis_lite.Common.Int.{ℤ, pos}
use redis_lite.Backlog.{Backlog, create, feed, contains, read, set_start}
use redis_lite.Backlog.Ring.{keep_last, length-keep_last, keep_last-append}
use redis_lite.Backlog.Stream.{
  Holds, Holds-Ready, create-Ready, feed-Holds, set_start-Holds, read-Holds, contains-Holds,
}

-- The server's feeds, one for each write: each at the offset that the one before it ended at.
unfoldable pub feed_all : List Bytes → ℕ → Backlog → Backlog
feed_all [] offset b = b
feed_all (d ∷ ds) offset b = feed_all ds (offset + length d) (feed d (pos offset) b)

capacity-feed : (d : Bytes) (g : ℤ) (b : Backlog) → (feed d g b).capacity ≡ b.capacity
unfolding feed
capacity-feed [] g b = refl
capacity-feed (c ∷ d) g b = unfold redis_lite.Backlog.advance in refl

feed-nil : (g : ℤ) (b : Backlog) → feed [] g b ≡ b
unfolding feed
feed-nil g b = refl

pub capacity-set_start : (g : ℤ) (b : Backlog) → (set_start g b).capacity ≡ b.capacity
unfolding set_start
capacity-set_start g b = refl

-- The stream from `s` on, of which the bytes `w` were fed, is kept as far as the capacity goes.
pub Kept : Backlog → ℕ → ℕ → Bytes → Type 0
Kept b cap s w = Holds b (s + (length w - cap)) (keep_last cap w) × (b.capacity ≡ cap)

pub feed-Kept :
    (b : Backlog) (cap s : ℕ) (w d : Bytes)
    → s + length (w ++ d) < 2 ^ 63
    → Kept b cap s w
    → Kept (feed d (pos (s + length w)) b) cap s (w ++ d)
unfolding Kept
feed-Kept b cap s w [] h k = unfold feed in rw append-nil k
feed-Kept b cap s w (c ∷ d) h (held, e) =
    let w' = keep_last cap w in
    let size = length-keep_last cap w in
    let fed =
      feed-Holds b (s + (length w - cap)) w' (c ∷ d) (cons-ne-nil c d)
        (omega (arith, size, length-append w (c ∷ d))) (Holds-Ready held) in
    (
      subst₃ (λ o from kept. Holds (feed (c ∷ d) (pos o) b) from kept) (omega (arith, size))
          (omega (arith, size, e, length-append w (c ∷ d)))
          (ap (λ n. keep_last n (w' ++ c ∷ d)) e ∙ keep_last-append cap w (c ∷ d)) fed,
      capacity-feed (c ∷ d) (pos (s + length w)) b ∙ e,
    )

feed_all-Kept :
    (b : Backlog) (cap s : ℕ) (w : Bytes) (ds : List Bytes)
    → s + length (w ++ flatten ds) < 2 ^ 63
    → Kept b cap s w
    → Kept (feed_all ds (s + length w) b) cap s (w ++ flatten ds)
unfolding feed_all
feed_all-Kept b cap s w [] h k = rw append-nil k
feed_all-Kept b cap s w (d ∷ ds) h k =
    let next : length (w ++ d) ≡ length w + length d = length-append w d in
    subst₂ (λ o v. Kept (feed_all ds o (feed d (pos (s + length w)) b)) cap s v)
      (omega (arith, next)) (append_assoc w d (flatten ds))
      (feed_all-Kept (feed d (pos (s + length w)) b) cap s (w ++ d) ds (rw append_assoc h) (
        feed-Kept b cap s w d
          (omega (arith, next, length-append w (d ++ flatten ds), length-append d (flatten ds))) k))

pub first-Kept :
    (cap g : ℕ) (d : Bytes)
    → 0 < cap
    → d ≢ []
    → g + length d < 2 ^ 63
    → Kept (feed d (pos g) (create cap)) cap g d
unfolding Kept create
first-Kept cap g d positive ne h = (
  subst₂ (λ o from. Holds (feed d (pos o) (create cap)) from (keep_last cap d)) (omega arith)
      (omega arith) (feed-Holds (create cap) g [] d ne (omega arith) (create-Ready cap g positive)),
  capacity-feed d (pos g) (create cap),
)

-- The first bytes fed start the stream.
pub created-Kept :
    (cap g : ℕ) (ds : List Bytes)
    → 0 < cap
    → flatten ds ≢ []
    → g + length (flatten ds) < 2 ^ 63
    → Kept (feed_all ds g (create cap)) cap g (flatten ds)
unfolding feed_all
created-Kept cap g [] positive ne h = absurd (ne refl)
created-Kept cap g ([] ∷ ds) positive ne h =
    subst₂ (λ o b. Kept (feed_all ds o b) cap g (flatten ds)) (omega arith)
      (sym (feed-nil (pos g) (create cap))) (created-Kept cap g ds positive ne h)
created-Kept cap g ((c ∷ d) ∷ ds) positive ne h =
    feed_all-Kept (feed (c ∷ d) (pos g) (create cap)) cap g (c ∷ d) ds h (
      first-Kept cap g (c ∷ d) positive (cons-ne-nil c d)
        (omega (arith, length-append d (flatten ds))))

keep_last-nil : (n : ℕ) → keep_last n [] ≡ []
keep_last-nil n = ap (λ k. drop k []) {y = 0} (omega arith)

pub restarted-Kept :
    (b : Backlog) (g : ℕ)
    → length b.buffer ≡ b.capacity
    → 0 < b.capacity
    → Kept (set_start (pos g) b) b.capacity g []
unfolding Kept
restarted-Kept b g sized positive = (
  subst₂ (λ from kept. Holds (set_start (pos g) b) from kept) (omega arith)
      (sym (keep_last-nil b.capacity)) (set_start-Holds b g sized positive),
  capacity-set_start (pos g) b,
)

pub contains-Kept :
    (b : Backlog) (cap s : ℕ) (w : Bytes) (o : ℕ)
    → Kept b cap s w
    → contains (pos o) b ≡ (leb (s + (length w - cap)) o && leb o (s + length w))
unfolding Kept
contains-Kept b cap s w o (h, e) =
    contains-Holds b (s + (length w - cap)) (keep_last cap w) o h
    ∙ ap (λ end. leb (s + (length w - cap)) o && leb o end) (omega (arith, length-keep_last cap w))

pub read-Kept :
    (b : Backlog) (cap s : ℕ) (w : Bytes) (o : ℕ)
    → s + length w < 2 ^ 63
    → s + (length w - cap) ≤ o
    → o ≤ s + length w
    → Kept b cap s w
    → read (pos o) b ≡ drop (o - s) w
unfolding Kept
read-Kept b cap s w o small lo hi (h, e) =
    let from = s + (length w - cap) in
    let size = length-keep_last cap w in
    read-Holds b from (keep_last cap w) o (omega (arith, size)) h lo (omega (arith, size))
    ∙ drop-drop (o - from) (length w - cap) w
    ∙ ap (λ k. drop k w) (omega arith)

-- A new backlog of a positive capacity, fed any pieces of a stream in order from the offset `g` on
-- (not all of them empty, and ending below 2 ^ 63): it contains exactly the offsets from the
-- `capacity` last bytes of the stream on up to its end.
pub contains-feed_all :
    (cap g o : ℕ) (ds : List Bytes)
    → 0 < cap
    → flatten ds ≢ []
    → g + length (flatten ds) < 2 ^ 63
    → contains (pos o) (feed_all ds g (create cap))
      ≡ (leb (g + (length (flatten ds) - cap)) o && leb o (g + length (flatten ds)))
contains-feed_all cap g o ds positive ne h =
    contains-Kept (feed_all ds g (create cap)) cap g (flatten ds) o
      (created-Kept cap g ds positive ne h)

pub contained : (lo hi o : ℕ) → (leb lo o && leb o hi) ≡ true → (lo ≤ o) × (o ≤ hi)
contained lo hi o h = ground arith

-- A new backlog of a positive capacity, fed any pieces of a stream in order from the offset `g` on
-- (not all of them empty, and ending below 2 ^ 63): what it returns for an offset that it contains
-- is exactly the stream from that offset on, across every wrap of the buffer.
pub read-feed_all :
    (cap g o : ℕ) (ds : List Bytes)
    → 0 < cap
    → flatten ds ≢ []
    → g + length (flatten ds) < 2 ^ 63
    → contains (pos o) (feed_all ds g (create cap)) ≡ true
    → read (pos o) (feed_all ds g (create cap)) ≡ drop (o - g) (flatten ds)
read-feed_all cap g o ds positive ne h found =
    let kept = created-Kept cap g ds positive ne h in
    let (lo, hi) =
      contained _ _ o
        (sym (contains-Kept (feed_all ds g (create cap)) cap g (flatten ds) o kept) ∙ found) in
    read-Kept (feed_all ds g (create cap)) cap g (flatten ds) o h lo hi kept

started-Kept :
    (b : Backlog) (g : ℕ) (ds : List Bytes)
    → length b.buffer ≡ b.capacity
    → 0 < b.capacity
    → g + length (flatten ds) < 2 ^ 63
    → Kept (feed_all ds g (set_start (pos g) b)) b.capacity g (flatten ds)
started-Kept b g ds sized positive h =
    subst (λ o. Kept (feed_all ds o (set_start (pos g) b)) b.capacity g (flatten ds)) {x = g + 0}
      (omega arith)
      (feed_all-Kept (set_start (pos g) b) b.capacity g [] ds h (restarted-Kept b g sized positive))

-- What the backlog has to say about an offset.
abbrev pub asked : ℕ → Backlog → Option Bytes
asked o b = if contains (pos o) b then some (read (pos o) b) else none

asked-Kept :
    (b : Backlog) (size g o : ℕ) (w : Bytes)
    → g + length w < 2 ^ 63
    → Kept b size g w
    → asked o b ≡ (
        if leb (g + (length w - size)) o && leb o (g + length w)
        then some (drop (o - g) w)
        else none)
asked-Kept b size g o w small kept =
    let lo = g + (length w - size) in
    elim (Bool-cases (leb lo o && leb o (g + length w))) [
      | inl inside ↦
          let (above, below) = contained lo (g + length w) o inside in
          rw (contains-Kept b size g w o kept, inside)
            (ap some (read-Kept b size g w o small above below kept))
      | inr outside ↦ rw (contains-Kept b size g w o kept, outside) refl
    ]

-- After `set_start` (on a promotion), whatever the buffer held before: fed any pieces of a stream
-- from that offset on (ending below 2 ^ 63), the backlog contains an offset if and only if it is one
-- of those from the last `capacity` bytes fed since on up to their end, and returns for each of these
-- the stream from there on. Nothing older is ever replayed.
pub read-feed_all-set_start :
    (b : Backlog) (g o : ℕ) (ds : List Bytes)
    → length b.buffer ≡ b.capacity
    → 0 < b.capacity
    → g + length (flatten ds) < 2 ^ 63
    → asked o (feed_all ds g (set_start (pos g) b)) ≡ (
        if leb (g + (length (flatten ds) - b.capacity)) o && leb o (g + length (flatten ds))
        then some (drop (o - g) (flatten ds))
        else none)
read-feed_all-set_start b g o ds sized positive h =
    asked-Kept (feed_all ds g (set_start (pos g) b)) b.capacity g o (flatten ds) h
      (started-Kept b g ds sized positive h)
