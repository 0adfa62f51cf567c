-- ===== src/Backlog/Stream.antt =====
-- The abstract view of a backlog: the last `capacity` bytes of the stream, with their offsets.
use native.Mathlib.Nat.{mod-eq_of_lt, mod-eq-sub-mod}
use redis_lite.Common.{
  ℕ, zero, suc, ◌+◌, ◌-◌, ◌%◌, ◌^◌, ◌≤◌, ◌<◌, ◌≡◌, ◌≢◌, refl, sym, ◌∙◌, ap, [], ◌∷◌, ◌++◌, Bytes,
  length, length-append, drop-length, length-replicate, replicate, drop, dec_lt, arith, true, ◌&&◌,
  leb, if◌then◌else◌,
}
use redis_lite.Common.Int.{pos}
use redis_lite.Common.Word.{add_i64-pos, sub_i64-pos, sub_i64, to_u64}
use redis_lite.Backlog.{
  Backlog, create, feed, advance, contains, read, data_start, set_start, copy_in,
}
use redis_lite.Backlog.Copy.{copy_in-puts, copy_out-window, window-add}
use redis_lite.Backlog.Window.{window, length-window}
use redis_lite.Backlog.Ring.{Ring, keep_last, length-keep_last, puts-Ring}

-- The backlog holds the bytes `w`, and the first of them has the offset `s` in the stream.
pub record Holds (b : Backlog) (s : ℕ) (w : Bytes) : Type 0 where
  pub ring : Ring b.capacity b.buffer b.write_pos w
  pub starts : b.start_offset ≡ pos s
  pub ends : b.end_offset ≡ pos (s + length w)
  pub marked : b.has_data ≡ true

-- The backlog can be fed at the offset `s + length w`: it holds `w`, or nothing yet.
pub record Ready (b : Backlog) (s : ℕ) (w : Bytes) : Type 0 where
  pub ring : Ring b.capacity b.buffer b.write_pos w
  pub origin : (if b.has_data then b.start_offset else pos (s + length w)) ≡ pos s

pub Holds-Ready : {b : Backlog} {s : ℕ} {w : Bytes} → Holds b s w → Ready b s w
Holds-Ready h = record { ring = h.ring; origin = rw (h.marked) h.starts }

Ring-at : {cap : ℕ} {buf : Bytes} {at : ℕ} {w : Bytes} → Ring cap buf at w → at < cap
Ring-at r = omega (arith, r.head_in, r.ends)

empty_Ring : (cap : ℕ) (buf : Bytes) → length buf ≡ cap → 0 < cap → Ring cap buf 0 []
empty_Ring cap buf e h = record {
  head = 0;
  head_in = h;
  sized = e;
  fits = omega arith;
  ends = omega (arith, mod-eq_of_lt {n = 0} {m = cap} h);
  shows = refl;
}

pub create-Ready : (cap s : ℕ) → 0 < cap → Ready (create cap) s []
unfolding create
create-Ready cap s h = record {
  ring = empty_Ring cap (replicate cap 0) (length-replicate cap 0) h;
  origin = ap pos (omega arith);
}

-- What `advance` makes of the offsets.
advance_offsets :
    (b : Backlog) (s old new : ℕ)
    → s + old + new < 2 ^ 63
    → let a = advance b (pos (s + old)) new (pos s) in
      (a.start_offset ≡ pos (s + (old + new - b.capacity))) × (a.end_offset ≡ pos (s + (old + new)))
unfolding advance
advance_offsets b s old new h =
    let all = s + old + new in
    ground (
      arith,
      add_i64-pos (s + old) new h,
      sub_i64-pos all s (omega arith) h,
      sub_i64-pos all b.capacity,
    )

pub feed-Holds :
    (b : Backlog) (s : ℕ) (w d : Bytes)
    → d ≢ []
    → s + length w + length d < 2 ^ 63
    → Ready b s w
    → Holds
        (feed d (pos (s + length w)) b)
        (s + (length w + length d - b.capacity))
        (keep_last b.capacity (w ++ d))
unfolding feed
feed-Holds b s w [] ne h r = absurd (ne refl)
feed-Holds b s w (c ∷ d) ne h r =
    let cap = b.capacity in
    let copied = copy_in cap (length (c ∷ d)) b.buffer b.write_pos (c ∷ d) in
    let offsets =
      advance_offsets (record b { buffer = copied.0; write_pos = copied.1 }) s (length w)
        (length (c ∷ d)) h in
    let size = length-append w (c ∷ d) in
    record {
      ring =
          unfold advance in
          rw
            (copy_in-puts cap (length (c ∷ d)) b.buffer b.write_pos (c ∷ d) (Ring-at r.ring)
              (omega arith))
            (puts-Ring cap b.buffer b.write_pos w (c ∷ d) (omega (arith, r.ring.head_in)) r.ring);
      starts = rw (r.origin) offsets.0;
      ends =
          rw (r.origin)
            (offsets.1 ∙ ap pos (omega (arith, size, length-keep_last cap (w ++ c ∷ d))));
      marked = unfold advance in refl;
    }

pub set_start-Holds :
    (b : Backlog) (s : ℕ)
    → length b.buffer ≡ b.capacity
    → 0 < b.capacity
    → Holds (set_start (pos s) b) s []
unfolding set_start
set_start-Holds b s e h = record {
  ring = empty_Ring b.capacity b.buffer e h;
  starts = refl;
  ends = ap pos (omega arith);
  marked = refl;
}

distance : (a b : ℕ) → b ≤ a → a < 2 ^ 63 → to_u64 (sub_i64 (pos a) (pos b)) ≡ a - b
distance a b h k = rw (sub_i64-pos a b h k) (omega arith)

mod_wrap : (x n : ℕ) → x < n → (x + n) % n ≡ x
mod_wrap x n h = grind arith

-- The start of a ring from its end.
ring_start :
    (cap head n at : ℕ)
    → head < cap
    → n ≤ cap
    → at ≡ (head + n) % cap
    → (at + cap - n % cap) % cap ≡ head
ring_start cap head n at h k e = elim (dec_lt (head + n) cap) [
  | yes p ↦
      let before : at + cap - n % cap ≡ head + cap =
        omega (arith, mod-eq_of_lt p, mod-eq_of_lt {n = n} {m = cap} (omega arith)) in
      ap (λ i. i % cap) before ∙ mod_wrap head cap h
  | no p ↦
      let wrapped : at ≡ head + n - cap = omega (
        arith,
        mod-eq-sub-mod {n = head + n} {m = cap} (omega arith),
        mod-eq_of_lt {n = head + n - cap} {m = cap} (omega arith),
      ) in
      elim (dec_lt n cap) [
        | yes q ↦
            let before : at + cap - n % cap ≡ head = omega (arith, wrapped, mod-eq_of_lt q) in
            ap (λ i. i % cap) before ∙ mod-eq_of_lt h
        | no q ↦
            let full : n ≡ cap = omega arith in
            let none_over : n % cap ≡ 0 =
              ap (λ i. i % cap) {y = 0 + cap} (omega arith) ∙ mod_wrap 0 cap (omega arith) in
            let before : at + cap - n % cap ≡ head + cap = omega (arith, wrapped, none_over) in
            ap (λ i. i % cap) before ∙ mod_wrap head cap h
      ]
]

-- The window without its first `m` bytes.
window-drop :
    (cap : ℕ) (buf : Bytes) (at m n : ℕ)
    → at < cap
    → drop m (window cap buf at (m + n)) ≡ window cap buf ((at + m) % cap) n
window-drop cap buf at m n h =
    let first = window cap buf at m in
    let second = window cap buf ((at + m) % cap) n in
    let size : m ≡ length first + 0 = omega (arith, length-window cap buf at m) in
    ap (drop m) (window-add cap buf at m n h)
    ∙ ap (λ k. drop k (first ++ second)) size
    ∙ drop-length first second 0

window_none : (cap : ℕ) (buf : Bytes) (at n : ℕ) → n ≡ 0 → window cap buf at n ≡ []
window_none cap buf at zero e = refl
window_none cap buf at (suc n) e = absurd (omega arith)

data_start-Holds :
    (b : Backlog) (s : ℕ) (w : Bytes)
    → s + length w < 2 ^ 63
    → (h : Holds b s w) → data_start b ≡ h.ring.head
unfolding data_start
data_start-Holds b s w small h =
    let len : to_u64 (sub_i64 b.end_offset b.start_offset) ≡ length w =
      rw (h.ends, h.starts) (distance (s + length w) s (omega arith) small ∙ omega arith) in
    rw len (
      ring_start b.capacity h.ring.head (length w) b.write_pos h.ring.head_in h.ring.fits
        h.ring.ends)

pub read-Holds :
    (b : Backlog) (s : ℕ) (w : Bytes) (offset : ℕ)
    → s + length w < 2 ^ 63
    → Holds b s w
    → s ≤ offset
    → offset ≤ s + length w
    → read (pos offset) b ≡ drop (offset - s) w
unfolding read
read-Holds b s w offset small h lo hi =
    let skip = offset - s in
    let left = s + length w - offset in
    let total : to_u64 (sub_i64 b.end_offset (pos offset)) ≡ left =
      rw (h.ends) (distance (s + length w) offset hi small) in
    let passed : to_u64 (sub_i64 (pos offset) b.start_offset) ≡ skip =
      rw (h.starts) (distance offset s lo (omega arith)) in
    let copied =
      copy_out-window b.capacity left b.buffer ((h.ring.head + skip) % b.capacity) left []
        (omega (arith, h.ring.head_in)) (omega (arith, h.ring.sized)) (omega arith) in
    let rest : drop skip w ≡ window b.capacity b.buffer ((h.ring.head + skip) % b.capacity) left =
      ap (drop skip) (sym h.ring.shows ∙ ap (window b.capacity b.buffer h.ring.head) (omega arith))
      ∙ window-drop b.capacity b.buffer h.ring.head skip left h.ring.head_in in
    rw (total, passed, data_start-Holds b s w small h, copied, rest, h.ends)
      (ground (arith, window_none b.capacity b.buffer ((h.ring.head + skip) % b.capacity) left))

pub contains-Holds :
    (b : Backlog) (s : ℕ) (w : Bytes) (offset : ℕ)
    → Holds b s w
    → contains (pos offset) b ≡ (leb s offset && leb offset (s + length w))
unfolding contains
contains-Holds b s w offset h = rw (h.marked, h.starts, h.ends) (ground arith)
