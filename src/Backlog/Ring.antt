-- ===== src/Backlog/Ring.antt =====
-- The buffer as a ring: the last `capacity` bytes written, oldest first.
use native.Mathlib.Nat.{mod-add-mod}
use redis_lite.Common.{
  min, ℕ, suc, ◌+◌, ◌-◌, ◌%◌, ◌≤◌, ◌<◌, ◌≡◌, sym, ◌∙◌, ap, [], ◌∷◌, ◌++◌, append-nil, append_assoc,
  Bytes, length, set, length-append, length-set, length-drop, drop, drop-append, drop-drop, dec_lt,
  arith,
}
use redis_lite.Backlog.Window.{window, puts, window_extend, turn_step}

abbrev pub keep_last : ℕ → Bytes → Bytes
keep_last n xs = drop (length xs - n) xs

pub length-keep_last : (n : ℕ) (xs : Bytes) → length (keep_last n xs) ≡ min n (length xs)
length-keep_last n xs = omega (arith, length-drop (length xs - n) xs)

-- Bytes dropped early are dropped late as well.
pub keep_last-append :
    (n : ℕ) (xs ys : Bytes) → keep_last n (keep_last n xs ++ ys) ≡ keep_last n (xs ++ ys)
keep_last-append n xs ys =
    let a = length xs - n in
    let total : length (drop a xs ++ ys) ≡ length xs - a + length ys =
      omega (arith, length-append (drop a xs) ys, length-drop a xs) in
    ap (λ r. drop (length (drop a xs ++ ys) - n) r) (sym (drop-append a xs ys (omega arith)))
    ∙ drop-drop (length (drop a xs ++ ys) - n) a (xs ++ ys)
    ∙ ap (λ k. drop k (xs ++ ys)) (omega (arith, total, length-append xs ys))

-- The bytes `w` stand in the buffer, in order, and end at the write position.
pub record Ring (cap : ℕ) (buf : Bytes) (at : ℕ) (w : Bytes) : Type 0 where
  pub head : ℕ
  pub head_in : head < cap
  pub sized : length buf ≡ cap
  pub fits : length w ≤ cap
  pub ends : at ≡ (head + length w) % cap
  pub shows : window cap buf head (length w) ≡ w

module _ (cap : ℕ) where
  put_room :
      (buf : Bytes) (at c : ℕ) (w : Bytes)
      → length w < cap
      → Ring cap buf at w
      → Ring cap (set buf at c) ((at + 1) % cap) (w ++ c ∷ [])
  put_room buf at c w room r =
      let more = length-append w (c ∷ []) in
      record {
        head = r.head;
        head_in = r.head_in;
        sized = length-set buf at c ∙ r.sized;
        fits = omega (arith, more);
        ends =
            ap (λ k. (k + 1) % cap) r.ends
            ∙ mod-add-mod (r.head + length w) cap 1
            ∙ ap (λ k. k % cap) (omega (arith, more));
        shows =
            ap (window cap (set buf at c) r.head) {y = suc (length w)} (omega (arith, more))
            ∙ ap (λ i. window cap (set buf i c) r.head (suc (length w))) r.ends
            ∙ window_extend cap buf c (length w) r.head (omega (arith, r.sized)) r.head_in room
            ∙ ap (λ v. v ++ c ∷ []) r.shows;
      }

  put_full :
      (buf : Bytes) (at c x : ℕ) (w : Bytes)
      → suc (length w) ≡ cap
      → Ring cap buf at (x ∷ w)
      → Ring cap (set buf at c) ((at + 1) % cap) (w ++ c ∷ [])
  put_full buf at c x w full r =
      let more = length-append w (c ∷ []) in
      let head = (r.head + 1) % cap in
      let end : at ≡ (head + length w) % cap = r.ends ∙ turn_step cap r.head (length w) in
      record {
        head = head;
        head_in = omega arith;
        sized = length-set buf at c ∙ r.sized;
        fits = omega (arith, more);
        ends =
            ap (λ k. (k + 1) % cap) end
            ∙ mod-add-mod (head + length w) cap 1
            ∙ ap (λ k. k % cap) (omega (arith, more));
        shows =
            ap (window cap (set buf at c) head) {y = suc (length w)} (omega (arith, more))
            ∙ ap (λ i. window cap (set buf i c) head (suc (length w))) end
            ∙ window_extend cap buf c (length w) head (omega (arith, r.sized)) (omega arith)
                (omega arith)
            ∙ ap (λ v. v ++ c ∷ []) (ap (drop 1) r.shows);
      }

  put_one :
      (buf : Bytes) (at c : ℕ) (w : Bytes)
      → 0 < cap
      → Ring cap buf at w
      → Ring cap (set buf at c) ((at + 1) % cap) (keep_last cap (w ++ c ∷ []))
  put_one buf at c [] positive r =
      let e : keep_last cap (c ∷ []) ≡ c ∷ [] = ap (λ k. drop k (c ∷ [])) {y = 0} (omega arith) in
      rw e (put_room buf at c [] positive r)
  put_one buf at c (x ∷ w) positive r = elim (dec_lt (suc (length w)) cap) [
    | yes room ↦
        let e : keep_last cap (x ∷ (w ++ c ∷ [])) ≡ x ∷ (w ++ c ∷ []) =
          ap (λ k. drop k (x ∷ (w ++ c ∷ []))) {y = 0} (omega (arith, length-append w (c ∷ []))) in
        rw e (put_room buf at c (x ∷ w) room r)
    | no full ↦
        let e : keep_last cap (x ∷ (w ++ c ∷ [])) ≡ w ++ c ∷ [] =
          ap (λ k. drop k (x ∷ (w ++ c ∷ []))) {y = 1}
            (omega (arith, r.fits, length-append w (c ∷ []))) in
        rw e (put_full buf at c x w (omega (arith, r.fits)) r)
  ]

  pub puts-Ring :
      (buf : Bytes) (at : ℕ) (w src : Bytes)
      → 0 < cap
      → Ring cap buf at w
      → Ring cap (puts cap buf at src).0 (puts cap buf at src).1 (keep_last cap (w ++ src))
  puts-Ring buf at w [] positive r =
      let e : keep_last cap (w ++ []) ≡ w =
        ap (keep_last cap) (append-nil w) ∙ ap (λ k. drop k w) {y = 0} (omega (arith, r.fits)) in
      rw e r
  puts-Ring buf at w (c ∷ src) positive r =
      let e : keep_last cap (keep_last cap (w ++ c ∷ []) ++ src) ≡ keep_last cap (w ++ c ∷ src) =
        keep_last-append cap (w ++ c ∷ []) src ∙ ap (keep_last cap) (append_assoc w (c ∷ []) src) in
      rw (← e) (
        puts-Ring (set buf at c) ((at + 1) % cap) (keep_last cap (w ++ c ∷ [])) src positive
          (put_one buf at c w positive r))
