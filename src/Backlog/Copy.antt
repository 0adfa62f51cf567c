-- ===== src/Backlog/Copy.antt =====
-- The chunked loops of `feed` and `read` copy byte by byte round the buffer.
use native.Mathlib.Nat.{mod-eq_of_lt, add-zero}
use Prim.Native.Nat.add
use redis_lite.Common.{
  ℕ, zero, suc, ◌+◌, ◌-◌, ◌%◌, ◌≤◌, ◌<◌, ◌≡◌, refl, sym, ◌∙◌, ap, ap₂, [], ◌∷◌, ◌++◌, append-nil,
  append_assoc, Bytes, length, set, get_or, take, drop, length-take, length-drop, take-append-drop,
  min, arith,
}
use redis_lite.Backlog.{overwrite, copy_in, copy_out}
use redis_lite.Backlog.Window.{window, puts, puts-append, turn_step}

pub length-overwrite :
    (buf : Bytes) (at : ℕ) (src : Bytes) → length (overwrite buf at src) ≡ length buf
unfolding overwrite
length-overwrite [] at src = refl
length-overwrite (b ∷ buf) zero [] = refl
length-overwrite (b ∷ buf) zero (c ∷ src) = ap suc (length-overwrite buf zero src)
length-overwrite (b ∷ buf) (suc at) src = ap suc (length-overwrite buf at src)

overwrite-nil : (buf : Bytes) (at : ℕ) → overwrite buf at [] ≡ buf
unfolding overwrite
overwrite-nil [] at = refl
overwrite-nil (b ∷ buf) zero = refl
overwrite-nil (b ∷ buf) (suc at) = ap (λ r. b ∷ r) (overwrite-nil buf at)

overwrite-cons :
    (buf : Bytes) (at c : ℕ) (src : Bytes)
    → overwrite buf at (c ∷ src) ≡ overwrite (set buf at c) (suc at) src
unfolding overwrite
overwrite-cons [] at c src = refl
overwrite-cons (b ∷ buf) zero c src = refl
overwrite-cons (b ∷ buf) (suc at) c src = ap (λ r. b ∷ r) (overwrite-cons buf at c src)

take-drop-suc :
    (buf : Bytes) (at n : ℕ)
    → at < length buf
    → take (suc n) (drop at buf) ≡ get_or buf at 0 ∷ take n (drop (suc at) buf)
take-drop-suc [] at n h = absurd (omega arith)
take-drop-suc (b ∷ buf) zero n h = refl
take-drop-suc (b ∷ buf) (suc at) n h = take-drop-suc buf at n (omega arith)

module _ (cap : ℕ) where
  no_turn : (at : ℕ) → at < cap → at ≡ (at + 0) % cap
  no_turn at h = rw (add-zero, mod-eq_of_lt h)

  -- A run that does not reach past the end of the buffer.
  puts_run :
      (buf : Bytes) (at : ℕ) (src : Bytes)
      → at < cap
      → at + length src ≤ cap
      → puts cap buf at src ≡ (overwrite buf at src, (at + length src) % cap)
  puts_run buf at [] h k = ap₂ (λ a b. (a, b)) (sym (overwrite-nil buf at)) (no_turn at h)
  puts_run buf at (c ∷ []) h k =
      ap (λ r. (r, (at + 1) % cap))
        (sym (overwrite-cons buf at c [] ∙ overwrite-nil (set buf at c) (suc at)))
  puts_run buf at (c ∷ d ∷ src) h k =
      let next : (at + 1) % cap ≡ suc at =
        omega (arith, mod-eq_of_lt {n = at + 1} {m = cap} (omega arith)) in
      ap (λ i. puts cap (set buf at c) i (d ∷ src)) next
      ∙ puts_run (set buf at c) (suc at) (d ∷ src) (omega arith) (omega arith)
      ∙ ap₂ (λ a b. (a, b)) (sym (overwrite-cons buf at c (d ∷ src)))
          (ap (λ i. i % cap) (omega arith))

  -- One round of the loop of `feed`.
  puts_chunk :
      (buf : Bytes) (at n : ℕ) (s : Bytes)
      → at < cap
      → at + n ≤ cap
      → n ≤ length s
      → puts cap (overwrite buf at (take n s)) ((at + n) % cap) (drop n s) ≡ puts cap buf at s
  puts_chunk buf at n s h k l =
      let size : length (take n s) ≡ n = omega (arith, length-take n s) in
      let run = puts_run buf at (take n s) h (omega (arith, size)) in
      ap (λ m. puts cap (overwrite buf at (take n s)) ((at + m) % cap) (drop n s)) (sym size)
      ∙ ap (λ (p : Bytes × ℕ). puts cap p.0 p.1 (drop n s)) (sym run)
      ∙ sym (puts-append cap buf at (take n s) (drop n s))
      ∙ ap (puts cap buf at) (take-append-drop n s)

  pub copy_in-puts :
      (fuel : ℕ) (buf : Bytes) (at : ℕ) (src : Bytes)
      → at < cap
      → length src ≤ fuel
      → copy_in cap fuel buf at src ≡ puts cap buf at src
  unfolding copy_in
  copy_in-puts zero buf at [] h k = refl
  copy_in-puts zero buf at (c ∷ src) h k = absurd (omega arith)
  copy_in-puts (suc fuel) buf at [] h k = refl
  copy_in-puts (suc fuel) buf at (c ∷ src) h k =
      let n = min (length (c ∷ src)) (cap - at) in
      copy_in-puts fuel (overwrite buf at (take n (c ∷ src))) ((at + n) % cap) (drop n (c ∷ src))
        (omega arith) (omega (arith, length-drop n (c ∷ src)))
      ∙ puts_chunk buf at n (c ∷ src) h (omega arith) (omega arith)

  -- A read that does not reach past the end of the buffer.
  window_run :
      (buf : Bytes) (at n : ℕ)
      → at + n ≤ cap
      → cap ≤ length buf
      → window cap buf at n ≡ take n (drop at buf)
  window_run buf at zero h k = refl
  window_run buf at (suc zero) h k = sym (take-drop-suc buf at 0 (omega arith))
  window_run buf at (suc (suc n)) h k =
      let next : (at + 1) % cap ≡ suc at =
        omega (arith, mod-eq_of_lt {n = at + 1} {m = cap} (omega arith)) in
      ap (λ i. get_or buf at 0 ∷ window cap buf i (suc n)) next
      ∙ ap (λ r. get_or buf at 0 ∷ r) (window_run buf (suc at) (suc n) (omega arith) k)
      ∙ sym (take-drop-suc buf at (suc n) (omega arith))

  pub window-add :
      (buf : Bytes) (at m n : ℕ)
      → at < cap
      → window cap buf at (m + n) ≡ window cap buf at m ++ window cap buf ((at + m) % cap) n
  window-add buf at zero n h = ap₂ (window cap buf) (no_turn at h) (omega arith)
  window-add buf at (suc m) n h = rw add.suc (
      ap (λ r. get_or buf at 0 ∷ r)
        (window-add buf ((at + 1) % cap) m n (omega arith)
          ∙ ap (λ i. window cap buf ((at + 1) % cap) m ++ window cap buf i n)
              (sym (turn_step cap at m))))

  pub copy_out-window :
      (fuel : ℕ) (buf : Bytes) (at left : ℕ) (result : Bytes)
      → at < cap
      → cap ≤ length buf
      → left ≤ fuel
      → copy_out cap fuel buf at left result ≡ result ++ window cap buf at left
  unfolding copy_out
  copy_out-window zero buf at zero result h s k = sym (append-nil result)
  copy_out-window zero buf at (suc left) result h s k = absurd (omega arith)
  copy_out-window (suc fuel) buf at zero result h s k = sym (append-nil result)
  copy_out-window (suc fuel) buf at (suc left) result h s k =
      let n = min (suc left) (cap - at) in
      let parts : suc left ≡ n + (suc left - n) = omega arith in
      let two : window cap buf at (suc left)
          ≡ take n (drop at buf) ++ window cap buf ((at + n) % cap) (suc left - n) =
        ap (window cap buf at) parts
        ∙ window-add buf at n (suc left - n) h
        ∙ ap (λ r. r ++ window cap buf ((at + n) % cap) (suc left - n))
            (window_run buf at n (omega arith) s) in
      copy_out-window fuel buf ((at + n) % cap) (suc left - n) (result ++ take n (drop at buf))
        (omega arith) s (omega arith)
      ∙ append_assoc result (take n (drop at buf)) (window cap buf ((at + n) % cap) (suc left - n))
      ∙ ap (λ r. result ++ r) (sym two)
