-- ===== src/Backlog/Window.antt =====
-- The buffer read byte by byte round its end, and written byte by byte.
use mathlib.Core.Path.{subst}
use native.Mathlib.Nat.{mod-add-mod, mod-eq_of_lt}
use redis_lite.Common.{
  ℕ, zero, suc, ◌+◌, ◌%◌, ◌≤◌, ◌<◌, ◌≡◌, ◌≢◌, refl, sym, ◌∙◌, ap, ap₂, [], ◌∷◌, ◌++◌, Bytes, length,
  set, get_or, arith,
}

get_or-set_self : (xs : Bytes) (i v : ℕ) → i < length xs → get_or (set xs i v) i 0 ≡ v
get_or-set_self [] i v h = absurd (omega arith)
get_or-set_self (x ∷ xs) zero v h = refl
get_or-set_self (x ∷ xs) (suc i) v h = get_or-set_self xs i v (omega arith)

get_or-set_ne : (xs : Bytes) (i j v : ℕ) → i ≢ j → get_or (set xs i v) j 0 ≡ get_or xs j 0
get_or-set_ne [] i j v h = refl
get_or-set_ne (x ∷ xs) zero zero v h = absurd (h refl)
get_or-set_ne (x ∷ xs) zero (suc j) v h = refl
get_or-set_ne (x ∷ xs) (suc i) zero v h = refl
get_or-set_ne (x ∷ xs) (suc i) (suc j) v h = get_or-set_ne xs i j v (λ e. h (ap suc e))

module _ (cap : ℕ) where
  -- The `n` bytes from the position `h` on.
  abbrev pub window : Bytes → ℕ → ℕ → Bytes
  window buf h zero = []
  window buf h (suc n) = get_or buf h 0 ∷ window buf ((h + 1) % cap) n

  -- The bytes written one by one from the position `at` on.
  abbrev pub puts : Bytes → ℕ → Bytes → Bytes × ℕ
  puts buf at [] = (buf, at)
  puts buf at (c ∷ src) = puts (set buf at c) ((at + 1) % cap) src

  pub length-window : (buf : Bytes) (h n : ℕ) → length (window buf h n) ≡ n
  length-window buf h zero = refl
  length-window buf h (suc n) = ap suc (length-window buf ((h + 1) % cap) n)

  pub puts-append :
      (buf : Bytes) (at : ℕ) (s t : Bytes)
      → puts buf at (s ++ t) ≡ puts (puts buf at s).0 (puts buf at s).1 t
  puts-append buf at [] t = refl
  puts-append buf at (c ∷ s) t = puts-append (set buf at c) ((at + 1) % cap) s t

  -- Fewer rounds than the capacity do not come back to the start.
  away : (h k : ℕ) → h < cap → 0 < k → k < cap → h ≢ (h + k) % cap
  away h k inside positive few = grind arith

  pub turn_step : (h n : ℕ) → (h + suc n) % cap ≡ ((h + 1) % cap + n) % cap
  turn_step h n = ap (λ k. k % cap) (omega arith) ∙ sym (mod-add-mod (h + 1) cap n)

  -- The last byte of a window.
  window_last :
      (buf : Bytes) (h n : ℕ)
      → h < cap
      → window buf h (suc n) ≡ window buf h n ++ get_or buf ((h + n) % cap) 0 ∷ []
  window_last buf h zero inside =
      ap (λ k. get_or buf k 0 ∷ []) (sym (mod-eq_of_lt inside) ∙ ap (λ k. k % cap) (omega arith))
  window_last buf h (suc n) inside =
      ap (λ r. get_or buf h 0 ∷ r)
        (window_last buf ((h + 1) % cap) n (omega arith)
          ∙ ap (λ k. window buf ((h + 1) % cap) n ++ get_or buf k 0 ∷ []) (sym (turn_step h n)))

  -- A byte written `k` places behind the start of a window shows only if the window is longer.
  window-set_behind :
      (buf : Bytes) (x h n k : ℕ)
      → h < cap
      → n ≤ k
      → k < cap
      → window (set buf ((h + k) % cap) x) h n ≡ window buf h n
  window-set_behind buf x h zero k inside short few = refl
  window-set_behind buf x h (suc n) zero inside short few = absurd (omega arith)
  window-set_behind buf x h (suc n) (suc k) inside short few =
      let at = (h + suc k) % cap in
      ap₂ ◌∷◌ (get_or-set_ne buf at h x (λ e. away h (suc k) inside (omega arith) few (sym e))) (
        subst (λ i. window (set buf i x) ((h + 1) % cap) n ≡ window buf ((h + 1) % cap) n)
          (sym (turn_step h k))
          (window-set_behind buf x ((h + 1) % cap) n k (omega arith) (omega arith) (omega arith)))

  -- A byte written just behind a window that does not fill the buffer extends the window.
  pub window_extend :
      (buf : Bytes) (x n h : ℕ)
      → cap ≤ length buf
      → h < cap
      → n < cap
      → window (set buf ((h + n) % cap) x) h (suc n) ≡ window buf h n ++ x ∷ []
  window_extend buf x n h sized inside few =
      let at = (h + n) % cap in
      window_last (set buf at x) h n inside
      ∙ ap₂ (λ r c. r ++ c ∷ []) (window-set_behind buf x h n n inside (omega arith) few)
          (get_or-set_self buf at x (omega arith))
