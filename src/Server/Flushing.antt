-- ===== src/Server/Flushing.antt =====
-- How the loop of `try_send` (src/server.cpp) ends.
use redis_lite.Common.{
  ℕ, zero, suc, ◌+◌, ◌≤◌, ◌≡◌, refl, ◌∙◌, true, false, [], ◌∷◌, Bytes, length, drop, length-drop,
  drop-drop, arith, ◌⊎◌, inl, inr,
}
use redis_lite.Server.State.{Sent, Env}
use redis_lite.Server.Send.{Flushed, flush}

-- The tests by which the loop ends: everything is sent, or the last `send` would block or failed.
abbrev pub IsEnd : Env → ℕ → Flushed → Type 0
IsEnd env fd r =
    ((r.left ≡ []) × (r.broken ≡ false))
    ⊎ ((n : ℕ) × (r.calls ≡ suc n)
        × (((env.send n fd r.left ≡ Sent.again) × (r.broken ≡ false))
            ⊎ ((env.send n fd r.left ≡ Sent.failed) × (r.broken ≡ true))))

-- What is left of `buf` is an end of it.
abbrev pub IsRest : Bytes → Flushed → Type 0
IsRest buf r = (k : ℕ) × (r.left ≡ drop k buf)

abbrev Ended : Env → ℕ → ℕ → Bytes → ℕ → Type 0
Ended env f fd buf calls =
    IsEnd env fd (flush env f fd buf calls) × IsRest buf (flush env f fd buf calls)

-- One round, by what its `send` comes to.
flush_round-Ended :
    (env : Env) (f fd b : ℕ) (buf : Bytes) (calls : ℕ) (r : Sent)
    → env.send calls fd (b ∷ buf) ≡ r
    → ((n : ℕ) → Ended env f fd (drop n buf) (suc calls))
    → Ended env (suc f) fd (b ∷ buf) calls
unfolding flush
flush_round-Ended env f fd b buf calls (Sent.sent n) e rest =
    let (end, (k, left)) = rest n in rw (e, flush) (end, (suc (n + k), left ∙ drop-drop k n buf))
flush_round-Ended env f fd b buf calls Sent.again e rest =
    rw (e, flush) (inr (calls, refl, inl (e, refl)), (0, refl))
flush_round-Ended env f fd b buf calls Sent.failed e rest =
    rw (e, flush) (inr (calls, refl, inr (e, refl)), (0, refl))

flush-Ended :
    (env : Env) (f fd : ℕ) (buf : Bytes) (calls : ℕ) → length buf ≤ f → Ended env f fd buf calls
flush-Ended env zero fd [] calls h = unfold flush in (inl (refl, refl), (0, refl))
flush-Ended env zero fd (b ∷ buf) calls h = absurd (omega arith)
flush-Ended env (suc f) fd [] calls h = unfold flush in (inl (refl, refl), (0, refl))
flush-Ended env (suc f) fd (b ∷ buf) calls h =
    flush_round-Ended env f fd b buf calls (env.send calls fd (b ∷ buf)) refl
      (λ n. flush-Ended env f fd (drop n buf) (suc calls) (omega (arith, length-drop n buf)))

flush_round-fuel :
    (env : Env) (f g fd b : ℕ) (buf : Bytes) (calls : ℕ) (r : Sent)
    → env.send calls fd (b ∷ buf) ≡ r
    → ((n : ℕ) → flush env f fd (drop n buf) (suc calls) ≡ flush env g fd (drop n buf) (suc calls))
    → flush env (suc f) fd (b ∷ buf) calls ≡ flush env (suc g) fd (b ∷ buf) calls
unfolding flush
flush_round-fuel env f g fd b buf calls (Sent.sent n) e rest = rw (e, flush) (rest n)
flush_round-fuel env f g fd b buf calls Sent.again e rest = rw (e, flush) refl
flush_round-fuel env f g fd b buf calls Sent.failed e rest = rw (e, flush) refl

flush-fuel :
    (env : Env) (f g fd : ℕ) (buf : Bytes) (calls : ℕ)
    → length buf ≤ f
    → length buf ≤ g
    → flush env f fd buf calls ≡ flush env g fd buf calls
flush-fuel env zero zero fd buf calls h k = refl
flush-fuel env zero (suc g) fd [] calls h k = unfold flush in refl
flush-fuel env (suc f) zero fd [] calls h k = unfold flush in refl
flush-fuel env (suc f) (suc g) fd [] calls h k = unfold flush in refl
flush-fuel env zero (suc g) fd (b ∷ buf) calls h k = absurd (omega arith)
flush-fuel env (suc f) zero fd (b ∷ buf) calls h k = absurd (omega arith)
flush-fuel env (suc f) (suc g) fd (b ∷ buf) calls h k =
    flush_round-fuel env f g fd b buf calls (env.send calls fd (b ∷ buf)) refl (λ n.
      let size = length-drop n buf in
      flush-fuel env f g fd (drop n buf) (suc calls) (omega (arith, size)) (omega (arith, size)))

-- For every socket and buffer, a round allowed for each byte of the buffer is enough: more of them
-- change nothing, and the loop ends by one of its own tests: the buffer is empty, or the last `send`
-- would have blocked or failed, and only then is the connection taken for broken. What is left is an
-- end of the buffer.
pub flush_ends :
    (env : Env) (f fd : ℕ) (buf : Bytes) (calls : ℕ)
    → length buf ≤ f
    → (flush env f fd buf calls ≡ flush env (length buf) fd buf calls)
      × IsEnd env fd (flush env f fd buf calls)
      × IsRest buf (flush env f fd buf calls)
flush_ends env f fd buf calls h =
    let (end, rest) = flush-Ended env f fd buf calls h in
    (flush-fuel env f (length buf) fd buf calls h (omega arith), end, rest)
