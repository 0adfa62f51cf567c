-- ===== src/Pipeline/Chunks.antt =====
-- The loop does not depend on how the stream was cut into chunks.
use redis_lite.Common.{
  ℕ, zero, suc, ◌≤◌, ◌<◌, ◌≡◌, refl, ◌≢◌, ◌∙◌, sym, ap, List, [], ◌∷◌, ◌++◌, append_assoc,
  append-nil, Bytes, length, length-drop, drop, All, ℕ_discrete, arith, flatten, drop-append,
  drop-length_self, map,
}
use redis_lite.Number.{int_max}
use redis_lite.Resp.{ParseResult, parse, encode_array}
use redis_lite.Resp.RoundTrip.{Fits, parse-encode_array}
use redis_lite.Resp.Laws.{consumed-le-length, parse-append}
use redis_lite.Pipeline.{pump, process, receive, receive_all}

pub parse-nil : (parse []).bytes_consumed ≡ 0
unfolding parse
parse-nil = refl

pub length-encode_array : (args : List Bytes) → length (encode_array args) ≢ 0
unfolding encode_array
length-encode_array args = omega arith

-- What the encoder can write so that the parser reads it: `int` counts and lengths.
abbrev pub Sendable : List Bytes → Type 0
Sendable args = (length args ≤ int_max) × All Fits args

-- The parse result of an encoded command.
abbrev pub sent : List Bytes → ParseResult
sent args = record { args = args; bytes_consumed = length (encode_array args) }

module _ {ℓ} {S : Type ℓ} (handle : S → ParseResult → S) where
  pump_stop :
      (f : ℕ) (s : S) (b : Bytes) → (parse b).bytes_consumed ≡ 0 → pump handle f s b ≡ (s, b)
  unfolding pump
  pump_stop zero s b z = refl
  pump_stop (suc f) s b z = rw z

  pump_step :
      (f : ℕ) (s : S) (b : Bytes)
      → (parse b).bytes_consumed ≢ 0
      → pump handle (suc f) s b
        ≡ pump handle f (handle s (parse b)) (drop (parse b).bytes_consumed b)
  unfolding pump
  pump_step f s b ne = ground arith

  length-rest :
      (b : Bytes)
      → (parse b).bytes_consumed ≢ 0
      → length (drop (parse b).bytes_consumed b) < length b
  length-rest b ne = omega (arith, length-drop (parse b).bytes_consumed b, consumed-le-length b)

  -- Enough fuel is enough.
  pump_fuel :
      (f g : ℕ) (s : S) (b : Bytes)
      → length b < f
      → length b < g
      → pump handle f s b ≡ pump handle g s b
  pump_fuel zero g s b h k = absurd (omega arith)
  pump_fuel (suc f) zero s b h k = absurd (omega arith)
  pump_fuel (suc f) (suc g) s b h k = elim (ℕ_discrete (parse b).bytes_consumed 0) [
    | yes z ↦ pump_stop (suc f) s b z ∙ sym (pump_stop (suc g) s b z)
    | no ne ↦
        pump_step f s b ne
        ∙ pump_fuel f g (handle s (parse b)) (drop (parse b).bytes_consumed b)
            (omega (arith, length-rest b ne)) (omega (arith, length-rest b ne))
        ∙ sym (pump_step g s b ne)
  ]

  pump-process : (f : ℕ) (s : S) (b : Bytes) → length b < f → pump handle f s b ≡ process handle s b
  unfolding process
  pump-process f s b h = pump_fuel f (suc (length b)) s b h (omega arith)

  pub process_stop :
      (s : S) (b : Bytes) → (parse b).bytes_consumed ≡ 0 → process handle s b ≡ (s, b)
  unfolding process
  process_stop s b z = pump_stop (suc (length b)) s b z

  pub process_step :
      (s : S) (b : Bytes)
      → (parse b).bytes_consumed ≢ 0
      → process handle s b ≡ process handle (handle s (parse b)) (drop (parse b).bytes_consumed b)
  process_step s b ne =
      sym (pump-process (suc (length b)) s b (omega arith))
      ∙ pump_step (length b) s b ne
      ∙ pump-process (length b) _ _ (length-rest b ne)

  pump_ends :
      (f : ℕ) (s : S) (b : Bytes) → length b < f → (parse (pump handle f s b).1).bytes_consumed ≡ 0
  pump_ends zero s b h = absurd (omega arith)
  pump_ends (suc f) s b h = elim (ℕ_discrete (parse b).bytes_consumed 0) [
    | yes z ↦ rw (pump_stop (suc f) s b z) z
    | no ne ↦ rw (pump_step f s b ne) (
        pump_ends f (handle s (parse b)) (drop (parse b).bytes_consumed b)
          (omega (arith, length-rest b ne)))
  ]

  -- For every handler, state and read buffer: the loop ends by its own test, at a buffer in which the
  -- parser finds no complete command, and any larger number of rounds allowed has the same result. So
  -- it terminates in at most one round for each byte of the buffer, and one more.
  pub process_ends :
      (f : ℕ) (s : S) (b : Bytes)
      → length b < f
      → ((parse (process handle s b).1).bytes_consumed ≡ 0)
        × (pump handle f s b ≡ process handle s b)
  unfolding process
  process_ends f s b h = (pump_ends (suc (length b)) s b (omega arith), pump-process f s b h)

  -- A command at the front of the first chunk is handled alike with and without the second.
  process_step_append :
      (s : S) (a c : Bytes)
      → (parse a).bytes_consumed ≢ 0
      → process handle s (a ++ c)
        ≡ process handle (handle s (parse a)) (drop (parse a).bytes_consumed a ++ c)
  process_step_append s a c ne =
      let same = parse-append a c ne in
      process_step s (a ++ c) (λ z. ne (ap (λ (p : ParseResult). p.bytes_consumed) (sym same) ∙ z))
      ∙ rw (same, drop-append (parse a).bytes_consumed a c (consumed-le-length a))

  process-append_below :
      (k : ℕ) (s : S) (a c : Bytes)
      → length a < k
      → process handle s (a ++ c) ≡ receive handle (process handle s a) c
  process-append_below zero s a c h = absurd (omega arith)
  process-append_below (suc k) s a c h = elim (ℕ_discrete (parse a).bytes_consumed 0) [
    | yes z ↦ unfold receive in rw (process_stop s a z)
    | no ne ↦
        process_step_append s a c ne
        ∙ process-append_below k (handle s (parse a)) (drop (parse a).bytes_consumed a) c
            (omega (arith, length-rest a ne))
        ∙ ap (λ r. receive handle r c) (sym (process_step s a ne))
  ]

  process-append :
      (s : S) (a c : Bytes) → process handle s (a ++ c) ≡ receive handle (process handle s a) c
  process-append s a c = process-append_below (suc (length a)) s a c (omega arith)

  receive_all-process :
      (s : S) (b : Bytes) (chunks : List Bytes)
      → receive_all handle (process handle s b) chunks ≡ process handle s (b ++ flatten chunks)
  unfolding receive_all
  receive_all-process s b [] = rw append-nil
  receive_all-process s b (c ∷ chunks) =
      ap (λ r. receive_all handle r chunks) (sym (process-append s b c))
      ∙ receive_all-process s (b ++ c) chunks
      ∙ rw append_assoc

  -- For every handler: what a connection's handler has done, and what is left in the read buffer,
  -- after any sequence of received chunks, are those of one chunk with all the bytes. So where TCP
  -- cuts the stream has no effect.
  pub receive_all-flatten :
      (s : S) (chunks : List Bytes)
      → receive_all handle (s, []) chunks ≡ receive handle (s, []) (flatten chunks)
  unfolding receive
  receive_all-flatten s chunks =
      ap (λ r. receive_all handle r chunks) (sym (process_stop s [] parse-nil))
      ∙ receive_all-process s [] chunks

  -- The commands handled one after the other.
  abbrev pub handle_all : S → List (List Bytes) → S
  handle_all s [] = s
  handle_all s (args ∷ cmds) = handle_all (handle s (sent args)) cmds

  pub process-encoded :
      (s : S) (cmds : List (List Bytes))
      → All Sendable cmds
      → process handle s (flatten (map encode_array cmds)) ≡ (handle_all s cmds, [])
  process-encoded s [] h = process_stop s [] parse-nil
  process-encoded s (args ∷ cmds) (h, hs) =
      let rest = flatten (map encode_array cmds) in
      let front = parse-encode_array args rest h.0 h.1 in
      process_step s (encode_array args ++ rest) (rw front (length-encode_array args))
      ∙ rw (front, drop-length_self) (process-encoded (handle s (sent args)) cmds hs)

  -- For every handler and every list of commands of at most `INT_MAX` arguments of at most
  -- `INT_MAX` bytes: whatever chunks their encodings arrive in, each command is handled exactly
  -- once and in order, with its own arguments and size, and the read buffer ends empty.
  pub receive_all-encoded :
      (s : S) (cmds : List (List Bytes)) (chunks : List Bytes)
      → All Sendable cmds
      → flatten chunks ≡ flatten (map encode_array cmds)
      → receive_all handle (s, []) chunks ≡ (handle_all s cmds, [])
  unfolding receive
  receive_all-encoded s cmds chunks h e =
      receive_all-flatten s chunks ∙ ap (process handle s) e ∙ process-encoded s cmds h
