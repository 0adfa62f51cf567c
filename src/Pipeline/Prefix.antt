-- ===== src/Pipeline/Prefix.antt =====
-- The loop over a part of a stream of encoded commands: it handles the commands that are there in
-- full.
use redis_lite.Common.{
  ◌≡◌, refl, ◌≢◌, ◌∙◌, sym, ap, List, [], ◌∷◌, ◌++◌, Bytes, length, drop, All, ℕ_discrete, arith,
  flatten, map, drop-append, drop-length_self,
}
use redis_lite.Resp.{ParseResult, parse, encode_array}
use redis_lite.Resp.RoundTrip.{parse-encode_array}
use redis_lite.Resp.Laws.{consumed-le-length, parse-append}
use redis_lite.Pipeline.{process}
use redis_lite.Pipeline.Chunks.{
  Sendable, sent, handle_all, process_stop, process_step, parse-nil, length-encode_array,
}

-- The commands as they are sent.
abbrev pub encoded : List (List Bytes) → Bytes
encoded cmds = flatten (map encode_array cmds)

-- `x`, with `y` still to come, out of a stream of commands.
pub record Handled {ℓ} {S : Type ℓ} (handle : S → ParseResult → S) (s : S)
    (cmds : List (List Bytes)) (x y : Bytes) : Type ℓ where
  pub done : List (List Bytes)
  pub left : List (List Bytes)
  pub rest : Bytes
  pub all : cmds ≡ done ++ left
  pub result : process handle s x ≡ (handle_all handle s done, rest)
  pub follows : rest ++ y ≡ encoded left
  pub incomplete : (parse rest).bytes_consumed ≡ 0

nil-of-append : (x y : Bytes) → x ++ y ≡ [] → x ≡ []
nil-of-append [] y h = refl
nil-of-append (b ∷ x) y h = cc

-- A part in which a command was found starts with the first command.
parse-prefix :
    (args : List Bytes) (cmds : List (List Bytes)) (x y : Bytes)
    → Sendable args
    → x ++ y ≡ encoded (args ∷ cmds)
    → (parse x).bytes_consumed ≢ 0
    → parse x ≡ sent args
parse-prefix args cmds x y fits e ne =
    sym (parse-append x y ne) ∙ ap parse e ∙ parse-encode_array args (encoded cmds) fits.0 fits.1

rest-prefix :
    (args : List Bytes) (cmds : List (List Bytes)) (x y : Bytes)
    → Sendable args
    → x ++ y ≡ encoded (args ∷ cmds)
    → (parse x).bytes_consumed ≢ 0
    → drop (length (encode_array args)) x ++ y ≡ encoded cmds
rest-prefix args cmds x y fits e ne =
    let front = ap (λ (p : ParseResult). p.bytes_consumed) (parse-prefix args cmds x y fits e ne) in
    let inside = consumed-le-length x in
    sym (drop-append (length (encode_array args)) x y (omega (arith, front, inside)))
    ∙ ap (drop (length (encode_array args))) e
    ∙ drop-length_self (encode_array args) (encoded cmds)

-- No whole command is left of a stream in which the parser finds none.
pub encoded-incomplete :
    (cmds : List (List Bytes))
    → All Sendable cmds
    → (parse (encoded cmds)).bytes_consumed ≡ 0
    → cmds ≡ []
encoded-incomplete [] fits z = refl
encoded-incomplete (args ∷ cmds) (fit, fits) z =
    let front = parse-encode_array args (encoded cmds) fit.0 fit.1 in
    absurd (length-encode_array args (sym (ap (λ (p : ParseResult). p.bytes_consumed) front) ∙ z))

module _ {ℓ} {S : Type ℓ} (handle : S → ParseResult → S) where
  pub process-prefix :
      (s : S) (cmds : List (List Bytes)) (x y : Bytes)
      → All Sendable cmds
      → x ++ y ≡ encoded cmds
      → Handled handle s cmds x y
  process-prefix s [] x y fits e =
      let nil = nil-of-append x y e in
      record {
        done = [];
        left = [];
        rest = x;
        all = refl;
        result = process_stop handle s x (rw nil parse-nil);
        follows = e;
        incomplete = rw nil parse-nil;
      }
  process-prefix s (args ∷ cmds) x y (fit, fits) e = elim (ℕ_discrete (parse x).bytes_consumed 0) [
    | yes z ↦ record {
      done = [];
      left = args ∷ cmds;
      rest = x;
      all = refl;
      result = process_stop handle s x z;
      follows = e;
      incomplete = z;
    }
    | no ne ↦
        let first = parse-prefix args cmds x y fit e ne in
        let more =
          process-prefix (handle s (sent args)) cmds (drop (length (encode_array args)) x) y fits
            (rest-prefix args cmds x y fit e ne) in
        record {
          done = args ∷ more.done;
          left = more.left;
          rest = more.rest;
          all = ap (λ r. args ∷ r) more.all;
          result = process_step handle s x ne ∙ rw first more.result;
          follows = more.follows;
          incomplete = more.incomplete;
        }
  ]
