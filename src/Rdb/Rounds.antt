-- ===== src/Rdb/Rounds.antt =====
-- The rounds of `rdb::load` (src/rdb.cpp): its readers go forward, so its loop ends.
use redis_lite.Common.{
  ℕ, zero, suc, ◌≤◌, ◌≡◌, refl, true, false, [], ◌∷◌, Option, none, some, Bytes, Bool, Bool-cases,
  inl, inr, length, length-drop, arith, ltb, ◌==◌, ◌/◌, ◌%◌, if◌then◌else◌,
}
use redis_lite.Common.Int.{ℤ}
use redis_lite.Store.{Store}
use redis_lite.Rdb.Codec.{
  take_bytes, of_taken, second_byte, read_length, int_string, special_string, raw_string,
  read_string, read_le64, read_le32,
}
use redis_lite.Rdb.Save.{
  opcode_aux, opcode_selectdb, opcode_resizedb, opcode_expiretime_ms, opcode_expiretime, opcode_eof,
  type_string,
}
use redis_lite.Rdb.Load.{
  Step, skipped, skipped_length, go_on, skip_string, skip_length, expire_ms, expire_sec, load_value,
  load_entry, step, load_loop,
}

-- A reader's cursor, if it succeeds, is within `n` bytes of the end.
abbrev Within {ℓ} : {A : Type ℓ} → ℕ → Option (A × Bytes) → Type 0
Within n none = Unit
Within n (some (a, rest)) = length rest ≤ n

abbrev RestWithin : ℕ → Option Bytes → Type 0
RestWithin n none = Unit
RestWithin n (some rest) = length rest ≤ n

abbrev StepWithin : ℕ → Step → Type 0
StepWithin n (Step.fail s) = Unit
StepWithin n (Step.finish s) = Unit
StepWithin n (Step.next rest pending s) = length rest ≤ n

Within-suc {ℓ} : {A : Type ℓ} (n : ℕ) (o : Option (A × Bytes)) → Within n o → Within (suc n) o
Within-suc n none h = tt
Within-suc n (some (a, rest)) h = omega arith

take_bytes-Within : (k : ℕ) (bytes : Bytes) → Within (length bytes) (take_bytes k bytes)
unfolding take_bytes
take_bytes-Within k bytes = elim (Bool-cases (ltb (length bytes) k)) [
  | inl short ↦ rw short tt
  | inr enough ↦ rw enough (omega (arith, length-drop k bytes))
]

of_taken-Within : (n : ℕ) (o : Option (Bytes × Bytes)) → Within n o → Within n (of_taken o)
unfolding of_taken
of_taken-Within n none h = tt
of_taken-Within n (some (bytes, rest)) h = h

second_byte-Within : (first : ℕ) (rest : Bytes) → Within (length rest) (second_byte first rest)
unfolding second_byte
second_byte-Within first [] = tt
second_byte-Within first (second ∷ rest) = omega arith

read_length-Within : (bytes : Bytes) → Within (length bytes) (read_length bytes)
unfolding read_length
read_length-Within [] = tt
read_length-Within (first ∷ rest) =
    let type = first / 64 % 4 in
    elim (Bool-cases (type == 0)) [
      | inl zero_type ↦ rw zero_type (omega arith)
      | inr other ↦ elim (Bool-cases (type == 1)) [
        | inl one_type ↦
            rw (other, one_type)
              (Within-suc (length rest) (second_byte first rest) (second_byte-Within first rest))
        | inr others ↦ elim (Bool-cases (type == 2)) [
          | inl two_type ↦
              rw (other, others, two_type)
                (Within-suc (length rest) (of_taken (take_bytes 4 rest))
                  (of_taken-Within (length rest) (take_bytes 4 rest) (take_bytes-Within 4 rest)))
          | inr last ↦ rw (other, others, last) (omega arith)
        ]
      ]
    ]

int_string-Within :
    (n bits : ℕ) (o : Option (ℕ × Bytes)) → Within n o → Within n (int_string bits o)
unfolding int_string
int_string-Within n bits none h = tt
int_string-Within n bits (some (k, rest)) h = h

special_integer :
    (bits k : ℕ) (rest : Bytes)
    → Within (length rest) (int_string bits (of_taken (take_bytes k rest)))
special_integer bits k rest =
    int_string-Within (length rest) bits (of_taken (take_bytes k rest))
      (of_taken-Within (length rest) (take_bytes k rest) (take_bytes-Within k rest))

special_string-Within : (enc : ℕ) (rest : Bytes) → Within (length rest) (special_string enc rest)
unfolding special_string
special_string-Within enc rest = elim (Bool-cases (enc == 0)) [
  | inl zero_type ↦ rw zero_type (special_integer 8 1 rest)
  | inr other ↦ elim (Bool-cases (enc == 1)) [
    | inl one_type ↦ rw (other, one_type) (special_integer 16 2 rest)
    | inr others ↦ elim (Bool-cases (enc == 2)) [
      | inl two_type ↦ rw (other, others, two_type) (special_integer 32 4 rest)
      | inr last ↦ rw (other, others, last) tt
    ]
  ]
]

Within-raw_string : (n : ℕ) (o : Option (ℕ × Bytes)) → Within n o → Within n (raw_string o)
unfolding raw_string
Within-raw_string n none h = tt
Within-raw_string n (some (len, rest)) h = longer (take_bytes len rest) (take_bytes-Within len rest)
  where
    longer : (o : Option (Bytes × Bytes)) → Within (length rest) o → Within n o
    longer none k = tt
    longer (some (a, r)) k = omega (arith, h)

read_string-Within : (bytes : Bytes) → Within (length bytes) (read_string bytes)
unfolding read_string
read_string-Within [] = tt
read_string-Within (first ∷ rest) = elim (Bool-cases (first / 64 % 4 == 3)) [
  | inl special ↦ rw special (
      Within-suc (length rest) (special_string (first % 64) rest)
        (special_string-Within (first % 64) rest))
  | inr raw ↦ rw raw (
      Within-raw_string (suc (length rest)) (read_length (first ∷ rest))
        (read_length-Within (first ∷ rest)))
]

skip_string-Within : (n : ℕ) (o : Option Bytes) → RestWithin n o → RestWithin n (skip_string o)
unfolding skip_string skipped
skip_string-Within n none h = tt
skip_string-Within n (some rest) h = after (read_string rest) (read_string-Within rest)
  where
    after : (o : Option (Bytes × Bytes)) → Within (length rest) o → RestWithin n (skipped o)
    after none k = tt
    after (some (s, r)) k = omega (arith, h)

skip_length-Within : (n : ℕ) (o : Option Bytes) → RestWithin n o → RestWithin n (skip_length o)
unfolding skip_length skipped_length
skip_length-Within n none h = tt
skip_length-Within n (some rest) h = after (read_length rest) (read_length-Within rest)
  where
    after : (o : Option (ℕ × Bytes)) → Within (length rest) o → RestWithin n (skipped_length o)
    after none k = tt
    after (some (s, r)) k = omega (arith, h)

go_on-Within :
    (n : ℕ) (o : Option Bytes) (pending : Option ℤ) (s : Store)
    → RestWithin n o
    → StepWithin n (go_on o pending s)
unfolding go_on
go_on-Within n none pending s h = tt
go_on-Within n (some rest) pending s h = h

expire_ms-Within :
    (n : ℕ) (o : Option (ℕ × Bytes)) (s : Store) → Within n o → StepWithin n (expire_ms o s)
unfolding expire_ms
expire_ms-Within n none s h = tt
expire_ms-Within n (some (k, rest)) s h = h

expire_sec-Within :
    (n : ℕ) (o : Option (ℕ × Bytes)) (s : Store) → Within n o → StepWithin n (expire_sec o s)
unfolding expire_sec
expire_sec-Within n none s h = tt
expire_sec-Within n (some (k, rest)) s h = h

load_entry-Within :
    (n : ℕ) (sys now : ℤ) (o : Option (Bytes × Bytes)) (pending : Option ℤ) (s : Store)
    → Within n o
    → StepWithin n (load_entry sys now o pending s)
unfolding load_entry load_value
load_entry-Within n sys now none pending s h = tt
load_entry-Within n sys now (some (key, rest)) pending s h =
    value (read_string rest) (read_string-Within rest)
  where
    value :
        (o : Option (Bytes × Bytes))
        → Within (length rest) o
        → StepWithin n (load_value sys now key o pending s)
    value none k = tt
    value (some (val, r)) k = omega (arith, h)

StepWithin-if :
    (n : ℕ) (b : Bool) (x y : Step)
    → StepWithin n x
    → StepWithin n y
    → StepWithin n (if b then x else y)
StepWithin-if n true x y h k = h
StepWithin-if n false x y h k = k

step-Within :
    (sys now : ℤ) (opcode : ℕ) (rest : Bytes) (pending : Option ℤ) (s : Store)
    → StepWithin (length rest) (step sys now opcode rest pending s)
unfolding step read_le64 read_le32
step-Within sys now opcode rest pending s =
    let n = length rest in
    let here : RestWithin n (some rest) = omega arith in
    StepWithin-if n (opcode == opcode_aux) _ _
      (go_on-Within n _ pending s (skip_string-Within n _ (skip_string-Within n (some rest) here)))
      (StepWithin-if n (opcode == opcode_selectdb) _ _
        (go_on-Within n _ pending s (skip_length-Within n (some rest) here))
        (StepWithin-if n (opcode == opcode_resizedb) _ _
          (go_on-Within n _ pending s
            (skip_length-Within n _ (skip_length-Within n (some rest) here)))
          (StepWithin-if n (opcode == opcode_expiretime_ms) _ _
            (expire_ms-Within n _ s (of_taken-Within n _ (take_bytes-Within 8 rest)))
            (StepWithin-if n (opcode == opcode_expiretime) _ _
              (expire_sec-Within n _ s (of_taken-Within n _ (take_bytes-Within 4 rest)))
              (StepWithin-if n (opcode == opcode_eof) _ _ tt (
                StepWithin-if n (opcode == type_string) _ _
                  (load_entry-Within n sys now _ pending s (read_string-Within rest)) tt))))))

-- A run of `while (p < end)` that ends, with no bound on its rounds: from the bytes left, the pending
-- expiry and the store on, it comes to a result. Every round that goes on has taken its opcode.
pub data Runs (sys : ℤ) (clock : ℕ → ℤ) : Bytes → Option ℤ → Store → Bool × Store → Type 0 where
  at_end : {pending : Option ℤ} {s : Store} → Runs sys clock [] pending s (true, s)
  failed :
      {opcode : ℕ} {rest : Bytes} {pending : Option ℤ} {s s' : Store}
      → step sys (clock (length rest)) opcode rest pending s ≡ Step.fail s'
      → Runs sys clock (opcode ∷ rest) pending s (false, s')
  finished :
      {opcode : ℕ} {rest : Bytes} {pending : Option ℤ} {s s' : Store}
      → step sys (clock (length rest)) opcode rest pending s ≡ Step.finish s'
      → Runs sys clock (opcode ∷ rest) pending s (true, s')
  went_on :
      {opcode : ℕ} {rest rest' : Bytes} {pending pending' : Option ℤ} {s s' : Store}
      {result : Bool × Store}
      → step sys (clock (length rest)) opcode rest pending s ≡ Step.next rest' pending' s'
      → length rest' ≤ length rest
      → Runs sys clock rest' pending' s' result
      → Runs sys clock (opcode ∷ rest) pending s result

-- One round, by what its opcode comes to.
round-Runs :
    (f : ℕ) (sys : ℤ) (clock : ℕ → ℤ) (b : ℕ) (rest : Bytes) (pending : Option ℤ) (s : Store)
    (r : Step)
    → step sys (clock (length rest)) b rest pending s ≡ r
    → StepWithin (length rest) r
    → ((bytes : Bytes) (pending' : Option ℤ) (s' : Store)
        → length bytes ≤ length rest
        → Runs sys clock bytes pending' s' (load_loop f sys clock bytes pending' s'))
    → Runs sys clock (b ∷ rest) pending s (load_loop (suc f) sys clock (b ∷ rest) pending s)
unfolding load_loop
round-Runs f sys clock b rest pending s (Step.fail s') e within next =
    rw (e, load_loop) (Runs.failed e)
round-Runs f sys clock b rest pending s (Step.finish s') e within next =
    rw (e, load_loop) (Runs.finished e)
round-Runs f sys clock b rest pending s (Step.next rest' pending' s') e within next =
    rw (e, load_loop) (Runs.went_on e within (next rest' pending' s' within))

-- For every snapshot, whole or not, and every store: with a round allowed for each byte, or with more,
-- what the loop returns is the result of a run of its rounds that ends by one of the loop's own tests
-- and not for want of rounds: all bytes are read, an opcode throws, or an opcode ends it. Every round
-- before that has left fewer bytes than it found.
pub load_loop-Runs :
    (f : ℕ) (sys : ℤ) (clock : ℕ → ℤ) (bytes : Bytes) (pending : Option ℤ) (s : Store)
    → length bytes ≤ f
    → Runs sys clock bytes pending s (load_loop f sys clock bytes pending s)
unfolding load_loop
load_loop-Runs zero sys clock [] pending s h = Runs.at_end
load_loop-Runs (suc f) sys clock [] pending s h = Runs.at_end
load_loop-Runs zero sys clock (b ∷ rest) pending s h = absurd (omega arith)
load_loop-Runs (suc f) sys clock (b ∷ rest) pending s h =
    round-Runs f sys clock b rest pending s (step sys (clock (length rest)) b rest pending s) refl
      (step-Within sys (clock (length rest)) b rest pending s)
      (λ bytes pending' s' within. load_loop-Runs f sys clock bytes pending' s' (omega arith))
