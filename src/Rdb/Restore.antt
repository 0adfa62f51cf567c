-- ===== src/Rdb/Restore.antt =====
-- A replica that loads its master's snapshot has the master's live entries.
use redis_lite.Common.{
  ℕ, suc, ◌*◌, ◌^◌, ◌≤◌, ◌<◌, ◌≡◌, ◌∙◌, ap, str_eq, true, List, [], ◌∷◌, ◌++◌, append_assoc, none,
  Bytes, length, length-append, All, arith,
}
use redis_lite.Common.Int.{ℤ}
use redis_lite.Store.{Entry, Store, clear}
use redis_lite.Rdb.Crc.{crc64}
use redis_lite.Rdb.Codec.{write_length, write_string, write_le64}
use redis_lite.Rdb.Save.{
  Clocks, aux_ver, aux_bits, aux_ctime, aux_mem, aux_base, live, expires_size, write_expiry,
  write_entry, write_entries, body, serialize, magic, opcode_selectdb, opcode_resizedb, opcode_eof,
  type_string,
}
use redis_lite.Rdb.Load.{load_loop, load}
use redis_lite.Rdb.Steps.{
  loop-aux_ver, loop-aux_bits, loop-aux_ctime, loop-aux_mem, loop-aux_base, loop-selectdb,
  loop-resizedb,
}
use redis_lite.Rdb.RoundTrip.{Small, reload, load_entries}

two-le-length : (n : ℕ) → 1 ≤ length (write_length n)
unfolding write_length
two-le-length n = ground arith

length-write_string : (s : Bytes) → 1 ≤ length (write_string s)
unfolding write_string
length-write_string s =
    omega (arith, length-append (write_length (length s)) s, two-le-length (length s))

length-write_entry : (c : Clocks) (key : Bytes) (e : Entry) → 2 ≤ length (write_entry c (key, e))
unfolding write_entry
length-write_entry c key e = omega (
  arith,
  length-append (write_expiry c e.expiry)
      (type_string ∷ (write_string key ++ write_string e.value)),
  length-append (write_string key) (write_string e.value),
  length-write_string key,
)

length-write_entries :
    (c : Clocks) (es : List (Bytes × Entry)) → 2 * length es ≤ length (write_entries c es)
unfolding write_entries
length-write_entries c [] = omega arith
length-write_entries c ((key, e) ∷ es) = omega (
  arith,
  length-append (write_entry c (key, e)) (write_entries c es),
  length-write_entry c key e,
  length-write_entries c es,
)

live-Small : (now : ℤ) (es : List (Bytes × Entry)) → All Small es → All Small (live now es)
unfolding live
live-Small now [] h = tt
live-Small now ((key, e) ∷ es) h = ground (arith, live-Small now es h.1)

length-live : (now : ℤ) (es : List (Bytes × Entry)) → length (live now es) ≤ length es
unfolding live
length-live now [] = omega arith
length-live now ((key, e) ∷ es) = ground (arith, length-live now es)

expires_size-le : (es : List (Bytes × Entry)) → expires_size es ≤ length es
unfolding expires_size
expires_size-le [] = omega arith
expires_size-le ((key, e) ∷ es) = ground (arith, expires_size-le es)

module _ (c : Clocks) (es : List (Bytes × Entry)) (tail : Bytes) where
  -- What follows the header, and the header behind the magic.
  abbrev entries_part : Bytes
  entries_part = write_entries c es ++ opcode_eof ∷ tail

  abbrev db_part : Bytes
  db_part =
      opcode_selectdb
      ∷ (write_length 0
          ++ opcode_resizedb
            ∷ (write_length (length es) ++ (write_length (expires_size es) ++ entries_part)))

  abbrev after_magic : Bytes
  after_magic = aux_ver ++ (aux_bits ++ (aux_ctime c.now_sec ++ (aux_mem ++ (aux_base ++ db_part))))

  load_header :
      (sys : ℤ) (clock : ℕ → ℤ) (f : ℕ) (s : Store)
      → length es < 2 ^ 32
      → load_loop (suc (suc (suc (suc (suc (suc (suc f))))))) sys clock after_magic none s
        ≡ load_loop f sys clock entries_part none s
  load_header sys clock f s h =
      let part1 = aux_bits ++ (aux_ctime c.now_sec ++ (aux_mem ++ (aux_base ++ db_part))) in
      let part2 = aux_ctime c.now_sec ++ (aux_mem ++ (aux_base ++ db_part)) in
      let sizes = write_length (length es) ++ (write_length (expires_size es) ++ entries_part) in
      loop-aux_ver sys clock _ part1 none s
      ∙ loop-aux_bits sys clock _ part2 none s
      ∙ loop-aux_ctime sys clock _ c.now_sec (aux_mem ++ (aux_base ++ db_part)) none s
      ∙ loop-aux_mem sys clock _ (aux_base ++ db_part) none s
      ∙ loop-aux_base sys clock _ db_part none s
      ∙ loop-selectdb sys clock _ 0 (opcode_resizedb ∷ sizes) none s (omega arith)
      ∙ loop-resizedb sys clock f (length es) (expires_size es) entries_part none s h
          (omega (arith, expires_size-le es))

  length-after_magic : length (write_entries c es) ≤ length after_magic
  length-after_magic = omega (
    arith,
    length-append aux_ver (aux_bits ++ (aux_ctime c.now_sec ++ (aux_mem ++ (aux_base ++ db_part)))),
    length-append aux_bits (aux_ctime c.now_sec ++ (aux_mem ++ (aux_base ++ db_part))),
    length-append (aux_ctime c.now_sec) (aux_mem ++ (aux_base ++ db_part)),
    length-append aux_mem (aux_base ++ db_part),
    length-append aux_base db_part,
    length-append (write_length 0) (
        opcode_resizedb
        ∷ (write_length (length es) ++ (write_length (expires_size es) ++ entries_part))),
    length-append (write_length (length es)) (write_length (expires_size es) ++ entries_part),
    length-append (write_length (expires_size es)) entries_part,
    length-append (write_entries c es) (opcode_eof ∷ tail),
  )

load-magic :
    (sys : ℤ) (clock : ℕ → ℤ) (bytes : Bytes) (s : Store)
    → load sys clock (magic ++ bytes) s
      ≡ load_loop (length (magic ++ bytes)) sys clock bytes none (clear s)
unfolding load str_eq
load-magic sys clock bytes s = ground arith

body-append :
    (c : Clocks) (s : Store) (tail : Bytes)
    → body c s ++ tail ≡ magic ++ after_magic c (live c.steady_now s.entries) tail
unfolding body
body-append c s tail = simp append_assoc

serialize-after_magic :
    (c : Clocks) (s : Store)
    → serialize c s
      ≡ magic ++ after_magic c (live c.steady_now s.entries) (write_le64 (crc64 (body c s)))
serialize-after_magic c s = unfold serialize in body-append c s (write_le64 (crc64 (body c s)))

-- A master's snapshot of any store with fewer than 2 ^ 32 entries and no string of 2 ^ 32 bytes or
-- more, loaded by a replica whose steady clock reads `now` and whose wall clock reads `sys`,
-- whatever the replica held before: the load succeeds, it ends after finitely many opcodes, and the
-- replica's store is the entries that had not expired on the master, stored one by one, each with
-- the time that is left until its absolute expiry and dropped if none is.
pub load-serialize :
    (c : Clocks) (sys now : ℤ) (s old : Store)
    → length s.entries < 2 ^ 32
    → All Small s.entries
    → load sys (λ _. now) (serialize c s) old
      ≡ (true, reload c sys now (live c.steady_now s.entries) (clear old))
load-serialize c sys now s old few small =
    let es = live c.steady_now s.entries in
    let tail = write_le64 (crc64 (body c s)) in
    let bytes = after_magic c es tail in
    ap (λ b. load sys (λ _. now) b old) (serialize-after_magic c s)
    ∙ load-magic sys (λ _. now) bytes old
    ∙ load_header c es tail sys (λ _. now) (suc (suc (length bytes))) (clear old)
        (omega (arith, length-live c.steady_now s.entries))
    ∙ load_entries c sys now es tail (suc (suc (length bytes))) (clear old)
        (omega (arith, length-write_entries c es, length-after_magic c es tail))
        (live-Small c.steady_now s.entries small)
