-- ===== src/Server/Join.antt =====
-- The answer to PSYNC as a replica reads it (`connect_to_master` of src/server.cpp): a full resync
-- arrives whole, however it was cut.
use redis_lite.Common.{
  ℕ, ◌+◌, ◌≤◌, ◌<◌, ◌≡◌, ◌≢◌, ◌^◌, refl, ◌∙◌, ap, ap₂, true, false, List, [], ◌∷◌, ◌++◌,
  append_assoc, some, Bytes, codes, length, length-append, drop, All, All-append, flatten, arith,
}
use redis_lite.Common.Int.{ℤ, pos}
use redis_lite.Number.{of_ℕ, of_ℤ, int_max}
use redis_lite.Number.RoundTrip.{stoll-of_ℕ, of_ℕ-IsDigit, IsDigit, length-of_ℕ}
use redis_lite.Store.{Store}
use redis_lite.Replication.{ReplicationInfo}
use redis_lite.Server.Psync.{full_resync}
use redis_lite.Server.Handshake.{
  Joined, index_of, occurs, starts_with, resync_fields, resync_info, joined_info, joined_full,
  load_or_clear, on_reply, between, receive_rdb,
}
use redis_lite.Server.Find.{index_of-behind, between_middle}
use redis_lite.Server.Receive.{framed, receive_rdb-framed}

-- An identifier that cannot be taken for a part of the reply around it.
abbrev pub IsPlain : Bytes → Type 0
IsPlain id = All (λ b. (b ≢ 32) × (b ≢ 13) × (b ≢ b'$')) id

-- `+FULLRESYNC <replid> <offset>\r\n`
abbrev pub status : Bytes → ℕ → Bytes
status replid offset =
    codes "+FULLRESYNC " ++ (replid ++ (codes " " ++ (of_ℕ offset ++ codes "\r\n")))

no_space : (id : Bytes) → IsPlain id → All (λ b. b ≢ 32) id
no_space [] h = tt
no_space (b ∷ id) h = (h.0.0, no_space id h.1)

no_cr : (id : Bytes) → IsPlain id → All (λ b. b ≢ 13) id
no_cr [] h = tt
no_cr (b ∷ id) h = (h.0.1, no_cr id h.1)

no_dollar : (id : Bytes) → IsPlain id → All (λ b. b ≢ b'$') id
no_dollar [] h = tt
no_dollar (b ∷ id) h = (h.0.2, no_dollar id h.1)

digits-IsPlain : (s : Bytes) → All IsDigit s → IsPlain s
digits-IsPlain [] h = tt
digits-IsPlain (c ∷ s) h = ((omega arith, omega arith, omega arith), digits-IsPlain s h.1)

number-IsPlain : (n : ℕ) → IsPlain (of_ℕ n)
number-IsPlain n = digits-IsPlain (of_ℕ n) (of_ℕ-IsDigit n)

module _ (replid x : Bytes) (offset : ℕ) (plain : IsPlain replid) where
  abbrev digits : Bytes
  digits = of_ℕ offset

  -- The first piece, cut at each of the places that are looked for.
  cut_at_space :
      status replid offset ++ x
      ≡ codes "+FULLRESYNC " ++ (replid ++ (codes " " ++ (digits ++ (codes "\r\n" ++ x))))
  cut_at_space = simp append_assoc

  before_crlf : Bytes
  before_crlf = codes "+FULLRESYNC " ++ (replid ++ (codes " " ++ digits))

  cut_at_crlf : status replid offset ++ x ≡ before_crlf ++ (codes "\r\n" ++ x)
  unfolding before_crlf
  cut_at_crlf = simp append_assoc

  crlf_clean : All (λ b. b ≢ 13) before_crlf
  unfolding before_crlf
  crlf_clean =
      let id_clean =
        All-append _ replid (codes " " ++ digits) (no_cr replid plain)
          (omega arith, no_cr digits (number-IsPlain offset)) in
      All-append _ (codes "+FULLRESYNC ") (replid ++ (codes " " ++ digits)) (omega arith) id_clean

  crlf_at : index_of (codes "\r\n") (status replid offset ++ x) ≡ some (length before_crlf)
  crlf_at =
      ap (index_of (codes "\r\n")) cut_at_crlf
      ∙ index_of-behind 13 (10 ∷ []) before_crlf (codes "\r\n" ++ x) crlf_clean
          (unfold starts_with in refl)

  second_space : index_of (codes " ") (drop 12 (status replid offset ++ x)) ≡ some (length replid)
  second_space =
      ap (λ r. index_of (codes " ") (drop 12 r)) cut_at_space
      ∙ index_of-behind 32 [] replid (codes " " ++ (digits ++ (codes "\r\n" ++ x)))
          (no_space replid plain) (unfold starts_with in refl)

  first_space : index_of (codes " ") (status replid offset ++ x) ≡ some 11
  unfolding index_of starts_with redis_lite.Server.Handshake.next_index
  first_space = refl

  -- The fields of the status line.
  fields-status : resync_fields (status replid offset ++ x) ≡ some (replid, digits)
  unfolding resync_fields
  fields-status =
      let tail = codes "\r\n" ++ x in
      let line = status replid offset ++ x in
      let id_at : between 12 (12 + length replid) line ≡ replid =
        ap (between 12 (12 + length replid)) cut_at_space
        ∙ between_middle (codes "+FULLRESYNC ") replid (codes " " ++ (digits ++ tail)) 12
            (12 + length replid) refl refl in
      let front = codes "+FULLRESYNC " ++ (replid ++ codes " ") in
      let size = length-append (codes "+FULLRESYNC ") (replid ++ codes " ") in
      let size' = length-append replid (codes " ") in
      let number_at : between (12 + length replid + 1) (length before_crlf) line ≡ digits =
        ap (between (12 + length replid + 1) (length before_crlf)) {y = front ++ (digits ++ tail)}
          (simp append_assoc)
        ∙ between_middle front digits tail (12 + length replid + 1) (length before_crlf)
            (omega (arith, size'))
            (unfold before_crlf in
              omega (arith, size', length-append replid (codes " " ++ digits))) in
      rw (first_space, second_space, crlf_at) (ap₂ (λ a b. some (a, b)) id_at number_at)

  info-status :
      (r : ReplicationInfo)
      → offset < 2 ^ 63
      → resync_info (status replid offset ++ x) r
        ≡ some (record r { master_replid = replid; master_repl_offset = pos offset })
  unfolding resync_info joined_info
  info-status r small = rw (fields-status, resync_info, stoll-of_ℕ offset (omega arith)) refl

  is_full : occurs (codes "+FULLRESYNC") (status replid offset ++ x) ≡ true
  unfolding occurs index_of starts_with
  is_full = refl

-- The reply is its status line and a snapshot behind its length.
full_resync-framed :
    (replid bytes later : Bytes) (offset : ℕ)
    → full_resync replid (pos offset) bytes ++ later ≡ framed (status replid offset) bytes later
unfolding full_resync of_ℤ
full_resync-framed replid bytes later offset = simp append_assoc

status_clean :
    (replid : Bytes) (offset : ℕ) → IsPlain replid → All (λ b. b ≢ b'$') (status replid offset)
status_clean replid offset plain =
    let tail =
      All-append (λ b. b ≢ b'$') (of_ℕ offset) (codes "\r\n")
        (no_dollar (of_ℕ offset) (number-IsPlain offset)) (omega arith) in
    let rest =
      All-append (λ b. b ≢ b'$') replid (codes " " ++ (of_ℕ offset ++ codes "\r\n"))
        (no_dollar replid plain) (omega arith, tail) in
    All-append (λ b. b ≢ b'$') (codes "+FULLRESYNC ")
      (replid ++ (codes " " ++ (of_ℕ offset ++ codes "\r\n"))) (omega arith) rest

length-status :
    (replid : Bytes) (offset : ℕ) → length (status replid offset) ≤ length replid + offset + 16
length-status replid offset = omega (
  arith,
  length-append replid (codes " " ++ (of_ℕ offset ++ codes "\r\n")),
  length-append (of_ℕ offset) (codes "\r\n"),
  length-of_ℕ offset,
)

on_full :
    (sys : ℤ) (clock : ℕ → ℤ) (r r' : ReplicationInfo) (store : Store)
    (reply bytes leftover : Bytes) (pieces unread : List Bytes)
    → occurs (codes "+CONTINUE") reply ≡ false
    → occurs (codes "+FULLRESYNC") reply ≡ true
    → resync_info reply r ≡ some r'
    → receive_rdb reply pieces ≡ some (bytes, leftover, unread)
    → on_reply sys clock r store reply pieces
      ≡ some (record {
        info = r';
        store = load_or_clear sys clock bytes store;
        connected = true;
        leftover = leftover;
        unread = unread;
      })
unfolding on_reply joined_full
on_full sys clock r r' store reply bytes leftover pieces unread no_continue full info received =
    rw (no_continue, full, info, received) refl

-- The answer to a full resync, whatever pieces it arrives in, if the first of them holds the status
-- line and the text `+CONTINUE` is nowhere in it: the replica takes over the identifier and the
-- offset, loads exactly the snapshot, and what follows the snapshot is, in order, in its read buffer
-- and in the pieces that it has not received yet.
pub on_reply-full_resync :
    (sys : ℤ) (clock : ℕ → ℤ) (r : ReplicationInfo) (store : Store)
    (replid bytes later reply x : Bytes) (offset : ℕ) (pieces : List Bytes)
    → IsPlain replid
    → length replid < 2 ^ 32
    → offset < 2 ^ 63
    → length bytes ≤ int_max
    → reply ≡ status replid offset ++ x
    → occurs (codes "+CONTINUE") reply ≡ false
    → reply ++ flatten pieces ≡ full_resync replid (pos offset) bytes ++ later
    → (leftover : Bytes) × (unread : List Bytes) × (on_reply sys clock r store reply pieces
        ≡ some (record {
          info = record r { master_replid = replid; master_repl_offset = pos offset };
          store = load_or_clear sys clock bytes store;
          connected = true;
          leftover = leftover;
          unread = unread;
        }))
      × (leftover ++ flatten unread ≡ later)
on_reply-full_resync sys clock r store replid bytes later reply x offset pieces plain short small
      fits first no_continue same =
    let (leftover, unread, received, rest) =
      receive_rdb-framed (status replid offset) bytes later reply pieces
        (status_clean replid offset plain) fits
        (omega (arith, length-status replid offset, length-of_ℕ (length bytes)))
        (same ∙ full_resync-framed replid bytes later offset) in
    (
      leftover,
      unread,
      on_full sys clock r (record r { master_replid = replid; master_repl_offset = pos offset })
          store reply bytes leftover pieces unread no_continue
          (rw first (is_full replid x offset plain))
          (rw first (info-status replid x offset plain r small)) received,
      rest,
    )
