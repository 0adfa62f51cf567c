-- ===== src/Tests/Resync.antt =====
-- Resynchronisations.
use redis_lite.Common.{
  ◌+◌, ◌-◌, ◌<◌, ◌≡◌, ◌^◌, inr, refl, List, [], ◌∷◌, ◌++◌, some, Bytes, codes, true, false,
  append_assoc, length, drop, arith, flatten, str_eq,
}
use redis_lite.Common.Int.{pos}
use redis_lite.Number.{of_ℕ, of_ℤ, stoll}
use redis_lite.Resp.{encode_array}
use redis_lite.Store.{Store, is_expired}
use redis_lite.Rdb.Codec.{write_string, write_length, write_le64, write_le32, le_bytes}
use redis_lite.Rdb.Save.{
  serialize, body, aux_ver, aux_bits, aux_ctime, aux_mem, aux_base, live as live_entries,
  expires_size, write_expiry, write_entry, write_entries,
}
use redis_lite.Server.State.{Server, find_queue}
use redis_lite.Server.Send.{is_empty}
use redis_lite.Server.Psync.{
  asked_id, asked_offset, or_minus_one, resumes, handle_psync, id_match, full_resync,
}
use redis_lite.Server.Replicate.{name_of, record_write, publish_offset, advance_stream}
use redis_lite.Server.Wait.{propagate_to_replicas, is_nil}
use redis_lite.Server.Handshake.{Joined, occurs, index_of, starts_with, next_index, join}
use redis_lite.Server.Stream.{record_all, stream, InStep, Follows, record_write-IsNew}
use redis_lite.Server.Resume.{queue_of, handle_psync-continue, handle_psync-full}
use redis_lite.Server.FullResync.{Resynced, join-handle_psync}
use redis_lite.Server.Join.{status}
use redis_lite.Store.Access.{IsValid}
use redis_lite.Server.Loop.{Received, handle_read}
use redis_lite.Server.Quiet.{view}
use redis_lite.Server.Writes.{apply_all}
use redis_lite.Server.Batch.{handle_read-writes}
use redis_lite.Command.Names.{is_write_command, to_upper}
use redis_lite.Tests.Waits.{calm-Unbroken}
use redis_lite.Tests.Server.{calm, fresh_master, live_master, a_client, set_k, set_encoded}

abbrev written : Server
written = record_write set_k live_master

written-InStep : InStep written 64 0 (encode_array set_k)
written-InStep =
    record_write-IsNew set_k live_master 64 0 (rw set_encoded (omega arith))
      (record { empty = refl; offset = refl; positive = omega arith })

abbrev partial : List Bytes
partial = codes "PSYNC" ∷ codes "id" ∷ codes "4" ∷ []

live_client : written.clients 3 ≡ some a_client
unfolding record_write publish_offset advance_stream propagate_to_replicas is_nil
live_client = refl

known : str_eq (asked_id partial) (codes "?") ≡ false
unfolding asked_id str_eq
known = refl

offset_4 : asked_offset partial ≡ pos 4
unfolding asked_offset stoll str_eq or_minus_one
offset_4 = refl

same_id : id_match (asked_id partial) (pos 4) written.repl_info ≡ true
unfolding asked_id id_match str_eq record_write publish_offset advance_stream propagate_to_replicas
    is_nil
same_id = refl

handle_psync-continue_example :
    (s' : Server) × (handle_psync calm 3 partial written ≡ some s')
    × (find_queue 3 (record_all (set_k ∷ []) s').repl_queues
        ≡ some (
            queue_of 9 (
              codes "+CONTINUE "
              ++ (written.repl_info.master_replid
                  ++ (codes "\r\n" ++ drop (4 - 0) (encode_array set_k ++ stream (set_k ∷ [])))))))
    × InStep (record_all (set_k ∷ []) s') 64 0 (encode_array set_k ++ stream (set_k ∷ []))
handle_psync-continue_example =
    handle_psync-continue calm 3 64 0 4 (encode_array set_k) partial a_client written (set_k ∷ [])
      written-InStep (rw set_encoded (omega arith)) live_client known offset_4 same_id
      (rw set_encoded (omega arith)) (rw set_encoded (omega arith))

abbrev nothing : Store
nothing = record { entries = [] }

abbrev fresh : List Bytes
fresh = codes "PSYNC" ∷ codes "?" ∷ codes "-1" ∷ []

abbrev snapshot : Bytes
snapshot = serialize (calm.clocks 0) live_master.store

never_fed : Follows live_master 64 0 []
never_fed = inr (refl, record { empty = refl; offset = refl; positive = omega arith })

does_not_resume : resumes (asked_id fresh) (asked_offset fresh) live_master ≡ false
unfolding resumes asked_id str_eq
does_not_resume = refl

stream_size : 0 + length ([] ++ stream (set_k ∷ [])) < 2 ^ 63
stream_size = rw set_encoded (omega arith)

full_example :
    (s' : Server) × (handle_psync calm 3 fresh live_master ≡ some s')
    × (find_queue 3 (record_all (set_k ∷ []) s').repl_queues
        ≡ some (queue_of 9 (full_resync (codes "id") (pos 0) snapshot ++ stream (set_k ∷ []))))
    × Follows (record_all (set_k ∷ []) s') 64 0 ([] ++ stream (set_k ∷ []))
full_example =
    handle_psync-full calm 3 64 0 [] fresh a_client live_master (set_k ∷ []) never_fed stream_size
      refl does_not_resume

length-snapshot : length snapshot ≡ 98
unfolding serialize body aux_ver aux_bits aux_ctime aux_mem aux_base live_entries expires_size
    is_expired write_expiry write_entry write_entries write_string write_length write_le64
    write_le32 le_bytes of_ℤ of_ℕ
length-snapshot = refl

abbrev first_piece : Bytes
first_piece = status (codes "id") 0 ++ codes "$"

abbrev later_pieces : List Bytes
later_pieces = (of_ℕ (length snapshot) ++ codes "\r\n") ∷ (snapshot ++ stream (set_k ∷ [])) ∷ []

received :
    first_piece ++ flatten later_pieces
    ≡ full_resync (codes "id") (pos 0) snapshot ++ stream (set_k ∷ [])
unfolding full_resync of_ℤ of_ℕ
received = simp append_assoc

holds : occurs (codes "+PONG") (codes "+PONG\r\n") ≡ true
unfolding occurs index_of starts_with
holds = refl

holds_ok : occurs (codes "+OK") (codes "+OK\r\n") ≡ true
unfolding occurs index_of starts_with
holds_ok = refl

no_continue : occurs (codes "+CONTINUE") first_piece ≡ false
unfolding occurs index_of starts_with next_index of_ℕ is_empty
no_continue = refl

valid : IsValid live_master.store
valid = (tt, tt)

join-handle_psync_example :
    (j : Joined) × (join
        (pos 0)
        (λ _. pos 7)
        fresh_master.repl_info
        nothing
        (codes "+PONG\r\n" ∷ codes "+OK\r\n" ∷ codes "+OK\r\n" ∷ first_piece ∷ later_pieces)
      ≡ some j)
    × Resynced j (calm.clocks 0) (pos 0) (pos 7) live_master (stream (set_k ∷ []))
join-handle_psync_example =
    join-handle_psync calm 3 64 0 [] fresh a_client live_master full_example.0 (set_k ∷ [])
      (queue_of 9 (full_resync (codes "id") (pos 0) snapshot ++ stream (set_k ∷ []))) (pos 0)
      (pos 7) fresh_master.repl_info nothing (codes "+PONG\r\n") (codes "+OK\r\n") (codes "+OK\r\n")
      first_piece (codes "$") later_pieces never_fed stream_size refl does_not_resume full_example.1
      full_example.2 valid (omega arith) (omega arith) (omega (arith, length-snapshot))
      (omega arith) (omega arith) holds holds_ok holds_ok refl no_continue received

handle_read-writes_example :
    (s' : Server) × (handle_read calm 3 (Received.arrived (stream (set_k ∷ []))) written ≡ some s')
    × (view s' ≡ view (apply_all calm (set_k ∷ []) written))
    × InStep s' 64 0 (encode_array set_k ++ stream (set_k ∷ []))
handle_read-writes_example =
    handle_read-writes calm 3 64 0 (encode_array set_k) (set_k ∷ []) a_client written calm-Unbroken
      live_client refl refl (omega arith)
      (unfold name_of is_write_command str_eq to_upper in (refl, tt)) written-InStep
      (rw set_encoded (omega arith))
