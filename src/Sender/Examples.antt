-- ===== src/Sender/Examples.antt =====
-- Transfers of a small file, and the theorems of the sender at these.
use yisync.Common.{ℕ, ◌≤◌, ◌<◌, ◌≡◌, ◌≢◌, refl, List, [], ◌∷◌, true, false, some, arith, get_or}
use yisync.Protocol.Message.{Heartbeat, MissingChunkRange}
use yisync.Sync.{SyncStart, StartAction}
use yisync.Sender.ChunkResend.{
  ChunkResendState, initialize_chunk_resend_state, next_chunk_to_send, can_send_chunk,
  first_priority, first_in_order, in_range, indices, default_order, mark_chunk_sent,
  apply_missing_hints,
}
use yisync.Sender.ChunkResend.Invariant.{initialize-IsValid}
use yisync.Sender.ChunkResend.Selection.{
  Answer, HasPriority, next_chunk_to_send-Answer, initialize-Contains,
}
use yisync.Sender.ChunkResend.Hints.{Hinted, some_covers, apply_missing_hints-Hinted}
use yisync.Sender.ChunkResend.Marks.{
  sends, acknowledges, loses, hints, step, run, IsReady, step-IsReady, acknowledged_not_sent_again,
  lost_is_offered,
}
use yisync.Sender.AppendState.{
  AppendSendState, reset_append_state, start_append_plan, mark_append_data_ready_from_heartbeat,
  mark_append_create_ready_from_heartbeat, mark_append_data_sent,
}
use yisync.Sender.AppendState.Transfer.{
  Task, Within, Sent, data_range, send_append_if_possible, send_append_if_possible_lem,
  transfer-Within, AllRepeat,
}
use yisync.Sender.AppendState.Transfer

-- A file of three chunks; the second is in flight on line 1.
abbrev fresh : ChunkResendState
fresh = initialize_chunk_resend_state 3 []

fresh-IsReady : IsReady fresh
unfolding initialize_chunk_resend_state
fresh-IsReady = record { valid = initialize-IsValid 3 []; covered = initialize-Contains 3 }

-- The last chunk goes first.
fresh_first : next_chunk_to_send fresh 0 100 ≡ some 2
unfolding initialize_chunk_resend_state next_chunk_to_send first_priority first_in_order
    can_send_chunk in_range indices default_order
fresh_first = refl

next_chunk_to_send-Answer_example : Answer fresh 5 100 (next_chunk_to_send fresh 5 100)
next_chunk_to_send-Answer_example =
    next_chunk_to_send-Answer fresh fresh-IsReady.valid 5 100 fresh-IsReady.covered

fresh_count : 1 < fresh.chunk_count
unfolding initialize_chunk_resend_state
fresh_count = omega arith

-- Chunk 1 is named by a hint about chunks 0 to 9 of file 7.
abbrev missing : MissingChunkRange
missing = record { seq = 4; file_id = 7; first_chunk_index = 0; last_chunk_index = 9 }

acknowledged_not_sent_again_example :
    next_chunk_to_send
      (run fresh (acknowledges 1 ∷ hints 4 7 (missing ∷ []) ∷ sends 2 1 6 ∷ loses 2 ∷ []))
      7
      100
    ≢ some 1
acknowledged_not_sent_again_example =
    acknowledged_not_sent_again fresh 1 (hints 4 7 (missing ∷ []) ∷ sends 2 1 6 ∷ loses 2 ∷ []) 7
      100 fresh-IsReady fresh_count

-- The second chunk in flight on line 1.
abbrev flying : ChunkResendState
flying = step fresh (sends 1 1 6)

flying-IsReady : IsReady flying
flying-IsReady = step-IsReady fresh (sends 1 1 6) fresh-IsReady

flying_count : 1 < flying.chunk_count
unfolding step mark_chunk_sent initialize_chunk_resend_state
flying_count = omega arith

flying_sent : get_or flying.sent 1 false ≡ true
unfolding step mark_chunk_sent initialize_chunk_resend_state
flying_sent = refl

flying_unacked : get_or flying.acked 1 false ≡ false
unfolding step mark_chunk_sent initialize_chunk_resend_state
flying_unacked = refl

lost_is_offered_example :
    (d : ℕ) × (next_chunk_to_send (step flying (loses 1)) 7 100 ≡ some d)
    × HasPriority (step flying (loses 1)) d
lost_is_offered_example =
    lost_is_offered flying 1 7 100 flying-IsReady flying_count flying_sent flying_unacked

apply_missing_hints-Hinted_example :
    Hinted fresh
      (apply_missing_hints fresh 4 7 (missing ∷ [])).0
      1
      (some_covers fresh 4 7 (missing ∷ []) 1)
apply_missing_hints-Hinted_example =
    apply_missing_hints-Hinted fresh 4 7 (missing ∷ []) 1 fresh-IsReady.valid

-- A file of 100 bytes of which the receiver has 20, in chunks of 64.
abbrev task : Task
task = record { file_id = 7; source_size = 100; chunk_size = 64 }

abbrev resumed : SyncStart
resumed = record {
  stream_id = 1;
  start_file_id = 7;
  start_offset = 20;
  start_action = StartAction.resume_existing;
}

abbrev before : AppendSendState
before = start_append_plan reset_append_state resumed 4 100

abbrev reply : ℕ → Heartbeat
reply durable = record {
  stream_id = 1;
  next_seq = 5;
  file_id = 7;
  offset = durable;
  durable_offset = durable;
  recv_window_bytes = 65536;
  received_chunks = [];
  missing_ranges = [];
}

before_sends : (send_append_if_possible task true 1 before).1 ≡ data_range 20 64
unfolding send_append_if_possible start_append_plan
before_sends = refl

abbrev calls : List Transfer.Call
calls =
    Transfer.sends true 1
    ∷ Transfer.heartbeats (reply 84)
    ∷ Transfer.sends true 2
    ∷ Transfer.retransmits_data 3 84 100
    ∷ Transfer.loses
    ∷ Transfer.sends true 1
    ∷ Transfer.heartbeats (reply 100)
    ∷ []

calls_repeat : AllRepeat task before calls
unfolding Transfer.step start_append_plan Transfer.on_heartbeat send_append_if_possible
    mark_append_data_ready_from_heartbeat mark_append_create_ready_from_heartbeat
    mark_append_data_sent
calls_repeat = (tt, (tt, (tt, ((refl, omega arith, omega arith), (tt, (tt, (tt, tt)))))))

transfer-Within_example :
    Within task (Transfer.run task before calls)
    × (20 ≤ (Transfer.run task before calls).next_offset)
transfer-Within_example =
    transfer-Within task reset_append_state resumed 4 calls (omega arith) (omega arith) calls_repeat
