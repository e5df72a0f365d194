-- ===== src/Sender/SendBuffer/Examples.antt =====
-- A buffer with two messages of a file, and the theorems of the send buffer at it.
use yisync.Common.{ℕ, ◌≡◌, List, [], ◌∷◌, Option, some, false, arith, All}
use yisync.Protocol.Codes.{NackReason}
use yisync.Protocol.Message.{Message, Heartbeat, Nack}
use yisync.Network.Line.{SendKind, SendRequest, SendGrant}
use yisync.Sender.SendBuffer.{
  SendBufferKey, same_key, clear, key_of, find, lookup, remember, assign, enqueue_nack_retransmit,
  key_for_nack, present, unless_zero, enqueue_retransmit, queued, erase_completed, erase_acked,
  acked,
}
use yisync.Sender.SendBuffer.Refine.{
  Call, remembers, completes, refuses, run, spec_run, run-refines,
}
use yisync.Sender.SendBuffer.Flush.{Limited, Ended, flush_retransmits, flush_retransmits-ends}

abbrev request : SendKind → ℕ → ℕ → SendRequest
request kind offset end_offset = record {
  stream_id = 9;
  file_id = 5;
  seq = 1;
  offset = offset;
  end_offset = end_offset;
  bytes = 100;
  split_allowed = false;
  kind = kind;
  chunk_index = 0;
}

-- What a message says is of no account here.
abbrev message : Message
message = Message.file_commit (record { stream_id = 9; seq = 1; file_id = 5 })

abbrev heartbeat : Heartbeat
heartbeat = record {
  stream_id = 9;
  next_seq = 1;
  file_id = 5;
  offset = 10;
  durable_offset = 0;
  recv_window_bytes = 0;
  received_chunks = [];
  missing_ranges = [];
}

abbrev nack : Nack
nack = record {
  stream_id = 9;
  got_seq = 1;
  expected_seq = 1;
  file_id = 5;
  offset = 10;
  expected_file_id = 5;
  expected_offset = 10;
  reason = NackReason.bad_offset;
  detail = [];
}

abbrev calls : List Call
calls =
    remembers message (request SendKind.data_send 0 10) 3
    ∷ remembers message (request SendKind.data_send 10 20) 4
    ∷ completes heartbeat 7
    ∷ refuses nack 0
    ∷ []

abbrev second : SendBufferKey
second = key_of SendKind.data_send 9 5 1 10 0

run-refines_example : find (run clear calls) second ≡ spec_run (find clear) calls second
run-refines_example = run-refines clear calls second tt

abbrev network : SendRequest → Option SendGrant
network r = some (record { line_id = 1; bytes = 100 })

calls-Limited : All (Limited network 3 9) (run clear calls).entries
unfolding run remember assign same_key erase_completed erase_acked acked enqueue_nack_retransmit
    key_for_nack present lookup unless_zero enqueue_retransmit queued
calls-Limited = (omega arith, tt)

flush_retransmits-ends_example :
    All (Limited network 3 9) (flush_retransmits network 3 9 (run clear calls)).buffer.entries
    × Ended network 3 9
        (flush_retransmits network 3 9 (run clear calls)).outcome
        (flush_retransmits network 3 9 (run clear calls)).buffer
flush_retransmits-ends_example = flush_retransmits-ends network 3 9 (run clear calls) calls-Limited
