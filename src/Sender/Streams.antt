-- ===== src/Sender/Streams.antt =====
-- The handlers of src/sender/yisync_sender_app.cpp that change the streams: retransmissions, lost
-- sends, the acknowledgements of chunks and the recovery by a new manifest.
pub mod Losses
pub mod Examples
use yisync.Common.{
  ℕ, ◌+◌, List, [], ◌∷◌, Option, none, some, Bool, true, false, not, ◌&&◌, ◌||◌, ltb, leb, ◌==◌,
  if◌then◌else◌, min, length, set, map, is_empty,
}
use yisync.Protocol.Message.{Heartbeat, ReceivedChunk}
use yisync.Network.Line.{SendKind, SendRequest, LostSend}
use yisync.Sender.ChunkResend.{
  mark_chunk_sent, mark_chunk_lost, acknowledge_chunk, apply_missing_hints,
  reset_chunk_resend_state,
}
use yisync.Sender.AppendState.{
  mark_append_create_retransmitted, mark_append_data_retransmitted, append_lost_matches,
  reset_append_inflight, reset_append_state,
}
use yisync.Sender.SendBuffer.{
  SendBuffer, AckedSendSample, clear, key_for_lost_send, enqueue_retransmit, erase_file_begin,
  erase_chunk,
}
use yisync.Sender.Plan.{FileSendTask, StreamSendState, active_task}
use yisync.Sender.Rto.{RtoEstimator, observe_ack_sample}

-- The task that a handler works on, written back.
abbrev pub with_task : StreamSendState → FileSendTask → StreamSendState
with_task s task = record s { tasks = set s.tasks s.current_task task }

-- The first stream with the id, changed, as `stream_for_id` finds it.
unfoldable pub at_stream :
    ℕ → (StreamSendState → StreamSendState) → List StreamSendState → List StreamSendState
at_stream stream_id change [] = []
at_stream stream_id change (s ∷ ss) =
    let rest = at_stream stream_id change ss in
    if s.stream_id == stream_id then change s ∷ ss else s ∷ rest

-- `mark_task_retransmitted`, by the kind of the message.
abbrev pub retransmit_task : FileSendTask → SendRequest → SendKind → ℕ → ℕ → FileSendTask
retransmit_task task r SendKind.create line_id current_tick =
    if not task.chunk_mode
    then record task { append = mark_append_create_retransmitted task.append line_id }
    else task
retransmit_task task r SendKind.data_send line_id current_tick =
    if not task.chunk_mode
    then record task {
      append = mark_append_data_retransmitted task.append line_id r.offset r.end_offset;
    }
    else task
retransmit_task task r SendKind.file_begin line_id current_tick =
    if task.chunk_mode then record task { begin_sent = true; begin_line_id = line_id } else task
retransmit_task task r SendKind.chunk line_id current_tick =
    if task.chunk_mode
    then record task {
      chunk_resend = (mark_chunk_sent task.chunk_resend r.chunk_index line_id current_tick).0;
    }
    else task
retransmit_task task r SendKind.file_commit line_id current_tick =
    if task.chunk_mode then record task { commit_sent = true; commit_line_id = line_id } else task

abbrev pub retransmit_active :
    StreamSendState → SendRequest → ℕ → ℕ → Option FileSendTask → StreamSendState
retransmit_active s r line_id current_tick none = s
retransmit_active s r line_id current_tick (some task) =
    if not (task.file_id == r.file_id) || not (task.seq == r.seq)
    then s
    else with_task s (retransmit_task task r r.kind line_id current_tick)

unfoldable pub mark_task_retransmitted :
    List StreamSendState → SendRequest → ℕ → ℕ → List StreamSendState
mark_task_retransmitted streams r line_id current_tick =
    at_stream r.stream_id
      (λ s. if s.complete then s else retransmit_active s r line_id current_tick (active_task s))
      streams

-- What a lost send changes of a task by chunks, by its kind; and whether it does.
abbrev pub lose_chunked : FileSendTask → LostSend → SendKind → FileSendTask × Bool
lose_chunked task lost SendKind.file_begin =
    if task.begin_sent && not task.begin_ready
    then (record task { begin_sent = false; begin_line_id = 0 }, true)
    else (task, false)
lose_chunked task lost SendKind.chunk =
    let (marks, changed) = mark_chunk_lost task.chunk_resend lost.send.chunk_index in
    (record task { chunk_resend = marks }, changed)
lose_chunked task lost SendKind.file_commit =
    if task.commit_sent
    then (record task { commit_sent = false; commit_line_id = 0 }, true)
    else (task, false)
lose_chunked task lost kind = (task, false)

-- A lost send whose message is not in the buffer.
unfoldable pub lose_unbuffered : StreamSendState → FileSendTask → LostSend → StreamSendState × Bool
lose_unbuffered s task lost =
    let (lost_task, changed) = lose_chunked task lost lost.send.kind in
    if not task.chunk_mode
    then (if append_lost_matches task.append lost
        then (
          with_task (record s { manifest_applied = false })
              (record task { append = reset_append_inflight task.append }),
          true,
        )
        else (s, false))
    else (if lost.send.seq == task.seq then (with_task s lost_task, changed) else (s, false))

-- The buffer and the streams, and whether there is new work.
pub record Lost : Type 0 where
  pub buffer : SendBuffer
  pub stream : StreamSendState
  pub changed : Bool

abbrev pub lose_task : SendBuffer → StreamSendState → LostSend → Option FileSendTask → Lost
lose_task b s lost none = record { buffer = b; stream = s; changed = false }
lose_task b s lost (some task) =
    let (queue, queued) = enqueue_retransmit b (key_for_lost_send lost) in
    let (stream, changed) = lose_unbuffered s task lost in
    if not (task.file_id == lost.send.file_id)
    then record { buffer = b; stream = s; changed = false }
    else (if queued
        then record { buffer = queue; stream = s; changed = true }
        else record { buffer = queue; stream = stream; changed = changed })

unfoldable pub lose_of_stream : SendBuffer → StreamSendState → LostSend → Lost
lose_of_stream b s lost =
    if s.complete
    then record { buffer = b; stream = s; changed = false }
    else lose_task b s lost (active_task s)

-- One round of the loop of `on_lost_sends`: the first stream with the id of the lost send.
unfoldable pub on_lost_send :
    SendBuffer → List StreamSendState → LostSend → SendBuffer × List StreamSendState × Bool
on_lost_send b [] lost = (b, [], false)
on_lost_send b (s ∷ ss) lost =
    let (b2, rest, changed) = on_lost_send b ss lost in
    let r = lose_of_stream b s lost in
    if s.stream_id == lost.send.stream_id
    then (r.buffer, r.stream ∷ ss, r.changed)
    else (b2, s ∷ rest, changed)

-- The third component tells whether work is scheduled.
unfoldable pub on_lost_sends :
    SendBuffer → List StreamSendState → List LostSend → SendBuffer × List StreamSendState × Bool
on_lost_sends b streams [] = (b, streams, false)
on_lost_sends b streams (lost ∷ more) =
    let (b2, next, changed) = on_lost_send b streams lost in
    let (b3, last, later) = on_lost_sends b2 next more in (b3, last, changed || later)

-- The acknowledgements of a heartbeat.
pub record Acknowledged : Type 0 where
  pub buffer : SendBuffer
  pub task : FileSendTask
  pub rto : RtoEstimator

abbrev pub observed : RtoEstimator → Option AckedSendSample → RtoEstimator
observed rto none = rto
observed rto (some sample) = observe_ack_sample rto sample.rtt_ticks

unfoldable pub acknowledge_begin : Acknowledged → Heartbeat → ℕ → Acknowledged
acknowledge_begin a hb current_tick =
    let (b, sample) =
      erase_file_begin a.buffer a.task.stream_id a.task.file_id a.task.seq current_tick in
    if a.task.begin_sent
      && not a.task.begin_ready
      && hb.file_id == a.task.file_id
      && is_empty hb.received_chunks
    then record {
      buffer = b;
      task = record a.task { begin_ready = true };
      rto = observed a.rto sample;
    }
    else a

unfoldable pub acknowledge_chunks : Acknowledged → ℕ → ℕ → List ReceivedChunk → Acknowledged
acknowledge_chunks a stream_id current_tick [] = a
acknowledge_chunks a stream_id current_tick (r ∷ rs) =
    let (marks, known) = acknowledge_chunk a.task.chunk_resend r.chunk_index in
    let (b, sample) = erase_chunk a.buffer r stream_id current_tick in
    acknowledge_chunks
      (if r.seq == a.task.seq && r.file_id == a.task.file_id && known
        then record {
          buffer = b;
          task = record a.task { chunk_resend = marks };
          rto = observed a.rto sample;
        }
        else a)
      stream_id current_tick rs

-- The branch of `on_heartbeat` for a task by chunks; and whether it completes the file.
unfoldable pub on_chunk_heartbeat : Acknowledged → Heartbeat → ℕ → Acknowledged × Bool
on_chunk_heartbeat a hb current_tick =
    let a1 = acknowledge_begin a hb current_tick in
    let a2 = acknowledge_chunks a1 hb.stream_id current_tick hb.received_chunks in
    let (marks, applied) =
      apply_missing_hints a2.task.chunk_resend a2.task.seq a2.task.file_id hb.missing_ranges in
    let task = record a2.task { chunk_resend = marks } in
    (record a2 { task = task }, task.commit_sent && ltb task.seq hb.next_seq)

unfoldable pub reset_task_for_manifest_recovery : FileSendTask → FileSendTask
reset_task_for_manifest_recovery task = record task {
  chunk_mode = task.preferred_chunk_mode;
  begin_sent = false;
  begin_ready = false;
  commit_sent = false;
  begin_line_id = 0;
  commit_line_id = 0;
  append = reset_append_state;
  chunk_resend = reset_chunk_resend_state task.chunk_resend;
}

abbrev pub reset_stream : StreamSendState → StreamSendState
reset_stream s = record s {
  manifest_applied = false;
  complete = false;
  has_pending_changes = ltb 0 (length s.tasks);
  current_task = min s.current_task (length s.tasks);
  tasks = map reset_task_for_manifest_recovery s.tasks;
}

-- What `recover_with_manifest1` changes: the streams, the buffer and the attempts, if there are
-- attempts left; else the sender fails.
pub record Recovery : Type 0 where
  pub buffer : SendBuffer
  pub streams : List StreamSendState
  pub attempts : ℕ
  pub failed : Bool
  pub done : Bool

-- The second component tells whether the manifest is sent.
unfoldable pub recover_with_manifest1 : Recovery → ℕ → Recovery × Bool
recover_with_manifest1 r max_attempts =
    if r.failed
    then (r, false)
    else (if leb max_attempts r.attempts then (record r { failed = true }, false) else (
      record {
        buffer = clear;
        streams = map reset_stream r.streams;
        attempts = r.attempts + 1;
        failed = false;
        done = false;
      },
      true,
    ))
