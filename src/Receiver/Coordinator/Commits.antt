-- ===== src/Receiver/Coordinator/Commits.antt =====
-- src/receiver/yisync_receiver_coordinator.cpp: commits, the jobs of the disk writer, and the polls for
-- what they have completed.
use yisync.Common.{
  ℕ, ◌+◌, List, [], ◌∷◌, ◌++◌, Option, none, some, Bool, true, false, not, ◌&&◌, ◌||◌, ltb, leb,
  ◌==◌, if◌then◌else◌, Result, ok, err,
}
use yisync.Protocol.Codes.{NackReason}
use yisync.Protocol.Message.{FileCommit}
use yisync.Receiver.Files.{Stream, Refusal}
use yisync.Receiver.Commit.{
  ChunkCommitTask, ChunkCommitResult, CommitDisk, Failure, checksum_mismatch, already_exists,
  prepare_commit, abort_commit, finish_commit, write_commit_task,
}
use yisync.Receiver.Append.{TreePath, AppendStream}
use yisync.Receiver.Append
use yisync.Receiver.Files.{FinalPath, legacy}
use yisync.Receiver.DiskWriter.{DiskWriter, enqueue, work, Worker, running}
use yisync.Receiver.Context.{Env, Completion, Context, context_for, chunk_receiver_for}
use yisync.Receiver.Coordinator.{
  Job, fsync_append, commit_chunk, HeartbeatAction, NackAction, ActionBatch, no_actions,
  Coordinator, with_context, nacks_with, maybe_enqueue_append_fsync, heartbeat_action,
  chunk_heartbeat,
}

unfoldable pub clear_chunk_commit : Context → Context
clear_chunk_commit ctx = record ctx {
  chunk_commit_queued = false;
  chunk_commit_line_id = 0;
  chunk_commit_seq = 0;
  chunk_commit_file_id = 0;
  chunk_commit_final_size = 0;
  chunk_commit_final_path = none;
  chunk_commit_completion = none;
}

abbrev pub expected_or : Option Stream → ℕ → ℕ
expected_or none seq = seq
expected_or (some s) seq = s.expected_seq

abbrev pub commit_nack : ℕ → ℕ → ℕ → ℕ → ℕ → NackReason → Refusal
commit_nack stream_id seq expected_seq file_id expected_file_id reason = record {
  stream_id = stream_id;
  got_seq = seq;
  expected_seq = expected_seq;
  file_id = file_id;
  offset = 0;
  expected_file_id = expected_file_id;
  expected_offset = 0;
  reason = reason;
}

-- A FILE_COMMIT while one is queued: the same again is ignored.
abbrev pub commit_while_queued : Coordinator → Context → ℕ → FileCommit → Coordinator × ActionBatch
commit_while_queued c ctx line_id commit =
    if ctx.chunk_commit_seq == commit.seq && ctx.chunk_commit_file_id == commit.file_id
    then (c, no_actions)
    else (
      c,
      nacks_with line_id (
          commit_nack commit.stream_id commit.seq (expected_or ctx.chunk commit.seq) commit.file_id
            ctx.chunk_commit_file_id NackReason.bad_commit),
    )

abbrev pub queued_context : Context → Stream → ℕ → ChunkCommitTask → ℕ → Context
queued_context ctx s line_id task completion = record ctx {
  chunk = some s;
  chunk_commit_queued = true;
  chunk_commit_line_id = line_id;
  chunk_commit_seq = task.seq;
  chunk_commit_file_id = task.file_id;
  chunk_commit_final_size = task.final_size;
  chunk_commit_final_path = some task.final_path;
  chunk_commit_completion = some (record { id = completion; completed = false; failed = none });
}

-- Where the writer's queue is full the file is as before, without a pending commit.
abbrev pub commit_enqueued :
    Coordinator
    → Context
    → Stream
    → ℕ
    → FileCommit
    → ChunkCommitTask
    → DiskWriter Job × Bool
    → Coordinator × ActionBatch
commit_enqueued c ctx s line_id commit task (w, true) = (
  with_context (record c { writer = w; next_completion = c.next_completion + 1 })
      (queued_context ctx s line_id task c.next_completion),
  record no_actions { schedule_commit_poll = true },
)
commit_enqueued c ctx s line_id commit task (w, false) = (
  with_context (record c { writer = w; next_completion = c.next_completion + 1 })
      (clear_chunk_commit (record ctx { chunk = some (abort_commit s commit.seq) })),
  nacks_with line_id (
      commit_nack commit.stream_id commit.seq (abort_commit s commit.seq).expected_seq
        commit.file_id commit.file_id NackReason.io_error),
)

abbrev pub commit_prepared :
    Env
    → Coordinator
    → Context
    → ℕ
    → FileCommit
    → Stream × Option Refusal × ChunkCommitTask
    → Coordinator × ActionBatch
commit_prepared env c ctx line_id commit (s, some refusal, task) =
    (with_context c (record ctx { chunk = some s }), nacks_with line_id refusal)
commit_prepared env c ctx line_id commit (s, none, task) =
    if task.seq == 0
    then (
      with_context c (record ctx { chunk = some s }),
      if ltb commit.seq s.expected_seq
          then record no_actions {
            heartbeats =
                heartbeat_action line_id
                  (chunk_heartbeat c commit.stream_id s.expected_seq commit.file_id
                    (env.committed_size commit.file_id) [] [])
                  true
                ∷ [];
          }
          else no_actions,
    )
    else commit_enqueued c ctx s line_id commit task
        (enqueue c.writer (commit_chunk ctx.stream_id c.next_completion task))

unfoldable pub on_commit : Env → Coordinator → ℕ → FileCommit → Coordinator × ActionBatch
on_commit env c line_id commit =
    let ctx = context_for commit.stream_id c.contexts in
    if ctx.chunk_commit_queued
    then commit_while_queued c ctx line_id commit
    else commit_prepared env c ctx line_id commit
        (prepare_commit env.disk (chunk_receiver_for env ctx) commit)

-- What the disk answers to a job.
pub record JobDisk : Type 0 where
  pub syncs : Bool
  pub commit_disk : CommitDisk

-- The completion that the job was given, if the context still has it.
abbrev pub complete_commit :
    Context → ℕ → Result Failure ChunkCommitResult → Option Completion → Context
complete_commit ctx id result none = ctx
complete_commit ctx id (ok result) (some completion) =
    if completion.id == id
    then record ctx { chunk_commit_completion = some (record completion { completed = true }) }
    else ctx
complete_commit ctx id (err e) (some completion) =
    if completion.id == id
    then record ctx { chunk_commit_completion = some (record completion { failed = some e }) }
    else ctx

-- What a job stores in the context of its stream. Its exceptions stay inside it.
unfoldable pub run_job : JobDisk → Job → Coordinator → Coordinator
run_job disk (fsync_append stream_id path target) c =
    let ctx = context_for stream_id c.contexts in
    with_context c (
      if disk.syncs
      then record ctx { append_fsync_completed = target }
      else record ctx { append_fsync_failed = true })
run_job disk (commit_chunk stream_id id task) c =
    let ctx = context_for stream_id c.contexts in
    with_context c
      (complete_commit ctx id (write_commit_task disk.commit_disk task) ctx.chunk_commit_completion)

abbrev pub run_worker : JobDisk → Coordinator → Worker Job → Coordinator
run_worker disk c (running job) = run_job disk job c
run_worker disk c place = c

-- A step of the writer's thread.
unfoldable pub worker_step : JobDisk → Coordinator → Coordinator
worker_step disk c = run_worker disk (record c { writer = work c.writer false }) c.writer.worker

abbrev pub append_heartbeats : Context → ℕ → Option AppendStream → List HeartbeatAction
append_heartbeats ctx window none = []
append_heartbeats ctx window (some s) =
    if ctx.append_heartbeat_line_id == 0
    then []
    else heartbeat_action ctx.append_heartbeat_line_id
        (Append.heartbeat s window ctx.append_durable_offset) false
      ∷ []

abbrev pub with_durable : Context → ℕ → Context
with_durable ctx completed =
    if ltb ctx.append_durable_offset completed
    then record ctx { append_durable_offset = completed }
    else ctx

abbrev pub with_idle_fsync : Context → ℕ → Context
with_idle_fsync ctx completed =
    if ctx.append_fsync_queued && leb ctx.append_fsync_active_target completed
    then record ctx { append_fsync_queued = false; append_fsync_active_target = 0 }
    else ctx

abbrev pub enqueue_rest : Context → DiskWriter Job → Context × DiskWriter Job
enqueue_rest ctx w =
    if not ctx.append_fsync_queued && ltb ctx.append_durable_offset ctx.append_durable_target
    then maybe_enqueue_append_fsync ctx w ctx.append_durable_target
    else (ctx, w)

-- The context and the writer's queue after a poll, its heartbeats, and whether it has failed.
pub record Polled : Type 0 where
  pub context : Context
  pub writer : DiskWriter Job
  pub heartbeats : List HeartbeatAction
  pub nacks : List NackAction
  pub quiet_stop : Bool
  pub failed : Bool

abbrev pub polled : Context → DiskWriter Job → Bool → Polled
polled ctx w failed = record {
  context = ctx;
  writer = w;
  heartbeats = [];
  nacks = [];
  quiet_stop = false;
  failed = failed;
}

abbrev pub polled_rest : List HeartbeatAction → Context × DiskWriter Job → Polled
polled_rest heartbeats (ctx, w) = record (polled ctx w false) { heartbeats = heartbeats }

unfoldable pub poll_append_fsync : ℕ → Context → DiskWriter Job → Polled
poll_append_fsync window ctx w =
    let completed = ctx.append_fsync_completed in
    let durable = with_durable ctx completed in
    if ctx.append_fsync_failed
    then polled ctx w true
    else polled_rest
        (if ltb ctx.append_durable_offset completed
          then append_heartbeats durable window durable.append
          else [])
        (enqueue_rest (with_idle_fsync durable completed) w)

-- `chunk_commit_error_reason` on the text of the exception.
unfoldable pub chunk_commit_error_reason : Failure → NackReason
chunk_commit_error_reason checksum_mismatch = NackReason.checksum_mismatch
chunk_commit_error_reason already_exists = NackReason.file_exists
chunk_commit_error_reason failure = NackReason.io_error

abbrev pub aborted : Option Stream → ℕ → Option Stream
aborted none seq = none
aborted (some s) seq = some (abort_commit s seq)

abbrev pub commit_failed : Context → DiskWriter Job → Failure → Polled
commit_failed ctx w failure =
    let chunk = aborted ctx.chunk ctx.chunk_commit_seq in
    record (polled (clear_chunk_commit (record ctx { chunk = chunk })) w true) {
      nacks =
          record {
            line_id = ctx.chunk_commit_line_id;
            nack =
                commit_nack ctx.stream_id ctx.chunk_commit_seq
                  (expected_or chunk ctx.chunk_commit_seq) ctx.chunk_commit_file_id
                  ctx.chunk_commit_file_id (chunk_commit_error_reason failure);
            only_if_line_open = true;
          }
          ∷ [];
    }

abbrev pub refreshed_append : Env → Option AppendStream → Option AppendStream
refreshed_append env none = none
refreshed_append env (some s) = some (Append.refresh_committed_from_disk s env.refreshed)

abbrev pub commit_finished : Env → ℕ → Context → DiskWriter Job → Result Failure Stream → Polled
commit_finished env window ctx w (err e) = polled ctx w true
commit_finished env window ctx w (ok s) =
    record (polled
      (clear_chunk_commit (record ctx { chunk = some s; append = refreshed_append env ctx.append }))
      w false) {
        heartbeats =
            record {
              line_id = ctx.chunk_commit_line_id;
              heartbeat = record {
                stream_id = ctx.stream_id;
                next_seq = s.expected_seq;
                file_id = ctx.chunk_commit_file_id;
                offset = ctx.chunk_commit_final_size;
                durable_offset = ctx.chunk_commit_final_size;
                recv_window_bytes = window;
                received_chunks = [];
                missing_ranges = [];
              };
              flush = true;
              only_if_line_open = true;
            }
            ∷ [];
        quiet_stop = true;
      }

abbrev pub path_or_empty : Option FinalPath → FinalPath
path_or_empty none = legacy 0
path_or_empty (some path) = path

abbrev pub commit_done : Env → ℕ → Context → DiskWriter Job → Option Stream → Polled
commit_done env window ctx w none = polled ctx w true
commit_done env window ctx w (some s) = commit_finished env window ctx w (
    finish_commit s (record {
      stream_id = ctx.stream_id;
      seq = ctx.chunk_commit_seq;
      file_id = ctx.chunk_commit_file_id;
      final_size = ctx.chunk_commit_final_size;
      final_path = path_or_empty ctx.chunk_commit_final_path;
    }))

abbrev pub poll_failure : Env → ℕ → Context → DiskWriter Job → Bool → Option Failure → Polled
poll_failure env window ctx w completed (some failure) = commit_failed ctx w failure
poll_failure env window ctx w completed none =
    if completed then commit_done env window ctx w ctx.chunk else polled ctx w false

abbrev pub poll_completion : Env → ℕ → Context → DiskWriter Job → Option Completion → Polled
poll_completion env window ctx w none = polled ctx w true
poll_completion env window ctx w (some completion) =
    poll_failure env window ctx w completion.completed completion.failed

unfoldable pub poll_chunk_commit : Env → ℕ → Context → DiskWriter Job → Polled
poll_chunk_commit env window ctx w =
    if ctx.chunk_commit_queued
    then poll_completion env window ctx w ctx.chunk_commit_completion
    else polled ctx w false

abbrev pub both_polls : Env → ℕ → Polled → Polled
both_polls env window first =
    let second = poll_chunk_commit env window first.context first.writer in
    if first.failed then first else record second {
      heartbeats = first.heartbeats ++ second.heartbeats;
      nacks = first.nacks ++ second.nacks;
    }

-- A pass over the contexts, which stops at the first failure.
unfoldable pub poll_contexts :
    (ℕ → Env) → ℕ → List Context → DiskWriter Job → List Context × DiskWriter Job × ActionBatch
poll_contexts env window [] w = ([], w, no_actions)
poll_contexts env window (ctx ∷ contexts) w =
    let one = both_polls (env ctx.stream_id) window (poll_append_fsync window ctx w) in
    let rest = poll_contexts env window contexts one.writer in
    if one.failed
    then (
      one.context ∷ contexts,
      one.writer,
      record no_actions { heartbeats = one.heartbeats; nacks = one.nacks; failed = true },
    )
    else (
      one.context ∷ rest.0,
      rest.1,
      record (rest.2) {
        heartbeats = one.heartbeats ++ rest.2.heartbeats;
        nacks = one.nacks ++ rest.2.nacks;
        schedule_quiet_stop = one.quiet_stop || rest.2.schedule_quiet_stop;
      },
    )

-- `env` has the answers for each stream.
unfoldable pub poll_completions : (ℕ → Env) → Coordinator → Coordinator × ActionBatch
poll_completions env c =
    let result = poll_contexts env c.recv_window_bytes c.contexts c.writer in
    (record c { contexts = result.0; writer = result.1 }, result.2)
