-- ===== src/Receiver/Coordinator.antt =====
-- src/receiver/yisync_receiver_coordinator.cpp: the handlers of the messages, what they answer, and the
-- jobs that they give to the disk writer.
pub mod Commits
pub mod Jobs
pub mod Examples
use yisync.Common.{
  ℕ, ◌+◌, List, [], ◌∷◌, ◌++◌, Option, none, some, Bool, true, false, not, ◌&&◌, ◌||◌, ltb, leb,
  ◌==◌, if◌then◌else◌, max, Result, ok, err,
}
use yisync.Protocol.Codes.{NackReason}
use yisync.Protocol.Message.{
  Heartbeat, Create, Data, FileBegin, Chunk, FileCommit, MissingChunkRange, ReceivedChunk,
  ManifestEntry,
}
use yisync.Receiver.Files.{Stream, Refusal, FinalPath}
use yisync.Receiver.Chunked.{apply_file_begin, apply_chunk}
use yisync.Receiver.Commit.{
  ChunkCommitTask, CommitDisk, Failure, checksum_mismatch, already_exists, prepare_commit,
  abort_commit, finish_commit, write_commit_task, missing_ranges,
}
use yisync.Receiver.Commit
use yisync.Receiver.Append.{TreePath, AppendStream, apply_create, apply_data}
use yisync.Receiver.Append
use yisync.Receiver.DiskWriter.{DiskWriter, enqueue, work, Worker, running}
use yisync.Receiver.Context.{
  Env, Context, context_for, put_context, append_receiver_for, chunk_receiver_for,
}

-- A task of the disk writer: the `fsync` of a file for an offset, or the commit of a file.
pub data Job : Type 0 where
  fsync_append : ℕ → TreePath → ℕ → Job
  commit_chunk : ℕ → ℕ → ChunkCommitTask → Job

pub record HeartbeatAction : Type 0 where
  pub line_id : ℕ
  pub heartbeat : Heartbeat
  pub flush : Bool
  pub only_if_line_open : Bool

pub record NackAction : Type 0 where
  pub line_id : ℕ
  pub nack : Refusal
  pub only_if_line_open : Bool

-- Without the texts for the log.
pub record ActionBatch : Type 0 where
  pub heartbeats : List HeartbeatAction
  pub nacks : List NackAction
  pub schedule_quiet_stop : Bool
  pub schedule_commit_poll : Bool
  pub failed : Bool

abbrev pub no_actions : ActionBatch
no_actions = record {
  heartbeats = [];
  nacks = [];
  schedule_quiet_stop = false;
  schedule_commit_poll = false;
  failed = false;
}

-- `next_completion` numbers the completions that are made.
pub record Coordinator : Type 0 where
  pub contexts : List Context
  pub writer : DiskWriter Job
  pub recv_window_bytes : ℕ
  pub max_missing_ranges_per_heartbeat : ℕ
  pub next_completion : ℕ

abbrev pub with_context : Coordinator → Context → Coordinator
with_context c ctx = record c { contexts = put_context ctx c.contexts }

abbrev pub nacks_with : ℕ → Refusal → ActionBatch
nacks_with line_id refusal = record no_actions {
  nacks = record { line_id = line_id; nack = refusal; only_if_line_open = false } ∷ [];
}

abbrev pub path_or : Option TreePath → Option TreePath → Option TreePath
path_or none other = other
path_or (some path) other = some path

abbrev pub refreshed : Option Stream → Option ManifestEntry → Option Stream
refreshed none latest = none
refreshed (some s) latest = some (Commit.refresh_committed_from_disk s latest)

-- For another file than before, what is known to be durable starts anew.
unfoldable pub reset_append_durable_context : Context → ℕ → Option TreePath → ℕ → Context
reset_append_durable_context ctx file_id path durable_offset =
    if ctx.append_durable_file_id == file_id
    then record ctx { append_durable_path = path_or path ctx.append_durable_path }
    else record ctx {
      append_durable_file_id = file_id;
      append_durable_path = path;
      append_durable_offset = durable_offset;
      append_durable_target = durable_offset;
      append_fsync_active_target = 0;
      append_fsync_queued = false;
      append_fsync_completed = durable_offset;
      append_fsync_failed = false;
    }

abbrev pub fsync_enqueued : Context → ℕ → DiskWriter Job × Bool → Context × DiskWriter Job
fsync_enqueued ctx target (w, true) =
    (record ctx { append_fsync_queued = true; append_fsync_active_target = target }, w)
fsync_enqueued ctx target (w, false) = (ctx, w)

abbrev pub enqueue_fsync : Context → DiskWriter Job → Option TreePath → Context × DiskWriter Job
enqueue_fsync ctx w none = (ctx, w)
enqueue_fsync ctx w (some path) =
    let target = ctx.append_durable_target in
    fsync_enqueued (record ctx { append_fsync_failed = false }) target
      (enqueue w (fsync_append ctx.stream_id path target))

abbrev pub with_target : Context → ℕ → Context
with_target ctx target = record ctx { append_durable_target = max ctx.append_durable_target target }

unfoldable pub maybe_enqueue_append_fsync : Context → DiskWriter Job → ℕ → Context × DiskWriter Job
maybe_enqueue_append_fsync ctx w target =
    if leb target ctx.append_durable_offset
    then (ctx, w)
    else (if ctx.append_fsync_queued
        then (with_target ctx target, w)
        else enqueue_fsync (with_target ctx target) w ctx.append_durable_path)

abbrev pub refresh_chunk : Env → Context → Context
refresh_chunk env ctx = record ctx { chunk = refreshed ctx.chunk env.refreshed }

abbrev pub heartbeat_action : ℕ → Heartbeat → Bool → HeartbeatAction
heartbeat_action line_id heartbeat flush = record {
  line_id = line_id;
  heartbeat = heartbeat;
  flush = flush;
  only_if_line_open = false;
}

-- The entry is created, or refused; the receiver's new state is kept in any case.
abbrev pub create_result :
    Env
    → Coordinator
    → Context
    → ℕ
    → Create
    → AppendStream × Option Refusal
    → Coordinator × ActionBatch
create_result env c ctx line_id create (s, some refusal) =
    (with_context c (record ctx { append = some s }), nacks_with line_id refusal)
create_result env c ctx line_id create (s, none) =
    let reset =
      reset_append_durable_context (record ctx { append = some s }) create.file_id s.current_path
        0 in
    (
      with_context c (refresh_chunk env reset),
      record no_actions {
        heartbeats =
            heartbeat_action line_id (Append.heartbeat s c.recv_window_bytes s.current_offset) true
            ∷ [];
        schedule_quiet_stop = true;
      },
    )

-- `apply_create` of the coordinator.
unfoldable pub on_create : Env → Coordinator → ℕ → Create → Coordinator × ActionBatch
on_create env c line_id create =
    let ctx = context_for create.stream_id c.contexts in
    create_result env c ctx line_id create
      (apply_create env.answers (append_receiver_for env ctx) create)

abbrev pub data_answered :
    Env → Coordinator → ℕ → AppendStream → Context × DiskWriter Job → Coordinator × ActionBatch
data_answered env c line_id s (ctx, w) = (
  with_context (record c { writer = w }) (refresh_chunk env ctx),
  record no_actions {
    heartbeats =
        heartbeat_action line_id (Append.heartbeat s c.recv_window_bytes ctx.append_durable_offset)
          false
        ∷ [];
    schedule_quiet_stop = true;
  },
)

abbrev pub data_result :
    Env
    → Coordinator
    → Context
    → ℕ
    → Data
    → AppendStream × Option Refusal
    → Coordinator × ActionBatch
data_result env c ctx line_id m (s, some refusal) =
    (with_context c (record ctx { append = some s }), nacks_with line_id refusal)
data_result env c ctx line_id m (s, none) = data_answered env c line_id s (
    maybe_enqueue_append_fsync
      (reset_append_durable_context
        (record ctx { append = some s; append_heartbeat_line_id = line_id }) m.file_id
        s.current_path m.offset)
      c.writer s.current_offset)

unfoldable pub on_data : Env → Coordinator → ℕ → Data → Coordinator × ActionBatch
on_data env c line_id m =
    let ctx = context_for m.stream_id c.contexts in
    data_result env c ctx line_id m (apply_data env.answers (append_receiver_for env ctx) m)

abbrev pub chunk_heartbeat :
    Coordinator → ℕ → ℕ → ℕ → ℕ → List ReceivedChunk → List MissingChunkRange → Heartbeat
chunk_heartbeat c stream_id next_seq file_id size received missing = record {
  stream_id = stream_id;
  next_seq = next_seq;
  file_id = file_id;
  offset = size;
  durable_offset = size;
  recv_window_bytes = c.recv_window_bytes;
  received_chunks = received;
  missing_ranges = missing;
}

abbrev pub begin_result :
    Coordinator → Context → ℕ → FileBegin → Stream × Option Refusal → Coordinator × ActionBatch
begin_result c ctx line_id begin (s, some refusal) =
    (with_context c (record ctx { chunk = some s }), nacks_with line_id refusal)
begin_result c ctx line_id begin (s, none) = (
  with_context c (record ctx { chunk = some s }),
  record no_actions {
    heartbeats =
        heartbeat_action line_id
          (chunk_heartbeat c begin.stream_id s.expected_seq begin.file_id 0 [] []) true
        ∷ [];
  },
)

unfoldable pub on_begin : Env → Coordinator → ℕ → FileBegin → Coordinator × ActionBatch
on_begin env c line_id begin =
    let ctx = context_for begin.stream_id c.contexts in
    begin_result c ctx line_id begin (apply_file_begin env.disk (chunk_receiver_for env ctx) begin)

abbrev pub chunk_result :
    Coordinator → Context → ℕ → Chunk → Stream × Option Refusal → Coordinator × ActionBatch
chunk_result c ctx line_id chunk (s, some refusal) =
    (with_context c (record ctx { chunk = some s }), nacks_with line_id refusal)
chunk_result c ctx line_id chunk (s, none) = (
  with_context c (record ctx { chunk = some s }),
  record no_actions {
    heartbeats =
        heartbeat_action line_id
          (chunk_heartbeat c chunk.stream_id s.expected_seq chunk.file_id 0
            (record { seq = chunk.seq; file_id = chunk.file_id; chunk_index = chunk.chunk_index }
              ∷ [])
            (missing_ranges s chunk.seq c.max_missing_ranges_per_heartbeat))
          false
        ∷ [];
  },
)

unfoldable pub on_chunk : Env → Coordinator → ℕ → Chunk → Coordinator × ActionBatch
on_chunk env c line_id chunk =
    let ctx = context_for chunk.stream_id c.contexts in
    chunk_result c ctx line_id chunk (apply_chunk env.disk (chunk_receiver_for env ctx) chunk)
