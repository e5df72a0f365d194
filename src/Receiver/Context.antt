-- ===== src/Receiver/Context.antt =====
-- src/receiver/yisync_receiver_streams.cpp: what the receiver keeps for each stream, and the map of
-- streams.
use yisync.Common.{
  ℕ, List, [], ◌∷◌, Option, none, some, Bool, true, false, ◌||◌, ltb, ◌==◌, if◌then◌else◌, u64_mod,
  ◌+◌, ◌%◌,
}
use yisync.Protocol.Message.{ManifestEntry}
use yisync.Receiver.Files.{Disk, Stream, FinalPath}
use yisync.Receiver.Commit.{Failure}
use yisync.Receiver.Append.{TreePath, Tree, Answers, AppendStream}
use yisync.Receiver.Append

-- What the disk answers while one call is handled; `latest` is the last entry of the stream's
-- manifest when a receiver is made, `refreshed` when one is refreshed, and `committed_size` the size that `committed_file_info` finds for an id.
pub record Env : Type 0 where
  pub answers : Answers
  pub disk : Disk
  pub tree : Tree
  pub latest : Option ManifestEntry
  pub refreshed : Option ManifestEntry
  pub committed_size : ℕ → ℕ

-- `T_ChunkCommitCompletion`, and which of those that were made it is. The error is the exception
-- whose text the code keeps.
pub record Completion : Type 0 where
  pub id : ℕ
  pub completed : Bool
  pub failed : Option Failure

pub record Context : Type 0 where
  pub stream_id : ℕ
  pub append : Option AppendStream
  pub chunk : Option Stream
  pub append_durable_file_id : ℕ
  pub append_durable_path : Option TreePath
  pub append_durable_offset : ℕ
  pub append_durable_target : ℕ
  pub append_fsync_active_target : ℕ
  pub append_heartbeat_line_id : ℕ
  pub append_fsync_queued : Bool
  pub append_fsync_completed : ℕ
  pub append_fsync_failed : Bool
  pub chunk_commit_queued : Bool
  pub chunk_commit_line_id : ℕ
  pub chunk_commit_seq : ℕ
  pub chunk_commit_file_id : ℕ
  pub chunk_commit_final_size : ℕ
  pub chunk_commit_final_path : Option FinalPath
  pub chunk_commit_completion : Option Completion

abbrev pub new_context : ℕ → Context
new_context stream_id = record {
  stream_id = stream_id;
  append = none;
  chunk = none;
  append_durable_file_id = 0;
  append_durable_path = none;
  append_durable_offset = 0;
  append_durable_target = 0;
  append_fsync_active_target = 0;
  append_heartbeat_line_id = 0;
  append_fsync_queued = false;
  append_fsync_completed = 0;
  append_fsync_failed = false;
  chunk_commit_queued = false;
  chunk_commit_line_id = 0;
  chunk_commit_seq = 0;
  chunk_commit_file_id = 0;
  chunk_commit_final_size = 0;
  chunk_commit_final_path = none;
  chunk_commit_completion = none;
}

-- The root of a stream: one that is configured, the default root, or a directory below it.
pub data Root : Type 0 where
  configured : ℕ → Root
  default_root : Root
  default_below : ℕ → Root

unfoldable pub has_root : ℕ → List ℕ → Bool
has_root stream_id [] = false
has_root stream_id (id ∷ ids) = id == stream_id || has_root stream_id ids

unfoldable pub stream_root_for : ℕ → List ℕ → ℕ → Root
stream_root_for default_stream_id roots stream_id =
    if has_root stream_id roots
    then configured stream_id
    else (if stream_id == default_stream_id then default_root else default_below stream_id)

-- `streams_.find`, or the context that is put into the map.
unfoldable pub context_for : ℕ → List Context → Context
context_for stream_id [] = new_context stream_id
context_for stream_id (c ∷ contexts) =
    let rest = context_for stream_id contexts in if c.stream_id == stream_id then c else rest

-- The map with a stream's context as it is afterwards.
unfoldable pub put_context : Context → List Context → List Context
put_context c [] = c ∷ []
put_context c (d ∷ contexts) =
    let rest = put_context c contexts in
    if d.stream_id == c.stream_id then c ∷ contexts else d ∷ rest

abbrev pub append_or : ℕ → Env → Option AppendStream → AppendStream
append_or stream_id env none = Append.make stream_id env.tree env.latest
append_or stream_id env (some s) = s

abbrev pub append_receiver_for : Env → Context → AppendStream
append_receiver_for env c = append_or c.stream_id env c.append

-- The constructor of `T_ChunkedReceiverStream`, with `restore_active_from_disk`.
abbrev pub make_chunk : ℕ → Option ManifestEntry → Stream
make_chunk stream_id none = record {
  stream_id = stream_id;
  expected_seq = 1;
  current_file_id = 0;
  current_offset = 0;
  active = [];
}
make_chunk stream_id (some latest) = record {
  stream_id = stream_id;
  expected_seq = (latest.seq + 1) % u64_mod;
  current_file_id = latest.file_id;
  current_offset = latest.size;
  active = [];
}

abbrev pub chunk_or : ℕ → Env → Option Stream → Stream
chunk_or stream_id env none = make_chunk stream_id env.latest
chunk_or stream_id env (some s) = s

abbrev pub chunk_receiver_for : Env → Context → Stream
chunk_receiver_for env c = chunk_or c.stream_id env c.chunk

unfoldable pub append_durable_idle : List Context → Bool
append_durable_idle [] = true
append_durable_idle (c ∷ contexts) =
    if c.append_fsync_queued || ltb c.append_durable_offset c.append_durable_target
    then false
    else (if c.chunk_commit_queued then false else append_durable_idle contexts)

unfoldable pub has_pending_chunk_commit : List Context → Bool
has_pending_chunk_commit [] = false
has_pending_chunk_commit (c ∷ contexts) = c.chunk_commit_queued || has_pending_chunk_commit contexts
