-- ===== src/Sender/Plan.antt =====
-- src/sender/yisync_sender_plan.cpp: the tasks of a stream, and where a MANIFEST2 has it start.
pub mod Start
pub mod Payloads
pub mod Examples
use yisync.Common.{
  ℕ, zero, suc, ◌+◌, ◌-◌, ◌*◌, ◌%◌, List, [], ◌∷◌, map, Option, none, some, Bool, true, false, not,
  ◌&&◌, ◌||◌, ltb, ◌==◌, if◌then◌else◌, min, length, set, get_elem?, Result, ok, err, u64_mod,
}
use yisync.Protocol.Codes.{EntryKind, ChecksumAlgo, Manifest2Action}
use yisync.Protocol.Message.{
  Bytes, FileChecksum, ManifestEntry, Manifest1, Manifest1Stream, Manifest2, Manifest2Stream,
}
use yisync.Protocol.Frame.{crc32c_bytes}
use yisync.Sync.{
  Conflict, SyncStart, StartAction, same_kind, should_use_chunk_mode, chunk_count_for_size,
}
use yisync.Sync.FileNames.{file_name_for_id}
use yisync.Sender.ChunkResend.{
  ChunkResendState, initialize_chunk_resend_state, all_chunks_acked, next_chunk_to_send,
}
use yisync.Sender.AppendState.{AppendSendState, reset_append_state}

-- `read_range` of a source reader: file, offset and length.
abbrev pub Reader : Type 0
Reader = ℕ → ℕ → ℕ → Bytes

pub record FileSendTask : Type 0 where
  pub stream_id : ℕ
  pub seq : ℕ
  pub file_id : ℕ
  pub kind : EntryKind
  pub name : Bytes
  pub link_target : Bytes
  pub source_size : ℕ
  pub source_checksum : FileChecksum
  pub range_checksum : FileChecksum
  pub reader : Option Reader
  pub chunk_mode : Bool
  pub preferred_chunk_mode : Bool
  pub chunk_count : ℕ
  pub chunk_resend : ChunkResendState
  pub begin_sent : Bool
  pub begin_ready : Bool
  pub commit_sent : Bool
  pub begin_line_id : ℕ
  pub commit_line_id : ℕ
  pub append : AppendSendState

pub record StreamSendState : Type 0 where
  pub stream_id : ℕ
  pub source_manifest : Manifest1Stream
  pub tasks : List FileSendTask
  pub current_task : ℕ
  pub manifest_applied : Bool
  pub complete : Bool
  pub has_pending_changes : Bool

pub record Manifest2ApplyResult : Type 0 where
  pub in_sync : Bool
  pub should_start_append : Bool
  pub should_start_chunk : Bool
  pub start : SyncStart

-- The exceptions.
pub data PlanError : Type 0 where
  missing_stream start_not_found no_reader : PlanError
  bad_chunks : Conflict → PlanError

abbrev pub no_checksum : FileChecksum
no_checksum = record { algo = ChecksumAlgo.none; offset = 0; len = 0; value = [] }

abbrev pub with_chunks :
    FileSendTask → Bool → List ℕ → Result Conflict ℕ → Result PlanError FileSendTask
with_chunks task chunk_mode chunk_order (ok count) = ok (record task {
  chunk_mode = chunk_mode;
  preferred_chunk_mode = chunk_mode;
  chunk_count = count;
  chunk_resend = initialize_chunk_resend_state count chunk_order;
})
with_chunks task chunk_mode chunk_order (err e) = err (bad_chunks e)

unfoldable pub initialize_file_task :
    FileSendTask → Bool → ℕ → List ℕ → Result PlanError FileSendTask
initialize_file_task task chunk_mode chunk_size chunk_order =
    with_chunks task chunk_mode chunk_order
      (if chunk_mode then chunk_count_for_size task.source_size chunk_size else ok 0)

-- A task of an entry, before its chunks.
abbrev pub task_of : ℕ → ManifestEntry → FileChecksum → Option Reader → FileSendTask
task_of stream_id entry full_checksum reader = record {
  stream_id = stream_id;
  seq = if entry.seq == 0 then entry.file_id else entry.seq;
  file_id = entry.file_id;
  kind = entry.kind;
  name = entry.name;
  link_target = entry.link_target;
  source_size = if same_kind entry.kind EntryKind.regular_file then entry.size else 0;
  source_checksum =
      if same_kind entry.kind EntryKind.regular_file then full_checksum else no_checksum;
  range_checksum = entry.checksum;
  reader = reader;
  chunk_mode = false;
  preferred_chunk_mode = false;
  chunk_count = 0;
  chunk_resend = initialize_chunk_resend_state 0 [];
  begin_sent = false;
  begin_ready = false;
  commit_sent = false;
  begin_line_id = 0;
  commit_line_id = 0;
  append = reset_append_state;
}

-- `full_checksum` is what the source directory returns for the file. The id of a source file is that
-- of its manifest entry.
unfoldable pub make_real_file_task :
    ℕ → ManifestEntry → FileChecksum → Option Reader → ℕ → List ℕ → Result PlanError FileSendTask
make_real_file_task stream_id entry full_checksum reader chunk_size chunk_order =
    let task = task_of stream_id entry full_checksum reader in
    initialize_file_task task
      (same_kind entry.kind EntryKind.regular_file && should_use_chunk_mode task.source_size)
      chunk_size chunk_order

-- `crc` is the result of the library's function on the data.
abbrev pub full_crc32c_checksum_for_bytes : Bytes → ℕ → FileChecksum
full_crc32c_checksum_for_bytes bytes crc = record {
  algo = ChecksumAlgo.crc32c;
  offset = 0;
  len = length bytes;
  value = crc32c_bytes crc;
}

unfoldable pub make_simulated_file_task :
    ℕ → ℕ → ℕ → Bytes → ℕ → Option Reader → ℕ → List ℕ → Result PlanError FileSendTask
make_simulated_file_task stream_id seq file_id data_bytes crc reader chunk_size chunk_order =
    let checksum = full_crc32c_checksum_for_bytes data_bytes crc in
    let entry : ManifestEntry = record {
      file_id = file_id;
      seq = seq;
      kind = EntryKind.regular_file;
      name = file_name_for_id file_id;
      link_target = [];
      size = length data_bytes;
      checksum = checksum;
    } in
    initialize_file_task (record (task_of stream_id entry checksum reader) { seq = seq })
      (should_use_chunk_mode (length data_bytes)) chunk_size chunk_order

unfoldable pub manifest1_from_streams : ℕ → List StreamSendState → Manifest1
manifest1_from_streams manifest_id streams = record {
  manifest_id = manifest_id;
  streams = map (λ (s : StreamSendState). s.source_manifest) streams;
}

unfoldable pub find_plan : ℕ → List Manifest2Stream → Option Manifest2Stream
find_plan stream_id [] = none
find_plan stream_id (p ∷ plans) =
    let rest = find_plan stream_id plans in if p.stream_id == stream_id then some p else rest

-- The index of the first task with an id, behind `index` others.
unfoldable pub find_task : ℕ → List FileSendTask → ℕ → Option ℕ
find_task file_id [] index = none
find_task file_id (t ∷ tasks) index =
    let rest = find_task file_id tasks (index + 1) in
    if t.file_id == file_id then some index else rest

abbrev pub active_task : StreamSendState → Option FileSendTask
active_task s = get_elem? s.tasks s.current_task

abbrev pub is_in_sync : Manifest2Action → Bool
is_in_sync Manifest2Action.in_sync = true
is_in_sync action = false

abbrev pub resumes : Manifest2Action → Bool
resumes Manifest2Action.resume_existing = true
resumes action = false

abbrev pub no_start : SyncStart
no_start = record {
  stream_id = 0;
  start_file_id = 0;
  start_offset = 0;
  start_action = StartAction.resume_existing;
}

abbrev pub already_in_sync : Manifest2ApplyResult
already_in_sync = record {
  in_sync = true;
  should_start_append = false;
  should_start_chunk = false;
  start = no_start;
}

abbrev pub Applied : Type 0
Applied = Result PlanError (StreamSendState × Option Manifest2ApplyResult)

-- A resumed file is appended to, whatever its mode was.
abbrev pub start_task : StreamSendState → Manifest2Stream → Option FileSendTask → Applied
start_task s plan none = ok (record s { complete = true }, some already_in_sync)
start_task s plan (some task) =
    let resume = resumes plan.action in
    let chunk_mode = if resume then false else task.chunk_mode in
    ok (
      record s { tasks = set s.tasks s.current_task (record task { chunk_mode = chunk_mode }) },
      some (record {
        in_sync = false;
        should_start_append = resume || not chunk_mode;
        should_start_chunk = not resume && chunk_mode;
        start = record {
          stream_id = s.stream_id;
          start_file_id = plan.start_file_id;
          start_offset = plan.start_offset;
          start_action = if resume then StartAction.resume_existing else StartAction.create_missing;
        };
      }),
    )

abbrev pub start_at : StreamSendState → Manifest2Stream → Option ℕ → Applied
start_at s plan none = err start_not_found
start_at s plan (some index) =
    let next = record s { current_task = index; manifest_applied = true } in
    start_task next plan (active_task next)

abbrev pub apply_plan : StreamSendState → Option Manifest2Stream → Applied
apply_plan s none = err missing_stream
apply_plan s (some plan) =
    if is_in_sync plan.action
    then ok (
      record s {
        current_task = length s.tasks;
        manifest_applied = true;
        complete = true;
        has_pending_changes = false;
      },
      some already_in_sync,
    )
    else start_at s plan (find_task plan.start_file_id s.tasks 0)

unfoldable pub apply_manifest2_to_stream : Manifest2 → StreamSendState → Applied
apply_manifest2_to_stream manifest2 s =
    if s.manifest_applied || s.complete
    then ok (s, none)
    else apply_plan s (find_plan s.stream_id manifest2.streams)

abbrev pub read_with : Option Reader → ℕ → ℕ → ℕ → Result PlanError Bytes
read_with none file_id offset len = err no_reader
read_with (some reader) file_id offset len = ok (reader file_id offset len)

unfoldable pub read_task_range : FileSendTask → ℕ → ℕ → Result PlanError Bytes
read_task_range task offset len = read_with task.reader task.file_id offset len

unfoldable pub read_chunk_payload : FileSendTask → ℕ → ℕ → Result PlanError Bytes
read_chunk_payload task chunk_index chunk_size =
    let offset = chunk_index * chunk_size % u64_mod in
    read_task_range task offset (min chunk_size ((task.source_size + u64_mod - offset) % u64_mod))
