-- ===== src/Receiver/Coordinator/Examples.antt =====
-- A FILE_COMMIT that is queued, and an `fsync` that ends after the next file has begun, with the
-- theorems of the coordinator at these.
use yisync.Common.{◌≡◌, refl, List, [], ◌∷◌, none, some, true, false, arith}
use yisync.Protocol.Codes.{ChecksumAlgo}
use yisync.Protocol.Message.{FileCommit, FileChecksum}
use yisync.Receiver.Files.{ActiveFile, Stream, legacy, find_active, update_active}
use yisync.Receiver.Commit.{prepare_commit, prepare_active}
use yisync.Receiver.DiskWriter.{make, enqueue, increment}
use yisync.Receiver.Context.{Env, Context, new_context, context_for}
use yisync.Receiver.Coordinator.{fsync_append, Coordinator, reset_append_durable_context}
use yisync.Receiver.Coordinator.Commits.{on_commit, JobDisk, run_job, poll_append_fsync}
use yisync.Receiver.Coordinator.Jobs.{Outcome, on_commit-Outcome, stale_fsync-durable}

abbrev no_checksum : FileChecksum
no_checksum = record { algo = ChecksumAlgo.none; offset = 0; len = 0; value = [] }

abbrev env : Env
env = record {
  answers = record {
    link_size = λ target. none;
    entry_name = λ id. none;
    checksum_matches = λ checksum entry. true;
    makes_parent = true;
    creates = true;
    opens = true;
    writes = true;
    written = 0;
    crc = λ bs. 0;
  };
  disk = record {
    prev_size = λ id. none;
    prev_matches = λ checksum id. false;
    exists = λ path. false;
    creates = true;
    opens = true;
    writes = true;
    written = 0;
    crc = λ bs. 0;
  };
  tree = λ path. none;
  latest = none;
  refreshed = none;
  committed_size = λ id. 0;
}

abbrev received : ActiveFile
received = record {
  seq = 1;
  file_id = 3;
  name = [];
  final_size = 0;
  chunk_size = 1;
  chunk_count = 0;
  file_checksum = no_checksum;
  prev_file_id = 0;
  prev_final_size = 0;
  prev_checksum = no_checksum;
  temp = [];
  final_path = legacy 3;
  received = [];
  received_count = 0;
  commit_pending = false;
}

abbrev receiver : Stream
receiver = record {
  stream_id = 9;
  expected_seq = 1;
  current_file_id = 0;
  current_offset = 0;
  active = received ∷ [];
}

abbrev context : Context
context = record (new_context 9) { chunk = some receiver }

abbrev with_contexts : List Context → Coordinator
with_contexts contexts = record {
  contexts = contexts;
  writer = make;
  recv_window_bytes = 100;
  max_missing_ranges_per_heartbeat = 8;
  next_completion = 0;
}

abbrev start : Coordinator
start = with_contexts (context ∷ [])

abbrev commit : FileCommit
commit = record { stream_id = 9; seq = 1; file_id = 3 }

on_commit-Outcome_example : Outcome env start 4 commit (on_commit env start 4 commit)
on_commit-Outcome_example = on_commit-Outcome env start 4 commit

is_queued : (on_commit env start 4 commit).1.schedule_commit_poll ≡ true
unfolding on_commit context_for prepare_commit prepare_active find_active update_active enqueue
    increment
is_queued = refl

-- The writer syncs file 5 for 100 bytes when file 6 begins.
abbrev syncing : Context
syncing = record (new_context 9) {
  append_durable_file_id = 5;
  append_durable_target = 100;
  append_fsync_active_target = 100;
  append_fsync_queued = true;
}

abbrev next_file : Coordinator
next_file = with_contexts (reset_append_durable_context syncing 6 none 0 ∷ [])

abbrev works : JobDisk
works = record {
  syncs = true;
  commit_disk = record {
    checksum_matches = λ checksum content. true;
    syncs_temp = true;
    final_exists = λ path. false;
    makes_parent = true;
    renames = true;
    syncs_final = true;
  };
}

begins_next : context_for 9 next_file.contexts ≡ reset_append_durable_context syncing 6 none 0
unfolding context_for reset_append_durable_context
begins_next = refl

stale_fsync-durable_example :
    (poll_append_fsync 100
      (context_for 9 (run_job works (fsync_append 9 ((53 ∷ []) ∷ []) 100) next_file).contexts)
      make).context.append_durable_offset
    ≡ 100
stale_fsync-durable_example =
    stale_fsync-durable next_file works syncing make 100 6 100 ((53 ∷ []) ∷ []) none
      (λ e. omega (arith, e)) refl begins_next
