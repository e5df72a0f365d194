-- ===== src/Sender/Plan/Examples.antt =====
-- A sender with two files, one of which the receiver has in part, and the theorems of the plan at it.
use yisync.Common.{ℕ, ◌≡◌, refl, List, [], ◌∷◌, none, some, true, false, ok, arith}
use yisync.Protocol.Codes.{EntryKind, ChecksumAlgo}
use yisync.Protocol.Message.{Bytes, ManifestEntry}
use yisync.Sync.{
  SyncStart, StartAction, diff_stream, compare_entries, compare_files,
  manifest_entries_same_identity, manifest_entries_same_content, checksums_equal, bytes_equal,
  make_manifest2_stream, chunk_count_for_size,
}
use yisync.Sender.Plan.{
  FileSendTask, StreamSendState, task_of, no_checksum, apply_manifest2_to_stream,
}
use yisync.Sender.Plan.Start.{Starts, apply_manifest2-Starts}
use yisync.Sender.Plan.Payloads.{payloads, reads, payloads-content}

abbrev entry : ℕ → ℕ → ManifestEntry
entry id size = record {
  file_id = id;
  seq = id;
  kind = EntryKind.regular_file;
  name = id ∷ [];
  link_target = [];
  size = size;
  checksum = record { algo = ChecksumAlgo.crc32c; offset = 0; len = size; value = size ∷ [] };
}

abbrev stream : StreamSendState
stream = record {
  stream_id = 9;
  source_manifest = record { stream_id = 9; root = []; entries = entry 1 10 ∷ entry 2 20 ∷ [] };
  tasks = task_of 9 (entry 1 10) no_checksum none ∷ task_of 9 (entry 2 20) no_checksum none ∷ [];
  current_task = 0;
  manifest_applied = false;
  complete = false;
  has_pending_changes = true;
}

abbrev senders : List ManifestEntry
senders = entry 1 10 ∷ entry 2 20 ∷ []

abbrev receivers : List ManifestEntry
receivers = entry 1 10 ∷ entry 2 5 ∷ []

abbrev start : SyncStart
start = record {
  stream_id = 9;
  start_file_id = 2;
  start_offset = 5;
  start_action = StartAction.resume_existing;
}

starts_second : diff_stream 9 senders receivers ≡ ok (some start)
unfolding diff_stream compare_entries compare_files manifest_entries_same_identity
    manifest_entries_same_content checksums_equal bytes_equal
starts_second = refl

apply_manifest2-Starts_example : Starts stream (some start) (
    apply_manifest2_to_stream
      (record { manifest_id = 1; streams = make_manifest2_stream 9 (some start) ∷ [] })
      stream)
apply_manifest2-Starts_example =
    apply_manifest2-Starts stream 1 senders receivers (some start) (refl, (refl, tt)) refl refl
      starts_second

abbrev content : Bytes
content = 1 ∷ 2 ∷ 3 ∷ 4 ∷ 5 ∷ []

abbrev task : FileSendTask
task = task_of 9 (entry 1 5) no_checksum (some (reads content))

three_chunks : chunk_count_for_size 5 2 ≡ ok 3
unfolding chunk_count_for_size
three_chunks = refl

payloads-content_example : payloads task 2 3 0 ≡ ok content
payloads-content_example =
    payloads-content task content 2 refl refl (omega arith) (omega arith) 3 three_chunks
