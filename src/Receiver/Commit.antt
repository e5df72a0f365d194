-- ===== src/Receiver/Commit.antt =====
-- The commit of a chunked file, and the ranges that are missing: the other methods of
-- `T_ChunkedReceiverStream` in src/receiver/yisync_receiver.cpp.
use yisync.Common.{
  ℕ, zero, suc, ◌+◌, ◌-◌, ◌%◌, List, [], ◌∷◌, Option, none, some, Bool, true, false, not, ◌&&◌, ltb,
  ◌==◌, if◌then◌else◌, max, get_or, Result, ok, err, u64_mod,
}
use yisync.Protocol.Codes.{ChecksumAlgo, NackReason}
use yisync.Protocol.Message.{Bytes, FileChecksum, FileCommit, MissingChunkRange, ManifestEntry}
use yisync.Receiver.Files.{
  FinalPath, legacy, Disk, ActiveFile, Stream, Refusal, nack, find_active, update_active,
  erase_active,
}

-- `content` is what the file at `temp_path` holds.
pub record ChunkCommitTask : Type 0 where
  pub content : Bytes
  pub final_path : FinalPath
  pub stream_id : ℕ
  pub seq : ℕ
  pub file_id : ℕ
  pub final_size : ℕ
  pub file_checksum : FileChecksum

-- `T_ChunkCommitTask{}`.
abbrev pub no_task : ChunkCommitTask
no_task = record {
  content = [];
  final_path = legacy 0;
  stream_id = 0;
  seq = 0;
  file_id = 0;
  final_size = 0;
  file_checksum = record { algo = ChecksumAlgo.none; offset = 0; len = 0; value = [] };
}

abbrev pub make_commit_task : Stream → ActiveFile → ChunkCommitTask
make_commit_task s f = record {
  content = f.temp;
  final_path = f.final_path;
  stream_id = s.stream_id;
  seq = f.seq;
  file_id = f.file_id;
  final_size = f.final_size;
  file_checksum = f.file_checksum;
}

abbrev pub refuse_commit :
    Stream → FileCommit → NackReason → Stream × Option Refusal × ChunkCommitTask
refuse_commit s commit reason =
    (s, some (nack s commit.stream_id commit.seq commit.file_id 0 reason), no_task)

abbrev pub pending : ActiveFile → ActiveFile
pending f = record f { commit_pending = true }

unfoldable pub prepare_active :
    Disk → Stream → FileCommit → Option ActiveFile → Stream × Option Refusal × ChunkCommitTask
prepare_active disk s commit none = refuse_commit s commit NackReason.bad_commit
prepare_active disk s commit (some f) =
    if not (commit.file_id == f.file_id)
    then refuse_commit s commit NackReason.bad_file_order
    else (if f.commit_pending
        then refuse_commit s commit NackReason.bad_commit
        else (if not (f.received_count == f.chunk_count)
            then refuse_commit s commit NackReason.bad_commit
            else (if disk.exists f.final_path
                then refuse_commit s commit NackReason.file_exists
                else (
                  record s { active = update_active commit.seq (pending f) s.active },
                  none,
                  make_commit_task s f,
                ))))

-- The new state, the refusal, and the task that is filled in.
unfoldable pub prepare_commit :
    Disk → Stream → FileCommit → Stream × Option Refusal × ChunkCommitTask
prepare_commit disk s commit =
    if not (commit.stream_id == s.stream_id)
    then refuse_commit s commit NackReason.bad_session
    else (if ltb commit.seq s.expected_seq
        then (s, none, no_task)
        else (if ltb s.expected_seq commit.seq
            then refuse_commit s commit NackReason.bad_seq
            else prepare_active disk s commit (find_active commit.seq s.active)))

abbrev pub abort_active : Stream → ℕ → Option ActiveFile → Stream
abort_active s seq none = s
abort_active s seq (some f) = record s {
  active = update_active seq (record f { commit_pending = false }) s.active;
}

unfoldable pub abort_commit : Stream → ℕ → Stream
abort_commit s seq = abort_active s seq (find_active seq s.active)

pub record ChunkCommitResult : Type 0 where
  pub stream_id : ℕ
  pub seq : ℕ
  pub file_id : ℕ
  pub final_size : ℕ
  pub final_path : FinalPath

-- The exceptions of a commit.
pub data Failure : Type 0 where
  stream_mismatch inactive_file file_mismatch : Failure
  checksum_mismatch sync_failed already_exists parent_failed rename_failed : Failure

abbrev pub finish_active : Stream → ChunkCommitResult → Option ActiveFile → Result Failure Stream
finish_active s result none = err inactive_file
finish_active s result (some f) =
    if not (result.file_id == f.file_id)
    then err file_mismatch
    else ok (record s {
      current_file_id = f.file_id;
      current_offset = f.final_size;
      expected_seq = max s.expected_seq ((f.seq + 1) % u64_mod);
      active = erase_active result.seq s.active;
    })

unfoldable pub finish_commit : Stream → ChunkCommitResult → Result Failure Stream
finish_commit s result =
    if not (result.stream_id == s.stream_id)
    then err stream_mismatch
    else finish_active s result (find_active result.seq s.active)

-- What the calls of `write_commit_task` on the file system return, in their order.
pub record CommitDisk : Type 0 where
  pub checksum_matches : FileChecksum → Bytes → Bool
  pub syncs_temp : Bool
  pub final_exists : FinalPath → Bool
  pub makes_parent : Bool
  pub renames : Bool
  pub syncs_final : Bool

unfoldable pub write_commit_task : CommitDisk → ChunkCommitTask → Result Failure ChunkCommitResult
write_commit_task disk task =
    if not (disk.checksum_matches task.file_checksum task.content)
    then err checksum_mismatch
    else (if not disk.syncs_temp
        then err sync_failed
        else (if disk.final_exists task.final_path
            then err already_exists
            else (if not disk.makes_parent
                then err parent_failed
                else (if not disk.renames
                    then err rename_failed
                    else (if not disk.syncs_final
                        then err sync_failed
                        else ok (record {
                          stream_id = task.stream_id;
                          seq = task.seq;
                          file_id = task.file_id;
                          final_size = task.final_size;
                          final_path = task.final_path;
                        }))))))

abbrev pub finish_written : Stream → Result Failure ChunkCommitResult → Result Failure Stream
finish_written s (ok result) = finish_commit s result
finish_written s (err e) = err e

abbrev pub or_abort : Stream → FileCommit → Result Failure Stream → Stream × Option Refusal
or_abort s commit (ok s') = (s', none)
or_abort s commit (err e) =
    let s1 = abort_commit s commit.seq in
    (s1, some (nack s1 commit.stream_id commit.seq commit.file_id 0 NackReason.io_error))

abbrev pub after_prepare :
    CommitDisk → FileCommit → Stream × Option Refusal × ChunkCommitTask → Stream × Option Refusal
after_prepare disk commit (s, some refusal, task) = (s, some refusal)
after_prepare disk commit (s, none, task) =
    if task.seq == 0
    then (s, none)
    else or_abort s commit (finish_written s (write_commit_task disk task))

unfoldable pub apply_file_commit : Disk → CommitDisk → Stream → FileCommit → Stream × Option Refusal
apply_file_commit disk commit_disk s commit =
    after_prepare commit_disk commit (prepare_commit disk s commit)

-- `refresh_committed_from_disk`, with the last entry of the manifest that the scan returns.
unfoldable pub refresh_committed_from_disk : Stream → Option ManifestEntry → Stream
refresh_committed_from_disk s none = record s { current_file_id = 0; current_offset = 0 }
refresh_committed_from_disk s (some latest) = record s {
  current_file_id = latest.file_id;
  current_offset = latest.size;
  expected_seq = max s.expected_seq ((latest.seq + 1) % u64_mod);
}

-- The first loop of `missing_ranges`: `n` indices from `index` on, and the highest received so far.
unfoldable pub highest_received : List Bool → ℕ → ℕ → Option ℕ → Option ℕ
highest_received received zero index best = best
highest_received received (suc n) index best =
    highest_received received n (index + 1)
      (if get_or received index false then some index else best)

-- The inner loop: the first index that is received, of the `n` from `index` on, or the end.
unfoldable pub end_of_gap : List Bool → ℕ → ℕ → ℕ
end_of_gap received zero index = index
end_of_gap received (suc n) index =
    let rest = end_of_gap received n (index + 1) in
    if get_or received index false then index else rest

-- The second loop, on fuel, with `room` for more ranges below `max_ranges`.
unfoldable pub gaps : ActiveFile → ℕ → ℕ → ℕ → ℕ → List MissingChunkRange
gaps f highest zero index room = []
gaps f highest (suc fuel) index room =
    let last = end_of_gap f.received (highest - index) index in
    let skipped = gaps f highest fuel (index + 1) room in
    let rest = gaps f highest fuel last (room - 1) in
    if ltb index highest && ltb 0 room
    then (if get_or f.received index false
        then skipped
        else record {
          seq = f.seq;
          file_id = f.file_id;
          first_chunk_index = index;
          last_chunk_index = last - 1;
        }
          ∷ rest)
    else []

-- Each round passes an index below the highest, so as many rounds are enough.
abbrev pub ranges_below : ActiveFile → ℕ → Option ℕ → List MissingChunkRange
ranges_below f room none = []
ranges_below f room (some highest) = gaps f highest highest 0 room

abbrev pub ranges_of : ℕ → Option ActiveFile → List MissingChunkRange
ranges_of max_ranges none = []
ranges_of max_ranges (some f) =
    ranges_below f max_ranges (highest_received f.received f.chunk_count 0 none)

unfoldable pub missing_ranges : Stream → ℕ → ℕ → List MissingChunkRange
missing_ranges s seq max_ranges =
    if max_ranges == 0 then [] else ranges_of max_ranges (find_active seq s.active)
