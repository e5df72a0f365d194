-- ===== src/Sync.antt =====
-- src/core/yisync_sync.cpp: manifests of two sides compared, and the chunking of a file.
pub mod Diff
pub mod Chunks
pub mod FileNames
pub mod Checksums
pub mod Examples
use yisync.Common.{
  ℕ, suc, ◌+◌, ◌-◌, ◌*◌, ◌/◌, ◌%◌, List, [], ◌∷◌, Option, none, some, Bool, true, false, ◌&&◌, not,
  ltb, ◌==◌, if◌then◌else◌, Result, ok, err, u64_mod,
}
use yisync.Protocol.Codes.{
  EntryKind, ChecksumAlgo, Manifest2Action, entry_kind_enum, checksum_algo_enum,
}
use yisync.Protocol.Codes
use yisync.Protocol.Message.{Bytes, FileChecksum, ManifestEntry, Manifest2Stream}

pub data StartAction : Type 0 where
  resume_existing create_missing : StartAction

pub record SyncStart : Type 0 where
  pub stream_id : ℕ
  pub start_file_id : ℕ
  pub start_offset : ℕ
  pub start_action : StartAction

-- The exceptions that `diff_stream` throws for an entry, and that of `chunk_count_for_size`.
pub data Conflict : Type 0 where
  identity_conflict content_conflict receiver_larger checksum_conflict : Conflict
  chunk_size_zero : Conflict

-- Equality of byte strings.
unfoldable pub bytes_equal : Bytes → Bytes → Bool
bytes_equal [] [] = true
bytes_equal (x ∷ xs) (y ∷ ys) = x == y && bytes_equal xs ys
bytes_equal xs ys = false

-- Enumerators are compared by their values.
abbrev pub same_kind : EntryKind → EntryKind → Bool
same_kind a b = Codes.to_u8 a == Codes.to_u8 b

abbrev pub same_algo : ChecksumAlgo → ChecksumAlgo → Bool
same_algo a b = Codes.to_u8 a == Codes.to_u8 b

unfoldable pub checksums_equal : FileChecksum → FileChecksum → Bool
checksums_equal a b =
    same_algo a.algo b.algo && a.offset == b.offset && a.len == b.len && bytes_equal a.value b.value

unfoldable pub manifest_entries_same_identity : ManifestEntry → ManifestEntry → Bool
manifest_entries_same_identity a b =
    a.file_id == b.file_id && same_kind a.kind b.kind && bytes_equal a.name b.name

abbrev pub same_content_of : EntryKind → ManifestEntry → ManifestEntry → Bool
same_content_of EntryKind.directory sender receiver = true
same_content_of EntryKind.symlink sender receiver =
    bytes_equal sender.link_target receiver.link_target
same_content_of kind sender receiver =
    sender.size == receiver.size && checksums_equal sender.checksum receiver.checksum

unfoldable pub manifest_entries_same_content : ManifestEntry → ManifestEntry → Bool
manifest_entries_same_content sender receiver =
    if same_kind sender.kind receiver.kind
    then same_content_of sender.kind sender receiver
    else false

-- What one round of the loop of `diff_stream` does with a pair of entries: go on, return, or throw.
pub data Round : Type 0 where
  next : Round
  start : SyncStart → Round
  throws : Conflict → Round

abbrev pub is_directory_or_symlink : EntryKind → Bool
is_directory_or_symlink EntryKind.directory = true
is_directory_or_symlink EntryKind.symlink = true
is_directory_or_symlink kind = false

unfoldable pub compare_files : ℕ → ManifestEntry → ManifestEntry → Round
compare_files stream_id sender receiver =
    if ltb sender.size receiver.size
    then throws receiver_larger
    else (if ltb receiver.size sender.size
        then start (record {
          stream_id = stream_id;
          start_file_id = sender.file_id;
          start_offset = receiver.size;
          start_action = StartAction.resume_existing;
        })
        else (if checksums_equal sender.checksum receiver.checksum
            then next
            else throws checksum_conflict))

unfoldable pub compare_entries : ℕ → ManifestEntry → ManifestEntry → Round
compare_entries stream_id sender receiver =
    if manifest_entries_same_identity sender receiver
    then (if is_directory_or_symlink sender.kind
        then (if manifest_entries_same_content sender receiver
            then next
            else throws content_conflict)
        else compare_files stream_id sender receiver)
    else throws identity_conflict

abbrev pub after_round :
    Round → Result Conflict (Option SyncStart) → Result Conflict (Option SyncStart)
after_round next rest = rest
after_round (start s) rest = ok (some s)
after_round (throws c) rest = err c

-- The lists are what the two indices have not passed.
unfoldable pub diff_stream :
    ℕ → List ManifestEntry → List ManifestEntry → Result Conflict (Option SyncStart)
diff_stream stream_id [] receiver = ok none
diff_stream stream_id (sender ∷ senders) [] = ok (
    some (record {
      stream_id = stream_id;
      start_file_id = sender.file_id;
      start_offset = 0;
      start_action = StartAction.create_missing;
    }))
diff_stream stream_id (sender ∷ senders) (receiver ∷ receivers) =
    let rest = diff_stream stream_id senders receivers in
    after_round (compare_entries stream_id sender receiver) rest

abbrev pub action_of : StartAction → Manifest2Action
action_of StartAction.resume_existing = Manifest2Action.resume_existing
action_of StartAction.create_missing = Manifest2Action.create_missing

unfoldable pub make_manifest2_stream : ℕ → Option SyncStart → Manifest2Stream
make_manifest2_stream stream_id none = record {
  stream_id = stream_id;
  action = Manifest2Action.in_sync;
  start_file_id = 0;
  start_offset = 0;
}
make_manifest2_stream stream_id (some s) = record {
  stream_id = stream_id;
  action = action_of s.start_action;
  start_file_id = s.start_file_id;
  start_offset = s.start_offset;
}

abbrev pub chunk_mode_threshold_bytes : ℕ
chunk_mode_threshold_bytes = 64 * 1024

abbrev pub should_use_chunk_mode : ℕ → Bool
should_use_chunk_mode file_size = ltb chunk_mode_threshold_bytes file_size

-- The sum is that of `uint64_t`; `chunk_size` is not 0, so the difference does not go below 0 unless
-- the sum has wrapped to 0.
unfoldable pub chunk_count_for_size : ℕ → ℕ → Result Conflict ℕ
chunk_count_for_size file_size chunk_size =
    if chunk_size == 0
    then err chunk_size_zero
    else ok (
        if file_size == 0 then 0 else (file_size + chunk_size + u64_mod - 1) % u64_mod / chunk_size)
