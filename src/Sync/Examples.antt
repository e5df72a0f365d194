-- ===== src/Sync/Examples.antt =====
-- Comparisons of concrete manifests, and the theorems at these.
use yisync.Common.{
  ℕ, ◌+◌, ◌*◌, ◌≤◌, ◌<◌, ◌≡◌, refl, List, [], ◌∷◌, some, none, true, replicate, ◌++◌, ok, arith,
}
use yisync.Protocol.Codes.{EntryKind, ChecksumAlgo}
use yisync.Protocol.Message.{Bytes, FileChecksum, ManifestEntry}
use yisync.Protocol.Frame.{crc32c_bytes}
use yisync.Sync.FileNames.{
  suffix, from_chars, parse_file_id, file_name_for_id, parse_file_id-file_name_for_id,
}
use yisync.Sync.Checksums.{crc32c_file_range, checksum_matches, make_crc32c_range_checksum}
use yisync.Sync.Checksums.Blocks.{
  Extends, crc32c_file_range-whole, make_crc32c_range_checksum-matches,
}
use yisync.Sync.{
  StartAction, diff_stream, compare_entries, compare_files, manifest_entries_same_identity,
  manifest_entries_same_content, checksums_equal, bytes_equal, chunk_count_for_size,
}
use yisync.Sync.Diff.{Report, diff_stream-Report}
use yisync.Sync.Chunks.{chunk_count_for_size_lem, chunk_count_for_size_wraps}

abbrev file : ℕ → ℕ → ManifestEntry
file id size = record {
  file_id = id;
  seq = id;
  kind = EntryKind.regular_file;
  name = id ∷ [];
  link_target = [];
  size = size;
  checksum = record { algo = ChecksumAlgo.crc32c; offset = 0; len = size; value = size ∷ [] };
}

abbrev sender : List ManifestEntry
sender = file 1 10 ∷ file 2 20 ∷ file 3 30 ∷ []

abbrev receiver : List ManifestEntry
receiver = file 1 10 ∷ file 2 5 ∷ []

resumes_second :
    diff_stream 9001 sender receiver
    ≡ ok (
        some (record {
          stream_id = 9001;
          start_file_id = 2;
          start_offset = 5;
          start_action = StartAction.resume_existing;
        }))
unfolding diff_stream compare_entries compare_files manifest_entries_same_identity
    manifest_entries_same_content checksums_equal bytes_equal
resumes_second = refl

diff_stream-Report_example : Report 9001 sender receiver (diff_stream 9001 sender receiver)
diff_stream-Report_example = diff_stream-Report 9001 sender receiver

chunk_count_for_size_lem_example :
    (count : ℕ) × (chunk_count_for_size 70000 65536 ≡ ok count)
    × (70000 ≤ count * 65536)
    × (count * 65536 < 70000 + 65536)
chunk_count_for_size_lem_example = chunk_count_for_size_lem 70000 65536 (omega arith) (omega arith)

chunk_count_for_size_wraps_example : chunk_count_for_size 70000 18446744073709551615 ≡ ok 0
chunk_count_for_size_wraps_example =
    chunk_count_for_size_wraps 70000 18446744073709551615 (omega arith) (omega arith) (omega arith)

parse_file_id-file_name_for_id_example : parse_file_id (file_name_for_id 1024) ≡ some 1024
parse_file_id-file_name_for_id_example = parse_file_id-file_name_for_id 1024 (omega arith)

too_large : parse_file_id (replicate 20 57 ++ suffix) ≡ none
unfolding parse_file_id bytes_equal from_chars
too_large = refl

-- A checksum function: the sum of the bytes.
abbrev sum : ℕ → Bytes → ℕ
sum n [] = n
sum n (x ∷ xs) = sum (n + x) xs

sum-append : (n : ℕ) (xs ys : Bytes) → sum (sum n xs) ys ≡ sum n (xs ++ ys)
sum-append n [] ys = refl
sum-append n (x ∷ xs) ys = sum-append (n + x) xs ys

sum-Extends : Extends sum
sum-Extends = record { nothing = λ crc. refl; parts = sum-append }

crc32c_file_range-whole_example :
    crc32c_file_range sum (1 ∷ 2 ∷ 3 ∷ []) 1 2 ≡ ok (crc32c_bytes (sum 0 (2 ∷ 3 ∷ [])))
crc32c_file_range-whole_example =
    crc32c_file_range-whole sum (1 ∷ 2 ∷ 3 ∷ []) 1 2 sum-Extends (omega arith)

make_crc32c_range_checksum-matches_example :
    (checksum : FileChecksum) × (make_crc32c_range_checksum sum (1 ∷ 2 ∷ 3 ∷ []) 2 ≡ ok checksum)
    × (checksum_matches sum checksum (1 ∷ 2 ∷ 3 ∷ 4 ∷ []) ≡ ok true)
make_crc32c_range_checksum-matches_example =
    make_crc32c_range_checksum-matches sum (1 ∷ 2 ∷ 3 ∷ []) (4 ∷ []) 2 sum-Extends (omega arith)
      (omega arith)
