-- ===== src/Receiver/Examples.antt =====
-- A file of 65,537 bytes that arrives in two chunks, the second one first, and the theorems of the
-- receiver at this run.
use yisync.Common.{
  ℕ, ◌*◌, ◌≡◌, ◌≢◌, refl, ap, List, [], ◌∷◌, none, some, true, false, replicate, take, drop, arith,
  All, ◌↔◌,
}
use yisync.Protocol.Codes.{Compression, ChecksumAlgo}
use yisync.Protocol.Message.{Bytes, FileChecksum, FileBegin, Chunk, FileCommit}
use yisync.Resend.{apply_missing_hints-missing_ranges}
use yisync.Sender.ChunkResend.{ChunkResendState, initialize_chunk_resend_state, apply_missing_hints}
use yisync.Sender.ChunkResend.Invariant.{initialize-IsValid}
use yisync.Common.{get_or, ◌⊎◌, ◌<◌}
use yisync.Receiver.Accounting.{ones, AllReceived}
use yisync.Common.{zero, suc}
use yisync.Receiver.Files.{
  Disk, ActiveFile, Stream, named, find_active, update_active, final_path_for,
  is_safe_relative_name, split_name, path_parts, all_good,
}
use yisync.Receiver.Chunked.{
  apply_file_begin, apply_chunk, check_prev, check_chunk, store_chunk, raw_data_for_chunk_message,
  write_file, write_at,
}
use yisync.Receiver.Commit.{
  ChunkCommitTask, prepare_commit, prepare_active, no_task, missing_ranges,
}
use yisync.Receiver.Missing.{in_ranges, Missing, missing_ranges-Missing}
use yisync.Receiver.Events.{Event, begins, chunks, run, step}
use yisync.Receiver.Accounting.{IsCounted, TakesWhole, run-IsCounted, prepare_commit-TakesWhole}
use yisync.Receiver.Names.{Inside, final_path_for-Inside}
use yisync.Sync.{bytes_equal, chunk_count_for_size}
use yisync.Protocol.Frame.{crc32c_bytes}

abbrev source : Bytes
source = replicate 65537 7

abbrev no_checksum : FileChecksum
no_checksum = record { algo = ChecksumAlgo.none; offset = 0; len = 0; value = [] }

-- An empty directory on a disk that works; the checksum function is 0 everywhere.
abbrev disk : Disk
disk = record {
  prev_size = λ id. none;
  prev_matches = λ checksum id. false;
  exists = λ path. false;
  creates = true;
  opens = true;
  writes = true;
  written = 0;
  crc = λ bs. 0;
}

abbrev begin : FileBegin
begin = record {
  stream_id = 9;
  seq = 1;
  file_id = 3;
  name = 97 ∷ [];
  final_size = 65537;
  chunk_size = 65536;
  chunk_count = 2;
  file_checksum = no_checksum;
  prev_file_id = 0;
  prev_final_size = 0;
  prev_checksum = no_checksum;
}

abbrev chunk : ℕ → ℕ → Chunk
chunk i len = record {
  stream_id = 9;
  seq = 1;
  file_id = 3;
  chunk_index = i;
  offset = i * 65536;
  raw_len = len;
  compression = Compression.none;
  checksum_algo = ChecksumAlgo.crc32c;
  checksum = 0 ∷ 0 ∷ 0 ∷ 0 ∷ [];
  payload = take len (drop (i * 65536) source);
}

abbrev commit : FileCommit
commit = record { stream_id = 9; seq = 1; file_id = 3 }

abbrev empty : Stream
empty = record {
  stream_id = 9;
  expected_seq = 1;
  current_file_id = 0;
  current_offset = 0;
  active = [];
}

abbrev events : List Event
events = begins disk begin ∷ chunks disk (chunk 1 1) ∷ chunks disk (chunk 0 65536) ∷ []

-- Both chunks are received, so the commit is prepared.
marked : (prepare_commit disk (run empty events) commit).2.seq ≡ 1
unfolding prepare_commit prepare_active run step apply_file_begin apply_chunk check_chunk
    store_chunk raw_data_for_chunk_message write_file write_at find_active update_active
    final_path_for is_safe_relative_name split_name path_parts all_good check_prev bytes_equal
    chunk_count_for_size crc32c_bytes
marked = refl

some_task : (prepare_commit disk (run empty events) commit).2 ≢ no_task
some_task e = cc (marked, ap (λ (t : ChunkCommitTask). t.seq) e)

run-IsCounted_example : All IsCounted (run empty events).active
run-IsCounted_example = run-IsCounted empty events tt

prepare_commit-TakesWhole_example :
    TakesWhole (run empty events) commit (prepare_commit disk (run empty events) commit).2
prepare_commit-TakesWhole_example =
    prepare_commit-TakesWhole disk (run empty events) commit (run-IsCounted empty events tt)
      some_task

-- The file while only its second chunk has arrived.
abbrev half : ActiveFile
half = record {
  seq = 1;
  file_id = 3;
  name = 97 ∷ [];
  final_size = 65537;
  chunk_size = 65536;
  chunk_count = 2;
  file_checksum = no_checksum;
  prev_file_id = 0;
  prev_final_size = 0;
  prev_checksum = no_checksum;
  temp = [];
  final_path = named (97 ∷ []);
  received = false ∷ true ∷ [];
  received_count = 1;
  commit_pending = false;
}

abbrev waiting : Stream
waiting = record empty { active = half ∷ [] }

found_half : find_active 1 waiting.active ≡ some half
unfolding find_active
found_half = refl

missing_ranges-Missing_example : (in_ranges 0 (missing_ranges waiting 1 8) ≡ true) ↔ Missing half 0
missing_ranges-Missing_example = missing_ranges-Missing half 8 0 (omega arith) waiting 1 found_half

abbrev nested : Bytes
nested = 97 ∷ 47 ∷ 98 ∷ []

nested_path : final_path_for 3 nested ≡ some (named nested)
unfolding final_path_for is_safe_relative_name split_name path_parts all_good bytes_equal
nested_path = refl

final_path_for-Inside_example : (nested ≡ nested) × Inside nested
final_path_for-Inside_example = final_path_for-Inside 3 nested nested nested_path

-- Chunk 0 is hinted, so the sender gives it priority.
abbrev sending : ChunkResendState
sending = initialize_chunk_resend_state 2 []

sending_count : 0 < sending.chunk_count
unfolding initialize_chunk_resend_state
sending_count = omega arith

apply_missing_hints-missing_ranges_example :
    (get_or (apply_missing_hints sending 1 3 (missing_ranges waiting 1 8)).0.priority 0 false
      ≡ true)
    ↔ ((get_or sending.priority 0 false ≡ true)
        ⊎ (Missing half 0 × (get_or sending.acked 0 false ≡ false)))
apply_missing_hints-missing_ranges_example =
    apply_missing_hints-missing_ranges waiting 1 8 0 half sending found_half (omega arith)
      (initialize-IsValid 2 []) sending_count

-- The file with both chunks.
abbrev whole : ActiveFile
whole = record half { received = true ∷ true ∷ []; received_count = 2 }

abbrev ready : Stream
ready = record empty { active = whole ∷ [] }

whole-IsCounted : IsCounted whole
unfolding ones
whole-IsCounted = record { marks = refl; counter = refl; range = omega arith }

whole-AllReceived : AllReceived whole
whole-AllReceived zero h = refl
whole-AllReceived (suc zero) h = refl
whole-AllReceived (suc (suc i)) h = absurd (omega (arith, h))

found_whole : find_active 1 ready.active ≡ some whole
unfolding find_active
found_whole = refl
