-- ===== src/Receiver/Chunked.antt =====
-- The class `T_ChunkedReceiverStream` of src/receiver/yisync_receiver.cpp: a file that arrives in
-- chunks. What the file system answers is the argument `Disk` of a call.
use yisync.Common.{
  ℕ, zero, suc, ◌+◌, ◌-◌, ◌*◌, ◌%◌, min, [], ◌∷◌, ◌++◌, Option, none, some, Bool, true, false, not,
  ◌||◌, ltb, leb, ◌==◌, if◌then◌else◌, length, take, drop, get_or, set, replicate, Result, ok, err,
  is_empty, u64_mod, u32_mod,
}
use yisync.Protocol.Codes.{
  Compression, ChecksumAlgo, NackReason, compression_enum, checksum_algo_enum,
}
use yisync.Protocol.Codes
use yisync.Protocol.Message.{Bytes, FileBegin, Chunk}
use yisync.Protocol.Frame.{crc32c_bytes}
use yisync.Sync.{Conflict, bytes_equal, should_use_chunk_mode, chunk_count_for_size}
use yisync.Receiver.Files.{
  FinalPath, Disk, ActiveFile, Stream, Refusal, nack, find_active, update_active, final_path_for,
}

-- The tests of the previous file.
abbrev pub prev_size_of : Option ℕ → ℕ → Option NackReason
prev_size_of none size = some NackReason.prev_file_incomplete
prev_size_of (some n) size = if n == size then none else some NackReason.prev_file_incomplete

abbrev pub or_checksum : Option NackReason → Bool → Option NackReason
or_checksum none matches = if matches then none else some NackReason.checksum_mismatch
or_checksum (some reason) matches = some reason

unfoldable pub check_prev : Disk → FileBegin → Option NackReason
check_prev disk begin =
    if begin.prev_file_id == 0
    then none
    else or_checksum (prev_size_of (disk.prev_size begin.prev_file_id) begin.prev_final_size)
        (disk.prev_matches begin.prev_checksum begin.prev_file_id)

abbrev pub new_active : FileBegin → FinalPath → ActiveFile
new_active begin path = record {
  seq = begin.seq;
  file_id = begin.file_id;
  name = begin.name;
  final_size = begin.final_size;
  chunk_size = begin.chunk_size;
  chunk_count = begin.chunk_count;
  file_checksum = begin.file_checksum;
  prev_file_id = begin.prev_file_id;
  prev_final_size = begin.prev_final_size;
  prev_checksum = begin.prev_checksum;
  temp = [];
  final_path = path;
  received = replicate begin.chunk_count false;
  received_count = 0;
  commit_pending = false;
}

abbrev pub refuse_begin : Stream → FileBegin → NackReason → Stream × Option Refusal
refuse_begin s begin reason = (s, some (nack s begin.stream_id begin.seq begin.file_id 0 reason))

-- The end of `apply(FILE_BEGIN)`, from the final path on.
abbrev pub open_active : Disk → Stream → FileBegin → Option FinalPath → Stream × Option Refusal
open_active disk s begin none = refuse_begin s begin NackReason.bad_create
open_active disk s begin (some path) =
    if disk.exists path
    then refuse_begin s begin NackReason.file_exists
    else (if disk.creates
        then (record s { active = new_active begin path ∷ s.active }, none)
        else refuse_begin s begin NackReason.io_error)

abbrev pub after_prev : Disk → Stream → FileBegin → Option NackReason → Stream × Option Refusal
after_prev disk s begin (some reason) = refuse_begin s begin reason
after_prev disk s begin none = open_active disk s begin (final_path_for begin.file_id begin.name)

-- The entry of the map is looked up before the file system is asked.
abbrev pub unless_active : Disk → Stream → FileBegin → Option ActiveFile → Stream × Option Refusal
unless_active disk s begin (some f) = (s, none)
unless_active disk s begin none = after_prev disk s begin (check_prev disk begin)

abbrev pub count_matches : ℕ → Result Conflict ℕ → Bool
count_matches count (ok n) = count == n
count_matches count (err e) = false

unfoldable pub apply_file_begin : Disk → Stream → FileBegin → Stream × Option Refusal
apply_file_begin disk s begin =
    if not (begin.stream_id == s.stream_id)
    then refuse_begin s begin NackReason.bad_session
    else (if ltb begin.seq s.expected_seq
        then (s, none)
        else (if ltb s.expected_seq begin.seq
            then refuse_begin s begin NackReason.bad_seq
            else (if not (should_use_chunk_mode begin.final_size)
                then refuse_begin s begin NackReason.bad_chunk
                else (if begin.chunk_size == 0
                    then refuse_begin s begin NackReason.bad_chunk
                    else (if not (
                          count_matches begin.chunk_count
                            (chunk_count_for_size begin.final_size begin.chunk_size))
                        then refuse_begin s begin NackReason.bad_chunk
                        else unless_active disk s begin (find_active begin.seq s.active))))))

-- `raw_data_for_chunk_message`, which throws.
unfoldable pub raw_data_for_chunk_message : Chunk → Option Bytes
raw_data_for_chunk_message chunk =
    if not (Codes.to_u8 chunk.compression == Codes.to_u8 Compression.none)
    then none
    else (if length chunk.payload == chunk.raw_len then some chunk.payload else none)

-- A write of some bytes at an offset: a gap behind the end of the file reads as zeros.
unfoldable pub write_at : ℕ → Bytes → Bytes → Bytes
write_at zero bs file = bs ++ drop (length bs) file
write_at (suc n) bs [] = 0 ∷ write_at n bs []
write_at (suc n) bs (x ∷ file) = x ∷ write_at n bs file

-- Writing nothing leaves the file as it is.
unfoldable pub write_file : ℕ → Bytes → Bytes → Bytes
write_file offset bs file = if is_empty bs then file else write_at offset bs file

abbrev pub refuse_chunk : Stream → Chunk → NackReason → Stream × Option Refusal
refuse_chunk s chunk reason =
    (s, some (nack s chunk.stream_id chunk.seq chunk.file_id chunk.offset reason))

abbrev pub with_file : Stream → ℕ → ActiveFile → Stream
with_file s seq f = record s { active = update_active seq f s.active }

abbrev pub with_bytes : ActiveFile → Chunk → Bytes → ActiveFile
with_bytes f chunk bs = record f { temp = write_file chunk.offset bs f.temp }

-- The chunk's bytes in the file, and its mark.
abbrev pub with_chunk : ActiveFile → Chunk → Bytes → ActiveFile
with_chunk f chunk raw = record f {
  temp = write_file chunk.offset raw f.temp;
  received = set f.received chunk.chunk_index true;
  received_count = (f.received_count + 1) % u64_mod;
}

-- The end of `apply(CHUNK)`, from the payload on.
unfoldable pub store_chunk :
    Disk → Stream → ActiveFile → Chunk → Option Bytes → Stream × Option Refusal
store_chunk disk s f chunk none = refuse_chunk s chunk NackReason.decode_error
store_chunk disk s f chunk (some raw) =
    if not (Codes.to_u8 chunk.checksum_algo == Codes.to_u8 ChecksumAlgo.crc32c)
    then refuse_chunk s chunk NackReason.bad_checksum
    else (if not (bytes_equal (crc32c_bytes (disk.crc raw)) chunk.checksum)
        then refuse_chunk s chunk NackReason.bad_checksum
        else (if not disk.opens
            then refuse_chunk s chunk NackReason.io_error
            else (if not disk.writes
                then refuse_chunk
                    (with_file s chunk.seq (with_bytes f chunk (take disk.written raw))) chunk
                    NackReason.io_error
                else (with_file s chunk.seq (with_chunk f chunk raw), none))))

abbrev pub expected_len : ActiveFile → Chunk → ℕ
expected_len f chunk =
    min f.chunk_size ((f.final_size + u64_mod - chunk.offset) % u64_mod) % u32_mod

abbrev pub expected_offset : ActiveFile → Chunk → ℕ
expected_offset f chunk = chunk.chunk_index * f.chunk_size % u64_mod

-- The tests on a chunk of a file that is active.
unfoldable pub check_chunk : Disk → Stream → Chunk → Option ActiveFile → Stream × Option Refusal
check_chunk disk s chunk none = refuse_chunk s chunk NackReason.bad_chunk
check_chunk disk s chunk (some f) =
    if not (chunk.file_id == f.file_id)
    then refuse_chunk s chunk NackReason.bad_file_order
    else (if leb f.chunk_count chunk.chunk_index
        then refuse_chunk s chunk NackReason.bad_chunk
        else (if not (chunk.offset == expected_offset f chunk)
            then refuse_chunk s chunk NackReason.bad_offset
            else (if not (chunk.raw_len == expected_len f chunk)
                  || ltb f.final_size ((chunk.offset + chunk.raw_len) % u64_mod)
                then refuse_chunk s chunk NackReason.bad_chunk
                else (if get_or f.received chunk.chunk_index false
                    then (s, none)
                    else store_chunk disk s f chunk (raw_data_for_chunk_message chunk)))))

unfoldable pub apply_chunk : Disk → Stream → Chunk → Stream × Option Refusal
apply_chunk disk s chunk =
    if not (chunk.stream_id == s.stream_id)
    then refuse_chunk s chunk NackReason.bad_session
    else (if ltb chunk.seq s.expected_seq
        then (s, none)
        else (if ltb s.expected_seq chunk.seq
            then refuse_chunk s chunk NackReason.bad_seq
            else check_chunk disk s chunk (find_active chunk.seq s.active)))
