-- ===== src/Receiver/Files.antt =====
-- The files that a receiver is assembling: `ActiveFile`, `Impl` and the names of files in
-- src/receiver/yisync_receiver.cpp.
use yisync.Common.{
  ℕ, List, [], ◌∷◌, Option, none, some, Bool, true, false, ◌||◌, ◌==◌, if◌then◌else◌, is_empty,
}
use yisync.Protocol.Codes.{NackReason, compression_enum, checksum_algo_enum}
use yisync.Protocol.Message.{Bytes, FileChecksum}
use yisync.Sync.{bytes_equal}

-- A path below the root: `file_name_for_id` of the file, or the name of the message.
pub data FinalPath : Type 0 where
  legacy : ℕ → FinalPath
  named : Bytes → FinalPath

-- What the calls of one handler on the file system return. `prev_size` is the size of the previous
-- file, if it exists; `prev_matches` is `checksum_matches` on it; `crc` is the result of `crc32c`. Where
-- a write fails, `written` of its bytes are in the file.
pub record Disk : Type 0 where
  pub prev_size : ℕ → Option ℕ
  pub prev_matches : FileChecksum → ℕ → Bool
  pub exists : FinalPath → Bool
  pub creates : Bool
  pub opens : Bool
  pub writes : Bool
  pub written : ℕ
  pub crc : Bytes → ℕ

-- `temp` is the content of the file at `temp_path`, which is named by `seq` and `file_id`.
pub record ActiveFile : Type 0 where
  pub seq : ℕ
  pub file_id : ℕ
  pub name : Bytes
  pub final_size : ℕ
  pub chunk_size : ℕ
  pub chunk_count : ℕ
  pub file_checksum : FileChecksum
  pub prev_file_id : ℕ
  pub prev_final_size : ℕ
  pub prev_checksum : FileChecksum
  pub temp : Bytes
  pub final_path : FinalPath
  pub received : List Bool
  pub received_count : ℕ
  pub commit_pending : Bool

-- `active` is a map by `seq`.
pub record Stream : Type 0 where
  pub stream_id : ℕ
  pub expected_seq : ℕ
  pub current_file_id : ℕ
  pub current_offset : ℕ
  pub active : List ActiveFile

-- `T_Nack`: the stream's view is filled in by `nack`, and the reason comes with the text that the
-- code writes into `detail`, which is left out.
pub record Refusal : Type 0 where
  pub stream_id : ℕ
  pub got_seq : ℕ
  pub expected_seq : ℕ
  pub file_id : ℕ
  pub offset : ℕ
  pub expected_file_id : ℕ
  pub expected_offset : ℕ
  pub reason : NackReason

abbrev pub nack : Stream → ℕ → ℕ → ℕ → ℕ → NackReason → Refusal
nack s stream_id seq file_id offset reason = record {
  stream_id = stream_id;
  got_seq = seq;
  expected_seq = s.expected_seq;
  file_id = file_id;
  offset = offset;
  expected_file_id = s.current_file_id;
  expected_offset = s.current_offset;
  reason = reason;
}

-- `active.find(seq)`.
unfoldable pub find_active : ℕ → List ActiveFile → Option ActiveFile
find_active seq [] = none
find_active seq (f ∷ fs) = if f.seq == seq then some f else find_active seq fs

-- An assignment to the fields of the entry that was found.
unfoldable pub update_active : ℕ → ActiveFile → List ActiveFile → List ActiveFile
update_active seq g [] = []
update_active seq g (f ∷ fs) =
    let rest = update_active seq g fs in if f.seq == seq then g ∷ fs else f ∷ rest

-- `active.erase`.
unfoldable pub erase_active : ℕ → List ActiveFile → List ActiveFile
erase_active seq [] = []
erase_active seq (f ∷ fs) = let rest = erase_active seq fs in if f.seq == seq then fs else f ∷ rest

abbrev pub with_first : ℕ → List Bytes → List Bytes
with_first c [] = (c ∷ []) ∷ []
with_first c (x ∷ xs) = (c ∷ x) ∷ xs

-- The text between the separators `/`.
unfoldable pub split_name : Bytes → List Bytes
split_name [] = [] ∷ []
split_name (c ∷ cs) = let rest = split_name cs in if c == 47 then [] ∷ rest else with_first c rest

-- The parts that iterating over a relative `std::filesystem::path` yields: repeated separators count
-- once, and one at the end is followed by an empty part.
unfoldable pub path_parts : List Bytes → List Bytes
path_parts [] = []
path_parts (x ∷ []) = x ∷ []
path_parts (x ∷ y ∷ more) =
    let rest = path_parts (y ∷ more) in if is_empty x then rest else x ∷ rest

-- Empty, `.` or `..`.
abbrev pub bad_part : Bytes → Bool
bad_part part = is_empty part || bytes_equal part (46 ∷ []) || bytes_equal part (46 ∷ 46 ∷ [])

unfoldable pub all_good : List Bytes → Bool
all_good [] = true
all_good (part ∷ parts) = let rest = all_good parts in if bad_part part then false else rest

unfoldable pub is_safe_relative_name : Bytes → Bool
is_safe_relative_name [] = false
is_safe_relative_name (c ∷ cs) =
    if c == 47 then false else all_good (path_parts (split_name (c ∷ cs)))

-- `final_path_for`, which throws on an unsafe name.
unfoldable pub final_path_for : ℕ → Bytes → Option FinalPath
final_path_for file_id name =
    if is_empty name
    then some (legacy file_id)
    else (if is_safe_relative_name name then some (named name) else none)
