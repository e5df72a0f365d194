-- ===== src/Receiver/Append.antt =====
-- The class `T_ReceiverStream` of src/receiver/yisync_receiver.cpp: entries that are created, and
-- files that grow by appends. The directory below the root is part of the state.

pub mod Session
pub mod Prefix
pub mod Again
pub mod Examples
use yisync.Common.{
  ℕ, ◌+◌, ◌%◌, List, [], ◌∷◌, ◌++◌, Option, none, some, Bool, true, false, not, ◌&&◌, ◌||◌, ltb,
  leb, ◌==◌, if◌then◌else◌, max, length, take, is_empty, u64_mod,
}
use yisync.Protocol.Codes.{
  EntryKind, Compression, ChecksumAlgo, NackReason, compression_enum, checksum_algo_enum,
}
use yisync.Protocol.Codes
use yisync.Protocol.Message.{Bytes, FileChecksum, ManifestEntry, Create, Data, Heartbeat}
use yisync.Protocol.Frame.{crc32c_bytes}
use yisync.Sync.{bytes_equal, same_kind}
use yisync.Sync.FileNames.{file_name_for_id}
use yisync.Receiver.Files.{Refusal, split_name, path_parts, is_safe_relative_name}

-- A path below the root: its parts.
abbrev pub TreePath : Type 0
TreePath = List Bytes

unfoldable pub same_path : TreePath → TreePath → Bool
same_path [] [] = true
same_path (x ∷ xs) (y ∷ ys) = bytes_equal x y && same_path xs ys
same_path xs ys = false

unfoldable pub parts_of : Bytes → TreePath
parts_of name = path_parts (split_name name)

pub data Entry : Type 0 where
  file : Bytes → Entry
  directory : Entry
  link : Bytes → Entry

-- What is at a path.
abbrev pub Tree : Type 0
Tree = TreePath → Option Entry

abbrev pub put : Tree → TreePath → Entry → Tree
put tree path entry = λ p. if same_path path p then some entry else tree p

-- What the calls of one handler on the file system return, beyond the tree. `link_size` is the size
-- of a link's target, if that exists; `entry_name` is the name of the first entry with an id in the
-- manifest that is scanned. Where a write fails, `written` of its bytes are in the file.
pub record Answers : Type 0 where
  pub link_size : Bytes → Option ℕ
  pub entry_name : ℕ → Option Bytes
  pub checksum_matches : FileChecksum → Option Entry → Bool
  pub makes_parent : Bool
  pub creates : Bool
  pub opens : Bool
  pub writes : Bool
  pub written : ℕ
  pub crc : Bytes → ℕ

-- `T_ReceiverStreamState` and the other members; the path is `none` where it is empty.
pub record AppendStream : Type 0 where
  pub stream_id : ℕ
  pub active : Bool
  pub expected_seq : ℕ
  pub current_file_id : ℕ
  pub current_offset : ℕ
  pub current_final_size : ℕ
  pub next_create_file_id : ℕ
  pub current_kind : EntryKind
  pub current_path : Option TreePath
  pub tree : Tree

abbrev pub is_some : Option ℕ → Bool
is_some none = false
is_some (some n) = true

abbrev pub or_zero : Option ℕ → ℕ
or_zero none = 0
or_zero (some n) = n

-- `std::filesystem::exists`, which follows links.
unfoldable pub exists : Answers → Option Entry → Bool
exists a none = false
exists a (some (link target)) = is_some (a.link_size target)
exists a (some entry) = true

unfoldable pub file_size_or_zero : Answers → Option Entry → ℕ
file_size_or_zero a none = 0
file_size_or_zero a (some (file content)) = length content
file_size_or_zero a (some directory) = 0
file_size_or_zero a (some (link target)) = or_zero (a.link_size target)

-- `path_from_manifest_or_legacy`.
abbrev pub path_from : Option Bytes → ℕ → TreePath
path_from none file_id = parts_of (file_name_for_id file_id)
path_from (some name) file_id =
    if is_safe_relative_name name then parts_of name else parts_of (file_name_for_id file_id)

abbrev pub path_for_file : Answers → ℕ → TreePath
path_for_file a file_id = path_from (a.entry_name file_id) file_id

abbrev pub nack : AppendStream → ℕ → ℕ → ℕ → ℕ → NackReason → Refusal
nack s stream_id seq file_id offset reason = record {
  stream_id = stream_id;
  got_seq = seq;
  expected_seq = s.expected_seq;
  file_id = file_id;
  offset = offset;
  expected_file_id = s.current_file_id;
  expected_offset = s.current_offset;
  reason = reason;
}

abbrev pub heartbeat : AppendStream → ℕ → ℕ → Heartbeat
heartbeat s recv_window_bytes durable_offset = record {
  stream_id = s.stream_id;
  next_seq = s.expected_seq;
  file_id = s.current_file_id;
  offset = s.current_offset;
  durable_offset = durable_offset;
  recv_window_bytes = recv_window_bytes;
  received_chunks = [];
  missing_ranges = [];
}

abbrev pub refuse_create : AppendStream → Create → ℕ → NackReason → AppendStream × Option Refusal
refuse_create s create offset reason =
    (s, some (nack s create.stream_id create.seq create.file_id offset reason))

-- What is at the path afterwards; what is there before is a link without a target, which only a
-- regular file can be opened behind.
unfoldable pub created : Create → Option Entry → Entry
created create (some entry) = entry
created create none =
    if same_kind create.kind EntryKind.directory
    then directory
    else (if same_kind create.kind EntryKind.symlink then link create.link_target else file [])

abbrev pub with_created : AppendStream → Create → TreePath → AppendStream
with_created s create path = record s {
  current_file_id = create.file_id;
  current_offset = 0;
  current_final_size = create.final_size;
  next_create_file_id = (create.file_id + 1) % u64_mod;
  current_kind = create.kind;
  current_path = some path;
  expected_seq =
      if not (same_kind create.kind EntryKind.regular_file) || create.final_size == 0
      then max s.expected_seq ((create.seq + 1) % u64_mod)
      else s.expected_seq;
  tree = put s.tree path (created create (s.tree path));
}

unfoldable pub create_entry :
    Answers → AppendStream → Create → TreePath → AppendStream × Option Refusal
create_entry a s create path =
    if exists a (s.tree path)
    then refuse_create s create (file_size_or_zero a (s.tree path)) NackReason.file_exists
    else (if not a.makes_parent
        then refuse_create s create 0 NackReason.io_error
        else (if not a.creates
            then refuse_create s create 0 NackReason.io_error
            else (with_created s create path, none)))

unfoldable pub prev_refusal : Answers → AppendStream → Create → Option NackReason
prev_refusal a s create =
    let prev = s.tree (path_for_file a create.prev_file_id) in
    if create.prev_file_id == 0
    then none
    else (if not (exists a prev)
        then some NackReason.prev_file_incomplete
        else (if not (file_size_or_zero a prev == create.prev_final_size)
            then some NackReason.prev_file_incomplete
            else (if a.checksum_matches create.prev_checksum prev
                then none
                else some NackReason.checksum_mismatch)))

abbrev pub create_unless :
    Option NackReason → Answers → AppendStream → Create → AppendStream × Option Refusal
create_unless (some reason) a s create = refuse_create s create 0 reason
create_unless none a s create = create_entry a s create (parts_of create.name)

abbrev pub supported : EntryKind → Bool
supported kind =
    same_kind kind EntryKind.regular_file
    || same_kind kind EntryKind.directory
    || same_kind kind EntryKind.symlink

unfoldable pub apply_create : Answers → AppendStream → Create → AppendStream × Option Refusal
apply_create a s create =
    if not s.active || not (create.stream_id == s.stream_id)
    then refuse_create s create 0 NackReason.bad_session
    else (if ltb create.seq s.expected_seq
        then (s, none)
        else (if ltb s.expected_seq create.seq
            then refuse_create s create 0 NackReason.bad_seq
            else (if not (supported create.kind)
                then refuse_create s create 0 NackReason.bad_create
                else (if not (is_safe_relative_name create.name)
                    then refuse_create s create 0 NackReason.bad_create
                    else create_unless (prev_refusal a s create) a s create))))

-- `raw_data_for_data_message`, which throws.
unfoldable pub raw_data_for_data_message : Data → Option Bytes
raw_data_for_data_message data_message =
    if not (Codes.to_u8 data_message.compression == Codes.to_u8 Compression.none)
    then none
    else (if length data_message.payload == data_message.raw_len
        then some data_message.payload
        else none)

abbrev pub refuse_data : AppendStream → Data → NackReason → AppendStream × Option Refusal
refuse_data s m reason = (s, some (nack s m.stream_id m.seq m.file_id m.offset reason))

-- Appending to the file at a path. What is behind a link is not part of the tree.
unfoldable pub appended : Option Entry → Bytes → Option Entry
appended (some (file content)) raw = some (file (content ++ raw))
appended entry raw = entry

abbrev pub append_at : Tree → TreePath → Bytes → Tree
append_at tree path raw = λ p. if same_path path p then appended (tree path) raw else tree p

abbrev pub with_appended : AppendStream → Data → TreePath → Bytes → AppendStream
with_appended s m path raw =
    let end = (m.offset + m.raw_len) % u64_mod in
    record s {
      current_offset = end;
      current_final_size = m.final_size;
      expected_seq =
          if leb m.final_size end
          then max s.expected_seq ((m.seq + 1) % u64_mod)
          else s.expected_seq;
      tree = append_at s.tree path raw;
    }

unfoldable pub append_raw :
    Answers → AppendStream → Data → TreePath → Option Bytes → AppendStream × Option Refusal
append_raw a s m path none = refuse_data s m NackReason.decode_error
append_raw a s m path (some raw) =
    if not (Codes.to_u8 m.checksum_algo == Codes.to_u8 ChecksumAlgo.crc32c)
    then refuse_data s m NackReason.bad_checksum
    else (if not (bytes_equal (crc32c_bytes (a.crc raw)) m.checksum)
        then refuse_data s m NackReason.bad_checksum
        else (if not a.opens
            then refuse_data s m NackReason.io_error
            else (if not a.writes
                then refuse_data (record s { tree = append_at s.tree path (take a.written raw) }) m
                    NackReason.io_error
                else (with_appended s m path raw, none))))

abbrev pub restoring_final_size_from_resume : AppendStream → Data → Bool
restoring_final_size_from_resume s m =
    (m.seq + 1) % u64_mod == s.expected_seq
    && m.file_id == s.current_file_id
    && m.offset == s.current_offset
    && s.current_final_size == s.current_offset
    && leb s.current_offset m.final_size

-- The tests on the file at the path.
unfoldable pub check_file : Answers → AppendStream → Data → TreePath → AppendStream × Option Refusal
check_file a s m path =
    if not (exists a (s.tree path))
    then refuse_data s m NackReason.bad_offset
    else (if not (m.offset == file_size_or_zero a (s.tree path))
        then refuse_data s m NackReason.bad_offset
        else (if m.raw_len == 0
            then refuse_data s m NackReason.decode_error
            else (if not (s.current_final_size == 0)
                  && not (m.final_size == s.current_final_size)
                  && not (restoring_final_size_from_resume s m)
                then refuse_data s m NackReason.size_conflict
                else (if ltb m.final_size ((m.offset + m.raw_len) % u64_mod)
                    then refuse_data s m NackReason.bad_offset
                    else append_raw a s m path (raw_data_for_data_message m)))))

abbrev pub append_resume_for_current_file : AppendStream → Data → Bool
append_resume_for_current_file s m =
    m.file_id == s.current_file_id
    && (m.seq + 1) % u64_mod == s.expected_seq
    && m.offset == s.current_offset
    && ltb s.current_offset m.final_size

abbrev pub current_or : Option TreePath → TreePath → TreePath
current_or none path = path
current_or (some path) other = path

unfoldable pub apply_data : Answers → AppendStream → Data → AppendStream × Option Refusal
apply_data a s m =
    if not s.active || not (m.stream_id == s.stream_id)
    then refuse_data s m NackReason.bad_session
    else (if ltb m.seq s.expected_seq && not (append_resume_for_current_file s m)
        then (s, none)
        else (if ltb s.expected_seq m.seq
            then refuse_data s m NackReason.bad_seq
            else (if not (m.file_id == s.current_file_id)
                then refuse_data s m NackReason.bad_file_order
                else (if not (same_kind s.current_kind EntryKind.regular_file)
                    then refuse_data s m NackReason.bad_file_order
                    else check_file a s m
                        (current_or s.current_path (path_for_file a m.file_id))))))

-- The last entry of the manifest is committed. Its name is a path that exists, so it is safe.
abbrev pub with_latest : AppendStream → ManifestEntry → ℕ → AppendStream
with_latest s latest expected_seq = record s {
  current_file_id = latest.file_id;
  current_offset = latest.size;
  current_final_size = latest.size;
  expected_seq = expected_seq;
  next_create_file_id = (latest.file_id + 1) % u64_mod;
  current_kind = latest.kind;
  current_path = some (parts_of latest.name);
}

abbrev pub with_nothing : AppendStream → AppendStream
with_nothing s = record s {
  current_file_id = 0;
  current_offset = 0;
  current_final_size = 0;
  next_create_file_id = 1;
  current_kind = EntryKind.regular_file;
  current_path = none;
}

unfoldable pub refresh_committed_from_disk : AppendStream → Option ManifestEntry → AppendStream
refresh_committed_from_disk s none = record (with_nothing s) { active = true }
refresh_committed_from_disk s (some latest) =
    record (with_latest s latest (max s.expected_seq ((latest.seq + 1) % u64_mod))) {
      active = true;
    }

unfoldable pub reset_session_from_disk : AppendStream → Option ManifestEntry → AppendStream
reset_session_from_disk s none = record (with_nothing s) { active = true; expected_seq = 1 }
reset_session_from_disk s (some latest) =
    record (with_latest s latest ((latest.seq + 1) % u64_mod)) { active = true }

-- The constructor, on a directory that exists.
unfoldable pub make : ℕ → Tree → Option ManifestEntry → AppendStream
make stream_id tree latest =
    reset_session_from_disk
      (record {
        stream_id = stream_id;
        active = false;
        expected_seq = 1;
        current_file_id = 0;
        current_offset = 0;
        current_final_size = 0;
        next_create_file_id = 0;
        current_kind = EntryKind.regular_file;
        current_path = none;
        tree = tree;
      })
      latest
