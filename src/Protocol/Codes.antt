-- ===== src/Protocol/Codes.antt =====
-- The enumerations of include/core/yisync_protocol.hpp with their wire codes. A scoped enum over
-- `uint8_t` holds any byte, and the decoders cast without a test, so each type has a constructor
-- `unnamed` for the codes that have no name. `to_u8` is the cast to a byte, `of_u8` the cast back.
use yisync.Common.{ℕ, ◌<◌, ◌≡◌, ◌==◌, if◌then◌else◌}

-- A type with the two casts. `IsCode` holds of the values that a byte can denote: every named one,
-- and `unnamed n` where `n` is a byte with no name.
pub record Enum (A : Type 0) : Type 0 where
  pub to_u8 : A → ℕ
  pub of_u8 : ℕ → A

abbrev pub to_u8 : {A : Type 0} ⦃e : Enum A⦄ → A → ℕ
to_u8 ⦃e⦄ = e.to_u8

abbrev pub of_u8 : {A : Type 0} ⦃e : Enum A⦄ → ℕ → A
of_u8 ⦃e⦄ = e.of_u8

abbrev pub IsCode : {A : Type 0} ⦃e : Enum A⦄ → A → Type 0
IsCode x = (to_u8 x < 256) × (of_u8 (to_u8 x) ≡ x)

pub data MessageType : Type 0 where
  hello manifest1 create data_message heartbeat nack file_begin chunk : MessageType
  file_commit manifest2 : MessageType
  unnamed : ℕ → MessageType

abbrev pub message_type_code : MessageType → ℕ
message_type_code MessageType.hello = 1
message_type_code MessageType.manifest1 = 2
message_type_code MessageType.create = 3
message_type_code MessageType.data_message = 4
message_type_code MessageType.heartbeat = 5
message_type_code MessageType.nack = 6
message_type_code MessageType.file_begin = 7
message_type_code MessageType.chunk = 8
message_type_code MessageType.file_commit = 9
message_type_code MessageType.manifest2 = 10
message_type_code (MessageType.unnamed n) = n

abbrev pub message_type_of_code : ℕ → MessageType
message_type_of_code n =
    if n == 1
    then MessageType.hello
    else if n == 2
    then MessageType.manifest1
    else if n == 3
    then MessageType.create
    else if n == 4
    then MessageType.data_message
    else if n == 5
    then MessageType.heartbeat
    else if n == 6
    then MessageType.nack
    else if n == 7
    then MessageType.file_begin
    else if n == 8
    then MessageType.chunk
    else if n == 9
    then MessageType.file_commit
    else if n == 10
    then MessageType.manifest2
    else MessageType.unnamed n

instance abbrev pub message_type_enum : Enum MessageType
message_type_enum = record { to_u8 = message_type_code; of_u8 = message_type_of_code }

pub data Role : Type 0 where
  sender receiver : Role
  unnamed : ℕ → Role

abbrev pub role_code : Role → ℕ
role_code Role.sender = 1
role_code Role.receiver = 2
role_code (Role.unnamed n) = n

abbrev pub role_of_code : ℕ → Role
role_of_code n = if n == 1 then Role.sender else if n == 2 then Role.receiver else Role.unnamed n

instance abbrev pub role_enum : Enum Role
role_enum = record { to_u8 = role_code; of_u8 = role_of_code }

pub data Compression : Type 0 where
  none lz4 zstd : Compression
  unnamed : ℕ → Compression

abbrev pub compression_code : Compression → ℕ
compression_code Compression.none = 0
compression_code Compression.lz4 = 1
compression_code Compression.zstd = 2
compression_code (Compression.unnamed n) = n

abbrev pub compression_of_code : ℕ → Compression
compression_of_code n =
    if n == 0
    then Compression.none
    else if n == 1
    then Compression.lz4
    else if n == 2
    then Compression.zstd
    else Compression.unnamed n

instance abbrev pub compression_enum : Enum Compression
compression_enum = record { to_u8 = compression_code; of_u8 = compression_of_code }

pub data ChecksumAlgo : Type 0 where
  none crc32c md5 : ChecksumAlgo
  unnamed : ℕ → ChecksumAlgo

abbrev pub checksum_algo_code : ChecksumAlgo → ℕ
checksum_algo_code ChecksumAlgo.none = 0
checksum_algo_code ChecksumAlgo.crc32c = 1
checksum_algo_code ChecksumAlgo.md5 = 2
checksum_algo_code (ChecksumAlgo.unnamed n) = n

abbrev pub checksum_algo_of_code : ℕ → ChecksumAlgo
checksum_algo_of_code n =
    if n == 0
    then ChecksumAlgo.none
    else if n == 1
    then ChecksumAlgo.crc32c
    else if n == 2
    then ChecksumAlgo.md5
    else ChecksumAlgo.unnamed n

instance abbrev pub checksum_algo_enum : Enum ChecksumAlgo
checksum_algo_enum = record { to_u8 = checksum_algo_code; of_u8 = checksum_algo_of_code }

pub data EntryKind : Type 0 where
  regular_file directory symlink : EntryKind
  unnamed : ℕ → EntryKind

abbrev pub entry_kind_code : EntryKind → ℕ
entry_kind_code EntryKind.regular_file = 1
entry_kind_code EntryKind.directory = 2
entry_kind_code EntryKind.symlink = 3
entry_kind_code (EntryKind.unnamed n) = n

abbrev pub entry_kind_of_code : ℕ → EntryKind
entry_kind_of_code n =
    if n == 1
    then EntryKind.regular_file
    else if n == 2
    then EntryKind.directory
    else if n == 3
    then EntryKind.symlink
    else EntryKind.unnamed n

instance abbrev pub entry_kind_enum : Enum EntryKind
entry_kind_enum = record { to_u8 = entry_kind_code; of_u8 = entry_kind_of_code }

pub data NackReason : Type 0 where
  bad_session bad_seq bad_offset bad_checksum bad_file_order bad_create : NackReason
  file_exists prev_file_incomplete size_conflict checksum_mismatch : NackReason
  unsupported_compression decode_error io_error bad_chunk bad_commit : NackReason
  unnamed : ℕ → NackReason

abbrev pub nack_reason_code : NackReason → ℕ
nack_reason_code NackReason.bad_session = 1
nack_reason_code NackReason.bad_seq = 2
nack_reason_code NackReason.bad_offset = 3
nack_reason_code NackReason.bad_checksum = 4
nack_reason_code NackReason.bad_file_order = 5
nack_reason_code NackReason.bad_create = 6
nack_reason_code NackReason.file_exists = 7
nack_reason_code NackReason.prev_file_incomplete = 8
nack_reason_code NackReason.size_conflict = 9
nack_reason_code NackReason.checksum_mismatch = 10
nack_reason_code NackReason.unsupported_compression = 11
nack_reason_code NackReason.decode_error = 12
nack_reason_code NackReason.io_error = 13
nack_reason_code NackReason.bad_chunk = 14
nack_reason_code NackReason.bad_commit = 15
nack_reason_code (NackReason.unnamed n) = n

abbrev pub nack_reason_of_code : ℕ → NackReason
nack_reason_of_code n =
    if n == 1
    then NackReason.bad_session
    else if n == 2
    then NackReason.bad_seq
    else if n == 3
    then NackReason.bad_offset
    else if n == 4
    then NackReason.bad_checksum
    else if n == 5
    then NackReason.bad_file_order
    else if n == 6
    then NackReason.bad_create
    else if n == 7
    then NackReason.file_exists
    else if n == 8
    then NackReason.prev_file_incomplete
    else if n == 9
    then NackReason.size_conflict
    else if n == 10
    then NackReason.checksum_mismatch
    else if n == 11
    then NackReason.unsupported_compression
    else if n == 12
    then NackReason.decode_error
    else if n == 13
    then NackReason.io_error
    else if n == 14
    then NackReason.bad_chunk
    else if n == 15
    then NackReason.bad_commit
    else NackReason.unnamed n

instance abbrev pub nack_reason_enum : Enum NackReason
nack_reason_enum = record { to_u8 = nack_reason_code; of_u8 = nack_reason_of_code }

pub data Manifest2Action : Type 0 where
  in_sync resume_existing create_missing : Manifest2Action
  unnamed : ℕ → Manifest2Action

abbrev pub manifest2_action_code : Manifest2Action → ℕ
manifest2_action_code Manifest2Action.in_sync = 0
manifest2_action_code Manifest2Action.resume_existing = 1
manifest2_action_code Manifest2Action.create_missing = 2
manifest2_action_code (Manifest2Action.unnamed n) = n

abbrev pub manifest2_action_of_code : ℕ → Manifest2Action
manifest2_action_of_code n =
    if n == 0
    then Manifest2Action.in_sync
    else if n == 1
    then Manifest2Action.resume_existing
    else if n == 2
    then Manifest2Action.create_missing
    else Manifest2Action.unnamed n

instance abbrev pub manifest2_action_enum : Enum Manifest2Action
manifest2_action_enum = record { to_u8 = manifest2_action_code; of_u8 = manifest2_action_of_code }
