-- ===== src/Protocol/Message.antt =====
-- The structs of include/core/yisync_protocol.hpp. A string or a `Bytes` is its list of bytes; an
-- integer is a number, whose range `Protocol.Fits` states.
use yisync.Common.{ℕ, List}
use yisync.Protocol.Codes.{
  MessageType, Role, Compression, ChecksumAlgo, EntryKind, NackReason, Manifest2Action,
}

abbrev pub Bytes : Type 0
Bytes = List ℕ

pub record FileChecksum : Type 0 where
  pub algo : ChecksumAlgo
  pub offset : ℕ
  pub len : ℕ
  pub value : Bytes

pub record MessageHeader : Type 0 where
  pub magic : ℕ
  pub version : ℕ
  pub msg_type : MessageType
  pub header_len : ℕ
  pub body_len : ℕ

pub record Hello : Type 0 where
  pub node_id : Bytes
  pub role : Role
  pub min_version : ℕ
  pub max_version : ℕ
  pub feature_flags : ℕ
  pub required_feature_flags : ℕ
  pub chunk_size : ℕ
  pub max_inflight_bytes : ℕ
  pub supported_compression : List Compression
  pub supported_checksum : List ChecksumAlgo

pub record ManifestEntry : Type 0 where
  pub file_id : ℕ
  pub seq : ℕ
  pub kind : EntryKind
  pub name : Bytes
  pub link_target : Bytes
  pub size : ℕ
  pub checksum : FileChecksum

pub record Manifest1Stream : Type 0 where
  pub stream_id : ℕ
  pub root : Bytes
  pub entries : List ManifestEntry

pub record Manifest1 : Type 0 where
  pub manifest_id : ℕ
  pub streams : List Manifest1Stream

pub record Manifest2Stream : Type 0 where
  pub stream_id : ℕ
  pub action : Manifest2Action
  pub start_file_id : ℕ
  pub start_offset : ℕ

pub record Manifest2 : Type 0 where
  pub manifest_id : ℕ
  pub streams : List Manifest2Stream

pub record Create : Type 0 where
  pub stream_id : ℕ
  pub seq : ℕ
  pub file_id : ℕ
  pub kind : EntryKind
  pub name : Bytes
  pub link_target : Bytes
  pub final_size : ℕ
  pub prev_file_id : ℕ
  pub prev_final_size : ℕ
  pub prev_checksum : FileChecksum

pub record Data : Type 0 where
  pub stream_id : ℕ
  pub seq : ℕ
  pub file_id : ℕ
  pub offset : ℕ
  pub final_size : ℕ
  pub raw_len : ℕ
  pub compression : Compression
  pub checksum_algo : ChecksumAlgo
  pub checksum : Bytes
  pub payload : Bytes

pub record FileBegin : Type 0 where
  pub stream_id : ℕ
  pub seq : ℕ
  pub file_id : ℕ
  pub name : Bytes
  pub final_size : ℕ
  pub chunk_size : ℕ
  pub chunk_count : ℕ
  pub file_checksum : FileChecksum
  pub prev_file_id : ℕ
  pub prev_final_size : ℕ
  pub prev_checksum : FileChecksum

pub record Chunk : Type 0 where
  pub stream_id : ℕ
  pub seq : ℕ
  pub file_id : ℕ
  pub chunk_index : ℕ
  pub offset : ℕ
  pub raw_len : ℕ
  pub compression : Compression
  pub checksum_algo : ChecksumAlgo
  pub checksum : Bytes
  pub payload : Bytes

pub record FileCommit : Type 0 where
  pub stream_id : ℕ
  pub seq : ℕ
  pub file_id : ℕ

pub record ReceivedChunk : Type 0 where
  pub seq : ℕ
  pub file_id : ℕ
  pub chunk_index : ℕ

pub record MissingChunkRange : Type 0 where
  pub seq : ℕ
  pub file_id : ℕ
  pub first_chunk_index : ℕ
  pub last_chunk_index : ℕ

pub record Heartbeat : Type 0 where
  pub stream_id : ℕ
  pub next_seq : ℕ
  pub file_id : ℕ
  pub offset : ℕ
  pub durable_offset : ℕ
  pub recv_window_bytes : ℕ
  pub received_chunks : List ReceivedChunk
  pub missing_ranges : List MissingChunkRange

pub record Nack : Type 0 where
  pub stream_id : ℕ
  pub got_seq : ℕ
  pub expected_seq : ℕ
  pub file_id : ℕ
  pub offset : ℕ
  pub expected_file_id : ℕ
  pub expected_offset : ℕ
  pub reason : NackReason
  pub detail : Bytes

-- The variant `T_Message`.
pub data Message : Type 0 where
  hello : Hello → Message
  manifest1 : Manifest1 → Message
  manifest2 : Manifest2 → Message
  create : Create → Message
  data_message : Data → Message
  file_begin : FileBegin → Message
  chunk : Chunk → Message
  file_commit : FileCommit → Message
  heartbeat : Heartbeat → Message
  nack : Nack → Message

pub record Frame : Type 0 where
  pub header : MessageHeader
  pub body : Bytes
