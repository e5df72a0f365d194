-- ===== src/Protocol/Fits.antt =====
-- The values of the C++ structs: integers in the range of their types, enumerations that a byte can
-- denote, and sizes that their 32-bit length prefix can hold.
use yisync.Common.{length, All, IsByte, IsU16, IsU32, IsU64}
use yisync.Protocol.Codes.{
  message_type_enum, role_enum, compression_enum, checksum_algo_enum, entry_kind_enum,
  nack_reason_enum, manifest2_action_enum, IsCode,
}
use yisync.Protocol.Message.{
  FileChecksum, ManifestEntry, Manifest2Stream, ReceivedChunk, MissingChunkRange, MessageHeader,
  Manifest1Stream, Hello, Manifest1, Manifest2, Create, Data, FileBegin, Chunk, FileCommit,
  Heartbeat, Nack, Message,
}

pub record FitsFileChecksum (m : FileChecksum) : Type 0 where
  pub algo : IsCode m.algo
  pub offset : IsU64 m.offset
  pub len : IsU64 m.len
  pub value : IsU32 (length m.value)

pub record FitsManifestEntry (m : ManifestEntry) : Type 0 where
  pub file_id : IsU64 m.file_id
  pub seq : IsU64 m.seq
  pub kind : IsCode m.kind
  pub name : IsU32 (length m.name)
  pub link_target : IsU32 (length m.link_target)
  pub size : IsU64 m.size
  pub checksum : FitsFileChecksum m.checksum

pub record FitsManifest2Stream (m : Manifest2Stream) : Type 0 where
  pub stream_id : IsU64 m.stream_id
  pub action : IsCode m.action
  pub start_file_id : IsU64 m.start_file_id
  pub start_offset : IsU64 m.start_offset

pub record FitsReceivedChunk (m : ReceivedChunk) : Type 0 where
  pub seq : IsU64 m.seq
  pub file_id : IsU64 m.file_id
  pub chunk_index : IsU64 m.chunk_index

pub record FitsMissingChunkRange (m : MissingChunkRange) : Type 0 where
  pub seq : IsU64 m.seq
  pub file_id : IsU64 m.file_id
  pub first_chunk_index : IsU64 m.first_chunk_index
  pub last_chunk_index : IsU64 m.last_chunk_index

pub record FitsMessageHeader (m : MessageHeader) : Type 0 where
  pub magic : IsU32 m.magic
  pub version : IsByte m.version
  pub msg_type : IsCode m.msg_type
  pub header_len : IsU16 m.header_len
  pub body_len : IsU32 m.body_len

pub record FitsManifest1Stream (m : Manifest1Stream) : Type 0 where
  pub stream_id : IsU64 m.stream_id
  pub root : IsU32 (length m.root)
  pub entries_count : IsU32 (length m.entries)
  pub entries : All (λ x. FitsManifestEntry x) m.entries

pub record FitsHello (m : Hello) : Type 0 where
  pub node_id : IsU32 (length m.node_id)
  pub role : IsCode m.role
  pub min_version : IsU16 m.min_version
  pub max_version : IsU16 m.max_version
  pub feature_flags : IsU64 m.feature_flags
  pub required_feature_flags : IsU64 m.required_feature_flags
  pub chunk_size : IsU32 m.chunk_size
  pub max_inflight_bytes : IsU64 m.max_inflight_bytes
  pub supported_compression_count : IsU32 (length m.supported_compression)
  pub supported_compression : All (λ x. IsCode x) m.supported_compression
  pub supported_checksum_count : IsU32 (length m.supported_checksum)
  pub supported_checksum : All (λ x. IsCode x) m.supported_checksum

pub record FitsManifest1 (m : Manifest1) : Type 0 where
  pub manifest_id : IsU64 m.manifest_id
  pub streams_count : IsU32 (length m.streams)
  pub streams : All (λ x. FitsManifest1Stream x) m.streams

pub record FitsManifest2 (m : Manifest2) : Type 0 where
  pub manifest_id : IsU64 m.manifest_id
  pub streams_count : IsU32 (length m.streams)
  pub streams : All (λ x. FitsManifest2Stream x) m.streams

pub record FitsCreate (m : Create) : Type 0 where
  pub stream_id : IsU64 m.stream_id
  pub seq : IsU64 m.seq
  pub file_id : IsU64 m.file_id
  pub kind : IsCode m.kind
  pub name : IsU32 (length m.name)
  pub link_target : IsU32 (length m.link_target)
  pub final_size : IsU64 m.final_size
  pub prev_file_id : IsU64 m.prev_file_id
  pub prev_final_size : IsU64 m.prev_final_size
  pub prev_checksum : FitsFileChecksum m.prev_checksum

pub record FitsData (m : Data) : Type 0 where
  pub stream_id : IsU64 m.stream_id
  pub seq : IsU64 m.seq
  pub file_id : IsU64 m.file_id
  pub offset : IsU64 m.offset
  pub final_size : IsU64 m.final_size
  pub raw_len : IsU32 m.raw_len
  pub compression : IsCode m.compression
  pub checksum_algo : IsCode m.checksum_algo
  pub checksum : IsU32 (length m.checksum)
  pub payload : IsU32 (length m.payload)

pub record FitsFileBegin (m : FileBegin) : Type 0 where
  pub stream_id : IsU64 m.stream_id
  pub seq : IsU64 m.seq
  pub file_id : IsU64 m.file_id
  pub name : IsU32 (length m.name)
  pub final_size : IsU64 m.final_size
  pub chunk_size : IsU64 m.chunk_size
  pub chunk_count : IsU64 m.chunk_count
  pub file_checksum : FitsFileChecksum m.file_checksum
  pub prev_file_id : IsU64 m.prev_file_id
  pub prev_final_size : IsU64 m.prev_final_size
  pub prev_checksum : FitsFileChecksum m.prev_checksum

pub record FitsChunk (m : Chunk) : Type 0 where
  pub stream_id : IsU64 m.stream_id
  pub seq : IsU64 m.seq
  pub file_id : IsU64 m.file_id
  pub chunk_index : IsU64 m.chunk_index
  pub offset : IsU64 m.offset
  pub raw_len : IsU32 m.raw_len
  pub compression : IsCode m.compression
  pub checksum_algo : IsCode m.checksum_algo
  pub checksum : IsU32 (length m.checksum)
  pub payload : IsU32 (length m.payload)

pub record FitsFileCommit (m : FileCommit) : Type 0 where
  pub stream_id : IsU64 m.stream_id
  pub seq : IsU64 m.seq
  pub file_id : IsU64 m.file_id

pub record FitsHeartbeat (m : Heartbeat) : Type 0 where
  pub stream_id : IsU64 m.stream_id
  pub next_seq : IsU64 m.next_seq
  pub file_id : IsU64 m.file_id
  pub offset : IsU64 m.offset
  pub durable_offset : IsU64 m.durable_offset
  pub recv_window_bytes : IsU64 m.recv_window_bytes
  pub received_chunks_count : IsU32 (length m.received_chunks)
  pub received_chunks : All (λ x. FitsReceivedChunk x) m.received_chunks
  pub missing_ranges_count : IsU32 (length m.missing_ranges)
  pub missing_ranges : All (λ x. FitsMissingChunkRange x) m.missing_ranges

pub record FitsNack (m : Nack) : Type 0 where
  pub stream_id : IsU64 m.stream_id
  pub got_seq : IsU64 m.got_seq
  pub expected_seq : IsU64 m.expected_seq
  pub file_id : IsU64 m.file_id
  pub offset : IsU64 m.offset
  pub expected_file_id : IsU64 m.expected_file_id
  pub expected_offset : IsU64 m.expected_offset
  pub reason : IsCode m.reason
  pub detail : IsU32 (length m.detail)

abbrev pub Fits : Message → Type 0
Fits (Message.hello m) = FitsHello m
Fits (Message.manifest1 m) = FitsManifest1 m
Fits (Message.manifest2 m) = FitsManifest2 m
Fits (Message.create m) = FitsCreate m
Fits (Message.data_message m) = FitsData m
Fits (Message.file_begin m) = FitsFileBegin m
Fits (Message.chunk m) = FitsChunk m
Fits (Message.file_commit m) = FitsFileCommit m
Fits (Message.heartbeat m) = FitsHeartbeat m
Fits (Message.nack m) = FitsNack m
