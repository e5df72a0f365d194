-- ===== src/Protocol/Encode.antt =====
-- The functions `write_*` and `encode_body` of src/core/yisync_protocol.cpp.
use yisync.Common.{◌%◌, length, u32_mod}
use yisync.Protocol.Message.{
  Bytes, FileChecksum, ManifestEntry, Manifest2Stream, ReceivedChunk, MissingChunkRange,
  MessageHeader, Manifest1Stream, Hello, Manifest1, Manifest2, Create, Data, FileBegin, Chunk,
  FileCommit, Heartbeat, Nack, Message,
}
use yisync.Protocol.Codes.{
  message_type_enum, role_enum, compression_enum, checksum_algo_enum, entry_kind_enum,
  nack_reason_enum, manifest2_action_enum,
}
use yisync.Protocol.Writer.{◌⨟◌, u8, u16, u32, u64, bytes, string, code, counted}

unfoldable pub write_checksum : FileChecksum → Bytes
write_checksum checksum =
    code checksum.algo ⨟ u64 checksum.offset ⨟ u64 checksum.len ⨟ bytes checksum.value

unfoldable pub write_manifest_entry : ManifestEntry → Bytes
write_manifest_entry entry =
    u64 entry.file_id
    ⨟ u64 entry.seq
    ⨟ code entry.kind
    ⨟ string entry.name
    ⨟ string entry.link_target
    ⨟ u64 entry.size
    ⨟ write_checksum entry.checksum

unfoldable pub write_manifest2_stream : Manifest2Stream → Bytes
write_manifest2_stream stream =
    u64 stream.stream_id ⨟ code stream.action ⨟ u64 stream.start_file_id ⨟ u64 stream.start_offset

unfoldable pub write_received_chunk : ReceivedChunk → Bytes
write_received_chunk chunk = u64 chunk.seq ⨟ u64 chunk.file_id ⨟ u64 chunk.chunk_index

unfoldable pub write_missing_chunk_range : MissingChunkRange → Bytes
write_missing_chunk_range range =
    u64 range.seq ⨟ u64 range.file_id ⨟ u64 range.first_chunk_index ⨟ u64 range.last_chunk_index

unfoldable pub write_header_prefix : MessageHeader → Bytes
write_header_prefix header =
    u32 header.magic
    ⨟ u8 header.version
    ⨟ code header.msg_type
    ⨟ u16 header.header_len
    ⨟ u32 header.body_len

unfoldable pub write_manifest1_stream : Manifest1Stream → Bytes
write_manifest1_stream stream =
    u64 stream.stream_id ⨟ string stream.root ⨟ counted write_manifest_entry stream.entries

unfoldable pub encode_hello : Hello → Bytes
encode_hello message =
    string message.node_id
    ⨟ code message.role
    ⨟ u16 message.min_version
    ⨟ u16 message.max_version
    ⨟ u64 message.feature_flags
    ⨟ u64 message.required_feature_flags
    ⨟ u32 message.chunk_size
    ⨟ u64 message.max_inflight_bytes
    ⨟ counted code message.supported_compression
    ⨟ counted code message.supported_checksum

unfoldable pub encode_manifest1 : Manifest1 → Bytes
encode_manifest1 message = u64 message.manifest_id ⨟ counted write_manifest1_stream message.streams

unfoldable pub encode_manifest2 : Manifest2 → Bytes
encode_manifest2 message = u64 message.manifest_id ⨟ counted write_manifest2_stream message.streams

unfoldable pub encode_create : Create → Bytes
encode_create message =
    u64 message.stream_id
    ⨟ u64 message.seq
    ⨟ u64 message.file_id
    ⨟ code message.kind
    ⨟ string message.name
    ⨟ string message.link_target
    ⨟ u64 message.final_size
    ⨟ u64 message.prev_file_id
    ⨟ u64 message.prev_final_size
    ⨟ write_checksum message.prev_checksum

unfoldable pub encode_data : Data → Bytes
encode_data message =
    u64 message.stream_id
    ⨟ u64 message.seq
    ⨟ u64 message.file_id
    ⨟ u64 message.offset
    ⨟ u64 message.final_size
    ⨟ u32 message.raw_len
    ⨟ u32 (length message.payload % u32_mod)
    ⨟ code message.compression
    ⨟ code message.checksum_algo
    ⨟ bytes message.checksum
    ⨟ bytes message.payload

unfoldable pub encode_file_begin : FileBegin → Bytes
encode_file_begin message =
    u64 message.stream_id
    ⨟ u64 message.seq
    ⨟ u64 message.file_id
    ⨟ string message.name
    ⨟ u64 message.final_size
    ⨟ u64 message.chunk_size
    ⨟ u64 message.chunk_count
    ⨟ write_checksum message.file_checksum
    ⨟ u64 message.prev_file_id
    ⨟ u64 message.prev_final_size
    ⨟ write_checksum message.prev_checksum

unfoldable pub encode_chunk : Chunk → Bytes
encode_chunk message =
    u64 message.stream_id
    ⨟ u64 message.seq
    ⨟ u64 message.file_id
    ⨟ u64 message.chunk_index
    ⨟ u64 message.offset
    ⨟ u32 message.raw_len
    ⨟ u32 (length message.payload % u32_mod)
    ⨟ code message.compression
    ⨟ code message.checksum_algo
    ⨟ bytes message.checksum
    ⨟ bytes message.payload

unfoldable pub encode_file_commit : FileCommit → Bytes
encode_file_commit message = u64 message.stream_id ⨟ u64 message.seq ⨟ u64 message.file_id

unfoldable pub encode_heartbeat : Heartbeat → Bytes
encode_heartbeat message =
    u64 message.stream_id
    ⨟ u64 message.next_seq
    ⨟ u64 message.file_id
    ⨟ u64 message.offset
    ⨟ u64 message.durable_offset
    ⨟ u64 message.recv_window_bytes
    ⨟ counted write_received_chunk message.received_chunks
    ⨟ counted write_missing_chunk_range message.missing_ranges

unfoldable pub encode_nack : Nack → Bytes
encode_nack message =
    u64 message.stream_id
    ⨟ u64 message.got_seq
    ⨟ u64 message.expected_seq
    ⨟ u64 message.file_id
    ⨟ u64 message.offset
    ⨟ u64 message.expected_file_id
    ⨟ u64 message.expected_offset
    ⨟ code message.reason
    ⨟ string message.detail

-- `std::visit` over the overloads of `encode_body`.
unfoldable pub encode_body : Message → Bytes
encode_body (Message.hello message) = encode_hello message
encode_body (Message.manifest1 message) = encode_manifest1 message
encode_body (Message.manifest2 message) = encode_manifest2 message
encode_body (Message.create message) = encode_create message
encode_body (Message.data_message message) = encode_data message
encode_body (Message.file_begin message) = encode_file_begin message
encode_body (Message.chunk message) = encode_chunk message
encode_body (Message.file_commit message) = encode_file_commit message
encode_body (Message.heartbeat message) = encode_heartbeat message
encode_body (Message.nack message) = encode_nack message
