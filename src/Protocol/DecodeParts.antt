-- ===== src/Protocol/DecodeParts.antt =====
-- The functions `read_*` of src/core/yisync_protocol.cpp, for the parts of a message.
use yisync.Protocol.Message.{
  FileChecksum, ManifestEntry, Manifest2Stream, ReceivedChunk, MissingChunkRange, MessageHeader,
  Manifest1Stream,
}
use yisync.Protocol.Codes.{
  message_type_enum, role_enum, compression_enum, checksum_algo_enum, entry_kind_enum,
  nack_reason_enum, manifest2_action_enum,
}
use yisync.Protocol.Reader.{Reader, pure, ◌>>=◌, u8, u16, u32, u64, bytes, string, code, counted}

unfoldable pub read_checksum : Reader FileChecksum
read_checksum = do
  algo ← code
  offset ← u64
  len ← u64
  value ← bytes
  pure (record { algo = algo; offset = offset; len = len; value = value })

unfoldable pub read_manifest_entry : Reader ManifestEntry
read_manifest_entry = do
  file_id ← u64
  seq ← u64
  kind ← code
  name ← string
  link_target ← string
  size ← u64
  checksum ← read_checksum
  pure (record {
    file_id = file_id;
    seq = seq;
    kind = kind;
    name = name;
    link_target = link_target;
    size = size;
    checksum = checksum;
  })

unfoldable pub read_manifest2_stream : Reader Manifest2Stream
read_manifest2_stream = do
  stream_id ← u64
  action ← code
  start_file_id ← u64
  start_offset ← u64
  pure (record {
    stream_id = stream_id;
    action = action;
    start_file_id = start_file_id;
    start_offset = start_offset;
  })

unfoldable pub read_received_chunk : Reader ReceivedChunk
read_received_chunk = do
  seq ← u64
  file_id ← u64
  chunk_index ← u64
  pure (record { seq = seq; file_id = file_id; chunk_index = chunk_index })

unfoldable pub read_missing_chunk_range : Reader MissingChunkRange
read_missing_chunk_range = do
  seq ← u64
  file_id ← u64
  first_chunk_index ← u64
  last_chunk_index ← u64
  pure (record {
    seq = seq;
    file_id = file_id;
    first_chunk_index = first_chunk_index;
    last_chunk_index = last_chunk_index;
  })

unfoldable pub read_header_prefix : Reader MessageHeader
read_header_prefix = do
  magic ← u32
  version ← u8
  msg_type ← code
  header_len ← u16
  body_len ← u32
  pure (record {
    magic = magic;
    version = version;
    msg_type = msg_type;
    header_len = header_len;
    body_len = body_len;
  })

unfoldable pub read_manifest1_stream : Reader Manifest1Stream
read_manifest1_stream = do
  stream_id ← u64
  root ← string
  entries ← counted read_manifest_entry
  pure (record { stream_id = stream_id; root = root; entries = entries })
