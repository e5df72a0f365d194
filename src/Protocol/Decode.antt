-- ===== src/Protocol/Decode.antt =====
-- The functions `decode_*` of src/core/yisync_protocol.cpp, for the body of each message type.
use yisync.Common.{length, ◌==◌, if◌then◌else◌}
use yisync.Protocol.Message.{
  Hello, Manifest1, Manifest2, Create, Data, FileBegin, Chunk, FileCommit, Heartbeat, Nack,
}
use yisync.Protocol.Codes.{
  message_type_enum, role_enum, compression_enum, checksum_algo_enum, entry_kind_enum,
  nack_reason_enum, manifest2_action_enum,
}
use yisync.Protocol.Reader.{
  Reader, pure, throw, ◌>>=◌, u16, u32, u64, bytes, string, code, counted, data_length_mismatch,
  chunk_length_mismatch,
}
use yisync.Protocol.DecodeParts.{
  read_checksum, read_manifest2_stream, read_received_chunk, read_missing_chunk_range,
  read_manifest1_stream,
}

unfoldable pub decode_hello : Reader Hello
decode_hello = do
  node_id ← string
  role ← code
  min_version ← u16
  max_version ← u16
  feature_flags ← u64
  required_feature_flags ← u64
  chunk_size ← u32
  max_inflight_bytes ← u64
  supported_compression ← counted code
  supported_checksum ← counted code
  pure (record {
    node_id = node_id;
    role = role;
    min_version = min_version;
    max_version = max_version;
    feature_flags = feature_flags;
    required_feature_flags = required_feature_flags;
    chunk_size = chunk_size;
    max_inflight_bytes = max_inflight_bytes;
    supported_compression = supported_compression;
    supported_checksum = supported_checksum;
  })

unfoldable pub decode_manifest1 : Reader Manifest1
decode_manifest1 = do
  manifest_id ← u64
  streams ← counted read_manifest1_stream
  pure (record { manifest_id = manifest_id; streams = streams })

unfoldable pub decode_manifest2 : Reader Manifest2
decode_manifest2 = do
  manifest_id ← u64
  streams ← counted read_manifest2_stream
  pure (record { manifest_id = manifest_id; streams = streams })

unfoldable pub decode_create : Reader Create
decode_create = do
  stream_id ← u64
  seq ← u64
  file_id ← u64
  kind ← code
  name ← string
  link_target ← string
  final_size ← u64
  prev_file_id ← u64
  prev_final_size ← u64
  prev_checksum ← read_checksum
  pure (record {
    stream_id = stream_id;
    seq = seq;
    file_id = file_id;
    kind = kind;
    name = name;
    link_target = link_target;
    final_size = final_size;
    prev_file_id = prev_file_id;
    prev_final_size = prev_final_size;
    prev_checksum = prev_checksum;
  })

unfoldable pub decode_data : Reader Data
decode_data = do
  stream_id ← u64
  seq ← u64
  file_id ← u64
  offset ← u64
  final_size ← u64
  raw_len ← u32
  payload_len ← u32
  compression ← code
  checksum_algo ← code
  checksum ← bytes
  payload ← bytes
  let message : Data = record {
    stream_id = stream_id;
    seq = seq;
    file_id = file_id;
    offset = offset;
    final_size = final_size;
    raw_len = raw_len;
    compression = compression;
    checksum_algo = checksum_algo;
    checksum = checksum;
    payload = payload;
  }
  if length payload == payload_len then pure message else throw data_length_mismatch

unfoldable pub decode_file_begin : Reader FileBegin
decode_file_begin = do
  stream_id ← u64
  seq ← u64
  file_id ← u64
  name ← string
  final_size ← u64
  chunk_size ← u64
  chunk_count ← u64
  file_checksum ← read_checksum
  prev_file_id ← u64
  prev_final_size ← u64
  prev_checksum ← read_checksum
  pure (record {
    stream_id = stream_id;
    seq = seq;
    file_id = file_id;
    name = name;
    final_size = final_size;
    chunk_size = chunk_size;
    chunk_count = chunk_count;
    file_checksum = file_checksum;
    prev_file_id = prev_file_id;
    prev_final_size = prev_final_size;
    prev_checksum = prev_checksum;
  })

unfoldable pub decode_chunk : Reader Chunk
decode_chunk = do
  stream_id ← u64
  seq ← u64
  file_id ← u64
  chunk_index ← u64
  offset ← u64
  raw_len ← u32
  payload_len ← u32
  compression ← code
  checksum_algo ← code
  checksum ← bytes
  payload ← bytes
  let message : Chunk = record {
    stream_id = stream_id;
    seq = seq;
    file_id = file_id;
    chunk_index = chunk_index;
    offset = offset;
    raw_len = raw_len;
    compression = compression;
    checksum_algo = checksum_algo;
    checksum = checksum;
    payload = payload;
  }
  if length payload == payload_len then pure message else throw chunk_length_mismatch

unfoldable pub decode_file_commit : Reader FileCommit
decode_file_commit = do
  stream_id ← u64
  seq ← u64
  file_id ← u64
  pure (record { stream_id = stream_id; seq = seq; file_id = file_id })

unfoldable pub decode_heartbeat : Reader Heartbeat
decode_heartbeat = do
  stream_id ← u64
  next_seq ← u64
  file_id ← u64
  offset ← u64
  durable_offset ← u64
  recv_window_bytes ← u64
  received_chunks ← counted read_received_chunk
  missing_ranges ← counted read_missing_chunk_range
  pure (record {
    stream_id = stream_id;
    next_seq = next_seq;
    file_id = file_id;
    offset = offset;
    durable_offset = durable_offset;
    recv_window_bytes = recv_window_bytes;
    received_chunks = received_chunks;
    missing_ranges = missing_ranges;
  })

unfoldable pub decode_nack : Reader Nack
decode_nack = do
  stream_id ← u64
  got_seq ← u64
  expected_seq ← u64
  file_id ← u64
  offset ← u64
  expected_file_id ← u64
  expected_offset ← u64
  reason ← code
  detail ← string
  pure (record {
    stream_id = stream_id;
    got_seq = got_seq;
    expected_seq = expected_seq;
    file_id = file_id;
    offset = offset;
    expected_file_id = expected_file_id;
    expected_offset = expected_offset;
    reason = reason;
    detail = detail;
  })
