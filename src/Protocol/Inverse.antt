-- ===== src/Protocol/Inverse.antt =====
-- Each decoder reads back what its encoder wrote.
use yisync.Common.{arith, length, ◌==◌, if◌then◌else◌}
use yisync.Protocol.Codes.{
  message_type_enum, role_enum, compression_enum, checksum_algo_enum, entry_kind_enum,
  nack_reason_enum, manifest2_action_enum, IsCode,
}
use yisync.Protocol.Message.{
  Bytes, FileChecksum, ManifestEntry, Manifest2Stream, ReceivedChunk, MissingChunkRange,
  MessageHeader, Manifest1Stream, Hello, Manifest1, Manifest2, Create, Data, FileBegin, Chunk,
  FileCommit, Heartbeat, Nack,
}
use yisync.Protocol.Reader.{Reader, Error, pure, throw, ◌>>=◌}
use yisync.Protocol.Encode.{
  write_checksum, write_manifest_entry, write_manifest2_stream, write_received_chunk,
  write_missing_chunk_range, write_header_prefix, write_manifest1_stream, encode_hello,
  encode_manifest1, encode_manifest2, encode_create, encode_data, encode_file_begin, encode_chunk,
  encode_file_commit, encode_heartbeat, encode_nack,
}
use yisync.Protocol.DecodeParts.{
  read_checksum, read_manifest_entry, read_manifest2_stream, read_received_chunk,
  read_missing_chunk_range, read_header_prefix, read_manifest1_stream,
}
use yisync.Protocol.Decode.{
  decode_hello, decode_manifest1, decode_manifest2, decode_create, decode_data, decode_file_begin,
  decode_chunk, decode_file_commit, decode_heartbeat, decode_nack,
}
use yisync.Protocol.Fits.{
  FitsFileChecksum, FitsManifestEntry, FitsManifest2Stream, FitsReceivedChunk,
  FitsMissingChunkRange, FitsMessageHeader, FitsManifest1Stream, FitsHello, FitsManifest1,
  FitsManifest2, FitsCreate, FitsData, FitsFileBegin, FitsChunk, FitsFileCommit, FitsHeartbeat,
  FitsNack,
}
use yisync.Protocol.Reads.{
  Reads, Reads-bind, Reads-last, u8-Reads, u16-Reads, u32-Reads, u64-Reads, size-Reads, bytes-Reads,
  string-Reads, code-Reads, counted-Reads,
}

-- The last read of DATA and CHUNK, whose size is compared with the one sent ahead.
Reads-checked :
    {A : Type 0} {m : Reader Bytes} (g : Bytes → A) {xs p : Bytes} (e : Error)
    → Reads m xs p
    → Reads (m >>= λ x. if length x == length p then pure (g x) else throw e) xs (g p)
unfolding ◌>>=◌ pure
Reads-checked g {xs} {p} e q = record {
  run = λ rest. rw (q.run rest) (ground arith);
  cut = λ front x back h. rw (q.cut front x back h);
}

pub read_checksum-Reads :
    (m : FileChecksum) → FitsFileChecksum m → Reads read_checksum (write_checksum m) m
unfolding read_checksum write_checksum
read_checksum-Reads m h = Reads-bind _ (code-Reads _ h.algo) (
    Reads-bind _ (u64-Reads _ h.offset)
      (Reads-bind _ (u64-Reads _ h.len) (Reads-last _ (bytes-Reads _ h.value))))

pub read_manifest_entry-Reads :
    (m : ManifestEntry) → FitsManifestEntry m → Reads read_manifest_entry (write_manifest_entry m) m
unfolding read_manifest_entry write_manifest_entry
read_manifest_entry-Reads m h = Reads-bind _ (u64-Reads _ h.file_id) (
    Reads-bind _ (u64-Reads _ h.seq) (
      Reads-bind _ (code-Reads _ h.kind) (
        Reads-bind _ (string-Reads _ h.name) (
          Reads-bind _ (string-Reads _ h.link_target) (
            Reads-bind _ (u64-Reads _ h.size) (Reads-last _ (read_checksum-Reads _ h.checksum)))))))

pub read_manifest2_stream-Reads :
    (m : Manifest2Stream)
    → FitsManifest2Stream m
    → Reads read_manifest2_stream (write_manifest2_stream m) m
unfolding read_manifest2_stream write_manifest2_stream
read_manifest2_stream-Reads m h = Reads-bind _ (u64-Reads _ h.stream_id) (
    Reads-bind _ (code-Reads _ h.action)
      (Reads-bind _ (u64-Reads _ h.start_file_id) (Reads-last _ (u64-Reads _ h.start_offset))))

pub read_received_chunk-Reads :
    (m : ReceivedChunk) → FitsReceivedChunk m → Reads read_received_chunk (write_received_chunk m) m
unfolding read_received_chunk write_received_chunk
read_received_chunk-Reads m h =
    Reads-bind _ (u64-Reads _ h.seq)
      (Reads-bind _ (u64-Reads _ h.file_id) (Reads-last _ (u64-Reads _ h.chunk_index)))

pub read_missing_chunk_range-Reads :
    (m : MissingChunkRange)
    → FitsMissingChunkRange m
    → Reads read_missing_chunk_range (write_missing_chunk_range m) m
unfolding read_missing_chunk_range write_missing_chunk_range
read_missing_chunk_range-Reads m h = Reads-bind _ (u64-Reads _ h.seq) (
    Reads-bind _ (u64-Reads _ h.file_id) (
      Reads-bind _ (u64-Reads _ h.first_chunk_index)
        (Reads-last _ (u64-Reads _ h.last_chunk_index))))

pub read_header_prefix-Reads :
    (m : MessageHeader) → FitsMessageHeader m → Reads read_header_prefix (write_header_prefix m) m
unfolding read_header_prefix write_header_prefix
read_header_prefix-Reads m h = Reads-bind _ (u32-Reads _ h.magic) (
    Reads-bind _ (u8-Reads _ h.version) (
      Reads-bind _ (code-Reads _ h.msg_type)
        (Reads-bind _ (u16-Reads _ h.header_len) (Reads-last _ (u32-Reads _ h.body_len)))))

pub read_manifest1_stream-Reads :
    (m : Manifest1Stream)
    → FitsManifest1Stream m
    → Reads read_manifest1_stream (write_manifest1_stream m) m
unfolding read_manifest1_stream write_manifest1_stream
read_manifest1_stream-Reads m h = Reads-bind _ (u64-Reads _ h.stream_id) (
    Reads-bind _ (string-Reads _ h.root) (
      Reads-last _ (
        counted-Reads FitsManifestEntry (λ v p. read_manifest_entry-Reads v p) _ h.entries_count
          h.entries)))

pub decode_hello-Reads : (m : Hello) → FitsHello m → Reads decode_hello (encode_hello m) m
unfolding decode_hello encode_hello
decode_hello-Reads m h = Reads-bind _ (string-Reads _ h.node_id) (
    Reads-bind _ (code-Reads _ h.role) (
      Reads-bind _ (u16-Reads _ h.min_version) (
        Reads-bind _ (u16-Reads _ h.max_version) (
          Reads-bind _ (u64-Reads _ h.feature_flags) (
            Reads-bind _ (u64-Reads _ h.required_feature_flags) (
              Reads-bind _ (u32-Reads _ h.chunk_size) (
                Reads-bind _ (u64-Reads _ h.max_inflight_bytes) (
                  Reads-bind _
                    (counted-Reads IsCode (λ v p. code-Reads v p) _ h.supported_compression_count
                      h.supported_compression)
                    (Reads-last _ (
                      counted-Reads IsCode (λ v p. code-Reads v p) _ h.supported_checksum_count
                        h.supported_checksum))))))))))

pub decode_manifest1-Reads :
    (m : Manifest1) → FitsManifest1 m → Reads decode_manifest1 (encode_manifest1 m) m
unfolding decode_manifest1 encode_manifest1
decode_manifest1-Reads m h = Reads-bind _ (u64-Reads _ h.manifest_id) (
    Reads-last _ (
      counted-Reads FitsManifest1Stream (λ v p. read_manifest1_stream-Reads v p) _ h.streams_count
        h.streams))

pub decode_manifest2-Reads :
    (m : Manifest2) → FitsManifest2 m → Reads decode_manifest2 (encode_manifest2 m) m
unfolding decode_manifest2 encode_manifest2
decode_manifest2-Reads m h = Reads-bind _ (u64-Reads _ h.manifest_id) (
    Reads-last _ (
      counted-Reads FitsManifest2Stream (λ v p. read_manifest2_stream-Reads v p) _ h.streams_count
        h.streams))

pub decode_create-Reads : (m : Create) → FitsCreate m → Reads decode_create (encode_create m) m
unfolding decode_create encode_create
decode_create-Reads m h = Reads-bind _ (u64-Reads _ h.stream_id) (
    Reads-bind _ (u64-Reads _ h.seq) (
      Reads-bind _ (u64-Reads _ h.file_id) (
        Reads-bind _ (code-Reads _ h.kind) (
          Reads-bind _ (string-Reads _ h.name) (
            Reads-bind _ (string-Reads _ h.link_target) (
              Reads-bind _ (u64-Reads _ h.final_size) (
                Reads-bind _ (u64-Reads _ h.prev_file_id) (
                  Reads-bind _ (u64-Reads _ h.prev_final_size)
                    (Reads-last _ (read_checksum-Reads _ h.prev_checksum))))))))))

pub decode_data-Reads : (m : Data) → FitsData m → Reads decode_data (encode_data m) m
unfolding decode_data encode_data
decode_data-Reads m h = Reads-bind _ (u64-Reads _ h.stream_id) (
    Reads-bind _ (u64-Reads _ h.seq) (
      Reads-bind _ (u64-Reads _ h.file_id) (
        Reads-bind _ (u64-Reads _ h.offset) (
          Reads-bind _ (u64-Reads _ h.final_size) (
            Reads-bind _ (u32-Reads _ h.raw_len) (
              Reads-bind _ (size-Reads _ h.payload) (
                Reads-bind _ (code-Reads _ h.compression) (
                  Reads-bind _ (code-Reads _ h.checksum_algo) (
                    Reads-bind _ (bytes-Reads _ h.checksum)
                      (Reads-checked _ _ (bytes-Reads _ h.payload)))))))))))

pub decode_file_begin-Reads :
    (m : FileBegin) → FitsFileBegin m → Reads decode_file_begin (encode_file_begin m) m
unfolding decode_file_begin encode_file_begin
decode_file_begin-Reads m h = Reads-bind _ (u64-Reads _ h.stream_id) (
    Reads-bind _ (u64-Reads _ h.seq) (
      Reads-bind _ (u64-Reads _ h.file_id) (
        Reads-bind _ (string-Reads _ h.name) (
          Reads-bind _ (u64-Reads _ h.final_size) (
            Reads-bind _ (u64-Reads _ h.chunk_size) (
              Reads-bind _ (u64-Reads _ h.chunk_count) (
                Reads-bind _ (read_checksum-Reads _ h.file_checksum) (
                  Reads-bind _ (u64-Reads _ h.prev_file_id) (
                    Reads-bind _ (u64-Reads _ h.prev_final_size)
                      (Reads-last _ (read_checksum-Reads _ h.prev_checksum)))))))))))

pub decode_chunk-Reads : (m : Chunk) → FitsChunk m → Reads decode_chunk (encode_chunk m) m
unfolding decode_chunk encode_chunk
decode_chunk-Reads m h = Reads-bind _ (u64-Reads _ h.stream_id) (
    Reads-bind _ (u64-Reads _ h.seq) (
      Reads-bind _ (u64-Reads _ h.file_id) (
        Reads-bind _ (u64-Reads _ h.chunk_index) (
          Reads-bind _ (u64-Reads _ h.offset) (
            Reads-bind _ (u32-Reads _ h.raw_len) (
              Reads-bind _ (size-Reads _ h.payload) (
                Reads-bind _ (code-Reads _ h.compression) (
                  Reads-bind _ (code-Reads _ h.checksum_algo) (
                    Reads-bind _ (bytes-Reads _ h.checksum)
                      (Reads-checked _ _ (bytes-Reads _ h.payload)))))))))))

pub decode_file_commit-Reads :
    (m : FileCommit) → FitsFileCommit m → Reads decode_file_commit (encode_file_commit m) m
unfolding decode_file_commit encode_file_commit
decode_file_commit-Reads m h =
    Reads-bind _ (u64-Reads _ h.stream_id)
      (Reads-bind _ (u64-Reads _ h.seq) (Reads-last _ (u64-Reads _ h.file_id)))

pub decode_heartbeat-Reads :
    (m : Heartbeat) → FitsHeartbeat m → Reads decode_heartbeat (encode_heartbeat m) m
unfolding decode_heartbeat encode_heartbeat
decode_heartbeat-Reads m h = Reads-bind _ (u64-Reads _ h.stream_id) (
    Reads-bind _ (u64-Reads _ h.next_seq) (
      Reads-bind _ (u64-Reads _ h.file_id) (
        Reads-bind _ (u64-Reads _ h.offset) (
          Reads-bind _ (u64-Reads _ h.durable_offset) (
            Reads-bind _ (u64-Reads _ h.recv_window_bytes) (
              Reads-bind _
                (counted-Reads FitsReceivedChunk (λ v p. read_received_chunk-Reads v p) _
                  h.received_chunks_count h.received_chunks)
                (Reads-last _ (
                  counted-Reads FitsMissingChunkRange (λ v p. read_missing_chunk_range-Reads v p) _
                    h.missing_ranges_count h.missing_ranges))))))))

pub decode_nack-Reads : (m : Nack) → FitsNack m → Reads decode_nack (encode_nack m) m
unfolding decode_nack encode_nack
decode_nack-Reads m h = Reads-bind _ (u64-Reads _ h.stream_id) (
    Reads-bind _ (u64-Reads _ h.got_seq) (
      Reads-bind _ (u64-Reads _ h.expected_seq) (
        Reads-bind _ (u64-Reads _ h.file_id) (
          Reads-bind _ (u64-Reads _ h.offset) (
            Reads-bind _ (u64-Reads _ h.expected_file_id) (
              Reads-bind _ (u64-Reads _ h.expected_offset) (
                Reads-bind _ (code-Reads _ h.reason) (Reads-last _ (string-Reads _ h.detail)))))))))
