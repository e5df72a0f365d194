-- ===== src/Protocol/Examples.antt =====
-- Runs of the codec on concrete messages, and its theorems at these.
use yisync.Common.{◌≡◌, refl, [], ◌∷◌, ◌++◌, arith, ok, err}
use yisync.Protocol.Message.{Message, Bytes}
use yisync.Protocol.Codes.{Compression, ChecksumAlgo}
use yisync.Protocol.Writer
use yisync.Protocol.Writer.{shifted_bytes}
use yisync.Protocol.Reader.{truncated_body, trailing_bytes}
use yisync.Protocol.Encode.{encode_body, encode_chunk, encode_file_commit, write_header_prefix}
use yisync.Protocol.Fits.{Fits}
use yisync.Protocol.Frame.{encode_message, decode_message, encode_frame, decode_frame}
use yisync.Protocol.RoundTrip.{
  FitsFrame, decode-encode_frame, decode_message_trailing, decode_message_truncated,
}

abbrev commit : Message
commit = Message.file_commit (record { stream_id = 9001; seq = 258; file_id = 3 })

abbrev chunk : Message
chunk = Message.chunk (record {
  stream_id = 9001;
  seq = 7;
  file_id = 3;
  chunk_index = 2;
  offset = 131072;
  raw_len = 3;
  compression = Compression.none;
  checksum_algo = ChecksumAlgo.crc32c;
  checksum = 1 ∷ 2 ∷ 3 ∷ 4 ∷ [];
  payload = 97 ∷ 98 ∷ 99 ∷ [];
})

abbrev commit_body : Bytes
commit_body =
    0x29 ∷ 0x23 ∷ 0 ∷ 0 ∷ 0 ∷ 0 ∷ 0 ∷ 0 ∷ 2 ∷ 1 ∷ 0 ∷ 0 ∷ 0 ∷ 0 ∷ 0 ∷ 0 ∷ 3 ∷ 0 ∷ 0 ∷ 0 ∷ 0 ∷ 0 ∷ 0
    ∷ 0 ∷ []

-- Integers are little-endian.
commit_bytes : encode_body commit ≡ commit_body
unfolding encode_body encode_file_commit Writer.u64
commit_bytes = refl

-- The frame starts with the magic number, the version, the type 9, the header's length and the body's.
commit_frame :
    encode_frame commit ≡ 0x59 ∷ 0x53 ∷ 0x49 ∷ 0x59 ∷ 1 ∷ 9 ∷ 12 ∷ 0 ∷ 24 ∷ 0 ∷ 0 ∷ 0 ∷ commit_body
unfolding encode_frame encode_message write_header_prefix encode_body encode_file_commit Writer.u64
    Writer.u32 Writer.u16 Writer.u8 Writer.code
commit_frame = refl

chunk-Fits : Fits chunk
chunk-Fits = record {
  stream_id = omega arith;
  seq = omega arith;
  file_id = omega arith;
  chunk_index = omega arith;
  offset = omega arith;
  raw_len = omega arith;
  compression = (omega arith, refl);
  checksum_algo = (omega arith, refl);
  checksum = omega arith;
  payload = omega arith;
}

commit-Fits : Fits commit
commit-Fits = record { stream_id = omega arith; seq = omega arith; file_id = omega arith }

chunk-FitsFrame : FitsFrame chunk
unfolding encode_body encode_chunk Writer.u64 Writer.u32 Writer.u8 Writer.code Writer.bytes
chunk-FitsFrame = omega arith

commit-FitsFrame : FitsFrame commit
unfolding encode_body encode_file_commit Writer.u64
commit-FitsFrame = omega arith

decode-encode_frame_example :
    (decode_frame (encode_frame chunk) ≡ ok (encode_message chunk))
    × (decode_message (encode_message chunk) ≡ ok chunk)
decode-encode_frame_example = decode-encode_frame chunk chunk-Fits chunk-FitsFrame

decode_message_trailing_example :
    decode_message (record (encode_message chunk) { body = encode_body chunk ++ (0 ∷ []) })
    ≡ err trailing_bytes
decode_message_trailing_example = decode_message_trailing chunk 0 [] chunk-Fits

decode_message_truncated_example :
    decode_message (record (encode_message commit) { body = 0x29 ∷ 0x23 ∷ [] }) ≡ err truncated_body
decode_message_truncated_example =
    decode_message_truncated commit (0x29 ∷ 0x23 ∷ []) 0
      (0 ∷ 0 ∷ 0 ∷ 0 ∷ 0 ∷ 2 ∷ 1 ∷ 0 ∷ 0 ∷ 0 ∷ 0 ∷ 0 ∷ 0 ∷ 3 ∷ 0 ∷ 0 ∷ 0 ∷ 0 ∷ 0 ∷ 0 ∷ 0 ∷ [])
      commit-Fits commit_bytes
