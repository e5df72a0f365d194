-- ===== src/Protocol/Frame.antt =====
-- Frames: `encode_message`, `decode_message`, `encode_frame`, `decode_frame` and `crc32c_bytes` of
-- src/core/yisync_protocol.cpp.
use yisync.Common.{
  ok, err, ℕ, ◌+◌, ◌/◌, ◌%◌, ◌^◌, [], ◌∷◌, ◌++◌, length, take, drop, ltb, ◌==◌, if◌then◌else◌,
  u32_mod,
}
use yisync.Protocol.Codes.{MessageType}
use yisync.Protocol.Message.{Bytes, MessageHeader, Message, Frame}
use yisync.Protocol.Encode.{encode_body, write_header_prefix}
use yisync.Protocol.DecodeParts.{read_header_prefix}
use yisync.Protocol.Decode.{
  decode_hello, decode_manifest1, decode_manifest2, decode_create, decode_data, decode_file_begin,
  decode_chunk, decode_file_commit, decode_heartbeat, decode_nack,
}
use yisync.Protocol.Reader.{
  Reader, Decoded, pure, throw, ◌>>=◌, done, bad_magic, unsupported_version, unsupported_type,
  truncated_header, unsupported_header_length, frame_length_mismatch,
}

abbrev pub magic_number : ℕ
magic_number = 0x59495359

abbrev pub header_length : ℕ
header_length = 12

-- `crc32c` is the vendored CRC32C library: `crc` is its result, a `uint32_t`.
unfoldable pub crc32c_bytes : ℕ → Bytes
crc32c_bytes crc =
    (crc % 256) ∷ (crc / 2 ^ 8 % 256) ∷ (crc / 2 ^ 16 % 256) ∷ (crc / 2 ^ 24 % 256) ∷ []

abbrev pub message_type : Message → MessageType
message_type (Message.hello m) = MessageType.hello
message_type (Message.manifest1 m) = MessageType.manifest1
message_type (Message.manifest2 m) = MessageType.manifest2
message_type (Message.create m) = MessageType.create
message_type (Message.data_message m) = MessageType.data_message
message_type (Message.file_begin m) = MessageType.file_begin
message_type (Message.chunk m) = MessageType.chunk
message_type (Message.file_commit m) = MessageType.file_commit
message_type (Message.heartbeat m) = MessageType.heartbeat
message_type (Message.nack m) = MessageType.nack

unfoldable pub encode_message : Message → Frame
encode_message m = record {
  header = record {
    magic = magic_number;
    version = 1;
    msg_type = message_type m;
    header_len = header_length;
    body_len = length (encode_body m) % u32_mod;
  };
  body = encode_body m;
}

-- The switch of `decode_message`.
unfoldable pub decode_body : MessageType → Reader Message
decode_body MessageType.hello = decode_hello >>= λ m. pure (Message.hello m)
decode_body MessageType.manifest1 = decode_manifest1 >>= λ m. pure (Message.manifest1 m)
decode_body MessageType.manifest2 = decode_manifest2 >>= λ m. pure (Message.manifest2 m)
decode_body MessageType.create = decode_create >>= λ m. pure (Message.create m)
decode_body MessageType.data_message = decode_data >>= λ m. pure (Message.data_message m)
decode_body MessageType.file_begin = decode_file_begin >>= λ m. pure (Message.file_begin m)
decode_body MessageType.chunk = decode_chunk >>= λ m. pure (Message.chunk m)
decode_body MessageType.file_commit = decode_file_commit >>= λ m. pure (Message.file_commit m)
decode_body MessageType.heartbeat = decode_heartbeat >>= λ m. pure (Message.heartbeat m)
decode_body MessageType.nack = decode_nack >>= λ m. pure (Message.nack m)
decode_body (MessageType.unnamed n) = throw unsupported_type

unfoldable pub decode_message : Frame → Decoded Message
decode_message frame =
    if frame.header.magic == magic_number
    then (if frame.header.version == 1
        then done (decode_body frame.header.msg_type frame.body)
        else err unsupported_version)
    else err bad_magic

unfoldable pub encode_frame : Message → Bytes
encode_frame m = let frame = encode_message m in write_header_prefix frame.header ++ frame.body

-- The checks on a decoded header. The sum of a `uint16_t` and a `uint32_t` is a `uint32_t`.
unfoldable pub check_frame : Bytes → MessageHeader → Decoded Frame
check_frame bs header =
    if header.header_len == header_length
    then (if length bs == (header.header_len + header.body_len) % u32_mod
        then ok (record { header = header; body = drop header.header_len bs })
        else err frame_length_mismatch)
    else err unsupported_header_length

abbrev pub then_check : Bytes → Decoded MessageHeader → Decoded Frame
then_check bs (ok header) = check_frame bs header
then_check bs (err e) = err e

unfoldable pub decode_frame : Bytes → Decoded Frame
decode_frame bs =
    if ltb (length bs) header_length
    then err truncated_header
    else then_check bs (done (read_header_prefix (take header_length bs)))
