-- ===== src/Protocol/RoundTrip.antt =====
-- What the decoders of src/core/yisync_protocol.cpp return on what the encoders wrote: whole, with
-- bytes behind it, or cut short.
use yisync.Common.{
  ok, err, ℕ, ◌+◌, ◌%◌, ◌<◌, ◌≡◌, ◌≢◌, refl, sym, ap, subst, ◌∙◌, inl, inr, [], ◌∷◌, ◌++◌, arith,
  length, take, drop, ltb, if◌then◌else◌, true, false, append_assoc, length-append, take-append,
  drop-append, append-nil, u32_mod,
}
use yisync.Protocol.Codes.{IsCode, message_type_enum}
use yisync.Protocol.Message.{Bytes, MessageHeader, Message}
use yisync.Protocol.Writer
use yisync.Protocol.Encode.{encode_body, write_header_prefix}
use yisync.Protocol.DecodeParts.{read_header_prefix}
use yisync.Protocol.Fits.{Fits, FitsMessageHeader}
use yisync.Protocol.Reads.{Reads, Reads-last, append_split}
use yisync.Protocol.Reader.{
  done, truncated_body, trailing_bytes, frame_length_mismatch, truncated_header,
}
use yisync.Protocol.Inverse.{
  read_header_prefix-Reads, decode_hello-Reads, decode_manifest1-Reads, decode_manifest2-Reads,
  decode_create-Reads, decode_data-Reads, decode_file_begin-Reads, decode_chunk-Reads,
  decode_file_commit-Reads, decode_heartbeat-Reads, decode_nack-Reads,
}
use yisync.Protocol.Frame.{
  header_length, message_type, encode_message, decode_body, decode_message, encode_frame,
  check_frame, decode_frame,
}

decode_body-Reads : (m : Message) → Fits m → Reads (decode_body (message_type m)) (encode_body m) m
unfolding decode_body encode_body
decode_body-Reads (Message.hello m) h = Reads-last _ (decode_hello-Reads m h)
decode_body-Reads (Message.manifest1 m) h = Reads-last _ (decode_manifest1-Reads m h)
decode_body-Reads (Message.manifest2 m) h = Reads-last _ (decode_manifest2-Reads m h)
decode_body-Reads (Message.create m) h = Reads-last _ (decode_create-Reads m h)
decode_body-Reads (Message.data_message m) h = Reads-last _ (decode_data-Reads m h)
decode_body-Reads (Message.file_begin m) h = Reads-last _ (decode_file_begin-Reads m h)
decode_body-Reads (Message.chunk m) h = Reads-last _ (decode_chunk-Reads m h)
decode_body-Reads (Message.file_commit m) h = Reads-last _ (decode_file_commit-Reads m h)
decode_body-Reads (Message.heartbeat m) h = Reads-last _ (decode_heartbeat-Reads m h)
decode_body-Reads (Message.nack m) h = Reads-last _ (decode_nack-Reads m h)

-- A frame whose body is replaced is decoded by the decoder of its message type.
decode_message-body :
    (m : Message) (body : Bytes)
    → decode_message (record (encode_message m) { body = body })
      ≡ done (decode_body (message_type m) body)
unfolding decode_message encode_message
decode_message-body m body = refl

-- Decoding the frame of a message returns the message.
pub decode_message-encode_message :
    (m : Message) → Fits m → decode_message (encode_message m) ≡ ok m
unfolding done encode_message
decode_message-encode_message m h =
    decode_message-body m (encode_body m)
    ∙ ap done
        (ap (decode_body (message_type m)) (sym (append-nil _)) ∙ (decode_body-Reads m h).run [])

-- For every message whose fields fit, a body with at least one byte behind the encoded message
-- is refused as having trailing bytes.
pub decode_message_trailing :
    (m : Message) (x : ℕ) (extra : Bytes)
    → Fits m
    → decode_message (record (encode_message m) { body = encode_body m ++ (x ∷ extra) })
      ≡ err trailing_bytes
unfolding done
decode_message_trailing m x extra h =
    decode_message-body m _ ∙ ap done ((decode_body-Reads m h).run (x ∷ extra))

-- For every message whose fields fit, a body that ends anywhere inside the encoded message is
-- refused as truncated.
pub decode_message_truncated :
    (m : Message) (front : Bytes) (x : ℕ) (back : Bytes)
    → Fits m
    → encode_body m ≡ front ++ (x ∷ back)
    → decode_message (record (encode_message m) { body = front }) ≡ err truncated_body
unfolding done
decode_message_truncated m front x back h e =
    decode_message-body m _ ∙ ap done ((decode_body-Reads m h).cut front x back e)

message_type-IsCode : (m : Message) → IsCode (message_type m)
message_type-IsCode (Message.hello m) = (omega arith, refl)
message_type-IsCode m = (omega arith, refl)

encode_message-header : (m : Message) → FitsMessageHeader (encode_message m).header
unfolding encode_message
encode_message-header m = record {
  magic = omega arith;
  version = omega arith;
  msg_type = message_type-IsCode m;
  header_len = omega arith;
  body_len = omega arith;
}

length-write_header_prefix :
    (header : MessageHeader) → length (write_header_prefix header) ≡ header_length
unfolding write_header_prefix Writer.u8 Writer.u16 Writer.u32 Writer.code
length-write_header_prefix header = refl

drop-header :
    (header : MessageHeader) (body : Bytes)
    → drop header_length (write_header_prefix header ++ body) ≡ body
drop-header header body =
    subst (λ n. drop n (write_header_prefix header ++ body) ≡ body)
      (length-write_header_prefix header) (drop-append (write_header_prefix header) body)

decode_frame_short :
    (bs : Bytes) → ltb (length bs) header_length ≡ true → decode_frame bs ≡ err truncated_header
unfolding decode_frame
decode_frame_short bs short = rw short refl

-- `decode_frame` reads back the header in front, and goes on to its checks.
decode_frame-append :
    (header : MessageHeader) (body : Bytes)
    → FitsMessageHeader header
    → decode_frame (write_header_prefix header ++ body)
      ≡ check_frame (write_header_prefix header ++ body) header
unfolding decode_frame done
decode_frame-append header body h =
    let front = write_header_prefix header in
    let whole : ltb (length (front ++ body)) header_length ≡ false =
      ground (arith, length-append front body, length-write_header_prefix header) in
    let taken : take header_length (front ++ body) ≡ front =
      rw (← length-write_header_prefix header) (take-append front body) in
    let read : read_header_prefix front ≡ ok (header, []) =
      ap read_header_prefix (sym (append-nil front)) ∙ (read_header_prefix-Reads header h).run [] in
    rw (whole, taken, read) refl

-- The two outcomes of the length check.
module _ (bs : Bytes) (header : MessageHeader) (twelve : header.header_len ≡ header_length) where
  check_frame_matches :
      length bs ≡ (header_length + header.body_len) % u32_mod
      → check_frame bs header ≡ ok (record { header = header; body = drop header.header_len bs })
  unfolding check_frame
  check_frame_matches e = ground arith

  check_frame_differs :
      length bs ≢ (header_length + header.body_len) % u32_mod
      → check_frame bs header ≡ err frame_length_mismatch
  unfolding check_frame
  check_frame_differs ne = ground arith

-- The frame length of a message, which the receiver compares, fits 32 bits.
abbrev pub FitsFrame : Message → Type 0
FitsFrame m = header_length + length (encode_body m) < u32_mod

module _ (m : Message) (fits : Fits m) (small : FitsFrame m) where
  header : MessageHeader
  header = (encode_message m).header

  size : (body : Bytes) → length (write_header_prefix header ++ body) ≡ header_length + length body
  size body =
      length-append (write_header_prefix header) body ∙ rw (length-write_header_prefix header)

  -- For every message of each of the ten types whose fields fit their C++ types and whose frame
  -- length fits 32 bits, `decode_frame` returns the frame that `encode_frame` wrote, and
  -- `decode_message` returns the message from it.
  pub decode-encode_frame :
      (decode_frame (encode_frame m) ≡ ok (encode_message m))
      × (decode_message (encode_message m) ≡ ok m)
  unfolding encode_frame encode_message header
  decode-encode_frame = (
    decode_frame-append header (encode_body m) (encode_message-header m)
        ∙ check_frame_matches _ header refl (omega (arith, size (encode_body m)))
        ∙ ap (λ (body : Bytes). ok (record { header = header; body = body }))
            (drop-header header (encode_body m)),
    decode_message-encode_message m fits,
  )

  -- For every message whose fields and frame length fit, its frame with at least one more byte
  -- is refused by its length.
  pub decode_frame_longer :
      (x : ℕ) (extra : Bytes)
      → decode_frame (encode_frame m ++ (x ∷ extra)) ≡ err frame_length_mismatch
  unfolding encode_frame encode_message header
  decode_frame_longer x extra =
      rw (append_assoc (write_header_prefix header) (encode_body m) (x ∷ extra)) (
        decode_frame-append header (encode_body m ++ (x ∷ extra)) (encode_message-header m)
        ∙ check_frame_differs _ header refl λ e. omega (
          arith,
          e,
          size (encode_body m ++ (x ∷ extra)),
          length-append (encode_body m) (x ∷ extra),
        ))

  -- For every message whose fields and frame length fit, a proper prefix of its frame is
  -- refused: as a truncated header below twelve bytes, by its length from there on.
  pub decode_frame_shorter :
      (front : Bytes) (x : ℕ) (back : Bytes)
      → encode_frame m ≡ front ++ (x ∷ back)
      → decode_frame front ≡ (
          if ltb (length front) header_length
          then err truncated_header
          else err frame_length_mismatch)
  unfolding encode_frame encode_message header
  decode_frame_shorter front x back e =
      elim (append_split (write_header_prefix header) (encode_body m) front x back e) [
        | inl (z, zs, inside) ↦
            let short : ltb (length front) header_length ≡ true = ground (
              arith,
              ap length inside,
              length-append front (z ∷ zs),
              length-write_header_prefix header,
            ) in
            rw short (decode_frame_short front short)
        | inr (mid, behind, rest) ↦
            let long : ltb (length front) header_length ≡ false =
              ground (arith, ap length behind, size mid) in
            rw long (
              ap decode_frame behind
              ∙ decode_frame-append header mid (encode_message-header m)
              ∙ check_frame_differs _ header refl
                  λ eq. omega (arith, eq, size mid, ap length rest, length-append mid (x ∷ back)))
      ]
