-- ===== src/Protocol.antt =====
-- include/core/yisync_protocol.hpp and src/core/yisync_protocol.cpp: the wire protocol.
pub mod Codes
pub mod Message
pub mod Writer
pub mod Reader
pub mod Encode
pub mod DecodeParts
pub mod Decode
pub mod Fits
pub mod Reads
pub mod Inverse
pub mod Frame
pub mod RoundTrip
pub mod Examples
