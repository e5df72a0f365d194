-- ===== src/Sender.antt =====
-- include/sender and src/sender: what the sender keeps of the chunks and appends it has sent.
pub mod ChunkResend
pub mod AppendState
pub mod SendBuffer
pub mod Plan
pub mod ChunkTransfer
pub mod Rto
pub mod Streams
pub mod Examples
