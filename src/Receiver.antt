-- ===== src/Receiver.antt =====
-- The modules of src/receiver/.
pub mod Files
pub mod Append
pub mod DiskWriter
pub mod Context
pub mod Coordinator
pub mod Chunked
pub mod Commit
pub mod Events
pub mod Missing
pub mod Active
pub mod ActiveChunks
pub mod Commits
pub mod Accounting
pub mod Writes
pub mod Reassembly
pub mod Order
pub mod Ready
pub mod Names
pub mod Examples
