-- ===== src/Network.antt =====
-- include/network and src/network: the lines between sender and receiver.
pub mod TokenBucket
pub mod Line
pub mod Scheduler
pub mod Examples
