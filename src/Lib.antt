-- ===== src/Lib.antt =====
-- A verification library for yisync, a program that synchronises directories from a sender to a
-- receiver over several TCP lines at once.
--
-- The program. The sender scans a directory into a manifest, the receiver compares manifests and
-- answers where to start, and the sender transfers the entries: small files and growing ones by
-- CREATE and DATA appends, large ones by FILE_BEGIN, CHUNK and FILE_COMMIT. Every message is a frame
-- on one of the lines; a scheduler chooses the line by its window, its token bucket and its score,
-- and reports the sends that a failed line lost. Heartbeats of the receiver acknowledge what
-- arrived, complete the sends in flight and name the chunks that are missing.
--
-- The files, and the code that they model:
--   Common         names of the library, Boolean tests and lists over the native numbers
--   Protocol       src/core/yisync_protocol.cpp and include/core/yisync_protocol.hpp
--     Codes        the enumerations and their wire codes
--     Message      the message structs T_Hello .. T_Nack, T_Message and T_Frame
--     Writer       the class Writer; Reader the class Reader, its exceptions as errors
--     Encode       write_* and the overloads of encode_body
--     DecodeParts  the functions read_*; Decode the functions decode_*
--     Frame        encode_message, decode_message, encode_frame, decode_frame, crc32c_bytes
--     Fits, Reads, Inverse, RoundTrip   what decoding returns on what encoding wrote
--   Network        src/network/yisync_scheduler.cpp and include/network/yisync_scheduler.hpp
--     TokenBucket  the class TokenBucket
--     Line         LineState, and the part of each handler that works on one line
--     Scheduler    the class T_MultiLineScheduler: `make` is its constructor, each method a function
--                  from the state to the next one; Events has histories of calls
--   Sync           src/core/yisync_sync.cpp: manifests and their comparison, make_manifest2_stream
--     FileNames    file_name_for_id and parse_file_id; Chunks chunk_count_for_size
--     Checksums    the checksums of a file's bytes; Blocks relates those read by blocks to the whole
--     Diff         diff_stream against its specification
--   Sender         src/sender/
--     ChunkResend  yisync_chunk_resend.cpp; Marks has the calls of one transfer
--     AppendState  yisync_append_state.cpp; Transfer has send_append_if_possible and the append
--                  branch of on_heartbeat in yisync_sender_app.cpp
--     SendBuffer   yisync_send_buffer.cpp; Keys, Nacks and Refine are about it, and Flush has
--                  flush_retransmits and enqueue_rto_retransmits of yisync_sender_app.cpp
--     ChunkTransfer   send_file_begin, schedule_chunk_work and send_commit_if_possible of
--                  yisync_sender_app.cpp; Wanted, Ends and Commits are about its loop
--     Streams      the handlers of yisync_sender_app.cpp that change the streams: retransmissions,
--                  lost sends (Losses), the acknowledgements of chunks, the recovery
--     Rto          the class RtoEstimator of yisync_sender_app.cpp
--     Plan         yisync_sender_plan.cpp; Start joins it with Sync, Payloads has the chunks it reads
--   Receiver       src/receiver/yisync_receiver.cpp, the class T_ChunkedReceiverStream
--     Files        its state Impl and ActiveFile, the answers of the disk, the names of files
--     Chunked      apply(FILE_BEGIN) and apply(CHUNK); Commit the commit of a file, missing_ranges
--     Events       histories of calls
--     Active, ActiveChunks, Commits   what every call keeps of the active files
--     Writes, Reassembly   what the temporary file holds
--     Append       the class T_ReceiverStream of the same file; Session has histories of its calls,
--                  Prefix what its files hold, Again what a repeated message does
--     DiskWriter   yisync_disk_writer.cpp, SpscDiskWriter, a load or a store at a time; Ring is about its
--                  slots, Fifo has its invariant, Works the steps of the writer, Threads the
--                  interleavings of the two threads
--     Context      yisync_receiver_streams.cpp, the receivers and the counters of every stream
--     Coordinator  yisync_receiver_coordinator.cpp: the handlers of messages, over Append, Chunked
--                  and DiskWriter; Commits has on_commit, the jobs of the writer and the polls, Jobs
--                  which jobs are given and what their results are taken for
--   Resend         missing_ranges of the receiver against apply_missing_hints of the sender
--   */Examples     runs on concrete values, and the theorems at these
--
-- Numbers. An integer of the program is a native number; where the code adds 64-bit or 32-bit
-- integers the sum is taken modulo 2 ^ 64 or 2 ^ 32, and subtraction is written where the code has
-- established that it does not go below 0. A byte is a number, a string a list of bytes. An exception
-- is an error value. Every loop of the code is a recursion on the list or the count that it runs
-- over, but for these, which have fuel. The second loop of missing_ranges has the highest index
-- received, and each round passes an index below it. The loop that reads a file by blocks has the
-- bytes that are left, and each round reads one at least. The loop of flush_retransmits has the
-- length of the queue, and each round takes a key out of it or ends the loop. The loop of
-- schedule_chunk_work has a round more than chunks, and no chunk is offered in it twice. The loop
-- over the digits of a number has 20 rounds, and a 64-bit number has at most 20 digits.
--
-- Threads. The receiver's thread and the writer's share the ring and its counters. A step is a load
-- or a store of an atomic, or a write to a slot; only taking a task out of its slot and clearing the
-- slot are one step. A history is a list of steps of the two threads. The coordinator calls `enqueue`
-- as a whole, which is its steps without one of the writer's between them. The tasks that are run
-- are the jobs of the coordinator, whose results a poll reads later.
--
-- The disk. What the file system answers to a call of the receiver is an argument of the function
-- that models the call: whether a file exists, opens, or takes a write, and the checksum of a file.
-- The bytes of a temporary file are kept with the file that is active. The path of a file is the
-- name from the message or the number that names it.
--
-- Not modelled: sockets, threads beyond the disk writer's two, timers and files; the CRC-32C
-- library, whose result is an argument; the text in the detail of a NACK and of the log. The scan
-- and the watch of a directory, the timer of T_CommitCompletionPoller, the wait of `drain`, the
-- start and the event loop of the two applications, the dispatch of messages and the advance to the
-- next file in the sender's, the network sessions, the configuration of nodes and the demonstration
-- program have no model.
pub mod Common
pub mod Protocol
pub mod Network
pub mod Sync
pub mod Sender
pub mod Receiver
pub mod Resend
