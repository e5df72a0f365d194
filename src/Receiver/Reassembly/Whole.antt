-- ===== src/Receiver/Reassembly/Whole.antt =====
-- Whole transfers of a chunked file (src/receiver/yisync_receiver.cpp), up to its commit.
use yisync.Common.{ℕ, ◌+◌, ◌≤◌, ◌<◌, ◌≡◌, length, take, drop, u64_mod, u32_mod}
use yisync.Protocol.Message.{Bytes}
use yisync.Receiver.Files.{ActiveFile}
use yisync.Receiver.Events.{Event, begins, chunks}
use yisync.Receiver.Reassembly.{Built}

-- A message about the file with number `seq` is cut from the source: FILE_BEGIN has its size, and
-- a chunk size of 32 bits; CHUNK has the bytes of the range that it names.
abbrev pub Honest : Bytes → ℕ → Event → Type 0
Honest source seq (begins disk begin) =
    begin.seq ≡ seq → (begin.final_size ≡ length source) × (begin.chunk_size < u32_mod)
Honest source seq (chunks disk chunk) =
    chunk.seq ≡ seq → chunk.payload ≡ take chunk.raw_len (drop chunk.offset source)
Honest source seq e = Unit {0}

module _ (source : Bytes) (seq : ℕ) (fits : length source + u32_mod ≤ u64_mod) where
  abbrev IsBuilt : ActiveFile → Type 0
  IsBuilt f = f.seq ≡ seq → Built source f
