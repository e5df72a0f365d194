-- ===== src/Sync/Checksums.antt =====
-- The checksums of files in src/core/yisync_sync.cpp. `extend` is `crc32c::Extend` of the library.
pub mod Blocks
use yisync.Common.{
  ℕ, zero, suc, ◌+◌, ◌-◌, ◌%◌, ◌*◌, ◌/◌, ◌^◌, ◌≤◌, ◌<◌, ◌≡◌, refl, sym, ap, ◌∙◌, List, [], ◌∷◌,
  ◌++◌, Option, none, some, Bool, true, false, not, ◌&&◌, ◌||◌, arith, Bool-cases, inl, inr, ltb,
  leb, ◌==◌, if◌then◌else◌, length, take, drop, length-append, u64_mod, IsU64, min, Result, ok, err,
  is_empty,
}
use yisync.Protocol.Codes.{ChecksumAlgo}
use yisync.Protocol.Message.{Bytes, FileChecksum}
use yisync.Protocol.Frame.{crc32c_bytes}
use yisync.Sync.{bytes_equal, same_algo}

abbrev pub checksum_buffer_bytes : ℕ
checksum_buffer_bytes = 4 * 1024 * 1024

pub data ReadError : Type 0 where
  short_read bad_algo : ReadError

abbrev pub value_of : Result ReadError ℕ → Result ReadError Bytes
value_of (ok crc) = ok (crc32c_bytes crc)
value_of (err e) = err e

-- Of a file that opens.
abbrev pub equals_value : Bytes → Result ReadError Bytes → Result ReadError Bool
equals_value value (ok bs) = ok (bytes_equal bs value)
equals_value value (err e) = err e

abbrev pub with_value :
    ChecksumAlgo → ℕ → ℕ → Result ReadError Bytes → Result ReadError FileChecksum
with_value algo offset len (ok value) =
    ok (record { algo = algo; offset = offset; len = len; value = value })
with_value algo offset len (err e) = err e

module _ (extend : ℕ → Bytes → ℕ) where
  -- The loop: `rest` is the file behind what is read. A round reads one byte at least, or throws.
  unfoldable pub read_blocks : ℕ → Bytes → ℕ → ℕ → Result ReadError ℕ
  read_blocks zero rest remaining crc = if remaining == 0 then ok crc else err short_read
  read_blocks (suc fuel) rest remaining crc =
      let block = take (min remaining checksum_buffer_bytes) rest in
      let more =
        read_blocks fuel (drop (length block) rest) (remaining - length block) (extend crc block) in
      if remaining == 0 then ok crc else (if is_empty block then err short_read else more)

  unfoldable pub crc32c_file_range : Bytes → ℕ → ℕ → Result ReadError Bytes
  crc32c_file_range file offset len = value_of (read_blocks len (drop offset file) len 0)

  unfoldable pub checksum_matches : FileChecksum → Bytes → Result ReadError Bool
  checksum_matches checksum file =
      let size = length file in
      if same_algo checksum.algo ChecksumAlgo.none
      then ok (checksum.len == 0)
      else (if not (same_algo checksum.algo ChecksumAlgo.crc32c)
          then err bad_algo
          else (if ltb size checksum.offset
                || ltb size checksum.len
                || ltb size ((checksum.offset + checksum.len) % u64_mod)
              then ok false
              else equals_value checksum.value
                  (crc32c_file_range file checksum.offset checksum.len)))

  unfoldable pub make_crc32c_range_checksum : Bytes → ℕ → Result ReadError FileChecksum
  make_crc32c_range_checksum file max_len =
      let size = length file in
      let algo = if size == 0 then ChecksumAlgo.none else ChecksumAlgo.crc32c in
      let len = min size max_len in
      with_value algo (size - len) len
        (if ltb 0 len then crc32c_file_range file (size - len) len else ok [])
