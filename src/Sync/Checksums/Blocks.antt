-- ===== src/Sync/Checksums/Blocks.antt =====
-- What the checksums of src/core/yisync_sync.cpp are of, given that the library's `Extend` goes on
-- where it has stopped.
use yisync.Common.{
  ℕ, zero, suc, ◌+◌, ◌-◌, ◌%◌, ◌≤◌, ◌<◌, ◌≡◌, refl, ap, [], ◌∷◌, ◌++◌, true, false, arith, ltb,
  ◌==◌, length, take, drop, length-append, u64_mod, IsU64, min, ok, is_empty, length-take,
  length-drop, take-drop, take-append_le, drop-append_le,
}
use yisync.Protocol.Codes.{ChecksumAlgo}
use yisync.Protocol.Message.{Bytes, FileChecksum}
use yisync.Protocol.Frame.{crc32c_bytes}
use yisync.Sync.Diff.{bytes_equal_refl}
use yisync.Sync.Checksums.{
  checksum_buffer_bytes, read_blocks, value_of, crc32c_file_range, checksum_matches,
  make_crc32c_range_checksum,
}

-- The documented use of `crc32c::Extend`: a checksum is extended by some bytes, and by no bytes
-- stays as it is.
pub record Extends (extend : ℕ → Bytes → ℕ) : Type 0 where
  pub nothing : (crc : ℕ) → extend crc [] ≡ crc
  pub parts : (crc : ℕ) (xs ys : Bytes) → extend (extend crc xs) ys ≡ extend crc (xs ++ ys)

some-length : (xs : Bytes) → 0 < length xs → is_empty xs ≡ false
some-length [] h = absurd (omega arith)
some-length (x ∷ xs) h = refl

module _ (extend : ℕ → Bytes → ℕ) where
  read_blocks-whole :
      (extends : Extends extend) (fuel : ℕ) (rest : Bytes) (remaining crc : ℕ)
      → remaining ≤ fuel
      → remaining ≤ length rest
      → read_blocks extend fuel rest remaining crc ≡ ok (extend crc (take remaining rest))
  unfolding read_blocks
  read_blocks-whole x zero rest remaining crc h k =
      let e : remaining ≡ 0 = omega arith in rw (e, x.nothing crc) refl
  read_blocks-whole x (suc fuel) rest zero crc h k = rw (x.nothing crc) refl
  read_blocks-whole x (suc fuel) rest (suc r) crc h k =
      let n = min (suc r) checksum_buffer_bytes in
      let block = take n rest in
      let len : length block ≡ n = length-take n rest (omega arith) in
      let more : is_empty block ≡ false = some-length block (omega (arith, len)) in
      let behind = length-drop n rest in
      rw
        (
          more,
          len,
          read_blocks-whole x fuel (drop n rest) (suc r - n) (extend crc block) (omega arith)
              (omega (arith, behind)),
          x.parts crc block (take (suc r - n) (drop n rest)),
          take-drop n (suc r - n) (suc r) rest (omega arith),
        )
        (ground arith)

  -- placeholder
  pub crc32c_file_range-whole :
      (file : Bytes) (offset len : ℕ)
      → Extends extend
      → offset + len ≤ length file
      → crc32c_file_range extend file offset len
        ≡ ok (crc32c_bytes (extend 0 (take len (drop offset file))))
  unfolding crc32c_file_range
  crc32c_file_range-whole file offset len x h = ap value_of (
      read_blocks-whole x len (drop offset file) len 0 (omega arith)
        (omega (arith, length-drop offset file)))

  range-append :
      (file more : Bytes) (offset len : ℕ)
      → offset + len ≤ length file
      → take len (drop offset (file ++ more)) ≡ take len (drop offset file)
  range-append file more offset len h =
      rw (drop-append_le offset file more (omega arith))
        (take-append_le len (drop offset file) more (omega (arith, length-drop offset file)))

  -- For a library function that extends a checksum by parts, a range above 0 bytes and sizes of
  -- 64 bits: `make_crc32c_range_checksum` of a file returns a checksum, and `checksum_matches`
  -- accepts it for the file, also when the file has grown.
  pub make_crc32c_range_checksum-matches :
      (file more : Bytes) (max_len : ℕ)
      → Extends extend
      → 0 < max_len
      → IsU64 (length (file ++ more))
      → (checksum : FileChecksum) × (make_crc32c_range_checksum extend file max_len ≡ ok checksum)
        × (checksum_matches extend checksum (file ++ more) ≡ ok true)
  unfolding make_crc32c_range_checksum checksum_matches
  make_crc32c_range_checksum-matches [] more max_len x h u =
      let none_read : min 0 max_len ≡ 0 = omega arith in
      let checksum : FileChecksum = record {
        algo = ChecksumAlgo.none;
        offset = 0 - 0;
        len = 0;
        value = [];
      } in
      (checksum, rw none_read refl, refl)
  make_crc32c_range_checksum-matches (b ∷ bs) more max_len x h u =
      let file = b ∷ bs in
      let len = min (length file) max_len in
      let offset = length file - len in
      let bound : offset + len ≤ length file = omega arith in
      let total = length-append file more in
      let some_read : ltb 0 len ≡ true = ground arith in
      let not_empty : length file == 0 ≡ false = ground arith in
      let whole = crc32c_file_range-whole file offset len x bound in
      let whole2 = crc32c_file_range-whole (file ++ more) offset len x (omega (arith, total)) in
      let same = range-append file more offset len bound in
      let o : ltb (length (file ++ more)) offset ≡ false = ground (arith, total) in
      let l : ltb (length (file ++ more)) len ≡ false = ground (arith, total) in
      let ol : ltb (length (file ++ more)) ((offset + len) % u64_mod) ≡ false =
        ground (arith, total) in
      let value = crc32c_bytes (extend 0 (take len (drop offset file))) in
      let checksum : FileChecksum = record {
        algo = ChecksumAlgo.crc32c;
        offset = offset;
        len = len;
        value = value;
      } in
      (
        checksum,
        rw (not_empty, some_read, whole) refl,
        rw (o, l, ol, whole2, same, bytes_equal_refl value) refl,
      )
