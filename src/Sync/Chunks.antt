-- ===== src/Sync/Chunks.antt =====
-- The number of chunks of a file, `chunk_count_for_size` of src/core/yisync_sync.cpp.
use yisync.Common.{
  ℕ, ◌+◌, ◌-◌, ◌*◌, ◌/◌, ◌%◌, ◌≤◌, ◌<◌, ◌≡◌, arith, ◌==◌, ok, Bool-cases, inl, inr, IsU64, u64_mod,
}
use yisync.Sync.{chunk_count_for_size}

-- `q` rounds up `n / d`.
round_up : (n d : ℕ) → 0 < d → 0 < n → (n ≤ (n + d - 1) / d * d) × ((n + d - 1) / d * d < n + d)
round_up n d h k = grind arith

below : (n d : ℕ) → n < d → n / d ≡ 0
below n d h = grind arith

-- For a chunk size above 0 and a sum of the sizes that fits 64 bits, the count is the number of
-- chunks that the file needs: so many hold it, and one less would not.
pub chunk_count_for_size_lem :
    (file_size chunk_size : ℕ)
    → 0 < chunk_size
    → file_size + chunk_size ≤ u64_mod
    → (count : ℕ) × (chunk_count_for_size file_size chunk_size ≡ ok count)
      × (file_size ≤ count * chunk_size)
      × (count * chunk_size < file_size + chunk_size)
unfolding chunk_count_for_size
chunk_count_for_size_lem file_size chunk_size h fits = elim (Bool-cases (file_size == 0)) [
  | inl empty ↦ (0, ground arith, ground arith, ground arith)
  | inr filled ↦
      let no_wrap : (file_size + chunk_size + u64_mod - 1) % u64_mod ≡ file_size + chunk_size - 1 =
        omega arith in
      let (enough, least) = round_up file_size chunk_size h (ground arith) in
      ((file_size + chunk_size - 1) / chunk_size, ground (arith, no_wrap), enough, least)
]

-- For 64-bit sizes whose sum exceeds 2 ^ 64, the file gets no chunk at all.
pub chunk_count_for_size_wraps :
    (file_size chunk_size : ℕ)
    → IsU64 file_size
    → IsU64 chunk_size
    → u64_mod < file_size + chunk_size
    → chunk_count_for_size file_size chunk_size ≡ ok 0
unfolding chunk_count_for_size
chunk_count_for_size_wraps file_size chunk_size f c over =
    let wrapped : (file_size + chunk_size + u64_mod - 1) % u64_mod < chunk_size = omega arith in
    let none : (file_size + chunk_size + u64_mod - 1) % u64_mod / chunk_size ≡ 0 =
      below _ chunk_size wrapped in
    ground (arith, none)
