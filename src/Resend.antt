-- ===== src/Resend.antt =====
-- The two ends of the transfer of a chunked file: what `missing_ranges` of
-- src/receiver/yisync_receiver.cpp reports, `apply_missing_hints` of
-- src/sender/yisync_chunk_resend.cpp marks for sending again.
use yisync.Common.{
  ℕ, zero, suc, ◌+◌, ◌-◌, ◌≤◌, ◌<◌, ◌≡◌, refl, ◌⊎◌, ◌↔◌, inl, inr, List, [], ◌∷◌, Option, none,
  some, true, false, ◌&&◌, arith, ltb, ◌==◌, get_or, Bool-cases, All,
}
use yisync.Protocol.Message.{MissingChunkRange}
use yisync.Receiver.Files.{ActiveFile, Stream, find_active}
use yisync.Receiver.Commit.{highest_received, gaps, ranges_below, missing_ranges}
use yisync.Receiver.Missing.{in_ranges, Missing, missing_ranges-Missing}
use yisync.Sender.ChunkResend.{ChunkResendState, apply_missing_hints}
use yisync.Sender.ChunkResend.Invariant.{IsValid}
use yisync.Sender.ChunkResend.Hints.{some_covers, apply_missing_hints-Hinted}

-- A range of this file.
abbrev Names : ℕ → ℕ → MissingChunkRange → Type 0
Names seq file_id r = (r.seq ≡ seq) × (r.file_id ≡ file_id)

gaps-Names :
    (f : ActiveFile) (highest fuel index room : ℕ)
    → All (Names f.seq f.file_id) (gaps f highest fuel index room)
unfolding gaps
gaps-Names f highest zero index room = tt
gaps-Names f highest (suc fuel) index room = elim (Bool-cases (ltb index highest && ltb 0 room)) [
  | inl goes ↦ elim (Bool-cases (get_or f.received index false)) [
    | inl here ↦ rw (goes, here) (gaps-Names f highest fuel (index + 1) room)
    | inr gap ↦ rw (goes, gap) ((refl, refl), gaps-Names f highest fuel _ (room - 1))
  ]
  | inr stops ↦ rw stops tt
]

ranges_below-Names :
    (f : ActiveFile) (room : ℕ) (found : Option ℕ)
    → All (Names f.seq f.file_id) (ranges_below f room found)
ranges_below-Names f room none = tt
ranges_below-Names f room (some highest) = gaps-Names f highest highest 0 room

missing_ranges-Names :
    (s : Stream) (seq max_ranges : ℕ) (f : ActiveFile)
    → find_active seq s.active ≡ some f
    → All (Names f.seq f.file_id) (missing_ranges s seq max_ranges)
unfolding missing_ranges
missing_ranges-Names s seq max_ranges f e = elim (Bool-cases (max_ranges == 0)) [
  | inl off ↦ rw off tt
  | inr on ↦
      rw (on, e)
        (ranges_below-Names f max_ranges (highest_received f.received f.chunk_count 0 none))
]

-- The sender takes the ranges of its file as they are, up to its last chunk.
some_covers-eq :
    (t : ChunkResendState) (seq file_id : ℕ) (rs : List MissingChunkRange) (j : ℕ)
    → All (Names seq file_id) rs
    → some_covers t seq file_id rs j ≡ (in_ranges j rs && ltb j t.chunk_count)
some_covers-eq t seq file_id [] j h = refl
some_covers-eq t seq file_id (r ∷ rs) j h =
    ground (arith, some_covers-eq t seq file_id rs j h.1, h.0)

-- Where the receiver has an active file, with room for as many ranges as it has chunks, and the
-- sender's state is well-formed: hinting the receiver's missing ranges gives priority to
-- exactly those of the sender's chunks that had it or that the receiver misses below its
-- highest chunk and the sender does not count as acknowledged.
pub apply_missing_hints-missing_ranges :
    (s : Stream) (seq max_ranges j : ℕ) (f : ActiveFile) (t : ChunkResendState)
    → find_active seq s.active ≡ some f
    → f.chunk_count ≤ max_ranges
    → IsValid t
    → j < t.chunk_count
    → (get_or
          (apply_missing_hints t f.seq f.file_id (missing_ranges s seq max_ranges)).0.priority
          j
          false
        ≡ true)
      ↔ ((get_or t.priority j false ≡ true) ⊎ (Missing f j × (get_or t.acked j false ≡ false)))
apply_missing_hints-missing_ranges s seq max_ranges j f t e room v h =
    let rs = missing_ranges s seq max_ranges in
    let hinted = (apply_missing_hints-Hinted t f.seq f.file_id rs j v).priority in
    let covered =
      some_covers-eq t f.seq f.file_id rs j (missing_ranges-Names s seq max_ranges f e) in
    let exact = missing_ranges-Missing f max_ranges j room s seq e in
    (
      λ p. elim (Bool-cases (get_or t.priority j false)) [
        | inl before ↦ inl before
        | inr plain ↦ inr (
          exact.0 (ground (arith, hinted, covered, p, plain)),
          ground (arith, hinted, covered, p, plain),
        )
      ],
      λ c. elim c [
        | inl before ↦ ground (arith, hinted, before)
        | inr (missing, unacked) ↦ ground (arith, hinted, covered, exact.1 missing, unacked, h)
      ],
    )
