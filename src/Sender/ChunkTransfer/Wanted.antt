-- ===== src/Sender/ChunkTransfer/Wanted.antt =====
-- Which chunks a round of `schedule_chunk_work` (src/sender/yisync_sender_app.cpp) may still send, and
-- how many they are.
use yisync.Common.{
  ℕ, zero, suc, ◌+◌, ◌≤◌, ◌<◌, ◌≡◌, refl, subst, inl, inr, Bool, true, false, not, ◌&&◌, ◌||◌,
  arith, ◌==◌, if◌then◌else◌, get_or, Bool-cases, ==_iff,
}
use yisync.Sender.ChunkResend.{ChunkResendState, mark_chunk_sent}
use yisync.Sender.ChunkResend.Invariant.{IsValid}
use yisync.Sender.ChunkResend.Hints.{get_or-set}
use yisync.Sender.ChunkResend.Selection.{Sendable}

-- How many numbers below `n` pass a test.
unfoldable pub count : (ℕ → Bool) → ℕ → ℕ
count f zero = 0
count f (suc n) = count f n + (if f n then 1 else 0)

pub count-le : (f : ℕ → Bool) (n : ℕ) → count f n ≤ n
unfolding count
count-le f zero = omega arith
count-le f (suc n) = ground (arith, count-le f n)

module _ (f g : ℕ → Bool) (c : ℕ) (same : (i : ℕ) → g i ≡ (if c == i then false else f i)) where
  count-below : (n : ℕ) → n ≤ c → count g n ≡ count f n
  unfolding count
  count-below zero h = refl
  count-below (suc n) h = ground (arith, count-below n (omega arith), same n)

  -- One number less passes.
  pub count-without : (n : ℕ) → c < n → f c ≡ true → count g n + 1 ≡ count f n
  unfolding count
  count-without zero h e = absurd (omega arith)
  count-without (suc n) h e = elim (Bool-cases (c == n)) [
    | inl here ↦
        let at : c ≡ n = (==_iff c n).0 here in
        let fn : f n ≡ true = subst (λ k. f k ≡ true) at e in
        ground (arith, count-below n (omega arith), same n)
    | inr later ↦ ground (arith, count-without n (ground arith) e, same n)
  ]

-- The chunk is not acknowledged, and not sent or hinted missing.
unfoldable pub wanted : ChunkResendState → ℕ → Bool
wanted s i =
    not (get_or s.acked i false) && (not (get_or s.sent i false) || get_or s.priority i false)

pub Sendable-wanted :
    (s : ChunkResendState) (tick ticks c : ℕ) → Sendable s tick ticks c → wanted s c ≡ true
unfolding wanted
Sendable-wanted s tick ticks c h = ground (arith, h.unacked, h.due)

pub mark_chunk_sent-wanted :
    (s : ChunkResendState) (c line_id tick i : ℕ)
    → IsValid s
    → c < s.chunk_count
    → wanted (mark_chunk_sent s c line_id tick).0 i ≡ (if c == i then false else wanted s i)
unfolding wanted mark_chunk_sent
mark_chunk_sent-wanted s c line_id tick i v h = ground (
  arith,
  v.acked,
  v.sent,
  v.priority,
  get_or-set s.sent c i true false,
  get_or-set s.priority c i false false,
)

pub mark_chunk_sent-count :
    (s : ChunkResendState) (c line_id tick : ℕ)
    → (mark_chunk_sent s c line_id tick).0.chunk_count ≡ s.chunk_count
unfolding mark_chunk_sent
mark_chunk_sent-count s c line_id tick = ground arith
