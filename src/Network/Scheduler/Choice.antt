-- ===== src/Network/Scheduler/Choice.antt =====
-- The running maximum of the loops of `try_acquire` and `choose_control_line`
-- (src/network/yisync_scheduler.cpp): a candidate replaces the best one only with a higher score.
use yisync.Common.{
  ◌≡◌, refl, ◌⊎◌, inl, inr, arith, ℕ, Bool, true, false, Option, none, some, ltb, if◌then◌else◌,
}

unfoldable pub better : Bool → ℕ → ℕ → Option (ℕ × ℕ) → Option (ℕ × ℕ)
better false key score best = best
better true key score none = some (key, score)
better true key score (some (best, best_score)) =
    if ltb best_score score then some (key, score) else some (best, best_score)

abbrev pub chosen : Option (ℕ × ℕ) → Option ℕ
chosen none = none
chosen (some (key, score)) = some key

-- The new best is the old one or the candidate.
pub better-cases :
    (fits : Bool) (key score : ℕ) (best : Option (ℕ × ℕ))
    → (better fits key score best ≡ best)
      ⊎ ((fits ≡ true) × (better fits key score best ≡ some (key, score)))
unfolding better
better-cases false key score best = inl refl
better-cases true key score none = inr (refl, refl)
better-cases true key score (some (b, s)) = ground arith
