-- ===== src/Sender/Rto.antt =====
-- The class `RtoEstimator` of src/sender/yisync_sender_app.cpp: after how many ticks a message counts
-- as lost. `std::clamp` asks for bounds in order, which they are where eight times the fallback fits
-- 64 bits.
use yisync.Common.{
  ℕ, ◌+◌, ◌-◌, ◌*◌, ◌/◌, ◌%◌, ◌≤◌, ◌<◌, ◌≡◌, ◌⊎◌, List, [], ◌∷◌, Bool, true, false, arith, ltb,
  ◌==◌, if◌then◌else◌, min, max, All, u64_mod,
}

pub record RtoEstimator : Type 0 where
  pub initialized : Bool
  pub srtt_ticks : ℕ
  pub rttvar_ticks : ℕ

abbrev pub new_estimator : RtoEstimator
new_estimator = record { initialized = false; srtt_ticks = 0; rttvar_ticks = 0 }

abbrev pub clamp : ℕ → ℕ → ℕ → ℕ
clamp v lo hi = if ltb v lo then lo else (if ltb hi v then hi else v)

unfoldable pub rto_ticks : RtoEstimator → ℕ → ℕ
rto_ticks e fallback_ticks =
    let candidate = (e.srtt_ticks + max 1 (e.rttvar_ticks * 4 % u64_mod)) % u64_mod in
    if e.initialized
    then clamp candidate (max 1 (fallback_ticks / 2)) (max 1 (fallback_ticks * 8 % u64_mod))
    else max 1 fallback_ticks

-- The subtractions are those of the branches of the source.
unfoldable pub observe : RtoEstimator → ℕ → RtoEstimator
observe e ticks =
    let sample = if ticks == 0 then 1 else ticks in
    let abs_delta =
      if ltb sample e.srtt_ticks then e.srtt_ticks - sample else sample - e.srtt_ticks in
    if e.initialized
    then record e {
      rttvar_ticks = max 1 ((3 * e.rttvar_ticks + abs_delta) % u64_mod / 4);
      srtt_ticks = max 1 ((7 * e.srtt_ticks + sample) % u64_mod / 8);
    }
    else record { initialized = true; srtt_ticks = sample; rttvar_ticks = max 1 (sample / 2) }

-- `observe_ack_sample`, which leaves out a sample of no ticks.
unfoldable pub observe_ack_sample : RtoEstimator → ℕ → RtoEstimator
observe_ack_sample e rtt_ticks = if rtt_ticks == 0 then e else observe e rtt_ticks

unfoldable pub observe_ack_samples : RtoEstimator → List ℕ → RtoEstimator
observe_ack_samples e [] = e
observe_ack_samples e (s ∷ ss) = observe_ack_samples (observe_ack_sample e s) ss

-- The smoothed round trip of an estimator that has seen a sample lies between the least and the
-- greatest of them, and the variation between 1 and the greatest.
pub record Between (least largest : ℕ) (e : RtoEstimator) : Type 0 where
  pub initialized : e.initialized ≡ true
  pub srtt_low : least ≤ e.srtt_ticks
  pub srtt_high : e.srtt_ticks ≤ largest
  pub rttvar_low : 1 ≤ e.rttvar_ticks
  pub rttvar_high : e.rttvar_ticks ≤ largest

-- A sample in this range, or one of no ticks, which is left out.
abbrev pub InRange : ℕ → ℕ → ℕ → Type 0
InRange least largest s = (s ≡ 0) ⊎ (least ≤ s) × (s ≤ largest)

module _ (least largest : ℕ) (some_ticks : 1 ≤ least) (fits : largest * 8 < u64_mod) where
  first-Between :
      (s : ℕ) → least ≤ s → s ≤ largest → Between least largest (observe_ack_sample new_estimator s)
  unfolding observe_ack_sample observe
  first-Between s lo hi = ground (arith, some_ticks)

  observe-Between :
      (e : RtoEstimator) (s : ℕ)
      → InRange least largest s
      → Between least largest e
      → Between least largest (observe_ack_sample e s)
  unfolding observe_ack_sample observe
  observe-Between e s within b =
      ground (
        arith, some_ticks, fits, b.initialized, b.srtt_low, b.srtt_high, b.rttvar_low,
        b.rttvar_high,
      )

  samples-Between :
      (e : RtoEstimator) (samples : List ℕ)
      → All (InRange least largest) samples
      → Between least largest e
      → Between least largest (observe_ack_samples e samples)
  unfolding observe_ack_samples
  samples-Between e [] within b = b
  samples-Between e (s ∷ ss) within b =
      samples-Between (observe_ack_sample e s) ss within.1 (observe-Between e s within.0 b)

  rto-bounds :
      (e : RtoEstimator) (fallback : ℕ)
      → fallback * 8 < u64_mod
      → Between least largest e
      → (min (least + 1) (max 1 (fallback * 8)) ≤ rto_ticks e fallback)
        × (rto_ticks e fallback ≤ max (largest * 5) (max 1 (fallback / 2)))
        × (max 1 (fallback / 2) ≤ rto_ticks e fallback)
        × (rto_ticks e fallback ≤ max 1 (fallback * 8))
  unfolding rto_ticks
  rto-bounds e fallback fallback_fits b =
      ground (arith, fits, b.initialized, b.srtt_low, b.srtt_high, b.rttvar_low, b.rttvar_high)

  -- A new estimator that sees a first sample of at least 1 tick, and then others, each between
  -- `least` and `largest` or of no ticks, where eight times `largest` and eight times the
  -- fallback fit 64 bits: it counts as initialized, its smoothed round trip stays between
  -- `least` and `largest` and its variation between 1 and `largest`; the ticks that it answers
  -- are more than `least` or eight times the fallback at least, at most five times `largest` or
  -- half the fallback (1 if that is 0), and always between half the fallback and eight times
  -- it, where 1 stands for 0.
  pub observe_ack_samples-Between :
      (s fallback : ℕ) (samples : List ℕ)
      → least ≤ s
      → s ≤ largest
      → All (InRange least largest) samples
      → fallback * 8 < u64_mod
      → Between least largest (observe_ack_samples new_estimator (s ∷ samples))
        × (min (least + 1) (max 1 (fallback * 8))
            ≤ rto_ticks (observe_ack_samples new_estimator (s ∷ samples)) fallback)
        × (rto_ticks (observe_ack_samples new_estimator (s ∷ samples)) fallback
            ≤ max (largest * 5) (max 1 (fallback / 2)))
        × (max 1 (fallback / 2)
            ≤ rto_ticks (observe_ack_samples new_estimator (s ∷ samples)) fallback)
        × (rto_ticks (observe_ack_samples new_estimator (s ∷ samples)) fallback
            ≤ max 1 (fallback * 8))
  unfolding observe_ack_samples
  observe_ack_samples-Between s fallback samples lo hi within fallback_fits =
      let e = observe_ack_sample new_estimator s in
      let b = samples-Between e samples within (first-Between s lo hi) in
      let r = rto-bounds (observe_ack_samples e samples) fallback fallback_fits b in
      (b, r.0, r.1, r.2, r.3)
