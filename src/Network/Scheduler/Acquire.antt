-- ===== src/Network/Scheduler/Acquire.antt =====
-- What `try_acquire` of src/network/yisync_scheduler.cpp grants, and when it refuses.
use yisync.Common.{
  ℕ, zero, suc, ◌+◌, ◌-◌, ◌≤◌, ◌≡◌, ◌≢◌, refl, sym, ap, subst, ◌∙◌, ◌⊎◌, inl, inr, List, [], ◌∷◌,
  Option, none, some, true, false, arith, ◌==◌, All, All-map, get_elem?, set, Bool-cases,
}
use yisync.Network.TokenBucket.{try_consume}
use yisync.Network.Line.{LineState, SendRequest, SendGrant, eligible, score_line, charge}
use yisync.Network.Scheduler.{Scheduler, best_line, grant, grant_best, try_acquire}
use yisync.Network.Scheduler.Choice.{better, better-cases}

-- A line may carry the request: it is up, and the bytes fit its window and its token bucket.
pub record CanSend (request : SendRequest) (line : LineState) : Type 0 where
  pub connected : line.connected ≡ true
  pub negotiated : line.negotiated ≡ true
  pub healthy : line.healthy ≡ true
  pub fresh : line.stale ≡ false
  pub window : line.inflight_bytes + request.bytes ≤ line.recv_window_bytes
  pub tokens : request.bytes ≤ line.bucket.tokens

eligible→CanSend :
    (request : SendRequest) (line : LineState) → eligible request line ≡ true → CanSend request line
unfolding eligible
eligible→CanSend request line h = ground arith

CanSend→eligible :
    (request : SendRequest) (line : LineState)
    → request.bytes ≢ 0
    → CanSend request line
    → eligible request line ≡ true
unfolding eligible
CanSend→eligible request line nz can = ground arith

module _ (request : SendRequest) where
  abbrev Covers : ℕ → Option (ℕ × ℕ) → Type 0
  Covers score none = Unit {0}
  Covers score (some (i, best)) = best ≤ score

  abbrev At : List LineState → ℕ → ℕ → ℕ → Type 0
  At lines i k score =
      (j : ℕ) × (line : LineState) × (k ≡ i + j)
      × (get_elem? lines j ≡ some line)
      × (eligible request line ≡ true)
      × (score_line line request ≡ score)

  -- What the loop has found, from `best` on, over the lines that start at position `i`.
  abbrev Found : Option (ℕ × ℕ) → ℕ → List LineState → Option (ℕ × ℕ) → Type 0
  Found best i lines none = (best ≡ none) × All (λ l. eligible request l ≡ false) lines
  Found best i lines (some (k, score)) =
      ((best ≡ some (k, score)) ⊎ At lines i k score)
      × All (λ l. eligible request l ≡ true → score_line l request ≤ score) lines
      × Covers score best

  Covers-new :
      (line : LineState) (best : Option (ℕ × ℕ)) (i score : ℕ)
      → Covers score (better (eligible request line) i (score_line line request) best)
      → eligible request line ≡ true
      → score_line line request ≤ score
  unfolding better
  Covers-new line none i score c can = ground arith
  Covers-new line (some (k, s)) i score c can = ground arith

  Covers-old :
      (line : LineState) (best : Option (ℕ × ℕ)) (i score : ℕ)
      → Covers score (better (eligible request line) i (score_line line request) best)
      → Covers score best
  unfolding better
  Covers-old line none i score c = tt
  Covers-old line (some (k, s)) i score c = ground arith

  Found-step :
      (line : LineState) (lines : List LineState) (best : Option (ℕ × ℕ)) (i : ℕ)
      (found : Option (ℕ × ℕ))
      → Found (better (eligible request line) i (score_line line request) best) (i + 1) lines found
      → Found best i (line ∷ lines) found
  unfolding better
  Found-step line lines none i none h = ground arith
  Found-step line lines (some b) i none h = ground arith
  Found-step line lines best i (some (k, score)) h =
      (position h.0, (Covers-new line best i score h.2, h.1), Covers-old line best i score h.2)
    where
      position :
          (better (eligible request line) i (score_line line request) best ≡ some (k, score))
            ⊎ At lines (i + 1) k score
          → (best ≡ some (k, score)) ⊎ At (line ∷ lines) i k score
      position (inl e) =
          elim (better-cases (eligible request line) i (score_line line request) best) [
            | inl same ↦ inl (sym same ∙ e)
            | inr (can, new) ↦ inr (zero, line, ground arith, refl, can, ground arith)
          ]
      position (inr (j, l, p, at, can, eq)) = inr (suc j, l, omega arith, at, can, eq)

  best_line-Found :
      (lines : List LineState) (best : Option (ℕ × ℕ)) (i : ℕ)
      → Found best i lines (best_line request best i lines)
  unfolding best_line
  best_line-Found [] none i = (refl, tt)
  best_line-Found [] (some (k, score)) i = (inl refl, tt, omega arith)
  best_line-Found (line ∷ lines) best i =
      Found-step line lines best i _ (best_line-Found lines _ (i + 1))

-- The line after the grant: its tokens and its window are charged, and the send is pending on it.
abbrev pub granted : SendRequest → LineState → LineState
granted request line =
    charge request (record line.bucket { tokens = line.bucket.tokens - request.bytes }) line

-- The two outcomes of a call.
abbrev pub Outcome : Scheduler → SendRequest → Scheduler × Option SendGrant → Type 0
Outcome s request (s', none) =
    (s' ≡ s) × ((request.bytes ≡ 0) ⊎ All (λ l. ¬ CanSend request l) s.lines)
Outcome s request (s', some g) =
    (i : ℕ) × (line : LineState) × (get_elem? s.lines i ≡ some line)
    × CanSend request line
    × All (λ l. CanSend request l → score_line l request ≤ score_line line request) s.lines
    × (g ≡ record { line_id = line.config.id; bytes = request.bytes })
    × (s' ≡ record s { lines = set s.lines i (granted request line) })

grant-eligible :
    (s : Scheduler) (request : SendRequest) (i : ℕ) (line : LineState)
    → request.bytes ≤ line.bucket.tokens
    → grant s request i (some line) ≡ (
      record s { lines = set s.lines i (granted request line) },
      some (record { line_id = line.config.id; bytes = request.bytes }),
    )
unfolding grant try_consume
grant-eligible s request i line h = ground arith

grant-Outcome :
    (s : Scheduler) (request : SendRequest)
    → request.bytes ≢ 0
    → (found : Option (ℕ × ℕ)) → Found request none 0 s.lines found
    → Outcome s request (grant_best s request found)
grant-Outcome s request nz none h =
    (refl, inr (All-map _ _ (λ l no_fit can. cc (CanSend→eligible request l nz can)) s.lines h.1))
grant-Outcome s request nz (some (k, score)) (inl e, all, c) = cc
grant-Outcome s request nz (some (k, score)) (inr (j, line, p, at, can, eq), all, c) =
    subst (Outcome s request) (sym (here ∙ grant-eligible s request k line fits.tokens))
      (k, line, rw same at, fits, best, refl, refl)
  where
    same : k ≡ j
    same = omega arith

    here : grant s request k (get_elem? s.lines k) ≡ grant s request k (some line)
    here = ap (grant s request k) (rw same at)

    fits : CanSend request line
    fits = eligible→CanSend request line can

    best : All (λ l. CanSend request l → score_line l request ≤ score_line line request) s.lines
    best =
        All-map _ _ (λ l le fit. omega (arith, le (CanSend→eligible request l nz fit), eq)) s.lines
          all

-- `try_acquire` grants the request to a line that is up and has window and tokens for it and
-- scores highest among these, and charges that line and no other; it refuses only an empty
-- request or one that no line can carry, and then changes nothing.
pub try_acquire_lem :
    (s : Scheduler) (request : SendRequest) → Outcome s request (try_acquire s request)
unfolding try_acquire
try_acquire_lem s request = elim (Bool-cases (request.bytes == 0)) [
  | inl empty ↦ rw empty (refl, inl (ground arith))
  | inr some_bytes ↦
      rw some_bytes
        (grant-Outcome s request (ground arith) _ (best_line-Found request s.lines none 0))
]
