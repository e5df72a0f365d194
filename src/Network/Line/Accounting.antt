-- ===== src/Network/Line/Accounting.antt =====
-- The bytes in flight on a line of src/network/yisync_scheduler.cpp, against its pending sends.
use yisync.Common.{
  ℕ, ◌+◌, ◌-◌, ◌≤◌, ◌≡◌, refl, List, [], ◌∷◌, ◌++◌, map, arith, if◌then◌else◌, IsU64,
}
use yisync.Protocol.Message.{Heartbeat}
use yisync.Network.TokenBucket.{TokenBucket}
use yisync.Network.TokenBucket
use yisync.Network.Line.{
  PendingSend, LostSend, SendRequest, LineState, LineConfig, charge, refill, clear_inflight,
  lost_from, completed, still_pending, completed_bytes, heartbeat, pending_of,
}
use yisync.Network.Line

-- Any weight of a send, summed over sends. As the weight is arbitrary, equal sums mean the same
-- sends, each as often.
abbrev pub weigh : (PendingSend → ℕ) → List PendingSend → ℕ
weigh w [] = 0
weigh w (send ∷ sends) = w send + weigh w sends

abbrev pub weigh_lost : (PendingSend → ℕ) → List LostSend → ℕ
weigh_lost w [] = 0
weigh_lost w (lost ∷ more) = w lost.send + weigh_lost w more

-- The sends that a heartbeat completes.
unfoldable pub acknowledged : Heartbeat → List PendingSend → List PendingSend
acknowledged hb [] = []
acknowledged hb (send ∷ sends) =
    if completed hb send.kind send then send ∷ acknowledged hb sends else acknowledged hb sends

module _ (w : PendingSend → ℕ) where
  pub weigh-append : (xs ys : List PendingSend) → weigh w (xs ++ ys) ≡ weigh w xs + weigh w ys
  weigh-append [] ys = omega arith
  weigh-append (x ∷ xs) ys = omega (arith, weigh-append xs ys)

  pub weigh_lost-append :
      (xs ys : List LostSend) → weigh_lost w (xs ++ ys) ≡ weigh_lost w xs + weigh_lost w ys
  weigh_lost-append [] ys = omega arith
  weigh_lost-append (x ∷ xs) ys = omega (arith, weigh_lost-append xs ys)

  weigh_lost-map :
      (id : ℕ) (sends : List PendingSend)
      → weigh_lost w (map (λ send. record { line_id = id; send = send }) sends) ≡ weigh w sends
  weigh_lost-map id [] = refl
  weigh_lost-map id (x ∷ xs) = omega (arith, weigh_lost-map id xs)

  pub weigh-lost_from : (line : LineState) → weigh_lost w (lost_from line) ≡ weigh w line.pending
  unfolding lost_from
  weigh-lost_from line = weigh_lost-map line.config.id line.pending

  pub weigh-heartbeat :
      (hb : Heartbeat) (sends : List PendingSend)
      → weigh w (still_pending hb sends) + weigh w (acknowledged hb sends) ≡ weigh w sends
  unfolding still_pending acknowledged
  weigh-heartbeat hb [] = refl
  weigh-heartbeat hb (send ∷ sends) = ground (arith, weigh-heartbeat hb sends)

abbrev pub sum_bytes : List PendingSend → ℕ
sum_bytes = weigh (λ send. send.bytes)

-- The counter does not wrap where the pending bytes fit 64 bits.
completed_bytes-eq :
    (hb : Heartbeat) (sum : ℕ) (sends : List PendingSend)
    → IsU64 (sum + sum_bytes sends)
    → completed_bytes hb sum sends ≡ sum + sum_bytes (acknowledged hb sends)
unfolding completed_bytes acknowledged
completed_bytes-eq hb sum [] h = omega arith
completed_bytes-eq hb sum (send ∷ sends) h =
    ground (arith, completed_bytes-eq hb sum sends, completed_bytes-eq hb (sum + send.bytes) sends)

-- The counter of a line agrees with its list of pending sends, and the integers are in range.
pub record IsValid (line : LineState) : Type 0 where
  pub counted : line.inflight_bytes ≡ sum_bytes line.pending
  pub inflight : IsU64 line.inflight_bytes
  pub window : IsU64 line.recv_window_bytes
  pub initial : IsU64 line.config.initial_recv_window_bytes
  pub bucket : TokenBucket.IsValid line.bucket

pub refill-IsValid : (ticks : ℕ) (line : LineState) → IsValid line → IsValid (refill ticks line)
unfolding refill
refill-IsValid ticks line v =
    ground (arith, TokenBucket.refill_ticks-IsValid line.bucket ticks v.bucket)

pub charge-IsValid :
    (request : SendRequest) (line : LineState)
    → line.inflight_bytes + request.bytes ≤ line.recv_window_bytes
    → request.bytes ≤ line.bucket.tokens
    → IsValid line
    → IsValid
        (charge request (record line.bucket { tokens = line.bucket.tokens - request.bytes }) line)
unfolding charge
charge-IsValid request line fits tokens v =
    ground (arith, weigh-append (λ send. send.bytes) line.pending (pending_of request ∷ []))

pub heartbeat-IsValid :
    (hb : Heartbeat) (line : LineState)
    → IsU64 hb.recv_window_bytes
    → IsValid line
    → IsValid (heartbeat hb line)
unfolding heartbeat
heartbeat-IsValid hb line h v = ground (
  arith,
  completed_bytes-eq hb 0 line.pending,
  weigh-heartbeat (λ send. send.bytes) hb line.pending,
)

pub negotiated-IsValid :
    (window : ℕ) (line : LineState)
    → IsU64 window
    → IsValid line
    → IsValid (Line.negotiated window line)
unfolding Line.negotiated
negotiated-IsValid window line h v = ground arith

pub connected-IsValid :
    (line : LineState) → IsValid line → IsValid (clear_inflight (Line.connected line))
unfolding clear_inflight Line.connected
connected-IsValid line v = ground arith

pub disconnected-IsValid :
    (line : LineState) → IsValid line → IsValid (clear_inflight (Line.disconnected line))
unfolding clear_inflight Line.disconnected
disconnected-IsValid line v = ground arith

pub failed-IsValid : (line : LineState) → IsValid line → IsValid (clear_inflight (Line.failed line))
unfolding clear_inflight Line.failed
failed-IsValid line v = ground arith
