-- ===== src/Network/Scheduler/Conservation.antt =====
-- No send gets lost in the scheduler without being reported, and none is made up.
use yisync.Common.{
  ℕ, zero, suc, ◌+◌, ◌≡◌, inl, inr, refl, ap, List, [], ◌∷◌, map, false, Option, none, some, arith,
  if◌then◌else◌, ◌==◌, get_elem?, set, Bool-cases,
}
use yisync.Protocol.Message.{Heartbeat}
use yisync.Network.Line.{
  LineState, PendingSend, LostSend, SendRequest, SendGrant, refill, clear_inflight, lost_from,
  heartbeat, charge, pending_of,
}
use yisync.Network.Line
use yisync.Network.Line.Accounting.{
  weigh, weigh_lost, acknowledged, weigh-append, weigh_lost-append, weigh-lost_from,
  weigh-heartbeat,
}
use yisync.Network.Scheduler.{
  Scheduler, has_line, refill_ticks, try_acquire, on_line, handle, no_lost, on_line_connected,
  on_line_negotiated, on_line_disconnected, on_line_protocol_error, on_line_failure, on_heartbeat,
  on_nack, take_lost_sends,
}
use yisync.Network.Scheduler.Acquire.{try_acquire_lem, Outcome, granted}
use yisync.Network.Scheduler.Events.{
  Event, refills, acquires, connects, negotiates, disconnects, protocol_errors, fails, heartbeats,
  nacks, takes_lost, after, step,
}

-- The sends that an event brings in: the one that is granted.
abbrev accepted : SendRequest → Option SendGrant → List PendingSend
accepted request none = []
accepted request (some g) = pending_of request ∷ []

abbrev pub entering : Scheduler → Event → List PendingSend
entering s (acquires request) = accepted request (try_acquire s request).1
entering s e = []

-- The sends that a heartbeat completes on its line.
unfoldable pub completed_on : ℕ → Heartbeat → List LineState → List PendingSend
completed_on id hb [] = []
completed_on id hb (line ∷ lines) =
    if line.config.id == id then acknowledged hb line.pending else completed_on id hb lines

-- The sends that an event takes out: completed by a heartbeat, or handed to the caller as lost.
abbrev pub leaving : Scheduler → Event → List PendingSend
leaving s (heartbeats id hb) = completed_on id hb s.lines
leaving s takes_lost = map (λ lost. lost.send) (take_lost_sends s).1
leaving s e = []

-- What leaves from the line that a handler finds.
out_of : (LineState → ℕ) → ℕ → List LineState → ℕ
out_of out id [] = 0
out_of out id (line ∷ lines) = if line.config.id == id then out line else out_of out id lines

out_of-missing :
    (out : LineState → ℕ) (id : ℕ) (lines : List LineState)
    → has_line id lines ≡ false
    → out_of out id lines ≡ 0
unfolding out_of has_line
out_of-missing out id [] e = refl
out_of-missing out id (line ∷ lines) e = ground (arith, out_of-missing out id lines)

out_of-zero : (id : ℕ) (lines : List LineState) → out_of (λ line. 0) id lines ≡ 0
unfolding out_of
out_of-zero id [] = refl
out_of-zero id (line ∷ lines) = ground (arith, out_of-zero id lines)

module _ (w : PendingSend → ℕ) where
  abbrev pub weigh_lines : List LineState → ℕ
  weigh_lines [] = 0
  weigh_lines (line ∷ lines) = weigh w line.pending + weigh_lines lines

  -- The sends in flight and the lost ones not yet handed over.
  abbrev pub total : Scheduler → ℕ
  total s = weigh_lines s.lines + weigh_lost w s.lost_sends

  module _ (change : LineState → LineState) (lost : LineState → List LostSend) (out : LineState → ℕ)
      (keep : (line : LineState)
        → weigh w (change line).pending + weigh_lost w (lost line) + out line
          ≡ weigh w line.pending) where
    on_line-weigh :
        (id : ℕ) (lines : List LineState)
        → let (lines', sends) = on_line id change lost lines in
          weigh_lines lines' + weigh_lost w sends + out_of out id lines ≡ weigh_lines lines
    unfolding on_line out_of
    on_line-weigh id [] = refl
    on_line-weigh id (line ∷ lines) = ground (arith, keep line, on_line-weigh id lines)

    handle-total :
        (s : Scheduler) (id : ℕ)
        → total (after s (handle s id change lost)) + out_of out id s.lines ≡ total s
    unfolding handle
    handle-total s id = elim (Bool-cases (has_line id s.lines)) [
      | inl there ↦ rw there (
          omega (
            arith,
            on_line-weigh id s.lines,
            weigh_lost-append w s.lost_sends (on_line id change lost s.lines).1,
          ))
      | inr missing ↦ rw missing (omega (arith, out_of-missing out id s.lines missing))
    ]

  abbrev pending_weight : Option LineState → ℕ
  pending_weight none = 0
  pending_weight (some line) = weigh w line.pending

  set-weigh :
      (lines : List LineState) (i : ℕ) (line line' : LineState)
      → get_elem? lines i ≡ some line
      → weigh_lines (set lines i line') + weigh w line.pending
        ≡ weigh_lines lines + weigh w line'.pending
  set-weigh [] i line line' e = cc
  set-weigh (l ∷ lines) zero line line' e =
      omega (arith, ap (λ (o : Option LineState). pending_weight o) e)
  set-weigh (l ∷ lines) (suc i) line line' e = omega (arith, set-weigh lines i line line' e)

  granted-weigh :
      (request : SendRequest) (line : LineState)
      → weigh w (granted request line).pending ≡ weigh w line.pending + w (pending_of request)
  unfolding charge
  granted-weigh request line = omega (arith, weigh-append w line.pending (pending_of request ∷ []))

  acquire-total :
      (s : Scheduler) (request : SendRequest) (r : Scheduler × Option SendGrant)
      → Outcome s request r
      → total r.0 ≡ total s + weigh w (accepted request r.1)
  acquire-total s request (s', none) (same, why) = rw same (omega arith)
  acquire-total s request (s', some g) (i, line, at, can, best, grant, e) = rw e (
      omega (arith, set-weigh s.lines i line (granted request line) at, granted-weigh request line))

  refill-total :
      (ticks : ℕ) (lines : List LineState)
      → weigh_lines (map (refill ticks) lines) ≡ weigh_lines lines
  unfolding refill
  refill-total ticks [] = refl
  refill-total ticks (line ∷ lines) = ground (arith, refill-total ticks lines)

  lost_sends-weigh : (lost : List LostSend) → weigh w (map (λ l. l.send) lost) ≡ weigh_lost w lost
  lost_sends-weigh [] = refl
  lost_sends-weigh (l ∷ lost) = omega (arith, lost_sends-weigh lost)

  cleared-total :
      (change : LineState → LineState) (s : Scheduler) (id : ℕ)
      → ((line : LineState) → (change line).pending ≡ line.pending)
      → total (after s (handle s id (λ line. clear_inflight (change line)) lost_from)) ≡ total s
  unfolding clear_inflight
  cleared-total change s id same = omega (
    arith,
    handle-total (λ line. clear_inflight (change line)) lost_from (λ line. 0)
        (λ line. omega (arith, weigh-lost_from w line)) s id,
    out_of-zero id s.lines,
  )

  completed_on-weigh :
      (id : ℕ) (hb : Heartbeat) (lines : List LineState)
      → weigh w (completed_on id hb lines)
        ≡ out_of (λ line. weigh w (acknowledged hb line.pending)) id lines
  unfolding completed_on out_of
  completed_on-weigh id hb [] = refl
  completed_on-weigh id hb (line ∷ lines) = ground (arith, completed_on-weigh id hb lines)

  heartbeat-total :
      (s : Scheduler) (id : ℕ) (hb : Heartbeat)
      → total (after s (handle s id (heartbeat hb) no_lost)) + weigh w (completed_on id hb s.lines)
        ≡ total s
  unfolding heartbeat
  heartbeat-total s id hb = omega (
    arith,
    handle-total (heartbeat hb) no_lost (λ line. weigh w (acknowledged hb line.pending))
        (λ line. omega (arith, weigh-heartbeat w hb line.pending)) s id,
    completed_on-weigh id hb s.lines,
  )

  negotiated-total :
      (s : Scheduler) (id window : ℕ)
      → total (after s (handle s id (Line.negotiated window) no_lost)) ≡ total s
  unfolding Line.negotiated
  negotiated-total s id window = omega (
    arith,
    handle-total (Line.negotiated window) no_lost (λ line. 0) (λ line. omega arith) s id,
    out_of-zero id s.lines,
  )

  connected-total :
      (s : Scheduler) (id : ℕ)
      → total (after s (handle s id (λ line. clear_inflight (Line.connected line)) lost_from))
        ≡ total s
  unfolding Line.connected
  connected-total s id = cleared-total Line.connected s id (λ line. refl)

  disconnected-total :
      (s : Scheduler) (id : ℕ)
      → total (after s (handle s id (λ line. clear_inflight (Line.disconnected line)) lost_from))
        ≡ total s
  unfolding Line.disconnected
  disconnected-total s id = cleared-total Line.disconnected s id (λ line. refl)

  failed-total :
      (s : Scheduler) (id : ℕ)
      → total (after s (handle s id (λ line. clear_inflight (Line.failed line)) lost_from))
        ≡ total s
  unfolding Line.failed
  failed-total s id = cleared-total Line.failed s id (λ line. refl)

  -- For any weight of sends and every event: the weight in flight and of the lost sends waiting
  -- after it, with what it takes out, is the weight before it with the send that it accepts. A
  -- send leaves only when a heartbeat completes it or `take_lost_sends` returns it.
  pub step-total :
      (s : Scheduler) (e : Event)
      → total (step s e) + weigh w (leaving s e) ≡ total s + weigh w (entering s e)
  unfolding step refill_ticks on_line_connected on_line_negotiated on_line_disconnected
      on_line_protocol_error on_line_failure on_heartbeat on_nack take_lost_sends
  step-total s (refills ticks) = omega (arith, refill-total ticks s.lines)
  step-total s (acquires request) =
      omega (arith, acquire-total s request (try_acquire s request) (try_acquire_lem s request))
  step-total s (connects id) = omega (arith, connected-total s id)
  step-total s (negotiates id window) = omega (arith, negotiated-total s id window)
  step-total s (disconnects id) = omega (arith, disconnected-total s id)
  step-total s (protocol_errors id) = omega (arith, disconnected-total s id)
  step-total s (fails id) = omega (arith, failed-total s id)
  step-total s (heartbeats id hb) = omega (arith, heartbeat-total s id hb)
  step-total s (nacks id) = omega (arith, failed-total s id)
  step-total s takes_lost = omega (arith, lost_sends-weigh s.lost_sends)
