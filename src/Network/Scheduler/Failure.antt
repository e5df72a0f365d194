-- ===== src/Network/Scheduler/Failure.antt =====
-- Lines that failed, in src/network/yisync_scheduler.cpp: when they get a grant again.
use yisync.Common.{
  ℕ, ◌≡◌, ◌≢◌, refl, sym, ◌∙◌, subst, ◌⊎◌, inl, inr, List, [], ◌∷◌, map, Option, none, some, false,
  arith, ◌==◌, Bool-cases, ==_iff, All, All-set, All-get,
}
use yisync.Network.Line.{
  LineState, LostSend, SendRequest, SendGrant, usable, refill, clear_inflight, lost_from, charge,
}
use yisync.Network.Line
use yisync.Network.Scheduler.{
  Scheduler, has_line, refill_ticks, try_acquire, on_line, handle, no_lost, on_line_connected,
  on_line_negotiated, on_line_disconnected, on_line_protocol_error, on_line_failure, on_heartbeat,
  on_nack, take_lost_sends,
}
use yisync.Network.Scheduler.Acquire.{try_acquire_lem, Outcome, granted, CanSend}
use yisync.Network.Scheduler.Events.{
  Event, refills, acquires, connects, negotiates, disconnects, protocol_errors, fails, heartbeats,
  nacks, takes_lost, after, step, run,
}

-- No line with this id is up.
abbrev pub DownLine : ℕ → LineState → Type 0
DownLine id line = line.config.id ≡ id → usable line ≡ false

abbrev pub IsDown : ℕ → Scheduler → Type 0
IsDown id s = All (DownLine id) s.lines

-- Only the negotiation of a line and a heartbeat on it bring it up.
abbrev pub KeepsDown : ℕ → Event → Type 0
KeepsDown id (negotiates n window) = n ≢ id
KeepsDown id (heartbeats n hb) = n ≢ id
KeepsDown id e = Unit {0}

-- A handler that keeps the configuration, and takes its own line down or works on another.
record Harmless (id n : ℕ) (change : LineState → LineState) : Type 0 where
  config : (line : LineState) → (change line).config.id ≡ line.config.id
  down : (n ≢ id) ⊎ ((line : LineState) → usable (change line) ≡ false)

module _ (id n : ℕ) (change : LineState → LineState) (lost : LineState → List LostSend)
    (h : Harmless id n change) where
  changed-DownLine : (line : LineState) → line.config.id ≡ n → DownLine id (change line)
  changed-DownLine line at e = elim h.down [
    | inl other ↦ absurd (other (sym at ∙ sym (h.config line) ∙ e))
    | inr down ↦ down line
  ]

  on_line-DownLine :
      (lines : List LineState)
      → All (DownLine id) lines
      → All (DownLine id) (on_line n change lost lines).0
  unfolding on_line
  on_line-DownLine [] d = tt
  on_line-DownLine (line ∷ lines) d = elim (Bool-cases (line.config.id == n)) [
    | inl hit ↦ rw hit (changed-DownLine line ((==_iff line.config.id n).0 hit), d.1)
    | inr miss ↦ rw miss (d.0, on_line-DownLine lines d.1)
  ]

  handle-IsDown : (s : Scheduler) → IsDown id s → IsDown id (after s (handle s n change lost))
  unfolding handle
  handle-IsDown s d = elim (Bool-cases (has_line n s.lines)) [
    | inl there ↦ rw there (on_line-DownLine s.lines d)
    | inr missing ↦ rw missing d
  ]

refill-DownLine :
    (id ticks : ℕ) (lines : List LineState)
    → All (DownLine id) lines
    → All (DownLine id) (map (refill ticks) lines)
unfolding refill
refill-DownLine id ticks [] d = tt
refill-DownLine id ticks (line ∷ lines) d =
    (λ e. ground (arith, d.0, e), refill-DownLine id ticks lines d.1)

-- A grant is on a line that is up.
granted_up :
    (id : ℕ) (request : SendRequest) (line : LineState)
    → CanSend request line
    → DownLine id line
    → line.config.id ≢ id
granted_up id request line can down e =
    ground (arith, down e, can.connected, can.negotiated, can.healthy, can.fresh)

Outcome-IsDown :
    (id : ℕ) (s : Scheduler) (request : SendRequest) (r : Scheduler × Option SendGrant)
    → Outcome s request r
    → IsDown id s
    → IsDown id r.0
unfolding charge
Outcome-IsDown id s request (s', none) (same, why) d = subst (IsDown id) (sym same) d
Outcome-IsDown id s request (s', some g) (i, line, at, can, best, eq, same) d =
    let other = granted_up id request line can (All-get (DownLine id) s.lines i line d at) in
    subst (IsDown id) (sym same)
      (All-set (DownLine id) s.lines i (granted request line) d (λ e. absurd (other e)))

Outcome-other :
    (id : ℕ) (s : Scheduler) (request : SendRequest) (r : Scheduler × Option SendGrant)
    → Outcome s request r
    → IsDown id s
    → (g : SendGrant) → r.1 ≡ some g
    → g.line_id ≢ id
Outcome-other id s request (s', none) o d g e = cc e
Outcome-other id s request (s', some h) (i, line, at, can, best, eq, same) d g e = λ same_id.
    granted_up id request line can (All-get (DownLine id) s.lines i line d at) (cc (e, eq, same_id))

cleared-Harmless :
    (id n : ℕ) (change : LineState → LineState)
    → ((line : LineState) → (change line).config.id ≡ line.config.id)
    → ((line : LineState) → usable (change line) ≡ false)
    → Harmless id n (λ line. clear_inflight (change line))
unfolding clear_inflight
cleared-Harmless id n change config down = record { config = config; down = inr down }

step-IsDown :
    (id : ℕ) (s : Scheduler) (e : Event) → KeepsDown id e → IsDown id s → IsDown id (step s e)
unfolding step refill_ticks on_line_connected on_line_negotiated on_line_disconnected
    on_line_protocol_error on_line_failure on_heartbeat on_nack take_lost_sends Line.connected
    Line.negotiated Line.disconnected Line.failed Line.heartbeat
step-IsDown id s (refills ticks) k d = refill-DownLine id ticks s.lines d
step-IsDown id s (acquires request) k d =
    Outcome-IsDown id s request (try_acquire s request) (try_acquire_lem s request) d
step-IsDown id s (connects n) k d =
    handle-IsDown id n _ lost_from
      (cleared-Harmless id n Line.connected (λ line. refl) (λ line. ground arith)) s d
step-IsDown id s (negotiates n window) k d =
    handle-IsDown id n (Line.negotiated window) no_lost
      (record { config = λ line. refl; down = inl k }) s d
step-IsDown id s (disconnects n) k d =
    handle-IsDown id n _ lost_from
      (cleared-Harmless id n Line.disconnected (λ line. refl) (λ line. ground arith)) s d
step-IsDown id s (protocol_errors n) k d =
    handle-IsDown id n _ lost_from
      (cleared-Harmless id n Line.disconnected (λ line. refl) (λ line. ground arith)) s d
step-IsDown id s (fails n) k d =
    handle-IsDown id n _ lost_from
      (cleared-Harmless id n Line.failed (λ line. refl) (λ line. ground arith)) s d
step-IsDown id s (heartbeats n hb) k d =
    handle-IsDown id n (Line.heartbeat hb) no_lost (record { config = λ line. refl; down = inl k })
      s d
step-IsDown id s (nacks n) k d =
    handle-IsDown id n _ lost_from
      (cleared-Harmless id n Line.failed (λ line. refl) (λ line. ground arith)) s d
step-IsDown id s takes_lost k d = d

run-IsDown :
    (id : ℕ) (s : Scheduler) (events : List Event)
    → All (KeepsDown id) events
    → IsDown id s
    → IsDown id (run s events)
unfolding run
run-IsDown id s [] k d = d
run-IsDown id s (e ∷ es) k d = run-IsDown id (step s e) es k.1 (step-IsDown id s e k.0 d)

-- While no line with an id is up, no later request is granted on it, whatever happens, until
-- that line is negotiated or gets a heartbeat.
pub down_not_granted :
    (id : ℕ) (s : Scheduler) (events : List Event) (request : SendRequest) (g : SendGrant)
    → IsDown id s
    → All (KeepsDown id) events
    → (try_acquire (run s events) request).1 ≡ some g
    → g.line_id ≢ id
down_not_granted id s events request g d k e =
    let t = run s events in
    Outcome-other id t request (try_acquire t request) (try_acquire_lem t request)
      (run-IsDown id s events k d) g e
