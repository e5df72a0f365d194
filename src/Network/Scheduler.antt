-- ===== src/Network/Scheduler.antt =====
-- The class `T_MultiLineScheduler` of src/network/yisync_scheduler.cpp.
pub mod Choice
pub mod Acquire
pub mod Events
pub mod Accounting
pub mod Conservation
pub mod Failure
use yisync.Common.{
  ℕ, zero, suc, ◌+◌, ◌-◌, ◌%◌, u64_mod, List, [], ◌∷◌, ◌++◌, map, Option, none, some, Bool, true,
  false, ◌&&◌, not, ltb, ◌==◌, if◌then◌else◌, Result, ok, err, length, get_elem?, set,
}
use yisync.Protocol.Message.{Bytes, Heartbeat}
use yisync.Network.TokenBucket.{
  TokenBucket, Invalid, no_lines, zero_line_id, duplicate_line_id, unknown_line_id, try_consume,
}
use yisync.Network.TokenBucket
use yisync.Network.Line.{
  LineConfig, LineState, LostSend, SendRequest, SendGrant, usable, eligible, score_line, charge,
  clear_inflight, lost_from,
}
use yisync.Network.Line

pub record Scheduler : Type 0 where
  pub lines : List LineState
  pub lost_sends : List LostSend

-- `find_line` as a test.
unfoldable pub has_line : ℕ → List LineState → Bool
has_line id [] = false
has_line id (line ∷ lines) = if line.config.id == id then true else has_line id lines

abbrev pub initial_line : LineConfig → TokenBucket → LineState
initial_line config bucket = record {
  config = config;
  bucket = bucket;
  inflight_bytes = 0;
  recv_window_bytes = config.initial_recv_window_bytes;
  missed_heartbeat_ticks = 0;
  consecutive_failures = 0;
  last_completed_bytes = 0;
  connected = config.initially_connected;
  negotiated = config.initially_connected;
  healthy = config.initially_connected;
  stale = false;
  pending = [];
}

abbrev pub add_line :
    LineConfig → List LineState → Result Invalid TokenBucket → Result Invalid (List LineState)
add_line config lines (ok bucket) = ok (lines ++ (initial_line config bucket ∷ []))
add_line config lines (err e) = err e

abbrev pub then_lines :
    (List LineState → Result Invalid (List LineState))
    → Result Invalid (List LineState)
    → Result Invalid (List LineState)
then_lines f (ok lines) = f lines
then_lines f (err e) = err e

-- The constructor's loop over the configurations; `lines` is `lines_` so far.
unfoldable pub make_lines : List LineConfig → List LineState → Result Invalid (List LineState)
make_lines [] lines = ok lines
make_lines (config ∷ configs) lines =
    if config.id == 0
    then err zero_line_id
    else (if has_line config.id lines
        then err duplicate_line_id
        else then_lines (make_lines configs)
            (add_line config lines (TokenBucket.make config.limiter)))

abbrev pub with_lines : Result Invalid (List LineState) → Result Invalid Scheduler
with_lines (ok lines) = ok (record { lines = lines; lost_sends = [] })
with_lines (err e) = err e

unfoldable pub make : List LineConfig → Result Invalid Scheduler
make [] = err no_lines
make (config ∷ configs) = with_lines (make_lines (config ∷ configs) [])

unfoldable pub refill_ticks : Scheduler → ℕ → Scheduler
refill_ticks s ticks = record s { lines = map (Line.refill ticks) s.lines }

-- The loop that chooses a line: `best` is the position and the score of the best line so far, and
-- `i` the position of the next line.
unfoldable pub best_line : SendRequest → Option (ℕ × ℕ) → ℕ → List LineState → Option (ℕ × ℕ)
best_line request best i [] = best
best_line request best i (line ∷ lines) =
    best_line request (Choice.better (eligible request line) i (score_line line request) best)
      (i + 1) lines

-- The rest of `try_acquire`, on the line that was chosen.
unfoldable pub grant : Scheduler → SendRequest → ℕ → Option LineState → Scheduler × Option SendGrant
grant s request i none = (s, none)
grant s request i (some line) =
    let (bucket, done) = try_consume line.bucket request.bytes in
    if done
    then (
      record s { lines = set s.lines i (charge request bucket line) },
      some (record { line_id = line.config.id; bytes = request.bytes }),
    )
    else (s, none)

abbrev pub grant_best : Scheduler → SendRequest → Option (ℕ × ℕ) → Scheduler × Option SendGrant
grant_best s request none = (s, none)
grant_best s request (some (i, score)) = grant s request i (get_elem? s.lines i)

unfoldable pub try_acquire : Scheduler → SendRequest → Scheduler × Option SendGrant
try_acquire s request =
    if request.bytes == 0
    then (s, none)
    else grant_best s request (best_line request none 0 s.lines)

-- A handler on the line that `find_line` finds: the lines after it, and the sends that it lost.
unfoldable pub on_line :
    ℕ
    → (LineState → LineState)
    → (LineState → List LostSend)
    → List LineState
    → List LineState × List LostSend
on_line id change lost [] = ([], [])
on_line id change lost (line ∷ lines) =
    let (rest, sends) = on_line id change lost lines in
    if line.config.id == id then (change line ∷ lines, lost line) else (line ∷ rest, sends)

unfoldable pub handle :
    Scheduler → ℕ → (LineState → LineState) → (LineState → List LostSend) → Result Invalid Scheduler
handle s id change lost =
    let (lines, sends) = on_line id change lost s.lines in
    if has_line id s.lines
    then ok (record { lines = lines; lost_sends = s.lost_sends ++ sends })
    else err unknown_line_id

abbrev pub no_lost : LineState → List LostSend
no_lost line = []

unfoldable pub on_line_connected : Scheduler → ℕ → Result Invalid Scheduler
on_line_connected s id = handle s id (λ line. clear_inflight (Line.connected line)) lost_from

unfoldable pub on_line_negotiated : Scheduler → ℕ → ℕ → Result Invalid Scheduler
on_line_negotiated s id window = handle s id (Line.negotiated window) no_lost

unfoldable pub on_line_disconnected : Scheduler → ℕ → Result Invalid Scheduler
on_line_disconnected s id = handle s id (λ line. clear_inflight (Line.disconnected line)) lost_from

unfoldable pub on_line_protocol_error : Scheduler → ℕ → Result Invalid Scheduler
on_line_protocol_error s id =
    handle s id (λ line. clear_inflight (Line.disconnected line)) lost_from

unfoldable pub on_line_failure : Scheduler → ℕ → Result Invalid Scheduler
on_line_failure s id = handle s id (λ line. clear_inflight (Line.failed line)) lost_from

unfoldable pub on_heartbeat : Scheduler → ℕ → Heartbeat → Result Invalid Scheduler
on_heartbeat s id hb = handle s id (Line.heartbeat hb) no_lost

unfoldable pub on_nack : Scheduler → ℕ → Result Invalid Scheduler
on_nack s id = handle s id (λ line. clear_inflight (Line.failed line)) lost_from

-- The loop of `choose_control_line`, with the id of the best line and its score.
unfoldable pub control_score : LineState → ℕ
control_score line =
    if ltb line.inflight_bytes line.recv_window_bytes
    then line.recv_window_bytes - line.inflight_bytes
    else 1

unfoldable pub best_control : Option (ℕ × ℕ) → List LineState → Option (ℕ × ℕ)
best_control best [] = best
best_control best (line ∷ lines) =
    best_control (Choice.better (usable line) line.config.id (control_score line) best) lines

unfoldable pub choose_control_line : Scheduler → Option ℕ
choose_control_line s = Choice.chosen (best_control none s.lines)

unfoldable pub take_lost_sends : Scheduler → Scheduler × List LostSend
take_lost_sends s = (record s { lost_sends = [] }, s.lost_sends)

pub record LineSnapshot : Type 0 where
  pub id : ℕ
  pub name : Bytes
  pub tokens : ℕ
  pub inflight_bytes : ℕ
  pub recv_window_bytes : ℕ
  pub connected : Bool
  pub negotiated : Bool
  pub healthy : Bool
  pub stale : Bool
  pub missed_heartbeat_ticks : ℕ
  pub consecutive_failures : ℕ
  pub pending_sends : ℕ
  pub last_completed_bytes : ℕ

unfoldable pub snapshot : LineState → LineSnapshot
snapshot line = record {
  id = line.config.id;
  name = line.config.name;
  tokens = line.bucket.tokens;
  inflight_bytes = line.inflight_bytes;
  recv_window_bytes = line.recv_window_bytes;
  connected = line.connected;
  negotiated = line.negotiated;
  healthy = line.healthy;
  stale = line.stale;
  missed_heartbeat_ticks = line.missed_heartbeat_ticks;
  consecutive_failures = line.consecutive_failures;
  pending_sends = length line.pending % u64_mod;
  last_completed_bytes = line.last_completed_bytes;
}

unfoldable pub snapshots : Scheduler → List LineSnapshot
snapshots s = map snapshot s.lines
