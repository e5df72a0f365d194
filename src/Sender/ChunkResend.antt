-- ===== src/Sender/ChunkResend.antt =====
-- src/sender/yisync_chunk_resend.cpp: which chunk of a file the sender sends next.
pub mod Invariant
pub mod Selection
pub mod Hints
pub mod Marks
use yisync.Common.{
  ℕ, zero, suc, ◌+◌, ◌-◌, ◌%◌, min, List, [], ◌∷◌, ◌++◌, Option, none, some, Bool, true, false, not,
  ◌&&◌, ltb, leb, ◌==◌, if◌then◌else◌, length, get_or, set, replicate, u64_mod,
}
use yisync.Protocol.Message.{MissingChunkRange}

-- Each list has an entry for each chunk; an access by `[]` is in range by `IsValid`.
pub record ChunkResendState : Type 0 where
  pub chunk_count : ℕ
  pub order : List ℕ
  pub acked : List Bool
  pub sent : List Bool
  pub line : List ℕ
  pub send_tick : List ℕ
  pub attempts : List ℕ
  pub priority : List Bool

pub record ChunkSendMark : Type 0 where
  pub marked : Bool
  pub retransmit : Bool
  pub attempt : ℕ

pub record MissingHintApplied : Type 0 where
  pub first_chunk_index : ℕ
  pub last_chunk_index : ℕ

unfoldable pub can_send_chunk : ChunkResendState → ℕ → Bool → ℕ → ℕ → Bool
can_send_chunk s index priority_only current_tick retransmit_ticks =
    let tick = get_or s.send_tick index 0 in
    if leb (length s.acked) index
    then false
    else (if get_or s.acked index false
        then false
        else (if priority_only && not (get_or s.priority index false)
            then false
            else (if not (get_or s.sent index false)
                then true
                else get_or s.priority index false
                  && leb tick current_tick
                  && leb retransmit_ticks (current_tick - tick))))

-- The indices of the requested order that name a chunk.
unfoldable pub in_range : ℕ → List ℕ → List ℕ
in_range count [] = []
in_range count (i ∷ is) = if ltb i count then i ∷ in_range count is else in_range count is

-- `for (i = from; n rounds; ++i) push_back(i)`.
unfoldable pub indices : ℕ → ℕ → List ℕ
indices zero from = []
indices (suc n) from = from ∷ indices n (from + 1)

-- The last chunk first, then the others.
unfoldable pub default_order : ℕ → List ℕ
default_order zero = []
default_order (suc n) = n ∷ indices n 0

unfoldable pub initialize_chunk_resend_state : ℕ → List ℕ → ChunkResendState
unfolding in_range default_order
initialize_chunk_resend_state chunk_count requested_order =
    let requested = in_range chunk_count requested_order in
    record {
      chunk_count = chunk_count;
      order = if length requested == chunk_count then requested else default_order chunk_count;
      acked = replicate chunk_count false;
      sent = replicate chunk_count false;
      line = replicate chunk_count 0;
      send_tick = replicate chunk_count 0;
      attempts = replicate chunk_count 0;
      priority = replicate chunk_count false;
    }

unfoldable pub reset_chunk_resend_state : ChunkResendState → ChunkResendState
reset_chunk_resend_state s = record s {
  acked = replicate (length s.acked) false;
  sent = replicate (length s.sent) false;
  line = replicate (length s.line) 0;
  send_tick = replicate (length s.send_tick) 0;
  attempts = replicate (length s.attempts) 0;
  priority = replicate (length s.priority) false;
}

unfoldable pub all_of : List Bool → Bool
all_of [] = true
all_of (b ∷ bs) = b && all_of bs

unfoldable pub all_chunks_acked : ChunkResendState → Bool
unfolding all_of
all_chunks_acked s = all_of s.acked

abbrev pub chunk_index_valid : ChunkResendState → ℕ → Bool
chunk_index_valid s chunk_index = ltb chunk_index s.chunk_count && ltb chunk_index (length s.acked)

pub chunk_attempts : ChunkResendState → ℕ → ℕ
chunk_attempts s chunk_index =
    if chunk_index_valid s chunk_index then get_or s.attempts chunk_index 0 else 0

-- The first loop of `next_chunk_to_send`, with `n` rounds left.
unfoldable pub first_priority : ChunkResendState → ℕ → ℕ → ℕ → ℕ → Option ℕ
first_priority s tick ticks zero index = none
first_priority s tick ticks (suc n) index =
    let rest = first_priority s tick ticks n (index + 1) in
    if can_send_chunk s index true tick ticks then some index else rest

-- The second loop, over `order`.
unfoldable pub first_in_order : ChunkResendState → ℕ → ℕ → List ℕ → Option ℕ
first_in_order s tick ticks [] = none
first_in_order s tick ticks (index ∷ indices) =
    if can_send_chunk s index false tick ticks
    then some index
    else first_in_order s tick ticks indices

abbrev pub or_else : Option ℕ → Option ℕ → Option ℕ
or_else none other = other
or_else (some i) other = some i

unfoldable pub next_chunk_to_send : ChunkResendState → ℕ → ℕ → Option ℕ
next_chunk_to_send s current_tick retransmit_ticks =
    or_else (first_priority s current_tick retransmit_ticks (length s.priority) 0)
      (first_in_order s current_tick retransmit_ticks s.order)

unfoldable pub mark_chunk_sent : ChunkResendState → ℕ → ℕ → ℕ → ChunkResendState × ChunkSendMark
mark_chunk_sent s index line_id current_tick =
    let attempts = get_or s.attempts index 0 in
    let attempt = (attempts + 1) % u64_mod in
    if chunk_index_valid s index
    then (
      record s {
        sent = set s.sent index true;
        line = set s.line index line_id;
        send_tick = set s.send_tick index current_tick;
        attempts = set s.attempts index attempt;
        priority = set s.priority index false;
      },
      record { marked = true; retransmit = ltb 0 attempts; attempt = attempt },
    )
    else (s, record { marked = false; retransmit = false; attempt = 0 })

unfoldable pub acknowledge_chunk : ChunkResendState → ℕ → ChunkResendState × Bool
acknowledge_chunk s index =
    if chunk_index_valid s index
    then (
      record s {
        acked = set s.acked index true;
        sent = set s.sent index true;
        line = set s.line index 0;
        priority = set s.priority index false;
      },
      true,
    )
    else (s, false)

unfoldable pub mark_chunk_lost : ChunkResendState → ℕ → ChunkResendState × Bool
mark_chunk_lost s index =
    if chunk_index_valid s index && get_or s.sent index false && not (get_or s.acked index false)
    then (
      record s {
        sent = set s.sent index false;
        line = set s.line index 0;
        priority = set s.priority index true;
      },
      true,
    )
    else (s, false)

-- The inner loop of `apply_missing_hints` from `index` on, with `n` rounds left.
unfoldable pub hint_chunks : ChunkResendState → ℕ → ℕ → Bool → ChunkResendState × Bool
hint_chunks s zero index changed = (s, changed)
hint_chunks s (suc n) index changed =
    let hinted = record s { priority = set s.priority index true } in
    let acked = get_or s.acked index false in
    hint_chunks (if acked then s else hinted) n (index + 1) (if acked then changed else true)

-- One round of the outer loop: a range that is for this file and not empty.
abbrev pub range_first : ChunkResendState → MissingChunkRange → ℕ
range_first s range = min range.first_chunk_index s.chunk_count

abbrev pub range_last : ChunkResendState → MissingChunkRange → ℕ
range_last s range = min range.last_chunk_index (s.chunk_count - 1)

unfoldable pub apply_range :
    ChunkResendState → ℕ → ℕ → MissingChunkRange → ChunkResendState × List MissingHintApplied
apply_range s seq file_id range =
    let first = range_first s range in
    let last = range_last s range in
    let hinted = hint_chunks s (last + 1 - first) first false in
    if range.seq == seq && range.file_id == file_id && leb first last
    then (
      hinted.0,
      (if hinted.1 then record { first_chunk_index = first; last_chunk_index = last } ∷ [] else []),
    )
    else (s, [])

unfoldable pub apply_ranges :
    ChunkResendState → ℕ → ℕ → List MissingChunkRange → ChunkResendState × List MissingHintApplied
apply_ranges s seq file_id [] = (s, [])
apply_ranges s seq file_id (range ∷ ranges) =
    let (s1, applied) = apply_range s seq file_id range in
    let (s2, more) = apply_ranges s1 seq file_id ranges in (s2, applied ++ more)

unfoldable pub apply_missing_hints :
    ChunkResendState → ℕ → ℕ → List MissingChunkRange → ChunkResendState × List MissingHintApplied
apply_missing_hints s seq file_id ranges =
    if s.chunk_count == 0 then (s, []) else apply_ranges s seq file_id ranges
