-- ===== src/Sender/ChunkResend/Invariant.antt =====
-- The lists of a `ChunkResendState` have an entry for each chunk, and every operation keeps that.
use yisync.Common.{
  ℕ, zero, suc, ◌+◌, ◌≤◌, ◌<◌, ◌≡◌, ◌∙◌, List, [], ◌∷◌, Bool, true, false, arith, leb, ◌==◌, length,
  get_or, set, length-set, length-replicate, All, Bool-cases, inl, inr, ◌&&◌, not,
}
use yisync.Protocol.Message.{MissingChunkRange}
use yisync.Sender.ChunkResend.{
  ChunkResendState, chunk_index_valid, in_range, indices, default_order,
  initialize_chunk_resend_state, reset_chunk_resend_state, mark_chunk_sent, acknowledge_chunk,
  mark_chunk_lost, hint_chunks, apply_range, apply_ranges, apply_missing_hints, range_first,
  range_last,
}

pub record IsValid (s : ChunkResendState) : Type 0 where
  pub acked : length s.acked ≡ s.chunk_count
  pub sent : length s.sent ≡ s.chunk_count
  pub line : length s.line ≡ s.chunk_count
  pub send_tick : length s.send_tick ≡ s.chunk_count
  pub attempts : length s.attempts ≡ s.chunk_count
  pub priority : length s.priority ≡ s.chunk_count
  pub order : All (λ i. i < s.chunk_count) s.order

in_range-All : (count : ℕ) (is : List ℕ) → All (λ i. i < count) (in_range count is)
unfolding in_range
in_range-All count [] = tt
in_range-All count (i ∷ is) = ground (arith, in_range-All count is)

indices-All : (n from count : ℕ) → from + n ≤ count → All (λ i. i < count) (indices n from)
unfolding indices
indices-All zero from count h = tt
indices-All (suc n) from count h = (omega arith, indices-All n (from + 1) count (omega arith))

default_order-All : (count : ℕ) → All (λ i. i < count) (default_order count)
unfolding default_order
default_order-All zero = tt
default_order-All (suc n) = (omega arith, indices-All n 0 (suc n) (omega arith))

initialize-order :
    (count : ℕ) (requested : List ℕ)
    → All (λ i. i < count) (initialize_chunk_resend_state count requested).order
unfolding initialize_chunk_resend_state
initialize-order count requested =
    ground (arith, in_range-All count requested, default_order-All count)

pub initialize-IsValid :
    (count : ℕ) (requested : List ℕ) → IsValid (initialize_chunk_resend_state count requested)
unfolding initialize_chunk_resend_state
initialize-IsValid count requested = record {
  acked = length-replicate count false;
  sent = length-replicate count false;
  line = length-replicate count 0;
  send_tick = length-replicate count 0;
  attempts = length-replicate count 0;
  priority = length-replicate count false;
  order = initialize-order count requested;
}

pub reset-IsValid : (s : ChunkResendState) → IsValid s → IsValid (reset_chunk_resend_state s)
unfolding reset_chunk_resend_state
reset-IsValid s v = record {
  acked = length-replicate _ false ∙ v.acked;
  sent = length-replicate _ false ∙ v.sent;
  line = length-replicate _ 0 ∙ v.line;
  send_tick = length-replicate _ 0 ∙ v.send_tick;
  attempts = length-replicate _ 0 ∙ v.attempts;
  priority = length-replicate _ false ∙ v.priority;
  order = v.order;
}

pub mark_chunk_sent-IsValid :
    (s : ChunkResendState) (index line_id tick : ℕ)
    → IsValid s
    → IsValid (mark_chunk_sent s index line_id tick).0
unfolding mark_chunk_sent
mark_chunk_sent-IsValid s index line_id tick v = elim (Bool-cases (chunk_index_valid s index)) [
  | inl valid ↦ rw valid (record {
    acked = v.acked;
    sent = length-set _ _ _ ∙ v.sent;
    line = length-set _ _ _ ∙ v.line;
    send_tick = length-set _ _ _ ∙ v.send_tick;
    attempts = length-set _ _ _ ∙ v.attempts;
    priority = length-set _ _ _ ∙ v.priority;
    order = v.order;
  })
  | inr other ↦ rw other v
]

pub acknowledge_chunk-IsValid :
    (s : ChunkResendState) (index : ℕ) → IsValid s → IsValid (acknowledge_chunk s index).0
unfolding acknowledge_chunk
acknowledge_chunk-IsValid s index v = elim (Bool-cases (chunk_index_valid s index)) [
  | inl valid ↦ rw valid (record {
    acked = length-set _ _ _ ∙ v.acked;
    sent = length-set _ _ _ ∙ v.sent;
    line = length-set _ _ _ ∙ v.line;
    send_tick = v.send_tick;
    attempts = v.attempts;
    priority = length-set _ _ _ ∙ v.priority;
    order = v.order;
  })
  | inr other ↦ rw other v
]

pub mark_chunk_lost-IsValid :
    (s : ChunkResendState) (index : ℕ) → IsValid s → IsValid (mark_chunk_lost s index).0
unfolding mark_chunk_lost
mark_chunk_lost-IsValid s index v =
    elim (Bool-cases (
      chunk_index_valid s index && get_or s.sent index false && not (get_or s.acked index false))) [
        | inl valid ↦ rw valid (record {
          acked = v.acked;
          sent = length-set _ _ _ ∙ v.sent;
          line = length-set _ _ _ ∙ v.line;
          send_tick = v.send_tick;
          attempts = v.attempts;
          priority = length-set _ _ _ ∙ v.priority;
          order = v.order;
        })
        | inr other ↦ rw other v
      ]

hinted-IsValid :
    (s : ChunkResendState) (index : ℕ)
    → IsValid s
    → IsValid (record s { priority = set s.priority index true })
hinted-IsValid s index v = record {
  acked = v.acked;
  sent = v.sent;
  line = v.line;
  send_tick = v.send_tick;
  attempts = v.attempts;
  priority = length-set _ _ _ ∙ v.priority;
  order = v.order;
}

hint_chunks-IsValid :
    (s : ChunkResendState) (n index : ℕ) (changed : Bool)
    → IsValid s
    → IsValid (hint_chunks s n index changed).0
unfolding hint_chunks
hint_chunks-IsValid s zero index changed v = v
hint_chunks-IsValid s (suc n) index changed v = elim (Bool-cases (get_or s.acked index false)) [
  | inl done ↦ rw (done, hint_chunks) (hint_chunks-IsValid s n (index + 1) changed v)
  | inr open_chunk ↦
      rw (open_chunk, hint_chunks)
        (hint_chunks-IsValid (record s { priority = set s.priority index true }) n (index + 1) true
          (hinted-IsValid s index v))
]

apply_range-IsValid :
    (s : ChunkResendState) (seq file_id : ℕ) (range : MissingChunkRange)
    → IsValid s
    → IsValid (apply_range s seq file_id range).0
unfolding apply_range
apply_range-IsValid s seq file_id range v =
    elim (Bool-cases (
      range.seq == seq
      && range.file_id == file_id
      && leb (range_first s range) (range_last s range))) [
        | inl mine ↦ rw mine (hint_chunks-IsValid s _ _ false v)
        | inr other ↦ rw other v
      ]

apply_ranges-IsValid :
    (s : ChunkResendState) (seq file_id : ℕ) (ranges : List MissingChunkRange)
    → IsValid s
    → IsValid (apply_ranges s seq file_id ranges).0
unfolding apply_ranges
apply_ranges-IsValid s seq file_id [] v = v
apply_ranges-IsValid s seq file_id (range ∷ ranges) v =
    apply_ranges-IsValid (apply_range s seq file_id range).0 seq file_id ranges
      (apply_range-IsValid s seq file_id range v)

pub apply_missing_hints-IsValid :
    (s : ChunkResendState) (seq file_id : ℕ) (ranges : List MissingChunkRange)
    → IsValid s
    → IsValid (apply_missing_hints s seq file_id ranges).0
unfolding apply_missing_hints
apply_missing_hints-IsValid s seq file_id ranges v = elim (Bool-cases (s.chunk_count == 0)) [
  | inl empty ↦ rw empty v
  | inr some_chunks ↦ rw some_chunks (apply_ranges-IsValid s seq file_id ranges v)
]
