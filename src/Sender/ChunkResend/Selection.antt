-- ===== src/Sender/ChunkResend/Selection.antt =====
-- Which chunk `next_chunk_to_send` of src/sender/yisync_chunk_resend.cpp chooses.
use yisync.Common.{
  ℕ, zero, suc, ◌+◌, ◌≤◌, ◌<◌, ◌≡◌, refl, subst, ◌⊎◌, inl, inr, List, [], ◌∷◌, Option, none, some,
  true, false, arith, ◌==◌, length, get_or, Bool-cases, ==_iff,
}
use yisync.Sender.ChunkResend.{
  ChunkResendState, can_send_chunk, first_priority, first_in_order, or_else, next_chunk_to_send,
  in_range, indices, default_order, initialize_chunk_resend_state,
}
use yisync.Sender.ChunkResend.Invariant.{IsValid}

-- The chunk is wanted now: not acknowledged, and not sent, or hinted missing with its time over.
pub record Sendable (s : ChunkResendState) (tick ticks i : ℕ) : Type 0 where
  pub exists : i < s.chunk_count
  pub unacked : get_or s.acked i false ≡ false
  pub due :
      (get_or s.sent i false ≡ false)
      ⊎ ((get_or s.priority i false ≡ true) × (get_or s.send_tick i 0 + ticks ≤ tick))

abbrev pub HasPriority : ChunkResendState → ℕ → Type 0
HasPriority s i = get_or s.priority i false ≡ true

abbrev pub Contains : ℕ → List ℕ → Type 0
Contains i [] = ⊥
Contains i (x ∷ xs) = (x ≡ i) ⊎ Contains i xs

-- What the function answers: a chunk that is wanted now, with priority if any wanted one has it; and
-- nothing only if no chunk is wanted.
abbrev pub Answer : ChunkResendState → ℕ → ℕ → Option ℕ → Type 0
Answer s tick ticks none = (i : ℕ) → ¬ Sendable s tick ticks i
Answer s tick ticks (some c) =
    Sendable s tick ticks c
    × (HasPriority s c ⊎ ((i : ℕ) → HasPriority s i → ¬ Sendable s tick ticks i))

module _ (s : ChunkResendState) (v : IsValid s) (tick ticks : ℕ) where
  can_send→Sendable : (i : ℕ) → can_send_chunk s i false tick ticks ≡ true → Sendable s tick ticks i
  unfolding can_send_chunk
  can_send→Sendable i h = ground (arith, v.acked)

  Sendable→can_send : (i : ℕ) → Sendable s tick ticks i → can_send_chunk s i false tick ticks ≡ true
  unfolding can_send_chunk
  Sendable→can_send i h = ground (arith, v.acked, h.exists, h.unacked, h.due)

  can_send-priority :
      (i : ℕ)
      → can_send_chunk s i true tick ticks ≡ true
      → HasPriority s i × (can_send_chunk s i false tick ticks ≡ true)
  unfolding can_send_chunk
  can_send-priority i h = ground arith

  priority-can_send :
      (i : ℕ)
      → HasPriority s i
      → can_send_chunk s i false tick ticks ≡ true
      → can_send_chunk s i true tick ticks ≡ true
  unfolding can_send_chunk
  priority-can_send i p h = ground arith

  -- The first loop.
  abbrev Scanned : ℕ → ℕ → Option ℕ → Type 0
  Scanned n index none =
      (i : ℕ) → index ≤ i → i < index + n → can_send_chunk s i true tick ticks ≡ false
  Scanned n index (some c) = (c < index + n) × (can_send_chunk s c true tick ticks ≡ true)

  later :
      (n index : ℕ)
      → can_send_chunk s index true tick ticks ≡ false
      → (found : Option ℕ) → Scanned n (index + 1) found
      → Scanned (suc n) index found
  later n index cannot none h = λ i lo hi. elim (Bool-cases (i == index)) [
    | inl here ↦ let e : i ≡ index = (==_iff i index).0 here in rw e cannot
    | inr other ↦ h i (ground arith) (omega arith)
  ]
  later n index cannot (some c) h = (omega (arith, h.0), h.1)

  first_priority-Scanned : (n index : ℕ) → Scanned n index (first_priority s tick ticks n index)
  unfolding first_priority
  first_priority-Scanned zero index = λ i lo hi. absurd (omega arith)
  first_priority-Scanned (suc n) index =
      elim (Bool-cases (can_send_chunk s index true tick ticks)) [
        | inl can ↦ rw can (omega arith, can)
        | inr cannot ↦ rw cannot (
            later n index cannot (first_priority s tick ticks n (index + 1))
              (first_priority-Scanned n (index + 1)))
      ]

  no_priority :
      first_priority s tick ticks (length s.priority) 0 ≡ none
      → (i : ℕ) → HasPriority s i
      → ¬ Sendable s tick ticks i
  no_priority e i p can = cc (
    scanned (first_priority-Scanned (length s.priority) 0) i (omega arith)
        (omega (arith, v.priority, can.exists)),
    priority-can_send i p (Sendable→can_send i can),
  )
    where
      scanned :
          Scanned (length s.priority) 0 (first_priority s tick ticks (length s.priority) 0)
          → Scanned (length s.priority) 0 none
      scanned h = subst (Scanned (length s.priority) 0) e h

  -- The second loop.
  abbrev Searched : List ℕ → Option ℕ → Type 0
  Searched order none = (i : ℕ) → Contains i order → can_send_chunk s i false tick ticks ≡ false
  Searched order (some c) = can_send_chunk s c false tick ticks ≡ true

  Searched-later :
      (x : ℕ) (order : List ℕ)
      → can_send_chunk s x false tick ticks ≡ false
      → (found : Option ℕ) → Searched order found
      → Searched (x ∷ order) found
  Searched-later x order cannot none h = λ i there. elim there [
    | inl e ↦ subst (λ k. can_send_chunk s k false tick ticks ≡ false) e cannot
    | inr more ↦ h i more
  ]
  Searched-later x order cannot (some c) h = h

  first_in_order-Searched : (order : List ℕ) → Searched order (first_in_order s tick ticks order)
  unfolding first_in_order
  first_in_order-Searched [] = λ i there. absurd there
  first_in_order-Searched (x ∷ order) = elim (Bool-cases (can_send_chunk s x false tick ticks)) [
    | inl can ↦ rw can can
    | inr cannot ↦ rw cannot (
        Searched-later x order cannot (first_in_order s tick ticks order)
          (first_in_order-Searched order))
  ]

  module _ (covers : (i : ℕ) → i < s.chunk_count → Contains i s.order) where
    second :
        ((i : ℕ) → HasPriority s i → ¬ Sendable s tick ticks i)
        → (found : Option ℕ) → Searched s.order found
        → Answer s tick ticks found
    second no_prio none h = λ i can. cc (h i (covers i can.exists), Sendable→can_send i can)
    second no_prio (some c) h = (can_send→Sendable c h, inr no_prio)

    both :
        (found : Option ℕ)
        → first_priority s tick ticks (length s.priority) 0 ≡ found
        → Scanned (length s.priority) 0 found
        → Answer s tick ticks (or_else found (first_in_order s tick ticks s.order))
    both none e h = second (no_priority e) _ (first_in_order-Searched s.order)
    both (some c) e h = let (p, can) = can_send-priority c h.1 in (can_send→Sendable c can, inl p)

    -- On a well-formed state whose order has every chunk, `next_chunk_to_send` answers with a
    -- chunk that is wanted now, one hinted missing before any other, and answers with none only
    -- if no chunk is wanted.
    pub next_chunk_to_send-Answer : Answer s tick ticks (next_chunk_to_send s tick ticks)
    unfolding next_chunk_to_send
    next_chunk_to_send-Answer = both _ refl (first_priority-Scanned (length s.priority) 0)

-- The order of a new state has every chunk, where the caller asks for none or for the default.
indices-Contains : (n from i : ℕ) → from ≤ i → i < from + n → Contains i (indices n from)
unfolding indices
indices-Contains zero from i lo hi = absurd (omega arith)
indices-Contains (suc n) from i lo hi = elim (Bool-cases (from == i)) [
  | inl here ↦ inl ((==_iff from i).0 here)
  | inr later ↦ inr (indices-Contains n (from + 1) i (ground arith) (omega arith))
]

default_order-Contains : (count i : ℕ) → i < count → Contains i (default_order count)
unfolding default_order
default_order-Contains zero i h = absurd (omega arith)
default_order-Contains (suc n) i h = elim (Bool-cases (n == i)) [
  | inl last ↦ inl ((==_iff n i).0 last)
  | inr other ↦ inr (indices-Contains n 0 i (omega arith) (ground arith))
]

-- A new state without a requested order orders every chunk.
pub initialize-Contains :
    (count i : ℕ) → i < count → Contains i (initialize_chunk_resend_state count []).order
unfolding initialize_chunk_resend_state in_range
initialize-Contains zero i h = absurd (omega arith)
initialize-Contains (suc n) i h =
    let filled : (0 == suc n) ≡ false = ground arith in
    rw filled (default_order-Contains (suc n) i h)
