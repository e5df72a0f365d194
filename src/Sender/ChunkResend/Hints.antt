-- ===== src/Sender/ChunkResend/Hints.antt =====
-- What `apply_missing_hints` of src/sender/yisync_chunk_resend.cpp changes.
use yisync.Common.{
  ℕ, zero, suc, ◌+◌, ◌-◌, ◌≤◌, ◌<◌, ◌≡◌, ◌≢◌, refl, sym, ap, ◌∙◌, subst, inl, inr, List, [], ◌∷◌,
  Bool, true, false, not, ◌&&◌, ◌||◌, arith, ltb, leb, ◌==◌, if◌then◌else◌, length, get_or, set,
  Bool-cases, ==_iff, get_or-set_self, get_or-set_ne, length-set,
}
use yisync.Protocol.Message.{MissingChunkRange}
use yisync.Sender.ChunkResend.{
  ChunkResendState, hint_chunks, range_first, range_last, apply_range, apply_ranges,
  apply_missing_hints,
}
use yisync.Sender.ChunkResend.Invariant.{IsValid}

-- A write to one position, read at any.
pub get_or-set {ℓ} :
    {A : Type ℓ} (xs : List A) (i j : ℕ) (v d : A)
    → i < length xs
    → get_or (set xs i v) j d ≡ (if i == j then v else get_or xs j d)
get_or-set xs i j v d h = elim (Bool-cases (i == j)) [
  | inl here ↦
      let e : i ≡ j = (==_iff i j).0 here in
      rw here (subst (λ k. get_or (set xs i v) k d ≡ v) e (get_or-set_self xs i v d h))
  | inr other ↦ rw other (get_or-set_ne xs i j v d (ground arith))
]

-- What hints leave alone, and how they change the priority of chunk `j`.
pub record Hinted (s t : ChunkResendState) (j : ℕ) (covered : Bool) : Type 0 where
  pub count : t.chunk_count ≡ s.chunk_count
  pub order : t.order ≡ s.order
  pub acked : t.acked ≡ s.acked
  pub sent : t.sent ≡ s.sent
  pub line : t.line ≡ s.line
  pub send_tick : t.send_tick ≡ s.send_tick
  pub attempts : t.attempts ≡ s.attempts
  pub length_priority : length t.priority ≡ length s.priority
  pub priority :
      get_or t.priority j false
      ≡ (get_or s.priority j false || (covered && not (get_or s.acked j false)))

Hinted-refl : (s : ChunkResendState) (j : ℕ) → Hinted s s j false
Hinted-refl s j = record {
  count = refl;
  order = refl;
  acked = refl;
  sent = refl;
  line = refl;
  send_tick = refl;
  attempts = refl;
  length_priority = refl;
  priority = ground arith;
}

Hinted-trans :
    (s t u : ChunkResendState) (j : ℕ) (c d : Bool)
    → Hinted s t j c
    → Hinted t u j d
    → Hinted s u j (c || d)
Hinted-trans s t u j c d p q = record {
  count = q.count ∙ p.count;
  order = q.order ∙ p.order;
  acked = q.acked ∙ p.acked;
  sent = q.sent ∙ p.sent;
  line = q.line ∙ p.line;
  send_tick = q.send_tick ∙ p.send_tick;
  attempts = q.attempts ∙ p.attempts;
  length_priority = q.length_priority ∙ p.length_priority;
  priority =
      ground (arith, p.priority, q.priority, ap (λ (xs : List Bool). get_or xs j false) p.acked);
}

-- One round of the loop over a range.
abbrev hint_one : ChunkResendState → ℕ → ChunkResendState
hint_one s index =
    if get_or s.acked index false then s else record s { priority = set s.priority index true }

same_bit : (xs : List Bool) (i j : ℕ) → (i == j) ≡ true → get_or xs i false ≡ get_or xs j false
same_bit xs i j h = let e : i ≡ j = (==_iff i j).0 h in ap (λ (k : ℕ). get_or xs k false) e

hint_one-Hinted :
    (s : ChunkResendState) (index j : ℕ)
    → index < length s.priority
    → Hinted s (hint_one s index) j (index == j)
hint_one-Hinted s index j h = elim (Bool-cases (get_or s.acked index false)) [
  | inl done ↦ rw done (record {
    count = refl;
    order = refl;
    acked = refl;
    sent = refl;
    line = refl;
    send_tick = refl;
    attempts = refl;
    length_priority = refl;
    priority = ground (arith, done, same_bit s.acked index j);
  })
  | inr wanted ↦ rw wanted (record {
    count = refl;
    order = refl;
    acked = refl;
    sent = refl;
    line = refl;
    send_tick = refl;
    attempts = refl;
    length_priority = length-set s.priority index true;
    priority =
        ground
          (arith, wanted, same_bit s.acked index j, get_or-set s.priority index j true false h);
  })
]

round_range :
    (n index j : ℕ)
    → ((index == j) || (leb (index + 1) j && ltb j (index + 1 + n)))
      ≡ (leb index j && ltb j (index + suc n))
round_range n index j = ground arith

hint_chunks-Hinted :
    (s : ChunkResendState) (n index : ℕ) (changed : Bool) (j : ℕ)
    → index + n ≤ length s.priority
    → Hinted s (hint_chunks s n index changed).0 j (leb index j && ltb j (index + n))
unfolding hint_chunks
hint_chunks-Hinted s zero index changed j h =
    let outside : (leb index j && ltb j (index + zero)) ≡ false = ground arith in
    rw outside (Hinted-refl s j)
hint_chunks-Hinted s (suc n) index changed j h = subst (Hinted s _ j) (round_range n index j) (
    Hinted-trans s (hint_one s index) _ j (index == j) _ (hint_one-Hinted s index j (omega arith)) (
      hint_chunks-Hinted (hint_one s index) n (index + 1) _ j
        (omega (arith, (hint_one-Hinted s index j (omega arith)).length_priority))))

-- Which chunks a range names: those of this file, up to the last chunk.
abbrev pub covers : ChunkResendState → ℕ → ℕ → MissingChunkRange → ℕ → Bool
covers s seq file_id range j =
    range.seq == seq
    && range.file_id == file_id
    && leb range.first_chunk_index j
    && leb j range.last_chunk_index
    && ltb j s.chunk_count

abbrev pub some_covers : ChunkResendState → ℕ → ℕ → List MissingChunkRange → ℕ → Bool
some_covers s seq file_id [] j = false
some_covers s seq file_id (range ∷ ranges) j =
    covers s seq file_id range j || some_covers s seq file_id ranges j

-- The clipped range names the same chunks.
clipped :
    (s : ChunkResendState) (seq file_id : ℕ) (range : MissingChunkRange) (j : ℕ)
    → s.chunk_count ≢ 0
    → range.seq == seq && range.file_id == file_id && leb (range_first s range) (range_last s range)
      ≡ true
    → (leb (range_first s range) j
        && ltb j (range_first s range + (range_last s range + 1 - range_first s range)))
      ≡ covers s seq file_id range j
clipped s seq file_id range j nz h = ground arith

not_mine :
    (s : ChunkResendState) (seq file_id : ℕ) (range : MissingChunkRange) (j : ℕ)
    → s.chunk_count ≢ 0
    → range.seq == seq && range.file_id == file_id && leb (range_first s range) (range_last s range)
      ≡ false
    → covers s seq file_id range j ≡ false
not_mine s seq file_id range j nz h = ground arith

apply_range-Hinted :
    (s : ChunkResendState) (seq file_id : ℕ) (range : MissingChunkRange) (j : ℕ)
    → s.chunk_count ≢ 0
    → length s.priority ≡ s.chunk_count
    → Hinted s (apply_range s seq file_id range).0 j (covers s seq file_id range j)
unfolding apply_range
apply_range-Hinted s seq file_id range j nz len =
    elim (Bool-cases (
      range.seq == seq
      && range.file_id == file_id
      && leb (range_first s range) (range_last s range))) [
        | inl mine ↦
            rw (mine, ← clipped s seq file_id range j nz mine)
              (hint_chunks-Hinted s _ _ false j (ground arith))
        | inr other ↦ rw (other, not_mine s seq file_id range j nz other) (Hinted-refl s j)
      ]

same_ranges :
    (seq file_id : ℕ) (ranges : List MissingChunkRange) (j : ℕ) (s t : ChunkResendState)
    → s.chunk_count ≡ t.chunk_count
    → some_covers s seq file_id ranges j ≡ some_covers t seq file_id ranges j
same_ranges seq file_id [] j s t e = refl
same_ranges seq file_id (range ∷ ranges) j s t e =
    ground (arith, same_ranges seq file_id ranges j s t e)

none_covered :
    (s : ChunkResendState) (seq file_id : ℕ) (ranges : List MissingChunkRange) (j : ℕ)
    → s.chunk_count ≡ 0
    → some_covers s seq file_id ranges j ≡ false
none_covered s seq file_id [] j e = refl
none_covered s seq file_id (range ∷ ranges) j e =
    ground (arith, none_covered s seq file_id ranges j e)

apply_ranges-Hinted :
    (s : ChunkResendState) (seq file_id : ℕ) (ranges : List MissingChunkRange) (j : ℕ)
    → s.chunk_count ≢ 0
    → length s.priority ≡ s.chunk_count
    → Hinted s (apply_ranges s seq file_id ranges).0 j (some_covers s seq file_id ranges j)
unfolding apply_ranges
apply_ranges-Hinted s seq file_id [] j nz len = Hinted-refl s j
apply_ranges-Hinted s seq file_id (range ∷ ranges) j nz len =
    let first = apply_range-Hinted s seq file_id range j nz len in
    let s1 = (apply_range s seq file_id range).0 in
    Hinted-trans s s1 _ j (covers s seq file_id range j) (some_covers s seq file_id ranges j) first
      (subst (λ c. Hinted s1 (apply_ranges s1 seq file_id ranges).0 j c)
        (same_ranges seq file_id ranges j s1 s first.count)
        (apply_ranges-Hinted s1 seq file_id ranges j (λ e. nz (sym first.count ∙ e))
          (first.length_priority ∙ len ∙ sym first.count)))

-- On a well-formed state, missing-chunk hints set the priority of exactly the chunks that some
-- range of this file names and that are not acknowledged, and change nothing else.
pub apply_missing_hints-Hinted :
    (s : ChunkResendState) (seq file_id : ℕ) (ranges : List MissingChunkRange) (j : ℕ)
    → IsValid s
    → Hinted s (apply_missing_hints s seq file_id ranges).0 j (some_covers s seq file_id ranges j)
unfolding apply_missing_hints
apply_missing_hints-Hinted s seq file_id ranges j v = elim (Bool-cases (s.chunk_count == 0)) [
  | inl empty ↦
      let e : s.chunk_count ≡ 0 = (==_iff s.chunk_count 0).0 empty in
      rw (empty, none_covered s seq file_id ranges j e) (Hinted-refl s j)
  | inr some_chunks ↦
      rw some_chunks (apply_ranges-Hinted s seq file_id ranges j (ground arith) v.priority)
]
