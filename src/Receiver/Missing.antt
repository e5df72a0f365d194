-- ===== src/Receiver/Missing.antt =====
-- Which chunks `missing_ranges` of src/receiver/yisync_receiver.cpp reports.
use yisync.Common.{
  ℕ, zero, suc, ◌+◌, ◌-◌, ◌≤◌, ◌<◌, ◌≡◌, ap, subst, ◌∙◌, inl, inr, List, [], ◌∷◌, Option, none,
  some, Bool, true, false, not, ◌&&◌, ◌||◌, arith, ltb, leb, ◌==◌, if◌then◌else◌, get_or,
  Bool-cases, ==_iff, ◌↔◌,
}
use yisync.Protocol.Message.{MissingChunkRange}
use yisync.Receiver.Files.{ActiveFile, Stream, find_active}
use yisync.Receiver.Commit.{highest_received, end_of_gap, gaps, ranges_below, missing_ranges}

-- Some range of the list has this index.
abbrev pub in_ranges : ℕ → List MissingChunkRange → Bool
in_ranges j [] = false
in_ranges j (r ∷ rs) = (leb r.first_chunk_index j && leb j r.last_chunk_index) || in_ranges j rs

module _ (received : List Bool) where
  -- The gap from `index` on.
  record Gap (n index last : ℕ) : Type 0 where
    lower : index ≤ last
    upper : last ≤ index + n
    missing : (j : ℕ) → index ≤ j → j < last → get_or received j false ≡ false
    moves : 0 < n → get_or received index false ≡ false → index < last

  end_of_gap-Gap : (n index : ℕ) → Gap n index (end_of_gap received n index)
  unfolding end_of_gap
  end_of_gap-Gap zero index = record {
    lower = omega arith;
    upper = omega arith;
    missing = λ j lo hi. absurd (omega arith);
    moves = λ some_left gap. absurd (omega arith);
  }
  end_of_gap-Gap (suc n) index = elim (Bool-cases (get_or received index false)) [
    | inl here ↦ rw here (record {
      lower = omega arith;
      upper = omega arith;
      missing = λ j lo hi. absurd (omega arith);
      moves = λ some_left gap. cc (here, gap);
    })
    | inr gap ↦
        let more = end_of_gap-Gap n (index + 1) in
        rw gap (record {
          lower = omega (arith, more.lower);
          upper = omega (arith, more.upper);
          missing = λ j lo hi. elim (Bool-cases (index == j)) [
            | inl same ↦ ground (arith, gap)
            | inr other ↦ more.missing j (ground arith) hi
          ];
          moves = λ some_left same. omega (arith, more.lower);
        })
  ]

  -- The highest index that is received, of the first `count`.
  abbrev Highest : ℕ → Option ℕ → Type 0
  Highest count none = (j : ℕ) → j < count → get_or received j false ≡ false
  Highest count (some h) =
      (h < count)
      × (get_or received h false ≡ true)
      × ((j : ℕ) → h < j → j < count → get_or received j false ≡ false)

  Highest-suc :
      (index : ℕ) (best : Option ℕ)
      → Highest index best
      → Highest (index + 1) (if get_or received index false then some index else best)
  Highest-suc index none h = elim (Bool-cases (get_or received index false)) [
    | inl here ↦ rw here (omega arith, here, λ j lo hi. absurd (omega arith))
    | inr gap ↦ rw gap (λ j hi. elim (Bool-cases (index == j)) [
      | inl same ↦ ground (arith, gap)
      | inr other ↦ h j (ground arith)
    ])
  ]
  Highest-suc index (some b) h = elim (Bool-cases (get_or received index false)) [
    | inl here ↦ rw here (omega arith, here, λ j lo hi. absurd (omega arith))
    | inr gap ↦ rw gap (
      omega (arith, h.0),
      h.1,
      λ j lo hi. elim (Bool-cases (index == j)) [
        | inl same ↦ ground (arith, gap)
        | inr other ↦ h.2 j lo (ground arith)
      ],
    )
  ]

  highest_received-Highest :
      (n index : ℕ) (best : Option ℕ)
      → Highest index best
      → Highest (index + n) (highest_received received n index best)
  unfolding highest_received
  highest_received-Highest zero index best h = subst (λ k. Highest k best) (omega arith) h
  highest_received-Highest (suc n) index best h =
      subst (λ k. Highest k (highest_received received (suc n) index best)) (omega arith)
        (highest_received-Highest n (index + 1) _ (Highest-suc index best h))

module _ (f : ActiveFile) (j : ℕ) where
  -- What the second loop has to report from `index` on.
  abbrev wanted : ℕ → ℕ → Bool
  wanted index highest = leb index j && ltb j highest && not (get_or f.received j false)

  same_mark :
      (index : ℕ) → (index == j) ≡ true → get_or f.received index false ≡ get_or f.received j false
  same_mark index e = ap (λ (k : ℕ). get_or f.received k false) ((==_iff index j).0 e)

  wanted-received :
      (index highest : ℕ)
      → get_or f.received index false ≡ true
      → wanted (index + 1) highest ≡ wanted index highest
  wanted-received index highest here = ground (arith, here, same_mark index)

  wanted-gap :
      (index highest last : ℕ)
      → index < last
      → last ≤ highest
      → (index ≤ j → j < last → get_or f.received j false ≡ false)
      → ((leb index j && leb j (last - 1)) || wanted last highest) ≡ wanted index highest
  wanted-gap index highest last lt le missing = ground (arith, missing)

  gaps-eq :
      (highest fuel index room : ℕ)
      → highest ≤ index + fuel
      → highest ≤ index + room
      → in_ranges j (gaps f highest fuel index room) ≡ wanted index highest
  unfolding gaps
  gaps-eq highest zero index room enough space = ground arith
  gaps-eq highest (suc fuel) index room enough space =
      elim (Bool-cases (ltb index highest && ltb 0 room)) [
        | inl goes ↦ elim (Bool-cases (get_or f.received index false)) [
          | inl here ↦
              rw (goes, here)
                (gaps-eq highest fuel (index + 1) room (omega arith) (omega arith)
                  ∙ wanted-received index highest here)
          | inr gap ↦
              let g = end_of_gap-Gap f.received (highest - index) index in
              let moved = g.moves (ground arith) gap in
              let last = end_of_gap f.received (highest - index) index in
              rw
                (
                  goes,
                  gap,
                  gaps-eq highest fuel last (room - 1) (omega arith) (omega (arith, g.upper)),
                )
                (wanted-gap index highest last moved (ground (arith, g.upper)) (g.missing j))
        ]
        | inr stops ↦ rw stops (ground arith)
      ]

-- A chunk that did not arrive while a later one did.
abbrev pub Missing : ActiveFile → ℕ → Type 0
Missing f j =
    (get_or f.received j false ≡ false)
    × ((k : ℕ) × (j < k) × (k < f.chunk_count) × (get_or f.received k false ≡ true))

module _ (f : ActiveFile) (max_ranges j : ℕ) (room : f.chunk_count ≤ max_ranges) where
  -- Below the highest that is received, the missing chunks are those that are not received.
  ranges_below-Missing :
      (found : Option ℕ)
      → Highest f.received f.chunk_count found
      → (in_ranges j (ranges_below f max_ranges found) ≡ true) ↔ Missing f j
  ranges_below-Missing none h =
      (λ e. cc e, λ m. let (gap, (k, lt, le, here)) = m in cc (h k le, here))
  ranges_below-Missing (some highest) h =
      let eq = gaps-eq f j highest highest 0 max_ranges (omega arith) (omega (arith, h.0, room)) in
      (
        λ e. (ground (arith, eq), (highest, ground (arith, eq), h.0, h.1)),
        λ m.
            let (gap, (k, lt, le, here)) = m in
            elim (Bool-cases (ltb highest k)) [
              | inl above ↦ cc (h.2 k (ground arith) le, here)
              | inr below ↦ ground (arith, eq, gap, lt)
            ],
      )

  -- With room for as many ranges as the file has chunks, the ranges of `missing_ranges` have
  -- exactly the chunks that are not received while a later one is.
  pub missing_ranges-Missing :
      (s : Stream) (seq : ℕ)
      → find_active seq s.active ≡ some f
      → (in_ranges j (missing_ranges s seq max_ranges) ≡ true) ↔ Missing f j
  unfolding missing_ranges
  missing_ranges-Missing s seq e = elim (Bool-cases (max_ranges == 0)) [
    | inl off ↦
        rw off (
          λ e. cc e,
          λ m. let (gap, (k, lt, le, here)) = m in absurd (ground (arith, off, le, room)),
        )
    | inr on ↦
        rw (on, e)
          (ranges_below-Missing (highest_received f.received f.chunk_count 0 none) (
            subst (λ n. Highest f.received n (highest_received f.received f.chunk_count 0 none))
              (omega arith)
              (highest_received-Highest f.received f.chunk_count 0 none
                (λ j hi. absurd (omega arith)))))
  ]
