-- ===== src/Sender/SendBuffer/Keys.antt =====
-- The keys of src/sender/yisync_send_buffer.cpp, and the map by keys.
use yisync.Common.{
  ℕ, ◌≡◌, ◌≢◌, refl, sym, ap, ◌∙◌, subst, List, [], ◌∷◌, Option, none, some, true, false, arith,
  Bool-cases, inl, inr, if◌then◌else◌, All,
}
use yisync.Protocol.Message.{Heartbeat}
use yisync.Network.Line.{SendKind}
use yisync.Sender.SendBuffer.{
  SendBufferKey, kind_code, same_key, BufferedSend, Slot, lookup, assign, erase_key, acked,
  erase_acked,
}

kind_code-injective : (a b : SendKind) → kind_code a ≡ kind_code b → a ≡ b
kind_code-injective a b h = ground arith

same_fields :
    (a b : SendBufferKey)
    → same_key a b ≡ true
    → (kind_code a.kind ≡ kind_code b.kind)
      × (a.stream_id ≡ b.stream_id)
      × (a.file_id ≡ b.file_id)
      × (a.seq ≡ b.seq)
      × (a.offset ≡ b.offset)
      × (a.chunk_index ≡ b.chunk_index)
unfolding same_key
same_fields a b h = ground arith

pub same_key→eq : (a b : SendBufferKey) → same_key a b ≡ true → a ≡ b
same_key→eq a b h =
    let (kind, stream_id, file_id, seq, offset, chunk_index) = same_fields a b h in
    cc (kind_code-injective a.kind b.kind kind, stream_id, file_id, seq, offset, chunk_index)

pub same_key_refl : (a : SendBufferKey) → same_key a a ≡ true
unfolding same_key
same_key_refl a = ground arith

pub other_key : (a b : SendBufferKey) → same_key a b ≡ false → a ≢ b
other_key a b h e = cc (same_key_refl a, ap (same_key a) e)

-- Equal keys are found by the same tests.
same_key_sym : (a b : SendBufferKey) → same_key a b ≡ same_key b a
same_key_sym a b = elim (Bool-cases (same_key a b)) [
  | inl same ↦ rw (same_key→eq a b same) refl
  | inr other ↦ elim (Bool-cases (same_key b a)) [
    | inl same ↦ absurd (other_key a b other (sym (same_key→eq b a same)))
    | inr other2 ↦ other ∙ sym other2
  ]
]

-- No two entries have one key.
abbrev pub Distinct : List Slot → Type 0
Distinct [] = Unit {0}
Distinct (s ∷ slots) = All (λ t. same_key s.key t.key ≡ false) slots × Distinct slots

lookup-absent :
    (key : SendBufferKey) (slots : List Slot)
    → All (λ t. same_key key t.key ≡ false) slots
    → lookup key slots ≡ none
unfolding lookup
lookup-absent key [] h = refl
lookup-absent key (s ∷ slots) h = rw (same_key_sym s.key key, h.0) (lookup-absent key slots h.1)

apart : (a b k : SendBufferKey) → same_key a b ≡ false → same_key a k ≡ true → same_key b k ≡ false
apart a b k h e =
    let same = same_key→eq a k e in same_key_sym b k ∙ subst (λ x. same_key x b ≡ false) same h

pub lookup-assign :
    (k key : SendBufferKey) (send : BufferedSend) (slots : List Slot)
    → lookup k (assign key send slots) ≡ (if same_key key k then some send else lookup k slots)
unfolding lookup assign
lookup-assign k key send [] = refl
lookup-assign k key send (s ∷ slots) = elim (Bool-cases (same_key s.key key)) [
  | inl hit ↦
      let same = ap (λ x. same_key x k) (same_key→eq s.key key hit) in rw hit (ground (arith, same))
  | inr miss ↦
      let rest = lookup-assign k key send slots in
      rw miss (ground (arith, rest, apart s.key key k miss))
]

pub lookup-erase_key :
    (k key : SendBufferKey) (slots : List Slot)
    → Distinct slots
    → lookup k (erase_key key slots) ≡ (if same_key key k then none else lookup k slots)
unfolding lookup erase_key
lookup-erase_key k key [] d = ground arith
lookup-erase_key k key (s ∷ slots) d = elim (Bool-cases (same_key s.key key)) [
  | inl hit ↦
      let e = same_key→eq s.key key hit in
      let same = ap (λ x. same_key x k) e in
      elim (Bool-cases (same_key key k)) [
        | inl this ↦
            let absent = lookup-absent s.key slots d.0 in
            let k_is : s.key ≡ k = e ∙ same_key→eq key k this in
            rw (hit, this) (subst (λ x. lookup x slots ≡ none) k_is absent)
        | inr that ↦ rw (hit, same, that) refl
      ]
  | inr miss ↦
      let rest = lookup-erase_key k key slots d.1 in
      rw miss (ground (arith, rest, apart s.key key k miss))
]

-- What an acknowledgement leaves of one entry.
abbrev pub unless_acked : Heartbeat → SendBufferKey → Option BufferedSend → Option BufferedSend
unless_acked hb key none = none
unless_acked hb key (some send) = if acked hb key send then none else some send

pub lookup-erase_acked :
    (k : SendBufferKey) (hb : Heartbeat) (tick : ℕ) (slots : List Slot)
    → Distinct slots
    → lookup k (erase_acked hb tick slots).0 ≡ unless_acked hb k (lookup k slots)
unfolding lookup erase_acked
lookup-erase_acked k hb tick [] d = refl
lookup-erase_acked k hb tick (s ∷ slots) d =
    let rest = lookup-erase_acked k hb tick slots d.1 in
    elim (Bool-cases (same_key s.key k)) [
      | inl hit ↦
          let e = same_key→eq s.key k hit in
          let same = ap (λ x. acked hb x s.send) e in
          let absent = subst (λ x. lookup x slots ≡ none) e (lookup-absent s.key slots d.0) in
          elim (Bool-cases (acked hb k s.send)) [
            | inl gone ↦ rw (hit, same, gone, rest, absent) refl
            | inr stays ↦ rw (hit, same, stays, hit) refl
          ]
      | inr miss ↦ elim (Bool-cases (acked hb s.key s.send)) [
        | inl gone ↦ rw (miss, gone) rest
        | inr stays ↦ rw (miss, stays, miss) rest
      ]
    ]

module _ (P : SendBufferKey → Type 0) where
  abbrev Keyed : Slot → Type 0
  Keyed s = P s.key

  pub assign-Keyed :
      (key : SendBufferKey) (send : BufferedSend) (slots : List Slot)
      → All Keyed slots
      → P key
      → All Keyed (assign key send slots)
  unfolding assign
  assign-Keyed key send [] h p = (p, tt)
  assign-Keyed key send (s ∷ slots) h p = elim (Bool-cases (same_key s.key key)) [
    | inl hit ↦ rw hit h
    | inr miss ↦ rw miss (h.0, assign-Keyed key send slots h.1 p)
  ]

  pub erase_key-Keyed :
      (key : SendBufferKey) (slots : List Slot) → All Keyed slots → All Keyed (erase_key key slots)
  unfolding erase_key
  erase_key-Keyed key [] h = tt
  erase_key-Keyed key (s ∷ slots) h = elim (Bool-cases (same_key s.key key)) [
    | inl hit ↦ rw hit h.1
    | inr miss ↦ rw miss (h.0, erase_key-Keyed key slots h.1)
  ]

  pub erase_acked-Keyed :
      (hb : Heartbeat) (tick : ℕ) (slots : List Slot)
      → All Keyed slots
      → All Keyed (erase_acked hb tick slots).0
  unfolding erase_acked
  erase_acked-Keyed hb tick [] h = tt
  erase_acked-Keyed hb tick (s ∷ slots) h =
      let rest = erase_acked-Keyed hb tick slots h.1 in
      elim (Bool-cases (acked hb s.key s.send)) [
        | inl gone ↦ rw gone rest
        | inr stays ↦ rw stays (h.0, rest)
      ]

pub assign-Distinct :
    (key : SendBufferKey) (send : BufferedSend) (slots : List Slot)
    → Distinct slots
    → Distinct (assign key send slots)
unfolding assign
assign-Distinct key send [] d = (tt, tt)
assign-Distinct key send (s ∷ slots) d = elim (Bool-cases (same_key s.key key)) [
  | inl hit ↦ rw hit d
  | inr miss ↦ rw miss (
    assign-Keyed (λ k. same_key s.key k ≡ false) key send slots d.0 miss,
    assign-Distinct key send slots d.1,
  )
]

pub erase_key-Distinct :
    (key : SendBufferKey) (slots : List Slot) → Distinct slots → Distinct (erase_key key slots)
unfolding erase_key
erase_key-Distinct key [] d = tt
erase_key-Distinct key (s ∷ slots) d = elim (Bool-cases (same_key s.key key)) [
  | inl hit ↦ rw hit d.1
  | inr miss ↦ rw miss (
    erase_key-Keyed (λ k. same_key s.key k ≡ false) key slots d.0,
    erase_key-Distinct key slots d.1,
  )
]

pub erase_acked-Distinct :
    (hb : Heartbeat) (tick : ℕ) (slots : List Slot)
    → Distinct slots
    → Distinct (erase_acked hb tick slots).0
unfolding erase_acked
erase_acked-Distinct hb tick [] d = tt
erase_acked-Distinct hb tick (s ∷ slots) d =
    let rest = erase_acked-Distinct hb tick slots d.1 in
    elim (Bool-cases (acked hb s.key s.send)) [
      | inl gone ↦ rw gone rest
      | inr stays ↦
          rw stays (erase_acked-Keyed (λ k. same_key s.key k ≡ false) hb tick slots d.0, rest)
    ]
