-- ===== src/Sender/SendBuffer/Refine.antt =====
-- The send buffer of src/sender/yisync_send_buffer.cpp refines a function from keys to sends.
use yisync.Common.{
  ℕ, ◌+◌, ◌%◌, max, ◌≡◌, refl, sym, ap, ◌∙◌, subst, List, [], ◌∷◌, Option, none, some, arith,
  Bool-cases, Option-cases, inl, inr, ◌==◌, if◌then◌else◌, Bool, false, not, ◌&&◌, ◌||◌, ltb, leb,
  u64_mod,
}
use yisync.Protocol.Message.{Message, Heartbeat, ReceivedChunk, Nack}
use yisync.Network.Line.{SendKind, SendRequest}
use yisync.Sender.SendBuffer.{
  SendBufferKey, kind_code, is_data, acked, same_key, BufferedSend, SendBuffer, clear,
  key_for_request, find, remember, erase_completed, erase_found, erase_file_begin, erase_chunk,
  enqueue_retransmit, enqueue_key, enqueue_nack_retransmit, key_for_nack, retransmitted, mark_found,
  mark_retransmitted, erase_retransmit, lookup,
}
use yisync.Sender.SendBuffer.Keys.{
  Distinct, same_key→eq, lookup-assign, lookup-erase_key, lookup-erase_acked, unless_acked,
  assign-Distinct, erase_key-Distinct, erase_acked-Distinct,
}

-- The calls that change the buffer.
pub data Call : Type 0 where
  clears : Call
  remembers : Message → SendRequest → ℕ → Call
  completes : Heartbeat → ℕ → Call
  begins : ℕ → ℕ → ℕ → ℕ → Call
  receives : ReceivedChunk → ℕ → ℕ → Call
  enqueues : SendBufferKey → Call
  refuses : Nack → ℕ → Call
  marks : SendBufferKey → ℕ → ℕ → Call
  drops : ℕ → Call

abbrev pub step : SendBuffer → Call → SendBuffer
step b clears = clear
step b (remembers message request tick) = remember b message request tick
step b (completes hb tick) = (erase_completed b hb tick).0
step b (begins stream_id file_id seq tick) = (erase_file_begin b stream_id file_id seq tick).0
step b (receives chunk stream_id tick) = (erase_chunk b chunk stream_id tick).0
step b (enqueues key) = (enqueue_retransmit b key).0
step b (refuses nack chunk_size) = (enqueue_nack_retransmit b nack chunk_size).0
step b (marks key bytes tick) = (mark_retransmitted b key bytes tick).0
step b (drops index) = erase_retransmit b index

unfoldable pub run : SendBuffer → List Call → SendBuffer
run b [] = b
run b (c ∷ calls) = run (step b c) calls

-- What is in flight: the send of each key. The meaning of the calls is written out in terms of the
-- fields, not by the operations of the code.
abbrev pub InFlight : Type 0
InFlight = SendBufferKey → Option BufferedSend

abbrev pub with_key : SendBufferKey → Option BufferedSend → InFlight → InFlight
with_key key send sends = λ k. if same_key key k then send else sends k

-- Every field of the key tells messages apart.
abbrev pub name_of : SendKind → ℕ → ℕ → ℕ → ℕ → ℕ → SendBufferKey
name_of kind stream_id file_id seq offset chunk_index = record {
  kind = kind;
  stream_id = stream_id;
  file_id = file_id;
  seq = seq;
  offset = offset;
  chunk_index = chunk_index;
}

-- Sent once more: the new size and tick, and one retry more.
abbrev pub again : ℕ → ℕ → Option BufferedSend → Option BufferedSend
again bytes tick none = none
again bytes tick (some send) = some (record {
  message = send.message;
  request = record (send.request) { bytes = bytes };
  last_sent_tick = tick;
  nack_retries = (send.nack_retries + 1) % u64_mod;
})

-- A heartbeat of the stream acknowledges what has a number below its next one, and the data of its
-- file up to what the receiver has or has durably, whichever is more.
abbrev pub arrived : Heartbeat → SendBufferKey → BufferedSend → Bool
arrived hb key send =
    if key.stream_id == hb.stream_id
    then ltb key.seq hb.next_seq
      || (kind_code key.kind == 2
          && key.file_id == hb.file_id
          && ltb 0 send.request.end_offset
          && leb send.request.end_offset (max hb.offset hb.durable_offset))
    else false

abbrev pub not_arrived : Heartbeat → SendBufferKey → Option BufferedSend → Option BufferedSend
not_arrived hb key none = none
not_arrived hb key (some send) = if arrived hb key send then none else some send

-- What a call means for the sends in flight.
abbrev pub spec_step : InFlight → Call → InFlight
spec_step sends clears = λ k. none
spec_step sends (remembers message r tick) =
    with_key (name_of r.kind r.stream_id r.file_id r.seq r.offset r.chunk_index)
      (some (record { message = message; request = r; last_sent_tick = tick; nack_retries = 0 }))
      sends
spec_step sends (completes hb tick) =
    λ k. if hb.next_seq == 0 then sends k else not_arrived hb k (sends k)
spec_step sends (begins stream_id file_id seq tick) =
    with_key (name_of SendKind.file_begin stream_id file_id seq 0 0) none sends
spec_step sends (receives chunk stream_id tick) =
    with_key (name_of SendKind.chunk stream_id chunk.file_id chunk.seq 0 chunk.chunk_index) none
      sends
spec_step sends (marks key bytes tick) = with_key key (again bytes tick (sends key)) sends
spec_step sends call = sends

unfoldable pub spec_run : InFlight → List Call → InFlight
spec_run sends [] = sends
spec_run sends (c ∷ calls) = spec_run (spec_step sends c) calls

is_data-code : (kind : SendKind) → is_data kind ≡ (kind_code kind == 2)
is_data-code SendKind.create = refl
is_data-code SendKind.data_send = refl
is_data-code SendKind.file_begin = refl
is_data-code SendKind.chunk = refl
is_data-code SendKind.file_commit = refl

leb-max : (n a b : ℕ) → (leb n a || leb n b) ≡ leb n (max a b)
leb-max n a b = ground arith

nonzero : (n : ℕ) → not (n == 0) ≡ ltb 0 n
nonzero n = ground arith

module _ (b : SendBuffer) (d : Distinct b.entries) where
  erase_found-Distinct :
      (key : SendBufferKey) (tick : ℕ) (found : Option BufferedSend)
      → Distinct (erase_found b key tick found).0.entries
  erase_found-Distinct key tick none = d
  erase_found-Distinct key tick (some send) = erase_key-Distinct key b.entries d

  mark_found-Distinct :
      (key : SendBufferKey) (bytes tick : ℕ) (found : Option BufferedSend)
      → Distinct (mark_found b key bytes tick found).0.entries
  mark_found-Distinct key bytes tick none = d
  mark_found-Distinct key bytes tick (some send) =
      assign-Distinct key (retransmitted send bytes tick) b.entries d

  -- Queueing leaves the map as it is.
  enqueue_retransmit-entries :
      (key : SendBufferKey) → (enqueue_retransmit b key).0.entries ≡ b.entries
  unfolding enqueue_retransmit
  enqueue_retransmit-entries key = ground arith

  enqueue_key-entries : (key : Option SendBufferKey) → (enqueue_key b key).0.entries ≡ b.entries
  enqueue_key-entries none = refl
  enqueue_key-entries (some key) = enqueue_retransmit-entries key

  erase_completed-Distinct :
      (hb : Heartbeat) (tick : ℕ) → Distinct (erase_completed b hb tick).0.entries
  unfolding erase_completed
  erase_completed-Distinct hb tick = elim (Bool-cases (hb.next_seq == 0)) [
    | inl nought ↦ rw nought d
    | inr more ↦ rw more (erase_acked-Distinct hb tick b.entries d)
  ]

  acked-arrived :
      (hb : Heartbeat) (k : SendBufferKey) (send : BufferedSend)
      → acked hb k send ≡ arrived hb k send
  unfolding acked
  acked-arrived hb k send = ground (
    arith,
    is_data-code k.kind,
    leb-max send.request.end_offset hb.offset hb.durable_offset,
    nonzero send.request.end_offset,
  )

  unless_acked-not_arrived :
      (hb : Heartbeat) (k : SendBufferKey) (found : Option BufferedSend)
      → unless_acked hb k found ≡ not_arrived hb k found
  unless_acked-not_arrived hb k none = refl
  unless_acked-not_arrived hb k (some send) =
      ap (λ b. if b then none else some send) (acked-arrived hb k send)

  erase_completed-find :
      (hb : Heartbeat) (tick : ℕ) (k : SendBufferKey)
      → find (erase_completed b hb tick).0 k
        ≡ (if hb.next_seq == 0 then find b k else not_arrived hb k (find b k))
  unfolding erase_completed
  erase_completed-find hb tick k = elim (Bool-cases (hb.next_seq == 0)) [
    | inl nought ↦ rw nought refl
    | inr more ↦
        rw more
          (lookup-erase_acked k hb tick b.entries d ∙ unless_acked-not_arrived hb k (find b k))
  ]

  step-Distinct : (c : Call) → Distinct (step b c).entries
  unfolding remember erase_completed erase_file_begin erase_chunk enqueue_nack_retransmit
      mark_retransmitted erase_retransmit
  step-Distinct clears = tt
  step-Distinct (remembers message request tick) =
      assign-Distinct (key_for_request request) _ b.entries d
  step-Distinct (completes hb tick) = erase_completed-Distinct hb tick
  step-Distinct (begins stream_id file_id seq tick) = erase_found-Distinct _ tick _
  step-Distinct (receives chunk stream_id tick) = erase_found-Distinct _ tick _
  step-Distinct (enqueues key) = subst Distinct (sym (enqueue_retransmit-entries key)) d
  step-Distinct (refuses nack chunk_size) =
      subst Distinct (sym (enqueue_key-entries (key_for_nack b nack chunk_size))) d
  step-Distinct (marks key bytes tick) = mark_found-Distinct key bytes tick _
  step-Distinct (drops index) = d

  erase_found-find :
      (key k : SendBufferKey) (tick : ℕ)
      → find (erase_found b key tick (find b key)).0 k ≡ with_key key none (find b) k
  erase_found-find key k tick = elim (Option-cases (find b key)) [
    | inl absent ↦ elim (Bool-cases (same_key key k)) [
      | inl this ↦
          rw (absent, this) (subst (λ x. lookup x b.entries ≡ none) (same_key→eq key k this) absent)
      | inr that ↦ rw (absent, that) refl
    ]
    | inr (send, there) ↦ rw there (lookup-erase_key k key b.entries d)
  ]

  mark_found-find :
      (key k : SendBufferKey) (bytes tick : ℕ)
      → find (mark_found b key bytes tick (find b key)).0 k
        ≡ with_key key (again bytes tick (find b key)) (find b) k
  mark_found-find key k bytes tick = elim (Option-cases (find b key)) [
    | inl absent ↦ elim (Bool-cases (same_key key k)) [
      | inl this ↦
          rw (absent, this) (subst (λ x. lookup x b.entries ≡ none) (same_key→eq key k this) absent)
      | inr that ↦ rw (absent, that) refl
    ]
    | inr (send, there) ↦ rw there (lookup-assign k key (retransmitted send bytes tick) b.entries)
  ]

  step-find : (c : Call) (k : SendBufferKey) → find (step b c) k ≡ spec_step (find b) c k
  unfolding remember erase_completed erase_file_begin erase_chunk enqueue_nack_retransmit
      mark_retransmitted erase_retransmit lookup
  step-find clears k = refl
  step-find (remembers message request tick) k =
      lookup-assign k (key_for_request request) _ b.entries
  step-find (completes hb tick) k = erase_completed-find hb tick k
  step-find (begins stream_id file_id seq tick) k = erase_found-find _ k tick
  step-find (receives chunk stream_id tick) k = erase_found-find _ k tick
  step-find (enqueues key) k = ap (lookup k) (enqueue_retransmit-entries key)
  step-find (refuses nack chunk_size) k =
      ap (lookup k) (enqueue_key-entries (key_for_nack b nack chunk_size))
  step-find (marks key bytes tick) k = mark_found-find key k bytes tick
  step-find (drops index) k = refl

-- Where no two entries have one key, after any history of calls the buffer finds for every key
-- what a function from keys to sends has, whose steps are written out in terms of the fields: a
-- message is kept under all fields of its key until a heartbeat of its stream acknowledges it
-- by its number or, for data, by its offset, or it is erased by its name; each time it is sent
-- again it has the new size and tick and one retry more.
pub run-refines :
    (b : SendBuffer) (calls : List Call) (k : SendBufferKey)
    → Distinct b.entries
    → find (run b calls) k ≡ spec_run (find b) calls k
unfolding run spec_run
run-refines b [] k d = refl
run-refines b (c ∷ calls) k d =
    run-refines (step b c) calls k (step-Distinct b d c)
    ∙ ap (λ sends. spec_run sends calls k) (λ i. λ j. step-find b d c j i)
