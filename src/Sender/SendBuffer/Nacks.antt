-- ===== src/Sender/SendBuffer/Nacks.antt =====
-- Which message a NACK asks for again, and the queue of retransmissions
-- (src/sender/yisync_send_buffer.cpp).
use yisync.Common.{
  ℕ, zero, suc, ◌≤◌, ◌≡◌, refl, subst, List, [], ◌∷◌, Option, none, some, true, arith, Bool-cases,
  inl, inr, ◌==◌, length,
}
use yisync.Protocol.Codes.{NackReason}
use yisync.Protocol.Message.{Nack}
use yisync.Network.Line.{SendKind}
use yisync.Sender.SendBuffer.{
  SendBufferKey, Slot, SendBuffer, key_of, find, is_found, present, or_else, unless_zero, nack_key,
  nack_chunk_index, find_ordered, find_chunk, by_reason, by_got_seq, key_for_nack, expired_within,
}

-- A message in the buffer, of the stream and the file that the NACK names.
pub record Asked (b : SendBuffer) (nack : Nack) (key : SendBufferKey) : Type 0 where
  pub stream : key.stream_id ≡ nack.stream_id
  pub file : key.file_id ≡ nack.file_id
  pub buffered : is_found (find b key) ≡ true

module _ (b : SendBuffer) (nack : Nack) where
  abbrev Answer : Option SendBufferKey → Type 0
  Answer none = Unit {0}
  Answer (some key) = Asked b nack key

  present-Answer :
      (kind : SendKind) (seq offset chunk_index : ℕ)
      → Answer (present b (key_of kind nack.stream_id nack.file_id seq offset chunk_index))
  unfolding present
  present-Answer kind seq offset chunk_index =
      let key = key_of kind nack.stream_id nack.file_id seq offset chunk_index in
      elim (Bool-cases (is_found (find b key))) [
        | inl there ↦ rw there (record { stream = refl; file = refl; buffered = there })
        | inr absent ↦ rw absent tt
      ]

  or_else-Answer : (x y : Option SendBufferKey) → Answer x → Answer y → Answer (or_else x y)
  or_else-Answer none y p q = q
  or_else-Answer (some key) y p q = p

  unless_zero-Answer : (seq : ℕ) (x : Option SendBufferKey) → Answer x → Answer (unless_zero seq x)
  unfolding unless_zero
  unless_zero-Answer seq x p = elim (Bool-cases (seq == 0)) [
    | inl nought ↦ rw nought tt
    | inr more ↦ rw more p
  ]

  module _ (chunk_size : ℕ) where
    one :
        (kind : SendKind) (seq chunk_index : ℕ)
        → Answer (unless_zero seq (present b (nack_key b nack chunk_size kind seq 0 chunk_index)))
    one kind seq chunk_index = unless_zero-Answer seq _ (present-Answer kind seq 0 chunk_index)

    ordered : (seq : ℕ) → Answer (find_ordered b nack chunk_size seq)
    ordered seq = unless_zero-Answer seq _ (
        or_else-Answer _ _ (present-Answer SendKind.create seq 0 0)
          (present-Answer SendKind.data_send seq nack.offset 0))

    chunk_of : (seq : ℕ) → Answer (find_chunk b nack chunk_size seq)
    chunk_of seq = one SendKind.chunk seq (nack_chunk_index b nack chunk_size)

    by_reason-Answer : (reason : NackReason) → Answer (by_reason b nack chunk_size reason)
    by_reason-Answer NackReason.bad_seq = or_else-Answer _ _ (ordered nack.expected_seq) (
        or_else-Answer _ _ (one SendKind.file_begin nack.expected_seq 0) (
          or_else-Answer _ _ (one SendKind.file_commit nack.expected_seq 0)
            (chunk_of nack.expected_seq)))
    by_reason-Answer NackReason.bad_checksum =
        or_else-Answer _ _ (chunk_of nack.got_seq) (ordered nack.got_seq)
    by_reason-Answer NackReason.bad_offset =
        or_else-Answer _ _ (chunk_of nack.got_seq) (ordered nack.got_seq)
    by_reason-Answer NackReason.bad_chunk =
        or_else-Answer _ _ (one SendKind.file_begin nack.got_seq 0) (chunk_of nack.got_seq)
    by_reason-Answer NackReason.bad_commit = one SendKind.file_commit nack.got_seq 0
    by_reason-Answer reason = tt

    by_got_seq-Answer : Answer (by_got_seq b nack chunk_size)
    by_got_seq-Answer =
        let seq = nack.got_seq in
        or_else-Answer _ _ (present-Answer SendKind.create seq 0 0) (
          or_else-Answer _ _ (present-Answer SendKind.data_send seq nack.offset 0) (
            or_else-Answer _ _ (present-Answer SendKind.file_begin seq 0 0)
              (or_else-Answer _ _ (present-Answer SendKind.file_commit seq 0 0) (chunk_of seq))))

    key_for_nack-Answer : Answer (key_for_nack b nack chunk_size)
    unfolding key_for_nack
    key_for_nack-Answer = elim (Bool-cases (nack.file_id == 0)) [
      | inl nought ↦ rw nought tt
      | inr more ↦ rw more (or_else-Answer _ _ (by_reason-Answer nack.reason) by_got_seq-Answer)
    ]

    -- A key that `key_for_nack` answers is that of a message still in the buffer, of the stream
    -- and the file that the NACK names.
    pub key_for_nack-Asked :
        (key : SendBufferKey) → key_for_nack b nack chunk_size ≡ some key → Asked b nack key
    key_for_nack-Asked key e = subst Answer e key_for_nack-Answer

-- The loop stops at the limit, and takes only entries whose time is over.
module _ (current_tick rto_ticks : ℕ) where
  expired_within-le :
      (room : ℕ) (slots : List Slot)
      → length (expired_within current_tick rto_ticks room slots) ≤ room
  unfolding expired_within
  expired_within-le room [] = omega arith
  expired_within-le zero (s ∷ slots) = omega arith
  expired_within-le (suc room) (s ∷ slots) =
      ground (arith, expired_within-le room slots, expired_within-le (suc room) slots)
