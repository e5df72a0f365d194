-- ===== src/Receiver/Append/Again.antt =====
-- Messages that `T_ReceiverStream` (src/receiver/yisync_receiver.cpp) receives again, and what no
-- message takes back.
use yisync.Common.{◌≤◌, ◌≡◌, sym, ap, subst, none, some, arith, inl, inr}
use yisync.Receiver.Append.{AppendStream, refresh_committed_from_disk}
use yisync.Receiver.Append.Session.{
  Event, creates, appends, refreshes, step, apply_data-cases, apply_create-cases,
}

module _ (s : AppendStream) where
  grows :
      (t u : AppendStream)
      → t ≡ u
      → s.expected_seq ≤ u.expected_seq
      → s.expected_seq ≤ t.expected_seq
  grows t u same le = subst (λ r. s.expected_seq ≤ r.expected_seq) (sym same) le

  -- The next number that is expected never falls.
  pub step-expected_seq_le : (e : Event) → s.expected_seq ≤ (step s e).expected_seq
  unfolding refresh_committed_from_disk
  step-expected_seq_le (creates a create) = elim (apply_create-cases a s create) [
    | inl same ↦ grows _ s same (omega arith)
    | inr (fresh, seq, made) ↦ grows _ _ made (ground arith)
  ]
  step-expected_seq_le (appends a m) = elim (apply_data-cases a s m) [
    | inl same ↦ grows _ s same (omega arith)
    | inr (fit, len, inl part) ↦ grows _ _ part (omega arith)
    | inr (fit, len, inr whole) ↦ grows _ _ (ap (λ r. r.0) whole) (ground arith)
  ]
  step-expected_seq_le (refreshes none) = omega arith
  step-expected_seq_le (refreshes (some latest)) = omega arith
