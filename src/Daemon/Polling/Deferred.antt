-- ===== src/Daemon/Polling/Deferred.antt =====
-- What the poll after a deferral reports.
use codex_feishu.Prelude.{
  ℕ, ◌≡◌, refl, ap, ◌∙◌, Bool, true, false, not, ◌&&◌, ◌||◌, some, if◌then◌else◌,
}
use codex_feishu.Prelude.Text.{Text, text_eq, is_empty}
use codex_feishu.AppServer.Json.{Encoding}
use codex_feishu.AppServer.Snapshot.{ThreadReadSnapshot, ThreadSnapshotState}
use codex_feishu.AppServer.Timing.{SnapshotCodec, is_completion, completion_fp, compact_snapshot}
use codex_feishu.AppServer.Diff.{
  approval_is_new, when, completion_is_new, completion_event, diff_snapshot,
}
use codex_feishu.AppServer.Diff.Quiet.{Recorded, Recorded-reported, compact_snapshot-Recorded}
use codex_feishu.Daemon.TerminalGate.State.{Decision}
use codex_feishu.Daemon.TerminalGate.Apply.{time_is_blank, apply_terminal_gate_hot_polling}
use codex_feishu.Daemon.Polling.{compact_deferred_progress_snapshot}

-- Two states that say the same to `DiffSnapshot`.
record SameRecord (p q : ThreadSnapshotState) : Type 0 where
  turn_id : q.last_seen_turn_id ≡ p.last_seen_turn_id
  progress : q.last_progress_fp ≡ p.last_progress_fp
  status : q.last_seen_thread_status ≡ p.last_seen_thread_status
  final : q.last_final_fp ≡ p.last_final_fp
  approval : q.last_approval_fp ≡ p.last_approval_fp

if-SameRecord :
    (b : Bool) (p q r : ThreadSnapshotState)
    → SameRecord p q
    → SameRecord p r
    → SameRecord p (if b then q else r)
if-SameRecord true p q r h k = h
if-SameRecord false p q r h k = k

Recorded-SameRecord :
    (s : ThreadReadSnapshot) (p q : ThreadSnapshotState)
    → SameRecord p q
    → Recorded s p
    → Recorded s q
unfolding approval_is_new
Recorded-SameRecord s p q h k = record {
  turn_id = h.turn_id ∙ k.turn_id;
  progress = h.progress ∙ k.progress;
  status = h.status ∙ k.status;
  final = h.final ∙ k.final;
  approval =
      ap (λ t. s.waiting_on_approval && not (text_eq t s.latest_turn_id)) h.approval ∙ k.approval;
}

-- Hot polling sets the time of the next poll only.
hot_polling-SameRecord :
    (d : Decision) (p q : ThreadSnapshotState)
    → SameRecord p q
    → SameRecord p (apply_terminal_gate_hot_polling d q)
unfolding apply_terminal_gate_hot_polling
hot_polling-SameRecord d p q h =
    if-SameRecord (not d.hot_poll || time_is_blank d.next_poll_after) p q _ h (record {
      turn_id = h.turn_id;
      progress = h.progress;
      status = h.status;
      final = h.final;
      approval = h.approval;
    })

if-last_completion_fp :
    (b : Bool) (t : Text) (p q : ThreadSnapshotState)
    → p.last_completion_fp ≡ t
    → q.last_completion_fp ≡ t
    → (if b then p else q).last_completion_fp ≡ t
if-last_completion_fp true t p q h k = h
if-last_completion_fp false t p q h k = k

hot_polling-last_completion_fp :
    (d : Decision) (t : Text) (p : ThreadSnapshotState)
    → p.last_completion_fp ≡ t
    → (apply_terminal_gate_hot_polling d p).last_completion_fp ≡ t
unfolding apply_terminal_gate_hot_polling
hot_polling-last_completion_fp d t p h =
    if-last_completion_fp (not d.hot_poll || time_is_blank d.next_poll_after) t p _ h h

module _ (codec : SnapshotCodec) (lib : Encoding) (p : ThreadSnapshotState) where
  deferred-Recorded :
      (s : ThreadReadSnapshot) (now : ℕ) (d : Decision)
      → Recorded s (compact_deferred_progress_snapshot lib codec (some p) s now d)
  unfolding compact_deferred_progress_snapshot
  deferred-Recorded s now d =
      Recorded-SameRecord s (compact_snapshot codec lib (some p) s now now) _
        (hot_polling-SameRecord d _ _ (record {
          turn_id = refl;
          progress = refl;
          status = refl;
          final = refl;
          approval = refl;
        }))
        (compact_snapshot-Recorded codec lib (some p) s now now)

  deferred-last_completion_fp :
      (s : ThreadReadSnapshot) (now : ℕ) (d : Decision)
      → (compact_deferred_progress_snapshot lib codec (some p) s now d).last_completion_fp
        ≡ p.last_completion_fp
  unfolding compact_deferred_progress_snapshot
  deferred-last_completion_fp s now d = hot_polling-last_completion_fp d _ _ refl

  -- The poll after a deferral that finds the same snapshot reports the completion of the turn, if
  -- the state before the deferral had not recorded it, and nothing else.
  pub diff_snapshot-compact_deferred_progress_snapshot :
      (s : ThreadReadSnapshot) (now : ℕ) (d : Decision)
      → diff_snapshot lib (some (compact_deferred_progress_snapshot lib codec (some p) s now d)) s
        ≡ when (completion_is_new lib p s) (completion_event lib s)
  unfolding diff_snapshot completion_is_new
  diff_snapshot-compact_deferred_progress_snapshot s now d =
      Recorded-reported codec lib s _ (deferred-Recorded s now d)
      ∙ ap
          (λ t.
            when
              (not (is_empty s.latest_turn_id)
                && not (is_empty s.latest_turn_status)
                && is_completion s.latest_turn_status
                && not (text_eq (completion_fp lib s) t))
              (completion_event lib s))
          (deferred-last_completion_fp s now d)
