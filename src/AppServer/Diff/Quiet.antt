-- ===== src/AppServer/Diff/Quiet.antt =====
-- What a poll reports after its snapshot was recorded.
use codex_feishu.Prelude.{
  ℕ, ◌≡◌, refl, sym, ap, ◌∙◌, Bool, true, false, Option, some, [], arith, if◌then◌else◌,
}
use codex_feishu.Prelude.Text.{Text, text_eq, text_eq_iff, is_empty, is_blank}
use codex_feishu.AppServer.Json.{Encoding}
use codex_feishu.AppServer.Timing.{
  SnapshotCodec, latest_tool_timing_key, is_completion, completion_fp, observed_text,
  apply_latest_turn_timing, apply_latest_tool_timing, timed, compacted, compact_snapshot,
}
use codex_feishu.AppServer.Snapshot.{Thread, ThreadReadSnapshot, ThreadSnapshotState}
use codex_feishu.AppServer.Diff.{
  turn_is_new, progress_is_new, approval_is_new, reply_is_new, final_is_new, when,
  completion_is_new, completion_event, reported, diff_snapshot,
}

-- Two snapshots that differ in the times of their turn and tool only, by what `DiffSnapshot` reads.
pub record SameReport (s t : ThreadReadSnapshot) : Type 0 where
  pub turn_id : t.latest_turn_id ≡ s.latest_turn_id
  pub turn_status : t.latest_turn_status ≡ s.latest_turn_status
  pub thread : t.thread ≡ s.thread
  pub progress : t.latest_progress_fp ≡ s.latest_progress_fp
  pub final : t.latest_final_fp ≡ s.latest_final_fp
  pub approval : t.waiting_on_approval ≡ s.waiting_on_approval

if-SameReport :
    (b : Bool) (s t u : ThreadReadSnapshot)
    → SameReport s t
    → SameReport s u
    → SameReport s (if b then t else u)
if-SameReport true s t u h k = h
if-SameReport false s t u h k = k

SameReport-refl : (s : ThreadReadSnapshot) → SameReport s s
SameReport-refl s = record {
  turn_id = refl;
  turn_status = refl;
  thread = refl;
  progress = refl;
  final = refl;
  approval = refl;
}

module _ (codec : SnapshotCodec) (previous : Option ThreadSnapshotState) (observed : Text) where
  turn_timing-SameReport :
      (s : ThreadReadSnapshot) → SameReport s (apply_latest_turn_timing codec previous s observed)
  unfolding apply_latest_turn_timing
  turn_timing-SameReport s =
      if-SameReport (is_blank s.latest_turn_id) s s _ (SameReport-refl s) (record {
        turn_id = refl;
        turn_status = refl;
        thread = refl;
        progress = refl;
        final = refl;
        approval = refl;
      })

  tool_timing-SameReport :
      (s t : ThreadReadSnapshot)
      → SameReport s t
      → SameReport s (apply_latest_tool_timing codec previous t observed)
  unfolding apply_latest_tool_timing
  tool_timing-SameReport s t h =
      if-SameReport (is_empty (latest_tool_timing_key t)) s t _ h (record {
        turn_id = h.turn_id;
        turn_status = h.turn_status;
        thread = h.thread;
        progress = h.progress;
        final = h.final;
        approval = h.approval;
      })

  pub timed-SameReport : (s : ThreadReadSnapshot) → SameReport s (timed codec previous s observed)
  unfolding timed
  timed-SameReport s = tool_timing-SameReport s _ (turn_timing-SameReport s)

text_eq_self : (s t : Text) → s ≡ t → text_eq s t ≡ true
text_eq_self s t e = ground (arith, text_eq_iff s t)

-- What the recorded state says, by the fields that `DiffSnapshot` compares.
pub record Recorded (s : ThreadReadSnapshot) (p : ThreadSnapshotState) : Type 0 where
  pub turn_id : p.last_seen_turn_id ≡ s.latest_turn_id
  pub progress : p.last_progress_fp ≡ s.latest_progress_fp
  pub status : p.last_seen_thread_status ≡ s.thread.status
  pub final : p.last_final_fp ≡ s.latest_final_fp
  pub approval : approval_is_new p s ≡ false

same_completion_fp :
    (lib : Encoding) (s t : ThreadReadSnapshot)
    → SameReport s t
    → completion_fp lib s ≡ completion_fp lib t
unfolding completion_fp
same_completion_fp lib s t h = simp (h.turn_id, h.turn_status)

module _ (codec : SnapshotCodec) (lib : Encoding) where
  compacted-approval :
      (previous : Option ThreadSnapshotState) (s t : ThreadReadSnapshot) (polled_at : ℕ)
      → SameReport s t
      → approval_is_new (compacted codec lib previous t polled_at) s ≡ false
  unfolding compacted approval_is_new
  compacted-approval previous s t polled_at h =
      ground (arith, text_eq_self _ _ h.turn_id, h.approval)

  compacted-completion :
      (previous : Option ThreadSnapshotState) (s t : ThreadReadSnapshot) (polled_at : ℕ)
      → SameReport s t
      → completion_is_new lib (compacted codec lib previous t polled_at) s ≡ false
  unfolding compacted completion_is_new
  compacted-completion previous s t polled_at h = ground (
    arith,
    text_eq_self (completion_fp lib s) (completion_fp lib t) (same_completion_fp lib s t h),
    ap is_completion h.turn_status,
    h.turn_id,
    h.turn_status,
  )

  compacted-Recorded :
      (previous : Option ThreadSnapshotState) (s t : ThreadReadSnapshot) (polled_at : ℕ)
      → SameReport s t
      → Recorded s (compacted codec lib previous t polled_at)
  unfolding compacted
  compacted-Recorded previous s t polled_at h = record {
    turn_id = h.turn_id;
    progress = h.progress;
    status = ap (λ (x : Thread). x.status) h.thread;
    final = h.final;
    approval = compacted-approval previous s t polled_at h;
  }

  -- What is reported against a recorded state: at most the completion.
  pub Recorded-reported :
      (s : ThreadReadSnapshot) (p : ThreadSnapshotState)
      → Recorded s p
      → reported lib p s ≡ when (completion_is_new lib p s) (completion_event lib s)
  unfolding reported turn_is_new progress_is_new reply_is_new final_is_new
  Recorded-reported s p h = ground (
    arith,
    text_eq_self _ _ h.turn_id,
    text_eq_self _ _ (sym h.progress),
    text_eq_self _ _ h.status,
    text_eq_self _ _ (sym h.final),
    h.approval,
  )

  pub compact_snapshot-Recorded :
      (previous : Option ThreadSnapshotState) (s : ThreadReadSnapshot) (now polled_at : ℕ)
      → Recorded s (compact_snapshot codec lib previous s now polled_at)
  unfolding compact_snapshot
  compact_snapshot-Recorded previous s now polled_at =
      compacted-Recorded previous s _ polled_at
        (timed-SameReport codec previous (observed_text codec now polled_at) s)

  -- A poll that finds what the last poll recorded reports nothing.
  pub diff_snapshot-compact_snapshot :
      (previous : Option ThreadSnapshotState) (s : ThreadReadSnapshot) (now polled_at : ℕ)
      → diff_snapshot lib (some (compact_snapshot codec lib previous s now polled_at)) s ≡ []
  unfolding diff_snapshot compact_snapshot
  diff_snapshot-compact_snapshot previous s now polled_at =
      Recorded-reported s _ (compact_snapshot-Recorded previous s now polled_at)
      ∙ ap (λ b. when b (completion_event lib s))
          (compacted-completion previous s _ polled_at
            (timed-SameReport codec previous (observed_text codec now polled_at) s))
