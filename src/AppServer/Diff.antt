-- ===== src/AppServer/Diff.antt =====
-- internal/appserver/normalize.go: `DiffSnapshot`, the events that a poll reports.
use codex_feishu.Prelude.{
  ◌+◌, Bool, true, false, not, ◌&&◌, Option, none, some, List, [], ◌∷◌, ◌++◌, if◌then◌else◌,
}
pub mod Quiet
use codex_feishu.Prelude.Text.{Text, codes, text_eq, is_empty}
use codex_feishu.AppServer.Json.{Encoding, fingerprint}
use codex_feishu.AppServer.Prompt.{waiting_text}
use codex_feishu.AppServer.Timing.{completion_fp, is_completion}
use codex_feishu.AppServer.Snapshot.{ThreadReadSnapshot, ThreadSnapshotState, ObserverEvent, Thread}

-- `fmt.Sprintf("poll:%s:%s:…", thread.ID, turnID, …)`
unfoldable pub poll_id : ThreadReadSnapshot → Text → Text
poll_id s rest = codes "poll:" ++ s.thread.id ++ codes ":" ++ s.latest_turn_id ++ codes ":" ++ rest

-- What all events of a poll share.
abbrev pub poll_event : ThreadReadSnapshot → Text → Text → Text → Text → ObserverEvent
poll_event s event_id kind text status = record {
  event_id = event_id;
  kind = kind;
  thread_id = s.thread.id;
  project_name = s.thread.project_name;
  thread_title = s.thread.title;
  text = text;
  status = status;
  turn_id = s.latest_turn_id;
  item_id = [];
  request_id = [];
  needs_reply = false;
  needs_approval = false;
}

-- The tests of `DiffSnapshot`, in their order.
unfoldable pub turn_is_new : ThreadSnapshotState → ThreadReadSnapshot → Bool
unfolding text_eq
turn_is_new p s =
    not (is_empty s.latest_turn_id) && not (text_eq p.last_seen_turn_id s.latest_turn_id)

unfoldable pub progress_is_new : ThreadSnapshotState → ThreadReadSnapshot → Bool
unfolding text_eq
progress_is_new p s =
    not (is_empty s.latest_progress_fp) && not (text_eq s.latest_progress_fp p.last_progress_fp)

unfoldable pub approval_is_new : ThreadSnapshotState → ThreadReadSnapshot → Bool
unfolding text_eq
approval_is_new p s = s.waiting_on_approval && not (text_eq p.last_approval_fp s.latest_turn_id)

unfoldable pub reply_is_new : ThreadSnapshotState → ThreadReadSnapshot → Bool
unfolding text_eq
reply_is_new p s = s.waiting_on_reply && not (text_eq p.last_seen_thread_status s.thread.status)

unfoldable pub final_is_new : ThreadSnapshotState → ThreadReadSnapshot → Bool
unfolding text_eq
final_is_new p s =
    not (is_empty s.latest_final_fp) && not (text_eq s.latest_final_fp p.last_final_fp)

-- `replyFP`
unfoldable pub reply_event_fp : ThreadReadSnapshot → Text
reply_event_fp s = elim s.plan_prompt [
  | none ↦ s.latest_turn_id
  | some prompt ↦ if is_empty prompt.fingerprint then s.latest_turn_id else prompt.fingerprint
]

abbrev pub when {ℓ} : {A : Type ℓ} → Bool → A → List A
when b x = if b then x ∷ [] else []

module _ (lib : Encoding) where
  unfoldable pub completion_is_new : ThreadSnapshotState → ThreadReadSnapshot → Bool
  unfolding text_eq is_completion completion_fp
  completion_is_new p s =
      not (is_empty s.latest_turn_id)
      && not (is_empty s.latest_turn_status)
      && is_completion s.latest_turn_status
      && not (text_eq (completion_fp lib s) p.last_completion_fp)

  -- `turn_failed` or `turn_completed`
  unfoldable pub completion_event : ThreadReadSnapshot → ObserverEvent
  unfolding text_eq poll_id
  completion_event s =
      let status = s.latest_turn_status in
      poll_event s (poll_id s status)
        (if text_eq status (codes "failed") then codes "turn_failed" else codes "turn_completed")
        (codes "Turn " ++ status) status

  unfoldable pub reported : ThreadSnapshotState → ThreadReadSnapshot → List ObserverEvent
  unfolding turn_is_new progress_is_new approval_is_new reply_is_new final_is_new completion_is_new
      completion_event poll_id reply_event_fp waiting_text
  reported p s =
      let status = s.latest_turn_status in
      when (turn_is_new p s) (
        poll_event s (poll_id s (codes "started")) (codes "turn_started") (codes "Turn started")
          status)
      ++ when (progress_is_new p s) (
          poll_event s (poll_id s (codes "progress:" ++ s.latest_progress_fp))
            (codes "tool_activity") s.latest_progress_text status)
      ++ when (approval_is_new p s)
          (record (poll_event s (poll_id s (codes "approval")) (codes "thread_updated")
            (codes "Thread is waiting for approval.") s.thread.status) { needs_approval = true })
      ++ when (reply_is_new p s)
          (record (poll_event s (poll_id s (codes "reply:" ++ reply_event_fp s))
            (codes "thread_updated") (waiting_text s.plan_prompt) s.thread.status) {
              needs_reply = true;
            })
      ++ when (final_is_new p s) (
          poll_event s (poll_id s (codes "final:" ++ s.latest_final_fp)) (codes "final_answer")
            s.latest_final_text status)
      ++ when (completion_is_new p s) (completion_event s)

  -- `DiffSnapshot`
  unfoldable pub diff_snapshot :
      Option ThreadSnapshotState → ThreadReadSnapshot → List ObserverEvent
  unfolding reported
  diff_snapshot none s = []
  diff_snapshot (some p) s = reported p s
