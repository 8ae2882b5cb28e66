-- ===== src/AppServer/ToolSnapshot.antt =====
-- internal/appserver/live_event.go: `ToolSnapshot`, the snapshot of a thread whose tool an event is
-- about, and `ToolSnapshotFromLiveNotification` of normalize.go.
use codex_feishu.Prelude.{◌-◌, not, ◌&&◌, ◌||◌, Option, none, some, [], ◌∷◌, if◌then◌else◌}
pub mod Live
use codex_feishu.Prelude.Text.{Text, codes, trim_space, is_empty, is_blank}
use codex_feishu.AppServer.Json.{Encoding, first_string, fingerprint}
use codex_feishu.AppServer.Details.{live_tool_detail_items}
use codex_feishu.AppServer.Payload.{terminal_latest_tool_status}
use codex_feishu.AppServer.Events.{Event, NormalizedEvent, is_tool_kind, is_completed_kind}
use codex_feishu.AppServer.LiveEvent.{normalize_app_server_live_event}
use codex_feishu.AppServer.ReadSnapshot.{no_thread, no_snapshot}
use codex_feishu.AppServer.Snapshot.{Thread, ThreadReadSnapshot}

-- `status` of `ToolSnapshot`
unfoldable pub tool_event_status : NormalizedEvent → Text
unfolding trim_space is_completed_kind
tool_event_status e =
    let status = trim_space e.status in
    if not (is_empty status)
    then status
    else if is_completed_kind e.kind
    then codes "completed"
    else codes "running"

module _ (lib : Encoding) where
  -- The snapshot, once the event has a thread and something to show.
  unfoldable pub tool_snapshot_of : NormalizedEvent → Thread → Text → ThreadReadSnapshot
  unfolding trim_space first_string terminal_latest_tool_status tool_event_status fingerprint
      live_tool_detail_items is_completed_kind
  tool_snapshot_of e thread thread_id =
      let label = trim_space e.label in
      let status = tool_event_status e in
      let turn_id = trim_space e.turn_id in
      let is_terminal = terminal_latest_tool_status status in
      let progress = if is_empty label then trim_space e.output else label in
      let item_kind = first_string (e.item_kind ∷ codes "tool" ∷ []) in
      let tool_id = first_string (e.item_id ∷ item_kind ∷ []) in
      let s : ThreadReadSnapshot = record no_snapshot {
        thread = record no_thread {
          id = thread_id;
          title = first_string (thread.title ∷ e.thread_title ∷ thread_id ∷ []);
          project_name = first_string (thread.project_name ∷ e.project_name ∷ []);
          status = codes "inProgress";
          active_turn_id = turn_id;
        };
        latest_turn_id = turn_id;
        latest_turn_status =
            if is_terminal
            then first_string (trim_space e.turn_status ∷ codes "inProgress" ∷ [])
            else codes "inProgress";
        latest_progress_text = progress;
        latest_progress_fp =
            fingerprint lib
              (codes "live-progress" ∷ item_kind ∷ tool_id ∷ progress ∷ status ∷ e.output ∷ []);
        latest_tool_id = tool_id;
        latest_tool_kind = item_kind;
        latest_tool_label = label;
        latest_tool_status = status;
        latest_tool_output = e.output;
        latest_tool_fp =
            fingerprint lib
              (codes "live-tool" ∷ item_kind ∷ tool_id ∷ label ∷ status ∷ e.output ∷ []);
        latest_tool_live_current =
            not (is_completed_kind e.kind) && not (is_empty turn_id) && not is_terminal;
      } in
      record s { detail_items = live_tool_detail_items lib s }

  -- `ToolSnapshot`
  unfoldable pub tool_snapshot : NormalizedEvent → Thread → Option ThreadReadSnapshot
  unfolding is_tool_kind first_string is_blank tool_snapshot_of
  tool_snapshot e thread =
      let thread_id = first_string (e.thread_id ∷ thread.id ∷ []) in
      if not (is_tool_kind e.kind) || is_empty thread_id || (is_blank e.label && is_blank e.output)
      then none
      else some (tool_snapshot_of e thread thread_id)

  -- `ToolSnapshotFromLiveNotification`
  unfoldable pub tool_snapshot_from_live_notification : Event → Thread → Option ThreadReadSnapshot
  unfolding normalize_app_server_live_event tool_snapshot
  tool_snapshot_from_live_notification event thread =
      elim (normalize_app_server_live_event lib event thread) [
        | none ↦ none
        | some e ↦ tool_snapshot e thread
      ]
