-- ===== src/AppServer/ReadSnapshot.antt =====
-- internal/appserver/normalize.go: `SnapshotFromThreadRead` and `ApplyTurnResult`.
use codex_feishu.Prelude.{
  max, false, not, ◌&&◌, ◌||◌, Option, none, some, List, [], ◌∷◌, if◌then◌else◌, reverse,
}
pub mod Finished
use codex_feishu.Prelude.Text.{Text, codes, text_eq, trim_space, is_empty, equal_fold}
use codex_feishu.AppServer.Json.{
  ℤ, Json, Fields, Encoding, value_at, as_map, string_at, int64_value, fingerprint,
}
use codex_feishu.AppServer.Items.{render_item_text, tool_label, tool_status, tool_output}
use codex_feishu.AppServer.Collect.{
  item_type, item_id, is_tool_type, collect_agent_message_entries_from_items,
  collect_agent_messages_from_items, latest_final_agent_message, latest_user_message,
}
use codex_feishu.AppServer.Details.{collect_detail_items_from_items}
use codex_feishu.AppServer.Payload.{
  status_text, status_has_flag, waits_for_reply, payload_activity_at,
}
use codex_feishu.AppServer.Prompt.{synthetic_plan_prompt}
use codex_feishu.AppServer.Snapshot.{Thread, ThreadReadSnapshot}
use codex_feishu.AppServer.ThreadRead.{
  thread_payload_of, turns_of, items_of, last_turn, thread_from_payload,
  recent_completed_turn_messages, should_use_latest_user_preview, normalize_finalized_turn,
}

abbrev pub no_thread : Thread
no_thread = record {
  id = [];
  title = [];
  cwd = [];
  project_name = [];
  directory_name = [];
  updated_at = 0;
  status = [];
  last_preview = [];
  active_turn_id = [];
  preferred_model = [];
  permissions_mode = [];
  archived = false;
  listed = false;
  raw = [];
}

-- `ThreadReadSnapshot{}`
abbrev pub no_snapshot : ThreadReadSnapshot
no_snapshot = record {
  thread = no_thread;
  latest_turn_id = [];
  latest_turn_status = [];
  latest_turn_started_at = [];
  latest_turn_updated_at = [];
  waiting_on_approval = false;
  waiting_on_reply = false;
  latest_agent_messages = [];
  latest_agent_message_entries = [];
  latest_progress_fp = [];
  latest_progress_text = [];
  latest_user_message_id = [];
  latest_user_message_text = [];
  latest_user_message_image_path = [];
  latest_user_message_fp = [];
  latest_final_fp = [];
  latest_final_text = [];
  latest_tool_id = [];
  latest_tool_kind = [];
  latest_tool_label = [];
  latest_tool_status = [];
  latest_tool_output = [];
  latest_tool_fp = [];
  latest_tool_live_current = false;
  latest_tool_started_at = [];
  latest_tool_updated_at = [];
  plan_prompt = none;
  detail_items = [];
  recent_turns = [];
  compact_thread_raw = [];
}

-- `TurnResult`
pub record TurnResult : Type 0 where
  pub turn_id : Text
  pub status : Text
  pub final_text : Text

module _ (lib : Encoding) where
  -- The progress of one item in the last loop, where none is known yet.
  unfoldable pub progress_step : Fields → ThreadReadSnapshot → ThreadReadSnapshot
  unfolding trim_space render_item_text fingerprint
  progress_step item s =
      let text = trim_space (render_item_text item) in
      if is_empty text || not (is_empty s.latest_progress_fp) then s else record s {
        latest_progress_fp = fingerprint lib (item_type item ∷ item_id item ∷ text ∷ []);
        latest_progress_text = text;
      }

  -- The tool of one item in the last loop, where none is known yet.
  unfoldable pub tool_step : Fields → ThreadReadSnapshot → ThreadReadSnapshot
  unfolding tool_label tool_status tool_output fingerprint
  tool_step item s =
      let label = tool_label item in
      let status = tool_status item s.latest_turn_status in
      let output = tool_output item in
      if not (is_empty s.latest_tool_fp) then s else record s {
        latest_tool_id = item_id item;
        latest_tool_kind = item_type item;
        latest_tool_label = label;
        latest_tool_status = status;
        latest_tool_output = output;
        latest_tool_fp =
            fingerprint lib (item_type item ∷ item_id item ∷ label ∷ status ∷ output ∷ []);
      }

  unfoldable pub activity_step : Fields → ThreadReadSnapshot → ThreadReadSnapshot
  unfolding text_eq progress_step tool_step is_tool_type
  activity_step item s =
      if text_eq (item_type item) (codes "plan")
      then progress_step item s
      else if is_tool_type (item_type item)
      then tool_step item (progress_step item s)
      else s

  -- The last loop of `SnapshotFromThreadRead`, on the reversed items.
  unfoldable pub add_activity : List Json → ThreadReadSnapshot → ThreadReadSnapshot
  unfolding activity_step
  add_activity [] s = s
  add_activity (raw ∷ before) s = add_activity before (activity_step (as_map raw) s)

  -- The snapshot before the turns are looked at.
  unfoldable pub thread_snapshot : Fields → Text → ThreadReadSnapshot
  unfolding thread_from_payload recent_completed_turn_messages status_has_flag waits_for_reply
  thread_snapshot result compact_raw =
      let thread = thread_from_payload lib result in
      record no_snapshot {
        thread = thread;
        recent_turns = recent_completed_turn_messages lib result 2;
        compact_thread_raw = compact_raw;
        waiting_on_approval = status_has_flag thread.status (codes "waitingOnApproval");
        waiting_on_reply = waits_for_reply thread.status;
      }

  -- What the last turn adds, up to the call of `normalizeFinalizedTurn`.
  unfoldable pub with_turn : ℤ → Fields → ThreadReadSnapshot → ThreadReadSnapshot
  unfolding status_text status_has_flag waits_for_reply payload_activity_at
      should_use_latest_user_preview latest_user_message latest_final_agent_message
      collect_agent_messages_from_items collect_agent_message_entries_from_items
      collect_detail_items_from_items synthetic_plan_prompt
  with_turn thread_updated_at turn s =
      let items = items_of turn in
      let turn_id = string_at turn (codes "id") in
      let status = status_text lib (value_at turn (codes "status")) in
      let turn_updated_at = payload_activity_at turn in
      let user = latest_user_message lib items in
      let final = latest_final_agent_message lib items in
      let waits = s.waiting_on_reply || waits_for_reply status in
      let preview =
        if not (is_empty user.text)
          && should_use_latest_user_preview s.thread.last_preview thread_updated_at turn_updated_at
        then user.text
        else s.thread.last_preview in
      record s {
        thread = record s.thread {
          updated_at = max s.thread.updated_at turn_updated_at;
          last_preview = preview;
        };
        latest_turn_id = turn_id;
        latest_turn_status = status;
        waiting_on_approval =
            s.waiting_on_approval || status_has_flag status (codes "waitingOnApproval");
        waiting_on_reply = waits;
        latest_agent_messages = collect_agent_messages_from_items lib items 3;
        latest_agent_message_entries = collect_agent_message_entries_from_items lib items 3;
        detail_items = collect_detail_items_from_items lib items status;
        plan_prompt = synthetic_plan_prompt lib s.thread.id turn_id items waits;
        latest_user_message_id = user.id;
        latest_user_message_text = user.text;
        latest_user_message_image_path = user.image_path;
        latest_user_message_fp = user.fp;
        latest_final_text = final.0;
        latest_final_fp = final.1;
      }

  -- `SnapshotFromThreadRead`, given the JSON of `CompactThreadReadPayload`.
  unfoldable pub snapshot_from_thread_read : Fields → Text → ThreadReadSnapshot
  unfolding thread_snapshot thread_payload_of last_turn with_turn add_activity
      normalize_finalized_turn int64_value
  snapshot_from_thread_read result compact_raw =
      let payload = thread_payload_of result in
      let s = thread_snapshot result compact_raw in
      elim (last_turn (turns_of payload)) [
        | none ↦ s
        | some raw ↦
            let turn = as_map raw in
            let updated = int64_value (value_at payload (codes "updatedAt")) in
            add_activity (reverse (items_of turn))
              (normalize_finalized_turn (with_turn updated turn s))
      ]

  -- `ApplyTurnResult`
  unfoldable pub apply_turn_result : Option TurnResult → ThreadReadSnapshot → ThreadReadSnapshot
  unfolding trim_space equal_fold fingerprint
  apply_turn_result none s = s
  apply_turn_result (some r) s =
      let status = trim_space r.status in
      let text = trim_space r.final_text in
      let with_status = record s {
        latest_turn_status = if is_empty status then s.latest_turn_status else status;
      } in
      if equal_fold status (codes "inProgress") || is_empty text
      then record with_status { latest_final_text = []; latest_final_fp = [] }
      else record with_status {
        latest_final_text = text;
        latest_final_fp = fingerprint lib (codes "turn_final" ∷ s.latest_turn_id ∷ text ∷ []);
      }
