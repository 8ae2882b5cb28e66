-- ===== src/Daemon/Polling/Preserve.antt =====
-- internal/daemon/service.go: preserveChatOriginLiveCurrentTool, which keeps the live tool of a turn
-- where a poll knows less of it.
use codex_feishu.Prelude.{
  ℕ, ◌-◌, ◌<◌, Bool, true, not, ◌&&◌, ◌||◌, Option, none, some, List, [], ◌∷◌, ltb, ◌==◌,
  if◌then◌else◌, length, select, any,
}
pub mod Stable
use codex_feishu.Prelude.Text.{Text, codes, text_eq, trim_space, is_empty, is_blank, has_prefix}
use codex_feishu.AppServer.Json.{nil}
use codex_feishu.AppServer.Payload.{terminal_turn_status, terminal_latest_tool_status}
use codex_feishu.AppServer.Snapshot.{
  DetailItem, ThreadReadSnapshot, ThreadSnapshotState, detail_item_tool, detail_item_output,
}
use codex_feishu.Daemon.LiveTool.{
  first_non_empty, latest_tool_detail_index, both_before, upsert_live_tool_details,
  same_tool_snapshot,
}
use codex_feishu.Daemon.TerminalGate.State.{State, Env}
use codex_feishu.Daemon.TerminalGate.Marks.{is_direct_input_origin_turn}

-- `strings.ReplaceAll` of a word by nothing, after a number of characters to drop.
unfoldable pub without : Text → ℕ → Text → Text
unfolding has_prefix
without word skip [] = []
without word skip (c ∷ cs) =
    let starts = skip == 0 && has_prefix (c ∷ cs) word in
    let rest = without word (if starts then length word - 1 else skip - 1) cs in
    if starts || ltb 0 skip then rest else c ∷ rest

-- `cleanNilLiteral`
unfoldable pub clean_nil_literal : Text → Text
unfolding without
clean_nil_literal value = without (codes "<nil>") 0 value

abbrev pub is_tool_item : DetailItem → Bool
is_tool_item item = text_eq item.kind detail_item_tool || text_eq item.kind detail_item_output

-- `snapshotHasToolEvidence`
unfoldable pub snapshot_has_tool_evidence : ThreadReadSnapshot → Bool
unfolding is_blank clean_nil_literal text_eq
snapshot_has_tool_evidence s =
    not (is_blank (clean_nil_literal s.latest_tool_id))
    || not (is_blank (clean_nil_literal s.latest_tool_label))
    || not (is_blank (clean_nil_literal s.latest_tool_output))
    || not (is_blank s.latest_tool_fp)
    || any is_tool_item s.detail_items

-- `toolOutputDetailItems`
unfoldable pub tool_output_detail_items : List DetailItem → List DetailItem
unfolding text_eq
tool_output_detail_items items = select is_tool_item items

-- `shouldPreserveChatOriginLiveCurrentTool`
unfoldable pub should_preserve_chat_origin_live_current_tool :
    ThreadReadSnapshot → ThreadReadSnapshot → Bool
unfolding snapshot_has_tool_evidence same_tool_snapshot terminal_latest_tool_status
    latest_tool_detail_index
should_preserve_chat_origin_live_current_tool s prev =
    if not (snapshot_has_tool_evidence s)
    then true
    else if same_tool_snapshot s prev
    then not (terminal_latest_tool_status s.latest_tool_status)
    else both_before
        (latest_tool_detail_index prev.detail_items s.latest_tool_id s.latest_tool_label)
        (latest_tool_detail_index prev.detail_items prev.latest_tool_id prev.latest_tool_label)

-- The guards of preserveChatOriginLiveCurrentTool: the snapshots are of one turn,
unfoldable pub is_running_turn : ThreadReadSnapshot → ThreadReadSnapshot → Bool
unfolding terminal_turn_status trim_space text_eq
is_running_turn s prev =
    not (terminal_turn_status s.latest_turn_status)
    && not (is_empty (trim_space s.latest_turn_id))
    && text_eq (trim_space s.latest_turn_id) (trim_space prev.latest_turn_id)

-- the recorded tool is live and has a label and a fingerprint,
unfoldable pub has_live_tool : ThreadReadSnapshot → Bool
unfolding terminal_turn_status terminal_latest_tool_status is_blank clean_nil_literal
has_live_tool prev =
    prev.latest_tool_live_current
    && not (terminal_turn_status prev.latest_turn_status)
    && not (terminal_latest_tool_status prev.latest_tool_status)
    && not (is_blank (clean_nil_literal prev.latest_tool_label))
    && not (is_blank prev.latest_tool_fp)

-- and the turn was started from the chat.
unfoldable pub is_from_chat : Env → State → ThreadReadSnapshot → ThreadReadSnapshot → Bool
unfolding first_non_empty trim_space is_direct_input_origin_turn
is_from_chat env store s prev =
    let thread_id = first_non_empty (s.thread.id ∷ prev.thread.id ∷ []) in
    not (is_empty thread_id)
    && is_direct_input_origin_turn env thread_id (trim_space s.latest_turn_id) store

-- The snapshot with the recorded tool.
unfoldable pub with_recorded_tool : ThreadReadSnapshot → ThreadReadSnapshot → ThreadReadSnapshot
unfolding upsert_live_tool_details tool_output_detail_items
with_recorded_tool prev s = record s {
  latest_tool_id = prev.latest_tool_id;
  latest_tool_kind = prev.latest_tool_kind;
  latest_tool_label = prev.latest_tool_label;
  latest_tool_status = prev.latest_tool_status;
  latest_tool_output = prev.latest_tool_output;
  latest_tool_fp = prev.latest_tool_fp;
  latest_tool_live_current = prev.latest_tool_live_current;
  latest_progress_text = prev.latest_progress_text;
  latest_progress_fp = prev.latest_progress_fp;
  latest_tool_started_at = prev.latest_tool_started_at;
  latest_tool_updated_at = prev.latest_tool_updated_at;
  detail_items =
      upsert_live_tool_details s.detail_items (tool_output_detail_items prev.detail_items);
}

-- Whether all guards let the recorded tool be kept.
unfoldable pub keeps_live_tool : Env → State → ThreadReadSnapshot → ThreadReadSnapshot → Bool
unfolding is_running_turn has_live_tool is_from_chat should_preserve_chat_origin_live_current_tool
keeps_live_tool env store prev s =
    is_running_turn s prev
    && has_live_tool prev
    && is_from_chat env store s prev
    && should_preserve_chat_origin_live_current_tool s prev

unfoldable pub preserve_recorded :
    Env → State → Option ThreadReadSnapshot → ThreadReadSnapshot → ThreadReadSnapshot
unfolding keeps_live_tool with_recorded_tool
preserve_recorded env store none s = s
preserve_recorded env store (some prev) s =
    if keeps_live_tool env store prev s then with_recorded_tool prev s else s

-- The snapshot that a state records, given what json.Unmarshal makes of its text: `none` where it
-- fails.
unfoldable pub recorded_snapshot :
    (Text → Option ThreadReadSnapshot) → Option ThreadSnapshotState → Option ThreadReadSnapshot
recorded_snapshot unmarshal none = none
recorded_snapshot unmarshal (some p) =
    if is_empty p.compact_json then none else unmarshal p.compact_json

-- `preserveChatOriginLiveCurrentTool`
unfoldable pub preserve_chat_origin_live_current_tool :
    (Text → Option ThreadReadSnapshot)
    → Env
    → State
    → Option ThreadSnapshotState
    → ThreadReadSnapshot
    → ThreadReadSnapshot
unfolding recorded_snapshot preserve_recorded
preserve_chat_origin_live_current_tool unmarshal env store previous s =
    preserve_recorded env store (recorded_snapshot unmarshal previous) s
