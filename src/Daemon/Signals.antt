-- ===== src/Daemon/Signals.antt =====
-- internal/daemon/terminal_gate.go and service.go: what a thread snapshot says of its latest turn.
-- A nil snapshot is `none`.
use codex_feishu.Prelude.{
  Bool, true, false, not, ◌&&◌, ◌||◌, Option, none, some, [], if◌then◌else◌, any,
}
use codex_feishu.Prelude.Text.{
  Text, codes, text_eq, trim_space, is_empty, is_blank, equal_fold, to_lower, has_prefix, contains,
}
use codex_feishu.AppServer.Snapshot.{
  Thread, AgentMessageEntry, DetailItem, ThreadReadSnapshot, detail_item_user, detail_item_final,
}

-- The two lines `if strings.EqualFold(…) && (… != "")` of the loop over the entries.
unfoldable pub is_final_entry : AgentMessageEntry → Bool
is_final_entry e =
    equal_fold (trim_space e.phase) (codes "final_answer")
    && (not (is_blank e.text) || not (is_blank e.fp))

unfoldable pub has_item_content : DetailItem → Bool
has_item_content item =
    not (is_blank item.text)
    || not (is_blank item.label)
    || not (is_blank item.output)
    || not (is_blank item.fp)

unfoldable pub snapshot_has_final_signal : Option ThreadReadSnapshot → Bool
unfolding is_final_entry has_item_content
snapshot_has_final_signal none = false
snapshot_has_final_signal (some s) =
    (not (is_blank s.latest_final_text) || not (is_blank s.latest_final_fp))
    || any is_final_entry s.latest_agent_message_entries
    || any (λ item. text_eq (trim_space item.kind) detail_item_final && has_item_content item)
        s.detail_items

unfoldable pub is_meaningful_item : DetailItem → Bool
unfolding has_item_content
is_meaningful_item item =
    let kind = trim_space item.kind in
    if is_empty kind || text_eq kind detail_item_user then false else has_item_content item

unfoldable pub snapshot_has_meaningful_terminal_signal : Option ThreadReadSnapshot → Bool
unfolding is_meaningful_item
snapshot_has_meaningful_terminal_signal none = false
snapshot_has_meaningful_terminal_signal (some s) =
    (not (is_blank s.latest_final_text) || not (is_blank s.latest_final_fp))
    || (not (is_blank s.latest_progress_text) || not (is_blank s.latest_progress_fp))
    || (not (is_blank s.latest_tool_id)
        || not (is_blank s.latest_tool_kind)
        || not (is_blank s.latest_tool_label)
        || not (is_blank s.latest_tool_output)
        || not (is_blank s.latest_tool_fp))
    || any (λ message. not (is_blank message)) s.latest_agent_messages
    || any (λ (e : AgentMessageEntry). not (is_blank e.text) || not (is_blank e.fp))
        s.latest_agent_message_entries
    || any is_meaningful_item s.detail_items

unfoldable pub is_deferrable_interrupted_snapshot : Option ThreadReadSnapshot → Bool
is_deferrable_interrupted_snapshot none = false
is_deferrable_interrupted_snapshot (some s) =
    if not (equal_fold (trim_space s.latest_turn_status) (codes "interrupted"))
    then false
    else if is_blank s.thread.id || is_blank s.latest_turn_id
    then false
    else if s.waiting_on_approval || s.waiting_on_reply
    then false
    else true

unfoldable pub is_empty_interrupted_snapshot : Option ThreadReadSnapshot → Bool
unfolding snapshot_has_meaningful_terminal_signal
is_empty_interrupted_snapshot none = false
is_empty_interrupted_snapshot (some s) =
    if not (equal_fold (trim_space s.latest_turn_status) (codes "interrupted"))
    then false
    else if is_blank s.thread.id || is_blank s.latest_turn_id
    then false
    else if s.waiting_on_approval || s.waiting_on_reply
    then false
    else not (snapshot_has_meaningful_terminal_signal (some s))

unfoldable pub thread_looks_active_for_polling : Thread → Bool
unfolding to_lower has_prefix contains
thread_looks_active_for_polling thread =
    let status = to_lower (trim_space thread.status) in
    if is_empty status
    then not (is_blank thread.active_turn_id)
    else text_eq status (codes "active")
      || has_prefix status (codes "active[")
      || contains status (codes "waitingon")
      || contains status (codes "inprogress")
      || contains status (codes "running")

unfoldable pub terminal_gate_snapshot_needs_hot_polling : Option ThreadReadSnapshot → Bool
unfolding thread_looks_active_for_polling
terminal_gate_snapshot_needs_hot_polling none = false
terminal_gate_snapshot_needs_hot_polling (some s) =
    thread_looks_active_for_polling s.thread
    || equal_fold (trim_space s.latest_turn_status) (codes "inProgress")
    || s.waiting_on_approval
    || s.waiting_on_reply

unfoldable pub terminal_gate_snapshot_ids : Option ThreadReadSnapshot → Text × Text
terminal_gate_snapshot_ids none = ([], [])
terminal_gate_snapshot_ids (some s) = (trim_space s.thread.id, trim_space s.latest_turn_id)
