-- ===== src/Daemon/Polling/Passive.antt =====
-- internal/daemon/service.go: snapshotHasPassiveChange, by which a poll decides whether the panel of
-- a thread is rendered again, with what it calls of panels.go.
use codex_feishu.Prelude.{
  Bool, false, not, ◌&&◌, ◌||◌, Option, none, some, List, [], ◌∷◌, map, ltb, if◌then◌else◌, length,
  any,
}
pub mod Recorded
use codex_feishu.Prelude.Text.{Text, codes, text_eq, trim_space, is_blank, equal_fold}
use codex_feishu.Prelude.Text.Split.{join}
use codex_feishu.AppServer.Json.{Encoding, fingerprint}
use codex_feishu.AppServer.Snapshot.{
  Thread, AgentMessageEntry, DetailItem, ThreadReadSnapshot, ThreadSnapshotState, detail_item_tool,
  detail_item_output,
}
use codex_feishu.AppServer.Diff.{diff_snapshot}
use codex_feishu.Daemon.Signals.{snapshot_has_final_signal, thread_looks_active_for_polling}
use codex_feishu.Daemon.Polling.Preserve.{recorded_snapshot}

-- The test of the loop of `snapshotHasToolSignal`.
unfoldable pub is_tool_signal : DetailItem → Bool
unfolding is_blank text_eq
is_tool_signal item =
    (text_eq item.kind detail_item_tool || text_eq item.kind detail_item_output)
    && (not (is_blank item.text)
        || not (is_blank item.label)
        || not (is_blank item.status)
        || not (is_blank item.output))

-- `snapshotHasToolSignal`
unfoldable pub snapshot_has_tool_signal : ThreadReadSnapshot → Bool
unfolding is_blank is_tool_signal
snapshot_has_tool_signal s =
    not (is_blank s.latest_tool_id)
    || not (is_blank s.latest_tool_label)
    || not (is_blank s.latest_tool_status)
    || any is_tool_signal s.detail_items

-- `cardDisplayStatus`, whose last two cases are the same.
unfoldable pub card_display_status : Option ThreadReadSnapshot → Thread → Text
unfolding trim_space equal_fold snapshot_has_final_signal snapshot_has_tool_signal
card_display_status none thread = thread.status
card_display_status (some s) thread =
    let status = trim_space s.latest_turn_status in
    if not (equal_fold status (codes "interrupted"))
    then status
    else if snapshot_has_final_signal (some s)
    then codes "completed"
    else if snapshot_has_tool_signal s
    then codes "toolRunning"
    else codes "inProgress"

-- `detailItemsVisibleFingerprint`
unfoldable pub detail_items_visible_fingerprint : List DetailItem → Text
unfolding join
detail_items_visible_fingerprint items = join (1 ∷ []) (
    map
      (λ (i : DetailItem).
        join (0 ∷ [])
          (i.id ∷ i.kind ∷ i.phase ∷ i.text ∷ i.label ∷ i.status ∷ i.output ∷ i.fp ∷ []))
      items)

-- `agentEntriesVisibleFingerprint`
unfoldable pub agent_entries_visible_fingerprint : List AgentMessageEntry → Text
unfolding join
agent_entries_visible_fingerprint entries =
    join (1 ∷ [])
      (map (λ (e : AgentMessageEntry). join (0 ∷ []) (e.id ∷ e.phase ∷ e.text ∷ e.fp ∷ [])) entries)

module _ (lib : Encoding) where
  -- `interruptedVisibleFingerprint`, where `hashStrings` is the function `fingerprint`.
  unfoldable pub interrupted_visible_fingerprint : ThreadReadSnapshot → Text
  unfolding fingerprint card_display_status detail_items_visible_fingerprint
      agent_entries_visible_fingerprint
  interrupted_visible_fingerprint s = fingerprint lib (
      card_display_status (some s) s.thread
      ∷ s.latest_progress_fp
      ∷ s.latest_progress_text
      ∷ s.latest_tool_fp
      ∷ s.latest_tool_id
      ∷ s.latest_tool_status
      ∷ detail_items_visible_fingerprint s.detail_items
      ∷ agent_entries_visible_fingerprint s.latest_agent_message_entries
      ∷ [])

  module _ (unmarshal : Text → Option ThreadReadSnapshot) where
    -- `interruptedVisibleStateChanged`
    unfoldable pub interrupted_visible_state_changed :
        ThreadSnapshotState → ThreadReadSnapshot → Bool
    unfolding equal_fold trim_space snapshot_has_final_signal recorded_snapshot
        interrupted_visible_fingerprint text_eq
    interrupted_visible_state_changed previous s =
        equal_fold (trim_space s.latest_turn_status) (codes "interrupted")
        && not (snapshot_has_final_signal (some s))
        && elim (recorded_snapshot unmarshal (some previous)) [
          | none ↦ false
          | some prev ↦
              not
                (text_eq (interrupted_visible_fingerprint prev) (interrupted_visible_fingerprint s))
        ]

    -- `snapshotHasPassiveChange`
    unfoldable pub snapshot_has_passive_change :
        Option ThreadSnapshotState → ThreadReadSnapshot → Bool
    unfolding thread_looks_active_for_polling interrupted_visible_state_changed diff_snapshot
    snapshot_has_passive_change none s =
        thread_looks_active_for_polling s.thread || s.waiting_on_approval || s.waiting_on_reply
    snapshot_has_passive_change (some previous) s =
        interrupted_visible_state_changed previous s
        || ltb 0 (length (diff_snapshot lib (some previous) s))
