-- ===== src/Daemon/Polling.antt =====
-- internal/daemon/service.go: which threads pollTracked reads, what it makes of a turn whose history
-- is known, and the state that it records. Instants and intervals are nanoseconds.
use codex_feishu.Prelude.{
  ℕ, ◌+◌, ◌-◌, ◌*◌, Bool, true, false, not, ◌&&◌, ◌||◌, Option, none, some, [], ◌∷◌, ltb, ◌==◌,
  if◌then◌else◌,
}
use codex_feishu.Daemon.LiveTool.{first_non_empty}
use codex_feishu.Prelude.Text.{Text, codes, text_eq, trim_space, is_empty, is_blank, equal_fold}
use codex_feishu.AppServer.Json.{Encoding}
use codex_feishu.AppServer.Snapshot.{
  Thread, ThreadReadSnapshot, at, parse_time, ThreadSnapshotState,
}
use codex_feishu.AppServer.ReadSnapshot.{TurnResult, apply_turn_result}
use codex_feishu.AppServer.Timing.{SnapshotCodec, carried, compact_snapshot}
use codex_feishu.Daemon.TerminalGate.State.{Decision, second, max_duration}
use codex_feishu.Daemon.TerminalGate.Apply.{
  deferred_displayable_progress, time_is_blank, apply_terminal_gate_hot_polling,
}
pub mod Deferred
pub mod Preserve
pub mod Passive

-- `time.Unix(sec, 0)`, after the zero time of Go.
unfoldable pub unix_time : ℕ → ℕ
unix_time sec = (62135596800 + sec) * second

-- `shouldSkipTrackedPollUntilNextPollAfter`
unfoldable pub should_skip_tracked_poll : Option ThreadSnapshotState → Bool → ℕ → Bool
unfolding parse_time
should_skip_tracked_poll none catchup now = false
should_skip_tracked_poll (some p) catchup now =
    not catchup && not (parse_time p.next_poll_after == 0) && ltb now (parse_time p.next_poll_after)

-- The test of pollTracked for a live event that is recent, at the poll interval.
unfoldable pub has_recent_live_event : Option ThreadSnapshotState → ℕ → ℕ → Bool
unfolding parse_time max_duration
has_recent_live_event none interval now = false
has_recent_live_event (some p) interval now =
    not (time_is_blank p.last_rich_live_event_at)
    && ltb (now - parse_time p.last_rich_live_event_at) (max_duration (10 * second) (interval * 2))

-- `catchupWindow`, at the index refresh interval.
unfoldable pub catchup_window : ℕ → ℕ
unfolding max_duration
catchup_window index_interval = max_duration (90 * second) (index_interval * 2)

-- The test of `threadNeedsCatchupPolling` on the time that the snapshot has of the thread.
unfoldable pub is_newer_thread : Thread → ThreadSnapshotState → Bool
unfolding unix_time parse_time
is_newer_thread thread p =
    if ltb 0 p.thread_updated_at
    then ltb p.thread_updated_at thread.updated_at
    else not (parse_time p.last_poll_at == 0)
      && ltb (parse_time p.last_poll_at) (unix_time thread.updated_at)

-- `threadNeedsCatchupPolling`, given what `threadHasDeferredEmptyInterrupted` says.
unfoldable pub thread_needs_catchup_polling :
    Thread → Option ThreadSnapshotState → Bool → ℕ → ℕ → Bool
unfolding unix_time catchup_window is_newer_thread equal_fold trim_space text_eq
thread_needs_catchup_polling thread snapshot deferred index_interval now =
    let too_old = ltb (catchup_window index_interval) (now - unix_time thread.updated_at) in
    let changed : Bool = elim snapshot [
      | none ↦ true
      | some p ↦
          is_newer_thread thread p
          || (not (is_empty p.last_seen_thread_status)
              && not (equal_fold (trim_space p.last_seen_thread_status) (trim_space thread.status)))
          || (not (is_empty p.last_seen_turn_id)
              && not (is_empty thread.active_turn_id)
              && not (text_eq p.last_seen_turn_id thread.active_turn_id))
          || deferred
    ] in
    not (thread.updated_at == 0) && not too_old && changed

-- `turnStartedWithin`, given the start of the turn as an instant, 0 where it has none.
unfoldable pub turn_started_within : ℕ → ℕ → ℕ → Bool
turn_started_within started window now = not (started == 0) && ltb (now - started) window

-- What the history of a thread gives: an error, no record of the turn, or a result.
pub data History : Type 0 where
  unreadable missing : History
  found : TurnResult → History

module _ (lib : Encoding) where
  -- `reconcileTurnResult`, given the history of the turn, the start of the turn and the time. An
  -- error comes with a nil result.
  unfoldable pub reconcile_turn_result :
      Text → History → ℕ → ℕ → ThreadReadSnapshot → ThreadReadSnapshot
  unfolding is_blank equal_fold trim_space turn_started_within apply_turn_result first_non_empty
  reconcile_turn_result thread_id history started now s =
      let running =
        if equal_fold (trim_space s.latest_turn_status) (codes "interrupted")
          && turn_started_within started (5 * 60 * second) now
        then record s {
          latest_turn_status = codes "inProgress";
          latest_final_text = [];
          latest_final_fp = [];
        }
        else s in
      if is_blank s.latest_turn_id || is_empty (first_non_empty (s.thread.id ∷ thread_id ∷ []))
      then s
      else elim history [
        | unreadable ↦ running
        | missing ↦ running
        | found r ↦ apply_turn_result lib (some r) s
      ]

  module _ (codec : SnapshotCodec) where
    -- `nextSnapshot` of pollTracked, at a time and the poll interval.
    unfoldable pub polled_state :
        Option ThreadSnapshotState → ThreadReadSnapshot → ℕ → ℕ → Decision → ThreadSnapshotState
    unfolding compact_snapshot text_eq apply_terminal_gate_hot_polling
    polled_state previous s now interval decision =
        let wait =
          if text_eq s.latest_turn_status (codes "inProgress")
            || s.waiting_on_approval
            || s.waiting_on_reply
          then interval
          else 30 * second in
        apply_terminal_gate_hot_polling decision
          (record (compact_snapshot codec lib previous s now now) {
            next_poll_after = at (now + wait);
          })

    -- `compactDeferredProgressSnapshot`
    unfoldable pub compact_deferred_progress_snapshot :
        Option ThreadSnapshotState → ThreadReadSnapshot → ℕ → Decision → ThreadSnapshotState
    unfolding compact_snapshot deferred_displayable_progress equal_fold trim_space
        apply_terminal_gate_hot_polling
    compact_deferred_progress_snapshot previous s now decision =
        let next = compact_snapshot codec lib previous s now now in
        let status =
          if deferred_displayable_progress decision
            && equal_fold (trim_space next.last_seen_turn_status) (codes "interrupted")
          then codes "inProgress"
          else next.last_seen_turn_status in
        apply_terminal_gate_hot_polling decision (record next {
          last_completion_fp = carried (λ p. p.last_completion_fp) [] previous;
          last_seen_turn_status = status;
        })
