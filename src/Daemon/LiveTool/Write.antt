-- ===== src/Daemon/LiveTool/Write.antt =====
-- internal/daemon/service.go: what applyLiveToolSnapshot writes to the store.
use codex_feishu.Prelude.{ℕ, ◌+◌, ◌||◌, Option, none, some, [], ◌∷◌, if◌then◌else◌, ◌>>=◌}
use codex_feishu.Prelude.Text.{Text, codes, text_eq, is_empty, is_blank}
use codex_feishu.AppServer.Json.{Encoding}
use codex_feishu.AppServer.Snapshot.{Thread, ThreadReadSnapshot, at, ThreadSnapshotState}
use codex_feishu.AppServer.Timing.{SnapshotCodec, previous_snapshot, compact_snapshot}
use codex_feishu.Daemon.LiveTool.{first_non_empty, merge_thread_metadata, apply_live_tool}

-- What `applyLiveToolSnapshot` writes: the row of the thread and that of its snapshot.
pub record LiveWrite : Type 0 where
  pub thread : Thread
  pub state : ThreadSnapshotState

module _ (codec : SnapshotCodec) (lib : Encoding) where
  -- The snapshot so far: the recorded one, with the row of the thread.
  unfoldable pub current_snapshot : Option ThreadSnapshotState → Thread → ThreadReadSnapshot
  unfolding previous_snapshot merge_thread_metadata
  current_snapshot state thread =
      let s = previous_snapshot codec state in
      record s {
        thread = if is_empty s.thread.id then thread else merge_thread_metadata s.thread thread;
      }

  -- The state that is written, at a time and a poll interval.
  unfoldable pub live_state :
      Option ThreadSnapshotState → ThreadReadSnapshot → ℕ → ℕ → ThreadSnapshotState
  unfolding compact_snapshot text_eq
  live_state state s now interval =
      let next = compact_snapshot codec lib state s now now in
      if text_eq s.latest_turn_status (codes "inProgress")
        || s.waiting_on_approval
        || s.waiting_on_reply
      then record next { next_poll_after = at (now + interval) }
      else next

  -- `applyLiveToolSnapshot`: `none` where it gives up. The store's reads are functions, and `none`
  -- of them is a row that is missing, where it must not be, or an error.
  unfoldable pub apply_live_tool_snapshot :
      Text
      → ThreadReadSnapshot
      → (Text → Option Thread)
      → (Text → Option (Option ThreadSnapshotState))
      → ℕ
      → ℕ
      → Option LiveWrite
  unfolding first_non_empty is_blank current_snapshot apply_live_tool live_state
  apply_live_tool_snapshot given live get_thread get_snapshot now interval =
      let thread_id = first_non_empty (given ∷ live.thread.id ∷ []) in
      if is_empty thread_id || is_blank live.latest_tool_fp
      then none
      else (get_thread thread_id >>= (λ thread. get_snapshot thread_id >>= (λ state.
          apply_live_tool (current_snapshot state thread) live
          >>= (λ s. some (record { thread = s.thread; state = live_state state s now interval })))))
