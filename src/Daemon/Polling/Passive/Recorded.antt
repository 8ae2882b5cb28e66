-- ===== src/Daemon/Polling/Passive/Recorded.antt =====
-- A poll that finds what was recorded has nothing to show.
use codex_feishu.Prelude.{ℕ, ◌≡◌, refl, Bool, true, false, Option, some, [], arith, if◌then◌else◌}
use codex_feishu.Prelude.Text.{Text, text_eq_iff, is_empty, is_blank}
use codex_feishu.AppServer.Json.{Encoding}
use codex_feishu.AppServer.Snapshot.{Thread, ThreadReadSnapshot, ThreadSnapshotState}
use codex_feishu.AppServer.Timing.{
  SnapshotCodec, latest_tool_timing_key, observed_text, apply_latest_turn_timing,
  apply_latest_tool_timing, timed, compact_snapshot,
}
use codex_feishu.AppServer.Diff.Quiet.{diff_snapshot-compact_snapshot}
use codex_feishu.Daemon.Signals.{snapshot_has_final_signal}
use codex_feishu.Daemon.Polling.Preserve.{recorded_snapshot}
use codex_feishu.Daemon.Polling.Passive.{
  snapshot_has_tool_signal, card_display_status, interrupted_visible_fingerprint,
  interrupted_visible_state_changed, snapshot_has_passive_change,
}

module _ (lib : Encoding) (codec : SnapshotCodec) where
  -- What a panel shows is the same, by its fingerprint.
  abbrev SameView : ThreadReadSnapshot → ThreadReadSnapshot → Type 0
  SameView s t = interrupted_visible_fingerprint lib t ≡ interrupted_visible_fingerprint lib s

  if-SameView :
      (b : Bool) (s t u : ThreadReadSnapshot)
      → SameView s t
      → SameView s u
      → SameView s (if b then t else u)
  if-SameView true s t u h k = h
  if-SameView false s t u h k = k

  turn_timing-SameView :
      (previous : Option ThreadSnapshotState) (s : ThreadReadSnapshot) (observed : Text)
      → SameView s (apply_latest_turn_timing codec previous s observed)
  unfolding apply_latest_turn_timing interrupted_visible_fingerprint card_display_status
      snapshot_has_tool_signal snapshot_has_final_signal
  turn_timing-SameView previous s observed = if-SameView (is_blank s.latest_turn_id) s s _ refl refl

  tool_timing-SameView :
      (previous : Option ThreadSnapshotState) (s t : ThreadReadSnapshot) (observed : Text)
      → SameView s t
      → SameView s (apply_latest_tool_timing codec previous t observed)
  unfolding apply_latest_tool_timing interrupted_visible_fingerprint card_display_status
      snapshot_has_tool_signal snapshot_has_final_signal
  tool_timing-SameView previous s t observed h =
      if-SameView (is_empty (latest_tool_timing_key t)) s t _ h h

  timed-SameView :
      (previous : Option ThreadSnapshotState) (s : ThreadReadSnapshot) (observed : Text)
      → SameView s (timed codec previous s observed)
  unfolding timed
  timed-SameView previous s observed =
      tool_timing-SameView previous s _ observed (turn_timing-SameView previous s observed)

  -- What JSON keeps of a snapshot, with what it makes of the thread.
  abbrev pub stored : Thread → ThreadReadSnapshot → ThreadReadSnapshot
  stored thread t = record t { thread = thread; recent_turns = []; compact_thread_raw = [] }

  stored-SameView :
      (thread : Thread) (s t : ThreadReadSnapshot) → SameView s t → SameView s (stored thread t)
  unfolding interrupted_visible_fingerprint card_display_status snapshot_has_tool_signal
      snapshot_has_final_signal
  stored-SameView thread s t h = h

  view_changed-recorded :
      (unmarshal : Text → Option ThreadReadSnapshot) (p : ThreadSnapshotState)
      (s t : ThreadReadSnapshot)
      → unmarshal p.compact_json ≡ some t
      → SameView s t
      → interrupted_visible_state_changed lib unmarshal p s ≡ false
  unfolding interrupted_visible_state_changed recorded_snapshot
  view_changed-recorded unmarshal p s t e h = ground (
    arith,
    e,
    text_eq_iff (interrupted_visible_fingerprint lib t) (interrupted_visible_fingerprint lib s),
    h,
  )

  -- A poll that finds what the last poll recorded sees no passive change, where JSON gives back the
  -- recorded snapshot, whatever it makes of the thread.
  pub snapshot_has_passive_change-recorded :
      (unmarshal : Text → Option ThreadReadSnapshot) (previous : Option ThreadSnapshotState)
      (s : ThreadReadSnapshot) (now polled_at : ℕ) (thread : Thread)
      → unmarshal (compact_snapshot codec lib previous s now polled_at).compact_json
        ≡ some (stored thread (timed codec previous s (observed_text codec now polled_at)))
      → snapshot_has_passive_change lib unmarshal
          (some (compact_snapshot codec lib previous s now polled_at))
          s
        ≡ false
  unfolding snapshot_has_passive_change
  snapshot_has_passive_change-recorded unmarshal previous s now polled_at thread e =
      let t = timed codec previous s (observed_text codec now polled_at) in
      ground (
        arith,
        view_changed-recorded unmarshal (compact_snapshot codec lib previous s now polled_at) s
            (stored thread t) e
            (stored-SameView thread s t
              (timed-SameView previous s (observed_text codec now polled_at))),
        diff_snapshot-compact_snapshot codec lib previous s now polled_at,
      )
