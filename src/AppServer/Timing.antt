-- ===== src/AppServer/Timing.antt =====
-- internal/appserver/normalize.go: `CompactSnapshot`, the state of a thread that a poll leaves.
use codex_feishu.Prelude.{
  ℕ, ◌+◌, Bool, not, ◌&&◌, ◌||◌, Option, none, some, [], ◌∷◌, ◌++◌, ◌==◌, if◌then◌else◌, any,
}
pub mod Stable
use codex_feishu.Prelude.Text.{Text, codes, text_eq, trim_space, is_empty, is_blank}
use codex_feishu.AppServer.Json.{Encoding, fingerprint}
use codex_feishu.AppServer.Compact.{compact_snapshot_thread_raw}
use codex_feishu.AppServer.ReadSnapshot.{no_snapshot}
use codex_feishu.AppServer.Snapshot.{PlanPrompt, ThreadReadSnapshot, blank, at, ThreadSnapshotState}

-- `json.Marshal` and `json.Unmarshal` of a snapshot, where a failure leaves what was read so far, and
-- `time.RFC3339Nano` of a time.
pub record SnapshotCodec : Type 0 where
  pub encode : ThreadReadSnapshot → Text
  pub decode : Text → ThreadReadSnapshot
  pub format_time : ℕ → Text

-- `latestToolTimingKey`
unfoldable pub latest_tool_timing_key : ThreadReadSnapshot → Text
unfolding trim_space
latest_tool_timing_key s =
    let id = trim_space s.latest_tool_id in
    let kind = trim_space s.latest_tool_kind in
    let label = trim_space s.latest_tool_label in
    if not (is_empty id)
    then codes "id:" ++ id
    else if is_empty kind && is_empty label
    then []
    else codes "fallback:" ++ kind ++ codes ":" ++ label

-- `sameLatestTool`
unfoldable pub same_latest_tool : ThreadReadSnapshot → ThreadReadSnapshot → Bool
unfolding latest_tool_timing_key text_eq trim_space
same_latest_tool left right =
    let left_key = latest_tool_timing_key left in
    let right_key = latest_tool_timing_key right in
    let left_turn_id = trim_space left.latest_turn_id in
    let right_turn_id = trim_space right.latest_turn_id in
    not (is_empty left_key)
    && not (is_empty right_key)
    && text_eq left_key right_key
    && (is_empty left_turn_id || is_empty right_turn_id || text_eq left_turn_id right_turn_id)

-- The statuses that are completions.
unfoldable pub is_completion : Text → Bool
unfolding text_eq
is_completion status =
    any (text_eq status) (codes "completed" ∷ codes "interrupted" ∷ codes "failed" ∷ [])

abbrev pub carried {ℓ} :
    {A : Type ℓ} → (ThreadSnapshotState → A) → A → Option ThreadSnapshotState → A
carried f absent none = absent
carried f absent (some p) = f p

-- `current.PlanPrompt.Fingerprint`, where the thread waits with a prompt.
abbrev pub reply_fp : Bool → Option PlanPrompt → Text
reply_fp waits none = []
reply_fp waits (some prompt) = if waits then prompt.fingerprint else []

module _ (lib : Encoding) where
  -- The JSON that the snapshot keeps of the thread.
  unfoldable pub with_compact_raw : ThreadReadSnapshot → ThreadReadSnapshot
  unfolding compact_snapshot_thread_raw
  with_compact_raw s =
      let raw =
        if is_empty s.compact_thread_raw
        then lib.marshal (compact_snapshot_thread_raw s.thread s.recent_turns)
        else s.compact_thread_raw in
      record s { thread = record s.thread { raw = raw } }

  -- `fingerprint(current.LatestTurnID, current.LatestTurnStatus)`
  unfoldable pub completion_fp : ThreadReadSnapshot → Text
  unfolding fingerprint
  completion_fp s = fingerprint lib (s.latest_turn_id ∷ s.latest_turn_status ∷ [])

module _ (codec : SnapshotCodec) where
  -- `previousSnapshot`
  unfoldable pub previous_snapshot : Option ThreadSnapshotState → ThreadReadSnapshot
  previous_snapshot none = no_snapshot
  previous_snapshot (some p) =
      if is_empty p.compact_json then no_snapshot else codec.decode p.compact_json

  -- `observedText`: at the zero time the present time serves.
  unfoldable pub observed_text : ℕ → ℕ → Text
  observed_text now observed_at = codec.format_time (if observed_at == 0 then now else observed_at)

  -- `applyLatestTurnTiming`, with the text of the time.
  unfoldable pub apply_latest_turn_timing :
      Option ThreadSnapshotState → ThreadReadSnapshot → Text → ThreadReadSnapshot
  unfolding is_blank text_eq trim_space previous_snapshot
  apply_latest_turn_timing previous s observed =
      let before = previous_snapshot previous in
      let same_turn = text_eq (trim_space before.latest_turn_id) (trim_space s.latest_turn_id) in
      let started =
        if not (is_blank s.latest_turn_started_at)
        then s.latest_turn_started_at
        else if same_turn && not (is_blank before.latest_turn_started_at)
        then before.latest_turn_started_at
        else observed in
      if is_blank s.latest_turn_id then s else record s {
        latest_turn_started_at = started;
        latest_turn_updated_at =
            if is_blank s.latest_turn_updated_at then observed else s.latest_turn_updated_at;
      }

  -- `applyLatestToolTiming`, with the text of the time.
  unfoldable pub apply_latest_tool_timing :
      Option ThreadSnapshotState → ThreadReadSnapshot → Text → ThreadReadSnapshot
  unfolding latest_tool_timing_key same_latest_tool is_blank text_eq trim_space previous_snapshot
  apply_latest_tool_timing previous s observed =
      let before = previous_snapshot previous in
      let same_tool = same_latest_tool before s in
      let started =
        if not (is_blank s.latest_tool_started_at)
        then s.latest_tool_started_at
        else if same_tool && not (is_blank before.latest_tool_started_at)
        then before.latest_tool_started_at
        else observed in
      let updated =
        if not (is_blank s.latest_tool_updated_at)
        then s.latest_tool_updated_at
        else if same_tool
            && not (is_blank before.latest_tool_updated_at)
            && text_eq (trim_space before.latest_tool_fp) (trim_space s.latest_tool_fp)
        then before.latest_tool_updated_at
        else observed in
      if is_empty (latest_tool_timing_key s)
      then s
      else record s { latest_tool_started_at = started; latest_tool_updated_at = updated }

  -- The two calls at the start of `CompactSnapshot`.
  unfoldable pub timed : Option ThreadSnapshotState → ThreadReadSnapshot → Text → ThreadReadSnapshot
  unfolding apply_latest_turn_timing apply_latest_tool_timing
  timed previous s observed =
      apply_latest_tool_timing previous (apply_latest_turn_timing previous s observed) observed

  module _ (lib : Encoding) where
    -- What `CompactSnapshot` makes of the snapshot with its times.
    unfoldable pub compacted :
        Option ThreadSnapshotState → ThreadReadSnapshot → ℕ → ThreadSnapshotState
    unfolding with_compact_raw completion_fp is_completion
    compacted previous s polled_at =
        let completes =
          not (is_empty s.latest_turn_id)
          && not (is_empty s.latest_turn_status)
          && is_completion s.latest_turn_status in
        record {
          thread_updated_at = s.thread.updated_at;
          last_seen_thread_status = s.thread.status;
          last_seen_turn_id = s.latest_turn_id;
          last_seen_turn_status = s.latest_turn_status;
          last_progress_fp = s.latest_progress_fp;
          last_progress_sent_at = carried (λ p. p.last_progress_sent_at) blank previous;
          last_final_fp = s.latest_final_fp;
          last_completion_fp =
              if completes
              then completion_fp lib s
              else carried (λ p. p.last_completion_fp) [] previous;
          last_approval_fp =
              if s.waiting_on_approval
              then s.latest_turn_id
              else carried (λ p. p.last_approval_fp) [] previous;
          last_reply_fp = reply_fp s.waiting_on_reply s.plan_prompt;
          last_final_notice_fp = carried (λ p. p.last_final_notice_fp) [] previous;
          last_tool_document_fp = carried (λ p. p.last_tool_document_fp) [] previous;
          last_rich_live_event_at = carried (λ p. p.last_rich_live_event_at) blank previous;
          last_poll_at = at polled_at;
          next_poll_after = blank;
          compact_json = codec.encode (with_compact_raw lib s);
        }

    -- `CompactSnapshot`
    unfoldable pub compact_snapshot :
        Option ThreadSnapshotState → ThreadReadSnapshot → ℕ → ℕ → ThreadSnapshotState
    unfolding timed compacted observed_text
    compact_snapshot previous current now polled_at =
        compacted previous (timed previous current (observed_text now polled_at)) polled_at
