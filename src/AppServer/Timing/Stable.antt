-- ===== src/AppServer/Timing/Stable.antt =====
-- The start of a turn over several polls.
use codex_feishu.Prelude.{
  ℕ, ◌≡◌, refl, sym, ap, ◌∙◌, Bool, true, false, not, ◌&&◌, Option, some, arith, if◌then◌else◌,
}
use codex_feishu.Prelude.Text.{Text, text_eq, text_eq_iff, trim_space, is_empty, is_blank}
use codex_feishu.AppServer.Json.{Encoding}
use codex_feishu.AppServer.Snapshot.{ThreadReadSnapshot, ThreadSnapshotState}
use codex_feishu.AppServer.Timing.{
  SnapshotCodec, latest_tool_timing_key, with_compact_raw, previous_snapshot, observed_text,
  apply_latest_turn_timing, apply_latest_tool_timing, timed, compacted, compact_snapshot,
}

-- What the code relies on: encoding/json gives back the fields that it wrote, and a JSON text and the
-- text of a time are not blank.
pub record CodecLaws (codec : SnapshotCodec) : Type 0 where
  pub turn_id :
      (s : ThreadReadSnapshot) → (codec.decode (codec.encode s)).latest_turn_id ≡ s.latest_turn_id
  pub started :
      (s : ThreadReadSnapshot)
      → (codec.decode (codec.encode s)).latest_turn_started_at ≡ s.latest_turn_started_at
  pub json : (s : ThreadReadSnapshot) → is_empty (codec.encode s) ≡ false
  pub time : (t : ℕ) → is_blank (codec.format_time t) ≡ false

if_same {ℓ κ} :
    {A : Type ℓ} {B : Type κ} (f : A → B) (b : Bool) (x y : A) (z : B)
    → f x ≡ z
    → f y ≡ z
    → f (if b then x else y) ≡ z
if_same f true x y z h k = h
if_same f false x y z h k = k

module _ (codec : SnapshotCodec) (laws : CodecLaws codec) (lib : Encoding) where
  -- The start of the turn that a recorded state holds.
  abbrev pub started_at : ThreadSnapshotState → Text
  started_at p = (codec.decode p.compact_json).latest_turn_started_at

  -- The start that `applyLatestTurnTiming` chooses.
  chosen : ThreadReadSnapshot → ThreadReadSnapshot → Text → Text
  chosen before s observed =
      if not (is_blank s.latest_turn_started_at)
      then s.latest_turn_started_at
      else if text_eq (trim_space before.latest_turn_id) (trim_space s.latest_turn_id)
          && not (is_blank before.latest_turn_started_at)
      then before.latest_turn_started_at
      else observed

  tool_timing_same {κ} :
      {B : Type κ} (f : ThreadReadSnapshot → B)
      → ((s : ThreadReadSnapshot) (a b : Text)
          → f (record s { latest_tool_started_at = a; latest_tool_updated_at = b }) ≡ f s)
      → (previous : Option ThreadSnapshotState) (s : ThreadReadSnapshot) (observed : Text)
      → f (apply_latest_tool_timing codec previous s observed) ≡ f s
  unfolding apply_latest_tool_timing
  tool_timing_same f same previous s observed =
      if_same f (is_empty (latest_tool_timing_key s)) s _ (f s) refl (same s _ _)

  turn_timing-started :
      (previous : Option ThreadSnapshotState) (s : ThreadReadSnapshot) (observed : Text)
      → is_blank s.latest_turn_id ≡ false
      → (apply_latest_turn_timing codec previous s observed).latest_turn_started_at
        ≡ chosen (previous_snapshot codec previous) s observed
  unfolding apply_latest_turn_timing chosen
  turn_timing-started previous s observed h = rw h refl

  turn_timing-turn_id :
      (previous : Option ThreadSnapshotState) (s : ThreadReadSnapshot) (observed : Text)
      → (apply_latest_turn_timing codec previous s observed).latest_turn_id ≡ s.latest_turn_id
  unfolding apply_latest_turn_timing
  turn_timing-turn_id previous s observed =
      if_same (λ (t : ThreadReadSnapshot). t.latest_turn_id) (is_blank s.latest_turn_id) s _ _ refl
        refl

  timed-started :
      (previous : Option ThreadSnapshotState) (s : ThreadReadSnapshot) (observed : Text)
      → is_blank s.latest_turn_id ≡ false
      → (timed codec previous s observed).latest_turn_started_at
        ≡ chosen (previous_snapshot codec previous) s observed
  unfolding timed
  timed-started previous s observed h =
      tool_timing_same (λ (t : ThreadReadSnapshot). t.latest_turn_started_at) (λ s a b. refl)
        previous (apply_latest_turn_timing codec previous s observed) observed
      ∙ turn_timing-started previous s observed h

  timed-turn_id :
      (previous : Option ThreadSnapshotState) (s : ThreadReadSnapshot) (observed : Text)
      → (timed codec previous s observed).latest_turn_id ≡ s.latest_turn_id
  unfolding timed
  timed-turn_id previous s observed =
      tool_timing_same (λ (t : ThreadReadSnapshot). t.latest_turn_id) (λ s a b. refl) previous
        (apply_latest_turn_timing codec previous s observed) observed
      ∙ turn_timing-turn_id previous s observed

  -- The snapshot that is encoded.
  compact_snapshot-started :
      (previous : Option ThreadSnapshotState) (s : ThreadReadSnapshot) (now polled_at : ℕ)
      → is_blank s.latest_turn_id ≡ false
      → started_at (compact_snapshot codec lib previous s now polled_at)
        ≡ chosen (previous_snapshot codec previous) s (observed_text codec now polled_at)
  unfolding compact_snapshot compacted with_compact_raw
  compact_snapshot-started previous s now polled_at h =
      laws.started _ ∙ timed-started previous s (observed_text codec now polled_at) h

  compact_snapshot-turn_id :
      (previous : Option ThreadSnapshotState) (s : ThreadReadSnapshot) (now polled_at : ℕ)
      → (codec.decode
          (compact_snapshot codec lib previous s now polled_at).compact_json).latest_turn_id
        ≡ s.latest_turn_id
  unfolding compact_snapshot compacted with_compact_raw
  compact_snapshot-turn_id previous s now polled_at =
      laws.turn_id _ ∙ timed-turn_id previous s (observed_text codec now polled_at)

  -- The state that a poll records is what the next poll reads.
  previous_snapshot-compact_snapshot :
      (previous : Option ThreadSnapshotState) (s : ThreadReadSnapshot) (now polled_at : ℕ)
      → previous_snapshot codec (some (compact_snapshot codec lib previous s now polled_at))
        ≡ codec.decode (compact_snapshot codec lib previous s now polled_at).compact_json
  unfolding previous_snapshot compact_snapshot compacted
  previous_snapshot-compact_snapshot previous s now polled_at = rw (laws.json _) refl

  chosen-visible :
      (before s : ThreadReadSnapshot) (now polled_at : ℕ)
      → is_blank (chosen before s (observed_text codec now polled_at)) ≡ false
  unfolding chosen observed_text
  chosen-visible before s now polled_at = ground (arith, laws.time now, laws.time polled_at)

  chosen-before :
      (before t : ThreadReadSnapshot) (observed : Text)
      → before.latest_turn_id ≡ t.latest_turn_id
      → is_blank t.latest_turn_started_at ≡ true
      → is_blank before.latest_turn_started_at ≡ false
      → chosen before t observed ≡ before.latest_turn_started_at
  unfolding chosen
  chosen-before before t observed same absent seen = ground (
    arith,
    absent,
    seen,
    (text_eq_iff (trim_space before.latest_turn_id) (trim_space t.latest_turn_id)).1
        (ap trim_space same),
  )

  -- A turn keeps the start that the first poll recorded: while the app server gives none, each later
  -- poll of the turn records the same.
  pub compact_snapshot-keeps_start :
      (previous : Option ThreadSnapshotState) (s t : ThreadReadSnapshot) (n1 p1 n2 p2 : ℕ)
      → is_blank s.latest_turn_id ≡ false
      → s.latest_turn_id ≡ t.latest_turn_id
      → is_blank t.latest_turn_started_at ≡ true
      → started_at
          (compact_snapshot codec lib (some (compact_snapshot codec lib previous s n1 p1)) t n2 p2)
        ≡ started_at (compact_snapshot codec lib previous s n1 p1)
  compact_snapshot-keeps_start previous s t n1 p1 n2 p2 named same absent =
      let p = compact_snapshot codec lib previous s n1 p1 in
      let before = codec.decode p.compact_json in
      let observed = observed_text codec n2 p2 in
      compact_snapshot-started (some p) t n2 p2 (ap is_blank (sym same) ∙ named)
      ∙ ap (λ b. chosen b t observed) (previous_snapshot-compact_snapshot previous s n1 p1)
      ∙ chosen-before before t observed (compact_snapshot-turn_id previous s n1 p1 ∙ same) absent (
          ap is_blank (compact_snapshot-started previous s n1 p1 named)
          ∙ chosen-visible (previous_snapshot codec previous) s n1 p1)
