-- ===== src/AppServer/ReadSnapshot/Finished.antt =====
-- What a snapshot says of a turn that has its final answer.
use codex_feishu.Prelude.{
  ◌≡◌, refl, ◌∙◌, Bool, true, false, not, ◌&&◌, ◌||◌, Option, none, some, List, [], ◌∷◌, arith,
  if◌then◌else◌, reverse,
}
use codex_feishu.Prelude.Text.{
  Text, codes, text_eq, trim_space, is_empty, is_blank, to_lower, has_prefix, contains,
}
use codex_feishu.AppServer.Json.{Json, Fields, Encoding, value_at, as_map, int64_value}
use codex_feishu.AppServer.Collect.{item_type, is_tool_type}
use codex_feishu.AppServer.Payload.{terminal_turn_status, status_looks_live}
use codex_feishu.AppServer.Snapshot.{ThreadReadSnapshot}
use codex_feishu.AppServer.ThreadRead.{
  thread_payload_of, turns_of, items_of, last_turn, normalize_finalized_turn, finalized,
}
use codex_feishu.AppServer.ReadSnapshot.{
  progress_step, tool_step, activity_step, add_activity, thread_snapshot, with_turn,
  snapshot_from_thread_read,
}

-- The turn is over: its status says so, the thread does not look live, and it does not name the turn
-- as its active one.
unfoldable pub is_over : ThreadReadSnapshot → Bool
unfolding terminal_turn_status status_looks_live is_blank text_eq trim_space
is_over s =
    terminal_turn_status s.latest_turn_status
    && not (status_looks_live s.thread.status)
    && not (is_blank s.thread.status)
    && (is_blank s.thread.active_turn_id
        || not (text_eq (trim_space s.thread.active_turn_id) (trim_space s.latest_turn_id)))

-- There is no final answer, or the thread waits for the user, or the turn is over.
unfoldable pub is_settled : ThreadReadSnapshot → Bool
unfolding is_over is_blank
is_settled s =
    is_blank s.latest_final_fp || s.waiting_on_approval || s.waiting_on_reply || is_over s

completed_is_terminal : terminal_turn_status (codes "completed") ≡ true
unfolding terminal_turn_status trim_space to_lower text_eq
completed_is_terminal = refl

completed_not_live : status_looks_live (codes "completed") ≡ false
unfolding status_looks_live trim_space to_lower text_eq has_prefix contains
completed_not_live = refl

completed_not_blank : is_blank (codes "completed") ≡ false
unfolding is_blank trim_space
completed_not_blank = refl

empty_is_blank : is_blank [] ≡ true
unfolding is_blank trim_space
empty_is_blank = refl

closed_status :
    (t : Text)
    → terminal_turn_status (if terminal_turn_status t then t else codes "completed") ≡ true
closed_status t = ground (arith, completed_is_terminal)

idle_status :
    (t : Text)
    → (not (status_looks_live (if status_looks_live t || is_blank t then codes "completed" else t))
        && not (is_blank (if status_looks_live t || is_blank t then codes "completed" else t)))
      ≡ true
idle_status t = ground (arith, completed_not_live, completed_not_blank)

left_turn :
    (active turn_id : Text) (b : Bool)
    → text_eq (trim_space active) (trim_space turn_id) ≡ b
    → (is_blank (if b then [] else active)
        || not (text_eq (trim_space (if b then [] else active)) (trim_space turn_id)))
      ≡ true
left_turn active turn_id true h = ground (arith, empty_is_blank)
left_turn active turn_id false h = ground (arith, h)

finalized-is_over : (s : ThreadReadSnapshot) → is_over (finalized s) ≡ true
unfolding finalized is_over
finalized-is_over s = ground (
  arith,
  closed_status s.latest_turn_status,
  idle_status s.thread.status,
  left_turn s.thread.active_turn_id s.latest_turn_id _ refl,
)

settled_if :
    (b : Bool) (s t : ThreadReadSnapshot)
    → (is_blank s.latest_final_fp || s.waiting_on_approval || s.waiting_on_reply) ≡ b
    → is_over t ≡ true
    → is_settled (if b then s else t) ≡ true
unfolding is_settled
settled_if true s t h k = ground (arith, h)
settled_if false s t h k = ground (arith, k)

normalize_finalized_turn-settled :
    (s : ThreadReadSnapshot) → is_settled (normalize_finalized_turn s) ≡ true
unfolding normalize_finalized_turn
normalize_finalized_turn-settled s = settled_if _ s (finalized s) refl (finalized-is_over s)

-- The fields that the last loop leaves alone.
record SameTurn (s t : ThreadReadSnapshot) : Type 0 where
  thread : t.thread ≡ s.thread
  turn_id : t.latest_turn_id ≡ s.latest_turn_id
  turn_status : t.latest_turn_status ≡ s.latest_turn_status
  final : t.latest_final_fp ≡ s.latest_final_fp
  approval : t.waiting_on_approval ≡ s.waiting_on_approval
  reply : t.waiting_on_reply ≡ s.waiting_on_reply

if-SameTurn :
    (b : Bool) (s t u : ThreadReadSnapshot)
    → SameTurn s t
    → SameTurn s u
    → SameTurn s (if b then t else u)
if-SameTurn true s t u h k = h
if-SameTurn false s t u h k = k

SameTurn-refl : (s : ThreadReadSnapshot) → SameTurn s s
SameTurn-refl s = record {
  thread = refl;
  turn_id = refl;
  turn_status = refl;
  final = refl;
  approval = refl;
  reply = refl;
}

SameTurn-trans : (s t u : ThreadReadSnapshot) → SameTurn s t → SameTurn t u → SameTurn s u
SameTurn-trans s t u h k = record {
  thread = k.thread ∙ h.thread;
  turn_id = k.turn_id ∙ h.turn_id;
  turn_status = k.turn_status ∙ h.turn_status;
  final = k.final ∙ h.final;
  approval = k.approval ∙ h.approval;
  reply = k.reply ∙ h.reply;
}

SameTurn-settled : (s t : ThreadReadSnapshot) → SameTurn s t → is_settled t ≡ is_settled s
unfolding is_settled is_over
SameTurn-settled s t h = simp (h.thread, h.turn_id, h.turn_status, h.final, h.approval, h.reply)

module _ (lib : Encoding) where
  progress_step-SameTurn :
      (item : Fields) (s : ThreadReadSnapshot) → SameTurn s (progress_step lib item s)
  unfolding progress_step
  progress_step-SameTurn item s = if-SameTurn _ s s _ (SameTurn-refl s) (record {
    thread = refl;
    turn_id = refl;
    turn_status = refl;
    final = refl;
    approval = refl;
    reply = refl;
  })

  tool_step-SameTurn : (item : Fields) (s : ThreadReadSnapshot) → SameTurn s (tool_step lib item s)
  unfolding tool_step
  tool_step-SameTurn item s =
      if-SameTurn (not (is_empty s.latest_tool_fp)) s s _ (SameTurn-refl s) (record {
        thread = refl;
        turn_id = refl;
        turn_status = refl;
        final = refl;
        approval = refl;
        reply = refl;
      })

  activity_step-SameTurn :
      (item : Fields) (s : ThreadReadSnapshot) → SameTurn s (activity_step lib item s)
  unfolding activity_step
  activity_step-SameTurn item s = if-SameTurn _ s _ _ (progress_step-SameTurn item s) (
      if-SameTurn (is_tool_type (item_type item)) s (tool_step lib item (progress_step lib item s))
        s (SameTurn-trans s _ _ (progress_step-SameTurn item s) (tool_step-SameTurn item _))
        (SameTurn-refl s))

  add_activity-SameTurn :
      (items : List Json) (s : ThreadReadSnapshot) → SameTurn s (add_activity lib items s)
  unfolding add_activity
  add_activity-SameTurn [] s = SameTurn-refl s
  add_activity-SameTurn (raw ∷ before) s =
      SameTurn-trans s _ _ (activity_step-SameTurn (as_map raw) s) (add_activity-SameTurn before _)

  thread_snapshot-settled :
      (result : Fields) (compact_raw : Text)
      → is_settled (thread_snapshot lib result compact_raw) ≡ true
  unfolding thread_snapshot is_settled
  thread_snapshot-settled result compact_raw = ground (arith, empty_is_blank)

  -- A snapshot that is read from an answer of the app server and has a final answer, and whose
  -- thread waits for nobody, is of a turn that is over, whatever status the server gave the turn and
  -- the thread.
  pub snapshot_from_thread_read-settled :
      (result : Fields) (compact_raw : Text)
      → is_settled (snapshot_from_thread_read lib result compact_raw) ≡ true
  unfolding snapshot_from_thread_read
  snapshot_from_thread_read-settled result compact_raw = by_turn (last_turn (turns_of payload))
    where
      payload : Fields
      payload = thread_payload_of result

      open_turn : Json → ThreadReadSnapshot
      open_turn raw =
          with_turn lib (int64_value (value_at payload (codes "updatedAt"))) (as_map raw)
            (thread_snapshot lib result compact_raw)

      finished : Json → ThreadReadSnapshot
      finished raw = normalize_finalized_turn (open_turn raw)

      by_turn :
          (turn : Option Json)
          → is_settled (elim turn [
            | none ↦ thread_snapshot lib result compact_raw
            | some raw ↦ add_activity lib (reverse (items_of (as_map raw))) (finished raw)
          ])
            ≡ true
      by_turn none = thread_snapshot-settled result compact_raw
      by_turn (some raw) =
          let items = reverse (items_of (as_map raw)) in
          SameTurn-settled (finished raw) (add_activity lib items (finished raw))
            (add_activity-SameTurn items (finished raw))
          ∙ normalize_finalized_turn-settled (open_turn raw)
