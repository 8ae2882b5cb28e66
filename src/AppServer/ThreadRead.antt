-- ===== src/AppServer/ThreadRead.antt =====
-- internal/appserver/normalize.go: a thread and its snapshot from an answer to `thread/read`.
use codex_feishu.Prelude.{
  ℕ, ◌-◌, max, Bool, true, false, not, ◌||◌, Option, none, some, List, [], ◌∷◌, ltb, ◌==◌,
  if◌then◌else◌, length, drop, any, reverse,
}
use codex_feishu.Prelude.Text.{Text, codes, text_eq, trim_space, is_empty, is_blank, equal_fold}
use codex_feishu.AppServer.Json.{
  ℤ, pos, negsuc, Json, object, Fields, Encoding, value_at, array_of, or_nil, object_of, as_map,
  string_value, string_at, bool_value,
}
use codex_feishu.AppServer.Items.{render_item_text}
use codex_feishu.AppServer.Collect.{latest_final_agent_message, latest_user_message}
use codex_feishu.AppServer.Payload.{
  status_text, status_has_flag, terminal_turn_status, status_looks_live, payload_activity_at,
  project_name_from_cwd,
}
use codex_feishu.AppServer.Snapshot.{Thread, CompletedTurnMessage, ThreadReadSnapshot}

-- `nested, ok := result["thread"].(map[string]any)`: that, or the payload itself.
unfoldable pub thread_payload_of : Fields → Fields
unfolding object_of value_at
thread_payload_of payload = elim (object_of (value_at payload (codes "thread"))) [
  | none ↦ payload
  | some nested ↦ nested
]

abbrev pub is_nested : Fields → Bool
is_nested payload = elim (object_of (value_at payload (codes "thread"))) [
  | none ↦ false
  | some nested ↦ true
]

-- `turns, _ := payload["turns"].([]any)`
abbrev pub turns_of : Fields → List Json
turns_of payload = or_nil (array_of (value_at payload (codes "turns")))

abbrev pub items_of : Fields → List Json
items_of turn = or_nil (array_of (value_at turn (codes "items")))

-- `turns[len(turns)-1]`, if there is one.
unfoldable pub last_turn : List Json → Option Json
last_turn [] = none
last_turn (turn ∷ []) = some turn
last_turn (turn ∷ next ∷ turns) = last_turn (next ∷ turns)

-- `previewFromTurn`, on the reversed items.
unfoldable pub preview_among : List Json → Text
unfolding render_item_text
preview_among [] = []
preview_among (raw ∷ before) =
    let text = render_item_text (as_map raw) in if is_empty text then preview_among before else text

abbrev is_archived : Fields → Bool
is_archived payload =
    any (λ k. bool_value (value_at payload k))
      (codes "archived" ∷ codes "isArchived" ∷ codes "deleted" ∷ codes "isDeleted" ∷ [])

-- `shouldUseLatestUserPreview`
unfoldable pub should_use_latest_user_preview : Text → ℤ → ℕ → Bool
unfolding is_blank
should_use_latest_user_preview preview (pos thread_updated_at) latest_turn_updated_at =
    is_blank preview || thread_updated_at == 0 || ltb thread_updated_at latest_turn_updated_at
should_use_latest_user_preview preview (negsuc n) latest_turn_updated_at =
    is_blank preview || ltb 0 latest_turn_updated_at

-- What `normalizeFinalizedTurn` makes of a turn with a final answer.
unfoldable pub finalized : ThreadReadSnapshot → ThreadReadSnapshot
unfolding is_blank terminal_turn_status text_eq trim_space status_looks_live
finalized s =
    let turn_status =
      if terminal_turn_status s.latest_turn_status
      then s.latest_turn_status
      else codes "completed" in
    let active =
      if text_eq (trim_space s.thread.active_turn_id) (trim_space s.latest_turn_id)
      then []
      else s.thread.active_turn_id in
    let status =
      if status_looks_live s.thread.status || is_blank s.thread.status
      then codes "completed"
      else s.thread.status in
    record s {
      latest_turn_status = turn_status;
      thread = record s.thread { active_turn_id = active; status = status };
    }

-- `normalizeFinalizedTurn`
unfoldable pub normalize_finalized_turn : ThreadReadSnapshot → ThreadReadSnapshot
unfolding is_blank finalized
normalize_finalized_turn s =
    if is_blank s.latest_final_fp || s.waiting_on_approval || s.waiting_on_reply
    then s
    else finalized s

module _ (lib : Encoding) where
  -- `ActiveTurnID` and `LastPreview` where the payload has no active turn: from the last turn.
  unfoldable pub active_turn_and_preview : List Json → Text → Text × Text
  unfolding last_turn status_text status_has_flag equal_fold preview_among
  active_turn_and_preview turns preview = elim (last_turn turns) [
    | none ↦ ([], preview)
    | some turn ↦ elim turn [
      | object fs ↦
          let status = status_text lib (value_at fs (codes "status")) in
          (
            (if equal_fold status (codes "inProgress") || status_has_flag status (codes "active")
                then string_at fs (codes "id")
                else []),
            (if is_empty preview then preview_among (reverse (items_of fs)) else preview),
          )
      | _ ↦ ([], preview)
    ]
  ]

  -- `ThreadFromPayload`
  unfoldable pub thread_from_payload : Fields → Thread
  unfolding thread_payload_of project_name_from_cwd status_text payload_activity_at
      active_turn_and_preview string_value value_at bool_value
  thread_from_payload payload =
      let body = thread_payload_of payload in
      let cwd = string_at body (codes "cwd") in
      let active = string_at body (codes "activeTurnId") in
      let preview = string_at body (codes "preview") in
      let derived = active_turn_and_preview (turns_of body) preview in
      let own = payload_activity_at body in
      record {
        id = string_value (value_at body (codes "id")) (string_at body (codes "threadId"));
        title = string_value (value_at body (codes "name")) (string_at body (codes "title"));
        cwd = cwd;
        project_name = (project_name_from_cwd cwd).0;
        directory_name = (project_name_from_cwd cwd).1;
        updated_at = if is_nested payload then max own (payload_activity_at payload) else own;
        status = status_text lib (value_at body (codes "status"));
        last_preview = if is_empty active then derived.1 else preview;
        active_turn_id = if is_empty active then derived.0 else active;
        preferred_model =
            string_value (value_at body (codes "model")) (string_at payload (codes "model"));
        permissions_mode = [];
        archived = is_archived body;
        listed = true;
        raw = lib.marshal (object body);
      }

  -- One round of the loop of `RecentCompletedTurnMessages`; `none` where it continues.
  unfoldable pub completed_turn : Json → Option CompletedTurnMessage
  unfolding terminal_turn_status status_text latest_user_message latest_final_agent_message is_blank
  completed_turn raw =
      let turn = as_map raw in
      let user = latest_user_message lib (items_of turn) in
      let final = latest_final_agent_message lib (items_of turn) in
      if not (terminal_turn_status (status_text lib (value_at turn (codes "status"))))
        || is_blank user.text
        || is_blank final.0
      then none
      else some (record {
        turn_id = string_at turn (codes "id");
        user_item_id = user.id;
        user_text = user.text;
        final_text = final.0;
      })

  unfoldable pub completed_turns : List Json → List CompletedTurnMessage
  unfolding completed_turn
  completed_turns [] = []
  completed_turns (raw ∷ rest) =
      let more = completed_turns rest in
      elim (completed_turn raw) [ none ↦ more | some turn ↦ turn ∷ more ]

  -- `RecentCompletedTurnMessages`, at a limit that is not negative.
  unfoldable pub recent_completed_turn_messages : Fields → ℕ → List CompletedTurnMessage
  unfolding completed_turns thread_payload_of
  recent_completed_turn_messages result limit =
      let completed = completed_turns (turns_of (thread_payload_of result)) in
      if limit == 0 then [] else drop (length completed - limit) completed
