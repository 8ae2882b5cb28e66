-- ===== src/AppServer/Collect.antt =====
-- internal/appserver/normalize.go: what the items of a turn are collected to. A loop from the end
-- runs over the reversed list; a limit is not negative.
use codex_feishu.Prelude.{
  ℕ, zero, suc, Bool, false, not, ◌&&◌, ◌||◌, Option, none, some, List, [], ◌∷◌, map, if◌then◌else◌,
  length, select, any, reverse,
}
pub mod Window
use codex_feishu.Prelude.Text.{Text, codes, text_eq, trim_space, is_empty, to_lower}
use codex_feishu.AppServer.Json.{Json, Fields, Encoding, as_map, string_at, fingerprint}
use codex_feishu.AppServer.Items.{
  user_message_text, user_message_image_path, plan_text, normalize_agent_message_phase,
}
use codex_feishu.AppServer.Snapshot.{AgentMessageEntry}

-- `strings.TrimSpace(stringValue(item["type"], ""))`
abbrev pub item_type : Fields → Text
item_type item = trim_space (string_at item (codes "type"))

abbrev pub item_id : Fields → Text
item_id item = string_at item (codes "id")

unfoldable pub is_tool_type : Text → Bool
unfolding text_eq
is_tool_type kind = any (text_eq kind) (
    codes "commandExecution"
    ∷ codes "fileChange"
    ∷ codes "dynamicToolCall"
    ∷ codes "mcpToolCall"
    ∷ codes "webSearch"
    ∷ [])

-- The results of `latestUserMessage`.
pub record UserMessage : Type 0 where
  pub id : Text
  pub text : Text
  pub image_path : Text
  pub fp : Text

-- `strings.ToLower(strings.TrimSpace(entry.Phase))`
abbrev pub phase_of : AgentMessageEntry → Text
phase_of e = to_lower (trim_space e.phase)

abbrev pub is_plan : Json → Bool
is_plan raw = text_eq (item_type (as_map raw)) (codes "plan")

abbrev pub is_other : Json → Bool
is_other raw = not (text_eq (item_type (as_map raw)) (codes "agentMessage")) && not (is_plan raw)

module _ (lib : Encoding) where
  -- The entry that the body of the loop of `collectAgentMessageEntriesFromItems` builds.
  unfoldable pub message_of : Json → AgentMessageEntry
  unfolding trim_space user_message_text plan_text normalize_agent_message_phase fingerprint
  message_of raw =
      let item = as_map raw in
      let text = trim_space (if is_plan raw then plan_text item else user_message_text item) in
      let given = normalize_agent_message_phase item in
      let phase = if is_plan raw && is_empty given then codes "plan" else given in
      let id = item_id item in
      record {
        id = id;
        phase = phase;
        text = text;
        fp = fingerprint lib (codes "agentMessage" ∷ id ∷ phase ∷ text ∷ []);
      }

  -- The body of that loop; `none` where it continues.
  unfoldable pub entry_of : Json → Option AgentMessageEntry
  unfolding text_eq message_of
  entry_of raw =
      let entry = message_of raw in if is_other raw || is_empty entry.text then none else some entry

  -- The loop of `collectAgentMessageEntriesFromItems`, with the room that is left.
  unfoldable pub collect_entries : List Json → ℕ → List AgentMessageEntry
  collect_entries [] room = []
  collect_entries (raw ∷ before) zero = []
  collect_entries (raw ∷ before) (suc room) =
      let skipped = collect_entries before (suc room) in
      let taken = collect_entries before room in
      elim (entry_of raw) [ none ↦ skipped | some entry ↦ entry ∷ taken ]

  -- `collectAgentMessageEntriesFromItems`
  unfoldable pub collect_agent_message_entries_from_items : List Json → ℕ → List AgentMessageEntry
  unfolding collect_entries
  collect_agent_message_entries_from_items items limit = collect_entries (reverse items) limit

  -- `collectAgentMessagesFromItems`
  unfoldable pub collect_agent_messages_from_items : List Json → ℕ → List Text
  unfolding collect_agent_message_entries_from_items
  collect_agent_messages_from_items items limit =
      select (λ text. not (is_empty text))
        (map (λ (e : AgentMessageEntry). e.text)
          (collect_agent_message_entries_from_items items limit))

  -- The last loop of `latestFinalAgentMessage`.
  unfoldable pub first_text : List AgentMessageEntry → Text × Text
  unfolding fingerprint
  first_text [] = ([], [])
  first_text (e ∷ rest) =
      let next = first_text rest in
      if is_empty e.text
      then next
      else (e.text, fingerprint lib (codes "agentMessage" ∷ e.id ∷ e.text ∷ []))

  -- The first loop of `latestFinalAgentMessage` and what follows it.
  unfoldable pub final_among : List AgentMessageEntry → Bool → List AgentMessageEntry → Text × Text
  unfolding text_eq first_text to_lower trim_space
  final_among entries has_phase [] = if has_phase then ([], []) else first_text entries
  final_among entries has_phase (e ∷ rest) =
      let next = final_among entries (has_phase || not (is_empty (phase_of e))) rest in
      if text_eq (phase_of e) (codes "final_answer") then (e.text, e.fp) else next

  -- `latestFinalAgentMessage`: the text and its fingerprint.
  unfoldable pub latest_final_agent_message : List Json → Text × Text
  unfolding final_among collect_agent_message_entries_from_items
  latest_final_agent_message items =
      let entries = collect_agent_message_entries_from_items items (length items) in
      final_among entries false entries

  -- The loop of `latestUserMessage`.
  unfoldable pub user_message_among : List Json → UserMessage
  unfolding text_eq trim_space user_message_text user_message_image_path fingerprint
  user_message_among [] = record { id = []; text = []; image_path = []; fp = [] }
  user_message_among (raw ∷ before) =
      let next = user_message_among before in
      let item = as_map raw in
      let text = trim_space (user_message_text item) in
      let id = item_id item in
      let path = user_message_image_path item in
      if not (text_eq (item_type item) (codes "userMessage")) || is_empty text
      then next
      else record {
        id = id;
        text = text;
        image_path = path;
        fp =
            fingerprint lib
              (codes "userMessage" ∷ id ∷ text ∷ (if is_empty path then [] else path ∷ []));
      }

  -- `latestUserMessage`
  unfoldable pub latest_user_message : List Json → UserMessage
  unfolding user_message_among
  latest_user_message items = user_message_among (reverse items)
