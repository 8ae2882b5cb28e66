-- ===== src/AppServer/Legacy.antt =====
-- internal/appserver/live_event.go: `normalizeLegacyCodexEvent`.
use codex_feishu.Prelude.{Bool, not, ◌||◌, Option, none, some, [], ◌∷◌, if◌then◌else◌}
use codex_feishu.Prelude.Text.{Text, codes, text_eq, trim_space, is_empty}
use codex_feishu.AppServer.Json.{
  Fields, end, field, Encoding, value_at, as_map, string_at, first_string,
}
use codex_feishu.AppServer.Payload.{nested_thread_id}
use codex_feishu.AppServer.Events.{
  Event, turn_completed, tool_started, tool_completed, agent_message, legacy_task_started,
  legacy_task_complete, NormalizedEvent, given_if, legacy_command_label,
}
use codex_feishu.AppServer.Snapshot.{Thread}

module _ (lib : Encoding) where
  -- The message of a legacy event: `msg`, or the parameters where that is empty.
  unfoldable pub legacy_message : Fields → Fields
  unfolding as_map value_at
  legacy_message params = elim (as_map (value_at params (codes "msg"))) [
    | end ↦ params
    | field k v rest ↦ field k v rest
  ]

  abbrev call_id : Fields → Text
  call_id msg = first_string (
      string_at msg (codes "call_id")
      ∷ string_at msg (codes "callId")
      ∷ codes "commandExecution"
      ∷ [])

  -- The switch of `normalizeLegacyCodexEvent`.
  unfoldable pub legacy_by_type : Fields → NormalizedEvent → Option NormalizedEvent
  unfolding trim_space text_eq first_string legacy_command_label
  legacy_by_type msg e =
      let kind = trim_space (string_at msg (codes "type")) in
      let label = legacy_command_label lib (value_at msg (codes "command")) in
      let status = string_at msg (codes "status") in
      let command = record e {
        item_kind = codes "commandExecution";
        item_id = call_id msg;
        label = label;
      } in
      if text_eq kind (codes "task_started")
      then some (record e { kind = legacy_task_started; turn_status = codes "inProgress" })
      else if text_eq kind (codes "task_complete")
      then some (record e { kind = legacy_task_complete; turn_status = codes "completed" })
      else if text_eq kind (codes "turn_aborted")
      then some (record e { kind = turn_completed; turn_status = codes "interrupted" })
      else if text_eq kind (codes "exec_command_begin")
      then some (record command {
        kind = tool_started;
        status = first_string (status ∷ codes "running" ∷ []);
      })
      else if text_eq kind (codes "exec_command_end")
      then some (record command {
        kind = tool_completed;
        output = first_string (string_at msg (codes "output") ∷ string_at msg (codes "error") ∷ []);
        status = first_string (status ∷ codes "completed" ∷ []);
      })
      else if text_eq kind (codes "agent_message")
      then some
          (record e { kind = agent_message; text = trim_space (string_at msg (codes "message")) })
      else none

  -- The test of the last line of `normalizeLegacyCodexEvent`.
  unfoldable pub says_something : NormalizedEvent → Bool
  says_something e =
      not (is_empty e.thread_id)
      || not (is_empty e.turn_id)
      || not (is_empty e.label)
      || not (is_empty e.text)

  -- `normalizeLegacyCodexEvent`
  unfoldable pub normalize_legacy_codex_event :
      Event → Thread → NormalizedEvent → Option NormalizedEvent
  unfolding legacy_message legacy_by_type says_something first_string nested_thread_id
  normalize_legacy_codex_event event thread given =
      let msg = legacy_message event.params in
      let e = record given {
        thread_id =
            first_string (nested_thread_id msg ∷ nested_thread_id event.params ∷ thread.id ∷ []);
        thread_title = thread.title;
        project_name = thread.project_name;
        turn_id = first_string (
            string_at msg (codes "turn_id")
            ∷ string_at msg (codes "turnId")
            ∷ thread.active_turn_id
            ∷ []);
      } in
      elim (legacy_by_type msg e) [ none ↦ none | some out ↦ given_if (says_something out) out ]
