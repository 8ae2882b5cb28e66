-- ===== src/AppServer/LiveEvent.antt =====
-- internal/appserver/live_event.go: `NormalizeAppServerLiveEvent`. A result with `false`, which no
-- caller reads, is `none`.
use codex_feishu.Prelude.{not, ◌&&◌, ◌||◌, Option, none, List, [], ◌∷◌, if◌then◌else◌, any}
use codex_feishu.AppServer.Legacy.{normalize_legacy_codex_event}
use codex_feishu.Prelude.Text.{
  Text, codes, text_eq, trim_space, is_empty, is_blank, to_lower, has_prefix, contains,
}
use codex_feishu.AppServer.Json.{
  Fields, Encoding, value_at, as_map, string_value, string_at, first_string, rpc_string,
}
use codex_feishu.AppServer.Items.{
  tool_label, tool_status, tool_output, normalize_agent_message_phase,
}
use codex_feishu.AppServer.Collect.{item_type, is_tool_type}
use codex_feishu.AppServer.Payload.{first_value, nested_thread_id, status_text}
use codex_feishu.AppServer.Events.{
  Event, EventKind, unset, turn_started, turn_completed, thread_status, tool_started, tool_updated,
  tool_completed, agent_message, approval_request, input_request, NormalizedEvent,
  is_completed_kind, nested_turn_id, first_payload, is_approval_request_method, given_if,
}
use codex_feishu.AppServer.Snapshot.{Thread}

-- `toolLiveEventKind`
unfoldable pub tool_live_event_kind : Text → EventKind
unfolding text_eq
tool_live_event_kind method =
    if text_eq method (codes "item/completed")
    then tool_completed
    else if text_eq method (codes "item/updated")
    then tool_updated
    else tool_started

-- The case of a tool in `normalizeItemEvent`.
unfoldable pub tool_item_event : Text → Fields → NormalizedEvent → Option NormalizedEvent
unfolding tool_live_event_kind tool_label tool_output tool_status trim_space is_completed_kind
    is_blank first_value
tool_item_event method params e =
    let item = as_map (value_at params (codes "item")) in
    let kind = tool_live_event_kind method in
    let label = trim_space (tool_label item) in
    let output = tool_output item in
    let status = first_value (
      trim_space (tool_status item [])
      ∷ trim_space (string_at params (codes "status"))
      ∷ (if is_completed_kind kind then codes "completed" else codes "running")
      ∷ []) in
    given_if (not (is_empty e.thread_id) && (not (is_empty label) || not (is_blank output)))
      (record e { kind = kind; label = label; output = output; status = status })

-- `normalizeItemEvent`
unfoldable pub normalize_item_event : Text → Fields → NormalizedEvent → Option NormalizedEvent
unfolding as_map value_at string_value trim_space is_tool_type text_eq normalize_agent_message_phase
    tool_item_event
normalize_item_event method params given =
    let item = as_map (value_at params (codes "item")) in
    let kind = item_type item in
    let e = record given {
      item_kind = kind;
      item_id = string_value (value_at item (codes "id")) kind;
    } in
    let text = trim_space (string_at item (codes "text")) in
    if is_tool_type kind
    then tool_item_event method params e
    else if text_eq kind (codes "agentMessage")
    then given_if (not (is_empty e.thread_id) && not (is_empty text))
        (record e { kind = agent_message; text = text; phase = normalize_agent_message_phase item })
    else none

module _ (lib : Encoding) where
  abbrev status_at : Fields → List Text → Text
  status_at params keys = status_text lib (first_payload params keys)

  -- The fields that `normalizeNotificationEvent` sets for each method.
  unfoldable pub addressed : Event → Thread → NormalizedEvent → NormalizedEvent
  unfolding first_string nested_thread_id nested_turn_id status_text first_payload
  addressed event thread e =
      let params = event.params in
      record e {
        thread_id = first_string (nested_thread_id params ∷ thread.id ∷ []);
        thread_title = first_string (string_at params (codes "threadTitle") ∷ thread.title ∷ []);
        project_name =
            first_string (string_at params (codes "projectName") ∷ thread.project_name ∷ []);
        turn_id = first_string (
            string_at params (codes "turnId") ∷ nested_turn_id params ∷ thread.active_turn_id ∷ []);
        turn_status = status_at params (codes "status" ∷ codes "turn.status" ∷ []);
      }

  -- The switch of `normalizeNotificationEvent`, after the fields that each method has.
  unfoldable pub notification_by_method : Text → Fields → NormalizedEvent → Option NormalizedEvent
  unfolding text_eq first_string normalize_item_event status_text first_payload
  notification_by_method method params e =
      let named = not (is_empty e.thread_id) || not (is_empty e.turn_id) in
      let started = first_string (e.turn_status ∷ codes "inProgress" ∷ []) in
      let completed =
        first_string
          (e.turn_status ∷ status_at params (codes "turn.status" ∷ []) ∷ codes "completed" ∷ []) in
      let changed = first_string (
        e.turn_status
        ∷ status_at params (codes "thread.status" ∷ codes "status.type" ∷ [])
        ∷ codes "inProgress"
        ∷ []) in
      if text_eq method (codes "turn/started")
      then given_if named (record e { kind = turn_started; turn_status = started })
      else if text_eq method (codes "turn/completed")
      then given_if named (record e { kind = turn_completed; turn_status = completed })
      else if text_eq method (codes "thread/status/changed")
      then given_if (not (is_empty e.thread_id) || not (is_empty changed))
          (record e { kind = thread_status; turn_status = changed })
      else if any (text_eq method)
          (codes "item/started" ∷ codes "item/updated" ∷ codes "item/completed" ∷ [])
      then normalize_item_event method params e
      else none

  -- `normalizeNotificationEvent`
  unfoldable pub normalize_notification_event :
      Event → Thread → NormalizedEvent → Option NormalizedEvent
  unfolding trim_space to_lower has_prefix normalize_legacy_codex_event addressed
      notification_by_method
  normalize_notification_event event thread e =
      let method = trim_space (to_lower event.method) in
      let legacy = normalize_legacy_codex_event lib event thread e in
      let current = notification_by_method method event.params (addressed event thread e) in
      if has_prefix method (codes "codex/event") then legacy else current

  -- The kind of a server request in `normalizeServerRequestEvent`.
  unfoldable pub request_kind : Text → EventKind
  unfolding is_approval_request_method contains
  request_kind method =
      if is_approval_request_method method
      then approval_request
      else if contains method (codes "input") || contains method (codes "elicitation")
      then input_request
      else unset

  -- `normalizeServerRequestEvent`
  unfoldable pub normalize_server_request_event :
      Event → Thread → NormalizedEvent → Option NormalizedEvent
  unfolding trim_space to_lower first_string nested_thread_id nested_turn_id rpc_string request_kind
  normalize_server_request_event event thread given =
      let params = event.params in
      let e = record given {
        kind = request_kind (trim_space (to_lower event.method));
        thread_id = first_string (nested_thread_id params ∷ thread.id ∷ []);
        thread_title = thread.title;
        project_name = thread.project_name;
        turn_id = first_string (
            string_at params (codes "turnId") ∷ nested_turn_id params ∷ thread.active_turn_id ∷ []);
        item_id = string_at params (codes "itemId");
        request_id = rpc_string lib event.id;
      } in
      elim e.kind [
        | unset ↦ none
        | _ ↦ given_if (not (is_empty e.thread_id) || not (is_empty e.request_id)) e
      ]

  -- `NormalizeAppServerLiveEvent`
  unfoldable pub normalize_app_server_live_event : Event → Thread → Option NormalizedEvent
  unfolding trim_space text_eq normalize_notification_event normalize_server_request_event
  normalize_app_server_live_event event thread =
      let e : NormalizedEvent = record {
        kind = unset;
        method = trim_space event.method;
        thread_id = [];
        thread_title = [];
        project_name = [];
        turn_id = [];
        turn_status = [];
        item_id = [];
        item_kind = [];
        label = [];
        status = [];
        output = [];
        text = [];
        phase = [];
        request_id = [];
        raw = event;
      } in
      if text_eq event.channel (codes "notification")
      then normalize_notification_event event thread e
      else if text_eq event.channel (codes "server_request")
      then normalize_server_request_event event thread e
      else none
