-- ===== src/AppServer/LiveNotification.antt =====
-- internal/appserver/normalize.go: `NormalizeLiveNotification`, the events that a notification is
-- reported by; the code returns one at most.
use codex_feishu.Prelude.{
  true, false, not, ◌&&◌, ◌||◌, Option, none, some, List, [], ◌∷◌, ◌++◌, map, if◌then◌else◌, concat,
}
use codex_feishu.Prelude.Text.{Text, codes, text_eq, trim_space, is_empty, to_lower}
use codex_feishu.AppServer.Json.{
  Fields, Encoding, value_at, as_map, string_value, string_at, fingerprint,
}
use codex_feishu.AppServer.Items.{render_item_text, normalize_agent_message_phase}
use codex_feishu.AppServer.Collect.{item_type, item_id}
use codex_feishu.AppServer.Payload.{
  first_value, nested_thread_id, status_text, status_has_flag, waits_for_reply,
}
use codex_feishu.AppServer.Events.{Event}
use codex_feishu.AppServer.Snapshot.{Thread, ObserverEvent}

-- The names of the thread that the events carry.
pub record Names : Type 0 where
  pub thread_id : Text
  pub project_name : Text
  pub thread_title : Text

unfoldable pub names_of : Event → Thread → Names
unfolding nested_thread_id first_value value_at string_value
names_of event thread =
    let id = first_value (nested_thread_id event.params ∷ thread.id ∷ []) in
    record {
      thread_id = id;
      project_name =
          if is_empty thread.project_name
          then string_at event.params (codes "projectName")
          else thread.project_name;
      thread_title =
          if is_empty thread.title
          then string_value (value_at event.params (codes "threadTitle")) id
          else thread.title;
    }

-- An event of `names`; `ids` is the rest of its id.
abbrev live_event : Names → List Text → Text → Text → Text → Text → ObserverEvent
live_event n ids kind text status turn_id = record {
  event_id = codes "live:" ++ n.thread_id ++ concat (map (λ part. b':' ∷ part) ids);
  kind = kind;
  thread_id = n.thread_id;
  project_name = n.project_name;
  thread_title = n.thread_title;
  text = text;
  status = status;
  turn_id = turn_id;
  item_id = [];
  request_id = [];
  needs_reply = false;
  needs_approval = false;
}

unfoldable pub live_turn_started : Names → Fields → ObserverEvent
unfolding as_map value_at string_value
live_turn_started n params =
    let turn = as_map (value_at params (codes "turn")) in
    let turn_id = string_value (value_at turn (codes "id")) (string_at params (codes "turnId")) in
    live_event n (turn_id ∷ codes "started" ∷ []) (codes "turn_started") (codes "Turn started")
      (string_at turn (codes "status")) turn_id

unfoldable pub live_turn_completed : Names → Fields → ObserverEvent
unfolding as_map value_at string_value text_eq
live_turn_completed n params =
    let turn = as_map (value_at params (codes "turn")) in
    let turn_id = string_value (value_at turn (codes "id")) (string_at params (codes "turnId")) in
    let status =
      string_value (value_at turn (codes "status"))
        (string_value (value_at params (codes "status")) (codes "completed")) in
    live_event n (turn_id ∷ status ∷ [])
      (if text_eq status (codes "failed") then codes "turn_failed" else codes "turn_completed")
      (codes "Turn " ++ status) status turn_id

unfoldable pub live_item_completed : Names → Fields → Option ObserverEvent
unfolding as_map value_at string_value trim_space text_eq to_lower render_item_text
    normalize_agent_message_phase
live_item_completed n params =
    let item = as_map (value_at params (codes "item")) in
    let turn_id = string_at params (codes "turnId") in
    let text = trim_space (render_item_text item) in
    let phase = to_lower (normalize_agent_message_phase item) in
    let is_agent = text_eq (item_type item) (codes "agentMessage") in
    let is_plan = text_eq (item_type item) (codes "plan") in
    let fallback =
      if is_agent then codes "agent" else if is_plan then codes "plan" else item_type item in
    let kind =
      if is_agent
      then codes "final_answer"
      else if is_plan
      then codes "thread_updated"
      else codes "tool_activity" in
    let id = string_value (value_at item (codes "id")) fallback in
    if is_empty text
      || (is_agent && not (is_empty phase) && not (text_eq phase (codes "final_answer")))
    then none
    else some
        (record (live_event n (turn_id ∷ id ∷ []) kind text [] turn_id) { item_id = item_id item })

module _ (lib : Encoding) where
  unfoldable pub live_plan_updated : Names → Fields → ObserverEvent
  unfolding value_at string_value trim_space fingerprint
  live_plan_updated n params =
      let turn_id = string_at params (codes "turnId") in
      let text = trim_space (
        string_value (value_at params (codes "text"))
          (string_value (value_at params (codes "plan")) (codes "Plan updated"))) in
      live_event n (turn_id ∷ codes "plan" ∷ fingerprint lib (text ∷ []) ∷ [])
        (codes "thread_updated") text [] turn_id

  unfoldable pub live_status_changed : Names → Fields → Option ObserverEvent
  unfolding value_at status_text status_has_flag waits_for_reply
  live_status_changed n params =
      let status = status_text lib (value_at params (codes "status")) in
      let event = λ (text : Text).
        live_event n (codes "status" ∷ status ∷ []) (codes "thread_updated") text status [] in
      if status_has_flag status (codes "waitingOnApproval")
      then some (record (event (codes "Thread is waiting for approval.")) { needs_approval = true })
      else if waits_for_reply status
      then some (record (event (codes "Thread is waiting for input.")) { needs_reply = true })
      else none

  -- `NormalizeLiveNotification`
  unfoldable pub normalize_live_notification : Event → Thread → Option ObserverEvent
  unfolding trim_space to_lower text_eq names_of live_turn_started live_turn_completed
      live_item_completed live_plan_updated live_status_changed
  normalize_live_notification event thread =
      let method = trim_space (to_lower event.method) in
      let n = names_of event thread in
      let params = event.params in
      if is_empty n.thread_id
      then none
      else if text_eq method (codes "turn/started")
      then some (live_turn_started n params)
      else if text_eq method (codes "turn/completed")
      then some (live_turn_completed n params)
      else if text_eq method (codes "turn/plan/updated")
      then some (live_plan_updated n params)
      else if text_eq method (codes "item/completed")
      then live_item_completed n params
      else if text_eq method (codes "thread/status/changed")
      then live_status_changed n params
      else none
