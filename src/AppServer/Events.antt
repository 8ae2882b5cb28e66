-- ===== src/AppServer/Events.antt =====
-- internal/control/control.go and events.go: the events of a control plane. internal/appserver/
-- live_event.go: the readers of their payloads.
use codex_feishu.Prelude.{
  Bool, true, false, not, ◌||◌, Option, none, some, List, [], ◌∷◌, map, if◌then◌else◌, select,
}
use codex_feishu.Prelude.Text.{Text, codes, text_eq, trim_space, is_empty, to_lower, contains}
use codex_feishu.Prelude.Text.Split.{split_on, has_suffix, join}
use codex_feishu.AppServer.Json.{
  Json, null, array, object, Fields, Encoding, value_at, elements, as_map, string_value, string_at,
  printed_value,
}

-- `control.Event`; an absent id is null.
pub record Event : Type 0 where
  pub channel : Text
  pub method : Text
  pub params : Fields
  pub id : Json

-- `control.EventKind`; `unset` is the empty one.
pub data EventKind : Type 0 where
  unset turn_started turn_completed thread_status tool_started tool_updated : EventKind
  tool_completed agent_message approval_request input_request : EventKind
  legacy_task_started legacy_task_complete : EventKind

-- `control.NormalizedEvent`
pub record NormalizedEvent : Type 0 where
  pub kind : EventKind
  pub method : Text
  pub thread_id : Text
  pub thread_title : Text
  pub project_name : Text
  pub turn_id : Text
  pub turn_status : Text
  pub item_id : Text
  pub item_kind : Text
  pub label : Text
  pub status : Text
  pub output : Text
  pub text : Text
  pub phase : Text
  pub request_id : Text
  pub raw : Event

unfoldable pub is_tool_kind : EventKind → Bool
is_tool_kind tool_started = true
is_tool_kind tool_updated = true
is_tool_kind tool_completed = true
is_tool_kind kind = false

unfoldable pub is_completed_kind : EventKind → Bool
is_completed_kind tool_completed = true
is_completed_kind kind = false

abbrev pub given_if : Bool → NormalizedEvent → Option NormalizedEvent
given_if b e = if b then some e else none

-- `nestedTurnID`
unfoldable pub nested_turn_id : Fields → Text
unfolding as_map value_at string_value
nested_turn_id payload = string_at (as_map (value_at payload (codes "turn"))) (codes "id")

-- `nestedPayloadValue`, by the parts of the key.
unfoldable pub nested_payload_value : Json → List Text → Json
unfolding value_at
nested_payload_value current [] = current
nested_payload_value (object fs) (part ∷ parts) = nested_payload_value (value_at fs part) parts
nested_payload_value current (part ∷ parts) = null

abbrev or_else : Json → Json → Json
or_else null next = next
or_else v next = v

-- `firstPayload`
unfoldable pub first_payload : Fields → List Text → Json
unfolding nested_payload_value split_on
first_payload payload [] = null
first_payload payload (key ∷ keys) =
    or_else (nested_payload_value (object payload) (split_on b'.' key)) (first_payload payload keys)

module _ (lib : Encoding) where
  -- One part of a command in `legacyCommandLabel`; empty where it is left out.
  unfoldable pub command_part : Json → Text
  unfolding trim_space printed_value text_eq
  command_part v =
      let text = trim_space (printed_value lib v) in
      if text_eq text (codes "<nil>") then [] else text

  -- `legacyCommandLabel`
  unfoldable pub legacy_command_label : Json → Text
  unfolding command_part elements join trim_space string_value
  legacy_command_label (array parts) =
      join (codes " ") (select (λ part. not (is_empty part)) (map command_part (elements parts)))
  legacy_command_label v = trim_space (string_value v [])

-- `isApprovalRequestMethod`
unfoldable pub is_approval_request_method : Text → Bool
unfolding to_lower trim_space has_suffix text_eq
is_approval_request_method given =
    let method = to_lower (trim_space given) in
    has_suffix method (codes "requestapproval")
    || text_eq method (codes "applypatchapproval")
    || text_eq method (codes "execcommandapproval")

-- `isPermissionsApprovalRequestMethod`
unfoldable pub is_permissions_approval_request_method : Text → Bool
unfolding to_lower trim_space contains
is_permissions_approval_request_method given =
    contains (to_lower (trim_space given)) (codes "permissions/requestapproval")
