-- ===== src/AppServer/Requests.antt =====
-- internal/appserver/normalize.go: `PendingApprovalFromServerRequest`.
use codex_feishu.Prelude.{suc, ◌-◌, ◌<◌, not, ◌||◌, Option, none, some, [], ◌∷◌, if◌then◌else◌, any}
pub mod Known
use codex_feishu.Prelude.Text.{Text, codes, text_eq, trim_space, is_empty, to_lower, contains}
use codex_feishu.AppServer.Json.{ℤ, pos, negsuc, Json, number, string, value_at, string_value, nil}
use codex_feishu.AppServer.Payload.{
  first_value, nested_thread_id, server_request_turn_id, server_request_item_id,
}
use codex_feishu.AppServer.Prompt.{request_user_input_question}
use codex_feishu.AppServer.Events.{
  Event, is_approval_request_method, is_permissions_approval_request_method,
}
use codex_feishu.AppServer.Compact.{decimal}
use codex_feishu.Storage.Approvals.{PendingApproval}

-- `int64(typed)` as a decimal; it is not negative where the code converts.
abbrev pub decimal_of : ℤ → Text
decimal_of (pos n) = decimal n
decimal_of (negsuc n) = b'-' ∷ decimal (suc n)

-- `cleanRequestID`, at the types that encoding/json gives.
unfoldable pub clean_request_id : Json → Text
unfolding trim_space text_eq decimal
clean_request_id (string t) =
    let trimmed = trim_space t in
    if any (text_eq trimmed) ([] ∷ codes "0" ∷ codes "0.0" ∷ codes "<nil>" ∷ [])
    then []
    else trimmed
clean_request_id (number x) = if x.is_positive then decimal_of x.truncated else []
clean_request_id v = []

-- `approvalRequestID`
unfoldable pub approval_request_id : Event → Text
unfolding first_value clean_request_id value_at
approval_request_id event =
    first_value (
      clean_request_id event.id ∷ clean_request_id (value_at event.params (codes "requestId")) ∷ [])

-- The fields that every request has, before its kind and question.
abbrev request_of : Event → Text → Text → PendingApproval
request_of event now payload_json = record {
  request_id = approval_request_id event;
  thread_id = nested_thread_id event.params;
  turn_id = server_request_turn_id event.params;
  item_id = server_request_item_id event.params;
  prompt_kind = [];
  question = [];
  status = codes "pending";
  chat_message_id = 0;
  payload_json = payload_json;
  updated_at = now;
}

-- `promptKind`
unfoldable pub prompt_kind_of : Text → Text
unfolding is_permissions_approval_request_method
prompt_kind_of method =
    if is_permissions_approval_request_method method
    then codes "permissions_approval"
    else codes "approval"

-- `PendingApprovalFromServerRequest`, given the time and the parameters as JSON.
unfoldable pub pending_approval_from_server_request : Event → Text → Text → Option PendingApproval
unfolding text_eq to_lower trim_space approval_request_id nested_thread_id server_request_turn_id
    server_request_item_id is_approval_request_method prompt_kind_of contains string_value value_at
    request_user_input_question
pending_approval_from_server_request event now payload_json =
    let method = to_lower (trim_space event.method) in
    let params = event.params in
    let question = string_value (value_at params (codes "question")) (codes "Approval required.") in
    let approval = record (request_of event now payload_json) {
      prompt_kind = prompt_kind_of method;
      question = question;
    } in
    let input = record (request_of event now payload_json) {
      prompt_kind = codes "user_input";
      question = request_user_input_question params;
    } in
    if not (text_eq event.channel (codes "server_request")) || is_empty (approval_request_id event)
    then none
    else if is_approval_request_method method
    then some approval
    else if contains method (codes "requestuserinput")
    then some input
    else none
