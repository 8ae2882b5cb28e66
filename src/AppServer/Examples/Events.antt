-- ===== src/AppServer/Examples/Events.antt =====
-- The theorems on notifications and requests at concrete ones.
use codex_feishu.Prelude.{◌≡◌, refl, true, none, some, []}
use codex_feishu.Prelude.Text.{codes, text_eq}
use codex_feishu.AppServer.Json.{pos, null, number, end, field, object_of}
use codex_feishu.AppServer.Snapshot.{ThreadReadSnapshot}
use codex_feishu.AppServer.ReadSnapshot.{no_thread, no_snapshot}
use codex_feishu.AppServer.Events.{Event}
use codex_feishu.AppServer.ToolSnapshot.{tool_snapshot_from_live_notification}
use codex_feishu.AppServer.ToolSnapshot.Live.{
  is_tool_report, tool_snapshot_from_live_notification-is_tool_report,
}
use codex_feishu.AppServer.Requests.{pending_approval_from_server_request}
use codex_feishu.AppServer.Requests.Known.{
  ids_are_whole, IsKnown, pending_approval_from_server_request-IsKnown,
}
use codex_feishu.AppServer.Examples.{lib, text_field, command}
use codex_feishu.Storage.Approvals.{PendingApproval}

abbrev request : Event
request = record {
  channel = codes "server_request";
  method = codes "item/commandExecution/requestApproval";
  params = text_field "threadId" "t1" end;
  id =
      number (record {
        truncated = pos 17;
        is_positive = true;
        is_nonzero = true;
        printed = codes "17";
      });
}

abbrev approval : PendingApproval
approval = record {
  request_id = codes "17";
  thread_id = codes "t1";
  turn_id = [];
  item_id = [];
  prompt_kind = codes "approval";
  question = codes "Approval required.";
  status = codes "pending";
  chat_message_id = 0;
  payload_json = codes "{}";
  updated_at = codes "now";
}

whole : ids_are_whole request ≡ true
unfolding ids_are_whole text_eq
whole = refl

approved : pending_approval_from_server_request request (codes "now") (codes "{}") ≡ some approval
unfolding pending_approval_from_server_request object_of
approved = refl

pending_approval_from_server_request-IsKnown_example : IsKnown request approval
pending_approval_from_server_request-IsKnown_example =
    pending_approval_from_server_request-IsKnown request (codes "now") (codes "{}") approval whole
      approved

abbrev started : Event
started = record {
  channel = codes "notification";
  method = codes "item/started";
  params = text_field "threadId" "t1" (text_field "turnId" "u1" (field (codes "item") command end));
  id = null;
}

abbrev shown : ThreadReadSnapshot
unfolding tool_snapshot_from_live_notification
shown = elim (tool_snapshot_from_live_notification lib started no_thread) [
  | none ↦ no_snapshot
  | some s ↦ s
]

made : tool_snapshot_from_live_notification lib started no_thread ≡ some shown
unfolding tool_snapshot_from_live_notification
made = refl

tool_snapshot_from_live_notification-is_tool_report_example : is_tool_report shown ≡ true
tool_snapshot_from_live_notification-is_tool_report_example =
    tool_snapshot_from_live_notification-is_tool_report lib started no_thread shown made
