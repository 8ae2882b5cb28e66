-- ===== src/AppServer/Snapshot.antt =====
-- internal/appserver/normalize.go and internal/model/types.go: the snapshot of a thread, as the
-- daemon reads it.
use codex_feishu.Prelude.{ℕ, Bool, Option, List}
use codex_feishu.Prelude.Text.{Text, codes}

-- `model.Thread`; its JSON is a text.
pub record Thread : Type 0 where
  pub id : Text
  pub title : Text
  pub cwd : Text
  pub project_name : Text
  pub directory_name : Text
  pub updated_at : ℕ
  pub status : Text
  pub last_preview : Text
  pub active_turn_id : Text
  pub preferred_model : Text
  pub permissions_mode : Text
  pub archived : Bool
  pub listed : Bool
  pub raw : Text

-- `appserver.AgentMessageEntry`
pub record AgentMessageEntry : Type 0 where
  pub id : Text
  pub phase : Text
  pub text : Text
  pub fp : Text

-- `model.DetailItem`
pub record DetailItem : Type 0 where
  pub id : Text
  pub kind : Text
  pub phase : Text
  pub text : Text
  pub label : Text
  pub tool_kind : Text
  pub status : Text
  pub output : Text
  pub fp : Text
  pub commentary_index : ℕ

-- `model.PlanPrompt`
pub record PlanPrompt : Type 0 where
  pub prompt_id : Text
  pub source : Text
  pub thread_id : Text
  pub turn_id : Text
  pub item_id : Text
  pub request_id : Text
  pub question : Text
  pub options : List Text
  pub fingerprint : Text
  pub status : Text

-- `appserver.CompletedTurnMessage`
pub record CompletedTurnMessage : Type 0 where
  pub turn_id : Text
  pub user_item_id : Text
  pub user_text : Text
  pub final_text : Text

-- `appserver.ThreadReadSnapshot`; its raw JSON is a text.
pub record ThreadReadSnapshot : Type 0 where
  pub thread : Thread
  pub latest_turn_id : Text
  pub latest_turn_status : Text
  pub latest_turn_started_at : Text
  pub latest_turn_updated_at : Text
  pub waiting_on_approval : Bool
  pub waiting_on_reply : Bool
  pub latest_agent_messages : List Text
  pub latest_agent_message_entries : List AgentMessageEntry
  pub latest_progress_fp : Text
  pub latest_progress_text : Text
  pub latest_user_message_id : Text
  pub latest_user_message_text : Text
  pub latest_user_message_image_path : Text
  pub latest_user_message_fp : Text
  pub latest_final_fp : Text
  pub latest_final_text : Text
  pub latest_tool_id : Text
  pub latest_tool_kind : Text
  pub latest_tool_label : Text
  pub latest_tool_status : Text
  pub latest_tool_output : Text
  pub latest_tool_fp : Text
  pub latest_tool_live_current : Bool
  pub latest_tool_started_at : Text
  pub latest_tool_updated_at : Text
  pub plan_prompt : Option PlanPrompt
  pub detail_items : List DetailItem
  pub recent_turns : List CompletedTurnMessage
  pub compact_thread_raw : Text

-- `model.TimeString`, by what `parseTime` makes of it.
pub data TimeString : Type 0 where
  blank invalid : TimeString
  at : ℕ → TimeString

-- `parseTime`
unfoldable pub parse_time : TimeString → ℕ
parse_time blank = 0
parse_time invalid = 0
parse_time (at t) = t

-- `model.ThreadSnapshotState`; its JSON field is a text.
pub record ThreadSnapshotState : Type 0 where
  pub thread_updated_at : ℕ
  pub last_seen_thread_status : Text
  pub last_seen_turn_id : Text
  pub last_seen_turn_status : Text
  pub last_progress_fp : Text
  pub last_progress_sent_at : TimeString
  pub last_final_fp : Text
  pub last_completion_fp : Text
  pub last_approval_fp : Text
  pub last_reply_fp : Text
  pub last_final_notice_fp : Text
  pub last_tool_document_fp : Text
  pub last_rich_live_event_at : TimeString
  pub last_poll_at : TimeString
  pub next_poll_after : TimeString
  pub compact_json : Text

-- `model.ObserverEvent`
pub record ObserverEvent : Type 0 where
  pub event_id : Text
  pub kind : Text
  pub thread_id : Text
  pub project_name : Text
  pub thread_title : Text
  pub text : Text
  pub status : Text
  pub turn_id : Text
  pub item_id : Text
  pub request_id : Text
  pub needs_reply : Bool
  pub needs_approval : Bool

-- `model.DetailItemUser` to `model.DetailItemFinal`
abbrev pub detail_item_user : Text
detail_item_user = codes "user"

abbrev pub detail_item_final : Text
detail_item_final = codes "final"

abbrev pub detail_item_commentary : Text
detail_item_commentary = codes "commentary"

abbrev pub detail_item_plan : Text
detail_item_plan = codes "plan"

abbrev pub detail_item_tool : Text
detail_item_tool = codes "tool"

abbrev pub detail_item_output : Text
detail_item_output = codes "output"

abbrev pub detail_item_compaction : Text
detail_item_compaction = codes "compaction"
