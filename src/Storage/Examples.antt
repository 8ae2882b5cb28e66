-- ===== src/Storage/Examples.antt =====
-- The tables of the store on small contents.
use codex_feishu.Prelude.{
  ◌+◌, ◌-◌, ◌≤◌, ◌≡◌, refl, false, Option, some, List, [], ◌∷◌, if◌then◌else◌, select,
}
mod Maps
mod Ids
use codex_feishu.Storage.Panels.Supersede.{in_slot, supersede_except-list_current}
use codex_feishu.Storage.Approvals.{PendingApproval}
use mathlib.Core.Option
use codex_feishu.Prelude.Text.{Text, codes, text_eq, trim_space}
use codex_feishu.Storage.Panels.{
  ThreadPanel, PanelTable, is_current_in, create_thread_panel, get_current_thread_panel,
  list_current_panels_for_thread, supersede_current_thread_panels_except,
}
use codex_feishu.Storage.Panels.Ops
use codex_feishu.Storage.Panels.Current
use codex_feishu.Storage.Panels.Reads.{read_back, create_thread_panel-get_current}
use codex_feishu.Storage.Delivery.{
  DeliveryQueueItem, status_pending, enqueue_delivery, claim_delivery_batch, complete_delivery,
  fail_delivery,
}
use codex_feishu.Storage.Delivery.Runs
use codex_feishu.Storage.Delivery.Claims.{claimed_once}
use codex_feishu.Storage.Delivery.Targets.{is_for, enqueued_once}

abbrev panel : ThreadPanel
panel = record {
  id = 0;
  chat_id = 7;
  topic_id = 0;
  project_name = codes "p";
  thread_id = codes "t";
  source_mode = [];
  summary_message_id = 11;
  tool_message_id = 12;
  output_message_id = 13;
  current_turn_id = codes " ";
  status = codes "inProgress";
  archive_enabled = false;
  last_summary_hash = [];
  last_tool_hash = [];
  last_output_hash = [];
  last_final_notice_fp = [];
  user_message_id = 0;
  last_user_notice_fp = [];
  plan_prompt_message_id = 0;
  last_plan_prompt_fp = [];
  details_view_json = [];
  last_final_card_hash = [];
  is_current = false;
  created_at = [];
  updated_at = [];
}

abbrev panel_ops : List Ops.Op
panel_ops =
    Ops.create (codes "2026-01-01T00:00:00Z") panel
    ∷ Ops.create (codes "2026-01-01T00:00:01Z") panel
    ∷ Ops.supersede (codes "2026-01-01T00:00:02Z") 2
    ∷ Ops.create (codes "2026-01-01T00:00:03Z") panel
    ∷ []

run-IsSound_example : Current.IsSound (Ops.run panel_ops Ops.empty)
run-IsSound_example = Current.run-IsSound panel_ops

abbrev one_panel : PanelTable
one_panel = Ops.run (Ops.create (codes "2026-01-01T00:00:00Z") panel ∷ []) Ops.empty

create_thread_panel-get_current_example :
    let (q, t') = create_thread_panel (codes "2026-01-01T00:00:01Z") panel one_panel in
    get_current_thread_panel 7 0 (codes "t") t' ≡ (
      if is_current_in 7 0 (codes "t") q
      then some (read_back q)
      else get_current_thread_panel 7 0 (codes "t") one_panel)
create_thread_panel-get_current_example =
    create_thread_panel-get_current (codes "2026-01-01T00:00:01Z") panel one_panel 7 0 (codes "t")

abbrev item : DeliveryQueueItem
item = record {
  id = 0;
  event_id = codes "e";
  chat_key = codes "c";
  chat_id = 7;
  topic_id = 0;
  thread_id = codes "t";
  kind = codes "text";
  status = status_pending;
  retry_count = 0;
  available_at = codes "2026-01-01T00:00:00Z";
  last_error = [];
  payload_json = codes "{}";
  created_at = [];
  updated_at = [];
}

abbrev claim_now : Runs.Op
claim_now =
    Runs.claim (codes "2026-01-01T00:00:01Z") (λ id. codes "2026-01-01T00:00:02Z") (λ id. false) 0

abbrev delivery_ops : List Runs.Op
delivery_ops =
    Runs.enqueue (codes "2026-01-01T00:00:00Z") item
    ∷ claim_now
    ∷ claim_now
    ∷ Runs.fail (codes "2026-01-01T00:00:03Z") 1 1 (codes "2026-01-01T00:00:00Z") (codes "timeout")
        false
    ∷ claim_now
    ∷ Runs.complete (codes "2026-01-01T00:00:04Z") 1
    ∷ claim_now
    ∷ []

-- The item is handed out twice in this run, which retries it once.
claims-delivery_ops :
    (Runs.claims 1 delivery_ops Runs.empty ≡ 2) × (Runs.retries 1 delivery_ops ≡ 1)
unfolding Runs.claims Runs.handed claim_delivery_batch Runs.apply enqueue_delivery text_eq
    fail_delivery complete_delivery Runs.retries Runs.retried
claims-delivery_ops = (refl, refl)

claimed_once_example : Runs.claims 1 delivery_ops Runs.empty ≤ 1 + Runs.retries 1 delivery_ops
claimed_once_example = claimed_once 1 delivery_ops

enqueued_once_example :
    let q = Runs.run delivery_ops Runs.empty in
    (Runs.count (is_for (codes "e") (codes "c")) q.rows ≤ 1)
    × (enqueue_delivery
          (codes "2026-01-01T00:00:06Z")
          item
          (enqueue_delivery (codes "2026-01-01T00:00:05Z") item q)
        ≡ enqueue_delivery (codes "2026-01-01T00:00:05Z") item q)
enqueued_once_example =
    enqueued_once delivery_ops (codes "e") (codes "c") (codes "2026-01-01T00:00:05Z")
      (codes "2026-01-01T00:00:06Z") item item

abbrev one_key : List (Text × Text)
one_key = (codes "seen.1", codes "a") ∷ []

supersede_except-list_current_example :
    list_current_panels_for_thread (codes "t") (
      supersede_current_thread_panels_except
        (codes "2026-01-01T00:00:01Z")
        (codes " t")
        8
        0
        one_panel)
    ≡ (if text_eq (trim_space (codes " t")) (codes "t")
        then select (in_slot 8 0) (list_current_panels_for_thread (codes "t") one_panel)
        else list_current_panels_for_thread (codes "t") one_panel)
supersede_except-list_current_example =
    supersede_except-list_current (codes "2026-01-01T00:00:01Z") (codes " t") (codes "t") 8 0
      one_panel

abbrev approval : PendingApproval
approval = record {
  request_id = codes "r";
  thread_id = codes "t";
  turn_id = codes "u";
  item_id = [];
  prompt_kind = codes "command";
  question = codes "run it?";
  status = codes "pending";
  chat_message_id = 0;
  payload_json = codes "{}";
  updated_at = codes "2026-01-01T00:00:00Z";
}

abbrev asked : List PendingApproval
asked = record approval { chat_message_id = 42 } ∷ []
