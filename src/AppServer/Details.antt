-- ===== src/AppServer/Details.antt =====
-- internal/appserver/normalize.go: the detail items of a turn, and those of a live tool.
use codex_feishu.Prelude.{ℕ, suc, ◌+◌, ◌-◌, Bool, ◌&&◌, List, [], ◌∷◌, ◌++◌, if◌then◌else◌, any}
pub mod Numbers
use codex_feishu.Prelude.Text.{Text, codes, text_eq, trim_space, is_empty, is_blank, equal_fold}
use codex_feishu.AppServer.Json.{Json, Fields, Encoding, as_map, string_at, fingerprint}
use codex_feishu.AppServer.Items.{
  user_message_text, plan_text, render_item_text, tool_label, tool_status, tool_output,
  normalize_agent_message_phase, is_context_compaction_phase,
}
use codex_feishu.AppServer.Snapshot.{
  DetailItem, ThreadReadSnapshot, detail_item_user, detail_item_final, detail_item_commentary,
  detail_item_plan, detail_item_tool, detail_item_output, detail_item_compaction,
}
use codex_feishu.AppServer.Collect.{item_type, item_id, is_tool_type}

abbrev pub no_item : DetailItem
no_item = record {
  id = [];
  kind = [];
  phase = [];
  text = [];
  label = [];
  tool_kind = [];
  status = [];
  output = [];
  fp = [];
  commentary_index = 0;
}

abbrev pub is_compaction_type : Text → Bool
is_compaction_type kind = any (text_eq kind) (
    codes "contextCompaction"
    ∷ codes "contextCompression"
    ∷ codes "compaction"
    ∷ codes "compact"
    ∷ [])

module _ (lib : Encoding) where
  -- The cases of `collectDetailItemsFromItems`: the items that a case appends, and
  -- `commentaryIndex` after it.
  unfoldable pub user_detail : Fields → ℕ → List DetailItem × ℕ
  unfolding trim_space user_message_text fingerprint
  user_detail item index =
      let text = trim_space (user_message_text item) in
      let fp = fingerprint lib (codes "detail" ∷ item_type item ∷ item_id item ∷ text ∷ []) in
      if is_empty text then ([], index) else (
        record no_item { id = item_id item; kind = detail_item_user; text = text; fp = fp } ∷ [],
        index,
      )

  -- The item of a message of the agent.
  unfoldable pub agent_item : Fields → Text → ℕ → DetailItem
  unfolding trim_space normalize_agent_message_phase fingerprint
  agent_item item kind index =
      let text = trim_space (string_at item (codes "text")) in
      let phase = normalize_agent_message_phase item in
      record no_item {
        id = item_id item;
        kind = kind;
        phase = phase;
        text = text;
        fp = fingerprint lib (codes "detail" ∷ item_type item ∷ item_id item ∷ phase ∷ text ∷ []);
        commentary_index = index;
      }

  unfoldable pub agent_detail : Fields → ℕ → List DetailItem × ℕ
  unfolding trim_space normalize_agent_message_phase is_context_compaction_phase equal_fold
      agent_item
  agent_detail item index =
      let text = trim_space (string_at item (codes "text")) in
      let phase = normalize_agent_message_phase item in
      if is_empty text
      then ([], index)
      else if is_context_compaction_phase phase
      then (agent_item item detail_item_compaction 0 ∷ [], index)
      else if equal_fold phase (codes "final_answer")
      then (agent_item item detail_item_final index ∷ [], index)
      else (agent_item item detail_item_commentary (suc index) ∷ [], suc index)

  unfoldable pub plan_detail : Fields → ℕ → List DetailItem × ℕ
  unfolding trim_space plan_text fingerprint
  plan_detail item index =
      let text = trim_space (plan_text item) in
      let fp = fingerprint lib (codes "detail" ∷ item_type item ∷ item_id item ∷ text ∷ []) in
      if is_empty text then ([], index) else (
        record no_item {
          id = item_id item;
          kind = detail_item_plan;
          phase = codes "plan";
          text = text;
          fp = fp;
          commentary_index = suc index;
        }
            ∷ [],
        suc index,
      )

  unfoldable pub compaction_detail : Fields → ℕ → List DetailItem × ℕ
  unfolding trim_space render_item_text fingerprint
  compaction_detail item index =
      let text = trim_space (render_item_text item) in
      let fp = fingerprint lib (codes "detail" ∷ item_type item ∷ item_id item ∷ text ∷ []) in
      (
        record no_item { id = item_id item; kind = detail_item_compaction; text = text; fp = fp }
            ∷ [],
        index,
      )

  unfoldable pub output_item : Fields → Text → ℕ → DetailItem
  unfolding fingerprint trim_space
  output_item item output index = record no_item {
    id = item_id item ++ codes ":output";
    kind = detail_item_output;
    output = output;
    fp = fingerprint lib (codes "detail-output" ∷ item_type item ∷ item_id item ∷ output ∷ []);
    commentary_index = index;
  }

  unfoldable pub output_detail : Fields → Text → ℕ → List DetailItem
  unfolding is_blank output_item
  output_detail item output index =
      if is_blank output then [] else output_item item output index ∷ []

  unfoldable pub tool_detail : Fields → Text → ℕ → List DetailItem × ℕ
  unfolding trim_space tool_label tool_status tool_output is_blank fingerprint output_detail
  tool_detail item turn_status index =
      let label = trim_space (tool_label item) in
      let status = trim_space (tool_status item turn_status) in
      let output = tool_output item in
      let fp =
        fingerprint lib (codes "detail" ∷ item_type item ∷ item_id item ∷ label ∷ status ∷ []) in
      if is_empty label && is_blank output then ([], index) else (
        record no_item {
          id = item_id item;
          kind = detail_item_tool;
          label = label;
          tool_kind = item_type item;
          status = status;
          fp = fp;
          commentary_index = index;
        }
            ∷ output_detail item output index,
        index,
      )

  -- One round of the loop of `collectDetailItemsFromItems`.
  unfoldable pub detail_step : Text → Json → ℕ → List DetailItem × ℕ
  unfolding text_eq user_detail agent_detail plan_detail compaction_detail tool_detail is_tool_type
  detail_step turn_status raw index =
      let item = as_map raw in
      let kind = item_type item in
      if text_eq kind (codes "userMessage")
      then user_detail item index
      else if text_eq kind (codes "agentMessage")
      then agent_detail item index
      else if text_eq kind (codes "plan")
      then plan_detail item index
      else if is_compaction_type kind
      then compaction_detail item index
      else if is_tool_type kind
      then tool_detail item turn_status index
      else ([], index)

  -- The loop of `collectDetailItemsFromItems`, from a value of `commentaryIndex`.
  unfoldable pub detail_items_from : Text → ℕ → List Json → List DetailItem
  unfolding detail_step
  detail_items_from turn_status index [] = []
  detail_items_from turn_status index (raw ∷ rest) =
      let r = detail_step turn_status raw index in r.0 ++ detail_items_from turn_status r.1 rest

  -- `collectDetailItemsFromItems`
  unfoldable pub collect_detail_items_from_items : List Json → Text → List DetailItem
  unfolding detail_items_from
  collect_detail_items_from_items items turn_status = detail_items_from turn_status 0 items

  -- `liveToolDetailItems`
  unfoldable pub live_tool_detail_items : ThreadReadSnapshot → List DetailItem
  unfolding is_blank trim_space fingerprint
  live_tool_detail_items s =
      let output = trim_space s.latest_tool_output in
      let output_item = record no_item {
        id = s.latest_tool_id ++ codes ":output";
        kind = detail_item_output;
        output = output;
        fp = fingerprint lib (codes "live-tool-output" ∷ s.latest_tool_id ∷ output ∷ []);
      } in
      if is_blank s.latest_tool_fp
      then []
      else record no_item {
        id = s.latest_tool_id;
        kind = detail_item_tool;
        label = s.latest_tool_label;
        tool_kind = s.latest_tool_kind;
        status = s.latest_tool_status;
        fp = s.latest_tool_fp;
      }
        ∷ (if is_empty output then [] else output_item ∷ [])
