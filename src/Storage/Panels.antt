-- ===== src/Storage/Panels.antt =====
-- internal/storage/store_panels.go, the table `thread_panels`: the cards that show a Codex thread in
-- a chat. An identifier of SQLite or Feishu is a number.
pub mod Ops
pub mod Current
pub mod Reads
pub mod Supersede
use mathlib.Core.Option
use codex_feishu.Prelude.{
  ℕ, ◌+◌, Bool, true, false, not, ◌&&◌, ◌||◌, Option, List, [], ◌∷◌, ◌++◌, map, ltb, ◌==◌,
  if◌then◌else◌, select, first, any, update_where,
}
use codex_feishu.Prelude.Text.{Text, codes, text_eq, trim_space, is_empty, is_blank}
use codex_feishu.Storage.Rows.{nullable, text_ltb, top}

-- `model.ThreadPanel`
pub record ThreadPanel : Type 0 where
  pub id : ℕ
  pub chat_id : ℕ
  pub topic_id : ℕ
  pub project_name : Text
  pub thread_id : Text
  pub source_mode : Text
  pub summary_message_id : ℕ
  pub tool_message_id : ℕ
  pub output_message_id : ℕ
  pub current_turn_id : Text
  pub status : Text
  pub archive_enabled : Bool
  pub last_summary_hash : Text
  pub last_tool_hash : Text
  pub last_output_hash : Text
  pub last_final_notice_fp : Text
  pub user_message_id : ℕ
  pub last_user_notice_fp : Text
  pub plan_prompt_message_id : ℕ
  pub last_plan_prompt_fp : Text
  pub details_view_json : Text
  pub last_final_card_hash : Text
  pub is_current : Bool
  pub created_at : Text
  pub updated_at : Text

-- The rows in the order of their keys, and the counter behind AUTOINCREMENT.
pub record PanelTable : Type 0 where
  pub rows : List ThreadPanel
  pub last_id : ℕ

abbrev pub panel_source_explicit : Text
panel_source_explicit = codes "explicit"

-- `chat_id = ? AND topic_id = ? AND thread_id = ? AND is_current = 1`
unfoldable pub is_current_in : ℕ → ℕ → Text → ThreadPanel → Bool
is_current_in chat topic thread p =
    p.chat_id == chat && p.topic_id == topic && text_eq p.thread_id thread && p.is_current

abbrev pub retire : Text → ThreadPanel → ThreadPanel
retire now p = record p { is_current = false; updated_at = now }

abbrev pub with_source : ThreadPanel → ThreadPanel
with_source p = record p {
  source_mode = if is_blank p.source_mode then panel_source_explicit else p.source_mode;
}

-- The row that the INSERT writes.
unfoldable pub new_row : ℕ → Text → ThreadPanel → ThreadPanel
unfolding nullable
new_row id now p = record p {
  id = id;
  source_mode = nullable p.source_mode;
  current_turn_id = nullable p.current_turn_id;
  status = nullable p.status;
  last_summary_hash = nullable p.last_summary_hash;
  last_tool_hash = nullable p.last_tool_hash;
  last_output_hash = nullable p.last_output_hash;
  last_final_notice_fp = nullable p.last_final_notice_fp;
  last_user_notice_fp = nullable p.last_user_notice_fp;
  last_plan_prompt_fp = nullable p.last_plan_prompt_fp;
  details_view_json = nullable p.details_view_json;
  last_final_card_hash = nullable p.last_final_card_hash;
  is_current = true;
  created_at = now;
  updated_at = now;
}

-- `CreateThreadPanel`: one transaction, and the panel that it returns.
unfoldable pub create_thread_panel : Text → ThreadPanel → PanelTable → ThreadPanel × PanelTable
unfolding new_row
create_thread_panel now given t =
    let p = with_source given in
    let id = t.last_id + 1 in
    let rest = update_where (is_current_in p.chat_id p.topic_id p.thread_id) (retire now) t.rows in
    (
      record p { id = id; is_current = true; created_at = now; updated_at = now },
      record { rows = rest ++ new_row id now p ∷ []; last_id = id },
    )

-- `scanThreadPanel`
unfoldable pub scan_thread_panel : ThreadPanel → ThreadPanel
scan_thread_panel = with_source

-- `GetCurrentThreadPanel`
unfoldable pub get_current_thread_panel : ℕ → ℕ → Text → PanelTable → Option ThreadPanel
unfolding scan_thread_panel top
get_current_thread_panel chat topic thread t =
    Option.map scan_thread_panel
      (top (λ (p q : ThreadPanel). ltb q.id p.id) (select (is_current_in chat topic thread) t.rows))

-- The rank by the join with `threads`: `active` is `active_turn_id` of a thread, empty if there is none.
abbrev pub rank : (Text → Text) → ThreadPanel → ℕ
rank active p =
    let turn = active p.thread_id in
    if not (is_empty turn) && text_eq p.current_turn_id turn then 0 else 1

unfoldable pub latest_before : (Text → Text) → ThreadPanel → ThreadPanel → Bool
unfolding text_ltb
latest_before active p q =
    if rank active p == rank active q
    then text_ltb q.updated_at p.updated_at || (text_eq p.updated_at q.updated_at && ltb q.id p.id)
    else ltb (rank active p) (rank active q)

-- `GetLatestCurrentPanelForChat`
unfoldable pub get_latest_current_panel_for_chat :
    (Text → Text) → ℕ → ℕ → PanelTable → Option ThreadPanel
unfolding latest_before scan_thread_panel top
get_latest_current_panel_for_chat active chat topic t = Option.map scan_thread_panel (
    top (latest_before active)
      (select (λ p. p.chat_id == chat && p.topic_id == topic && p.is_current) t.rows))

-- `ListCurrentPanelsForThread`: the rows stand in the order of their ids.
unfoldable pub list_current_panels_for_thread : Text → PanelTable → List ThreadPanel
unfolding scan_thread_panel
list_current_panels_for_thread thread t =
    map scan_thread_panel (select (λ p. text_eq p.thread_id thread && p.is_current) t.rows)

abbrev pub update_rows :
    (ThreadPanel → Bool) → (ThreadPanel → ThreadPanel) → PanelTable → PanelTable
update_rows p f t = record t { rows = update_where p f t.rows }

-- `SupersedeCurrentThreadPanelsExcept`
unfoldable pub supersede_current_thread_panels_except :
    Text → Text → ℕ → ℕ → PanelTable → PanelTable
supersede_current_thread_panels_except now thread keep_chat keep_topic =
    update_rows
      (λ p.
        text_eq p.thread_id (trim_space thread)
        && p.is_current
        && not (p.chat_id == keep_chat && p.topic_id == keep_topic))
      (retire now)

abbrev pub has_id : ℕ → ThreadPanel → Bool
has_id id p = p.id == id

-- `SupersedeThreadPanel`
unfoldable pub supersede_thread_panel : Text → ℕ → PanelTable → PanelTable
supersede_thread_panel now id = update_rows (has_id id) (retire now)

-- `UpdateThreadPanelMessages`
unfoldable pub update_thread_panel_messages : Text → ℕ → ℕ → ℕ → ℕ → PanelTable → PanelTable
update_thread_panel_messages now id summary tool output = update_rows (has_id id) (λ p. record p {
  summary_message_id = summary;
  tool_message_id = tool;
  output_message_id = output;
  updated_at = now;
})

-- `UpdateThreadPanelSourceMode`: the column takes no NULL, so the statement fails on a blank mode if
-- it meets a row; `false` is an error.
unfoldable pub update_thread_panel_source_mode : Text → ℕ → Text → PanelTable → Bool × PanelTable
update_thread_panel_source_mode now id mode t =
    if is_blank mode && any (has_id id) t.rows
    then (false, t)
    else (true, update_rows (has_id id) (λ p. record p { source_mode = mode; updated_at = now }) t)

-- The six texts that `UpdateThreadPanelState` writes.
pub record PanelState : Type 0 where
  pub current_turn_id : Text
  pub status : Text
  pub last_summary_hash : Text
  pub last_tool_hash : Text
  pub last_output_hash : Text
  pub last_final_notice_fp : Text

abbrev pub with_state : Text → PanelState → ThreadPanel → ThreadPanel
with_state now s p = record p {
  current_turn_id = nullable s.current_turn_id;
  status = nullable s.status;
  last_summary_hash = nullable s.last_summary_hash;
  last_tool_hash = nullable s.last_tool_hash;
  last_output_hash = nullable s.last_output_hash;
  last_final_notice_fp = nullable s.last_final_notice_fp;
  updated_at = now;
}

-- `UpdateThreadPanelState`
unfoldable pub update_thread_panel_state : Text → ℕ → PanelState → PanelTable → PanelTable
update_thread_panel_state now id s = update_rows (has_id id) (with_state now s)

-- `UpdateThreadPanelFinalCard`
unfoldable pub update_thread_panel_final_card :
    Text → ℕ → ℕ → PanelState → Text → Text → PanelTable → PanelTable
update_thread_panel_final_card now id summary s view hash = update_rows (has_id id) (λ p.
    record (with_state now s p) {
      summary_message_id = summary;
      details_view_json = nullable view;
      last_final_card_hash = nullable hash;
    })

-- `UpdateThreadPanelUserNotice`
unfoldable pub update_thread_panel_user_notice : Text → ℕ → ℕ → Text → PanelTable → PanelTable
update_thread_panel_user_notice now id message fp = update_rows (has_id id) (λ p. record p {
  user_message_id = message;
  last_user_notice_fp = nullable fp;
  updated_at = now;
})

-- `UpdateThreadPanelPlanPrompt`
unfoldable pub update_thread_panel_plan_prompt : Text → ℕ → ℕ → Text → PanelTable → PanelTable
update_thread_panel_plan_prompt now id message fp = update_rows (has_id id) (λ p. record p {
  plan_prompt_message_id = message;
  last_plan_prompt_fp = nullable fp;
  updated_at = now;
})

-- `UpdateThreadPanelDetails`
unfoldable pub update_thread_panel_details : Text → ℕ → Text → Text → PanelTable → PanelTable
update_thread_panel_details now id view hash = update_rows (has_id id) (λ p. record p {
  details_view_json = nullable view;
  last_final_card_hash = nullable hash;
  updated_at = now;
})

-- `GetThreadPanelByID`
unfoldable pub get_thread_panel_by_id : ℕ → PanelTable → Option ThreadPanel
unfolding scan_thread_panel
get_thread_panel_by_id id t = Option.map scan_thread_panel (first (has_id id) t.rows)
