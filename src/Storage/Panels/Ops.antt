-- ===== src/Storage/Panels/Ops.antt =====
-- The statements that write `thread_panels`, as one step each.
use codex_feishu.Prelude.{ℕ, List, [], ◌∷◌}
use codex_feishu.Prelude.Text.{Text}
use codex_feishu.Storage.Panels.{
  ThreadPanel, PanelTable, create_thread_panel, supersede_current_thread_panels_except,
  supersede_thread_panel, update_thread_panel_messages, update_thread_panel_source_mode, PanelState,
  update_thread_panel_state, update_thread_panel_final_card, update_thread_panel_user_notice,
  update_thread_panel_plan_prompt, update_thread_panel_details,
}

pub data Op : Type 0 where
  create : Text → ThreadPanel → Op
  supersede_except : Text → Text → ℕ → ℕ → Op
  supersede : Text → ℕ → Op
  set_messages : Text → ℕ → ℕ → ℕ → ℕ → Op
  set_source_mode : Text → ℕ → Text → Op
  set_state : Text → ℕ → PanelState → Op
  set_final_card : Text → ℕ → ℕ → PanelState → Text → Text → Op
  set_user_notice : Text → ℕ → ℕ → Text → Op
  set_plan_prompt : Text → ℕ → ℕ → Text → Op
  set_details : Text → ℕ → Text → Text → Op

unfoldable pub apply : Op → PanelTable → PanelTable
apply (create now p) t = (create_thread_panel now p t).1
apply (supersede_except now thread chat topic) t =
    supersede_current_thread_panels_except now thread chat topic t
apply (supersede now id) t = supersede_thread_panel now id t
apply (set_messages now id summary tool output) t =
    update_thread_panel_messages now id summary tool output t
apply (set_source_mode now id mode) t = (update_thread_panel_source_mode now id mode t).1
apply (set_state now id s) t = update_thread_panel_state now id s t
apply (set_final_card now id summary s view hash) t =
    update_thread_panel_final_card now id summary s view hash t
apply (set_user_notice now id message fp) t = update_thread_panel_user_notice now id message fp t
apply (set_plan_prompt now id message fp) t = update_thread_panel_plan_prompt now id message fp t
apply (set_details now id view hash) t = update_thread_panel_details now id view hash t

unfoldable pub run : List Op → PanelTable → PanelTable
run [] t = t
run (op ∷ ops) t = run ops (apply op t)

abbrev pub empty : PanelTable
empty = record { rows = []; last_id = 0 }
