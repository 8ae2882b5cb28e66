-- ===== src/Storage/Panels/Supersede.antt =====
-- Which panels of a thread stay current once those of other chats are superseded.
use codex_feishu.Prelude.{
  ℕ, ◌≡◌, Bool, not, ◌&&◌, List, [], ◌∷◌, map, arith, ◌==◌, if◌then◌else◌, select, update_where,
}
use codex_feishu.Prelude.Text.{Text, text_eq, text_eq_iff, trim_space}
use codex_feishu.Storage.Panels.{
  ThreadPanel, PanelTable, retire, scan_thread_panel, list_current_panels_for_thread,
  supersede_current_thread_panels_except,
}

abbrev pub in_slot : ℕ → ℕ → ThreadPanel → Bool
in_slot chat topic p = p.chat_id == chat && p.topic_id == topic

-- The panels of the thread `other` after those of the thread `gone` were superseded.
superseded_rows :
    (now gone other : Text) (chat topic : ℕ) (rows : List ThreadPanel)
    → map scan_thread_panel (
        select
          (λ p. text_eq p.thread_id other && p.is_current)
          (update_where
            (λ p.
              text_eq p.thread_id gone
              && p.is_current
              && not (p.chat_id == chat && p.topic_id == topic))
            (retire now)
            rows))
      ≡ (if text_eq gone other
          then select
              (in_slot chat topic)
              (map scan_thread_panel (select (λ p. text_eq p.thread_id other && p.is_current) rows))
          else map scan_thread_panel (select (λ p. text_eq p.thread_id other && p.is_current) rows))
unfolding scan_thread_panel
superseded_rows now gone other chat topic [] = ground arith
superseded_rows now gone other chat topic (p ∷ rows) = ground (
  arith,
  superseded_rows now gone other chat topic rows,
  text_eq_iff gone other,
  text_eq_iff p.thread_id gone,
  text_eq_iff p.thread_id other,
)

-- After the panels of a thread are superseded except in one chat and topic, the current panels of
-- that thread are those of before that stand there, in their order, unchanged; the current panels of
-- every other thread are those of before.
pub supersede_except-list_current :
    (now thread other : Text) (chat topic : ℕ) (t : PanelTable)
    → list_current_panels_for_thread other
        (supersede_current_thread_panels_except now thread chat topic t)
      ≡ (if text_eq (trim_space thread) other
          then select (in_slot chat topic) (list_current_panels_for_thread other t)
          else list_current_panels_for_thread other t)
unfolding list_current_panels_for_thread supersede_current_thread_panels_except
supersede_except-list_current now thread other chat topic t =
    superseded_rows now (trim_space thread) other chat topic t.rows
