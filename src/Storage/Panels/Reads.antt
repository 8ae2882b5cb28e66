-- ===== src/Storage/Panels/Reads.antt =====
-- What the queries on `thread_panels` return after the statements that move the current panel.
use codex_feishu.Prelude.{
  ℕ, ◌+◌, ◌≡◌, refl, ap, ◌∙◌, inl, inr, Bool, true, false, some, List, [], ◌∷◌, ◌++◌, arith, ltb,
  if◌then◌else◌, Bool-cases, select, update_where,
}
use codex_feishu.Storage.Panels.Current.{is_current_in-slot}
use mathlib.Core.Option
use codex_feishu.Prelude.Text.{Text, text_eq_refl, text_eq_iff, is_blank}
use codex_feishu.Storage.Rows.{nullable, top}
use codex_feishu.Storage.Panels.{
  ThreadPanel, PanelTable, panel_source_explicit, is_current_in, retire, with_source, new_row,
  create_thread_panel, scan_thread_panel, get_current_thread_panel,
}

-- A panel as it is read back: blank texts are empty.
abbrev pub read_back : ThreadPanel → ThreadPanel
read_back p = record p {
  current_turn_id = nullable p.current_turn_id;
  status = nullable p.status;
  last_summary_hash = nullable p.last_summary_hash;
  last_tool_hash = nullable p.last_tool_hash;
  last_output_hash = nullable p.last_output_hash;
  last_final_notice_fp = nullable p.last_final_notice_fp;
  last_user_notice_fp = nullable p.last_user_notice_fp;
  last_plan_prompt_fp = nullable p.last_plan_prompt_fp;
  details_view_json = nullable p.details_view_json;
  last_final_card_hash = nullable p.last_final_card_hash;
}

source_given :
    (mode : Text) → is_blank (if is_blank mode then panel_source_explicit else mode) ≡ false
unfolding is_blank
source_given mode = elim (Bool-cases (is_blank mode)) [ inl e ↦ rw e refl | inr e ↦ rw e e ]

scan-new_row :
    (id : ℕ) (now : Text) (p : ThreadPanel)
    → scan_thread_panel (new_row id now (with_source p))
      ≡ read_back (record (with_source p) {
        id = id;
        is_current = true;
        created_at = now;
        updated_at = now;
      })
unfolding scan_thread_panel new_row
scan-new_row id now p = rw (source_given p.source_mode) (rw (source_given p.source_mode) refl)

module _ (now : Text) (row : ThreadPanel) where
  select-retired :
      (rows : List ThreadPanel)
      → select
          (is_current_in row.chat_id row.topic_id row.thread_id)
          (update_where (is_current_in row.chat_id row.topic_id row.thread_id) (retire now) rows)
        ≡ []
  unfolding is_current_in
  select-retired [] = refl
  select-retired (p ∷ ps) = ground (arith, select-retired ps)

  module _ (chat topic : ℕ) (thread : Text) (current : row.is_current ≡ true)
      (other : is_current_in chat topic thread row ≡ false) where
    select-other :
        (rows : List ThreadPanel)
        → select (is_current_in chat topic thread) (
            update_where (is_current_in row.chat_id row.topic_id row.thread_id) (retire now) rows
            ++ row ∷ [])
          ≡ select (is_current_in chat topic thread) rows
    unfolding is_current_in
    select-other [] = ground arith
    select-other (p ∷ ps) = ground (
      arith,
      select-other ps,
      text_eq_iff p.thread_id thread,
      text_eq_iff p.thread_id row.thread_id,
      text_eq_iff row.thread_id thread,
    )

select-append {ℓ} :
    {A : Type ℓ} (q : A → Bool) (xs ys : List A) → select q (xs ++ ys) ≡ select q xs ++ select q ys
select-append q [] ys = refl
select-append q (x ∷ xs) ys = ground (arith, select-append q xs ys)

is_current_in_self :
    (row : ThreadPanel)
    → row.is_current ≡ true
    → is_current_in row.chat_id row.topic_id row.thread_id row ≡ true
unfolding is_current_in
is_current_in_self row c = ground (arith, text_eq_refl row.thread_id)

get_current-replaced :
    (now : Text) (row : ThreadPanel) (rows : List ThreadPanel) (id : ℕ)
    → row.is_current ≡ true
    → get_current_thread_panel row.chat_id row.topic_id row.thread_id (record {
      rows =
          update_where (is_current_in row.chat_id row.topic_id row.thread_id) (retire now) rows
          ++ row ∷ [];
      last_id = id;
    })
      ≡ some (scan_thread_panel row)
unfolding get_current_thread_panel
get_current-replaced now row rows id c =
    rw
      (select-append (is_current_in row.chat_id row.topic_id row.thread_id)
        (update_where (is_current_in row.chat_id row.topic_id row.thread_id) (retire now) rows)
        (row ∷ []))
      (rw (select-retired now row rows) (rw (is_current_in_self row c) refl))

-- A panel that is created becomes the current one of its chat, topic and thread: reading it back
-- gives the panel that the call returned, with its blank texts emptied, whatever panel was current
-- before. The current panel of every other chat, topic or thread is the one of before.
pub create_thread_panel-get_current :
    (now : Text) (p : ThreadPanel) (t : PanelTable) (chat topic : ℕ) (thread : Text)
    → let (q, t') = create_thread_panel now p t in
      get_current_thread_panel chat topic thread t' ≡ (
        if is_current_in chat topic thread q
        then some (read_back q)
        else get_current_thread_panel chat topic thread t)
unfolding create_thread_panel
create_thread_panel-get_current now p t chat topic thread =
    let row = new_row (t.last_id + 1) now (with_source p) in
    elim (Bool-cases (is_current_in chat topic thread row)) [
      | inl e ↦
          let (ec, et, eh) = is_current_in-slot chat topic thread row e in
          rw (created e) (
            rw (ec, et, eh)
              (get_current-replaced now row t.rows (t.last_id + 1) refl
                ∙ ap some (scan-new_row (t.last_id + 1) now p)))
      | inr e ↦ rw (created e) (
          unfold get_current_thread_panel in
          ap
            (λ rows. Option.map scan_thread_panel (top (λ (p q : ThreadPanel). ltb q.id p.id) rows))
            (select-other now row chat topic thread refl e t.rows))
    ]
  where
    created :
        {b : Bool}
        → is_current_in chat topic thread (new_row (t.last_id + 1) now (with_source p)) ≡ b
        → is_current_in chat topic thread (create_thread_panel now p t).0 ≡ b
    created e = unfold create_thread_panel is_current_in in unfold new_row is_current_in in e
