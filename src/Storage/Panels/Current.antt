-- ===== src/Storage/Panels/Current.antt =====
-- A thread has one current panel in a chat and topic at most, and identifiers are never used twice.
use codex_feishu.Storage.Panels.Ops.{
  Op, create, supersede_except, supersede, set_messages, set_source_mode, set_state, set_final_card,
  set_user_notice, set_plan_prompt, set_details, apply, run, empty,
}
use codex_feishu.Prelude.{
  ℕ, ◌+◌, ◌≤◌, ◌<◌, ◌≡◌, refl, inl, inr, Bool, true, ◌&&◌, List, [], ◌∷◌, ◌++◌, arith,
  if◌then◌else◌, Bool-cases, any, update_where,
}
use codex_feishu.Prelude.Text.{Text, text_eq_iff, is_blank}
use codex_feishu.Storage.Panels.{
  ThreadPanel, PanelTable, is_current_in, retire, update_rows, create_thread_panel,
  supersede_current_thread_panels_except, has_id, supersede_thread_panel,
  update_thread_panel_messages, update_thread_panel_source_mode, update_thread_panel_state,
  update_thread_panel_final_card, update_thread_panel_user_notice, update_thread_panel_plan_prompt,
  update_thread_panel_details,
}

-- How many panels are current for a chat, a topic and a thread.
abbrev pub current_count : ℕ → ℕ → Text → List ThreadPanel → ℕ
current_count chat topic thread [] = 0
current_count chat topic thread (p ∷ ps) =
    (if is_current_in chat topic thread p then 1 else 0) + current_count chat topic thread ps

-- The identifiers rise, from above `low` up to `high`.
abbrev pub Ascending : ℕ → ℕ → List ThreadPanel → Type 0
Ascending low high [] = low ≤ high
Ascending low high (p ∷ ps) = (low < p.id) × Ascending p.id high ps

pub record IsSound (t : PanelTable) : Type 0 where
  pub one_current : (chat topic : ℕ) (thread : Text) → current_count chat topic thread t.rows ≤ 1
  pub ascending : Ascending 0 t.last_id t.rows

-- The update keeps identifiers, and makes no row current for any slot.
pub record IsMild (f : ThreadPanel → ThreadPanel) : Type 0 where
  pub same_id : (p : ThreadPanel) → (f p).id ≡ p.id
  pub not_promoted :
      (chat topic : ℕ) (thread : Text) (p : ThreadPanel)
      → is_current_in chat topic thread (f p) ≡ true
      → is_current_in chat topic thread p ≡ true

module _ {f : ThreadPanel → ThreadPanel} (m : IsMild f) (q : ThreadPanel → Bool) where
  count-update_where-le :
      (chat topic : ℕ) (thread : Text) (rows : List ThreadPanel)
      → current_count chat topic thread (update_where q f rows)
        ≤ current_count chat topic thread rows
  count-update_where-le chat topic thread [] = omega arith
  count-update_where-le chat topic thread (p ∷ ps) =
      ground (arith, m.not_promoted chat topic thread p, count-update_where-le chat topic thread ps)

  Ascending-update_where :
      (low high : ℕ) (rows : List ThreadPanel)
      → Ascending low high rows
      → Ascending low high (update_where q f rows)
  Ascending-update_where low high [] h = h
  Ascending-update_where low high (p ∷ ps) h = elim (Bool-cases (q p)) [
    | inl e ↦ rw (e, m.same_id p) (h.0, Ascending-update_where p.id high ps h.1)
    | inr e ↦ rw e (h.0, Ascending-update_where p.id high ps h.1)
  ]

  update_rows-IsSound : {t : PanelTable} → IsSound t → IsSound (update_rows q f t)
  update_rows-IsSound {t} h = record {
    one_current = λ chat topic thread.
        omega
          (arith, count-update_where-le chat topic thread t.rows, h.one_current chat topic thread);
    ascending = Ascending-update_where 0 t.last_id t.rows h.ascending;
  }

retire-IsMild : (now : Text) → IsMild (retire now)
unfolding is_current_in
retire-IsMild now = record {
  same_id = λ p. refl;
  not_promoted = λ chat topic thread p h. ground arith;
}

count-append :
    (chat topic : ℕ) (thread : Text) (xs ys : List ThreadPanel)
    → current_count chat topic thread (xs ++ ys)
      ≡ current_count chat topic thread xs + current_count chat topic thread ys
count-append chat topic thread [] ys = omega arith
count-append chat topic thread (x ∷ xs) ys = omega (arith, count-append chat topic thread xs ys)

Ascending-append :
    (low high : ℕ) (p : ThreadPanel) (rows : List ThreadPanel)
    → p.id ≡ high + 1
    → Ascending low high rows
    → Ascending low (high + 1) (rows ++ p ∷ [])
Ascending-append low high p [] e h = (omega arith, omega arith)
Ascending-append low high p (x ∷ xs) e h = (h.0, Ascending-append x.id high p xs e h.1)

-- Once its slot is retired, no row of it is current.
count-retired :
    (now : Text) (chat topic : ℕ) (thread : Text) (rows : List ThreadPanel)
    → current_count chat topic thread
        (update_where (is_current_in chat topic thread) (retire now) rows)
      ≡ 0
unfolding is_current_in
count-retired now chat topic thread [] = refl
count-retired now chat topic thread (p ∷ ps) =
    ground (arith, count-retired now chat topic thread ps)

-- A row that is current for a slot names that slot.
pub is_current_in-slot :
    (chat topic : ℕ) (thread : Text) (p : ThreadPanel)
    → is_current_in chat topic thread p ≡ true
    → (chat ≡ p.chat_id) × (topic ≡ p.topic_id) × (thread ≡ p.thread_id)
unfolding is_current_in
is_current_in-slot chat topic thread p h = ground (arith, text_eq_iff p.thread_id thread)

create_count :
    (now : Text) (row : ThreadPanel) (rows : List ThreadPanel)
    → ((chat topic : ℕ) (thread : Text) → current_count chat topic thread rows ≤ 1)
    → (chat topic : ℕ) (thread : Text)
    → current_count chat topic thread (
        update_where (is_current_in row.chat_id row.topic_id row.thread_id) (retire now) rows
        ++ row ∷ [])
      ≤ 1
create_count now row rows h chat topic thread =
    let slot = is_current_in row.chat_id row.topic_id row.thread_id in
    let split = count-append chat topic thread (update_where slot (retire now) rows) (row ∷ []) in
    elim (Bool-cases (is_current_in chat topic thread row)) [
      | inl e ↦
          let (ec, et, eh) = is_current_in-slot chat topic thread row e in
          rw split (
            rw e (
              rw (ec, et, eh)
                (rw (count-retired now row.chat_id row.topic_id row.thread_id rows) (omega arith))))
      | inr e ↦ rw split (
          rw e (
            omega (
              arith,
              count-update_where-le (retire-IsMild now) slot chat topic thread rows,
              h chat topic thread,
            )))
    ]

create-IsSound :
    (now : Text) (p : ThreadPanel) {t : PanelTable}
    → IsSound t
    → IsSound (create_thread_panel now p t).1
unfolding create_thread_panel
create-IsSound now p {t} h = record {
  one_current = create_count now _ t.rows h.one_current;
  ascending =
      Ascending-append 0 t.last_id _ _ refl
        (Ascending-update_where (retire-IsMild now) _ 0 t.last_id t.rows h.ascending);
}

source_mode-IsSound :
    (now : Text) (id : ℕ) (mode : Text) {t : PanelTable}
    → IsSound t
    → IsSound (update_thread_panel_source_mode now id mode t).1
unfolding update_thread_panel_source_mode is_current_in
source_mode-IsSound now id mode {t} h =
    elim (Bool-cases (is_blank mode && any (has_id id) t.rows)) [
      | inl e ↦ rw e h
      | inr e ↦ rw e (
          update_rows-IsSound (record { same_id = λ p. refl; not_promoted = λ c u v p x. x })
            (has_id id) h)
    ]

-- Every statement that writes the table keeps it sound.
apply-IsSound : (op : Op) {t : PanelTable} → IsSound t → IsSound (apply op t)
unfolding apply is_current_in supersede_current_thread_panels_except supersede_thread_panel
    update_thread_panel_messages update_thread_panel_state update_thread_panel_final_card
    update_thread_panel_user_notice update_thread_panel_plan_prompt update_thread_panel_details
apply-IsSound (create now p) h = create-IsSound now p h
apply-IsSound (supersede_except now thread chat topic) h =
    update_rows-IsSound (retire-IsMild now) _ h
apply-IsSound (supersede now id) h = update_rows-IsSound (retire-IsMild now) _ h
apply-IsSound (set_source_mode now id mode) h = source_mode-IsSound now id mode h
apply-IsSound (set_messages now id summary tool output) h =
    update_rows-IsSound (record { same_id = λ p. refl; not_promoted = λ c u v p x. x }) _ h
apply-IsSound (set_state now id s) h =
    update_rows-IsSound (record { same_id = λ p. refl; not_promoted = λ c u v p x. x }) _ h
apply-IsSound (set_final_card now id summary s view hash) h =
    update_rows-IsSound (record { same_id = λ p. refl; not_promoted = λ c u v p x. x }) _ h
apply-IsSound (set_user_notice now id message fp) h =
    update_rows-IsSound (record { same_id = λ p. refl; not_promoted = λ c u v p x. x }) _ h
apply-IsSound (set_plan_prompt now id message fp) h =
    update_rows-IsSound (record { same_id = λ p. refl; not_promoted = λ c u v p x. x }) _ h
apply-IsSound (set_details now id view hash) h =
    update_rows-IsSound (record { same_id = λ p. refl; not_promoted = λ c u v p x. x }) _ h

run-IsSound_from : (ops : List Op) (t : PanelTable) → IsSound t → IsSound (run ops t)
unfolding run
run-IsSound_from [] t h = h
run-IsSound_from (op ∷ ops) t h = run-IsSound_from ops (apply op t) (apply-IsSound op h)

-- Whatever statements are run from the empty table, a chat, topic and thread have one current panel
-- at most, and the identifiers of the panels rise in the order of their creation, so that no two
-- panels share one.
pub run-IsSound : (ops : List Op) → IsSound (run ops empty)
run-IsSound ops =
    run-IsSound_from ops empty
      (record { one_current = λ c u v. omega arith; ascending = omega arith })
