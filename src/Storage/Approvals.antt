-- ===== src/Storage/Approvals.antt =====
-- internal/storage/store.go and store_panels.go, the table `pending_approvals`: questions of Codex
-- that wait for an answer from the chat.
pub mod Laws
use mathlib.Core.Option
use codex_feishu.Prelude.{
  ℕ, ◌+◌, Bool, ◌&&◌, Option, List, [], ◌∷◌, ◌++◌, if◌then◌else◌, length, select, first, any,
  update_where,
}
use codex_feishu.Prelude.Text.{Text, codes, text_eq}
use codex_feishu.Storage.Rows.{nullable, text_ltb, top}

-- `model.PendingApproval`; the payload is a text.
pub record PendingApproval : Type 0 where
  pub request_id : Text
  pub thread_id : Text
  pub turn_id : Text
  pub item_id : Text
  pub prompt_kind : Text
  pub question : Text
  pub status : Text
  pub chat_message_id : ℕ
  pub payload_json : Text
  pub updated_at : Text

abbrev pub has_request : Text → PendingApproval → Bool
has_request id a = text_eq a.request_id id

-- The row that is written: blank texts are NULL.
abbrev pub written : PendingApproval → PendingApproval
written a = record a {
  turn_id = nullable a.turn_id;
  item_id = nullable a.item_id;
  question = nullable a.question;
}

-- `ON CONFLICT … DO UPDATE`: the message of the row stays.
abbrev pub merged : PendingApproval → PendingApproval → PendingApproval
merged a old = record (written a) {
  request_id = old.request_id;
  chat_message_id = old.chat_message_id;
}

-- `SavePendingApproval`
unfoldable pub save_pending_approval : PendingApproval → List PendingApproval → List PendingApproval
unfolding nullable text_eq
save_pending_approval a rows =
    if any (has_request a.request_id) rows
    then update_where (has_request a.request_id) (merged a) rows
    else rows ++ written a ∷ []

-- `GetPendingApproval`
unfoldable pub get_pending_approval : Text → List PendingApproval → Option PendingApproval
unfolding text_eq
get_pending_approval id rows = first (has_request id) rows

-- `UpdatePendingApprovalStatus`
unfoldable pub update_pending_approval_status :
    Text → Text → Text → List PendingApproval → List PendingApproval
unfolding text_eq
update_pending_approval_status now id status =
    update_where (has_request id) (λ a. record a { status = status; updated_at = now })

-- `UpdatePendingApprovalMessageID`
unfoldable pub update_pending_approval_message_id :
    Text → Text → ℕ → List PendingApproval → List PendingApproval
unfolding text_eq
update_pending_approval_message_id now id message =
    update_where (has_request id) (λ a. record a { chat_message_id = message; updated_at = now })

-- `status = 'pending'`
unfoldable pub is_pending : PendingApproval → Bool
unfolding text_eq
is_pending a = text_eq a.status (codes "pending")

abbrev pub marked_as : Text → Text → PendingApproval → PendingApproval
marked_as now status a = record a { status = status; updated_at = now }

-- `MarkAllPendingApprovals`: the rows affected, and the table.
unfoldable pub mark_all_pending_approvals :
    Text → Text → List PendingApproval → ℕ × List PendingApproval
unfolding is_pending
mark_all_pending_approvals now status rows =
    (length (select is_pending rows), update_where is_pending (marked_as now status) rows)

-- `GetLatestPendingApprovalForThread`: of rows with the same time any may come first.
unfoldable pub get_latest_pending_approval_for_thread :
    Text → List PendingApproval → Option PendingApproval
unfolding is_pending text_ltb top text_eq
get_latest_pending_approval_for_thread thread rows =
    top (λ (a b : PendingApproval). text_ltb b.updated_at a.updated_at)
      (select (λ (a : PendingApproval). text_eq a.thread_id thread && is_pending a) rows)
