-- ===== src/Storage/Approvals/Laws.antt =====
-- What the statements on `pending_approvals` do to a read of any request.
use mathlib.Core.Option
use codex_feishu.Prelude.{Option, none, some}
use codex_feishu.Prelude.Text.{Text}
use codex_feishu.Storage.Approvals.{PendingApproval, written}

-- The approval that a save leaves on record, by the one that was on record.
abbrev pub saved : PendingApproval → Option PendingApproval → PendingApproval
saved a none = written a
saved a (some old) = record (written a) { chat_message_id = old.chat_message_id }
