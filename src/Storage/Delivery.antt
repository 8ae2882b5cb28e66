-- ===== src/Storage/Delivery.antt =====
-- internal/storage/store.go, the table `delivery_queue`: what is to be sent to the chats. The rows
-- stand in the order of their ids. `last_id` is the counter behind AUTOINCREMENT.
use codex_feishu.Prelude.{
  ℕ, ◌+◌, Bool, not, ◌&&◌, ◌||◌, Option, none, some, List, [], ◌∷◌, ◌++◌, ◌==◌, if◌then◌else◌,
  length, take, select, any, update_where,
}
pub mod Runs
pub mod Counts
pub mod Claims
pub mod Targets
use codex_feishu.Prelude.Text.{Text, codes, text_eq, is_empty}
use codex_feishu.Storage.Rows.{nullable, text_ltb}

-- `model.DeliveryQueueItem`; the payload is a text.
pub record DeliveryQueueItem : Type 0 where
  pub id : ℕ
  pub event_id : Text
  pub chat_key : Text
  pub chat_id : ℕ
  pub topic_id : ℕ
  pub thread_id : Text
  pub kind : Text
  pub status : Text
  pub retry_count : ℕ
  pub available_at : Text
  pub last_error : Text
  pub payload_json : Text
  pub created_at : Text
  pub updated_at : Text

-- A row of `delivery_attempts`.
pub record DeliveryAttempt : Type 0 where
  pub queue_id : ℕ
  pub attempt_no : ℕ
  pub status : Text
  pub error_text : Text
  pub created_at : Text

pub record DeliveryQueue : Type 0 where
  pub rows : List DeliveryQueueItem
  pub last_id : ℕ
  pub attempts : List DeliveryAttempt

-- `model.DeliveryStatus…`
abbrev pub status_pending : Text
status_pending = codes "pending"

abbrev pub status_retry : Text
status_retry = codes "retry"

abbrev pub status_processing : Text
status_processing = codes "processing"

abbrev pub status_delivered : Text
status_delivered = codes "delivered"

abbrev pub status_dead : Text
status_dead = codes "dead"

-- The unique index on `(event_id, chat_key)`.
unfoldable pub same_target : DeliveryQueueItem → DeliveryQueueItem → Bool
same_target a b = text_eq a.event_id b.event_id && text_eq a.chat_key b.chat_key

abbrev pub or_now : Text → Text → Text
or_now now t = if is_empty t then now else t

-- The row that the INSERT writes.
abbrev pub queued : Text → ℕ → DeliveryQueueItem → DeliveryQueueItem
queued now id item = record item {
  id = id;
  available_at = or_now now item.available_at;
  created_at = or_now now item.created_at;
  updated_at = or_now now item.updated_at;
  last_error = nullable item.last_error;
}

-- `EnqueueDelivery`: an insert that does nothing in case of a conflict.
unfoldable pub enqueue_delivery : Text → DeliveryQueueItem → DeliveryQueue → DeliveryQueue
unfolding nullable
enqueue_delivery now item q =
    if any (same_target item) q.rows
    then q
    else record q { rows = q.rows ++ queued now (q.last_id + 1) item ∷ []; last_id = q.last_id + 1 }

-- `status IN ('pending', 'retry')`
unfoldable pub is_waiting : DeliveryQueueItem → Bool
is_waiting r = text_eq r.status status_pending || text_eq r.status status_retry

-- `… AND available_at <= ?`: SQLite compares the texts.
unfoldable pub is_claimable : Text → DeliveryQueueItem → Bool
unfolding is_waiting text_ltb
is_claimable now r = is_waiting r && not (text_ltb now r.available_at)

abbrev pub row_has_id : ℕ → DeliveryQueueItem → Bool
row_has_id id r = r.id == id

abbrev pub process : Text → DeliveryQueueItem → DeliveryQueueItem
process now r = record r { status = status_processing; updated_at = now }

-- The updates of the transaction, in order; `none` is the first one that fails. `stamp` is the clock
-- at the update of a row.
unfoldable pub process_rows :
    (ℕ → Text)
    → (ℕ → Bool)
    → List DeliveryQueueItem
    → List DeliveryQueueItem
    → Option (List DeliveryQueueItem)
process_rows stamp fails [] rows = some rows
process_rows stamp fails (r ∷ rs) rows =
    if fails r.id
    then none
    else process_rows stamp fails rs (update_where (row_has_id r.id) (process (stamp r.id)) rows)

-- The rows that a claim finds. A limit of 0 stands for one that is not positive.
abbrev pub batch : Text → ℕ → DeliveryQueue → List DeliveryQueueItem
batch now given q = take (if given == 0 then 10 else given) (select (is_claimable now) q.rows)

-- `ClaimDeliveryBatch`: what is returned, and the queue after the commit or the rollback.
unfoldable pub claim_delivery_batch :
    Text
    → (ℕ → Text)
    → (ℕ → Bool)
    → ℕ
    → DeliveryQueue
    → Option (List DeliveryQueueItem) × DeliveryQueue
unfolding is_claimable process_rows
claim_delivery_batch now stamp fails given q =
    elim (process_rows stamp fails (batch now given q) q.rows) [
      | none ↦ (none, q)
      | some rows ↦ (some (batch now given q), record q { rows = rows })
    ]

-- `CompleteDelivery`
unfoldable pub complete_delivery : Text → ℕ → DeliveryQueue → DeliveryQueue
complete_delivery now id q = record q {
  rows =
      update_where (row_has_id id) (λ r. record r { status = status_delivered; updated_at = now })
        q.rows;
}

abbrev pub failed : Text → ℕ → Text → Text → Bool → DeliveryQueueItem → DeliveryQueueItem
failed now retries available_at error dead r = record r {
  status = if dead then status_dead else status_retry;
  retry_count = retries;
  available_at = available_at;
  last_error = nullable error;
  updated_at = now;
}

-- `FailDelivery`
unfoldable pub fail_delivery : Text → ℕ → ℕ → Text → Text → Bool → DeliveryQueue → DeliveryQueue
unfolding nullable
fail_delivery now id retries available_at error dead q = record q {
  rows = update_where (row_has_id id) (failed now retries available_at error dead) q.rows;
}

-- `RecordDeliveryAttempt`
unfoldable pub record_delivery_attempt : Text → ℕ → ℕ → Text → Text → DeliveryQueue → DeliveryQueue
unfolding nullable
record_delivery_attempt now id attempt status error q = record q {
  attempts =
      q.attempts
      ++ record {
        queue_id = id;
        attempt_no = attempt;
        status = status;
        error_text = nullable error;
        created_at = now;
      }
        ∷ [];
}

-- `DeliveryQueueBacklog`
unfoldable pub delivery_queue_backlog : DeliveryQueue → ℕ
unfolding is_waiting
delivery_queue_backlog q =
    length (select (λ r. is_waiting r || text_eq r.status status_processing) q.rows)
