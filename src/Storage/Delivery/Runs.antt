-- ===== src/Storage/Delivery/Runs.antt =====
-- The statements on `delivery_queue` as steps, and what a run of them hands out.
use codex_feishu.Prelude.{ℕ, ◌+◌, Bool, not, ◌&&◌, none, some, List, [], ◌∷◌, ◌==◌, if◌then◌else◌}
use codex_feishu.Prelude.Text.{Text}
use codex_feishu.Storage.Delivery.{
  DeliveryQueueItem, DeliveryQueue, enqueue_delivery, row_has_id, claim_delivery_batch,
  complete_delivery, fail_delivery, record_delivery_attempt,
}

pub data Op : Type 0 where
  enqueue : Text → DeliveryQueueItem → Op
  claim : Text → (ℕ → Text) → (ℕ → Bool) → ℕ → Op
  complete : Text → ℕ → Op
  fail : Text → ℕ → ℕ → Text → Text → Bool → Op
  attempt : Text → ℕ → ℕ → Text → Text → Op

unfoldable pub apply : Op → DeliveryQueue → DeliveryQueue
apply (enqueue now item) q = enqueue_delivery now item q
apply (claim now stamp fails limit) q = (claim_delivery_batch now stamp fails limit q).1
apply (complete now id) q = complete_delivery now id q
apply (fail now id retries available_at error dead) q =
    fail_delivery now id retries available_at error dead q
apply (attempt now id n status error) q = record_delivery_attempt now id n status error q

unfoldable pub run : List Op → DeliveryQueue → DeliveryQueue
run [] q = q
run (op ∷ ops) q = run ops (apply op q)

abbrev pub empty : DeliveryQueue
empty = record { rows = []; last_id = 0; attempts = [] }

-- How many rows pass a test.
abbrev pub count : (DeliveryQueueItem → Bool) → List DeliveryQueueItem → ℕ
count p [] = 0
count p (r ∷ rs) = (if p r then 1 else 0) + count p rs

-- How often a step hands out the row `id`.
unfoldable pub handed : ℕ → Op → DeliveryQueue → ℕ
handed id (claim now stamp fails limit) q =
    elim ((claim_delivery_batch now stamp fails limit q).0) [
      | none ↦ 0
      | some out ↦ count (row_has_id id) out
    ]
handed id _ q = 0

-- How often a run hands out the row `id`.
unfoldable pub claims : ℕ → List Op → DeliveryQueue → ℕ
claims id [] q = 0
claims id (op ∷ ops) q = handed id op q + claims id ops (apply op q)

-- Whether the step puts the row `id` back for another attempt.
unfoldable pub retried : ℕ → Op → ℕ
retried id (fail now k retries available_at error dead) = if k == id && not dead then 1 else 0
retried id _ = 0

unfoldable pub retries : ℕ → List Op → ℕ
retries id [] = 0
retries id (op ∷ ops) = retried id op + retries id ops
