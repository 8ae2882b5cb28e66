-- ===== src/Storage/Delivery/Targets.antt =====
-- An event has one item for a chat at most.
use codex_feishu.Prelude.Text.{Text, text_eq, text_eq_refl, text_eq_iff}
use codex_feishu.Storage.Delivery.{
  DeliveryQueueItem, DeliveryQueue, status_delivered, same_target, queued, enqueue_delivery,
  row_has_id, batch, claim_delivery_batch, complete_delivery, failed, fail_delivery,
  record_delivery_attempt,
}
use codex_feishu.Storage.Delivery.Runs.{
  Op, enqueue, claim, complete, fail, attempt, apply, run, empty, count,
}
use codex_feishu.Storage.Delivery.Counts.{
  count-append, count-update_where-le, process_rows-le, claim-cases,
}
use codex_feishu.Prelude.{
  ℕ, ◌+◌, ◌≤◌, ◌≡◌, refl, ◌∙◌, inl, inr, Bool, true, false, ◌&&◌, List, [], ◌∷◌, ◌++◌, arith,
  Bool-cases, any,
}

-- `event_id = ? AND chat_key = ?`
abbrev pub is_for : Text → Text → DeliveryQueueItem → Bool
is_for event key r = text_eq r.event_id event && text_eq r.chat_key key

-- The items for an event and a chat.
record IsOne (event key : Text) (q : DeliveryQueue) : Type 0 where
  one : count (is_for event key) q.rows ≤ 1

none-count :
    (event key : Text) (item : DeliveryQueueItem) (rows : List DeliveryQueueItem)
    → is_for event key item ≡ true
    → any (same_target item) rows ≡ false
    → count (is_for event key) rows ≡ 0
unfolding same_target
none-count event key item [] h e = refl
none-count event key item (r ∷ rs) h e = ground (
  arith,
  none-count event key item rs,
  text_eq_iff item.event_id event,
  text_eq_iff item.chat_key key,
  text_eq_iff r.event_id event,
  text_eq_iff r.chat_key key,
  text_eq_iff item.event_id r.event_id,
  text_eq_iff item.chat_key r.chat_key,
)

module _ (event key : Text) where
  enqueue-IsOne :
      (now : Text) (item : DeliveryQueueItem) (q : DeliveryQueue)
      → IsOne event key q
      → IsOne event key (enqueue_delivery now item q)
  enqueue-IsOne now item q h = record {
    one =
        unfold enqueue_delivery in
        ground (
          arith,
          h.one,
          count-append (is_for event key) q.rows (queued now (q.last_id + 1) item ∷ []),
          none-count event key item q.rows,
        );
  }

  claim-IsOne :
      (now : Text) (stamp : ℕ → Text) (fails : ℕ → Bool) (limit : ℕ) (q : DeliveryQueue)
      → IsOne event key q
      → IsOne event key (claim_delivery_batch now stamp fails limit q).1
  claim-IsOne now stamp fails limit q h = elim (claim-cases now stamp fails limit q) [
    | inl e ↦ rw e h
    | inr k ↦ rw k.result (record {
      one = omega (
        arith,
        h.one,
        process_rows-le (is_for event key) stamp fails (λ at r e. e) (batch now limit q) q.rows
            k.rows k.processed,
      );
    })
  ]

  apply-IsOne : (op : Op) (q : DeliveryQueue) → IsOne event key q → IsOne event key (apply op q)
  unfolding apply
  apply-IsOne (enqueue now item) q h = enqueue-IsOne now item q h
  apply-IsOne (claim now stamp fails limit) q h = claim-IsOne now stamp fails limit q h
  apply-IsOne (complete now k) q h = record {
    one =
        unfold complete_delivery in
        omega (
          arith,
          h.one,
          count-update_where-le (is_for event key) (row_has_id k)
              (λ r. record r { status = status_delivered; updated_at = now }) (λ r a b. b) q.rows,
        );
  }
  apply-IsOne (fail now k n available_at error dead) q h = record {
    one =
        unfold fail_delivery in
        omega (
          arith,
          h.one,
          count-update_where-le (is_for event key) (row_has_id k)
              (failed now n available_at error dead) (λ r a b. b) q.rows,
        );
  }
  apply-IsOne (attempt now k n status error) q h = record {
    one = unfold record_delivery_attempt in h.one;
  }

  run-IsOne : (ops : List Op) (q : DeliveryQueue) → IsOne event key q → IsOne event key (run ops q)
  unfolding run
  run-IsOne [] q h = h
  run-IsOne (op ∷ ops) q h = run-IsOne ops (apply op q) (apply-IsOne op q h)

has_target :
    (now : Text) (item : DeliveryQueueItem) (q : DeliveryQueue)
    → any (same_target item) (enqueue_delivery now item q).rows ≡ true
unfolding enqueue_delivery
has_target now item q = elim (Bool-cases (any (same_target item) q.rows)) [
  | inl e ↦ rw e e
  | inr e ↦ rw e (
      any-append item q.rows (queued now (q.last_id + 1) item) (
        unfold same_target in
        ground (arith, text_eq_refl item.event_id, text_eq_refl item.chat_key)))
]
  where
    any-append :
        (item : DeliveryQueueItem) (rows : List DeliveryQueueItem) (r : DeliveryQueueItem)
        → same_target item r ≡ true
        → any (same_target item) (rows ++ r ∷ []) ≡ true
    any-append item [] r h = ground arith
    any-append item (x ∷ xs) r h = ground (arith, any-append item xs r h)

any_same :
    (item again : DeliveryQueueItem) (rows : List DeliveryQueueItem)
    → any (same_target (record again { event_id = item.event_id; chat_key = item.chat_key })) rows
      ≡ any (same_target item) rows
unfolding same_target
any_same item again [] = refl
any_same item again (x ∷ xs) = ground (arith, any_same item again xs)

-- Whatever statements are run from the empty queue, it holds one item at most for an event and a
-- chat. Enqueueing another item for the event and the chat of one that was just enqueued leaves the
-- queue as it is.
pub enqueued_once :
    (ops : List Op) (event key now later : Text) (item again : DeliveryQueueItem)
    → let q = run ops empty in
      (count (is_for event key) q.rows ≤ 1)
      × (enqueue_delivery later
            (record again { event_id = item.event_id; chat_key = item.chat_key })
            (enqueue_delivery now item q)
          ≡ enqueue_delivery now item q)
enqueued_once ops event key now later item again =
    let q = enqueue_delivery now item (run ops empty) in
    (
      (run-IsOne event key ops empty (record { one = omega arith })).one,
      unfold enqueue_delivery in
          rw (any_same item again q.rows ∙ has_target now item (run ops empty)) refl,
    )
