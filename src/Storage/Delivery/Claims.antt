-- ===== src/Storage/Delivery/Claims.antt =====
-- An item is handed out once, and once more for each retry that was asked for.
use codex_feishu.Prelude.Text.{Text, text_eq}
use codex_feishu.Storage.Delivery.{
  DeliveryQueueItem, DeliveryQueue, status_delivered, queued, enqueue_delivery, is_waiting,
  is_claimable, row_has_id, process, process_rows, batch, claim_delivery_batch, complete_delivery,
  failed, fail_delivery, record_delivery_attempt,
}
use codex_feishu.Storage.Delivery.Runs.{
  Op, enqueue, claim, complete, fail, attempt, apply, run, empty, count, handed, claims, retried,
  retries,
}
use codex_feishu.Storage.Delivery.Counts.{
  count-append, count-update_where-le, count-take-le, count-select-le, count-le, process_rows-le,
  claim-cases,
}
use codex_feishu.Prelude.{
  ℕ, ◌+◌, ◌≤◌, ◌<◌, ◌≡◌, refl, inl, inr, Bool, true, not, ◌&&◌, some, List, [], ◌∷◌, arith, ltb,
  ◌==◌, if◌then◌else◌, Bool-cases, select, update_where,
}

abbrev is_waiting_id : ℕ → DeliveryQueueItem → Bool
is_waiting_id id r = row_has_id id r && is_waiting r

-- 1 where the identifier was not given yet.
abbrev fresh : ℕ → DeliveryQueue → ℕ
fresh id q = if ltb q.last_id id then 1 else 0

-- How often the row can be handed out without a retry.
abbrev potential : ℕ → DeliveryQueue → ℕ
potential id q = count (is_waiting_id id) q.rows + fresh id q

-- The identifier is that of one row at most, and of none while it was not given.
record IsSingle (id : ℕ) (q : DeliveryQueue) : Type 0 where
  single : count (row_has_id id) q.rows + fresh id q ≤ 1

process_waits :
    (id : ℕ) (now : Text) (r : DeliveryQueueItem)
    → is_waiting_id id (process now r) ≡ true
    → is_waiting_id id r ≡ true
unfolding is_waiting text_eq
process_waits id now r h = ground arith

count-processed :
    (id : ℕ) (now : Text) (rows : List DeliveryQueueItem)
    → count (is_waiting_id id) (update_where (row_has_id id) (process now) rows) ≡ 0
unfolding is_waiting text_eq
count-processed id now [] = refl
count-processed id now (r ∷ rs) = ground (arith, count-processed id now rs)

module _ (id : ℕ) (stamp : ℕ → Text) (fails : ℕ → Bool) where
  process_rows-waiting :
      (rs rows rows' : List DeliveryQueueItem)
      → process_rows stamp fails rs rows ≡ some rows'
      → count (is_waiting_id id) rows' ≤ count (is_waiting_id id) rows
  process_rows-waiting = process_rows-le (is_waiting_id id) stamp fails (process_waits id)

  process_rows-handed :
      (rs rows rows' : List DeliveryQueueItem)
      → process_rows stamp fails rs rows ≡ some rows'
      → 0 < count (row_has_id id) rs
      → count (is_waiting_id id) rows' ≡ 0
  unfolding process_rows
  process_rows-handed [] rows rows' e h = absurd (omega arith)
  process_rows-handed (r ∷ rs) rows rows' e h = ground (
    arith,
    process_rows-handed rs (update_where (row_has_id r.id) (process (stamp r.id)) rows) rows',
    process_rows-waiting rs (update_where (row_has_id r.id) (process (stamp r.id)) rows) rows',
    count-processed r.id (stamp r.id) rows,
  )

  handed-le :
      (now : Text) (limit : ℕ) (q : DeliveryQueue)
      → count (row_has_id id) (batch now limit q) ≤ count (is_waiting_id id) q.rows
  unfolding is_claimable
  handed-le now limit q = omega (
    arith,
    count-take-le (row_has_id id) (if limit == 0 then 10 else limit)
        (select (is_claimable now) q.rows),
    count-select-le (row_has_id id) (is_claimable now) (is_waiting_id id) (λ r a b. ground arith)
        q.rows,
  )

  claim-potential :
      (now : Text) (limit : ℕ) (q : DeliveryQueue)
      → handed id (claim now stamp fails limit) q
          + potential id (apply (claim now stamp fails limit) q)
        ≤ potential id q
  unfolding handed apply
  claim-potential now limit q = elim (claim-cases now stamp fails limit q) [
    | inl e ↦ ground (arith, e)
    | inr k ↦ ground (
      arith,
      k.result,
      handed-le now limit q,
      process_rows-waiting (batch now limit q) q.rows k.rows k.processed,
      process_rows-handed (batch now limit q) q.rows k.rows k.processed,
    )
  ]

enqueue-rows :
    (id : ℕ) (p : DeliveryQueueItem → Bool) (now : Text) (item : DeliveryQueueItem)
    (q : DeliveryQueue)
    → ((r : DeliveryQueueItem) → p r ≡ true → row_has_id id r ≡ true)
    → count p (enqueue_delivery now item q).rows + fresh id (enqueue_delivery now item q)
      ≤ count p q.rows + fresh id q
unfolding enqueue_delivery
enqueue-rows id p now item q h = ground (
  arith,
  count-append p q.rows (queued now (q.last_id + 1) item ∷ []),
  h (queued now (q.last_id + 1) item),
)

claim-IsSingle :
    (id : ℕ) (now : Text) (stamp : ℕ → Text) (fails : ℕ → Bool) (limit : ℕ) (q : DeliveryQueue)
    → IsSingle id q
    → IsSingle id (claim_delivery_batch now stamp fails limit q).1
claim-IsSingle id now stamp fails limit q h = elim (claim-cases now stamp fails limit q) [
  | inl e ↦ rw e h
  | inr k ↦ rw k.result (record {
    single = omega (
      arith,
      h.single,
      process_rows-le (row_has_id id) stamp fails (λ at r e. e) (batch now limit q) q.rows k.rows
          k.processed,
    );
  })
]

-- Every step keeps identifiers single.
apply-IsSingle : (id : ℕ) (op : Op) (q : DeliveryQueue) → IsSingle id q → IsSingle id (apply op q)
unfolding apply
apply-IsSingle id (enqueue now item) q h = record {
  single = omega (arith, enqueue-rows id (row_has_id id) now item q (λ r e. e), h.single);
}
apply-IsSingle id (claim now stamp fails limit) q h = claim-IsSingle id now stamp fails limit q h
apply-IsSingle id (complete now k) q h = record {
  single =
      unfold complete_delivery in
      omega (
        arith,
        h.single,
        count-update_where-le (row_has_id id) (row_has_id k)
            (λ r. record r { status = status_delivered; updated_at = now }) (λ r a b. b) q.rows,
      );
}
apply-IsSingle id (fail now k n available_at error dead) q h = record {
  single =
      unfold fail_delivery in
      omega (
        arith,
        h.single,
        count-update_where-le (row_has_id id) (row_has_id k) (failed now n available_at error dead)
            (λ r a b. b) q.rows,
      );
}
apply-IsSingle id (attempt now k n status error) q h = record {
  single = unfold record_delivery_attempt in h.single;
}

-- A step hands the row out at the cost of its potential, and a retry gives one back.
step-potential :
    (id : ℕ) (op : Op) (q : DeliveryQueue)
    → IsSingle id q
    → handed id op q + potential id (apply op q) ≤ potential id q + retried id op
unfolding handed apply retried
step-potential id (enqueue now item) q h =
    omega (arith, enqueue-rows id (is_waiting_id id) now item q (λ r e. ground arith))
step-potential id (claim now stamp fails limit) q h =
    omega (arith, claim-potential id stamp fails now limit q)
step-potential id (complete now k) q h =
    unfold complete_delivery in
    omega (
      arith,
      count-update_where-le (is_waiting_id id) (row_has_id k)
          (λ r. record r { status = status_delivered; updated_at = now })
          (λ r a b. unfold is_waiting text_eq in ground arith) q.rows,
    )
step-potential id (fail now k n available_at error dead) q h =
    let kept = (apply-IsSingle id (fail now k n available_at error dead) q h).single in
    let rows' = fail_delivery now k n available_at error dead q in
    elim (Bool-cases (k == id && not dead)) [
      | inl e ↦ rw e (
          omega (
            arith,
            kept,
            count-le (is_waiting_id id) (row_has_id id) (λ r a. ground arith) rows'.rows,
          ))
      | inr e ↦ rw e (
          unfold fail_delivery in
          ground (
            arith,
            count-update_where-le (is_waiting_id id) (row_has_id k)
                (failed now n available_at error dead)
                (λ r a b. unfold is_waiting text_eq in ground arith) q.rows,
          ))
    ]
step-potential id (attempt now k n status error) q h = unfold record_delivery_attempt in omega arith

claims-potential :
    (id : ℕ) (ops : List Op) (q : DeliveryQueue)
    → IsSingle id q
    → claims id ops q + potential id (run ops q) ≤ potential id q + retries id ops
unfolding claims retries run
claims-potential id [] q h = omega arith
claims-potential id (op ∷ ops) q h = omega (
  arith,
  step-potential id op q h,
  claims-potential id ops (apply op q) (apply-IsSingle id op q h),
)

-- In a run of the statements from the empty queue, claims hand an item out once at most, and once
-- more for each time that it was failed without being given up.
pub claimed_once : (id : ℕ) (ops : List Op) → claims id ops empty ≤ 1 + retries id ops
claimed_once id ops =
    ground (arith, claims-potential id ops empty (record { single = ground arith }))
