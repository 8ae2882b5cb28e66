-- ===== src/Storage/Delivery/Counts.antt =====
-- How many rows of `delivery_queue` pass a test, before and after its statements.
use codex_feishu.Prelude.Text.{Text}
use codex_feishu.Storage.Delivery.{
  DeliveryQueueItem, DeliveryQueue, row_has_id, process, process_rows, batch, claim_delivery_batch,
}
use codex_feishu.Storage.Delivery.Runs.{count}
use codex_feishu.Prelude.{
  ℕ, zero, suc, ◌+◌, ◌≤◌, ◌≡◌, refl, ◌⊎◌, inl, inr, Bool, true, Option, none, some, List, [], ◌∷◌,
  ◌++◌, arith, take, select, update_where,
}

pub count-append :
    (p : DeliveryQueueItem → Bool) (xs ys : List DeliveryQueueItem)
    → count p (xs ++ ys) ≡ count p xs + count p ys
count-append p [] ys = omega arith
count-append p (x ∷ xs) ys = omega (arith, count-append p xs ys)

pub count-update_where-le :
    (p q : DeliveryQueueItem → Bool) (f : DeliveryQueueItem → DeliveryQueueItem)
    → ((r : DeliveryQueueItem) → q r ≡ true → p (f r) ≡ true → p r ≡ true)
    → (rows : List DeliveryQueueItem) → count p (update_where q f rows) ≤ count p rows
count-update_where-le p q f h [] = omega arith
count-update_where-le p q f h (r ∷ rs) = ground (arith, h r, count-update_where-le p q f h rs)

pub count-take-le :
    (p : DeliveryQueueItem → Bool) (n : ℕ) (rows : List DeliveryQueueItem)
    → count p (take n rows) ≤ count p rows
count-take-le p zero rows = omega arith
count-take-le p (suc n) [] = omega arith
count-take-le p (suc n) (r ∷ rs) = omega (arith, count-take-le p n rs)

pub count-select-le :
    (p q w : DeliveryQueueItem → Bool)
    → ((r : DeliveryQueueItem) → q r ≡ true → p r ≡ true → w r ≡ true)
    → (rows : List DeliveryQueueItem) → count p (select q rows) ≤ count w rows
count-select-le p q w h [] = omega arith
count-select-le p q w h (r ∷ rs) = ground (arith, h r, count-select-le p q w h rs)

pub count-le :
    (p w : DeliveryQueueItem → Bool)
    → ((r : DeliveryQueueItem) → p r ≡ true → w r ≡ true)
    → (rows : List DeliveryQueueItem) → count p rows ≤ count w rows
count-le p w h [] = omega arith
count-le p w h (r ∷ rs) = ground (arith, h r, count-le p w h rs)

module _ (p : DeliveryQueueItem → Bool) (stamp : ℕ → Text) (fails : ℕ → Bool)
    (h : (now : Text) (r : DeliveryQueueItem) → p (process now r) ≡ true → p r ≡ true) where
  -- Marking rows adds none to those that pass a test that marking does not establish.
  pub process_rows-le :
      (rs rows rows' : List DeliveryQueueItem)
      → process_rows stamp fails rs rows ≡ some rows'
      → count p rows' ≤ count p rows
  unfolding process_rows
  process_rows-le [] rows rows' e = ground arith
  process_rows-le (r ∷ rs) rows rows' e = ground (
    arith,
    process_rows-le rs (update_where (row_has_id r.id) (process (stamp r.id)) rows) rows',
    count-update_where-le p (row_has_id r.id) (process (stamp r.id)) (λ x y. h (stamp r.id) x) rows,
  )

-- A claim that was committed.
pub record Committed (now : Text) (stamp : ℕ → Text) (fails : ℕ → Bool) (limit : ℕ)
    (q : DeliveryQueue) : Type 0 where
  pub rows : List DeliveryQueueItem
  pub processed : process_rows stamp fails (batch now limit q) q.rows ≡ some rows
  pub result :
      claim_delivery_batch now stamp fails limit q
      ≡ (some (batch now limit q), record q { rows = rows })

-- A claim is rolled back and changes nothing, or it is committed.
pub claim-cases :
    (now : Text) (stamp : ℕ → Text) (fails : ℕ → Bool) (limit : ℕ) (q : DeliveryQueue)
    → (claim_delivery_batch now stamp fails limit q ≡ (none, q)) ⊎ Committed now stamp fails limit q
claim-cases now stamp fails limit q =
    by_work (process_rows stamp fails (batch now limit q) q.rows) refl
  where
    by_work :
        (work : Option (List DeliveryQueueItem))
        → process_rows stamp fails (batch now limit q) q.rows ≡ work
        → (claim_delivery_batch now stamp fails limit q ≡ (none, q))
          ⊎ Committed now stamp fails limit q
    by_work none e = inl (unfold claim_delivery_batch in ground arith)
    by_work (some rows) e = inr (record {
      rows = rows;
      processed = e;
      result = unfold claim_delivery_batch in ground arith;
    })
