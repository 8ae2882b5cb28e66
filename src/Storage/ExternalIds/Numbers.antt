-- ===== src/Storage/ExternalIds/Numbers.antt =====
-- The numbers of identifiers, once they are given.
use codex_feishu.Prelude.{
  ℕ, zero, suc, ◌≡◌, refl, sym, ◌∙◌, subst, Bool, true, false, ◌||◌, Option, none, some, List, ◌∷◌,
  arith, if◌then◌else◌, any,
}
use codex_feishu.Prelude.Text.{
  Text, text_eq_refl, is_empty, text_eq, text_eq_eq, trim_space, is_blank,
}
use codex_feishu.Storage.ExternalIds.{
  ExternalId, numeric_id_for, external_id_for_numeric, clashes, insert_external_id, IdEnv,
  stable_external_numeric_id, inserted, resolve_from, resolve_external_id,
}
use codex_feishu.Storage.ExternalIds.Keys.{distinct, known_clashes, by_number, by_id}

-- What a call leaves: the keys stay distinct, every number that was given stays, and the number that
-- the call gives is that of the identifier, in both directions.
pub record IsResolved (ns id : Text) (rows : List ExternalId) (r : Option ℕ × List ExternalId)
    : Type 0 where
  pub keys : distinct r.1 ≡ true
  pub keeps :
      (other_ns other_id : Text) (n : ℕ)
      → numeric_id_for other_ns other_id rows ≡ some n
      → numeric_id_for other_ns other_id r.1 ≡ some n
  pub given :
      (n : ℕ)
      → r.0 ≡ some n
      → (numeric_id_for ns id r.1 ≡ some n) × (external_id_for_numeric ns n r.1 ≡ id)

unchanged-IsResolved :
    (ns id : Text) (rows : List ExternalId) (o : Option ℕ)
    → distinct rows ≡ true
    → ((n : ℕ) → o ≡ some n → numeric_id_for ns id rows ≡ some n)
    → IsResolved ns id rows (o, rows)
unchanged-IsResolved ns id rows o d h = record {
  keys = d;
  keeps = λ a b n e. e;
  given = λ n e. (h n e, by_number ns id n rows d (h n e));
}

written-IsResolved :
    (ns id : Text) (m : ℕ) (rows : List ExternalId)
    → distinct rows ≡ true
    → any (clashes (record { namespace = ns; external_id = id; numeric_id = m })) rows ≡ false
    → IsResolved ns id rows
        (some m, record { namespace = ns; external_id = id; numeric_id = m } ∷ rows)
unfolding distinct numeric_id_for external_id_for_numeric
written-IsResolved ns id m rows d c =
    let r : ExternalId = record { namespace = ns; external_id = id; numeric_id = m } in
    record {
      keys = ground (arith, d, c);
      keeps = λ a b n e. ground (arith, e, c, known_clashes r a b n rows);
      given = λ n e.
          (ground (arith, e, text_eq_refl ns, text_eq_refl id), ground (arith, e, text_eq_refl ns));
    }

if-IsResolved :
    (ns id : Text) (rows : List ExternalId) (b : Bool) (r q : Option ℕ × List ExternalId)
    → (b ≡ true → IsResolved ns id rows r)
    → IsResolved ns id rows q
    → IsResolved ns id rows (if b then r else q)
if-IsResolved ns id rows true r q h k = h refl
if-IsResolved ns id rows false r q h k = k

failed-IsResolved :
    (ns id : Text) (rows : List ExternalId)
    → distinct rows ≡ true
    → IsResolved ns id rows (none, rows)
failed-IsResolved ns id rows d = unchanged-IsResolved ns id rows none d (λ n e. absurd cc)

module _ (env : IdEnv) (ns id : Text) (visible : is_empty id ≡ false) where
  inserted-some :
      (attempt : ℕ) (r : ExternalId) (rows written : List ExternalId)
      → inserted env attempt r rows ≡ some written
      → (any (clashes r) rows ≡ false) × (written ≡ r ∷ rows)
  unfolding insert_external_id
  inserted-some attempt r rows written h = ground (arith, h)

  resolve_from-IsResolved :
      (rounds attempt : ℕ) (rows : List ExternalId)
      → distinct rows ≡ true
      → IsResolved ns id rows (resolve_from env ns id rounds attempt rows)
  unfolding resolve_from
  resolve_from-IsResolved zero attempt rows d = failed-IsResolved ns id rows d
  resolve_from-IsResolved (suc rounds) attempt rows d =
      by_insert _ refl (resolve_from-IsResolved rounds (suc attempt) rows d)
    where
      m : ℕ
      m = stable_external_numeric_id env ns id attempt

      r : ExternalId
      r = record { namespace = ns; external_id = id; numeric_id = m }

      existing : Text
      existing = external_id_for_numeric ns m rows

      same :
          (n : ℕ)
          → text_eq existing id ≡ true
          → some m ≡ some n
          → numeric_id_for ns id rows ≡ some n
      same n e h = by_id ns id m rows d visible (text_eq_eq existing id e) ∙ h

      by_insert :
          (o : Option (List ExternalId))
          → inserted env attempt r rows ≡ o
          → IsResolved ns id rows (resolve_from env ns id rounds (suc attempt) rows)
          → IsResolved ns id rows (elim o [
            | some written ↦ (some m, written)
            | none ↦
                if env.lookup_fails attempt
                then (none, rows)
                else if text_eq existing id
                then (some m, rows)
                else if is_empty existing
                then (none, rows)
                else resolve_from env ns id rounds (suc attempt) rows
          ])
      by_insert (some written) e later =
          let w = inserted-some attempt r rows written e in
          subst (λ x. IsResolved ns id rows (some m, x)) (sym w.1)
            (written-IsResolved ns id m rows d w.0)
      by_insert none e later =
          if-IsResolved ns id rows (env.lookup_fails attempt) _ _
            (λ x. failed-IsResolved ns id rows d)
            (if-IsResolved ns id rows (text_eq existing id) _ _
              (λ x. unchanged-IsResolved ns id rows (some m) d (λ n. same n x))
              (if-IsResolved ns id rows (is_empty existing) _ _
                (λ x. failed-IsResolved ns id rows d) later))

-- Where the keys of the table are distinct and neither the namespace nor the identifier is blank, the
-- number that a call gives is that of the identifier from then on, and reads back as the identifier,
-- whatever reads, inserts and lookups fail; the keys stay distinct, and no number that was given changes.
pub resolve_external_id-IsResolved :
    (env : IdEnv) (ns id : Text) (rows : List ExternalId)
    → distinct rows ≡ true
    → is_blank ns ≡ false
    → is_blank id ≡ false
    → IsResolved (trim_space ns) (trim_space id) rows (resolve_external_id env ns id rows)
unfolding resolve_external_id is_blank
resolve_external_id-IsResolved env ns id rows d h k =
    named (is_empty (trim_space ns) || is_empty (trim_space id)) (ground (arith, h, k))
  where
    new : Option ℕ × List ExternalId
    new = resolve_from env (trim_space ns) (trim_space id) 1024 0 rows

    known :
        (o : Option ℕ)
        → numeric_id_for (trim_space ns) (trim_space id) rows ≡ o
        → IsResolved
            (trim_space ns)
            (trim_space id)
            rows
            (elim o [ some n ↦ (some n, rows) | none ↦ new ])
    known none e = resolve_from-IsResolved env (trim_space ns) (trim_space id) k 1024 0 rows d
    known (some n) e = unchanged-IsResolved _ _ rows (some n) d (λ m x. e ∙ x)

    named :
        (b : Bool)
        → b ≡ false
        → IsResolved (trim_space ns) (trim_space id) rows (
            if b
            then (some 0, rows)
            else if env.select_fails
            then (none, rows)
            else elim (numeric_id_for (trim_space ns) (trim_space id) rows) [
              | some n ↦ (some n, rows)
              | none ↦ new
            ])
    named true x = absurd cc
    named false x =
        if-IsResolved _ _ rows env.select_fails _ _ (λ y. failed-IsResolved _ _ rows d)
          (known _ refl)
