-- ===== src/Storage/ExternalIds/Keys.antt =====
-- The two keys of the identifiers, and what the reads by each say.
use codex_feishu.Prelude.{ℕ, ◌≡◌, Bool, true, false, not, ◌&&◌, some, List, [], ◌∷◌, arith, any}
use codex_feishu.Prelude.Text.{Text, text_eq_iff, is_empty}
use codex_feishu.Storage.ExternalIds.{
  ExternalId, has_external, has_numeric, numeric_id_for, external_id_for_numeric, clashes,
}
use codex_feishu.Prelude.{ℕ, ◌≡◌, Bool, true, false, not, ◌&&◌, some, List, [], ◌∷◌, arith, any}

-- Both keys of the table stand once.
unfoldable pub distinct : List ExternalId → Bool
unfolding clashes
distinct [] = true
distinct (r ∷ rows) = not (any (clashes r) rows) && distinct rows

number_clashes :
    (r : ExternalId) (ns id : Text) (n : ℕ) (rows : List ExternalId)
    → has_numeric ns n r ≡ true
    → numeric_id_for ns id rows ≡ some n
    → any (clashes r) rows ≡ true
unfolding numeric_id_for clashes
number_clashes r ns id n [] h e = absurd cc
number_clashes r ns id n (s ∷ rows) h e = ground (
  arith,
  h,
  e,
  number_clashes r ns id n rows h,
  text_eq_iff r.namespace ns,
  text_eq_iff s.namespace ns,
  text_eq_iff r.namespace s.namespace,
)

id_clashes :
    (r : ExternalId) (ns id : Text) (n : ℕ) (rows : List ExternalId)
    → has_external ns id r ≡ true
    → is_empty id ≡ false
    → external_id_for_numeric ns n rows ≡ id
    → any (clashes r) rows ≡ true
unfolding external_id_for_numeric clashes
id_clashes r ns id n [] h v e = absurd (ground (arith, v, e))
id_clashes r ns id n (s ∷ rows) h v e = ground (
  arith,
  h,
  v,
  e,
  id_clashes r ns id n rows h v,
  text_eq_iff r.namespace ns,
  text_eq_iff s.namespace ns,
  text_eq_iff r.external_id id,
  text_eq_iff r.namespace s.namespace,
  text_eq_iff r.external_id s.external_id,
)

pub known_clashes :
    (r : ExternalId) (ns id : Text) (n : ℕ) (rows : List ExternalId)
    → has_external ns id r ≡ true
    → numeric_id_for ns id rows ≡ some n
    → any (clashes r) rows ≡ true
unfolding numeric_id_for clashes
known_clashes r ns id n [] h e = absurd cc
known_clashes r ns id n (s ∷ rows) h e = ground (
  arith,
  h,
  e,
  known_clashes r ns id n rows h,
  text_eq_iff r.namespace ns,
  text_eq_iff s.namespace ns,
  text_eq_iff r.external_id id,
  text_eq_iff s.external_id id,
  text_eq_iff r.namespace s.namespace,
  text_eq_iff r.external_id s.external_id,
)

pub by_number :
    (ns id : Text) (n : ℕ) (rows : List ExternalId)
    → distinct rows ≡ true
    → numeric_id_for ns id rows ≡ some n
    → external_id_for_numeric ns n rows ≡ id
unfolding distinct numeric_id_for external_id_for_numeric
by_number ns id n [] d e = absurd cc
by_number ns id n (r ∷ rows) d e = ground (
  arith,
  d,
  e,
  by_number ns id n rows,
  number_clashes r ns id n rows,
  text_eq_iff r.external_id id,
)

pub by_id :
    (ns id : Text) (n : ℕ) (rows : List ExternalId)
    → distinct rows ≡ true
    → is_empty id ≡ false
    → external_id_for_numeric ns n rows ≡ id
    → numeric_id_for ns id rows ≡ some n
unfolding distinct numeric_id_for external_id_for_numeric
by_id ns id n [] d v e = absurd (ground (arith, v, e))
by_id ns id n (r ∷ rows) d v e =
    ground
      (arith, d, v, e, by_id ns id n rows, id_clashes r ns id n rows, text_eq_iff r.external_id id)
