-- ===== src/Storage/ExternalIds.antt =====
-- internal/storage/store.go, the table `external_id_maps`: numbers for the identifiers of Feishu. Its
-- times are read by no code and left out. No query depends on the order of the rows, since each key
-- stands once (PRIMARY KEY and UNIQUE); a new row stands first here.
use codex_feishu.Prelude.{
  ℕ, zero, suc, ◌%◌, ◌^◌, Bool, ◌&&◌, ◌||◌, Option, none, some, List, [], ◌∷◌, ◌==◌, if◌then◌else◌,
  any,
}
pub mod Keys
pub mod Numbers
use codex_feishu.Prelude.Text.{Text, text_eq, trim_space, is_empty}

pub record ExternalId : Type 0 where
  pub namespace : Text
  pub external_id : Text
  pub numeric_id : ℕ

abbrev pub has_external : Text → Text → ExternalId → Bool
has_external ns id r = text_eq r.namespace ns && text_eq r.external_id id

abbrev pub has_numeric : Text → ℕ → ExternalId → Bool
has_numeric ns n r = text_eq r.namespace ns && r.numeric_id == n

-- `SELECT numeric_id FROM external_id_maps WHERE namespace = ? AND external_id = ?`
unfoldable pub numeric_id_for : Text → Text → List ExternalId → Option ℕ
unfolding text_eq
numeric_id_for ns id [] = none
numeric_id_for ns id (r ∷ rows) =
    if has_external ns id r then some r.numeric_id else numeric_id_for ns id rows

-- `externalIDForNumeric`, where a missing row reads as the empty text.
unfoldable pub external_id_for_numeric : Text → ℕ → List ExternalId → Text
unfolding text_eq
external_id_for_numeric ns n [] = []
external_id_for_numeric ns n (r ∷ rows) =
    if has_numeric ns n r then r.external_id else external_id_for_numeric ns n rows

-- The two keys of the table.
unfoldable pub clashes : ExternalId → ExternalId → Bool
unfolding text_eq
clashes r s =
    text_eq r.namespace s.namespace
    && (text_eq r.external_id s.external_id || r.numeric_id == s.numeric_id)

-- The insert: it fails where a key is taken.
unfoldable pub insert_external_id : ExternalId → List ExternalId → Option (List ExternalId)
unfolding clashes
insert_external_id r rows = if any (clashes r) rows then none else some (r ∷ rows)

-- What the database and SHA-256 give: whether the first read fails, or the insert or the lookup of an
-- attempt, and the first eight bytes of the hash as a number.
pub record IdEnv : Type 0 where
  pub digest : Text → Text → ℕ → ℕ
  pub select_fails : Bool
  pub insert_fails : ℕ → Bool
  pub lookup_fails : ℕ → Bool

module _ (env : IdEnv) where
  -- `stableExternalNumericID`: 63 bits, and 1 for 0.
  unfoldable pub stable_external_numeric_id : Text → Text → ℕ → ℕ
  stable_external_numeric_id ns id attempt =
      let value = env.digest ns id attempt % 2 ^ 63 in if value == 0 then 1 else value

  abbrev pub inserted : ℕ → ExternalId → List ExternalId → Option (List ExternalId)
  inserted attempt r rows = if env.insert_fails attempt then none else insert_external_id r rows

  -- The loop of `ResolveExternalID`, with the attempts that are left: the number, or `none` for an
  -- error, and the rows.
  unfoldable pub resolve_from : Text → Text → ℕ → ℕ → List ExternalId → Option ℕ × List ExternalId
  unfolding stable_external_numeric_id insert_external_id external_id_for_numeric text_eq
  resolve_from ns id zero attempt rows = (none, rows)
  resolve_from ns id (suc rounds) attempt rows =
      let n = stable_external_numeric_id ns id attempt in
      let existing = external_id_for_numeric ns n rows in
      let next = resolve_from ns id rounds (suc attempt) rows in
      elim (inserted attempt (record { namespace = ns; external_id = id; numeric_id = n }) rows) [
        | some written ↦ (some n, written)
        | none ↦
            if env.lookup_fails attempt
            then (none, rows)
            else if text_eq existing id
            then (some n, rows)
            else if is_empty existing
            then (none, rows)
            else next
      ]

  -- `ResolveExternalID`
  unfoldable pub resolve_external_id : Text → Text → List ExternalId → Option ℕ × List ExternalId
  unfolding trim_space numeric_id_for resolve_from
  resolve_external_id given_namespace given_id rows =
      let ns = trim_space given_namespace in
      let id = trim_space given_id in
      let new = resolve_from ns id 1024 0 rows in
      if is_empty ns || is_empty id
      then (some 0, rows)
      else if env.select_fails
      then (none, rows)
      else elim (numeric_id_for ns id rows) [ some n ↦ (some n, rows) | none ↦ new ]
