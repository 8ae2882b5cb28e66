-- ===== src/Storage/State.antt =====
-- internal/storage/store.go, the table `daemon_state`: a key is held once (PRIMARY KEY). No code
-- reads its column `updated_at`, which is left out. The values are those of the caller.
use codex_feishu.Prelude.{
  ◌+◌, Bool, true, false, Option, none, some, List, [], ◌∷◌, ◌++◌, if◌then◌else◌,
}
pub mod Laws
pub mod Refinement
use codex_feishu.Prelude.Text.{Text, text_eq}

module _ {ℓ} {V : Type ℓ} where
  -- `SELECT value FROM daemon_state WHERE key = ?`
  unfoldable pub lookup : Text → List (Text × V) → Option V
  lookup k [] = none
  lookup k ((j, v) ∷ rows) = if text_eq j k then some v else lookup k rows

  -- `SetState`: an insert that updates the row in case of a conflict.
  unfoldable pub set_state : Text → V → List (Text × V) → List (Text × V)
  set_state k v [] = (k, v) ∷ []
  set_state k v ((j, w) ∷ rows) = if text_eq j k then (j, v) ∷ rows else (j, w) ∷ set_state k v rows

  -- `SetStateIfAbsent`: an insert that does nothing in case of a conflict, and whether it inserted.
  unfoldable pub set_state_if_absent : Text → V → List (Text × V) → Bool × List (Text × V)
  set_state_if_absent k v rows = elim (lookup k rows) [
    | none ↦ (true, rows ++ (k, v) ∷ [])
    | some w ↦ (false, rows)
  ]

  -- `DeleteState`
  unfoldable pub delete_state : Text → List (Text × V) → List (Text × V)
  delete_state k [] = []
  delete_state k ((j, v) ∷ rows) =
      if text_eq j k then delete_state k rows else (j, v) ∷ delete_state k rows

  -- `GetState`, where a missing key reads as the empty text.
  unfoldable pub get_state : V → Text → List (Text × V) → V
  get_state absent k rows = elim (lookup k rows) [ none ↦ absent | some v ↦ v ]
