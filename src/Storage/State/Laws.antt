-- ===== src/Storage/State/Laws.antt =====
-- What the operations on `daemon_state` do to a read of any key.
use codex_feishu.Prelude.{
  ◌≡◌, refl, Bool, true, false, ◌&&◌, Option, none, some, List, [], ◌∷◌, ◌++◌, arith, if◌then◌else◌,
}
use codex_feishu.Prelude.Text.{Text, text_eq, text_eq_refl, text_eq_iff}
use codex_feishu.Storage.State.{lookup, set_state, set_state_if_absent, delete_state}

abbrev pub is_none {ℓ} : {A : Type ℓ} → Option A → Bool
is_none none = true
is_none (some x) = false

module _ {ℓ} {V : Type ℓ} where
  pub lookup-set_state :
      (k j : Text) (v : V) (rows : List (Text × V))
      → lookup j (set_state k v rows) ≡ (if text_eq k j then some v else lookup j rows)
  unfolding lookup set_state
  lookup-set_state k j v [] = refl
  lookup-set_state k j v ((i, w) ∷ rows) =
      ground (arith, text_eq_iff k j, text_eq_iff i k, text_eq_iff i j, lookup-set_state k j v rows)

  pub lookup-delete_state :
      (k j : Text) (rows : List (Text × V))
      → lookup j (delete_state k rows) ≡ (if text_eq k j then none else lookup j rows)
  unfolding lookup delete_state
  lookup-delete_state k j [] = ground arith
  lookup-delete_state k j ((i, w) ∷ rows) =
      ground
        (arith, text_eq_iff k j, text_eq_iff i k, text_eq_iff i j, lookup-delete_state k j rows)

  lookup-snoc :
      (k j : Text) (v : V) (rows : List (Text × V))
      → lookup j (rows ++ (k, v) ∷ [])
        ≡ elim (lookup j rows) [ none ↦ if text_eq k j then some v else none | some w ↦ some w ]
  unfolding lookup
  lookup-snoc k j v [] = refl
  lookup-snoc k j v ((i, w) ∷ rows) = ground (arith, lookup-snoc k j v rows)

  -- `SetStateIfAbsent` inserts exactly when the key was missing, and then only that key's read
  -- changes; a claimed key keeps the value of the first claim.
  pub set_state_if_absent_claims :
      (k j : Text) (v w : V) (rows : List (Text × V))
      → ((set_state_if_absent k v rows).0 ≡ is_none (lookup k rows))
        × (lookup j (set_state_if_absent k v rows).1
            ≡ (if text_eq k j && (set_state_if_absent k v rows).0 then some v else lookup j rows))
        × ((set_state_if_absent k w (set_state_if_absent k v rows).1).0 ≡ false)
  unfolding set_state_if_absent
  set_state_if_absent_claims k j v w rows = (
    ground arith,
    ground (arith, lookup-snoc k j v rows, text_eq_iff k j),
    ground (arith, lookup-snoc k k v rows, text_eq_refl k),
  )
