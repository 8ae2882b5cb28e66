-- ===== src/Storage/Examples/Maps.antt =====
-- The refinement of `daemon_state` on concrete rows.
use codex_feishu.Prelude.{◌≡◌, refl, List, [], ◌∷◌}
use codex_feishu.Prelude.Text.{Text, codes}
use codex_feishu.Storage.State.{lookup}
use codex_feishu.Storage.State.Refinement.{
  StateCommand, get, put, put_if_absent, remove, run_state, run_ideal, Holds, run_state-refines,
}

abbrev rows : List (Text × Text)
rows = (codes "seen.1", codes "a") ∷ []

abbrev commands : List (StateCommand Text)
commands =
    put_if_absent (codes "seen.2") (codes "b")
    ∷ remove (codes "seen.1")
    ∷ get (codes "seen.2")
    ∷ put (codes "seen.2") (codes "c")
    ∷ []

run_state-refines_example :
    ((run_state [] commands rows).0 ≡ (run_ideal [] commands (λ j. lookup j rows)).0)
    × Holds [] (run_state [] commands rows).1 (run_ideal [] commands (λ j. lookup j rows)).1
run_state-refines_example =
    run_state-refines [] commands rows (λ j. lookup j rows) (record { reads = λ j. refl })
