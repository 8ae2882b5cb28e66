-- ===== src/Storage/State/Refinement.antt =====
-- `daemon_state` as a finite map: what any sequence of its operations answers.
use codex_feishu.Prelude.{
  ◌≡◌, refl, ap, ◌∙◌, Bool, ◌&&◌, Option, none, some, List, [], ◌∷◌, if◌then◌else◌,
}
use codex_feishu.Prelude.Text.{Text, text_eq}
use codex_feishu.Storage.State.{lookup, set_state, set_state_if_absent, delete_state, get_state}
use codex_feishu.Storage.State.Laws.{
  is_none, lookup-set_state, lookup-delete_state, set_state_if_absent_claims,
}

module _ {ℓ} (V : Type ℓ) where
  -- The operations of the store on the table, and their answers.
  pub data StateCommand : Type ℓ where
    get : Text → StateCommand
    put : Text → V → StateCommand
    put_if_absent : Text → V → StateCommand
    remove : Text → StateCommand

  pub data StateReply : Type ℓ where
    value : V → StateReply
    claimed : Bool → StateReply
    done : StateReply

module _ {ℓ} {V : Type ℓ} (absent : V) where
  -- One operation, on the rows.
  unfoldable pub state_step : StateCommand V → List (Text × V) → StateReply V × List (Text × V)
  unfolding get_state set_state set_state_if_absent delete_state
  state_step (get k) rows = (value (get_state absent k rows), rows)
  state_step (put k v) rows = (done, set_state k v rows)
  state_step (put_if_absent k v) rows =
      (claimed (set_state_if_absent k v rows).0, (set_state_if_absent k v rows).1)
  state_step (remove k) rows = (done, delete_state k rows)

  unfoldable pub run_state :
      List (StateCommand V) → List (Text × V) → List (StateReply V) × List (Text × V)
  unfolding state_step
  run_state [] rows = ([], rows)
  run_state (c ∷ cs) rows =
      let r = state_step c rows in let rest = run_state cs r.1 in (r.0 ∷ rest.0, rest.1)

  -- One operation, on a map from keys to values.
  unfoldable pub ideal_step : StateCommand V → (Text → Option V) → StateReply V × (Text → Option V)
  unfolding text_eq
  ideal_step (get k) m = (value (elim (m k) [ none ↦ absent | some v ↦ v ]), m)
  ideal_step (put k v) m = (done, λ j. if text_eq k j then some v else m j)
  ideal_step (put_if_absent k v) m =
      (claimed (is_none (m k)), λ j. if text_eq k j && is_none (m k) then some v else m j)
  ideal_step (remove k) m = (done, λ j. if text_eq k j then none else m j)

  unfoldable pub run_ideal :
      List (StateCommand V) → (Text → Option V) → List (StateReply V) × (Text → Option V)
  unfolding ideal_step
  run_ideal [] m = ([], m)
  run_ideal (c ∷ cs) m =
      let r = ideal_step c m in let rest = run_ideal cs r.1 in (r.0 ∷ rest.0, rest.1)

  -- The rows hold the map.
  pub record Holds (rows : List (Text × V)) (m : Text → Option V) : Type ℓ where
    pub reads : (j : Text) → lookup j rows ≡ m j

  -- The answers agree, and the rows hold the map afterwards.
  record Agrees (r : StateReply V × List (Text × V)) (q : StateReply V × (Text → Option V))
      : Type ℓ where
    reply : r.0 ≡ q.0
    holds : Holds r.1 q.1

  step-Agrees :
      (c : StateCommand V) (rows : List (Text × V)) (m : Text → Option V)
      → Holds rows m
      → Agrees (state_step c rows) (ideal_step c m)
  unfolding state_step ideal_step get_state
  step-Agrees (get k) rows m h = record {
    reply = ap (λ o. value (elim o [ none ↦ absent | some v ↦ v ])) (h.reads k);
    holds = h;
  }
  step-Agrees (put k v) rows m h = record {
    reply = refl;
    holds = record {
      reads = λ j.
          lookup-set_state k j v rows ∙ ap (λ o. if text_eq k j then some v else o) (h.reads j);
    };
  }
  step-Agrees (put_if_absent k v) rows m h =
      let e = ap is_none (h.reads k) in
      record {
        reply = ap claimed ((set_state_if_absent_claims k k v v rows).0 ∙ e);
        holds = record {
          reads = λ j.
              (set_state_if_absent_claims k j v v rows).1
              ∙ ap (λ b. if text_eq k j && b then some v else lookup j rows)
                  ((set_state_if_absent_claims k j v v rows).0 ∙ e)
              ∙ ap (λ o. if text_eq k j && is_none (m k) then some v else o) (h.reads j);
        };
      }
  step-Agrees (remove k) rows m h = record {
    reply = refl;
    holds = record {
      reads =
          λ j. lookup-delete_state k j rows ∙ ap (λ o. if text_eq k j then none else o) (h.reads j);
    };
  }

  -- Rows that hold a map answer a sequence of operations as the map does, and hold what the map has
  -- become.
  pub run_state-refines :
      (cs : List (StateCommand V)) (rows : List (Text × V)) (m : Text → Option V)
      → Holds rows m
      → ((run_state cs rows).0 ≡ (run_ideal cs m).0)
        × Holds (run_state cs rows).1 (run_ideal cs m).1
  unfolding run_state run_ideal
  run_state-refines [] rows m h = (refl, h)
  run_state-refines (c ∷ cs) rows m h =
      let s = step-Agrees c rows m h in
      let rest = run_state-refines cs (state_step c rows).1 (ideal_step c m).1 s.holds in
      (cc (s.reply, rest.0), rest.1)
