-- ===== src/Daemon/TerminalGate/Closed.antt =====
-- Runs of polls of any turns after one turn is closed.
use codex_feishu.Prelude.{
  ℕ, ◌≡◌, refl, sym, ◌∙◌, inl, inr, Bool, true, false, ◌&&◌, ◌||◌, Option, none, some, List, [],
  ◌∷◌, arith, ◌==◌, if◌then◌else◌, Bool-cases, &&-left, &&-right, All,
}
use codex_feishu.Prelude.Text.{Text, text_eq, text_eq_eq, is_empty}
use codex_feishu.AppServer.Snapshot.{ThreadReadSnapshot}
use codex_feishu.Storage.State.{get_state}
use codex_feishu.Storage.State.Laws.{lookup-set_state}
use codex_feishu.Daemon.Signals.{terminal_gate_snapshot_ids}
use codex_feishu.Daemon.TerminalGate.State.{
  DecisionKind, accept, defer, recover, missing_thread_or_turn, Decision, GateState, time, State,
  Env, defer_key_of, explicit_interrupt_key, terminal_logged_key,
}
use codex_feishu.Daemon.TerminalGate.Marks.{
  set_value, value_is_blank, has_explicit_interrupt, has_terminal_logged, load_defer,
}
use codex_feishu.Daemon.TerminalGate.Decide.{
  Outcome, returns, settle, expire, hold, defer_or_expire, decide_loaded, first_decision,
  decide_read, decide_turn, decide,
}
use codex_feishu.Daemon.TerminalGate.Keys.{
  IsTurn, defer-apart-explicit, defer-apart-logged, logged-apart-explicit,
}
use codex_feishu.Daemon.TerminalGate.Frame.{set_value-other, Kept, decide_kept}
use codex_feishu.Daemon.TerminalGate.Deadline.{
  marked, IsClosed, marked_same, has_explicit-marked, has_logged-marked,
}
use codex_feishu.Daemon.TerminalGate.Safety.{decide-IsJustified}
use codex_feishu.Daemon.TerminalGate.Polls.{Poll, run_polls}
use mathlib.Core.Path.{subst₂}

-- The outcome is a deferral of this turn.
abbrev pub defers : Text → Text → Outcome → Bool
defers thread turn o =
    text_eq o.decision.thread_id thread
    && text_eq o.decision.turn_id turn
    && elim o.decision.action [ accept ↦ false | defer ↦ true | recover ↦ false ]

is_deferral :
    (a : DecisionKind)
    → elim a [ accept ↦ false | defer ↦ true | recover ↦ false ] ≡ true
    → a ≡ defer
is_deferral accept e = absurd cc
is_deferral defer e = refl
is_deferral recover e = absurd cc

-- What an outcome that defers this turn says.
record Defers (thread turn : Text) (o : Outcome) : Type 0 where
  same_thread : o.decision.thread_id ≡ thread
  same_turn : o.decision.turn_id ≡ turn
  deferral : o.decision.action ≡ defer

defers-Defers :
    (thread turn : Text) (o : Outcome) → defers thread turn o ≡ true → Defers thread turn o
defers-Defers thread turn o e =
    let l = &&-left _ _ e in
    record {
      same_thread = text_eq_eq o.decision.thread_id thread (&&-left _ _ l);
      same_turn = text_eq_eq o.decision.turn_id turn (&&-right _ _ l);
      deferral = is_deferral o.decision.action (&&-right _ _ e);
    }

-- A decision is on the turn of its snapshot.
record SameTurn (d : Decision) (o : Outcome) : Type 0 where
  thread : o.decision.thread_id ≡ d.thread_id
  turn : o.decision.turn_id ≡ d.turn_id

decide_loaded-SameTurn :
    (env : Env) (now : ℕ) (snap : Option ThreadReadSnapshot) (d : Decision) (logged : Bool)
    (existing : Option GateState) (st : State)
    → SameTurn d (decide_loaded env now snap d logged existing st)
unfolding decide_loaded settle defer_or_expire expire hold
decide_loaded-SameTurn env now snap d logged none st = ground arith
decide_loaded-SameTurn env now snap d logged (some s) st = ground arith

decide_read-SameTurn :
    (env : Env) (now : ℕ) (snap : Option ThreadReadSnapshot) (d : Decision)
    (explicit logged : Option Bool) (existing : Option (Option GateState)) (st : State)
    → SameTurn d (decide_read env now snap d explicit logged existing st)
unfolding decide_read
decide_read-SameTurn env now snap d none logged existing st = record { thread = refl; turn = refl }
decide_read-SameTurn env now snap d (some e) none existing st = record {
  thread = refl;
  turn = refl;
}
decide_read-SameTurn env now snap d (some e) (some l) none st = record {
  thread = refl;
  turn = refl;
}
decide_read-SameTurn env now snap d (some e) (some l) (some found) st =
    let r = decide_loaded-SameTurn env now snap _ l found st in
    record { thread = r.thread; turn = r.turn }

if-SameTurn :
    (b : Bool) (d : Decision) (x y : Outcome)
    → SameTurn d x
    → SameTurn d y
    → SameTurn d (if b then x else y)
if-SameTurn true d x y p q = p
if-SameTurn false d x y p q = q

decide_turn-SameTurn :
    (env : Env) (now : ℕ) (snap : Option ThreadReadSnapshot) (d : Decision) (st : State)
    → SameTurn d (decide_turn env now snap d st)
unfolding decide_turn
decide_turn-SameTurn env now snap d st =
    if-SameTurn (is_empty d.thread_id || is_empty d.turn_id) d
      (returns (record d { reason = missing_thread_or_turn }) st) _
      (record { thread = refl; turn = refl })
      (decide_read-SameTurn env now snap d (has_explicit_interrupt env d.thread_id d.turn_id st)
        (has_terminal_logged env d.thread_id d.turn_id st)
        (load_defer env d.thread_id d.turn_id now st) st)

decide-SameTurn :
    (env : Env) (given : ℕ) (snap : Option ThreadReadSnapshot) (st : State)
    → SameTurn (first_decision env snap) (decide env given snap st)
unfolding decide
decide-SameTurn env given snap st =
    decide_turn-SameTurn env (if given == 0 then env.clock else given) snap
      (first_decision env snap) st

set_time-marked :
    (env : Env) (k l : Text) (t : ℕ) (st : State)
    → marked l st ≡ true
    → marked l (set_value env k (time t) st).1 ≡ true
unfolding set_value get_state value_is_blank
set_time-marked env k l t st h = ground (arith, lookup-set_state k l (time t) st)

module _ {thread turn : Text} (h : IsTurn thread turn) where
  -- What the gate writes for any turn leaves this one closed.
  IsClosed-Kept : (env : Env) (t u : Text) → Kept env t u (IsClosed thread turn)
  IsClosed-Kept env t u =
      let x = explicit_interrupt_key thread turn in
      let l = terminal_logged_key thread turn in
      record {
        by_defer = λ v st c.
            let st' = (set_value env (defer_key_of t u) v st).1 in
            rw
              (
                marked_same x st' st (set_value-other env x st _ v (defer-apart-explicit h t u)),
                marked_same l st' st (set_value-other env l st _ v (defer-apart-logged h t u)),
              )
              c;
        by_logged = λ n st c.
            let k = terminal_logged_key t u in
            ground (
              arith,
              marked_same x (set_value env k (time n) st).1 st
                  (set_value-other env x st k (time n) (logged-apart-explicit h t u)),
              set_time-marked env k l n st,
              c,
            );
      }

  not-IsClosed :
      (env : Env) (st : State)
      → has_explicit_interrupt env thread turn st ≡ some false
      → has_terminal_logged env thread turn st ≡ some false
      → ¬ IsClosed thread turn st
  not-IsClosed env st x l closed =
      cc (has_explicit-marked h env st x, has_logged-marked h env st l, closed)

  decide-closed :
      (env : Env) (given : ℕ) (snap : Option ThreadReadSnapshot) (st : State)
      → IsClosed thread turn st
      → defers thread turn (decide env given snap st) ≡ false
  unfolding first_decision
  decide-closed env given snap st c =
      elim (Bool-cases (defers thread turn (decide env given snap st))) [
        | inl e ↦ absurd (not_deferred (defers-Defers thread turn (decide env given snap st) e))
        | inr e ↦ e
      ]
    where
      not_deferred : ¬ Defers thread turn (decide env given snap st)
      not_deferred k =
          let same = decide-SameTurn env given snap st in
          let et : (terminal_gate_snapshot_ids snap).0 ≡ thread = sym same.thread ∙ k.same_thread in
          let eu : (terminal_gate_snapshot_ids snap).1 ≡ turn = sym same.turn ∙ k.same_turn in
          let j = decide-IsJustified env given snap st k.deferral in
          not-IsClosed env st
            (subst₂ (λ t u. has_explicit_interrupt env t u st ≡ some false) et eu j.not_explicit)
            (subst₂ (λ t u. has_terminal_logged env t u st ≡ some false) et eu j.not_logged) c

  -- Once a turn is closed, no poll of any later run defers it.
  pub run_polls-closed :
      (ps : List Poll) (st : State)
      → IsClosed thread turn st
      → All (λ o. defers thread turn o ≡ false) (run_polls ps st)
  unfolding run_polls
  run_polls-closed [] st c = tt
  run_polls-closed (p ∷ ps) st c = (
    decide-closed p.env p.given p.snapshot st c,
    run_polls-closed ps _ (
        decide_kept p.env p.given p.snapshot (IsClosed thread turn) st (IsClosed-Kept p.env _ _) c),
  )
