-- ===== src/Daemon/TerminalGate/Polls.antt =====
-- Repeated polls of one turn whose snapshots stay interrupted.
use codex_feishu.Prelude.{
  ℕ, ◌<◌, ◌≡◌, refl, sym, ◌∙◌, ◌⊎◌, inl, inr, Bool, true, false, ◌&&◌, ◌||◌, Option, none, some,
  List, [], ◌∷◌, arith, ltb, ◌==◌, if◌then◌else◌, All,
}
use codex_feishu.Daemon.TerminalGate.Safety.{first_decision-accept, first_decision-accept}
use codex_feishu.Prelude.Text.{Text}
use mathlib.Core.Path.{subst₂}
use codex_feishu.AppServer.Snapshot.{ThreadReadSnapshot}
use codex_feishu.Storage.State.{get_state}
use codex_feishu.Daemon.Signals.{
  snapshot_has_final_signal, is_deferrable_interrupted_snapshot, is_empty_interrupted_snapshot,
  terminal_gate_snapshot_ids,
}
use codex_feishu.Daemon.TerminalGate.State.{
  accept, Decision, GateState, State, Env, defer, DecisionKind, recover,
}
use codex_feishu.Daemon.TerminalGate.Marks.{has_explicit_interrupt, has_terminal_logged, load_defer}
use codex_feishu.Daemon.TerminalGate.Decide.{
  Outcome, decide_loaded, decide_read, decide, first_decision, decide_turn,
}
use codex_feishu.Daemon.TerminalGate.Keys.{IsTurn, defer_given}
use codex_feishu.Daemon.TerminalGate.Deadline.{
  IsHeld, IsClosed, Bounded, has_explicit-marked, has_logged-marked, cleared-Bounded,
  decide_loaded-held,
}

-- One call of the gate: what it meets, its instant, and the snapshot that was read.
pub record Poll : Type 0 where
  pub env : Env
  pub given : ℕ
  pub snapshot : Option ThreadReadSnapshot

-- The snapshot shows this turn interrupted and without a final answer, and writes succeed.
pub record IsPending (thread turn : Text) (p : Poll) : Type 0 where
  pub same_thread : (terminal_gate_snapshot_ids p.snapshot).0 ≡ thread
  pub same_turn : (terminal_gate_snapshot_ids p.snapshot).1 ≡ turn
  pub deferrable : is_deferrable_interrupted_snapshot p.snapshot ≡ true
  pub no_final : snapshot_has_final_signal p.snapshot ≡ false
  pub writes : (k : Text) → p.env.set_fails k ≡ false

unfoldable pub run_polls : List Poll → State → List Outcome
run_polls [] st = []
run_polls (p ∷ ps) st = let o = decide p.env p.given p.snapshot st in o ∷ run_polls ps o.store

module _ (env : Env) (writes : (k : Text) → env.set_fails k ≡ false) (now : ℕ)
    (snap : Option ThreadReadSnapshot) (nofinal : snapshot_has_final_signal snap ≡ false)
    (deferrable : is_deferrable_interrupted_snapshot snap ≡ true) (d : Decision)
    (h : IsTurn d.thread_id d.turn_id) (a : d.action ≡ accept) (st : State) (limit : ℕ) where
  unchanged-Bounded :
      (e : Decision)
      → e.action ≡ accept
      → IsHeld d.thread_id d.turn_id limit st ⊎ IsClosed d.thread_id d.turn_id st
      → Bounded d.thread_id d.turn_id limit (record { decision = e; done = false; store = st })
  unchanged-Bounded e b next = record { in_time = λ x. absurd (ground arith); next = next }

  load_defer-held :
      (held : IsHeld d.thread_id d.turn_id limit st) {found : Option GateState}
      → load_defer env d.thread_id d.turn_id now st ≡ some found
      → found ≡ some held.state
  unfolding load_defer get_state
  load_defer-held held e = ground (arith, held.found, defer_given h)

  decide_read-held :
      (explicit logged : Option Bool) (existing : Option (Option GateState))
      → 0 < limit
      → IsHeld d.thread_id d.turn_id limit st
      → has_explicit_interrupt env d.thread_id d.turn_id st ≡ explicit
      → has_terminal_logged env d.thread_id d.turn_id st ≡ logged
      → load_defer env d.thread_id d.turn_id now st ≡ existing
      → Bounded d.thread_id d.turn_id limit (decide_read env now snap d explicit logged existing st)
  unfolding decide_read
  decide_read-held none logged existing pos held x l f = unchanged-Bounded _ a (inl held)
  decide_read-held (some e) none existing pos held x l f = unchanged-Bounded _ a (inl held)
  decide_read-held (some e) (some g) none pos held x l f = unchanged-Bounded _ a (inl held)
  decide_read-held (some e) (some g) (some found) pos held x l f = rw (load_defer-held held f) (
      decide_loaded-held env writes now snap _ h st held.state g limit pos a deferrable nofinal
        held.found held.deadline
        (λ c. rw (has_explicit-marked h env st x, has_logged-marked h env st l) c))

  decide_loaded-closed :
      (e g : Bool) (found : Option GateState)
      → IsClosed d.thread_id d.turn_id st
      → (e || g) ≡ true
      → Bounded d.thread_id d.turn_id limit (
          decide_loaded env now snap
            (record d {
              explicit_interrupt = e;
              empty_interrupted = is_empty_interrupted_snapshot snap;
              deferrable_interrupted = is_deferrable_interrupted_snapshot snap;
            })
            g
            found
            st)
  unfolding decide_loaded
  decide_loaded-closed true g found closed c =
      simp deferrable (cleared-Bounded env writes now snap d h st limit _ closed a)
  decide_loaded-closed false true found closed c =
      simp deferrable (cleared-Bounded env writes now snap d h st limit _ closed a)
  decide_loaded-closed false false found closed c = cc

  decide_read-closed :
      (explicit logged : Option Bool) (existing : Option (Option GateState))
      → IsClosed d.thread_id d.turn_id st
      → has_explicit_interrupt env d.thread_id d.turn_id st ≡ explicit
      → has_terminal_logged env d.thread_id d.turn_id st ≡ logged
      → Bounded d.thread_id d.turn_id limit (decide_read env now snap d explicit logged existing st)
  unfolding decide_read
  decide_read-closed none logged existing closed x l = unchanged-Bounded _ a (inr closed)
  decide_read-closed (some e) none existing closed x l = unchanged-Bounded _ a (inr closed)
  decide_read-closed (some e) (some g) none closed x l = unchanged-Bounded _ a (inr closed)
  decide_read-closed (some e) (some g) (some found) closed x l =
      decide_loaded-closed e g found closed
        (rw (has_explicit-marked h env st x, has_logged-marked h env st l) at closed)

-- The turn is held until `limit`, or it is closed.
abbrev pub IsSettled : Text → Text → ℕ → State → Type 0
IsSettled thread turn limit st = IsHeld thread turn limit st ⊎ IsClosed thread turn st

decide_turn-Bounded :
    (env : Env) (writes : (k : Text) → env.set_fails k ≡ false) (now : ℕ)
    (snap : Option ThreadReadSnapshot) (d : Decision) (h : IsTurn d.thread_id d.turn_id)
    (st : State) (limit : ℕ)
    → snapshot_has_final_signal snap ≡ false
    → is_deferrable_interrupted_snapshot snap ≡ true
    → d.action ≡ accept
    → 0 < limit
    → IsSettled d.thread_id d.turn_id limit st
    → Bounded d.thread_id d.turn_id limit (decide_turn env now snap d st)
unfolding decide_turn
decide_turn-Bounded env writes now snap d h st limit nofinal def a pos s =
    simp (h.thread_given, h.turn_given) (go s)
  where
    go :
        IsSettled d.thread_id d.turn_id limit st
        → Bounded d.thread_id d.turn_id limit (
            decide_read env now snap d
              (has_explicit_interrupt env d.thread_id d.turn_id st)
              (has_terminal_logged env d.thread_id d.turn_id st)
              (load_defer env d.thread_id d.turn_id now st)
              st)
    go (inl held) =
        decide_read-held env writes now snap nofinal def d h a st limit _ _ _ pos held refl refl
          refl
    go (inr closed) =
        decide_read-closed env writes now snap nofinal def d h a st limit _ _ _ closed refl refl

abbrev first_ids :
    (env : Env) (snap : Option ThreadReadSnapshot)
    → ((first_decision env snap).thread_id ≡ (terminal_gate_snapshot_ids snap).0)
      × ((first_decision env snap).turn_id ≡ (terminal_gate_snapshot_ids snap).1)
unfolding first_decision
first_ids env snap = (refl, refl)

-- An outcome that defers does so before the deadline, and gives that deadline.
abbrev pub in_time : ℕ → Outcome → Bool
in_time limit o = elim o.decision.action [
  | accept ↦ true
  | defer ↦ o.decision.expires_at == limit && ltb o.decision.last_seen_at limit
  | recover ↦ true
]

module _ {thread turn : Text} (h : IsTurn thread turn) {limit : ℕ} (pos : 0 < limit) where
  decide-Bounded :
      (p : Poll) (st : State)
      → IsPending thread turn p
      → IsSettled thread turn limit st
      → Bounded thread turn limit (decide p.env p.given p.snapshot st)
  unfolding decide
  decide-Bounded p st k s =
      let d = first_decision p.env p.snapshot in
      let ids = first_ids p.env p.snapshot in
      let et : d.thread_id ≡ thread = ids.0 ∙ k.same_thread in
      let eu : d.turn_id ≡ turn = ids.1 ∙ k.same_turn in
      let o = decide_turn p.env (if p.given == 0 then p.env.clock else p.given) p.snapshot d st in
      subst₂ (λ t u. Bounded t u limit o) et eu
        (decide_turn-Bounded p.env k.writes _ p.snapshot d (subst₂ IsTurn (sym et) (sym eu) h) st
          limit k.no_final k.deferrable (first_decision-accept p.env p.snapshot) pos
          (subst₂ (λ t u. IsSettled t u limit st) (sym et) (sym eu) s))

  Bounded-in_time :
      {thread turn : Text} (o : Outcome) → Bounded thread turn limit o → in_time limit o ≡ true
  Bounded-in_time o b = go o.decision.action refl
    where
      go : (a : DecisionKind) → o.decision.action ≡ a → in_time limit o ≡ true
      go accept e = ground arith
      go recover e = ground arith
      go defer e = let (same, before) = b.in_time e in ground arith

  -- Once a deferral of a turn is on record, or the turn is closed, the polls of that turn, as long
  -- as its snapshots stay interrupted and show no final answer and writes succeed, defer only
  -- before the deadline on record and give that deadline, whatever the reads of the database do and
  -- whatever the clock shows: none extends it.
  pub run_polls-in_time :
      (ps : List Poll) (st : State)
      → All (IsPending thread turn) ps
      → IsSettled thread turn limit st
      → All (λ o. in_time limit o ≡ true) (run_polls ps st)
  unfolding run_polls
  run_polls-in_time [] st k s = tt
  run_polls-in_time (p ∷ ps) st k s =
      let b = decide-Bounded p st k.0 s in
      (Bounded-in_time (decide p.env p.given p.snapshot st) b, run_polls-in_time ps _ k.1 b.next)
