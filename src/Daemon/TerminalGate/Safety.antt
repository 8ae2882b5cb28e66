-- ===== src/Daemon/TerminalGate/Safety.antt =====
-- When the gate defers, and what it leaves alone.
use codex_feishu.Prelude.{
  ℕ, ◌<◌, ◌≡◌, refl, inl, inr, Bool, true, false, ◌||◌, Option, none, some, arith, Bool-cases,
}
use codex_feishu.Prelude.Text.{is_empty, Text}
use codex_feishu.AppServer.Snapshot.{ThreadReadSnapshot}
use codex_feishu.Daemon.Signals.{
  snapshot_has_final_signal, is_deferrable_interrupted_snapshot, terminal_gate_snapshot_ids,
}
use codex_feishu.Daemon.TerminalGate.State.{accept, defer, Decision, GateState, State, Env}
use codex_feishu.Daemon.TerminalGate.Marks.{
  has_explicit_interrupt, has_terminal_logged, is_direct_input_origin_turn,
}
use codex_feishu.Daemon.TerminalGate.Decide.{
  settle, expire, hold, defer_or_expire, decide_loaded, first_decision, decide_read, decide_turn,
  decide,
}

-- What a deferral of a turn by decision `d` rests on.
pub record IsJustified (env : Env) (snap : Option ThreadReadSnapshot) (st : State)
    (thread turn : Text) (d : Decision) : Type 0 where
  pub deferrable : is_deferrable_interrupted_snapshot snap ≡ true
  pub no_final : snapshot_has_final_signal snap ≡ false
  pub not_explicit : has_explicit_interrupt env thread turn st ≡ some false
  pub not_logged : has_terminal_logged env thread turn st ≡ some false
  pub direct : is_direct_input_origin_turn env thread turn st ≡ true
  pub in_time : d.last_seen_at < d.expires_at

record Loaded (env : Env) (snap : Option ThreadReadSnapshot) (st : State) (logged : Bool)
    (d e : Decision) : Type 0 where
  deferrable : d.deferrable_interrupted ≡ true
  no_final : snapshot_has_final_signal snap ≡ false
  not_explicit : d.explicit_interrupt ≡ false
  not_logged : logged ≡ false
  direct : is_direct_input_origin_turn env d.thread_id d.turn_id st ≡ true
  in_time : e.last_seen_at < e.expires_at
  same_thread : e.thread_id ≡ d.thread_id
  same_turn : e.turn_id ≡ d.turn_id

decide_loaded-defer :
    (env : Env) (now : ℕ) (snap : Option ThreadReadSnapshot) (d : Decision) (logged : Bool)
    (existing : Option GateState) (st : State)
    → d.action ≡ accept
    → (decide_loaded env now snap d logged existing st).decision.action ≡ defer
    → Loaded env snap st logged d (decide_loaded env now snap d logged existing st).decision
unfolding decide_loaded settle defer_or_expire expire hold
decide_loaded-defer env now snap d logged existing st a h = ground arith

decide_read-defer :
    (env : Env) (now : ℕ) (snap : Option ThreadReadSnapshot) (d : Decision)
    (explicit logged : Option Bool) (existing : Option (Option GateState)) (st : State)
    → d.action ≡ accept
    → explicit ≡ has_explicit_interrupt env d.thread_id d.turn_id st
    → logged ≡ has_terminal_logged env d.thread_id d.turn_id st
    → (decide_read env now snap d explicit logged existing st).decision.action ≡ defer
    → IsJustified env snap st d.thread_id d.turn_id
        (decide_read env now snap d explicit logged existing st).decision
unfolding decide_read
decide_read-defer env now snap d none logged existing st a e l h = absurd (ground arith)
decide_read-defer env now snap d (some x) none existing st a e l h = absurd (ground arith)
decide_read-defer env now snap d (some x) (some y) none st a e l h = absurd (ground arith)
decide_read-defer env now snap d (some x) (some y) (some found) st a e l h =
    let k = decide_loaded-defer env now snap _ y found st a h in ground arith

decide_turn-defer :
    (env : Env) (now : ℕ) (snap : Option ThreadReadSnapshot) (d : Decision) (st : State)
    → d.action ≡ accept
    → (decide_turn env now snap d st).decision.action ≡ defer
    → IsJustified env snap st d.thread_id d.turn_id (decide_turn env now snap d st).decision
unfolding decide_turn
decide_turn-defer env now snap d st a h =
    let missing = is_empty d.thread_id || is_empty d.turn_id in
    elim (Bool-cases missing) [
      | inl e ↦ absurd (ground arith)
      | inr e ↦ rw e (decide_read-defer env now snap d _ _ _ st a refl refl (rw e at h))
    ]

pub first_decision-accept :
    (env : Env) (snap : Option ThreadReadSnapshot) → (first_decision env snap).action ≡ accept
unfolding first_decision
first_decision-accept env snap = refl

-- The gate defers a turn only if its snapshot is an interrupted one that waits for nobody and holds
-- no final answer, no explicit interrupt and no logged end of the turn are on record, the turn came
-- from the chat, and the deadline of the deferral is not reached. This holds whether the database
-- fails or not.
pub decide-IsJustified :
    (env : Env) (given : ℕ) (snap : Option ThreadReadSnapshot) (st : State)
    → (decide env given snap st).decision.action ≡ defer
    → let (thread, turn) = terminal_gate_snapshot_ids snap in
      IsJustified env snap st thread turn (decide env given snap st).decision
unfolding decide first_decision
decide-IsJustified env given snap st h = decide_turn-defer env _ snap _ st refl h
