-- ===== src/Daemon/TerminalGate/Closing.antt =====
-- A turn that is closed is not deferred again, and a poll at the deadline closes it.
use codex_feishu.Daemon.TerminalGate.Deadline.{IsHeld, IsClosed, expires_of-held, expire-Closed}
use codex_feishu.Prelude.{
  ℕ, ◌≤◌, ◌<◌, ◌≡◌, refl, true, false, not, Option, none, some, List, arith, ltb, ◌==◌,
  if◌then◌else◌, All,
}
use codex_feishu.Prelude.Text.{Text, text_eq_refl}
use codex_feishu.AppServer.Snapshot.{ThreadReadSnapshot, parse_time}
use codex_feishu.Storage.State.{get_state}
use codex_feishu.Storage.State.Laws.{lookup-set_state}
use codex_feishu.Daemon.Signals.{
  terminal_gate_snapshot_ids, snapshot_has_final_signal, is_deferrable_interrupted_snapshot,
}
use codex_feishu.Daemon.TerminalGate.State.{
  accept, grace_expired, Decision, GateState, gate, State, Env, defer_key_of,
  explicit_interrupt_key, terminal_logged_key,
}
use codex_feishu.Daemon.TerminalGate.Marks.{
  set_value, value_is_blank, has_explicit_interrupt, has_terminal_logged,
  is_direct_input_origin_turn, load_defer, clear_defer, mark_terminal_logged, explicit_state_of,
  mark_explicit_interrupt,
}
use codex_feishu.Daemon.TerminalGate.Decide.{
  decide, Outcome, state_or_new, expire, defer_or_expire, decide_loaded, first_decision,
  decide_read, decide_turn,
}
use codex_feishu.Daemon.TerminalGate.Keys.{IsTurn, explicit_given, defer_given, logged_given}
use codex_feishu.Daemon.TerminalGate.Closed.{defers, run_polls-closed}
use codex_feishu.Daemon.TerminalGate.Polls.{Poll, run_polls}

mark_explicit_interrupt-IsClosed :
    {thread turn : Text} (h : IsTurn thread turn) (env : Env) (st : State)
    → env.set_fails (explicit_interrupt_key thread turn) ≡ false
    → IsClosed thread turn (mark_explicit_interrupt env thread turn st).1
unfolding mark_explicit_interrupt set_value get_state value_is_blank
mark_explicit_interrupt-IsClosed {thread} {turn} h env st w =
    let key = explicit_interrupt_key thread turn in
    let mark = gate (explicit_state_of env thread turn) in
    ground (arith, w, explicit_given h, text_eq_refl key, lookup-set_state key key mark st)

-- After the chat has interrupted a turn explicitly, and the mark was written, no poll of a later run
-- defers that turn: whatever turns and snapshots the polls read, in any order, and whichever reads
-- and writes of theirs fail. The identifiers of the turn are trimmed and not blank.
pub explicit_interrupt-never_defers :
    {thread turn : Text} (h : IsTurn thread turn) (env : Env) (st : State) (ps : List Poll)
    → env.set_fails (explicit_interrupt_key thread turn) ≡ false
    → All
        (λ o. defers thread turn o ≡ false)
        (run_polls ps (mark_explicit_interrupt env thread turn st).1)
explicit_interrupt-never_defers h env st ps w =
    run_polls-closed h ps _ (mark_explicit_interrupt-IsClosed h env st w)

-- The turn is accepted for good: the reason given, the call completed, and the end of the turn logged.
pub record Expires (thread turn : Text) (o : Outcome) : Type 0 where
  pub accepted : o.decision.action ≡ accept
  pub reason : o.decision.reason ≡ grace_expired
  pub done : o.done ≡ true
  pub closed : IsClosed thread turn o.store

module _ (env : Env) (writes : (k : Text) → env.set_fails k ≡ false) (now : ℕ) where
  expire-Expires :
      (d : Decision) (st : State)
      → IsTurn d.thread_id d.turn_id
      → Expires d.thread_id d.turn_id (expire env now d st)
  expire-Expires d st h = record {
    accepted = unfold expire in ground arith;
    reason = unfold expire in ground arith;
    done =
        unfold expire clear_defer mark_terminal_logged set_value in
        ground (
          arith,
          defer_given h,
          logged_given h,
          writes (defer_key_of d.thread_id d.turn_id),
          writes (terminal_logged_key d.thread_id d.turn_id),
        );
    closed = expire-Closed env writes now none d h st;
  }

  defer_or_expire-Expires :
      (snap : Option ThreadReadSnapshot) (d : Decision) (s : GateState) (st : State)
      → IsTurn d.thread_id d.turn_id
      → 0 < parse_time s.expires_at
      → parse_time s.expires_at ≤ now
      → Expires d.thread_id d.turn_id (defer_or_expire env now snap d (some s) st)
  unfolding defer_or_expire state_or_new
  defer_or_expire-Expires snap d s st h pos late =
      let x = expires_of-held now d s (parse_time s.expires_at) pos refl in
      rw x (rw (lt_false now (parse_time s.expires_at) late) (expire-Expires _ st h))
    where
      lt_false : (a b : ℕ) → b ≤ a → not (ltb a b) ≡ true
      lt_false a b l = ground arith

-- What the database holds of a turn that is deferred, and that its reads succeed.
pub record IsDeferred (env : Env) (thread turn : Text) (limit : ℕ) (st : State) : Type 0 where
  pub held : IsHeld thread turn limit st
  pub not_explicit : has_explicit_interrupt env thread turn st ≡ some false
  pub not_logged : has_terminal_logged env thread turn st ≡ some false
  pub direct : is_direct_input_origin_turn env thread turn st ≡ true
  pub readable : env.get_fails (defer_key_of thread turn) ≡ false

load_defer-found :
    {thread turn : Text} (h : IsTurn thread turn) (env : Env) {limit : ℕ} (now : ℕ) (st : State)
    (i : IsDeferred env thread turn limit st)
    → load_defer env thread turn now st ≡ some (some i.held.state)
unfolding load_defer get_state
load_defer-found h env now st i = ground (arith, defer_given h, i.readable, i.held.found)

decide_turn-Expires :
    (env : Env) (writes : (k : Text) → env.set_fails k ≡ false) (now : ℕ)
    (snap : Option ThreadReadSnapshot) (d : Decision) (st : State) {limit : ℕ}
    → IsTurn d.thread_id d.turn_id
    → is_deferrable_interrupted_snapshot snap ≡ true
    → snapshot_has_final_signal snap ≡ false
    → IsDeferred env d.thread_id d.turn_id limit st
    → 0 < limit
    → limit ≤ now
    → Expires d.thread_id d.turn_id (decide_turn env now snap d st)
unfolding decide_turn decide_read decide_loaded
decide_turn-Expires env writes now snap d st h def nofinal i pos late =
    simp
      (
        h.thread_given,
        h.turn_given,
        i.not_explicit,
        i.not_logged,
        load_defer-found h env now st i,
        def,
        i.direct,
        nofinal,
      )
      (defer_or_expire-Expires env writes now snap _ i.held.state st h (rw i.held.deadline pos)
        (rw i.held.deadline late))

-- A poll at or after the deadline on record, of a turn that is still interrupted without a final
-- answer, not marked and started from the chat, accepts the interruption as its grace period is
-- over, completes, and leaves the turn closed, if the reads of the turn and all writes succeed. No
-- poll of a later run defers the turn again: whatever turns and snapshots those polls read, in any
-- order, and whichever reads and writes of theirs fail.
pub deadline_closes :
    (env : Env) (given : ℕ) (snap : Option ThreadReadSnapshot) (st : State) (limit : ℕ)
    → let (thread, turn) = terminal_gate_snapshot_ids snap in
      let o = decide env given snap st in
      IsTurn thread turn
      → is_deferrable_interrupted_snapshot snap ≡ true
      → snapshot_has_final_signal snap ≡ false
      → IsDeferred env thread turn limit st
      → ((k : Text) → env.set_fails k ≡ false)
      → 0 < limit
      → limit ≤ (if given == 0 then env.clock else given)
      → (ps : List Poll)
      → Expires thread turn o × All (λ o'. defers thread turn o' ≡ false) (run_polls ps o.store)
unfolding decide first_decision
deadline_closes env given snap st limit h def nofinal i writes pos late ps =
    let x = decide_turn-Expires env writes _ snap _ st h def nofinal i pos late in
    (x, run_polls-closed h ps _ x.closed)
