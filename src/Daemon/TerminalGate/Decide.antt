-- ===== src/Daemon/TerminalGate/Decide.antt =====
-- internal/daemon/terminal_gate.go: the decision on an interrupted turn.
use codex_feishu.Prelude.{
  ℕ, ◌+◌, ◌/◌, Bool, true, false, not, ◌||◌, Option, none, some, ltb, ◌==◌, if◌then◌else◌,
}
use codex_feishu.Prelude.Text.{is_empty}
use codex_feishu.AppServer.Snapshot.{ThreadReadSnapshot, blank, at, parse_time}
use codex_feishu.Daemon.Signals.{
  snapshot_has_final_signal, is_deferrable_interrupted_snapshot, is_empty_interrupted_snapshot,
  terminal_gate_snapshot_needs_hot_polling, terminal_gate_snapshot_ids,
}
use codex_feishu.Daemon.TerminalGate.State.{
  accept, defer, recover, Reason, not_deferrable_interrupted, missing_thread_or_turn,
  snapshot_recovered, explicit_interrupt, terminal_already_logged, not_direct_input_origin,
  final_interrupted, grace_expired, empty_interrupted, partial_interrupted, Decision, GateState,
  State, Env, grace_duration, hot_poll_interval, next_poll_after_of, defer_key_of,
  explicit_interrupt_key,
}
use codex_feishu.Daemon.TerminalGate.Marks.{
  has_explicit_interrupt, has_terminal_logged, is_direct_input_origin_turn, load_defer, clear_defer,
  save_defer, mark_terminal_logged,
}

-- A decision, whether the call returned no error, and the store that it left.
pub record Outcome : Type 0 where
  pub decision : Decision
  pub done : Bool
  pub store : State

abbrev pub returns : Decision → State → Outcome
returns d st = record { decision = d; done = true; store = st }

unfoldable pub interrupted_defer_reason : Option ThreadReadSnapshot → Reason
interrupted_defer_reason snap =
    if is_empty_interrupted_snapshot snap
    then empty_interrupted
    else if snapshot_has_final_signal snap
    then final_interrupted
    else partial_interrupted

-- `if !deferrableInterrupted { … }`
unfoldable pub settle :
    Env → ℕ → Option ThreadReadSnapshot → Decision → Option GateState → State → Outcome
unfolding clear_defer
settle env now snap d none st = returns d st
settle env now snap d (some existing) st =
    let hot = terminal_gate_snapshot_needs_hot_polling snap in
    returns
      (record d {
        action = recover;
        reason = snapshot_recovered;
        first_seen_at = parse_time existing.first_seen_at;
        last_seen_at = now;
        expires_at = parse_time existing.expires_at;
        hot_poll = hot || d.hot_poll;
        next_poll_after =
            if hot then next_poll_after_of now env.observer_poll_interval else d.next_poll_after;
      })
      (clear_defer env d.thread_id d.turn_id st).1

-- The state for a first deferral, or the one that was found.
unfoldable pub state_or_new :
    ℕ → Option ThreadReadSnapshot → Decision → Option GateState → GateState
unfolding interrupted_defer_reason
state_or_new now snap d (some existing) = existing
state_or_new now snap d none = record {
  thread_id = d.thread_id;
  turn_id = d.turn_id;
  first_seen_at = at now;
  last_seen_at = blank;
  expires_at = at (now + d.grace);
  next_poll_after = blank;
  hot_poll_interval_millis = 0;
  empty_interrupted_seen_count = 0;
  last_decision = some defer;
  last_reason = some (interrupted_defer_reason snap);
}

-- `if !now.Before(expiresAt) { … }`
unfoldable pub expire : Env → ℕ → Decision → State → Outcome
unfolding clear_defer mark_terminal_logged
expire env now d st =
    let d' = record d { action = accept; reason = grace_expired } in
    let (cleared, st') = clear_defer env d.thread_id d.turn_id st in
    let (marked, st'') = mark_terminal_logged env d.thread_id d.turn_id now st' in
    if not cleared
    then record { decision = d'; done = false; store = st' }
    else record { decision = d'; done = marked; store = st'' }

unfoldable pub hold : Env → ℕ → Option ThreadReadSnapshot → Decision → GateState → State → Outcome
unfolding save_defer next_poll_after_of interrupted_defer_reason
hold env now snap d s st =
    let next = next_poll_after_of now env.observer_poll_interval in
    let reason = interrupted_defer_reason snap in
    let d' = record d {
      action = defer;
      reason = reason;
      hot_poll = true;
      next_poll_after = next;
    } in
    let s' = record s {
      next_poll_after = next;
      hot_poll_interval_millis = hot_poll_interval env.observer_poll_interval / 1_000_000;
      last_decision = some defer;
      last_reason = some reason;
    } in
    let (saved, st') = save_defer env d.thread_id d.turn_id s' st in
    record { decision = d'; done = saved; store = st' }

-- `firstSeenAt`, and now where the state has none.
unfoldable pub first_seen_of : ℕ → GateState → ℕ
first_seen_of now s = let seen = parse_time s.first_seen_at in if seen == 0 then now else seen

-- `expiresAt`, and the grace after `firstSeenAt` where the state has none.
unfoldable pub expires_of : ℕ → Decision → GateState → ℕ
expires_of now d s =
    let limit = parse_time s.expires_at in
    if limit == 0 then first_seen_of now s + d.grace else limit

unfoldable pub completed : ℕ → Decision → GateState → GateState
completed now d s = record s {
  thread_id = d.thread_id;
  turn_id = d.turn_id;
  last_seen_at = at now;
  empty_interrupted_seen_count = s.empty_interrupted_seen_count + 1;
  first_seen_at = if parse_time s.first_seen_at == 0 then at now else s.first_seen_at;
  expires_at = if parse_time s.expires_at == 0 then at (expires_of now d s) else s.expires_at;
}

-- From `state := existing` on: the instants of the state are completed, and compared with now.
unfoldable pub defer_or_expire :
    Env → ℕ → Option ThreadReadSnapshot → Decision → Option GateState → State → Outcome
defer_or_expire env now snap d existing st =
    let s = state_or_new now snap d existing in
    let expires = expires_of now d s in
    let d' = record d {
      first_seen_at = first_seen_of now s;
      last_seen_at = now;
      expires_at = expires;
    } in
    if not (ltb now expires)
    then expire env now d' st
    else hold env now snap d' (completed now d s) st

unfoldable pub decide_loaded :
    Env → ℕ → Option ThreadReadSnapshot → Decision → Bool → Option GateState → State → Outcome
decide_loaded env now snap d logged existing st =
    if not d.deferrable_interrupted
    then settle env now snap d existing st
    else if d.explicit_interrupt
    then returns (record d { reason = explicit_interrupt })
        (clear_defer env d.thread_id d.turn_id st).1
    else if logged
    then returns (record d { reason = terminal_already_logged })
        (clear_defer env d.thread_id d.turn_id st).1
    else if not (is_direct_input_origin_turn env d.thread_id d.turn_id st)
    then returns (record d { reason = not_direct_input_origin }) st
    else if snapshot_has_final_signal snap
    then returns (record d { action = accept; reason = final_interrupted })
        (clear_defer env d.thread_id d.turn_id st).1
    else defer_or_expire env now snap d existing st

-- The decision as it is set up before the store is read.
unfoldable pub first_decision : Env → Option ThreadReadSnapshot → Decision
unfolding grace_duration terminal_gate_snapshot_ids
first_decision env snap =
    let (thread, turn) = terminal_gate_snapshot_ids snap in
    record {
      action = accept;
      reason = not_deferrable_interrupted;
      thread_id = thread;
      turn_id = turn;
      empty_interrupted = false;
      deferrable_interrupted = false;
      explicit_interrupt = false;
      grace = grace_duration env.observer_poll_interval;
      first_seen_at = 0;
      last_seen_at = 0;
      expires_at = 0;
      hot_poll = false;
      next_poll_after = blank;
      defer_key = defer_key_of thread turn;
      explicit_key = explicit_interrupt_key thread turn;
    }

-- The three reads in their order; a read that fails ends the call with what was decided so far.
-- A read changes nothing, so the later ones may be made beforehand.
unfoldable pub decide_read :
    Env
    → ℕ
    → Option ThreadReadSnapshot
    → Decision
    → Option Bool
    → Option Bool
    → Option (Option GateState)
    → State
    → Outcome
decide_read env now snap d none logged existing st = record {
  decision = d;
  done = false;
  store = st;
}
decide_read env now snap d (some explicit) none existing st = record {
  decision = record d { explicit_interrupt = explicit };
  done = false;
  store = st;
}
decide_read env now snap d (some explicit) (some logged) existing st =
    let d' = record d {
      explicit_interrupt = explicit;
      empty_interrupted = is_empty_interrupted_snapshot snap;
      deferrable_interrupted = is_deferrable_interrupted_snapshot snap;
    } in
    elim existing [
      | none ↦ record { decision = d'; done = false; store = st }
      | some found ↦ decide_loaded env now snap d' logged found st
    ]

unfoldable pub decide_turn : Env → ℕ → Option ThreadReadSnapshot → Decision → State → Outcome
decide_turn env now snap d st =
    if is_empty d.thread_id || is_empty d.turn_id
    then returns (record d { reason = missing_thread_or_turn }) st
    else decide_read env now snap d (has_explicit_interrupt env d.thread_id d.turn_id st)
        (has_terminal_logged env d.thread_id d.turn_id st)
        (load_defer env d.thread_id d.turn_id now st) st

-- `decideChatOriginEmptyInterruptedTerminal`
unfoldable pub decide : Env → ℕ → Option ThreadReadSnapshot → State → Outcome
decide env given snap st =
    decide_turn env (if given == 0 then env.clock else given) snap (first_decision env snap) st
