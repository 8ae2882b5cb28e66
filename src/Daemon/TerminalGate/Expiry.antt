-- ===== src/Daemon/TerminalGate/Expiry.antt =====
-- How a deferral begins and how it ends.
use codex_feishu.Prelude.{
  ℕ, ◌+◌, ◌≤◌, ◌≡◌, refl, sym, subst, inl, inr, Bool, true, false, not, ◌||◌, Option, none, some,
  arith, ltb, ◌==◌, if◌then◌else◌, Bool-cases,
}
use codex_feishu.Daemon.Signals.{terminal_gate_snapshot_ids}
use codex_feishu.Storage.State.Laws.{lookup-set_state}
use codex_feishu.Prelude.Text.{Text, text_eq_refl, is_empty}
use codex_feishu.Prelude.Text.Trim.{trim_space_idem}
use codex_feishu.AppServer.Snapshot.{ThreadReadSnapshot, parse_time}
use codex_feishu.Storage.State.{lookup}
use codex_feishu.Daemon.TerminalGate.State.{
  defer, Decision, GateState, gate, State, Env, minimum_grace, grace_duration, defer_key_of, accept,
}
use codex_feishu.Daemon.TerminalGate.Marks.{save_defer, load_defer}
use codex_feishu.Daemon.TerminalGate.Decide.{
  Outcome, state_or_new, hold, defer_or_expire, first_seen_of, expires_of, completed, settle,
  decide_loaded, first_decision, decide_read, decide_turn, decide,
}
use codex_feishu.Daemon.TerminalGate.Keys.{IsTurn, defer_given}
use codex_feishu.Daemon.TerminalGate.Deadline.{IsHeld, parse_time-completed, expire_accepts}

-- The grace period is at least the minimum, also where the product of the interval wraps.
grace_duration-minimum : (poll : ℕ) → minimum_grace ≤ grace_duration poll
unfolding grace_duration
grace_duration-minimum poll = ground arith

-- What a completed deferral of turn `d` leaves: its deadline, on record.
record Begun (existing : Option GateState) (d : Decision) (o : Outcome) : Type 0 where
  recorded : IsHeld o.decision.thread_id o.decision.turn_id o.decision.expires_at o.store
  fresh : existing ≡ none → o.decision.expires_at ≡ o.decision.last_seen_at + d.grace

save_defer-done :
    {thread turn : Text} (h : IsTurn thread turn) (env : Env) (s : GateState) (st : State)
    → (save_defer env thread turn s st).0 ≡ true
    → lookup (defer_key_of thread turn) (save_defer env thread turn s st).1 ≡ some (gate s)
unfolding save_defer
save_defer-done {thread} {turn} h env s st w =
    let key = defer_key_of thread turn in
    ground (arith, defer_given h, lookup-set_state key key (gate s) st, text_eq_refl key)

module _ (env : Env) (now : ℕ) (snap : Option ThreadReadSnapshot) where
  hold-recorded :
      (d : Decision) (s : GateState) (st : State)
      → IsTurn d.thread_id d.turn_id
      → parse_time s.expires_at ≡ d.expires_at
      → (hold env now snap d s st).done ≡ true
      → IsHeld d.thread_id d.turn_id d.expires_at (hold env now snap d s st).store
  unfolding hold
  hold-recorded d s st h e w = record {
    state = _;
    found = save_defer-done h env _ st w;
    deadline = e;
  }

module _ (env : Env) (now : ℕ) (snap : Option ThreadReadSnapshot) where
  defer_or_expire-Begun :
      (d : Decision) (existing : Option GateState) (st : State)
      → IsTurn d.thread_id d.turn_id
      → (defer_or_expire env now snap d existing st).decision.action ≡ defer
      → (defer_or_expire env now snap d existing st).done ≡ true
      → Begun existing d (defer_or_expire env now snap d existing st)
  unfolding defer_or_expire hold
  defer_or_expire-Begun d existing st h a w =
      let s = state_or_new now snap d existing in
      elim (Bool-cases (not (ltb now (expires_of now d s)))) [
        | inl late ↦ absurd (expire_accepts env now _ st (rw late at a))
        | inr early ↦ rw early (record {
          recorded =
              hold-recorded env now snap
                (record d {
                  first_seen_at = first_seen_of now s;
                  last_seen_at = now;
                  expires_at = expires_of now d s;
                })
                (completed now d s) st h (parse_time-completed now d s) (rw early at w);
          fresh = λ e. fresh_expires existing e;
        })
      ]
    where
      fresh_expires :
          (x : Option GateState)
          → x ≡ none
          → expires_of now d (state_or_new now snap d x) ≡ now + d.grace
      fresh_expires none e = unfold expires_of first_seen_of state_or_new parse_time in ground arith
      fresh_expires (some s) e = cc

  decide_loaded-eq :
      (d : Decision) (logged : Bool) (existing : Option GateState) (st : State)
      → d.action ≡ accept
      → (decide_loaded env now snap d logged existing st).decision.action ≡ defer
      → decide_loaded env now snap d logged existing st ≡ defer_or_expire env now snap d existing st
  unfolding decide_loaded settle
  decide_loaded-eq d logged existing st a h = ground arith

  decide_loaded-Begun :
      (d : Decision) (logged : Bool) (existing : Option GateState) (st : State)
      → IsTurn d.thread_id d.turn_id
      → d.action ≡ accept
      → (decide_loaded env now snap d logged existing st).decision.action ≡ defer
      → (decide_loaded env now snap d logged existing st).done ≡ true
      → Begun existing d (decide_loaded env now snap d logged existing st)
  decide_loaded-Begun d logged existing st h a x w =
      let e = decide_loaded-eq d logged existing st a x in
      subst (Begun existing d) (sym e) (
        defer_or_expire-Begun d existing st h (subst (λ o. o.decision.action ≡ defer) e x)
          (subst (λ (o : Outcome). o.done ≡ true) e w))

-- What a completed deferral by `decide` leaves.
record Started (existing : Option (Option GateState)) (grace : ℕ) (o : Outcome) : Type 0 where
  recorded : IsHeld o.decision.thread_id o.decision.turn_id o.decision.expires_at o.store
  fresh : existing ≡ some none → o.decision.expires_at ≡ o.decision.last_seen_at + grace

module _ (env : Env) (now : ℕ) (snap : Option ThreadReadSnapshot) where
  decide_read-Started :
      (d : Decision) (explicit logged : Option Bool) (existing : Option (Option GateState))
      (st : State)
      → IsTurn d.thread_id d.turn_id
      → d.action ≡ accept
      → (decide_read env now snap d explicit logged existing st).decision.action ≡ defer
      → (decide_read env now snap d explicit logged existing st).done ≡ true
      → Started existing d.grace (decide_read env now snap d explicit logged existing st)
  unfolding decide_read
  decide_read-Started d none logged existing st h a x w = cc
  decide_read-Started d (some e) none existing st h a x w = cc
  decide_read-Started d (some e) (some g) none st h a x w = cc
  decide_read-Started d (some e) (some g) (some found) st h a x w =
      let b = decide_loaded-Begun env now snap _ g found st h a x w in
      record { recorded = b.recorded; fresh = λ q. b.fresh (cc q) }

  decide_turn-Started :
      (d : Decision) (st : State)
      → (is_empty d.thread_id || is_empty d.turn_id ≡ false → IsTurn d.thread_id d.turn_id)
      → d.action ≡ accept
      → (decide_turn env now snap d st).decision.action ≡ defer
      → (decide_turn env now snap d st).done ≡ true
      → Started
          (load_defer env d.thread_id d.turn_id now st)
          d.grace
          (decide_turn env now snap d st)
  unfolding decide_turn
  decide_turn-Started d st h a x w =
      elim (Bool-cases (is_empty d.thread_id || is_empty d.turn_id)) [
        | inl e ↦ absurd (ground arith)
        | inr e ↦ rw e (decide_read-Started d _ _ _ st (h e) a (rw e at x) (rw e at w))
      ]

pub snapshot-IsTurn :
    (snap : Option ThreadReadSnapshot)
    → is_empty (terminal_gate_snapshot_ids snap).0 || is_empty (terminal_gate_snapshot_ids snap).1
      ≡ false
    → IsTurn (terminal_gate_snapshot_ids snap).0 (terminal_gate_snapshot_ids snap).1
unfolding terminal_gate_snapshot_ids
snapshot-IsTurn none e = cc
snapshot-IsTurn (some s) e = record {
  thread_trimmed = trim_space_idem s.thread.id;
  turn_trimmed = trim_space_idem s.latest_turn_id;
  thread_given = ground arith;
  turn_given = ground arith;
}

-- The deadline of a first deferral, where nothing was on record, or another one.
abbrev pub deadline_if_first : Option (Option GateState) → ℕ → ℕ → ℕ
deadline_if_first none first_deadline other = other
deadline_if_first (some none) first_deadline other = first_deadline
deadline_if_first (some (some s)) first_deadline other = other

-- What a deferral has on record, and when its deadline is.
pub record Begins (existing : Option (Option GateState)) (grace : ℕ) (o : Outcome) : Type 0 where
  pub recorded : IsHeld o.decision.thread_id o.decision.turn_id o.decision.expires_at o.store
  pub deadline :
      o.decision.expires_at
      ≡ deadline_if_first existing (o.decision.last_seen_at + grace) o.decision.expires_at
  pub minimum : minimum_grace ≤ grace

Started-Begins :
    (existing : Option (Option GateState)) (grace : ℕ) (o : Outcome)
    → minimum_grace ≤ grace
    → Started existing grace o
    → Begins existing grace o
Started-Begins none grace o m h = record { recorded = h.recorded; deadline = refl; minimum = m }
Started-Begins (some none) grace o m h = record {
  recorded = h.recorded;
  deadline = h.fresh refl;
  minimum = m;
}
Started-Begins (some (some s)) grace o m h = record {
  recorded = h.recorded;
  deadline = refl;
  minimum = m;
}

-- A deferral that completes leaves its deadline on record under the turn. A first deferral, with
-- nothing on record before, has its deadline one grace period after the poll, and the grace period
-- is at least 90 seconds, whatever poll interval is configured.
pub decide-Begins :
    (env : Env) (given : ℕ) (snap : Option ThreadReadSnapshot) (st : State)
    → let (thread, turn) = terminal_gate_snapshot_ids snap in
      let o = decide env given snap st in
      let now = if given == 0 then env.clock else given in
      o.decision.action ≡ defer
      → o.done ≡ true
      → Begins (load_defer env thread turn now st) (grace_duration env.observer_poll_interval) o
unfolding decide first_decision
decide-Begins env given snap st x w =
    Started-Begins _ _ _ (grace_duration-minimum env.observer_poll_interval)
      (decide_turn-Started env _ snap _ st (snapshot-IsTurn snap) refl x w)
