-- ===== src/Daemon/TerminalGate/Apply.antt =====
-- internal/daemon/terminal_gate.go: what the service does with a decision. The log lines are left out.
use codex_feishu.Prelude.{
  ◌+◌, Bool, true, false, not, ◌&&◌, ◌||◌, Option, none, some, List, [], ◌∷◌, ◌++◌, ltb, ◌==◌,
  if◌then◌else◌, any,
}
pub mod Effects
pub mod Reports
use codex_feishu.Prelude.Text.{Text, trim_space, is_empty}
use codex_feishu.AppServer.Snapshot.{
  Thread, ThreadReadSnapshot, TimeString, blank, invalid, at, parse_time, ThreadSnapshotState,
}
use codex_feishu.Storage.State.{lookup, set_state}
use codex_feishu.Daemon.TerminalGate.State.{
  accept, defer, recover, partial_interrupted, Decision, State, Env,
}
use codex_feishu.Daemon.TerminalGate.Marks.{load_defer}
use codex_feishu.Daemon.TerminalGate.Decide.{Outcome, decide}

-- The tables `daemon_state` and `thread_snapshots`, the latter by the JSON that is read back.
pub record Tables : Type 0 where
  pub daemon : State
  pub snapshots : List (Text × ThreadSnapshotState)

-- Whether the read and the write of the snapshot fail.
pub record SnapshotFaults : Type 0 where
  pub read_fails : Bool
  pub write_fails : Bool

-- `DeferredDisplayableProgress`
unfoldable pub deferred_displayable_progress : Decision → Bool
deferred_displayable_progress d = elim d.action [
  | accept ↦ false
  | defer ↦ elim d.reason [ partial_interrupted ↦ true | _ ↦ false ]
  | recover ↦ false
]

abbrev pub time_is_blank : TimeString → Bool
time_is_blank blank = true
time_is_blank invalid = false
time_is_blank (at t) = false

-- `applyTerminalGateHotPolling`
unfoldable pub apply_terminal_gate_hot_polling :
    Decision → ThreadSnapshotState → ThreadSnapshotState
apply_terminal_gate_hot_polling d s =
    if not d.hot_poll || time_is_blank d.next_poll_after
    then s
    else record s { next_poll_after = d.next_poll_after }

-- `GetSnapshot`, or the one that the caller had.
unfoldable pub latest_snapshot :
    SnapshotFaults
    → Text
    → Option ThreadSnapshotState
    → List (Text × ThreadSnapshotState)
    → Option ThreadSnapshotState
unfolding lookup
latest_snapshot faults thread previous rows =
    if faults.read_fails
    then previous
    else elim (lookup thread rows) [ none ↦ previous | some stored ↦ some stored ]

-- `UpsertSnapshot` of the snapshot with the next poll, if there is one.
unfoldable pub upsert_latest :
    SnapshotFaults
    → Decision
    → Option ThreadSnapshotState
    → List (Text × ThreadSnapshotState)
    → List (Text × ThreadSnapshotState)
unfolding apply_terminal_gate_hot_polling set_state
upsert_latest faults d none rows = rows
upsert_latest faults d (some latest) rows =
    if faults.write_fails
    then rows
    else set_state d.thread_id (apply_terminal_gate_hot_polling d latest) rows

-- The rest of `applyChatOriginTerminalGate` once the gate has decided.
unfoldable pub apply_outcome :
    SnapshotFaults → Option ThreadSnapshotState → Tables → Outcome → Bool × (Decision × Tables)
unfolding latest_snapshot upsert_latest
apply_outcome faults previous t o =
    let kept = record t { daemon = o.store } in
    let latest = latest_snapshot faults o.decision.thread_id previous t.snapshots in
    if not o.done then (false, (o.decision, kept)) else elim o.decision.action [
      | accept ↦ (false, (o.decision, kept))
      | defer ↦ (
        true,
        (
          o.decision,
          record kept { snapshots = upsert_latest faults o.decision latest t.snapshots },
        ),
      )
      | recover ↦ (false, (o.decision, kept))
    ]

-- `applyChatOriginTerminalGate`: whether the turn is held back, the decision, and the tables.
unfoldable pub apply_chat_origin_terminal_gate :
    Env
    → SnapshotFaults
    → Option ThreadReadSnapshot
    → Option ThreadSnapshotState
    → Tables
    → Bool × (Decision × Tables)
unfolding decide apply_outcome
apply_chat_origin_terminal_gate env faults current previous t =
    apply_outcome faults previous t (decide env env.clock current t.daemon)

-- A turn that is looked at, unless its text is empty.
abbrev turn_given_by : Text → List Text
turn_given_by t = if is_empty t then [] else trim_space t ∷ []

abbrev last_seen_turn : Option ThreadSnapshotState → List Text
last_seen_turn none = []
last_seen_turn (some s) = turn_given_by s.last_seen_turn_id

-- The turns that `threadHasDeferredEmptyInterrupted` looks at, in order.
unfoldable pub candidate_turns : Thread → Option ThreadSnapshotState → List Text
candidate_turns thread snap = turn_given_by thread.active_turn_id ++ last_seen_turn snap

-- A deferral of the turn is on record and not expired. The second look at one turn, which the code
-- skips, would find what the first one found.
unfoldable pub has_live_deferral : Env → Text → Text → State → Bool
unfolding load_defer parse_time
has_live_deferral env thread turn st = elim (load_defer env thread turn env.clock st) [
  | none ↦ false
  | some found ↦ elim found [
    | none ↦ false
    | some s ↦ parse_time s.expires_at == 0 || ltb env.clock (parse_time s.expires_at)
  ]
]

-- `threadHasDeferredEmptyInterrupted`
unfoldable pub thread_has_deferred_empty_interrupted :
    Env → Thread → Option ThreadSnapshotState → State → Bool
unfolding candidate_turns has_live_deferral
thread_has_deferred_empty_interrupted env thread snap st =
    any (λ turn. not (is_empty turn) && has_live_deferral env thread.id turn st)
      (candidate_turns thread snap)
