-- ===== src/Daemon/TerminalGate/Apply/Effects.antt =====
-- What the service changes when the gate has decided.
use codex_feishu.Prelude.{◌≡◌, Bool, true, false, not, ◌&&◌, Option, none, some, if◌then◌else◌}
use codex_feishu.Prelude.Text.{Text, text_eq}
use codex_feishu.AppServer.Snapshot.{ThreadSnapshotState}
use codex_feishu.Storage.State.{lookup}
use codex_feishu.Daemon.TerminalGate.State.{DecisionKind, accept, defer, recover, Decision, State}
use codex_feishu.Daemon.TerminalGate.Decide.{Outcome}
use codex_feishu.Daemon.TerminalGate.Apply.{Tables, SnapshotFaults, latest_snapshot, time_is_blank}

-- A deferral asks for a poll.
record AsksPoll (d : Decision) : Type 0 where
  hot : d.hot_poll ≡ true
  next : time_is_blank d.next_poll_after ≡ false

abbrev pub is_defer : DecisionKind → Bool
is_defer accept = false
is_defer defer = true
is_defer recover = false

-- The snapshot of a thread with the next poll of a decision.
abbrev pub polled :
    Decision → Option ThreadSnapshotState → Option ThreadSnapshotState → Option ThreadSnapshotState
polled d (some s) found = some (record s { next_poll_after = d.next_poll_after })
polled d none found = found

-- What the service changes on an outcome of the gate.
abbrev Applied :
    SnapshotFaults
    → Option ThreadSnapshotState
    → Tables
    → Text
    → Outcome
    → Bool × (Decision × Tables)
    → Type 0
Applied faults previous t key o (held, (d, t')) =
    (held ≡ (o.done && is_defer d.action))
    × (lookup key t'.snapshots ≡ (
        if held && (not faults.write_fails && text_eq d.thread_id key)
        then polled d (latest_snapshot faults d.thread_id previous t.snapshots)
            (lookup key t.snapshots)
        else lookup key t.snapshots))
